-- ===== src/Shell/Printer.antt =====
-- A printer of commands, with parentheses where the grammar of sh.c wants them.
use ence.Base.{
  ℕ, ◌≡◌, ◌<◌, ◌⊎◌, Bool, true, false, List, [], ◌∷◌, ◌++◌, length, ◌==◌, if◌then◌else◌, All,
}
use ence.Shell.{
  Cmd, execcmd, redircmd, pipecmd, listcmd, backcmd, in_word, rdonly, wronly_create, maxargs,
}

-- The function of the parser that is to read the text back.
pub data Level : Type 0 where
  in_line in_back in_pipe in_exec : Level

abbrev paren : Bool → List ℕ → List ℕ
paren false s = s
paren true s = b'(' ∷ (s ++ (b')' ∷ []))

abbrev pub words : List (List ℕ) → List ℕ
words [] = []
words (w ∷ ws) = w ++ (b' ' ∷ words ws)

abbrev pub redirection : (fd : ℕ) (file : List ℕ) → List ℕ
redirection fd file = (if fd == 0 then b'<' else b'>') ∷ file

abbrev wraps_pipe : Level → Bool
wraps_pipe in_exec = true
wraps_pipe _ = false

abbrev wraps_back : Level → Bool
wraps_back in_exec = true
wraps_back in_pipe = true
wraps_back _ = false

abbrev wraps_list : Level → Bool
wraps_list in_line = false
wraps_list _ = true

unfoldable pub print : Level → Cmd → List ℕ
print at (execcmd argv) = words argv
print at (redircmd cmd file mode fd) = print in_exec cmd ++ redirection fd file
print at (pipecmd left right) =
    paren (wraps_pipe at) (print in_exec left ++ (b'|' ∷ print in_pipe right))
print at (backcmd cmd) = paren (wraps_back at) (print in_back cmd ++ (b'&' ∷ []))
print at (listcmd left right) =
    paren (wraps_list at) (print in_back left ++ (b';' ∷ print in_line right))

-- A word is not empty and holds neither whitespace nor symbols.
abbrev pub IsWord : List ℕ → Type 0
IsWord [] = ⊥
IsWord (c ∷ w) = All (λ d. in_word d ≡ true) (c ∷ w)

-- the modes and descriptors of < and >
abbrev pub IsMode : (mode fd : ℕ) → Type 0
IsMode mode fd = ((mode ≡ rdonly) × (fd ≡ 0)) ⊎ ((mode ≡ wronly_create) × (fd ≡ 1))

-- What the parser can produce: words, fewer than MAXARGS of them, and redirections in a mode of its.
unfoldable pub IsCmd : Cmd → Type 0
IsCmd (execcmd argv) = All IsWord argv × (length argv < maxargs)
IsCmd (redircmd cmd file mode fd) = IsCmd cmd × IsWord file × IsMode mode fd
IsCmd (pipecmd left right) = IsCmd left × IsCmd right
IsCmd (backcmd cmd) = IsCmd cmd
IsCmd (listcmd left right) = IsCmd left × IsCmd right
