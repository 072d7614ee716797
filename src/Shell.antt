-- ===== src/Shell.antt =====
-- lab10xv6/xv6/sh.c: the parser of command lines. A text is the list of its bytes from *ps on to es,
-- none of them 0, and a word the bytes from q to eq, which nulterminate makes a string of.
pub mod Fuel
pub mod Printer
pub mod Tokens
pub mod Simple
pub mod Rounds
pub mod RoundTrip
mod Tests
use ence.Base.{
  ℕ, zero, suc, ◌+◌, ◌*◌, Bool, true, false, not, ◌&&◌, ◌||◌, List, [], ◌∷◌, ◌++◌, leb, length,
  ◌==◌, if◌then◌else◌,
}

-- struct execcmd, redircmd, pipecmd, listcmd and backcmd, with their constructors
pub data Cmd : Type 0 where
  execcmd : (argv : List (List ℕ)) → Cmd
  redircmd : (cmd : Cmd) (file : List ℕ) (mode fd : ℕ) → Cmd
  pipecmd : (left right : Cmd) → Cmd
  listcmd : (left right : Cmd) → Cmd
  backcmd : (cmd : Cmd) → Cmd

-- How a function of the parser ends: with a value and what is left of the text, or with panic.
pub data Parsed {ℓ} (A : Type ℓ) : Type ℓ where
  ok : A → (rest : List ℕ) → Parsed A
  panic : Parsed A
  out_of_fuel : Parsed A

abbrev pub bind {ℓ κ} : {A : Type ℓ} {B : Type κ} → Parsed A → (A → List ℕ → Parsed B) → Parsed B
bind (ok a s) f = f a s
bind panic f = panic
bind out_of_fuel f = out_of_fuel

-- strchr(cs, c) for a c other than 0
unfoldable pub among : ℕ → List ℕ → Bool
among c [] = false
among c (d ∷ cs) = (c == d) || among c cs

-- " \t\r\n\v"
abbrev pub whitespace : List ℕ
whitespace = b' ' ∷ b'\t' ∷ b'\r' ∷ b'\n' ∷ 11 ∷ []

-- "<|>&;()"
abbrev pub symbols : List ℕ
symbols = b'<' ∷ b'|' ∷ b'>' ∷ b'&' ∷ b';' ∷ b'(' ∷ b')' ∷ []

-- while(s < es && strchr(whitespace, *s)) s++
unfoldable pub skip : List ℕ → List ℕ
skip [] = []
skip (c ∷ s) = let more = skip s in if among c whitespace then more else c ∷ s

abbrev pub in_word : ℕ → Bool
in_word c = not (among c whitespace) && not (among c symbols)

-- the loop of gettoken over a word: the word, and what stands behind it
unfoldable pub word : List ℕ → List ℕ × List ℕ
word [] = ([], [])
word (c ∷ s) = let (w, rest) = word s in if in_word c then (c ∷ w, rest) else ([], c ∷ s)

-- gettoken behind the whitespace: what it returns, the bytes from q to eq, and the rest
unfoldable pub token : List ℕ → ℕ × List ℕ × List ℕ
token [] = (0, [], [])
token (c ∷ s) =
    if c == b'>'
    then (elim s [
      | [] ↦ (b'>', b'>' ∷ [], [])
      | d ∷ t ↦
          if d == b'>' then (b'+', b'>' ∷ b'>' ∷ [], skip t) else (b'>', b'>' ∷ [], skip (d ∷ t))
    ])
    else if among c symbols
    then (c, c ∷ [], skip s)
    else (b'a', (word (c ∷ s)).0, skip (word (c ∷ s)).1)

pub gettoken : List ℕ → ℕ × List ℕ × List ℕ
gettoken s = token (skip s)

-- whether the text goes on with a byte of `toks`
abbrev pub starts : List ℕ → List ℕ → Bool
starts toks [] = false
starts toks (c ∷ s) = among c toks

-- peek: the answer, and *ps after it
pub peek : (toks s : List ℕ) → Bool × List ℕ
peek toks s = (starts toks (skip s), skip s)

-- O_RDONLY and O_WRONLY|O_CREATE
abbrev pub rdonly : ℕ
rdonly = 0

abbrev pub wronly_create : ℕ
wronly_create = 0x201

-- the switch of parseredirs
abbrev pub redirect : (tok : ℕ) → Cmd → (file : List ℕ) → Cmd
redirect tok cmd file =
    if tok == b'<'
    then redircmd cmd file rdonly 0
    else if tok == b'>'
    then redircmd cmd file wronly_create 1
    else if tok == b'+'
    then redircmd cmd file wronly_create 1
    else cmd

unfoldable pub parseredirs : (fuel : ℕ) → Cmd → List ℕ → Parsed Cmd
parseredirs zero cmd s = out_of_fuel
parseredirs (suc fuel) cmd s =
    let (hit, s1) = peek (b'<' ∷ b'>' ∷ []) s in
    let (tok, _, s2) = gettoken s1 in
    let (kind, file, s3) = gettoken s2 in
    elim hit [
      | true ↦ elim (kind == b'a') [
        | true ↦ parseredirs fuel (redirect tok cmd file) s3
        | false ↦ panic
      ]
      | false ↦ ok cmd s1
    ]

abbrev pub maxargs : ℕ
maxargs = 10

-- parseexec fills in argv of the command that it made, also where redirections stand around it.
unfoldable pub set_argv : List (List ℕ) → Cmd → Cmd
set_argv argv (execcmd _) = execcmd argv
set_argv argv (redircmd cmd file mode fd) = redircmd (set_argv argv cmd) file mode fd
set_argv argv cmd = cmd

-- the while loop of parseexec, with the words so far in `argv`
unfoldable pub parse_args : (fuel : ℕ) (argv : List (List ℕ)) (ret : Cmd) → List ℕ → Parsed Cmd
parse_args zero argv ret s = out_of_fuel
parse_args (suc fuel) argv ret s =
    let (stop, s1) = peek (b'|' ∷ b')' ∷ b'&' ∷ b';' ∷ []) s in
    let (tok, q, s2) = gettoken s1 in
    elim stop [
      | true ↦ ok (set_argv argv ret) s1
      | false ↦ elim (tok == 0) [
        | true ↦ ok (set_argv argv ret) s2
        | false ↦ elim (not (tok == b'a') || leb maxargs (length argv + 1)) [
          | true ↦ panic
          | false ↦
              bind (parseredirs fuel ret s2) (λ ret' s3. parse_args fuel (argv ++ (q ∷ [])) ret' s3)
        ]
      ]
    ]

-- the while loop of parseline
unfoldable pub parse_back : (fuel : ℕ) → Cmd → List ℕ → Parsed Cmd
parse_back zero cmd s = out_of_fuel
parse_back (suc fuel) cmd s =
    let (hit, s1) = peek (b'&' ∷ []) s in
    elim hit [ true ↦ parse_back fuel (backcmd cmd) (gettoken s1).2 | false ↦ ok cmd s1 ]

unfoldable mutual
  pub parseline : (fuel : ℕ) → List ℕ → Parsed Cmd
  parseline zero s = out_of_fuel
  parseline (suc fuel) s = bind (parsepipe fuel s) (λ left s1.
      bind (parse_back fuel left s1) (λ cmd s2.
        let (hit, s3) = peek (b';' ∷ []) s2 in
        elim hit [
          | true ↦ bind (parseline fuel (gettoken s3).2) (λ right s4. ok (listcmd cmd right) s4)
          | false ↦ ok cmd s3
        ]))

  pub parsepipe : (fuel : ℕ) → List ℕ → Parsed Cmd
  parsepipe zero s = out_of_fuel
  parsepipe (suc fuel) s = bind (parseexec fuel s) (λ cmd s1.
      let (hit, s2) = peek (b'|' ∷ []) s1 in
      elim hit [
        | true ↦ bind (parsepipe fuel (gettoken s2).2) (λ right s3. ok (pipecmd cmd right) s3)
        | false ↦ ok cmd s2
      ])

  pub parseexec : (fuel : ℕ) → List ℕ → Parsed Cmd
  parseexec zero s = out_of_fuel
  parseexec (suc fuel) s =
      let (hit, s1) = peek (b'(' ∷ []) s in
      elim hit [
        | true ↦ parseblock fuel s1
        | false ↦ bind (parseredirs fuel (execcmd []) s1) (λ ret s2. parse_args fuel [] ret s2)
      ]

  pub parseblock : (fuel : ℕ) → List ℕ → Parsed Cmd
  parseblock zero s = out_of_fuel
  parseblock (suc fuel) s =
      let (hit, s1) = peek (b'(' ∷ []) s in
      elim hit [
        | true ↦ bind (parseline fuel (gettoken s1).2) (λ cmd s2.
            let (closed, s3) = peek (b')' ∷ []) s2 in
            elim closed [ true ↦ parseredirs fuel cmd (gettoken s3).2 | false ↦ panic ])
        | false ↦ panic
      ]

-- nothing may be left over
pub finish : Cmd → List ℕ → Parsed Cmd
finish cmd [] = ok cmd []
finish cmd (_ ∷ _) = panic

pub parsecmd : List ℕ → Parsed Cmd
parsecmd s = bind (parseline (4 * length s + 4) s) (λ cmd rest. finish cmd (peek [] rest).1)
