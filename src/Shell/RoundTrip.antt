-- ===== src/Shell/RoundTrip.antt =====
-- A printed command is parsed back to itself.
use ence.Base.{
  ℕ, zero, suc, ◌+◌, ◌-◌, ◌*◌, ◌≤◌, ◌≡◌, refl, ◌∙◌, true, List, [], ◌∷◌, ◌++◌, length,
  length-append, arith, All, append_assoc, append-nil,
}
use ence.Shell.{
  Cmd, execcmd, redircmd, pipecmd, listcmd, backcmd, ok, bind, among, symbols, skip, parse_back,
  parseexec, parsepipe, parseline, finish, peek, parsecmd,
}
use ence.Shell.Tokens.{follows, exec_end, Trim, skip-follows, skip_symbol, skip_word}
use ence.Shell.Printer.{
  Level, in_line, in_back, in_pipe, in_exec, IsWord, IsCmd, words, redirection, print,
}
use ence.Shell.Simple.{
  Redirection, IsRedirection, texts, apply, texts-Trim, texts-length, words-length,
  parseredirs-texts, parseexec-words,
}
use ence.Shell.Rounds.{
  pipe_end, line_end, pipe-exec, back-pipe, line-back, parsepipe_single, parsepipe_pipe,
  parse_back_stop, parse_back_go, parseline_single, parseline_list, parseexec_block,
}

-- the & at the end of a printed command
abbrev ands : Cmd → ℕ
ands (backcmd c) = suc (ands c)
ands _ = 0

abbrev Exec : Cmd → List ℕ → Type 0
Exec c text =
    (rs : List Redirection) (rest : List ℕ) (fuel : ℕ)
    → All IsRedirection rs
    → follows exec_end rest ≡ true
    → 4 * (length text + length (texts rs)) + 2 ≤ fuel
    → parseexec fuel (text ++ (texts rs ++ rest)) ≡ ok (apply rs c) rest

abbrev Pipe : Cmd → List ℕ → Type 0
Pipe c text =
    (rest : List ℕ) (fuel : ℕ)
    → follows pipe_end rest ≡ true
    → 4 * length text + 3 ≤ fuel
    → parsepipe fuel (text ++ rest) ≡ ok c rest

-- with `n` of the & to come back to
abbrev Back : Cmd → ℕ → List ℕ → Type 0
Back c n text =
    (rest : List ℕ) (fuel g : ℕ)
    → follows pipe_end rest ≡ true
    → 4 * length text + 3 ≤ fuel
    → n ≤ g
    → bind (parsepipe fuel (text ++ rest)) (λ left s1. parse_back g left s1)
      ≡ parse_back (g - n) c rest

abbrev Line : Cmd → List ℕ → Type 0
Line c text =
    (rest : List ℕ) (fuel : ℕ)
    → follows line_end rest ≡ true
    → 4 * length text + 4 ≤ fuel
    → parseline fuel (text ++ rest) ≡ ok c rest

-- each level from the one below, for the same text
exec-Pipe : (c : Cmd) (text : List ℕ) → Exec c text → Pipe c text
exec-Pipe c text h rest zero ends enough = absurd (omega arith)
exec-Pipe c text h rest (suc fuel) ends enough =
    parsepipe_single fuel (text ++ rest) rest c
      (h [] rest fuel tt (pipe-exec rest ends) (omega arith)) ends

pipe-Back : (c : Cmd) (text : List ℕ) → Pipe c text → Back c 0 text
pipe-Back c text h rest fuel g ends enough few =
    let same : g - 0 ≡ g = omega arith in rw (h rest fuel ends enough, same) refl

backgrounds-Line : (c : Cmd) (n : ℕ) (text : List ℕ) → n ≤ length text → Back c n text → Line c text
backgrounds-Line c n text short h rest zero ends enough = absurd (omega arith)
backgrounds-Line c n text short h rest (suc fuel) ends enough =
    let to_back = line-back rest ends in
    parseline_single fuel (text ++ rest) rest c
      (h rest fuel fuel (back-pipe rest to_back) (omega arith) (omega arith)
        ∙ parse_back_stop (fuel - n) c rest (omega arith) to_back)
      ends

-- a line in parentheses
line-Exec :
    (c : Cmd) (text : List ℕ)
    → ((rest : List ℕ) → Trim rest → Trim (text ++ rest))
    → Line c text
    → Exec c (b'(' ∷ (text ++ (b')' ∷ [])))
line-Exec c text trim h rs rest zero all ends enough = absurd (omega arith)
line-Exec c text trim h rs rest (suc zero) all ends enough = absurd (omega arith)
line-Exec c text trim h rs rest (suc (suc fuel)) all ends enough =
    let more = texts rs ++ rest in
    let size = length-append text (b')' ∷ []) in
    rw (append_assoc text (b')' ∷ []) more) (
      parseexec_block fuel (text ++ (b')' ∷ more)) more rest c (apply rs c)
        (trim (b')' ∷ more) (skip_symbol b')' more (unfold among in refl)))
        (h (b')' ∷ more) fuel (unfold among in refl) (omega arith)) (texts-Trim rs rest ends)
        (parseredirs-texts rs c rest fuel (omega (arith, texts-length rs)) all ends))

-- What each function of the parser makes of the command, printed for it.
record Reads (c : Cmd) : Type 0 where
  trim : (at : Level) (rest : List ℕ) → Trim rest → Trim (print at c ++ rest)
  short : ands c ≤ length (print in_back c)
  exec : Exec c (print in_exec c)
  pipe : Pipe c (print in_pipe c)
  back : Back c (ands c) (print in_back c)
  line : Line c (print in_line c)

paren-Trim :
    (text : List ℕ)
    → ((rest : List ℕ) → Trim rest → Trim (text ++ rest))
    → (rest : List ℕ) → Trim rest
    → Trim ((b'(' ∷ (text ++ (b')' ∷ []))) ++ rest)
paren-Trim text h rest t = skip_symbol b'(' _ (unfold among in refl)

-- a command that is printed alike at every level
simple-Reads :
    (c : Cmd) (text : List ℕ)
    → ((at : Level) → print at c ≡ text)
    → ands c ≡ 0
    → ((rest : List ℕ) → Trim rest → Trim (text ++ rest))
    → Exec c text
    → Reads c
simple-Reads c text same none trim exec =
    let pipe = exec-Pipe c text exec in
    let back = pipe-Back c text pipe in
    let line = backgrounds-Line c 0 text (omega arith) back in
    record {
      trim = λ at rest t. rw (same at) (trim rest t);
      short = rw none (omega arith);
      exec = rw (same in_exec) exec;
      pipe = rw (same in_pipe) pipe;
      back = rw (same in_back, none) back;
      line = rw (same in_line) line;
    }

execcmd-Reads : (argv : List (List ℕ)) → IsCmd (execcmd argv) → Reads (execcmd argv)
unfolding print IsCmd
execcmd-Reads argv (all, few) =
    simple-Reads (execcmd argv) (words argv) (λ at. refl) refl (words_trim argv all)
      (λ rs rest fuel redirs ends enough.
        parseexec-words rs rest redirs ends argv fuel all few
          (omega (arith, texts-length rs, words-length argv)))
  where
    words_trim :
        (ws : List (List ℕ)) → All IsWord ws → (rest : List ℕ) → Trim rest → Trim (words ws ++ rest)
    words_trim [] h rest t = t
    words_trim (w ∷ ws) h rest t = rw (append_assoc w (b' ' ∷ words ws) rest) (skip_word w _ h.0)

redircmd-Reads :
    (c : Cmd) (file : List ℕ) (mode fd : ℕ)
    → IsCmd (redircmd c file mode fd)
    → Reads c
    → Reads (redircmd c file mode fd)
unfolding print IsCmd
redircmd-Reads c file mode fd valid ih =
    let text = redirection fd file in
    let r : Redirection = record { file = file; mode = mode; fd = fd } in
    simple-Reads (redircmd c file mode fd) (print in_exec c ++ text) (λ at. refl) refl
      (λ rest t.
        rw (append_assoc (print in_exec c) text rest)
          (ih.trim in_exec (text ++ rest) (skip_symbol _ _ (unfold among in ground arith))))
      (λ rs rest fuel all ends enough.
        let size = length-append (print in_exec c) text in
        let size2 = length-append text (texts rs) in
        rw
          (
            append_assoc (print in_exec c) text (texts rs ++ rest),
            ← append_assoc text (texts rs) rest,
          )
          (ih.exec (r ∷ rs) rest fuel ((valid.1, valid.2), all) ends (omega arith)))

-- a text that goes on with a symbol
joined-Trim :
    (c : Cmd) (at : Level) (t : ℕ) (s rest : List ℕ)
    → Reads c
    → among t symbols ≡ true
    → Trim ((print at c ++ (t ∷ s)) ++ rest)
joined-Trim c at t s rest ih e =
    rw (append_assoc (print at c) (t ∷ s) rest)
      (ih.trim at (t ∷ (s ++ rest)) (skip_symbol t (s ++ rest) e))

pipecmd-Reads : (l r : Cmd) → Reads l → Reads r → Reads (pipecmd l r)
unfolding print
pipecmd-Reads l r il ir =
    let back = pipe-Back (pipecmd l r) text pipe in
    let line = backgrounds-Line (pipecmd l r) 0 text (omega arith) back in
    record {
      trim = trims;
      short = omega arith;
      exec = line-Exec (pipecmd l r) text trim line;
      pipe = pipe;
      back = back;
      line = line;
    }
  where
    text : List ℕ
    text = print in_exec l ++ (b'|' ∷ print in_pipe r)

    trim : (rest : List ℕ) → Trim rest → Trim (text ++ rest)
    trim rest t = joined-Trim l in_exec b'|' (print in_pipe r) rest il (unfold among in refl)

    trims : (at : Level) (rest : List ℕ) → Trim rest → Trim (print at (pipecmd l r) ++ rest)
    trims in_exec rest t = paren-Trim text trim rest t
    trims in_pipe rest t = trim rest t
    trims in_back rest t = trim rest t
    trims in_line rest t = trim rest t

    pipe : Pipe (pipecmd l r) text
    pipe rest zero ends enough = absurd (omega arith)
    pipe rest (suc fuel) ends enough =
        let right = print in_pipe r ++ rest in
        let size = length-append (print in_exec l) (b'|' ∷ print in_pipe r) in
        rw (append_assoc (print in_exec l) (b'|' ∷ print in_pipe r) rest) (
          parsepipe_pipe fuel (print in_exec l ++ (b'|' ∷ right)) right rest l r
            (il.exec [] (b'|' ∷ right) fuel tt (unfold among in refl) (omega arith))
            (ir.trim in_pipe rest (skip-follows rest (pipe-exec rest ends)))
            (ir.pipe rest fuel ends (omega arith)))

backcmd-Reads : (c : Cmd) → Reads c → Reads (backcmd c)
unfolding print
backcmd-Reads c ih =
    let line = backgrounds-Line (backcmd c) (suc (ands c)) text short back in
    let exec = line-Exec (backcmd c) text trim line in
    record {
      trim = trims;
      short = short;
      exec = exec;
      pipe = exec-Pipe (backcmd c) (print in_pipe (backcmd c)) exec;
      back = back;
      line = line;
    }
  where
    text : List ℕ
    text = print in_back c ++ (b'&' ∷ [])

    trim : (rest : List ℕ) → Trim rest → Trim (text ++ rest)
    trim rest t = joined-Trim c in_back b'&' [] rest ih (unfold among in refl)

    trims : (at : Level) (rest : List ℕ) → Trim rest → Trim (print at (backcmd c) ++ rest)
    trims in_exec rest t = paren-Trim text trim rest t
    trims in_pipe rest t = paren-Trim text trim rest t
    trims in_back rest t = trim rest t
    trims in_line rest t = trim rest t

    short : suc (ands c) ≤ length text
    short = omega (arith, ih.short, length-append (print in_back c) (b'&' ∷ []))

    back : Back (backcmd c) (suc (ands c)) text
    back rest fuel g ends enough few =
        let size = length-append (print in_back c) (b'&' ∷ []) in
        let one : g - ands c ≡ suc (g - suc (ands c)) = omega arith in
        rw (append_assoc (print in_back c) (b'&' ∷ []) rest) (
          ih.back (b'&' ∷ rest) fuel g (unfold among in refl) (omega arith) (omega arith)
          ∙ rw one
              (parse_back_go (g - suc (ands c)) c rest (skip-follows rest (pipe-exec rest ends))))

listcmd-Reads : (l r : Cmd) → Reads l → Reads r → Reads (listcmd l r)
unfolding print
listcmd-Reads l r il ir =
    let exec = line-Exec (listcmd l r) text trim line in
    let pipe = exec-Pipe (listcmd l r) (print in_pipe (listcmd l r)) exec in
    record {
      trim = trims;
      short = omega arith;
      exec = exec;
      pipe = pipe;
      back = pipe-Back (listcmd l r) (print in_back (listcmd l r)) pipe;
      line = line;
    }
  where
    text : List ℕ
    text = print in_back l ++ (b';' ∷ print in_line r)

    trim : (rest : List ℕ) → Trim rest → Trim (text ++ rest)
    trim rest t = joined-Trim l in_back b';' (print in_line r) rest il (unfold among in refl)

    trims : (at : Level) (rest : List ℕ) → Trim rest → Trim (print at (listcmd l r) ++ rest)
    trims in_exec rest t = paren-Trim text trim rest t
    trims in_pipe rest t = paren-Trim text trim rest t
    trims in_back rest t = paren-Trim text trim rest t
    trims in_line rest t = trim rest t

    line : Line (listcmd l r) text
    line rest zero ends enough = absurd (omega arith)
    line rest (suc fuel) ends enough =
        let right = print in_line r ++ rest in
        let size = length-append (print in_back l) (b';' ∷ print in_line r) in
        let few = il.short in
        rw (append_assoc (print in_back l) (b';' ∷ print in_line r) rest) (
          parseline_list fuel (print in_back l ++ (b';' ∷ right)) right rest l r
            (il.back (b';' ∷ right) fuel fuel (unfold among in refl) (omega arith) (omega arith)
              ∙ parse_back_stop (fuel - ands l) l (b';' ∷ right) (omega arith)
                  (unfold among in refl))
            (ir.trim in_line rest
              (skip-follows rest (pipe-exec rest (back-pipe rest (line-back rest ends)))))
            (ir.line rest fuel ends (omega arith)))

cmd-Reads : (c : Cmd) → IsCmd c → Reads c
unfolding IsCmd
cmd-Reads (execcmd argv) h = execcmd-Reads argv h
cmd-Reads (redircmd c file mode fd) h = redircmd-Reads c file mode fd h (cmd-Reads c h.0)
cmd-Reads (pipecmd l r) h = pipecmd-Reads l r (cmd-Reads l h.0) (cmd-Reads r h.1)
cmd-Reads (backcmd c) h = backcmd-Reads c (cmd-Reads c h)
cmd-Reads (listcmd l r) h = listcmd-Reads l r (cmd-Reads l h.0) (cmd-Reads r h.1)

-- parsecmd reads every printed command back, for commands that the parser can produce.
pub parsecmd-print : (c : Cmd) → IsCmd c → parsecmd (print in_line c) ≡ ok c []
unfolding parsecmd finish peek
parsecmd-print c h =
    let text = print in_line c in
    let whole = (cmd-Reads c h).line [] (4 * length text + 4) refl (omega arith) in
    let same = append-nil text in rw (rw same at whole) (unfold skip in refl)
