-- ===== src/Shell/Simple.antt =====
-- What the parser makes of a printed command without operators: words with redirections behind them.
use ence.Base.{
  ℕ, zero, suc, ◌+◌, ◌≤◌, ◌<◌, ◌≡◌, inl, inr, refl, sym, ap, ◌∙◌, true, false, List, [], ◌∷◌, ◌++◌,
  length, length-append, arith, All, append_assoc, subst,
}
use ence.Shell.{
  Cmd, execcmd, redircmd, ok, bind, among, symbols, skip, word, token, gettoken, starts, peek,
  redirect, parseredirs, maxargs, set_argv, parse_args, parseexec,
}
use ence.Shell.Printer.{IsWord, IsMode, words, redirection}
use ence.Shell.Tokens.{
  follows, exec_end, Trim, skip-follows, skip_symbol, skip_word, Stops, gettoken_word, peek_word,
  gettoken_symbol, gettoken_gt,
}

pub record Redirection : Type 0 where
  pub file : List ℕ
  pub mode : ℕ
  pub fd : ℕ

abbrev pub IsRedirection : Redirection → Type 0
IsRedirection r = IsWord r.file × IsMode r.mode r.fd

abbrev pub texts : List Redirection → List ℕ
texts [] = []
texts (r ∷ rs) = redirection r.fd r.file ++ texts rs

pub texts-length : (rs : List Redirection) → length rs ≤ length (texts rs)
texts-length [] = omega arith
texts-length (r ∷ rs) = omega (arith, texts-length rs, length-append r.file (texts rs))

pub words-length : (ws : List (List ℕ)) → length ws ≤ length (words ws)
words-length [] = omega arith
words-length (w ∷ ws) = omega (arith, words-length ws, length-append w (b' ' ∷ words ws))

abbrev pub apply : List Redirection → Cmd → Cmd
apply [] cmd = cmd
apply (r ∷ rs) cmd = apply rs (redircmd cmd r.file r.mode r.fd)

-- The text goes on with redirections, and then ends.
texts-Stops :
    (rs : List Redirection) (s : List ℕ) → follows exec_end s ≡ true → Stops (texts rs ++ s)
unfolding among
texts-Stops [] [] e = tt
texts-Stops [] (c ∷ s) e = ground (arith, e)
texts-Stops (r ∷ rs) s e = ground arith

pub texts-Trim :
    (rs : List Redirection) (s : List ℕ) → follows exec_end s ≡ true → Trim (texts rs ++ s)
texts-Trim [] s e = skip-follows s e
texts-Trim (r ∷ rs) s e = skip_symbol _ _ (unfold among in ground arith)

-- what gettoken returns for the symbol of a redirection
redirection-token :
    (r : Redirection) (s : List ℕ)
    → IsRedirection r
    → ((gettoken (redirection r.fd r.file ++ s)).2 ≡ r.file ++ s)
      × ((cmd : Cmd)
          → redirect (gettoken (redirection r.fd r.file ++ s)).0 cmd r.file
            ≡ redircmd cmd r.file r.mode r.fd)
redirection-token r s (w, inl (m, d)) =
    let e = gettoken_symbol b'<' (r.file ++ s) (unfold among in refl) (λ e. ground (arith, e)) in
    rw (d, e, m, skip_word r.file s w) (refl, λ cmd. refl)
redirection-token r s (w, inr (m, d)) = rw (d, gettoken_gt r.file s w, m) (refl, λ cmd. refl)

no_redirection : (s : List ℕ) → follows exec_end s ≡ true → starts (b'<' ∷ b'>' ∷ []) s ≡ false
unfolding among
no_redirection [] e = refl
no_redirection (c ∷ s) e = ground (arith, e)

skip_redirection : (r : Redirection) (s : List ℕ) → Trim (redirection r.fd r.file ++ s)
skip_redirection r s = skip_symbol _ _ (unfold among in ground arith)

redirection-starts :
    (r : Redirection) (s : List ℕ) → starts (b'<' ∷ b'>' ∷ []) (redirection r.fd r.file ++ s) ≡ true
unfolding among
redirection-starts r s = ground arith

-- one round of the loop of parseredirs
parseredirs-stop :
    (fuel : ℕ) (cmd : Cmd) (s : List ℕ)
    → starts (b'<' ∷ b'>' ∷ []) (skip s) ≡ false
    → parseredirs (suc fuel) cmd s ≡ ok cmd (skip s)
unfolding parseredirs peek
parseredirs-stop fuel cmd s none = ground (arith, none)

parseredirs-none :
    (fuel : ℕ) (cmd : Cmd) (s : List ℕ)
    → 0 < fuel
    → Trim s
    → starts (b'<' ∷ b'>' ∷ []) s ≡ false
    → parseredirs fuel cmd s ≡ ok cmd s
parseredirs-none zero cmd s enough t none = absurd (omega arith)
parseredirs-none (suc fuel) cmd s enough t none =
    parseredirs-stop fuel cmd s (rw t none) ∙ ap (ok cmd) t

parseredirs-go :
    (fuel : ℕ) (cmd : Cmd) (s : List ℕ)
    → starts (b'<' ∷ b'>' ∷ []) (skip s) ≡ true
    → (gettoken (gettoken (skip s)).2).0 ≡ b'a'
    → parseredirs (suc fuel) cmd s
      ≡ parseredirs fuel
          (redirect (gettoken (skip s)).0 cmd (gettoken (gettoken (skip s)).2).1)
          (gettoken (gettoken (skip s)).2).2
unfolding parseredirs peek
parseredirs-go fuel cmd s hit word = ground (arith, hit, word)

pub parseredirs-texts :
    (rs : List Redirection) (cmd : Cmd) (s : List ℕ) (fuel : ℕ)
    → length rs < fuel
    → All IsRedirection rs
    → follows exec_end s ≡ true
    → parseredirs fuel cmd (texts rs ++ s) ≡ ok (apply rs cmd) s
parseredirs-texts rs cmd s zero enough all e = absurd (omega arith)
parseredirs-texts [] cmd s (suc fuel) enough all e =
    let t = skip-follows s e in
    parseredirs-stop fuel cmd s (rw t (no_redirection s e)) ∙ ap (ok cmd) t
parseredirs-texts (r ∷ rs) cmd s (suc fuel) enough (one, all) e =
    let tail = texts rs ++ s in
    let here = redirection r.fd r.file ++ tail in
    let tok = redirection-token r tail one in
    let w = gettoken_word r.file tail one.0 (texts-Stops rs s e) in
    rw (append_assoc (redirection r.fd r.file) (texts rs) s) (
      parseredirs-go fuel cmd here (rw (skip_redirection r tail) (redirection-starts r tail))
        (rw (skip_redirection r tail, tok.0, w) refl)
      ∙ rw (skip_redirection r tail, tok.0, w, tok.1 cmd, texts-Trim rs s e)
          (parseredirs-texts rs (redircmd cmd r.file r.mode r.fd) s fuel (omega arith) all e))

-- the loop of parseexec at its end, and one round of it
parse_args-done :
    (fuel : ℕ) (argv : List (List ℕ)) (ret : Cmd) (s : List ℕ)
    → 0 < fuel
    → follows exec_end s ≡ true
    → parse_args fuel argv ret s ≡ ok (set_argv argv ret) s
unfolding parse_args peek
parse_args-done zero argv ret s enough e = absurd (omega arith)
parse_args-done (suc fuel) argv ret [] enough e = unfold skip gettoken token in refl
parse_args-done (suc fuel) argv ret (c ∷ s) enough e =
    let t = skip-follows (c ∷ s) e in
    let hit : starts exec_end (skip (c ∷ s)) ≡ true = rw t e in ground (arith, hit, t)

parse_args-go :
    (fuel : ℕ) (argv : List (List ℕ)) (ret : Cmd) (s : List ℕ)
    → starts exec_end (skip s) ≡ false
    → (gettoken (skip s)).0 ≡ b'a'
    → length argv + 1 < maxargs
    → parse_args (suc fuel) argv ret s
      ≡ bind
          (parseredirs fuel ret (gettoken (skip s)).2)
          (λ ret' s3. parse_args fuel (argv ++ ((gettoken (skip s)).1 ∷ [])) ret' s3)
unfolding parse_args peek
parse_args-go fuel argv ret s none word few = ground (arith, none, word, few)

skip_blank : (s : List ℕ) → skip (b' ' ∷ s) ≡ skip s
unfolding skip among
skip_blank s = refl

set_argv-apply :
    (argv : List (List ℕ)) (rs : List Redirection) (cmd : Cmd)
    → set_argv argv (apply rs cmd) ≡ apply rs (set_argv argv cmd)
unfolding set_argv
set_argv-apply argv [] cmd = refl
set_argv-apply argv (r ∷ rs) cmd = set_argv-apply argv rs (redircmd cmd r.file r.mode r.fd)

exec_end-symbols : (c : ℕ) → among c exec_end ≡ true → among c symbols ≡ true
unfolding among
exec_end-symbols c e = ground (arith, e)

angles-symbols : (c : ℕ) → among c (b'<' ∷ b'>' ∷ []) ≡ true → among c symbols ≡ true
unfolding among
angles-symbols c e = ground (arith, e)

paren-symbols : (c : ℕ) → among c (b'(' ∷ []) ≡ true → among c symbols ≡ true
unfolding among
paren-symbols c e = ground (arith, e)

texts-quiet :
    (rs : List Redirection) (s : List ℕ)
    → follows exec_end s ≡ true
    → starts (b'(' ∷ []) (texts rs ++ s) ≡ false
unfolding among
texts-quiet [] [] e = refl
texts-quiet [] (c ∷ s) e = ground (arith, e)
texts-quiet (r ∷ rs) s e = ground arith

parseexec-simple :
    (fuel : ℕ) (s : List ℕ)
    → Trim s
    → starts (b'(' ∷ []) s ≡ false
    → parseexec (suc fuel) s
      ≡ bind (parseredirs fuel (execcmd []) s) (λ ret s2. parse_args fuel [] ret s2)
unfolding parseexec peek
parseexec-simple fuel s t none = ground (arith, t, none)

module _ (rs : List Redirection) (s : List ℕ) (all : All IsRedirection rs)
    (e : follows exec_end s ≡ true) where
  words-Trim : (ws : List (List ℕ)) → All IsWord ws → Trim (words ws ++ (texts rs ++ s))
  words-Trim [] h = texts-Trim rs s e
  words-Trim (w ∷ ws) (h, hs) =
      subst (λ t. skip t ≡ t) (sym (append_assoc w (b' ' ∷ words ws) (texts rs ++ s)))
        (skip_word w _ h)

  words-quiet :
      (toks w : List ℕ) (ws : List (List ℕ))
      → IsWord w
      → ((c : ℕ) → among c toks ≡ true → among c symbols ≡ true)
      → starts toks (words (w ∷ ws) ++ (texts rs ++ s)) ≡ false
  words-quiet toks w ws h sub =
      ap (starts toks) (append_assoc w (b' ' ∷ words ws) (texts rs ++ s)) ∙ peek_word toks w _ h sub

  -- one word is read
  parse_args-word :
      (w : List ℕ) (ws argv : List (List ℕ)) (cmd : Cmd) (fuel : ℕ)
      → All IsWord (w ∷ ws)
      → length argv + 1 < maxargs
      → parse_args (suc fuel) argv cmd (words (w ∷ ws) ++ (texts rs ++ s))
        ≡ bind
            (parseredirs fuel cmd (words ws ++ (texts rs ++ s)))
            (λ ret' s3. parse_args fuel (argv ++ (w ∷ [])) ret' s3)
  parse_args-word w ws argv cmd fuel (h, hs) few =
      let tail = texts rs ++ s in
      let text = w ++ (b' ' ∷ (words ws ++ tail)) in
      let t = skip_word w (b' ' ∷ (words ws ++ tail)) h in
      let g : gettoken text ≡ (b'a', w, words ws ++ tail) =
        gettoken_word w (b' ' ∷ (words ws ++ tail)) h (unfold among in refl)
        ∙ ap (λ (r : List ℕ). (b'a', w, r)) (skip_blank (words ws ++ tail) ∙ words-Trim ws hs) in
      rw (append_assoc w (b' ' ∷ words ws) tail) (
        parse_args-go fuel argv cmd text (rw t (peek_word exec_end w _ h exec_end-symbols))
          (rw (t, g) refl) few
        ∙ rw (t, g) refl)

  -- the words from `w` on, and the redirections behind the last one
  parse_args-words :
      (w : List ℕ) (ws argv : List (List ℕ)) (cmd : Cmd) (fuel : ℕ)
      → All IsWord (w ∷ ws)
      → length argv + length (w ∷ ws) < maxargs
      → length ws + length rs + 1 < fuel
      → parse_args fuel argv cmd (words (w ∷ ws) ++ (texts rs ++ s))
        ≡ ok (apply rs (set_argv (argv ++ (w ∷ ws)) cmd)) s
  parse_args-words w ws argv cmd zero h few enough = absurd (omega arith)
  parse_args-words w [] argv cmd (suc fuel) h few enough =
      parse_args-word w [] argv cmd fuel h (omega arith)
      ∙ rw (parseredirs-texts rs cmd s fuel (omega arith) all e) (
          parse_args-done fuel (argv ++ (w ∷ [])) (apply rs cmd) s (omega arith) e
          ∙ ap (λ c. ok c s) (set_argv-apply (argv ++ (w ∷ [])) rs cmd))
  parse_args-words w (v ∷ vs) argv cmd (suc fuel) h few enough =
      let text = words (v ∷ vs) ++ (texts rs ++ s) in
      let quiet : starts (b'<' ∷ b'>' ∷ []) text ≡ false =
        words-quiet (b'<' ∷ b'>' ∷ []) v vs h.1.0 angles-symbols in
      parse_args-word w (v ∷ vs) argv cmd fuel h (omega arith)
      ∙ rw (parseredirs-none fuel cmd text (omega arith) (words-Trim (v ∷ vs) h.1) quiet) (
          parse_args-words v vs (argv ++ (w ∷ [])) cmd fuel h.1
            (omega (arith, length-append argv (w ∷ []))) (omega arith)
          ∙ ap (λ a. ok (apply rs (set_argv a cmd)) s) (append_assoc argv (w ∷ []) (v ∷ vs)))

  -- parseexec reads the words and the redirections.
  pub parseexec-words :
      (argv : List (List ℕ)) (fuel : ℕ)
      → All IsWord argv
      → length argv < maxargs
      → length argv + length rs + 1 < fuel
      → parseexec fuel (words argv ++ (texts rs ++ s)) ≡ ok (apply rs (execcmd argv)) s
  unfolding set_argv
  parseexec-words argv zero h few enough = absurd (omega arith)
  parseexec-words [] (suc fuel) h few enough =
      parseexec-simple fuel (texts rs ++ s) (texts-Trim rs s e) (texts-quiet rs s e)
      ∙ rw (parseredirs-texts rs (execcmd []) s fuel (omega arith) all e) (
          parse_args-done fuel [] (apply rs (execcmd [])) s (omega arith) e
          ∙ ap (λ c. ok c s) (set_argv-apply [] rs (execcmd [])))
  parseexec-words (w ∷ ws) (suc fuel) h few enough =
      let text = words (w ∷ ws) ++ (texts rs ++ s) in
      let t = words-Trim (w ∷ ws) h in
      parseexec-simple fuel text t (words-quiet (b'(' ∷ []) w ws h.0 paren-symbols)
      ∙ rw
          (parseredirs-none fuel (execcmd []) text (omega arith) t
            (words-quiet (b'<' ∷ b'>' ∷ []) w ws h.0 angles-symbols))
          (parse_args-words w ws [] (execcmd []) fuel h (omega arith) (omega arith))
