-- ===== src/Shell/Tokens.antt =====
-- What the scanner makes of printed words, symbols and redirections.
use ence.Base.{ℕ, ◌≡◌, ◌≢◌, refl, Bool, true, false, List, [], ◌∷◌, ◌++◌, ◌==◌, arith, All}
use ence.Shell.{among, symbols, skip, in_word, word, token, gettoken, starts}
use ence.Shell.Printer.{IsWord}

-- The text is at its end, or goes on with one of the symbols.
abbrev pub follows : List ℕ → List ℕ → Bool
follows toks [] = true
follows toks (c ∷ s) = among c toks

abbrev pub exec_end : List ℕ
exec_end = b'|' ∷ b')' ∷ b'&' ∷ b';' ∷ []

abbrev pub Trim : List ℕ → Type 0
Trim s = skip s ≡ s

pub skip-follows : (s : List ℕ) → follows exec_end s ≡ true → Trim s
unfolding skip among
skip-follows [] e = refl
skip-follows (c ∷ s) e = ground (arith, e)

pub skip_symbol : (c : ℕ) (s : List ℕ) → among c symbols ≡ true → Trim (c ∷ s)
unfolding skip among
skip_symbol c s e = ground (arith, e)

pub skip-in_word : (c : ℕ) (s : List ℕ) → in_word c ≡ true → Trim (c ∷ s)
unfolding skip
skip-in_word c s e = ground (arith, e)

-- a word in front of something else
pub skip_word : (w s : List ℕ) → IsWord w → Trim (w ++ s)
skip_word [] s h = absurd h
skip_word (c ∷ w) s h = skip-in_word c (w ++ s) h.0

abbrev pub Stops : List ℕ → Type 0
Stops [] = Unit
Stops (c ∷ s) = in_word c ≡ false

word-append : (w s : List ℕ) → All (λ d. in_word d ≡ true) w → Stops s → word (w ++ s) ≡ (w, s)
unfolding word
word-append [] [] h stop = refl
word-append [] (c ∷ s) h stop = ground (arith, stop)
word-append (c ∷ w) s (h, hs) stop = rw (word-append w s hs stop, h) refl

in_word-symbols : (c : ℕ) → in_word c ≡ true → among c symbols ≡ false
in_word-symbols c e = ground (arith, e)

in_word-gt : (c : ℕ) → in_word c ≡ true → (c == b'>') ≡ false
unfolding among
in_word-gt c e = ground (arith, e)

-- gettoken at a word
pub gettoken_word : (w s : List ℕ) → IsWord w → Stops s → gettoken (w ++ s) ≡ (b'a', w, skip s)
unfolding gettoken token
gettoken_word [] s h stop = absurd h
gettoken_word (c ∷ w) s h stop =
    let e = word-append (c ∷ w) s h stop in rw (skip-in_word c (w ++ s) h.0) (at_word (h.0) e)
  where
    at_word :
        in_word c ≡ true
        → word (c ∷ (w ++ s)) ≡ (c ∷ w, s)
        → token (c ∷ (w ++ s)) ≡ (b'a', c ∷ w, skip s)
    at_word here e = rw (in_word-gt c here, in_word-symbols c here, e) refl

pub peek_word :
    (toks w s : List ℕ)
    → IsWord w
    → ((c : ℕ) → among c toks ≡ true → among c symbols ≡ true)
    → starts toks (w ++ s) ≡ false
peek_word toks [] s h sub = absurd h
peek_word toks (c ∷ w) s h sub = ground (arith, sub c, h.0)

-- gettoken at a symbol other than >
pub gettoken_symbol :
    (c : ℕ) (s : List ℕ)
    → among c symbols ≡ true
    → c ≢ b'>'
    → gettoken (c ∷ s) ≡ (c, c ∷ [], skip s)
unfolding gettoken token
gettoken_symbol c s e ne =
    rw (skip_symbol c s e) (let no : (c == b'>') ≡ false = ground (arith, ne) in rw (no, e) refl)

-- gettoken at > in front of a word
pub gettoken_gt : (w s : List ℕ) → IsWord w → gettoken (b'>' ∷ (w ++ s)) ≡ (b'>', b'>' ∷ [], w ++ s)
unfolding gettoken token
gettoken_gt [] s h = absurd h
gettoken_gt (c ∷ w) s h =
    rw
      (
        skip_symbol b'>' (c ∷ (w ++ s)) (unfold among in refl),
        in_word-gt c h.0,
        skip-in_word c (w ++ s) h.0,
      )
      refl
