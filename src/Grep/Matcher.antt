-- ===== src/Grep/Matcher.antt =====
-- The matcher decides the language.
use ence.Base.{
  ℕ, ◌≡◌, ◌≢◌, ◌↔◌, inl, inr, refl, ap, Bool, true, false, List, [], ◌∷◌, ◌++◌, All, ◌==◌, arith,
  Bool-cases, ℕ_discrete,
}
use ence.Grep.{star, caret, matchstar, matchhere, match_from, match_re}
use ence.Grep.Language.{
  Fits, NoStar, NotEnd, Here, done, run, at_end, byte, Somewhere, anchored, anywhere,
}

-- matchstar finds a run and a match behind it.
matchstar_sound :
    (m : List ℕ → Bool) (c : ℕ) (text : List ℕ)
    → matchstar m c text ≡ true
    → (bytes after : List ℕ) × All (Fits c) bytes × (text ≡ bytes ++ after) × (m after ≡ true)
unfolding matchstar
matchstar_sound m c [] e = ([], [], tt, refl, e)
matchstar_sound m c (t ∷ ts) e = elim (Bool-cases (m (t ∷ ts))) [
  | inl now ↦ ([], t ∷ ts, tt, refl, now)
  | inr later ↦
      let e' : matchstar m c ts ≡ true = ground arith in
      let (bytes, after, all, split, found) = matchstar_sound m c ts e' in
      (t ∷ bytes, after, (ground arith, all), ap (◌∷◌ t) split, found)
]

matchstar_complete :
    (m : List ℕ → Bool) (c : ℕ) (bytes after : List ℕ)
    → All (Fits c) bytes
    → m after ≡ true
    → matchstar m c (bytes ++ after) ≡ true
unfolding matchstar
matchstar_complete m c [] [] all found = found
matchstar_complete m c [] (t ∷ ts) all found = ground arith
matchstar_complete m c (t ∷ bytes) after all found =
    let more = matchstar_complete m c bytes after all.1 found in let fit = all.0 in ground arith

byte_sound :
    (c d : ℕ) (re text : List ℕ)
    → (d == star) ≡ false
    → ((ts : List ℕ) → matchhere (d ∷ re) ts ≡ true → Here (d ∷ re) ts)
    → matchhere (c ∷ d ∷ re) text ≡ true
    → Here (c ∷ d ∷ re) text
unfolding matchhere
byte_sound c d re [] plain rest e = absurd (ground arith)
byte_sound c d re (t ∷ ts) plain rest e =
    byte (ground arith) tt (ground arith) (rest ts (ground arith))

matchhere_sound : (re text : List ℕ) → matchhere re text ≡ true → Here re text
unfolding matchhere
matchhere_sound [] text e = done
matchhere_sound (c ∷ []) [] e = at_end (ground arith)
matchhere_sound (c ∷ []) (t ∷ ts) e = byte tt (ground arith) (ground arith) done
matchhere_sound (c ∷ d ∷ re) text e = elim (Bool-cases (d == star)) [
  | inl starred ↦
      let (bytes, after, all, split, found) =
        matchstar_sound (matchhere re) c text (rw starred at e) in
      run bytes after (ground arith) all split (matchhere_sound re after found)
  | inr plain ↦ byte_sound c d re text plain (matchhere_sound (d ∷ re)) e
]

byte_complete :
    (c t : ℕ) (re ts : List ℕ)
    → NoStar re
    → NotEnd c re
    → Fits c t
    → matchhere re ts ≡ true
    → matchhere (c ∷ re) (t ∷ ts) ≡ true
unfolding matchhere
byte_complete c t [] ts plain inner fit found = ground arith
byte_complete c t (d ∷ re) ts plain inner fit found = ground arith

matchhere_complete : {re text : List ℕ} → Here re text → matchhere re text ≡ true
unfolding matchhere
matchhere_complete done = refl
matchhere_complete (run {c} {d} {re} bytes after starred all split h) =
    let found = matchstar_complete (matchhere re) c bytes after all (matchhere_complete h) in
    rw split (ground arith)
matchhere_complete (at_end e) = ground arith
matchhere_complete (byte {c} {t} {re} {ts} plain inner fit h) =
    byte_complete c t re ts plain inner fit (matchhere_complete h)

match_from_sound :
    (re text : List ℕ)
    → match_from re text ≡ true
    → (before after : List ℕ) × (text ≡ before ++ after) × Here re after
unfolding match_from
match_from_sound re [] e = ([], [], refl, matchhere_sound re [] e)
match_from_sound re (t ∷ ts) e = elim (Bool-cases (matchhere re (t ∷ ts))) [
  | inl now ↦ ([], t ∷ ts, refl, matchhere_sound re (t ∷ ts) now)
  | inr later ↦
      let (before, after, split, h) = match_from_sound re ts (rw later at e) in
      (t ∷ before, after, ap (◌∷◌ t) split, h)
]

match_from_complete :
    (re before after : List ℕ) → Here re after → match_from re (before ++ after) ≡ true
unfolding match_from
match_from_complete re [] [] h = matchhere_complete h
match_from_complete re [] (t ∷ ts) h = let found = matchhere_complete h in rw found
match_from_complete re (t ∷ before) after h =
    let found = match_from_complete re before after h in ground arith

match_re_sound : (re text : List ℕ) → match_re re text ≡ true → Somewhere re text
unfolding match_re
match_re_sound [] text e =
    let (before, after, split, h) = match_from_sound [] text e in
    anywhere before after (λ rest q. cc) split h
match_re_sound (c ∷ re) text e = elim (Bool-cases (c == caret)) [
  | inl first ↦ anchored (ground arith) (matchhere_sound re text (rw first at e))
  | inr other ↦
      let (before, after, split, h) = match_from_sound (c ∷ re) text (rw other at e) in
      anywhere before after (λ rest q. ground arith) split h
]

match_re_complete : {re text : List ℕ} → Somewhere re text → match_re re text ≡ true
unfolding match_re
match_re_complete (anchored {c} e h) = let found = matchhere_complete h in ground arith
match_re_complete (anywhere {re} before after loose split h) =
    rw split (loose_match re before after loose (match_from_complete re before after h))
  where
    loose_match :
        (re before after : List ℕ)
        → ((rest : List ℕ) → re ≢ caret ∷ rest)
        → match_from re (before ++ after) ≡ true
        → match_re re (before ++ after) ≡ true
    loose_match [] before after loose found = found
    loose_match (c ∷ re) before after loose found = elim (ℕ_discrete c caret) [
      | yes e ↦ absurd (loose re (rw e))
      | no ne ↦ ground arith
    ]

-- match returns 1 exactly on the texts of the language: an expression with `^` in front matches at
-- the start of the text, and any other matches somewhere in it.
pub match_decides : (re text : List ℕ) → (match_re re text ≡ true) ↔ Somewhere re text
match_decides re text = (match_re_sound re text, match_re_complete)
