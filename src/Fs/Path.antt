-- ===== src/Fs/Path.antt =====
-- Paths of lab10xv6/xv6/fs.c: skipelem, on a path as its bytes up to the 0.
use ence.Base.{
  ℕ, ◌≤◌, ◌<◌, ◌≡◌, ◌≢◌, refl, sym, ap, ◌∙◌, false, Option, none, some, List, [], ◌∷◌, ◌++◌,
  append-nil, append_assoc, length, take, arith, ◌==◌, if◌then◌else◌, ltb, Bool-cases, inl, inr,
  subst, take-all,
}

-- DIRSIZ
abbrev pub dirsiz : ℕ
dirsiz = 14

-- while(*path == '/') path++
unfoldable pub skip_slashes : List ℕ → List ℕ
skip_slashes [] = []
skip_slashes (c ∷ path) = let more = skip_slashes path in if c == b'/' then more else c ∷ path

-- the bytes that while(*path != '/' && *path != 0) passes, and what is left
unfoldable pub pass : List ℕ → List ℕ × List ℕ
pass [] = ([], [])
pass (c ∷ path) = let (s, left) = pass path in if c == b'/' then ([], c ∷ path) else (c ∷ s, left)

-- the path behind the first element, with that element as namecmp reads it
unfoldable pub skip_on : List ℕ → Option (List ℕ × List ℕ)
skip_on [] = none
skip_on (c ∷ path) =
    let (s, left) = pass (c ∷ path) in
    some (skip_slashes left, if ltb (length s) dirsiz then s else take dirsiz s)

unfoldable pub skipelem : List ℕ → Option (List ℕ × List ℕ)
skipelem path = skip_on (skip_slashes path)

-- The elements of a path, with `word` before it.
unfoldable pub elements : (word path : List ℕ) → List (List ℕ)
elements [] [] = []
elements (d ∷ word) [] = (d ∷ word) ∷ []
elements word (c ∷ path) =
    let on = elements (word ++ (c ∷ [])) path in
    let over = elements [] path in
    if c == b'/' then (elim word [ [] ↦ over | d ∷ w ↦ (d ∷ w) ∷ over ]) else on

-- What skipelem promises.
pub data Skipped (path : List ℕ) : Option (List ℕ × List ℕ) → Type 0 where
  no_name : elements [] path ≡ [] → Skipped path none
  name :
      (s rest : List ℕ)
      → elements [] path ≡ s ∷ elements [] rest
      → length rest < length path
      → Skipped path (some (rest, take dirsiz s))

skip_slashes-elements : (path : List ℕ) → elements [] (skip_slashes path) ≡ elements [] path
unfolding skip_slashes elements
skip_slashes-elements [] = refl
skip_slashes-elements (c ∷ path) = ground (arith, skip_slashes-elements path)

skip_slashes-length : (path : List ℕ) → length (skip_slashes path) ≤ length path
unfolding skip_slashes
skip_slashes-length [] = omega arith
skip_slashes-length (c ∷ path) = ground (arith, skip_slashes-length path)

pass-length : (path : List ℕ) → length (pass path).1 ≤ length path
unfolding pass
pass-length [] = omega arith
pass-length (c ∷ path) = ground (arith, pass-length path)

-- the elements after the bytes of one
pass-elements :
    (d : ℕ) (word path : List ℕ)
    → elements (d ∷ word) path ≡ ((d ∷ word) ++ (pass path).0) ∷ elements [] (pass path).1
unfolding pass elements
pass-elements d word [] = ap (λ (w : List ℕ). w ∷ []) (sym (append-nil (d ∷ word)))
pass-elements d word (c ∷ path) = elim (Bool-cases (c == b'/')) [
  | inl e ↦ rw (e, e) (ap (λ (w : List ℕ). w ∷ elements [] path) (sym (append-nil (d ∷ word))))
  | inr e ↦ rw e (
      pass-elements d (word ++ (c ∷ [])) path
      ∙ ap (λ (w : List ℕ). (d ∷ w) ∷ elements [] (pass path).1)
          (append_assoc word (c ∷ []) (pass path).0))
]

-- a path that does not start with a slash
pub data Named : List ℕ → Type 0 where
  ended : Named []
  more : (c : ℕ) (path : List ℕ) → c ≢ b'/' → Named (c ∷ path)

pub skip_slashes-Named : (path : List ℕ) → Named (skip_slashes path)
unfolding skip_slashes
skip_slashes-Named [] = ended
skip_slashes-Named (c ∷ path) = elim (Bool-cases (c == b'/')) [
  | inl e ↦ rw e (skip_slashes-Named path)
  | inr e ↦ rw e (more c path (ground (arith, e)))
]

pub elements_named :
    (c : ℕ) (path : List ℕ)
    → c ≢ b'/'
    → elements [] (c ∷ path) ≡ (c ∷ (pass path).0) ∷ elements [] (pass path).1
elements_named c path ne =
    let e : (c == b'/') ≡ false = ground (arith, ne) in
    let first : elements [] (c ∷ path) ≡ elements (c ∷ []) path = unfold elements in rw e refl in
    first ∙ pass-elements c [] path

take_name : (s : List ℕ) → (if ltb (length s) dirsiz then s else take dirsiz s) ≡ take dirsiz s
take_name s = elim (Bool-cases (ltb (length s) dirsiz)) [
  | inl short ↦ rw short (sym (take-all dirsiz s (ground (arith, short))))
  | inr long ↦ rw long refl
]

skip_on-Skipped :
    (path p : List ℕ)
    → Named p
    → elements [] p ≡ elements [] path
    → length p ≤ length path
    → Skipped path (skip_on p)
unfolding skip_on
skip_on-Skipped path _ ended same short = no_name ((sym same) ∙ (unfold elements in refl))
skip_on-Skipped path _ (more c p ne) same short =
    let e : (c == b'/') ≡ false = ground (arith, ne) in
    let found = (sym same) ∙ elements_named c p ne in
    let rest = skip_slashes (pass p).1 in
    let all = found ∙ ap (◌∷◌ (c ∷ (pass p).0)) (sym (skip_slashes-elements (pass p).1)) in
    let on : pass (c ∷ p) ≡ (c ∷ (pass p).0, (pass p).1) = (unfold pass in rw e refl) in
    let at = skip_slashes-length (pass p).1 in
    let short' = pass-length p in
    subst
      (λ (o : List ℕ × List ℕ).
        Skipped path
          (some (skip_slashes o.1, if ltb (length o.0) dirsiz then o.0 else take dirsiz o.0)))
      (sym on)
      (subst (λ (s : List ℕ). Skipped path (some (rest, s))) (sym (take_name (c ∷ (pass p).0)))
        (name (c ∷ (pass p).0) rest all (omega (arith, at, short', short))))

-- skipelem finds no name exactly where the path has no element; else it gives the first element, cut at 14
-- bytes, and a shorter path with the other elements.
pub skipelem-Skipped : (path : List ℕ) → Skipped path (skipelem path)
unfolding skipelem
skipelem-Skipped path =
    skip_on-Skipped path (skip_slashes path) (skip_slashes-Named path) (skip_slashes-elements path)
      (skip_slashes-length path)
