-- ===== src/Console/Ring.antt =====
-- The ring of input bytes as two lists: the lines ready to be read, and the line being typed.
use ence.Base.{
  ℕ, zero, suc, ◌+◌, ◌-◌, ◌%◌, ◌^◌, ◌<◌, ◌≡◌, refl, sym, ap, ap₂, ◌∙◌, List, [], ◌∷◌, ◌++◌, length,
  arith, u32, update, update_ne,
}
use ence.Console.{Console, input_buf}

-- the bytes ready to be read, and those typed since
abbrev pub waiting : Console → ℕ
waiting i = u32 (i.w + 2 ^ 32 - i.r)

abbrev pub pending : Console → ℕ
pending i = u32 (i.e + 2 ^ 32 - i.w)

-- `n` bytes from counter `r` on
abbrev pub window : (ℕ → ℕ) → (r n : ℕ) → List ℕ
window d r zero = []
window d r (suc n) = d (r % input_buf) ∷ window d (u32 (r + 1)) n

-- `n` bytes before counter `e`, last first
abbrev pub back : (ℕ → ℕ) → (e n : ℕ) → List ℕ
back d e zero = []
back d e (suc n) = let e' = u32 (e + 2 ^ 32 - 1) in d (e' % input_buf) ∷ back d e' n

pub length-window : (d : ℕ → ℕ) (r n : ℕ) → length (window d r n) ≡ n
length-window d r zero = refl
length-window d r (suc n) = ap suc (length-window d (u32 (r + 1)) n)

pub length-back : (d : ℕ → ℕ) (e n : ℕ) → length (back d e n) ≡ n
length-back d e zero = refl
length-back d e (suc n) = ap suc (length-back d (u32 (e + 2 ^ 32 - 1)) n)

-- a byte is written behind both
pub window-update :
    (d : ℕ → ℕ) (r n m j c : ℕ)
    → r < 2 ^ 32
    → n + m < input_buf
    → j ≡ (r + n + m) % input_buf
    → window (update d j c) r n ≡ window d r n
window-update d r zero m j c hr hn e = refl
window-update d r (suc n) m j c hr hn e =
    ap₂ ◌∷◌ (update_ne d j (r % input_buf) c (omega arith))
      (window-update d (u32 (r + 1)) n m j c (omega arith) (omega arith) (omega arith))

pub back-update :
    (d : ℕ → ℕ) (e m k j c : ℕ)
    → e < 2 ^ 32
    → m + k < input_buf
    → j ≡ (e + k) % input_buf
    → back (update d j c) e m ≡ back d e m
back-update d e zero k j c he hm at = refl
back-update d e (suc m) k j c he hm at =
    ap₂ ◌∷◌ (update_ne d j (u32 (e + 2 ^ 32 - 1) % input_buf) c (omega arith))
      (back-update d (u32 (e + 2 ^ 32 - 1)) m (k + 1) j c (omega arith) (omega arith) (omega arith))

window_last :
    (d : ℕ → ℕ) (r n : ℕ)
    → r < 2 ^ 32
    → window d r (suc n) ≡ window d r n ++ (d (u32 (r + n) % input_buf) ∷ [])
window_last d r zero hr =
    let at : r % input_buf ≡ u32 (r + 0) % input_buf = omega arith in ap (λ (j : ℕ). d j ∷ []) at
window_last d r (suc n) hr =
    let at : u32 (u32 (r + 1) + n) % input_buf ≡ u32 (r + suc n) % input_buf = omega arith in
    ap (◌∷◌ (d (r % input_buf))) (
      window_last d (u32 (r + 1)) n (omega arith)
      ∙ ap (λ (j : ℕ). window d (u32 (r + 1)) n ++ (d j ∷ [])) at)

-- the typed bytes, last first, behind the ready ones
abbrev pub release : (ready typed : List ℕ) → List ℕ
release ready [] = ready
release ready (c ∷ typed) = release ready typed ++ (c ∷ [])

pub release-back :
    (d : ℕ → ℕ) (r n m e : ℕ)
    → r < 2 ^ 32
    → e ≡ u32 (r + n + m)
    → n + m < 2 ^ 32
    → release (window d r n) (back d e m) ≡ window d r (n + m)
release-back d r n zero e hr at small = ap (window d r) (omega arith)
release-back d r n (suc m) e hr at small =
    let e' = u32 (e + 2 ^ 32 - 1) in
    let last : e' % input_buf ≡ u32 (r + (n + m)) % input_buf = omega arith in
    let total : suc (n + m) ≡ n + suc m = omega arith in
    ap₂ (λ (xs : List ℕ) (j : ℕ). xs ++ (d j ∷ []))
      (release-back d r n m e' hr (omega arith) (omega arith)) last
    ∙ sym (window_last d r (n + m) hr)
    ∙ ap (window d r) total
