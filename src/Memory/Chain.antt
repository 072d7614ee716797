-- ===== src/Memory/Chain.antt =====
-- The free list in memory as a list of pages.
use ence.Base.{
  ℕ, zero, suc, ◌+◌, ◌*◌, ◌≤◌, ◌<◌, ◌≡◌, ◌≢◌, ◌⊎◌, refl, sym, ap, ◌∙◌, subst, List, [], ◌∷◌, update,
  update_ne, update_self, All, arith,
}
use ence.Memory.{Kmem, fill, kalloc}

-- From `r` on, the links run through the pages and end.
unfoldable pub Chain : (words : ℕ → ℕ) (r : ℕ) → List ℕ → Type 0
Chain words r [] = r ≡ 0
Chain words r (p ∷ ps) = (r ≡ p) × (p ≢ 0) × Chain words (words p) ps

pub Chain-cons :
    (words : ℕ → ℕ) (r p : ℕ) (ps : List ℕ)
    → Chain words r (p ∷ ps)
    → (r ≡ p) × (p ≢ 0) × Chain words (words p) ps
unfolding Chain
Chain-cons words r p ps c = c

pub Chain-nil : (words : ℕ → ℕ) (r : ℕ) → Chain words r [] → r ≡ 0
unfolding Chain
Chain-nil words r c = c

pub kalloc_page :
    (k : Kmem) (q : ℕ) → k.freelist ≡ q → q ≢ 0 → kalloc k ≡ (q, record k { freelist = k.words q })
unfolding kalloc
kalloc_page k q e ne = ground (arith, e, ne)

pub kalloc_empty : (k : Kmem) → k.freelist ≡ 0 → kalloc k ≡ (0, k)
unfolding kalloc
kalloc_empty k e = ground (arith, e)

-- where two memories agree on the first word of the pages
pub Chain-words :
    (words words' : ℕ → ℕ) (r : ℕ) (ps : List ℕ)
    → All (λ p. words' p ≡ words p) ps
    → Chain words r ps
    → Chain words' r ps
unfolding Chain
Chain-words words words' r [] same c = c
Chain-words words words' r (p ∷ ps) (e, same) (at, ne, c) = (
  at,
  ne,
  subst (λ (r : ℕ). Chain words' r ps) (sym e) (Chain-words words words' (words p) ps same c),
)

pub fill_other :
    (words : ℕ → ℕ) (a c k x : ℕ) → (x < a) ⊎ (a + 4 * k ≤ x) → fill words a c k x ≡ words x
unfolding fill
fill_other words a c zero x far = refl
fill_other words a c (suc k) x far =
    fill_other (update words a (c * 0x01010101)) (a + 4) c k x (omega arith)
    ∙ update_ne words a x (c * 0x01010101) (omega arith)

pub fill_same :
    (words : ℕ → ℕ) (a c k i : ℕ) → i < k → fill words a c k (a + 4 * i) ≡ c * 0x01010101
unfolding fill
fill_same words a c zero i lt = absurd (omega arith)
fill_same words a c (suc k) zero lt =
    let at : a + 4 * 0 ≡ a = omega arith in
    ap (fill (update words a (c * 0x01010101)) (a + 4) c k) at
    ∙ fill_other (update words a (c * 0x01010101)) (a + 4) c k a (omega arith)
    ∙ update_self words a (c * 0x01010101)
fill_same words a c (suc k) (suc i) lt =
    let at : a + 4 * suc i ≡ a + 4 + 4 * i = omega arith in
    ap (fill (update words a (c * 0x01010101)) (a + 4) c k) at
    ∙ fill_same (update words a (c * 0x01010101)) (a + 4) c k i (omega arith)
