-- ===== src/Memory/Range.antt =====
-- freerange: the free list that it leaves.
use ence.Base.{
  ℕ, zero, suc, ◌+◌, ◌*◌, ◌/◌, ◌%◌, ◌≤◌, ◌<◌, ◌≡◌, ◌≢◌, ◌⊎◌, refl, sym, ap, ◌∙◌, subst, true, false,
  not, ◌||◌, Option, some, List, [], ◌∷◌, update, update_ne, update_self, All, ltb, leb, arith,
  ◌==◌, u32,
}
use ence.Memory.{Kmem, pgsize, kernbase, phystop, v2p, fill, kfree, free_from}
use ence.Memory.Chain.{Chain, Chain-words, fill_other}

-- A page that kfree takes.
pub record IsPage (end p : ℕ) : Type 0 where
  pub aligned : p % pgsize ≡ 0
  pub after_kernel : end ≤ p
  pub mapped : kernbase ≤ p
  pub below_top : p + pgsize ≤ kernbase + phystop

-- what kfree leaves
abbrev pub freed : Kmem → ℕ → Kmem
freed s v = record { freelist = v; words = update (fill s.words v 1 (pgsize / 4)) v s.freelist }

pub kfree-IsPage : (end : ℕ) (s : Kmem) (p : ℕ) → IsPage end p → kfree end s p ≡ some (freed s p)
unfolding kfree
kfree-IsPage end s p v =
    let h : (not (p % pgsize == 0) || ltb p end || leb phystop (v2p p)) ≡ false =
      ground (arith, v.aligned, v.after_kernel, v.mapped, v.below_top) in
    rw h refl

-- a word outside of the page stays
pub freed_words :
    (s : Kmem) (p x : ℕ) → (x < p) ⊎ (p + pgsize ≤ x) → (freed s p).words x ≡ s.words x
freed_words s p x far =
    update_ne (fill s.words p 1 (pgsize / 4)) p x s.freelist (omega arith)
    ∙ fill_other s.words p 1 (pgsize / 4) x (omega arith)

-- other pages, by their addresses
unfoldable pub Others : (p : ℕ) → List ℕ → Type 0
Others p ps = All (λ q. (q % pgsize ≡ 0) × (q ≢ p)) ps

Others-words :
    (s : Kmem) (p : ℕ) (ps : List ℕ)
    → p % pgsize ≡ 0
    → Others p ps
    → All (λ q. (freed s p).words q ≡ s.words q) ps
unfolding Others
Others-words s p [] al o = tt
Others-words s p (q ∷ ps) al ((alq, ne), o) =
    (freed_words s p q (omega arith), Others-words s p ps al o)

pub freed-Chain :
    (s : Kmem) (p : ℕ) (ps : List ℕ)
    → p % pgsize ≡ 0
    → p ≢ 0
    → Others p ps
    → Chain s.words s.freelist ps
    → Chain (freed s p).words p (p ∷ ps)
unfolding Chain
freed-Chain s p ps al ne o c = (
  refl,
  ne,
  subst (λ (r : ℕ). Chain (freed s p).words r ps)
      (sym (update_self (fill s.words p 1 (pgsize / 4)) p s.freelist))
      (Chain-words s.words (freed s p).words s.freelist ps (Others-words s p ps al o) c),
)

-- the `k` pages from `p` on, pushed one after the other
unfoldable pub push_pages : (p k : ℕ) → List ℕ → List ℕ
push_pages p zero ps = ps
push_pages p (suc k) ps = push_pages (p + pgsize) k (p ∷ ps)

-- pages below `p`
unfoldable pub Below : (p : ℕ) → List ℕ → Type 0
Below p ps = All (λ q. (q % pgsize ≡ 0) × (q < p)) ps

Below-Others : (p : ℕ) (ps : List ℕ) → Below p ps → Others p ps
unfolding Others Below
Below-Others p [] b = tt
Below-Others p (q ∷ ps) ((al, lt), b) = ((al, omega arith), Below-Others p ps b)

Below-weaken : (p p' : ℕ) (ps : List ℕ) → p ≤ p' → Below p ps → Below p' ps
unfolding Below
Below-weaken p p' [] le b = tt
Below-weaken p p' (q ∷ ps) le ((al, lt), b) = ((al, omega arith), Below-weaken p p' ps le b)

-- What freerange leaves.
pub data Ranges (ps : List ℕ) : Option Kmem → Type 0 where
  ranges : (s : Kmem) → Chain s.words s.freelist ps → Ranges ps (some s)

free_step :
    (fuel end : ℕ) (s : Kmem) (p vend : ℕ)
    → IsPage end p
    → p + pgsize ≤ vend
    → free_from (suc fuel) end s p vend ≡ free_from fuel end (freed s p) (p + pgsize) vend
unfolding free_from
free_step fuel end s p vend v le =
    let more : leb (u32 (p + pgsize)) vend ≡ true = ground (arith, v.below_top) in
    let next : u32 (p + pgsize) ≡ p + pgsize = omega (arith, v.below_top) in
    rw (free_from, more, kfree-IsPage end s p v)
      (ap (λ (x : ℕ). free_from fuel end (freed s p) x vend) next)

free_stop :
    (fuel end : ℕ) (s : Kmem) (p vend : ℕ)
    → p ≤ kernbase + phystop
    → vend < p + pgsize
    → free_from fuel end s p vend ≡ some s
unfolding free_from
free_stop zero end s p vend top lt = refl
free_stop (suc fuel) end s p vend top lt =
    let done : leb (u32 (p + pgsize)) vend ≡ false = ground arith in rw (free_from, done) refl

pub free_from-Ranges :
    (end vend k fuel p : ℕ) (s : Kmem) (ps : List ℕ)
    → p % pgsize ≡ 0
    → end ≤ p
    → kernbase ≤ p
    → p ≤ kernbase + phystop
    → vend ≤ kernbase + phystop
    → p + k * pgsize ≤ vend
    → vend < p + k * pgsize + pgsize
    → k ≤ fuel
    → Below p ps
    → Chain s.words s.freelist ps
    → Ranges (push_pages p k ps) (free_from fuel end s p vend)
unfolding push_pages
free_from-Ranges end vend zero fuel p s ps al after base pt top lo hi enough b c =
    subst (Ranges ps) (sym (free_stop fuel end s p vend pt (omega arith))) (ranges s c)
free_from-Ranges end vend (suc k) zero p s ps al after base pt top lo hi enough b c =
    absurd (omega arith)
free_from-Ranges end vend (suc k) (suc fuel) p s ps al after base pt top lo hi enough b c =
    let v : IsPage end p = record {
      aligned = al;
      after_kernel = after;
      mapped = base;
      below_top = omega arith;
    } in
    let c' = freed-Chain s p ps al (omega arith) (Below-Others p ps b) c in
    let b' : Below (p + pgsize) (p ∷ ps) =
      (unfold Below in ((al, omega arith), Below-weaken p (p + pgsize) ps (omega arith) b)) in
    subst (Ranges (push_pages (p + pgsize) k (p ∷ ps)))
      (sym (free_step fuel end s p vend v (omega arith)))
      (free_from-Ranges end vend k fuel (p + pgsize) (freed s p) (p ∷ ps) (omega arith)
        (omega arith) (omega arith) (omega arith) top (omega arith) (omega arith) (omega arith) b'
        c')
