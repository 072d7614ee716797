-- ===== src/Memory/Pages.antt =====
-- Who owns the pages: kalloc and kfree in any order, with writes of the owners to their pages.
use ence.Base.{
  ℕ, zero, suc, ◌+◌, ◌-◌, ◌*◌, ◌/◌, ◌%◌, ◌^◌, ◌≤◌, ◌<◌, ◌≡◌, ◌≢◌, refl, sym, ◌∙◌, subst, Option,
  none, some, List, [], ◌∷◌, ◌++◌, append_assoc, append-nil, update, update_ne, All, arith,
}
use ence.Memory.{Kmem, pgsize, kernbase, phystop, pg_round_up, kfree, kalloc, freerange}
use ence.Memory.Chain.{Chain, Chain-cons, kalloc_page, Chain-words}
use ence.Memory.Range.{
  IsPage, freed, kfree-IsPage, freed-Chain, Others, Below, push_pages, Ranges, ranges,
  free_from-Ranges,
}
use mathlib.Core.List.{
  Perm, Mem, Nodup, Nodup-cons, Nodup-nil, not-mem-nil, perm_middle, mem-append_right,
  mem-cons_self, mem-cons_of_mem, eq-or-mem_of_mem-cons,
}
use mathlib.Core.List.Perm
use mathlib.Core.Logic.Or
use native.Mathlib.Bridge.{le_prop}

-- The memory, and the pages that were handed out.
pub record State : Type 0 where
  pub kmem : Kmem
  pub held : List ℕ

-- What may happen to the pages.
pub data Step (end : ℕ) (s : State) : State → Type 0 where
  allocates :
      (kalloc s.kmem).0 ≢ 0
      → Step end s (record { kmem = (kalloc s.kmem).1; held = (kalloc s.kmem).0 ∷ s.held })
  frees :
      (xs ys : List ℕ) (p : ℕ) (k : Kmem)
      → s.held ≡ xs ++ (p ∷ ys)
      → kfree end s.kmem p ≡ some k
      → Step end s (record { kmem = k; held = xs ++ ys })
  -- the owner of a page writes a uint of it
  writes :
      (xs ys : List ℕ) (p a v : ℕ)
      → s.held ≡ xs ++ (p ∷ ys)
      → p ≤ a
      → a < p + pgsize
      → Step end s (record s { kmem = record s.kmem { words = update s.kmem.words a v } })

pub data Reachable (end vstart vend : ℕ) : State → Type 0 where
  boots :
      (words : ℕ → ℕ) (k : Kmem)
      → freerange end (record { freelist = 0; words = words }) vstart vend ≡ some k
      → Reachable end vstart vend (record { kmem = k; held = [] })
  step : (s s' : State) → Reachable end vstart vend s → Step end s s' → Reachable end vstart vend s'

-- the pages between the addresses
abbrev pub all_pages : (vstart vend : ℕ) → List ℕ
all_pages vstart vend = push_pages (pg_round_up vstart) ((vend - pg_round_up vstart) / pgsize) []

-- The free list in memory and the pages handed out are together all pages, each once, and a page handed
-- out can be given back.
pub record Owned (end vstart vend : ℕ) (s : State) : Type 0 where
  pub free : List ℕ
  pub chain : Chain s.kmem.words s.kmem.freelist free
  pub pages : Perm (free ++ s.held) (all_pages vstart vend)
  pub once : Nodup (free ++ s.held)
  pub returnable : (p : ℕ) → Mem p s.held → kfree end s.kmem p ≢ none

module _ (end vstart vend : ℕ) (after : end ≤ vstart) (base : kernbase ≤ vstart)
    (top : vend ≤ kernbase + phystop) (some_room : vstart + pgsize ≤ vend) where
  -- What push_pages adds to, and what comes of it.
  record Pushed (p : ℕ) (ps : List ℕ) : Type 0 where
    below : (q : ℕ) → Mem q ps → q < p
    once : Nodup ps
    valid : (q : ℕ) → Mem q ps → IsPage end q

  prop : (q : ℕ) → IsProp (IsPage end q)
  prop q = hlevel (le_prop)

  page-Pushed : (p : ℕ) (ps : List ℕ) → IsPage end p → Pushed p ps → Pushed (p + pgsize) (p ∷ ps)
  page-Pushed p ps v h = record {
    below = λ q m.
        Or.elim le_prop (eq-or-mem_of_mem-cons m) (λ e. omega arith)
          (λ m'. omega (arith, h.below q m'));
    once = Nodup-cons.1 (λ m. absurd (omega (arith, h.below p m)), h.once);
    valid = λ q m.
        Or.elim (prop q) (eq-or-mem_of_mem-cons m) (λ e. subst (IsPage end) (sym e) v)
          (λ m'. h.valid q m');
  }

  pushed :
      (k p : ℕ) (ps : List ℕ)
      → p % pgsize ≡ 0
      → vstart ≤ p
      → p + k * pgsize ≤ vend
      → Pushed p ps
      → Pushed (p + k * pgsize) (push_pages p k ps)
  unfolding push_pages
  pushed zero p ps al le top' h =
      let same : p ≡ p + 0 * pgsize = omega arith in subst (λ (q : ℕ). Pushed q ps) same h
  pushed (suc k) p ps al le top' h =
      let same : p + pgsize + k * pgsize ≡ p + suc k * pgsize = omega arith in
      let v : IsPage end p = record {
        aligned = al;
        after_kernel = omega arith;
        mapped = omega arith;
        below_top = omega arith;
      } in
      subst (λ (q : ℕ). Pushed q (push_pages (p + pgsize) k (p ∷ ps))) same
        (pushed k (p + pgsize) (p ∷ ps) (omega arith) (omega arith) (omega arith)
          (page-Pushed p ps v h))

  no_pages : Pushed (pg_round_up vstart) []
  no_pages = record {
    below = λ q m. absurd (not-mem-nil m);
    once = Nodup-nil;
    valid = λ q m. absurd (not-mem-nil m);
  }

  all_pushed : (q : ℕ) → Mem q (all_pages vstart vend) → IsPage end q
  all_pushed =
      (pushed ((vend - pg_round_up vstart) / pgsize) (pg_round_up vstart) [] (omega arith)
        (omega arith) (omega arith) no_pages).valid

  all_once : Nodup (all_pages vstart vend)
  all_once =
      (pushed ((vend - pg_round_up vstart) / pgsize) (pg_round_up vstart) [] (omega arith)
        (omega arith) (omega arith) no_pages).once

  -- what is to be shown of each state
  record Kept (s : State) : Type 0 where
    free : List ℕ
    chain : Chain s.kmem.words s.kmem.freelist free
    pages : Perm (free ++ s.held) (all_pages vstart vend)

  Kept_valid :
      (free held : List ℕ) (q : ℕ)
      → Perm (free ++ held) (all_pages vstart vend)
      → Mem q (free ++ held)
      → IsPage end q
  Kept_valid free held q perm m = all_pushed q ((Perm.mem_iff perm).0 m)

  boots-Kept :
      (words : ℕ → ℕ) (o : Option Kmem) (k : Kmem)
      → Ranges (all_pages vstart vend) o
      → o ≡ some k
      → Kept (record { kmem = k; held = [] })
  boots-Kept words _ k (ranges s c) e =
      let same : s ≡ k = ground (arith, e) in
      subst (λ (k : Kmem). Kept (record { kmem = k; held = [] })) same
        (record {
          free = all_pages vstart vend;
          chain = c;
          pages = rw (append-nil (all_pages vstart vend)) Perm.rfl;
        })

  Others_of :
      (p : ℕ) (free rest : List ℕ)
      → ¬ Mem p (free ++ rest)
      → ((q : ℕ) → Mem q (free ++ rest) → IsPage end q)
      → Others p free
  unfolding Others
  Others_of p [] rest out valid = tt
  Others_of p (q ∷ free) rest out valid = (
    (
      (valid q mem-cons_self).aligned,
      λ e. out (subst (λ (x : ℕ). Mem x (q ∷ (free ++ rest))) e mem-cons_self),
    ),
    Others_of p free rest (λ m. out (mem-cons_of_mem q m)) (λ x m. valid x (mem-cons_of_mem q m)),
  )

  -- a page handed out is not on the free list
  apart_of :
      (free xs ys held : List ℕ) (p : ℕ)
      → held ≡ xs ++ (p ∷ ys)
      → Perm (free ++ held) (all_pages vstart vend)
      → (Perm (p ∷ (free ++ (xs ++ ys))) (all_pages vstart vend)) × IsPage end p × Others p free
  apart_of free xs ys held p e perm =
      let split : Perm (free ++ (xs ++ (p ∷ ys))) (all_pages vstart vend) =
        subst (λ (h : List ℕ). Perm (free ++ h) (all_pages vstart vend)) e perm in
      let grouped : Perm ((free ++ xs) ++ (p ∷ ys)) (all_pages vstart vend) =
        subst (λ (l : List ℕ). Perm l (all_pages vstart vend)) (sym (append_assoc free xs (p ∷ ys)))
          split in
      let front : Perm (p ∷ (free ++ (xs ++ ys))) (all_pages vstart vend) =
        subst (λ (l : List ℕ). Perm (p ∷ l) (all_pages vstart vend)) (append_assoc free xs ys)
          (Perm.trans (Perm.symm (perm_middle (free ++ xs) ys)) grouped) in
      let valid : (q : ℕ) → Mem q (p ∷ (free ++ (xs ++ ys))) → IsPage end q =
        λ q m. all_pushed q ((Perm.mem_iff front).0 m) in
      let out = (Nodup-cons.0 (Perm.nodup (Perm.symm front) all_once)).0 in
      (
        front,
        valid p mem-cons_self,
        Others_of p free (xs ++ ys) out (λ q m. valid q (mem-cons_of_mem p m)),
      )

  kept_alloc :
      (s : State)
      → Kept s
      → (kalloc s.kmem).0 ≢ 0
      → Kept (record { kmem = (kalloc s.kmem).1; held = (kalloc s.kmem).0 ∷ s.held })
  kept_alloc s k ne = alloc_chain k.free k.chain k.pages
    where
      alloc_chain :
          (free : List ℕ)
          → Chain s.kmem.words s.kmem.freelist free
          → Perm (free ++ s.held) (all_pages vstart vend)
          → Kept (record { kmem = (kalloc s.kmem).1; held = (kalloc s.kmem).0 ∷ s.held })
      alloc_chain [] c perm = absurd (unfold kalloc Chain in ground (arith, c, ne))
      alloc_chain (q ∷ free) c perm =
          let (at, nonzero, rest) = Chain-cons s.kmem.words s.kmem.freelist q free c in
          subst (λ (o : ℕ × Kmem). Kept (record { kmem = o.1; held = o.0 ∷ s.held }))
            (sym (kalloc_page s.kmem q at nonzero))
            (record {
              free = free;
              chain = rest;
              pages = Perm.trans (perm_middle free s.held) perm;
            })

  kept_free :
      (s : State) (xs ys : List ℕ) (p : ℕ) (k : Kmem)
      → Kept s
      → s.held ≡ xs ++ (p ∷ ys)
      → kfree end s.kmem p ≡ some k
      → Kept (record { kmem = k; held = xs ++ ys })
  kept_free s xs ys p k h e freed_ok =
      let (front, page, others) = apart_of h.free xs ys s.held p e h.pages in
      let same : freed s.kmem p ≡ k =
        ground (arith, sym (kfree-IsPage end s.kmem p page) ∙ freed_ok) in
      let ne : p ≢ 0 = λ z. absurd (omega (arith, page.mapped, z)) in
      subst (λ (k : Kmem). Kept (record { kmem = k; held = xs ++ ys })) same
        (record {
          free = p ∷ h.free;
          chain = freed-Chain s.kmem p h.free page.aligned ne others h.chain;
          pages = front;
        })

  Others-write :
      (words : ℕ → ℕ) (p a v : ℕ) (ps : List ℕ)
      → p % pgsize ≡ 0
      → p ≤ a
      → a < p + pgsize
      → Others p ps
      → All (λ q. update words a v q ≡ words q) ps
  unfolding Others
  Others-write words p a v [] al le lt o = tt
  Others-write words p a v (q ∷ ps) al le lt ((alq, ne), o) =
      (update_ne words a q v (λ e. ne (omega arith)), Others-write words p a v ps al le lt o)

  kept_write :
      (s : State) (xs ys : List ℕ) (p a v : ℕ)
      → Kept s
      → s.held ≡ xs ++ (p ∷ ys)
      → p ≤ a
      → a < p + pgsize
      → Kept (record s { kmem = record s.kmem { words = update s.kmem.words a v } })
  kept_write s xs ys p a v h e le lt =
      let (front, page, others) = apart_of h.free xs ys s.held p e h.pages in
      record {
        free = h.free;
        chain =
            Chain-words s.kmem.words (update s.kmem.words a v) s.kmem.freelist h.free
              (Others-write s.kmem.words p a v h.free page.aligned le lt others) h.chain;
        pages = h.pages;
      }

  step-Kept : (s s' : State) → Kept s → Step end s s' → Kept s'
  step-Kept s _ k (allocates ne) = kept_alloc s k ne
  step-Kept s _ k (frees xs ys p k' e f) = kept_free s xs ys p k' k e f
  step-Kept s _ k (writes xs ys p a v e le lt) = kept_write s xs ys p a v k e le lt

  Reachable-Kept : (s : State) → Reachable end vstart vend s → Kept s
  Reachable-Kept _ (boots words k e) =
      let p = pg_round_up vstart in
      boots-Kept words (freerange end (record { freelist = 0; words = words }) vstart vend) k
        (unfold freerange in
          free_from-Ranges end vend ((vend - p) / pgsize) (2 ^ 20) p
            (record { freelist = 0; words = words }) [] (omega arith) (omega arith) (omega arith)
            (omega arith) top (omega arith) (omega arith) (omega arith) (unfold Below in tt)
            (unfold Chain in refl))
        e
  Reachable-Kept _ (step s s' r m) = step-Kept s s' (Reachable-Kept s r) m

  Kept-Owned : (s : State) → Kept s → Owned end vstart vend s
  Kept-Owned s k = record {
    free = k.free;
    chain = k.chain;
    pages = k.pages;
    once = Perm.nodup (Perm.symm k.pages) all_once;
    returnable = λ p m e.
        let page = all_pushed p ((Perm.mem_iff k.pages).0 (mem-append_right k.free m)) in
        ground (arith, sym (kfree-IsPage end s.kmem p page) ∙ e);
  }

-- From freerange on memory behind the kernel, whatever the order of kalloc, kfree and the owners' writes to
-- their pages, the free list and the pages handed out are together the pages of the range, none twice, and
-- kfree takes every page handed out.
pub Reachable-Owned :
    (end vstart vend : ℕ) (s : State)
    → end ≤ vstart
    → kernbase ≤ vstart
    → vend ≤ kernbase + phystop
    → vstart + pgsize ≤ vend
    → Reachable end vstart vend s
    → Owned end vstart vend s
Reachable-Owned end vstart vend s after base top room r =
    Kept-Owned end vstart vend after base top room s
      (Reachable-Kept end vstart vend after base top room s r)
