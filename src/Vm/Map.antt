-- ===== src/Vm/Map.antt =====
-- mappages as a change of the map from addresses to entries.
use ence.Base.{
  ℕ, zero, suc, ◌+◌, ◌-◌, ◌*◌, ◌/◌, ◌%◌, ◌^◌, ◌≤◌, ◌<◌, ◌≡◌, ◌≢◌, inl, inr, refl, sym, ap, ap₂, ◌∙◌,
  subst, Bool, true, false, Bool-cases, Option, none, some, List, [], u32, arith, if◌then◌else◌,
  ◌==◌, ℕ_discrete,
}
use ence.Memory.{Kmem, pgsize}
use ence.Vm.{
  pdx, ptx, pte_addr, p2v, pg_round_down, present, pde_at, pte_at, walkpgdir, set_pte, make_pte,
  map_from, mappages,
}
use ence.Vm.Entries.{entry, Valid}
use ence.Vm.Walk.{Walked, walked, no_page, walkpgdir-Walked}
use ence.Vm.Write.{written-Valid, written_here, written_elsewhere}

-- The address is on one of the pages from number `q` to number `q + n`.
abbrev pub Within : (q n va : ℕ) → Type 0
Within q n va = (va < 2 ^ 32) × (q ≤ va / pgsize) × (va / pgsize ≤ q + n)

-- What mapping these pages to those from `pa` on gives.
pub data Maps (end : ℕ) (s : Kmem) (pgdir q n pa perm : ℕ) : Option (Bool × Kmem) → Type 0 where
  maps :
      (s' : Kmem) (free : List ℕ)
      → Valid end s' pgdir free
      → ((va : ℕ) → Within q n va → present (entry s pgdir va) ≡ false)
      → ((va : ℕ)
          → Within q n va
          → entry s' pgdir va ≡ make_pte (pa + (va / pgsize - q) * pgsize) perm)
      → ((va : ℕ) → va < 2 ^ 32 → ¬ Within q n va → entry s' pgdir va ≡ entry s pgdir va)
      → Maps end s pgdir q n pa perm (some (true, s'))
  -- no page is free for a table
  out_of_memory :
      (s' : Kmem)
      → Valid end s' pgdir []
      → ((va : ℕ) → va < 2 ^ 32 → ¬ Within q n va → entry s' pgdir va ≡ entry s pgdir va)
      → Maps end s pgdir q n pa perm (some (false, s'))
  -- a page is mapped already
  remap :
      (va : ℕ)
      → Within q n va
      → present (entry s pgdir va) ≡ true
      → Maps end s pgdir q n pa perm none

-- a round of the loop behind walkpgdir
abbrev one_page : (fuel pgdir a last pa perm : ℕ) → ℕ × Kmem → Option (Bool × Kmem)
one_page fuel pgdir a last pa perm (pte, s1) = elim (pte == 0) [
  | true ↦ some (false, s1)
  | false ↦ elim (present (s1.words pte)) [
    | true ↦ none
    | false ↦ elim (a == last) [
      | true ↦ some (true, set_pte s1 pte (make_pte pa perm))
      | false ↦
          map_from fuel (set_pte s1 pte (make_pte pa perm)) pgdir (u32 (a + pgsize)) last
            (u32 (pa + pgsize)) perm
    ]
  ]
]

-- addresses of one page have one entry
same_entry :
    (s : Kmem) (pgdir va va' : ℕ)
    → va / pgsize ≡ va' / pgsize
    → entry s pgdir va ≡ entry s pgdir va'
same_entry s pgdir va va' e =
    let d : pdx va ≡ pdx va' = omega arith in
    let t : ptx va ≡ ptx va' = omega arith in
    ap₂
      (λ (d t : ℕ).
        if present (s.words (pgdir + 4 * d))
        then s.words (p2v (pte_addr (s.words (pgdir + 4 * d))) + 4 * t)
        else 0)
      d t

module _ (end pgdir perm : ℕ) where
  module _ (q pa : ℕ) (s s' : Kmem) (free : List ℕ) (v : Valid end s' pgdir free)
      (same : (va' : ℕ) → entry s' pgdir va' ≡ entry s pgdir va')
      (there : present (s'.words (pde_at pgdir (q * pgsize))) ≡ true) (small : q < 2 ^ 20) where
    abbrev pte : ℕ
    pte = pte_at (s'.words (pde_at pgdir (q * pgsize))) (q * pgsize)

    abbrev next : Kmem
    next = set_pte s' pte (make_pte pa perm)

    nonzero : (pte == 0) ≡ false
    nonzero =
        let set = (v.tables_set (pdx (q * pgsize)) (omega arith) there).0 in ground (arith, set)

    before : s'.words pte ≡ entry s pgdir (q * pgsize)
    before =
        let read : entry s' pgdir (q * pgsize) ≡ s'.words pte = rw there refl in
        sym read ∙ same (q * pgsize)

    next-Valid : Valid end next pgdir free
    next-Valid = written-Valid end s' pgdir (q * pgsize) (make_pte pa perm) free v there

    next_here : (va : ℕ) → va < 2 ^ 32 → va / pgsize ≡ q → entry next pgdir va ≡ make_pte pa perm
    next_here va lt e =
        written_here end s' pgdir (q * pgsize) (make_pte pa perm) free v there va (omega arith)
          (omega arith)

    next_elsewhere :
        (va : ℕ) → va < 2 ^ 32 → va / pgsize ≢ q → entry next pgdir va ≡ entry s pgdir va
    next_elsewhere va lt ne =
        written_elsewhere end s' pgdir (q * pgsize) (make_pte pa perm) free v there va (omega arith)
        ∙ same va

    module _ (new : present (s'.words pte) ≡ false) where
      fresh_here : (va : ℕ) → va / pgsize ≡ q → present (entry s pgdir va) ≡ false
      fresh_here va e =
          let at : q * pgsize / pgsize ≡ q = omega arith in
          ap present (same_entry s pgdir va (q * pgsize) (e ∙ sym at) ∙ sym before) ∙ new

      -- the last page
      next-Maps : Maps end s pgdir q 0 pa perm (some (true, next))
      next-Maps =
          maps next free next-Valid (λ va (lt, lo, hi). fresh_here va (omega arith))
            (λ va (lt, lo, hi).
              let e : va / pgsize ≡ q = omega arith in
              let same_pa : pa ≡ pa + (va / pgsize - q) * pgsize = omega arith in
              next_here va lt e ∙ ap (λ (pa : ℕ). make_pte pa perm) same_pa)
            (λ va lt out. next_elsewhere va lt (λ e. out (lt, omega arith, omega arith)))

      -- a page before others
      more-Maps :
          (m : ℕ) (o : Option (Bool × Kmem))
          → Maps end next pgdir (q + 1) m (pa + pgsize) perm o
          → Maps end s pgdir q (suc m) pa perm o
      more-Maps m _ (maps s2 free2 v2 fresh inside outside) =
          maps s2 free2 v2
            (λ va (lt, lo, hi). elim (ℕ_discrete (va / pgsize) q) [
              | yes e ↦ fresh_here va e
              | no ne ↦
                  ap present (sym (next_elsewhere va lt ne))
                  ∙ fresh va (lt, omega arith, omega arith)
            ])
            (λ va (lt, lo, hi). elim (ℕ_discrete (va / pgsize) q) [
              | yes e ↦
                  let same_pa : pa ≡ pa + (va / pgsize - q) * pgsize = omega arith in
                  outside va lt (λ w. absurd (omega (arith, w.1, e)))
                  ∙ next_here va lt e
                  ∙ ap (λ (pa : ℕ). make_pte pa perm) same_pa
              | no ne ↦
                  let same_pa : pa + pgsize + (va / pgsize - (q + 1)) * pgsize
                      ≡ pa + (va / pgsize - q) * pgsize =
                    omega arith in
                  inside va (lt, omega arith, omega arith)
                  ∙ ap (λ (pa : ℕ). make_pte pa perm) same_pa
            ])
            (λ va lt out.
              outside va lt (λ w. out (lt, omega (arith, w.1), omega (arith, w.2)))
              ∙ next_elsewhere va lt (λ e. out (lt, omega arith, omega arith)))
      more-Maps m _ (out_of_memory s2 v2 outside) = out_of_memory s2 v2 (λ va lt out.
          outside va lt (λ w. out (lt, omega (arith, w.1), omega (arith, w.2)))
          ∙ next_elsewhere va lt (λ e. out (lt, omega arith, omega arith)))
      more-Maps m _ (remap va (lt, lo, hi) h) =
          remap va (lt, omega arith, omega arith)
            (ap present (sym (next_elsewhere va lt (λ e. absurd (omega (arith, lo, e))))) ∙ h)

  -- the entry of the page is written
  one_page-Maps :
      (fuel q n pa : ℕ) (s : Kmem) (o : ℕ × Kmem)
      → q + n < 2 ^ 20
      → pa + n * pgsize < 2 ^ 32
      → ((m : ℕ) (s2 : Kmem) (free : List ℕ)
          → n ≡ suc m
          → Valid end s2 pgdir free
          → Maps end s2 pgdir
              (q + 1)
              m
              (pa + pgsize)
              perm
              (map_from fuel s2 pgdir ((q + 1) * pgsize) ((q + n) * pgsize) (pa + pgsize) perm))
      → Walked end s pgdir (q * pgsize) o
      → Maps end s pgdir q n pa perm (one_page fuel pgdir (q * pgsize) ((q + n) * pgsize) pa perm o)
  one_page-Maps fuel q n pa s _ top fits rec (no_page v) = out_of_memory s v (λ va lt out. refl)
  one_page-Maps fuel q n pa s _ top fits rec (walked s' free v same there) =
      let nz = nonzero q pa s s' free v same there (omega arith) in
      let old = before q pa s s' free v same there (omega arith) in
      elim (Bool-cases
        (present (s'.words (pte_at (s'.words (pde_at pgdir (q * pgsize))) (q * pgsize))))) [
          | inl h ↦
              rw (one_page, nz, h)
                (remap (q * pgsize) (omega arith, omega arith, omega arith)
                  (ap present (sym old) ∙ h))
          | inr new ↦ elim (ℕ_discrete n 0) [
            | yes z ↦
                let last : (q * pgsize == (q + n) * pgsize) ≡ true = ground (arith, z) in
                rw (one_page, nz, new, last)
                  (subst
                    (λ (n : ℕ).
                      Maps end s pgdir q n pa perm
                        (some (true, next q pa s s' free v same there (omega arith))))
                    (sym z) (next-Maps q pa s s' free v same there (omega arith) new))
            | no more ↦
                let s2 = next q pa s s' free v same there (omega arith) in
                let further : (q * pgsize == (q + n) * pgsize) ≡ false = ground (arith, more) in
                let count : n ≡ suc (n - 1) = omega arith in
                let at : u32 (q * pgsize + pgsize) ≡ (q + 1) * pgsize = omega arith in
                let to : u32 (pa + pgsize) ≡ pa + pgsize = omega arith in
                let round =
                  ap₂ (λ (a p : ℕ). map_from fuel s2 pgdir a ((q + n) * pgsize) p perm) at to in
                rw (one_page, nz, new, further)
                  (subst (Maps end s pgdir q n pa perm) (sym round) (
                    subst
                      (λ (n' : ℕ). Maps end s pgdir q n' pa perm (
                        map_from fuel s2 pgdir ((q + 1) * pgsize) ((q + n) * pgsize) (pa + pgsize)
                          perm))
                      (sym count)
                      (more-Maps q pa s s' free v same there (omega arith) new (n - 1) _ (
                        rec (n - 1) s2 free count
                          (next-Valid q pa s s' free v same there (omega arith))))))
          ]
        ]

  map_from-Maps :
      (fuel q n pa : ℕ) (s : Kmem) (free : List ℕ)
      → q + n < 2 ^ 20
      → pa + n * pgsize < 2 ^ 32
      → n < fuel
      → Valid end s pgdir free
      → Maps end s pgdir q n pa perm (map_from fuel s pgdir (q * pgsize) ((q + n) * pgsize) pa perm)
  map_from-Maps zero q n pa s free top fits enough v = absurd (omega arith)
  map_from-Maps (suc fuel) q n pa s free top fits enough v =
      let step : map_from (suc fuel) s pgdir (q * pgsize) ((q + n) * pgsize) pa perm
          ≡ one_page fuel pgdir (q * pgsize) ((q + n) * pgsize) pa perm
              (walkpgdir s pgdir (q * pgsize) true) =
        (unfold map_from in refl) in
      subst (Maps end s pgdir q n pa perm) (sym step) (
        one_page-Maps fuel q n pa s (walkpgdir s pgdir (q * pgsize) true) top fits
          (λ m s2 free2 e v2.
            let to : (q + 1 + m) * pgsize ≡ (q + n) * pgsize = omega arith in
            subst
              (λ (last : ℕ).
                Maps end s2 pgdir (q + 1) m (pa + pgsize) perm
                  (map_from fuel s2 pgdir ((q + 1) * pgsize) last (pa + pgsize) perm))
              to
              (map_from-Maps fuel (q + 1) m (pa + pgsize) s2 free2 (omega arith) (omega arith)
                (omega arith) v2))
          (walkpgdir-Walked end s pgdir (q * pgsize) free v))

-- In a valid page directory, mappages of a range of addresses that does not wrap either enters the pages of
-- the range for those from the physical address on and keeps all other entries, or fails for want of a page for a table
-- and keeps the entries outside the range, or panics where a page of the range is present. The page
-- directory stays valid.
pub mappages-Maps :
    (end : ℕ) (s : Kmem) (pgdir va size pa perm : ℕ) (free : List ℕ)
    → Valid end s pgdir free
    → 1 ≤ size
    → va + size ≤ 2 ^ 32
    → pa + va % pgsize + size ≤ 2 ^ 32
    → Maps end s pgdir
        (va / pgsize)
        ((va + size - 1) / pgsize - va / pgsize)
        pa
        perm
        (mappages s pgdir va size pa perm)
unfolding mappages
mappages-Maps end s pgdir va size pa perm free v some_size fits fits_pa =
    let q = va / pgsize in
    let n = (va + size - 1) / pgsize - va / pgsize in
    let last : (q + n) * pgsize ≡ pg_round_down (u32 (va + size + 2 ^ 32 - 1)) = omega arith in
    subst
      (λ (last : ℕ).
        Maps end s pgdir q n pa perm (map_from (2 ^ 20) s pgdir (pg_round_down va) last pa perm))
      last
      (map_from-Maps end pgdir perm (2 ^ 20) q n pa s free (omega arith) (omega arith) (omega arith)
        v)
