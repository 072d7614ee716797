-- ===== src/Vm/Walk.antt =====
-- walkpgdir: a table that it adds changes no entry.
use ence.Base.{
  ℕ, ◌+◌, ◌*◌, ◌/◌, ◌%◌, ◌≤◌, ◌<◌, ◌≡◌, ◌≢◌, ◌⊎◌, inl, inr, refl, sym, ap, ◌∙◌, subst, true, false,
  Bool-cases, List, [], ◌∷◌, update, update_ne, update_self, arith, ◌==◌, ℕ_discrete,
}
use ence.Memory.{Kmem, pgsize, v2p, fill, kalloc}
use ence.Memory.Chain.{
  Chain, Chain-cons, Chain-nil, kalloc_page, kalloc_empty, Chain-words, fill_other, fill_same,
}
use ence.Memory.Range.{IsPage, Others}
use ence.Vm.{
  pdx, ptx, pte_addr, p2v, pte_p, pte_w, pte_u, present, pde_at, pte_at, new_table, walkpgdir,
}
use ence.Vm.Entries.{entry, table, Valid, Others-first, Others-words2}

module _ (end : ℕ) (s : Kmem) (pgdir va r : ℕ) (free : List ℕ) (v : Valid end s pgdir (r ∷ free))
    (missing : present (s.words (pde_at pgdir va)) ≡ false) where
  -- the memory with the new table
  added : ℕ → ℕ
  added = update (fill s.words r 0 (pgsize / 4)) (pde_at pgdir va) (v2p r + pte_p + pte_w + pte_u)

  page : IsPage end r
  page = v.free_pages.0

  first : (r % pgsize ≡ 0) × (r ≢ pgdir) × Others pgdir free
  first = Others-first pgdir r free v.apart

  added_other : (x : ℕ) → (x < r) ⊎ (r + pgsize ≤ x) → x ≢ pde_at pgdir va → added x ≡ s.words x
  unfolding added
  added_other x far ne =
      update_ne (fill s.words r 0 (pgsize / 4)) (pde_at pgdir va) x (v2p r + pte_p + pte_w + pte_u)
        ne
      ∙ fill_other s.words r 0 (pgsize / 4) x far

  added_empty : (i : ℕ) → i < 1024 → added (r + 4 * i) ≡ 0
  unfolding added
  added_empty i lt =
      update_ne (fill s.words r 0 (pgsize / 4)) (pde_at pgdir va) (r + 4 * i)
        (v2p r + pte_p + pte_w + pte_u) (λ e. first.1 (omega (arith, e, first.0, v.aligned)))
      ∙ fill_same s.words r 0 (pgsize / 4) i lt

  added_pde : added (pde_at pgdir va) ≡ v2p r + 7
  unfolding added
  added_pde =
      update_self (fill s.words r 0 (pgsize / 4)) (pde_at pgdir va) (v2p r + pte_p + pte_w + pte_u)
      ∙ omega arith

  abbrev after : Kmem
  after = record { freelist = s.words r; words = added }

  added_dir : (d : ℕ) → d < 1024 → d ≢ pdx va → added (pgdir + 4 * d) ≡ s.words (pgdir + 4 * d)
  added_dir d lt ne =
      added_other (pgdir + 4 * d) (omega (arith, first, v.aligned)) (λ e. ne (omega (arith, e)))

  added_table : table after pgdir (pdx va) ≡ r
  added_table =
      ap (λ (x : ℕ). p2v (pte_addr x)) added_pde
      ∙ omega (arith, page.aligned, page.mapped, page.below_top)

  added_tables : (d : ℕ) → d < 1024 → d ≢ pdx va → table after pgdir d ≡ table s pgdir d
  added_tables d lt ne = ap (λ (x : ℕ). p2v (pte_addr x)) (added_dir d lt ne)

  added-present :
      (d : ℕ)
      → d < 1024
      → d ≢ pdx va
      → present (added (pgdir + 4 * d)) ≡ true
      → present (s.words (pgdir + 4 * d)) ≡ true
  added-present d lt ne h = ap present (sym (added_dir d lt ne)) ∙ h

  -- the tables before are apart from the new one
  apart_table :
      (d : ℕ)
      → d < 1024
      → present (s.words (pgdir + 4 * d)) ≡ true
      → (r ≢ table s pgdir d) × Others (table s pgdir d) free
  apart_table d lt h =
      let (al, ne, o) = Others-first (table s pgdir d) r free (v.tables_apart d lt h) in (ne, o)

  added-Chain : Chain added (s.words r) free
  added-Chain =
      let (at, ne, rest) = Chain-cons s.words s.freelist r free v.chain in
      Chain-words s.words added (s.words r) free
        (Others-words2 s.words added pgdir r free v.aligned first.0
          (λ x far far'. added_other x far' (λ e. absurd (omega (arith, far, e)))) first.2
          v.free_once.0)
        rest

  one_table :
      (d d' : ℕ)
      → d < 1024
      → d' < 1024
      → present (added (pgdir + 4 * d)) ≡ true
      → present (added (pgdir + 4 * d')) ≡ true
      → table after pgdir d ≡ table after pgdir d'
      → d ≡ d'
  one_table d d' lt lt' h h' e = elim (ℕ_discrete d (pdx va)) [
    | yes at ↦ elim (ℕ_discrete d' (pdx va)) [
      | yes at' ↦ at ∙ sym at'
      | no ne' ↦ absurd (
          (apart_table d' lt' (added-present d' lt' ne' h')).0
            (sym added_table ∙ ap (table after pgdir) (sym at) ∙ e ∙ added_tables d' lt' ne'))
    ]
    | no ne ↦ elim (ℕ_discrete d' (pdx va)) [
      | yes at' ↦ absurd (
          (apart_table d lt (added-present d lt ne h)).0
            (sym added_table ∙ ap (table after pgdir) (sym at') ∙ sym e ∙ added_tables d lt ne))
      | no ne' ↦
          v.tables_once d d' lt lt' (added-present d lt ne h) (added-present d' lt' ne' h')
            (sym (added_tables d lt ne) ∙ e ∙ added_tables d' lt' ne')
    ]
  ]

  after-Valid : Valid end after pgdir free
  after-Valid = record {
    chain = added-Chain;
    free_pages = v.free_pages.1;
    free_once = v.free_once.1;
    aligned = v.aligned;
    apart = first.2;
    tables_apart = λ d lt h. elim (ℕ_discrete d (pdx va)) [
      | yes e ↦
          subst (λ (t : ℕ). Others t free) (sym (ap (table after pgdir) e ∙ added_table))
            v.free_once.0
      | no ne ↦
          subst (λ (t : ℕ). Others t free) (sym (added_tables d lt ne))
            (apart_table d lt (added-present d lt ne h)).1
    ];
    tables_set = λ d lt h. elim (ℕ_discrete d (pdx va)) [
      | yes e ↦
          subst (λ (t : ℕ). (t ≢ 0) × (t ≢ pgdir)) (sym (ap (table after pgdir) e ∙ added_table))
            ((λ z. absurd (omega (arith, z, page.mapped))), first.1)
      | no ne ↦
          subst (λ (t : ℕ). (t ≢ 0) × (t ≢ pgdir)) (sym (added_tables d lt ne))
            (v.tables_set d lt (added-present d lt ne h))
    ];
    tables_once = one_table;
  }

  -- the entries of the new table are 0, and the others stay
  after_entry : (va' : ℕ) → entry after pgdir va' ≡ entry s pgdir va'
  after_entry va' = elim (ℕ_discrete (pdx va') (pdx va)) [
    | yes e ↦
        let here : present (added (pgdir + 4 * pdx va')) ≡ true =
          ap (λ (d : ℕ). present (added (pgdir + 4 * d))) e
          ∙ ap present added_pde
          ∙ (ground (arith, page.aligned, page.mapped)) in
        let gone : present (s.words (pgdir + 4 * pdx va')) ≡ false =
          ap (λ (d : ℕ). present (s.words (pgdir + 4 * d))) e ∙ missing in
        let empty : added (table after pgdir (pdx va') + 4 * ptx va') ≡ 0 =
          ap (λ (t : ℕ). added (t + 4 * ptx va')) (ap (table after pgdir) e ∙ added_table)
          ∙ added_empty (ptx va') (omega arith) in
        rw (here, gone) empty
    | no ne ↦
        let same = added_dir (pdx va') (omega arith) ne in
        elim (Bool-cases (present (s.words (pgdir + 4 * pdx va')))) [
          | inr h ↦
              let h' : present (added (pgdir + 4 * pdx va')) ≡ false = ap present same ∙ h in
              rw (h, h') refl
          | inl h ↦
              let h' : present (added (pgdir + 4 * pdx va')) ≡ true = ap present same ∙ h in
              let off = (apart_table (pdx va') (omega arith) h).0 in
              let off_dir = (v.tables_set (pdx va') (omega arith) h).1 in
              let kept : added (table s pgdir (pdx va') + 4 * ptx va')
                  ≡ s.words (table s pgdir (pdx va') + 4 * ptx va') =
                added_other (table s pgdir (pdx va') + 4 * ptx va') (omega (arith, off, first.0))
                  (λ e. off_dir (omega (arith, e, v.aligned))) in
              rw (h, h')
                (ap (λ (t : ℕ). added (t + 4 * ptx va')) (added_tables (pdx va') (omega arith) ne)
                  ∙ kept)
        ]
  ]

-- What walkpgdir gives with `alloc`: the entry's place, with every entry as before, or 0 where no page is free.
pub data Walked (end : ℕ) (s : Kmem) (pgdir va : ℕ) : ℕ × Kmem → Type 0 where
  walked :
      (s' : Kmem) (free : List ℕ)
      → Valid end s' pgdir free
      → ((va' : ℕ) → entry s' pgdir va' ≡ entry s pgdir va')
      → present (s'.words (pde_at pgdir va)) ≡ true
      → Walked end s pgdir va (pte_at (s'.words (pde_at pgdir va)) va, s')
  no_page : Valid end s pgdir [] → Walked end s pgdir va (0, s)

new_table-Walked :
    (end : ℕ) (s : Kmem) (pgdir va : ℕ) (free : List ℕ)
    → Valid end s pgdir free
    → present (s.words (pde_at pgdir va)) ≡ false
    → Walked end s pgdir va (new_table pgdir va (kalloc s))
new_table-Walked end s pgdir va [] v missing =
    subst (λ (o : ℕ × Kmem). Walked end s pgdir va (new_table pgdir va o))
      (sym (kalloc_empty s (Chain-nil s.words s.freelist v.chain))) (unfold new_table in no_page v)
new_table-Walked end s pgdir va (r ∷ free) v missing =
    let (at, ne, rest) = Chain-cons s.words s.freelist r free v.chain in
    let s' = after end s pgdir va r free v missing in
    let pde = added_pde end s pgdir va r free v missing in
    let p = page end s pgdir va r free v missing in
    let here : present (s'.words (pde_at pgdir va)) ≡ true =
      ap present pde ∙ ground (arith, p.aligned, p.mapped) in
    let place : pte_at (s'.words (pde_at pgdir va)) va ≡ r + 4 * ptx va =
      ap (λ (t : ℕ). t + 4 * ptx va) (added_table end s pgdir va r free v missing) in
    let done =
      walked s' free (after-Valid end s pgdir va r free v missing)
        (after_entry end s pgdir va r free v missing) here in
    let got : kalloc s ≡ (r, record s { freelist = s.words r }) = kalloc_page s r at ne in
    let is_page : (r == 0) ≡ false = ground (arith, ne) in
    subst (λ (o : ℕ × Kmem). Walked end s pgdir va (new_table pgdir va o)) (sym got)
      (subst (Walked end s pgdir va)
        (ap (λ (pte : ℕ). (pte, s')) place ∙ (unfold new_table added in rw is_page refl)) done)

-- walkpgdir with `alloc`.
pub walkpgdir-Walked :
    (end : ℕ) (s : Kmem) (pgdir va : ℕ) (free : List ℕ)
    → Valid end s pgdir free
    → Walked end s pgdir va (walkpgdir s pgdir va true)
unfolding walkpgdir
walkpgdir-Walked end s pgdir va free v = elim (Bool-cases (present (s.words (pde_at pgdir va)))) [
  | inl h ↦ rw h (walked s free v (λ va'. refl) h)
  | inr h ↦ rw h (new_table-Walked end s pgdir va free v h)
]
