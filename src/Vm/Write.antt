-- ===== src/Vm/Write.antt =====
-- Writing an entry of a page table.
use ence.Base.{
  ℕ, ◌+◌, ◌*◌, ◌≤◌, ◌<◌, ◌≡◌, ◌≢◌, ◌⊎◌, inl, inr, refl, sym, ap, ap₂, ◌∙◌, subst, true, false,
  Bool-cases, List, update_ne, update_self, arith,
}
use ence.Memory.{Kmem, pgsize}
use ence.Memory.Chain.{Chain-words}
use ence.Memory.Range.{Others}
use ence.Vm.{pdx, ptx, pte_addr, p2v, present, pde_at, pte_at, set_pte}
use ence.Vm.Entries.{entry, table, Valid, Others-word}

module _ (end : ℕ) (s : Kmem) (pgdir va x : ℕ) (free : List ℕ) (v : Valid end s pgdir free)
    (there : present (s.words (pde_at pgdir va)) ≡ true) where
  -- the place that is written
  abbrev pte : ℕ
  pte = pte_at (s.words (pde_at pgdir va)) va

  abbrev written : Kmem
  written = set_pte s pte x

  -- its table
  abbrev here : ℕ
  here = table s pgdir (pdx va)

  written_other : (y : ℕ) → (y < here) ⊎ (here + pgsize ≤ y) → written.words y ≡ s.words y
  written_other y far = update_ne s.words pte y x (omega arith)

  here_off : here ≢ pgdir
  here_off = (v.tables_set (pdx va) (omega arith) there).1

  written_dir : (d : ℕ) → d < 1024 → written.words (pgdir + 4 * d) ≡ s.words (pgdir + 4 * d)
  written_dir d lt = written_other (pgdir + 4 * d) (omega (arith, here_off, v.aligned))

  written_tables : (d : ℕ) → d < 1024 → table written pgdir d ≡ table s pgdir d
  written_tables d lt = ap (λ (x : ℕ). p2v (pte_addr x)) (written_dir d lt)

  written_present :
      (d : ℕ)
      → d < 1024
      → present (written.words (pgdir + 4 * d)) ≡ true
      → present (s.words (pgdir + 4 * d)) ≡ true
  written_present d lt h = ap present (sym (written_dir d lt)) ∙ h

  pub written-Valid : Valid end written pgdir free
  written-Valid = record {
    chain =
        Chain-words s.words written.words s.freelist free
          (Others-word s.words written.words here free (omega arith) written_other
            (v.tables_apart (pdx va) (omega arith) there))
          v.chain;
    free_pages = v.free_pages;
    free_once = v.free_once;
    aligned = v.aligned;
    apart = v.apart;
    tables_apart = λ d lt h.
        subst (λ (t : ℕ). Others t free) (sym (written_tables d lt))
          (v.tables_apart d lt (written_present d lt h));
    tables_set = λ d lt h.
        subst (λ (t : ℕ). (t ≢ 0) × (t ≢ pgdir)) (sym (written_tables d lt))
          (v.tables_set d lt (written_present d lt h));
    tables_once = λ d d' lt lt' h h' e.
        v.tables_once d d' lt lt' (written_present d lt h) (written_present d' lt' h')
          (sym (written_tables d lt) ∙ e ∙ written_tables d' lt');
  }

  -- the entry of an address with the same indexes
  pub written_here : (va' : ℕ) → pdx va' ≡ pdx va → ptx va' ≡ ptx va → entry written pgdir va' ≡ x
  written_here va' ed et =
      let h : present (written.words (pgdir + 4 * pdx va')) ≡ true =
        ap present (written_dir (pdx va') (omega arith))
        ∙ ap (λ (d : ℕ). present (s.words (pgdir + 4 * d))) ed
        ∙ there in
      let at : table written pgdir (pdx va') + 4 * ptx va' ≡ pte =
        ap₂ (λ (t i : ℕ). t + 4 * i)
          (written_tables (pdx va') (omega arith) ∙ ap (table s pgdir) ed) et in
      rw h (ap written.words at ∙ update_self s.words pte x)

  -- and of any other
  pub written_elsewhere :
      (va' : ℕ)
      → (pdx va' ≢ pdx va) ⊎ (ptx va' ≢ ptx va)
      → entry written pgdir va' ≡ entry s pgdir va'
  written_elsewhere va' ne =
      let same = written_dir (pdx va') (omega arith) in
      elim (Bool-cases (present (s.words (pgdir + 4 * pdx va')))) [
        | inr h ↦
            let h' : present (written.words (pgdir + 4 * pdx va')) ≡ false = ap present same ∙ h in
            rw (h, h') refl
        | inl h ↦
            let h' : present (written.words (pgdir + 4 * pdx va')) ≡ true = ap present same ∙ h in
            let apart : table s pgdir (pdx va') + 4 * ptx va' ≢ pte = λ e. elsewhere va' h ne e in
            rw (h, h')
              (ap (λ (t : ℕ). written.words (t + 4 * ptx va'))
                  (written_tables (pdx va') (omega arith))
                ∙ update_ne s.words pte (table s pgdir (pdx va') + 4 * ptx va') x apart)
      ]
    where
      elsewhere :
          (va' : ℕ)
          → present (s.words (pgdir + 4 * pdx va')) ≡ true
          → (pdx va' ≢ pdx va) ⊎ (ptx va' ≢ ptx va)
          → table s pgdir (pdx va') + 4 * ptx va' ≢ pte
      elsewhere va' h ne e =
          let same_table : table s pgdir (pdx va') ≡ here = omega (arith, e) in
          let same_dir =
            v.tables_once (pdx va') (pdx va) (omega arith) (omega arith) h there same_table in
          let same_index : ptx va' ≡ ptx va = omega (arith, e, same_table) in
          elim ne [ inl n ↦ n same_dir | inr n ↦ n same_index ]
