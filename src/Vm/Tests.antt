-- ===== src/Vm/Tests.antt =====
-- mappages in an empty page directory, and its theorem at it.
use ence.Base.{ℕ, ◌+◌, ◌-◌, ◌/◌, ◌≡◌, refl, [], ◌∷◌, arith}
use ence.Memory.{Kmem, pgsize}
use ence.Memory.Chain.{Chain}
use ence.Memory.Range.{Others}
use ence.Vm.{make_pte, mappages}
use ence.Vm.Entries.{Valid}
use ence.Vm.Map.{Maps, mappages-Maps}

abbrev end : ℕ
end = 0x80400000

-- one free page, and the page directory behind it
abbrev kmem : Kmem
kmem = record { freelist = 0x80400000; words = λ _. 0 }

abbrev pgdir : ℕ
pgdir = 0x80401000

pgdir-Valid : Valid end kmem pgdir (0x80400000 ∷ [])
unfolding Chain Others
pgdir-Valid = record {
  chain = (refl, (λ e. absurd (omega (arith, e))), refl);
  free_pages = (
    record {
      aligned = refl;
      after_kernel = omega arith;
      mapped = omega arith;
      below_top = omega arith;
    },
    tt,
  );
  free_once = (tt, tt);
  aligned = refl;
  apart = ((refl, λ e. absurd (omega (arith, e))), tt);
  tables_apart = λ d lt h. absurd (ground (arith, h));
  tables_set = λ d lt h. absurd (ground (arith, h));
  tables_once = λ d d' lt lt' h h' e. absurd (ground (arith, h));
}

-- a user page at address 4096
mappages-Maps_example :
    Maps end kmem pgdir
      (4096 / pgsize)
      ((4096 + 4096 - 1) / pgsize - 4096 / pgsize)
      0x5000
      6
      (mappages kmem pgdir 4096 4096 0x5000 6)
mappages-Maps_example =
    mappages-Maps end kmem pgdir 4096 4096 0x5000 6 (0x80400000 ∷ []) pgdir-Valid (omega arith)
      (omega arith) (omega arith)

flags_test : make_pte 0x5000 6 ≡ 0x5007
flags_test = refl
