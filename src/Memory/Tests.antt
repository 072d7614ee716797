-- ===== src/Memory/Tests.antt =====
-- kalloc and kfree on two pages, and the theorem at them.
use ence.Base.{ℕ, ◌≡◌, refl, some, [], ◌∷◌, arith, ◌+◌, sym, ◌∙◌}
use ence.Memory.{Kmem, kfree, kalloc, free_from, freerange}
use ence.Memory.Pages.{State, allocates, Reachable, boots, step, Owned, Reachable-Owned}
use ence.Memory.Range.{freed}

abbrev start : ℕ
start = 0x80400000

abbrev top : ℕ
top = 0x80402000

abbrev empty : Kmem
empty = record { freelist = 0; words = λ _. 0 }

abbrev two_pages : Kmem
two_pages = freed (freed empty start) (start + 4096)

booted : freerange start empty start top ≡ some two_pages
unfolding freerange free_from kfree
booted = refl

-- a page is handed out
abbrev one_held : State
one_held = record { kmem = (kalloc two_pages).1; held = (kalloc two_pages).0 ∷ [] }

kalloc_test : (kalloc two_pages).0 ≡ start + 4096
unfolding kalloc
kalloc_test = refl

one_held-Reachable : Reachable start start top one_held
one_held-Reachable =
    step (record { kmem = two_pages; held = [] }) one_held (boots (λ _. 0) two_pages booted)
      (allocates (λ e. absurd (omega (arith, sym kalloc_test ∙ e))))

Reachable-Owned_example : Owned start start top one_held
Reachable-Owned_example =
    Reachable-Owned start start top one_held (omega arith) (omega arith) (omega arith) (omega arith)
      one_held-Reachable
