-- ===== src/LinkedList/Tests.antt =====
-- The functions of linkedList.c on a list of two links, and the theorems at it.
use ence.Base.{ℕ, ◌≡◌, refl, Option, none, some, [], ◌∷◌, arith, All}
use ence.LinkedList.{Heap, list_append, list_reverse, freed, bad_free, free_from, list_free}
use ence.LinkedList.Segment.{Segment, list_reverse-Segment}
use ence.LinkedList.Free.{list_free-twice}
use mathlib.Core.List.{reverse}

-- a malloc that gives address 1, and then 2
abbrev malloc : Heap → ℕ
malloc h = elim (h 1) [ none ↦ 1 | some _ ↦ 2 ]

abbrev one : Option ℕ × Heap
one = list_append malloc (λ _. none) 10 none

abbrev two : Option ℕ × Heap
two = list_append malloc one.1 20 one.0

two-Segment : Segment two.1 two.0 (2 ∷ 1 ∷ []) (20 ∷ 10 ∷ [])
unfolding list_append
two-Segment = (refl, (some 1, refl, (refl, (none, refl, refl))))

list_reverse-Segment_example :
    (p : Option ℕ) × (h' : Heap) × (list_reverse two.1 two.0 2 ≡ some (p, h'))
    × Segment h' p (reverse (2 ∷ 1 ∷ [])) (reverse (20 ∷ 10 ∷ []))
list_reverse-Segment_example =
    list_reverse-Segment two.1 two.0 2 (2 ∷ 1 ∷ []) (20 ∷ 10 ∷ []) (omega arith)
      ((λ e. ground (arith, e), tt), (tt, tt)) two-Segment

list_free-twice_example :
    (h' : Heap) × (free_from two.1 two.0 3 ≡ freed h')
    × All (λ b. h' b ≡ none) (2 ∷ 1 ∷ [])
    × (list_free two.1 two.0 3 ≡ bad_free 2)
list_free-twice_example =
    list_free-twice two.1 2 20 3 (1 ∷ []) (10 ∷ []) two.0 (omega arith)
      ((λ e. ground (arith, e), tt), (tt, tt)) two-Segment
