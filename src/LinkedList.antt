-- ===== src/LinkedList.antt =====
-- lab1Revision/linkedList.c over a heap. A pointer is an address or none, and malloc a function of the
-- heap. What a bad read or a bad free does is a result of its own; list_reverse gives `none` at a bad read.
pub mod Segment
pub mod Free
mod Tests
use ence.Base.{
  ℕ, zero, suc, ◌+◌, Bool, true, false, Option, none, some, ltb, update, u32, if◌then◌else◌,
}

-- struct Link_s; an int32_t is its bit pattern
pub record Link : Type 0 where
  pub next : Option ℕ
  pub value : ℕ

abbrev pub Heap : Type 0
Heap = ℕ → Option Link

-- What a call leaves: a pointer and the heap.
abbrev pub Result : Type 0
Result = Option (Option ℕ × Heap)

module _ (malloc : Heap → ℕ) where
  pub list_append : Heap → (x : ℕ) (head : Option ℕ) → Option ℕ × Heap
  list_append h x head =
      let head_ = malloc h in
      (some head_, update h head_ (some (record { next = head; value = x })))

-- the loop of list_reverse from `head` and `l` on, with fuel
unfoldable pub reverse_from : Heap → (head l : Option ℕ) (fuel : ℕ) → Result
reverse_from h head none fuel = some (head, h)
reverse_from h head (some l) zero = none
reverse_from h head (some l) (suc fuel) = elim (h l) [
  | none ↦ none
  | some link ↦
      reverse_from (update h l (some (record link { next = head }))) (some l) link.next fuel
]

pub list_reverse : Heap → (list : Option ℕ) (fuel : ℕ) → Result
list_reverse h list fuel = reverse_from h none list fuel

-- free of the C library, for an address that was allocated
pub free : Heap → ℕ → Option Heap
free h a = elim (h a) [ none ↦ none | some _ ↦ some (update h a none) ]

-- How list_free ends: with the heap, at a read of l->next or a free of an address that is not allocated, or
-- with its fuel.
pub data Freeing : Type 0 where
  freed : Heap → Freeing
  bad_read : (l : ℕ) → Freeing
  bad_free : (l : ℕ) → Freeing
  no_fuel : Freeing

-- the loop of list_free, with fuel
unfoldable pub free_from : Heap → (l : Option ℕ) (fuel : ℕ) → Freeing
free_from h none fuel = freed h
free_from h (some l) zero = no_fuel
free_from h (some l) (suc fuel) = elim (h l) [
  | none ↦ bad_read l
  | some link ↦ elim (free h l) [ none ↦ bad_free l | some h' ↦ free_from h' link.next fuel ]
]

-- list_free behind its loop
abbrev free_again : Option ℕ → Heap → Freeing
free_again none h = freed h
free_again (some list) h = elim (free h list) [ none ↦ bad_free list | some h' ↦ freed h' ]

-- list_free: after the loop it frees the pointer that it was given once more.
pub list_free : Heap → (list : Option ℕ) (fuel : ℕ) → Freeing
list_free h list fuel = elim (free_from h list fuel) [
  | freed h' ↦ free_again list h'
  | bad_read l ↦ bad_read l
  | bad_free l ↦ bad_free l
  | no_fuel ↦ no_fuel
]
