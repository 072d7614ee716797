-- ===== src/Sort.antt =====
-- lab8Distributed/sort.c: the merge sort of a vector over the processes of MPI. A float is an element of
-- a type with the test `<`, and an array with its length is a list. Random numbers, the clock, qsort and
-- the messages of MPI are left out.
pub mod Merge
pub mod Power
mod Tests
use ence.Base.{
  ℕ, zero, suc, ◌+◌, ◌-◌, ◌*◌, ◌/◌, ◌%◌, ◌≡◌, Bool, true, false, not, ◌&&◌, List, [], ◌∷◌, ◌++◌,
  ltb, leb, ◌==◌, Option, none, some, ℤ, pos, negsuc, sub_ℕ, if◌then◌else◌,
}

module _ {ℓ} {A : Type ℓ} (less : A → A → Bool) where
  -- what is left of `a` and of `b` when some elements are merged
  unfoldable pub merge : (a b : List A) → List A
  merge [] b = b
  merge (x ∷ a) [] = x ∷ a
  merge (x ∷ a) (y ∷ b) = elim (less x y) [
    | true ↦ x ∷ merge a (y ∷ b)
    | false ↦ y ∷ merge (x ∷ a) b
  ]

  -- compare, the order given to qsort
  pub compare : A → A → ℤ
  compare x y = if less x y then negsuc 0 else if less y x then pos 1 else pos 0

  unfoldable pub check_sorted : List A → Bool
  check_sorted [] = true
  check_sorted (x ∷ []) = true
  check_sorted (x ∷ y ∷ values) =
      let more = check_sorted (y ∷ values) in if less y x then false else more

-- the loop of nextPower2, for an int `x`
unfoldable pub double_from : (fuel n x : ℕ) → ℕ
double_from zero n x = x
double_from (suc fuel) n x = elim (ltb x n) [ true ↦ double_from fuel n (x * 2) | false ↦ x ]

pub next_power2 : ℕ → ℕ
next_power2 n = double_from 31 n 1

-- mergeTree of the process `rank` of `size`, as it stands: the vector of the other process is not received,
-- and `n2` stays 0. `none` is NULL.
unfoldable pub merge_tree {ℓ} :
    {A : Type ℓ} (less : A → A → Bool) (fuel rank size : ℕ) (sub_vec : List A) (step : ℕ)
    → Option (List A)
merge_tree less zero rank size sub_vec step = none
merge_tree less (suc fuel) rank size sub_vec step = elim (ltb (next_power2 size) step) [
  | true ↦ some sub_vec
  | false ↦ elim (rank % step == 0) [
    | true ↦ elim (leb size (rank + step / 2)) [
      | true ↦ merge_tree less fuel rank size sub_vec (step * 2)
      | false ↦ merge_tree less fuel rank size (merge less sub_vec []) (step * 2)
    ]
    | false ↦ none
  ]
]

-- how many elements `main` takes for the process `rank` of `size`, of `total` ones
abbrev pub elems_proc : (total size : ℕ) → ℕ
elems_proc total size = (total + (size - 1)) / size

pub local_size : (total size rank : ℕ) → ℤ
local_size total size rank =
    let each = elems_proc total size in
    let extra = each * size - total in
    if leb total rank then pos 0 else if rank + 1 == size then sub_ℕ each extra else pos each
