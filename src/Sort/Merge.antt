-- ===== src/Sort/Merge.antt =====
-- merge of sort.c against its own test for order, and the elements that it gives.
use ence.Base.{
  ◌≡◌, refl, ap, Bool, true, false, not, Bool-cases, List, [], ◌∷◌, ◌++◌, append-nil, inl, inr,
  arith,
}
use ence.Sort.{merge, check_sorted}
use mathlib.Core.List.{Perm, perm_middle}
use mathlib.Core.List.Perm

-- What merge promises: the elements of both vectors, and sorted where both are.
pub record Merges {ℓ} {A : Type ℓ} (less : A → A → Bool) (a b res : List A) : Type ℓ where
  pub elements : Perm res (a ++ b)
  pub sorted :
      check_sorted less a ≡ true → check_sorted less b ≡ true → check_sorted less res ≡ true

module _ {ℓ} {A : Type ℓ} (less : A → A → Bool) where
  -- no element is less than both
  above : A → List A → Bool
  above x [] = true
  above x (y ∷ ys) = not (less y x)

  check_sorted-cons :
      (x : A) (xs : List A)
      → above x xs ≡ true
      → check_sorted less xs ≡ true
      → check_sorted less (x ∷ xs) ≡ true
  unfolding above check_sorted
  check_sorted-cons x [] h s = refl
  check_sorted-cons x (y ∷ ys) h s = ground (arith, h, s)

  check_sorted-head :
      (x : A) (xs : List A)
      → check_sorted less (x ∷ xs) ≡ true
      → (above x xs ≡ true) × (check_sorted less xs ≡ true)
  unfolding above check_sorted
  check_sorted-head x [] s = (refl, refl)
  check_sorted-head x (y ∷ ys) s = ground (arith, s)

  merge_left :
      (x y : A) (a b : List A)
      → less x y ≡ true
      → merge less (x ∷ a) (y ∷ b) ≡ x ∷ merge less a (y ∷ b)
  unfolding merge
  merge_left x y a b h = rw (merge, h) refl

  merge_right :
      (x y : A) (a b : List A)
      → less x y ≡ false
      → merge less (x ∷ a) (y ∷ b) ≡ y ∷ merge less (x ∷ a) b
  unfolding merge
  merge_right x y a b h = rw (merge, h) refl

  -- the head of the result is one of the heads
  above-merge :
      (z : A) (a b : List A) → above z a ≡ true → above z b ≡ true → above z (merge less a b) ≡ true
  unfolding above merge
  above-merge z [] b ha hb = hb
  above-merge z (x ∷ a) [] ha hb = ha
  above-merge z (x ∷ a) (y ∷ b) ha hb = elim (Bool-cases (less x y)) [
    | inl h ↦ rw (merge_left x y a b h) ha
    | inr h ↦ rw (merge_right x y a b h) hb
  ]

  merge-perm : (a b : List A) → Perm (merge less a b) (a ++ b)
  unfolding merge
  merge-perm [] b = Perm.rfl
  merge-perm (x ∷ a) [] = rw (append-nil a) Perm.rfl
  merge-perm (x ∷ a) (y ∷ b) = elim (Bool-cases (less x y)) [
    | inl h ↦ rw (merge_left x y a b h) (Perm.cons x (merge-perm a (y ∷ b)))
    | inr h ↦
        rw (merge_right x y a b h)
          (Perm.trans (Perm.cons y (merge-perm (x ∷ a) b)) (Perm.symm (perm_middle (x ∷ a) b)))
  ]

  module _ (asymmetric : (x y : A) → less x y ≡ true → less y x ≡ false) where
    check_sorted-merge :
        (a b : List A)
        → check_sorted less a ≡ true
        → check_sorted less b ≡ true
        → check_sorted less (merge less a b) ≡ true
    unfolding merge
    check_sorted-merge [] b sa sb = sb
    check_sorted-merge (x ∷ a) [] sa sb = sa
    check_sorted-merge (x ∷ a) (y ∷ b) sa sb =
        let (ha, ta) = check_sorted-head x a sa in
        let (hb, tb) = check_sorted-head y b sb in
        elim (Bool-cases (less x y)) [
          | inl h ↦
              let over : above x (y ∷ b) ≡ true = (unfold above in ap not (asymmetric x y h)) in
              rw (merge_left x y a b h) (
                check_sorted-cons x (merge less a (y ∷ b)) (above-merge x a (y ∷ b) ha over)
                  (check_sorted-merge a (y ∷ b) ta sb))
          | inr h ↦
              let over : above y (x ∷ a) ≡ true = (unfold above in ap not h) in
              rw (merge_right x y a b h) (
                check_sorted-cons y (merge less (x ∷ a) b) (above-merge y (x ∷ a) b over hb)
                  (check_sorted-merge (x ∷ a) b sa tb))
        ]

    -- Where no two elements are each less than the other, as no two floats are, merge gives the elements of
    -- both vectors, and its result passes the test of checkSorted where both vectors do.
    pub merge-Merges : (a b : List A) → Merges less a b (merge less a b)
    merge-Merges a b = record { elements = merge-perm a b; sorted = check_sorted-merge a b }
