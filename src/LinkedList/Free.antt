-- ===== src/LinkedList/Free.antt =====
-- list_free frees the first link twice.
use ence.Base.{
  ℕ, zero, suc, ◌≤◌, ◌<◌, ◌≡◌, refl, ◌∙◌, Option, none, some, List, [], ◌∷◌, arith, update, length,
  All,
}
use ence.LinkedList.{Link, Heap, free, freed, bad_free, free_from, free_again, list_free}
use ence.LinkedList.Segment.{Segment, Apart, Uniq, update-Segment}

-- one round of the loop
free_from-some :
    (h : Heap) (a fuel : ℕ) (link : Link)
    → h a ≡ some link
    → free_from h (some a) (suc fuel) ≡ free_from (update h a none) link.next fuel
unfolding free_from free
free_from-some h a fuel link here = ground (arith, here)

free-none : (h : Heap) (a : ℕ) → h a ≡ none → free h a ≡ none
unfolding free
free-none h a gone = ground (arith, gone)

free_again-bad_free : (h : Heap) (a : ℕ) → h a ≡ none → free_again (some a) h ≡ bad_free a
free_again-bad_free h a gone = rw (free_again, free-none h a gone) refl

-- The loop frees every link of the list, once, and nothing else.
pub free_from-Segment :
    (h : Heap) (l : Option ℕ) (fuel : ℕ) (addrs xs : List ℕ)
    → length xs ≤ fuel
    → Uniq addrs
    → Segment h l addrs xs
    → (h' : Heap) × (free_from h l fuel ≡ freed h')
      × All (λ a. h' a ≡ none) addrs
      × ((b : ℕ) → Apart b addrs → h' b ≡ h b)
unfolding free_from
free_from-Segment h l fuel [] [] enough uniq s = (h, rw s refl, tt, λ b apart. refl)
free_from-Segment h l fuel [] (x ∷ xs) enough uniq s = absurd s
free_from-Segment h l fuel (a ∷ addrs) [] enough uniq s = absurd s
free_from-Segment h l zero (a ∷ addrs) (x ∷ xs) enough uniq s = absurd (omega arith)
free_from-Segment h l (suc fuel) (a ∷ addrs) (x ∷ xs) enough (alone, uniq)
      (at, (next, here, rest)) =
    let (h', e, gone, kept) =
      free_from-Segment (update h a none) next fuel addrs xs (omega arith) uniq
        (update-Segment h a none next addrs xs alone rest) in
    (
      h',
      rw at (free_from-some h a fuel _ here ∙ e),
      (kept a alone ∙ ground arith, gone),
      λ b apart. kept b apart.1 ∙ ground (arith, apart.0),
    )

-- On a list of one link or more whose links are apart, with fuel for its loop: the loop of list_free
-- frees every link of the list, and list_free then frees the address of the first link again, which is not
-- allocated any more.
pub list_free-twice :
    (h : Heap) (a x fuel : ℕ) (addrs xs : List ℕ) (list : Option ℕ)
    → length xs < fuel
    → Uniq (a ∷ addrs)
    → Segment h list (a ∷ addrs) (x ∷ xs)
    → (h' : Heap) × (free_from h list fuel ≡ freed h')
      × All (λ b. h' b ≡ none) (a ∷ addrs)
      × (list_free h list fuel ≡ bad_free a)
unfolding list_free
list_free-twice h a x fuel addrs xs list enough uniq s =
    let (h', e, gone, kept) =
      free_from-Segment h list fuel (a ∷ addrs) (x ∷ xs) (omega arith) uniq s in
    (h', e, gone, rw (list_free, e, s.0) (free_again-bad_free h' a gone.0))
