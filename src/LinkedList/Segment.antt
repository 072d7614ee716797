-- ===== src/LinkedList/Segment.antt =====
-- The list that a pointer leads to, and list_reverse.
use ence.Base.{
  ℕ, zero, suc, ◌≤◌, ◌≡◌, ◌≢◌, refl, sym, ap, ◌∙◌, Option, none, some, List, [], ◌∷◌, ◌++◌, arith,
  update, length, All, subst,
}
use ence.LinkedList.{Link, Heap, reverse_from, list_reverse}
use mathlib.Core.List.{reverse, reverse-append, append_assoc, append-nil}

-- From `p` on stand the links at the addresses, with the values.
abbrev pub Segment : Heap → Option ℕ → List ℕ → List ℕ → Type 0
Segment h p [] [] = p ≡ none
Segment h p [] (_ ∷ _) = ⊥
Segment h p (_ ∷ _) [] = ⊥
Segment h p (a ∷ addrs) (x ∷ xs) =
    (p ≡ some a)
    × ((next : Option ℕ) × (h a ≡ some (record { next = next; value = x }))
        × Segment h next addrs xs)

abbrev pub Apart : ℕ → List ℕ → Type 0
Apart a addrs = All (λ b. b ≢ a) addrs

abbrev pub Uniq : List ℕ → Type 0
Uniq [] = Unit
Uniq (a ∷ addrs) = Apart a addrs × Uniq addrs

-- What is stored at another address does not touch a segment.
pub update-Segment :
    (h : Heap) (a : ℕ) (l : Option Link) (p : Option ℕ) (addrs xs : List ℕ)
    → Apart a addrs
    → Segment h p addrs xs
    → Segment (update h a l) p addrs xs
update-Segment h a l p [] [] apart s = s
update-Segment h a l p [] (x ∷ xs) apart s = s
update-Segment h a l p (b ∷ addrs) [] apart s = s
update-Segment h a l p (b ∷ addrs) (x ∷ xs) (ne, apart) (at, (next, here, rest)) =
    (at, (next, ground (arith, here, ne), update-Segment h a l next addrs xs apart rest))

tail-Apart :
    (a : ℕ) (addrs done : List ℕ)
    → All (λ b. Apart b (a ∷ addrs)) done
    → All (λ b. Apart b addrs) done
tail-Apart a addrs [] h = tt
tail-Apart a addrs (d ∷ done) (h, hs) = (h.1, tail-Apart a addrs done hs)

head-Apart : (a : ℕ) (addrs done : List ℕ) → All (λ b. Apart b (a ∷ addrs)) done → Apart a done
head-Apart a addrs [] h = tt
head-Apart a addrs (d ∷ done) (h, hs) = (λ e. h.0 (sym e), head-Apart a addrs done hs)

-- one round of the loop
reverse_from-some :
    (h : Heap) (head : Option ℕ) (a fuel : ℕ) (link : Link)
    → h a ≡ some link
    → reverse_from h head (some a) (suc fuel)
      ≡ reverse_from (update h a (some (record link { next = head }))) (some a) link.next fuel
unfolding reverse_from
reverse_from-some h head a fuel link here = ground (arith, here)

reverse_cons : (a : ℕ) (xs ys : List ℕ) → reverse (a ∷ xs) ++ ys ≡ reverse xs ++ (a ∷ ys)
reverse_cons a xs ys =
    ap (λ (r : List ℕ). r ++ ys) (reverse-append (a ∷ []) xs)
    ∙ append_assoc (reverse xs) (a ∷ []) ys

along-Segment :
    (h : Heap) (p : Option ℕ) {addrs addrs' xs xs' : List ℕ}
    → addrs' ≡ addrs
    → xs' ≡ xs
    → Segment h p addrs xs
    → Segment h p addrs' xs'
along-Segment h p {addrs} {addrs'} {xs} {xs'} ea ex s =
    subst (λ bs. Segment h p bs xs') (sym ea) (subst (λ zs. Segment h p addrs zs) (sym ex) s)

-- The loop of list_reverse turns what is before it and what is behind it into one segment.
reverse_from-Segment :
    (h : Heap) (head l : Option ℕ) (fuel : ℕ) (addrs xs done ys : List ℕ)
    → length xs ≤ fuel
    → Uniq addrs
    → All (λ b. Apart b addrs) done
    → Segment h l addrs xs
    → Segment h head done ys
    → (p : Option ℕ) × (h' : Heap) × (reverse_from h head l fuel ≡ some (p, h'))
      × Segment h' p (reverse addrs ++ done) (reverse xs ++ ys)
unfolding reverse_from
reverse_from-Segment h head l fuel [] [] done ys enough uniq apart s t = (head, h, rw s refl, t)
reverse_from-Segment h head l fuel [] (x ∷ xs) done ys enough uniq apart s t = absurd s
reverse_from-Segment h head l fuel (a ∷ addrs) [] done ys enough uniq apart s t = absurd s
reverse_from-Segment h head l zero (a ∷ addrs) (x ∷ xs) done ys enough uniq apart s t =
    absurd (omega arith)
reverse_from-Segment h head l (suc fuel) (a ∷ addrs) (x ∷ xs) done ys enough (alone, uniq) apart
      (at, (next, here, rest)) t =
    let h1 = update h a (some (record { next = head; value = x })) in
    let (p, h', e, seg) =
      reverse_from-Segment h1 (some a) next fuel addrs xs (a ∷ done) (x ∷ ys) (omega arith) uniq
        (alone, tail-Apart a addrs done apart) (update-Segment h a _ next addrs xs alone rest)
        (
          refl,
          (head, ground arith, update-Segment h a _ head done ys (head-Apart a addrs done apart) t),
        ) in
    (
      p,
      h',
      rw at (reverse_from-some h head a fuel _ here ∙ e),
      along-Segment h' p (reverse_cons a addrs done) (reverse_cons x xs ys) seg,
    )

-- list_reverse of a list whose links are apart, with as much fuel as it has links, returns a pointer
-- to the same links in reverse, with the values in reverse.
pub list_reverse-Segment :
    (h : Heap) (list : Option ℕ) (fuel : ℕ) (addrs xs : List ℕ)
    → length xs ≤ fuel
    → Uniq addrs
    → Segment h list addrs xs
    → (p : Option ℕ) × (h' : Heap) × (list_reverse h list fuel ≡ some (p, h'))
      × Segment h' p (reverse addrs) (reverse xs)
unfolding list_reverse
list_reverse-Segment h list fuel addrs xs enough uniq s =
    let (p, h', e, seg) =
      reverse_from-Segment h none list fuel addrs xs [] [] enough uniq tt s refl in
    (
      p,
      h',
      e,
      along-Segment h' p (sym (append-nil (reverse addrs))) (sym (append-nil (reverse xs))) seg,
    )
