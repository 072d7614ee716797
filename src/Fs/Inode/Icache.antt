-- ===== src/Fs/Inode/Icache.antt =====
-- iget of the inode cache: which entry it gives, and that an inode never has two entries in use.
use ence.Base.{
  ℕ, zero, suc, ◌+◌, ◌≤◌, ◌<◌, ◌≡◌, ◌≢◌, refl, ap, ◌∙◌, Bool, true, false, not, ◌&&◌, Option, none,
  some, update, if◌then◌else◌, ◌==◌, arith, ℕ_discrete, subst,
}
use ence.Fs.Inode.{Inode, ninode, or_else, iget_from, iget_in, iget}

-- The entry is in use for the inode.
abbrev pub holds : (ℕ → Inode) → (dev inum j : ℕ) → Bool
holds cache dev inum j =
    not ((cache j).ref == 0) && ((cache j).dev == dev) && ((cache j).inum == inum)

iget_from-miss :
    (cache : ℕ → Inode) (dev inum i k : ℕ) (empty : Option ℕ) (e j : ℕ)
    → iget_from cache dev inum i k empty ≡ some (false, e)
    → i ≤ j
    → j < i + k
    → holds cache dev inum j ≡ false
unfolding iget_from
iget_from-miss cache dev inum i zero empty e j h lo hi = absurd (omega arith)
iget_from-miss cache dev inum i (suc k) empty e j h lo hi =
    let here = if (cache i).ref == 0 then some i else none in
    let ih = iget_from-miss cache dev inum (i + 1) k (or_else empty here) e j in ground (arith, ih)

iget_from-hit :
    (cache : ℕ → Inode) (dev inum i k : ℕ) (empty : Option ℕ) (e : ℕ)
    → iget_from cache dev inum i k empty ≡ some (true, e)
    → (i ≤ e) × (e < i + k) × (holds cache dev inum e ≡ true)
unfolding iget_from
iget_from-hit cache dev inum i zero none e h = cc
iget_from-hit cache dev inum i zero (some x) e h = absurd (ground (arith, h))
iget_from-hit cache dev inum i (suc k) empty e h =
    let here = if (cache i).ref == 0 then some i else none in
    let ih = iget_from-hit cache dev inum (i + 1) k (or_else empty here) e in ground (arith, ih)

-- a free entry seen before stays the choice
iget_from-some :
    (cache : ℕ → Inode) (dev inum i k x e : ℕ)
    → iget_from cache dev inum i k (some x) ≡ some (false, e)
    → e ≡ x
unfolding iget_from
iget_from-some cache dev inum i zero x e h = ground (arith, h)
iget_from-some cache dev inum i (suc k) x e h =
    let ih = iget_from-some cache dev inum (i + 1) k x e in ground (arith, ih)

iget_from-some_ends :
    (cache : ℕ → Inode) (dev inum i k x : ℕ) → iget_from cache dev inum i k (some x) ≢ none
unfolding iget_from
iget_from-some_ends cache dev inum i zero x h = cc
iget_from-some_ends cache dev inum i (suc k) x h =
    let ih = iget_from-some_ends cache dev inum (i + 1) k x in ground (arith, ih)

-- else the first free one is
iget_from-first :
    (cache : ℕ → Inode) (dev inum i k e : ℕ)
    → iget_from cache dev inum i k none ≡ some (false, e)
    → (i ≤ e) × (e < i + k) × ((cache e).ref ≡ 0) × ((j : ℕ) → i ≤ j → j < e → (cache j).ref ≢ 0)
unfolding iget_from
iget_from-first cache dev inum i zero e h = cc
iget_from-first cache dev inum i (suc k) e h = elim (ℕ_discrete (cache i).ref 0) [
  | yes z ↦
      let later : iget_from cache dev inum (i + 1) k (some i) ≡ some (false, e) =
        ground (arith, h, z) in
      let at = iget_from-some cache dev inum (i + 1) k i e later in
      (
        omega arith,
        omega arith,
        ap (λ (x : ℕ). (cache x).ref) at ∙ z,
        λ j lo hi. absurd (omega arith),
      )
  | no used ↦
      let later : iget_from cache dev inum (i + 1) k none ≡ some (false, e) =
        ground (arith, h, used) in
      let (lo, hi, free, first) = iget_from-first cache dev inum (i + 1) k e later in
      (
        omega arith,
        omega arith,
        free,
        λ j lo' hi'. elim (ℕ_discrete i j) [
          | yes at ↦ subst (λ (x : ℕ). (cache x).ref ≢ 0) at used
          | no ne ↦ first j (omega arith) hi'
        ],
      )
]

iget_from-none :
    (cache : ℕ → Inode) (dev inum i k j : ℕ)
    → iget_from cache dev inum i k none ≡ none
    → i ≤ j
    → j < i + k
    → (holds cache dev inum j ≡ false) × ((cache j).ref ≢ 0)
unfolding iget_from
iget_from-none cache dev inum i zero j h lo hi = absurd (omega arith)
iget_from-none cache dev inum i (suc k) j h lo hi =
    let ih = iget_from-none cache dev inum (i + 1) k j in
    let busy = iget_from-some_ends cache dev inum (i + 1) k i in ground (arith, ih, busy)

-- No inode has two entries in use.
abbrev pub Unique : (ℕ → Inode) → Type 0
Unique cache =
    (i j : ℕ)
    → i < ninode
    → j < ninode
    → 1 ≤ (cache i).ref
    → 1 ≤ (cache j).ref
    → (cache i).dev ≡ (cache j).dev
    → (cache i).inum ≡ (cache j).inum
    → i ≡ j

-- What iget answers.
pub data Answer (cache : ℕ → Inode) (dev inum : ℕ) : Option (ℕ × (ℕ → Inode)) → Type 0 where
  -- the entry in use for the inode, with one more reference
  found :
      (i : ℕ)
      → i < ninode
      → holds cache dev inum i ≡ true
      → Answer cache dev inum
          (some (i, update cache i (record (cache i) { ref = (cache i).ref + 1 })))
  -- the first free entry, where none is in use for the inode
  recycled :
      (i : ℕ)
      → i < ninode
      → ((j : ℕ) → j < ninode → holds cache dev inum j ≡ false)
      → (cache i).ref ≡ 0
      → ((j : ℕ) → j < i → (cache j).ref ≢ 0)
      → Answer cache dev inum (
          some (
            i,
            update cache i (record (cache i) { dev = dev; inum = inum; ref = 1; valid = false }),
          ))
  -- every entry is in use, for other inodes
  no_inodes :
      ((j : ℕ) → j < ninode → (holds cache dev inum j ≡ false) × ((cache j).ref ≢ 0))
      → Answer cache dev inum none

iget_in-Answer :
    (cache : ℕ → Inode) (dev inum : ℕ) (o : Option (Bool × ℕ))
    → iget_from cache dev inum 0 ninode none ≡ o
    → Answer cache dev inum (iget_in cache dev inum o)
unfolding iget_in
iget_in-Answer cache dev inum none e =
    no_inodes (λ j lt. iget_from-none cache dev inum 0 ninode j e (omega arith) (omega arith))
iget_in-Answer cache dev inum (some (true, i)) e =
    let h = iget_from-hit cache dev inum 0 ninode none i e in found i (omega (arith, h.1)) h.2
iget_in-Answer cache dev inum (some (false, i)) e =
    let (lo, hi, free, first) = iget_from-first cache dev inum 0 ninode i e in
    recycled i (omega arith)
      (λ j lt. iget_from-miss cache dev inum 0 ninode none i j e (omega arith) (omega arith)) free
      (λ j lt. first j (omega arith) lt)

-- iget gives the entry in use for the inode where there is one, else the first free entry, which is then
-- not valid; it panics only where every entry is in use for another inode.
pub iget-Answer : (cache : ℕ → Inode) (dev inum : ℕ) → Answer cache dev inum (iget cache dev inum)
unfolding iget
iget-Answer cache dev inum = iget_in-Answer cache dev inum _ refl

-- What iget keeps: the entry it gives is in use for the inode, and no inode has two.
pub data Kept (dev inum : ℕ) : Option (ℕ × (ℕ → Inode)) → Type 0 where
  kept :
      (i : ℕ) (cache : ℕ → Inode)
      → i < ninode
      → holds cache dev inum i ≡ true
      → Unique cache
      → Kept dev inum (some (i, cache))
  no_inodes : Kept dev inum none

module _ (cache : ℕ → Inode) (dev inum i : ℕ) (lt : i < ninode) (unique : Unique cache) where
  found-Kept :
      holds cache dev inum i ≡ true
      → Kept dev inum (some (i, update cache i (record (cache i) { ref = (cache i).ref + 1 })))
  found-Kept h =
      kept i (update cache i (record (cache i) { ref = (cache i).ref + 1 })) lt (ground (arith, h))
        (λ x y ltx lty usedx usedy same_dev same_inum. ground (arith, unique x y, h))

  recycled-Kept :
      ((j : ℕ) → j < ninode → holds cache dev inum j ≡ false)
      → Kept dev inum (
          some (
            i,
            update cache i (record (cache i) { dev = dev; inum = inum; ref = 1; valid = false }),
          ))
  recycled-Kept missing =
      kept i (update cache i (record (cache i) { dev = dev; inum = inum; ref = 1; valid = false }))
        lt (ground arith)
        (λ x y ltx lty usedx usedy same_dev same_inum.
          ground (arith, unique x y, missing x, missing y))

-- Where no inode has two entries in use, iget gives an entry in use for the inode and again no inode has two, or panics.
pub iget-Kept :
    (cache : ℕ → Inode) (dev inum : ℕ) → Unique cache → Kept dev inum (iget cache dev inum)
iget-Kept cache dev inum unique = answer_kept (iget cache dev inum) (iget-Answer cache dev inum)
  where
    answer_kept : (o : Option (ℕ × (ℕ → Inode))) → Answer cache dev inum o → Kept dev inum o
    answer_kept _ (found i lt h) = found-Kept cache dev inum i lt unique h
    answer_kept _ (recycled i lt missing free first) =
        recycled-Kept cache dev inum i lt unique missing
    answer_kept _ (Answer.no_inodes busy) = Kept.no_inodes
