-- ===== src/Fs/Alloc.antt =====
-- balloc and bfree against the set of the blocks in use.
use ence.Base.{
  ℕ, zero, suc, ◌+◌, ◌-◌, ◌*◌, ◌/◌, ◌%◌, ◌≤◌, ◌<◌, ◌≡◌, ◌≢◌, ◌⊎◌, inl, inr, refl, sym, ap, ap₂,
  subst, ◌∙◌, Option, none, some, ◌∷◌, update, arith, ℕ_discrete, dec_lt,
}
use ence.Strings.{Mem}
use ence.Strings.Memory.{memset_lem}
use ence.Fs.{
  Superblock, Disk, bsize, bpb, bblock, log_write, bzero, bit, mark, unmark, free_bit, take_bit,
  balloc_from, balloc, bfree,
}
use ence.Fs.Bitmap.{bit-mark_same, bit-mark_other, bit-unmark_same, bit-unmark_other}

-- 1 where the bitmap has block `x` in use, else 0
abbrev pub used : Superblock → Disk → ℕ → ℕ
used sb d x = bit (d.blocks (bblock x sb)) (x % bpb)

-- The bitmap has its own blocks in use.
abbrev pub IsValid : Superblock → Disk → Type 0
IsValid sb d = (x y : ℕ) → x < sb.size → y ≡ bblock x sb → used sb d y ≡ 1

bit_cases : (m : Mem) (i : ℕ) → (bit m i ≡ 0) ⊎ (bit m i ≡ 1)
bit_cases m i = ground arith

-- the search within one block of the bitmap
record Searched (size : ℕ) (m : Mem) (b bi k : ℕ) (o : Option ℕ) : Type 0 where
  hit : (i : ℕ) → o ≡ some i → (bi ≤ i) × (i < bi + k) × (b + i < size) × (bit m i ≡ 0)
  before : (i j : ℕ) → o ≡ some i → bi ≤ j → j < i → bit m j ≡ 1
  miss : (j : ℕ) → o ≡ none → bi ≤ j → j < bi + k → b + j < size → bit m j ≡ 1

free_bit-Searched :
    (size : ℕ) (m : Mem) (b bi k : ℕ) → Searched size m b bi k (free_bit size m b bi k)
unfolding free_bit
free_bit-Searched size m b bi zero = record {
  hit = λ i e. cc;
  before = λ i j e lo hi. cc;
  miss = λ j e lo hi lt. absurd (omega arith);
}
free_bit-Searched size m b bi (suc k) =
    let ih = free_bit-Searched size m b (bi + 1) k in
    let here = bit_cases m bi in
    record {
      hit = λ i e. ground (arith, ih.hit i);
      before = λ i j e lo hi. ground (arith, ih.before i j, ih.hit i, here);
      miss = λ j e lo hi lt. ground (arith, ih.miss j, here);
    }

-- what balloc leaves when it takes block `x`
abbrev taken : Superblock → Disk → ℕ → Disk
taken sb d x = bzero (log_write d (bblock x sb) (mark (d.blocks (bblock x sb)) (x % bpb))) x

-- the outer loop, from the block `q * bpb` on
record Scanned (sb : Superblock) (d : Disk) (q k : ℕ) (o : Option (ℕ × Disk)) : Type 0 where
  found :
      (x : ℕ) (d' : Disk)
      → o ≡ some (x, d')
      → (x < sb.size) × (used sb d x ≡ 0) × (d' ≡ taken sb d x)
  before : (x y : ℕ) (d' : Disk) → o ≡ some (x, d') → q * bpb ≤ y → y < x → used sb d y ≡ 1
  full : (y : ℕ) → o ≡ none → q * bpb ≤ y → y < (q + k) * bpb → y < sb.size → used sb d y ≡ 1

-- where the bit of a block is
place :
    (sb : Superblock) (d : Disk) (q i : ℕ)
    → i < bpb
    → used sb d (q * bpb + i) ≡ bit (d.blocks (bblock (q * bpb) sb)) i
place sb d q i lt =
    let block : bblock (q * bpb + i) sb ≡ bblock (q * bpb) sb = omega arith in
    let index : (q * bpb + i) % bpb ≡ i = omega arith in
    ap₂ (λ (b j : ℕ). bit (d.blocks b) j) block index

taken_place :
    (sb : Superblock) (d : Disk) (q i : ℕ)
    → i < bpb
    → bzero
        (log_write d (bblock (q * bpb) sb) (mark (d.blocks (bblock (q * bpb) sb)) i))
        (q * bpb + i)
      ≡ taken sb d (q * bpb + i)
taken_place sb d q i lt =
    let block : bblock (q * bpb) sb ≡ bblock (q * bpb + i) sb = omega arith in
    let index : i ≡ (q * bpb + i) % bpb = omega arith in
    ap₂ (λ (b j : ℕ). bzero (log_write d b (mark (d.blocks b) j)) (q * bpb + i)) block index

place_of :
    (sb : Superblock) (d : Disk) (q y : ℕ)
    → q * bpb ≤ y
    → y < q * bpb + bpb
    → used sb d y ≡ bit (d.blocks (bblock (q * bpb) sb)) (y - q * bpb)
place_of sb d q y lo hi =
    let split : y ≡ q * bpb + (y - q * bpb) = omega arith in
    ap (used sb d) split ∙ place sb d q (y - q * bpb) (omega arith)

scan_block :
    (sb : Superblock) (d : Disk) (q k : ℕ) (o : Option ℕ) (more : Option (ℕ × Disk))
    → Searched sb.size (d.blocks (bblock (q * bpb) sb)) (q * bpb) 0 bpb o
    → Scanned sb d (q + 1) k more
    → Scanned sb d q (suc k) (take_bit sb d (q * bpb) o more)
scan_block sb d q k (some i) more f rest =
    let h = f.hit i refl in
    record {
      found = λ x d' e.
          let ex : x ≡ q * bpb + i = ground (arith, e) in
          (
            omega (arith, h.2),
            ap (used sb d) ex ∙ place sb d q i (omega (arith, h.1)) ∙ h.3,
            ground (arith, e)
                ∙ taken_place sb d q i (omega (arith, h.1))
                ∙ ap (taken sb d) (sym ex),
          );
      before = λ x y d' e lo hi.
          let ex : x ≡ q * bpb + i = ground (arith, e) in
          place_of sb d q y lo (omega (arith, h.1))
          ∙ f.before i (y - q * bpb) refl (omega arith) (omega arith);
      full = λ y e lo hi lt. cc;
    }
scan_block sb d q k none more f rest = record {
  found = λ x d' e. rest.found x d' e;
  before = λ x y d' e lo hi. elim (dec_lt y (q * bpb + bpb)) [
    | yes lt ↦
        place_of sb d q y lo lt
        ∙ f.miss (y - q * bpb) refl (omega arith) (omega arith)
            (omega (arith, (rest.found x d' e).0))
    | no ge ↦ rest.before x y d' e (omega arith) hi
  ];
  full = λ y e lo hi lt. elim (dec_lt y (q * bpb + bpb)) [
    | yes here ↦
        place_of sb d q y lo here
        ∙ f.miss (y - q * bpb) refl (omega arith) (omega arith) (omega arith)
    | no ge ↦ rest.full y e (omega arith) (omega arith) lt
  ];
}

balloc_from-Scanned :
    (sb : Superblock) (d : Disk) (q k : ℕ) → Scanned sb d q k (balloc_from sb d (q * bpb) k)
unfolding balloc_from
balloc_from-Scanned sb d q zero = record {
  found = λ x d' e. cc;
  before = λ x y d' e. cc;
  full = λ y e lo hi lt. absurd (omega arith);
}
balloc_from-Scanned sb d q (suc k) =
    let ih = balloc_from-Scanned sb d (q + 1) k in
    let step : (q + 1) * bpb ≡ q * bpb + bpb = omega arith in
    scan_block sb d q k _ (balloc_from sb d (q * bpb + bpb) k)
      (free_bit-Searched sb.size (d.blocks (bblock (q * bpb) sb)) (q * bpb) 0 bpb)
      (subst (λ (b : ℕ). Scanned sb d (q + 1) k (balloc_from sb d b k)) step ih)

-- What balloc promises.
pub record Allocated (sb : Superblock) (d : Disk) (x : ℕ) (d' : Disk) : Type 0 where
  pub in_range : x < sb.size
  pub was_free : used sb d x ≡ 0
  pub first : (y : ℕ) → y < x → used sb d y ≡ 1
  pub now_used : used sb d' x ≡ 1
  pub others : (y : ℕ) → y < sb.size → y ≢ x → used sb d' y ≡ used sb d y
  pub zeroed : (a : ℕ) → a < bsize → d'.blocks x a ≡ 0
  pub kept : (b : ℕ) → b ≢ x → b ≢ bblock x sb → d'.blocks b ≡ d.blocks b
  pub logged : d'.logged ≡ x ∷ bblock x sb ∷ d.logged

module _ (sb : Superblock) (d : Disk) (valid : IsValid sb d) (x : ℕ) (lt : x < sb.size)
    (free : used sb d x ≡ 0) where
  -- the block is none of the bitmap's
  apart : (y : ℕ) → y < sb.size → bblock y sb ≢ x
  apart y lty e = ground (arith, valid y x lty (sym e), free)

  taken_marked :
      (b : ℕ)
      → b ≢ x
      → b ≡ bblock x sb
      → (taken sb d x).blocks b ≡ mark (d.blocks (bblock x sb)) (x % bpb)
  unfolding bzero
  taken_marked b ne e = ground (arith, ne, e)

  taken_kept : (b : ℕ) → b ≢ x → b ≢ bblock x sb → (taken sb d x).blocks b ≡ d.blocks b
  unfolding bzero
  taken_kept b ne e = ground (arith, ne, e)

  taken_other : (y : ℕ) → y < sb.size → y ≢ x → used sb (taken sb d x) y ≡ used sb d y
  taken_other y lty ne = elim (ℕ_discrete (bblock y sb) (bblock x sb)) [
    | yes e ↦
        ap (λ (m : Mem). bit m (y % bpb)) (taken_marked (bblock y sb) (apart y lty) e)
        ∙ bit-mark_other (d.blocks (bblock x sb)) (x % bpb) (y % bpb) (λ h. ne (omega arith)) free
        ∙ ap (λ (b : ℕ). bit (d.blocks b) (y % bpb)) (sym e)
    | no e ↦ ap (λ (m : Mem). bit m (y % bpb)) (taken_kept (bblock y sb) (apart y lty) e)
  ]

  taken-zeroed : (a : ℕ) → a < bsize → (taken sb d x).blocks x a ≡ 0
  unfolding bzero
  taken-zeroed a lta =
      let m = update d.blocks (bblock x sb) (mark (d.blocks (bblock x sb)) (x % bpb)) x in
      ground (arith, memset_lem m 0 0 bsize a)

  taken-Allocated : ((y : ℕ) → y < x → used sb d y ≡ 1) → Allocated sb d x (taken sb d x)
  unfolding bzero
  taken-Allocated first = record {
    in_range = lt;
    was_free = free;
    first = first;
    now_used =
        ap (λ (m : Mem). bit m (x % bpb)) (taken_marked (bblock x sb) (apart x lt) refl)
        ∙ bit-mark_same (d.blocks (bblock x sb)) (x % bpb) free;
    others = taken_other;
    zeroed = taken-zeroed;
    kept = taken_kept;
    logged = refl;
  }

-- What balloc may answer.
pub data Answer (sb : Superblock) (d : Disk) : Option (ℕ × Disk) → Type 0 where
  got : (x : ℕ) (d' : Disk) → Allocated sb d x d' → Answer sb d (some (x, d'))
  out_of_blocks : ((y : ℕ) → y < sb.size → used sb d y ≡ 1) → Answer sb d none

balloc_from-Answer :
    (sb : Superblock) (d : Disk) (k : ℕ) (o : Option (ℕ × Disk))
    → IsValid sb d
    → sb.size ≤ k * bpb
    → Scanned sb d 0 k o
    → Answer sb d o
balloc_from-Answer sb d k none valid enough s =
    out_of_blocks (λ y lt. s.full y refl (omega arith) (omega arith) lt)
balloc_from-Answer sb d k (some (x, d')) valid enough s =
    let (lt, free, is_taken) = s.found x d' refl in
    got x d' (
      subst (Allocated sb d x) (sym is_taken)
        (taken-Allocated sb d valid x lt free (λ y lty. s.before x y d' refl (omega arith) lty)))

-- Where the bitmap has its own blocks in use, balloc returns the first free block, marked in use and
-- zeroed, and changes no other block and no other bit; it panics only where all blocks are in use.
pub balloc-Answer : (sb : Superblock) (d : Disk) → IsValid sb d → Answer sb d (balloc sb d)
unfolding balloc
balloc-Answer sb d valid =
    let k = (sb.size + bpb - 1) / bpb in
    balloc_from-Answer sb d k _ valid (omega arith) (balloc_from-Scanned sb d 0 k)

-- balloc keeps what it relies on.
pub balloc-IsValid :
    (sb : Superblock) (d : Disk) (x : ℕ) (d' : Disk)
    → IsValid sb d
    → ((y : ℕ) → y < sb.size → bblock y sb < sb.size)
    → Allocated sb d x d'
    → IsValid sb d'
balloc-IsValid sb d x d' valid inside a y z lt at =
    let was = valid y z lt at in
    a.others z (rw at (inside y lt)) (λ h. ground (arith, h, was, a.was_free)) ∙ was

-- What bfree of block `x` may answer.
pub data Freed (sb : Superblock) (d : Disk) (x : ℕ) : Option Disk → Type 0 where
  freed :
      (d' : Disk)
      → used sb d x ≡ 1
      → used sb d' x ≡ 0
      → ((y : ℕ) → y ≢ x → used sb d' y ≡ used sb d y)
      → ((b : ℕ) → b ≢ bblock x sb → d'.blocks b ≡ d.blocks b)
      → Freed sb d x (some d')
  free_block : used sb d x ≡ 0 → Freed sb d x none

bfree_used : (sb : Superblock) (d : Disk) (x : ℕ) → used sb d x ≡ 1 → Freed sb d x (bfree sb d x)
unfolding bfree
bfree_used sb d x e =
    let b = bblock x sb in
    let m = unmark (d.blocks b) (x % bpb) in
    let d' = log_write d b m in
    let at : d'.blocks b ≡ m = ground arith in
    rw e (
      freed d' e (ap (λ (m : Mem). bit m (x % bpb)) at ∙ bit-unmark_same (d.blocks b) (x % bpb) e)
        (λ y ne. elim (ℕ_discrete (bblock y sb) b) [
          | yes same ↦
              ap (λ (i : ℕ). bit (d'.blocks i) (y % bpb)) same
              ∙ ap (λ (m : Mem). bit m (y % bpb)) at
              ∙ bit-unmark_other (d.blocks b) (x % bpb) (y % bpb) (λ h. ne (omega arith)) e
              ∙ ap (λ (i : ℕ). bit (d.blocks i) (y % bpb)) (sym same)
          | no apart ↦
              let there : d'.blocks (bblock y sb) ≡ d.blocks (bblock y sb) =
                ground (arith, apart) in
              ap (λ (m : Mem). bit m (y % bpb)) there
        ])
        (λ c ne. ground (arith, ne)))

bfree_unused : (sb : Superblock) (d : Disk) (x : ℕ) → used sb d x ≡ 0 → Freed sb d x (bfree sb d x)
unfolding bfree
bfree_unused sb d x e = rw e (free_block e)

-- bfree of a block in use clears its bit and no other, and changes no block but that of the bitmap; on
-- a free block it panics.
pub bfree-Freed : (sb : Superblock) (d : Disk) (x : ℕ) → Freed sb d x (bfree sb d x)
bfree-Freed sb d x = elim (bit_cases (d.blocks (bblock x sb)) (x % bpb)) [
  | inl e ↦ bfree_unused sb d x e
  | inr e ↦ bfree_used sb d x e
]
