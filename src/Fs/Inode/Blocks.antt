-- ===== src/Fs/Inode/Blocks.antt =====
-- bmap: a block that it has given a file stays that block of the file.
use ence.Base.{
  ℕ, ◌+◌, ◌-◌, ◌*◌, ◌^◌, ◌≤◌, ◌<◌, ◌≡◌, ◌≢◌, inl, inr, refl, sym, ap, ◌∙◌, true, false, Bool-cases,
  Option, none, some, update, update_self, ◌==◌, ltb, arith, ℕ_discrete, dec_lt,
}
use ence.Strings.{Mem, put_word}
use ence.Fs.{Superblock, Disk, bblock, log_write, balloc}
use ence.Fs.Alloc.{
  used, IsValid, Answer, got, out_of_blocks, Allocated, balloc-Answer, balloc-IsValid,
}
use ence.Fs.Inode.{Inode, ndirect, nindirect, word, bmap_addr, bmap_indirect, bmap}
use ence.Fs.Inode.Layout.{word-put_word}

-- The bitmap has the first block and its own blocks in use, they lie on the device, and block numbers
-- are uints.
pub record Sound (sb : Superblock) (d : Disk) : Type 0 where
  pub valid : IsValid sb d
  pub inside : (y : ℕ) → y < sb.size → bblock y sb < sb.size
  pub boot : used sb d 0 ≡ 1
  pub fits : sb.size ≤ 2 ^ 32

Allocated-Sound :
    (sb : Superblock) (d d' : Disk) (x : ℕ) → Sound sb d → Allocated sb d x d' → Sound sb d'
Allocated-Sound sb d d' x s a = record {
  valid = balloc-IsValid sb d x d' s.valid s.inside a;
  inside = s.inside;
  boot =
      a.others 0 (omega (arith, a.in_range)) (λ e. ground (arith, a.was_free, s.boot, e)) ∙ s.boot;
  fits = s.fits;
}

Allocated-nonzero :
    (sb : Superblock) (d d' : Disk) (x : ℕ) → Sound sb d → Allocated sb d x d' → x ≢ 0
Allocated-nonzero sb d d' x s a e = ground (arith, a.was_free, s.boot, e)

-- no other block was taken
Allocated-only :
    (sb : Superblock) (d d' : Disk) (x : ℕ)
    → Allocated sb d x d'
    → (y : ℕ) → y < sb.size
    → used sb d y ≡ 0
    → used sb d' y ≡ 1
    → y ≡ x
Allocated-only sb d d' x a y lt free taken = elim (ℕ_discrete y x) [
  | yes e ↦ e
  | no ne ↦ absurd (ground (arith, free, taken, a.others y lt ne))
]

-- What the direct part of bmap answers for entry `k` of addrs.
data Entry (sb : Superblock) (d : Disk) (k : ℕ) : Option (ℕ × Inode × Disk) → Type 0 where
  -- at most block `x` was taken
  entry :
      (a x : ℕ) (ip : Inode) (d' : Disk)
      → ip.addrs k ≡ a
      → a ≢ 0
      → Sound sb d'
      → ((y : ℕ) → y < sb.size → used sb d y ≡ 0 → used sb d' y ≡ 1 → y ≡ x)
      → Entry sb d k (some (a, ip, d'))
  no_block : ((y : ℕ) → y < sb.size → used sb d y ≡ 1) → Entry sb d k none

taken_entry :
    (sb : Superblock) (d : Disk) (ip : Inode) (k : ℕ) (o : Option (ℕ × Disk))
    → Sound sb d
    → Answer sb d o
    → Entry sb d k (elim o [
      | none ↦ none
      | some (addr, d') ↦ some (addr, record ip { addrs = update ip.addrs k addr }, d')
    ])
taken_entry sb d ip k _ s (got x d' a) =
    entry x x (record ip { addrs = update ip.addrs k x }) d' (update_self ip.addrs k x)
      (Allocated-nonzero sb d d' x s a) (Allocated-Sound sb d d' x s a) (Allocated-only sb d d' x a)
taken_entry sb d ip k _ s (out_of_blocks full) = no_block full

bmap_addr-Entry :
    (sb : Superblock) (d : Disk) (ip : Inode) (k : ℕ)
    → Sound sb d
    → Entry sb d k (bmap_addr sb d ip k)
unfolding bmap_addr
bmap_addr-Entry sb d ip k s = elim (Bool-cases (ip.addrs k == 0)) [
  | inl e ↦ rw e (taken_entry sb d ip k (balloc sb d) s (balloc-Answer sb d s.valid))
  | inr e ↦ rw e (
      entry (ip.addrs k) 0 ip d refl (ground (arith, e)) s
        (λ y lt free taken. ground (arith, free, taken)))
]

-- an entry that is there is not allocated again
bmap_addr_again :
    (sb : Superblock) (d : Disk) (ip : Inode) (k a : ℕ)
    → ip.addrs k ≡ a
    → a ≢ 0
    → bmap_addr sb d ip k ≡ some (a, ip, d)
unfolding bmap_addr
bmap_addr_again sb d ip k a e ne =
    let there : (ip.addrs k == 0) ≡ false = ground (arith, e, ne) in
    rw there (ap (λ (x : ℕ). some (x, ip, d)) e)

-- What bmap answers: the same again, with nothing changed, or a panic.
pub data Again (sb : Superblock) (d0 : Disk) (bn : ℕ) : Option (ℕ × Inode × Disk) → Type 0 where
  again :
      (a : ℕ) (ip : Inode) (d : Disk)
      → a ≢ 0
      → bmap sb d ip bn ≡ some (a, ip, d)
      → Again sb d0 bn (some (a, ip, d))
  -- the number is beyond a file
  out_of_range : ndirect + nindirect ≤ bn → Again sb d0 bn none
  -- no two blocks of the device are free
  no_more_blocks :
      ((y z : ℕ) → y < sb.size → z < sb.size → used sb d0 y ≡ 0 → used sb d0 z ≡ 0 → y ≡ z)
      → Again sb d0 bn none

full-Again :
    (sb : Superblock) (d0 : Disk) (bn : ℕ)
    → ((y : ℕ) → y < sb.size → used sb d0 y ≡ 1)
    → Again sb d0 bn none
full-Again sb d0 bn full =
    no_more_blocks (λ y z lty ltz free _. absurd (ground (arith, free, full y lty)))

-- bmap reads an entry of addrs
pub direct_found :
    (sb : Superblock) (d : Disk) (ip : Inode) (bn a : ℕ)
    → bn < ndirect
    → ip.addrs bn ≡ a
    → a ≢ 0
    → bmap sb d ip bn ≡ some (a, ip, d)
unfolding bmap
direct_found sb d ip bn a lt e ne =
    let h : ltb bn ndirect ≡ true = ground arith in rw h (bmap_addr_again sb d ip bn a e ne)

direct-Again :
    (sb : Superblock) (d0 : Disk) (bn : ℕ) (o : Option (ℕ × Inode × Disk))
    → bn < ndirect
    → Entry sb d0 bn o
    → Again sb d0 bn o
direct-Again sb d0 bn _ lt (entry a x ip d e ne s only) =
    again a ip d ne (direct_found sb d ip bn a lt e ne)
direct-Again sb d0 bn _ lt (no_block full) = full-Again sb d0 bn full

-- bmap reads the indirect block `addr`
pub indirect_found :
    (sb : Superblock) (d : Disk) (ip : Inode) (bn addr a : ℕ)
    → ndirect ≤ bn
    → bn - ndirect < nindirect
    → ip.addrs ndirect ≡ addr
    → addr ≢ 0
    → word (d.blocks addr) (4 * (bn - ndirect)) ≡ a
    → a ≢ 0
    → bmap sb d ip bn ≡ some (a, ip, d)
unfolding bmap bmap_indirect
indirect_found sb d ip bn addr a lo hi e ne read nea =
    let h1 : ltb bn ndirect ≡ false = ground arith in
    let h2 : ltb (bn - ndirect) nindirect ≡ true = ground arith in
    let there : (word (d.blocks addr) (4 * (bn - ndirect)) == 0) ≡ false =
      ground (arith, read, nea) in
    rw (h1, h2, bmap_addr_again sb d ip ndirect addr e ne, there)
      (ap (λ (x : ℕ). some (x, ip, d)) read)

module _ (sb : Superblock) (d0 : Disk) (bn : ℕ) (lo : ndirect ≤ bn)
    (hi : bn - ndirect < nindirect) where
  abbrev place : ℕ
  place = 4 * (bn - ndirect)

  taken-Again :
      (addr t : ℕ) (ip : Inode) (d : Disk) (o : Option (ℕ × Disk))
      → ip.addrs ndirect ≡ addr
      → addr ≢ 0
      → Sound sb d
      → ((y : ℕ) → y < sb.size → used sb d0 y ≡ 0 → used sb d y ≡ 1 → y ≡ t)
      → Answer sb d o
      → Again sb d0 bn (elim o [
        | none ↦ none
        | some (x, d') ↦ some (x, ip, log_write d' addr (put_word (d'.blocks addr) place x))
      ])
  taken-Again addr t ip d _ e ne s only (out_of_blocks full) =
      no_more_blocks (λ y z lty ltz freey freez.
        only y lty freey (full y lty) ∙ sym (only z ltz freez (full z ltz)))
  taken-Again addr t ip d _ e ne s only (got x d' a) =
      let d'' = log_write d' addr (put_word (d'.blocks addr) place x) in
      let nonzero = Allocated-nonzero sb d d' x s a in
      let read : word (d''.blocks addr) place ≡ x =
        ap (λ (m : Mem). word m place)
          (update_self d'.blocks addr (put_word (d'.blocks addr) place x))
        ∙ word-put_word (d'.blocks addr) place x (omega (arith, a.in_range, s.fits)) in
      again x ip d'' nonzero (indirect_found sb d'' ip bn addr x lo hi e ne read nonzero)

  bmap_indirect-Again :
      (addr t : ℕ) (ip : Inode) (d : Disk)
      → ip.addrs ndirect ≡ addr
      → addr ≢ 0
      → Sound sb d
      → ((y : ℕ) → y < sb.size → used sb d0 y ≡ 0 → used sb d y ≡ 1 → y ≡ t)
      → Again sb d0 bn (bmap_indirect sb addr (bn - ndirect) ip d)
  unfolding bmap_indirect
  bmap_indirect-Again addr t ip d e ne s only =
      elim (Bool-cases (word (d.blocks addr) place == 0)) [
        | inl h ↦
            rw h (taken-Again addr t ip d (balloc sb d) e ne s only (balloc-Answer sb d s.valid))
        | inr h ↦
            let nonzero : word (d.blocks addr) place ≢ 0 = ground (arith, h) in
            rw h (
              again (word (d.blocks addr) place) ip d nonzero (
                indirect_found sb d ip bn addr (word (d.blocks addr) place) lo hi e ne refl
                  nonzero))
      ]

  indirect-Again :
      (o : Option (ℕ × Inode × Disk))
      → Entry sb d0 ndirect o
      → Again sb d0 bn (elim o [
        | none ↦ none
        | some (addr, ip', d') ↦ bmap_indirect sb addr (bn - ndirect) ip' d'
      ])
  indirect-Again _ (entry addr x ip d e ne s only) = bmap_indirect-Again addr x ip d e ne s only
  indirect-Again _ (no_block full) = full-Again sb d0 bn full

-- On a sound bitmap, the block that bmap gives is not block 0, and bmap of the same number on what it
-- leaves gives the same block and changes nothing, also through the indirect block. bmap panics only where
-- the number is 140 or more or no two blocks are free.
pub bmap-Again :
    (sb : Superblock) (d : Disk) (ip : Inode) (bn : ℕ)
    → Sound sb d
    → Again sb d bn (bmap sb d ip bn)
unfolding bmap
bmap-Again sb d ip bn s = elim (dec_lt bn ndirect) [
  | yes lt ↦
      let h : ltb bn ndirect ≡ true = ground arith in
      rw h (direct-Again sb d bn (bmap_addr sb d ip bn) lt (bmap_addr-Entry sb d ip bn s))
  | no ge ↦ elim (dec_lt (bn - ndirect) nindirect) [
    | yes lt ↦
        let h1 : ltb bn ndirect ≡ false = ground arith in
        let h2 : ltb (bn - ndirect) nindirect ≡ true = ground arith in
        rw (h1, h2)
          (indirect-Again sb d bn (omega arith) lt (bmap_addr sb d ip ndirect)
            (bmap_addr-Entry sb d ip ndirect s))
    | no large ↦
        let h1 : ltb bn ndirect ≡ false = ground arith in
        let h2 : ltb (bn - ndirect) nindirect ≡ false = ground arith in
        rw (h1, h2) (out_of_range (omega arith))
  ]
]
