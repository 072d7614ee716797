-- ===== src/Fs.antt =====
-- lab10xv6/xv6/fs.c with the layout of fs.h: the blocks of one device as the buffer cache and the log
-- show them within a transaction. A block is its bytes; log_write takes a changed buffer up into the
-- transaction.
pub mod Bitmap
pub mod Alloc
pub mod Dir
pub mod Inode
pub mod File
pub mod Path
pub mod Walk
mod Tests
use ence.Base.{
  ℕ, zero, suc, ◌+◌, ◌-◌, ◌*◌, ◌/◌, ◌%◌, ◌^◌, Bool, true, false, not, Option, none, some, List, [],
  ◌∷◌, ltb, ◌==◌, update, if◌then◌else◌,
}
use ence.Strings.{Mem, memset}

-- struct superblock
pub record Superblock : Type 0 where
  pub size : ℕ
  pub nblocks : ℕ
  pub ninodes : ℕ
  pub nlog : ℕ
  pub logstart : ℕ
  pub inodestart : ℕ
  pub bmapstart : ℕ

-- The blocks, and those that log_write was called for, last first.
pub record Disk : Type 0 where
  pub blocks : ℕ → Mem
  pub logged : List ℕ

-- BSIZE
abbrev pub bsize : ℕ
bsize = 512

-- BPB
abbrev pub bpb : ℕ
bpb = 4096

-- BBLOCK
abbrev pub bblock : ℕ → Superblock → ℕ
bblock b sb = b / bpb + sb.bmapstart

-- log_write of a buffer for block `b` with the bytes `m`
abbrev pub log_write : Disk → (b : ℕ) → Mem → Disk
log_write d b m = record { blocks = update d.blocks b m; logged = b ∷ d.logged }

pub bzero : Disk → (bno : ℕ) → Disk
bzero d bno = log_write d bno (memset (d.blocks bno) 0 0 bsize)

-- data[bi/8] & m with m = 1 << (bi % 8), as 0 or 1
abbrev pub bit : Mem → (bi : ℕ) → ℕ
bit m bi = m (bi / 8) / 2 ^ (bi % 8) % 2

-- data[bi/8] |= m where the bit is 0, and data[bi/8] &= ~m where it is 1
abbrev pub mark : Mem → (bi : ℕ) → Mem
mark m bi = update m (bi / 8) (m (bi / 8) + 2 ^ (bi % 8))

abbrev pub unmark : Mem → (bi : ℕ) → Mem
unmark m bi = update m (bi / 8) (m (bi / 8) - 2 ^ (bi % 8))

-- the inner loop of balloc, over the bits of the blocks from `b` on
unfoldable pub free_bit : (size : ℕ) → Mem → (b bi k : ℕ) → Option ℕ
free_bit size m b bi zero = none
free_bit size m b bi (suc k) =
    let rest = free_bit size m b (bi + 1) k in
    if not (ltb (b + bi) size) then none else if bit m bi == 0 then some bi else rest

-- what balloc does with the bit that it found, else `more`
abbrev pub take_bit :
    Superblock → Disk → (b : ℕ) → Option ℕ → (more : Option (ℕ × Disk)) → Option (ℕ × Disk)
take_bit sb d b none more = more
take_bit sb d b (some bi) more =
    some (b + bi, bzero (log_write d (bblock b sb) (mark (d.blocks (bblock b sb)) bi)) (b + bi))

-- the outer loop of balloc
unfoldable pub balloc_from : Superblock → Disk → (b k : ℕ) → Option (ℕ × Disk)
balloc_from sb d b zero = none
balloc_from sb d b (suc k) =
    take_bit sb d b (free_bit sb.size (d.blocks (bblock b sb)) b 0 bpb)
      (balloc_from sb d (b + bpb) k)

-- balloc: the block, zeroed; `none` is the panic.
pub balloc : Superblock → Disk → Option (ℕ × Disk)
balloc sb d = balloc_from sb d 0 ((sb.size + bpb - 1) / bpb)

-- bfree; `none` is the panic.
pub bfree : Superblock → Disk → (b : ℕ) → Option Disk
bfree sb d b =
    let m = d.blocks (bblock b sb) in
    if bit m (b % bpb) == 0 then none else some (log_write d (bblock b sb) (unmark m (b % bpb)))
