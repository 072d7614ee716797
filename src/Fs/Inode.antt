-- ===== src/Fs/Inode.antt =====
-- The inodes of lab10xv6/xv6/fs.c: their place on the disk, the cache of inodes in use, and the blocks
-- of a file. Locks are left out. Sizes and block numbers are uints; type, major, minor and nlink are
-- shorts, as their bit patterns.
pub mod Layout
pub mod Stored
pub mod Icache
pub mod Blocks
mod Tests
use ence.Base.{
  ℕ, zero, suc, ◌+◌, ◌-◌, ◌*◌, ◌/◌, ◌%◌, ◌^◌, Bool, true, false, not, ◌&&◌, ◌||◌, Option, none,
  some, ltb, ◌==◌, update, if◌then◌else◌,
}
use ence.Strings.{Mem, put_word}
use ence.Fs.{Superblock, Disk, bsize, log_write, balloc, bfree}

-- NDIRECT and NINDIRECT
abbrev pub ndirect : ℕ
ndirect = 12

abbrev pub nindirect : ℕ
nindirect = 128

-- NINODE
abbrev pub ninode : ℕ
ninode = 50

-- IPB, and sizeof(struct dinode)
abbrev pub ipb : ℕ
ipb = 8

abbrev pub dinode_size : ℕ
dinode_size = 64

-- IBLOCK
abbrev pub iblock : ℕ → Superblock → ℕ
iblock i sb = i / ipb + sb.inodestart

-- struct inode
pub record Inode : Type 0 where
  pub dev : ℕ
  pub inum : ℕ
  pub ref : ℕ
  pub valid : Bool
  pub type : ℕ
  pub major : ℕ
  pub minor : ℕ
  pub nlink : ℕ
  pub size : ℕ
  pub addrs : ℕ → ℕ

-- a short and a uint in a block, low byte first
abbrev pub half : Mem → ℕ → ℕ
half m a = m a + m (a + 1) * 2 ^ 8

pub put_half : Mem → (a v : ℕ) → Mem
put_half m a v = update (update m a (v % 256)) (a + 1) (v / 2 ^ 8 % 256)

abbrev pub word : Mem → ℕ → ℕ
word m a = m a + m (a + 1) * 2 ^ 8 + m (a + 2) * 2 ^ 16 + m (a + 3) * 2 ^ 24

-- memmove of `k` uints from index `i` on, to address `a`
unfoldable pub put_words : Mem → (a : ℕ) (addrs : ℕ → ℕ) (i k : ℕ) → Mem
put_words m a addrs i zero = m
put_words m a addrs i (suc k) = put_words (put_word m (a + 4 * i) (addrs i)) a addrs (i + 1) k

-- the offset of an inode in its block
abbrev pub dinode_at : ℕ → ℕ
dinode_at inum = inum % ipb * dinode_size

-- the fields of struct dinode, one after the other
pub put_dinode : Mem → (a : ℕ) → Inode → Mem
put_dinode m a ip =
    let m1 =
      put_half (put_half (put_half (put_half m a ip.type) (a + 2) ip.major) (a + 4) ip.minor)
        (a + 6) ip.nlink in
    put_words (put_word m1 (a + 8) ip.size) (a + 12) ip.addrs 0 (ndirect + 1)

pub iupdate : Superblock → Disk → Inode → Disk
iupdate sb d ip =
    let b = iblock ip.inum sb in log_write d b (put_dinode (d.blocks b) (dinode_at ip.inum) ip)

-- what ilock reads
pub get_dinode : Mem → (a : ℕ) → Inode → Inode
get_dinode m a ip = record ip {
  valid = true;
  type = half m a;
  major = half m (a + 2);
  minor = half m (a + 4);
  nlink = half m (a + 6);
  size = word m (a + 8);
  addrs = λ i. if ltb i (ndirect + 1) then word m (a + 12 + 4 * i) else ip.addrs i;
}

-- ilock of an inode; `none` is a panic.
pub ilock : Superblock → Disk → Inode → Option Inode
ilock sb d ip =
    let read = get_dinode (d.blocks (iblock ip.inum sb)) (dinode_at ip.inum) ip in
    if ltb ip.ref 1
    then none
    else if ip.valid
    then some ip
    else if read.type == 0
    then none
    else some read

-- memset(dip, 0, sizeof(*dip)) and the new type
abbrev pub fresh : (type : ℕ) → Inode
fresh type = record {
  dev = 0;
  inum = 0;
  ref = 0;
  valid = false;
  type = type;
  major = 0;
  minor = 0;
  nlink = 0;
  size = 0;
  addrs = λ _. 0;
}

-- the loop of ialloc from inode `inum` on: the inode whose dinode is given the type
unfoldable pub ialloc_from : Superblock → Disk → (type inum k : ℕ) → Option (ℕ × Disk)
ialloc_from sb d type inum zero = none
ialloc_from sb d type inum (suc k) =
    let more = ialloc_from sb d type (inum + 1) k in
    let b = iblock inum sb in
    if half (d.blocks b) (dinode_at inum) == 0
    then some (inum, log_write d b (put_dinode (d.blocks b) (dinode_at inum) (fresh type)))
    else more

-- ialloc up to iget; `none` is the panic.
pub ialloc : Superblock → Disk → (type : ℕ) → Option (ℕ × Disk)
ialloc sb d type = ialloc_from sb d type 1 (sb.ninodes - 1)

abbrev pub or_else : Option ℕ → Option ℕ → Option ℕ
or_else none y = y
or_else (some e) y = some e

-- the loop of iget over the cache: the entry that holds the inode, else the first free one
unfoldable pub iget_from : (ℕ → Inode) → (dev inum i k : ℕ) (empty : Option ℕ) → Option (Bool × ℕ)
iget_from cache dev inum i zero none = none
iget_from cache dev inum i zero (some e) = some (false, e)
iget_from cache dev inum i (suc k) empty =
    let here = if (cache i).ref == 0 then some i else none in
    let more = iget_from cache dev inum (i + 1) k (or_else empty here) in
    if not ((cache i).ref == 0) && ((cache i).dev == dev) && ((cache i).inum == inum)
    then some (true, i)
    else more

-- what iget does with the entry that it found; `none` is the panic.
pub iget_in : (ℕ → Inode) → (dev inum : ℕ) → Option (Bool × ℕ) → Option (ℕ × (ℕ → Inode))
iget_in cache dev inum none = none
iget_in cache dev inum (some (true, i)) =
    some (i, update cache i (record (cache i) { ref = (cache i).ref + 1 }))
iget_in cache dev inum (some (false, i)) =
    some (i, update cache i (record (cache i) { dev = dev; inum = inum; ref = 1; valid = false }))

pub iget : (ℕ → Inode) → (dev inum : ℕ) → Option (ℕ × (ℕ → Inode))
iget cache dev inum = iget_in cache dev inum (iget_from cache dev inum 0 ninode none)

pub idup : (ℕ → Inode) → ℕ → ℕ → Inode
idup cache i = update cache i (record (cache i) { ref = (cache i).ref + 1 })

-- the first loop of itrunc, from index `i` on; `none` is a panic of bfree.
unfoldable pub trunc_direct : Superblock → Disk → Inode → (i k : ℕ) → Option (Disk × Inode)
trunc_direct sb d ip i zero = some (d, ip)
trunc_direct sb d ip i (suc k) = elim (ip.addrs i == 0) [
  | true ↦ trunc_direct sb d ip (i + 1) k
  | false ↦ elim (bfree sb d (ip.addrs i)) [
    | none ↦ none
    | some d' ↦ trunc_direct sb d' (record ip { addrs = update ip.addrs i 0 }) (i + 1) k
  ]
]

-- the second loop of itrunc, over the uints of the indirect block `m`
unfoldable pub trunc_indirect : Superblock → Disk → Mem → (j k : ℕ) → Option Disk
trunc_indirect sb d m j zero = some d
trunc_indirect sb d m j (suc k) = elim (word m (4 * j) == 0) [
  | true ↦ trunc_indirect sb d m (j + 1) k
  | false ↦ elim (bfree sb d (word m (4 * j))) [
    | none ↦ none
    | some d' ↦ trunc_indirect sb d' m (j + 1) k
  ]
]

-- itrunc behind its first loop
pub trunc_rest : Superblock → Disk → Inode → Option (Disk × Inode)
trunc_rest sb d ip =
    let done : Disk → Option (Disk × Inode) = λ d'.
      let ip' = record ip { addrs = update ip.addrs ndirect 0; size = 0 } in
      some (iupdate sb d' ip', ip') in
    elim (ip.addrs ndirect == 0) [
      | true ↦ (let ip' = record ip { size = 0 } in some (iupdate sb d ip', ip'))
      | false ↦ elim (trunc_indirect sb d (d.blocks (ip.addrs ndirect)) 0 nindirect) [
        | none ↦ none
        | some d1 ↦ elim (bfree sb d1 (ip.addrs ndirect)) [ none ↦ none | some d2 ↦ done d2 ]
      ]
    ]

pub itrunc : Superblock → Disk → Inode → Option (Disk × Inode)
itrunc sb d ip = elim (trunc_direct sb d ip 0 ndirect) [
  | none ↦ none
  | some (d', ip') ↦ trunc_rest sb d' ip'
]

-- iput of the entry `i`, to which the caller holds a reference; `none` is a panic.
pub iput : Superblock → Disk → (ℕ → Inode) → (i : ℕ) → Option (Disk × (ℕ → Inode))
iput sb d cache i =
    let ip = cache i in
    elim (ip.valid && (ip.nlink == 0) && (ip.ref == 1)) [
      | false ↦ some (d, update cache i (record ip { ref = ip.ref - 1 }))
      | true ↦ elim (itrunc sb d ip) [
        | none ↦ none
        | some (d', ip') ↦
            let gone = record ip' { type = 0 } in
            some (
              iupdate sb d' gone,
              update cache i (record gone { valid = false; ref = gone.ref - 1 }),
            )
      ]
    ]

-- the direct part of bmap, for an entry of addrs
pub bmap_addr : Superblock → Disk → Inode → (bn : ℕ) → Option (ℕ × Inode × Disk)
bmap_addr sb d ip bn =
    if ip.addrs bn == 0
    then (elim (balloc sb d) [
      | none ↦ none
      | some (addr, d') ↦ some (addr, record ip { addrs = update ip.addrs bn addr }, d')
    ])
    else some (ip.addrs bn, ip, d)

-- bmap from the read of the indirect block `addr` on
pub bmap_indirect : Superblock → (addr bn : ℕ) → Inode → Disk → Option (ℕ × Inode × Disk)
bmap_indirect sb addr bn ip d =
    let a = word (d.blocks addr) (4 * bn) in
    if a == 0
    then (elim (balloc sb d) [
      | none ↦ none
      | some (x, d') ↦ some (x, ip, log_write d' addr (put_word (d'.blocks addr) (4 * bn) x))
    ])
    else some (a, ip, d)

-- bmap: the block, with the inode and the disk; `none` is a panic.
pub bmap : Superblock → Disk → Inode → (bn : ℕ) → Option (ℕ × Inode × Disk)
bmap sb d ip bn =
    if ltb bn ndirect
    then bmap_addr sb d ip bn
    else if ltb (bn - ndirect) nindirect
    then (elim (bmap_addr sb d ip ndirect) [
      | none ↦ none
      | some (addr, ip', d') ↦ bmap_indirect sb addr (bn - ndirect) ip' d'
    ])
    else none
