-- ===== src/Fs/File.antt =====
-- readi and writei of lab10xv6/xv6/fs.c. Offsets and sizes are uints. What a device does is an argument;
-- a short below 0 is a bit pattern that is not below NDEV.
pub mod Content
pub mod Write
use ence.Base.{
  ℕ, zero, suc, ◌+◌, ◌-◌, ◌*◌, ◌/◌, ◌%◌, ◌^◌, min, Bool, true, false, not, ◌&&◌, ◌||◌, Option, none,
  some, List, [], ◌∷◌, ◌++◌, length, take, drop, ltb, leb, ◌==◌, update, u32, if◌then◌else◌,
}
use ence.Strings.{Mem}
use ence.Fs.{Superblock, Disk, bsize, log_write}
use ence.Fs.Inode.{Inode, ndirect, nindirect, iupdate, bmap}

-- T_DEV, NDEV and MAXFILE
abbrev pub t_dev : ℕ
t_dev = 3

abbrev pub ndev : ℕ
ndev = 10

abbrev pub maxfile : ℕ
maxfile = ndirect + nindirect

-- How a call ends: with -1, or with its count, what it read, the inode and the disk.
pub data Io : Type 0 where
  failed : Io
  moved : (n : ℕ) (bytes : List ℕ) → Inode → Disk → Io

-- memmove out of a block
unfoldable pub get_bytes : Mem → (a m : ℕ) → List ℕ
get_bytes block a zero = []
get_bytes block a (suc m) = block a ∷ get_bytes block (a + 1) m

-- memmove into a block
unfoldable pub put_bytes : Mem → (a : ℕ) → List ℕ → Mem
put_bytes block a [] = block
put_bytes block a (c ∷ src) = put_bytes (update block a c) (a + 1) src

-- the loop of readi, with `left` bytes to go; `none` is a panic of bmap.
unfoldable pub read_blocks :
    (fuel : ℕ) → Superblock → Disk → Inode → (off left : ℕ) → Option (List ℕ × Inode × Disk)
read_blocks zero sb d ip off left = some ([], ip, d)
read_blocks (suc fuel) sb d ip off left =
    let m = min left (bsize - off % bsize) in
    elim (left == 0) [
      | true ↦ some ([], ip, d)
      | false ↦ elim (bmap sb d ip (off / bsize)) [
        | none ↦ none
        | some (b, ip', d') ↦ elim (read_blocks fuel sb d' ip' (off + m) (left - m)) [
          | none ↦ none
          | some (bytes, ip'', d'') ↦
              some (get_bytes (d'.blocks b) (off % bsize) m ++ bytes, ip'', d'')
        ]
      ]
    ]

pub read_in : Superblock → Disk → Inode → (off n : ℕ) → Option Io
read_in sb d ip off n = elim (read_blocks n sb d ip off n) [
  | none ↦ none
  | some (bytes, ip', d') ↦ some (moved n bytes ip' d')
]

-- readi; `device` is what devsw[ip->major].read gives, where there is one.
pub readi : (device : Option Io) → Superblock → Disk → Inode → (off n : ℕ) → Option Io
readi device sb d ip off n =
    if ip.type == t_dev
    then (if leb ndev ip.major
        then some failed
        else elim device [ none ↦ some failed | some io ↦ some io ])
    else if ltb ip.size off || ltb (u32 (off + n)) off
    then some failed
    else read_in sb d ip off (if ltb ip.size (off + n) then ip.size - off else n)

-- the loop of writei over what is left of src: the inode, the disk and the offset behind it
unfoldable pub write_blocks :
    (fuel : ℕ) → Superblock → Disk → Inode → (off : ℕ) (src : List ℕ) → Option (Inode × Disk × ℕ)
write_blocks zero sb d ip off src = some (ip, d, off)
write_blocks (suc fuel) sb d ip off src =
    let m = min (length src) (bsize - off % bsize) in
    elim (length src == 0) [
      | true ↦ some (ip, d, off)
      | false ↦ elim (bmap sb d ip (off / bsize)) [
        | none ↦ none
        | some (b, ip', d') ↦
            write_blocks fuel sb
              (log_write d' b (put_bytes (d'.blocks b) (off % bsize) (take m src))) ip' (off + m)
              (drop m src)
      ]
    ]

-- writei behind its loop
pub grow : Superblock → (n : ℕ) → Inode × Disk × ℕ → Io
grow sb n (ip, d, off) =
    let larger = record ip { size = off } in
    if not (n == 0) && ltb ip.size off
    then moved n [] larger (iupdate sb d larger)
    else moved n [] ip d

-- writei; `device` is what devsw[ip->major].write gives, where there is one.
pub writei : (device : Option Io) → Superblock → Disk → Inode → (src : List ℕ) (off : ℕ) → Option Io
writei device sb d ip src off =
    let n = length src in
    if ip.type == t_dev
    then (if leb ndev ip.major
        then some failed
        else elim device [ none ↦ some failed | some io ↦ some io ])
    else if ltb ip.size off || ltb (u32 (off + n)) off || ltb (maxfile * bsize) (off + n)
    then some failed
    else elim (write_blocks n sb d ip off src) [ none ↦ none | some end ↦ some (grow sb n end) ]
