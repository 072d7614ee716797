-- ===== src/Files/Io.antt =====
-- fileread and filewrite of lab10xv6/xv6/file.c on a file and the inode that its `ip` names. What the pipe
-- and a device do is an argument. The disk is the one that the transactions see.
pub mod Chunks
mod Tests
use ence.Base.{
  ℕ, zero, suc, ◌+◌, ◌-◌, ◌*◌, ◌/◌, min, Bool, true, false, not, Option, none, some, List, [], ◌∷◌,
  length, take, drop, ltb, ◌==◌, u32, ℤ, pos, negsuc, if◌then◌else◌,
}
use ence.Fs.{Superblock, Disk}
use ence.Fs.Inode.{Inode}
use ence.Fs.File.{Io, failed, moved, readi, writei}
use ence.Files.{File, FdType, fd_none, fd_pipe, fd_inode}
use ence.Log.{maxopblocks}

-- What fileread and filewrite give: the result, the bytes read, the file, the inode and the disk.
pub record Moved : Type 0 where
  pub result : ℤ
  pub bytes : List ℕ
  pub file : File
  pub inode : Inode
  pub disk : Disk

abbrev pub unmoved : File → Inode → Disk → ℤ → List ℕ → Moved
unmoved ff ip d r bytes = record { result = r; bytes = bytes; file = ff; inode = ip; disk = d }

-- f->off += r
abbrev pub advance : File → ℕ → File
advance ff r = record ff { off = u32 (ff.off + r) }

-- fileread of `n` bytes, `n` not negative; `none` is a panic.
pub fileread :
    (pipe : ℕ → ℤ × List ℕ) (device : Option Io)
    → Superblock
    → Disk
    → Inode
    → File
    → (n : ℕ) → Option Moved
fileread pipe device sb d ip ff n =
    if not ff.readable then some (unmoved ff ip d (negsuc 0) []) else elim ff.type [
      | fd_pipe ↦ some (unmoved ff ip d (pipe n).0 (pipe n).1)
      | fd_inode ↦ elim (readi device sb d ip ff.off n) [
        | none ↦ none
        | some failed ↦ some (unmoved ff ip d (negsuc 0) [])
        | some (moved r bytes ip' d') ↦ some (unmoved (advance ff r) ip' d' (pos r) bytes)
      ]
      | fd_none ↦ none
    ]

-- the `max` of filewrite
abbrev pub max_chunk : ℕ
max_chunk = (maxopblocks - 1 - 1 - 2) / 2 * 512

-- the loop of filewrite over what is left of `addr`, and `i` at its end; `none` is a panic.
unfoldable pub write_chunks :
    (fuel : ℕ) (device : List ℕ → Option Io)
    → Superblock
    → Disk
    → Inode
    → File
    → (addr : List ℕ) (i : ℕ) → Option (ℕ × File × Inode × Disk)
write_chunks zero device sb d ip ff addr i = some (i, ff, ip, d)
write_chunks (suc fuel) device sb d ip ff addr i =
    let n1 = min (length addr) max_chunk in
    elim (ltb 0 (length addr)) [
      | false ↦ some (i, ff, ip, d)
      | true ↦ elim (writei (device (take n1 addr)) sb d ip (take n1 addr) ff.off) [
        | none ↦ none
        | some failed ↦ some (i, ff, ip, d)
        | some (moved r bytes ip' d') ↦ elim (r == n1) [
          | false ↦ none
          | true ↦ write_chunks fuel device sb d' ip' (advance ff r) (drop n1 addr) (i + r)
        ]
      ]
    ]

-- filewrite; `none` is a panic.
pub filewrite :
    (pipe : List ℕ → ℤ) (device : List ℕ → Option Io)
    → Superblock
    → Disk
    → Inode
    → File
    → (addr : List ℕ) → Option Moved
filewrite pipe device sb d ip ff addr =
    if not ff.writable then some (unmoved ff ip d (negsuc 0) []) else elim ff.type [
      | fd_pipe ↦ some (unmoved ff ip d (pipe addr) [])
      | fd_inode ↦ elim (write_chunks (length addr) device sb d ip ff addr 0) [
        | none ↦ none
        | some (i, ff', ip', d') ↦
            some (unmoved ff' ip' d' (if i == length addr then pos (length addr) else negsuc 0) [])
      ]
      | fd_none ↦ none
    ]
