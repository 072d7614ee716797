-- ===== src/Fs/Dir/Link.antt =====
-- dirlink of lab10xv6/xv6/fs.c.
pub mod Entry
pub mod Added
use ence.Base.{
  ℕ, zero, suc, ◌+◌, ◌/◌, ◌%◌, ◌^◌, Bool, true, false, Option, none, some, List, [], ◌∷◌, ltb, ◌==◌,
  pos, negsuc, ℤ, if◌then◌else◌,
}
use ence.Strings.{Mem, strncpy}
use ence.Fs.{Superblock, Disk}
use ence.Fs.Inode.{Inode, iput}
use ence.Fs.File.{Io, failed, moved, get_bytes, readi, writei}
use ence.Fs.Path.{dirsiz}
use ence.Fs.Dir.{dirent_size, de_inum, de_name, whole, dirlookup}

-- What dirlink returns, with the cache of inodes, the directory and the disk.
pub record Linked : Type 0 where
  pub result : ℤ
  pub cache : ℕ → Inode
  pub dp : Inode
  pub disk : Disk

-- the loop for an empty entry from `off` on: its offset, or the end of the directory, and what `de` holds
-- then; `none` is the panic.
unfoldable pub empty_from :
    (fuel : ℕ)
    → Superblock
    → Disk
    → Inode
    → (de : List ℕ) (off : ℕ) → Option (ℕ × List ℕ × Inode × Disk)
empty_from zero sb d dp de off = some (off, de, dp, d)
empty_from (suc fuel) sb d dp de off = elim (ltb off dp.size) [
  | false ↦ some (off, de, dp, d)
  | true ↦ elim (whole (readi none sb d dp off dirent_size)) [
    | none ↦ none
    | some (de', dp', d') ↦ elim (de_inum de' == 0) [
      | true ↦ some (off, de', dp', d')
      | false ↦ empty_from fuel sb d' dp' de' (off + dirent_size)
    ]
  ]
]

-- the entry: de.inum, a ushort, and strncpy to de.name
abbrev pub new_entry : (de : List ℕ) (name : Mem) (inum : ℕ) → List ℕ
new_entry de name inum =
    inum % 2 ^ 8 ∷ inum / 2 ^ 8 % 2 ^ 8 ∷ get_bytes (strncpy (de_name de) name dirsiz) 0 dirsiz

-- dirlink, where `junk` is in `de` at its start; `none` is a panic.
pub dirlink :
    Superblock
    → Disk
    → (cache : ℕ → Inode) → (dp : Inode) (name : Mem) (inum : ℕ) (junk : List ℕ) → Option Linked
dirlink sb d cache dp name inum junk = elim (dirlookup sb d cache dp name) [
  | none ↦ none
  | some l ↦ elim l.entry [
    | some (off, i) ↦ elim (iput sb l.disk l.cache i) [
      | none ↦ none
      | some (d', cache') ↦
          some (record { result = negsuc 0; cache = cache'; dp = l.dp; disk = d' })
    ]
    | none ↦ elim (empty_from l.dp.size sb l.disk l.dp junk 0) [
      | none ↦ none
      | some (off, de, dp', d') ↦
          elim (whole (writei none sb d' dp' (new_entry de name inum) off)) [
            | none ↦ none
            | some (_, dp'', d'') ↦
                some (record { result = pos 0; cache = l.cache; dp = dp''; disk = d'' })
          ]
    ]
  ]
]
