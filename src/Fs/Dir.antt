-- ===== src/Fs/Dir.antt =====
-- Directories of lab10xv6/xv6/fs.c: dirlookup.
pub mod Lookup
pub mod Link
mod Tests
use ence.Base.{
  ℕ, zero, suc, ◌+◌, ◌*◌, ◌^◌, Bool, true, false, not, ◌||◌, Option, none, some, List, [], ◌∷◌, ltb,
  ◌==◌, pos, negsuc, ℤ, if◌then◌else◌,
}
use ence.Strings.{Mem, strncmp}
use ence.Fs.{Superblock, Disk}
use ence.Fs.Inode.{Inode, iget}
use ence.Fs.File.{Io, failed, moved, readi}
use ence.Fs.Path.{dirsiz}

-- T_DIR and sizeof(struct dirent)
abbrev pub t_dir : ℕ
t_dir = 1

abbrev pub dirent_size : ℕ
dirent_size = 16

-- byte `i` of what was read, as the memory of `de`
unfoldable pub byte_at : List ℕ → Mem
byte_at [] i = 0
byte_at (c ∷ bytes) zero = c
byte_at (c ∷ bytes) (suc i) = byte_at bytes i

-- de.inum and de.name
abbrev pub de_inum : List ℕ → ℕ
de_inum de = byte_at de 0 + byte_at de 1 * 2 ^ 8

abbrev pub de_name : List ℕ → Mem
de_name de i = byte_at de (i + 2)

-- namecmp(s, t) == 0
pub namecmp : (s t : Mem) → Bool
namecmp s t = elim (strncmp s t dirsiz) [ pos n ↦ n == 0 | negsuc n ↦ false ]

-- the entry is in use and has the name
abbrev pub is_entry : (name : Mem) → List ℕ → Bool
is_entry name de = if de_inum de == 0 then false else namecmp name (de_name de)

-- How the loop of dirlookup ends, with the directory and the disk; `found` has the offset and the inode
-- number.
pub data Found : Type 0 where
  panics : Found
  absent : Inode → Disk → Found
  found : (poff inum : ℕ) → Inode → Disk → Found

-- whether a call of readi moved a whole entry, and its bytes
pub whole : Option Io → Option (List ℕ × Inode × Disk)
whole none = none
whole (some failed) = none
whole (some (moved n bytes ip d)) = if n == dirent_size then some (bytes, ip, d) else none

-- the loop of dirlookup from offset `off` on
unfoldable pub look_from : (fuel : ℕ) → Superblock → Disk → Inode → (name : Mem) (off : ℕ) → Found
look_from zero sb d dp name off = absent dp d
look_from (suc fuel) sb d dp name off = elim (ltb off dp.size) [
  | false ↦ absent dp d
  | true ↦ elim (whole (readi none sb d dp off dirent_size)) [
    | none ↦ panics
    | some (de, dp', d') ↦ elim (is_entry name de) [
      | true ↦ found off (de_inum de) dp' d'
      | false ↦ look_from fuel sb d' dp' name (off + dirent_size)
    ]
  ]
]

-- What dirlookup returns: the offset and the entry of the inode cache, where there is one, with the cache,
-- the directory and the disk.
pub record Looked : Type 0 where
  pub entry : Option (ℕ × ℕ)
  pub cache : ℕ → Inode
  pub dp : Inode
  pub disk : Disk

-- dirlookup; `none` is a panic.
pub dirlookup : Superblock → Disk → (cache : ℕ → Inode) → Inode → (name : Mem) → Option Looked
dirlookup sb d cache dp name =
    if not (dp.type == t_dir) then none else elim (look_from dp.size sb d dp name 0) [
      | panics ↦ none
      | absent dp' d' ↦ some (record { entry = none; cache = cache; dp = dp'; disk = d' })
      | found poff inum dp' d' ↦ elim (iget cache dp'.dev inum) [
        | none ↦ none
        | some (i, cache') ↦
            some (record { entry = some (poff, i); cache = cache'; dp = dp'; disk = d' })
      ]
    ]
