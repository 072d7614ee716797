-- ===== src/Fs/Walk.antt =====
-- namex of lab10xv6/xv6/fs.c, with namei and nameiparent. An inode is its entry of the inode cache.
pub mod Elements
mod Tests
use ence.Base.{
  ℕ, zero, suc, ◌+◌, Bool, true, false, not, ◌&&◌, Option, none, some, List, [], ◌∷◌, length, ◌==◌,
  update, if◌then◌else◌,
}
use ence.Fs.{Superblock, Disk}
use ence.Fs.Inode.{Inode, iget, idup, ilock, iput}
use ence.Fs.Path.{skipelem}
use ence.Fs.Dir.{t_dir, byte_at, dirlookup}

-- ROOTDEV and ROOTINO
abbrev pub rootdev : ℕ
rootdev = 1

abbrev pub rootino : ℕ
rootino = 1

-- What namex comes to: the entry and what is in `name`, or 0.
pub data Walked : Type 0 where
  panics : Walked
  nothing : (cache : ℕ → Inode) → Disk → Walked
  reached : (i : ℕ) (name : List ℕ) (cache : ℕ → Inode) → Disk → Walked

-- One round of the loop of namex: it stops, or goes on at the entry `next`.
pub data Round : Type 0 where
  stops : Walked → Round
  goes : (next : ℕ) (cache : ℕ → Inode) → Disk → Round

-- iunlockput, and return 0
abbrev pub give_up : Superblock → Disk → (cache : ℕ → Inode) → (i : ℕ) → Walked
give_up sb d cache i = elim (iput sb d cache i) [
  | none ↦ panics
  | some (d', cache') ↦ nothing cache' d'
]

-- the body of the loop for the element `name`, which is the last one of the path or not
pub round :
    Superblock
    → Disk
    → (cache : ℕ → Inode) → (i : ℕ) (nameiparent last : Bool) (name : List ℕ) → Round
round sb d cache i nameiparent last name = elim (ilock sb d (cache i)) [
  | none ↦ stops panics
  | some ip ↦
      let locked = update cache i ip in
      if not (ip.type == t_dir)
      then stops (give_up sb d locked i)
      else if nameiparent && last
      then stops (reached i name locked d)
      else (elim (dirlookup sb d locked ip (byte_at name)) [
        | none ↦ stops panics
        | some l ↦
            let looked = update l.cache i (record (l.cache i) { addrs = l.dp.addrs }) in
            elim l.entry [
              | none ↦ stops (give_up sb l.disk looked i)
              | some (_, next) ↦ elim (iput sb l.disk looked i) [
                | none ↦ stops panics
                | some (d', cache') ↦ goes next cache' d'
              ]
            ]
      ])
]

-- behind the loop
abbrev pub ending :
    Superblock → Disk → (cache : ℕ → Inode) → (i : ℕ) (nameiparent : Bool) (name : List ℕ) → Walked
ending sb d cache i nameiparent name =
    if nameiparent then give_up sb d cache i else reached i name cache d

-- *path == '\0'
abbrev pub at_end : List ℕ → Bool
at_end [] = true
at_end (c ∷ path) = false

-- the loop of namex at the entry `i`, with `name` as the rounds before have left it
unfoldable pub namex_from :
    (fuel : ℕ)
    → Superblock
    → Disk
    → (cache : ℕ → Inode) → (i : ℕ) (path : List ℕ) (nameiparent : Bool) (name : List ℕ) → Walked
namex_from zero sb d cache i path nameiparent name = panics
namex_from (suc fuel) sb d cache i path nameiparent name = elim (skipelem path) [
  | none ↦ ending sb d cache i nameiparent name
  | some (path', name') ↦ elim (round sb d cache i nameiparent (at_end path') name') [
    | stops w ↦ w
    | goes next cache' d' ↦ namex_from fuel sb d' cache' next path' nameiparent name'
  ]
]

-- where a path starts: at the root or at `cwd`; `none` is the panic of iget.
abbrev pub from_start : (cache : ℕ → Inode) → (cwd : ℕ) (path : List ℕ) → Option (ℕ × (ℕ → Inode))
from_start cache cwd [] = some (cwd, idup cache cwd)
from_start cache cwd (c ∷ path) =
    if c == b'/' then iget cache rootdev rootino else some (cwd, idup cache cwd)

pub namex :
    Superblock
    → Disk
    → (cache : ℕ → Inode) → (cwd : ℕ) (path : List ℕ) (nameiparent : Bool) → Walked
namex sb d cache cwd path nameiparent = elim (from_start cache cwd path) [
  | none ↦ panics
  | some (i, cache') ↦ namex_from (length path + 1) sb d cache' i path nameiparent []
]
