-- ===== src/Fs/Walk/Tests.antt =====
-- namei of "ab//" from a directory, and the theorem at it.
use ence.Base.{ℕ, ◌≡◌, true, false, none, some, List, [], ◌∷◌, ◌==◌, if◌then◌else◌}
use ence.Fs.{Superblock, Disk}
use ence.Fs.Inode.{Inode}
use ence.Fs.Path.{elements}
use ence.Fs.Dir.{byte_at}
use ence.Fs.Walk.{panics, from_start, namex}
use ence.Fs.Walk.Elements.{walk, namex-walk}

abbrev sb : Superblock
sb = record {
  size = 6;
  nblocks = 3;
  ninodes = 8;
  nlog = 0;
  logstart = 1;
  inodestart = 1;
  bmapstart = 2;
}

-- inode 7 as "ab"
abbrev disk : Disk
disk = record {
  blocks = λ b a. if b == 4 then byte_at (7 ∷ 0 ∷ b'a' ∷ b'b' ∷ []) a else 0;
  logged = [];
}

abbrev dp : Inode
dp = record {
  dev = 1;
  inum = 1;
  ref = 1;
  valid = true;
  type = 1;
  major = 0;
  minor = 0;
  nlink = 1;
  size = 16;
  addrs = λ i. if i == 0 then 4 else 0;
}

abbrev cache : ℕ → Inode
cache i = if i == 3 then dp else record dp { ref = 0; inum = 0 }

abbrev path : List ℕ
path = b'a' ∷ b'b' ∷ b'/' ∷ b'/' ∷ []

namex-walk_example : namex sb disk cache 3 path false ≡ elim (from_start cache 3 path) [
  | none ↦ panics
  | some (i, cache') ↦ walk sb disk cache' i (elements [] path) false []
]
namex-walk_example = namex-walk sb disk cache 3 path false
