-- ===== src/Fs/Dir/Tests.antt =====
-- dirlookup in a small directory, and its theorem at it.
use ence.Base.{zero, suc, ◌<◌, ◌≡◌, pos, ℕ, refl, true, List, [], ◌∷◌, arith, if◌then◌else◌, ◌==◌}
use ence.Strings.{Mem, strncmp}
use ence.Fs.Path.{dirsiz}
use ence.Fs.File.Content.{span}
use ence.Fs.File.Write.{Separate}
use ence.Fs.Dir.Link.{dirlink}
use ence.Fs.Dir.Link.Added.{Added, dirlink-Added}
use ence.Fs.{Superblock, Disk}
use ence.Fs.Inode.{Inode}
use ence.Fs.Dir.{byte_at, de_inum, de_name, dirlookup}
use ence.Fs.Dir.Lookup.{Names, entry_of, Directory, Lookup, dirlookup-Lookup}

abbrev sb : Superblock
sb = record {
  size = 6;
  nblocks = 3;
  ninodes = 8;
  nlog = 0;
  logstart = 1;
  inodestart = 1;
  bmapstart = 2;
}

-- an unused entry for "ab", and inode 7 as "ab"
abbrev entries : List ℕ
entries =
    0 ∷ 0 ∷ b'a' ∷ b'b' ∷ 0 ∷ 0 ∷ 0 ∷ 0 ∷ 0 ∷ 0 ∷ 0 ∷ 0 ∷ 0 ∷ 0 ∷ 0 ∷ 0 ∷ 7 ∷ 0 ∷ b'a' ∷ b'b' ∷ []

abbrev disk : Disk
disk = record { blocks = λ b a. if b == 4 then byte_at entries a else 0; logged = [] }

abbrev dp : Inode
dp = record {
  dev = 1;
  inum = 1;
  ref = 1;
  valid = true;
  type = 1;
  major = 0;
  minor = 0;
  nlink = 1;
  size = 32;
  addrs = λ i. if i == 0 then 4 else 0;
}

dp-Directory : Directory disk dp 1 2
dp-Directory = record {
  type = refl;
  size = refl;
  fits = omega arith;
  blocks = record {
    few = omega arith;
    named = λ bn lt e. ground (arith, lt, e);
    indirect = λ far. absurd (omega (arith, far));
  };
}

abbrev name : Mem
name = byte_at (b'a' ∷ b'b' ∷ [])

-- every entry of the inode cache is free
abbrev cache : ℕ → Inode
cache i = record dp { ref = 0 }

dirlookup-Lookup_example : Lookup disk dp cache name 2 (dirlookup sb disk cache dp name)
dirlookup-Lookup_example = dirlookup-Lookup sb disk dp 1 2 cache name dp-Directory

-- no two blocks, and no indirect one
disk-Separate : Separate disk dp 1
disk-Separate = record {
  apart = λ x y ltx lty e. omega arith;
  indirect = λ x lt far. absurd (omega (arith, far));
}

abbrev new_name : Mem
new_name = byte_at (b'c' ∷ b'd' ∷ [])

first_test : de_inum (entry_of disk dp 0) ≡ 0
unfolding span byte_at
first_test = refl

second_test : strncmp new_name (de_name (entry_of disk dp 1)) dirsiz ≡ pos 0 → ⊥
unfolding span byte_at strncmp
second_test e = let two : pos 2 ≡ pos 0 = e in ground (arith, two)

new_name_absent : (x : ℕ) → x < 2 → ¬ Names new_name (entry_of disk dp x)
new_name_absent zero lt (used, same) = used first_test
new_name_absent (suc zero) lt (used, same) = second_test same
new_name_absent (suc (suc x)) lt h = absurd (omega arith)

dirlink-Added_example :
    Added disk cache dp 1 2 0 new_name 9 (dirlink sb disk cache dp new_name 9 [])
dirlink-Added_example =
    dirlink-Added sb disk dp 1 2 0 cache new_name 9 [] dp-Directory disk-Separate (omega arith)
      first_test (λ x lt. absurd (omega arith)) new_name_absent (λ e. absurd (omega (arith, e)))
      (omega arith)
