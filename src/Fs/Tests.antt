-- ===== src/Fs/Tests.antt =====
-- The functions of fs.c on a small disk, and the theorems at it.
use ence.Base.{ℕ, ◌≡◌, refl, some, List, [], ◌∷◌, arith, if◌then◌else◌, ◌==◌, ◌&&◌}
use ence.Fs.Path.{skipelem, skip_on, skip_slashes, pass}
use ence.Fs.{Superblock, Disk, balloc}
use ence.Fs.Alloc.{IsValid, Answer, balloc-Answer}

-- 6 blocks, with the bitmap in block 2
abbrev sb : Superblock
sb = record {
  size = 6;
  nblocks = 3;
  ninodes = 8;
  nlog = 0;
  logstart = 1;
  inodestart = 1;
  bmapstart = 2;
}

-- the first four blocks are in use
abbrev disk : Disk
disk = record { blocks = λ b a. if (b == 2) && (a == 0) then 15 else 7; logged = [] }

disk-IsValid : IsValid sb disk
disk-IsValid x y lt e = let at : y ≡ 2 = omega arith in rw at refl

balloc-Answer_example : Answer sb disk (balloc sb disk)
balloc-Answer_example = balloc-Answer sb disk disk-IsValid

-- "a/bb/c" and "///a//bb"
abbrev path : List ℕ
path = b'a' ∷ b'/' ∷ b'b' ∷ b'b' ∷ b'/' ∷ b'c' ∷ []

abbrev slashes : List ℕ
slashes = b'/' ∷ b'/' ∷ b'/' ∷ b'a' ∷ b'/' ∷ b'/' ∷ b'b' ∷ b'b' ∷ []

path_test : skipelem path ≡ some (b'b' ∷ b'b' ∷ b'/' ∷ b'c' ∷ [], b'a' ∷ [])
unfolding skipelem skip_on skip_slashes pass
path_test = refl

slashes_test : skipelem slashes ≡ some (b'b' ∷ b'b' ∷ [], b'a' ∷ [])
unfolding skipelem skip_on skip_slashes pass
slashes_test = refl
