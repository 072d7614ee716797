-- ===== src/Fs/Inode/Tests.antt =====
-- The inode functions of fs.c on a small disk, and the theorems at it.
use ence.Base.{◌&&◌, ℕ, ◌≡◌, refl, true, false, Option, none, some, [], arith, if◌then◌else◌, ◌==◌}
use ence.Fs.{Superblock, Disk}
use ence.Fs.Inode.Blocks.{Sound, Again, bmap-Again}
use ence.Fs.Inode.{Inode, bmap, iupdate, ilock, iget, iget_in, iget_from}
use ence.Fs.Inode.Stored.{Fits, Locked, ilock-iupdate}
use ence.Fs.Inode.Icache.{Unique, Kept, iget-Kept}

abbrev sb : Superblock
sb = record {
  size = 6;
  nblocks = 3;
  ninodes = 8;
  nlog = 0;
  logstart = 1;
  inodestart = 1;
  bmapstart = 2;
}

abbrev disk : Disk
disk = record { blocks = λ b a. 7; logged = [] }

-- inode 3 is a file of 700 bytes in blocks 4 and 5
abbrev file : Inode
file = record {
  dev = 1;
  inum = 3;
  ref = 1;
  valid = true;
  type = 2;
  major = 0;
  minor = 0;
  nlink = 1;
  size = 700;
  addrs = λ i. if i == 0 then 4 else if i == 1 then 5 else 0;
}

-- an entry for it that iget has just taken
abbrev entry : Inode
entry = record {
  dev = 1;
  inum = 3;
  ref = 1;
  valid = false;
  type = 9;
  major = 9;
  minor = 9;
  nlink = 9;
  size = 9;
  addrs = λ i. 9;
}

file-Fits : Fits file
file-Fits = record {
  type = omega arith;
  major = omega arith;
  minor = omega arith;
  nlink = omega arith;
  size = omega arith;
  addrs = λ i le. ground arith;
}

ilock-iupdate_example : Locked file entry (ilock sb (iupdate sb disk file) entry)
ilock-iupdate_example =
    ilock-iupdate sb disk file entry file-Fits (λ e. absurd (omega (arith, e))) refl (omega arith)
      refl

-- entry 1 is in use for inode 3, all others are free
abbrev cache : ℕ → Inode
cache i = if i == 1 then file else record file { ref = 0 }

cache-Unique : Unique cache
cache-Unique i j lti ltj usedi usedj same_dev same_inum = ground (arith, usedi, usedj)

iget-Kept_example : Kept 1 5 (iget cache 1 5)
iget-Kept_example = iget-Kept cache 1 5 cache-Unique

where_is : Option (ℕ × (ℕ → Inode)) → Option ℕ
where_is none = none
where_is (some (i, cache)) = some i

-- iget finds entry 1 for inode 3, and takes entry 0 for inode 5
found_test : where_is (iget cache 1 3) ≡ some 1
unfolding iget iget_in iget_from where_is
found_test = refl

taken_test : where_is (iget cache 1 5) ≡ some 0
unfolding iget iget_in iget_from where_is
taken_test = refl

-- blocks 0 to 3 are in use, the bitmap is block 2
abbrev mapped : Disk
mapped = record { blocks = λ b a. if (b == 2) && (a == 0) then 15 else 7; logged = [] }

mapped-Sound : Sound sb mapped
mapped-Sound = record {
  valid = λ x y lt e. (let at : y ≡ 2 = omega arith in rw at refl);
  inside = λ y lt. omega arith;
  boot = refl;
  fits = omega arith;
}

-- a file with no blocks yet gets its indirect block and block 13
bmap-Again_example : Again sb mapped 13 (bmap sb mapped (record file { addrs = λ _. 0 }) 13)
bmap-Again_example = bmap-Again sb mapped (record file { addrs = λ _. 0 }) 13 mapped-Sound
