-- ===== src/Files/Io/Tests.antt =====
-- filewrite of two bytes over a block's end, and fileread of them, with the theorem at it.
use ence.Base.{ℕ, refl, true, false, none, List, [], ◌∷◌, arith, if◌then◌else◌, ◌==◌, negsuc}
use ence.Fs.{Superblock, Disk}
use ence.Fs.Inode.{Inode}
use ence.Fs.File.Content.{Mapped}
use ence.Fs.File.Write.{Separate}
use ence.Files.{File, fd_inode}
use ence.Files.Io.Chunks.{Copies, filewrite-Copies}

abbrev sb : Superblock
sb = record {
  size = 6;
  nblocks = 3;
  ninodes = 8;
  nlog = 0;
  logstart = 1;
  inodestart = 1;
  bmapstart = 2;
}

abbrev disk : Disk
disk = record { blocks = λ b a. b; logged = [] }

-- a file of 700 bytes in blocks 4 and 5
abbrev inode : Inode
inode = record {
  dev = 1;
  inum = 3;
  ref = 1;
  valid = true;
  type = 2;
  major = 0;
  minor = 0;
  nlink = 1;
  size = 700;
  addrs = λ i. if i == 0 then 4 else if i == 1 then 5 else 0;
}

inode-Mapped : Mapped disk inode 2
inode-Mapped = record {
  few = omega arith;
  named = λ bn lt e. ground (arith, lt, e);
  indirect = λ far. absurd (omega (arith, far));
}

inode-Separate : Separate disk inode 2
inode-Separate = record {
  apart = λ x y ltx lty e. ground (arith, ltx, lty, e);
  indirect = λ x lt far. absurd (omega (arith, far));
}

abbrev writer : File
writer = record {
  type = fd_inode;
  ref = 1;
  readable = false;
  writable = true;
  pipe = 0;
  ip = 3;
  off = 511;
}

abbrev reader : File
reader = record {
  type = fd_inode;
  ref = 1;
  readable = true;
  writable = false;
  pipe = 0;
  ip = 3;
  off = 511;
}

abbrev addr : List ℕ
addr = b'a' ∷ b'b' ∷ []

filewrite-Copies_example :
    Copies (λ _. negsuc 0) (λ _. (negsuc 0, [])) (λ _. none) none sb disk inode 2 writer reader addr
filewrite-Copies_example =
    filewrite-Copies (λ _. negsuc 0) (λ _. (negsuc 0, [])) (λ _. none) none sb disk inode 2 writer
      reader addr refl refl refl refl refl (λ e. absurd (omega (arith, e))) inode-Mapped
      inode-Separate (omega arith) (omega arith)
