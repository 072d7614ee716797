-- ===== src/Fs/Dir/Link/Added.antt =====
-- dirlink of a new name into an empty entry of a directory.
use ence.Base.{
  ℕ, zero, suc, ◌+◌, ◌*◌, ◌^◌, ◌≤◌, ◌<◌, ◌≡◌, ◌≢◌, refl, sym, ap, ◌∙◌, subst, true, false, Option,
  none, some, List, [], length, ltb, ◌==◌, pos, arith, ℕ_discrete,
}
use ence.Strings.{Mem, strncmp}
use ence.Fs.{Superblock, Disk}
use ence.Fs.Inode.{Inode}
use ence.Fs.File.{Io, writei}
use ence.Fs.File.Content.{content, span}
use ence.Fs.File.Write.{Separate, Written, Mapped-blocks, span-ext, Writes, writes, writei-Writes}
use ence.Fs.Path.{dirsiz}
use ence.Fs.Dir.{dirent_size, de_inum, de_name, whole, Looked, dirlookup}
use ence.Fs.Dir.Lookup.{
  Directory, Names, entry_of, whole_entry, Lookup, here, nowhere, no_room, dirlookup-Lookup,
}
use ence.Fs.Dir.Link.{Linked, empty_from, new_entry, dirlink}
use ence.Fs.Dir.Link.Entry.{length-new_entry, de_inum-new_entry, new_entry_named}

module _ (sb : Superblock) (d : Disk) (dp : Inode) (k n : ℕ) (dir : Directory d dp k n)
    (name : Mem) where
  -- the search for the first empty entry, `i`
  empty_from-first :
      (fuel j i : ℕ) (de : List ℕ)
      → j ≤ i
      → i < n
      → i < j + fuel
      → ((x : ℕ) → j ≤ x → x < i → de_inum (entry_of d dp x) ≢ 0)
      → de_inum (entry_of d dp i) ≡ 0
      → empty_from fuel sb d dp de (j * dirent_size)
        ≡ some (i * dirent_size, entry_of d dp i, dp, d)
  unfolding empty_from
  empty_from-first zero j i de le lt enough used empty = absurd (omega arith)
  empty_from-first (suc fuel) j i de le lt enough used empty =
      let h : ltb (j * dirent_size) dp.size ≡ true = ground (arith, dir.size) in
      let read = whole_entry sb d dp k n dir name j (omega arith) in
      elim (ℕ_discrete j i) [
        | yes at ↦
            let e : (de_inum (entry_of d dp j) == 0) ≡ true =
              let z = ap (λ (x : ℕ). de_inum (entry_of d dp x)) at in ground (arith, z, empty) in
            rw (empty_from, h, read, e)
              (ap (λ (x : ℕ). some (x * dirent_size, entry_of d dp x, dp, d)) at)
        | no ne ↦
            let z = used j (omega arith) (omega arith) in
            let e : (de_inum (entry_of d dp j) == 0) ≡ false = ground (arith, z) in
            let next : j * dirent_size + dirent_size ≡ (j + 1) * dirent_size = omega arith in
            rw (empty_from, h, read, e)
              (ap (empty_from fuel sb d dp (entry_of d dp j)) next
                ∙ empty_from-first fuel (j + 1) i (entry_of d dp j) (omega arith) lt (omega arith)
                    (λ x lo hi. used x (omega arith) hi) empty)
      ]

-- What dirlink does: entry `i` names the inode, and the others are as before.
pub record Added (d : Disk) (cache : ℕ → Inode) (dp : Inode) (k n i : ℕ) (name : Mem) (inum : ℕ)
    (o : Option Linked) : Type 0 where
  pub disk : Disk
  pub returns : o ≡ some (record { result = pos 0; cache = cache; dp = dp; disk = disk })
  pub directory : Directory disk dp k n
  pub named : Names name (entry_of disk dp i)
  pub inode : de_inum (entry_of disk dp i) ≡ inum
  pub others : (x : ℕ) → x < n → x ≢ i → entry_of disk dp x ≡ entry_of d dp x

absent_entry :
    (d : Disk) (dp : Inode) (cache : ℕ → Inode) (name : Mem) (n : ℕ) (o : Option Looked)
    → ((x : ℕ) → x < n → ¬ Names name (entry_of d dp x))
    → Lookup d dp cache name n o
    → o ≡ some (record { entry = none; cache = cache; dp = dp; disk = d })
absent_entry d dp cache name n _ out (here i c cache' lt is _ _) = absurd (out i lt is)
absent_entry d dp cache name n _ out (nowhere _) = refl
absent_entry d dp cache name n _ out (no_room i lt is _) = absurd (out i lt is)

whole-Writes :
    (d : Disk) (ip : Inode) (k off : ℕ) (src : List ℕ) (o : Option Io)
    → length src ≡ dirent_size
    → Writes d ip k off src o
    → (d' : Disk) × (whole o ≡ some ([], ip, d')) × Written d d' ip k off src
unfolding whole
whole-Writes d ip k off src _ len (writes d' w) = (d', ground (arith, len), w)

-- the entries after a write of entry `i`
after-Added :
    (d d' : Disk) (cache : ℕ → Inode) (dp : Inode) (k n i : ℕ) (de : List ℕ) (name : Mem) (inum : ℕ)
    (o : Option Linked)
    → Directory d dp k n
    → inum ≢ 0
    → inum < 2 ^ 16
    → o ≡ some (record { result = pos 0; cache = cache; dp = dp; disk = d' })
    → Written d d' dp k (i * dirent_size) (new_entry de name inum)
    → Added d cache dp k n i name inum o
after-Added d d' cache dp k n i de name inum o dir nonzero small e w =
    let src = new_entry de name inum in
    let len = length-new_entry de name inum in
    let new : entry_of d' dp i ≡ src =
      ap (span (content d' dp) (i * dirent_size)) (sym len) ∙ w.inside in
    let number : de_inum (entry_of d' dp i) ≡ inum =
      ap (λ (b : List ℕ). de_inum b) new ∙ de_inum-new_entry de name inum small in
    record {
      disk = d';
      returns = e;
      directory = record {
        type = dir.type;
        size = dir.size;
        fits = dir.fits;
        blocks = Mapped-blocks d d' dp k w.blocks dir.blocks;
      };
      named = (
        λ z. nonzero (sym number ∙ z),
        subst (λ (b : List ℕ). strncmp name (de_name b) dirsiz ≡ pos 0) (sym new)
            (new_entry_named de name inum),
      );
      inode = number;
      others = λ x lt ne.
          span-ext (content d' dp) (content d dp) (x * dirent_size) dirent_size
            (λ y lo hi. w.outside y (omega (arith, dir.size, dir.fits)) (omega (arith, len, ne)));
    }

-- In a directory of whole entries whose blocks are all there and are all different, with an empty entry and
-- none in use with the name: dirlink of an inode number other than 0 that fits a ushort returns 0 and makes the first empty
-- entry one in use with the name and that number, and keeps all other entries.
pub dirlink-Added :
    (sb : Superblock) (d : Disk) (dp : Inode) (k n i : ℕ) (cache : ℕ → Inode) (name : Mem)
    (inum : ℕ) (junk : List ℕ)
    → Directory d dp k n
    → Separate d dp k
    → i < n
    → de_inum (entry_of d dp i) ≡ 0
    → ((x : ℕ) → x < i → de_inum (entry_of d dp x) ≢ 0)
    → ((x : ℕ) → x < n → ¬ Names name (entry_of d dp x))
    → inum ≢ 0
    → inum < 2 ^ 16
    → Added d cache dp k n i name inum (dirlink sb d cache dp name inum junk)
unfolding dirlink
dirlink-Added sb d dp k n i cache name inum junk dir s lt empty used out nonzero small =
    let looked =
      absent_entry d dp cache name n (dirlookup sb d cache dp name) out
        (dirlookup-Lookup sb d dp k n cache name dir) in
    let found =
      empty_from-first sb d dp k n dir name dp.size 0 i junk (omega arith) lt
        (omega (arith, dir.size)) (λ x lo hi. used x hi) empty in
    let src = new_entry (entry_of d dp i) name inum in
    let len = length-new_entry (entry_of d dp i) name inum in
    let (d', e, w) =
      whole-Writes d dp k (i * dirent_size) src (writei none sb d dp src (i * dirent_size)) len (
        writei-Writes none sb d dp k (i * dirent_size) src
          (λ z. absurd (omega (arith, z, dir.type))) dir.blocks s dir.fits
          (omega (arith, len, dir.size))) in
    after-Added d d' cache dp k n i (entry_of d dp i) name inum
      (dirlink sb d cache dp name inum junk) dir nonzero small (rw (dirlink, looked, found, e) refl)
      w
