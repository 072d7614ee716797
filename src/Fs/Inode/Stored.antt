-- ===== src/Fs/Inode/Stored.antt =====
-- What iupdate writes, ilock reads back, and no other inode is touched.
use ence.Base.{
  ℕ, ◌+◌, ◌^◌, ◌≤◌, ◌<◌, ◌≡◌, ◌≢◌, refl, sym, ap, ap₂, ◌∙◌, true, false, Option, some, ltb, arith,
  ℕ_discrete, subst,
}
use ence.Strings.{Mem, put_word}
use ence.Fs.{Superblock, Disk}
use ence.Fs.Inode.{
  Inode, ndirect, dinode_size, iblock, put_half, dinode_at, put_dinode, iupdate, get_dinode, ilock,
}
use ence.Fs.Inode.Layout.{
  half-put_half, half-put_half_other, half-put_word_other, half-put_words, word-put_word,
  word-put_words_other, word-put_words, put_dinode_at,
}

-- The fields fit their widths.
pub record Fits (ip : Inode) : Type 0 where
  pub type : ip.type < 2 ^ 16
  pub major : ip.major < 2 ^ 16
  pub minor : ip.minor < 2 ^ 16
  pub nlink : ip.nlink < 2 ^ 16
  pub size : ip.size < 2 ^ 32
  pub addrs : (i : ℕ) → i ≤ ndirect → ip.addrs i < 2 ^ 32

-- The fields of two inodes that are kept on the disk agree.
pub record Same (ip q : Inode) : Type 0 where
  pub type : q.type ≡ ip.type
  pub major : q.major ≡ ip.major
  pub minor : q.minor ≡ ip.minor
  pub nlink : q.nlink ≡ ip.nlink
  pub size : q.size ≡ ip.size
  pub addrs : (i : ℕ) → i ≤ ndirect → q.addrs i ≡ ip.addrs i

get_dinode-put_dinode :
    (m : Mem) (a : ℕ) (ip q : Inode) → Fits ip → Same ip (get_dinode (put_dinode m a ip) a q)
unfolding put_dinode get_dinode
get_dinode-put_dinode m a ip q fits =
    let h1 = put_half m a ip.type in
    let h2 = put_half h1 (a + 2) ip.major in
    let h3 = put_half h2 (a + 4) ip.minor in
    let h4 = put_half h3 (a + 6) ip.nlink in
    let w = put_word h4 (a + 8) ip.size in
    record {
      type =
          half-put_words w (a + 12) ip.addrs 0 (ndirect + 1) a (omega arith)
          ∙ half-put_word_other h4 (a + 8) ip.size a (omega arith)
          ∙ half-put_half_other h3 (a + 6) ip.nlink a (omega arith)
          ∙ half-put_half_other h2 (a + 4) ip.minor a (omega arith)
          ∙ half-put_half_other h1 (a + 2) ip.major a (omega arith)
          ∙ half-put_half m a ip.type fits.type;
      major =
          half-put_words w (a + 12) ip.addrs 0 (ndirect + 1) (a + 2) (omega arith)
          ∙ half-put_word_other h4 (a + 8) ip.size (a + 2) (omega arith)
          ∙ half-put_half_other h3 (a + 6) ip.nlink (a + 2) (omega arith)
          ∙ half-put_half_other h2 (a + 4) ip.minor (a + 2) (omega arith)
          ∙ half-put_half h1 (a + 2) ip.major fits.major;
      minor =
          half-put_words w (a + 12) ip.addrs 0 (ndirect + 1) (a + 4) (omega arith)
          ∙ half-put_word_other h4 (a + 8) ip.size (a + 4) (omega arith)
          ∙ half-put_half_other h3 (a + 6) ip.nlink (a + 4) (omega arith)
          ∙ half-put_half h2 (a + 4) ip.minor fits.minor;
      nlink =
          half-put_words w (a + 12) ip.addrs 0 (ndirect + 1) (a + 6) (omega arith)
          ∙ half-put_word_other h4 (a + 8) ip.size (a + 6) (omega arith)
          ∙ half-put_half h3 (a + 6) ip.nlink fits.nlink;
      size =
          word-put_words_other w (a + 12) ip.addrs 0 (ndirect + 1) (a + 8) (omega arith)
          ∙ word-put_word h4 (a + 8) ip.size fits.size;
      addrs = λ i le.
          let inside : ltb i (ndirect + 1) ≡ true = ground arith in
          rw inside (
            word-put_words w (a + 12) ip.addrs 0 (ndirect + 1) i (omega arith) (omega arith)
              (fits.addrs i le));
    }

-- the block of the inode after iupdate
iupdate_block :
    (sb : Superblock) (d : Disk) (ip : Inode)
    → (iupdate sb d ip).blocks (iblock ip.inum sb)
      ≡ put_dinode (d.blocks (iblock ip.inum sb)) (dinode_at ip.inum) ip
unfolding iupdate
iupdate_block sb d ip = ground arith

ilock_reads :
    (sb : Superblock) (d : Disk) (q r : Inode)
    → 1 ≤ q.ref
    → q.valid ≡ false
    → get_dinode (d.blocks (iblock q.inum sb)) (dinode_at q.inum) q ≡ r
    → r.type ≢ 0
    → ilock sb d q ≡ some r
unfolding ilock
ilock_reads sb d q r used stale read typed =
    let typed_read : (get_dinode (d.blocks (iblock q.inum sb)) (dinode_at q.inum) q).type ≢ 0 =
      subst (λ (x : Inode). x.type ≢ 0) (sym read) typed in
    ground (arith, used, stale, typed_read) ∙ ap some read

-- What ilock of `q` yields where `ip` is what the disk holds.
pub data Locked (ip q : Inode) : Option Inode → Type 0 where
  locked :
      (r : Inode)
      → Same ip r
      → r.valid ≡ true
      → r.ref ≡ q.ref
      → r.inum ≡ q.inum
      → r.dev ≡ q.dev
      → Locked ip q (some r)

-- For an allocated inode whose fields fit their widths, ilock of a cache entry for it that is in use and not
-- yet valid gives the fields that iupdate wrote, and keeps the entry's reference count, device and number.
pub ilock-iupdate :
    (sb : Superblock) (d : Disk) (ip q : Inode)
    → Fits ip
    → ip.type ≢ 0
    → q.inum ≡ ip.inum
    → 1 ≤ q.ref
    → q.valid ≡ false
    → Locked ip q (ilock sb (iupdate sb d ip) q)
unfolding get_dinode
ilock-iupdate sb d ip q fits typed same used stale =
    let m = put_dinode (d.blocks (iblock ip.inum sb)) (dinode_at ip.inum) ip in
    let r = get_dinode m (dinode_at ip.inum) q in
    let s = get_dinode-put_dinode (d.blocks (iblock ip.inum sb)) (dinode_at ip.inum) ip q fits in
    let at : (iupdate sb d ip).blocks (iblock q.inum sb) ≡ m =
      ap (λ (i : ℕ). (iupdate sb d ip).blocks (iblock i sb)) same ∙ iupdate_block sb d ip in
    let read : get_dinode ((iupdate sb d ip).blocks (iblock q.inum sb)) (dinode_at q.inum) q ≡ r =
      ap₂ (λ (m : Mem) (i : ℕ). get_dinode m (dinode_at i) q) at same in
    let typed_r : r.type ≢ 0 = λ e. typed (sym s.type ∙ e) in
    let done = ilock_reads sb (iupdate sb d ip) q r used stale read typed_r in
    subst (Locked ip q) (sym done) (locked r s refl refl refl refl)

iupdate_block_of :
    (sb : Superblock) (d : Disk) (ip : Inode) (c : ℕ)
    → c ≡ iblock ip.inum sb
    → (iupdate sb d ip).blocks c ≡ put_dinode (d.blocks c) (dinode_at ip.inum) ip
iupdate_block_of sb d ip c e = rw e (iupdate_block sb d ip)

iupdate_elsewhere :
    (sb : Superblock) (d : Disk) (ip : Inode) (c : ℕ)
    → c ≢ iblock ip.inum sb
    → (iupdate sb d ip).blocks c ≡ d.blocks c
unfolding iupdate
iupdate_elsewhere sb d ip c ne = ground (arith, ne)

-- Writing one inode leaves every byte of another one.
pub iupdate_others :
    (sb : Superblock) (d : Disk) (ip : Inode) (j b : ℕ)
    → j ≢ ip.inum
    → b < dinode_size
    → (iupdate sb d ip).blocks (iblock j sb) (dinode_at j + b)
      ≡ d.blocks (iblock j sb) (dinode_at j + b)
iupdate_others sb d ip j b ne lt = elim (ℕ_discrete (iblock j sb) (iblock ip.inum sb)) [
  | yes e ↦
      ap (λ (m : Mem). m (dinode_at j + b)) (iupdate_block_of sb d ip (iblock j sb) e)
      ∙ put_dinode_at (d.blocks (iblock j sb)) (dinode_at ip.inum) ip (dinode_at j + b)
          (omega arith)
  | no apart ↦ ap (λ (m : Mem). m (dinode_at j + b)) (iupdate_elsewhere sb d ip (iblock j sb) apart)
]
