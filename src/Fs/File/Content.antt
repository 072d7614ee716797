-- ===== src/Fs/File/Content.antt =====
-- The content of a file whose blocks are all there, and readi.
use ence.Base.{
  ℕ, zero, suc, ◌+◌, ◌-◌, ◌*◌, ◌/◌, ◌%◌, ◌^◌, ◌≤◌, ◌<◌, min, ◌≡◌, ◌≢◌, refl, sym, ap, ap₂, ◌∙◌,
  true, false, ◌||◌, Option, some, List, [], ◌∷◌, ◌++◌, if◌then◌else◌, ◌==◌, ltb, u32, arith,
  dec_lt,
}
use ence.Fs.{Superblock, Disk, bsize}
use ence.Fs.Inode.{Inode, ndirect, nindirect, word, bmap}
use ence.Fs.Inode.Blocks.{direct_found, indirect_found}
use ence.Fs.File.{Io, moved, t_dev, get_bytes, read_blocks, read_in, readi}

-- the block that the inode names for number `bn`
abbrev pub block_of : Disk → Inode → (bn : ℕ) → ℕ
block_of d ip bn =
    if ltb bn ndirect then ip.addrs bn else word (d.blocks (ip.addrs ndirect)) (4 * (bn - ndirect))

-- The first `k` blocks are there.
pub record Mapped (d : Disk) (ip : Inode) (k : ℕ) : Type 0 where
  pub few : k ≤ ndirect + nindirect
  pub named : (bn : ℕ) → bn < k → block_of d ip bn ≢ 0
  pub indirect : ndirect < k → ip.addrs ndirect ≢ 0

-- byte `j` of the file
abbrev pub content : Disk → Inode → (j : ℕ) → ℕ
content d ip j = d.blocks (block_of d ip (j / bsize)) (j % bsize)

-- `k` values of `f` from `j` on
unfoldable pub span : (f : ℕ → ℕ) (j k : ℕ) → List ℕ
span f j zero = []
span f j (suc k) = f j ∷ span f (j + 1) k

pub span-append : (f : ℕ → ℕ) (j m k : ℕ) → span f j m ++ span f (j + m) k ≡ span f j (m + k)
unfolding span
span-append f j zero k =
    let here : j + 0 ≡ j = omega arith in
    let same : k ≡ 0 + k = omega arith in ap₂ (span f) here same
span-append f j (suc m) k =
    let at : j + suc m ≡ j + 1 + m = omega arith in
    let total : suc (m + k) ≡ suc m + k = omega arith in
    ap (◌∷◌ (f j)) (ap (λ (x : ℕ). span f (j + 1) m ++ span f x k) at ∙ span-append f (j + 1) m k)
    ∙ ap (span f j) total

pub bmap-Mapped :
    (sb : Superblock) (d : Disk) (ip : Inode) (k bn : ℕ)
    → Mapped d ip k
    → bn < k
    → bmap sb d ip bn ≡ some (block_of d ip bn, ip, d)
bmap-Mapped sb d ip k bn m lt = elim (dec_lt bn ndirect) [
  | yes direct ↦
      let h : ltb bn ndirect ≡ true = ground arith in
      let at : ip.addrs bn ≡ block_of d ip bn = rw h refl in
      direct_found sb d ip bn (block_of d ip bn) direct at (m.named bn lt)
  | no far ↦
      let h : ltb bn ndirect ≡ false = ground arith in
      let at : word (d.blocks (ip.addrs ndirect)) (4 * (bn - ndirect)) ≡ block_of d ip bn =
        rw h refl in
      indirect_found sb d ip bn (ip.addrs ndirect) (block_of d ip bn) (omega arith)
        (omega (arith, m.few)) refl (m.indirect (omega arith)) at (m.named bn lt)
]

pub get_bytes-span :
    (d : Disk) (ip : Inode) (j m bn a : ℕ)
    → j ≡ bn * bsize + a
    → a + m ≤ bsize
    → get_bytes (d.blocks (block_of d ip bn)) a m ≡ span (content d ip) j m
unfolding get_bytes span
get_bytes-span d ip j zero bn a at le = refl
get_bytes-span d ip j (suc m) bn a at le =
    let q : j / bsize ≡ bn = omega arith in
    let r : j % bsize ≡ a = omega arith in
    ap₂ ◌∷◌ (sym (ap₂ (λ (q r : ℕ). d.blocks (block_of d ip q) r) q r))
      (get_bytes-span d ip (j + 1) m bn (a + 1) (omega arith) (omega arith))

read_step :
    (fuel : ℕ) (sb : Superblock) (d : Disk) (ip : Inode) (off left b : ℕ) (bytes : List ℕ)
    → bmap sb d ip (off / bsize) ≡ some (b, ip, d)
    → read_blocks fuel sb d ip
        (off + min (suc left) (bsize - off % bsize))
        (suc left - min (suc left) (bsize - off % bsize))
      ≡ some (bytes, ip, d)
    → read_blocks (suc fuel) sb d ip off (suc left)
      ≡ some (
        get_bytes (d.blocks b) (off % bsize) (min (suc left) (bsize - off % bsize)) ++ bytes,
        ip,
        d,
      )
unfolding read_blocks
read_step fuel sb d ip off left b bytes block more = ground (arith, block, more)

read_blocks-content :
    (fuel : ℕ) (sb : Superblock) (d : Disk) (ip : Inode) (k off left : ℕ)
    → Mapped d ip k
    → off + left ≤ k * bsize
    → left ≤ fuel
    → read_blocks fuel sb d ip off left ≡ some (span (content d ip) off left, ip, d)
unfolding read_blocks span
read_blocks-content zero sb d ip k off zero m le enough = refl
read_blocks-content zero sb d ip k off (suc left) m le enough = absurd (omega arith)
read_blocks-content (suc fuel) sb d ip k off zero m le enough = refl
read_blocks-content (suc fuel) sb d ip k off (suc left) m le enough =
    let n = min (suc left) (bsize - off % bsize) in
    let ih =
      read_blocks-content fuel sb d ip k (off + n) (suc left - n) m (omega arith) (omega arith) in
    let got = get_bytes-span d ip off n (off / bsize) (off % bsize) (omega arith) (omega arith) in
    let total : n + (suc left - n) ≡ suc left = omega arith in
    let whole : get_bytes (d.blocks (block_of d ip (off / bsize))) (off % bsize) n
          ++ span (content d ip) (off + n) (suc left - n)
        ≡ span (content d ip) off (suc left) =
      ap (λ (xs : List ℕ). xs ++ span (content d ip) (off + n) (suc left - n)) got
      ∙ span-append (content d ip) off n (suc left - n)
      ∙ ap (span (content d ip) off) total in
    read_step fuel sb d ip off left (block_of d ip (off / bsize))
      (span (content d ip) (off + n) (suc left - n))
      (bmap-Mapped sb d ip k (off / bsize) m (omega arith)) ih
    ∙ (ap (λ (xs : List ℕ). some (xs, ip, d)) whole)

read_in-content :
    (sb : Superblock) (d : Disk) (ip : Inode) (k off n : ℕ)
    → Mapped d ip k
    → off + n ≤ k * bsize
    → read_in sb d ip off n ≡ some (moved n (span (content d ip) off n) ip d)
unfolding read_in
read_in-content sb d ip k off n m le =
    rw (read_in, read_blocks-content n sb d ip k off n m le (omega arith)) refl

-- For a file that is not a device, with all blocks of its size there, readi of `n` bytes from an offset up
-- to the size returns the bytes of the content from there on, as many as there are up to `n`, and changes
-- nothing.
pub readi-content :
    (device : Option Io) (sb : Superblock) (d : Disk) (ip : Inode) (k off n : ℕ)
    → ip.type ≢ t_dev
    → Mapped d ip k
    → ip.size ≤ k * bsize
    → off ≤ ip.size
    → off + n < 2 ^ 32
    → readi device sb d ip off n
      ≡ some (moved (min n (ip.size - off)) (span (content d ip) off (min n (ip.size - off))) ip d)
unfolding readi
readi-content device sb d ip k off n file m sized inside fits =
    let h1 : (ip.type == t_dev) ≡ false = ground (arith, file) in
    let h2 : (ltb ip.size off || ltb (u32 (off + n)) off) ≡ false = ground arith in
    let count : (if ltb ip.size (off + n) then ip.size - off else n) ≡ min n (ip.size - off) =
      ground arith in
    rw (h1, h2, count) (read_in-content sb d ip k off (min n (ip.size - off)) m (omega arith))
