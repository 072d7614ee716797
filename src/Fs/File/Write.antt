-- ===== src/Fs/File/Write.antt =====
-- writei within a file whose blocks are all there.
use ence.Base.{
  ℕ, zero, suc, ◌+◌, ◌-◌, ◌*◌, ◌/◌, ◌%◌, ◌≤◌, ◌<◌, min, ◌≡◌, ◌≢◌, ◌⊎◌, inl, refl, sym, ap, ap₂, ◌∙◌,
  subst, true, false, not, ◌&&◌, ◌||◌, Option, none, some, List, [], ◌∷◌, ◌++◌, length, take, drop,
  length-take, length-drop, length-append, take-append-drop, update, update_self, update_ne, ◌==◌,
  ltb, u32, arith, ℕ_discrete, dec_lt,
}
use ence.Strings.{Mem}
use ence.Fs.{Superblock, Disk, bsize, log_write}
use ence.Fs.Inode.{Inode, ndirect, word, bmap}
use ence.Fs.File.{
  Io, moved, t_dev, maxfile, get_bytes, put_bytes, write_blocks, grow, readi, writei,
}
use ence.Fs.File.Content.{
  block_of, Mapped, content, span, span-append, bmap-Mapped, get_bytes-span, readi-content,
}

put_bytes_other :
    (block : Mem) (a : ℕ) (src : List ℕ) (j : ℕ)
    → (j < a) ⊎ (a + length src ≤ j)
    → put_bytes block a src j ≡ block j
unfolding put_bytes
put_bytes_other block a [] j far = refl
put_bytes_other block a (c ∷ src) j far =
    put_bytes_other (update block a c) (a + 1) src j (omega arith)
    ∙ update_ne block a j c (omega arith)

get_bytes-put_bytes :
    (block : Mem) (a : ℕ) (src : List ℕ) → get_bytes (put_bytes block a src) a (length src) ≡ src
unfolding get_bytes put_bytes
get_bytes-put_bytes block a [] = refl
get_bytes-put_bytes block a (c ∷ src) =
    ap₂ ◌∷◌ (put_bytes_other (update block a c) (a + 1) src a (omega arith) ∙ update_self block a c)
      (get_bytes-put_bytes (update block a c) (a + 1) src)

pub span-ext :
    (f g : ℕ → ℕ) (j k : ℕ) → ((x : ℕ) → j ≤ x → x < j + k → f x ≡ g x) → span f j k ≡ span g j k
unfolding span
span-ext f g j zero h = refl
span-ext f g j (suc k) h =
    ap₂ ◌∷◌ (h j (omega arith) (omega arith))
      (span-ext f g (j + 1) k (λ x lo hi. h x (omega arith) (omega arith)))

-- No two of the first `k` blocks are the same, and none is the indirect block.
pub record Separate (d : Disk) (ip : Inode) (k : ℕ) : Type 0 where
  pub apart : (x y : ℕ) → x < k → y < k → block_of d ip x ≡ block_of d ip y → x ≡ y
  pub indirect : (x : ℕ) → x < k → ndirect < k → block_of d ip x ≢ ip.addrs ndirect

-- `src` was written at `off`.
pub record Written (d d' : Disk) (ip : Inode) (k off : ℕ) (src : List ℕ) : Type 0 where
  pub blocks : (bn : ℕ) → bn < k → block_of d' ip bn ≡ block_of d ip bn
  pub inside : span (content d' ip) off (length src) ≡ src
  pub outside :
      (j : ℕ)
      → j < k * bsize
      → (j < off) ⊎ (off + length src ≤ j)
      → content d' ip j ≡ content d ip j

pub Mapped-blocks :
    (d d' : Disk) (ip : Inode) (k : ℕ)
    → ((bn : ℕ) → bn < k → block_of d' ip bn ≡ block_of d ip bn)
    → Mapped d ip k
    → Mapped d' ip k
Mapped-blocks d d' ip k same m = record {
  few = m.few;
  named = λ bn lt e. m.named bn lt (sym (same bn lt) ∙ e);
  indirect = m.indirect;
}

pub Separate-blocks :
    (d d' : Disk) (ip : Inode) (k : ℕ)
    → ((bn : ℕ) → bn < k → block_of d' ip bn ≡ block_of d ip bn)
    → Separate d ip k
    → Separate d' ip k
Separate-blocks d d' ip k same s = record {
  apart = λ x y ltx lty e. s.apart x y ltx lty (sym (same x ltx) ∙ e ∙ same y lty);
  indirect = λ x lt deep e. s.indirect x lt deep (sym (same x lt) ∙ e);
}

module _ (d : Disk) (ip : Inode) (k bn a : ℕ) (src : List ℕ) (s : Separate d ip k) (lt : bn < k)
    (le : a + length src ≤ bsize) where
  -- the disk after one block was written
  abbrev after : Disk
  after = log_write d (block_of d ip bn) (put_bytes (d.blocks (block_of d ip bn)) a src)

  after_blocks : (x : ℕ) → x < k → block_of after ip x ≡ block_of d ip x
  after_blocks x ltx = elim (dec_lt x ndirect) [
    | yes direct ↦ let h : ltb x ndirect ≡ true = ground arith in rw h refl
    | no far ↦
        let h : ltb x ndirect ≡ false = ground arith in
        let same =
          update_ne d.blocks (block_of d ip bn) (ip.addrs ndirect)
            (put_bytes (d.blocks (block_of d ip bn)) a src)
            (λ e. s.indirect bn lt (omega arith) (sym e)) in
        rw h (ap (λ (m : Mem). word m (4 * (x - ndirect))) same)
  ]

  after_data : after.blocks (block_of after ip bn) ≡ put_bytes (d.blocks (block_of d ip bn)) a src
  after_data =
      ap after.blocks (after_blocks bn lt)
      ∙ update_self d.blocks (block_of d ip bn) (put_bytes (d.blocks (block_of d ip bn)) a src)

  after_other :
      (j : ℕ)
      → j / bsize < k
      → (j < bn * bsize + a) ⊎ (bn * bsize + a + length src ≤ j)
      → content after ip j ≡ content d ip j
  after_other j ltj far = elim (ℕ_discrete (j / bsize) bn) [
    | yes e ↦
        ap (λ (x : ℕ). after.blocks (block_of after ip x) (j % bsize)) e
        ∙ ap (λ (m : Mem). m (j % bsize)) after_data
        ∙ put_bytes_other (d.blocks (block_of d ip bn)) a src (j % bsize) (omega arith)
        ∙ ap (λ (x : ℕ). d.blocks (block_of d ip x) (j % bsize)) (sym e)
    | no ne ↦
        ap (λ (b : ℕ). after.blocks b (j % bsize)) (after_blocks (j / bsize) ltj)
        ∙ ap (λ (m : Mem). m (j % bsize))
            (update_ne d.blocks (block_of d ip bn) (block_of d ip (j / bsize))
              (put_bytes (d.blocks (block_of d ip bn)) a src)
              (λ e. ne (s.apart (j / bsize) bn ltj lt e)))
  ]

  after-Written : Written d after ip k (bn * bsize + a) src
  after-Written = record {
    blocks = after_blocks;
    inside =
        sym (get_bytes-span after ip (bn * bsize + a) (length src) bn a refl le)
        ∙ ap (λ (m : Mem). get_bytes m a (length src)) after_data
        ∙ get_bytes-put_bytes (d.blocks (block_of d ip bn)) a src;
    outside = λ j lt far. after_other j (omega arith) far;
  }

-- two writes, one behind the other
pub Written-trans :
    (d d' d'' : Disk) (ip : Inode) (k off : ℕ) (xs ys : List ℕ)
    → off + length xs + length ys ≤ k * bsize
    → Written d d' ip k off xs
    → Written d' d'' ip k (off + length xs) ys
    → Written d d'' ip k off (xs ++ ys)
Written-trans d d' d'' ip k off xs ys le w v =
    let total = length-append xs ys in
    record {
      blocks = λ bn lt. v.blocks bn lt ∙ w.blocks bn lt;
      inside =
          ap (span (content d'' ip) off) total
          ∙ sym (span-append (content d'' ip) off (length xs) (length ys))
          ∙ ap₂ ◌++◌
              (span-ext (content d'' ip) (content d' ip) off (length xs)
                  (λ x lo hi. v.outside x (omega arith) (inl hi))
                ∙ w.inside)
              v.inside;
      outside =
          λ j lt far. v.outside j lt (omega (arith, total)) ∙ w.outside j lt (omega (arith, total));
    }

-- What the loop of writei gives.
data Ends (d : Disk) (ip : Inode) (k off : ℕ) (src : List ℕ)
    : Option (Inode × Disk × ℕ) → Type 0 where
  ends :
      (d' : Disk)
      → Written d d' ip k off src
      → Ends d ip k off src (some (ip, d', off + length src))

write_step :
    (fuel : ℕ) (sb : Superblock) (d : Disk) (ip : Inode) (off b : ℕ) (c : ℕ) (src : List ℕ)
    → bmap sb d ip (off / bsize) ≡ some (b, ip, d)
    → write_blocks (suc fuel) sb d ip off (c ∷ src)
      ≡ write_blocks fuel sb
          (log_write d b (
            put_bytes
              (d.blocks b)
              (off % bsize)
              (take (min (length (c ∷ src)) (bsize - off % bsize)) (c ∷ src))))
          ip
          (off + min (length (c ∷ src)) (bsize - off % bsize))
          (drop (min (length (c ∷ src)) (bsize - off % bsize)) (c ∷ src))
unfolding write_blocks
write_step fuel sb d ip off b c src block = ground (arith, block)

-- a write and the rest
Ends-trans :
    (d d' : Disk) (ip : Inode) (k off : ℕ) (xs ys : List ℕ) (o : Option (Inode × Disk × ℕ))
    → off + length xs + length ys ≤ k * bsize
    → Written d d' ip k off xs
    → Ends d' ip k (off + length xs) ys o
    → Ends d ip k off (xs ++ ys) o
Ends-trans d d' ip k off xs ys _ le w (ends d'' v) =
    let at : off + length (xs ++ ys) ≡ off + length xs + length ys =
      omega (arith, length-append xs ys) in
    subst (λ (end : ℕ). Ends d ip k off (xs ++ ys) (some (ip, d'', end))) at
      (ends d'' (Written-trans d d' d'' ip k off xs ys le w v))

nothing-Ends :
    (d : Disk) (ip : Inode) (k off : ℕ) (o : Option (Inode × Disk × ℕ))
    → o ≡ some (ip, d, off)
    → Ends d ip k off [] o
nothing-Ends d ip k off o e =
    let at : off + 0 ≡ off = omega arith in
    subst (Ends d ip k off []) (ap (λ (x : ℕ). some (ip, d, x)) at ∙ sym e) (
      ends d (record {
        blocks = λ bn lt. refl;
        inside = (unfold span in refl);
        outside = λ j lt far. refl;
      }))

write_blocks-Ends :
    (fuel : ℕ) (sb : Superblock) (d : Disk) (ip : Inode) (k off : ℕ) (src : List ℕ)
    → Mapped d ip k
    → Separate d ip k
    → off + length src ≤ k * bsize
    → length src ≤ fuel
    → Ends d ip k off src (write_blocks fuel sb d ip off src)
write_blocks-Ends zero sb d ip k off [] m s le enough =
    nothing-Ends d ip k off _ (unfold write_blocks in refl)
write_blocks-Ends (suc fuel) sb d ip k off [] m s le enough =
    nothing-Ends d ip k off _ (unfold write_blocks in refl)
write_blocks-Ends zero sb d ip k off (c ∷ src) m s le enough = absurd (omega arith)
write_blocks-Ends (suc fuel) sb d ip k off (c ∷ src) m s le enough =
    let n = min (length (c ∷ src)) (bsize - off % bsize) in
    let bn = off / bsize in
    let a = off % bsize in
    let xs = take n (c ∷ src) in
    let ys = drop n (c ∷ src) in
    let lx = length-take n (c ∷ src) in
    let ly = length-drop n (c ∷ src) in
    let d' = after d ip k bn a xs s (omega arith) (omega (arith, lx)) in
    let w = after-Written d ip k bn a xs s (omega arith) (omega (arith, lx)) in
    let ih =
      write_blocks-Ends fuel sb d' ip k (off + length xs) ys (Mapped-blocks d d' ip k w.blocks m)
        (Separate-blocks d d' ip k w.blocks s) (omega (arith, lx, ly)) (omega (arith, lx, ly)) in
    let there : bn * bsize + a ≡ off = omega arith in
    let reached : off + length xs ≡ off + n = omega (arith, lx) in
    let rest = write_blocks fuel sb d' ip (off + length xs) ys in
    let step : write_blocks (suc fuel) sb d ip off (c ∷ src) ≡ rest =
      write_step fuel sb d ip off (block_of d ip bn) c src
        (bmap-Mapped sb d ip k bn m (omega arith))
      ∙ ap (λ (x : ℕ). write_blocks fuel sb d' ip x ys) (sym reached) in
    subst (Ends d ip k off (c ∷ src)) (sym step) (
      subst (λ (zs : List ℕ). Ends d ip k off zs rest) (take-append-drop n (c ∷ src))
        (Ends-trans d d' ip k off xs ys rest (omega (arith, lx, ly))
          (subst (λ (o : ℕ). Written d d' ip k o xs) there w) ih))

-- What writei of `src` at `off`, within the file, gives: readi gives it back, and the other bytes are as before.
pub data Overwrites (device : Option Io) (sb : Superblock) (d : Disk) (ip : Inode) (k off : ℕ)
    (src : List ℕ) : Option Io → Type 0 where
  overwritten :
      (d' : Disk)
      → readi device sb d' ip off (length src) ≡ some (moved (length src) src ip d')
      → ((j : ℕ)
          → j < k * bsize
          → (j < off) ⊎ (off + length src ≤ j)
          → content d' ip j ≡ content d ip j)
      → Overwrites device sb d ip k off src (some (moved (length src) [] ip d'))

module _ (device : Option Io) (sb : Superblock) (d : Disk) (ip : Inode) (k off : ℕ) (src : List ℕ)
    (file : ip.type ≢ t_dev) (m : Mapped d ip k) (s : Separate d ip k) (sized : ip.size ≤ k * bsize)
    (inside : off + length src ≤ ip.size) where
  grow_stays :
      (d' : Disk) → grow sb (length src) (ip, d', off + length src) ≡ moved (length src) [] ip d'
  unfolding grow
  grow_stays d' =
      let h : (not (length src == 0) && ltb ip.size (off + length src)) ≡ false = ground arith in
      rw h refl

  Ends-Overwrites :
      (o : Option (Inode × Disk × ℕ))
      → Ends d ip k off src o
      → Overwrites device sb d ip k off src
          (elim o [ none ↦ none | some end ↦ some (grow sb (length src) end) ])
  Ends-Overwrites _ (ends d' w) =
      let count : min (length src) (ip.size - off) ≡ length src = omega arith in
      let back =
        readi-content device sb d' ip k off (length src) file (Mapped-blocks d d' ip k w.blocks m)
          sized (omega arith) (omega (arith, m.few))
        ∙ ap (λ (n : ℕ). some (moved n (span (content d' ip) off n) ip d')) count
        ∙ ap (λ (cs : List ℕ). some (moved (length src) cs ip d')) w.inside in
      subst (λ (io : Io). Overwrites device sb d ip k off src (some io)) (sym (grow_stays d'))
        (overwritten d' back w.outside)

-- For a file that is not a device, whose blocks are all there and are all different, writei of bytes within
-- its size leaves a disk from which readi at the same place gives exactly those bytes, and keeps every other
-- byte of the file.
pub writei-Overwrites :
    (device : Option Io) (sb : Superblock) (d : Disk) (ip : Inode) (k off : ℕ) (src : List ℕ)
    → ip.type ≢ t_dev
    → Mapped d ip k
    → Separate d ip k
    → ip.size ≤ k * bsize
    → off + length src ≤ ip.size
    → Overwrites device sb d ip k off src (writei device sb d ip src off)
unfolding writei
writei-Overwrites device sb d ip k off src file m s sized inside =
    let h1 : (ip.type == t_dev) ≡ false = ground (arith, file) in
    let h2 : (ltb ip.size off
          || ltb (u32 (off + length src)) off
          || ltb (maxfile * bsize) (off + length src))
        ≡ false =
      ground (arith, m.few) in
    let done =
      Ends-Overwrites device sb d ip k off src file m s sized inside
        (write_blocks (length src) sb d ip off src)
        (write_blocks-Ends (length src) sb d ip k off src m s (omega arith) (omega arith)) in
    rw (h1, h2) done

-- What writei within the file gives, by the blocks.
pub data Writes (d : Disk) (ip : Inode) (k off : ℕ) (src : List ℕ) : Option Io → Type 0 where
  writes :
      (d' : Disk)
      → Written d d' ip k off src
      → Writes d ip k off src (some (moved (length src) [] ip d'))

Ends-Writes :
    (device : Option Io) (sb : Superblock) (d : Disk) (ip : Inode) (k off : ℕ) (src : List ℕ)
    (o : Option (Inode × Disk × ℕ))
    → ip.type ≢ t_dev
    → Mapped d ip k
    → Separate d ip k
    → ip.size ≤ k * bsize
    → off + length src ≤ ip.size
    → Ends d ip k off src o
    → Writes d ip k off src (elim o [ none ↦ none | some end ↦ some (grow sb (length src) end) ])
Ends-Writes device sb d ip k off src _ file m s sized inside (ends d' w) =
    subst (λ (io : Io). Writes d ip k off src (some io))
      (sym (grow_stays device sb d ip k off src file m s sized inside d')) (writes d' w)

pub writei-Writes :
    (device : Option Io) (sb : Superblock) (d : Disk) (ip : Inode) (k off : ℕ) (src : List ℕ)
    → ip.type ≢ t_dev
    → Mapped d ip k
    → Separate d ip k
    → ip.size ≤ k * bsize
    → off + length src ≤ ip.size
    → Writes d ip k off src (writei device sb d ip src off)
unfolding writei
writei-Writes device sb d ip k off src file m s sized inside =
    let h1 : (ip.type == t_dev) ≡ false = ground (arith, file) in
    let h2 : (ltb ip.size off
          || ltb (u32 (off + length src)) off
          || ltb (maxfile * bsize) (off + length src))
        ≡ false =
      ground (arith, m.few) in
    let done =
      Ends-Writes device sb d ip k off src (write_blocks (length src) sb d ip off src) file m s
        sized inside
        (write_blocks-Ends (length src) sb d ip k off src m s (omega arith) (omega arith)) in
    rw (h1, h2) done
