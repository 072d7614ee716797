-- ===== src/Files/Io/Chunks.antt =====
-- filewrite in chunks comes to one write, and fileread gives it back.
use ence.Base.{
  ℕ, zero, suc, ◌+◌, ◌-◌, ◌*◌, ◌≤◌, ◌<◌, min, ◌≡◌, ◌≢◌, ◌⊎◌, refl, sym, ap, ap₂, ◌∙◌, subst, true,
  Option, some, List, [], ◌∷◌, ◌++◌, length, take, drop, length-take, length-drop, length-append,
  take-append-drop, ◌==◌, u32, arith, ℤ, pos,
}
use ence.Fs.{Superblock, Disk, bsize}
use ence.Fs.Inode.{Inode}
use ence.Fs.File.{Io, moved, t_dev, readi, writei}
use ence.Fs.File.Content.{Mapped, content, span, readi-content}
use ence.Fs.File.Write.{
  Separate, Written, Written-trans, Mapped-blocks, Separate-blocks, Writes, writes, writei-Writes,
}
use ence.Files.{File, fd_inode}
use ence.Files.Io.{unmoved, advance, fileread, max_chunk, write_chunks, filewrite}

Writes-some :
    (d : Disk) (ip : Inode) (k off : ℕ) (src : List ℕ) (o : Option Io)
    → Writes d ip k off src o
    → (d' : Disk) × (o ≡ some (moved (length src) [] ip d')) × Written d d' ip k off src
Writes-some d ip k off src _ (writes d' w) = (d', refl, w)

-- What the loop of filewrite gives.
data Chunks (d : Disk) (ip : Inode) (k : ℕ) (ff : File) (addr : List ℕ) (i : ℕ)
    : Option (ℕ × File × Inode × Disk) → Type 0 where
  chunks :
      (d' : Disk) (ff' : File) (i' : ℕ)
      → i' ≡ i + length addr
      → ff' ≡ record ff { off = ff.off + length addr }
      → Written d d' ip k ff.off addr
      → Chunks d ip k ff addr i (some (i', ff', ip, d'))

nothing-Chunks :
    (d : Disk) (ip : Inode) (k : ℕ) (ff : File) (i : ℕ)
    → Chunks d ip k ff [] i (some (i, ff, ip, d))
nothing-Chunks d ip k ff i =
    chunks d ff i (omega arith) (ap (λ (o : ℕ). record ff { off = o }) (omega arith))
      (record { blocks = λ bn lt. refl; inside = unfold span in refl; outside = λ j lt far. refl })

-- a chunk and the rest
Chunks-trans :
    (d d' : Disk) (ip : Inode) (k : ℕ) (ff : File) (xs ys : List ℕ) (i : ℕ)
    (o : Option (ℕ × File × Inode × Disk))
    → ff.off + length xs + length ys ≤ k * bsize
    → Written d d' ip k ff.off xs
    → Chunks d' ip k (record ff { off = ff.off + length xs }) ys (i + length xs) o
    → Chunks d ip k ff (xs ++ ys) i o
Chunks-trans d d' ip k ff xs ys i _ le w (chunks d'' ff' i' at same v) =
    let total = length-append xs ys in
    chunks d'' ff' i' (omega (arith, at, total))
      (same ∙ ap (λ (o : ℕ). record ff { off = o }) (omega (arith, total)))
      (Written-trans d d' d'' ip k ff.off xs ys le w v)

write_chunks-Chunks :
    (fuel : ℕ) (device : List ℕ → Option Io) (sb : Superblock) (d : Disk) (ip : Inode) (k : ℕ)
    (ff : File) (addr : List ℕ) (i : ℕ)
    → ip.type ≢ t_dev
    → Mapped d ip k
    → Separate d ip k
    → ip.size ≤ k * bsize
    → ff.off + length addr ≤ ip.size
    → length addr ≤ fuel
    → Chunks d ip k ff addr i (write_chunks fuel device sb d ip ff addr i)
unfolding write_chunks
write_chunks-Chunks zero device sb d ip k ff [] i file m s sized inside enough =
    nothing-Chunks d ip k ff i
write_chunks-Chunks (suc fuel) device sb d ip k ff [] i file m s sized inside enough =
    nothing-Chunks d ip k ff i
write_chunks-Chunks zero device sb d ip k ff (c ∷ addr) i file m s sized inside enough =
    absurd (omega arith)
write_chunks-Chunks (suc fuel) device sb d ip k ff (c ∷ addr) i file m s sized inside enough =
    let n = min (length (c ∷ addr)) max_chunk in
    let xs = take n (c ∷ addr) in
    let ys = drop n (c ∷ addr) in
    let lx = length-take n (c ∷ addr) in
    let ly = length-drop n (c ∷ addr) in
    let (d', e, w) =
      Writes-some d ip k ff.off xs (writei (device xs) sb d ip xs ff.off)
        (writei-Writes (device xs) sb d ip k ff.off xs file m s sized (omega (arith, lx))) in
    let whole : (length xs == n) ≡ true = ground (arith, lx) in
    let ff' : File = record ff { off = ff.off + length xs } in
    let at : u32 (ff.off + length xs) ≡ ff.off + length xs = omega (arith, lx, m.few) in
    let ih : Chunks d' ip k ff' ys (i + length xs)
        (write_chunks fuel device sb d' ip ff' ys (i + length xs)) =
      write_chunks-Chunks fuel device sb d' ip k ff' ys (i + length xs) file
        (Mapped-blocks d d' ip k w.blocks m) (Separate-blocks d d' ip k w.blocks s) sized
        (omega (arith, lx, ly)) (omega (arith, lx, ly)) in
    let step : write_chunks (suc fuel) device sb d ip ff (c ∷ addr) i
        ≡ write_chunks fuel device sb d' ip (advance ff (length xs)) ys (i + length xs) =
      ground (arith, e, whole) in
    subst (Chunks d ip k ff (c ∷ addr) i)
      (sym (
        step
        ∙ ap
            (λ (o : ℕ).
              write_chunks fuel device sb d' ip (record ff { off = o }) ys (i + length xs))
            at))
      (subst
        (λ (zs : List ℕ).
          Chunks d ip k ff zs i (write_chunks fuel device sb d' ip ff' ys (i + length xs)))
        (take-append-drop n (c ∷ addr))
        (Chunks-trans d d' ip k ff xs ys i
          (write_chunks fuel device sb d' ip ff' ys (i + length xs)) (omega (arith, lx, ly, sized))
          w ih))

-- What filewrite at `ff` and then fileread at `gg` come to.
pub record Copies (pipe : List ℕ → ℤ) (pipe' : ℕ → ℤ × List ℕ) (device : List ℕ → Option Io)
    (device' : Option Io) (sb : Superblock) (d : Disk) (ip : Inode) (k : ℕ) (ff gg : File)
    (addr : List ℕ) : Type 0 where
  pub disk : Disk
  pub wrote :
      filewrite pipe device sb d ip ff addr
      ≡ some (unmoved (advance ff (length addr)) ip disk (pos (length addr)) [])
  pub read :
      fileread pipe' device' sb disk ip gg (length addr)
      ≡ some (unmoved (advance gg (length addr)) ip disk (pos (length addr)) addr)
  pub others :
      (j : ℕ)
      → j < ip.size
      → (j < ff.off) ⊎ (ff.off + length addr ≤ j)
      → content disk ip j ≡ content d ip j

Chunks-some :
    (d : Disk) (ip : Inode) (k : ℕ) (ff : File) (addr : List ℕ)
    (o : Option (ℕ × File × Inode × Disk))
    → u32 (ff.off + length addr) ≡ ff.off + length addr
    → Chunks d ip k ff addr 0 o
    → (d' : Disk) × (o ≡ some (length addr, advance ff (length addr), ip, d'))
      × Written d d' ip k ff.off addr
Chunks-some d ip k ff addr _ fits (chunks d' ff' i' at same w) = (
  d',
  let moves : ff' ≡ advance ff (length addr) =
        same ∙ ap (λ (o : ℕ). record ff { off = o }) (sym fits) in
      ap₂ (λ (i : ℕ) (g : File). some (i, g, ip, d')) (omega (arith, at)) moves,
  w,
)

wrote_lem :
    (pipe : List ℕ → ℤ) (device : List ℕ → Option Io) (sb : Superblock) (d d' : Disk) (ip : Inode)
    (ff : File) (addr : List ℕ)
    → ff.writable ≡ true
    → ff.type ≡ fd_inode
    → write_chunks (length addr) device sb d ip ff addr 0
      ≡ some (length addr, advance ff (length addr), ip, d')
    → filewrite pipe device sb d ip ff addr
      ≡ some (unmoved (advance ff (length addr)) ip d' (pos (length addr)) [])
unfolding filewrite
wrote_lem pipe device sb d d' ip ff addr w i e =
    let same : (length addr == length addr) ≡ true = ground arith in ground (arith, w, i, e, same)

read_lem :
    (pipe : ℕ → ℤ × List ℕ) (device : Option Io) (sb : Superblock) (d : Disk) (ip : Inode)
    (ff : File) (n : ℕ) (bytes : List ℕ)
    → ff.readable ≡ true
    → ff.type ≡ fd_inode
    → readi device sb d ip ff.off n ≡ some (moved n bytes ip d)
    → fileread pipe device sb d ip ff n ≡ some (unmoved (advance ff n) ip d (pos n) bytes)
unfolding fileread
read_lem pipe device sb d ip ff n bytes r i e = ground (arith, r, i, e)

-- Of a file that is not a device, whose blocks are all there and are all different: filewrite of bytes
-- within its size, through an open file for writing, returns their number and moves the offset behind them;
-- fileread of as many bytes through an open file for reading at the old offset gives back those bytes; and
-- the other bytes of the file are as before.
pub filewrite-Copies :
    (pipe : List ℕ → ℤ) (pipe' : ℕ → ℤ × List ℕ) (device : List ℕ → Option Io) (device' : Option Io)
    (sb : Superblock) (d : Disk) (ip : Inode) (k : ℕ) (ff gg : File) (addr : List ℕ)
    → ff.writable ≡ true
    → ff.type ≡ fd_inode
    → gg.readable ≡ true
    → gg.type ≡ fd_inode
    → gg.off ≡ ff.off
    → ip.type ≢ t_dev
    → Mapped d ip k
    → Separate d ip k
    → ip.size ≤ k * bsize
    → ff.off + length addr ≤ ip.size
    → Copies pipe pipe' device device' sb d ip k ff gg addr
filewrite-Copies pipe pipe' device device' sb d ip k ff gg addr may_write inode_w may_read inode_r
      at file m s sized inside =
    let (d', e, w) =
      Chunks-some d ip k ff addr (write_chunks (length addr) device sb d ip ff addr 0)
        (omega (arith, m.few))
        (write_chunks-Chunks (length addr) device sb d ip k ff addr 0 file m s sized inside
          (omega arith)) in
    let count : min (length addr) (ip.size - gg.off) ≡ length addr = omega (arith, at) in
    let got : readi device' sb d' ip gg.off (length addr) ≡ some (moved (length addr) addr ip d') =
      readi-content device' sb d' ip k gg.off (length addr) file
        (Mapped-blocks d d' ip k w.blocks m) sized (omega (arith, at)) (omega (arith, at, m.few))
      ∙ ap (λ (n : ℕ). some (moved n (span (content d' ip) gg.off n) ip d')) count
      ∙ ap (λ (o : ℕ). some (moved (length addr) (span (content d' ip) o (length addr)) ip d')) at
      ∙ ap (λ (cs : List ℕ). some (moved (length addr) cs ip d')) w.inside in
    record {
      disk = d';
      wrote = wrote_lem pipe device sb d d' ip ff addr may_write inode_w e;
      read = read_lem pipe' device' sb d' ip gg (length addr) addr may_read inode_r got;
      others = λ j lt far. w.outside j (omega (arith, lt, sized)) far;
    }
