-- ===== src/Cache.antt =====
-- lab10xv6/xv6/bio.c over the disk of lab10xv6/xv6/memide.c. A buffer is named by its index in
-- bcache.buf, and the ring of prev and next by the list of the buffers from head.next on. What holds
-- bcache.lock throughout is one function; the sleep locks on buffers are left out.
pub mod Lookup
pub mod Once
pub mod Read
mod Tests
use ence.Base.{
  ℕ, zero, suc, ◌+◌, ◌-◌, Bool, true, false, not, ◌&&◌, ◌||◌, Option, none, some, List, [], ◌∷◌,
  ◌++◌, ltb, ◌==◌, update, if◌then◌else◌,
}
use ence.Log.{Block}
use mathlib.Core.List.{reverse}

-- struct buf; what counts its users stays far below 2 ^ 32.
pub record Buf : Type 0 where
  pub dev : ℕ
  pub blockno : ℕ
  pub refcnt : ℕ
  pub valid : Bool  -- B_VALID
  pub dirty : Bool  -- B_DIRTY
  pub bytes : Block

-- bcache and the disk
pub record Cache : Type 0 where
  pub bufs : ℕ → Buf
  pub order : List ℕ  -- head.next first
  pub disk : ℕ → Block
  pub disksize : ℕ

-- NBUF
abbrev pub nbuf : ℕ
nbuf = 30

-- the loop of binit, which puts each buffer to the front
abbrev pub link_from : (i k : ℕ) → List ℕ → List ℕ
link_from i zero order = order
link_from i (suc k) order = link_from (i + 1) k (i ∷ order)

pub binit : (contents disk : ℕ → Block) (disksize : ℕ) → Cache
binit contents disk disksize = record {
  bufs = λ i. record {
    dev = 0;
    blockno = 0;
    refcnt = 0;
    valid = false;
    dirty = false;
    bytes = contents i;
  };
  order = link_from 0 nbuf [];
  disk = disk;
  disksize = disksize;
}

-- the first buffer along a list that passes the test
abbrev pub search : (Buf → Bool) → (ℕ → Buf) → List ℕ → Option ℕ
search test bufs [] = none
search test bufs (i ∷ order) =
    let rest = search test bufs order in if test (bufs i) then some i else rest

abbrev pub holds : (dev blockno : ℕ) → Buf → Bool
holds dev blockno b = (b.dev == dev) && (b.blockno == blockno)

abbrev pub idle : Buf → Bool
idle b = (b.refcnt == 0) && not b.dirty

abbrev pub set_buf : Cache → ℕ → Buf → Cache
set_buf c i b = record c { bufs = update c.bufs i b }

-- what bget does with the buffer that caches the block, and with the one to recycle; `none` is the
-- panic.
pub bget_in : Cache → (dev blockno : ℕ) → (cached free : Option ℕ) → Option (ℕ × Cache)
bget_in c dev blockno (some i) free =
    some (i, set_buf c i (record (c.bufs i) { refcnt = (c.bufs i).refcnt + 1 }))
bget_in c dev blockno none (some i) = some (
  i,
  set_buf c i (record (c.bufs i) {
    dev = dev;
    blockno = blockno;
    valid = false;
    dirty = false;
    refcnt = 1;
  }),
)
bget_in c dev blockno none none = none

pub bget : Cache → (dev blockno : ℕ) → Option (ℕ × Cache)
bget c dev blockno =
    bget_in c dev blockno (search (holds dev blockno) c.bufs c.order)
      (search idle c.bufs (reverse c.order))

-- iderw of memide.c for a buffer that the caller has locked; `none` is a panic.
pub iderw : Cache → ℕ → Option Cache
iderw c i =
    let b = c.bufs i in
    if (b.valid && not b.dirty) || not (b.dev == 1) || not (ltb b.blockno c.disksize)
    then none
    else some (
        if b.dirty
        then record c {
          bufs = update c.bufs i (record b { dirty = false; valid = true });
          disk = update c.disk b.blockno b.bytes;
        }
        else set_buf c i (record b { bytes = c.disk b.blockno; valid = true }))

abbrev pub with_buf : ℕ → Option Cache → Option (ℕ × Cache)
with_buf i none = none
with_buf i (some c) = some (i, c)

-- bread after bget
pub fill : Option (ℕ × Cache) → Option (ℕ × Cache)
fill none = none
fill (some (i, c)) = if (c.bufs i).valid then some (i, c) else with_buf i (iderw c i)

pub bread : Cache → (dev blockno : ℕ) → Option (ℕ × Cache)
bread c dev blockno = fill (bget c dev blockno)

-- bwrite of a locked buffer
pub bwrite : Cache → ℕ → Option Cache
bwrite c i = iderw (set_buf c i (record (c.bufs i) { dirty = true })) i

abbrev pub remove : ℕ → List ℕ → List ℕ
remove i [] = []
remove i (j ∷ js) = let rest = remove i js in if j == i then js else j ∷ rest

-- brelse of a locked buffer, whose refcnt is not 0
pub brelse : Cache → ℕ → Cache
brelse c i =
    let b = record (c.bufs i) { refcnt = (c.bufs i).refcnt - 1 } in
    let c' = set_buf c i b in
    if b.refcnt == 0 then record c' { order = i ∷ remove i c.order } else c'
