-- ===== src/Log.antt =====
-- lab10xv6/xv6/log.c: the write-ahead log. The buffer cache appears by what bread and bwrite do:
-- bread gives a dirty buffer's data and else the disk's block, and bwrite writes the disk and leaves
-- the buffer clean. A crash is a bound on the disk writes that still take effect.
pub mod Blocks
pub mod Commit
pub mod Crash
pub mod Space
pub mod Short
mod Tests
use ence.Base.{
  ℕ, zero, suc, ◌+◌, ◌-◌, ◌*◌, Bool, true, false, ◌&&◌, ◌||◌, Option, none, some, ltb, leb, ◌==◌,
  update, if◌then◌else◌,
}

-- The words of 4 bytes that a block holds.
abbrev pub Block : Type 0
Block = ℕ → ℕ

pub record Store : Type 0 where
  pub disk : ℕ → Block
  pub dirty : ℕ → Option Block  -- buffers with B_DIRTY
  pub power : ℕ  -- disk writes that still take effect before the power is lost

-- struct log, with the fields of its logheader
pub record Log : Type 0 where
  pub start : ℕ
  pub size : ℕ
  pub outstanding : ℕ
  pub committing : Bool
  pub n : ℕ
  pub block : ℕ → ℕ

-- LOGSIZE and MAXOPBLOCKS
abbrev pub logsize : ℕ
logsize = 30

abbrev pub maxopblocks : ℕ
maxopblocks = 10

abbrev pub data_of : Option Block → Block → Block
data_of none d = d
data_of (some d) _ = d

-- the data of the buffer that bread returns
abbrev pub bread : Store → ℕ → Block
bread s b = data_of (s.dirty b) (s.disk b)

unfoldable pub bwrite : Store → ℕ → Block → Store
bwrite s b d = record s {
  disk = if s.power == 0 then s.disk else update s.disk b d;
  dirty = update s.dirty b none;
  power = s.power - 1;
}

-- for (; i < i + k; i++) to[t + i] = from[f + i]
unfoldable pub copy_words : (t f : ℕ) → (from to : Block) → (i k : ℕ) → Block
copy_words t f from to i zero = to
copy_words t f from to i (suc k) = copy_words t f from (update to (t + i) (from (f + i))) (i + 1) k

-- the loop of install_trans, from `tail` on, for `k` rounds
unfoldable pub install_from : Log → Store → (tail k : ℕ) → Store
install_from l s tail zero = s
install_from l s tail (suc k) =
    install_from l (bwrite s (l.block tail) (bread s (l.start + tail + 1))) (tail + 1) k

pub install_trans : Log → Store → Store
install_trans l s = install_from l s 0 l.n

pub read_head : Log → Store → Log
read_head l s =
    let lh = bread s l.start in record l { n = lh 0; block = copy_words 0 1 lh l.block 0 (lh 0) }

pub write_head : Log → Store → Store
write_head l s = bwrite s l.start (copy_words 1 0 l.block (update (bread s l.start) 0 l.n) 0 l.n)

pub recover_from_log : Log → Store → Log × Store
recover_from_log l s =
    let l1 = read_head l s in
    let l2 = record l1 { n = 0 } in (l2, write_head l2 (install_trans l1 s))

-- the loop of write_log, from `tail` on, for `k` rounds
unfoldable pub write_log_from : Log → Store → (tail k : ℕ) → Store
write_log_from l s tail zero = s
write_log_from l s tail (suc k) =
    write_log_from l (bwrite s (l.start + tail + 1) (bread s (l.block tail))) (tail + 1) k

pub write_log : Log → Store → Store
write_log l s = write_log_from l s 0 l.n

pub commit : Log → Store → Log × Store
commit l s =
    let s2 = write_head l (write_log l s) in
    let l' = record l { n = 0 } in
    if ltb 0 l.n then (l', write_head l' (install_trans l s2)) else (l, s)

-- One test of the loop of begin_op: `none` is a sleep on the log.
pub begin_op : Log → Option Log
begin_op l =
    if l.committing
    then none
    else (if ltb logsize (l.n + (l.outstanding + 1) * maxopblocks)
        then none
        else some (record l { outstanding = l.outstanding + 1 }))

-- What end_op decides under the lock: `none` is the panic. The Boolean is do_commit.
pub end_op : Log → Option (Bool × Log)
end_op l =
    let l' = record l { outstanding = l.outstanding - 1 } in
    if l.committing
    then none
    else (if l'.outstanding == 0
        then some (true, record l' { committing = true })
        else some (false, l'))

-- The rest of end_op where do_commit is set.
pub end_commit : Log → Store → Log × Store
end_commit l s = let (l', s') = commit l s in (record l' { committing = false }, s')

-- the search loop of log_write: the first index from `i` on with the block, or the end
unfoldable pub find_from : (ℕ → ℕ) → ℕ → (i k : ℕ) → ℕ
find_from block b i zero = i
find_from block b i (suc k) =
    let rest = find_from block b (i + 1) k in if block i == b then i else rest

-- the entry that log_write makes for block `b`: log absorption, or one block more
pub enter : Log → ℕ → Log
enter l b =
    let i = find_from l.block b 0 l.n in
    record l { block = update l.block i b; n = if i == l.n then l.n + 1 else l.n }

-- log_write of the buffer for block `b` with the data `d`; `none` is a panic.
pub log_write : Log → Store → ℕ → Block → Option (Log × Store)
log_write l s b d =
    if leb logsize l.n || leb (l.size - 1) l.n
    then none
    else (if ltb l.outstanding 1
        then none
        else some (enter l b, record s { dirty = update s.dirty b (some d) }))
