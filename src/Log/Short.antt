-- ===== src/Log/Short.antt =====
-- A log of LOGSIZE blocks with the header among them, as mkfs.c makes it, is too short for what begin_op admits.
use ence.Base.{
  ℕ, zero, suc, ◌+◌, ◌-◌, ◌*◌, ◌≤◌, ◌<◌, ◌≡◌, ◌≢◌, refl, sym, ◌∙◌, false, Option, none, some, List,
  [], ◌∷◌, arith, update, update_ne, length, All, ℕ_discrete,
}
use ence.Log.{Block, Store, Log, logsize, maxopblocks, begin_op, find_from, enter, log_write}

-- log_write of each block with its data, in order; `none` is a panic.
unfoldable pub write_all : Log → Store → List (ℕ × Block) → Option (Log × Store)
write_all l st [] = some (l, st)
write_all l st ((b, d) ∷ ws) = elim (log_write l st b d) [
  | none ↦ none
  | some (l', st') ↦ write_all l' st' ws
]

-- The blocks are different ones.
unfoldable pub Distinct : List (ℕ × Block) → Type 0
Distinct [] = Unit
Distinct ((b, d) ∷ ws) = All (λ w. w.0 ≢ b) ws × Distinct ws

-- The log with `k` operations in progress
abbrev pub with_ops : Log → (k : ℕ) → Log
with_ops l k = record l { outstanding = k }

Absent : Log → (b : ℕ) → Type 0
Absent l b = (j : ℕ) → j < l.n → l.block j ≢ b

find_from-absent :
    (block : ℕ → ℕ) (b i k : ℕ)
    → ((j : ℕ) → i ≤ j → j < i + k → block j ≢ b)
    → find_from block b i k ≡ i + k
unfolding find_from
find_from-absent block b i zero h = omega arith
find_from-absent block b i (suc k) h =
    let more = find_from-absent block b (i + 1) k (λ j lo hi. h j (omega arith) (omega arith)) in
    let here = h i (omega arith) (omega arith) in ground (arith, more, here)

-- a block that the transaction does not have yet
write_new :
    (l : Log) (st : Store) (b : ℕ) (d : Block)
    → 0 < l.outstanding
    → l.n < logsize
    → l.n < l.size - 1
    → Absent l b
    → log_write l st b d
      ≡ some (
        record l { block = update l.block l.n b; n = l.n + 1 },
        record st { dirty = update st.dirty b (some d) },
      )
unfolding log_write enter Absent
write_new l st b d active room room' out =
    let at = find_from-absent l.block b 0 l.n (λ j lo hi. out j (omega arith)) in ground (arith, at)

Absent-new :
    (l : Log) (b c : ℕ)
    → c ≢ b
    → Absent l c
    → Absent (record l { block = update l.block l.n b; n = l.n + 1 }) c
unfolding Absent
Absent-new l b c ne out j lt e = elim (ℕ_discrete j l.n) [
  | yes same ↦ ne (sym e ∙ ground (arith, same))
  | no ne' ↦ out j (omega arith) (sym (update_ne l.block l.n j b ne') ∙ e)
]

All-Absent-new :
    (l : Log) (b : ℕ) (ws : List (ℕ × Block))
    → All (λ w. w.0 ≢ b) ws
    → All (λ w. Absent l w.0) ws
    → All (λ w. Absent (record l { block = update l.block l.n b; n = l.n + 1 }) w.0) ws
All-Absent-new l b [] apart out = tt
All-Absent-new l b (w ∷ ws) (ne, apart) (o, out) =
    (Absent-new l b w.0 ne o, All-Absent-new l b ws apart out)

write_all-returns :
    (l : Log) (st : Store) (ws : List (ℕ × Block))
    → 0 < l.outstanding
    → l.size ≤ logsize
    → l.n + length ws + 1 ≤ l.size
    → Distinct ws
    → All (λ w. Absent l w.0) ws
    → (l' : Log) × (st' : Store) × (write_all l st ws ≡ some (l', st'))
      × (l'.n ≡ l.n + length ws)
      × (l'.size ≡ l.size)
unfolding write_all Distinct
write_all-returns l st [] active short room apart out = (l, st, refl, omega arith, refl)
write_all-returns l st ((b, d) ∷ ws) active short room (apart, distinct) (o, out) =
    let after = record l { block = update l.block l.n b; n = l.n + 1 } in
    let st1 = record st { dirty = update st.dirty b (some d) } in
    let (l', st', e, n, size) =
      write_all-returns after st1 ws active short (omega arith) distinct
        (All-Absent-new l b ws apart out) in
    let first = write_new l st b d active (omega arith) (omega arith) o in
    (l', st', rw (write_all, first) e, omega (arith, n), size)

nothing-Absent : (l : Log) (ws : List (ℕ × Block)) → l.n ≡ 0 → All (λ w. Absent l w.0) ws
unfolding Absent
nothing-Absent l [] e = tt
nothing-Absent l (w ∷ ws) e = ((λ j lt. absurd (omega (arith, e))), nothing-Absent l ws e)

-- Where an empty log of at most LOGSIZE blocks, its header included, has no operation in progress and is not
-- committing: begin_op admits three operations; log_write takes any different blocks but for one less than
-- the log has; these and one more are no more than three operations may write; and the next log_write, of
-- whatever block, panics.
pub short_log_panics :
    (l : Log) (st : Store) (ws : List (ℕ × Block)) (b : ℕ) (d : Block)
    → l.n ≡ 0
    → l.committing ≡ false
    → l.size ≤ logsize
    → length ws + 1 ≡ l.size
    → Distinct ws
    → (begin_op (with_ops l 0) ≡ some (with_ops l 1))
      × (begin_op (with_ops l 1) ≡ some (with_ops l 2))
      × (begin_op (with_ops l 2) ≡ some (with_ops l 3))
      × (length ws + 1 ≤ 3 * maxopblocks)
      × ((l' : Log) × (st' : Store) × (write_all (with_ops l 3) st ws ≡ some (l', st'))
          × (log_write l' st' b d ≡ none))
unfolding begin_op log_write
short_log_panics l st ws b d empty quiet short exact distinct =
    let (l', st', e, n, size) =
      write_all-returns (with_ops l 3) st ws (omega arith) short (omega (arith, empty, exact))
        distinct (nothing-Absent (with_ops l 3) ws empty) in
    (
      ground (arith, empty, quiet),
      ground (arith, empty, quiet),
      ground (arith, empty, quiet),
      omega (arith, exact, short),
      (l', st', e, ground (arith, n, size, exact, empty)),
    )
