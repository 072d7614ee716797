-- ===== src/Log/Space.antt =====
-- begin_op, log_write and end_op as concurrent file system calls make them, one at a time under the
-- lock of the log. A call that sleeps in begin_op tries again later. The model counts down from MAXOPBLOCKS
-- the blocks that each operation adds to the transaction.
use ence.Base.{
  ℕ, zero, suc, ◌+◌, ◌-◌, ◌*◌, ◌≤◌, ◌<◌, ◌≡◌, refl, ◌∙◌, Bool, true, false, Option, none, some,
  List, [], ◌∷◌, arith, ltb, update, length, Bool-cases, inl, inr, All,
}
use ence.Log.{
  Block, Store, Log, logsize, maxopblocks, begin_op, end_op, end_commit, enter, log_write, commit,
}

pub record Fs : Type 0 where
  pub log : Log
  pub store : Store
  pub budgets : List ℕ  -- what each operation in progress may still add
  pub panicked : Bool

pub data Action : Type 0 where
  begin : Action
  write : (op b : ℕ) (d : Block) → Action
  end : (op : ℕ) → Action
  finish : Action

abbrev pub total : List ℕ → ℕ
total [] = 0
total (m ∷ ms) = m + total ms

abbrev pub remove : List ℕ → ℕ → List ℕ
remove [] i = []
remove (m ∷ ms) zero = ms
remove (m ∷ ms) (suc i) = m ∷ remove ms i

abbrev pub spend : List ℕ → ℕ → ℕ → List ℕ
spend [] i k = []
spend (m ∷ ms) zero k = (m - k) ∷ ms
spend (m ∷ ms) (suc i) k = m ∷ spend ms i k

abbrev pub budget : List ℕ → ℕ → ℕ
budget [] i = 0
budget (m ∷ ms) zero = m
budget (m ∷ ms) (suc i) = budget ms i

-- A sleep changes nothing.
unfoldable pub begun : Fs → Option Log → Fs
begun s none = s
begun s (some l) = record s { log = l; budgets = maxopblocks ∷ s.budgets }

unfoldable pub wrote : Fs → ℕ → Option (Log × Store) → Fs
wrote s op none = record s { panicked = true }
wrote s op (some (l, st)) = record s {
  log = l;
  store = st;
  budgets = spend s.budgets op (l.n - s.log.n);
}

unfoldable pub ended : Fs → ℕ → Option (Bool × Log) → Fs
ended s op none = record s { panicked = true }
ended s op (some (_, l)) = record s { log = l; budgets = remove s.budgets op }

unfoldable pub finished : Fs → Log × Store → Fs
finished s (l, st) = record s { log = l; store = st }

unfoldable pub exec : Fs → Action → Fs
exec s begin = begun s (begin_op s.log)
exec s (write op b d) = wrote s op (log_write s.log s.store b d)
exec s (end op) = ended s op (end_op s.log)
exec s finish = finished s (end_commit s.log s.store)

-- What callers of the log keep to: an operation in progress that has added fewer than MAXOPBLOCKS blocks
-- writes, an operation in progress ends, and the operation that set log.committing commits.
abbrev pub Allowed : Fs → Action → Type 0
Allowed s begin = Unit
Allowed s (write op b d) = 0 < budget s.budgets op
Allowed s (end op) = op < length s.budgets
Allowed s finish = s.log.committing ≡ true

unfoldable pub run : Fs → List Action → Fs
run s [] = s
run s (a ∷ acts) = run (exec s a) acts

-- Each action is allowed where it comes.
unfoldable pub Follows : Fs → List Action → Type 0
Follows s [] = Unit
Follows s (a ∷ acts) = Allowed s a × Follows (exec s a) acts

-- The state after initlog
abbrev pub fresh : (start size : ℕ) (block : ℕ → ℕ) → Store → Fs
fresh start size block st = record {
  log = record {
    start = start;
    size = size;
    outstanding = 0;
    committing = false;
    n = 0;
    block = block;
  };
  store = st;
  budgets = [];
  panicked = false;
}

-- The transaction and what may still be added to it fit into the log.
pub record Inv (size : ℕ) (s : Fs) : Type 0 where
  pub size_kept : s.log.size ≡ size
  pub counted : s.log.outstanding ≡ length s.budgets
  pub each : All (λ m. m ≤ maxopblocks) s.budgets
  pub fits : s.log.n + total s.budgets ≤ logsize
  pub idle : s.log.committing ≡ true → s.log.outstanding ≡ 0
  pub calm : s.panicked ≡ false

abbrev Each : List ℕ → Type 0
Each = All (λ m. m ≤ maxopblocks)

total-le : (ms : List ℕ) → Each ms → total ms ≤ maxopblocks * length ms
total-le [] each = omega arith
total-le (m ∷ ms) each = omega (arith, total-le ms each.1, each.0)

total-remove :
    (ms : List ℕ) (i : ℕ)
    → i < length ms
    → (total (remove ms i) ≤ total ms) × (length (remove ms i) + 1 ≡ length ms)
total-remove [] i lt = absurd (omega arith)
total-remove (m ∷ ms) zero lt = omega arith
total-remove (m ∷ ms) (suc i) lt = omega (arith, total-remove ms i (omega arith))

remove-Each : (ms : List ℕ) (i : ℕ) → Each ms → Each (remove ms i)
remove-Each [] i each = each
remove-Each (m ∷ ms) zero each = each.1
remove-Each (m ∷ ms) (suc i) each = (each.0, remove-Each ms i each.1)

total-spend :
    (ms : List ℕ) (i k : ℕ)
    → k ≤ budget ms i
    → (total (spend ms i k) + k ≡ total ms) × (length (spend ms i k) ≡ length ms)
total-spend [] i k h = omega arith
total-spend (m ∷ ms) zero k h = omega arith
total-spend (m ∷ ms) (suc i) k h = omega (arith, total-spend ms i k h)

spend-Each : (ms : List ℕ) (i k : ℕ) → Each ms → Each (spend ms i k)
spend-Each [] i k each = each
spend-Each (m ∷ ms) zero k each = (omega (arith, each.0), each.1)
spend-Each (m ∷ ms) (suc i) k each = (each.0, spend-Each ms i k each.1)

budget-le-total : (ms : List ℕ) (i : ℕ) → budget ms i ≤ total ms
budget-le-total [] i = omega arith
budget-le-total (m ∷ ms) zero = omega arith
budget-le-total (m ∷ ms) (suc i) = omega (arith, budget-le-total ms i)

enter_grows : (l : Log) (b : ℕ) → (l.n ≤ (enter l b).n) × ((enter l b).n ≤ l.n + 1)
unfolding enter
enter_grows l b = ground arith

enter_same :
    (l : Log) (b : ℕ)
    → ((enter l b).size ≡ l.size)
      × ((enter l b).outstanding ≡ l.outstanding)
      × ((enter l b).committing ≡ l.committing)
unfolding enter
enter_same l b = (refl, refl, refl)

log_write-returns :
    (l : Log) (st : Store) (b : ℕ) (d : Block)
    → l.n < logsize
    → l.n + 1 < l.size
    → 0 < l.outstanding
    → log_write l st b d ≡ some (enter l b, record st { dirty = update st.dirty b (some d) })
unfolding log_write
log_write-returns l st b d room room' active = ground arith

commit-idle :
    (l : Log) (st : Store)
    → ((end_commit l st).0.n ≡ 0)
      × ((end_commit l st).0.size ≡ l.size)
      × ((end_commit l st).0.outstanding ≡ l.outstanding)
      × ((end_commit l st).0.committing ≡ false)
unfolding end_commit commit
commit-idle l st = ground arith

module _ {size : ℕ} {s : Fs} (big : logsize < size) (v : Inv size s) where
  begin-Inv : Inv size (exec s begin)
  unfolding exec begun begin_op
  begin-Inv = elim (Bool-cases s.log.committing) [
    | inl e ↦ simp e v
    | inr e ↦ elim (Bool-cases (ltb logsize (s.log.n + (s.log.outstanding + 1) * maxopblocks))) [
      | inl full ↦ simp (e, full) v
      | inr space ↦
          simp (e, space)
            (record {
              size_kept = v.size_kept;
              counted = omega arith;
              each = (omega arith, v.each);
              fits = ground (arith, total-le s.budgets v.each);
              idle = λ c. absurd (cc);
              calm = v.calm;
            })
    ]
  ]

  write-Inv : (op b : ℕ) (d : Block) → 0 < budget s.budgets op → Inv size (exec s (write op b d))
  unfolding exec wrote
  write-Inv op b d some_left =
      let room : s.log.n < logsize = omega (arith, budget-le-total s.budgets op) in
      let active : 0 < s.log.outstanding =
        omega (arith, budget-le-total s.budgets op, total-le s.budgets v.each) in
      let k = (enter s.log b).n - s.log.n in
      let grows = enter_grows s.log b in
      let same = enter_same s.log b in
      let spent = total-spend s.budgets op k (omega arith) in
      rw (log_write-returns s.log s.store b d room (omega arith) active) (record {
        size_kept = same.0 ∙ v.size_kept;
        counted = omega arith;
        each = spend-Each s.budgets op k v.each;
        fits = omega arith;
        idle = λ c. absurd (ground (arith, same, v.idle));
        calm = v.calm;
      })

  end-Inv : (op : ℕ) → op < length s.budgets → Inv size (exec s (end op))
  unfolding exec ended end_op
  end-Inv op before =
      let removed = total-remove s.budgets op before in
      let quiet : s.log.committing ≡ false = ground (arith, v.idle) in
      rw quiet (record {
        size_kept = ground (arith, v.size_kept);
        counted = ground arith;
        each = ground (arith, remove-Each s.budgets op v.each);
        fits = ground arith;
        idle = ground arith;
        calm = ground (arith, v.calm);
      })

  finish-Inv : s.log.committing ≡ true → Inv size (exec s finish)
  unfolding exec finished
  finish-Inv e =
      let idle = commit-idle s.log s.store in
      record {
        size_kept = idle.1 ∙ v.size_kept;
        counted = omega arith;
        each = v.each;
        fits = omega (arith, total-le s.budgets v.each);
        idle = λ c. ground arith;
        calm = v.calm;
      }

exec-Inv :
    {size : ℕ} {s : Fs}
    → logsize < size
    → Inv size s
    → (a : Action) → Allowed s a
    → Inv size (exec s a)
exec-Inv big v begin h = begin-Inv big v
exec-Inv big v (write op b d) h = write-Inv big v op b d h
exec-Inv big v (end op) h = end-Inv big v op h
exec-Inv big v finish h = finish-Inv big v h

run-Inv :
    {size : ℕ} (acts : List Action) {s : Fs}
    → logsize < size
    → Inv size s
    → Follows s acts
    → Inv size (run s acts)
unfolding run Follows
run-Inv [] big v h = v
run-Inv (a ∷ acts) big v h = run-Inv acts big (exec-Inv big v a h.0) h.1

-- On a log of more than LOGSIZE blocks: in no sequence of begin_op, log_write, end_op and commit panics any
-- of them, where only an operation in progress that has added fewer than MAXOPBLOCKS blocks to the
-- transaction writes, only an operation in progress ends, and a commit comes only when end_op decided on
-- it; and the blocks of the transaction with those that the operations in progress may still add never
-- exceed LOGSIZE.
pub log_never_overflows :
    {size : ℕ} (start : ℕ) (block : ℕ → ℕ) (st : Store) (acts : List Action)
    → logsize < size
    → Follows (fresh start size block st) acts
    → let s = run (fresh start size block st) acts in
      (s.panicked ≡ false) × (s.log.n + total s.budgets ≤ logsize)
log_never_overflows {size} start block st acts big follows =
    let v =
      run-Inv acts {s = fresh start size block st} big
        (record {
          size_kept = refl;
          counted = refl;
          each = tt;
          fits = omega arith;
          idle = λ e. refl;
          calm = refl;
        })
        follows in
    (v.calm, v.fits)
