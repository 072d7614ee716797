-- ===== src/Log/Tests.antt =====
-- The functions of log.c on a small disk, and the theorems at it.
use ence.Base.{
  zero, suc, length, ◌*◌, All, ◌<◌, ◌≢◌, ℕ, ◌+◌, ◌≤◌, ◌≡◌, refl, true, false, none, some, List, [],
  ◌∷◌, arith, update,
}
use ence.Log.{
  Block, Store, Log, logsize, bwrite, copy_words, install_from, install_trans, write_log_from,
  write_log, write_head, read_head, recover_from_log, commit, begin_op, log_write, enter, find_from,
  end_op, end_commit, maxopblocks,
}
use ence.Log.Short.{Distinct, write_all, with_ops, short_log_panics}
use ence.Log.Crash.{Restored, boot, reboots}
use ence.Log.Commit.{Ready, outcome, commit_crash_safe}
use ence.Log.Space.{
  Action, begin, write, end, finish, fresh, run, total, Follows, exec, begun, wrote, ended,
  finished, log_never_overflows,
}

abbrev filled : ℕ → Block
filled v _ = v

-- Blocks 2 to 32 are the log; blocks 40 and 50 have been changed to hold 7 and 8.
abbrev log_1 : Log
log_1 = record {
  start = 2;
  size = 31;
  outstanding = 0;
  committing = true;
  n = 2;
  block = update (update (λ _. 0) 0 40) 1 50;
}

abbrev store_1 : ℕ → Store
store_1 k = record {
  disk = update (λ b. filled b) 2 (filled 0);
  dirty = update (update (λ _. none) 40 (some (filled 7))) 50 (some (filled 8));
  power = k;
}

store_1-Ready : (k : ℕ) → Ready log_1 (store_1 k)
store_1-Ready k = record {
  room = omega arith;
  homes = λ i h. ground arith;
  cleared = refl;
  clean = λ b out. ground (arith, out 0 (omega arith), out 1 (omega arith));
}

-- A crash after the header and one home block.
half_done :
    ((commit log_1 (store_1 4)).1.disk 40 0 ≡ 7) × ((commit log_1 (store_1 4)).1.disk 50 0 ≡ 50)
unfolding commit write_log write_log_from write_head install_trans install_from bwrite copy_words
half_done = (refl, refl)

-- The recovery after it installs the other one.
recovered : (recover_from_log log_1 (boot (commit log_1 (store_1 4)).1.disk 9)).1.disk 50 0 ≡ 8
unfolding recover_from_log read_head commit write_log write_log_from write_head install_trans
    install_from bwrite copy_words
recovered = refl

commit_crash_safe_example :
    Restored 2 31
      (outcome log_1 (store_1 4))
      (recover_from_log log_1
        (boot (reboots log_1 (commit log_1 (store_1 4)).1.disk (1 ∷ 0 ∷ [])) 31)).1.disk
commit_crash_safe_example = commit_crash_safe (store_1-Ready 4) (1 ∷ 0 ∷ []) 31 (omega arith)

abbrev acts_1 : List Action
acts_1 =
    begin
    ∷ write 0 40 (filled 7)
    ∷ begin
    ∷ write 1 40 (filled 8)
    ∷ end 0
    ∷ end 0
    ∷ finish
    ∷ begin
    ∷ []

acts_1-Follows : Follows (fresh 2 31 (λ _. 0) (store_1 100)) acts_1
unfolding Follows exec begun wrote ended finished begin_op log_write enter find_from end_op
    end_commit commit
acts_1-Follows =
    (tt, (omega arith, (tt, (omega arith, (omega arith, (omega arith, (refl, (tt, tt))))))))

log_never_overflows_example :
    let s = run (fresh 2 31 (λ _. 0) (store_1 100)) acts_1 in
    (s.panicked ≡ false) × (s.log.n + total s.budgets ≤ logsize)
log_never_overflows_example =
    log_never_overflows 2 (λ _. 0) (store_1 100) acts_1 (omega arith) acts_1-Follows

-- the log of mkfs.c: 30 blocks
abbrev log_2 : Log
log_2 = record { start = 2; size = 30; outstanding = 0; committing = false; n = 0; block = λ _. 0 }

abbrev blocks : (b k : ℕ) → List (ℕ × Block)
blocks b zero = []
blocks b (suc k) = (b, filled b) ∷ blocks (b + 1) k

-- blocks from `b` on are above a lower one
blocks-above : (a b k : ℕ) → a < b → All (λ w. w.0 ≢ a) (blocks b k)
blocks-above a b zero lt = tt
blocks-above a b (suc k) lt = ((λ e. absurd (omega arith)), blocks-above a (b + 1) k (omega arith))

blocks-Distinct : (b k : ℕ) → Distinct (blocks b k)
unfolding Distinct
blocks-Distinct b zero = tt
blocks-Distinct b (suc k) = (blocks-above b (b + 1) k (omega arith), blocks-Distinct (b + 1) k)

short_log_panics_example :
    (begin_op (with_ops log_2 0) ≡ some (with_ops log_2 1))
    × (begin_op (with_ops log_2 1) ≡ some (with_ops log_2 2))
    × (begin_op (with_ops log_2 2) ≡ some (with_ops log_2 3))
    × (length (blocks 100 29) + 1 ≤ 3 * maxopblocks)
    × ((l' : Log) × (st' : Store) × (write_all (with_ops log_2 3) (store_1 100) (blocks 100 29)
          ≡ some (l', st'))
        × (log_write l' st' 200 (filled 1) ≡ none))
short_log_panics_example =
    short_log_panics log_2 (store_1 100) (blocks 100 29) 200 (filled 1) refl refl (omega arith) refl
      (blocks-Distinct 100 29)
