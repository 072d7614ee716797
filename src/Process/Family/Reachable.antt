-- ===== src/Process/Family/Reachable.antt =====
-- What holds of the family in every reachable process table, and what wait answers.
use ence.Base.{ℕ, ◌<◌, ◌≡◌, ◌≢◌, refl, true, false, some, arith, update, subst}
use ence.Process.{
  embryo, sleeping, runnable, zombie, slot, object, same_chan, Table, nproc, first_from, allocproc,
  alloc_in, Waited, reaped, failed, asleep, sleep, set_state, cleared, userinit, userinit_in,
  empty_table,
}
use ence.Process.System.{
  Step, alloc, finish_fork, exits, waits, schedules, yields, sleeps, wakes, kills, Reach, boot,
  next,
}
use ence.Process.Family.{Inv, Kept-Inv, wakeup-Kept}
use ence.Process.Family.Calls.{
  yield-Inv, sleep-Inv, schedule-Inv, kill-Inv, allocproc-Inv, fork_in-Inv, wait-Inv,
}
use ence.Process.Family.Exit.{exit-Inv}

abbrev booted : Table
booted = record {
  procs =
      set_state
        (update empty_table.procs 0
          (record (empty_table.procs 0) { state = embryo; pid = 1; kstack = true }))
        0 runnable;
  nextpid = 2;
  initproc = 0;
}

booted-Inv : Inv booted
booted-Inv = record {
  in_range = λ j le. ground arith;
  init_root = refl;
  init_live = refl;
  no_self = λ j e. ground arith;
  no_lost = λ j p gone mine still. ground arith;
}

userinit-booted : userinit empty_table true ≡ some booted
unfolding userinit userinit_in allocproc alloc_in first_from
userinit-booted = refl

userinit-Inv : (t : Table) → userinit empty_table true ≡ some t → Inv t
userinit-Inv t e = subst Inv (ground (arith, e, userinit-booted)) booted-Inv

step-Inv : {s t : Table} → Inv s → Step s t → Inv t
step-Inv v (alloc cur stack run) = allocproc-Inv v stack
step-Inv v (finish_fork cur np copied run new) = fork_in-Inv v cur np copied run new
step-Inv v (exits cur t' run e) = exit-Inv v cur t' run e
step-Inv v (waits cur run) = wait-Inv v cur run
step-Inv v (schedules i) = schedule-Inv v i
step-Inv v (yields cur run) = yield-Inv v cur run
step-Inv v (sleeps cur a run) = sleep-Inv v cur a run
step-Inv {s = s} v (wakes a) = Kept-Inv v (wakeup-Kept s (object a))
step-Inv v (kills pid) = kill-Inv v pid

reach-Inv : {t : Table} → Reach t → Inv t
reach-Inv (boot t e) = userinit-Inv t e
reach-Inv (next r st) = step-Inv (reach-Inv r) st

-- In every reachable table, a process with a child that has exited does not sleep in wait.
pub no_lost_exit :
    {t : Table} (i p : ℕ)
    → Reach t
    → (t.procs i).state ≡ zombie
    → (t.procs i).parent ≡ some p
    → (t.procs p).state ≡ sleeping
    → same_chan (t.procs p).chan (slot p) ≡ false
no_lost_exit i p r = (reach-Inv r).no_lost i p

-- What a pass of the loop of wait may answer.
pub data Answer (t : Table) (cur : ℕ) : Waited × Table → Type 0 where
  got :
      (i : ℕ)
      → i < nproc
      → (t.procs i).state ≡ zombie
      → (t.procs i).parent ≡ some cur
      → Answer t cur
          (reaped (t.procs i).pid, record t { procs = update t.procs i (cleared (t.procs i)) })
  childless : ((i : ℕ) → i < nproc → (t.procs i).parent ≢ some cur) → Answer t cur (failed, t)
  interrupted :
      (t.procs cur).killed ≡ true
      → ((i : ℕ) → i < nproc → (t.procs i).parent ≡ some cur → (t.procs i).state ≢ zombie)
      → Answer t cur (failed, t)
  waiting :
      (k : ℕ)
      → k < nproc
      → (t.procs k).parent ≡ some cur
      → (t.procs cur).killed ≡ false
      → ((i : ℕ) → i < nproc → (t.procs i).parent ≡ some cur → (t.procs i).state ≢ zombie)
      → Answer t cur (asleep, sleep t cur (slot cur))
