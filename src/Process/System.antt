-- ===== src/Process/System.antt =====
-- The process table under any interleaving of the calls of proc.c. A process acts only where it is
-- running; fork is two steps, since it holds the lock only within allocproc.
use ence.Base.{ℕ, ◌≡◌, Bool, true, some}
use ence.Process.{
  embryo, running, object, Table, allocproc, fork_in, exit, wait, schedule, yield, sleep, wakeup,
  kill, userinit, empty_table,
}

pub data Step (t : Table) : Table → Type 0 where
  alloc : (cur : ℕ) (stack : Bool) → (t.procs cur).state ≡ running → Step t (allocproc t stack).1
  -- fork goes on with the slot `np` that allocproc gave it
  finish_fork :
      (cur np : ℕ) (copied : Bool)
      → (t.procs cur).state ≡ running
      → (t.procs np).state ≡ embryo
      → Step t (fork_in cur copied (some np, t)).1
  exits : (cur : ℕ) (t' : Table) → (t.procs cur).state ≡ running → exit t cur ≡ some t' → Step t t'
  waits : (cur : ℕ) → (t.procs cur).state ≡ running → Step t (wait t cur).1
  schedules : (i : ℕ) → Step t (schedule t i)
  yields : (cur : ℕ) → (t.procs cur).state ≡ running → Step t (yield t cur)
  sleeps : (cur a : ℕ) → (t.procs cur).state ≡ running → Step t (sleep t cur (object a))
  wakes : (a : ℕ) → Step t (wakeup t (object a))
  kills : (pid : ℕ) → Step t (kill t pid).1

pub data Reach : Table → Type 0 where
  boot : (t : Table) → userinit empty_table true ≡ some t → Reach t
  next : {s t : Table} → Reach s → Step s t → Reach t
