-- ===== src/Process/Tests.antt =====
-- The calls of proc.c on a small table, and the theorems with hypotheses at it.
use ence.Base.{ℕ, ◌<◌, ◌≡◌, refl, true, false, none, some, arith}
use ence.Process.{
  slot, object, same_chan, Table, nproc, first_from, empty_table, wakeup1, userinit, userinit_in,
  allocproc, alloc_in, fork_in, exit, wait, wait_for, reaped, schedule, sleep, reparent_from,
}
use ence.Process.System.{Reach, boot, next, alloc, finish_fork, exits, schedules, sleeps}
use ence.Process.Family.Reachable.{no_lost_exit}

abbrev booted : Table
booted = elim (userinit empty_table true) [ none ↦ empty_table | some t ↦ t ]

-- init runs, forks, and sleeps on something else while the child runs
abbrev forked : Table
forked = (fork_in 0 true (some 1, (allocproc (schedule booted 0) true).1)).1

abbrev busy : Table
busy = sleep (schedule forked 1) 0 (object 7)

abbrev orphaned : Table
orphaned = elim (exit busy 1) [ none ↦ busy | some t ↦ t ]

booted-Reach : Reach booted
unfolding userinit userinit_in allocproc alloc_in first_from
booted-Reach = boot booted refl

forked-Reach : Reach forked
unfolding userinit userinit_in allocproc alloc_in first_from schedule fork_in
forked-Reach =
    next (next (next booted-Reach (schedules 0)) (alloc 0 true refl))
      (finish_fork 0 1 true refl refl)

busy-Reach : Reach busy
unfolding userinit userinit_in allocproc alloc_in first_from schedule fork_in sleep
busy-Reach = next (next forked-Reach (schedules 1)) (sleeps 0 7 refl)

orphaned-Reach : Reach orphaned
unfolding userinit userinit_in allocproc alloc_in first_from schedule fork_in sleep exit
    reparent_from
orphaned-Reach = next busy-Reach (exits 1 orphaned refl refl)

no_lost_exit_example : same_chan (orphaned.procs 0).chan (slot 0) ≡ false
unfolding userinit userinit_in allocproc alloc_in first_from schedule fork_in sleep exit
    reparent_from wakeup1
no_lost_exit_example = no_lost_exit 1 0 orphaned-Reach refl refl refl

init_reaps : (wait orphaned 0).0 ≡ reaped 2
unfolding userinit userinit_in allocproc alloc_in first_from schedule fork_in sleep exit
    reparent_from wakeup1 wait wait_for
init_reaps = refl

only_two : (m : ℕ) → m < nproc → (forked.procs m).pid ≡ 2 → m ≡ 1
unfolding userinit userinit_in allocproc alloc_in first_from schedule fork_in
only_two m lt e = ground (arith, e)
