-- ===== src/Process/Family.antt =====
-- What keeps the wakeups between exit and wait from being lost: the invariant of the table, and the
-- steps that do not touch the family.
pub mod Calls
pub mod Exit
pub mod Reachable
use ence.Base.{
  ℕ, zero, suc, ◌+◌, ◌≤◌, ◌<◌, ◌≡◌, ◌≢◌, ◌⊎◌, inl, inr, refl, Bool, true, false, not, ◌&&◌, Option,
  none, some, arith, ◌==◌, leb, ltb, update, if◌then◌else◌, Bool-cases, ℕ_discrete, subst, ap,
}
use ence.Process.{
  State, unused, embryo, sleeping, runnable, running, zombie, is, Chan, no_chan, slot, object,
  same_chan, is_parent, Proc, Table, nproc, first_from, allocproc, alloc_in, fork_in, wakeup1,
  chan_of, reparent_from, exit, Waited, reaped, failed, asleep, wait_for, wait, schedule, yield,
  sleep, wakeup, kill_in, kill, set_state, cleared, userinit, userinit_in, empty_table,
}
use ence.Process.Loops.{
  Found, first_from-Found, Woken, wakeup1-Woken, wakeup1-parent, wakeup1-none, Woken-trans,
  Woken-asleep, Reparented, reparent_from-Reparented,
}
use ence.Process.System.{
  Step, alloc, finish_fork, exits, waits, schedules, yields, sleeps, wakes, kills, Reach, boot,
  next,
}

-- neither free, nor being set up, nor exited
abbrev pub is_live : State → Bool
is_live unused = false
is_live embryo = false
is_live zombie = false
is_live _ = true

pub record Inv (t : Table) : Type 0 where
  pub in_range : (i : ℕ) → nproc ≤ i → (t.procs i).state ≡ unused
  pub init_root : (t.procs t.initproc).parent ≡ none
  pub init_live : is_live (t.procs t.initproc).state ≡ true
  pub no_self : (i : ℕ) → (t.procs i).parent ≢ some i
  pub no_lost :
      (i p : ℕ)
      → (t.procs i).state ≡ zombie
      → (t.procs i).parent ≡ some p
      → (t.procs p).state ≡ sleeping
      → same_chan (t.procs p).chan (slot p) ≡ false

-- A step that leaves the family as it is: it makes no zombie, ends no process, and puts none to
-- sleep on a process.
pub record Kept (t t' : Table) : Type 0 where
  pub init : t'.initproc ≡ t.initproc
  pub parent : (j : ℕ) → (t'.procs j).parent ≡ (t.procs j).parent
  pub out : (j : ℕ) → nproc ≤ j → (t.procs j).state ≡ unused → (t'.procs j).state ≡ unused
  pub gone : (j : ℕ) → (t'.procs j).state ≡ zombie → (t.procs j).state ≡ zombie
  pub live : (j : ℕ) → is_live (t.procs j).state ≡ true → is_live (t'.procs j).state ≡ true
  pub asleep :
      (p : ℕ)
      → (t'.procs p).state ≡ sleeping
      → (same_chan (t'.procs p).chan (slot p) ≡ false)
        ⊎ (((t.procs p).state ≡ sleeping) × ((t'.procs p).chan ≡ (t.procs p).chan))

pub Kept-Inv : {t t' : Table} → Inv t → Kept t t' → Inv t'
Kept-Inv {t} {t'} v k = record {
  in_range = λ j le. k.out j le (v.in_range j le);
  init_root = rw (k.init, k.parent t.initproc) v.init_root;
  init_live = rw (k.init) (k.live t.initproc v.init_live);
  no_self = λ j. rw (k.parent j) (v.no_self j);
  no_lost = λ j p gone mine asleep. ground (arith, k.asleep p, k.gone j, k.parent j, v.no_lost j p);
}

-- A slot below NPROC that is not live may become embryo, a live one changes among live states.
pub update-Kept :
    (t : Table) (i n : ℕ) (q : Proc)
    → i < nproc
    → q.parent ≡ (t.procs i).parent
    → (q.state ≡ zombie → (t.procs i).state ≡ zombie)
    → (is_live (t.procs i).state ≡ true → is_live q.state ≡ true)
    → (q.state ≡ sleeping → same_chan q.chan (slot i) ≡ false)
    → Kept t (record t { procs = update t.procs i q; nextpid = n })
update-Kept t i n q lt par gone live quiet = record {
  init = refl;
  parent = λ j. ground (arith, par);
  out = λ j le e. ground arith;
  gone = λ j e. ground (arith, gone);
  live = λ j e. ground (arith, live);
  asleep = λ p e. ground (arith, quiet);
}

pub wakeup-Kept : (t : Table) (c : Chan) → Kept t (wakeup t c)
unfolding wakeup
wakeup-Kept t c = record {
  init = refl;
  parent = λ j. wakeup1-parent t.procs c j;
  out = λ j le e. ground (arith, (wakeup1-Woken t.procs c j).state);
  gone = λ j e. ground (arith, (wakeup1-Woken t.procs c j).state);
  live = λ j e. ground (arith, (wakeup1-Woken t.procs c j).state);
  asleep =
      λ p e. ground (arith, (wakeup1-Woken t.procs c p).state, (wakeup1-Woken t.procs c p).chan);
}

pub in_use : {t : Table} → Inv t → (i : ℕ) → (t.procs i).state ≢ unused → i < nproc
in_use v i e = ground (arith, v.in_range i)
