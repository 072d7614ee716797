-- ===== src/Process/Family/Calls.antt =====
-- Every call of proc.c but exit keeps the invariant of the family.
use ence.Base.{
  ℕ, ◌<◌, ◌≡◌, ◌≢◌, inl, inr, refl, Bool, true, false, ◌&&◌, Option, none, some, arith, ◌==◌,
  Bool-cases,
}
use ence.Process.{
  unused, embryo, runnable, running, zombie, is, object, is_parent, Table, nproc, allocproc,
  alloc_in, fork_in, wait_for, wait, schedule, yield, sleep, kill_in, kill,
}
use ence.Process.Loops.{Found, first_from-Found}
use ence.Process.Family.{Inv, Kept-Inv, update-Kept, in_use}

module _ {t : Table} (v : Inv t) where
  pub yield-Inv : (cur : ℕ) → (t.procs cur).state ≡ running → Inv (yield t cur)
  unfolding yield
  yield-Inv cur run = Kept-Inv v (
      update-Kept t cur t.nextpid _ (in_use v cur (ground arith)) refl (λ e. ground arith)
        (λ e. ground arith) (λ e. ground arith))

  pub sleep-Inv : (cur a : ℕ) → (t.procs cur).state ≡ running → Inv (sleep t cur (object a))
  unfolding sleep
  sleep-Inv cur a run = Kept-Inv v (
      update-Kept t cur t.nextpid _ (in_use v cur (ground arith)) refl (λ e. ground arith)
        (λ e. ground arith) (λ e. ground arith))

  pub schedule-Inv : (i : ℕ) → Inv (schedule t i)
  unfolding schedule
  schedule-Inv i = elim (Bool-cases (is (t.procs i).state runnable)) [
    | inl e ↦ rw e (
        Kept-Inv v (
          update-Kept t i t.nextpid _ (in_use v i (ground arith)) refl (λ e. ground arith)
            (λ e. ground arith) (λ e. ground arith)))
    | inr e ↦ rw e v
  ]

  kill_in-Inv : (o : Option ℕ) → ((i : ℕ) → o ≡ some i → i < nproc) → Inv (kill_in t o).1
  unfolding kill_in
  kill_in-Inv none lt = v
  kill_in-Inv (some i) lt = Kept-Inv v (
      update-Kept t i t.nextpid _ (lt i refl) refl (λ e. ground arith) (λ e. ground arith)
        (λ e. ground arith))

  pub kill-Inv : (pid : ℕ) → Inv (kill t pid).1
  unfolding kill
  kill-Inv pid =
      kill_in-Inv _
        (λ i e. ground (arith, (first_from-Found (λ p. p.pid == pid) t.procs 0 nproc).hit i))

  alloc_in-Inv :
      (stack : Bool) (o : Option ℕ)
      → ((i : ℕ) → o ≡ some i → (i < nproc) × ((t.procs i).state ≡ unused))
      → Inv (alloc_in t stack o).1
  unfolding alloc_in
  alloc_in-Inv stack none free = v
  alloc_in-Inv true (some i) free = Kept-Inv v (
      update-Kept t i _ _ (free i refl).0 refl (λ e. ground arith)
        (λ e. ground (arith, (free i refl).1)) (λ e. ground arith))
  alloc_in-Inv false (some i) free = Kept-Inv v (
      update-Kept t i _ _ (free i refl).0 refl (λ e. ground arith)
        (λ e. ground (arith, (free i refl).1)) (λ e. ground arith))

  pub allocproc-Inv : (stack : Bool) → Inv (allocproc t stack).1
  unfolding allocproc
  allocproc-Inv stack =
      alloc_in-Inv stack _
        (λ i e. ground (arith, (first_from-Found (λ p. is p.state unused) t.procs 0 nproc).hit i))

  pub fork_in-Inv :
      (cur np : ℕ) (copied : Bool)
      → (t.procs cur).state ≡ running
      → (t.procs np).state ≡ embryo
      → Inv (fork_in cur copied (some np, t)).1
  unfolding fork_in
  fork_in-Inv cur np true run new =
      let lt = in_use v np (ground arith) in
      record {
        in_range = λ j le. ground (arith, v.in_range j);
        init_root = ground (arith, v.init_root, v.init_live);
        init_live = ground (arith, v.init_live);
        no_self = λ j. ground (arith, v.no_self j);
        no_lost = λ j p gone mine asleep. ground (arith, v.no_lost j p);
      }
  fork_in-Inv cur np false run new = Kept-Inv v (
      update-Kept t np t.nextpid _ (in_use v np (ground arith)) refl (λ e. ground arith)
        (λ e. ground arith) (λ e. ground arith))

  -- a child is reaped
  reap-Inv :
      (cur i : ℕ) (kid : Option ℕ)
      → (t.procs i).state ≡ zombie
      → (t.procs i).parent ≡ some cur
      → Inv (wait_for t cur (some i) kid).1
  unfolding wait_for
  reap-Inv cur i kid gone mine = record {
    in_range = λ j le. ground (arith, v.in_range j);
    init_root = ground (arith, v.init_root);
    init_live = ground (arith, v.init_live);
    no_self = λ j. ground (arith, v.no_self j);
    no_lost = λ j p gone' mine' asleep. ground (arith, v.no_lost j p);
  }

  -- the caller goes to sleep, since none of its children has exited
  wait_asleep-Inv :
      (cur k : ℕ)
      → (t.procs cur).state ≡ running
      → ((i : ℕ) → (t.procs i).state ≡ zombie → (t.procs i).parent ≢ some cur)
      → Inv (wait_for t cur none (some k)).1
  unfolding wait_for
  wait_asleep-Inv cur k run alone =
      let lt = in_use v cur (ground arith) in
      record {
        in_range = λ j le. ground (arith, v.in_range j);
        init_root = ground (arith, v.init_root);
        init_live = ground (arith, v.init_live);
        no_self = λ j. ground (arith, v.no_self j);
        no_lost = λ j p gone mine asleep. ground (arith, alone j, v.no_lost j p);
      }

  wait_for-Inv :
      (cur : ℕ) (gone kid : Option ℕ)
      → (t.procs cur).state ≡ running
      → Found (λ p. is_parent p.parent cur && is p.state zombie) t.procs 0 nproc gone
      → Inv (wait_for t cur gone kid).1
  unfolding wait_for
  wait_for-Inv cur (some i) kid run found =
      reap-Inv cur i kid (ground (arith, found.hit i)) (ground (arith, found.hit i))
  wait_for-Inv cur none none run found = v
  wait_for-Inv cur none (some k) run found =
      wait_asleep-Inv cur k run (λ i gone mine. ground (arith, found.miss i refl, in_use v i))

  pub wait-Inv : (cur : ℕ) → (t.procs cur).state ≡ running → Inv (wait t cur).1
  unfolding wait
  wait-Inv cur run = wait_for-Inv cur _ _ run (first_from-Found _ t.procs 0 nproc)
