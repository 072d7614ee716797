-- ===== src/Process/Kill.antt =====
-- kill: the process that it hits, and the free slot that it hits for pid 0.
use ence.Base.{ℕ, ◌<◌, ◌≡◌, ◌≢◌, true, arith, ◌==◌, Option-cases, inl, inr}
use ence.Process.{sleeping, Table, nproc, first_from, kill_in, kill}
use ence.Process.Loops.{first_from-Found}

-- After kill on the pid of a process, under which no other slot of the table goes, the process is
-- killed and not asleep, and kill reports success.
pub kill_lem :
    (t : Table) (i : ℕ)
    → i < nproc
    → ((m : ℕ) → m < nproc → (t.procs m).pid ≡ (t.procs i).pid → m ≡ i)
    → ((kill t (t.procs i).pid).0 ≡ true)
      × (((kill t (t.procs i).pid).1.procs i).killed ≡ true)
      × (((kill t (t.procs i).pid).1.procs i).state ≢ sleeping)
unfolding kill kill_in
kill_lem t i lt only =
    let f = first_from-Found (λ p. p.pid == (t.procs i).pid) t.procs 0 nproc in
    let o = first_from (λ p. p.pid == (t.procs i).pid) t.procs 0 nproc in
    elim (Option-cases o) [
      | inl e ↦ absurd (ground (arith, f.miss i))
      | inr (j, e) ↦ rw e (ground (arith, f.hit j, only j))
    ]
