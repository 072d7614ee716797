-- ===== src/Process/Family/Exit.antt =====
-- exit keeps the invariant of the family: it wakes the new parent of every zombie.
use ence.Base.{
  ℕ, ◌≡◌, ◌≢◌, true, false, ◌&&◌, some, arith, ltb, if◌then◌else◌, ℕ_discrete, subst, ap,
}
use ence.Process.{
  sleeping, running, zombie, slot, same_chan, is_parent, Proc, Table, nproc, wakeup1, chan_of,
  reparent_from, exit, set_state,
}
use ence.Process.Loops.{
  Woken, wakeup1-Woken, wakeup1-parent, wakeup1-none, Woken-trans, Woken-asleep, Reparented,
  reparent_from-Reparented,
}
use ence.Process.Family.{Inv, in_use}

module _ {t : Table} (v : Inv t) where
  module _ (cur : ℕ) (run : (t.procs cur).state ≡ running) (mortal : cur ≢ t.initproc) where
    abbrev woken : ℕ → Proc
    woken = wakeup1 t.procs (chan_of (t.procs cur).parent)

    abbrev moved : ℕ → Proc
    moved = reparent_from cur t.initproc woken 0 nproc

    moved-Reparented : Reparented cur t.initproc woken 0 nproc moved
    moved-Reparented = reparent_from-Reparented cur t.initproc woken 0 nproc

    moved-Woken : (j : ℕ) → Woken (t.procs j) (moved j)
    moved-Woken j = Woken-trans (wakeup1-Woken t.procs _ j) (moved-Reparented.same j)

    moved-parent :
        (j : ℕ)
        → (moved j).parent ≡ (
            if ltb j nproc && is_parent (t.procs j).parent cur
            then some t.initproc
            else (t.procs j).parent)
    moved-parent j =
        ground (
          arith,
          moved-Reparented.parent j,
          wakeup1-parent t.procs (chan_of (t.procs cur).parent) j,
        )

    -- the parent of the exiting process sleeps on no more
    own_parent :
        (p : ℕ)
        → (t.procs cur).parent ≡ some p
        → (moved p).state ≡ sleeping
        → same_chan (moved p).chan (slot p) ≡ false
    own_parent p mine still =
        let w = moved-Reparented.same p in
        let c : chan_of (t.procs cur).parent ≡ slot p = ap chan_of mine in
        rw (w.chan, ← c) (wakeup1-none t.procs _ p (Woken-asleep w still))

    -- nor does init, where it got a zombie
    init_told :
        (i p : ℕ)
        → is_parent (t.procs i).parent cur ≡ true
        → (t.procs i).state ≡ zombie
        → (moved p).state ≡ sleeping
        → same_chan (moved p).chan (slot t.initproc) ≡ false
    init_told i p mine gone still =
        moved-Reparented.told i p (omega arith) (in_use v i (ground arith))
          (rw (wakeup1-parent t.procs _ i) mine)
          (ground (arith, (wakeup1-Woken t.procs (chan_of (t.procs cur).parent) i).state)) still

    moved-no_lost :
        (i p : ℕ)
        → (moved i).state ≡ zombie
        → (moved i).parent ≡ some p
        → (moved p).state ≡ sleeping
        → same_chan (moved p).chan (slot p) ≡ false
    moved-no_lost i p gone mine still =
        let gone0 : (t.procs i).state ≡ zombie = ground (arith, (moved-Woken i).state) in
        let asleep0 = Woken-asleep (moved-Woken p) still in
        let lt = in_use v i (ground arith) in
        ground (arith, moved-parent i, init_told i p, v.no_lost i p, (moved-Woken p).chan)

    exit_table-Inv : Inv (record t { procs = set_state moved cur zombie })
    exit_table-Inv =
        let lt = in_use v cur (ground arith) in
        record {
          in_range = λ j le. ground (arith, v.in_range j, (moved-Woken j).state);
          init_root = ground (arith, v.init_root, moved-parent t.initproc);
          init_live = ground (arith, v.init_live, (moved-Woken t.initproc).state);
          no_self = λ j. ground (arith, v.no_self j, moved-parent j, v.init_root);
          no_lost = λ j p gone mine asleep.
              ground (arith, v.no_self cur, moved-parent cur, own_parent p, moved-no_lost j p);
        }

  pub exit-Inv :
      (cur : ℕ) (t' : Table) → (t.procs cur).state ≡ running → exit t cur ≡ some t' → Inv t'
  unfolding exit
  exit-Inv cur t' run e = elim (ℕ_discrete cur t.initproc) [
    | yes same ↦ absurd (ground arith)
    | no mortal ↦ subst Inv (ground arith) (exit_table-Inv cur run mortal)
  ]
