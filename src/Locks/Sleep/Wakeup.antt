-- ===== src/Locks/Sleep/Wakeup.antt =====
-- One process holds a sleep lock, and none sleeps at a free one.
use ence.Base.{
  ℕ, ◌≡◌, ◌≢◌, refl, sym, ap, ◌∙◌, true, false, ◌==◌, update, update_self, update_ne, arith,
  ℕ_discrete,
}
use ence.Locks.Sleep.{
  Sleeplock, Place, away, asleep, woken, holds, acquiresleep, releasesleep, holdingsleep, wake,
  Users, Step, acquires, goes_on, releases, killed, Reachable, init, step,
}

-- The lock is free, with nobody in it or asleep at it, or one process holds it.
data Held (lk : Sleeplock) (at : ℕ → Place) : Type 0 where
  free : lk.locked ≡ 0 → ((p : ℕ) → (at p ≢ holds) × (at p ≢ asleep)) → Held lk at
  taken :
      (h : ℕ)
      → lk.locked ≡ 1
      → lk.pid ≡ h
      → at h ≡ holds
      → ((p : ℕ) → p ≢ h → at p ≢ holds)
      → Held lk at

-- What is known of the lock at all times.
pub record Mutex (s : Users) : Type 0 where
  pub once : (p q : ℕ) → s.at p ≡ holds → s.at q ≡ holds → p ≡ q
  pub known : (p : ℕ) → s.at p ≡ holds → holdingsleep s.lock p ≡ true
  pub held : (p : ℕ) → s.at p ≡ asleep → (h : ℕ) × (s.at h ≡ holds)

awake-holds : (p : Place) → wake p ≡ holds → p ≡ holds
unfolding wake
awake-holds away e = ground (arith, e)
awake-holds asleep e = ground (arith, e)
awake-holds woken e = ground (arith, e)
awake-holds holds e = refl

awake-asleep : (p : Place) → wake p ≢ asleep
unfolding wake
awake-asleep away e = ground (arith, e)
awake-asleep asleep e = ground (arith, e)
awake-asleep woken e = ground (arith, e)
awake-asleep holds e = ground (arith, e)

acquire-Held :
    (lk : Sleeplock) (at : ℕ → Place) (p : ℕ)
    → at p ≢ holds
    → Held lk at
    → Held (acquiresleep lk p).0 (update at p (acquiresleep lk p).1)
unfolding acquiresleep
acquire-Held lk at p out (free l none_in) =
    let open_lock : (lk.locked == 0) ≡ true = ground (arith, l) in
    rw open_lock (
      taken p refl refl (update_self at p holds)
        (λ q ne e. (none_in q).0 (sym (update_ne at p q holds ne) ∙ e)))
acquire-Held lk at p out (taken h l pid in_h others) =
    let shut : (lk.locked == 0) ≡ false = ground (arith, l) in
    let ne : h ≢ p = λ e. out (ap at (sym e) ∙ in_h) in
    rw shut (
      taken h l pid (update_ne at p h asleep ne ∙ in_h) (λ q q_ne e. elim (ℕ_discrete q p) [
        | yes same ↦
            let z = sym (ap (update at p asleep) same ∙ update_self at p asleep) ∙ e in
            ground (arith, z)
        | no ne' ↦ others q q_ne (sym (update_ne at p q asleep ne') ∙ e)
      ]))

release-Held :
    (lk : Sleeplock) (at : ℕ → Place) (p : ℕ)
    → at p ≡ holds
    → Held lk at
    → Held (releasesleep lk) (λ q. wake (update at p away q))
unfolding releasesleep
release-Held lk at p in_p (free l none_in) = absurd ((none_in p).0 in_p)
release-Held lk at p in_p (taken h l pid in_h others) = free refl (λ q. (
  λ e.
      let e' = awake-holds (update at p away q) e in
      elim (ℕ_discrete q p) [
        | yes same ↦
            let z = sym (ap (update at p away) same ∙ update_self at p away) ∙ e' in
            ground (arith, z)
        | no ne ↦
            let in_q = sym (update_ne at p q away ne) ∙ e' in
            elim (ℕ_discrete q h) [
              | yes q_h ↦ elim (ℕ_discrete p h) [
                | yes p_h ↦ ne (q_h ∙ sym p_h)
                | no p_ne ↦ others p p_ne in_p
              ]
              | no q_ne ↦ others q q_ne in_q
            ]
      ],
  awake-asleep (update at p away q),
))

kill-Held :
    (lk : Sleeplock) (at : ℕ → Place) (p : ℕ)
    → at p ≡ asleep
    → Held lk at
    → Held lk (update at p woken)
kill-Held lk at p sleeps (free l none_in) = absurd ((none_in p).1 sleeps)
kill-Held lk at p sleeps (taken h l pid in_h others) =
    let ne : h ≢ p = λ e. let z = sym in_h ∙ (ap at e ∙ sleeps) in ground (arith, z) in
    taken h l pid (update_ne at p h woken ne ∙ in_h) (λ q q_ne e. elim (ℕ_discrete q p) [
      | yes same ↦
          let z = sym (ap (update at p woken) same ∙ update_self at p woken) ∙ e in
          ground (arith, z)
      | no ne' ↦ others q q_ne (sym (update_ne at p q woken ne') ∙ e)
    ])

step-Held : (s s' : Users) → Held s.lock s.at → Step s s' → Held s'.lock s'.at
step-Held s _ h (acquires p e) =
    acquire-Held s.lock s.at p (λ z. let y = sym e ∙ z in ground (arith, y)) h
step-Held s _ h (goes_on p e) =
    acquire-Held s.lock s.at p (λ z. let y = sym e ∙ z in ground (arith, y)) h
step-Held s _ h (releases p e) = release-Held s.lock s.at p e h
step-Held s _ h (killed p e) = kill-Held s.lock s.at p e h

Reachable-Held : (s : Users) → Reachable s → Held s.lock s.at
Reachable-Held _ init = free refl (λ p. (λ e. ground (arith, e), λ e. ground (arith, e)))
Reachable-Held _ (step s s' r m) = step-Held s s' (Reachable-Held s r) m

Held-Mutex : (s : Users) → Held s.lock s.at → Mutex s
unfolding holdingsleep
Held-Mutex s (free l none_in) = record {
  once = λ p q ep eq. absurd ((none_in p).0 ep);
  known = λ p e. absurd ((none_in p).0 e);
  held = λ p e. absurd ((none_in p).1 e);
}
Held-Mutex s (taken h l pid in_h others) =
    let only : (p : ℕ) → s.at p ≡ holds → p ≡ h =
      λ p e. elim (ℕ_discrete p h) [ yes same ↦ same | no ne ↦ absurd (others p ne e) ] in
    record {
      once = λ p q ep eq. only p ep ∙ sym (only q eq);
      known = λ p e. let same = only p e in ground (arith, l, pid, same);
      held = λ p e. (h, in_h);
    }

-- In every state that calls of acquiresleep and releasesleep and kills of sleeping processes reach, at most one process
-- holds the lock, holdingsleep is true for it, and a process sleeps in acquiresleep only while some process
-- holds the lock, whose releasesleep will wake it.
pub Reachable-Mutex : (s : Users) → Reachable s → Mutex s
Reachable-Mutex s r = Held-Mutex s (Reachable-Held s r)
