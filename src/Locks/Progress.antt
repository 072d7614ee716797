-- ===== src/Locks/Progress.antt =====
-- A CPU that spins can always get the lock.
use ence.Base.{
  ℕ, ◌+◌, ◌≤◌, ◌≡◌, ◌≢◌, refl, ap, ◌∙◌, true, List, [], ◌∷◌, length, update_self, update_ne, arith,
}
use ence.Locks.{
  Cpu, Spinlock, At, outside, asked, spins, won, inside, checked, clears, unlocks, panicked, move,
  Machine, act, run, start,
}
use ence.Locks.Flags.{Matched}
use ence.Locks.Exclusion.{level_at, act-Inv, checked_mine, after_holding_lem, run-Inv, start-Inv}
use ence.Locks.Places.{has_lock, Owned, free, taken, Inv}

-- After at most `bound` more accesses the CPU has the lock.
pub record Gets (s : Machine) (me bound : ℕ) : Type 0 where
  pub schedule : List ℕ
  pub short : length schedule ≤ bound
  pub gets : (run s schedule).at me ≡ won

free-Gets : (s : Machine) (me : ℕ) → s.lock.locked ≡ 0 → s.at me ≡ spins → Gets s me 1
unfolding run move
free-Gets s me l e = record {
  schedule = me ∷ [];
  short = omega arith;
  gets =
      update_self s.at me (move me s.lock (s.cpus me) (s.at me)).2
      ∙ ap (λ (p : At). (move me s.lock (s.cpus me) p).2) e
      ∙ ground (arith, l);
}

cons-Gets : (s : Machine) (h me bound : ℕ) → Gets (act s h) me bound → Gets s me (bound + 1)
unfolding run
cons-Gets s h me bound g = record {
  schedule = h ∷ g.schedule;
  short = omega (arith, g.short);
  gets = g.gets;
}

module _ (base : ℕ → Cpu) (matched : (i : ℕ) → Matched (base i)) (h me : ℕ) (apart : me ≢ h) where
  still : (s : Machine) → s.at me ≡ spins → (act s h).at me ≡ spins
  still s e = update_ne s.at h me (move h s.lock (s.cpus h) (s.at h)).2 apart ∙ e

  -- what the owner does at `p`
  next_at : (s : Machine) (p : At) → s.at h ≡ p → (act s h).at h ≡ (move h s.lock (s.cpus h) p).2
  next_at s p e =
      update_self s.at h (move h s.lock (s.cpus h) (s.at h)).2
      ∙ ap (λ (q : At). (move h s.lock (s.cpus h) q).2) e

  from_unlocks : (s : Machine) → Inv base s → s.at h ≡ unlocks → s.at me ≡ spins → Gets s me 2
  unfolding move
  from_unlocks s v e w =
      let (c, popped, level) =
        after_holding_lem base matched s h v (record s.lock { locked = 0 }) (s.cpus h) outside
          (level_at base matched s h v unlocks e) in
      let freed : (act s h).lock.locked ≡ 0 =
        ap (λ (q : At). (move h s.lock (s.cpus h) q).0.locked) e
        ∙ ap (λ (m : Spinlock × Cpu × At). m.0.locked) popped in
      cons-Gets s h me 1 (free-Gets (act s h) me freed (still s w))

  from_clears : (s : Machine) → Inv base s → s.at h ≡ clears → s.at me ≡ spins → Gets s me 3
  unfolding move
  from_clears s v e w =
      cons-Gets s h me 2
        (from_unlocks (act s h) (act-Inv base matched s h v) (next_at s clears e) (still s w))

  from_checked :
      (s : Machine) (l : ℕ) → Inv base s → s.at h ≡ checked l → s.at me ≡ spins → Gets s me 4
  unfolding move
  from_checked s l v e w =
      let (c, popped, level) =
        after_holding_lem base matched s h v s.lock (s.cpus h) clears
          (level_at base matched s h v (checked l) e) in
      let goes : (move h s.lock (s.cpus h) (checked l)).2 ≡ clears =
        rw (checked_mine base matched s h v l e) (ap (λ (m : Spinlock × Cpu × At). m.2) popped) in
      cons-Gets s h me 3 (
        from_clears (act s h) (act-Inv base matched s h v) (next_at s (checked l) e ∙ goes)
          (still s w))

  from_inside : (s : Machine) → Inv base s → s.at h ≡ inside → s.at me ≡ spins → Gets s me 5
  unfolding move
  from_inside s v e w = cons-Gets s h me 4 (
      from_checked (act s h) s.lock.locked (act-Inv base matched s h v) (next_at s inside e)
        (still s w))

  from_won : (s : Machine) → Inv base s → s.at h ≡ won → s.at me ≡ spins → Gets s me 6
  unfolding move
  from_won s v e w =
      cons-Gets s h me 5
        (from_inside (act s h) (act-Inv base matched s h v) (next_at s won e) (still s w))

  more-Gets : (s : Machine) (a b : ℕ) → a ≤ b → Gets s me a → Gets s me b
  more-Gets s a b le g = record {
    schedule = g.schedule;
    short = omega (arith, g.short, le);
    gets = g.gets;
  }

  from_owner :
      (s : Machine) (p : At)
      → Inv base s
      → s.at h ≡ p
      → has_lock p ≡ true
      → s.at me ≡ spins
      → Gets s me 6
  from_owner s won v e t w = from_won s v e w
  from_owner s inside v e t w = more-Gets s 5 6 (omega arith) (from_inside s v e w)
  from_owner s (checked l) v e t w = more-Gets s 4 6 (omega arith) (from_checked s l v e w)
  from_owner s clears v e t w = more-Gets s 3 6 (omega arith) (from_clears s v e w)
  from_owner s unlocks v e t w = more-Gets s 2 6 (omega arith) (from_unlocks s v e w)
  from_owner s outside v e t w = absurd (ground (arith, t))
  from_owner s (asked l) v e t w = absurd (ground (arith, t))
  from_owner s spins v e t w = absurd (ground (arith, t))
  from_owner s panicked v e t w = absurd (ground (arith, t))

Inv-Gets :
    (base : ℕ → Cpu)
    → ((i : ℕ) → Matched (base i))
    → (s : Machine) (me : ℕ) → Inv base s
    → Owned s.lock s.at
    → s.at me ≡ spins
    → Gets s me 6
Inv-Gets base m s me v (free l c none_has) e =
    let g = free-Gets s me l e in
    record { schedule = g.schedule; short = omega (arith, g.short); gets = g.gets }
Inv-Gets base m s me v (taken h l c has others) e =
    let apart : me ≢ h = λ same. absurd (
      let at_h = ap (λ (i : ℕ). has_lock (s.at i)) same in
      let no_lock = ap has_lock e in ground (arith, at_h, has, no_lock)) in
    from_owner base m h me apart s (s.at h) v refl has e

-- Where interrupts are off on each CPU that has pushcli open: whenever, after any accesses of the CPUs to a
-- fresh lock, a CPU spins in acquire, there are at most six more accesses of CPUs after which it has left
-- the loop with the lock.
pub spins-Gets :
    (base : ℕ → Cpu) (schedule : List ℕ) (me : ℕ)
    → ((i : ℕ) → Matched (base i))
    → (run (start base) schedule).at me ≡ spins
    → Gets (run (start base) schedule) me 6
spins-Gets base schedule me m e =
    let v = run-Inv base m schedule (start base) (start-Inv base) in
    Inv-Gets base m (run (start base) schedule) me v v.owned e
