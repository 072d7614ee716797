-- ===== src/Locks/Exclusion.antt =====
-- The CPUs at one lock exclude each other, and no holding or popcli panics, in every order of their accesses.
use ence.Base.{
  ℕ, ◌+◌, ◌≡◌, ◌≢◌, refl, sym, ap, ◌∙◌, subst, true, false, not, ◌&&◌, none, some, List, [], ◌∷◌,
  ◌==◌, update, arith, ℕ_discrete,
}
use ence.Locks.{
  Cpu, pushcli, Spinlock, At, outside, asked, spins, won, inside, checked, clears, unlocks,
  panicked, is_mine, after_holding, move, Machine, after_move, act, run, start,
}
use ence.Locks.Flags.{Matched, Level, pushcli-Level, popcli-Level}
use ence.Locks.Places.{
  Fine-update, Inv, Owned, depth, has_lock, has_lock-update, is_fine, not_mine, other_Owned,
  owner_Owned, owner_facts, recorded, free, taken,
}

module _ (base : ℕ → Cpu) (matched : (i : ℕ) → Matched (base i)) (s : Machine) (me : ℕ)
    (v : Inv base s) where
  pub level_at : (p : At) → s.at me ≡ p → Level (base me) (depth p) (s.cpus me)
  level_at p e = subst (λ (q : At). Level (base me) (depth q) (s.cpus me)) e (v.fine me).level

  -- to a place with the pushcli calls that it says
  move-Inv :
      (lk : Spinlock) (c : Cpu) (p : At)
      → Level (base me) (depth p) c
      → is_fine p ≡ true
      → Owned lk (update s.at me p)
      → Inv base (after_move s me (lk, c, p))
  move-Inv lk c p l f o = record {
    owned = o;
    fine = Fine-update base s.cpus s.at me c p l f v.fine;
  }

  pub after_holding_lem :
      (lk : Spinlock) (c : Cpu) (p : At)
      → Level (base me) (depth p + 1) c
      → (c' : Cpu) × (after_holding lk c p ≡ (lk, c', p)) × Level (base me) (depth p) c'
  after_holding_lem lk c p l =
      let (c', e, l') = popcli-Level (base me) (depth p) c (matched me) l in
      (c', rw (after_holding, e) refl, l')

  -- the same through a popcli
  holding-Inv :
      (lk : Spinlock) (c : Cpu) (p : At)
      → Level (base me) (depth p + 1) c
      → is_fine p ≡ true
      → Owned lk (update s.at me p)
      → Inv base (after_move s me (after_holding lk c p))
  holding-Inv lk c p l f o =
      let (c', popped, l') = after_holding_lem lk c p l in
      subst (λ (m : Spinlock × Cpu × At). Inv base (after_move s me m)) (sym popped)
        (move-Inv lk c' p l' f o)

  -- before the xchg
  without :
      (p p' : At)
      → s.at me ≡ p
      → has_lock p ≡ false
      → has_lock p' ≡ false
      → Owned s.lock (update s.at me p')
  without p p' e f f' = other_Owned s.lock s.at me p' (ap has_lock e ∙ f) f' v.owned

  -- behind it
  owns :
      (p : At)
      → s.at me ≡ p
      → has_lock p ≡ true
      → (s.lock.locked ≡ 1)
        × (s.lock.cpu ≡ recorded me p)
        × ((i : ℕ) → i ≢ me → has_lock (s.at i) ≡ false)
  owns p e t =
      let (l, c, others) = owner_facts s.lock s.at me v.owned (ap has_lock e ∙ t) in
      (l, c ∙ ap (recorded me) e, others)

  within :
      (p p' : At)
      → s.at me ≡ p
      → has_lock p ≡ true
      → has_lock p' ≡ true
      → recorded me p' ≡ recorded me p
      → Owned s.lock (update s.at me p')
  within p p' e t t' r =
      let (l, c, others) = owns p e t in
      owner_Owned s.lock s.lock s.at me p' l (c ∙ sym r) t' others

  -- the holding of release finds the lock taken by this CPU
  pub checked_mine : (l : ℕ) → s.at me ≡ checked l → (not (l == 0) && is_mine me s.lock.cpu) ≡ true
  checked_mine l e =
      let (one, c, others) = owns (checked l) e refl in
      let seen = sym (ap is_fine e) ∙ (v.fine me).fine in
      let m = ap (is_mine me) c in ground (arith, m, seen)

  spin-Inv :
      (o : Owned s.lock s.at)
      → s.at me ≡ spins
      → Inv base (after_move s me (move me s.lock (s.cpus me) spins))
  unfolding move
  spin-Inv (free l c none_has) e =
      let open_lock : (s.lock.locked == 0) ≡ true = ground (arith, l) in
      rw open_lock (
        move-Inv (record s.lock { locked = 1 }) (s.cpus me) won (level_at spins e) refl
          (owner_Owned s.lock (record s.lock { locked = 1 }) s.at me won refl c refl
            (λ i ne. none_has i)))
  spin-Inv (taken h l c has others) e =
      let shut : (s.lock.locked == 0) ≡ false = ground (arith, l) in
      rw shut (
        move-Inv (record s.lock { locked = 1 }) (s.cpus me) spins (level_at spins e) refl
          (other_Owned (record s.lock { locked = 1 }) s.at me spins (ap has_lock e) refl
            (taken h refl c has others)))

  moved : (p : At) → s.at me ≡ p → Inv base (after_move s me (move me s.lock (s.cpus me) p))
  unfolding move
  moved outside e =
      move-Inv s.lock (pushcli (pushcli (s.cpus me))) (asked s.lock.locked)
        (pushcli-Level (base me) 1 (pushcli (s.cpus me)) (matched me)
          (pushcli-Level (base me) 0 (s.cpus me) (matched me) (level_at outside e)))
        refl (without outside (asked s.lock.locked) e refl refl)
  moved (asked l) e =
      let other : (not (l == 0) && is_mine me s.lock.cpu) ≡ false =
        let m = not_mine s.lock s.at me v.owned (ap has_lock e) in ground (arith, m) in
      rw other (
        holding-Inv s.lock (s.cpus me) spins (level_at (asked l) e) refl
          (without (asked l) spins e refl refl))
  moved spins e = spin-Inv v.owned e
  moved won e =
      let (l, c, others) = owns won e refl in
      move-Inv (record s.lock { cpu = some me }) (s.cpus me) inside (level_at won e) refl
        (owner_Owned s.lock (record s.lock { cpu = some me }) s.at me inside l refl refl others)
  moved inside e =
      let (l, c, others) = owns inside e refl in
      move-Inv s.lock (pushcli (s.cpus me)) (checked s.lock.locked)
        (pushcli-Level (base me) 1 (s.cpus me) (matched me) (level_at inside e)) (ground (arith, l))
        (within inside (checked s.lock.locked) e refl refl refl)
  moved (checked l) e = rw (checked_mine l e) (
      holding-Inv s.lock (s.cpus me) clears (level_at (checked l) e) refl
        (within (checked l) clears e refl refl refl))
  moved clears e =
      let (l, c, others) = owns clears e refl in
      move-Inv (record s.lock { cpu = none }) (s.cpus me) unlocks (level_at clears e) refl
        (owner_Owned s.lock (record s.lock { cpu = none }) s.at me unlocks l refl refl others)
  moved unlocks e =
      let (l, c, others) = owns unlocks e refl in
      holding-Inv (record s.lock { locked = 0 }) (s.cpus me) outside (level_at unlocks e) refl
        (free refl c (λ i. has_lock-update s.at me outside i ∙ elim (ℕ_discrete i me) [
          | yes same ↦ ground (arith, same)
          | no ne ↦ ground (arith, ne, others i ne)
        ]))
  moved panicked e = absurd (let f = sym (ap is_fine e) ∙ (v.fine me).fine in ground (arith, f))

  pub act-Inv : Inv base (act s me)
  act-Inv = moved (s.at me) refl

pub run-Inv :
    (base : ℕ → Cpu)
    → ((i : ℕ) → Matched (base i))
    → (schedule : List ℕ) (s : Machine) → Inv base s
    → Inv base (run s schedule)
unfolding run
run-Inv base m [] s v = v
run-Inv base m (me ∷ schedule) s v = run-Inv base m schedule (act s me) (act-Inv base m s me v)

pub start-Inv : (base : ℕ → Cpu) → Inv base (start base)
start-Inv base = record {
  owned = free refl refl (λ i. refl);
  fine = λ i. record {
    level = record { ncli = omega arith; interrupts = refl; intena = λ lt. ground (arith, lt) };
    fine = refl;
  };
}

-- What holds of the lock and the CPUs at all times.
pub record Excluded (base : ℕ → Cpu) (s : Machine) : Type 0 where
  pub once : (i j : ℕ) → has_lock (s.at i) ≡ true → has_lock (s.at j) ≡ true → i ≡ j
  pub off : (i : ℕ) → has_lock (s.at i) ≡ true → (s.cpus i).interrupts ≡ false
  pub known : (i : ℕ) → s.at i ≡ inside → (s.lock.locked ≡ 1) × (s.lock.cpu ≡ some i)
  pub no_panic : (i : ℕ) → s.at i ≢ panicked
  pub restored :
      (i : ℕ)
      → s.at i ≡ outside
      → ((s.cpus i).ncli ≡ (base i).ncli) × ((s.cpus i).interrupts ≡ (base i).interrupts)

pub has_lock-depth : (p : At) → has_lock p ≡ true → depth p ≢ 0
has_lock-depth outside t z = ground (arith, t)
has_lock-depth (asked l) t z = ground (arith, t)
has_lock-depth spins t z = ground (arith, t)
has_lock-depth won t z = absurd (omega (arith, z))
has_lock-depth inside t z = absurd (omega (arith, z))
has_lock-depth (checked l) t z = absurd (omega (arith, z))
has_lock-depth clears t z = absurd (omega (arith, z))
has_lock-depth unlocks t z = absurd (omega (arith, z))
has_lock-depth panicked t z = ground (arith, t)

Inv-Excluded : (base : ℕ → Cpu) (s : Machine) → Inv base s → Excluded base s
Inv-Excluded base s v = record {
  once = λ i j ti tj. elim (ℕ_discrete i j) [
    | yes same ↦ same
    | no ne ↦
        absurd (let o = (owner_facts s.lock s.at j v.owned tj).2 i ne in ground (arith, o, ti))
  ];
  off = λ i t.
      let deep = has_lock-depth (s.at i) t in
      let l = (v.fine i).level.interrupts in ground (arith, deep, l);
  known = λ i e.
      let (l, c, others) = owner_facts s.lock s.at i v.owned (ap has_lock e) in
      (l, c ∙ ap (recorded i) e);
  no_panic = λ i e. let f = sym (ap is_fine e) ∙ (v.fine i).fine in ground (arith, f);
  restored = λ i e.
      let l = subst (λ (q : At). Level (base i) (depth q) (s.cpus i)) e (v.fine i).level in
      (omega (arith, l.ncli), l.interrupts);
}

-- Where interrupts are off on each CPU that has pushcli open: after every sequence of accesses of the CPUs to a
-- fresh lock, by calls of acquire and release, at most one CPU is between the xchg that takes the lock and the
-- store that frees it; its interrupts are off; behind acquire, lk->cpu is that CPU; no CPU has panicked in
-- acquire, release or popcli; and a CPU outside has its interrupt flag and its ncli back.
pub run-Excluded :
    (base : ℕ → Cpu) (schedule : List ℕ)
    → ((i : ℕ) → Matched (base i))
    → Excluded base (run (start base) schedule)
run-Excluded base schedule m =
    Inv-Excluded base (run (start base) schedule)
      (run-Inv base m schedule (start base) (start-Inv base))
