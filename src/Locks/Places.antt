-- ===== src/Locks/Places.antt =====
-- What is known of the lock and the CPUs at their places in acquire and release.
use ence.Base.{
  ℕ, ◌≡◌, ◌≢◌, refl, sym, ap, ◌∙◌, subst, Bool, true, false, Option, none, some, ◌==◌, update,
  update_self, update_ne, map-update, arith, ℕ_discrete,
}
use ence.Locks.{
  Cpu, Spinlock, At, outside, asked, spins, won, inside, checked, clears, unlocks, panicked,
  is_mine, Machine,
}
use ence.Locks.Flags.{Level}

-- how many calls of pushcli are open there
abbrev pub depth : At → ℕ
depth outside = 0
depth (asked l) = 2
depth spins = 1
depth won = 1
depth inside = 1
depth (checked l) = 2
depth clears = 1
depth unlocks = 1
depth panicked = 0

-- from behind the xchg that takes the lock to before the store that frees it
abbrev pub has_lock : At → Bool
has_lock outside = false
has_lock (asked l) = false
has_lock spins = false
has_lock won = true
has_lock inside = true
has_lock (checked l) = true
has_lock clears = true
has_lock unlocks = true
has_lock panicked = false

-- what the owner has written to lk->cpu there
abbrev pub recorded : (owner : ℕ) → At → Option ℕ
recorded h outside = none
recorded h (asked l) = none
recorded h spins = none
recorded h won = none
recorded h inside = some h
recorded h (checked l) = some h
recorded h clears = some h
recorded h unlocks = none
recorded h panicked = none

-- no panic, and the owner has seen the lock taken
abbrev pub is_fine : At → Bool
is_fine outside = true
is_fine (asked l) = true
is_fine spins = true
is_fine won = true
is_fine inside = true
is_fine (checked l) = l == 1
is_fine clears = true
is_fine unlocks = true
is_fine panicked = false

pub data Owned (lk : Spinlock) (at : ℕ → At) : Type 0 where
  free : lk.locked ≡ 0 → lk.cpu ≡ none → ((i : ℕ) → has_lock (at i) ≡ false) → Owned lk at
  taken :
      (h : ℕ)
      → lk.locked ≡ 1
      → lk.cpu ≡ recorded h (at h)
      → has_lock (at h) ≡ true
      → ((i : ℕ) → i ≢ h → has_lock (at i) ≡ false)
      → Owned lk at

-- Each CPU has as many pushcli open as its place says, over what it had at the start, and has not panicked.
pub record Fine (base cpus : ℕ → Cpu) (at : ℕ → At) (i : ℕ) : Type 0 where
  pub level : Level (base i) (depth (at i)) (cpus i)
  pub fine : is_fine (at i) ≡ true

pub record Inv (base : ℕ → Cpu) (s : Machine) : Type 0 where
  pub owned : Owned s.lock s.at
  pub fine : (i : ℕ) → Fine base s.cpus s.at i

pub Fine-update :
    (base cpus : ℕ → Cpu) (at : ℕ → At) (me : ℕ) (c : Cpu) (p : At)
    → Level (base me) (depth p) c
    → is_fine p ≡ true
    → ((i : ℕ) → Fine base cpus at i)
    → (i : ℕ) → Fine base (update cpus me c) (update at me p) i
Fine-update base cpus at me c p l f old i = elim (ℕ_discrete i me) [
  | yes same ↦ record {
    level =
        subst (λ (j : ℕ). Level (base j) (depth (update at me p j)) (update cpus me c j)) (sym same)
          (subst (λ (q : At). Level (base me) (depth q) (update cpus me c me))
            (sym (update_self at me p))
            (subst (Level (base me) (depth p)) (sym (update_self cpus me c)) l));
    fine = ap (λ (j : ℕ). is_fine (update at me p j)) same ∙ ap is_fine (update_self at me p) ∙ f;
  }
  | no ne ↦ record {
    level =
        subst (λ (q : At). Level (base i) (depth q) (update cpus me c i))
          (sym (update_ne at me i p ne))
          (subst (Level (base i) (depth (at i))) (sym (update_ne cpus me i c ne)) (old i).level);
    fine = ap is_fine (update_ne at me i p ne) ∙ (old i).fine;
  }
]

-- the place of one CPU changed
pub has_lock-update :
    (at : ℕ → At) (me : ℕ) (p : At) (i : ℕ)
    → has_lock (update at me p i) ≡ update (λ j. has_lock (at j)) me (has_lock p) i
has_lock-update at me p i = map-update has_lock at me p i

-- the owner among the CPUs
pub owner_facts :
    (lk : Spinlock) (at : ℕ → At) (me : ℕ)
    → Owned lk at
    → has_lock (at me) ≡ true
    → (lk.locked ≡ 1)
      × (lk.cpu ≡ recorded me (at me))
      × ((i : ℕ) → i ≢ me → has_lock (at i) ≡ false)
owner_facts lk at me (free l c none_has) has = absurd (ground (arith, none_has me, has))
owner_facts lk at me (taken h l c has_h others) has = elim (ℕ_discrete me h) [
  | yes same ↦ (
    l,
    c ∙ ap (λ (i : ℕ). recorded i (at i)) (sym same),
    λ i ne. others i (λ e. ne (e ∙ sym same)),
  )
  | no ne ↦ absurd (ground (arith, others me ne, has))
]

-- the CPU has the lock at its new place
pub owner_Owned :
    (lk lk' : Spinlock) (at : ℕ → At) (me : ℕ) (p : At)
    → lk'.locked ≡ 1
    → lk'.cpu ≡ recorded me p
    → has_lock p ≡ true
    → ((i : ℕ) → i ≢ me → has_lock (at i) ≡ false)
    → Owned lk' (update at me p)
owner_Owned lk lk' at me p l c has others =
    taken me l (c ∙ ap (recorded me) (sym (update_self at me p)))
      (ap has_lock (update_self at me p) ∙ has)
      (λ i ne. ap has_lock (update_ne at me i p ne) ∙ others i ne)

-- a CPU without the lock goes on without it
pub other_Owned :
    (lk : Spinlock) (at : ℕ → At) (me : ℕ) (p : At)
    → has_lock (at me) ≡ false
    → has_lock p ≡ false
    → Owned lk at
    → Owned lk (update at me p)
other_Owned lk at me p no_lock no_lock' (free l c none_has) =
    free l c (λ i. has_lock-update at me p i ∙ ground (arith, none_has i, no_lock'))
other_Owned lk at me p no_lock no_lock' (taken h l c has others) =
    let ne : h ≢ me =
      λ e. let at_h = ap (λ (i : ℕ). has_lock (at i)) e in ground (arith, at_h, has, no_lock) in
    taken h l (c ∙ ap (recorded h) (sym (update_ne at me h p ne)))
      (ap has_lock (update_ne at me h p ne) ∙ has)
      (λ i ne'. has_lock-update at me p i ∙ ground (arith, others i ne', no_lock'))

pub is_mine-recorded : (me h : ℕ) (p : At) → h ≢ me → is_mine me (recorded h p) ≡ false
is_mine-recorded me h outside ne = refl
is_mine-recorded me h (asked l) ne = refl
is_mine-recorded me h spins ne = refl
is_mine-recorded me h won ne = refl
is_mine-recorded me h inside ne = ground (arith, ne)
is_mine-recorded me h (checked l) ne = ground (arith, ne)
is_mine-recorded me h clears ne = ground (arith, ne)
is_mine-recorded me h unlocks ne = refl
is_mine-recorded me h panicked ne = refl

pub not_mine :
    (lk : Spinlock) (at : ℕ → At) (me : ℕ)
    → Owned lk at
    → has_lock (at me) ≡ false
    → is_mine me lk.cpu ≡ false
not_mine lk at me (free l c none_has) no_lock = ap (is_mine me) c
not_mine lk at me (taken h l c has others) no_lock =
    ap (is_mine me) c
    ∙ is_mine-recorded me h (at h)
        (λ e. let at_me = ap (λ (i : ℕ). has_lock (at i)) e in ground (arith, at_me, has, no_lock))
