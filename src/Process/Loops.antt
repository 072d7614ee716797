-- ===== src/Process/Loops.antt =====
-- The searches over the table, and what the loop of exit does to each slot.
use ence.Base.{
  ℕ, zero, suc, ◌+◌, ◌≤◌, ◌<◌, ◌≡◌, ◌⊎◌, Bool, true, false, ◌&&◌, Option, none, some, arith, ◌==◌,
  leb, ltb, update, if◌then◌else◌, ℕ_discrete, subst,
}
use ence.Process.{
  sleeping, runnable, zombie, is, Chan, slot, same_chan, is_parent, Proc, first_from, wakeup1,
  reparent_from,
}

-- The slot that a search returns passes the test and is the first one that does.
pub record Found (test : Proc → Bool) (procs : ℕ → Proc) (i k : ℕ) (o : Option ℕ) : Type 0 where
  pub hit : (j : ℕ) → o ≡ some j → (test (procs j) ≡ true) × (i ≤ j) × (j < i + k)
  pub before : (j m : ℕ) → o ≡ some j → i ≤ m → m < j → test (procs m) ≡ false
  pub miss : (m : ℕ) → o ≡ none → i ≤ m → m < i + k → test (procs m) ≡ false

pub first_from-Found :
    (test : Proc → Bool) (procs : ℕ → Proc) (i k : ℕ)
    → Found test procs i k (first_from test procs i k)
unfolding first_from
first_from-Found test procs i zero = record {
  hit = λ j e. cc;
  before = λ j m e lo hi. cc;
  miss = λ m e lo hi. absurd (omega arith);
}
first_from-Found test procs i (suc k) =
    let ih = first_from-Found test procs (i + 1) k in
    record {
      hit = λ j e. ground (arith, ih.hit j);
      before = λ j m e lo hi. ground (arith, ih.before j m, ih.hit j);
      miss = λ m e lo hi. ground (arith, ih.miss m);
    }

-- A process that wakeup1 meets keeps all but its state, which changes only from sleeping to runnable.
pub record Woken (p q : Proc) : Type 0 where
  pub pid : q.pid ≡ p.pid
  pub chan : q.chan ≡ p.chan
  pub killed : q.killed ≡ p.killed
  pub state : (q.state ≡ p.state) ⊎ ((p.state ≡ sleeping) × (q.state ≡ runnable))

pub wakeup1-Woken : (procs : ℕ → Proc) (c : Chan) (j : ℕ) → Woken (procs j) (wakeup1 procs c j)
unfolding wakeup1
wakeup1-Woken procs c j = ground arith

pub wakeup1-parent :
    (procs : ℕ → Proc) (c : Chan) (j : ℕ) → (wakeup1 procs c j).parent ≡ (procs j).parent
unfolding wakeup1
wakeup1-parent procs c j = ground arith

-- No process sleeps on the channel afterwards.
pub wakeup1-none :
    (procs : ℕ → Proc) (c : Chan) (j : ℕ)
    → (wakeup1 procs c j).state ≡ sleeping
    → same_chan (wakeup1 procs c j).chan c ≡ false
unfolding wakeup1
wakeup1-none procs c j e = ground arith

pub Woken-trans : {p q r : Proc} → Woken p q → Woken q r → Woken p r
Woken-trans a b = ground (arith, a, b)

pub record Reparented (cur init : ℕ) (procs : ℕ → Proc) (i k : ℕ) (procs' : ℕ → Proc) : Type 0 where
  pub same : (j : ℕ) → Woken (procs j) (procs' j)
  pub parent :
      (j : ℕ)
      → (procs' j).parent ≡ (
          if leb i j && ltb j (i + k) && is_parent (procs j).parent cur
          then some init
          else (procs j).parent)
  pub told :
      (m j : ℕ)
      → i ≤ m
      → m < i + k
      → is_parent (procs m).parent cur ≡ true
      → (procs m).state ≡ zombie
      → (procs' j).state ≡ sleeping
      → same_chan (procs' j).chan (slot init) ≡ false

-- one round of the loop
abbrev round : (cur init : ℕ) → (ℕ → Proc) → ℕ → ℕ → Proc
round cur init procs i =
    let moved = update procs i (record (procs i) { parent = some init }) in
    let procs' = if is (procs i).state zombie then wakeup1 moved (slot init) else moved in
    if is_parent (procs i).parent cur then procs' else procs

round-same :
    (cur init : ℕ) (procs : ℕ → Proc) (i j : ℕ) → Woken (procs j) (round cur init procs i j)
round-same cur init procs i j =
    let moved = update procs i (record (procs i) { parent = some init }) in
    ground (arith, wakeup1-Woken moved (slot init) j)

round-parent :
    (cur init : ℕ) (procs : ℕ → Proc) (i j : ℕ)
    → (round cur init procs i j).parent
      ≡ (if (j == i) && is_parent (procs j).parent cur then some init else (procs j).parent)
round-parent cur init procs i j =
    let moved = update procs i (record (procs i) { parent = some init }) in
    ground (arith, wakeup1-parent moved (slot init) j)

round-told :
    (cur init : ℕ) (procs : ℕ → Proc) (i j : ℕ)
    → is_parent (procs i).parent cur ≡ true
    → (procs i).state ≡ zombie
    → (round cur init procs i j).state ≡ sleeping
    → same_chan (round cur init procs i j).chan (slot init) ≡ false
round-told cur init procs i j = λ mine gone asleep.
    let moved = update procs i (record (procs i) { parent = some init }) in
    ground (arith, wakeup1-none moved (slot init) j)

-- A process that sleeps on after a wakeup slept before.
pub Woken-asleep : {p q : Proc} → Woken p q → q.state ≡ sleeping → p.state ≡ sleeping
Woken-asleep w e = ground (arith, w.state)

-- What the rest of the loop leaves asleep, this round left asleep.
told_now :
    (cur init : ℕ) (procs : ℕ → Proc) (i j : ℕ) (q : Proc)
    → Woken (round cur init procs i j) q
    → is_parent (procs i).parent cur ≡ true
    → (procs i).state ≡ zombie
    → q.state ≡ sleeping
    → same_chan q.chan (slot init) ≡ false
told_now cur init procs i j q w mine gone asleep =
    rw (w.chan) (round-told cur init procs i j mine gone (Woken-asleep w asleep))

-- A later child is untouched by this round, unless it sleeps.
round-gone :
    (cur init : ℕ) (procs : ℕ → Proc) (i m : ℕ)
    → (procs m).state ≡ zombie
    → (round cur init procs i m).state ≡ zombie
round-gone cur init procs i m gone = ground (arith, (round-same cur init procs i m).state)

round-mine :
    (cur init : ℕ) (procs : ℕ → Proc) (i m : ℕ)
    → i < m
    → is_parent (procs m).parent cur ≡ true
    → is_parent (round cur init procs i m).parent cur ≡ true
round-mine cur init procs i m lo mine = ground (arith, round-parent cur init procs i m)

pub reparent_from-Reparented :
    (cur init : ℕ) (procs : ℕ → Proc) (i k : ℕ)
    → Reparented cur init procs i k (reparent_from cur init procs i k)
unfolding reparent_from
reparent_from-Reparented cur init procs i zero = record {
  same = λ j. ground arith;
  parent = λ j. ground arith;
  told = λ m j lo hi mine gone asleep. absurd (omega arith);
}
reparent_from-Reparented cur init procs i (suc k) =
    let procs1 = round cur init procs i in
    let ih = reparent_from-Reparented cur init procs1 (i + 1) k in
    record {
      same = λ j. Woken-trans (round-same cur init procs i j) (ih.same j);
      parent = λ j. ground (arith, ih.parent j, round-parent cur init procs i j);
      told = λ m j lo hi mine gone asleep. elim (ℕ_discrete m i) [
        | yes e ↦
            told_now cur init procs i j (reparent_from cur init procs1 (i + 1) k j) (ih.same j)
              (subst (λ s. is_parent (procs s).parent cur ≡ true) e mine)
              (subst (λ s. (procs s).state ≡ zombie) e gone) asleep
        | no ne ↦
            ih.told m j (omega arith) (omega arith)
              (round-mine cur init procs i m (omega arith) mine)
              (round-gone cur init procs i m gone) asleep
      ];
    }
