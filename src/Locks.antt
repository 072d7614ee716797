-- ===== src/Locks.antt =====
-- lab10xv6/xv6/spinlock.c: acquire, release and holding of one lock by many CPUs, a shared access at a time,
-- and pushcli and popcli. The return addresses `pcs` are left out. Sleep is sleeplock.c.
pub mod Flags
pub mod Places
pub mod Exclusion
pub mod Progress
pub mod Sleep
mod Tests
use ence.Base.{
  ℕ, zero, suc, ◌+◌, ◌-◌, Bool, true, false, not, ◌&&◌, Option, none, some, List, [], ◌∷◌, ◌==◌,
  update, if◌then◌else◌,
}

-- What a CPU keeps for pushcli and popcli, and its interrupt flag.
pub record Cpu : Type 0 where
  pub interrupts : Bool
  pub ncli : ℕ
  pub intena : Bool

pub pushcli : Cpu → Cpu
pushcli c = record {
  interrupts = false;
  ncli = c.ncli + 1;
  intena = if c.ncli == 0 then c.interrupts else c.intena;
}

-- popcli; `none` is a panic.
pub popcli : Cpu → Option Cpu
popcli c =
    if c.interrupts
    then none
    else if c.ncli == 0
    then none
    else some (record c { interrupts = c.ncli - 1 == 0 && c.intena; ncli = c.ncli - 1 })

-- struct spinlock; `cpu` is the number of a CPU.
pub record Spinlock : Type 0 where
  pub locked : ℕ
  pub cpu : Option ℕ

-- Where a CPU stands, with what it has loaded.
pub data At : Type 0 where
  outside : At
  asked : (locked : ℕ) → At  -- in the holding of acquire, after the load of lk->locked
  spins : At  -- at the while of acquire
  won : At  -- behind the while
  inside : At  -- behind acquire
  checked : (locked : ℕ) → At  -- in the holding of release, after the load of lk->locked
  clears : At  -- behind the holding of release
  unlocks : At  -- behind lk->cpu = 0
  panicked : At

-- lock->cpu == mycpu()
abbrev pub is_mine : (me : ℕ) → Option ℕ → Bool
is_mine me none = false
is_mine me (some c) = c == me

-- the end of a holding, where to go on with its result, and the panic of popcli
abbrev pub after_holding : Spinlock → Cpu → (next : At) → Spinlock × Cpu × At
after_holding lk c next = elim (popcli c) [ none ↦ (lk, c, panicked) | some c' ↦ (lk, c', next) ]

-- The next shared access of the CPU `me`, with what it does by itself before and after. From outside it
-- calls acquire, and from inside release.
pub move : (me : ℕ) → Spinlock → Cpu → At → Spinlock × Cpu × At
move me lk c outside = (lk, pushcli (pushcli c), asked lk.locked)
move me lk c (asked locked) =
    after_holding lk c (if not (locked == 0) && is_mine me lk.cpu then panicked else spins)
move me lk c spins = (record lk { locked = 1 }, c, if lk.locked == 0 then won else spins)
move me lk c won = (record lk { cpu = some me }, c, inside)
move me lk c inside = (lk, pushcli c, checked lk.locked)
move me lk c (checked locked) =
    after_holding lk c (if not (locked == 0) && is_mine me lk.cpu then clears else panicked)
move me lk c clears = (record lk { cpu = none }, c, unlocks)
move me lk c unlocks = after_holding (record lk { locked = 0 }) c outside
move me lk c panicked = (lk, c, panicked)

-- The lock and all CPUs.
pub record Machine : Type 0 where
  pub lock : Spinlock
  pub cpus : ℕ → Cpu
  pub at : ℕ → At

abbrev pub after_move : Machine → (me : ℕ) → Spinlock × Cpu × At → Machine
after_move s me m = record { lock = m.0; cpus = update s.cpus me m.1; at = update s.at me m.2 }

-- the next access of `me`
abbrev pub act : Machine → (me : ℕ) → Machine
act s me = after_move s me (move me s.lock (s.cpus me) (s.at me))

-- the accesses of the CPUs in the order of `schedule`
unfoldable pub run : Machine → (schedule : List ℕ) → Machine
run s [] = s
run s (me ∷ schedule) = run (act s me) schedule

-- after initlock
abbrev pub start : (cpus : ℕ → Cpu) → Machine
start cpus = record { lock = record { locked = 0; cpu = none }; cpus = cpus; at = λ _. outside }
