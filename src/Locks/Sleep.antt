-- ===== src/Locks/Sleep.antt =====
-- lab10xv6/xv6/sleeplock.c. What a call does from taking lk->lk to releasing it, or to sleeping, is one step,
-- and sleep and wakeup are those of proc.c.
pub mod Wakeup
mod Tests
use ence.Base.{
  ◌≡◌, ℕ, zero, suc, Bool, true, false, not, ◌&&◌, List, [], ◌∷◌, ◌==◌, update, if◌then◌else◌,
}

-- struct sleeplock, without its spin lock
pub record Sleeplock : Type 0 where
  pub locked : ℕ
  pub pid : ℕ

-- Where a process stands about the lock.
pub data Place : Type 0 where
  away : Place
  asleep : Place  -- in the sleep of acquiresleep
  woken : Place  -- behind that sleep
  holds : Place

-- acquiresleep from its while on, by the process `pid`
pub acquiresleep : Sleeplock → (pid : ℕ) → Sleeplock × Place
acquiresleep lk pid =
    if not (lk.locked == 0) then (lk, asleep) else (record { locked = 1; pid = pid }, holds)

-- releasesleep without its wakeup
pub releasesleep : Sleeplock → Sleeplock
releasesleep lk = record { locked = 0; pid = 0 }

pub holdingsleep : Sleeplock → (pid : ℕ) → Bool
holdingsleep lk pid = not (lk.locked == 0) && lk.pid == pid

-- wakeup(lk), for one process
pub wake : Place → Place
wake away = away
wake asleep = woken
wake woken = woken
wake holds = holds

-- The lock and the processes, by their pids.
pub record Users : Type 0 where
  pub lock : Sleeplock
  pub at : ℕ → Place

-- What may happen: calls of the processes, and a kill that ends a sleep.
pub data Step (s : Users) : Users → Type 0 where
  acquires :
      (p : ℕ)
      → s.at p ≡ away
      → Step s (record {
        lock = (acquiresleep s.lock p).0;
        at = update s.at p (acquiresleep s.lock p).1;
      })
  goes_on :
      (p : ℕ)
      → s.at p ≡ woken
      → Step s (record {
        lock = (acquiresleep s.lock p).0;
        at = update s.at p (acquiresleep s.lock p).1;
      })
  releases :
      (p : ℕ)
      → s.at p ≡ holds
      → Step s (record { lock = releasesleep s.lock; at = λ q. wake (update s.at p away q) })
  killed : (p : ℕ) → s.at p ≡ asleep → Step s (record s { at = update s.at p woken })

pub data Reachable : Users → Type 0 where
  init : Reachable (record { lock = record { locked = 0; pid = 0 }; at = λ _. away })
  step : (s s' : Users) → Reachable s → Step s s' → Reachable s'
