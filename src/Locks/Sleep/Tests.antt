-- ===== src/Locks/Sleep/Tests.antt =====
-- One process holds the lock and another sleeps at it, and the theorem there.
use ence.Base.{◌≡◌, refl, update}
use ence.Locks.Sleep.{away, asleep, acquiresleep, Users, acquires, Reachable, init, step}
use ence.Locks.Sleep.Wakeup.{Mutex, Reachable-Mutex}

abbrev fresh : Users
fresh = record { lock = record { locked = 0; pid = 0 }; at = λ _. away }

abbrev one : Users
one = record {
  lock = (acquiresleep fresh.lock 1).0;
  at = update fresh.at 1 (acquiresleep fresh.lock 1).1;
}

abbrev two : Users
two = record {
  lock = (acquiresleep one.lock 2).0;
  at = update one.at 2 (acquiresleep one.lock 2).1;
}

sleeps_test : two.at 2 ≡ asleep
unfolding acquiresleep
sleeps_test = refl

two-Reachable : Reachable two
two-Reachable = step one two (step fresh one init (acquires 1 refl)) (acquires 2 refl)

Reachable-Mutex_example : Mutex two
Reachable-Mutex_example = Reachable-Mutex two two-Reachable
