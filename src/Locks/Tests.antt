-- ===== src/Locks/Tests.antt =====
-- Two CPUs at a lock, and the theorems at them.
use ence.Base.{ℕ, ◌≡◌, refl, true, false, List, [], ◌∷◌}
use ence.Locks.{Cpu, inside, spins, outside, pushcli, popcli, move, run, start}
use ence.Locks.Flags.{Matched}
use ence.Locks.Exclusion.{Excluded, run-Excluded}
use ence.Locks.Progress.{Gets, spins-Gets}

-- interrupts are on
abbrev cpus : ℕ → Cpu
cpus _ = record { interrupts = true; ncli = 0; intena = false }

cpus-Matched : (i : ℕ) → Matched (cpus i)
unfolding Matched
cpus-Matched i e = refl

-- CPU 0 acquires, and CPU 1 starts to.
abbrev schedule : List ℕ
schedule = 0 ∷ 0 ∷ 0 ∷ 0 ∷ 1 ∷ 1 ∷ 1 ∷ []

inside_test : (run (start cpus) schedule).at 0 ≡ inside
unfolding run move pushcli popcli
inside_test = refl

spins_test : (run (start cpus) schedule).at 1 ≡ spins
unfolding run move pushcli popcli
spins_test = refl

-- CPU 0 releases.
released_test : (run (start cpus) (0 ∷ 0 ∷ 0 ∷ 0 ∷ 0 ∷ 0 ∷ 0 ∷ 0 ∷ [])).at 0 ≡ outside
unfolding run move pushcli popcli
released_test = refl

run-Excluded_example : Excluded cpus (run (start cpus) schedule)
run-Excluded_example = run-Excluded cpus schedule cpus-Matched

spins-Gets_example : Gets (run (start cpus) schedule) 1 6
spins-Gets_example = spins-Gets cpus schedule 1 cpus-Matched spins_test
