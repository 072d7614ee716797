-- ===== src/Pipe.antt =====
-- lab10xv6/xv6/pipe.c: pipewrite, piperead and pipeclose. A call holds the lock of the pipe from
-- its start to its end, or to the point where it sleeps, so each such segment is one function of the
-- pipe. A call that was woken goes on with the bytes that are left. What a segment wakes is a list
-- of the channels passed to wakeup.
pub mod Buffer
pub mod Fifo
pub mod System
mod Tests
use ence.Base.{
  ℕ, zero, suc, ◌+◌, ◌%◌, ◌^◌, Bool, true, false, not, ◌&&◌, ◌||◌, List, [], ◌∷◌, ◌==◌, u32, update,
  if◌then◌else◌,
}

-- PIPESIZE
abbrev pub pipesize : ℕ
pipesize = 512

-- struct pipe, without its lock
pub record Pipe : Type 0 where
  pub bytes : ℕ → ℕ  -- the array `data`
  pub nread : ℕ
  pub nwrite : ℕ
  pub readopen : Bool
  pub writeopen : Bool

-- The addresses &p->nread and &p->nwrite, on which processes sleep.
pub data Channel : Type 0 where
  at_nread at_nwrite : Channel

-- How a segment of a call ends: with a result, with -1, or asleep.
pub data Outcome {ℓ} (A : Type ℓ) : Type ℓ where
  returned : A → Outcome A
  failed : Outcome A
  asleep : A → Outcome A

-- The fields that pipealloc sets
pub new_pipe : (ℕ → ℕ) → Pipe
new_pipe junk = record { bytes = junk; nread = 0; nwrite = 0; readopen = true; writeopen = true }

-- the condition of the while loop of pipewrite
pub full : Pipe → Bool
full p = p.nwrite == u32 (p.nread + pipesize)

-- p->data[p->nwrite++ % PIPESIZE] = c
pub put : Pipe → ℕ → Pipe
put p c = record p { bytes = update p.bytes (p.nwrite % pipesize) c; nwrite = u32 (p.nwrite + 1) }

-- pipewrite from the test of its inner loop, with `addr[i..n)` to go: the outcome holds `i`, then
-- come the channels woken and the pipe.
pub write_from : Bool → Pipe → List ℕ → ℕ → Outcome ℕ × List Channel × Pipe
write_from killed p [] i = (returned i, at_nread ∷ [], p)
write_from killed p (c ∷ cs) i =
    let rest = write_from killed (put p c) cs (i + 1) in
    if full p
    then (if not p.readopen || killed then (failed, [], p) else (asleep i, at_nread ∷ [], p))
    else rest

pub pipewrite : Bool → Pipe → List ℕ → Outcome ℕ × List Channel × Pipe
pipewrite killed p addr = write_from killed p addr 0

-- the copying loop of piperead, with at most `k` rounds to go
pub copy_out : Pipe → ℕ → List ℕ × Pipe
copy_out p zero = ([], p)
copy_out p (suc k) =
    let (cs, p') = copy_out (record p { nread = u32 (p.nread + 1) }) k in
    if p.nread == p.nwrite then ([], p) else (p.bytes (p.nread % pipesize) ∷ cs, p')

-- piperead from the test of its first loop: the outcome holds the bytes copied to `addr`.
pub piperead : Bool → Pipe → ℕ → Outcome (List ℕ) × List Channel × Pipe
piperead killed p n =
    let (cs, p') = copy_out p n in
    if (p.nread == p.nwrite) && p.writeopen
    then (if killed then (failed, [], p) else (asleep [], [], p))
    else (returned cs, at_nwrite ∷ [], p')

-- pipeclose; the Boolean says whether the page is given back by kfree.
pub pipeclose : Pipe → Bool → Bool × List Channel × Pipe
pipeclose p writable =
    if writable
    then (not p.readopen, at_nread ∷ [], record p { writeopen = false })
    else (not p.writeopen, at_nwrite ∷ [], record p { readopen = false })
