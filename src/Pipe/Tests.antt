-- ===== src/Pipe/Tests.antt =====
-- The functions of pipe.c on small inputs, and the theorems at them.
use ence.Base.{ℕ, zero, suc, ◌-◌, ◌^◌, ◌≡◌, refl, true, false, List, [], ◌∷◌, ◌++◌, arith}
use ence.Pipe.{
  Pipe, at_nread, failed, returned, pipesize, new_pipe, full, put, write_from, pipewrite, copy_out,
  piperead, pipeclose,
}
use ence.Pipe.Buffer.{held, IsValid, contents}
use ence.Pipe.Fifo.{view, fifo_write, fifo_read, pipewrite_refines, piperead_refines}
use ence.Pipe.System.{
  awake, sleeping, System, after_write, after_read, write, read, start, Reach, here, next,
}
use ence.Pipe.System.Safety.{
  fifo_order, sleeping_writer, sleeping_reader, killed_writer_loses_wakeup,
}

abbrev zeros : ℕ → ℕ
zeros _ = 0

-- Three bytes at the point where both counters wrap.
abbrev wrapping : Pipe
wrapping = record {
  bytes = λ i. i;
  nread = 2 ^ 32 - 2;
  nwrite = 1;
  readopen = true;
  writeopen = true;
}

contents-wrapping : contents wrapping ≡ 510 ∷ 511 ∷ 0 ∷ []
contents-wrapping = refl

wrapping-IsValid : IsValid wrapping
wrapping-IsValid = omega arith

wrapping_read : (piperead false wrapping 2).0 ≡ returned (510 ∷ 511 ∷ [])
unfolding piperead copy_out
wrapping_read = refl

close_both : (pipeclose (record wrapping { readopen = false }) true).0 ≡ true
unfolding pipeclose
close_both = refl

pipewrite_refines_example :
    let (o, woken, p') = pipewrite false wrapping (7 ∷ 8 ∷ []) in
    IsValid p' × ((o, woken, view p') ≡ fifo_write false (view wrapping) (7 ∷ 8 ∷ []))
pipewrite_refines_example = pipewrite_refines false (7 ∷ 8 ∷ []) wrapping-IsValid

piperead_refines_example :
    let (o, woken, p') = piperead false wrapping 2 in
    IsValid p' × ((o, woken, view p') ≡ fifo_read false (view wrapping) 2)
piperead_refines_example = piperead_refines false 2 wrapping-IsValid

-- Process 0 sleeps in a read, process 1 writes two bytes, process 0 reads one.
abbrev asleep_0 : System
asleep_0 = after_read (start zeros) 0 false 1

abbrev written : System
written = after_write asleep_0 1 false (5 ∷ 6 ∷ [])

abbrev read_one : System
read_one = after_read written 0 false 1

script : Reach false zeros read_one
unfolding after_read after_write piperead copy_out pipewrite write_from full put new_pipe
script =
    next (next (next here (read 0 false 1 refl refl)) (write 1 false (5 ∷ 6 ∷ []) refl refl refl))
      (read 0 false 1 refl refl)

fifo_order_example : read_one.sent ≡ read_one.received ++ contents read_one.pipe
fifo_order_example = fifo_order script

abbrev letters : ℕ → List ℕ
letters zero = []
letters (suc n) = b'a' ∷ letters n

-- Process 1 sleeps in a write of 513 bytes.
abbrev blocked : System
blocked = after_write (start zeros) 1 false (letters 513)

blocked_script : Reach false zeros blocked
unfolding new_pipe
blocked_script = next here (write 1 false (letters 513) refl refl refl)

sleeping_writer_example : (held blocked.pipe ≡ pipesize) × (blocked.pipe.readopen ≡ true)
unfolding after_write pipewrite write_from full put new_pipe
sleeping_writer_example = sleeping_writer blocked_script 1 refl

sleeping_reader_example : (held asleep_0.pipe ≡ 0) × (asleep_0.pipe.writeopen ≡ true)
unfolding after_read piperead new_pipe
sleeping_reader_example =
    sleeping_reader {junk = zeros} (next here (read 0 false 1 refl refl)) 0 refl

killed_writer_loses_wakeup_example :
    let t = after_write asleep_0 1 true (letters 513) in
    ((pipewrite true asleep_0.pipe (letters 513)).0 ≡ failed)
    × (t.procs 1 ≡ awake)
    × (t.procs 0 ≡ sleeping at_nread)
    × (held t.pipe ≡ pipesize)
unfolding after_read piperead new_pipe
killed_writer_loses_wakeup_example =
    killed_writer_loses_wakeup asleep_0 1 0 (letters 513) (omega arith) refl (omega arith) refl
      (omega arith)
