-- ===== src/Pipe/System/Safety.antt =====
-- What holds in every reachable state of processes over a pipe.
use ence.Base.{
  ℕ, ◌<◌, ◌≡◌, ◌≢◌, refl, Bool, true, false, not, ◌&&◌, List, ◌++◌, arith, update, take, drop,
  length, append_assoc, append-nil, take-append-drop,
}
use ence.Pipe.{failed, at_nread, at_nwrite, pipesize, new_pipe, pipewrite, piperead, pipeclose}
use ence.Pipe.Buffer.{held, IsValid, contents, length-contents}
use ence.Pipe.Fifo.{fifo_read, write_from-Wrote, held-Wrote, piperead_refines}
use ence.Pipe.System.{
  awake, sleeping, System, after_write, after_read, after_close, is_open, users, Step, write, read,
  close, kill, Reach, here, next,
}

-- A process sleeps only where it has to: a writer at a full pipe that can be read, and, where no
-- killed process writes, a reader at an empty pipe that can be written.
pub record Inv (fatal : Bool) (s : System) : Type 0 where
  pub valid : IsValid s.pipe
  pub stream : s.sent ≡ s.received ++ contents s.pipe
  pub writers :
      (j : ℕ) → s.procs j ≡ sleeping at_nwrite → (held s.pipe ≡ pipesize) × (s.pipe.readopen ≡ true)
  pub readers :
      fatal ≡ false
      → (j : ℕ) → s.procs j ≡ sleeping at_nread
      → (held s.pipe ≡ 0) × (s.pipe.writeopen ≡ true) × (s.pipe.readopen ≡ true)

module _ {fatal : Bool} {s : System} (v : Inv fatal s) where
  write-Inv :
      (i : ℕ) (killed : Bool) (cs : List ℕ)
      → s.pipe.writeopen ≡ true
      → (killed && not fatal) ≡ false
      → Inv fatal (after_write s i killed cs)
  unfolding after_write pipewrite
  write-Inv i killed cs ow allowed =
      let w = write_from-Wrote killed cs 0 v.valid in
      let n = held-Wrote w in
      record {
        valid = w.valid;
        stream = rw (w.queued, v.stream) (append_assoc s.received (contents s.pipe) _);
        writers = λ j e. ground (arith, w, n, v.writers j);
        readers = λ f j e. ground (arith, w, n, v.readers f j);
      }

  read-Inv :
      (i : ℕ) (killed : Bool) (n : ℕ) → s.pipe.readopen ≡ true → Inv fatal (after_read s i killed n)
  unfolding after_read fifo_read
  read-Inv i killed n ow =
      let w = piperead_refines killed n v.valid in
      let after = (piperead killed s.pipe n).2 in
      let lens : (length (contents s.pipe) ≡ held s.pipe) × (length (contents after) ≡ held after) =
        (length-contents s.pipe, length-contents after) in
      record {
        valid = w.0;
        stream = ground (
          arith,
          w.1,
          v.stream,
          append_assoc s.received (take n (contents s.pipe)) (drop n (contents s.pipe)),
          take-append-drop n (contents s.pipe),
          append-nil s.received,
        );
        writers = λ j e. ground (arith, w.1, v.writers j, lens);
        readers = λ f j e. ground (arith, w.1, v.readers f j, lens);
      }

  close-Inv :
      (writable : Bool)
      → is_open s.pipe writable ≡ true
      → ((j : ℕ) → s.procs j ≢ sleeping (users writable))
      → Inv fatal (after_close s writable)
  unfolding after_close pipeclose
  close-Inv true o none_asleep = record {
    valid = ground (arith, v.valid);
    stream = v.stream;
    writers = λ j e. ground (arith, v.writers j, none_asleep j);
    readers = λ f j e. ground (arith, v.readers f j, none_asleep j);
  }
  close-Inv false o none_asleep = record {
    valid = ground (arith, v.valid);
    stream = v.stream;
    writers = λ j e. ground (arith, v.writers j, none_asleep j);
    readers = λ f j e. ground (arith, v.readers f j, none_asleep j);
  }

  kill-Inv : (i : ℕ) → Inv fatal (record s { procs = update s.procs i awake })
  kill-Inv i = record {
    valid = v.valid;
    stream = v.stream;
    writers = λ j e. ground (arith, v.writers j);
    readers = λ f j e. ground (arith, v.readers f j);
  }

Step-Inv : {fatal : Bool} {s t : System} → Step fatal s t → Inv fatal s → Inv fatal t
Step-Inv (write i killed cs _ o k) v = write-Inv v i killed cs o k
Step-Inv (read i killed n _ o) v = read-Inv v i killed n o
Step-Inv (close writable o none_asleep) v = close-Inv v writable o none_asleep
Step-Inv (kill i) v = kill-Inv v i

Reach-Inv : {fatal : Bool} {junk : ℕ → ℕ} {s : System} → Reach fatal junk s → Inv fatal s
unfolding new_pipe
Reach-Inv here = record {
  valid = omega arith;
  stream = refl;
  writers = λ j e. cc;
  readers = λ f j e. cc;
}
Reach-Inv (next r st) = Step-Inv st (Reach-Inv r)

-- In every reachable state, killed processes included, the bytes sent are the bytes received, in
-- their order, followed by the bytes in the buffer: nothing is lost, doubled or reordered.
pub fifo_order :
    {fatal : Bool} {junk : ℕ → ℕ} {s : System}
    → Reach fatal junk s
    → s.sent ≡ s.received ++ contents s.pipe
fifo_order r = (Reach-Inv r).stream

-- In every reachable state, killed processes included, a writer sleeps only while the pipe is full
-- and its read end is open.
pub sleeping_writer :
    {fatal : Bool} {junk : ℕ → ℕ} {s : System}
    → Reach fatal junk s
    → (j : ℕ) → s.procs j ≡ sleeping at_nwrite
    → (held s.pipe ≡ pipesize) × (s.pipe.readopen ≡ true)
sleeping_writer r = (Reach-Inv r).writers

-- In every state reached with no write by a killed process, a reader sleeps only while the pipe is
-- empty and its write end is open.
pub sleeping_reader :
    {junk : ℕ → ℕ} {s : System}
    → Reach false junk s
    → (j : ℕ) → s.procs j ≡ sleeping at_nread
    → (held s.pipe ≡ 0) × (s.pipe.writeopen ≡ true)
sleeping_reader r j e =
    let (empty, open_end, _) = (Reach-Inv r).readers refl j e in (empty, open_end)

-- Where a reader sleeps at a valid, empty pipe, a writer that is killed and has more bytes than the pipe
-- holds fills the pipe and fails, and the reader goes on sleeping, with 512 bytes there to read.
pub killed_writer_loses_wakeup :
    (s : System) (i j : ℕ) (cs : List ℕ)
    → IsValid s.pipe
    → held s.pipe ≡ 0
    → i ≢ j
    → s.procs j ≡ sleeping at_nread
    → pipesize < length cs
    → let t = after_write s i true cs in
      ((pipewrite true s.pipe cs).0 ≡ failed)
      × (t.procs i ≡ awake)
      × (t.procs j ≡ sleeping at_nread)
      × (held t.pipe ≡ pipesize)
unfolding after_write pipewrite
killed_writer_loses_wakeup s i j cs v empty other asleep_at many =
    let w = write_from-Wrote true cs 0 v in ground (arith, w, held-Wrote w)
