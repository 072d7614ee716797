-- ===== src/Pipe/Fifo.antt =====
-- What a pipe promises: a queue of at most 512 bytes, and the calls of pipe.c against it.
use ence.Base.{
  ℕ, zero, suc, ◌+◌, ◌-◌, ◌≡◌, refl, ap, ◌∙◌, Bool, not, ◌&&◌, ◌||◌, List, [], ◌∷◌, ◌++◌, inl, inr,
  append_assoc, append-nil, arith, leb, ◌==◌, if◌then◌else◌, Bool-cases, length, take, drop,
  take-nil, length-append, length-take, min,
}
use ence.Pipe.{
  Pipe, Channel, at_nread, at_nwrite, Outcome, returned, failed, asleep, pipesize, full, put,
  write_from, pipewrite, copy_out, piperead,
}
use ence.Pipe.Buffer.{
  held, IsValid, contents, length-contents, full_iff, not_full, held-put, put-IsValid, contents-put,
  taken-IsValid, contents-taken, contents-empty,
}

-- The abstract pipe: its bytes, oldest first, and the ends that are open.
pub record Fifo : Type 0 where
  pub queue : List ℕ
  pub readopen : Bool
  pub writeopen : Bool

abbrev pub fifo : List ℕ → Bool → Bool → Fifo
fifo q r w = record { queue = q; readopen = r; writeopen = w }

abbrev pub view : Pipe → Fifo
view p = fifo (contents p) p.readopen p.writeopen

-- A write takes what fits. It returns if that is all, and otherwise fails or sleeps.
unfoldable pub fifo_write : Bool → Fifo → List ℕ → Outcome ℕ × List Channel × Fifo
fifo_write killed q cs =
    let room = pipesize - length q.queue in
    let q' = record q { queue = q.queue ++ take room cs } in
    if leb (length cs) room
    then (returned (length cs), at_nread ∷ [], q')
    else (if not q.readopen || killed then (failed, [], q') else (asleep room, at_nread ∷ [], q'))

-- A read takes what is there, and sleeps at an empty queue that can still be written.
unfoldable pub fifo_read : Bool → Fifo → ℕ → Outcome (List ℕ) × List Channel × Fifo
fifo_read killed q n =
    if leb (length q.queue) 0 && q.writeopen
    then (if killed then (failed, [], q) else (asleep [], [], q))
    else (returned (take n q.queue), at_nwrite ∷ [], record q { queue = drop n q.queue })

-- what a write of `n` bytes into `room` free ones returns and wakes, `i` bytes into its call
abbrev pub ending : Bool → Bool → ℕ → ℕ → ℕ → Outcome ℕ × List Channel
ending killed readopen n room i =
    if leb n room
    then (returned (i + n), at_nread ∷ [])
    else (if not readopen || killed then (failed, []) else (asleep (i + room), at_nread ∷ []))

pub record Wrote (killed : Bool) (p : Pipe) (cs : List ℕ) (i : ℕ)
    (out : Outcome ℕ × List Channel × Pipe) : Type 0 where
  pub valid : IsValid out.2
  pub queued : contents out.2 ≡ contents p ++ take (pipesize - held p) cs
  pub same_read : out.2.readopen ≡ p.readopen
  pub same_write : out.2.writeopen ≡ p.writeopen
  pub result : out.0 ≡ (ending killed p.readopen (length cs) (pipesize - held p) i).0
  pub wakes : out.1 ≡ (ending killed p.readopen (length cs) (pipesize - held p) i).1

put-readopen : (p : Pipe) (c : ℕ) → (put p c).readopen ≡ p.readopen
unfolding put
put-readopen p c = refl

put-writeopen : (p : Pipe) (c : ℕ) → (put p c).writeopen ≡ p.writeopen
unfolding put
put-writeopen p c = refl

pub write_from-Wrote :
    (killed : Bool) (cs : List ℕ) {p : Pipe} (i : ℕ)
    → IsValid p
    → Wrote killed p cs i (write_from killed p cs i)
unfolding write_from
write_from-Wrote killed [] {p} i v =
    ground (arith, append-nil (contents p), take-nil ℕ (pipesize - held p))
write_from-Wrote killed (c ∷ cs) {p} i v = elim (Bool-cases (full p)) [
  | inl e ↦
      let none_left : pipesize - held p ≡ 0 = omega (arith, full_iff v e) in
      rw e record {
        valid = ground arith;
        queued = rw none_left (ground (arith, append-nil (contents p)));
        same_read = ground arith;
        same_write = ground arith;
        result = rw none_left (ground arith);
        wakes = rw none_left (ground arith);
      }
  | inr e ↦
      let w = write_from-Wrote killed cs (i + 1) (put-IsValid v c e) in
      let some_left : pipesize - held p ≡ suc (pipesize - held (put p c)) =
        omega (arith, not_full v e, held-put v c e) in
      rw e record {
        valid = w.valid;
        queued =
            rw (some_left, w.queued, contents-put v c e)
              (append_assoc (contents p) (c ∷ []) (take (pipesize - held (put p c)) cs));
        same_read = w.same_read ∙ put-readopen p c;
        same_write = w.same_write ∙ put-writeopen p c;
        result = rw (w.result, some_left) (ground (arith, put-readopen p c));
        wakes = rw (w.wakes, some_left) (ground (arith, put-readopen p c));
      }
]

pub held-Wrote :
    {killed : Bool} {p : Pipe} {cs : List ℕ} {i : ℕ} {out : Outcome ℕ × List Channel × Pipe}
    → Wrote killed p cs i out
    → held out.2 ≡ held p + min (pipesize - held p) (length cs)
held-Wrote {p} {cs} {out} w = omega (
  arith,
  ap length w.queued,
  length-contents p,
  length-contents out.2,
  length-append (contents p) (take (pipesize - held p) cs),
  length-take (pipesize - held p) cs,
)

-- pipewrite is the write of the abstract pipe, and keeps the representation valid: it queues exactly
-- the bytes that fit, returns their number when all did, and otherwise fails if the reader has gone
-- or the caller is killed, and else sleeps with the rest to go.
pub pipewrite_refines :
    {p : Pipe} (killed : Bool) (addr : List ℕ)
    → IsValid p
    → let (o, woken, p') = pipewrite killed p addr in
      IsValid p' × ((o, woken, view p') ≡ fifo_write killed (view p) addr)
unfolding pipewrite fifo_write
pipewrite_refines {p} killed addr v =
    let w = write_from-Wrote killed addr 0 v in (w.valid, ground (arith, w, length-contents p))

record Copied (p : Pipe) (n : ℕ) (out : List ℕ × Pipe) : Type 0 where
  valid : IsValid out.1
  bytes : out.0 ≡ take n (contents p)
  left : contents out.1 ≡ drop n (contents p)
  same_read : out.1.readopen ≡ p.readopen
  same_write : out.1.writeopen ≡ p.writeopen

copy_out-Copied : (n : ℕ) {p : Pipe} → IsValid p → Copied p n (copy_out p n)
unfolding copy_out
copy_out-Copied zero v = record {
  valid = v;
  bytes = refl;
  left = refl;
  same_read = refl;
  same_write = refl;
}
copy_out-Copied (suc n) {p} v = elim (Bool-cases (p.nread == p.nwrite)) [
  | inl e ↦ ground (arith, contents-empty v e)
  | inr e ↦ ground (arith, copy_out-Copied n (taken-IsValid v e), contents-taken v e)
]

-- piperead is the read of the abstract pipe, and keeps the representation valid: it returns the
-- oldest bytes, at most `n`, in order, and leaves the rest; at an empty pipe whose write end is open
-- it fails if the caller is killed, and else sleeps.
pub piperead_refines :
    {p : Pipe} (killed : Bool) (n : ℕ)
    → IsValid p
    → let (o, woken, p') = piperead killed p n in
      IsValid p' × ((o, woken, view p') ≡ fifo_read killed (view p) n)
unfolding piperead fifo_read
piperead_refines {p} killed n v =
    let w = copy_out-Copied n v in ground (arith, w, length-contents p)
