-- ===== src/Pipe/System.antt =====
-- Processes that share a pipe, interleaved at the segments of pipe.c, each of which runs under the
-- lock. A process that was woken makes a further call, with the bytes that it has left; that is one
-- of the calls open to an awake process. The ends of the pipe stay open while a process sleeps in a
-- call, since it holds the file.
pub mod Safety
use ence.Base.{
  ℕ, ◌-◌, ◌≡◌, ◌≢◌, Bool, true, false, not, ◌&&◌, ◌||◌, List, [], ◌∷◌, ◌++◌, update, take,
}
use ence.Pipe.{
  Pipe, Channel, at_nread, at_nwrite, Outcome, returned, failed, asleep, pipesize, new_pipe,
  pipewrite, piperead, pipeclose,
}
use ence.Pipe.Buffer.{held}

pub data Proc : Type 0 where
  awake : Proc
  sleeping : Channel → Proc

abbrev pub same_channel : Channel → Channel → Bool
same_channel at_nread at_nread = true
same_channel at_nwrite at_nwrite = true
same_channel _ _ = false

-- wakeup on each channel of the list
abbrev pub wake : List Channel → Proc → Proc
wake [] q = q
wake (c ∷ cs) awake = awake
wake (c ∷ cs) (sleeping d) = elim (same_channel c d) [ true ↦ awake | false ↦ wake cs (sleeping d) ]

-- the caller after a segment whose sleep is on `c`
abbrev pub settle {ℓ} : {A : Type ℓ} → Channel → Outcome A → Proc
settle c (asleep _) = sleeping c
settle c _ = awake

-- what a read has delivered
abbrev pub delivered : Outcome (List ℕ) → List ℕ
delivered (returned cs) = cs
delivered _ = []

-- `sent` and `received` record the bytes that went in and out so far.
pub record System : Type 0 where
  pub pipe : Pipe
  pub procs : ℕ → Proc
  pub sent : List ℕ
  pub received : List ℕ

unfoldable pub after_write : System → ℕ → Bool → List ℕ → System
after_write s i killed cs =
    let (o, woken, p') = pipewrite killed s.pipe cs in
    record s {
      pipe = p';
      procs = update (λ j. wake woken (s.procs j)) i (settle at_nwrite o);
      sent = s.sent ++ take (pipesize - held s.pipe) cs;
    }

unfoldable pub after_read : System → ℕ → Bool → ℕ → System
after_read s i killed n =
    let (o, woken, p') = piperead killed s.pipe n in
    record s {
      pipe = p';
      procs = update (λ j. wake woken (s.procs j)) i (settle at_nread o);
      received = s.received ++ delivered o;
    }

unfoldable pub after_close : System → Bool → System
after_close s writable =
    let (gone, woken, p') = pipeclose s.pipe writable in
    record s { pipe = p'; procs = λ j. wake woken (s.procs j) }

-- the channel on which the users of an end sleep
abbrev pub users : Bool → Channel
users true = at_nwrite
users false = at_nread

abbrev pub is_open : Pipe → Bool → Bool
is_open p true = p.writeopen
is_open p false = p.readopen

-- `fatal` allows writers that are killed when they call.
pub data Step (fatal : Bool) (s : System) : System → Type 0 where
  write :
      (i : ℕ) (killed : Bool) (cs : List ℕ)
      → s.procs i ≡ awake
      → s.pipe.writeopen ≡ true
      → (killed && not fatal) ≡ false
      → Step fatal s (after_write s i killed cs)
  read :
      (i : ℕ) (killed : Bool) (n : ℕ)
      → s.procs i ≡ awake
      → s.pipe.readopen ≡ true
      → Step fatal s (after_read s i killed n)
  close :
      (writable : Bool)
      → is_open s.pipe writable ≡ true
      → ((j : ℕ) → s.procs j ≢ sleeping (users writable))
      → Step fatal s (after_close s writable)
  -- kill makes a sleeping process runnable
  kill : (i : ℕ) → Step fatal s (record s { procs = update s.procs i awake })

abbrev pub start : (ℕ → ℕ) → System
start junk = record { pipe = new_pipe junk; procs = λ _. awake; sent = []; received = [] }

pub data Reach (fatal : Bool) (junk : ℕ → ℕ) : System → Type 0 where
  here : Reach fatal junk (start junk)
  next : {s t : System} → Reach fatal junk s → Step fatal s t → Reach fatal junk t
