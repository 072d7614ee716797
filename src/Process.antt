-- ===== src/Process.antt =====
-- lab10xv6/xv6/proc.c: the process table. A process is named by its slot. What holds the lock of the
-- table throughout is one function of the table. Memory enters by whether kalloc and copyuvm succeed;
-- files, directories and registers are left out.
pub mod Loops
pub mod System
pub mod Family
pub mod Kill
mod Tests
use ence.Base.{
  ℕ, zero, suc, ◌+◌, Bool, true, false, not, ◌&&◌, ◌||◌, Option, none, some, ltb, ◌==◌, update,
  if◌then◌else◌, u32,
}

-- enum procstate
pub data State : Type 0 where
  unused embryo sleeping runnable running zombie : State

abbrev pub is : State → State → Bool
is unused unused = true
is embryo embryo = true
is sleeping sleeping = true
is runnable runnable = true
is running running = true
is zombie zombie = true
is _ _ = false

-- What a process sleeps on: the address of a process, or of something else.
pub data Chan : Type 0 where
  no_chan : Chan
  slot : ℕ → Chan
  object : ℕ → Chan

abbrev pub same_chan : Chan → Chan → Bool
same_chan (slot i) (slot j) = i == j
same_chan (object a) (object b) = a == b
same_chan no_chan no_chan = true
same_chan _ _ = false

abbrev pub is_parent : Option ℕ → ℕ → Bool
is_parent none p = false
is_parent (some q) p = q == p

-- struct proc
pub record Proc : Type 0 where
  pub state : State
  pub pid : ℕ
  pub parent : Option ℕ
  pub chan : Chan
  pub killed : Bool
  pub kstack : Bool  -- a kernel stack is allocated

-- NPROC
abbrev pub nproc : ℕ
nproc = 64

-- ptable, with nextpid and initproc
pub record Table : Type 0 where
  pub procs : ℕ → Proc
  pub nextpid : ℕ
  pub initproc : ℕ

abbrev pub set_state : (ℕ → Proc) → ℕ → State → ℕ → Proc
set_state procs i s = update procs i (record (procs i) { state = s })

-- the first slot from `i` on, of `k`, that passes the test
unfoldable pub first_from : (Proc → Bool) → (ℕ → Proc) → (i k : ℕ) → Option ℕ
first_from test procs i zero = none
first_from test procs i (suc k) =
    let rest = first_from test procs (i + 1) k in if test (procs i) then some i else rest

-- what allocproc does with the slot that it found
pub alloc_in : Table → (stack : Bool) → Option ℕ → Option ℕ × Table
alloc_in t stack none = (none, t)
alloc_in t stack (some i) =
    let p = record (t.procs i) { pid = t.nextpid; kstack = stack } in
    if stack
    then (
      some i,
      record t {
        procs = update t.procs i (record p { state = embryo });
        nextpid = u32 (t.nextpid + 1);
      },
    )
    else (
      none,
      record t {
        procs = update t.procs i (record p { state = unused });
        nextpid = u32 (t.nextpid + 1);
      },
    )

-- allocproc; `stack` says whether kalloc gives a kernel stack.
pub allocproc : Table → (stack : Bool) → Option ℕ × Table
allocproc t stack = alloc_in t stack (first_from (λ p. is p.state unused) t.procs 0 nproc)

-- the table before userinit
abbrev pub empty_table : Table
empty_table = record {
  procs = λ _. record {
    state = unused;
    pid = 0;
    parent = none;
    chan = no_chan;
    killed = false;
    kstack = false;
  };
  nextpid = 1;
  initproc = 0;
}

-- what userinit does with the slot that allocproc returned; it does not test for a null pointer.
pub userinit_in : Option ℕ × Table → Option Table
userinit_in (none, t) = none
userinit_in (some i, t) = some (record t { procs = set_state t.procs i runnable; initproc = i })

-- userinit, where memory suffices for the process; `none` is the fault at a null pointer.
pub userinit : Table → (stack : Bool) → Option Table
userinit t stack = userinit_in (allocproc t stack)

-- what fork does with the slot that allocproc returned
pub fork_in : (cur : ℕ) (copied : Bool) → Option ℕ × Table → Option ℕ × Table
fork_in cur copied (none, t) = (none, t)
fork_in cur copied (some np, t) =
    let p = t.procs np in
    if copied
    then (
      some p.pid,
      record t { procs = update t.procs np (record p { parent = some cur; state = runnable }) },
    )
    else (
      none,
      record t { procs = update t.procs np (record p { kstack = false; state = unused }) },
    )

-- fork by the process in slot `cur`: the pid, or `none` for -1; `copied` says whether copyuvm
-- succeeds.
pub fork : Table → (cur : ℕ) (stack copied : Bool) → Option ℕ × Table
fork t cur stack copied = fork_in cur copied (allocproc t stack)

pub wakeup1 : (ℕ → Proc) → Chan → ℕ → Proc
wakeup1 procs c i =
    let p = procs i in
    if is p.state sleeping && same_chan p.chan c then record p { state = runnable } else p

abbrev pub chan_of : Option ℕ → Chan
chan_of none = no_chan
chan_of (some p) = slot p

-- the loop of exit that passes children to init, from slot `i` on, for `k` slots
unfoldable pub reparent_from : (cur init : ℕ) → (ℕ → Proc) → (i k : ℕ) → ℕ → Proc
reparent_from cur init procs i zero = procs
reparent_from cur init procs i (suc k) =
    let moved = update procs i (record (procs i) { parent = some init }) in
    let procs' = if is (procs i).state zombie then wakeup1 moved (slot init) else moved in
    reparent_from cur init (if is_parent (procs i).parent cur then procs' else procs) (i + 1) k

-- exit up to sched; `none` is the panic.
pub exit : Table → (cur : ℕ) → Option Table
exit t cur =
    let woken = wakeup1 t.procs (chan_of (t.procs cur).parent) in
    let moved = reparent_from cur t.initproc woken 0 nproc in
    if cur == t.initproc then none else some (record t { procs = set_state moved cur zombie })

pub data Waited : Type 0 where
  reaped : (pid : ℕ) → Waited
  failed : Waited
  asleep : Waited

-- the slot of a reaped child
abbrev pub cleared : Proc → Proc
cleared p = record p { state = unused; pid = 0; parent = none; killed = false; kstack = false }

-- what wait does with the first child that has exited and the first child
pub wait_for : Table → (cur : ℕ) → (gone kid : Option ℕ) → Waited × Table
wait_for t cur (some i) kid =
    (reaped (t.procs i).pid, record t { procs = update t.procs i (cleared (t.procs i)) })
wait_for t cur none none = (failed, t)
wait_for t cur none (some _) =
    let p = record (t.procs cur) { chan = slot cur; state = sleeping } in
    if (t.procs cur).killed
    then (failed, t)
    else (asleep, record t { procs = update t.procs cur p })

-- One pass of the loop of wait, under the lock: a child that has exited is reaped, or the call fails,
-- or the process goes to sleep on its own address.
pub wait : Table → (cur : ℕ) → Waited × Table
wait t cur =
    wait_for t cur (first_from (λ p. is_parent p.parent cur && is p.state zombie) t.procs 0 nproc)
      (first_from (λ p. is_parent p.parent cur) t.procs 0 nproc)

-- What scheduler does with a slot of its loop. A process that slept clears its channel as it goes on.
pub schedule : Table → (i : ℕ) → Table
schedule t i =
    let p = record (t.procs i) { state = running; chan = no_chan } in
    if is (t.procs i).state runnable then record t { procs = update t.procs i p } else t

pub yield : Table → (cur : ℕ) → Table
yield t cur = record t { procs = set_state t.procs cur runnable }

-- sleep up to sched
pub sleep : Table → (cur : ℕ) (c : Chan) → Table
sleep t cur c = record t {
  procs = update t.procs cur (record (t.procs cur) { chan = c; state = sleeping });
}

pub wakeup : Table → Chan → Table
wakeup t c = record t { procs = wakeup1 t.procs c }

pub kill_in : Table → Option ℕ → Bool × Table
kill_in t none = (false, t)
kill_in t (some i) =
    let p = t.procs i in
    let s = if is p.state sleeping then runnable else p.state in
    (true, record t { procs = update t.procs i (record p { killed = true; state = s }) })

-- kill: whether a process had the pid
pub kill : Table → (pid : ℕ) → Bool × Table
kill t pid = kill_in t (first_from (λ p. p.pid == pid) t.procs 0 nproc)
