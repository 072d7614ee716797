-- ===== src/Files/System.antt =====
-- The table of files under the calls of all processes, one whole call, fork or exit at a time.
use ence.Base.{
  ℕ, ◌+◌, ◌-◌, ◌<◌, ◌≡◌, ◌≢◌, ◌⊎◌, inl, inr, refl, sym, ap, ◌∙◌, subst, Bool, true, false, Option,
  none, some, [], update, update_self, update_ne, ℕ_discrete, arith, ℤ,
}
use mathlib.Core.Option.{some-injective}
use ence.Files.{
  nofile, File, fd_none, Called, sys_dup, sys_close, open_file, sys_pipe, fork_files, exit_files,
}
use ence.Files.Count.{nproc, sum_zero, count, count_none, holders, holders-update, count-holders}
use ence.Files.Pipes.{sys_pipe-Balances}
use ence.Files.Calls.{
  Balanced, Balances, returned, sys_dup-Balances, sys_close-Balances, open_file-Balances,
}
use ence.Files.Loops.{Forks, forked, fork_files-Forks, Exits, exited, exit_files-Exits}

pub data Call : Type 0 where
  dups : (fd : ℤ) → Call
  closes : (fd : ℤ) → Call
  opens : (ip : ℕ) (readable writable : Bool) → Call
  -- with the page that kalloc gives, or 0
  pipes : (page : ℕ) → Call

abbrev pub call : Call → (files : ℕ → File) (ofile : ℕ → Option ℕ) → Option Called
call (dups fd) files ofile = sys_dup files ofile fd
call (closes fd) files ofile = sys_close files ofile fd
call (opens ip readable writable) files ofile = open_file files ofile ip readable writable
call (pipes page) files ofile = sys_pipe files ofile page

-- The files, the descriptors of each slot of the process table, and the slots with a process that has not
-- exited.
pub record State : Type 0 where
  pub files : ℕ → File
  pub tables : ℕ → ℕ → Option ℕ
  pub alive : ℕ → Bool

abbrev pub no_file : File
no_file = record {
  type = fd_none;
  ref = 0;
  readable = false;
  writable = false;
  pipe = 0;
  ip = 0;
  off = 0;
}

pub data Step (s : State) : State → Type 0 where
  calls :
      (p : ℕ) (k : Call) (c : Called)
      → p < nproc
      → s.alive p ≡ true
      → call k s.files (s.tables p) ≡ some c
      → Step s (record s { files = c.files; tables = update s.tables p c.ofile })
  -- `p` forks into the slot `q`
  forks :
      (p q : ℕ) (files : ℕ → File) (child : ℕ → Option ℕ)
      → p < nproc
      → q < nproc
      → s.alive p ≡ true
      → s.alive q ≡ false
      → fork_files s.files (s.tables p) (s.tables q) 0 nofile ≡ some (files, child)
      → Step s (record {
        files = files;
        tables = update s.tables q child;
        alive = update s.alive q true;
      })
  exits :
      (p : ℕ) (c : Called)
      → p < nproc
      → s.alive p ≡ true
      → exit_files s.files (s.tables p) 0 nofile [] ≡ some c
      → Step s (record {
        files = c.files;
        tables = update s.tables p c.ofile;
        alive = update s.alive p false;
      })

-- The first process is in the slot `p`.
pub data Reachable (p : ℕ) : State → Type 0 where
  boots :
      Reachable p
        (record { files = λ _. no_file; tables = λ _ _. none; alive = update (λ _. false) p true })
  step : (s s' : State) → Reachable p s → Step s s' → Reachable p s'

-- The references of each file are the descriptors that hold it, so no call panics in filedup or fileclose.
pub record Counted (s : State) : Type 0 where
  pub refs : (g : ℕ) → (s.files g).ref ≡ holders s.tables g
  pub call_returns : (p : ℕ) (k : Call) → p < nproc → call k s.files (s.tables p) ≢ none
  pub fork_returns :
      (p q : ℕ)
      → p < nproc
      → q < nproc
      → s.alive q ≡ false
      → fork_files s.files (s.tables p) (s.tables q) 0 nofile ≢ none
  pub exit_returns : (p : ℕ) → p < nproc → exit_files s.files (s.tables p) 0 nofile [] ≢ none

record Kept (s : State) : Type 0 where
  refs : (g : ℕ) → (s.files g).ref ≡ holders s.tables g
  gone : (p : ℕ) → s.alive p ≡ false → (d : ℕ) → d < nofile → s.tables p d ≡ none

-- the references by other processes
abbrev others : State → ℕ → ℕ → ℕ
others s p g = holders s.tables g - count (s.tables p) g

Kept-Balanced :
    (s : State) (p : ℕ) → Kept s → p < nproc → Balanced (others s p) s.files (s.tables p)
unfolding Balanced
Kept-Balanced s p k lt g = omega (arith, k.refs g, count-holders s.tables p g lt)

refs_after :
    (s : State) (p : ℕ) (files : ℕ → File) (ofile : ℕ → Option ℕ)
    → p < nproc
    → Balanced (others s p) files ofile
    → (g : ℕ) → (files g).ref ≡ holders (update s.tables p ofile) g
unfolding Balanced
refs_after s p files ofile lt b g =
    omega (arith, b g, holders-update s.tables p ofile g lt, count-holders s.tables p g lt)

call-Balances :
    (extra : ℕ → ℕ) (k : Call) (files : ℕ → File) (ofile : ℕ → Option ℕ)
    → Balanced extra files ofile
    → Balances extra (call k files ofile)
call-Balances extra (dups fd) files ofile b = sys_dup-Balances extra files ofile fd b
call-Balances extra (closes fd) files ofile b = sys_close-Balances extra files ofile fd b
call-Balances extra (opens ip readable writable) files ofile b =
    open_file-Balances extra files ofile ip readable writable b
call-Balances extra (pipes page) files ofile b = sys_pipe-Balances extra files ofile page b

Balances-some :
    (extra : ℕ → ℕ) (o : Option Called) (c : Called)
    → Balances extra o
    → o ≡ some c
    → Balanced extra c.files c.ofile
Balances-some extra _ c (returned c' b) e =
    let same : c' ≡ c = some-injective c' c e in
    subst (λ (c : Called). Balanced extra c.files c.ofile) same b

Balances-returns : (extra : ℕ → ℕ) (o : Option Called) → Balances extra o → o ≢ none
Balances-returns extra _ (returned c b) e = ground (arith, e)

gone_after :
    (s : State) (p : ℕ) (ofile : ℕ → Option ℕ) (alive : ℕ → Bool)
    → ((q : ℕ)
        → alive q ≡ false
        → (q ≡ p × ((d : ℕ) → d < nofile → ofile d ≡ none)) ⊎ (q ≢ p × (s.alive q ≡ false)))
    → Kept s
    → (q : ℕ) → alive q ≡ false
    → (d : ℕ) → d < nofile
    → update s.tables p ofile q d ≡ none
gone_after s p ofile alive h k q e d lt = elim (h q e) [
  | inl (same, left) ↦
      ap (λ (r : ℕ). update s.tables p ofile r d) same
      ∙ ap (λ (t : ℕ → Option ℕ). t d) (update_self s.tables p ofile)
      ∙ left d lt
  | inr (ne, dead) ↦
      ap (λ (t : ℕ → Option ℕ). t d) (update_ne s.tables p q ofile ne) ∙ k.gone q dead d lt
]

call-Kept :
    (s : State) (p : ℕ) (k : Call) (c : Called)
    → p < nproc
    → s.alive p ≡ true
    → call k s.files (s.tables p) ≡ some c
    → Kept s
    → Kept (record s { files = c.files; tables = update s.tables p c.ofile })
call-Kept s p k c lt live e h = record {
  refs = refs_after s p c.files c.ofile lt (
      Balances-some (others s p) (call k s.files (s.tables p)) c
        (call-Balances (others s p) k s.files (s.tables p) (Kept-Balanced s p h lt)) e);
  gone =
      gone_after s p c.ofile s.alive
        (λ q dead.
          inr (λ same. let lives = ap s.alive same in ground (arith, lives, dead, live), dead))
        h;
}

fork-Forks :
    (s : State) (p q : ℕ)
    → Kept s
    → p < nproc
    → s.alive q ≡ false
    → Forks (others s p) (s.tables p) (fork_files s.files (s.tables p) (s.tables q) 0 nofile)
fork-Forks s p q h lt dead =
    fork_files-Forks (others s p) s.files (s.tables p) (s.tables q) 0 nofile refl
      (λ d _ l. h.gone q dead d l)
      (unfold Balanced in
        λ g. omega (
          arith,
          h.refs g,
          count-holders s.tables p g lt,
          count_none (s.tables q) g (h.gone q dead),
        ))

Forks-some :
    (extra : ℕ → ℕ) (ofile : ℕ → Option ℕ) (o : Option ((ℕ → File) × (ℕ → Option ℕ)))
    (files : ℕ → File) (child : ℕ → Option ℕ)
    → Forks extra ofile o
    → o ≡ some (files, child)
    → Balanced (λ g. extra g + count ofile g) files child
Forks-some extra ofile _ files child (forked files' child' b) e =
    let same : (files', child') ≡ (files, child) =
      some-injective (files', child') (files, child) e in
    subst (λ (r : (ℕ → File) × (ℕ → Option ℕ)). Balanced (λ g. extra g + count ofile g) r.0 r.1)
      same b

Forks-returns :
    (extra : ℕ → ℕ) (ofile : ℕ → Option ℕ) (o : Option ((ℕ → File) × (ℕ → Option ℕ)))
    → Forks extra ofile o
    → o ≢ none
Forks-returns extra ofile _ (forked files child b) e = ground (arith, e)

fork-Kept :
    (s : State) (p q : ℕ) (files : ℕ → File) (child : ℕ → Option ℕ)
    → p < nproc
    → q < nproc
    → s.alive p ≡ true
    → s.alive q ≡ false
    → fork_files s.files (s.tables p) (s.tables q) 0 nofile ≡ some (files, child)
    → Kept s
    → Kept
        (record { files = files; tables = update s.tables q child; alive = update s.alive q true })
fork-Kept s p q files child lt lt' live dead e h =
    let b =
      Forks-some (others s p) (s.tables p) (fork_files s.files (s.tables p) (s.tables q) 0 nofile)
        files child (fork-Forks s p q h lt dead) e in
    record {
      refs = λ g.
          unfold Balanced in
          omega (
            arith,
            b g,
            holders-update s.tables q child g lt',
            count-holders s.tables p g lt,
            count_none (s.tables q) g (h.gone q dead),
          );
      gone =
          gone_after s q child (update s.alive q true)
            (λ r gone. elim (ℕ_discrete r q) [
              | yes same ↦
                  let born = ap (update s.alive q true) same ∙ update_self s.alive q true in
                  ground (arith, born, gone)
              | no ne ↦ inr (ne, sym (update_ne s.alive q r true ne) ∙ gone)
            ])
            h;
    }

exit-Exits :
    (s : State) (p : ℕ)
    → Kept s
    → p < nproc
    → Exits (others s p) (exit_files s.files (s.tables p) 0 nofile [])
exit-Exits s p h lt =
    exit_files-Exits (others s p) s.files (s.tables p) 0 nofile [] refl
      (λ d l. absurd (omega arith)) (Kept-Balanced s p h lt)

Exits-some :
    (extra : ℕ → ℕ) (o : Option Called) (c : Called)
    → Exits extra o
    → o ≡ some c
    → Balanced extra c.files c.ofile × ((d : ℕ) → d < nofile → c.ofile d ≡ none)
Exits-some extra _ c (exited c' b left) e =
    subst
      (λ (c : Called). Balanced extra c.files c.ofile × ((d : ℕ) → d < nofile → c.ofile d ≡ none))
      (some-injective c' c e) (b, left)

Exits-returns : (extra : ℕ → ℕ) (o : Option Called) → Exits extra o → o ≢ none
Exits-returns extra _ (exited c b left) e = ground (arith, e)

exit-Kept :
    (s : State) (p : ℕ) (c : Called)
    → p < nproc
    → exit_files s.files (s.tables p) 0 nofile [] ≡ some c
    → Kept s
    → Kept (record {
      files = c.files;
      tables = update s.tables p c.ofile;
      alive = update s.alive p false;
    })
exit-Kept s p c lt e h =
    let (b, left) =
      Exits-some (others s p) (exit_files s.files (s.tables p) 0 nofile []) c (exit-Exits s p h lt)
        e in
    record {
      refs = refs_after s p c.files c.ofile lt b;
      gone =
          gone_after s p c.ofile (update s.alive p false)
            (λ r gone. elim (ℕ_discrete r p) [
              | yes same ↦ inl (same, left)
              | no ne ↦ inr (ne, sym (update_ne s.alive p r false ne) ∙ gone)
            ])
            h;
    }

step-Kept : (s s' : State) → Kept s → Step s s' → Kept s'
step-Kept s _ h (calls p k c lt live e) = call-Kept s p k c lt live e h
step-Kept s _ h (forks p q files child lt lt' live dead e) =
    fork-Kept s p q files child lt lt' live dead e h
step-Kept s _ h (exits p c lt live e) = exit-Kept s p c lt e h

Reachable-Kept : (p : ℕ) (s : State) → Reachable p s → Kept s
Reachable-Kept p _ boots = record {
  refs = λ g.
      sym (
        sum_zero nproc (λ q. count (λ _. none) g) (λ q lt. count_none (λ _. none) g (λ d l. refl)));
  gone = λ q e d lt. refl;
}
Reachable-Kept p _ (step s s' r m) = step-Kept s s' (Reachable-Kept p s r) m

-- Whatever calls of sys_dup, sys_close, sys_open and sys_pipe, forks and exits the processes make from the boot on,
-- the references of every file are the number of the descriptors of all processes that hold it; and none of
-- the calls, forks into a slot without a process, and exits panics in filedup or fileclose.
pub Reachable-Counted : (p : ℕ) (s : State) → Reachable p s → Counted s
Reachable-Counted p s r =
    let h = Reachable-Kept p s r in
    record {
      refs = h.refs;
      call_returns = λ p k lt.
          Balances-returns (others s p) (call k s.files (s.tables p))
            (call-Balances (others s p) k s.files (s.tables p) (Kept-Balanced s p h lt));
      fork_returns = λ p q lt lt' dead.
          Forks-returns (others s p) (s.tables p)
            (fork_files s.files (s.tables p) (s.tables q) 0 nofile) (fork-Forks s p q h lt dead);
      exit_returns = λ p lt.
          Exits-returns (others s p) (exit_files s.files (s.tables p) 0 nofile [])
            (exit-Exits s p h lt);
    }
