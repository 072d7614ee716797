-- ===== src/Files/Pipes.antt =====
-- sys_pipe and the numbers of references, with all its ways to give up.
use ence.Base.{
  ℕ, ◌+◌, ◌<◌, ◌≡◌, refl, ap, ◌∙◌, subst, Bool, true, false, not, Option, none, some, List, [], ◌∷◌,
  update, update_self, ℕ_discrete, arith, ◌==◌, pos, negsuc,
}
use ence.Files.{
  nofile, File, fd_pipe, Closing, close_both, Piped, unmade, made, pipe_end, pipealloc, give_up,
  sys_pipe,
}
use ence.Files.Count.{held, count, count-update}
use ence.Files.Calls.{
  Balanced, Balances, returned, fileclose-Closes, ref-same, refused, alloted, fdalloc-Allots,
  granted, exhausted, filealloc-Grants,
}

held_self : (f : ℕ) → held (some f) f ≡ 1
held_self f = ground arith

-- `files` has one more reference of `f0` and one of `f1` than `old`.
Both : (old files : ℕ → File) (f0 f1 : ℕ) → Type 0
Both old files f0 f1 = (g : ℕ) → (files g).ref ≡ (old g).ref + held (some f0) g + held (some f1) g

record Undone (old : ℕ → File) (o : Option ((ℕ → File) × List Closing)) : Type 0 where
  files' : ℕ → File
  todo : List Closing
  eq : o ≡ some (files', todo)
  refs : (g : ℕ) → (files' g).ref ≡ (old g).ref

close_both-Undone :
    (old files : ℕ → File) (f0 f1 : ℕ) → Both old files f0 f1 → Undone old (close_both files f0 f1)
unfolding Both close_both
close_both-Undone old files f0 f1 b =
    let c0 = fileclose-Closes files f0 (omega (arith, b f0, held_self f0)) in
    let c1 = fileclose-Closes c0.files' f1 (omega (arith, b f1, held_self f1, c0.refs f1)) in
    record {
      files' = c1.files';
      todo = c1.todo ∷ c0.todo ∷ [];
      eq = rw (close_both, c0.eq, c1.eq) refl;
      refs = λ g. omega (arith, b g, c0.refs g, c1.refs g);
    }

data Pipes (old : ℕ → File) (o : Option Piped) : Type 0 where
  failed :
      (files : ℕ → File) (todo : List Closing)
      → o ≡ some (unmade files todo)
      → ((g : ℕ) → (files g).ref ≡ (old g).ref)
      → Pipes old o
  piped :
      (f0 f1 : ℕ) (files : ℕ → File)
      → o ≡ some (made f0 f1 files)
      → Both old files f0 f1
      → Pipes old o

pipe_end-ref :
    (files : ℕ → File) (f page : ℕ) (writable : Bool) (g : ℕ)
    → (pipe_end files f page writable g).ref ≡ (files g).ref
pipe_end-ref files f page writable g =
    ref-same files f
      (record (files f) {
        type = fd_pipe;
        readable = not writable;
        writable = writable;
        pipe = page;
      })
      g refl

pipealloc-Pipes : (files : ℕ → File) (page : ℕ) → Pipes files (pipealloc files page)
unfolding pipealloc Both
pipealloc-Pipes files page = elim (filealloc-Grants files) [
  | exhausted e ↦ failed files [] (rw (pipealloc, e) refl) (λ g. refl)
  | granted f0 files' e one refs ↦ elim (filealloc-Grants files') [
    | exhausted e' ↦
        let c = fileclose-Closes files' f0 (omega (arith, one)) in
        failed c.files' (c.todo ∷ []) (rw (pipealloc, e, e', c.eq) refl)
          (λ g. omega (arith, c.refs g, refs g))
    | granted f1 files'' e' one' refs' ↦
        let b : Both files files'' f0 f1 = λ g. omega (arith, refs g, refs' g) in
        elim (ℕ_discrete page 0) [
          | yes z ↦
              let page_is : (page == 0) ≡ true = ground (arith, z) in
              let u = close_both-Undone files files'' f0 f1 b in
              failed u.files' u.todo (rw (pipealloc, e, e', page_is, u.eq) refl) (u.refs)
          | no nz ↦
              let page_is : (page == 0) ≡ false = ground (arith, nz) in
              piped f0 f1 (pipe_end (pipe_end files'' f0 page false) f1 page true)
                (rw (pipealloc, e, e', page_is) refl)
                (λ g.
                  pipe_end-ref (pipe_end files'' f0 page false) f1 page true g
                  ∙ (pipe_end-ref files'' f0 page false g ∙ b g))
        ]
  ]
]

give_up-Balances :
    (extra : ℕ → ℕ) (old files : ℕ → File) (ofile : ℕ → Option ℕ) (f0 f1 : ℕ)
    → Both old files f0 f1
    → Balanced extra old ofile
    → Balances extra (give_up files ofile f0 f1)
unfolding Balanced
give_up-Balances extra old files ofile f0 f1 both b =
    let u = close_both-Undone old files f0 f1 both in
    subst (Balances extra) (rw (give_up, u.eq) refl) (
      returned
        (record { files = u.files'; ofile = ofile; result = negsuc 0; todo = u.todo; out = [] })
        (λ g. u.refs g ∙ b g))

attach_count :
    (ofile : ℕ → Option ℕ) (fd f g : ℕ)
    → fd < nofile
    → ofile fd ≡ none
    → count (update ofile fd (some f)) g ≡ count ofile g + held (some f) g
attach_count ofile fd f g lt free =
    let was = ap (λ (o : Option ℕ). held o g) free in
    omega (arith, was, count-update ofile fd (some f) g lt)

put_back :
    (ofile : ℕ → Option ℕ) (fd f g : ℕ)
    → fd < nofile
    → ofile fd ≡ none
    → count (update (update ofile fd (some f)) fd none) g ≡ count ofile g
put_back ofile fd f g lt free =
    let was = ap (λ (o : Option ℕ). held o g) (update_self ofile fd (some f)) in
    omega (
      arith,
      was,
      attach_count ofile fd f g lt free,
      count-update (update ofile fd (some f)) fd none g lt,
    )

pub sys_pipe-Balances :
    (extra : ℕ → ℕ) (files : ℕ → File) (ofile : ℕ → Option ℕ) (page : ℕ)
    → Balanced extra files ofile
    → Balances extra (sys_pipe files ofile page)
unfolding sys_pipe Balanced Both
sys_pipe-Balances extra files ofile page b = elim (pipealloc-Pipes files page) [
  | failed files' todo e refs ↦ subst (Balances extra) (rw (sys_pipe, e) refl) (
      returned (record { files = files'; ofile = ofile; result = negsuc 0; todo = todo; out = [] })
        (λ g. refs g ∙ b g))
  | piped rf wf files' e both ↦ elim (fdalloc-Allots ofile rf) [
    | refused e' ↦
        subst (Balances extra) (rw (sys_pipe, e, e') refl)
          (give_up-Balances extra files files' ofile rf wf both b)
    | alloted fd0 e' lt free ↦ elim (fdalloc-Allots (update ofile fd0 (some rf)) wf) [
      | refused e'' ↦ subst (Balances extra) (rw (sys_pipe, e, e', e'') refl) (
          give_up-Balances extra files files' (update (update ofile fd0 (some rf)) fd0 none) rf wf
            both (λ g. omega (arith, b g, put_back ofile fd0 rf g lt free)))
      | alloted fd1 e'' lt' free' ↦ subst (Balances extra) (rw (sys_pipe, e, e', e'') refl) (
          returned
            (record {
              files = files';
              ofile = update (update ofile fd0 (some rf)) fd1 (some wf);
              result = pos 0;
              todo = [];
              out = fd0 ∷ fd1 ∷ [];
            })
            (λ g.
              let first = attach_count ofile fd0 rf g lt free in
              let second = attach_count (update ofile fd0 (some rf)) fd1 wf g lt' free' in
              omega (arith, both g, b g, first, second)))
    ]
  ]
]
