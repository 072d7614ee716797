-- ===== src/Files/Calls.antt =====
-- What the calls do to the numbers of references: the references of a file are those of the descriptors of
-- the process and `extra` ones, before and after.
use ence.Base.{
  ℕ, zero, suc, ◌+◌, ◌-◌, ◌<◌, ◌≤◌, ◌≡◌, refl, ap, ◌∙◌, subst, Bool, Option, none, some, [], ◌∷◌,
  update, update_self, dec_lt, map-update, ℕ_discrete, Option-cases, inl, inr, arith, if◌then◌else◌,
  ◌==◌, ℤ, pos, negsuc,
}
use ence.Files.{
  nofile, nfile, File, fd_inode, fd_none, Closing, closing, closed, iput, Called, returns,
  free_file, filealloc, filedup, fileclose, argfd, free_fd, fdalloc, sys_dup, sys_close, open_file,
}
use ence.Files.Count.{held, count, count-update, held-count}

unfoldable pub Balanced : (extra : ℕ → ℕ) (files : ℕ → File) (ofile : ℕ → Option ℕ) → Type 0
Balanced extra files ofile = (g : ℕ) → (files g).ref ≡ extra g + count ofile g

-- The call does not panic, and the references stay balanced.
pub data Balances (extra : ℕ → ℕ) : Option Called → Type 0 where
  returned : (c : Called) → Balanced extra c.files c.ofile → Balances extra (some c)

pub attach-Balanced :
    (extra : ℕ → ℕ) (files files' : ℕ → File) (ofile : ℕ → Option ℕ) (fd f : ℕ)
    → Balanced extra files ofile
    → fd < nofile
    → ofile fd ≡ none
    → ((g : ℕ) → (files' g).ref ≡ (files g).ref + held (some f) g)
    → Balanced extra files' (update ofile fd (some f))
unfolding Balanced
attach-Balanced extra files files' ofile fd f b lt e h g =
    let moved = count-update ofile fd (some f) g lt in
    let free : held (ofile fd) g ≡ 0 = ap (λ (o : Option ℕ). held o g) e in
    omega (arith, moved, free, h g, b g)

pub detach-Balanced :
    (extra : ℕ → ℕ) (files files' : ℕ → File) (ofile : ℕ → Option ℕ) (fd f : ℕ)
    → Balanced extra files ofile
    → fd < nofile
    → ofile fd ≡ some f
    → ((g : ℕ) → (files' g).ref + held (some f) g ≡ (files g).ref)
    → Balanced extra files' (update ofile fd none)
unfolding Balanced
detach-Balanced extra files files' ofile fd f b lt e h g =
    let moved = count-update ofile fd none g lt in
    let was : held (ofile fd) g ≡ held (some f) g = ap (λ (o : Option ℕ). held o g) e in
    omega (arith, moved, was, h g, b g)

-- a file that a descriptor holds
pub named-ref :
    (extra : ℕ → ℕ) (files : ℕ → File) (ofile : ℕ → Option ℕ) (fd f : ℕ)
    → Balanced extra files ofile
    → fd < nofile
    → ofile fd ≡ some f
    → 1 ≤ (files f).ref
unfolding Balanced
named-ref extra files ofile fd f b lt e =
    let one = held-count ofile fd f lt e in omega (arith, one, b f)

-- the references of a table with one file replaced
ref-update :
    (files : ℕ → File) (f : ℕ) (r : File) (g : ℕ)
    → (update files f r g).ref ≡ update (λ k. (files k).ref) f r.ref g
ref-update files f r g = map-update (λ (x : File). x.ref) files f r g

ref-move :
    (files : ℕ → File) (f : ℕ) (r : File) (g : ℕ)
    → (update files f r g).ref + (if f == g then (files f).ref else 0)
      ≡ (files g).ref + (if f == g then r.ref else 0)
ref-move files f r g = elim (ℕ_discrete f g) [
  | yes e ↦
      let same = ap (λ k. (files k).ref) e in
      let new = ref-update files f r g in ground (arith, e, same, new)
  | no ne ↦ let new = ref-update files f r g in ground (arith, ne, new)
]

pub ref-same :
    (files : ℕ → File) (f : ℕ) (r : File) (g : ℕ)
    → r.ref ≡ (files f).ref
    → (update files f r g).ref ≡ (files g).ref
ref-same files f r g e = let moved = ref-move files f r g in ground (arith, moved, e)

-- What a fileclose has to do.
pub record Closes (files : ℕ → File) (f : ℕ) (o : Option (Closing × (ℕ → File))) : Type 0 where
  pub todo : Closing
  pub files' : ℕ → File
  pub eq : o ≡ some (todo, files')
  pub refs : (g : ℕ) → (files' g).ref + held (some f) g ≡ (files g).ref

pub fileclose-Closes :
    (files : ℕ → File) (f : ℕ) → 1 ≤ (files f).ref → Closes files f (fileclose files f)
unfolding fileclose
fileclose-Closes files f le = elim (ℕ_discrete (files f).ref 1) [
  | yes e ↦ record {
    todo = closing (files f);
    files' = update files f (record (files f) { ref = 0; type = fd_none });
    eq = ground (arith, e);
    refs = λ g.
        let moved = ref-move files f (record (files f) { ref = 0; type = fd_none }) g in
        ground (arith, le, moved, e);
  }
  | no ne ↦ record {
    todo = closed;
    files' = update files f (record (files f) { ref = (files f).ref - 1 });
    eq = ground (arith, ne, le);
    refs = λ g.
        let moved = ref-move files f (record (files f) { ref = (files f).ref - 1 }) g in
        ground (arith, le, moved, ne);
  }
]

pub record Dups (files : ℕ → File) (f : ℕ) (o : Option (ℕ → File)) : Type 0 where
  pub files' : ℕ → File
  pub eq : o ≡ some files'
  pub refs : (g : ℕ) → (files' g).ref ≡ (files g).ref + held (some f) g

pub filedup-Dups : (files : ℕ → File) (f : ℕ) → 1 ≤ (files f).ref → Dups files f (filedup files f)
unfolding filedup
filedup-Dups files f le = record {
  files' = update files f (record (files f) { ref = (files f).ref + 1 });
  eq = ground (arith, le);
  refs = λ g.
      let moved = ref-move files f (record (files f) { ref = (files f).ref + 1 }) g in
      ground (arith, le, moved);
}

-- What free_fd finds.
data Finds (ofile : ℕ → Option ℕ) (top : ℕ) : Option ℕ → Type 0 where
  full : Finds ofile top none
  found : (fd : ℕ) → fd < top → ofile fd ≡ none → Finds ofile top (some fd)

free_fd-Finds :
    (ofile : ℕ → Option ℕ) (top fd k : ℕ) → fd + k ≡ top → Finds ofile top (free_fd ofile fd k)
unfolding free_fd
free_fd-Finds ofile top fd zero e = full
free_fd-Finds ofile top fd (suc k) e =
    let more = free_fd-Finds ofile top (fd + 1) k (omega arith) in
    elim (Option-cases (ofile fd)) [
      | inl h ↦ subst (Finds ofile top) (ground (arith, h)) (found fd (omega arith) h)
      | inr (f, h) ↦ subst (Finds ofile top) (ground (arith, h)) more
    ]

-- What fdalloc gives.
pub data Allots (ofile : ℕ → Option ℕ) (f : ℕ) (o : Option (ℕ × (ℕ → Option ℕ))) : Type 0 where
  refused : o ≡ none → Allots ofile f o
  alloted :
      (fd : ℕ)
      → o ≡ some (fd, update ofile fd (some f))
      → fd < nofile
      → ofile fd ≡ none
      → Allots ofile f o

pub fdalloc-Allots : (ofile : ℕ → Option ℕ) (f : ℕ) → Allots ofile f (fdalloc ofile f)
unfolding fdalloc
fdalloc-Allots ofile f = allot (free_fd ofile 0 nofile) (free_fd-Finds ofile nofile 0 nofile refl)
  where
    allot :
        (o : Option ℕ)
        → Finds ofile nofile o
        → Allots ofile f (elim o [ none ↦ none | some fd ↦ some (fd, update ofile fd (some f)) ])
    allot _ full = refused refl
    allot _ (found fd lt e) = alloted fd refl lt e

-- What argfd gives.
data Names (ofile : ℕ → Option ℕ) (o : Option (ℕ × ℕ)) : Type 0 where
  bad : o ≡ none → Names ofile o
  names : (n f : ℕ) → o ≡ some (n, f) → n < nofile → ofile n ≡ some f → Names ofile o

argfd-Names : (ofile : ℕ → Option ℕ) (fd : ℤ) → Names ofile (argfd ofile fd)
unfolding argfd
argfd-Names ofile (negsuc n) = bad refl
argfd-Names ofile (pos n) = elim (Option-cases (ofile n)) [
  | inl e ↦ bad (ground (arith, e))
  | inr (f, e) ↦ elim (dec_lt n nofile) [
    | yes lt ↦ names n f (ground (arith, lt, e)) lt e
    | no ge ↦ bad (ground (arith, ge))
  ]
]

-- What filealloc gives.
pub data Grants (files : ℕ → File) (o : Option (ℕ × (ℕ → File))) : Type 0 where
  exhausted : o ≡ none → Grants files o
  granted :
      (f : ℕ) (files' : ℕ → File)
      → o ≡ some (f, files')
      → (files' f).ref ≡ 1
      → ((g : ℕ) → (files' g).ref ≡ (files g).ref + held (some f) g)
      → Grants files o

data FindsFile (files : ℕ → File) : Option ℕ → Type 0 where
  full : FindsFile files none
  found : (f : ℕ) → (files f).ref ≡ 0 → FindsFile files (some f)

free_file-FindsFile : (files : ℕ → File) (f k : ℕ) → FindsFile files (free_file files f k)
unfolding free_file
free_file-FindsFile files f zero = full
free_file-FindsFile files f (suc k) = elim (ℕ_discrete (files f).ref 0) [
  | yes e ↦ subst (FindsFile files) (ground (arith, e)) (found f e)
  | no ne ↦ subst (FindsFile files) (ground (arith, ne)) (free_file-FindsFile files (f + 1) k)
]

pub filealloc-Grants : (files : ℕ → File) → Grants files (filealloc files)
unfolding filealloc
filealloc-Grants files = grant (free_file files 0 nfile) (free_file-FindsFile files 0 nfile)
  where
    grant :
        (o : Option ℕ)
        → FindsFile files o
        → Grants files (elim o [
          | none ↦ none
          | some f ↦ some (f, update files f (record (files f) { ref = 1 }))
        ])
    grant _ full = exhausted refl
    grant _ (found f e) =
        granted f (update files f (record (files f) { ref = 1 })) refl
          (ap (λ (x : File). x.ref) (update_self files f (record (files f) { ref = 1 })))
          (λ g.
            let moved = ref-move files f (record (files f) { ref = 1 }) g in
            ground (arith, e, moved))

-- fdalloc and filedup of a descriptor's file
pub sys_dup-Balances :
    (extra : ℕ → ℕ) (files : ℕ → File) (ofile : ℕ → Option ℕ) (fd : ℤ)
    → Balanced extra files ofile
    → Balances extra (sys_dup files ofile fd)
unfolding sys_dup
sys_dup-Balances extra files ofile fd b = elim (argfd-Names ofile fd) [
  | bad e ↦
      subst (Balances extra) (rw (sys_dup, e) refl) (returned (returns files ofile (negsuc 0)) b)
  | names n f e lt at ↦ elim (fdalloc-Allots ofile f) [
    | refused e' ↦
        subst (Balances extra) (rw (sys_dup, e, e') refl)
          (returned (returns files ofile (negsuc 0)) b)
    | alloted fd' e' lt' free ↦
        let d = filedup-Dups files f (named-ref extra files ofile n f b lt at) in
        subst (Balances extra) (rw (sys_dup, e, e', d.eq) refl) (
          returned (returns d.files' (update ofile fd' (some f)) (pos fd'))
            (attach-Balanced extra files d.files' ofile fd' f b lt' free d.refs))
  ]
]

pub sys_close-Balances :
    (extra : ℕ → ℕ) (files : ℕ → File) (ofile : ℕ → Option ℕ) (fd : ℤ)
    → Balanced extra files ofile
    → Balances extra (sys_close files ofile fd)
unfolding sys_close
sys_close-Balances extra files ofile fd b = elim (argfd-Names ofile fd) [
  | bad e ↦
      subst (Balances extra) (rw (sys_close, e) refl) (returned (returns files ofile (negsuc 0)) b)
  | names n f e lt at ↦
      let c = fileclose-Closes files f (named-ref extra files ofile n f b lt at) in
      subst (Balances extra) (rw (sys_close, e, c.eq) refl) (
        returned
          (record {
            files = c.files';
            ofile = update ofile n none;
            result = pos 0;
            todo = c.todo ∷ [];
            out = [];
          })
          (detach-Balanced extra files c.files' ofile n f b lt at c.refs))
]

pub open_file-Balances :
    (extra : ℕ → ℕ) (files : ℕ → File) (ofile : ℕ → Option ℕ) (ip : ℕ) (readable writable : Bool)
    → Balanced extra files ofile
    → Balances extra (open_file files ofile ip readable writable)
unfolding open_file Balanced
open_file-Balances extra files ofile ip readable writable b = elim (filealloc-Grants files) [
  | exhausted e ↦ subst (Balances extra) (rw (open_file, e) refl) (
      returned
        (record { files = files; ofile = ofile; result = negsuc 0; todo = iput ip ∷ []; out = [] })
        b)
  | granted f files' e one refs ↦ elim (fdalloc-Allots ofile f) [
    | refused e' ↦
        let c = fileclose-Closes files' f (omega (arith, one)) in
        subst (Balances extra) (rw (open_file, e, e', c.eq) refl) (
          returned
            (record {
              files = c.files';
              ofile = ofile;
              result = negsuc 0;
              todo = iput ip ∷ c.todo ∷ [];
              out = [];
            })
            (λ g. omega (arith, b g, refs g, c.refs g)))
    | alloted fd e' lt free ↦
        let opened = record (files' f) {
          type = fd_inode;
          ip = ip;
          off = 0;
          readable = readable;
          writable = writable;
        } in
        subst (Balances extra) (rw (open_file, e, e') refl) (
          returned (returns (update files' f opened) (update ofile fd (some f)) (pos fd)) (
            attach-Balanced extra files (update files' f opened) ofile fd f b lt free
              (λ g. ref-same files' f opened g refl ∙ refs g)))
  ]
]
