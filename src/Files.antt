-- ===== src/Files.antt =====
-- Open files: lab10xv6/xv6/file.c, the descriptors of sysfile.c, pipealloc of pipe.c, and what fork and exit of proc.c do with
-- them. A file is its index in ftable, and the descriptors of a process are a function to files.
pub mod Count
pub mod Calls
pub mod Loops
pub mod Pipes
pub mod Io
pub mod System
mod Tests
use ence.Base.{
  ℕ, zero, suc, ◌+◌, ◌-◌, ◌*◌, Bool, true, false, not, ◌&&◌, ◌||◌, Option, none, some, List, [],
  ◌∷◌, ltb, leb, ◌==◌, ℤ, pos, negsuc, update, if◌then◌else◌,
}

-- NFILE and NOFILE
abbrev pub nfile : ℕ
nfile = 100

abbrev pub nofile : ℕ
nofile = 16

pub data FdType : Type 0 where
  fd_none : FdType
  fd_pipe : FdType
  fd_inode : FdType

-- struct file; a pipe and an inode are their addresses.
pub record File : Type 0 where
  pub type : FdType
  pub ref : ℕ
  pub readable : Bool
  pub writable : Bool
  pub pipe : ℕ
  pub ip : ℕ
  pub off : ℕ

-- the loop of filealloc over `k` files
unfoldable pub free_file : (files : ℕ → File) (f k : ℕ) → Option ℕ
free_file files f zero = none
free_file files f (suc k) =
    let more = free_file files (f + 1) k in if (files f).ref == 0 then some f else more

-- filealloc
pub filealloc : (files : ℕ → File) → Option (ℕ × (ℕ → File))
filealloc files = elim (free_file files 0 nfile) [
  | none ↦ none
  | some f ↦ some (f, update files f (record (files f) { ref = 1 }))
]

-- filedup; `none` is the panic.
pub filedup : (files : ℕ → File) (f : ℕ) → Option (ℕ → File)
filedup files f =
    if ltb (files f).ref 1
    then none
    else some (update files f (record (files f) { ref = (files f).ref + 1 }))

-- What fileclose goes on with: pipeclose of a pipe, iput of an inode, or nothing.
pub data Closing : Type 0 where
  closed : Closing
  pipeclose : (pipe : ℕ) (writable : Bool) → Closing
  iput : (ip : ℕ) → Closing

abbrev pub closing : File → Closing
closing ff = elim ff.type [
  | fd_pipe ↦ pipeclose ff.pipe ff.writable
  | fd_inode ↦ iput ff.ip
  | fd_none ↦ closed
]

-- fileclose; `none` is the panic.
pub fileclose : (files : ℕ → File) (f : ℕ) → Option (Closing × (ℕ → File))
fileclose files f =
    if ltb (files f).ref 1
    then none
    else if ltb 0 ((files f).ref - 1)
    then some (closed, update files f (record (files f) { ref = (files f).ref - 1 }))
    else some (closing (files f), update files f (record (files f) { ref = 0; type = fd_none }))

-- argfd of a descriptor that argint gave
pub argfd : (ofile : ℕ → Option ℕ) (fd : ℤ) → Option (ℕ × ℕ)
argfd ofile (negsuc n) = none
argfd ofile (pos n) =
    if leb nofile n then none else (elim (ofile n) [ none ↦ none | some f ↦ some (n, f) ])

-- the loop of fdalloc over `k` descriptors
unfoldable pub free_fd : (ofile : ℕ → Option ℕ) (fd k : ℕ) → Option ℕ
free_fd ofile fd zero = none
free_fd ofile fd (suc k) =
    let more = free_fd ofile (fd + 1) k in elim (ofile fd) [ none ↦ some fd | some f ↦ more ]

-- fdalloc
pub fdalloc : (ofile : ℕ → Option ℕ) (f : ℕ) → Option (ℕ × (ℕ → Option ℕ))
fdalloc ofile f = elim (free_fd ofile 0 nofile) [
  | none ↦ none
  | some fd ↦ some (fd, update ofile fd (some f))
]

-- The table of files, the descriptors of the process, what a call returns, what it did on the way (the last
-- one first), and what it writes to the caller's memory.
pub record Called : Type 0 where
  pub files : ℕ → File
  pub ofile : ℕ → Option ℕ
  pub result : ℤ
  pub todo : List Closing
  pub out : List ℕ

abbrev pub returns : (files : ℕ → File) (ofile : ℕ → Option ℕ) (result : ℤ) → Called
returns files ofile result = record {
  files = files;
  ofile = ofile;
  result = result;
  todo = [];
  out = [];
}

-- sys_dup; `none` is a panic, here and below.
pub sys_dup : (files : ℕ → File) (ofile : ℕ → Option ℕ) (fd : ℤ) → Option Called
sys_dup files ofile fd = elim (argfd ofile fd) [
  | none ↦ some (returns files ofile (negsuc 0))
  | some (_, f) ↦ elim (fdalloc ofile f) [
    | none ↦ some (returns files ofile (negsuc 0))
    | some (fd', ofile') ↦ elim (filedup files f) [
      | none ↦ none
      | some files' ↦ some (returns files' ofile' (pos fd'))
    ]
  ]
]

-- sys_close
pub sys_close : (files : ℕ → File) (ofile : ℕ → Option ℕ) (fd : ℤ) → Option Called
sys_close files ofile fd = elim (argfd ofile fd) [
  | none ↦ some (returns files ofile (negsuc 0))
  | some (n, f) ↦ elim (fileclose files f) [
    | none ↦ none
    | some (c, files') ↦ some (record {
      files = files';
      ofile = update ofile n none;
      result = pos 0;
      todo = c ∷ [];
      out = [];
    })
  ]
]

-- sys_open from filealloc on, for the inode `ip` that it has found; with -1 it gives the inode up.
pub open_file :
    (files : ℕ → File) (ofile : ℕ → Option ℕ) (ip : ℕ) (readable writable : Bool) → Option Called
open_file files ofile ip readable writable = elim (filealloc files) [
  | none ↦
      some
        (record { files = files; ofile = ofile; result = negsuc 0; todo = iput ip ∷ []; out = [] })
  | some (f, files') ↦ elim (fdalloc ofile f) [
    | none ↦ elim (fileclose files' f) [
      | none ↦ none
      | some (c, files'') ↦ some (record {
        files = files'';
        ofile = ofile;
        result = negsuc 0;
        todo = iput ip ∷ c ∷ [];
        out = [];
      })
    ]
    | some (fd, ofile') ↦ some (
        returns
          (update files' f (record (files' f) {
            type = fd_inode;
            ip = ip;
            off = 0;
            readable = readable;
            writable = writable;
          }))
          ofile' (pos fd))
  ]
]

-- fileclose of two files, as pipealloc and sys_pipe give up
pub close_both : (files : ℕ → File) (f0 f1 : ℕ) → Option ((ℕ → File) × List Closing)
close_both files f0 f1 = elim (fileclose files f0) [
  | none ↦ none
  | some (c0, files') ↦ elim (fileclose files' f1) [
    | none ↦ none
    | some (c1, files'') ↦ some (files'', c1 ∷ c0 ∷ [])
  ]
]

-- What pipealloc comes to.
pub data Piped : Type 0 where
  unmade : (files : ℕ → File) (todo : List Closing) → Piped
  made : (f0 f1 : ℕ) (files : ℕ → File) → Piped

-- a file as one end of the pipe
abbrev pub pipe_end : (files : ℕ → File) (f page : ℕ) (writable : Bool) → ℕ → File
pipe_end files f page writable =
    update files f (record (files f) {
      type = fd_pipe;
      readable = not writable;
      writable = writable;
      pipe = page;
    })

-- pipealloc, with the page of kalloc, or 0
pub pipealloc : (files : ℕ → File) (page : ℕ) → Option Piped
pipealloc files page = elim (filealloc files) [
  | none ↦ some (unmade files [])
  | some (f0, files') ↦ elim (filealloc files') [
    | none ↦ elim (fileclose files' f0) [
      | none ↦ none
      | some (c, files'') ↦ some (unmade files'' (c ∷ []))
    ]
    | some (f1, files'') ↦
        if page == 0
        then (elim (close_both files'' f0 f1) [
          | none ↦ none
          | some (files3, todo) ↦ some (unmade files3 todo)
        ])
        else some (made f0 f1 (pipe_end (pipe_end files'' f0 page false) f1 page true))
  ]
]

-- the `-1` of sys_pipe after pipealloc
abbrev pub give_up : (files : ℕ → File) (ofile : ℕ → Option ℕ) (f0 f1 : ℕ) → Option Called
give_up files ofile f0 f1 = elim (close_both files f0 f1) [
  | none ↦ none
  | some (files', todo) ↦
      some (record { files = files'; ofile = ofile; result = negsuc 0; todo = todo; out = [] })
]

-- sys_pipe, where the pointer to the two descriptors is one to the caller's memory
pub sys_pipe : (files : ℕ → File) (ofile : ℕ → Option ℕ) (page : ℕ) → Option Called
sys_pipe files ofile page = elim (pipealloc files page) [
  | none ↦ none
  | some (unmade files' todo) ↦
      some (record { files = files'; ofile = ofile; result = negsuc 0; todo = todo; out = [] })
  | some (made rf wf files') ↦ elim (fdalloc ofile rf) [
    | none ↦ give_up files' ofile rf wf
    | some (fd0, ofile') ↦ elim (fdalloc ofile' wf) [
      | none ↦ give_up files' (update ofile' fd0 none) rf wf
      | some (fd1, ofile'') ↦ some (record {
        files = files';
        ofile = ofile'';
        result = pos 0;
        todo = [];
        out = fd0 ∷ fd1 ∷ [];
      })
    ]
  ]
]

-- the loop of fork over `k` descriptors, from `fd` on
unfoldable pub fork_files :
    (files : ℕ → File) (ofile child : ℕ → Option ℕ) (fd k : ℕ)
    → Option ((ℕ → File) × (ℕ → Option ℕ))
fork_files files ofile child fd zero = some (files, child)
fork_files files ofile child fd (suc k) = elim (ofile fd) [
  | none ↦ fork_files files ofile child (fd + 1) k
  | some f ↦ elim (filedup files f) [
    | none ↦ none
    | some files' ↦ fork_files files' ofile (update child fd (some f)) (fd + 1) k
  ]
]

-- the loop of exit over `k` descriptors, from `fd` on
unfoldable pub exit_files :
    (files : ℕ → File) (ofile : ℕ → Option ℕ) (fd k : ℕ) (todo : List Closing) → Option Called
exit_files files ofile fd zero todo =
    some (record { files = files; ofile = ofile; result = pos 0; todo = todo; out = [] })
exit_files files ofile fd (suc k) todo = elim (ofile fd) [
  | none ↦ exit_files files ofile (fd + 1) k todo
  | some f ↦ elim (fileclose files f) [
    | none ↦ none
    | some (c, files') ↦ exit_files files' (update ofile fd none) (fd + 1) k (c ∷ todo)
  ]
]
