-- ===== src/Files/Tests.antt =====
-- One process that opens a file, dups it and closes the first descriptor, and the theorem at it.
use ence.Base.{◌≡◌, refl, Option, none, some, arith, update, pos, negsuc, true, false}
use ence.Files.{
  Called, returns, free_file, filealloc, filedup, fileclose, free_fd, argfd, fdalloc, open_file,
  sys_dup, sys_close,
}
use ence.Files.System.{
  opens, dups, closes, call, State, no_file, calls, Reachable, boots, step, Counted,
  Reachable-Counted,
}

abbrev boot : State
boot = record { files = λ _. no_file; tables = λ _ _. none; alive = update (λ _. false) 0 true }

-- what a call gives that does not panic
abbrev result : State → Option Called → Called
result s none = returns s.files (s.tables 0) (negsuc 0)
result s (some c) = c

abbrev opened : Called
opened = result boot (call (opens 7 true false) boot.files (boot.tables 0))

abbrev one_open : State
one_open = record boot { files = opened.files; tables = update boot.tables 0 opened.ofile }

open_test : call (opens 7 true false) boot.files (boot.tables 0) ≡ some opened
unfolding open_file filealloc free_file fdalloc free_fd
open_test = refl

abbrev duped : Called
duped = result one_open (call (dups (pos 0)) one_open.files (one_open.tables 0))

abbrev two_open : State
two_open = record one_open { files = duped.files; tables = update one_open.tables 0 duped.ofile }

dup_test : call (dups (pos 0)) one_open.files (one_open.tables 0) ≡ some duped
unfolding open_file filealloc free_file fdalloc free_fd sys_dup argfd filedup
dup_test = refl

dup_result_test : duped.result ≡ pos 1
unfolding open_file filealloc free_file fdalloc free_fd sys_dup argfd filedup
dup_result_test = refl

abbrev left : Called
left = result two_open (call (closes (pos 0)) two_open.files (two_open.tables 0))

abbrev one_left : State
one_left = record two_open { files = left.files; tables = update two_open.tables 0 left.ofile }

close_test : call (closes (pos 0)) two_open.files (two_open.tables 0) ≡ some left
unfolding open_file filealloc free_file fdalloc free_fd sys_dup argfd filedup sys_close fileclose
close_test = refl

one_left-Reachable : Reachable 0 one_left
one_left-Reachable =
    step two_open one_left
      (step one_open two_open
        (step boot one_open boots
          (calls 0 (opens 7 true false) opened (omega arith) refl open_test))
        (calls 0 (dups (pos 0)) duped (omega arith) refl dup_test))
      (calls 0 (closes (pos 0)) left (omega arith) refl close_test)

Reachable-Counted_example : Counted one_left
Reachable-Counted_example = Reachable-Counted 0 one_left one_left-Reachable
