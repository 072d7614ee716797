-- ===== src/Console/Tests.antt =====
-- The functions of console.c on small inputs, and the theorems at them.
use ence.Base.{ℕ, ◌≡◌, refl, arith, false, List, [], ◌∷◌}
use ence.Console.{Console, key, keys, kill_line, consoleintr, consoleread, read_from}
use ence.Console.Editor.{view, IsValid, Shows, presses, consoleintr_refines}
use ence.Console.Reader.{Reads, line_read, consoleread_refines}

-- nothing typed yet, and the counters about to wrap
abbrev fresh : Console
fresh = record {
  buf = λ _. 0;
  r = 4294967294;
  w = 4294967294;
  e = 4294967294;
  shown = [];
  woken = false;
  doprocdump = false;
}

fresh-IsValid : IsValid fresh
fresh-IsValid = record {
  r_fits = omega arith;
  w_fits = omega arith;
  e_fits = omega arith;
  bounded = omega arith;
  one_line = tt;
}

-- "lx", backspace, "s", return
abbrev typed : List ℕ
typed = b'l' ∷ b'x' ∷ 8 ∷ b's' ∷ 13 ∷ []

abbrev ready : Console
ready = consoleintr fresh typed

consoleintr_refines_example : Shows (consoleintr fresh typed) (presses (view fresh) typed)
consoleintr_refines_example = consoleintr_refines fresh typed fresh-IsValid

consoleread_refines_example :
    Reads ready (consoleread false ready 10) (line_read false (view ready).ready 10 10)
consoleread_refines_example =
    consoleread_refines false ready 10 (consoleintr_refines fresh typed fresh-IsValid).1

-- the line is read as "ls"
read_test : (consoleread false ready 10).0 ≡ b'l' ∷ b's' ∷ b'\n' ∷ []
unfolding consoleread read_from consoleintr keys key kill_line
read_test = refl

-- and control and U takes it all back
kill_test :
    (consoleread false (consoleintr fresh (b'l' ∷ b'x' ∷ 21 ∷ b's' ∷ 13 ∷ [])) 10).0
    ≡ b's' ∷ b'\n' ∷ []
unfolding consoleread read_from consoleintr keys key kill_line
kill_test = refl
