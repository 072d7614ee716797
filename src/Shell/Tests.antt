-- ===== src/Shell/Tests.antt =====
-- The parser at some command lines, and the theorems at them.
use ence.Base.{◌≡◌, ◌≢◌, refl, inl, [], ◌∷◌, arith}
use ence.Shell.{
  Cmd, execcmd, redircmd, pipecmd, backcmd, ok, panic, out_of_fuel, among, skip, word, token,
  gettoken, peek, parseredirs, set_argv, parse_args, parse_back, parseline, parsepipe, parseexec,
  parseblock, finish, parsecmd,
}
use ence.Shell.Printer.{in_line, IsCmd, print}
use ence.Shell.Fuel.{parsecmd_ends}
use ence.Shell.RoundTrip.{parsecmd-print}

-- "a|b"
pipeline :
    parsecmd (b'a' ∷ b'|' ∷ b'b' ∷ [])
    ≡ ok (pipecmd (execcmd ((b'a' ∷ []) ∷ [])) (execcmd ((b'b' ∷ []) ∷ []))) []
unfolding parsecmd finish peek parseline parsepipe parseexec parseblock parse_back parse_args
    set_argv parseredirs gettoken token word skip among
pipeline = refl

-- "a&b" is refused: behind & only ; goes on.
after_ampersand : parsecmd (b'a' ∷ b'&' ∷ b'b' ∷ []) ≡ panic
unfolding parsecmd finish peek parseline parsepipe parseexec parseblock parse_back parse_args
    set_argv parseredirs gettoken token word skip among
after_ampersand = refl

-- ">>" opens the file as ">" does.
append_is_write : parsecmd (b'>' ∷ b'>' ∷ b'f' ∷ []) ≡ parsecmd (b'>' ∷ b'f' ∷ [])
unfolding parsecmd finish peek parseline parsepipe parseexec parseblock parse_back parse_args
    set_argv parseredirs gettoken token word skip among
append_is_write = refl

-- "(a <f &)|b"
abbrev sample : Cmd
sample =
    pipecmd (backcmd (redircmd (execcmd ((b'a' ∷ []) ∷ [])) (b'f' ∷ []) 0 0))
      (execcmd ((b'b' ∷ []) ∷ []))

sample-IsCmd : IsCmd sample
unfolding IsCmd among
sample-IsCmd = (
  ((((refl, tt), tt), omega arith), (refl, tt), inl (refl, refl)),
  (((refl, tt), tt), omega arith),
)

parsecmd-print_example : parsecmd (print in_line sample) ≡ ok sample []
parsecmd-print_example = parsecmd-print sample sample-IsCmd

parsecmd_ends_example : parsecmd (b'(' ∷ b'a' ∷ b')' ∷ b')' ∷ []) ≢ out_of_fuel
parsecmd_ends_example = parsecmd_ends (b'(' ∷ b'a' ∷ b')' ∷ b')' ∷ [])
