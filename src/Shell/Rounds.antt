-- ===== src/Shell/Rounds.antt =====
-- One round of each function of the parser, at the symbols that it looks for.
use ence.Base.{
  ℕ, zero, suc, ◌<◌, ◌≡◌, ◌≢◌, refl, sym, ap, ◌∙◌, true, false, List, [], ◌∷◌, ◌==◌, arith,
}
use ence.Shell.{
  Cmd, pipecmd, listcmd, backcmd, Parsed, ok, panic, out_of_fuel, bind, among, symbols, skip,
  gettoken, starts, peek, parseredirs, parse_back, parseexec, parsepipe, parseline, parseblock,
}
use ence.Shell.Tokens.{follows, exec_end, Trim, skip-follows, skip_symbol, gettoken_symbol}

abbrev pub pipe_end : List ℕ
pipe_end = b')' ∷ b'&' ∷ b';' ∷ []

abbrev pub back_end : List ℕ
back_end = b')' ∷ b';' ∷ []

abbrev pub line_end : List ℕ
line_end = b')' ∷ []

-- The symbols of one set are among those of another.
abbrev pub Sub : List ℕ → List ℕ → Type 0
Sub xs ys = (s : List ℕ) → follows xs s ≡ true → follows ys s ≡ true

pub pipe-exec : Sub pipe_end exec_end
unfolding among
pipe-exec [] e = refl
pipe-exec (c ∷ s) e = ground (arith, e)

pub back-pipe : Sub back_end pipe_end
unfolding among
back-pipe [] e = refl
back-pipe (c ∷ s) e = ground (arith, e)

pub line-back : Sub line_end back_end
unfolding among
line-back [] e = refl
line-back (c ∷ s) e = ground (arith, e)

-- Nothing more is to be read here.
not_among :
    (t : ℕ) (ends s : List ℕ)
    → follows ends s ≡ true
    → among t ends ≡ false
    → starts (t ∷ []) s ≡ false
unfolding among
not_among t ends [] e out = refl
not_among t ends (c ∷ s) e out = ground (arith, e, out, same c)
  where
    same : (c : ℕ) → (c == t) ≡ true → among c ends ≡ among t ends
    same c h = ap (λ x. among x ends) (ground (arith, h))

-- the rest behind a symbol
pub gettoken_rest :
    (c : ℕ) (s : List ℕ) → among c symbols ≡ true → c ≢ b'>' → Trim s → (gettoken (c ∷ s)).2 ≡ s
gettoken_rest c s e ne t = rw (gettoken_symbol c s e ne) t

pub bind_assoc :
    {A B C : Type 0} (r : Parsed A) (f : A → List ℕ → Parsed B) (g : B → List ℕ → Parsed C)
    → bind (bind r f) g ≡ bind r (λ a s. bind (f a s) g)
bind_assoc (ok a s) f g = refl
bind_assoc panic f g = refl
bind_assoc out_of_fuel f g = refl

pub parsepipe_single :
    (fuel : ℕ) (s rest : List ℕ) (c : Cmd)
    → parseexec fuel s ≡ ok c rest
    → follows pipe_end rest ≡ true
    → parsepipe (suc fuel) s ≡ ok c rest
unfolding parsepipe peek
parsepipe_single fuel s rest c e ends =
    let t = skip-follows rest (pipe-exec rest ends) in
    let none : starts (b'|' ∷ []) (skip rest) ≡ false =
      rw t (not_among b'|' pipe_end rest ends (unfold among in refl)) in
    ground (arith, e, none, t)

pub parsepipe_pipe :
    (fuel : ℕ) (s s2 rest : List ℕ) (l r : Cmd)
    → parseexec fuel s ≡ ok l (b'|' ∷ s2)
    → Trim s2
    → parsepipe fuel s2 ≡ ok r rest
    → parsepipe (suc fuel) s ≡ ok (pipecmd l r) rest
unfolding parsepipe peek
parsepipe_pipe fuel s s2 rest l r e trim more =
    let t = skip_symbol b'|' s2 (unfold among in refl) in
    let hit : starts (b'|' ∷ []) (skip (b'|' ∷ s2)) ≡ true = rw t (unfold among in refl) in
    let left : (gettoken (skip (b'|' ∷ s2))).2 ≡ s2 =
      rw t (gettoken_rest b'|' s2 (unfold among in refl) (λ e. ground (arith, e)) trim) in
    ground (arith, e, hit, left, more)

pub parse_back_stop :
    (fuel : ℕ) (c : Cmd) (rest : List ℕ)
    → 0 < fuel
    → follows back_end rest ≡ true
    → parse_back fuel c rest ≡ ok c rest
unfolding parse_back peek
parse_back_stop zero c rest enough ends = absurd (omega arith)
parse_back_stop (suc fuel) c rest enough ends =
    let t = skip-follows rest (pipe-exec rest (back-pipe rest ends)) in
    let none : starts (b'&' ∷ []) (skip rest) ≡ false =
      rw t (not_among b'&' back_end rest ends (unfold among in refl)) in
    ground (arith, none, t)

pub parse_back_go :
    (fuel : ℕ) (c : Cmd) (rest : List ℕ)
    → Trim rest
    → parse_back (suc fuel) c (b'&' ∷ rest) ≡ parse_back fuel (backcmd c) rest
unfolding parse_back peek
parse_back_go fuel c rest trim =
    let t = skip_symbol b'&' rest (unfold among in refl) in
    let hit : starts (b'&' ∷ []) (skip (b'&' ∷ rest)) ≡ true = rw t (unfold among in refl) in
    let left : (gettoken (skip (b'&' ∷ rest))).2 ≡ rest =
      rw t (gettoken_rest b'&' rest (unfold among in refl) (λ e. ground (arith, e)) trim) in
    ground (arith, hit, left)

-- parseline up to its test for a semicolon
abbrev pub backs : (fuel : ℕ) → List ℕ → Parsed Cmd
backs fuel s = bind (parsepipe fuel s) (λ left s1. parse_back fuel left s1)

semicolon : (fuel : ℕ) → Cmd → List ℕ → Parsed Cmd
semicolon fuel cmd s2 = elim (starts (b';' ∷ []) (skip s2)) [
  | true ↦ bind (parseline fuel (gettoken (skip s2)).2) (λ right s4. ok (listcmd cmd right) s4)
  | false ↦ ok cmd (skip s2)
]

parseline-semicolon :
    (fuel : ℕ) (s : List ℕ) → parseline (suc fuel) s ≡ bind (backs fuel s) (semicolon fuel)
unfolding parseline peek semicolon
parseline-semicolon fuel s =
    sym (bind_assoc (parsepipe fuel s) (λ left s1. parse_back fuel left s1) (semicolon fuel))

pub parseline_single :
    (fuel : ℕ) (s rest : List ℕ) (c : Cmd)
    → backs fuel s ≡ ok c rest
    → follows line_end rest ≡ true
    → parseline (suc fuel) s ≡ ok c rest
unfolding semicolon
parseline_single fuel s rest c e ends =
    let t = skip-follows rest (pipe-exec rest (back-pipe rest (line-back rest ends))) in
    let none : starts (b';' ∷ []) (skip rest) ≡ false =
      rw t (not_among b';' line_end rest ends (unfold among in refl)) in
    parseline-semicolon fuel s ∙ rw e (ground (arith, none, t))

pub parseline_list :
    (fuel : ℕ) (s s2 rest : List ℕ) (c r : Cmd)
    → backs fuel s ≡ ok c (b';' ∷ s2)
    → Trim s2
    → parseline fuel s2 ≡ ok r rest
    → parseline (suc fuel) s ≡ ok (listcmd c r) rest
unfolding semicolon
parseline_list fuel s s2 rest c r e trim more =
    let t = skip_symbol b';' s2 (unfold among in refl) in
    let hit : starts (b';' ∷ []) (skip (b';' ∷ s2)) ≡ true = rw t (unfold among in refl) in
    let left : (gettoken (skip (b';' ∷ s2))).2 ≡ s2 =
      rw t (gettoken_rest b';' s2 (unfold among in refl) (λ e. ground (arith, e)) trim) in
    parseline-semicolon fuel s ∙ rw e (ground (arith, hit, left, more))

-- a line in parentheses
pub parseexec_block :
    (fuel : ℕ) (s2 rest tail : List ℕ) (c d : Cmd)
    → Trim s2
    → parseline fuel s2 ≡ ok c (b')' ∷ rest)
    → Trim rest
    → parseredirs fuel c rest ≡ ok d tail
    → parseexec (suc (suc fuel)) (b'(' ∷ s2) ≡ ok d tail
unfolding parseexec parseblock peek
parseexec_block fuel s2 rest tail c d trim e trim2 more =
    let t = skip_symbol b'(' s2 (unfold among in refl) in
    let hit : starts (b'(' ∷ []) (b'(' ∷ s2) ≡ true = unfold among in refl in
    let left : (gettoken (b'(' ∷ s2)).2 ≡ s2 =
      gettoken_rest b'(' s2 (unfold among in refl) (λ e. ground (arith, e)) trim in
    let t2 = skip_symbol b')' rest (unfold among in refl) in
    let closed : starts (b')' ∷ []) (b')' ∷ rest) ≡ true = unfold among in refl in
    let left2 : (gettoken (b')' ∷ rest)).2 ≡ rest =
      gettoken_rest b')' rest (unfold among in refl) (λ e. ground (arith, e)) trim2 in
    ground (arith, t, hit, left, e, t2, closed, left2, more)
