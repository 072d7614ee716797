-- ===== src/Shell/Fuel.antt =====
-- The parser ends on every text: each call leaves no more of it than it got.
use ence.Base.{
  ℕ, zero, suc, ◌+◌, ◌-◌, ◌*◌, ◌≤◌, ◌<◌, ◌≡◌, ◌≢◌, refl, Bool, true, false, not, ◌||◌, List, [],
  ◌∷◌, leb, length, ◌==◌, arith,
}
use ence.Shell.{
  Cmd, Parsed, ok, panic, out_of_fuel, bind, among, whitespace, skip, word, token, gettoken, starts,
  peek, parseredirs, maxargs, parse_args, parse_back, parseline, parsepipe, parseexec, parseblock,
  finish, parsecmd,
}

skip-length : (s : List ℕ) → length (skip s) ≤ length s
unfolding skip
skip-length [] = omega arith
skip-length (c ∷ s) = ground (arith, skip-length s)

word-length : (s : List ℕ) → length (word s).1 ≤ length s
unfolding word
word-length [] = omega arith
word-length (c ∷ s) = ground (arith, word-length s)

skip-starts : (s : List ℕ) → starts whitespace (skip s) ≡ false
unfolding skip
skip-starts [] = refl
skip-starts (c ∷ s) = ground (arith, skip-starts s)

-- a token has a byte
token-length :
    (c : ℕ) (s : List ℕ) → among c whitespace ≡ false → length (token (c ∷ s)).2 ≤ length s
unfolding token word
token-length c [] out = ground (arith, skip-length [])
token-length c (d ∷ t) out =
    ground
      (arith, skip-length t, skip-length (d ∷ t), word-length (d ∷ t), skip-length (word (d ∷ t)).1)

-- A call ends with a value or with panic, and leaves at most `n` bytes.
pub Settled : {A : Type 0} → ℕ → Parsed A → Type 0
Settled n (ok a rest) = length rest ≤ n
Settled n panic = Unit
Settled n out_of_fuel = ⊥

skip-skip : (s : List ℕ) → skip (skip s) ≡ skip s
unfolding skip
skip-skip [] = refl
skip-skip (c ∷ s) = ground (arith, skip-skip s)

token_any : (s : List ℕ) → starts whitespace s ≡ false → length (token s).2 ≤ length s
token_any [] out = unfold token in omega arith
token_any (c ∷ s) out = omega (arith, token-length c s out)

-- what gettoken leaves
pub gettoken-length : (s : List ℕ) → length (gettoken s).2 ≤ length s
unfolding gettoken
gettoken-length s = omega (arith, token_any (skip s) (skip-starts s), skip-length s)

token-starts :
    (toks s : List ℕ)
    → starts whitespace s ≡ false
    → starts toks s ≡ true
    → length (token s).2 < length s
token-starts toks [] out hit = absurd (cc)
token-starts toks (c ∷ s) out hit = omega (arith, token-length c s out)

-- what gettoken leaves after peek has said yes
pub gettoken-shorter :
    (toks s : List ℕ) → starts toks (skip s) ≡ true → length (gettoken (skip s)).2 < length s
unfolding gettoken
gettoken-shorter toks s hit =
    rw (skip-skip s) (omega (arith, token-starts toks (skip s) (skip-starts s) hit, skip-length s))

token_some :
    (s : List ℕ)
    → starts whitespace s ≡ false
    → ((token s).0 == 0) ≡ false
    → length (token s).2 < length s
token_some [] out some = absurd (unfold token in ground (arith, some))
token_some (c ∷ s) out some = omega (arith, token-length c s out)

gettoken_some : (s : List ℕ) → ((gettoken s).0 == 0) ≡ false → length (gettoken s).2 < length s
unfolding gettoken
gettoken_some s some = omega (arith, token_some (skip s) (skip-starts s) some, skip-length s)

pub Settled-mono : {A : Type 0} (n m : ℕ) (r : Parsed A) → n ≤ m → Settled n r → Settled m r
unfolding Settled
Settled-mono n m (ok a rest) le h = omega arith
Settled-mono n m panic le h = tt
Settled-mono n m out_of_fuel le h = h

Settled-bind :
    {A B : Type 0} (n m : ℕ) (r : Parsed A) (f : A → List ℕ → Parsed B)
    → Settled n r
    → ((a : A) (s : List ℕ) → length s ≤ n → Settled m (f a s))
    → Settled m (bind r f)
unfolding Settled
Settled-bind n m (ok a s) f h k = k a s h
Settled-bind n m panic f h k = tt
Settled-bind n m out_of_fuel f h k = h

-- a test, of which only the branch taken is computed
Settled-test :
    {A : Type 0} (n : ℕ) (b : Bool) (x y : Parsed A)
    → (b ≡ true → Settled n x)
    → (b ≡ false → Settled n y)
    → Settled n (elim b [ true ↦ x | false ↦ y ])
Settled-test n true x y f g = f refl
Settled-test n false x y f g = g refl

parseredirs-Settled :
    (fuel n : ℕ) (cmd : Cmd) (s : List ℕ)
    → length s < fuel
    → length s ≤ n
    → Settled n (parseredirs fuel cmd s)
unfolding parseredirs peek Settled
parseredirs-Settled zero n cmd s enough le = absurd (omega arith)
parseredirs-Settled (suc fuel) n cmd s enough le =
    let s2 = (gettoken (skip s)).2 in
    Settled-test n (starts (b'<' ∷ b'>' ∷ []) (skip s)) _ _
      (λ e.
        Settled-test n ((gettoken s2).0 == b'a') _ _
          (λ w.
            let shorter = gettoken-shorter (b'<' ∷ b'>' ∷ []) s e in
            parseredirs-Settled fuel n _ (gettoken s2).2 (omega (arith, gettoken-length s2))
              (omega (arith, gettoken-length s2)))
          (λ w. tt))
      (λ e. omega (arith, skip-length s))

parse_back-Settled :
    (fuel n : ℕ) (cmd : Cmd) (s : List ℕ)
    → length s < fuel
    → length s ≤ n
    → Settled n (parse_back fuel cmd s)
unfolding parse_back peek Settled
parse_back-Settled zero n cmd s enough le = absurd (omega arith)
parse_back-Settled (suc fuel) n cmd s enough le =
    Settled-test n (starts (b'&' ∷ []) (skip s)) _ _
      (λ e.
        let shorter = gettoken-shorter (b'&' ∷ []) s e in
        parse_back-Settled fuel n _ _ (omega arith) (omega arith))
      (λ e. omega (arith, skip-length s))

parse_args-Settled :
    (fuel n : ℕ) (argv : List (List ℕ)) (ret : Cmd) (s : List ℕ)
    → length s < fuel
    → length s ≤ n
    → Settled n (parse_args fuel argv ret s)
unfolding parse_args peek Settled
parse_args-Settled zero n argv ret s enough le = absurd (omega arith)
parse_args-Settled (suc fuel) n argv ret s enough le =
    Settled-test n (starts (b'|' ∷ b')' ∷ b'&' ∷ b';' ∷ []) (skip s)) _ _
      (λ e. omega (arith, skip-length s))
      (λ e.
        Settled-test n ((gettoken (skip s)).0 == 0) _ _
          (λ z. omega (arith, gettoken-length (skip s), skip-length s))
          (λ z.
            Settled-test n (not ((gettoken (skip s)).0 == b'a') || leb maxargs (length argv + 1)) _
              _ (λ bad. tt)
              (λ good.
                let shorter = gettoken_some (skip s) z in
                let shorter2 = skip-length s in
                Settled-bind (length s - 1) n _ _
                  (parseredirs-Settled fuel (length s - 1) ret _ (omega arith) (omega arith))
                  (λ ret' s3 le'.
                    parse_args-Settled fuel n _ ret' s3 (omega arith) (omega arith)))))

-- The four functions that call each other. Each call passes on its fuel but one.
mutual
  unfolding parseline parsepipe parseexec parseblock peek Settled

  parseline-Settled :
      (fuel : ℕ) (s : List ℕ) → 4 * length s + 4 ≤ fuel → Settled (length s) (parseline fuel s)
  parseline-Settled zero s enough = absurd (omega arith)
  parseline-Settled (suc fuel) s enough =
      Settled-bind (length s) (length s) _ _ (parsepipe-Settled fuel s (omega arith))
        (λ left s1 le1.
          Settled-bind (length s) (length s) _ _
            (parse_back-Settled fuel (length s) left s1 (omega arith) le1)
            (λ cmd s2 le2.
              Settled-test (length s) (starts (b';' ∷ []) (skip s2)) _ _
                (λ e.
                  let shorter = gettoken-shorter (b';' ∷ []) s2 e in
                  Settled-bind (length (gettoken (skip s2)).2) (length s) _ _
                    (parseline-Settled fuel _ (omega arith)) (λ right s4 le4. omega arith))
                (λ e. omega (arith, skip-length s2))))

  parsepipe-Settled :
      (fuel : ℕ) (s : List ℕ) → 4 * length s + 3 ≤ fuel → Settled (length s) (parsepipe fuel s)
  parsepipe-Settled zero s enough = absurd (omega arith)
  parsepipe-Settled (suc fuel) s enough =
      Settled-bind (length s) (length s) _ _ (parseexec-Settled fuel s (omega arith)) (λ cmd s1 le1.
        Settled-test (length s) (starts (b'|' ∷ []) (skip s1)) _ _
          (λ e.
            let shorter = gettoken-shorter (b'|' ∷ []) s1 e in
            Settled-bind (length (gettoken (skip s1)).2) (length s) _ _
              (parsepipe-Settled fuel _ (omega arith)) (λ right s3 le3. omega arith))
          (λ e. omega (arith, skip-length s1)))

  parseexec-Settled :
      (fuel : ℕ) (s : List ℕ) → 4 * length s + 2 ≤ fuel → Settled (length s) (parseexec fuel s)
  parseexec-Settled zero s enough = absurd (omega arith)
  parseexec-Settled (suc fuel) s enough =
      let shorter = skip-length s in
      Settled-test (length s) (starts (b'(' ∷ []) (skip s)) _ _
        (λ e.
          Settled-mono (length (skip s)) (length s) _ shorter
            (parseblock-Settled fuel (skip s) (omega arith)))
        (λ e.
          Settled-bind (length s) (length s) _ _
            (parseredirs-Settled fuel (length s) _ (skip s) (omega arith) shorter)
            (λ ret s2 le2. parse_args-Settled fuel (length s) [] ret s2 (omega arith) le2))

  parseblock-Settled :
      (fuel : ℕ) (s : List ℕ) → 4 * length s + 1 ≤ fuel → Settled (length s) (parseblock fuel s)
  parseblock-Settled zero s enough = absurd (omega arith)
  parseblock-Settled (suc fuel) s enough =
      Settled-test (length s) (starts (b'(' ∷ []) (skip s)) _ _
        (λ e.
          let shorter = gettoken-shorter (b'(' ∷ []) s e in
          Settled-bind (length (gettoken (skip s)).2) (length s) _ _
            (parseline-Settled fuel _ (omega arith))
            (λ cmd s2 le2.
              Settled-test (length s) (starts (b')' ∷ []) (skip s2)) _ _
                (λ c.
                  let shorter2 = gettoken-shorter (b')' ∷ []) s2 c in
                  parseredirs-Settled fuel (length s) cmd _ (omega arith) (omega arith))
                (λ c. tt)))
        (λ e. tt)

finish_ends : (cmd : Cmd) (s : List ℕ) → finish cmd s ≢ out_of_fuel
unfolding finish
finish_ends cmd [] e = cc
finish_ends cmd (c ∷ s) e = cc

-- The parser ends on every text: the fuel of parsecmd is enough, so that it returns a command or
-- calls panic.
pub parsecmd_ends : (s : List ℕ) → parsecmd s ≢ out_of_fuel
unfolding parsecmd Settled
parsecmd_ends s =
    ends (parseline (4 * length s + 4) s) (parseline-Settled (4 * length s + 4) s (omega arith))
  where
    ends :
        (r : Parsed Cmd)
        → Settled (length s) r
        → bind r (λ cmd rest. finish cmd (peek [] rest).1) ≢ out_of_fuel
    ends (ok cmd rest) h = finish_ends cmd _
    ends panic h = λ e. cc
    ends out_of_fuel h = absurd h
