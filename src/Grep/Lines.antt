-- ===== src/Grep/Lines.antt =====
-- grep over whole lines, and what it does to a line that a read cuts short.
use ence.Base.{
  ℕ, Bool, false, ◌<◌, ◌≢◌, length, length-append, ◌≡◌, refl, sym, ap, ◌∙◌, true, ◌||◌, List, [],
  ◌∷◌, ◌++◌, ◌==◌, if◌then◌else◌, arith, All, Bool-cases, inl, inr, append_assoc, append-nil,
}
use ence.Grep.{newline, match_re, scan, has_newline, grep_from, grep}

abbrev pub NoNewline : List ℕ → Type 0
NoNewline line = has_newline line ≡ false

-- the text of whole lines, each with its newline
abbrev pub unlines : List (List ℕ) → List ℕ
unlines [] = []
unlines (l ∷ ls) = l ++ (newline ∷ unlines ls)

-- the lines that the pattern matches
pub select : List ℕ → List (List ℕ) → List (List ℕ)
select pattern [] = []
select pattern (l ∷ ls) = if match_re pattern l then l ∷ select pattern ls else select pattern ls

abbrev pub concat : List (List ℕ) → List ℕ
concat [] = []
concat (c ∷ cs) = c ++ concat cs

abbrev pub has_zero : List ℕ → Bool
has_zero [] = false
has_zero (c ∷ cs) = (c == 0) || has_zero cs

-- a text with no byte 0
abbrev pub NoZero : List ℕ → Type 0
NoZero xs = has_zero xs ≡ false

has_zero-append : (xs ys : List ℕ) → has_zero (xs ++ ys) ≡ (has_zero xs || has_zero ys)
has_zero-append [] ys = refl
has_zero-append (x ∷ xs) ys = ground (arith, has_zero-append xs ys)

scan-append :
    (pattern line xs ys : List ℕ)
    → NoZero xs
    → let (out, left) = scan pattern line xs in
      let (out', left') = scan pattern left ys in
      scan pattern line (xs ++ ys) ≡ (out ++ out', left')
unfolding scan
scan-append pattern line [] ys z = refl
scan-append pattern line (x ∷ xs) ys z =
    let z' : NoZero xs = ground (arith, z) in
    let nonzero : (x == 0) ≡ false = ground (arith, z) in
    elim (Bool-cases (x == newline)) [
      | inl e ↦ elim (Bool-cases (match_re pattern line)) [
        | inl hit ↦
            let (out, left) = scan pattern [] xs in
            ground (
              arith,
              scan-append pattern [] xs ys z',
              append_assoc line (newline ∷ out) (scan pattern left ys).0,
            )
        | inr miss ↦ rw (e, miss) (scan-append pattern [] xs ys z')
      ]
      | inr e ↦ rw (e, nonzero) (scan-append pattern (line ++ (x ∷ [])) xs ys z')
    ]

-- Bytes where strchr finds no newline go to the current line.
scan-NoNewline : (pattern line xs : List ℕ) → NoNewline xs → scan pattern line xs ≡ ([], line ++ xs)
unfolding scan
scan-NoNewline pattern line [] h = rw append-nil
scan-NoNewline pattern line (x ∷ xs) h =
    ground (arith, scan-NoNewline pattern (line ++ (x ∷ [])) xs, append_assoc line (x ∷ []) xs)

has_newline-append :
    (xs ys : List ℕ) → NoZero xs → has_newline (xs ++ ys) ≡ (has_newline xs || has_newline ys)
has_newline-append [] ys z = refl
has_newline-append (x ∷ xs) ys z = ground (arith, has_newline-append xs ys, z)

-- what is left of a text
left-text :
    (pattern line xs : List ℕ)
    → NoNewline line
    → NoZero line
    → NoZero xs
    → NoNewline (scan pattern line xs).1 × NoZero (scan pattern line xs).1
unfolding scan
left-text pattern line [] h z zx = (h, z)
left-text pattern line (x ∷ xs) h z zx =
    let zx' : NoZero xs = ground (arith, zx) in
    elim (Bool-cases (x == newline)) [
      | inl e ↦ rw e (left-text pattern [] xs refl refl zx')
      | inr e ↦
          let nonzero : (x == 0) ≡ false = ground (arith, zx) in
          let h' : NoNewline (line ++ (x ∷ [])) =
            ground (arith, has_newline-append line (x ∷ []) z, h, e) in
          let z' : NoZero (line ++ (x ∷ [])) =
            ground (arith, has_zero-append line (x ∷ []), z, nonzero) in
          rw (e, nonzero) (left-text pattern (line ++ (x ∷ [])) xs h' z' zx')
    ]

grep_from-scan :
    (pattern pending : List ℕ) (chunks : List (List ℕ))
    → NoNewline pending
    → NoZero pending
    → NoZero (concat chunks)
    → All (λ c. has_newline c ≡ true) chunks
    → grep_from pattern pending chunks ≡ (scan pattern pending (concat chunks)).0
unfolding grep_from
grep_from-scan pattern pending [] h z zs all = rw (scan-NoNewline pattern pending [] refl)
grep_from-scan pattern pending (chunk ∷ chunks) h z zs all =
    let (out, left) = scan pattern pending chunk in
    let zero = has_zero-append chunk (concat chunks) in
    let zc : NoZero chunk = ground (arith, zero, zs) in
    let zr : NoZero (concat chunks) = ground (arith, zero, zs) in
    let ended : has_newline (pending ++ chunk) ≡ true =
      ground (arith, has_newline-append pending chunk z, all.0) in
    let scanned : scan pattern [] (pending ++ chunk) ≡ scan pattern pending chunk =
      scan-append pattern [] pending chunk z ∙ rw (scan-NoNewline pattern [] pending h) refl in
    let (hl, zl) = left-text pattern pending chunk h z zc in
    rw (ended, scanned)
      (rw (grep_from-scan pattern left chunks hl zl zr all.1) (
        sym (
          ap (λ (r : List ℕ × List ℕ). r.0)
            (scan-append pattern pending chunk (concat chunks) zc))))

-- a line at the start of what is scanned
scan-line :
    (pattern l rest : List ℕ)
    → NoNewline l
    → NoZero l
    → let (out, left) = scan pattern [] rest in
      scan pattern [] (l ++ (newline ∷ rest))
      ≡ ((if match_re pattern l then l ++ (newline ∷ out) else out), left)
scan-line pattern l rest h z =
    scan-append pattern [] l (newline ∷ rest) z
    ∙ rw (scan-NoNewline pattern [] l h) (unfold scan in refl)

-- a line without its newline: no newline and no byte 0
abbrev pub Line : List ℕ → Type 0
Line l = NoNewline l × NoZero l

scan-unlines :
    (pattern : List ℕ) (ls : List (List ℕ))
    → All Line ls
    → scan pattern [] (unlines ls) ≡ (unlines (select pattern ls), [])
unfolding select scan
scan-unlines pattern [] all = refl
scan-unlines pattern (l ∷ ls) all =
    ground (arith, scan-line pattern l (unlines ls) all.0.0 all.0.1, scan-unlines pattern ls all.1)

unlines-NoZero : (ls : List (List ℕ)) → All Line ls → NoZero (unlines ls)
unlines-NoZero [] all = refl
unlines-NoZero (l ∷ ls) all =
    ground (arith, has_zero-append l (newline ∷ unlines ls), all.0.1, unlines-NoZero ls all.1)

-- Where the input is lines with no byte 0, the last one ended by a newline too, and every chunk that read
-- delivers holds a newline, grep writes exactly the lines that the pattern matches, in order, however lines
-- are cut by the reads.
pub grep_selects :
    (pattern : List ℕ) (ls chunks : List (List ℕ))
    → All Line ls
    → All (λ c. has_newline c ≡ true) chunks
    → concat chunks ≡ unlines ls
    → grep pattern chunks ≡ unlines (select pattern ls)
unfolding grep
grep_selects pattern ls chunks whole cut same =
    grep_from-scan pattern [] chunks refl refl (ap has_zero same ∙ unlines-NoZero ls whole) cut
    ∙ rw same (ap (λ (r : List ℕ × List ℕ). r.0) (scan-unlines pattern ls whole))

-- a buffer in which strchr finds no newline
grep_forgets :
    (pattern a : List ℕ) (chunks : List (List ℕ))
    → NoNewline a
    → grep pattern (a ∷ chunks) ≡ grep pattern chunks
unfolding grep_from grep
grep_forgets pattern a chunks h = rw (scan-NoNewline pattern [] a h, h)

-- what is written where the part `b` stands for the line `a ++ b`
short_output :
    (pattern a b : List ℕ) (ls : List (List ℕ))
    → 0 < length a
    → match_re pattern (a ++ b) ≡ true
    → unlines (select pattern (b ∷ ls)) ≢ unlines (select pattern ((a ++ b) ∷ ls))
unfolding select
short_output pattern a b ls some_bytes hit same =
    let rest = unlines (select pattern ls) in
    let whole = length-append (a ++ b) (newline ∷ rest) in
    let parts = length-append a b in
    let short = length-append b (newline ∷ rest) in
    let len = ap length same in
    elim (Bool-cases (match_re pattern b)) [
      | inl e ↦ absurd (ground (arith, len, whole, parts, short, hit, e))
      | inr e ↦ absurd (ground (arith, len, whole, parts, hit, e))
    ]

-- Where a read delivers the first bytes `a` of a line `a ++ b` that the pattern matches and no newline, and the
-- chunks behind it are the rest of that line and further lines, with a newline in each chunk, and no line
-- has a byte 0: grep writes what it would for `b` as the first line, which is never the lines that the
-- pattern matches.
pub grep_cuts_line :
    (pattern a b : List ℕ) (ls chunks : List (List ℕ))
    → 0 < length a
    → Line a
    → All Line (b ∷ ls)
    → All (λ c. has_newline c ≡ true) chunks
    → concat chunks ≡ unlines (b ∷ ls)
    → match_re pattern (a ++ b) ≡ true
    → (concat (a ∷ chunks) ≡ unlines ((a ++ b) ∷ ls))
      × (grep pattern (a ∷ chunks) ≡ unlines (select pattern (b ∷ ls)))
      × (grep pattern (a ∷ chunks) ≢ unlines (select pattern ((a ++ b) ∷ ls)))
grep_cuts_line pattern a b ls chunks some_bytes part whole cut same hit =
    let all =
      grep_forgets pattern a chunks part.0 ∙ grep_selects pattern (b ∷ ls) chunks whole cut same in
    (
      ap (λ (xs : List ℕ). a ++ xs) same ∙ sym (append_assoc a b (newline ∷ unlines ls)),
      all,
      λ wanted. short_output pattern a b ls some_bytes hit (sym all ∙ wanted),
    )
