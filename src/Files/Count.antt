-- ===== src/Files/Count.antt =====
-- How many descriptors hold a file: sums over descriptors and over the processes of proc.c.
use ence.Base.{
  ℕ, zero, suc, ◌+◌, ◌<◌, ◌≤◌, ◌≡◌, refl, ap, ap₂, ◌∙◌, Option, none, some, update, map-update,
  ℕ_discrete, arith, if◌then◌else◌, ◌==◌,
}
use ence.Files.{nofile}

-- NPROC
abbrev pub nproc : ℕ
nproc = 64

-- f 0 + ... + f (k - 1)
unfoldable pub sum : ℕ → (ℕ → ℕ) → ℕ
sum zero f = 0
sum (suc k) f = sum k f + f k

sum_ext : (k : ℕ) (f g : ℕ → ℕ) → ((i : ℕ) → f i ≡ g i) → sum k f ≡ sum k g
unfolding sum
sum_ext zero f g h = refl
sum_ext (suc k) f g h = ap₂ (λ a b. a + b) (sum_ext k f g h) (h k)

sum-after : (k i v : ℕ) (f : ℕ → ℕ) → k ≤ i → sum k (update f i v) ≡ sum k f
unfolding sum
sum-after zero i v f le = refl
sum-after (suc k) i v f le = let rest = sum-after k i v f (omega arith) in ground (arith, rest, le)

sum-update : (k i v : ℕ) (f : ℕ → ℕ) → i < k → sum k (update f i v) + f i ≡ sum k f + v
unfolding sum
sum-update zero i v f lt = absurd (omega arith)
sum-update (suc k) i v f lt = elim (ℕ_discrete i k) [
  | yes e ↦ let rest = sum-after k i v f (omega arith) in ground (arith, rest, e)
  | no ne ↦ let rest = sum-update k i v f (omega arith) in ground (arith, rest, ne)
]

sum-member : (k i : ℕ) (f : ℕ → ℕ) → i < k → f i ≤ sum k f
unfolding sum
sum-member zero i f lt = absurd (omega arith)
sum-member (suc k) i f lt = elim (ℕ_discrete i k) [
  | yes e ↦ let same = ap f e in omega (arith, same)
  | no ne ↦ let rest = sum-member k i f (omega arith) in omega (arith, rest)
]

-- whether a descriptor holds the file
abbrev pub held : Option ℕ → ℕ → ℕ
held none g = 0
held (some f) g = if f == g then 1 else 0

-- how many descriptors of a process hold the file
abbrev pub count : (ofile : ℕ → Option ℕ) (g : ℕ) → ℕ
count ofile g = sum nofile (λ fd. held (ofile fd) g)

-- how many descriptors of all processes do
abbrev pub holders : (tables : ℕ → ℕ → Option ℕ) (g : ℕ) → ℕ
holders tables g = sum nproc (λ p. count (tables p) g)

pub count-update :
    (ofile : ℕ → Option ℕ) (fd : ℕ) (o : Option ℕ) (g : ℕ)
    → fd < nofile
    → count (update ofile fd o) g + held (ofile fd) g ≡ count ofile g + held o g
count-update ofile fd o g lt =
    let same =
      sum_ext nofile (λ d. held (update ofile fd o d) g)
        (update (λ d. held (ofile d) g) fd (held o g))
        (λ d. map-update (λ (x : Option ℕ). held x g) ofile fd o d) in
    ap (λ n. n + held (ofile fd) g) same
    ∙ sum-update nofile fd (held o g) (λ d. held (ofile d) g) lt

pub sum_zero : (k : ℕ) (f : ℕ → ℕ) → ((i : ℕ) → i < k → f i ≡ 0) → sum k f ≡ 0
unfolding sum
sum_zero zero f h = refl
sum_zero (suc k) f h =
    let rest = sum_zero k f (λ i lt. h i (omega arith)) in omega (arith, rest, h k (omega arith))

pub count_none :
    (ofile : ℕ → Option ℕ) (g : ℕ) → ((d : ℕ) → d < nofile → ofile d ≡ none) → count ofile g ≡ 0
count_none ofile g h =
    sum_zero nofile (λ d. held (ofile d) g) (λ d lt. ap (λ (o : Option ℕ). held o g) (h d lt))

pub held-count :
    (ofile : ℕ → Option ℕ) (fd f : ℕ) → fd < nofile → ofile fd ≡ some f → 1 ≤ count ofile f
held-count ofile fd f lt e =
    let le = sum-member nofile fd (λ d. held (ofile d) f) lt in
    let one : held (ofile fd) f ≡ 1 = ap (λ o. held o f) e ∙ ground arith in omega (arith, le, one)

pub holders-update :
    (tables : ℕ → ℕ → Option ℕ) (p : ℕ) (ofile : ℕ → Option ℕ) (g : ℕ)
    → p < nproc
    → holders (update tables p ofile) g + count (tables p) g ≡ holders tables g + count ofile g
holders-update tables p ofile g lt =
    let same =
      sum_ext nproc (λ q. count (update tables p ofile q) g)
        (update (λ q. count (tables q) g) p (count ofile g))
        (λ d. map-update (λ (o : ℕ → Option ℕ). count o g) tables p ofile d) in
    ap (λ n. n + count (tables p) g) same
    ∙ sum-update nproc p (count ofile g) (λ q. count (tables q) g) lt

pub count-holders :
    (tables : ℕ → ℕ → Option ℕ) (p g : ℕ) → p < nproc → count (tables p) g ≤ holders tables g
count-holders tables p g lt = sum-member nproc p (λ q. count (tables q) g) lt
