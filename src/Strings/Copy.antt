-- ===== src/Strings/Copy.antt =====
-- strncpy, safestrcpy and strlen.
use ence.Base.{
  ℕ, zero, suc, ◌+◌, ◌≤◌, ◌<◌, ◌≡◌, ◌≢◌, ◌⊎◌, refl, inl, inr, Bool-cases, Bool, true, false, ◌&&◌,
  ◌||◌, sym, ◌==◌, ltb, leb, update, if◌then◌else◌, arith, pos,
}
use ence.Strings.{Mem, pad, strncpy_from, strncpy, strncmp, strlen_from}
use ence.Strings.Compare.{strncmp_iff}

pad_lem : (out : Mem) (i n k : ℕ) → pad out i n k ≡ (if leb i k && ltb k (i + n) then 0 else out k)
unfolding pad
pad_lem out i zero k = ground arith
pad_lem out i (suc n) k = ground (arith, pad_lem (update out i 0) (i + 1) n k)

strncpy_from-outside :
    (out t : Mem) (i n k : ℕ) → (k < i) ⊎ (i + n ≤ k) → strncpy_from out t i n k ≡ out k
unfolding strncpy_from
strncpy_from-outside out t i zero k h = refl
strncpy_from-outside out t i (suc n) k h = ground (
  arith,
  strncpy_from-outside (update out i (t i)) t (i + 1) n k,
  pad_lem (update out i (t i)) (i + 1) n k,
)

strncpy_from-copied :
    (out t : Mem) (i n k : ℕ)
    → i ≤ k
    → k < i + n
    → ((j : ℕ) → i ≤ j → j < k → t j ≢ 0)
    → strncpy_from out t i n k ≡ t k
unfolding strncpy_from
strncpy_from-copied out t i zero k lo hi live = absurd (omega arith)
strncpy_from-copied out t i (suc n) k lo hi live = ground (
  arith,
  live i,
  strncpy_from-copied (update out i (t i)) t (i + 1) n k,
  strncpy_from-outside (update out i (t i)) t (i + 1) n k,
  pad_lem (update out i (t i)) (i + 1) n k,
  later,
)
  where
    later : (j : ℕ) → i + 1 ≤ j → j < k → t j ≢ 0
    later j a b = live j (omega arith) b

strncpy_from-padded :
    (out t : Mem) (i n j k : ℕ) → i ≤ j → j < k → k < i + n → t j ≡ 0 → strncpy_from out t i n k ≡ 0
unfolding strncpy_from
strncpy_from-padded out t i zero j k lo hi inside stop = absurd (omega arith)
strncpy_from-padded out t i (suc n) j k lo hi inside stop = ground (
  arith,
  strncpy_from-padded (update out i (t i)) t (i + 1) n j k,
  pad_lem (update out i (t i)) (i + 1) n k,
)

-- a byte 0 stands before index `k`
abbrev pub ended : Mem → ℕ → Bool
ended t zero = false
ended t (suc k) = ended t k || (t k == 0)

not_ended : (t : Mem) (k j : ℕ) → ended t k ≡ false → j < k → t j ≢ 0
not_ended t zero j e lt = absurd (omega arith)
not_ended t (suc k) j e lt = ground (arith, not_ended t k j)

ended_at : (t : Mem) (k : ℕ) → ended t k ≡ true → (j : ℕ) × (j < k) × (t j ≡ 0)
ended_at t zero e = absurd (cc)
ended_at t (suc k) e = elim (Bool-cases (ended t k)) [
  | inl earlier ↦ let (j, lt, stop) = ended_at t k earlier in (j, omega arith, stop)
  | inr none_before ↦ (k, omega arith, ground arith)
]

-- strncpy writes exactly the first `n` bytes: the string up to its end, then zeros.
pub strncpy_lem :
    (s t : Mem) (n k : ℕ)
    → strncpy s t n k ≡ (if ltb k n then (if ended t k then 0 else t k) else s k)
unfolding strncpy
strncpy_lem s t n k = elim (Bool-cases (ltb k n)) [
  | inl inside ↦ elim (Bool-cases (ended t k)) [
    | inl e ↦
        let (j, lt, stop) = ended_at t k e in
        rw (inside, e) (strncpy_from-padded s t 0 n j k (omega arith) lt (ground arith) stop)
    | inr e ↦
        rw (inside, e)
          (strncpy_from-copied s t 0 n k (omega arith) (ground arith)
            (λ j lo lt. not_ended t k j e lt))
  ]
  | inr outside ↦ rw outside (strncpy_from-outside s t 0 n k (ground arith))
]

-- A name that strncpy has stored is found again by strncmp over as many bytes, as dirlookup looks
-- for what dirlink has written.
pub strncmp-strncpy : (s t : Mem) (n : ℕ) → strncmp t (strncpy s t n) n ≡ pos 0
unfolding strncpy
strncmp-strncpy s t n = (strncmp_iff t (strncpy_from s t 0 n) n).1 (λ i lt live.
    sym (strncpy_from-copied s t 0 n i (omega arith) (omega arith) (λ j lo ltj. live j ltj)))

strlen_from-first :
    (s : Mem) (n i fuel : ℕ)
    → i ≤ n
    → n < i + fuel
    → s n ≡ 0
    → ((j : ℕ) → i ≤ j → j < n → s j ≢ 0)
    → strlen_from s i fuel ≡ n
unfolding strlen_from
strlen_from-first s n i zero lo hi stop live = absurd (omega arith)
strlen_from-first s n i (suc fuel) lo hi stop live =
    ground (arith, live i, strlen_from-first s n (i + 1) fuel, later)
  where
    later : (j : ℕ) → i + 1 ≤ j → j < n → s j ≢ 0
    later j a b = live j (omega arith) b

-- strlen returns the index of the first byte 0; one round of its loop more than that index is fuel
-- enough.
pub strlen_lem :
    (s : Mem) (n fuel : ℕ) → s n ≡ 0 → ended s n ≡ false → n < fuel → strlen_from s 0 fuel ≡ n
strlen_lem s n fuel stop live enough =
    strlen_from-first s n 0 fuel (omega arith) (omega arith) stop
      (λ j lo lt. not_ended s n j live lt)
