-- ===== src/Pipe/Buffer.antt =====
-- The buffer of a pipe between nread and nwrite, as counters modulo 2 ^ 32.
use ence.Base.{
  ℕ, zero, suc, ◌+◌, ◌-◌, ◌%◌, ◌^◌, ◌≤◌, ◌<◌, ◌≡◌, refl, ap, ap₂, true, false, List, [], ◌∷◌, ◌++◌,
  arith, ◌==◌, u32, update, update_self, update_ne, length,
}
use ence.Pipe.{Pipe, pipesize, full, put}

-- bytes held: nwrite - nread in uint arithmetic
abbrev pub held : Pipe → ℕ
held p = u32 (p.nwrite + 2 ^ 32 - p.nread)

pub record IsValid (p : Pipe) : Type 0 where
  pub read_fits : p.nread < 2 ^ 32
  pub write_fits : p.nwrite < 2 ^ 32
  pub bounded : held p ≤ pipesize

-- `n` bytes from counter `r` on
abbrev pub window : (ℕ → ℕ) → ℕ → ℕ → List ℕ
window d r zero = []
window d r (suc n) = d (r % pipesize) ∷ window d (u32 (r + 1)) n

-- the bytes written and not yet read, oldest first
abbrev pub contents : Pipe → List ℕ
contents p = window p.bytes p.nread (held p)

length-window : (d : ℕ → ℕ) (r n : ℕ) → length (window d r n) ≡ n
length-window d r zero = refl
length-window d r (suc n) = ap suc (length-window d (u32 (r + 1)) n)

pub length-contents : (p : Pipe) → length (contents p) ≡ held p
length-contents p = length-window p.bytes p.nread (held p)

-- 512 divides 2 ^ 32, so the index goes round with the counter.
window-update :
    (d : ℕ → ℕ) (r n i c : ℕ)
    → r < 2 ^ 32
    → n < pipesize
    → i ≡ (r + n) % pipesize
    → window (update d i c) r (suc n) ≡ window d r n ++ (c ∷ [])
window-update d r zero i c hr hn e =
    let same : r % pipesize ≡ i = omega arith in rw (same, update_self d i c)
window-update d r (suc n) i c hr hn e =
    ap₂ ◌∷◌ (update_ne d i (r % pipesize) c (omega arith))
      (window-update d (u32 (r + 1)) n i c (omega arith) (omega arith) (omega arith))

module _ {p : Pipe} (v : IsValid p) where
  pub full_iff : full p ≡ true → held p ≡ pipesize
  unfolding full
  full_iff h = ground arith

  pub not_full : full p ≡ false → held p < pipesize
  unfolding full
  not_full h = ground arith

  pub held-put : (c : ℕ) → full p ≡ false → held (put p c) ≡ held p + 1
  unfolding put
  held-put c h = omega (arith, not_full h)

  pub put-IsValid : (c : ℕ) → full p ≡ false → IsValid (put p c)
  unfolding put
  put-IsValid c h = omega (arith, not_full h)

  pub contents-put : (c : ℕ) → full p ≡ false → contents (put p c) ≡ contents p ++ (c ∷ [])
  contents-put c h = rw (held-put c h) (unfold put in step)
    where
      step :
          window (update p.bytes (p.nwrite % pipesize) c) p.nread (held p + 1)
          ≡ contents p ++ (c ∷ [])
      step =
          let e : held p + 1 ≡ suc (held p) = omega arith in
          rw e (
            window-update p.bytes p.nread (held p) (p.nwrite % pipesize) c (omega arith)
              (not_full h) (omega arith))

-- the pipe after a byte was taken out
abbrev pub taken : Pipe → Pipe
taken p = record p { nread = u32 (p.nread + 1) }

module _ {p : Pipe} (v : IsValid p) (more : (p.nread == p.nwrite) ≡ false) where
  pub held-taken : held p ≡ suc (held (taken p))
  held-taken = ground arith

  pub taken-IsValid : IsValid (taken p)
  taken-IsValid = omega (arith, held-taken)

  pub contents-taken : contents p ≡ p.bytes (p.nread % pipesize) ∷ contents (taken p)
  contents-taken = ap (window p.bytes p.nread) held-taken

pub contents-empty : {p : Pipe} → IsValid p → (p.nread == p.nwrite) ≡ true → contents p ≡ []
contents-empty {p} v e = ap (window p.bytes p.nread) {x = held p} {y = 0} (ground arith)
