-- ===== src/Locks/Flags.antt =====
-- pushcli and popcli as a depth over what the CPU had.
use ence.Base.{
  ℕ, ◌+◌, ◌-◌, ◌<◌, ◌≡◌, true, false, ◌&&◌, some, ◌==◌, arith, ℕ_discrete, Bool-cases, inl, inr,
  if◌then◌else◌,
}
use ence.Locks.{Cpu, pushcli, popcli}

-- interrupts are off where a pushcli is open
unfoldable pub Matched : Cpu → Type 0
Matched c = c.interrupts ≡ true → c.ncli ≡ 0

-- `c` is the CPU `b` under `depth` more calls of pushcli than of popcli.
pub record Level (b : Cpu) (depth : ℕ) (c : Cpu) : Type 0 where
  pub ncli : c.ncli ≡ b.ncli + depth
  pub interrupts : c.interrupts ≡ (if depth == 0 then b.interrupts else false)
  pub intena : 0 < b.ncli + depth → c.intena ≡ (if b.ncli == 0 then b.interrupts else b.intena)

pub pushcli-Level :
    (b : Cpu) (depth : ℕ) (c : Cpu) → Matched b → Level b depth c → Level b (depth + 1) (pushcli c)
unfolding pushcli Matched
pushcli-Level b depth c m l = record {
  ncli = omega (arith, l.ncli);
  interrupts = ground arith;
  intena = λ lt. elim (ℕ_discrete depth 0) [
    | yes z ↦ ground (arith, l.ncli, l.interrupts, z, l.intena)
    | no nz ↦ ground (arith, l.ncli, l.intena (omega arith))
  ];
}

pub popcli-Level :
    (b : Cpu) (depth : ℕ) (c : Cpu)
    → Matched b
    → Level b (depth + 1) c
    → (c' : Cpu) × (popcli c ≡ some c') × Level b depth c'
unfolding popcli Matched
popcli-Level b depth c m l = (
  record c { interrupts = c.ncli - 1 == 0 && c.intena; ncli = c.ncli - 1 },
  ground (arith, l.ncli, l.interrupts),
  record {
    ncli = omega (arith, l.ncli);
    interrupts = elim (ℕ_discrete depth 0) [
      | yes z ↦ elim (ℕ_discrete b.ncli 0) [
        | yes bz ↦ ground (arith, z, bz, l.ncli, l.intena (omega arith))
        | no bnz ↦ elim (Bool-cases b.interrupts) [
          | inl on ↦ absurd (bnz (m on))
          | inr off ↦ ground (arith, z, bnz, off, l.ncli)
        ]
      ]
      | no nz ↦ ground (arith, nz, l.ncli)
    ];
    intena = λ lt. l.intena (omega arith);
  },
)
