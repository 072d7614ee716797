-- ===== src/Memory.antt =====
-- The pages of lab10xv6/xv6/kalloc.c, on the memory of the kernel as uints by their addresses, which are
-- multiples of 4. The lock is left out, since nothing sleeps under it.
pub mod Chain
pub mod Range
pub mod Pages
mod Tests
use ence.Base.{
  ℕ, zero, suc, ◌+◌, ◌-◌, ◌*◌, ◌/◌, ◌%◌, ◌^◌, Bool, true, false, not, ◌&&◌, ◌||◌, Option, none,
  some, ltb, leb, ◌==◌, update, u32, if◌then◌else◌,
}

-- PGSIZE, KERNBASE and PHYSTOP
abbrev pub pgsize : ℕ
pgsize = 4096

abbrev pub kernbase : ℕ
kernbase = 0x80000000

abbrev pub phystop : ℕ
phystop = 0xE000000

-- PGROUNDUP and V2P
abbrev pub pg_round_up : ℕ → ℕ
pg_round_up sz = u32 (sz + pgsize - 1) / pgsize * pgsize

abbrev pub v2p : ℕ → ℕ
v2p a = u32 (a + 2 ^ 32 - kernbase)

-- kmem, with the memory; 0 is no page.
pub record Kmem : Type 0 where
  pub freelist : ℕ
  pub words : ℕ → ℕ

-- memset of `k` uints from address `a` on, with the byte `c`
unfoldable pub fill : (ℕ → ℕ) → (a c k : ℕ) → ℕ → ℕ
fill words a c zero = words
fill words a c (suc k) = fill (update words a (c * 0x01010101)) (a + 4) c k

-- kfree, with the address `end` behind the kernel; `none` is the panic.
pub kfree : (end : ℕ) → Kmem → (v : ℕ) → Option Kmem
kfree end s v =
    if not (v % pgsize == 0) || ltb v end || leb phystop (v2p v)
    then none
    else some (record { freelist = v; words = update (fill s.words v 1 (pgsize / 4)) v s.freelist })

-- kalloc: the page, or 0
pub kalloc : Kmem → ℕ × Kmem
kalloc s = let r = s.freelist in if r == 0 then (r, s) else (r, record s { freelist = s.words r })

-- the loop of freerange, from `p` on
unfoldable pub free_from : (fuel end : ℕ) → Kmem → (p vend : ℕ) → Option Kmem
free_from zero end s p vend = some s
free_from (suc fuel) end s p vend = elim (leb (u32 (p + pgsize)) vend) [
  | false ↦ some s
  | true ↦ elim (kfree end s p) [
    | none ↦ none
    | some s' ↦ free_from fuel end s' (u32 (p + pgsize)) vend
  ]
]

pub freerange : (end : ℕ) → Kmem → (vstart vend : ℕ) → Option Kmem
freerange end s vstart vend = free_from (2 ^ 20) end s (pg_round_up vstart) vend
