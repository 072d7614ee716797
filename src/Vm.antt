-- ===== src/Vm.antt =====
-- Page tables: lab10xv6/xv6/vm.c with mmu.h, on the pages of kalloc. A page directory is its address, and
-- an entry a uint in memory. The page of kalloc that becomes a table has its low 12 bits 0, so that `|` of
-- its address with flags is `+`.
pub mod Entries
pub mod Walk
pub mod Write
pub mod Map
mod Tests
use ence.Base.{
  ℕ, zero, suc, ◌+◌, ◌-◌, ◌*◌, ◌/◌, ◌%◌, ◌^◌, Bool, true, false, not, ◌&&◌, ◌||◌, Option, none,
  some, ltb, leb, ◌==◌, update, u32, if◌then◌else◌,
}
use Prim.Native.Nat.{bit_or}
use ence.Memory.{Kmem, pgsize, kernbase, pg_round_up, v2p, fill, kalloc, kfree}

-- PDX, PTX, PGROUNDDOWN, PTE_ADDR and P2V
abbrev pub pdx : ℕ → ℕ
pdx va = va / 2 ^ 22 % 1024

abbrev pub ptx : ℕ → ℕ
ptx va = va / 2 ^ 12 % 1024

abbrev pub pg_round_down : ℕ → ℕ
pg_round_down a = a / pgsize * pgsize

abbrev pub pte_addr : ℕ → ℕ
pte_addr pte = pte / pgsize * pgsize

abbrev pub p2v : ℕ → ℕ
p2v a = u32 (a + kernbase)

-- PTE_P, PTE_W and PTE_U
abbrev pub pte_p : ℕ
pte_p = 1

abbrev pub pte_w : ℕ
pte_w = 2

abbrev pub pte_u : ℕ
pte_u = 4

-- pte & PTE_P, and pte & PTE_U
abbrev pub present : ℕ → Bool
present pte = pte % 2 == 1

abbrev pub user : ℕ → Bool
user pte = pte / pte_u % 2 == 1

-- &pgdir[PDX(va)], and where the table that it names has the entry of va
abbrev pub pde_at : (pgdir va : ℕ) → ℕ
pde_at pgdir va = pgdir + 4 * pdx va

abbrev pub pte_at : (pde va : ℕ) → ℕ
pte_at pde va = p2v (pte_addr pde) + 4 * ptx va

-- the table that kalloc gave as `r`, put into the directory; 0 if it gave none
pub new_table : (pgdir va : ℕ) → ℕ × Kmem → ℕ × Kmem
new_table pgdir va (r, s) = if r == 0 then (0, s) else (
  r + 4 * ptx va,
  record s {
    words =
        update (fill s.words r 0 (pgsize / 4)) (pde_at pgdir va) (v2p r + pte_p + pte_w + pte_u);
  },
)

-- walkpgdir: the address of the entry, or 0
pub walkpgdir : Kmem → (pgdir va : ℕ) (alloc : Bool) → ℕ × Kmem
walkpgdir s pgdir va alloc =
    let pde = s.words (pde_at pgdir va) in
    if present pde
    then (pte_at pde va, s)
    else if alloc
    then new_table pgdir va (kalloc s)
    else (0, s)

-- *pte = x
abbrev pub set_pte : Kmem → (pte x : ℕ) → Kmem
set_pte s pte x = record s { words = update s.words pte x }

-- pa | perm | PTE_P
abbrev pub make_pte : (pa perm : ℕ) → ℕ
make_pte pa perm = bit_or (bit_or pa perm) pte_p

-- the loop of mappages: whether it returns 0; `none` is the panic.
unfoldable pub map_from : (fuel : ℕ) → Kmem → (pgdir a last pa perm : ℕ) → Option (Bool × Kmem)
map_from zero s pgdir a last pa perm = none
map_from (suc fuel) s pgdir a last pa perm =
    let (pte, s1) = walkpgdir s pgdir a true in
    elim (pte == 0) [
      | true ↦ some (false, s1)
      | false ↦ elim (present (s1.words pte)) [
        | true ↦ none
        | false ↦
            let s2 = set_pte s1 pte (make_pte pa perm) in
            elim (a == last) [
              | true ↦ some (true, s2)
              | false ↦ map_from fuel s2 pgdir (u32 (a + pgsize)) last (u32 (pa + pgsize)) perm
            ]
      ]
    ]

pub mappages : Kmem → (pgdir va size pa perm : ℕ) → Option (Bool × Kmem)
mappages s pgdir va size pa perm =
    map_from (2 ^ 20) s pgdir (pg_round_down va) (pg_round_down (u32 (va + size + 2 ^ 32 - 1))) pa
      perm

-- what deallocuvm does with the entry at `pte`; `none` is a panic.
pub drop_page : (end : ℕ) → Kmem → (pte : ℕ) → Option Kmem
drop_page end s pte =
    let pa = pte_addr (s.words pte) in
    if not (present (s.words pte))
    then some s
    else if pa == 0
    then none
    else (elim (kfree end s (p2v pa)) [ none ↦ none | some s' ↦ some (set_pte s' pte 0) ])

-- the loop of deallocuvm
unfoldable pub dealloc_from : (fuel end : ℕ) → Kmem → (pgdir a oldsz : ℕ) → Option Kmem
dealloc_from zero end s pgdir a oldsz = some s
dealloc_from (suc fuel) end s pgdir a oldsz =
    let (pte, _) = walkpgdir s pgdir a false in
    elim (ltb a oldsz) [
      | false ↦ some s
      | true ↦ elim (pte == 0) [
        | true ↦ dealloc_from fuel end s pgdir (u32 ((pdx a + 1) * 2 ^ 22)) oldsz
        | false ↦ elim (drop_page end s pte) [
          | none ↦ none
          | some s' ↦ dealloc_from fuel end s' pgdir (u32 (a + pgsize)) oldsz
        ]
      ]
    ]

-- deallocuvm: the new size; `none` is a panic.
pub deallocuvm : (end : ℕ) → Kmem → (pgdir oldsz newsz : ℕ) → Option (ℕ × Kmem)
deallocuvm end s pgdir oldsz newsz =
    if leb oldsz newsz
    then some (oldsz, s)
    else (elim (dealloc_from (2 ^ 20) end s pgdir (pg_round_up newsz) oldsz) [
      | none ↦ none
      | some s' ↦ some (newsz, s')
    ])

-- uva2ka of a user address whose page table is there; 0 if the page is not the user's
pub uva2ka : Kmem → (pgdir uva : ℕ) → ℕ
uva2ka s pgdir uva =
    let pte = s.words (walkpgdir s pgdir uva false).0 in
    if not (present pte) then 0 else if not (user pte) then 0 else p2v (pte_addr pte)

-- clearpteu; `none` is the panic.
pub clearpteu : Kmem → (pgdir uva : ℕ) → Option Kmem
clearpteu s pgdir uva =
    let pte = (walkpgdir s pgdir uva false).0 in
    let x = s.words pte in
    if pte == 0 then none else some (set_pte s pte (if user x then x - pte_u else x))
