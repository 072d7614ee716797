-- ===== src/Vm/Entries.antt =====
-- A page table as a map from addresses to entries.
use ence.Base.{
  ℕ, ◌+◌, ◌*◌, ◌%◌, ◌≤◌, ◌<◌, ◌≡◌, ◌≢◌, ◌⊎◌, refl, true, List, [], ◌∷◌, All, arith, if◌then◌else◌,
}
use ence.Memory.{Kmem, pgsize}
use ence.Memory.Chain.{Chain}
use ence.Memory.Range.{IsPage, Others}
use ence.Vm.{pdx, ptx, pte_addr, p2v, present, pde_at, pte_at}

-- The entry for an address, 0 where there is no table.
abbrev pub entry : Kmem → (pgdir va : ℕ) → ℕ
entry s pgdir va =
    if present (s.words (pde_at pgdir va))
    then s.words (pte_at (s.words (pde_at pgdir va)) va)
    else 0

-- the table of the addresses with index `d`
abbrev pub table : Kmem → (pgdir d : ℕ) → ℕ
table s pgdir d = p2v (pte_addr (s.words (pgdir + 4 * d)))

-- pages, each once
abbrev pub Distinct : List ℕ → Type 0
Distinct [] = Unit
Distinct (p ∷ ps) = Others p ps × Distinct ps

-- A page directory with its tables, beside the free pages.
pub record Valid (end : ℕ) (s : Kmem) (pgdir : ℕ) (free : List ℕ) : Type 0 where
  pub chain : Chain s.words s.freelist free
  pub free_pages : All (λ p. IsPage end p) free
  pub free_once : Distinct free
  pub aligned : pgdir % pgsize ≡ 0
  pub apart : Others pgdir free
  pub tables_apart :
      (d : ℕ) → d < 1024 → present (s.words (pgdir + 4 * d)) ≡ true → Others (table s pgdir d) free
  pub tables_set :
      (d : ℕ)
      → d < 1024
      → present (s.words (pgdir + 4 * d)) ≡ true
      → (table s pgdir d ≢ 0) × (table s pgdir d ≢ pgdir)
  pub tables_once :
      (d d' : ℕ)
      → d < 1024
      → d' < 1024
      → present (s.words (pgdir + 4 * d)) ≡ true
      → present (s.words (pgdir + 4 * d')) ≡ true
      → table s pgdir d ≡ table s pgdir d'
      → d ≡ d'

-- the address of an entry, by the index of its table
pub entry_at :
    (s : Kmem) (pgdir va : ℕ)
    → entry s pgdir va ≡ (
        if present (s.words (pgdir + 4 * pdx va))
        then s.words (table s pgdir (pdx va) + 4 * ptx va)
        else 0)
entry_at s pgdir va = refl

pub Others-first :
    (p q : ℕ) (ps : List ℕ) → Others p (q ∷ ps) → (q % pgsize ≡ 0) × (q ≢ p) × Others p ps
unfolding Others
Others-first p q ps (h, o) = (h.0, h.1, o)

-- a word of page `p` is none of the first words of other pages
pub Others-word :
    (words words' : ℕ → ℕ) (p : ℕ) (ps : List ℕ)
    → p % pgsize ≡ 0
    → ((x : ℕ) → (x < p) ⊎ (p + pgsize ≤ x) → words' x ≡ words x)
    → Others p ps
    → All (λ q. words' q ≡ words q) ps
unfolding Others
Others-word words words' p [] al same o = tt
Others-word words words' p (q ∷ ps) al same ((alq, ne), o) =
    (same q (omega arith), Others-word words words' p ps al same o)

pub Others-words2 :
    (words words' : ℕ → ℕ) (p p' : ℕ) (ps : List ℕ)
    → p % pgsize ≡ 0
    → p' % pgsize ≡ 0
    → ((x : ℕ) → (x < p) ⊎ (p + pgsize ≤ x) → (x < p') ⊎ (p' + pgsize ≤ x) → words' x ≡ words x)
    → Others p ps
    → Others p' ps
    → All (λ q. words' q ≡ words q) ps
unfolding Others
Others-words2 words words' p p' [] al al' same o o' = tt
Others-words2 words words' p p' (q ∷ ps) al al' same ((alq, ne), o) ((alq', ne'), o') =
    (same q (omega arith) (omega arith), Others-words2 words words' p p' ps al al' same o o')
