-- ===== src/Cache/Once.antt =====
-- Every operation keeps a block in one buffer at most, and the order a list of all buffers.
use ence.Base.{
  ℕ, zero, suc, ◌+◌, ◌<◌, ◌≡◌, ◌≢◌, ◌⊎◌, inl, inr, refl, sym, ap, ◌∙◌, Bool, true, ◌&&◌, ◌||◌,
  Option, none, some, List, [], ◌∷◌, arith, ltb, leb, ◌==◌, length, subst, Option-cases, Bool-cases,
}
use ence.Log.{Block}
use ence.Cache.{
  Cache, nbuf, link_from, binit, set_buf, bget, iderw, fill, bread, bwrite, remove, brelse,
}
use ence.Cache.Lookup.{has, Got, cached, recycled, no_buffers, bget-Got}

-- Every buffer is on the list, as often as the list is long; and no two hold the same block of a device
-- other than 0. Buffers that were never used bear device 0.
pub record Inv (c : Cache) : Type 0 where
  pub all : (i : ℕ) → has i c.order ≡ ltb i nbuf
  pub long : length c.order ≡ nbuf
  pub once :
      (i j : ℕ)
      → has i c.order ≡ true
      → has j c.order ≡ true
      → (c.bufs i).dev ≢ 0
      → (c.bufs i).dev ≡ (c.bufs j).dev
      → (c.bufs i).blockno ≡ (c.bufs j).blockno
      → i ≡ j

-- A step that leaves the blocks where they are.
same_blocks :
    {c c' : Cache}
    → Inv c
    → ((i : ℕ) → has i c'.order ≡ has i c.order)
    → length c'.order ≡ length c.order
    → ((i : ℕ) → ((c'.bufs i).dev ≡ (c.bufs i).dev) × ((c'.bufs i).blockno ≡ (c.bufs i).blockno))
    → Inv c'
same_blocks v order same_length kept = record {
  all = λ i. order i ∙ v.all i;
  long = same_length ∙ v.long;
  once = λ i j hi hj real dev blockno. ground (arith, v.once i j, order i, order j, kept i, kept j);
}

iderw-order : (c c' : Cache) (i : ℕ) → iderw c i ≡ some c' → c'.order ≡ c.order
unfolding iderw
iderw-order c c' i e = ground (arith, e)

iderw-blocks :
    (c c' : Cache) (i j : ℕ)
    → iderw c i ≡ some c'
    → ((c'.bufs j).dev ≡ (c.bufs j).dev) × ((c'.bufs j).blockno ≡ (c.bufs j).blockno)
unfolding iderw
iderw-blocks c c' i j e = ground (arith, e)

-- The buffer lists of brelse.
has-remove : (i j : ℕ) (xs : List ℕ) → has i xs ≡ true → (j == i) || has j (remove i xs) ≡ has j xs
has-remove i j [] h = cc
has-remove i j (x ∷ xs) h = ground (arith, has-remove i j xs)

length-remove : (i : ℕ) (xs : List ℕ) → has i xs ≡ true → length (remove i xs) + 1 ≡ length xs
length-remove i [] h = cc
length-remove i (x ∷ xs) h = ground (arith, length-remove i xs)

module _ {c : Cache} (v : Inv c) where
  answer-Inv :
      (dev blockno : ℕ) (o : Option (ℕ × Cache))
      → dev ≢ 0
      → Got c dev blockno o
      → (i : ℕ) (c' : Cache) → o ≡ some (i, c')
      → Inv c'
  answer-Inv dev blockno _ real (cached k h e) i c' eq =
      same_blocks v (λ j. ground (arith, eq)) (ground (arith, eq)) (λ j. ground (arith, eq))
  answer-Inv dev blockno _ real (recycled k fresh h unused clean) i c' eq = record {
    all = λ j. ground (arith, eq, v.all j);
    long = ground (arith, eq, v.long);
    once = λ j m hj hm r d b. ground (arith, eq, v.once j m, fresh j, fresh m);
  }
  answer-Inv dev blockno _ real (no_buffers fresh busy) i c' eq = absurd (cc)

  iderw-Inv : (i : ℕ) (c' : Cache) → iderw c i ≡ some c' → Inv c'
  iderw-Inv i c' e =
      same_blocks v (λ j. ap (has j) (iderw-order c c' i e)) (ap length (iderw-order c c' i e))
        (λ j. iderw-blocks c c' i j e)

  brelse-Inv : (i : ℕ) → i < nbuf → Inv (brelse c i)
  unfolding brelse
  brelse-Inv i lt =
      same_blocks v (λ j. ground (arith, has-remove i j c.order, v.all i))
        (ground (arith, length-remove i c.order, v.all i)) (λ j. ground arith)

  bget-Inv : (dev blockno i : ℕ) (c' : Cache) → dev ≢ 0 → bget c dev blockno ≡ some (i, c') → Inv c'
  bget-Inv dev blockno i c' real e = answer-Inv dev blockno _ real (bget-Got c dev blockno) i c' e

  bwrite-Inv : (i : ℕ) (c' : Cache) → bwrite c i ≡ some c' → Inv c'
  unfolding bwrite
  bwrite-Inv i c' e =
      let marked = set_buf c i (record (c.bufs i) { dirty = true }) in
      let w : Inv marked = same_blocks v (λ j. refl) refl (λ j. ground arith) in
      same_blocks w (λ j. ap (has j) (iderw-order marked c' i e))
        (ap length (iderw-order marked c' i e)) (λ j. iderw-blocks marked c' i j e)

-- bread reads the disk only into the buffer that bget gave it.
fill-iderw :
    (c c' : Cache) (i k : ℕ)
    → fill (some (i, c)) ≡ some (k, c')
    → (k ≡ i) × ((c' ≡ c) ⊎ (iderw c i ≡ some c'))
unfolding fill
fill-iderw c c' i k e = elim (Bool-cases (c.bufs i).valid) [
  | inl there ↦ ground (arith, e)
  | inr absent ↦ elim (Option-cases (iderw c i)) [
    | inl panic ↦ absurd (ground (arith, e))
    | inr (d, ok) ↦ ground (arith, e, ok)
  ]
]

fill-Inv :
    (o : Option (ℕ × Cache)) (k : ℕ) (c' : Cache)
    → ((i : ℕ) (c : Cache) → o ≡ some (i, c) → Inv c)
    → fill o ≡ some (k, c')
    → Inv c'
unfolding fill
fill-Inv none k c' v e = absurd (cc)
fill-Inv (some (i, c)) k c' v e = elim ((fill-iderw c c' i k e).1) [
  | inl same ↦ subst Inv (sym same) (v i c refl)
  | inr ok ↦ iderw-Inv (v i c refl) i c' ok
]

bread-Inv :
    {c : Cache} (dev blockno i : ℕ) (c' : Cache)
    → Inv c
    → dev ≢ 0
    → bread c dev blockno ≡ some (i, c')
    → Inv c'
unfolding bread
bread-Inv {c} dev blockno i c' v real e =
    fill-Inv (bget c dev blockno) i c' (λ k d eq. bget-Inv v dev blockno k d real eq) e

link_from-all :
    (i k j : ℕ) (order : List ℕ)
    → has j (link_from i k order) ≡ ((leb i j && ltb j (i + k)) || has j order)
link_from-all i zero j order = ground arith
link_from-all i (suc k) j order = ground (arith, link_from-all (i + 1) k j (i ∷ order))

length-link_from : (i k : ℕ) (order : List ℕ) → length (link_from i k order) ≡ length order + k
length-link_from i zero order = omega arith
length-link_from i (suc k) order = omega (arith, length-link_from (i + 1) k (i ∷ order))

binit-Inv : (contents disk : ℕ → Block) (disksize : ℕ) → Inv (binit contents disk disksize)
unfolding binit
binit-Inv contents disk disksize = record {
  all = λ i. ground (arith, link_from-all 0 nbuf i []);
  long = length-link_from 0 nbuf [];
  once = λ i j hi hj real. absurd (real refl);
}

-- The calls of bio.c in any order. log_write marks a buffer, and whoever has locked one may change
-- its bytes.
pub data Step (c : Cache) : Cache → Type 0 where
  reads :
      (dev blockno i : ℕ) (c' : Cache) → dev ≢ 0 → bread c dev blockno ≡ some (i, c') → Step c c'
  writes : (i : ℕ) (c' : Cache) → i < nbuf → bwrite c i ≡ some c' → Step c c'
  releases : (i : ℕ) → i < nbuf → (c.bufs i).refcnt ≢ 0 → Step c (brelse c i)
  changes :
      (i : ℕ) (dirty : Bool) (bytes : Block)
      → Step c (set_buf c i (record (c.bufs i) { dirty = dirty; bytes = bytes }))

pub data Reach : Cache → Type 0 where
  start : (contents disk : ℕ → Block) (disksize : ℕ) → Reach (binit contents disk disksize)
  next : {c c' : Cache} → Reach c → Step c c' → Reach c'

step-Inv : {c c' : Cache} → Inv c → Step c c' → Inv c'
step-Inv v (reads dev blockno i c' real e) = bread-Inv dev blockno i c' v real e
step-Inv v (writes i c' lt e) = bwrite-Inv v i c' e
step-Inv v (releases i lt _) = brelse-Inv v i lt
step-Inv v (changes i dirty bytes) = same_blocks v (λ j. refl) refl (λ j. ground arith)

-- In every cache that the calls of bio.c reach in any order, with reads of devices other than 0: the list has
-- NBUF entries and every buffer is on it, used or not, and nothing else is; and two different buffers never
-- hold the same block of a device other than 0.
pub one_buffer : {c : Cache} → Reach c → Inv c
one_buffer (start contents disk disksize) = binit-Inv contents disk disksize
one_buffer (next r st) = step-Inv (one_buffer r) st
