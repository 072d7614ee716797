-- ===== src/Cache/Lookup.antt =====
-- What bget answers: the buffer that caches the block, or an idle one.
use ence.Base.{
  ℕ, ◌+◌, ◌≡◌, refl, ap, ◌∙◌, Bool, true, false, ◌||◌, Option, none, some, List, [], ◌∷◌, ◌++◌,
  arith, ◌==◌,
}
use ence.Cache.{Buf, Cache, search, holds, idle, set_buf, bget_in, bget}
use mathlib.Core.List.{reverse, reverse-append}

-- the buffer is on the list
abbrev pub has : ℕ → List ℕ → Bool
has i [] = false
has i (j ∷ js) = (i == j) || has i js

has-append : (i : ℕ) (xs ys : List ℕ) → has i (xs ++ ys) ≡ (has i xs || has i ys)
has-append i [] ys = refl
has-append i (x ∷ xs) ys = ground (arith, has-append i xs ys)

has-reverse : (i : ℕ) (xs : List ℕ) → has i (reverse xs) ≡ has i xs
has-reverse i [] = refl
has-reverse i (x ∷ xs) =
    ap (has i) (reverse-append (x ∷ []) xs)
    ∙ has-append i (reverse xs) (x ∷ [])
    ∙ ground (arith, has-reverse i xs)

pub record Searched (test : Buf → Bool) (bufs : ℕ → Buf) (order : List ℕ) (o : Option ℕ)
    : Type 0 where
  pub hit : (i : ℕ) → o ≡ some i → (has i order ≡ true) × (test (bufs i) ≡ true)
  pub miss : (i : ℕ) → o ≡ none → has i order ≡ true → test (bufs i) ≡ false

pub search-Searched :
    (test : Buf → Bool) (bufs : ℕ → Buf) (order : List ℕ)
    → Searched test bufs order (search test bufs order)
search-Searched test bufs [] = record { hit = λ i e. cc; miss = λ i e h. cc }
search-Searched test bufs (x ∷ order) =
    let ih = search-Searched test bufs order in
    record { hit = λ i e. ground (arith, ih.hit i); miss = λ i e h. ground (arith, ih.miss i) }

-- What bget may answer.
pub data Got (c : Cache) (dev blockno : ℕ) : Option (ℕ × Cache) → Type 0 where
  -- a buffer holds the block, and one more user has it
  cached :
      (i : ℕ)
      → has i c.order ≡ true
      → holds dev blockno (c.bufs i) ≡ true
      → Got c dev blockno
          (some (i, set_buf c i (record (c.bufs i) { refcnt = (c.bufs i).refcnt + 1 })))
  -- no buffer holds it, and one that nobody uses and that need not be written gets it
  recycled :
      (i : ℕ)
      → ((j : ℕ) → has j c.order ≡ true → holds dev blockno (c.bufs j) ≡ false)
      → has i c.order ≡ true
      → (c.bufs i).refcnt ≡ 0
      → (c.bufs i).dirty ≡ false
      → Got c dev blockno (
          some (
            i,
            set_buf c i (record (c.bufs i) {
              dev = dev;
              blockno = blockno;
              valid = false;
              dirty = false;
              refcnt = 1;
            }),
          ))
  -- every buffer is in use or must be written
  no_buffers :
      ((j : ℕ) → has j c.order ≡ true → holds dev blockno (c.bufs j) ≡ false)
      → ((j : ℕ) → has j c.order ≡ true → idle (c.bufs j) ≡ false)
      → Got c dev blockno none

bget_in-Got :
    (c : Cache) (dev blockno : ℕ) (o free : Option ℕ)
    → Searched (holds dev blockno) c.bufs c.order o
    → Searched idle c.bufs (reverse c.order) free
    → Got c dev blockno (bget_in c dev blockno o free)
unfolding bget_in
bget_in-Got c dev blockno (some i) free f g = cached i (f.hit i refl).0 (f.hit i refl).1
bget_in-Got c dev blockno none (some i) f g =
    recycled i (λ j h. f.miss j refl h) (ground (arith, g.hit i, has-reverse i c.order))
      (ground (arith, g.hit i)) (ground (arith, g.hit i))
bget_in-Got c dev blockno none none f g =
    no_buffers (λ j h. f.miss j refl h) (λ j h. ground (arith, g.miss j, has-reverse j c.order))

-- bget returns the buffer that caches the block, where there is one; else it gives the block a buffer
-- that nobody uses and that need not be written, and it panics only where there is none.
pub bget-Got : (c : Cache) (dev blockno : ℕ) → Got c dev blockno (bget c dev blockno)
unfolding bget
bget-Got c dev blockno =
    bget_in-Got c dev blockno _ _ (search-Searched (holds dev blockno) c.bufs c.order)
      (search-Searched idle c.bufs (reverse c.order))
