-- ===== src/Cache/Tests.antt =====
-- The calls of bio.c on a small disk, and the theorems with hypotheses at them.
use ence.Base.{ℕ, ◌≡◌, refl, true, Option, none, some, arith}
use ence.Cache.{Cache, binit, bget, bget_in, iderw, fill, bread, brelse}
use ence.Cache.Once.{Inv, Reach, start, next, reads, releases, one_buffer}
use ence.Cache.Read.{Delivered, bread-Delivered}

-- block `b` holds `b` in every word
abbrev empty : Cache
empty = binit (λ i w. 9) (λ b w. b) 100

abbrev result : Option (ℕ × Cache) → Cache
result none = empty
result (some (i, c)) = c

-- block 5 was read and released, then block 7 read
abbrev first : Cache
first = result (bread empty 1 5)

abbrev second : Cache
second = result (bread (brelse first 0) 1 7)

second-Reach : Reach second
unfolding binit bread fill bget bget_in iderw brelse
second-Reach =
    next
      (next
        (next (start (λ i w. 9) (λ b w. b) 100) (reads 1 5 0 first (λ e. ground (arith, e)) refl))
        (releases 0 (omega arith) (λ e. ground (arith, e))))
      (reads 1 7 1 second (λ e. ground (arith, e)) refl)

one_buffer_example : Inv second
one_buffer_example = one_buffer second-Reach

first-Reach : Reach first
unfolding binit bread fill bget bget_in iderw
first-Reach =
    next (start (λ i w. 9) (λ b w. b) 100) (reads 1 5 0 first (λ e. ground (arith, e)) refl)

-- Block 5 is cached.
abbrev again : Cache
again = result (bread first 1 5)

first-clean : (j : ℕ) → (first.bufs j).dirty ≡ true → (first.bufs j).valid ≡ true
unfolding binit bread fill bget bget_in iderw
first-clean j e = ground (arith, e)

again_test : bread first 1 5 ≡ some (0, again)
unfolding binit bread fill bget bget_in iderw
again_test = refl

bread-Delivered_example : Delivered first 1 5 0 again
bread-Delivered_example =
    bread-Delivered first 1 5 0 again first-Reach (λ e. ground (arith, e)) first-clean again_test
