-- ===== src/Strings/Tests.antt =====
-- The functions of string.c at small inputs, and the theorems with hypotheses at them.
use ence.Base.{ℕ, ◌≡◌, refl, pos, negsuc, List, [], ◌∷◌, zero, suc}
use ence.Strings.{Mem, memset, stosl, put_word, memmove, copy_down, strncmp}

-- the bytes of a list, and 0 behind them
abbrev text : List ℕ → Mem
text [] i = 0
text (c ∷ cs) zero = c
text (c ∷ cs) (suc i) = text cs i

abbrev ab : Mem
ab = text (b'a' ∷ b'b' ∷ [])

abbrev abc : Mem
abc = text (b'a' ∷ b'b' ∷ b'c' ∷ [])

compare_prefix : strncmp ab abc 2 ≡ pos 0
unfolding strncmp
compare_prefix = refl

compare_longer : strncmp ab abc 3 ≡ negsuc 98
unfolding strncmp
compare_longer = refl

overlap : memmove (λ a. a) 3 1 4 6 ≡ 4
unfolding memmove copy_down
overlap = refl

fill : memset (λ a. 0) 8 0x1ff 4 10 ≡ 255
unfolding memset stosl put_word
fill = refl
