-- ===== src/Sort/Tests.antt =====
-- The functions of sort.c on small inputs, and the theorems at them.
use ence.Base.{◌≡◌, refl, [], ◌∷◌, ltb, some, negsuc, arith}
use ence.Sort.{merge, double_from, next_power2, merge_tree, local_size}
use ence.Sort.Merge.{Merges, merge-Merges}
use ence.Sort.Power.{Least, next_power2-Least}

merge-Merges_example :
    Merges ltb (1 ∷ 4 ∷ []) (2 ∷ 2 ∷ 9 ∷ []) (merge ltb (1 ∷ 4 ∷ []) (2 ∷ 2 ∷ 9 ∷ []))
merge-Merges_example = merge-Merges ltb (λ x y h. ground (arith, h)) (1 ∷ 4 ∷ []) (2 ∷ 2 ∷ 9 ∷ [])

next_power2-Least_example : Least 5 (next_power2 5)
next_power2-Least_example = next_power2-Least 5 (omega arith)

power_test : next_power2 5 ≡ 8
unfolding next_power2 double_from
power_test = refl

-- the first of 4 processes ends with its own elements only
alone_test : merge_tree ltb 9 0 4 (3 ∷ 5 ∷ []) 2 ≡ some (3 ∷ 5 ∷ [])
unfolding merge_tree next_power2 double_from merge
alone_test = refl

-- 5 elements on 4 processes: the last one sorts -1 of them
last_test : local_size 5 4 3 ≡ negsuc 0
unfolding local_size
last_test = refl
