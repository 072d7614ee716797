-- ===== src/Grep/Tests.antt =====
-- The functions of grep.c at small inputs, and the theorems with hypotheses at them.
use ence.Base.{ℕ, ◌≡◌, ◌≢◌, arith, ◌↔◌, refl, true, false, List, [], ◌∷◌, ◌++◌}
use ence.Grep.{match_re, matchhere, matchstar, match_from, scan, grep_from, grep, newline}
use ence.Grep.Language.{Somewhere}
use ence.Grep.Matcher.{match_decides}
use ence.Grep.Lines.{unlines, select, concat, grep_selects, grep_cuts_line}

-- a*b
abbrev ab_star : List ℕ
ab_star = b'a' ∷ b'*' ∷ b'b' ∷ []

abbrev aab : List ℕ
aab = b'a' ∷ b'a' ∷ b'b' ∷ []

abbrev cc_line : List ℕ
cc_line = b'c' ∷ b'c' ∷ []

star_matches : match_re (b'^' ∷ b'a' ∷ b'*' ∷ b'b' ∷ b'$' ∷ []) aab ≡ true
unfolding match_re matchhere matchstar
star_matches = refl

no_match : match_re ab_star cc_line ≡ false
unfolding match_re match_from matchhere matchstar
no_match = refl

match_decides_example : (match_re ab_star aab ≡ true) ↔ Somewhere ab_star aab
match_decides_example = match_decides ab_star aab

-- The lines "aab" and "cc", with the second cut by the reads.
grep_selects_example :
    grep ab_star ((aab ++ (newline ∷ b'c' ∷ [])) ∷ (b'c' ∷ newline ∷ []) ∷ [])
    ≡ unlines (select ab_star (aab ∷ cc_line ∷ []))
grep_selects_example =
    grep_selects ab_star (aab ∷ cc_line ∷ [])
      ((aab ++ (newline ∷ b'c' ∷ [])) ∷ (b'c' ∷ newline ∷ []) ∷ [])
      ((refl, refl), ((refl, refl), tt)) (refl, (refl, tt)) refl

aab_matches : match_re ab_star ((b'a' ∷ b'a' ∷ []) ++ (b'b' ∷ [])) ≡ true
unfolding match_re match_from matchhere matchstar
aab_matches = refl

-- strchr stops at a byte 0: the lines behind it are not read.
zero_test : grep (b'f' ∷ []) ((b'a' ∷ 0 ∷ b'b' ∷ newline ∷ b'f' ∷ newline ∷ []) ∷ []) ≡ []
unfolding grep grep_from scan
zero_test = refl

-- "aa" and "b" with a newline come in two reads, and the line is missed.
grep_cuts_line_example :
    (concat ((b'a' ∷ b'a' ∷ []) ∷ (b'b' ∷ newline ∷ []) ∷ []) ≡ unlines (aab ∷ []))
    × (grep ab_star ((b'a' ∷ b'a' ∷ []) ∷ (b'b' ∷ newline ∷ []) ∷ [])
        ≡ unlines (select ab_star ((b'b' ∷ []) ∷ [])))
    × (grep ab_star ((b'a' ∷ b'a' ∷ []) ∷ (b'b' ∷ newline ∷ []) ∷ [])
        ≢ unlines (select ab_star (aab ∷ [])))
grep_cuts_line_example =
    grep_cuts_line ab_star (b'a' ∷ b'a' ∷ []) (b'b' ∷ []) [] ((b'b' ∷ newline ∷ []) ∷ [])
      (omega arith) (refl, refl) ((refl, refl), tt) (refl, tt) refl aab_matches
