-- ===== src/Grep.antt =====
-- lab10xv6/xv6/grep.c: the matcher, over strings as the lists of their bytes before the byte 0, and
-- the loop of grep over the chunks that read delivers.
pub mod Language
pub mod Matcher
pub mod Lines
mod Tests
use ence.Base.{ℕ, ◌+◌, Bool, true, false, ◌&&◌, ◌||◌, List, [], ◌∷◌, ◌++◌, ◌==◌, if◌then◌else◌}

abbrev pub star : ℕ
star = b'*'

abbrev pub dot : ℕ
dot = b'.'

abbrev pub dollar : ℕ
dollar = b'$'

abbrev pub caret : ℕ
caret = b'^'

abbrev pub newline : ℕ
newline = 10

abbrev pub is_empty : List ℕ → Bool
is_empty [] = true
is_empty (_ ∷ _) = false

-- the test of one byte of the text in matchhere and in matchstar
abbrev pub fits : (c t : ℕ) → Bool
fits c t = (t == c) || (c == dot)

-- matchstar, with matchhere of the rest of the expression as a function of the text
pub matchstar : (List ℕ → Bool) → (c : ℕ) (text : List ℕ) → Bool
matchstar matchhere_rest c [] = matchhere_rest []
matchstar matchhere_rest c (t ∷ ts) =
    let more = matchstar matchhere_rest c ts in
    if matchhere_rest (t ∷ ts) then true else if fits c t then more else false

pub matchhere : (re text : List ℕ) → Bool
matchhere [] text = true
matchhere (c ∷ []) text =
    if c == dollar then is_empty text else (elim text [ [] ↦ false | t ∷ ts ↦ fits c t ])
matchhere (c ∷ d ∷ re) text =
    if d == star
    then matchstar (matchhere re) c text
    else (elim text [ [] ↦ false | t ∷ ts ↦ fits c t && matchhere (d ∷ re) ts ])

-- the do loop of match
pub match_from : (re text : List ℕ) → Bool
match_from re [] = matchhere re []
match_from re (t ∷ ts) = let more = match_from re ts in if matchhere re (t ∷ ts) then true else more

-- `match` of grep.c
pub match_re : (re text : List ℕ) → Bool
match_re [] text = match_from [] text
match_re (c ∷ re) text = if c == caret then matchhere re text else match_from (c ∷ re) text

-- The loop over the lines of the buffer: what is written, and what is left behind the last newline that
-- strchr finds, which stops at a byte 0. `line` is what stands before the buffer's bytes on the current
-- line, with no byte 0 in it.
pub scan : (pattern line buf : List ℕ) → List ℕ × List ℕ
scan pattern line [] = ([], line)
scan pattern line (c ∷ cs) =
    let (out, left) = scan pattern [] cs in
    let more = scan pattern (line ++ (c ∷ [])) cs in
    if c == newline
    then ((if match_re pattern line then line ++ (newline ∷ out) else out), left)
    else if c == 0
    then ([], line ++ (c ∷ cs))
    else more

-- whether strchr finds a newline: one that no byte 0 stands before
abbrev pub has_newline : List ℕ → Bool
has_newline [] = false
has_newline (c ∷ cs) = let more = has_newline cs in if c == 0 then false else (c == newline) || more

-- The loop of grep from the state with `pending` in the buffer. Each chunk is what one call of read
-- returns: it is not empty and fits behind `pending`. Where strchr finds no newline in the buffer,
-- `p == buf` and m becomes 0.
pub grep_from : (pattern pending : List ℕ) (chunks : List (List ℕ)) → List ℕ
grep_from pattern pending [] = []
grep_from pattern pending (chunk ∷ chunks) =
    let buf = pending ++ chunk in
    let (out, left) = scan pattern [] buf in
    out ++ grep_from pattern (if has_newline buf then left else []) chunks

pub grep : (pattern : List ℕ) (chunks : List (List ℕ)) → List ℕ
grep pattern chunks = grep_from pattern [] chunks
