-- ===== src/Console/Reader.antt =====
-- consoleread against the lines that are ready.
use ence.Base.{
  ℕ, zero, suc, ◌+◌, ◌-◌, ◌%◌, ◌≡◌, ◌≢◌, refl, sym, ap, subst, Bool, true, false, List, [], ◌∷◌,
  ltb, arith, ◌==◌, u32, if◌then◌else◌, ℕ_discrete,
}
use ence.Console.{
  Console, input_buf, control, Reading, returned, failed, asleep, read_from, consoleread,
}
use ence.Console.Ring.{waiting, window}
use ence.Console.Editor.{view, IsValid, Shows}

-- A read takes up to a newline, which it keeps, or an end of file, which it drops, at most `n` bytes.
-- An end of file behind some bytes stays for the next read. Where nothing is ready it sleeps, or fails
-- if the process was killed.
unfoldable pub line_read :
    (killed : Bool) (ready : List ℕ) (n target : ℕ) → List ℕ × Reading × List ℕ
line_read killed ready zero target = ([], returned target, ready)
line_read killed [] (suc n) target = ([], if killed then failed else asleep (suc n), [])
line_read killed (c ∷ ready) (suc n) target =
    let (bytes, how, left) = line_read killed ready n target in
    if c == control b'D'
    then ([], returned (target - suc n), if ltb (suc n) target then c ∷ ready else ready)
    else if c == b'\n'
    then (c ∷ [], returned (target - n), ready)
    else (c ∷ bytes, how, left)

-- What a read of `i` shows of a read of lines.
abbrev pub Reads : Console → List ℕ × Reading × Console → List ℕ × Reading × List ℕ → Type 0
Reads i (bytes, how, i') (bytes', how', ready) =
    (bytes ≡ bytes') × (how ≡ how') × Shows i' (record (view i) { ready = ready })

-- `i` without the first of its ready bytes
abbrev next : Console → Console
next i = record i { r = u32 (i.r + 1) }

module _ (i : Console) (v : IsValid i) (some_ready : i.r ≢ i.w) where
  waiting-next : waiting i ≡ suc (waiting (next i))
  waiting-next = omega (arith, v.r_fits, v.w_fits)

  next-IsValid : IsValid (next i)
  next-IsValid = record {
    r_fits = omega arith;
    w_fits = v.w_fits;
    e_fits = v.e_fits;
    bounded = omega (arith, v.bounded, waiting-next);
    one_line = v.one_line;
  }

module _ (killed : Bool) (n target : ℕ) where
  module _ (i : Console) where
    read_nothing :
        i.r ≡ i.w
        → read_from killed i (suc n) target ≡ ([], if killed then failed else asleep (suc n), i)
    unfolding read_from
    read_nothing e = ground (arith, e)

    read_end :
        i.r ≢ i.w
        → i.buf (i.r % input_buf) ≡ control b'D'
        → read_from killed i (suc n) target
          ≡ ([], returned (target - suc n), if ltb (suc n) target then i else next i)
    unfolding read_from
    read_end some_ready e = ground (arith, some_ready, e)

    read_newline :
        i.r ≢ i.w
        → i.buf (i.r % input_buf) ≡ b'\n'
        → read_from killed i (suc n) target
          ≡ (i.buf (i.r % input_buf) ∷ [], returned (target - n), next i)
    unfolding read_from
    read_newline some_ready e = ground (arith, some_ready, e)

    read_more :
        i.r ≢ i.w
        → i.buf (i.r % input_buf) ≢ control b'D'
        → i.buf (i.r % input_buf) ≢ b'\n'
        → read_from killed i (suc n) target ≡ (
          i.buf (i.r % input_buf) ∷ (read_from killed (next i) n target).0,
          (read_from killed (next i) n target).1,
          (read_from killed (next i) n target).2,
        )
    unfolding read_from
    read_more some_ready ne ne' = ground (arith, some_ready, ne, ne')

  module _ (c : ℕ) (ready : List ℕ) where
    line_end :
        c ≡ control b'D'
        → line_read killed (c ∷ ready) (suc n) target
          ≡ ([], returned (target - suc n), if ltb (suc n) target then c ∷ ready else ready)
    unfolding line_read
    line_end e = ground (arith, e)

    line_newline :
        c ≡ b'\n'
        → line_read killed (c ∷ ready) (suc n) target ≡ (c ∷ [], returned (target - n), ready)
    unfolding line_read
    line_newline e = ground (arith, e)

    line_more :
        c ≢ control b'D'
        → c ≢ b'\n'
        → line_read killed (c ∷ ready) (suc n) target ≡ (
          c ∷ (line_read killed ready n target).0,
          (line_read killed ready n target).1,
          (line_read killed ready n target).2,
        )
    unfolding line_read
    line_more ne ne' = ground (arith, ne, ne')

Reads-of :
    (i : Console) (o o' : List ℕ × Reading × Console) (l l' : List ℕ × Reading × List ℕ)
    → o ≡ o'
    → l ≡ l'
    → Reads i o' l'
    → Reads i o l
Reads-of i o o' l l' e f h =
    subst (λ (o : List ℕ × Reading × Console). Reads i o l) (sym e) (subst (Reads i o') (sym f) h)

Shows-end :
    (b : Bool) (i : Console) (ready : List ℕ)
    → IsValid i
    → IsValid (next i)
    → (view i).ready ≡ ready
    → Shows
        (if b then i else next i)
        (record (view i) { ready = if b then ready else (view (next i)).ready })
Shows-end true i ready v w e = (ap (λ (xs : List ℕ). record (view i) { ready = xs }) e, v)
Shows-end false i ready v w e = (refl, w)

-- at least one byte is ready
Reads-byte :
    (killed : Bool) (i : Console) (n target : ℕ)
    → IsValid i
    → i.r ≢ i.w
    → Reads
        (next i)
        (read_from killed (next i) n target)
        (line_read killed (view (next i)).ready n target)
    → Reads i
        (read_from killed i (suc n) target)
        (line_read killed (i.buf (i.r % input_buf) ∷ (view (next i)).ready) (suc n) target)
Reads-byte killed i n target v ne ih =
    let c = i.buf (i.r % input_buf) in
    let ready = (view (next i)).ready in
    let first : (view i).ready ≡ c ∷ ready = ap (window i.buf i.r) (waiting-next i v ne) in
    elim (ℕ_discrete c (control b'D')) [
      | yes e ↦
          Reads-of i _ _ _ _ (read_end killed n target i ne e) (line_end killed n target c ready e)
            (refl, refl, Shows-end (ltb (suc n) target) i (c ∷ ready) v (next-IsValid i v ne) first)
      | no ne_end ↦ elim (ℕ_discrete c b'\n') [
        | yes e ↦
            Reads-of i _ _ _ _ (read_newline killed n target i ne e)
              (line_newline killed n target c ready e) (refl, refl, (refl, next-IsValid i v ne))
        | no ne_line ↦
            Reads-of i _ _ _ _ (read_more killed n target i ne ne_end ne_line)
              (line_more killed n target c ready ne_end ne_line) (ap (◌∷◌ c) ih.0, ih.1, ih.2)
      ]
    ]

read_from_refines :
    (killed : Bool) (i : Console) (n target : ℕ)
    → IsValid i
    → Reads i (read_from killed i n target) (line_read killed (view i).ready n target)
read_from_refines killed i zero target v = unfold read_from line_read in (refl, refl, (refl, v))
read_from_refines killed i (suc n) target v = elim (ℕ_discrete i.r i.w) [
  | yes e ↦
      let nothing : waiting i ≡ 0 = omega (arith, e, v.w_fits) in
      let none_ready : (view i).ready ≡ [] = ap (window i.buf i.r) nothing in
      Reads-of i _ _ _ _ (read_nothing killed n target i e)
        (ap (λ (xs : List ℕ). line_read killed xs (suc n) target) none_ready)
        (unfold line_read in
          (refl, refl, (ap (λ (xs : List ℕ). record (view i) { ready = xs }) none_ready, v)))
  | no ne ↦
      let first = ap (window i.buf i.r) (waiting-next i v ne) in
      subst
        (λ (xs : List ℕ).
          Reads i (read_from killed i (suc n) target) (line_read killed xs (suc n) target))
        (sym first)
        (Reads-byte killed i n target v ne
          (read_from_refines killed (next i) n target (next-IsValid i v ne)))
]

-- On a valid ring, consoleread copies and returns what a read of the ready lines does, fails or sleeps where
-- it does, and leaves the other lines ready and what was typed alone.
pub consoleread_refines :
    (killed : Bool) (i : Console) (n : ℕ)
    → IsValid i
    → Reads i (consoleread killed i n) (line_read killed (view i).ready n n)
unfolding consoleread
consoleread_refines killed i n v = read_from_refines killed i n n v
