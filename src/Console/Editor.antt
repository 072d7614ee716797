-- ===== src/Console/Editor.antt =====
-- What the console promises: lines that are ready to be read and one that is being typed, and the
-- functions of console.c against it.
use ence.Base.{
  ℕ, zero, suc, ◌+◌, ◌-◌, ◌%◌, ◌^◌, ◌≤◌, ◌<◌, ◌≡◌, ◌≢◌, inl, inr, refl, sym, ap, ap₂, subst, ◌∙◌,
  Bool, true, false, not, ◌&&◌, ◌||◌, List, [], ◌∷◌, length, All, ltb, arith, ◌==◌, u32, update,
  update_self, if◌then◌else◌, Bool-cases, ℕ_discrete,
}
use ence.Console.{
  Console, input_buf, backspace, control, erase, kill_line, keep, key, keys, consoleintr,
}
use ence.Console.Ring.{
  waiting, pending, window, back, length-window, length-back, window-update, back-update, release,
  release-back,
}

-- The abstract console; the typed bytes stand last first, and so do those shown.
pub record Line : Type 0 where
  pub ready : List ℕ
  pub typed : List ℕ
  pub shown : List ℕ
  pub woken : Bool
  pub doprocdump : Bool

abbrev pub view : Console → Line
view i = record {
  ready = window i.buf i.r (waiting i);
  typed = back i.buf i.e (pending i);
  shown = i.shown;
  woken = i.woken;
  doprocdump = i.doprocdump;
}

-- one more backspace for each typed byte
unfoldable pub rub_out : (typed shown : List ℕ) → List ℕ
rub_out [] shown = shown
rub_out (_ ∷ typed) shown = rub_out typed (backspace ∷ shown)

abbrev pub rub_one : Line → List ℕ → Line
rub_one l [] = l
rub_one l (_ ∷ typed) = record l { typed = typed; shown = backspace ∷ l.shown }

-- A byte ends the line where it is a newline or end of file, or the buffer is full with it.
abbrev pub add : Line → ℕ → Line
add l c =
    let l' = record l { typed = c ∷ l.typed; shown = c ∷ l.shown } in
    if (c == b'\n') || (c == control b'D') || (length l.ready + length l.typed + 1 == input_buf)
    then record l' { ready = release l.ready l'.typed; typed = []; woken = true }
    else l'

pub press : Line → ℕ → Line
press l c =
    if c == control b'P'
    then record l { doprocdump = true }
    else if c == control b'U'
    then record l { typed = []; shown = rub_out l.typed l.shown }
    else if (c == control b'H') || (c == 0x7f)
    then rub_one l l.typed
    else if not (c == 0) && ltb (length l.ready + length l.typed) input_buf
    then add l (if c == b'\r' then b'\n' else c)
    else l

unfoldable pub presses : Line → List ℕ → Line
presses l [] = l
presses l (c ∷ cs) = presses (press l c) cs

pub record IsValid (i : Console) : Type 0 where
  pub r_fits : i.r < 2 ^ 32
  pub w_fits : i.w < 2 ^ 32
  pub e_fits : i.e < 2 ^ 32
  pub bounded : waiting i + pending i ≤ input_buf
  pub one_line : All (λ c. c ≢ b'\n') (back i.buf i.e (pending i))

-- `i` is valid and shows as `l`.
abbrev pub Shows : Console → Line → Type 0
Shows i l = (view i ≡ l) × IsValid i

module _ (i : Console) (v : IsValid i) (typed : i.e ≢ i.w) where
  pending-erase : pending i ≡ suc (pending (erase i))
  pending-erase = omega (arith, v.w_fits, v.e_fits)

  -- the last byte, and the others
  last :
      back i.buf i.e (pending i)
      ≡ i.buf (u32 (i.e + 2 ^ 32 - 1) % input_buf) ∷ back i.buf (erase i).e (pending (erase i))
  last = ap (back i.buf i.e) pending-erase

  last-All :
      All
        (λ c. c ≢ b'\n')
        (i.buf (u32 (i.e + 2 ^ 32 - 1) % input_buf) ∷ back i.buf (erase i).e (pending (erase i)))
  last-All = subst (All (λ c. c ≢ b'\n')) last v.one_line

  erase-IsValid : IsValid (erase i)
  erase-IsValid = record {
    r_fits = v.r_fits;
    w_fits = v.w_fits;
    e_fits = omega arith;
    bounded = omega (arith, v.bounded, pending-erase);
    one_line = last-All.1;
  }

  view-erase : view (erase i) ≡ rub_one (view i) (view i).typed
  view-erase = rw last refl

kill_line-Shows :
    (n : ℕ) (i : Console)
    → IsValid i
    → pending i ≡ n
    → Shows (kill_line n i) (record (view i) { typed = []; shown = rub_out (view i).typed i.shown })
unfolding kill_line rub_out
kill_line-Shows zero i v e = (rw e refl, v)
kill_line-Shows (suc n) i v e =
    let typed : i.e ≢ i.w = λ h. absurd (omega (arith, v.w_fits, v.e_fits, h, e)) in
    let ih =
      kill_line-Shows n (erase i) (erase-IsValid i v typed)
        (omega (arith, pending-erase i v typed)) in
    let step : kill_line (suc n) i ≡ kill_line n (erase i) =
      ground (arith, typed, (last-All i v typed).0) in
    let goal : Console → List ℕ → Type 0 =
      λ x typed. Shows x (record (view i) { typed = []; shown = rub_out typed i.shown }) in
    subst (λ (x : Console). goal x (view i).typed) (sym step)
      (subst (goal (kill_line n (erase i))) (sym (last i v typed)) ih)

module _ (i : Console) (c : ℕ) (v : IsValid i) (room : waiting i + pending i < input_buf) where
  -- before the line is released
  kept : Console
  kept = record i { buf = update i.buf (i.e % input_buf) c; e = u32 (i.e + 1); shown = c ∷ i.shown }

  pending-kept : pending kept ≡ suc (pending i)
  unfolding kept
  pending-kept = omega (arith, v.w_fits, v.e_fits, room)

  ready-kept : window kept.buf i.r (waiting i) ≡ window i.buf i.r (waiting i)
  unfolding kept
  ready-kept =
      window-update i.buf i.r (waiting i) (pending i) (i.e % input_buf) c v.r_fits room
        (omega (arith, v.w_fits, v.e_fits, v.r_fits))

  typed-kept : back kept.buf kept.e (suc (pending i)) ≡ c ∷ back i.buf i.e (pending i)
  unfolding kept
  typed-kept =
      let before : u32 (kept.e + 2 ^ 32 - 1) ≡ i.e = omega (arith, v.e_fits) in
      ap (λ (e : ℕ). kept.buf (e % input_buf) ∷ back kept.buf e (pending i)) before
      ∙ ap₂ ◌∷◌ (update_self i.buf (i.e % input_buf) c) (
          back-update i.buf i.e (pending i) 0 (i.e % input_buf) c v.e_fits (omega (arith, room))
            (omega arith))

  full_iff :
      (u32 (i.e + 1) == u32 (i.r + input_buf))
      ≡ (length (view i).ready + length (view i).typed + 1 == input_buf)
  full_iff = ground (
    arith,
    v.w_fits,
    v.e_fits,
    v.r_fits,
    room,
    length-window i.buf i.r (waiting i),
    length-back i.buf i.e (pending i),
  )

  released : Console
  unfolding kept
  released = record kept { w = kept.e; woken = true }

  released-Shows : Shows released (record (view i) {
    ready = release (view i).ready (c ∷ (view i).typed);
    typed = [];
    shown = c ∷ i.shown;
    woken = true;
  })
  unfolding kept released
  released-Shows =
      let nothing : pending released ≡ 0 = omega arith in
      let all : waiting released ≡ waiting i + suc (pending i) =
        omega (arith, v.w_fits, v.e_fits, v.r_fits, room) in
      let at : kept.e ≡ u32 (i.r + waiting i + suc (pending i)) =
        omega (arith, v.w_fits, v.e_fits, v.r_fits) in
      let ready =
        ap (window kept.buf i.r) all
        ∙ sym (
            release-back kept.buf i.r (waiting i) (suc (pending i)) kept.e v.r_fits at
              (omega (arith, room)))
        ∙ ap₂ release ready-kept typed-kept in
      (
        ap₂
            (λ (xs ys : List ℕ). record (view i) {
              ready = xs;
              typed = ys;
              shown = c ∷ i.shown;
              woken = true;
            })
            ready (ap (back kept.buf kept.e) nothing),
        record {
          r_fits = v.r_fits;
          w_fits = omega arith;
          e_fits = omega arith;
          bounded = omega (arith, all, nothing, room);
          one_line =
              subst (λ (n : ℕ). All (λ c. c ≢ b'\n') (back kept.buf kept.e n)) (sym nothing) tt;
        },
      )

  kept-Shows :
      c ≢ b'\n' → Shows kept (record (view i) { typed = c ∷ (view i).typed; shown = c ∷ i.shown })
  unfolding kept
  kept-Shows ne =
      let typed = ap (back kept.buf kept.e) pending-kept ∙ typed-kept in
      (
        ap₂ (λ (xs ys : List ℕ). record (view i) { ready = xs; typed = ys; shown = c ∷ i.shown })
            ready-kept typed,
        record {
          r_fits = v.r_fits;
          w_fits = v.w_fits;
          e_fits = omega arith;
          bounded = omega (arith, pending-kept, room);
          one_line = subst (All (λ c. c ≢ b'\n')) (sym typed) (ne, v.one_line);
        },
      )

  keep-Shows : Shows (keep i c) (add (view i) c)
  unfolding kept released
  keep-Shows =
      elim (Bool-cases
        ((c == b'\n') || (c == control b'D') || (u32 (i.e + 1) == u32 (i.r + input_buf)))) [
          | inl end ↦
              rw
                (
                  end,
                  subst (λ (b : Bool). ((c == b'\n') || (c == control b'D') || b) ≡ true) full_iff
                      end,
                )
                released-Shows
          | inr more ↦
              rw
                (
                  more,
                  subst (λ (b : Bool). ((c == b'\n') || (c == control b'D') || b) ≡ false) full_iff
                      more,
                )
                (kept-Shows (ground (arith, more)))
        ]

erase-Shows :
    (i : Console)
    → IsValid i
    → Shows (if i.e == i.w then i else erase i) (rub_one (view i) (view i).typed)
erase-Shows i v = elim (ℕ_discrete i.e i.w) [
  | yes e ↦
      let none_typed : pending i ≡ 0 = omega (arith, e, v.w_fits) in
      let stays : (i.e == i.w) ≡ true = ground (arith, e) in
      subst (λ (ts : List ℕ). Shows (if i.e == i.w then i else erase i) (rub_one (view i) ts))
        (sym (ap (back i.buf i.e) none_typed)) (rw stays (refl, v))
  | no ne ↦
      let goes : (i.e == i.w) ≡ false = ground (arith, ne) in
      rw goes (view-erase i v ne, erase-IsValid i v ne)
]

add-Shows :
    (i : Console) (c : ℕ)
    → IsValid i
    → Shows
        (if not (c == 0) && ltb (u32 (i.e + 2 ^ 32 - i.r)) input_buf
          then keep i (if c == b'\r' then b'\n' else c)
          else i)
        (if not (c == 0) && ltb (length (view i).ready + length (view i).typed) input_buf
          then add (view i) (if c == b'\r' then b'\n' else c)
          else view i)
add-Shows i c v =
    let total : u32 (i.e + 2 ^ 32 - i.r) ≡ length (view i).ready + length (view i).typed = omega (
      arith,
      v.bounded,
      v.r_fits,
      v.w_fits,
      v.e_fits,
      length-window i.buf i.r (waiting i),
      length-back i.buf i.e (pending i),
    ) in
    elim (Bool-cases (not (c == 0) && ltb (u32 (i.e + 2 ^ 32 - i.r)) input_buf)) [
      | inl room ↦
          rw (room, subst (λ (n : ℕ). (not (c == 0) && ltb n input_buf) ≡ true) total room)
            (keep-Shows i (if c == b'\r' then b'\n' else c) v
              (ground (arith, room, v.bounded, v.r_fits, v.w_fits, v.e_fits)))
      | inr lost ↦
          rw (lost, subst (λ (n : ℕ). (not (c == 0) && ltb n input_buf) ≡ false) total lost)
            (refl, v)
    ]

if-Shows :
    (b : Bool) (i j : Console) (l k : Line)
    → (b ≡ true → Shows i l)
    → Shows j k
    → Shows (if b then i else j) (if b then l else k)
if-Shows true i j l k h g = h refl
if-Shows false i j l k h g = g

-- Each key does to the ring what it does to the lines.
key-Shows : (i : Console) (c : ℕ) → IsValid i → Shows (key i c) (press (view i) c)
unfolding key press
key-Shows i c v =
    if-Shows (c == control b'P') _ _ _ _
      (λ _. (
        refl,
        record {
          r_fits = v.r_fits;
          w_fits = v.w_fits;
          e_fits = v.e_fits;
          bounded = v.bounded;
          one_line = v.one_line;
        },
      ))
      (if-Shows (c == control b'U') _ _ _ _ (λ _. kill_line-Shows (pending i) i v refl)
        (if-Shows ((c == control b'H') || (c == 0x7f)) _ _ _ _ (λ _. erase-Shows i v)
          (add-Shows i c v)))

keys-Shows : (i : Console) (cs : List ℕ) → IsValid i → Shows (keys i cs) (presses (view i) cs)
unfolding keys presses
keys-Shows i [] v = (refl, v)
keys-Shows i (c ∷ cs) v =
    let (shows, valid) = key-Shows i c v in
    subst (λ (l : Line). Shows (keys (key i c) cs) (presses l cs)) shows
      (keys-Shows (key i c) cs valid)

-- On a valid ring, consoleintr does key by key what the lines do: a newline, an end of file or a full buffer
-- releases what was typed, erasing goes no further back than the released lines, a full buffer takes no
-- byte, and the ring stays valid.
pub consoleintr_refines :
    (i : Console) (cs : List ℕ)
    → IsValid i
    → Shows (consoleintr i cs) (presses (record (view i) { doprocdump = false }) cs)
unfolding consoleintr
consoleintr_refines i cs v =
    keys-Shows (record i { doprocdump = false }) cs
      (record {
        r_fits = v.r_fits;
        w_fits = v.w_fits;
        e_fits = v.e_fits;
        bounded = v.bounded;
        one_line = v.one_line;
      })
