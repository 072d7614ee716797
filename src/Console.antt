-- ===== src/Console.antt =====
-- The line editor of lab10xv6/xv6/console.c: consoleintr, which the keyboard and the serial line call, and
-- consoleread and consolewrite, each as what it does while it holds cons.lock. A char is its byte, and a
-- key is below 256, as getc of kbd.c and of uart.c gives it, so that its char is the key itself.
pub mod Ring
pub mod Editor
pub mod Reader
mod Tests
use ence.Base.{
  ℕ, zero, suc, ◌+◌, ◌-◌, ◌%◌, ◌^◌, Bool, true, false, not, ◌&&◌, ◌||◌, List, [], ◌∷◌, ltb, ◌==◌,
  update, u32, if◌then◌else◌,
}

-- INPUT_BUF and BACKSPACE
abbrev pub input_buf : ℕ
input_buf = 128

abbrev pub backspace : ℕ
backspace = 0x100

-- C(x)
abbrev pub control : ℕ → ℕ
control x = x - b'@'

-- `input`, with what was given to consputc, last first, and whether wakeup(&input.r) was called and
-- procdump is due
pub record Console : Type 0 where
  pub buf : ℕ → ℕ
  pub r : ℕ
  pub w : ℕ
  pub e : ℕ
  pub shown : List ℕ
  pub woken : Bool
  pub doprocdump : Bool

-- input.e--; consputc(BACKSPACE)
abbrev pub erase : Console → Console
erase i = record i { e = u32 (i.e + 2 ^ 32 - 1); shown = backspace ∷ i.shown }

-- the loop for C('U')
unfoldable pub kill_line : (fuel : ℕ) → Console → Console
kill_line zero i = i
kill_line (suc fuel) i = elim (i.e == i.w) [
  | true ↦ i
  | false ↦ elim (i.buf (u32 (i.e + 2 ^ 32 - 1) % input_buf) == b'\n') [
    | true ↦ i
    | false ↦ kill_line fuel (erase i)
  ]
]

-- a byte to be kept, '\r' already turned into '\n'
abbrev pub keep : Console → (c : ℕ) → Console
keep i c =
    let e' = u32 (i.e + 1) in
    let i' = record i { buf = update i.buf (i.e % input_buf) c; e = e'; shown = c ∷ i.shown } in
    if (c == b'\n') || (c == control b'D') || (e' == u32 (i.r + input_buf))
    then record i' { w = e'; woken = true }
    else i'

-- the switch of consoleintr
pub key : Console → (c : ℕ) → Console
key i c =
    if c == control b'P'
    then record i { doprocdump = true }
    else if c == control b'U'
    then kill_line (u32 (i.e + 2 ^ 32 - i.w)) i
    else if (c == control b'H') || (c == 0x7f)
    then (if i.e == i.w then i else erase i)
    else if not (c == 0) && ltb (u32 (i.e + 2 ^ 32 - i.r)) input_buf
    then keep i (if c == b'\r' then b'\n' else c)
    else i

-- the loop of consoleintr over what getc gives before a negative number
unfoldable pub keys : Console → List ℕ → Console
keys i [] = i
keys i (c ∷ cs) = keys (key i c) cs

pub consoleintr : Console → List ℕ → Console
consoleintr i cs = keys (record i { doprocdump = false }) cs

-- How consoleread leaves the lock: with its result, with -1, or asleep with `n` still to read.
pub data Reading : Type 0 where
  returned : (count : ℕ) → Reading
  failed : Reading
  asleep : (n : ℕ) → Reading

-- consoleread from `n` bytes to go on: the bytes that it copies, and how it leaves the lock
unfoldable pub read_from : (killed : Bool) → Console → (n target : ℕ) → List ℕ × Reading × Console
read_from killed i zero target = ([], returned target, i)
read_from killed i (suc n) target = elim (i.r == i.w) [
  | true ↦ ([], if killed then failed else asleep (suc n), i)
  | false ↦
      let c = i.buf (i.r % input_buf) in
      let i' = record i { r = u32 (i.r + 1) } in
      elim (c == control b'D') [
        | true ↦ ([], returned (target - suc n), if ltb (suc n) target then i else i')
        | false ↦ elim (c == b'\n') [
          | true ↦ (c ∷ [], returned (target - n), i')
          | false ↦ (let (bytes, how, i'') = read_from killed i' n target in (c ∷ bytes, how, i''))
        ]
      ]
]

pub consoleread : (killed : Bool) → Console → (n : ℕ) → List ℕ × Reading × Console
consoleread killed i n = read_from killed i n n

pub consolewrite : Console → (buf : List ℕ) → Console
consolewrite i [] = i
consolewrite i (c ∷ buf) = consolewrite (record i { shown = c % 256 ∷ i.shown }) buf
