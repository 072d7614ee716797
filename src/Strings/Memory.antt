-- ===== src/Strings/Memory.antt =====
-- memset and memmove against the bytes that they should leave.
use ence.Base.{
  ℕ, zero, suc, ◌+◌, ◌-◌, ◌*◌, ◌/◌, ◌%◌, ◌^◌, ◌≤◌, ◌<◌, ◌≡◌, ◌⊎◌, inl, inr, Bool-cases, ◌&&◌, ltb,
  leb, ◌==◌, update, if◌then◌else◌, arith,
}
use ence.Strings.{Mem, stosb, put_word, stosl, memset, copy_up, copy_down, memmove}

stosb_lem :
    (m : Mem) (addr c cnt a : ℕ)
    → stosb m addr c cnt a ≡ (if leb addr a && ltb a (addr + cnt) then c % 256 else m a)
unfolding stosb
stosb_lem m addr c zero a = ground arith
stosb_lem m addr c (suc cnt) a =
    ground (arith, stosb_lem (update m addr (c % 256)) (addr + 1) c cnt a)

abbrev spread : ℕ → ℕ
spread b = b * 2 ^ 24 + b * 2 ^ 16 + b * 2 ^ 8 + b

put_word_lem :
    (m : Mem) (addr b a : ℕ)
    → b < 256
    → put_word m addr (spread b) a ≡ (if leb addr a && ltb a (addr + 4) then b else m a)
unfolding put_word
put_word_lem m addr b a small =
    let w = spread b in
    let bytes : (w % 256 ≡ b)
        × (w / 2 ^ 8 % 256 ≡ b)
        × (w / 2 ^ 16 % 256 ≡ b)
        × (w / 2 ^ 24 % 256 ≡ b) =
      omega arith in
    rw (bytes.0, bytes.1, bytes.2, bytes.3) (ground arith)

stosl_lem :
    (m : Mem) (addr b cnt a : ℕ)
    → b < 256
    → stosl m addr (spread b) cnt a ≡ (if leb addr a && ltb a (addr + 4 * cnt) then b else m a)
unfolding stosl
stosl_lem m addr b zero a small = ground arith
stosl_lem m addr b (suc cnt) a small =
    rw
      (
        stosl_lem (put_word m addr (spread b)) (addr + 4) b cnt a small,
        put_word_lem m addr b a small,
      )
      (ground arith)

-- memset sets exactly the `n` bytes from `dst` on to the low byte of `c`, on both of its paths.
pub memset_lem :
    (m : Mem) (dst c n a : ℕ)
    → memset m dst c n a ≡ (if leb dst a && ltb a (dst + n) then c % 256 else m a)
unfolding memset
memset_lem m dst c n a = elim (Bool-cases ((dst % 4 == 0) && (n % 4 == 0))) [
  | inl e ↦
      let whole : 4 * (n / 4) ≡ n = ground arith in
      rw (e, stosl_lem m dst (c % 256) (n / 4) a (omega arith), whole)
  | inr e ↦ rw (e, stosb_lem m dst c n a)
]

-- The loops of memmove, where none of them reads a byte that it has written.
copy_up_lem :
    (m : Mem) (d s n a : ℕ)
    → (d ≤ s) ⊎ (s + n ≤ d)
    → copy_up m d s n a ≡ (if leb d a && ltb a (d + n) then m (s + a - d) else m a)
unfolding copy_up
copy_up_lem m d s zero a h = ground arith
copy_up_lem m d s (suc n) a h =
    let index : s + 1 + a - (d + 1) ≡ s + a - d = omega arith in
    rw (copy_up_lem (update m d (m s)) (d + 1) (s + 1) n a (omega arith), index) (ground arith)

copy_down_lem :
    (m : Mem) (d s n a : ℕ)
    → s ≤ d
    → copy_down m (d + n) (s + n) n a ≡ (if leb d a && ltb a (d + n) then m (s + a - d) else m a)
unfolding copy_down
copy_down_lem m d s zero a h = ground arith
copy_down_lem m d s (suc n) a h =
    let to : d + suc n - 1 ≡ d + n = omega arith in
    let from : s + suc n - 1 ≡ s + n = omega arith in
    rw (to, from) (rw (copy_down_lem (update m (d + n) (m (s + n))) d s n a h) (ground arith))

-- memmove leaves in the `n` bytes from `dst` on what the `n` bytes from `src` on held before, also
-- where the two ranges overlap, and every other byte alone.
pub memmove_lem :
    (m : Mem) (dst src n a : ℕ)
    → memmove m dst src n a ≡ (if leb dst a && ltb a (dst + n) then m (src + a - dst) else m a)
unfolding memmove
memmove_lem m dst src n a = elim (Bool-cases (ltb src dst && ltb dst (src + n))) [
  | inl e ↦ rw (e, copy_down_lem m dst src n a (ground arith))
  | inr e ↦ rw (e, copy_up_lem m dst src n a (ground arith))
]
