-- ===== src/Strings.antt =====
-- lab10xv6/xv6/string.c. Memory is a function from addresses to bytes; a pointer that a function
-- only reads through is the function of the bytes from it on, so that `p[i]` is `p i`.
pub mod Memory
pub mod Compare
pub mod Copy
mod Tests
use ence.Base.{
  ℕ, zero, suc, ◌+◌, ◌-◌, ◌*◌, ◌/◌, ◌%◌, ◌^◌, Bool, true, false, not, ◌&&◌, ltb, leb, ◌==◌, update,
  if◌then◌else◌, ℤ, pos, sub_ℕ,
}

abbrev pub Mem : Type 0
Mem = ℕ → ℕ

-- stosb of x86.h: `cnt` bytes from `addr` on
unfoldable pub stosb : Mem → (addr c cnt : ℕ) → Mem
stosb m addr c zero = m
stosb m addr c (suc cnt) = stosb (update m addr (c % 256)) (addr + 1) c cnt

-- a word of 4 bytes at `addr`, low byte first
unfoldable pub put_word : Mem → (addr w : ℕ) → Mem
put_word m addr w =
    update
      (update (update (update m addr (w % 256)) (addr + 1) (w / 2 ^ 8 % 256)) (addr + 2)
        (w / 2 ^ 16 % 256))
      (addr + 3) (w / 2 ^ 24 % 256)

-- stosl of x86.h: `cnt` words from `addr` on
unfoldable pub stosl : Mem → (addr w cnt : ℕ) → Mem
stosl m addr w zero = m
stosl m addr w (suc cnt) = stosl (put_word m addr w) (addr + 4) w cnt

-- The fields that `|` joins do not overlap, so that it adds.
pub memset : Mem → (dst c n : ℕ) → Mem
memset m dst c n =
    let b = c % 256 in
    if (dst % 4 == 0) && (n % 4 == 0)
    then stosl m dst (b * 2 ^ 24 + b * 2 ^ 16 + b * 2 ^ 8 + b) (n / 4)
    else stosb m dst c n

-- while(n-- > 0) *d++ = *s++
unfoldable pub copy_up : Mem → (d s n : ℕ) → Mem
copy_up m d s zero = m
copy_up m d s (suc n) = copy_up (update m d (m s)) (d + 1) (s + 1) n

-- while(n-- > 0) *--d = *--s
unfoldable pub copy_down : Mem → (d s n : ℕ) → Mem
copy_down m d s zero = m
copy_down m d s (suc n) = copy_down (update m (d - 1) (m (s - 1))) (d - 1) (s - 1) n

pub memmove : Mem → (dst src n : ℕ) → Mem
memmove m dst src n =
    if ltb src dst && ltb dst (src + n)
    then copy_down m (dst + n) (src + n) n
    else copy_up m dst src n

-- the bytes from the next one on
abbrev pub rest : Mem → Mem
rest p i = p (i + 1)

unfoldable pub memcmp : Mem → Mem → (n : ℕ) → ℤ
memcmp v1 v2 zero = pos 0
memcmp v1 v2 (suc n) =
    let more = memcmp (rest v1) (rest v2) n in
    if not (v1 0 == v2 0) then sub_ℕ (v1 0) (v2 0) else more

unfoldable pub strncmp : Mem → Mem → (n : ℕ) → ℤ
strncmp p q zero = pos 0
strncmp p q (suc n) =
    let more = strncmp (rest p) (rest q) n in
    if not (p 0 == 0) && (p 0 == q 0) then more else sub_ℕ (p 0) (q 0)

-- the last loop of strncpy: zeros from index `i` of the array on
unfoldable pub pad : Mem → (i n : ℕ) → Mem
pad out i zero = out
pad out i (suc n) = pad (update out i 0) (i + 1) n

-- both loops of strncpy from index `i` on, with `n` bytes to go
unfoldable pub strncpy_from : Mem → Mem → (i n : ℕ) → Mem
strncpy_from out t i zero = out
strncpy_from out t i (suc n) =
    let out' = update out i (t i) in
    let more = strncpy_from out' t (i + 1) n in if t i == 0 then pad out' (i + 1) n else more

-- `s` and `t` do not overlap.
pub strncpy : (s t : Mem) → (n : ℕ) → Mem
strncpy s t n = strncpy_from s t 0 n

-- the loop of safestrcpy from index `i` on, with `n` bytes to go, and the byte 0 behind it
unfoldable pub safestrcpy_from : Mem → Mem → (i n : ℕ) → Mem
safestrcpy_from out t i zero = update out i 0
safestrcpy_from out t i (suc n) =
    let out' = update out i (t i) in
    let more = safestrcpy_from out' t (i + 1) n in if t i == 0 then update out' (i + 1) 0 else more

pub safestrcpy : (s t : Mem) → (n : ℕ) → Mem
safestrcpy s t zero = s
safestrcpy s t (suc n) = safestrcpy_from s t 0 n

-- for(n = 0; s[n]; n++): with fuel; `fuel` itself where no byte is 0 below it
unfoldable pub strlen_from : Mem → (n fuel : ℕ) → ℕ
strlen_from s n zero = n
strlen_from s n (suc fuel) = let more = strlen_from s (n + 1) fuel in if s n == 0 then n else more
