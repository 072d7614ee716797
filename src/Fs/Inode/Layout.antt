-- ===== src/Fs/Inode/Layout.antt =====
-- Shorts and uints in the bytes of a block.
use ence.Base.{
  ℕ, zero, suc, ◌+◌, ◌*◌, ◌/◌, ◌%◌, ◌^◌, ◌≤◌, ◌<◌, ◌≡◌, ◌⊎◌, refl, ◌∙◌, arith, ℕ_discrete, subst,
}
use ence.Strings.{Mem, put_word}
use ence.Fs.Inode.{Inode, ndirect, dinode_size, half, put_half, word, put_words, put_dinode}

-- Two ranges of bytes that do not meet.
abbrev pub Apart : (a n b k : ℕ) → Type 0
Apart a n b k = (a + n ≤ b) ⊎ (b + k ≤ a)

put_half_at : (m : Mem) (a v b : ℕ) → Apart a 2 b 1 → put_half m a v b ≡ m b
unfolding put_half
put_half_at m a v b far = ground (arith, far)

put_word_at : (m : Mem) (a v b : ℕ) → Apart a 4 b 1 → put_word m a v b ≡ m b
unfolding put_word
put_word_at m a v b far = ground (arith, far)

pub half-put_half : (m : Mem) (a v : ℕ) → v < 2 ^ 16 → half (put_half m a v) a ≡ v
unfolding put_half
half-put_half m a v fits =
    let low : put_half m a v a ≡ v % 256 = ground arith in
    let high : put_half m a v (a + 1) ≡ v / 2 ^ 8 % 256 = ground arith in omega arith

pub half_apart : (m m' : Mem) (b : ℕ) → m' b ≡ m b → m' (b + 1) ≡ m (b + 1) → half m' b ≡ half m b
half_apart m m' b e e1 = rw (e, e1) refl

pub half-put_half_other : (m : Mem) (a v b : ℕ) → Apart a 2 b 2 → half (put_half m a v) b ≡ half m b
half-put_half_other m a v b far =
    rw (put_half_at m a v b (omega arith), put_half_at m a v (b + 1) (omega arith)) refl

pub half-put_word_other : (m : Mem) (a v b : ℕ) → Apart a 4 b 2 → half (put_word m a v) b ≡ half m b
half-put_word_other m a v b far =
    rw (put_word_at m a v b (omega arith), put_word_at m a v (b + 1) (omega arith)) refl

pub word-put_word : (m : Mem) (a v : ℕ) → v < 2 ^ 32 → word (put_word m a v) a ≡ v
unfolding put_word
word-put_word m a v fits =
    let b0 : put_word m a v a ≡ v % 256 = ground arith in
    let b1 : put_word m a v (a + 1) ≡ v / 2 ^ 8 % 256 = ground arith in
    let b2 : put_word m a v (a + 2) ≡ v / 2 ^ 16 % 256 = ground arith in
    let b3 : put_word m a v (a + 3) ≡ v / 2 ^ 24 % 256 = ground arith in
    rw (b0, b1, b2, b3) (omega arith)

pub word-put_word_other : (m : Mem) (a v b : ℕ) → Apart a 4 b 4 → word (put_word m a v) b ≡ word m b
word-put_word_other m a v b far =
    rw
      (
        put_word_at m a v b (omega arith),
        put_word_at m a v (b + 1) (omega arith),
        put_word_at m a v (b + 2) (omega arith),
        put_word_at m a v (b + 3) (omega arith),
      )
      refl

pub half-put_words :
    (m : Mem) (a : ℕ) (addrs : ℕ → ℕ) (i k b : ℕ)
    → b + 2 ≤ a + 4 * i
    → half (put_words m a addrs i k) b ≡ half m b
unfolding put_words
half-put_words m a addrs i zero b lt = refl
half-put_words m a addrs i (suc k) b lt =
    half-put_words (put_word m (a + 4 * i) (addrs i)) a addrs (i + 1) k b (omega arith)
    ∙ half-put_word_other m (a + 4 * i) (addrs i) b (omega arith)

pub word-put_words_other :
    (m : Mem) (a : ℕ) (addrs : ℕ → ℕ) (i k b : ℕ)
    → b + 4 ≤ a + 4 * i
    → word (put_words m a addrs i k) b ≡ word m b
unfolding put_words
word-put_words_other m a addrs i zero b lt = refl
word-put_words_other m a addrs i (suc k) b lt =
    word-put_words_other (put_word m (a + 4 * i) (addrs i)) a addrs (i + 1) k b (omega arith)
    ∙ word-put_word_other m (a + 4 * i) (addrs i) b (omega arith)

pub word-put_words :
    (m : Mem) (a : ℕ) (addrs : ℕ → ℕ) (i k j : ℕ)
    → i ≤ j
    → j < i + k
    → addrs j < 2 ^ 32
    → word (put_words m a addrs i k) (a + 4 * j) ≡ addrs j
unfolding put_words
word-put_words m a addrs i zero j lo hi fits = absurd (omega arith)
word-put_words m a addrs i (suc k) j lo hi fits = elim (ℕ_discrete i j) [
  | yes e ↦
      word-put_words_other (put_word m (a + 4 * i) (addrs i)) a addrs (i + 1) k (a + 4 * j)
        (omega arith)
      ∙ subst (λ (j : ℕ). word (put_word m (a + 4 * i) (addrs i)) (a + 4 * j) ≡ addrs j) e
          (word-put_word m (a + 4 * i) (addrs i) (rw e fits))
  | no ne ↦
      word-put_words (put_word m (a + 4 * i) (addrs i)) a addrs (i + 1) k j (omega arith)
        (omega arith) fits
]

put_words_at :
    (m : Mem) (a : ℕ) (addrs : ℕ → ℕ) (i k b : ℕ)
    → Apart (a + 4 * i) (4 * k) b 1
    → put_words m a addrs i k b ≡ m b
unfolding put_words
put_words_at m a addrs i zero b far = refl
put_words_at m a addrs i (suc k) b far =
    put_words_at (put_word m (a + 4 * i) (addrs i)) a addrs (i + 1) k b (omega arith)
    ∙ put_word_at m (a + 4 * i) (addrs i) b (omega arith)

-- An inode keeps to its 64 bytes.
pub put_dinode_at :
    (m : Mem) (a : ℕ) (ip : Inode) (b : ℕ) → Apart a dinode_size b 1 → put_dinode m a ip b ≡ m b
unfolding put_dinode
put_dinode_at m a ip b far =
    let h1 = put_half m a ip.type in
    let h2 = put_half h1 (a + 2) ip.major in
    let h3 = put_half h2 (a + 4) ip.minor in
    let h4 = put_half h3 (a + 6) ip.nlink in
    put_words_at (put_word h4 (a + 8) ip.size) (a + 12) ip.addrs 0 (ndirect + 1) b (omega arith)
    ∙ put_word_at h4 (a + 8) ip.size b (omega arith)
    ∙ put_half_at h3 (a + 6) ip.nlink b (omega arith)
    ∙ put_half_at h2 (a + 4) ip.minor b (omega arith)
    ∙ put_half_at h1 (a + 2) ip.major b (omega arith)
    ∙ put_half_at m a ip.type b (omega arith)
