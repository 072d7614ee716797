-- ===== src/Log/Blocks.antt =====
-- What the loops of log.c write, block by block and word by word.
use ence.Base.{
  ℕ, zero, suc, ◌+◌, ◌-◌, ◌≤◌, ◌<◌, ◌≡◌, ◌≢◌, ◌⊎◌, inl, inr, refl, ◌&&◌, none, arith, ltb, leb,
  update, if◌then◌else◌, ℕ_discrete,
}
use ence.Log.{Block, Store, Log, bread, bwrite, copy_words, install_from, write_log_from}

pub copy_words_lem :
    (t f : ℕ) (from to : Block) (i k w : ℕ)
    → copy_words t f from to i k w
      ≡ (if leb (t + i) w && ltb w (t + i + k) then from (f + w - t) else to w)
unfolding copy_words
copy_words_lem t f from to i zero w = ground arith
copy_words_lem t f from to i (suc k) w =
    ground (arith, copy_words_lem t f from (update to (t + i) (from (f + i))) (i + 1) k w)

-- the blocks outside of the log
abbrev pub Home : (start size : ℕ) → ℕ → Type 0
Home start size b = (b < start) ⊎ (start + size ≤ b)

-- Either some entry of the log names the block, or none does.
pub logged? :
    (block : ℕ → ℕ) (n b : ℕ)
    → ((i : ℕ) × (i < n) × (b ≡ block i)) ⊎ ((i : ℕ) → i < n → b ≢ block i)
logged? block zero b = inr (λ i h. absurd (omega arith))
logged? block (suc n) b = elim (logged? block n b) [
  | inl (i, h, e) ↦ inl (i, omega arith, e)
  | inr out ↦ last (ℕ_discrete b (block n)) out
]
  where
    last :
        Dec (b ≡ block n)
        → ((i : ℕ) → i < n → b ≢ block i)
        → ((i : ℕ) × (i < suc n) × (b ≡ block i)) ⊎ ((i : ℕ) → i < suc n → b ≢ block i)
    last (yes e) out = inl (n, omega arith, e)
    last (no ne) out = inr (λ i h e. ground (arith, out i))

pub record WroteLog (l : Log) (s : Store) (tail k : ℕ) (s' : Store) : Type 0 where
  pub others : (b : ℕ) → (b < l.start + tail + 1) ⊎ (l.start + tail + k < b) → s'.disk b ≡ s.disk b
  pub other_buffers :
      (b : ℕ) → (b < l.start + tail + 1) ⊎ (l.start + tail + k < b) → s'.dirty b ≡ s.dirty b
  pub left : s'.power ≡ s.power - k
  pub copied :
      (i : ℕ)
      → k ≤ s.power
      → tail ≤ i
      → i < tail + k
      → s'.disk (l.start + i + 1) ≡ bread s (l.block i)
  pub clean : (i : ℕ) → tail ≤ i → i < tail + k → s'.dirty (l.start + i + 1) ≡ none

pub write_log_from-WroteLog :
    (l : Log) (s : Store) (tail k : ℕ)
    → tail + k < l.size
    → ((i : ℕ) → i < tail + k → Home l.start l.size (l.block i))
    → WroteLog l s tail k (write_log_from l s tail k)
unfolding write_log_from bwrite
write_log_from-WroteLog l s tail zero fits homes = record {
  others = λ b h. refl;
  other_buffers = λ b h. refl;
  left = omega arith;
  copied = λ i p lo hi. absurd (omega arith);
  clean = λ i lo hi. absurd (omega arith);
}
write_log_from-WroteLog l s tail (suc k) fits homes =
    let s1 = bwrite s (l.start + tail + 1) (bread s (l.block tail)) in
    let ih =
      write_log_from-WroteLog l s1 (tail + 1) k (omega arith) (λ i h. homes i (omega arith)) in
    record {
      others = λ b h. ground (arith, ih.others b);
      other_buffers = λ b h. ground (arith, ih.other_buffers b);
      left = ground (arith, ih.left);
      copied = λ i p lo hi. ground (arith, ih.others (l.start + tail + 1), ih.copied i, homes i);
      clean = λ i lo hi. ground (arith, ih.other_buffers (l.start + tail + 1), ih.clean i);
    }

-- `g` is what the home blocks are to hold in the end.
pub record Installed (l : Log) (s : Store) (g : ℕ → Block) (tail k : ℕ) (s' : Store) : Type 0 where
  pub others : (b : ℕ) → ((i : ℕ) → i < l.n → b ≢ l.block i) → s'.disk b ≡ s.disk b
  pub other_buffers : (b : ℕ) → s.dirty b ≡ none → s'.dirty b ≡ none
  pub left : s'.power ≡ s.power - k
  pub kept : (b : ℕ) → s.disk b ≡ g b → s'.disk b ≡ g b
  pub copied : (i : ℕ) → k ≤ s.power → tail ≤ i → i < tail + k → s'.disk (l.block i) ≡ g (l.block i)
  pub buffers_clean : (i : ℕ) → tail ≤ i → i < tail + k → s'.dirty (l.block i) ≡ none

pub install_from-Installed :
    (l : Log) (s : Store) (g : ℕ → Block) (tail k : ℕ)
    → l.n < l.size
    → tail + k ≤ l.n
    → ((i : ℕ) → i < l.n → Home l.start l.size (l.block i))
    → ((i : ℕ) → i < l.n → s.disk (l.start + i + 1) ≡ g (l.block i))
    → ((i : ℕ) → i < l.n → s.dirty (l.start + i + 1) ≡ none)
    → Installed l s g tail k (install_from l s tail k)
unfolding install_from bwrite
install_from-Installed l s g tail zero fits range homes entries clean = record {
  others = λ b h. refl;
  other_buffers = λ b h. h;
  left = omega arith;
  kept = λ b h. h;
  copied = λ i p lo hi. absurd (omega arith);
  buffers_clean = λ i lo hi. absurd (omega arith);
}
install_from-Installed l s g tail (suc k) fits range homes entries clean =
    let s1 = bwrite s (l.block tail) (bread s (l.start + tail + 1)) in
    let ih =
      install_from-Installed l s1 g (tail + 1) k fits (omega arith) homes
        (λ i h. ground (arith, homes tail, entries i)) (λ i h. ground (arith, clean i)) in
    let at_tail : s.disk (l.start + tail + 1) ≡ g (l.block tail) = entries tail (omega arith) in
    let in_range : tail < l.n = omega arith in
    record {
      others = λ b h. ground (arith, ih.others b h, h tail in_range);
      other_buffers = λ b h. ground (arith, ih.other_buffers b);
      left = ground (arith, ih.left);
      kept = λ b h. ground (arith, ih.kept b, at_tail, clean tail in_range);
      copied = λ i p lo hi.
          ground (arith, ih.kept (l.block tail), ih.copied i, at_tail, clean tail in_range);
      buffers_clean =
          λ i lo hi. ground (arith, ih.other_buffers (l.block tail), ih.buffers_clean i);
    }

pub install_from-dead :
    (l : Log) (s : Store) (tail k b : ℕ)
    → s.power ≡ 0
    → ((install_from l s tail k).disk b ≡ s.disk b) × ((install_from l s tail k).power ≡ 0)
unfolding install_from bwrite
install_from-dead l s tail zero b e = (refl, e)
install_from-dead l s tail (suc k) b e =
    let s1 = bwrite s (l.block tail) (bread s (l.start + tail + 1)) in
    ground (arith, install_from-dead l s1 (tail + 1) k b)
