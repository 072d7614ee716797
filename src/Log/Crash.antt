-- ===== src/Log/Crash.antt =====
-- What a crash leaves during a recovery, and what the next boot makes of it.
use ence.Base.{
  ℕ, ◌+◌, ◌-◌, ◌≤◌, ◌<◌, ◌≡◌, ◌≢◌, inl, inr, refl, ◌∙◌, none, List, [], ◌∷◌, arith, update, dec_lt,
}
use ence.Log.{
  Block, Store, Log, bread, bwrite, install_trans, write_head, read_head, recover_from_log,
}
use ence.Log.Blocks.{copy_words_lem, Home, logged?, Installed, install_from-Installed}

-- A disk from which recovery restores the home blocks `g`: an entry of the log that the header names
-- holds its block, and every other home block is in place.
pub record Durable (start size : ℕ) (g d : ℕ → Block) : Type 0 where
  pub count : d start 0 < size
  pub homes : (i : ℕ) → i < d start 0 → Home start size (d start (i + 1))
  pub entries : (i : ℕ) → i < d start 0 → d (start + i + 1) ≡ g (d start (i + 1))
  pub rest :
      (b : ℕ) → Home start size b → ((i : ℕ) → i < d start 0 → b ≢ d start (i + 1)) → d b ≡ g b

-- Nothing is left to install: the home blocks are `g`.
pub record Restored (start size : ℕ) (g d : ℕ → Block) : Type 0 where
  pub cleared : d start 0 ≡ 0
  pub homes : (b : ℕ) → Home start size b → d b ≡ g b

-- The header on the disk is the one in memory, and the log has no dirty buffer.
pub record Headed (l : Log) (s : Store) : Type 0 where
  pub count : s.disk l.start 0 ≡ l.n
  pub blocks : (i : ℕ) → i < l.n → s.disk l.start (i + 1) ≡ l.block i
  pub head_clean : s.dirty l.start ≡ none
  pub clean : (i : ℕ) → i < l.n → s.dirty (l.start + i + 1) ≡ none

pub record HeadWritten (l : Log) (s s' : Store) : Type 0 where
  pub dead : (b : ℕ) → s.power ≡ 0 → s'.disk b ≡ s.disk b
  pub others : (b : ℕ) → b ≢ l.start → s'.disk b ≡ s.disk b
  pub other_buffers : (b : ℕ) → s.dirty b ≡ none → s'.dirty b ≡ none
  pub count : 0 < s.power → s'.disk l.start 0 ≡ l.n
  pub blocks : (i : ℕ) → 0 < s.power → i < l.n → s'.disk l.start (i + 1) ≡ l.block i
  pub head_clean : s'.dirty l.start ≡ none
  pub left : s'.power ≡ s.power - 1

pub write_head-HeadWritten : (l : Log) (s : Store) → HeadWritten l s (write_head l s)
unfolding write_head bwrite
write_head-HeadWritten l s =
    let word = copy_words_lem 1 0 l.block (update (bread s l.start) 0 l.n) 0 l.n in
    record {
      dead = λ b e. ground arith;
      others = λ b ne. ground arith;
      other_buffers = λ b e. ground arith;
      count = λ p. ground (arith, word 0);
      blocks = λ i p lt. ground (arith, word (i + 1));
      head_clean = ground arith;
      left = refl;
    }

module _ {l : Log} {s : Store} {g : ℕ → Block} (h : Headed l s)
    (d : Durable l.start l.size g s.disk) where
  abbrev pub installed : Store
  installed = install_trans l s

  abbrev pub cleared : Store
  cleared = write_head (record l { n = 0 }) installed

  pub install_trans-Installed : Installed l s g 0 l.n (install_trans l s)
  unfolding install_trans
  install_trans-Installed =
      install_from-Installed l s g 0 l.n (rw (← h.count) d.count) (omega arith)
        (λ i lt. ground (arith, h.blocks i, d.homes i, h.count))
        (λ i lt. ground (arith, h.blocks i, d.entries i, h.count)) h.clean

  -- The header stays where it is until it is overwritten.
  head_kept : (install_trans l s).disk l.start ≡ s.disk l.start
  head_kept =
      install_trans-Installed.others l.start
        (λ i lt e. ground (arith, h.blocks i, d.homes i, h.count, d.count))

  pub write_head-cleared : HeadWritten (record l { n = 0 }) installed cleared
  write_head-cleared = write_head-HeadWritten (record l { n = 0 }) installed

  pub finish-Restored : l.n < s.power → Restored l.start l.size g (cleared).disk
  finish-Restored p = record {
    cleared = ground (arith, write_head-cleared.count, install_trans-Installed.left);
    homes = λ b hb. elim (logged? l.block l.n b) [
      | inl (i, lt, e) ↦
          ground (arith, write_head-cleared.others b, install_trans-Installed.copied i, d.count)
      | inr out ↦
          let before : s.disk b ≡ g b =
            d.rest b hb (λ i lt e. ground (arith, out i, h.blocks i, h.count)) in
          ground
            (arith, write_head-cleared.others b, install_trans-Installed.kept b before, d.count)
    ];
  }

  pub finish-Durable : Durable l.start l.size g (cleared).disk
  finish-Durable = elim (dec_lt l.n s.power) [
    | yes p ↦
        let r = finish-Restored p in
        record {
          count = ground (arith, r.cleared, d.count);
          homes = λ i lt. absurd (ground (arith, r.cleared));
          entries = λ i lt. absurd (ground (arith, r.cleared));
          rest = λ b hb out. r.homes b hb;
        }
    | no np ↦
        let dead : (b : ℕ) → (cleared).disk b ≡ (installed).disk b =
          λ b. write_head-cleared.dead b (omega (arith, install_trans-Installed.left)) in
        let head : (cleared).disk l.start ≡ s.disk l.start = dead l.start ∙ head_kept in
        record {
          count = rw head d.count;
          homes = λ i lt. rw head (d.homes i (rw head at lt));
          entries = λ i lt.
              let lt' : i < s.disk l.start 0 = rw head at lt in
              rw head (
                dead (l.start + i + 1)
                ∙ install_trans-Installed.others (l.start + i + 1)
                    (λ j ltj e. ground (arith, h.blocks j, d.homes j, h.count, d.count))
                ∙ d.entries i lt');
          rest = λ b hb out.
              dead b
              ∙ install_trans-Installed.kept b
                  (d.rest b hb (λ i lt. rw (← head) (out i (rw (← head) at lt))));
        }
  ]

-- the machine after power-up, with `k` disk writes until the power is lost again
abbrev pub boot : (ℕ → Block) → ℕ → Store
boot d k = record { disk = d; dirty = λ _. none; power = k }

-- the disk after each boot in turn has started to recover and crashed
unfoldable pub reboots : Log → (ℕ → Block) → List ℕ → ℕ → Block
reboots l d [] = d
reboots l d (k ∷ ks) = reboots l (recover_from_log l (boot d k)).1.disk ks

module _ (l : Log) {g d : ℕ → Block} (dur : Durable l.start l.size g d) where
  read_head-Headed : (k : ℕ) → Headed (read_head l (boot d k)) (boot d k)
  unfolding read_head
  read_head-Headed k = record {
    count = refl;
    blocks = λ i lt. ground (arith, copy_words_lem 0 1 (d l.start) l.block 0 (d l.start 0) i);
    head_clean = refl;
    clean = λ i lt. refl;
  }

  pub recover-Durable : (k : ℕ) → Durable l.start l.size g (recover_from_log l (boot d k)).1.disk
  unfolding recover_from_log read_head
  recover-Durable k = finish-Durable (read_head-Headed k) dur

  pub recover-Restored :
      (k : ℕ) → l.size ≤ k → Restored l.start l.size g (recover_from_log l (boot d k)).1.disk
  unfolding recover_from_log read_head
  recover-Restored k p = finish-Restored (read_head-Headed k) dur (omega (arith, dur.count))

pub reboots-Durable :
    (l : Log) (ks : List ℕ) {g d : ℕ → Block}
    → Durable l.start l.size g d
    → Durable l.start l.size g (reboots l d ks)
unfolding reboots
reboots-Durable l [] dur = dur
reboots-Durable l (k ∷ ks) dur = reboots-Durable l ks (recover-Durable l dur k)
