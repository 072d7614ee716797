-- ===== src/Log/Commit.antt =====
-- What a crash leaves during a commit, and what a commit that ends has done.
use ence.Base.{
  ℕ, ◌+◌, ◌≤◌, ◌<◌, ◌≡◌, ◌≢◌, ◌⊎◌, inl, inr, refl, sym, ap, ◌∙◌, none, List, arith, ltb,
  if◌then◌else◌, Bool-cases, ◌*◌,
}
use ence.Log.{
  Block, Store, Log, bread, write_log, write_head, install_trans, recover_from_log, commit,
}
use ence.Log.Blocks.{Home, logged?, WroteLog, write_log_from-WroteLog, install_from-dead}
use ence.Log.Crash.{
  Durable, Restored, Headed, HeadWritten, write_head-HeadWritten, install_trans-Installed,
  write_head-cleared, finish-Restored, finish-Durable, boot, reboots, reboots-Durable,
  recover-Restored,
}

-- The state before a commit: no transaction on the disk, room for the blocks, and the dirty buffers
-- are those of logged home blocks.
pub record Ready (l : Log) (s : Store) : Type 0 where
  pub room : l.n < l.size
  pub homes : (i : ℕ) → i < l.n → Home l.start l.size (l.block i)
  pub cleared : s.disk l.start 0 ≡ 0
  pub clean : (b : ℕ) → ((i : ℕ) → i < l.n → b ≢ l.block i) → s.dirty b ≡ none

-- the home blocks after the transaction
abbrev pub outcome : Log → Store → ℕ → Block
outcome l s = if ltb l.n s.power then bread s else s.disk

module _ {l : Log} {s : Store} (r : Ready l s) where
  abbrev logged : Store
  logged = write_log l s

  abbrev headed : Store
  headed = write_head l logged

  logged-lem : WroteLog l s 0 l.n (write_log l s)
  unfolding write_log
  logged-lem =
      write_log_from-WroteLog l s 0 l.n (omega (arith, r.room)) (λ i h. r.homes i (omega arith))

  header-lem : HeadWritten l logged headed
  header-lem = write_head-HeadWritten l logged

  in_log_clean : (b : ℕ) → l.start ≤ b → b < l.start + l.size → s.dirty b ≡ none
  in_log_clean b lo hi = r.clean b (λ i lt e. ground (arith, r.homes i))

  headed-Headed : l.n < s.power → Headed l headed
  headed-Headed p = record {
    count = header-lem.count (omega (arith, logged-lem.left));
    blocks = λ i lt. header-lem.blocks i (omega (arith, logged-lem.left)) lt;
    head_clean = header-lem.head_clean;
    clean = λ i lt.
        header-lem.other_buffers (l.start + i + 1) (logged-lem.clean i (omega arith) (omega arith));
  }

  headed-Durable : l.n < s.power → Durable l.start l.size (bread s) (headed).disk
  headed-Durable p =
      let h = headed-Headed p in
      record {
        count = rw h.count r.room;
        homes = λ i lt. ground (arith, h.count, h.blocks i, r.homes i);
        entries = λ i lt.
            let lt' : i < l.n = omega (arith, h.count) in
            header-lem.others (l.start + i + 1) (omega arith)
            ∙ logged-lem.copied i (omega arith) (omega arith) (omega arith)
            ∙ ap (bread s) (sym (h.blocks i lt'));
        rest = λ b hb out.
            let unlogged : s.dirty b ≡ none =
              r.clean b (λ i lt. ground (arith, out i, h.count, h.blocks i)) in
            ground (arith, header-lem.others b, logged-lem.others b, r.room);
      }

  abbrev final : Store
  final = write_head (record l { n = 0 }) (install_trans l headed)

  -- Where the power is lost before the header is written, the disk keeps the old home blocks.
  final-dead :
      s.power ≤ l.n → (b : ℕ) → (b ≤ l.start) ⊎ (l.start + l.size ≤ b) → (final).disk b ≡ s.disk b
  unfolding install_trans
  final-dead p b away =
      let none_left : (headed).power ≡ 0 = omega (arith, header-lem.left, logged-lem.left) in
      let (same, still_none) = install_from-dead l headed 0 l.n b none_left in
      (write_head-HeadWritten (record l { n = 0 }) (install_trans l headed)).dead b still_none
      ∙ same
      ∙ header-lem.dead b (omega (arith, logged-lem.left))
      ∙ logged-lem.others b (ground (arith, r.room))

  -- A disk with an empty header and the home blocks `g` in place.
  Durable-empty :
      {g d : ℕ → Block}
      → d l.start 0 ≡ 0
      → ((b : ℕ) → Home l.start l.size b → d b ≡ g b)
      → Durable l.start l.size g d
  Durable-empty e same = record {
    count = ground (arith, r.room);
    homes = λ i lt. absurd (omega arith);
    entries = λ i lt. absurd (omega arith);
    rest = λ b hb out. same b hb;
  }

  final-Durable : Durable l.start l.size (outcome l s) (final).disk
  final-Durable = elim (Bool-cases (ltb l.n s.power)) [
    | inl e ↦
        let p : l.n < s.power = ground arith in
        rw e (finish-Durable (headed-Headed p) (headed-Durable p))
    | inr e ↦
        let p : s.power ≤ l.n = ground arith in
        rw e (
          Durable-empty
            (ap (λ (d : Block). d 0) (final-dead p l.start (inl (omega arith))) ∙ r.cleared)
            (λ b hb. final-dead p b (ground arith)))
  ]

  commit-Durable : Durable l.start l.size (outcome l s) (commit l s).1.disk
  unfolding commit
  commit-Durable = elim (Bool-cases (ltb 0 l.n)) [
    | inl e ↦ rw e final-Durable
    | inr e ↦ rw e (
        Durable-empty r.cleared
          (λ b hb. let unlogged = r.clean b (λ i lt. absurd (ground arith)) in ground arith))
  ]

  -- However many disk writes a commit gets done before a crash, and whatever boots crash while they
  -- recover, the first boot with power for the recovery leaves an empty log and, in every home
  -- block, what the block held before the commit if the crash came before the write of the header,
  -- and what a read of it gave before the commit otherwise.
  pub commit_crash_safe :
      (ks : List ℕ) (k : ℕ)
      → l.size ≤ k
      → Restored l.start l.size
          (outcome l s)
          (recover_from_log l (boot (reboots l (commit l s).1.disk ks) k)).1.disk
  commit_crash_safe ks k p = recover-Restored l (reboots-Durable l ks commit-Durable) k p

  final-dirty : l.n < s.power → (b : ℕ) → Home l.start l.size b → (final).dirty b ≡ none
  final-dirty p b hb =
      let h = headed-Headed p in
      let d = headed-Durable p in
      let i-lem = install_trans-Installed h d in
      let last = write_head-cleared h d in
      elim (logged? l.block l.n b) [
        | inl (i, lt, e) ↦
            last.other_buffers b (rw e (i-lem.buffers_clean i (omega arith) (omega arith)))
        | inr out ↦
            let before : (logged).dirty b ≡ none =
              ground (arith, logged-lem.other_buffers b, r.clean b out, r.room) in
            last.other_buffers b (i-lem.other_buffers b (header-lem.other_buffers b before))
      ]

  -- A commit that is not interrupted empties the log, on the disk and in memory, puts what a read
  -- gave for each home block into its place on the disk, and leaves no home block dirty.
  pub commit_done :
      2 * l.n + 1 < s.power
      → ((commit l s).0.n ≡ 0)
        × Restored l.start l.size (bread s) (commit l s).1.disk
        × ((b : ℕ) → Home l.start l.size b → (commit l s).1.dirty b ≡ none)
  unfolding commit
  commit_done p = elim (Bool-cases (ltb 0 l.n)) [
    | inl e ↦
        let q : l.n < s.power = omega arith in
        rw e (
          refl,
          finish-Restored (headed-Headed q) (headed-Durable q)
              (omega (arith, header-lem.left, logged-lem.left)),
          final-dirty q,
        )
    | inr e ↦
        let unlogged : (b : ℕ) → s.dirty b ≡ none =
          λ b. r.clean b (λ i lt. absurd (ground arith)) in
        rw e (
          ground arith,
          record { cleared = r.cleared; homes = λ b hb. ground (arith, unlogged b) },
          λ b hb. unlogged b,
        )
  ]
