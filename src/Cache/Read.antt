-- ===== src/Cache/Read.antt =====
-- What bread delivers.
use ence.Base.{
  ℕ, ◌≡◌, ◌≢◌, inl, inr, refl, sym, ap, ◌∙◌, true, false, ◌&&◌, Option, some, arith, update, subst,
  Option-cases, Bool-cases,
}
use ence.Cache.{Buf, Cache, holds, set_buf, iderw, fill, bread}
use ence.Cache.Once.{Inv, Reach, one_buffer}
use ence.Cache.Lookup.{has, Got, cached, recycled, no_buffers, bget-Got}

-- The buffer `i` after bread: it holds the block, is valid, and has the bytes of the buffer that held the block
-- and was valid, whichever it was, else the disk's.
pub record Delivered (c : Cache) (dev blockno i : ℕ) (c' : Cache) : Type 0 where
  pub block : holds dev blockno (c'.bufs i) ≡ true
  pub valid : (c'.bufs i).valid ≡ true
  pub used : (c'.bufs i).refcnt ≢ 0
  pub cached :
      (j : ℕ)
      → has j c.order ≡ true
      → holds dev blockno (c.bufs j) ≡ true
      → (c.bufs j).valid ≡ true
      → (c'.bufs i).bytes ≡ (c.bufs j).bytes
  pub read :
      ((j : ℕ)
        → has j c.order ≡ true
        → holds dev blockno (c.bufs j) ≡ true
        → (c.bufs j).valid ≡ false)
      → (c'.bufs i).bytes ≡ c.disk blockno
  pub disk : c'.disk ≡ c.disk
  pub others : (j : ℕ) → j ≢ i → c'.bufs j ≡ c.bufs j

-- iderw of a buffer with nothing to write reads it from the disk.
iderw-clean :
    (c c' : Cache) (i : ℕ)
    → (c.bufs i).dirty ≡ false
    → iderw c i ≡ some c'
    → c' ≡ set_buf c i (record (c.bufs i) { bytes = c.disk (c.bufs i).blockno; valid = true })
unfolding iderw
iderw-clean c c' i clean e = ground (arith, e, clean)

iderw-read :
    (c d : Cache) (i : ℕ) (b : Buf)
    → b.dirty ≡ false
    → iderw (set_buf c i b) i ≡ some d
    → d ≡ set_buf (set_buf c i b) i (record b { bytes = c.disk b.blockno; valid = true })
iderw-read c d i b clean e =
    let same : update c.bufs i b i ≡ b = ground arith in
    iderw-clean (set_buf c i b) d i (ap (λ (x : Buf). x.dirty) same ∙ clean) e
    ∙ ap
        (λ (x : Buf).
          set_buf (set_buf c i b) i (record x { bytes = c.disk x.blockno; valid = true }))
        same

moved_Delivered :
    (c : Cache) (dev blockno i k : ℕ) (d c' : Cache)
    → Delivered c dev blockno i d
    → k ≡ i
    → c' ≡ d
    → Delivered c dev blockno k c'
moved_Delivered c dev blockno i k d c' del ek ec =
    subst (λ x. Delivered c dev blockno x c') (sym ek)
      (subst (λ x. Delivered c dev blockno i x) (sym ec) del)

-- The cache behind bget, with the buffer `i` as `b`.
fill-Delivered :
    (c : Cache) (dev blockno i k : ℕ) (b : Buf) (c' : Cache)
    → holds dev blockno b ≡ true
    → b.refcnt ≢ 0
    → (b.dirty ≡ true → b.valid ≡ true)
    → (b.valid ≡ true
        → (b.bytes ≡ (c.bufs i).bytes) × (holds dev blockno (c.bufs i) && (c.bufs i).valid ≡ true))
    → (b.valid ≡ false → holds dev blockno (c.bufs i) && (c.bufs i).valid ≡ false)
    → has i c.order ≡ true
    → ((j : ℕ) → has j c.order ≡ true → holds dev blockno (c.bufs j) ≡ true → j ≡ i)
    → fill (some (i, set_buf c i b)) ≡ some (k, c')
    → Delivered c dev blockno k c'
unfolding fill
fill-Delivered c dev blockno i k b c' block used clean old fresh listed only e =
    elim (Bool-cases b.valid) [
      | inl there ↦
          let del : Delivered c dev blockno i (set_buf c i b) = record {
            block = ground (arith, block);
            valid = ground (arith, there);
            used = ground (arith, used);
            cached = λ j h held good.
                let same = ap (λ (x : ℕ). (c.bufs x).bytes) (only j h held) in
                ground (arith, old, there, same);
            read = λ none_valid. absurd (ground (arith, old, there, none_valid i listed));
            disk = refl;
            others = λ j ne. ground arith;
          } in
          moved_Delivered c dev blockno i k _ c' del (ground (arith, e)) (ground (arith, e))
      | inr absent ↦
          let read =
            set_buf (set_buf c i b) i (record b { bytes = c.disk b.blockno; valid = true }) in
          let del : Delivered c dev blockno i read = record {
            block = ground (arith, block);
            valid = ground arith;
            used = ground (arith, used);
            cached = λ j h held good.
                let at = only j h held in
                let good' = ap (λ (x : ℕ). (c.bufs x).valid) at in
                let held' = ap (λ (x : ℕ). holds dev blockno (c.bufs x)) at in
                absurd (ground (arith, fresh, absent, good', held', good, held));
            read = λ none_valid. ground (arith, block);
            disk = refl;
            others = λ j ne. ground arith;
          } in
          elim (Option-cases (iderw (set_buf c i b) i)) [
            | inl panic ↦ absurd (ground (arith, e))
            | inr (d, ok) ↦
                moved_Delivered c dev blockno i k _ c' del (ground (arith, e, ok))
                  (ground (arith, e, ok, iderw-read c d i b (ground (arith, clean)) ok))
          ]
    ]

-- the buffer that holds the block is the only one
only_holder :
    (c : Cache) (dev blockno i j : ℕ)
    → Inv c
    → dev ≢ 0
    → has i c.order ≡ true
    → holds dev blockno (c.bufs i) ≡ true
    → has j c.order ≡ true
    → holds dev blockno (c.bufs j) ≡ true
    → j ≡ i
only_holder c dev blockno i j v real hi block hj held =
    v.once j i hj hi (λ z. absurd (ground (arith, held, z, real))) (ground (arith, held, block))
      (ground (arith, held, block))

answer-Delivered :
    (c : Cache) (dev blockno k : ℕ) (c' : Cache) (o : Option (ℕ × Cache))
    → Inv c
    → dev ≢ 0
    → ((j : ℕ) → (c.bufs j).dirty ≡ true → (c.bufs j).valid ≡ true)
    → Got c dev blockno o
    → fill o ≡ some (k, c')
    → Delivered c dev blockno k c'
unfolding fill
answer-Delivered c dev blockno k c' _ v real clean (cached i h block) e =
    fill-Delivered c dev blockno i k _ c' block (ground arith) (clean i)
      (λ there. (refl, ground arith)) (λ absent. ground arith) h
      (λ j hj held. only_holder c dev blockno i j v real h block hj held) e
answer-Delivered c dev blockno k c' _ v real clean (recycled i fresh h unused dry) e =
    fill-Delivered c dev blockno i k _ c' (ground arith) (ground arith) (λ d. ground arith)
      (λ there. ground arith) (λ absent. ground (arith, fresh i, h)) h
      (λ j hj held. absurd (ground (arith, fresh j, hj, held))) e
answer-Delivered c dev blockno k c' _ v real clean (no_buffers fresh busy) e = absurd (cc)

-- In a cache that calls of bio.c have reached and where every dirty buffer is valid, for a device other than
-- 0: the buffer that bread returns holds the block, is valid and in use, and has the bytes of the buffer on the
-- list that held the block and was valid, dirty or not, and the disk's where there was none. The disk and
-- the other buffers are left alone.
pub bread-Delivered :
    (c : Cache) (dev blockno k : ℕ) (c' : Cache)
    → Reach c
    → dev ≢ 0
    → ((j : ℕ) → (c.bufs j).dirty ≡ true → (c.bufs j).valid ≡ true)
    → bread c dev blockno ≡ some (k, c')
    → Delivered c dev blockno k c'
unfolding bread
bread-Delivered c dev blockno k c' r real clean e =
    answer-Delivered c dev blockno k c' _ (one_buffer r) real clean (bget-Got c dev blockno) e
