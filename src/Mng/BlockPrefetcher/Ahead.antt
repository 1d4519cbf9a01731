-- ===== src/Mng/BlockPrefetcher/Ahead.antt =====
-- What `block_prefetcher` (foxxll/mng/block_prefetcher.hpp) has read ahead.
use foxxll.Prelude.{
  ℕ, zero, suc, ◌+◌, ◌≤◌, ◌<◌, ◌≡◌, ◌≢◌, refl, sym, ◌∙◌, ap, true, none, some, ltb, if◌then◌else◌,
  update_self, update_ne, inl, inr, ◌⊎◌, arith, eq-or-ne,
}
use foxxll.Mng.BlockPrefetcher.{Plan, Prefetcher, read_into, start_reads, create, wait, pull_block}

-- A prefetch sequence that the prefetcher can follow: it has each block once, and a block is in it at most
-- as late as when there are buffers for all before it but those that are consumed first.
pub record Schedule (plan : Plan) : Type 0 where
  pub position : ℕ → ℕ
  pub some_buffers : 0 < plan.nreadblocks
  pub few_buffers : plan.nreadblocks ≤ plan.seq_length
  pub position_low : (k : ℕ) → k < plan.seq_length → position k < plan.seq_length
  pub block_low : (j : ℕ) → j < plan.seq_length → plan.prefetch_seq j < plan.seq_length
  pub block_at : (k : ℕ) → k < plan.seq_length → plan.prefetch_seq (position k) ≡ k
  pub position_of : (j : ℕ) → j < plan.seq_length → position (plan.prefetch_seq j) ≡ j
  pub early : (k : ℕ) → k < plan.seq_length → position k < plan.nreadblocks + k

module _ (disk : ℕ → ℕ) (plan : Plan) (s : Schedule plan) where
  -- The constructor after `n` rounds.
  pub record Started (n : ℕ) (p : Prefetcher) : Type 0 where
    pub at :
        (k : ℕ)
        → k < plan.seq_length
        → p.pref_buffer k ≡ (if ltb (s.position k) n then some (s.position k) else none)
    pub buffers :
        (k : ℕ)
        → k < plan.seq_length
        → s.position k < n
        → p.read_buffers (s.position k) ≡ disk (plan.consume_seq k)
    pub no_reads : p.nextconsume ≡ 0
    pub reads : p.nextread ≡ plan.nreadblocks

  pub start_reads-Started :
      (n : ℕ) (p : Prefetcher)
      → n ≤ plan.nreadblocks
      → Started 0 p
      → Started n (start_reads disk plan n p)
  unfolding start_reads read_into
  start_reads-Started zero p h t = t
  start_reads-Started (suc n) p h t =
      let r = start_reads-Started n p (omega (arith, h)) t in
      let l : n < plan.seq_length = omega (arith, h, s.few_buffers) in
      record {
        at = λ k m. elim (eq-or-ne k (plan.prefetch_seq n)) [
          | inl e ↦
              rw
                (
                  e,
                  update_self (plan.prefetch_seq n) (some n)
                      (start_reads disk plan n p).pref_buffer,
                  s.position_of n l,
                )
                (ground arith)
          | inr d ↦
              let other : s.position k ≢ n =
                λ x. d (sym (s.block_at k m) ∙ ap plan.prefetch_seq x) in
              rw
                (
                  update_ne (plan.prefetch_seq n) (some n) (start_reads disk plan n p).pref_buffer k
                      d,
                  r.at k m,
                )
                (ground (arith, other))
        ];
        buffers = λ k m x. elim (eq-or-ne (s.position k) n) [
          | inl e ↦
              rw
                (
                  e,
                  update_self n (disk (plan.consume_seq (plan.prefetch_seq n)))
                      (start_reads disk plan n p).read_buffers,
                )
                (ap (λ (y : ℕ). disk (plan.consume_seq y))
                  (ap plan.prefetch_seq (sym e) ∙ s.block_at k m))
          | inr d ↦
              update_ne n (disk (plan.consume_seq (plan.prefetch_seq n)))
                (start_reads disk plan n p).read_buffers (s.position k) d
              ∙ r.buffers k m (omega (arith, x, d))
        ];
        no_reads = r.no_reads;
        reads = r.reads;
      }

  -- Block `i` is the next to be handed out.
  pub record Ahead (i : ℕ) (p : Prefetcher) : Type 0 where
    pub reached :
        (p.nextread ≡ plan.nreadblocks + i)
        ⊎ ((p.nextread ≡ plan.seq_length) × (plan.seq_length ≤ plan.nreadblocks + i))
    pub within : p.nextread ≤ plan.seq_length
    pub fetched :
        (k : ℕ)
        → i ≤ k
        → k < plan.seq_length
        → s.position k < p.nextread
        → (b : ℕ) × (p.pref_buffer k ≡ some b)
          × (b < plan.nreadblocks)
          × (p.read_buffers b ≡ disk (plan.consume_seq k))
    pub apart :
        (k l b : ℕ)
        → i ≤ k
        → i ≤ l
        → k < plan.seq_length
        → l < plan.seq_length
        → p.pref_buffer k ≡ some b
        → p.pref_buffer l ≡ some b
        → k ≡ l
    pub unread : (k : ℕ) → k < plan.seq_length → p.nextread ≤ s.position k → p.pref_buffer k ≡ none

  pub created-Started : Started plan.nreadblocks (create disk plan)
  unfolding create
  created-Started = start_reads-Started plan.nreadblocks _ (omega arith) (record {
    at = λ k m. ground arith;
    buffers = λ k m x. absurd (omega (arith, x));
    no_reads = refl;
    reads = refl;
  })

  pub created-Ahead : Ahead 0 (create disk plan)
  created-Ahead =
      let t = created-Started in
      record {
        reached = inl (omega (arith, t.reads));
        within = omega (arith, t.reads, s.few_buffers);
        fetched = λ k h m x.
            let l : s.position k < plan.nreadblocks = omega (arith, x, t.reads) in
            (s.position k, t.at k m ∙ ground (arith, l), l, t.buffers k m l);
        apart = λ k l b h g m n x y.
            sym (s.block_at k m)
            ∙ ap plan.prefetch_seq (ground (arith, t.at k m, t.at l n, x, y))
            ∙ s.block_at l n;
        unread = λ k m x. t.at k m ∙ ground (arith, x, t.reads);
      }

  -- The next block has been asked for.
  pub Ahead-buffer :
      (i : ℕ) (p : Prefetcher)
      → Ahead i p
      → i < plan.seq_length
      → (b : ℕ) × (p.pref_buffer i ≡ some b)
        × (b < plan.nreadblocks)
        × (p.read_buffers b ≡ disk (plan.consume_seq i))
  Ahead-buffer i p a h =
      let e = s.early i h in
      let l = s.position_low i h in
      a.fetched i (omega arith) h
        (elim a.reached [ inl x ↦ omega (arith, x, e) | inr (x, y) ↦ omega (arith, x, l) ])

  pub pull_block-run :
      (i b : ℕ) (p : Prefetcher)
      → p.nextconsume ≡ i
      → p.pref_buffer i ≡ some b
      → b < plan.nreadblocks
      → pull_block disk plan p ≡ some (b, record p { nextconsume = i + 1 })
  unfolding pull_block wait
  pull_block-run i b p e f h =
      let l : ltb b plan.nreadblocks ≡ true = ground (arith, h) in rw (e, f, l) refl
