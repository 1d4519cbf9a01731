-- ===== src/Mng/BlockPrefetcher/Order.antt =====
-- The order in which `block_prefetcher` (foxxll/mng/block_prefetcher.hpp) hands out blocks.
use foxxll.Prelude.{
  ℕ, zero, suc, ◌+◌, ◌-◌, ◌≤◌, ◌<◌, ◌≡◌, ◌≢◌, refl, sym, ◌∙◌, subst, ap, true, false, some, ltb,
  leb, update, update_self, update_ne, List, [], ◌∷◌, inl, inr, arith, Bool-cases, eq-or-ne,
}
use foxxll.Mng.BlockPrefetcher.{
  Plan, Prefetcher, read_into, create, read_next, empty, block_consumed, read_on, read_all,
}
use foxxll.Mng.BlockPrefetcher.Ahead.{
  Schedule, Ahead, created-Started, created-Ahead, Ahead-buffer, pull_block-run,
}

module _ (disk : ℕ → ℕ) (plan : Plan) where
  -- What the blocks of the sequence hold, from `first` on.
  unfoldable pub items : ℕ → ℕ → List ℕ
  items first zero = []
  items first (suc n) = disk (plan.consume_seq first) ∷ items (first + 1) n

module _ (disk : ℕ → ℕ) (plan : Plan) (s : Schedule plan) where
  -- The buffer of block `i` has been handed back and is used again.
  module _ (i b : ℕ) (p : Prefetcher) (a : Ahead disk plan s i p) (m : i < plan.seq_length)
      (f : p.pref_buffer i ≡ some b) (h : b < plan.nreadblocks) where
    again : Prefetcher
    again = record (read_into disk plan b p.nextread p) { nextread = p.nextread + 1 }

    again-Ahead : p.nextread < plan.seq_length → Ahead disk plan s (i + 1) again
    unfolding again read_into
    again-Ahead l =
        let k0 = plan.prefetch_seq p.nextread in
        let at : p.nextread ≡ plan.nreadblocks + i = elim a.reached [
          | inl x ↦ x
          | inr (x, y) ↦ absurd (omega (arith, x, l))
        ] in
        let other = λ (k : ℕ) (d : k ≢ k0). update_ne k0 (some b) p.pref_buffer k d in
        let mine =
          λ (k c : ℕ) (g : i + 1 ≤ k) (n : k < plan.seq_length) (x : p.pref_buffer k ≡ some c)
              (e : c ≡ b).
            (let same = a.apart k i b (omega (arith, g)) (omega arith) n m (x ∙ ap some e) f in
              absurd {A = k ≡ k0} (omega (arith, same, g))) in
        record {
          reached = inl (omega (arith, at));
          within = omega (arith, l);
          fetched = λ k g n x. elim (eq-or-ne k k0) [
            | inl e ↦ (
              b,
              rw (e, update_self k0 (some b) p.pref_buffer) refl,
              h,
              rw (e, update_self b (disk (plan.consume_seq k0)) p.read_buffers) refl,
            )
            | inr d ↦
                let y : s.position k ≢ p.nextread =
                  λ z. d (sym (s.block_at k n) ∙ ap plan.prefetch_seq z) in
                let (c, q, r, t) = a.fetched k (omega (arith, g)) n (omega (arith, x, y)) in
                (
                  c,
                  other k d ∙ q,
                  r,
                  update_ne b (disk (plan.consume_seq k0)) p.read_buffers c
                        (λ e. d (mine k c g n q e))
                      ∙ t,
                )
          ];
          apart = λ k o c g g' n n' x y. elim (eq-or-ne k k0) [
            | inl e ↦ elim (eq-or-ne o k0) [
              | inl e' ↦ e ∙ sym e'
              | inr d ↦
                  let z : some b ≡ some c =
                    sym (update_self k0 (some b) p.pref_buffer)
                    ∙ subst (λ (w : ℕ). update k0 (some b) p.pref_buffer w ≡ some c) e x in
                  e ∙ sym (mine o c g' n' (sym (other o d) ∙ y) (cc (z)))
            ]
            | inr d ↦ elim (eq-or-ne o k0) [
              | inl e ↦
                  let z : some b ≡ some c =
                    sym (update_self k0 (some b) p.pref_buffer)
                    ∙ subst (λ (w : ℕ). update k0 (some b) p.pref_buffer w ≡ some c) e y in
                  mine k c g n (sym (other k d) ∙ x) (cc (z)) ∙ sym e
              | inr d' ↦
                  a.apart k o c (omega (arith, g)) (omega (arith, g')) n n' (sym (other k d) ∙ x)
                    (sym (other o d') ∙ y)
            ]
          ];
          unread = λ k n x.
              let d : k ≢ k0 = λ e. omega (arith, ap s.position e, s.position_of p.nextread l, x) in
              other k d ∙ a.unread k n (omega (arith, x));
        }

    read_next-Ahead :
        (q : Prefetcher) × (read_next disk plan b p ≡ some q)
        × Ahead disk plan s (i + 1) q
        × (q.nextconsume ≡ p.nextconsume)
    unfolding read_next again read_into
    read_next-Ahead = elim (Bool-cases (ltb p.nextread plan.seq_length)) [
      | inl y ↦
          let l : p.nextread < plan.seq_length = ground (arith, y) in
          let z =
            a.unread (plan.prefetch_seq p.nextread) (s.block_low p.nextread l)
              (omega (arith, s.position_of p.nextread l)) in
          let w : ltb (plan.prefetch_seq p.nextread) plan.seq_length ≡ true =
            ground (arith, s.block_low p.nextread l) in
          let v : ltb b plan.nreadblocks ≡ true = ground (arith, h) in
          (again, rw (y, v, w, z) refl, again-Ahead l, refl)
      | inr n ↦
          let g : plan.seq_length ≤ p.nextread = ground (arith, n) in
          (
            p,
            rw n refl,
            record {
              reached = elim a.reached [
                | inl x ↦ inr (omega (arith, g, a.within), omega (arith, g, x))
                | inr (x, y) ↦ inr (x, omega (arith, y))
              ];
              within = a.within;
              fetched = λ k g'. a.fetched k (omega (arith, g'));
              apart = λ k l c x y. a.apart k l c (omega (arith, x)) (omega (arith, y));
              unread = a.unread;
            },
            refl,
          )
    ]

  record Reads (i c : ℕ) (p : Prefetcher) : Type 0 where
    ahead : Ahead disk plan s i p
    counted : p.nextconsume ≡ i + 1
    total : i + suc c ≡ plan.seq_length

  pulled-Reads :
      (i c b : ℕ) (p : Prefetcher)
      → Ahead disk plan s i p
      → i + suc c ≡ plan.seq_length
      → Reads i c (record p { nextconsume = i + 1 })
  pulled-Reads i c b p a e = record {
    ahead = record {
      reached = a.reached;
      within = a.within;
      fetched = a.fetched;
      apart = a.apart;
      unread = a.unread;
    };
    counted = refl;
    total = e;
  }

  read_on-items :
      (c i b n : ℕ) (p : Prefetcher)
      → Reads i c p
      → p.pref_buffer i ≡ some b
      → b < plan.nreadblocks
      → p.read_buffers b ≡ disk (plan.consume_seq i)
      → suc c < n
      → read_on disk plan n (some (true, b, p)) ≡ some (items disk plan i (suc c))
  unfolding read_on block_consumed empty items
  read_on-items c i b zero p r f h e l = absurd (omega (arith, l))
  read_on-items c i b (suc zero) p r f h e l = absurd (omega (arith, l))
  read_on-items zero i b (suc (suc n)) p r f h e l =
      let (q, run, a, k) = read_next-Ahead i b p r.ahead (omega (arith, r.total)) f h in
      let y : leb plan.seq_length q.nextconsume ≡ true = ground (arith, k, r.counted, r.total) in
      rw (run, y, e) refl
  read_on-items (suc c) i b (suc (suc n)) p r f h e l =
      let (q, run, a, k) = read_next-Ahead i b p r.ahead (omega (arith, r.total)) f h in
      let y : leb plan.seq_length q.nextconsume ≡ false = ground (arith, k, r.counted, r.total) in
      let (b', f', h', e') = Ahead-buffer disk plan s (i + 1) q a (omega (arith, r.total)) in
      let pulled = pull_block-run disk plan s (i + 1) b' q (k ∙ r.counted) f' h' in
      let rest =
        read_on-items c (i + 1) b' (suc n) (record q { nextconsume = i + 1 + 1 })
          (pulled-Reads (i + 1) c b' q a (omega (arith, r.total))) f' h' e' (omega (arith, l)) in
      rw (run, y, pulled, rest, e) refl

  read_all-run :
      (c : ℕ)
      → 0 + suc c ≡ plan.seq_length
      → read_all disk plan (plan.seq_length + 1) ≡ some (items disk plan 0 (suc c))
  unfolding read_all
  read_all-run c e =
      let a = created-Ahead disk plan s in
      let (b, f, h, d) = Ahead-buffer disk plan s 0 (create disk plan) a (omega (arith, e)) in
      rw
        (pull_block-run disk plan s 0 b (create disk plan) (created-Started disk plan s).no_reads f
          h)
        (read_on-items c 0 b (plan.seq_length + 1)
          (record (create disk plan) { nextconsume = 0 + 1 })
          (pulled-Reads 0 c b (create disk plan) a e) f h d (omega (arith, e)))

  -- A reader that pulls a block and then hands each buffer back for the next block gets what the blocks
  -- of the sequence hold on disk, each once and in the order of the sequence, and is then told that
  -- there are no more. It never waits for a block that has not been asked for, no assertion fails, and
  -- one round more than there are blocks is enough. This asks for a prefetch sequence that has each
  -- block once, and block k at a position below k plus the number of buffers, which is at least one and
  -- at most the number of blocks.
  pub read_all-items :
      read_all disk plan (plan.seq_length + 1) ≡ some (items disk plan 0 plan.seq_length)
  read_all-items =
      let e : 0 + suc (plan.seq_length - 1) ≡ plan.seq_length =
        omega (arith, s.some_buffers, s.few_buffers) in
      let same : suc (plan.seq_length - 1) ≡ plan.seq_length = omega (arith, e) in
      read_all-run (plan.seq_length - 1) e ∙ ap (λ (n : ℕ). some (items disk plan 0 n)) same
