-- ===== src/Mng/Pools/PrefetchLaws.antt =====
-- `prefetch_pool` (foxxll/mng/prefetch_pool.hpp): its counter, its cache, and the blocks that it
-- exchanges with the write pool.
use foxxll.Prelude.{
  ℕ, suc, ◌+◌, ◌-◌, ◌≤◌, ◌<◌, ◌≡◌, refl, ◌∙◌, ap, sym, Bool, true, false, List, [], ◌∷◌, none, some,
  ltb, length, length-append, arith, Bool-cases, inl, inr, ◌⊎◌,
}
use foxxll.Mng.Bid.{Bid, bid_eq}
use foxxll.Mng.Pools.{Request, World, read_op, new_request, start}
use foxxll.Mng.Pools.WritePool
use foxxll.Mng.Pools.WritePool.{
  WritePool, BusyEntry, is_requested, has_request, take_request, steal_request,
}
use foxxll.Mng.Pools.PrefetchPool.{
  PrefetchPool, CacheEntry, Hinted, ReadFrom, size, remove, in_prefetching, pop_free, steal, cache,
  hint_exchange, hint_popped, hint_from, take_cached, read_written, read_from_entry, read_from,
}
use foxxll.Mng.Pools.Blocks.{
  one, occurs, cache_occurs, write_owns, prefetch_owns, occurs-append, pop_back-Splits,
  take_request-Taken, entries, lookup-entries, entries-remove-le, assign-owns, length-assign,
  entries-assign, lookup-assign,
}

pub record IsValid (p : PrefetchPool) : Type 0 where
  pub counted : length p.free_blocks ≡ p.free_blocks_size
  pub once : (bid : Bid) → entries bid p.busy_blocks ≤ 1

-- The write pool gives up a block with its request.
pub record Steals (wp : WritePool) (block : ℕ) (wp' : WritePool) : Type 0 where
  pub owns : (x : ℕ) → write_owns x wp' + one x block ≡ write_owns x wp
  pub count : suc (WritePool.size wp') ≡ WritePool.size wp

-- `steal_request` finds a request if and only if `has_request` does, and takes its block out.
pub steal_request-Steals :
    (bid : Bid) (wp : WritePool)
    → ((has_request bid wp ≡ false) × (steal_request bid wp ≡ none))
      ⊎ ((block : ℕ) × (r : Request) × (wp' : WritePool) × (has_request bid wp ≡ true)
          × (steal_request bid wp ≡ some ((block, r), wp'))
          × Steals wp block wp')
unfolding has_request steal_request WritePool.size
steal_request-Steals bid wp = elim (take_request-Taken bid wp.busy_blocks) [
  | inl (m, r) ↦ inl (m, rw (r, steal_request) refl)
  | inr (e, rest, m, r, t) ↦ inr (
    e.block,
    e.req,
    record wp { busy_blocks = rest },
    m,
    rw (r, steal_request) refl,
    record { owns = λ x. omega (arith, t.owns x); count = omega (arith, t.count) },
  )
]

-- Both pools together after a hint: nothing lost, nothing made up, and the block identifier is in
-- the cache if the hint was taken.
pub record HintDone (bid : Bid) (p : PrefetchPool) (wp : WritePool) (w : World) (r : Hinted)
    : Type 0 where
  pub hinted : Bool
  pub after : PrefetchPool
  pub write_after : WritePool
  pub world : World
  pub result : r ≡ some (hinted, after, write_after, world)
  pub valid : IsValid after
  pub owns :
      (x : ℕ)
      → prefetch_owns x after + write_owns x write_after ≡ prefetch_owns x p + write_owns x wp
  pub size_kept : size after ≡ size p
  pub write_size_kept : WritePool.size write_after ≡ WritePool.size wp
  pub cached : hinted ≡ in_prefetching bid after

cache_exchange :
    (bid : Bid) (p q : PrefetchPool) (wp wp' : WritePool) (w w' : World) (free block : ℕ)
    (r : Request)
    → IsValid q
    → entries bid q.busy_blocks ≡ 0
    → ((x : ℕ) → prefetch_owns x q + one x free ≡ prefetch_owns x p)
    → suc (size q) ≡ size p
    → ((x : ℕ) → write_owns x wp' + one x block ≡ write_owns x wp + one x free)
    → WritePool.size wp' ≡ WritePool.size wp
    → HintDone bid p wp w (some (true, cache bid block r q, wp', w'))
unfolding cache size in_prefetching
cache_exchange bid p q wp wp' w w' free block r v fresh owns count gives same = record {
  hinted = true;
  after = cache bid block r q;
  write_after = wp';
  world = w';
  result = refl;
  valid = record {
    counted = v.counted;
    once = λ b. ground (
      arith,
      entries-assign b bid block r q.busy_blocks fresh,
      v.once b,
      entries_same bid b q.busy_blocks,
    );
  };
  owns = λ x. omega (arith, assign-owns x bid block r q.busy_blocks fresh, owns x, gives x);
  size_kept = omega (arith, length-assign bid block r q.busy_blocks fresh, count);
  write_size_kept = same;
  cached = rw (lookup-assign bid block r q.busy_blocks fresh, in_prefetching) refl;
}
  where
    entries_same :
        (b c : Bid) (es : List CacheEntry) → bid_eq b c ≡ true → entries c es ≡ entries b es
    entries_same b c [] h = refl
    entries_same b c (e ∷ es) h = ground (arith, entries_same b c es h)

-- The pool gives up the free block at the back.
pub record Popped (p : PrefetchPool) : Type 0 where
  pub block : ℕ
  pub rest : PrefetchPool
  pub popped : pop_free p ≡ some (block, rest)
  pub valid : IsValid rest
  pub same_cache : rest.busy_blocks ≡ p.busy_blocks
  pub owns : (x : ℕ) → prefetch_owns x rest + one x block ≡ prefetch_owns x p
  pub count : suc (size rest) ≡ size p

pub pop_free-Popped : (p : PrefetchPool) → IsValid p → 0 < p.free_blocks_size → Popped p
unfolding pop_free steal size
pop_free-Popped p v pos = elim (pop_back-Splits p.free_blocks) [
  | inl (e, r) ↦ absurd (omega (arith, ap length e, v.counted))
  | inr (cs, b, r, e) ↦ record {
    block = b;
    rest = record p { free_blocks = cs; free_blocks_size = p.free_blocks_size - 1 };
    popped = rw (r, steal) refl;
    valid = record {
      counted = omega (arith, ap length e, length-append cs (b ∷ []), v.counted);
      once = v.once;
    };
    same_cache = refl;
    owns = λ x. omega (arith, ap (occurs x) e, occurs-append x cs (b ∷ []));
    count = omega arith;
  }
]

pub not_cached-entries :
    (bid : Bid) (p : PrefetchPool) → in_prefetching bid p ≡ false → entries bid p.busy_blocks ≡ 0
unfolding in_prefetching
not_cached-entries bid p h = elim (lookup-entries bid p.busy_blocks) [
  | inl (r, z) ↦ z
  | inr (e, r, _, _, _) ↦ cc (rw (r, in_prefetching) at h)
]

hint_popped-HintDone :
    (bid : Bid) (p : PrefetchPool) (wp : WritePool) (w : World)
    → IsValid p
    → in_prefetching bid p ≡ false
    → 0 < p.free_blocks_size
    → HintDone bid p wp w (hint_popped bid wp w (pop_free p))
unfolding hint_popped hint_exchange WritePool.add WritePool.size
hint_popped-HintDone bid p wp w v absent pos =
    let o = pop_free-Popped p v pos in
    let fresh : entries bid o.rest.busy_blocks ≡ 0 =
      ap (entries bid) o.same_cache ∙ not_cached-entries bid p absent in
    rw o.popped (elim (steal_request-Steals bid wp) [
      | inl (m, r) ↦ rw m (
          cache_exchange bid p o.rest wp wp w (start read_op o.block bid w) o.block o.block
            (new_request read_op w) o.valid fresh o.owns o.count (λ x. refl) refl)
      | inr (block, q, wp', m, r, s) ↦
          rw (m, r)
            (cache_exchange bid p o.rest wp (WritePool.add o.block wp') w w o.block block q o.valid
              fresh o.owns o.count
              (λ x. omega (arith, s.owns x, occurs-append x wp'.free_blocks (o.block ∷ [])))
              (omega (arith, s.count, length-append wp'.free_blocks (o.block ∷ []))))
    ])

-- A hint on a pool whose counter is right always returns. Both pools together hold the blocks that
-- they held, each keeps its size and the prefetch pool stays valid; and the answer is `true` exactly
-- if the block identifier is in the cache afterwards.
pub hint_from-HintDone :
    (bid : Bid) (p : PrefetchPool) (wp : WritePool) (w : World)
    → IsValid p
    → HintDone bid p wp w (hint_from bid p wp w)
unfolding hint_from
hint_from-HintDone bid p wp w v = elim (Bool-cases (in_prefetching bid p)) [
  | inl y ↦ rw (y, hint_from) (same true (sym y))
  | inr n ↦ elim (Bool-cases (ltb 0 p.free_blocks_size)) [
    | inl y ↦ rw (n, y) (hint_popped-HintDone bid p wp w v n (ground arith))
    | inr m ↦ rw (n, m) (same false (sym n))
  ]
]
  where
    same : (b : Bool) → b ≡ in_prefetching bid p → HintDone bid p wp w (some (b, p, wp, w))
    same b e = record {
      hinted = b;
      after = p;
      write_after = wp;
      world = w;
      result = refl;
      valid = v;
      owns = λ x. refl;
      size_kept = refl;
      write_size_kept = refl;
      cached = e;
    }

-- A read trades the caller's block for the one that is returned.
pub record ReadDone (block : ℕ) (bid : Bid) (p : PrefetchPool) (wp : WritePool) (r : ReadFrom)
    : Type 0 where
  pub valid : IsValid r.1
  pub owns :
      (x : ℕ)
      → prefetch_owns x r.1 + write_owns x r.2 + one x r.0.1
        ≡ prefetch_owns x p + write_owns x wp + one x block
  pub size_kept : size r.1 ≡ size p
  pub write_size_kept : WritePool.size r.2 ≡ WritePool.size wp
  pub forgotten : in_prefetching bid r.1 ≡ false

take_cached-ReadDone :
    (block : ℕ) (bid : Bid) (p : PrefetchPool) (wp : WritePool) (w : World) (e : CacheEntry)
    → IsValid p
    → ((x : ℕ)
        → one x e.block + cache_occurs x (remove bid p.busy_blocks) ≡ cache_occurs x p.busy_blocks)
    → suc (length (remove bid p.busy_blocks)) ≡ length p.busy_blocks
    → suc (entries bid (remove bid p.busy_blocks)) ≡ entries bid p.busy_blocks
    → ReadDone block bid p wp ((e.req, e.block), take_cached bid block e p, wp, w)
unfolding take_cached size in_prefetching
take_cached-ReadDone block bid p wp w e v owns count entry = record {
  valid = record {
    counted = omega (arith, length-append p.free_blocks (block ∷ []), v.counted);
    once = λ b. omega (arith, entries-remove-le b bid p.busy_blocks, v.once b);
  };
  owns = λ x. omega (arith, owns x, occurs-append x p.free_blocks (block ∷ []));
  size_kept = omega (arith, count);
  write_size_kept = refl;
  forgotten = elim (lookup-entries bid (remove bid p.busy_blocks)) [
    | inl (r, z) ↦ rw (r, in_prefetching) refl
    | inr (f, r, _, _, z) ↦ absurd (omega (arith, z, entry, v.once bid))
  ];
}

-- A read through both pools returns, whichever cache has the block: the pools together with the
-- caller's block pointer hold the blocks that they held before, both pools keep their sizes, the
-- prefetch pool stays valid, and the block is no longer cached.
pub read_from-ReadDone :
    (block : ℕ) (bid : Bid) (p : PrefetchPool) (wp : WritePool) (w : World)
    → IsValid p
    → ReadDone block bid p wp (read_from block bid p wp w)
unfolding read_from read_from_entry read_written in_prefetching WritePool.add WritePool.size
read_from-ReadDone block bid p wp w v = elim (lookup-entries bid p.busy_blocks) [
  | inr (e, r, owns, count, entry) ↦
      rw (r, read_from) (take_cached-ReadDone block bid p wp w e v owns count entry)
  | inl (r, z) ↦
      rw (r, read_from)
        (elim (steal_request-Steals bid wp) [
          | inl (m, s) ↦ rw m (record {
            valid = v;
            owns = λ x. refl;
            size_kept = refl;
            write_size_kept = refl;
            forgotten = rw (r, in_prefetching) refl;
          })
          | inr (got, q, wp', m, s, t) ↦
              rw (m, s)
                (record {
                  valid = v;
                  owns = λ x. omega (arith, t.owns x, occurs-append x wp'.free_blocks (block ∷ []));
                  size_kept = refl;
                  write_size_kept =
                      omega (arith, t.count, length-append wp'.free_blocks (block ∷ []));
                  forgotten = rw (r, in_prefetching) refl;
                })
        ])
]
