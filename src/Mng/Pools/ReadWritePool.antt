-- ===== src/Mng/Pools/ReadWritePool.antt =====
-- `read_write_pool` (foxxll/mng/read_write_pool.hpp): a write pool and a prefetch pool together.
use foxxll.Prelude.{ℕ, Bool, true, false, Option, none, some}
use foxxll.Mng.Bid.{Bid}
use foxxll.Mng.Pools.{Request, World}
use foxxll.Mng.Pools.WritePool
use foxxll.Mng.Pools.WritePool.{WritePool, Answers}
use foxxll.Mng.Pools.PrefetchPool
use foxxll.Mng.Pools.PrefetchPool.{PrefetchPool, Hinted, ReadFrom}

pub record ReadWritePool : Type 0 where
  pub w_pool : WritePool
  pub p_pool : PrefetchPool

-- The end of `write`, with the request that it returns.
unfoldable pub with_request : Request → Hinted → Option (Request × ReadWritePool × World)
with_request r none = none
with_request r (some (hinted, p, wp, w)) = some (r, record { w_pool = wp; p_pool = p }, w)

-- `if (p_pool->invalidate(bid)) p_pool->hint(bid, *w_pool);`
unfoldable pub rehint : Bid → WritePool → Bool × PrefetchPool × World → Hinted
rehint bid wp (true, p, w) = PrefetchPool.hint_from bid p wp w
rehint bid wp (false, p, w) = some (false, p, wp, w)

unfoldable pub after_write :
    Bid
    → PrefetchPool
    → Option (Request × WritePool × World)
    → Option (Request × ReadWritePool × World)
after_write bid p none = none
after_write bid p (some (r, wp, w)) =
    with_request r (rehint bid wp (PrefetchPool.invalidate bid p w))

unfoldable pub write : ℕ → Bid → ReadWritePool → World → Option (Request × ReadWritePool × World)
write block bid p w = after_write bid p.p_pool (WritePool.write block bid p.w_pool w)

unfoldable pub hint : Bid → ReadWritePool → World → Hinted
hint bid p w = PrefetchPool.hint_from bid p.p_pool p.w_pool w

unfoldable pub read : ℕ → Bid → ReadWritePool → World → ReadFrom
read block bid p w = PrefetchPool.read_from block bid p.p_pool p.w_pool w

unfoldable pub invalidate : Bid → ReadWritePool → World → Bool × ReadWritePool × World
invalidate bid p w =
    let (found, pp, w') = PrefetchPool.invalidate bid p.p_pool w in
    (found, record p { p_pool = pp }, w')

unfoldable pub find_hint : Bid → ReadWritePool → Option Request
find_hint bid p = PrefetchPool.find bid p.p_pool

unfoldable pub poll_hint : (Request → Bool) → Bid → ReadWritePool → Bool
poll_hint done bid p = PrefetchPool.poll done bid p.p_pool

unfoldable pub steal : Answers → ReadWritePool → Option (ℕ × ReadWritePool)
steal answers p = elim (WritePool.steal answers p.w_pool) [
  | none ↦ none
  | some r ↦ some (r.0, record p { w_pool = r.1 })
]

unfoldable pub add : ℕ → ReadWritePool → ReadWritePool
add block p = record p { w_pool = WritePool.add block p.w_pool }

unfoldable pub steal_prefetch : ReadWritePool → Option (ℕ × ReadWritePool)
steal_prefetch p = elim (PrefetchPool.steal p.p_pool) [
  | none ↦ none
  | some r ↦ some (r.0, record p { p_pool = r.1 })
]

unfoldable pub add_prefetch : ℕ → ReadWritePool → ReadWritePool
add_prefetch block p = record p { p_pool = PrefetchPool.add block p.p_pool }

unfoldable pub resize_write :
    (ℕ → Answers) → ℕ → ReadWritePool → World → Option (ReadWritePool × World)
resize_write answers n p w = elim (WritePool.resize answers n p.w_pool w) [
  | none ↦ none
  | some r ↦ some (record p { w_pool = r.0 }, r.1)
]

unfoldable pub resize_prefetch : ℕ → ReadWritePool → World → Option (ReadWritePool × World)
resize_prefetch n p w = elim (PrefetchPool.resize n p.p_pool w) [
  | none ↦ none
  | some r ↦ some (record p { p_pool = r.0 }, r.1)
]
