-- ===== src/Mng/BlockScheduler/Lfd/Farthest.antt =====
-- Which block `block_scheduler_algorithm_offline_lfd` (foxxll/mng/block_scheduler.hpp) evicts.
use foxxll.Prelude.{ℕ, ◌+◌, ◌*◌, ◌-◌, ◌^◌, ◌≤◌, ◌<◌, ◌≡◌, ◌≢◌, Bool, true, false, not, some, arith}
use foxxll.Common.FifoQueue.{find}
use foxxll.Common.PriorityQueue
use foxxll.Common.PriorityQueue.{PriorityQueue, before}
use foxxll.Common.PriorityQueue.Refines.{Coherent}
use foxxll.Mng.BlockScheduler.{SwappableBlock, has_external_block}
use foxxll.Mng.BlockScheduler.Lfd.{bit, priority, evicted_before}
use foxxll.Mng.BlockScheduler.Lfd.Container.{lfd_Popped}

bit_le : (b : Bool) → bit b ≤ 1
bit_le true = omega arith
bit_le false = omega arith

pub timed :
    (b : SwappableBlock) (t : ℕ)
    → t < 2 ^ 62
    → (t * 4 ≤ priority b (true, t)) × (priority b (true, t) ≤ t * 4 + 3)
unfolding priority
timed b t h =
    (omega (arith, h), omega (arith, h, bit_le (not b.dirty), bit_le (has_external_block b)))

not_before : (o e p k : ℕ) → before evicted_before o e p k ≡ true → p ≤ o
not_before o e p k h = ground (arith, h)

-- Times below 2^62 - 1 do not wrap around, and are told from the other priorities. Of the evictable blocks, the one that the offline algorithm
-- evicts first is then not acquired earlier than any other: if it is acquired next at time t, every
-- other block that is inserted as acquired next at a time has at most t; and no block is in that was
-- inserted as not acquired next.
pub pop-Farthest :
    (k : ℕ) (q q' : PriorityQueue) (b : SwappableBlock) (t : ℕ)
    → Coherent evicted_before q
    → PriorityQueue.pop q ≡ some (k, q')
    → t < 2 ^ 62 - 1
    → find k q.meta ≡ some (priority b (true, t))
    → ((j : ℕ) (d : SwappableBlock) (u : ℕ)
        → j ≢ k
        → u < 2 ^ 62 - 1
        → find j q.meta ≡ some (priority d (true, u))
        → u ≤ t)
      × ((j : ℕ) (d : SwappableBlock) (code : ℕ)
          → j ≢ k
          → find j q.meta ≢ some (priority d (false, code)))
unfolding priority
pop-Farthest k q q' b t c e l f =
    let (o, g, least) = (lfd_Popped k q q' c e).least in
    let same : o ≡ priority b (true, t) = cc (f, g) in
    let top = timed b t (omega (arith, l)) in
    (
      (λ j d u n h s.
          let low = timed d u (omega (arith, h)) in
          omega (
            arith,
            not_before o k (priority d (true, u)) j (least j (priority d (true, u)) n s),
            same,
            top.1,
            low.0,
          )),
      (λ j d code n s. omega (
        arith,
        not_before o k (priority d (false, code)) j (least j (priority d (false, code)) n s),
        same,
        top.1,
        l,
      )),
    )
