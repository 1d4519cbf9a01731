-- ===== src/Mng/Pools/PrefetchPool.antt =====
-- `prefetch_pool` (foxxll/mng/prefetch_pool.hpp). `none` is a failed assertion, or `back()` of an
-- empty list.
use foxxll.Prelude.{
  ℕ, zero, suc, ◌+◌, ◌-◌, Bool, true, false, List, [], ◌∷◌, ◌++◌, Option, none, some, ltb,
  if◌then◌else◌, length,
}
use foxxll.Mng.Bid.{Bid, bid_eq}
use foxxll.Mng.Pools.{
  read_op, write_op, Request, Event, cancels, awaits, deletes, World, emit, new_request, start,
  allocate, pop_back,
}
use foxxll.Mng.Pools.WritePool
use foxxll.Mng.Pools.WritePool.{WritePool}

-- An entry of `busy_blocks`, the map from block identifiers to blocks with their requests.
pub record CacheEntry : Type 0 where
  pub bid : Bid
  pub block : ℕ
  pub req : Request

-- `unordered_map_type`: one entry to a key; the order of the entries is not used.
pub record PrefetchPool : Type 0 where
  pub free_blocks : List ℕ
  pub busy_blocks : List CacheEntry
  pub free_blocks_size : ℕ

unfoldable pub size : PrefetchPool → ℕ
size p = p.free_blocks_size + length p.busy_blocks

-- `busy_blocks.find(bid)`.
unfoldable pub lookup : Bid → List CacheEntry → Option CacheEntry
lookup bid [] = none
lookup bid (e ∷ es) = if bid_eq e.bid bid then some e else lookup bid es

-- `busy_blocks.erase(cache_el)`.
unfoldable pub remove : Bid → List CacheEntry → List CacheEntry
remove bid [] = []
remove bid (e ∷ es) = if bid_eq e.bid bid then es else e ∷ remove bid es

-- `busy_blocks[bid] = busy_entry(block, req)`.
unfoldable pub assign : Bid → ℕ → Request → List CacheEntry → List CacheEntry
assign bid block req [] = record { bid = bid; block = block; req = req } ∷ []
assign bid block req (e ∷ es) =
    if bid_eq e.bid bid
    then record e { block = block; req = req } ∷ es
    else e ∷ assign bid block req es

unfoldable pub add : ℕ → PrefetchPool → PrefetchPool
add block p = record p {
  free_blocks = p.free_blocks ++ block ∷ [];
  free_blocks_size = p.free_blocks_size + 1;
}

unfoldable pub steal : PrefetchPool → Option (ℕ × PrefetchPool)
steal p = elim (pop_back p.free_blocks) [
  | none ↦ none
  | some r ↦ some (r.1, record p { free_blocks = r.0; free_blocks_size = p.free_blocks_size - 1 })
]

unfoldable pub in_prefetching : Bid → PrefetchPool → Bool
in_prefetching bid p = elim (lookup bid p.busy_blocks) [ none ↦ false | some e ↦ true ]

-- `find`: the request of a hinted block; `none` is the empty pointer.
unfoldable pub find : Bid → PrefetchPool → Option Request
find bid p = elim (lookup bid p.busy_blocks) [ none ↦ none | some e ↦ some e.req ]

unfoldable pub poll : (Request → Bool) → Bid → PrefetchPool → Bool
poll done bid p = elim (find bid p) [ none ↦ false | some r ↦ done r ]

-- The pool without the free block at the back, and that block.
abbrev pub Popped : Type 0
Popped = Option (ℕ × PrefetchPool)

unfoldable pub pop_free : PrefetchPool → Popped
pop_free p = steal p

unfoldable pub cache : Bid → ℕ → Request → PrefetchPool → PrefetchPool
cache bid block req p = record p { busy_blocks = assign bid block req p.busy_blocks }

-- `hint(bid)` on a free block: it is read into.
unfoldable pub hint_block : Bid → World → Popped → Option (Bool × PrefetchPool × World)
hint_block bid w none = none
hint_block bid w (some (block, p)) =
    some (true, cache bid block (new_request read_op w) p, start read_op block bid w)

unfoldable pub hint : Bid → PrefetchPool → World → Option (Bool × PrefetchPool × World)
hint bid p w =
    if in_prefetching bid p
    then some (true, p, w)
    else if ltb 0 p.free_blocks_size
    then hint_block bid w (pop_free p)
    else some (false, p, w)

abbrev pub Hinted : Type 0
Hinted = Option (Bool × PrefetchPool × WritePool × World)

-- A block that the write pool is writing is taken over with its request, in exchange for the free
-- block; any other is read into the free block.
unfoldable pub hint_exchange :
    Bid → ℕ → PrefetchPool → WritePool → World → Option ((ℕ × Request) × WritePool) → Hinted
hint_exchange bid block p wp w (some ((written, req), wp')) =
    some (true, cache bid written req p, WritePool.add block wp', w)
hint_exchange bid block p wp w none =
    some (true, cache bid block (new_request read_op w) p, wp, start read_op block bid w)

unfoldable pub hint_popped : Bid → WritePool → World → Popped → Hinted
hint_popped bid wp w none = none
hint_popped bid wp w (some (block, p)) =
    if WritePool.has_request bid wp
    then hint_exchange bid block p wp w (WritePool.steal_request bid wp)
    else hint_exchange bid block p wp w none

-- `hint(bid, w_pool)`.
unfoldable pub hint_from : Bid → PrefetchPool → WritePool → World → Hinted
hint_from bid p wp w =
    if in_prefetching bid p
    then some (true, p, wp, w)
    else if ltb 0 p.free_blocks_size
    then hint_popped bid wp w (pop_free p)
    else some (false, p, wp, w)

-- `if (op() == READ) cancel(); wait();`
unfoldable pub settle : Request → List Event
settle r = elim r.op [ read_op ↦ cancels r ∷ awaits r ∷ [] | write_op ↦ awaits r ∷ [] ]

unfoldable pub invalidate_entry :
    Bid → PrefetchPool → World → Option CacheEntry → Bool × PrefetchPool × World
invalidate_entry bid p w none = (false, p, w)
invalidate_entry bid p w (some e) = (
  true,
  record {
    free_blocks = p.free_blocks ++ e.block ∷ [];
    busy_blocks = remove bid p.busy_blocks;
    free_blocks_size = p.free_blocks_size + 1;
  },
  emit (settle e.req) w,
)

unfoldable pub invalidate : Bid → PrefetchPool → World → Bool × PrefetchPool × World
invalidate bid p w = invalidate_entry bid p w (lookup bid p.busy_blocks)

-- A cached block is handed out in exchange for the caller's.
unfoldable pub take_cached : Bid → ℕ → CacheEntry → PrefetchPool → PrefetchPool
take_cached bid block e p = record {
  free_blocks = p.free_blocks ++ block ∷ [];
  busy_blocks = remove bid p.busy_blocks;
  free_blocks_size = p.free_blocks_size + 1;
}

-- The request and the block that the caller gets.
abbrev pub Read : Type 0
Read = Request × ℕ

unfoldable pub read_entry :
    ℕ → Bid → PrefetchPool → World → Option CacheEntry → Read × PrefetchPool × World
read_entry block bid p w (some e) = ((e.req, e.block), take_cached bid block e p, w)
read_entry block bid p w none = ((new_request read_op w, block), p, start read_op block bid w)

-- `read(block, bid)`.
unfoldable pub read : ℕ → Bid → PrefetchPool → World → Read × PrefetchPool × World
read block bid p w = read_entry block bid p w (lookup bid p.busy_blocks)

abbrev pub ReadFrom : Type 0
ReadFrom = Read × PrefetchPool × WritePool × World

-- The block is in neither pool's cache, or comes from the write pool in exchange for the caller's.
unfoldable pub read_written :
    ℕ → Bid → PrefetchPool → WritePool → World → Option ((ℕ × Request) × WritePool) → ReadFrom
read_written block bid p wp w (some ((written, req), wp')) =
    ((req, written), p, WritePool.add block wp', w)
read_written block bid p wp w none =
    ((new_request read_op w, block), p, wp, start read_op block bid w)

unfoldable pub read_from_entry :
    ℕ → Bid → PrefetchPool → WritePool → World → Option CacheEntry → ReadFrom
read_from_entry block bid p wp w (some e) = ((e.req, e.block), take_cached bid block e p, wp, w)
read_from_entry block bid p wp w none =
    if WritePool.has_request bid wp
    then read_written block bid p wp w (WritePool.steal_request bid wp)
    else read_written block bid p wp w none

-- `read(block, bid, w_pool)`.
unfoldable pub read_from : ℕ → Bid → PrefetchPool → WritePool → World → ReadFrom
read_from block bid p wp w = read_from_entry block bid p wp w (lookup bid p.busy_blocks)

unfoldable pub enlarge : ℕ → PrefetchPool → World → PrefetchPool × World
enlarge zero p w = (p, w)
enlarge (suc n) p w = enlarge n (add w.next_block p) (allocate w)

unfoldable pub create : ℕ → World → PrefetchPool × World
create init_size w =
    enlarge init_size (record { free_blocks = []; busy_blocks = []; free_blocks_size = 0 }) w

unfoldable pub delete_stolen :
    (PrefetchPool → World → Option (PrefetchPool × World))
    → World
    → Popped
    → Option (PrefetchPool × World)
delete_stolen rest w none = none
delete_stolen rest w (some (block, p)) = rest p (emit (deletes block ∷ []) w)

-- `while (diff < 0 && free_blocks_size > 0)`: only free blocks are deleted.
unfoldable pub shrink : ℕ → PrefetchPool → World → Option (PrefetchPool × World)
shrink zero p w = some (p, w)
shrink (suc n) p w =
    let less = delete_stolen (shrink n) w (steal p) in
    if ltb 0 p.free_blocks_size then less else some (p, w)

unfoldable pub resize : ℕ → PrefetchPool → World → Option (PrefetchPool × World)
resize new_size p w =
    let more = some (enlarge (new_size - size p) p w) in
    let less = shrink (size p - new_size) p w in if ltb (size p) new_size then more else less
