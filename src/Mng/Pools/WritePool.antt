-- ===== src/Mng/Pools/WritePool.antt =====
-- `write_pool` (foxxll/mng/write_pool.hpp). `none` is a failed assertion.
use foxxll.Prelude.{
  ℕ, zero, suc, ◌+◌, ◌-◌, Bool, false, List, [], ◌∷◌, ◌++◌, Option, none, some, ltb, ◌==◌, ◌&&◌,
  ◌||◌, if◌then◌else◌, length,
}
use foxxll.Mng.Bid.{Bid, bid_eq}
use foxxll.Mng.Pools.{
  write_op, Request, Event, cancels, awaits, deletes, World, emit, new_request, start, allocate,
  pop_back,
}

pub record BusyEntry : Type 0 where
  pub block : ℕ
  pub req : Request
  pub bid : Bid

pub record WritePool : Type 0 where
  pub free_blocks : List ℕ
  pub busy_blocks : List BusyEntry

-- The answers that the I/O layer gives while a call runs: which requests are found done by the first
-- scan of `wait_any`, by its scan after the wait, and afterwards.
pub record Answers : Type 0 where
  pub at_once : Request → Bool
  pub woken : Request → Bool
  pub later : Request → Bool

unfoldable pub size : WritePool → ℕ
size p = length p.free_blocks + length p.busy_blocks

-- `assert(i2->block != block)` for the stale requests of the same block identifier.
unfoldable pub reuses : ℕ → Bid → List BusyEntry → Bool
reuses block bid [] = false
reuses block bid (e ∷ es) = (bid_eq e.bid bid && e.block == block) || reuses block bid es

unfoldable pub stale_requests : Bid → List BusyEntry → List Event
stale_requests bid [] = []
stale_requests bid (e ∷ es) =
    if bid_eq e.bid bid then cancels e.req ∷ stale_requests bid es else stale_requests bid es

-- `i2->bid.storage = 0` for each of them.
unfoldable pub retire : Bid → List BusyEntry → List BusyEntry
retire bid [] = []
retire bid (e ∷ es) =
    (if bid_eq e.bid bid then record e { bid = record e.bid { storage = 0 } } else e)
    ∷ retire bid es

unfoldable pub write : ℕ → Bid → WritePool → World → Option (Request × WritePool × World)
write block bid p w =
    if reuses block bid p.busy_blocks
    then none
    else let w' = emit (stale_requests bid p.busy_blocks) w in
      let result = new_request write_op w' in
      some (
        result,
        record p {
          busy_blocks =
              retire bid p.busy_blocks ++ record { block = block; req = result; bid = bid } ∷ [];
        },
        start write_op block bid w',
      )

-- The first entry whose request is done, with the entries in front of it and behind it.
unfoldable pub poll_any : (Request → Bool) → List BusyEntry → Option (BusyEntry × List BusyEntry)
poll_any done [] = none
poll_any done (e ∷ es) =
    let rest = poll_any done es in
    if done e.req then some (e, es) else elim rest [ none ↦ none | some r ↦ some (r.0, e ∷ r.1) ]

-- `wait_any` (foxxll/io/request_operations.hpp): a request that is done at once, or one found done
-- after the switch was turned on; `none` is the end of the range.
unfoldable pub wait_any : Answers → List BusyEntry → Option (BusyEntry × List BusyEntry)
wait_any answers es = elim (poll_any answers.at_once es) [
  | some r ↦ some r
  | none ↦ poll_any answers.woken es
]

-- `check_all_busy`: the blocks of the finished requests, and the entries that stay.
unfoldable pub finished : (Request → Bool) → List BusyEntry → List ℕ
finished done [] = []
finished done (e ∷ es) = if done e.req then e.block ∷ finished done es else finished done es

unfoldable pub unfinished : (Request → Bool) → List BusyEntry → List BusyEntry
unfinished done [] = []
unfinished done (e ∷ es) = if done e.req then unfinished done es else e ∷ unfinished done es

unfoldable pub check_all_busy : (Request → Bool) → WritePool → WritePool
check_all_busy done p = record p {
  free_blocks = p.free_blocks ++ finished done p.busy_blocks;
  busy_blocks = unfinished done p.busy_blocks;
}

-- The entry that `wait_any` returned: `assert(completed != end)` and `assert(completed->req->poll())`.
unfoldable pub serve_completed :
    Answers → WritePool → Option (BusyEntry × List BusyEntry) → Option (ℕ × WritePool)
serve_completed answers p none = none
serve_completed answers p (some (e, rest)) =
    if answers.later e.req
    then some (e.block, check_all_busy answers.later (record p { busy_blocks = rest }))
    else none

unfoldable pub steal_free : Answers → WritePool → Option (List ℕ × ℕ) → Option (ℕ × WritePool)
steal_free answers p (some (rest, block)) = some (block, record p { free_blocks = rest })
steal_free answers p none = serve_completed answers p (wait_any answers p.busy_blocks)

unfoldable pub steal : Answers → WritePool → Option (ℕ × WritePool)
steal answers p = if ltb 0 (size p) then steal_free answers p (pop_back p.free_blocks) else none

unfoldable pub is_requested : Bid → List BusyEntry → Bool
is_requested bid [] = false
is_requested bid (e ∷ es) = bid_eq e.bid bid || is_requested bid es

unfoldable pub has_request : Bid → WritePool → Bool
has_request bid p = is_requested bid p.busy_blocks

unfoldable pub take_request : Bid → List BusyEntry → Option (BusyEntry × List BusyEntry)
take_request bid [] = none
take_request bid (e ∷ es) =
    let rest = take_request bid es in
    if bid_eq e.bid bid
    then some (e, es)
    else elim rest [ none ↦ none | some r ↦ some (r.0, e ∷ r.1) ]

-- `steal_request`: a block with its request, which nobody has waited for; `none` is the dummy.
unfoldable pub steal_request : Bid → WritePool → Option ((ℕ × Request) × WritePool)
steal_request bid p = elim (take_request bid p.busy_blocks) [
  | none ↦ none
  | some r ↦ some ((r.0.block, r.0.req), record p { busy_blocks = r.1 })
]

unfoldable pub add : ℕ → WritePool → WritePool
add block p = record p { free_blocks = p.free_blocks ++ block ∷ [] }

-- `new block_type` for each block that is missing.
unfoldable pub enlarge : ℕ → WritePool → World → WritePool × World
enlarge zero p w = (p, w)
enlarge (suc n) p w =
    enlarge n (record p { free_blocks = p.free_blocks ++ w.next_block ∷ [] }) (allocate w)

unfoldable pub create : ℕ → World → WritePool × World
create init_size w = enlarge init_size (record { free_blocks = []; busy_blocks = [] }) w

unfoldable pub delete_stolen :
    (WritePool → World → Option (WritePool × World))
    → World
    → Option (ℕ × WritePool)
    → Option (WritePool × World)
delete_stolen rest w none = none
delete_stolen rest w (some (block, p)) = rest p (emit (deletes block ∷ []) w)

-- `delete steal()` for each block too many.
unfoldable pub shrink : (ℕ → Answers) → ℕ → WritePool → World → Option (WritePool × World)
shrink answers zero p w = some (p, w)
shrink answers (suc n) p w = delete_stolen (shrink answers n) w (steal (answers n) p)

unfoldable pub resize : (ℕ → Answers) → ℕ → WritePool → World → Option (WritePool × World)
resize answers new_size p w =
    let more = some (enlarge (new_size - size p) p w) in
    let less = shrink answers (size p - new_size) p w in
    if ltb (size p) new_size then more else less

-- The destructor waits for all requests and deletes all blocks, the free ones from the back.
unfoldable pub delete_free : List ℕ → List Event
delete_free [] = []
delete_free (b ∷ bs) = delete_free bs ++ deletes b ∷ []

unfoldable pub delete_busy : List BusyEntry → List Event
delete_busy [] = []
delete_busy (e ∷ es) = awaits e.req ∷ deletes e.block ∷ delete_busy es

unfoldable pub destroy : WritePool → World → World
destroy p w = emit (delete_free p.free_blocks ++ delete_busy p.busy_blocks) w
