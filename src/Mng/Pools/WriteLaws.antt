-- ===== src/Mng/Pools/WriteLaws.antt =====
-- `write_pool` (foxxll/mng/write_pool.hpp): the blocks that it holds, and which write it finds.
use foxxll.Prelude.{
  ℕ, ◌+◌, ◌<◌, ◌≡◌, refl, ap, Bool, true, List, [], ◌∷◌, ◌++◌, none, some, ltb, length,
  length-append, arith, Bool-cases, inl, inr, ◌⊎◌,
}
use foxxll.Mng.Bid.{Bid, bid_eq}
use foxxll.Mng.Pools.{Request, World, pop_back}
use foxxll.Mng.Pools.WritePool.{
  WritePool, BusyEntry, Answers, size, reuses, retire, write, wait_any, finished, check_all_busy,
  serve_completed, steal_free, steal, take_request, steal_request,
}
use foxxll.Mng.Pools.Blocks.{
  one, occurs, write_owns, occurs-append, busy_occurs-append, pop_back-Splits, busy_occurs-retire,
  length-retire, finished-occurs, length-finished, Taken, poll_any-Taken,
}

-- After `write` no other entry has the block identifier.
take_request-retire :
    (bid : Bid) (es : List BusyEntry) (e : BusyEntry)
    → 0 < bid.storage
    → bid_eq e.bid bid ≡ true
    → take_request bid (retire bid es ++ e ∷ []) ≡ some (e, retire bid es)
unfolding take_request retire
take_request-retire bid [] e v same = rw same
take_request-retire bid (f ∷ es) e v same = ground (arith, take_request-retire bid es e v same)

-- The block of a write that has been accepted.
pub record Written (block : ℕ) (bid : Bid) (p : WritePool) (r : Request) (p' : WritePool)
    : Type 0 where
  pub owns : (x : ℕ) → write_owns x p' ≡ write_owns x p + one x block
  pub count : size p' ≡ size p + 1
  pub newest :
      0 < bid.storage
      → steal_request bid p'
        ≡ some ((block, r), record p { busy_blocks = retire bid p.busy_blocks })

-- A write that does not reuse a block in flight takes the block over: the pool holds it in addition
-- to all that it held, its size grows by one, and for a valid identifier `steal_request` then
-- returns just this block with its request, whatever writes to the identifier were pending.
pub write-Written :
    (block : ℕ) (bid : Bid) (p : WritePool) (w : World) (r : Request) (p' : WritePool) (w' : World)
    → write block bid p w ≡ some (r, p', w')
    → Written block bid p r p'
unfolding write size steal_request
write-Written block bid p w r p' w' e = elim (Bool-cases (reuses block bid p.busy_blocks)) [
  | inl y ↦ cc (e, y)
  | inr n ↦
      let entry : BusyEntry = record { block = block; req = r; bid = bid } in
      let same : p' ≡ record p { busy_blocks = retire bid p.busy_blocks ++ entry ∷ [] } =
        ground arith in
      rw same (record {
        owns = λ x. omega (
          arith,
          busy_occurs-append x (retire bid p.busy_blocks) (entry ∷ []),
          busy_occurs-retire x bid p.busy_blocks,
        );
        count = omega (
          arith,
          length-append (retire bid p.busy_blocks) (entry ∷ []),
          length-retire bid p.busy_blocks,
        );
        newest = λ v.
            rw (take_request-retire bid p.busy_blocks entry v (ground arith), steal_request) refl;
      })
]

-- A block has left the pool.
pub record Left (p : WritePool) (block : ℕ) (p' : WritePool) : Type 0 where
  pub owns : (x : ℕ) → write_owns x p' + one x block ≡ write_owns x p
  pub count : size p' + 1 ≡ size p

pub check_all_busy-owns :
    (x : ℕ) (done : Request → Bool) (p : WritePool)
    → write_owns x (check_all_busy done p) ≡ write_owns x p
unfolding check_all_busy
check_all_busy-owns x done p = omega (
  arith,
  occurs-append x p.free_blocks (finished done p.busy_blocks),
  finished-occurs x done p.busy_blocks,
)

check_all_busy-size :
    (done : Request → Bool) (p : WritePool) → size (check_all_busy done p) ≡ size p
unfolding check_all_busy size
check_all_busy-size done p = omega (
  arith,
  length-append p.free_blocks (finished done p.busy_blocks),
  length-finished done p.busy_blocks,
)

wait_any-Taken :
    (answers : Answers) (es : List BusyEntry)
    → (wait_any answers es ≡ none)
      ⊎ ((e : BusyEntry) × (rest : List BusyEntry) × (wait_any answers es ≡ some (e, rest))
          × Taken es e rest)
unfolding wait_any
wait_any-Taken answers es = elim (poll_any-Taken answers.at_once es) [
  | inr (e, rest, r, t) ↦ inr (e, rest, rw (r, wait_any) refl, t)
  | inl r ↦ rw (r, wait_any) (poll_any-Taken answers.woken es)
]

serve_completed-Left :
    (answers : Answers) (p : WritePool) (block : ℕ) (p' : WritePool)
    → serve_completed answers p (wait_any answers p.busy_blocks) ≡ some (block, p')
    → Left p block p'
unfolding serve_completed size
serve_completed-Left answers p block p' h = elim (wait_any-Taken answers p.busy_blocks) [
  | inl r ↦ cc (rw r at h)
  | inr (e, rest, r, t) ↦ elim (Bool-cases (answers.later e.req)) [
    | inr n ↦ cc (rw (r, n) at h)
    | inl y ↦
        let q = record p { busy_blocks = rest } in
        let same : some (e.block, check_all_busy answers.later q) ≡ some (block, p') =
          rw (r, y) at h in
        let pool : check_all_busy answers.later q ≡ p' = cc in
        let given : e.block ≡ block = cc in
        rw (← pool, ← given)
          (record {
            owns = λ x. omega (arith, check_all_busy-owns x answers.later q, t.owns x);
            count = omega (arith, check_all_busy-size answers.later q, t.count);
          })
  ]
]

steal_free-Left :
    (answers : Answers) (p : WritePool) (block : ℕ) (p' : WritePool)
    → steal_free answers p (pop_back p.free_blocks) ≡ some (block, p')
    → Left p block p'
unfolding steal_free size
steal_free-Left answers p block p' h = elim (pop_back-Splits p.free_blocks) [
  | inl (e, r) ↦ serve_completed-Left answers p block p' (rw r at h)
  | inr (cs, b, r, e) ↦
      let same : some (b, record p { free_blocks = cs }) ≡ some (block, p') = rw r at h in
      let pool : record p { free_blocks = cs } ≡ p' = cc in
      let given : b ≡ block = cc in
      rw (← pool, ← given)
        (record {
          owns = λ x. omega (arith, occurs-append x cs (b ∷ []), ap (occurs x) e);
          count = omega (arith, length-append cs (b ∷ []), ap length e);
        })
]

-- `steal` hands over a block that the pool held and keeps all others, also those of the writes that
-- it finds finished; the size falls by one.
pub steal-Left :
    (answers : Answers) (p : WritePool) (block : ℕ) (p' : WritePool)
    → steal answers p ≡ some (block, p')
    → Left p block p'
unfolding steal
steal-Left answers p block p' h = elim (Bool-cases (ltb 0 (size p))) [
  | inl y ↦ steal_free-Left answers p block p' (rw y at h)
  | inr n ↦ cc (rw n at h)
]
