-- ===== src/Mng/Pools/ReadAfterWrite.antt =====
-- `read_write_pool` (foxxll/mng/read_write_pool.hpp): what `write` leaves for a later `read`.
use foxxll.Prelude.{
  ℕ, ◌+◌, ◌<◌, ◌≡◌, refl, ◌∙◌, ap, true, false, [], ◌∷◌, ◌++◌, none, some, ltb, length-append,
  arith, Option-cases, inl, inr, ◌⊎◌,
}
use foxxll.Mng.Bid.{Bid}
use foxxll.Mng.Pools.{Request, World, emit}
use foxxll.Mng.Pools.WritePool
use foxxll.Mng.Pools.WritePool.{WritePool, has_request, steal_request}
use foxxll.Mng.Pools.PrefetchPool.{
  PrefetchPool, lookup, remove, in_prefetching, cache, hint_exchange, hint_popped, hint_from,
  invalidate, invalidate_entry, settle, read_written, read_from_entry, read_from,
}
use foxxll.Mng.Pools.ReadWritePool
use foxxll.Mng.Pools.ReadWritePool.{ReadWritePool, with_request, rehint, after_write}
use foxxll.Mng.Pools.Blocks.{entries, lookup-entries, entries-remove-le, lookup-assign}
use foxxll.Mng.Pools.WriteLaws.{write-Written}
use foxxll.Mng.Pools.PrefetchLaws.{IsValid, steal_request-Steals, pop_free-Popped}

-- The write pool hands out the block of the last write, with its request.
abbrev Newest : Bid → ℕ → Request → WritePool → Type 0
Newest bid block r wp = (q : WritePool) × (steal_request bid wp ≡ some ((block, r), q))

Newest-has_request :
    (bid : Bid) (block : ℕ) (r : Request) (wp : WritePool)
    → Newest bid block r wp
    → has_request bid wp ≡ true
Newest-has_request bid block r wp (q, e) = elim (steal_request-Steals bid wp) [
  | inl (m, s) ↦ cc (e, s)
  | inr (_, _, _, m, _, _) ↦ m
]

-- An invalidated entry is gone and its block is free.
record Invalidated (bid : Bid) (p : PrefetchPool) (q : PrefetchPool) : Type 0 where
  valid : IsValid q
  gone : entries bid q.busy_blocks ≡ 0
  absent : in_prefetching bid q ≡ false
  room : 0 < q.free_blocks_size

invalidate-Invalidated :
    (bid : Bid) (p : PrefetchPool) (w : World)
    → IsValid p
    → ((lookup bid p.busy_blocks ≡ none) × (invalidate bid p w ≡ (false, p, w)))
      ⊎ ((q : PrefetchPool) × (w' : World) × (invalidate bid p w ≡ (true, q, w'))
          × Invalidated bid p q)
unfolding invalidate invalidate_entry in_prefetching
invalidate-Invalidated bid p w v = elim (lookup-entries bid p.busy_blocks) [
  | inl (r, z) ↦ inl (r, rw (r, invalidate) refl)
  | inr (e, r, _, _, entry) ↦
      let q : PrefetchPool = record {
        free_blocks = p.free_blocks ++ e.block ∷ [];
        busy_blocks = remove bid p.busy_blocks;
        free_blocks_size = p.free_blocks_size + 1;
      } in
      let gone : entries bid q.busy_blocks ≡ 0 = omega (arith, entry, v.once bid) in
      inr (
        q,
        emit (settle e.req) w,
        rw (r, invalidate) refl,
        record {
          valid = record {
            counted = omega (arith, length-append p.free_blocks (e.block ∷ []), v.counted);
            once = λ b. omega (arith, entries-remove-le b bid p.busy_blocks, v.once b);
          };
          gone = gone;
          absent = elim (lookup-entries bid q.busy_blocks) [
            | inl (s, z) ↦ rw (s, in_prefetching) refl
            | inr (f, s, _, _, z) ↦ absurd (omega (arith, z, gone))
          ];
          room = omega arith;
        },
      )
]

-- What `read` finds afterwards.
abbrev Finds : Bid → ℕ → Request → PrefetchPool → WritePool → Type 0
Finds bid block r p wp = (other : ℕ) (w : World) → (read_from other bid p wp w).0 ≡ (r, block)

Newest-Finds :
    (bid : Bid) (block : ℕ) (r : Request) (p : PrefetchPool) (wp : WritePool)
    → lookup bid p.busy_blocks ≡ none
    → Newest bid block r wp
    → Finds bid block r p wp
unfolding read_from read_from_entry read_written
Newest-Finds bid block r p wp missing n other w =
    rw (missing, read_from, Newest-has_request bid block r wp n, n.1) refl

cache-Finds :
    (bid : Bid) (block : ℕ) (r : Request) (p : PrefetchPool) (wp : WritePool)
    → entries bid p.busy_blocks ≡ 0
    → Finds bid block r (cache bid block r p) wp
unfolding read_from read_from_entry cache
cache-Finds bid block r p wp gone other w =
    rw (lookup-assign bid block r p.busy_blocks gone, read_from) refl

-- The hint after the invalidation takes the written block over.
rehint-Finds :
    (bid : Bid) (block : ℕ) (r : Request) (p q : PrefetchPool) (wp : WritePool) (w : World)
    → Invalidated bid p q
    → Newest bid block r wp
    → (p' : PrefetchPool) × (wp' : WritePool) × (hint_from bid q wp w ≡ some (true, p', wp', w))
      × Finds bid block r p' wp'
unfolding hint_from hint_popped hint_exchange
rehint-Finds bid block r p q wp w i n =
    let o = pop_free-Popped q i.valid i.room in
    let some_free : ltb 0 q.free_blocks_size ≡ true = let h = i.room in ground arith in
    let wp' = WritePool.add o.block n.0 in
    (
      cache bid block r o.rest,
      wp',
      rw (i.absent, some_free, o.popped, Newest-has_request bid block r wp n, n.1) refl,
      cache-Finds bid block r o.rest wp' (ap (entries bid) o.same_cache ∙ i.gone),
    )

-- A read of a block identifier after a write to it returns the very block that was written, with the
-- request of that write: whether the pools had older data cached, had it in flight, or not at all.
pub write-read :
    (block other : ℕ) (bid : Bid) (p p' : ReadWritePool) (w w' : World) (r : Request)
    → 0 < bid.storage
    → IsValid p.p_pool
    → ReadWritePool.write block bid p w ≡ some (r, p', w')
    → (ReadWritePool.read other bid p' w').0 ≡ (r, block)
unfolding ReadWritePool.write ReadWritePool.read after_write rehint with_request
write-read block other bid p p' w w' r real v e =
    elim (Option-cases (WritePool.write block bid p.w_pool w)) [
      | inl f ↦ cc (rw f at e)
      | inr ((s, wp, w1), f) ↦
          let t = write-Written block bid p.w_pool w s wp w1 f in
          let n : Newest bid block s wp = (_, t.newest real) in
          elim (invalidate-Invalidated bid p.p_pool w1 v) [
            | inl (missing, g) ↦
                let same = rw (f, after_write, g) at e in
                let pool : record { w_pool = wp; p_pool = p.p_pool } ≡ p' = cc in
                let req : s ≡ r = cc in
                rw (← pool, ← req) (Newest-Finds bid block s p.p_pool wp missing n other w')
            | inr (q, w2, g, i) ↦
                let (pp, wp', h, finds) = rehint-Finds bid block s p.p_pool q wp w2 i n in
                let same = rw (f, after_write, g, rehint, h) at e in
                let pool : record { w_pool = wp'; p_pool = pp } ≡ p' = cc in
                let req : s ≡ r = cc in rw (← pool, ← req) (finds other w')
          ]
    ]
