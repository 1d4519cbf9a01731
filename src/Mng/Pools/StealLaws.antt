-- ===== src/Mng/Pools/StealLaws.antt =====
-- How `steal` and `resize` of `write_pool` (foxxll/mng/write_pool.hpp) end.
use foxxll.Prelude.{
  ℕ, zero, suc, ◌+◌, ◌-◌, ◌≤◌, ◌<◌, ◌≡◌, ◌≢◌, refl, ap, Bool, true, List, [], ◌∷◌, ◌++◌, Option,
  none, some, ltb, length, length-append, arith, Option-cases, Bool-cases, inl, inr, ◌⊎◌,
}
use foxxll.Mng.Pools.{Request, World, emit, allocate, deletes}
use foxxll.Mng.Pools.WritePool.{
  WritePool, BusyEntry, Answers, size, poll_any, wait_any, check_all_busy, serve_completed,
  steal_free, steal, enlarge, delete_stolen, shrink, resize,
}
use foxxll.Mng.Pools.Blocks.{pop_back-Splits}
use foxxll.Mng.Pools.WriteLaws.{steal-Left}

-- What the I/O layer owes to `wait_any`: the switch is turned on when a request is done, and a
-- request that is done stays done.
pub record Awakes (answers : Answers) (p : WritePool) : Type 0 where
  pub some_done : poll_any answers.woken p.busy_blocks ≢ none
  pub stays : (r : Request) → answers.at_once r ≡ true → answers.later r ≡ true
  pub stays_woken : (r : Request) → answers.woken r ≡ true → answers.later r ≡ true

poll_any-done :
    (done : Request → Bool) (es : List BusyEntry)
    → (poll_any done es ≡ none)
      ⊎ ((e : BusyEntry) × (rest : List BusyEntry) × (poll_any done es ≡ some (e, rest))
          × (done e.req ≡ true))
unfolding poll_any
poll_any-done done [] = inl refl
poll_any-done done (f ∷ es) = elim (Bool-cases (done f.req)) [
  | inl y ↦ inr (f, es, rw y, y)
  | inr n ↦ elim (poll_any-done done es) [
    | inl r ↦ inl (rw (n, r))
    | inr (e, rest, r, t) ↦ inr (e, f ∷ rest, rw (n, r), t)
  ]
]

serve_completed-some :
    (answers : Answers) (p : WritePool)
    → Awakes answers p
    → (block : ℕ) × (p' : WritePool) × (serve_completed answers p (wait_any answers p.busy_blocks)
        ≡ some (block, p'))
unfolding serve_completed wait_any
serve_completed-some answers p k = elim (poll_any-done answers.at_once p.busy_blocks) [
  | inr (e, rest, r, t) ↦ (
    e.block,
    check_all_busy answers.later (record p { busy_blocks = rest }),
    rw (r, wait_any, k.stays e.req t) refl,
  )
  | inl r ↦ elim (poll_any-done answers.woken p.busy_blocks) [
    | inl s ↦ absurd (k.some_done s)
    | inr (e, rest, s, t) ↦ (
      e.block,
      check_all_busy answers.later (record p { busy_blocks = rest }),
      rw (r, s, wait_any, k.stays_woken e.req t) refl,
    )
  ]
]

-- A pool with a block in it always has one to hand out: a free one, or that of the first write that
-- is done.
pub steal_total :
    (answers : Answers) (p : WritePool)
    → ((0 < length p.free_blocks) ⊎ Awakes answers p)
    → 0 < size p
    → (block : ℕ) × (p' : WritePool) × (steal answers p ≡ some (block, p'))
unfolding steal steal_free
steal_total answers p k pos =
    let some_block : ltb 0 (size p) ≡ true = ground arith in
    rw some_block (elim (pop_back-Splits p.free_blocks) [
      | inr (cs, b, r, e) ↦ (b, record p { free_blocks = cs }, rw r refl)
      | inl (e, r) ↦ rw r (elim k [
        | inl h ↦ absurd (omega (arith, ap length e))
        | inr w ↦ serve_completed-some answers p w
      ])
    ])

enlarge-size : (n : ℕ) (p : WritePool) (w : World) → size (enlarge n p w).0 ≡ size p + n
unfolding enlarge size
enlarge-size zero p w = omega arith
enlarge-size (suc n) p w =
    let q = record p { free_blocks = p.free_blocks ++ w.next_block ∷ [] } in
    omega (arith, enlarge-size n q (allocate w), length-append p.free_blocks (w.next_block ∷ []))

shrink-size :
    (answers : ℕ → Answers) (n : ℕ) (p : WritePool) (w : World) (p' : WritePool) (w' : World)
    → shrink answers n p w ≡ some (p', w')
    → size p' + n ≡ size p
unfolding shrink delete_stolen
shrink-size answers zero p w p' w' h = let same : p ≡ p' = cc in rw same (omega arith)
shrink-size answers (suc n) p w p' w' h = elim (Option-cases (steal (answers n) p)) [
  | inl e ↦ cc (rw e at h)
  | inr (r, e) ↦
      let rest =
        shrink-size answers n r.1 (emit (deletes r.0 ∷ []) w) p' w' (rw (e, delete_stolen) at h) in
      omega (arith, rest, (steal-Left (answers n) p r.0 r.1 e).count)
]

or_else_pool : WritePool → Option (WritePool × World) → WritePool
or_else_pool p none = p
or_else_pool p (some r) = r.0

-- A `resize` that returns leaves exactly the size that was asked for.
pub resize-size :
    (answers : ℕ → Answers) (n : ℕ) (p : WritePool) (w : World) (p' : WritePool) (w' : World)
    → resize answers n p w ≡ some (p', w')
    → size p' ≡ n
unfolding resize or_else_pool
resize-size answers n p w p' w' h = elim (Bool-cases (ltb (size p) n)) [
  | inl y ↦
      let same : (enlarge (n - size p) p w).0 ≡ p' =
        ap (λ (r : Option (WritePool × World)). or_else_pool p r) (rw y at h) in
      let small : size p < n = ground arith in
      rw (← same) (omega (arith, enlarge-size (n - size p) p w))
  | inr m ↦
      let large : n ≤ size p = ground arith in
      omega (arith, shrink-size answers (size p - n) p w p' w' (rw m at h))
]
