-- ===== src/Mng/BlockScheduler/Simulation/Agrees.antt =====
-- `is_initialized` of the simulation and of the caching algorithms (foxxll/mng/block_scheduler.hpp).
use foxxll.Prelude.{
  ℕ, ◌+◌, ◌≤◌, ◌<◌, ◌≡◌, ◌≢◌, refl, sym, ◌∙◌, subst, Bool, true, not, some, ltb, ◌==◌, inl, inr,
  arith, Bool-cases, eq-or-ne, update, update_self, update_ne, u64_mod, add64, sub64,
}
use foxxll.Mng.BlockScheduler
use foxxll.Mng.BlockScheduler.{SwappableBlock}
use foxxll.Mng.BlockScheduler.Detach.{data_of}
use foxxll.Mng.BlockScheduler.Evictable.{Evictable}
use foxxll.Mng.BlockScheduler.Cache.{Cache}
use foxxll.Mng.BlockScheduler.Cache.Valid.{has_data, Consistent}
use foxxll.Mng.BlockScheduler.Lfd.{bit}
use foxxll.Mng.BlockScheduler.Session.{
  Operation, acquiring, writing, releasing, deinitializing, initializing, extracting, flushing,
  Session, perform, counts, keeps, Same, Follows, Allowed, Sound,
}
use foxxll.Mng.BlockScheduler.Session.Steps.{idle-has_data}
use foxxll.Mng.BlockScheduler.Session.Refines.{perform-Outcome}
use foxxll.Mng.BlockScheduler.Simulation
use foxxll.Mng.BlockScheduler.Simulation.{Simulation, push_back}

-- The simulation's method for an operation; writes and flushes do not reach it.
unfoldable pub simulate : Operation → Simulation → Simulation
simulate (acquiring k uninitialized) m = Simulation.acquire k uninitialized m
simulate (writing k v) m = m
simulate (releasing k dirty) m = Simulation.release k dirty m
simulate (deinitializing k) m = Simulation.deinitialize k m
simulate (initializing k e) m = Simulation.initialize k m
simulate (extracting k) m = Simulation.extract k m
simulate flushing m = m

-- The simulation's count is above the references of the block exactly if the block keeps its data.
abbrev pub Accounts : ℕ → ℕ → Bool → Type 0
Accounts n references keeps = (n < u64_mod) × (references ≤ n) × ((n == references) ≡ not keeps)

module _ ⦃evictable : Evictable⦄ where
  open evictable use {Key}

  pub record Agrees (m : Simulation) (s : Session) : Type 0 where
    pub accounts : (j : ℕ) → Accounts (m.reference_counts j) (counts s j) (keeps s j)

  other-Accounts :
      (m : Simulation) (s s' : Session) (j : ℕ)
      → Agrees m s
      → Same s s' j
      → Accounts (m.reference_counts j) (counts s' j) (keeps s' j)
  other-Accounts m s s' j a e = rw (e.same_counts, e.same_keeps) (a.accounts j)

  -- One count is set.
  set-Agrees :
      (m : Simulation) (s s' : Session) (k n : ℕ) (m' : Simulation)
      → Agrees m s
      → ((j : ℕ) → j ≢ k → Same s s' j)
      → m'.reference_counts ≡ update k n m.reference_counts
      → Accounts n (counts s' k) (keeps s' k)
      → Agrees m' s'
  set-Agrees m s s' k n m' a o e h = record {
    accounts = λ j. elim (eq-or-ne j k) [
      | inl x ↦ rw (e, x, update_self k n m.reference_counts) h
      | inr d ↦ rw (e, update_ne k n m.reference_counts j d) (other-Accounts m s s' j a (o j d))
    ];
  }

  follow-Agrees :
      (op : Operation) (m : Simulation) (s s' : Session)
      → Agrees m s
      → Follows op s s'
      → ((j : ℕ) → m.reference_counts j + 1 < u64_mod)
      → Agrees (simulate op m) s'
  unfolding simulate Simulation.acquire Simulation.release Simulation.deinitialize
      Simulation.initialize Simulation.extract push_back
  follow-Agrees (acquiring k u) m s s' a (c, h, x, o) l =
      set-Agrees m s s' k (add64 (m.reference_counts k) 1) _ a o refl
        (ground (arith, c, h, a.accounts k, l k))
  follow-Agrees (writing k v) m s s' a (c, h, x, o) l = record {
    accounts = λ j. elim (eq-or-ne j k) [
      | inl e ↦ rw (e, c, h) (a.accounts k)
      | inr d ↦ other-Accounts m s s' j a (o j d)
    ];
  }
  follow-Agrees (releasing k d) m s s' a (c, h, x, o) l =
      set-Agrees m s s' k (add64 (sub64 (m.reference_counts k) 1) (bit d)) _ a o refl
        (elim (Bool-cases d) [
          | inl y ↦ ground (arith, c, h, a.accounts k, y, l k)
          | inr f ↦ ground (arith, c, h, a.accounts k, f)
        ])
  follow-Agrees (deinitializing k) m s s' a (c, h, x, o) l =
      set-Agrees m s s' k 0 _ a o refl (ground (arith, c, h))
  follow-Agrees (initializing k e) m s s' a (c, h, x, o) l =
      set-Agrees m s s' k 1 _ a o refl (ground (arith, c, h))
  follow-Agrees (extracting k) m s s' a (c, h, x, o) l =
      set-Agrees m s s' k 0 _ a o refl (ground (arith, c, h))
  follow-Agrees flushing m s s' a o l = record { accounts = λ j. other-Accounts m s s' j a (o j) }

  -- A block that nobody has acquired is initialized if it keeps its data.
  idle-is_initialized :
      (j : ℕ) (c : Cache)
      → Consistent c
      → (c.swappable_blocks j).reference_count ≡ 0
      → BlockScheduler.is_initialized (c.swappable_blocks j) ≡ has_data (c.swappable_blocks j)
  unfolding data_of
  idle-is_initialized j c v r = sym (
      idle-has_data j c v r
      ∙ elim (Bool-cases (BlockScheduler.is_internal (c.swappable_blocks j))) [
        | inl y ↦ rw y refl
        | inr f ↦ elim (Bool-cases (BlockScheduler.is_external (c.swappable_blocks j))) [
          | inl y ↦ rw (f, y) refl
          | inr n ↦ rw (f, n) refl
        ]
      ])

  agree-is_initialized :
      (j : ℕ) (m : Simulation) (s : Session)
      → Sound s
      → Agrees m s
      → Simulation.is_initialized j m ≡ BlockScheduler.is_initialized (s.cache.swappable_blocks j)
  agree-is_initialized j m s v a = elim (Bool-cases (ltb 0 (counts s j))) [
    | inl y ↦
        let h = v.consistent.base.acquired_internal j (ground (arith, y)) in
        let i : BlockScheduler.is_internal (s.cache.swappable_blocks j) ≡ true =
          ground (arith, h) in
        rw i (ground (arith, y, a.accounts j))
    | inr f ↦
        let r : counts s j ≡ 0 = ground (arith, f) in
        rw (idle-is_initialized j s.cache v.consistent r) (ground (arith, r, a.accounts j))
  ]

  -- A simulation that starts while no block is acquired.
  pub start-Agrees :
      (s : Session)
      → Sound s
      → ((j : ℕ) → counts s j ≡ 0)
      → Agrees
          (Simulation.start (λ j. BlockScheduler.is_initialized (s.cache.swappable_blocks j)))
          s
  unfolding Simulation.start
  start-Agrees s v z = record {
    accounts = λ j.
        rw (z j, idle-is_initialized j s.cache v.consistent (z j))
          (elim (Bool-cases (keeps s j)) [
            | inl y ↦ rw y (omega arith, omega arith, refl)
            | inr f ↦ rw f (omega arith, omega arith, refl)
          ]);
  }

  -- The simulation counts as the caching algorithms do. Let the scheduler be consistent, with blocks that
  -- are acquired and not changed as on disk, and let a block be initialized only with an external block
  -- of its own, which no swappable block has and which has not been deleted. If each of its counts is above the references of
  -- the block exactly where the block keeps its data when it is released, and below 2^64 - 1, then the
  -- same holds, but for the bound, after any operation that a caching algorithm carries out and the
  -- simulation is told of; and the two say the same about which blocks are initialized.
  pub simulate-Agrees :
      (key : SwappableBlock → Key) (op : Operation) (m : Simulation) (s s' : Session)
      → Sound s
      → Allowed op s
      → Agrees m s
      → ((j : ℕ) → m.reference_counts j + 1 < u64_mod)
      → perform key op s ≡ some s'
      → Agrees (simulate op m) s'
        × ((j : ℕ)
            → Simulation.is_initialized j (simulate op m)
              ≡ BlockScheduler.is_initialized (s'.cache.swappable_blocks j))
  simulate-Agrees key op m s s' v w a l e = elim (perform-Outcome key op s v w) [
    | inl (s1, run, sound, follows) ↦
        let same : s1 ≡ s' = cc (run, e) in
        subst
          (λ (x : Session).
            Agrees (simulate op m) x
            × ((j : ℕ)
                → Simulation.is_initialized j (simulate op m)
                  ≡ BlockScheduler.is_initialized (x.cache.swappable_blocks j)))
          same
          (let b = follow-Agrees op m s s1 a follows l in
            (b, λ j. agree-is_initialized j (simulate op m) s1 sound b))
    | inr (run, refused) ↦ absurd (cc (run, e))
  ]
