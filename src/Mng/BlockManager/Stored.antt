-- ===== src/Mng/BlockManager/Stored.antt =====
-- What `block_manager::new_blocks` (foxxll/mng/block_manager.hpp) does on each disk and with the
-- range of block identifiers.
use foxxll.Prelude.{
  ℕ, zero, suc, ◌+◌, ◌≤◌, ◌<◌, ◌≡◌, ◌∙◌, sym, subst, refl, ap, Option-cases, none-ne-some, inl, inr,
  ◌⊎◌, List, Option, none, some, arith, length, get_elem?, replicate,
}
use foxxll.Mng.Bid.{Bid}
use foxxll.Mng.DiskAllocator.{Allocator, done, throws}
use foxxll.Mng.DiskAllocator.NewBlocks as NewBlocks
use foxxll.Mng.DiskAllocator.NewBlocks.{Outcome}
use foxxll.Mng.BlockManager.{
  Manager, Result, assign_disks, collect, allocate_on, go_on, allocate_disks, update_maximum,
  new_blocks,
}
use foxxll.Mng.BlockManager.OneDisk.{
  Served, Round, get_elem?-below, go_on-done, allocate_on-Round, allocate_on-none,
}

-- The disks of [d, d + n) are served, and the others and their blocks are left alone.
record Loop (d n : ℕ) (chosen : List ℕ) (bids bids' : List Bid) (m m' : Manager) : Type 0 where
  below_keep : (e : ℕ) → e < d → get_elem? m'.block_allocators e ≡ get_elem? m.block_allocators e
  below_blocks : (e : ℕ) → e < d → collect e chosen bids' ≡ collect e chosen bids
  served :
      (e : ℕ) (a : Allocator)
      → d ≤ e
      → e < d + n
      → get_elem? m.block_allocators e ≡ some a
      → (a' : Allocator) × (get_elem? m'.block_allocators e ≡ some a')
        × Served e chosen bids a a' bids'

Served-blocks :
    (e : ℕ) (chosen : List ℕ) (b1 bids b2 bids' : List Bid) (a a' : Allocator)
    → collect e chosen b1 ≡ collect e chosen bids
    → collect e chosen bids' ≡ collect e chosen b2
    → Served e chosen b1 a a' b2
    → Served e chosen bids a a' bids'
Served-blocks e chosen b1 bids b2 bids' a a' p q (inl (r, s, t)) = inl (sym p ∙ r, s, q ∙ t)
Served-blocks e chosen b1 bids b2 bids' a a' p q (inr (placed, s, t)) =
    inr (placed, ap (λ (x : List Bid). NewBlocks.new_blocks x a) (sym p) ∙ s, q ∙ t)

order_cases : (d e : ℕ) → d ≤ e → (e ≡ d) ⊎ (d + 1 ≤ e)
order_cases d e h = ground arith

module _ (chosen : List ℕ) where
  skipped :
      (d n : ℕ) (bids bids' : List Bid) (m m' : Manager)
      → get_elem? m.block_allocators d ≡ none
      → Loop (d + 1) n chosen bids bids' m m'
      → Loop d (suc n) chosen bids bids' m m'
  skipped d n bids bids' m m' g l = record {
    below_keep = λ e h. l.below_keep e (omega (arith, h));
    below_blocks = λ e h. l.below_blocks e (omega (arith, h));
    served = λ e a h k f. elim (order_cases d e h) [
      | inl s ↦ absurd (
          none-ne-some
            (sym (subst (λ (x : ℕ). get_elem? m.block_allocators x ≡ none) (sym s) g) ∙ f))
      | inr s ↦ l.served e a s (omega (arith, k)) f
    ];
  }

  stepped :
      (d n : ℕ) (a : Allocator) (bids b1 bids' : List Bid) (m m1 m' : Manager)
      → get_elem? m.block_allocators d ≡ some a
      → Round d chosen a bids b1 m m1
      → Loop (d + 1) n chosen b1 bids' m1 m'
      → Loop d (suc n) chosen bids bids' m m'
  stepped d n a bids b1 bids' m m1 m' g r l = record {
    below_keep =
        λ e h. l.below_keep e (omega (arith, h)) ∙ r.others_keep e (λ s. omega (arith, h, s));
    below_blocks =
        λ e h. l.below_blocks e (omega (arith, h)) ∙ r.others_blocks e (λ s. omega (arith, h, s));
    served = λ e c h k f. elim (order_cases d e h) [
      | inl s ↦ at_d e c s f
      | inr s ↦
          let (x, y, z) =
            l.served e c s (omega (arith, k)) (r.others_keep e (λ t. omega (arith, s, t)) ∙ f) in
          (
            x,
            y,
            Served-blocks e chosen b1 bids bids' bids' c x
                (r.others_blocks e (λ t. omega (arith, s, t))) refl z,
          )
    ];
  }
    where
      same_some : (x y : Allocator) → (o : Option Allocator) → o ≡ some x → o ≡ some y → x ≡ y
      same_some x y o p q = cc

      at_d :
          (e : ℕ) (c : Allocator)
          → e ≡ d
          → get_elem? m.block_allocators e ≡ some c
          → (a' : Allocator) × (get_elem? m'.block_allocators e ≡ some a')
            × Served e chosen bids c a' bids'
      at_d e c s f =
          let (x, y, z) = r.served in
          let same : a ≡ c =
            same_some a c (get_elem? m.block_allocators d) g
              (subst (λ (t : ℕ). get_elem? m.block_allocators t ≡ some c) s f) in
          rw (s, ← same)
            (
              x,
              l.below_keep d (omega arith) ∙ y,
              Served-blocks d chosen bids bids b1 bids' a x refl (l.below_blocks d (omega arith)) z,
            )

  allocate_disks-Loop :
      (n d : ℕ) (bids bids' : List Bid) (m m' : Manager)
      → allocate_disks n d chosen bids m ≡ (done, m', bids')
      → Loop d n chosen bids bids' m m'
  unfolding allocate_disks go_on
  allocate_disks-Loop zero d bids bids' m m' e =
      rw (← ap (λ (r : Result). r.1) e, ← ap (λ (r : Result). r.2) e)
        (record {
          below_keep = λ k h. refl;
          below_blocks = λ k h. refl;
          served = λ k a h l. absurd (omega (arith, h, l));
        })
  allocate_disks-Loop (suc n) d bids bids' m m' e =
      elim (Option-cases (get_elem? m.block_allocators d)) [
        | inl g ↦
            let nothing =
              ap (λ (o : Option Allocator). allocate_on o d chosen (collect d chosen bids) bids m) g
              ∙ allocate_on-none d chosen (collect d chosen bids) bids m in
            let e' : allocate_disks n (d + 1) chosen bids m ≡ (done, m', bids') =
              sym (ap (go_on (λ x y. allocate_disks n (d + 1) chosen y x)) nothing) ∙ e in
            skipped d n bids bids' m m' g (allocate_disks-Loop n (d + 1) bids bids' m m' e')
        | inr (a, g) ↦
            let (m1, b1, s, t) =
              go_on-done (λ x y. allocate_disks n (d + 1) chosen y x) _ m' bids' e in
            stepped d n a bids b1 bids' m m1 m' g
              (allocate_on-Round d chosen (collect d chosen bids) bids m a m1 b1 g refl (
                subst
                  (λ (o : Option Allocator).
                    allocate_on o d chosen (collect d chosen bids) bids m ≡ (done, m1, b1))
                  g s))
              (allocate_disks-Loop n (d + 1) b1 bids' m1 m' t)
      ]

update_maximum-done :
    (r : Result) (m' : Manager) (bids' : List Bid)
    → update_maximum r ≡ (done, m', bids')
    → (m1 : Manager) × (r ≡ (done, m1, bids')) × (m'.block_allocators ≡ m1.block_allocators)
unfolding update_maximum
update_maximum-done (done, m, bids) m' bids' e =
    (m, ap (λ (x : Result). (done, m, x.2)) e, ap (λ (x : Result). (x.1).block_allocators) (sym e))
update_maximum-done (throws x, m, bids) m' bids' e = cc

-- When `new_blocks` of the manager ends normally: on each disk, either no block was assigned to it
-- and its allocator is as before, or one call of its allocator has placed exactly the blocks of the
-- range that were assigned to it, and the result holds these blocks at the same places, with the
-- offsets that the allocator gave and the file of that disk.
pub new_blocks-Served :
    (functor : ℕ → ℕ) (offset : ℕ) (bids : List Bid) (m m' : Manager) (bids' : List Bid)
    → new_blocks functor offset bids m ≡ (done, m', bids')
    → (d : ℕ) (a : Allocator) → get_elem? m.block_allocators d ≡ some a
    → (a' : Allocator) × (get_elem? m'.block_allocators d ≡ some a')
      × Served d
          (assign_disks functor m.block_allocators offset bids
            (replicate (length m.block_allocators) 0))
          bids
          a
          a'
          bids'
unfolding new_blocks
new_blocks-Served functor offset bids m m' bids' e d a g =
    let chosen =
      assign_disks functor m.block_allocators offset bids
        (replicate (length m.block_allocators) 0) in
    let (m1, r, same) =
      update_maximum-done (allocate_disks (length m.block_allocators) 0 chosen bids m) m' bids' e in
    let l = allocate_disks-Loop chosen (length m.block_allocators) 0 bids bids' m m1 r in
    let (a', f, s) =
      l.served d a (omega arith) (omega (arith, get_elem?-below m.block_allocators d a g)) g in
    (a', ap (λ (x : List Allocator). get_elem? x d) same ∙ f, s)
