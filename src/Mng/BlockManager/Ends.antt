-- ===== src/Mng/BlockManager/Ends.antt =====
-- How `block_manager::new_blocks` (foxxll/mng/block_manager.hpp) ends, by what its disks can take.
use foxxll.Prelude.{
  ℕ, zero, suc, ◌+◌, ◌≤◌, ◌<◌, ◌≡◌, ◌≢◌, ◌∙◌, sym, subst, refl, ap, true, inl, inr, ◌⊎◌, List, [],
  ◌∷◌, Option, none, some, arith, length, get_elem?, replicate,
}
use foxxll.Mng.Bid.{Bid}
use foxxll.Mng.DiskAllocator.{Allocator, done}
use foxxll.Mng.DiskAllocator.NewBlocks as NewBlocks
use foxxll.Mng.DiskAllocator.NewBlocks.{Outcome}
use foxxll.Mng.DiskAllocator.Carve.{sizes}
use foxxll.Mng.DiskAllocator.Promise.{Request, new_blocks-Success}
use foxxll.Mng.BlockManager.OneDisk.{allocate_on-Round, allocate_on-none}
use foxxll.Mng.BlockManager.{
  Manager, Result, assign_disks, collect, store_disk, allocate_on, go_on, allocate_disks,
  update_maximum, new_blocks,
}

-- What a disk needs for these blocks: it is in order, has the bytes or may grow, and its device takes
-- every size.
pub record Servable (bids : List Bid) (a : Allocator) : Type 0 where
  pub request : Request bids a
  pub enough : (sizes bids ≤ a.free_bytes) ⊎ (a.autogrow ≡ true)
  pub device : (n : ℕ) → a.storage.accepts n ≡ true

-- Each disk of [d, d + n) has no block to take, or can take its blocks.
abbrev pub Ready : ℕ → ℕ → List ℕ → List Bid → Manager → Type 0
Ready n d chosen bids m =
    (e : ℕ) (a : Allocator)
    → d ≤ e
    → e < d + n
    → get_elem? m.block_allocators e ≡ some a
    → (collect e chosen bids ≡ []) ⊎ Servable (collect e chosen bids) a

abbrev Ends : Result → Type 0
Ends r = (m' : Manager) × (bids' : List Bid) × (r ≡ (done, m', bids'))

store_disk-Ends :
    (d : ℕ) (chosen : List ℕ) (bids mine : List Bid) (m : Manager) (a : Allocator)
    → Servable mine a
    → Ends (store_disk d chosen bids m (NewBlocks.new_blocks mine a))
unfolding store_disk
store_disk-Ends d chosen bids mine m a s =
    let w = new_blocks-Success mine a s.request s.enough s.device in
    subst (λ (o : Outcome). Ends (store_disk d chosen bids m o)) (sym w.result) (_, _, refl)

allocate_on-Ends :
    (d : ℕ) (chosen : List ℕ) (bids mine : List Bid) (m : Manager) (a : Allocator)
    → (mine ≡ []) ⊎ Servable mine a
    → Ends (allocate_on (some a) d chosen mine bids m)
unfolding allocate_on
allocate_on-Ends d chosen bids [] m a s = (m, bids, refl)
allocate_on-Ends d chosen bids (b ∷ mine) m a (inl e) = cc
allocate_on-Ends d chosen bids (b ∷ mine) m a (inr s) =
    store_disk-Ends d chosen bids (b ∷ mine) m a s

module _ (chosen : List ℕ) where
  first-Ends :
      (n d : ℕ) (bids : List Bid) (m : Manager) (o : Option Allocator)
      → get_elem? m.block_allocators d ≡ o
      → Ready (suc n) d chosen bids m
      → (m1 : Manager) × (b1 : List Bid) × (allocate_on o d chosen (collect d chosen bids) bids m
          ≡ (done, m1, b1))
        × Ready n (d + 1) chosen b1 m1
  first-Ends n d bids m none g r = (
    m,
    bids,
    allocate_on-none d chosen (collect d chosen bids) bids m,
    λ e a h k f. r e a (omega (arith, h)) (omega (arith, k)) f,
  )
  first-Ends n d bids m (some a) g r =
      let (m1, b1, e) =
        allocate_on-Ends d chosen bids (collect d chosen bids) m a
          (r d a (omega arith) (omega arith) g) in
      let o = allocate_on-Round d chosen (collect d chosen bids) bids m a m1 b1 g refl e in
      (
        m1,
        b1,
        e,
        λ k c h l f.
            let ne : k ≢ d = λ s. omega (arith, h, s) in
            subst (λ (x : List Bid). (x ≡ []) ⊎ Servable x c) (sym (o.others_blocks k ne))
              (r k c (omega (arith, h)) (omega (arith, l)) (sym (o.others_keep k ne) ∙ f)),
      )

  allocate_disks-Ends :
      (n d : ℕ) (bids : List Bid) (m : Manager)
      → Ready n d chosen bids m
      → Ends (allocate_disks n d chosen bids m)
  unfolding allocate_disks go_on
  allocate_disks-Ends zero d bids m r = (m, bids, refl)
  allocate_disks-Ends (suc n) d bids m r =
      let (m1, b1, e, r1) = first-Ends n d bids m (get_elem? m.block_allocators d) refl r in
      let (m', b', f) = allocate_disks-Ends n (d + 1) b1 m1 r1 in
      (m', b', ap (go_on (λ x y. allocate_disks n (d + 1) chosen y x)) e ∙ f)

-- Where every disk that a block is assigned to is in order and has the bytes for its blocks or may
-- grow, on a device that takes every size, `new_blocks` of the manager ends normally.
pub new_blocks-Ends :
    (functor : ℕ → ℕ) (offset : ℕ) (bids : List Bid) (m : Manager)
    → Ready
        (length m.block_allocators)
        0
        (assign_disks functor m.block_allocators offset bids
          (replicate (length m.block_allocators) 0))
        bids
        m
    → (m' : Manager) × (bids' : List Bid) × (new_blocks functor offset bids m ≡ (done, m', bids'))
unfolding new_blocks update_maximum
new_blocks-Ends functor offset bids m r =
    let chosen =
      assign_disks functor m.block_allocators offset bids
        (replicate (length m.block_allocators) 0) in
    let (m', b', e) = allocate_disks-Ends chosen (length m.block_allocators) 0 bids m r in
    (_, _, ap update_maximum e)
