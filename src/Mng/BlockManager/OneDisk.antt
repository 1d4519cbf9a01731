-- ===== src/Mng/BlockManager/OneDisk.antt =====
-- One round of the second loop of `block_manager::new_blocks` (foxxll/mng/block_manager.hpp, lines
-- 221-245).
use foxxll.Prelude.{
  ℕ, zero, suc, ◌<◌, ◌≡◌, ◌≢◌, sym, subst, refl, ap, inl, inr, ◌⊎◌, List, [], ◌∷◌, none, some,
  arith, length, get_elem?, get_elem?-set_self, get_elem?-set_ne,
}
use foxxll.Mng.Bid.{Bid}
use foxxll.Mng.DiskAllocator.{Allocator, done, throws}
use foxxll.Mng.DiskAllocator.NewBlocks as NewBlocks
use foxxll.Mng.DiskAllocator.NewBlocks.{Outcome}
use foxxll.Mng.DiskAllocator.Carve.{SameBlocks}
use foxxll.Mng.DiskAllocator.Same.{new_blocks-SameBlocks}
use foxxll.Mng.BlockManager.Collect.{
  collect-distribute_self, collect-distribute_ne, length-set_storage, SameBlocks-length,
}
use foxxll.Mng.BlockManager.{Manager, Result, collect, set_storage, store_disk, allocate_on, go_on}

-- On disk `d` nothing was wanted, or its allocator has placed the blocks that were, and the range
-- holds them, in their order, with the file of the disk.
abbrev pub Served : ℕ → List ℕ → List Bid → Allocator → Allocator → List Bid → Type 0
Served d chosen bids a a' bids' =
    ((collect d chosen bids ≡ []) × (a' ≡ a) × (collect d chosen bids' ≡ []))
    ⊎ ((placed : List Bid) × (NewBlocks.new_blocks (collect d chosen bids) a ≡ (done, a', placed))
        × (collect d chosen bids' ≡ set_storage d placed))

-- One round of the loop that ended normally.
pub record Round (d : ℕ) (chosen : List ℕ) (a : Allocator) (bids bids' : List Bid) (m m' : Manager)
    : Type 0 where
  pub others_keep :
      (e : ℕ) → e ≢ d → get_elem? m'.block_allocators e ≡ get_elem? m.block_allocators e
  pub others_blocks : (e : ℕ) → e ≢ d → collect e chosen bids' ≡ collect e chosen bids
  pub served :
      (a' : Allocator) × (get_elem? m'.block_allocators d ≡ some a')
      × Served d chosen bids a a' bids'

pub get_elem?-below :
    (xs : List Allocator) (i : ℕ) (a : Allocator) → get_elem? xs i ≡ some a → i < length xs
get_elem?-below [] i a e = cc
get_elem?-below (x ∷ xs) zero a e = omega arith
get_elem?-below (x ∷ xs) (suc i) a e = omega (arith, get_elem?-below xs i a e)

pub go_on-done :
    (f : Manager → List Bid → Result) (r : Result) (m' : Manager) (bids' : List Bid)
    → go_on f r ≡ (done, m', bids')
    → (m1 : Manager) × (b1 : List Bid) × (r ≡ (done, m1, b1)) × (f m1 b1 ≡ (done, m', bids'))
unfolding go_on
go_on-done f (done, m, bids) m' bids' e = (m, bids, refl, e)
go_on-done f (throws x, m, bids) m' bids' e = cc

store-Round :
    (d : ℕ) (chosen : List ℕ) (bids : List Bid) (m : Manager) (a : Allocator) (o : Outcome)
    (m' : Manager) (bids' : List Bid)
    → get_elem? m.block_allocators d ≡ some a
    → NewBlocks.new_blocks (collect d chosen bids) a ≡ o
    → store_disk d chosen bids m o ≡ (done, m', bids')
    → Round d chosen a bids bids' m m'
unfolding store_disk
store-Round d chosen bids m a (done, x, placed) m' bids' g o e =
    let em = ap (λ (r : Result). r.1) e in
    let eb = ap (λ (r : Result). r.2) e in
    let kept : SameBlocks (collect d chosen bids) placed =
      subst (λ (r : Outcome). SameBlocks (collect d chosen bids) (r.2)) o
        (new_blocks-SameBlocks (collect d chosen bids) a) in
    rw (← em, ← eb)
      (record {
        others_keep = λ k n. get_elem?-set_ne m.block_allocators x (λ h. n (sym h));
        others_blocks = λ k n. collect-distribute_ne k d chosen bids (set_storage d placed) n;
        served = (
          x,
          get_elem?-set_self m.block_allocators d x (get_elem?-below m.block_allocators d a g),
          inr (
            placed,
            o,
            collect-distribute_self d chosen bids (set_storage d placed) (
                omega (
                  arith,
                  length-set_storage d placed,
                  SameBlocks-length (collect d chosen bids) placed kept,
                )),
          ),
        );
      })
store-Round d chosen bids m a (throws x, y, z) m' bids' g o e = cc

pub allocate_on-Round :
    (d : ℕ) (chosen : List ℕ) (mine bids : List Bid) (m : Manager) (a : Allocator) (m' : Manager)
    (bids' : List Bid)
    → get_elem? m.block_allocators d ≡ some a
    → collect d chosen bids ≡ mine
    → allocate_on (some a) d chosen mine bids m ≡ (done, m', bids')
    → Round d chosen a bids bids' m m'
unfolding allocate_on
allocate_on-Round d chosen (b ∷ mine) bids m a m' bids' g c e =
    store-Round d chosen bids m a (NewBlocks.new_blocks (b ∷ mine) a) m' bids' g
      (ap (λ (x : List Bid). NewBlocks.new_blocks x a) c) e
allocate_on-Round d chosen [] bids m a m' bids' g c e =
    rw (← ap (λ (r : Result). r.1) e, ← ap (λ (r : Result). r.2) e)
      (record {
        others_keep = λ k n. refl;
        others_blocks = λ k n. refl;
        served = (a, g, inl (c, refl, c));
      })

pub allocate_on-none :
    (d : ℕ) (chosen : List ℕ) (mine bids : List Bid) (m : Manager)
    → allocate_on none d chosen mine bids m ≡ (done, m, bids)
unfolding allocate_on
allocate_on-none d chosen [] bids m = refl
allocate_on-none d chosen (b ∷ mine) bids m = refl
