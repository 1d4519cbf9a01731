-- ===== src/Mng/BlockManager/Releases.antt =====
-- The current allocation of `block_manager` (foxxll/mng/block_manager.hpp) when blocks are deleted.
use foxxll.Prelude.{
  ℕ, zero, suc, ◌+◌, ◌-◌, ◌≤◌, ◌<◌, ◌≡◌, ◌∙◌, sym, subst, refl, ap, false, Bool-cases, inl, inr,
  List, [], ◌∷◌, ◌++◌, Option, none, some, arith, ◌==◌, length, length-set, get_elem?, u64_mod,
}
use mathlib.Core.List.{append_assoc, append-nil}
use foxxll.Mng.Bid.{Bid, valid}
use foxxll.Mng.DiskAllocator.{Allocator, Status, done, throws}
use foxxll.Mng.DiskAllocator as DiskAllocator
use foxxll.Mng.DiskAllocator.Carve.{sizes}
use foxxll.Mng.BlockManager.{
  Manager, new_blocks, release, delete_on, delete_block, then_delete, delete_blocks,
}
use foxxll.Mng.BlockManager.Accounts.{new_blocks-Accounted}

-- Blocks on the files of the first `n` disks.
abbrev pub Managed : ℕ → List Bid → Type 0
Managed n [] = Unit {0}
Managed n (b ∷ bids) = (0 < b.storage) × (b.storage ≤ n) × Managed n bids

-- What the deletion of so many blocks takes off the current allocation.
abbrev pub claimed : ℕ → List Bid → ℕ
claimed block_size [] = 0
claimed block_size (b ∷ bids) = block_size + claimed block_size bids

-- One deletion that ended normally.
record Deletes (taken : ℕ) (b : Bid) (m m' : Manager) : Type 0 where
  current : m'.current_allocation + taken ≡ m.current_allocation
  disks : length m'.block_allocators ≡ length m.block_allocators
  discards : m'.discards ≡ m.discards ++ b ∷ []

release-Deletes :
    (s : ℕ) (b : Bid) (d : ℕ) (r : Status × Allocator) (m m' : Manager)
    → s ≤ m.current_allocation
    → m.current_allocation < u64_mod
    → release s b d r m ≡ (done, m')
    → Deletes s b m m'
unfolding release
release-Deletes s b d (done, a) m m' h k e = rw (← ap (λ (x : Status × Manager). x.1) e) (record {
  current = omega (arith, h, k);
  disks = length-set m.block_allocators d a;
  discards = refl;
})
release-Deletes s b d (throws x, a) m m' h k e = cc

delete_on-Deletes :
    (s : ℕ) (b : Bid) (m m' : Manager) (d : ℕ) (o : Option Allocator)
    → get_elem? m.block_allocators d ≡ o
    → d < length m.block_allocators
    → s ≤ m.current_allocation
    → m.current_allocation < u64_mod
    → delete_on s b d o m ≡ (done, m')
    → Deletes s b m m'
unfolding delete_on
delete_on-Deletes s b m m' d (some a) g l h k e =
    release-Deletes s b d (DiskAllocator.delete_block b a) m m' h k e
delete_on-Deletes s b m m' d none g l h k e = absurd (in_range m.block_allocators d l g)
  where
    in_range : (xs : List Allocator) (i : ℕ) → i < length xs → get_elem? xs i ≡ none → ⊥
    in_range [] i u v = omega (arith, u)
    in_range (x ∷ xs) zero u v = cc
    in_range (x ∷ xs) (suc i) u v = in_range xs i (omega (arith, u)) v

delete_block-Deletes :
    (s : ℕ) (b : Bid) (m m' : Manager)
    → 0 < b.storage
    → b.storage ≤ length m.block_allocators
    → s ≤ m.current_allocation
    → m.current_allocation < u64_mod
    → delete_block s b m ≡ (done, m')
    → Deletes s b m m'
unfolding delete_block valid
delete_block-Deletes s b m m' p q h k e =
    let nonzero : (b.storage == 0) ≡ false = ground (arith, p) in
    let o = get_elem? m.block_allocators (b.storage - 1) in
    let e' : delete_on s b (b.storage - 1) o m ≡ (done, m') = ground (arith, nonzero, e) in
    delete_on-Deletes s b m m' (b.storage - 1) o refl (omega (arith, p, q)) h k e'

then_delete-done :
    (f : Manager → Status × Manager) (r : Status × Manager) (m' : Manager)
    → then_delete f r ≡ (done, m')
    → (m1 : Manager) × (r ≡ (done, m1)) × (f m1 ≡ (done, m'))
unfolding then_delete
then_delete-done f (done, m) m' e = (m, refl, e)
then_delete-done f (throws x, m) m' e = cc

-- When the deletion of blocks of the manager's disks ends normally, with a current allocation that
-- covers them: it falls by `BlockSize` for each, and every block is discarded in its file, in order.
pub delete_blocks-current :
    (block_size : ℕ) (bids : List Bid) (m m' : Manager)
    → Managed (length m.block_allocators) bids
    → claimed block_size bids ≤ m.current_allocation
    → m.current_allocation < u64_mod
    → delete_blocks block_size bids m ≡ (done, m')
    → (m'.current_allocation + claimed block_size bids ≡ m.current_allocation)
      × (m'.discards ≡ m.discards ++ bids)
unfolding delete_blocks
delete_blocks-current s [] m m' g h k e =
    rw (← ap (λ (x : Status × Manager). x.1) e) (omega arith, simp append-nil)
delete_blocks-current s (b ∷ bids) m m' g h k e =
    let (m1, e1, e2) = then_delete-done (delete_blocks s bids) (delete_block s b m) m' e in
    let d = delete_block-Deletes s b m m1 (g.0) (g.1) (omega (arith, h)) k e1 in
    let (c, x) =
      delete_blocks-current s bids m1 m' (subst (λ (n : ℕ). Managed n bids) (sym d.disks) (g.2))
        (omega (arith, h, d.current)) (omega (arith, k, d.current)) e2 in
    (omega (arith, c, d.current), x ∙ rw d.discards (simp append_assoc))

release_zero :
    (b : Bid) (d : ℕ) (r : Status × Allocator) (m : Manager)
    → m.current_allocation < u64_mod
    → ((release 0 b d r m).1).current_allocation ≡ m.current_allocation
unfolding release
release_zero b d (done, a) m h = omega (arith, h)
release_zero b d (throws x, a) m h = refl

delete_on_zero :
    (b : Bid) (d : ℕ) (o : Option Allocator) (m : Manager)
    → m.current_allocation < u64_mod
    → ((delete_on 0 b d o m).1).current_allocation ≡ m.current_allocation
unfolding delete_on
delete_on_zero b d (some a) m h = release_zero b d (DiskAllocator.delete_block b a) m h
delete_on_zero b d none m h = refl

delete_block_zero :
    (b : Bid) (m : Manager)
    → m.current_allocation < u64_mod
    → ((delete_block 0 b m).1).current_allocation ≡ m.current_allocation
unfolding delete_block
delete_block_zero b m h = elim (Bool-cases (valid b)) [
  | inl y ↦
      rw y (delete_on_zero b (b.storage - 1) (get_elem? m.block_allocators (b.storage - 1)) m h)
  | inr f ↦ rw f refl
]

then_delete_zero :
    (bids : List Bid) (r : Status × Manager)
    → ((m : Manager)
        → m.current_allocation < u64_mod
        → ((delete_blocks 0 bids m).1).current_allocation ≡ m.current_allocation)
    → (r.1).current_allocation < u64_mod
    → ((then_delete (delete_blocks 0 bids) r).1).current_allocation ≡ (r.1).current_allocation
unfolding then_delete
then_delete_zero bids (done, m) f h = f m h
then_delete_zero bids (throws x, m) f h = refl

delete_blocks_zero :
    (bids : List Bid) (m : Manager)
    → m.current_allocation < u64_mod
    → ((delete_blocks 0 bids m).1).current_allocation ≡ m.current_allocation
unfolding delete_blocks
delete_blocks_zero [] m h = refl
delete_blocks_zero (b ∷ bids) m h =
    let one = delete_block_zero b m h in
    then_delete_zero bids (delete_block 0 b m) (delete_blocks_zero bids) (omega (arith, one, h))
    ∙ one

-- For `BID<0>`, whose blocks have a size of their own: after a range is allocated and all of it
-- deleted again, however the deletion ends, the current allocation still counts all of its bytes.
pub new_blocks-delete_blocks_zero :
    (functor : ℕ → ℕ) (offset : ℕ) (bids : List Bid) (m m' : Manager) (bids' : List Bid)
    → ((k : ℕ) → functor k < length m.block_allocators)
    → m.current_allocation ≤ m.total_allocation
    → m.total_allocation + sizes bids < u64_mod
    → new_blocks functor offset bids m ≡ (done, m', bids')
    → ((delete_blocks 0 bids' m').1).current_allocation ≡ m.current_allocation + sizes bids
new_blocks-delete_blocks_zero functor offset bids m m' bids' f l h e =
    let a = new_blocks-Accounted functor offset bids m m' bids' f l h e in
    delete_blocks_zero bids' m' (omega (arith, a.current, l, h)) ∙ a.current
