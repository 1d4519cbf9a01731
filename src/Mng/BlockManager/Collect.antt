-- ===== src/Mng/BlockManager/Collect.antt =====
-- Collecting the blocks of a disk from the range and distributing them back (`new_blocks` of
-- foxxll/mng/block_manager.hpp, lines 222-239).
use foxxll.Prelude.{
  ℕ, ◌≡◌, ◌≢◌, refl, ap, true, false, Bool-cases, inl, inr, List, [], ◌∷◌, arith, ◌==◌, length,
  if◌then◌else◌,
}
use foxxll.Mng.Bid.{Bid}
use foxxll.Mng.DiskAllocator.Carve.{SameBlocks}
use foxxll.Mng.BlockManager.{collect, pick, distribute, set_storage}

pub collect-distribute_self :
    (d : ℕ) (chosen : List ℕ) (bids placed : List Bid)
    → length placed ≡ length (collect d chosen bids)
    → collect d chosen (distribute d chosen bids placed) ≡ placed
unfolding collect distribute pick
collect-distribute_self d [] bids [] h = refl
collect-distribute_self d [] bids (p ∷ placed) h = absurd (omega (arith, h))
collect-distribute_self d (c ∷ chosen) [] [] h = refl
collect-distribute_self d (c ∷ chosen) [] (p ∷ placed) h = absurd (omega (arith, h))
collect-distribute_self d (c ∷ chosen) (b ∷ bids) [] h = elim (Bool-cases (c == d)) [
  | inl y ↦ absurd (ground (arith, y, h))
  | inr f ↦ rw f (collect-distribute_self d chosen bids [] (ground (arith, f, h)))
]
collect-distribute_self d (c ∷ chosen) (b ∷ bids) (p ∷ placed) h = elim (Bool-cases (c == d)) [
  | inl y ↦ rw y (
      ap (λ (xs : List Bid). p ∷ xs)
        (collect-distribute_self d chosen bids placed (ground (arith, y, h))))
  | inr f ↦ rw f (collect-distribute_self d chosen bids (p ∷ placed) (ground (arith, f, h)))
]

pub collect-distribute_ne :
    (e d : ℕ) (chosen : List ℕ) (bids placed : List Bid)
    → e ≢ d
    → collect e chosen (distribute d chosen bids placed) ≡ collect e chosen bids
unfolding collect distribute pick
collect-distribute_ne e d [] bids placed n = refl
collect-distribute_ne e d (c ∷ chosen) [] placed n = refl
collect-distribute_ne e d (c ∷ chosen) (b ∷ bids) placed n = elim (Bool-cases (c == d)) [
  | inl y ↦
      let other : (c == e) ≡ false = ground (arith, n, y) in
      rw (y, other) (collect-distribute_ne e d chosen bids ((pick true b placed).1) n)
  | inr f ↦ rw f (
      ap (λ (xs : List Bid). if c == e then b ∷ xs else xs)
        (collect-distribute_ne e d chosen bids placed n))
]

pub length-set_storage : (d : ℕ) (bs : List Bid) → length (set_storage d bs) ≡ length bs
unfolding set_storage
length-set_storage d [] = refl
length-set_storage d (b ∷ bs) = omega (arith, length-set_storage d bs)

pub SameBlocks-length : (bs cs : List Bid) → SameBlocks bs cs → length bs ≡ length cs
SameBlocks-length [] [] s = refl
SameBlocks-length [] (c ∷ cs) s = absurd s
SameBlocks-length (b ∷ bs) [] s = absurd s
SameBlocks-length (b ∷ bs) (c ∷ cs) s = omega (arith, SameBlocks-length bs cs (s.2))
