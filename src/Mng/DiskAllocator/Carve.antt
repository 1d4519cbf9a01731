-- ===== src/Mng/DiskAllocator/Carve.antt =====
-- Taking blocks out of a free region (`new_blocks` of foxxll/mng/disk_block_allocator.hpp): the
-- region found, what is left of it, and the offsets handed out.
use foxxll.Prelude.{
  ℕ, suc, ◌+◌, ◌-◌, ◌≤◌, ◌<◌, ◌≡◌, refl, ap, true, List, [], ◌∷◌, ◌++◌, none, some, arith, ltb, leb,
  ◌==◌, Bool-cases, inl, inr, ◌⊎◌, add64, u64_mod,
}
use foxxll.Mng.DiskAllocator.FreeSpace.{Place, assign, erase, first_fit}
use foxxll.Mng.DiskAllocator.FreeSpace.Regions.{
  inside, inside-split, regions_at, total_size, Fits, Fits-mono, assign-front,
}
use foxxll.Mng.Bid.{Bid}
use foxxll.Mng.DiskAllocator.NewBlocks.{requested_size, set_offsets, shrink_region}

abbrev pub blocks_at : ℕ → List Bid → ℕ
blocks_at x [] = 0
blocks_at x (b ∷ bids) = inside x b.offset b.size + blocks_at x bids

abbrev pub sizes : List Bid → ℕ
sizes [] = 0
sizes (b ∷ bids) = b.size + sizes bids

pub blocks_at-append :
    (x : ℕ) (bs cs : List Bid) → blocks_at x (bs ++ cs) ≡ blocks_at x bs + blocks_at x cs
blocks_at-append x [] cs = omega arith
blocks_at-append x (b ∷ bs) cs = omega (arith, blocks_at-append x bs cs)

pub sizes-append : (bs cs : List Bid) → sizes (bs ++ cs) ≡ sizes bs + sizes cs
sizes-append [] cs = omega arith
sizes-append (b ∷ bs) cs = omega (arith, sizes-append bs cs)

pub requested_size-eq : (bids : List Bid) → sizes bids < u64_mod → requested_size bids ≡ sizes bids
unfolding requested_size
requested_size-eq [] h = refl
requested_size-eq (b ∷ bids) h =
    let rest = requested_size-eq bids (omega arith) in omega (arith, rest)

-- Only offsets differ between the two ranges.
abbrev pub SameBlocks : List Bid → List Bid → Type 0
SameBlocks [] [] = Unit {0}
SameBlocks [] (c ∷ cs) = ⊥
SameBlocks (b ∷ bs) [] = ⊥
SameBlocks (b ∷ bs) (c ∷ cs) = (b.storage ≡ c.storage) × (b.size ≡ c.size) × SameBlocks bs cs

pub SameBlocks-refl : (bs : List Bid) → SameBlocks bs bs
SameBlocks-refl [] = tt
SameBlocks-refl (b ∷ bs) = (refl, refl, SameBlocks-refl bs)

pub set_offsets-SameBlocks : (p : ℕ) (bs : List Bid) → SameBlocks bs (set_offsets p bs)
unfolding set_offsets
set_offsets-SameBlocks p [] = tt
set_offsets-SameBlocks p (b ∷ bs) = (refl, refl, set_offsets-SameBlocks (add64 p b.size) bs)

-- The blocks lie end to end from `p` on.
pub blocks_at-set_offsets :
    (x p : ℕ) (bs : List Bid)
    → p + sizes bs < u64_mod
    → blocks_at x (set_offsets p bs) ≡ inside x p (sizes bs)
unfolding set_offsets
blocks_at-set_offsets x p [] h = ground arith
blocks_at-set_offsets x p (b ∷ bs) h =
    let exact : add64 p b.size ≡ p + b.size = omega arith in
    rw exact (
      omega (
        arith,
        blocks_at-set_offsets x (p + b.size) bs (omega arith),
        inside-split x p b.size (sizes bs),
      ))

-- What remains after `r` bytes were taken from the front of the region at `p`.
pub record Shrunk (l u p r : ℕ) (m m' : List Place) : Type 0 where
  pub fits : Fits l m' u
  pub covers : (x : ℕ) → regions_at x m' + inside x p r ≡ regions_at x m
  pub total : total_size m' + r ≡ total_size m
  pub start : l ≤ p
  pub within : p + r ≤ u

shrink-head :
    (l u r p s : ℕ) (m : List Place)
    → u < u64_mod
    → r ≤ s
    → Fits l ((p, s) ∷ m) u
    → Shrunk l u p r ((p, s) ∷ m) (shrink_region r (p, s) ((p, s) ∷ m))
unfolding shrink_region erase
shrink-head l u r p s m small h f = elim (Bool-cases (ltb r s)) [
  | inl e ↦
      let self : (p == p) ≡ true = ground arith in
      let exact : add64 p r ≡ p + r = omega arith in
      let front =
        assign-front (p + r) (s - r) u m
          (Fits-mono (suc (p + s)) (suc (p + r)) u u m (omega arith) (omega arith) f.3) in
      let left : r < s = ground arith in
      let back : p + r + (s - r) ≡ p + s = omega arith in
      let whole : r + (s - r) ≡ s = omega arith in
      rw (e, self, exact, front)
        (record {
          fits = (omega arith, omega arith, omega arith, rw back f.3);
          covers = λ x. omega (arith, inside-split x p r (s - r), ap (inside x p) whole);
          total = omega arith;
          start = f.0;
          within = omega arith;
        })
  | inr e ↦
      let self : (p == p) ≡ true = ground arith in
      let whole : r ≡ s = ground arith in
      rw (e, self)
        (record {
          fits = Fits-mono (suc (p + s)) l u u m (omega arith) (omega arith) f.3;
          covers = λ x. rw whole (omega arith);
          total = omega arith;
          start = f.0;
          within = omega arith;
        })
]

-- A region found further on leaves the head of the map alone.
shrink-tail :
    (r p s q t : ℕ) (m : List Place)
    → q < p
    → p + s < u64_mod
    → r ≤ s
    → shrink_region r (p, s) ((q, t) ∷ m) ≡ (q, t) ∷ shrink_region r (p, s) m
unfolding shrink_region erase assign
shrink-tail r p s q t m h small fit =
    let exact : add64 p r ≡ p + r = omega arith in rw exact (ground arith)

-- The first region that is large enough, and the map without its front.
pub first_fit-Shrunk :
    (l u r : ℕ) (m : List Place)
    → u < u64_mod
    → Fits l m u
    → (first_fit r m ≡ none)
      ⊎ ((p : ℕ) × (s : ℕ) × (first_fit r m ≡ some (p, s))
          × (r ≤ s)
          × (p + s ≤ u)
          × Shrunk l u p r m (shrink_region r (p, s) m))
unfolding first_fit
first_fit-Shrunk l u r [] small f = inl refl
first_fit-Shrunk l u r ((q, t) ∷ m) small f = elim (Bool-cases (leb r t)) [
  | inl e ↦ inr (q, t, rw e, ground arith, f.2, shrink-head l u r q t m small (ground arith) f)
  | inr e ↦ elim (first_fit-Shrunk (suc (q + t)) u r m small f.3) [
    | inl missing ↦ inl (rw e missing)
    | inr (p, s, found, fit, below, w) ↦ inr (
      p,
      s,
      rw e found,
      fit,
      below,
      rw (shrink-tail r p s q t m (omega (arith, w.start)) (omega arith) fit) (record {
        fits = (f.0, f.1, f.2, w.fits);
        covers = λ x. omega (arith, w.covers x);
        total = omega (arith, w.total);
        start = omega (arith, w.start);
        within = w.within;
      }),
    )
  ]
]
