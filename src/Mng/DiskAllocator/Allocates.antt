-- ===== src/Mng/DiskAllocator/Allocates.antt =====
-- All steps of `new_blocks` of foxxll/mng/disk_block_allocator.hpp together, on any free space.
use foxxll.Prelude.{
  ℕ, zero, suc, ◌+◌, ◌-◌, ◌≤◌, ◌<◌, ◌≡◌, ◌≢◌, refl, ◌∙◌, sym, true, false, List, [], ◌∷◌, none,
  arith, ltb, leb, Bool-cases, Option-cases, none-ne-some, inl, inr, length,
}
use foxxll.Mng.DiskAllocator.FreeSpace.{Place, first_fit}
use foxxll.Mng.DiskAllocator.FreeSpace.Regions.{inside, regions_at, Fits, regions_at-below}
use foxxll.Mng.Bid.{Bid}
use foxxll.Mng.DiskAllocator.{Allocator}
use foxxll.Mng.DiskAllocator.NewBlocks.{
  Outcome, ensure_free, grow_for_one, set_offsets, shrink_region, carve, place_blocks, place_at,
  grow_unless, proceed, attempt, new_blocks_fuel,
}
use foxxll.Mng.DiskAllocator.Valid.{IsValid, Grown, grow_file-Grows, free-le-disk}
use foxxll.Mng.DiskAllocator.Carve.{
  sizes, requested_size-eq, set_offsets-SameBlocks, blocks_at-set_offsets, Shrunk, first_fit-Shrunk,
}
use foxxll.Mng.DiskAllocator.Takes.{Success, Allocates, Covered, SameBlocks-sizes}
use foxxll.Mng.DiskAllocator.Halve.{Ready, halve-Allocates}
use foxxll.Mng.DiskAllocator.Prepare.{
  Prepared-refl, Grown-Prepared, Prepared-Allocates, none-Failure,
}

-- Regions that cover `s` bytes in a row hold them in one region.
first_fit-covered :
    (d s l u : ℕ) (m : List Place)
    → Fits l m u
    → 0 < s
    → ((x : ℕ) → d ≤ x → x < d + s → 0 < regions_at x m)
    → first_fit s m ≢ none
unfolding first_fit
first_fit-covered d s l u [] f pos all = absurd (omega (arith, all d (omega arith) (omega arith)))
first_fit-covered d s l u ((p, t) ∷ m) f pos all = elim (Bool-cases (leb s t)) [
  | inl e ↦ rw e (λ h. cc)
  | inr e ↦ rw e (
      first_fit-covered d s (suc (p + t)) u m f.3 pos λ x lo hi. ground (
        arith,
        all x lo hi,
        all d,
        all (p + t),
        regions_at-below d (suc (p + t)) u m f.3,
        regions_at-below (p + t) (suc (p + t)) u m f.3,
      ))
]

carve-Success :
    (bids : List Bid) (a : Allocator) (p s : ℕ)
    → IsValid a
    → sizes bids ≤ a.free_bytes
    → Shrunk 0 a.disk_bytes p
        (sizes bids)
        a.free_space
        (shrink_region (sizes bids) (p, s) a.free_space)
    → Success bids a 0 (carve (sizes bids) (p, s) bids a)
unfolding carve
carve-Success bids a p s v free w =
    let enough : leb (sizes bids) a.free_bytes ≡ true = ground arith in
    record {
      after = record a {
        free_space = shrink_region (sizes bids) (p, s) a.free_space;
        free_bytes = a.free_bytes - sizes bids;
      };
      placed = set_offsets p bids;
      result = rw enough;
      same = set_offsets-SameBlocks p bids;
      takes = record {
        valid = record {
          fits = w.fits;
          counted = omega (arith, w.total, v.counted, free);
          small = v.small;
        };
        growth = omega arith;
        covers = λ x.
            let nothing : inside x a.disk_bytes (a.disk_bytes - a.disk_bytes) ≡ 0 = ground arith in
            omega (
              arith,
              w.covers x,
              nothing,
              blocks_at-set_offsets x p bids (omega (arith, w.within, v.small)),
            );
        bytes =
            let same : sizes (set_offsets p bids) ≡ sizes bids =
              sym (SameBlocks-sizes bids _ (set_offsets-SameBlocks p bids)) in
            omega (arith, free, same);
        device = refl;
        grows = refl;
      };
      bounded = omega arith;
    }

found-Success :
    (rec : List Bid → Allocator → Outcome) (bids : List Bid) (a : Allocator)
    → IsValid a
    → sizes bids ≤ a.free_bytes
    → first_fit (sizes bids) a.free_space ≢ none
    → Success bids a 0 (place_blocks rec bids a)
unfolding place_blocks place_at
found-Success rec bids a v free there =
    let exact = requested_size-eq bids (omega (arith, free-le-disk a v, v.small)) in
    rw (exact, place_blocks)
      (elim (first_fit-Shrunk 0 a.disk_bytes (sizes bids) a.free_space v.small v.fits) [
        | inr (p, s, found, fit, below, w) ↦ rw found (carve-Success bids a p s v free w)
        | inl missing ↦ absurd (there missing)
      ])

-- A range of two blocks or more is placed whole, or in halves.
long-Allocates :
    (n : ℕ) (rec : List Bid → Allocator → Outcome) (bids : List Bid) (a : Allocator)
    → Ready n rec
    → length bids ≤ suc n
    → Covered bids a
    → 1 < length bids
    → Allocates bids a (sizes bids) (place_blocks rec bids a)
unfolding place_blocks place_at
long-Allocates n rec bids a ready fuel c long =
    let exact = requested_size-eq bids (omega (arith, c.room)) in
    rw (exact, place_blocks)
      (elim (first_fit-Shrunk 0 a.disk_bytes (sizes bids) a.free_space c.valid.small c.valid.fits) [
        | inr (p, s, found, fit, below, w) ↦ rw found (
            Prepared-Allocates bids a a 0 (sizes bids) _ (Prepared-refl bids a c.valid)
              (omega arith) (inl (carve-Success bids a p s c.valid c.free w)))
        | inl missing ↦ rw missing (halve-Allocates n rec bids a ready fuel long c)
      ])

-- The new bytes hold a block of their number.
Grown-first_fit : (n : ℕ) (a b : Allocator) → 0 < n → Grown n a b → first_fit n b.free_space ≢ none
Grown-first_fit n a b pos g =
    first_fit-covered a.disk_bytes n 0 b.disk_bytes b.free_space g.valid.fits pos
      λ x lo hi. ground (arith, g.covers x)

one-Allocates :
    (rec : List Bid → Allocator → Outcome) (b : Bid) (a : Allocator)
    → Covered (b ∷ []) a
    → Allocates
        (b ∷ [])
        a
        (sizes (b ∷ []))
        (proceed (b ∷ []) (place_blocks rec (b ∷ [])) (grow_for_one (b ∷ []) a))
unfolding proceed grow_for_one grow_unless
one-Allocates rec b a c =
    let bids = b ∷ [] in
    let single : sizes bids ≡ b.size = omega arith in
    let exact = requested_size-eq bids (omega (arith, c.room)) in
    rw (exact, grow_for_one)
      (elim (Option-cases (first_fit (sizes bids) a.free_space)) [
        | inr (space, e) ↦ rw e (
            Prepared-Allocates bids a a 0 (sizes bids) _ (Prepared-refl bids a c.valid)
              (omega arith)
              (inl (found-Success rec bids a c.valid c.free (λ h. none-ne-some (sym h ∙ e)))))
        | inl e ↦ rw e (elim (grow_file-Grows b.size a c.valid (omega (arith, c.room))) [
          | inl (refuses, r) ↦ rw r (inr (none-Failure bids a _ c.valid refuses))
          | inr (a', r, g) ↦ rw r (
              Prepared-Allocates bids a a' 0 (sizes bids) _
                (Grown-Prepared b.size bids a a' (omega arith) g) (omega (arith, g.disk))
                (inl (
                  found-Success rec bids a' g.valid (omega (arith, g.frees, c.free))
                    (rw single (Grown-first_fit b.size a a' c.positive.0 g)))))
        ])
      ])

-- After the first test: the free bytes cover the request.
pub Covered-Allocates :
    (n : ℕ) (rec : List Bid → Allocator → Outcome) (bids : List Bid) (a : Allocator)
    → Ready n rec
    → length bids ≤ suc n
    → Covered bids a
    → Allocates bids a (sizes bids) (proceed bids (place_blocks rec bids) (grow_for_one bids a))
unfolding proceed grow_for_one
Covered-Allocates n rec [] a ready fuel c = absurd (omega (arith, c.nonempty))
Covered-Allocates n rec (b ∷ []) a ready fuel c = one-Allocates rec b a c
Covered-Allocates n rec (b ∷ d ∷ bids) a ready fuel c =
    long-Allocates n rec (b ∷ d ∷ bids) a ready fuel c (omega arith)

-- The free bytes do not cover the request, and the first test has made room or has thrown.
attempt-Allocates :
    (n : ℕ) (rec : List Bid → Allocator → Outcome) (bids : List Bid) (a : Allocator)
    → Ready n rec
    → length bids ≤ suc n
    → Covered bids a
    → Allocates bids a (sizes bids) (attempt rec bids a)
unfolding attempt ensure_free proceed
attempt-Allocates n rec bids a ready fuel c =
    let exact = requested_size-eq bids (omega (arith, c.room)) in
    let enough : ltb a.free_bytes (sizes bids) ≡ false = let h = c.free in ground arith in
    rw (exact, enough) (Covered-Allocates n rec bids a ready fuel c)

-- By induction on the fuel, which bounds the length of the range.
pub new_blocks_fuel-Allocates :
    (n : ℕ) (bids : List Bid) (a : Allocator)
    → length bids ≤ n
    → Covered bids a
    → Allocates bids a (sizes bids) (new_blocks_fuel n bids a)
unfolding new_blocks_fuel
new_blocks_fuel-Allocates zero bids a fuel c = absurd (omega (arith, c.nonempty))
new_blocks_fuel-Allocates (suc n) bids a fuel c =
    attempt-Allocates n (new_blocks_fuel n) bids a
      (λ bs b short d. new_blocks_fuel-Allocates n bs b short d) fuel c
