-- ===== src/Mng/DiskAllocator/Prepare.antt =====
-- `grow_file` in `new_blocks` of foxxll/mng/disk_block_allocator.hpp: blocks taken after the disk grew.
use foxxll.Prelude.{
  ℕ, ◌+◌, ◌-◌, ◌≤◌, ◌≡◌, refl, ◌∙◌, ap, sym, Bool, false, List, [], arith, inl, inr,
}
use foxxll.Mng.DiskAllocator.FreeSpace.Regions.{inside, regions_at}
use foxxll.Mng.Bid.{Bid}
use foxxll.Mng.DiskAllocator.{Allocator, throws, io_error}
use foxxll.Mng.DiskAllocator.NewBlocks.{Outcome}
use foxxll.Mng.DiskAllocator.Valid.{IsValid, Grown}
use foxxll.Mng.DiskAllocator.Carve.{sizes}
use foxxll.Mng.DiskAllocator.Takes.{Takes, Takes-append, Failure, Allocates}

-- What `grow_for_one` leaves: a region for the range, or a range that can be halved.
pub record Prepared (bids : List Bid) (a b : Allocator) : Type 0 where
  pub valid : IsValid b
  pub growth : a.disk_bytes ≤ b.disk_bytes
  pub bounded : b.disk_bytes ≤ a.disk_bytes + sizes bids
  pub covers :
      (x : ℕ)
      → regions_at x b.free_space
        ≡ regions_at x a.free_space + inside x a.disk_bytes (b.disk_bytes - a.disk_bytes)
  pub frees : b.free_bytes ≡ a.free_bytes + (b.disk_bytes - a.disk_bytes)
  pub device : b.storage.accepts ≡ a.storage.accepts
  pub grows : b.autogrow ≡ a.autogrow

pub Prepared-refl : (bids : List Bid) (a : Allocator) → IsValid a → Prepared bids a a
Prepared-refl bids a v = record {
  valid = v;
  growth = omega arith;
  bounded = omega arith;
  covers = λ x. ground arith;
  frees = omega arith;
  device = refl;
  grows = refl;
}

pub Grown-Prepared :
    (n : ℕ) (bids : List Bid) (a b : Allocator) → n ≤ sizes bids → Grown n a b → Prepared bids a b
Grown-Prepared n bids a b h g =
    let extra : b.disk_bytes - a.disk_bytes ≡ n = omega (arith, g.disk) in
    record {
      valid = g.valid;
      growth = omega (arith, g.disk);
      bounded = omega (arith, g.disk);
      covers = λ x. rw extra (g.covers x);
      frees = rw extra g.frees;
      device = g.device;
      grows = g.grows;
    }

-- Taking the blocks after the growth takes them from the allocator before it.
Prepared-Takes :
    (bids bs : List Bid) (a b c : Allocator) → Prepared bids a b → Takes b c bs → Takes a c bs
Prepared-Takes bids bs a b c p w =
    Takes-append a b c [] bs
      (record {
        valid = p.valid;
        growth = p.growth;
        covers = λ x. omega (arith, p.covers x);
        bytes = omega (arith, p.frees);
        device = p.device;
        grows = p.grows;
      })
      w

pub Prepared-Allocates :
    (bids : List Bid) (a b : Allocator) (k l : ℕ) (r : Outcome)
    → Prepared bids a b
    → b.disk_bytes + k ≤ a.disk_bytes + l
    → Allocates bids b k r
    → Allocates bids a l r
Prepared-Allocates bids a b k l r p h (inl w) = inl (record {
  after = w.after;
  placed = w.placed;
  result = w.result;
  same = w.same;
  takes = Prepared-Takes bids w.placed a b w.after p w.takes;
  bounded = omega (arith, w.bounded);
})
Prepared-Allocates bids a b k l r p h (inr w) = inr (record {
  after = w.after;
  front = w.front;
  placed = w.placed;
  rest = w.rest;
  result = w.result;
  split = w.split;
  same = w.same;
  takes = Prepared-Takes bids w.placed a b w.after p w.takes;
  refused = w.refused;
  refuses = ap (λ (g : ℕ → Bool). g w.refused) (sym p.device) ∙ w.refuses;
})

-- The device refused before any block was placed.
pub none-Failure :
    (bids : List Bid) (a : Allocator) (n : ℕ)
    → IsValid a
    → a.storage.accepts n ≡ false
    → Failure bids a (throws io_error, a, bids)
none-Failure bids a n v e = record {
  after = a;
  front = [];
  placed = [];
  rest = bids;
  result = refl;
  split = refl;
  same = tt;
  takes = record {
    valid = v;
    growth = omega arith;
    covers = λ x. ground arith;
    bytes = omega arith;
    device = refl;
    grows = refl;
  };
  refused = n;
  refuses = e;
}
