-- ===== src/Mng/DiskAllocator/Takes.antt =====
-- What `new_blocks` of foxxll/mng/disk_block_allocator.hpp promises, and how two allocations in a
-- row make one.
use foxxll.Prelude.{
  ℕ, zero, suc, ◌+◌, ◌-◌, ◌≤◌, ◌<◌, ◌≡◌, refl, ◌∙◌, ap, sym, false, List, [], ◌∷◌, ◌++◌, arith, ◌⊎◌,
  length, take, drop, u64_mod, take-append-drop,
}
use foxxll.Mng.DiskAllocator.FreeSpace.Regions.{inside, regions_at}
use foxxll.Mng.Bid.{Bid}
use foxxll.Mng.DiskAllocator.{Allocator, done, throws, io_error}
use foxxll.Mng.DiskAllocator.NewBlocks.{Outcome}
use foxxll.Mng.DiskAllocator.Valid.{IsValid}
use foxxll.Mng.DiskAllocator.Carve.{blocks_at, blocks_at-append, sizes, sizes-append, SameBlocks}

-- The blocks were taken out of the free space, which may have grown at the end of the disk: each
-- byte that was free or new is now in exactly one block, or still free.
pub record Takes (a a' : Allocator) (bids : List Bid) : Type 0 where
  pub valid : IsValid a'
  pub growth : a.disk_bytes ≤ a'.disk_bytes
  pub covers :
      (x : ℕ)
      → regions_at x a'.free_space + blocks_at x bids
        ≡ regions_at x a.free_space + inside x a.disk_bytes (a'.disk_bytes - a.disk_bytes)
  pub bytes : a'.free_bytes + sizes bids ≡ a.free_bytes + (a'.disk_bytes - a.disk_bytes)
  pub device : a'.storage.accepts ≡ a.storage.accepts
  pub grows : a'.autogrow ≡ a.autogrow

inside-join :
    (x d e f : ℕ) → d ≤ e → e ≤ f → inside x d (e - d) + inside x e (f - e) ≡ inside x d (f - d)
inside-join x d e f h g = ground arith

pub Takes-append :
    (a b c : Allocator) (bs cs : List Bid) → Takes a b bs → Takes b c cs → Takes a c (bs ++ cs)
Takes-append a b c bs cs v w = record {
  valid = w.valid;
  growth = omega (arith, v.growth, w.growth);
  covers = λ x. omega (
    arith,
    v.covers x,
    w.covers x,
    blocks_at-append x bs cs,
    inside-join x a.disk_bytes b.disk_bytes c.disk_bytes v.growth w.growth,
  );
  bytes = omega (arith, v.bytes, w.bytes, v.growth, w.growth, sizes-append bs cs);
  device = w.device ∙ v.device;
  grows = w.grows ∙ v.grows;
}

-- The call ended normally, with every offset filled in, and the disk grew by `limit` at most.
pub record Success (bids : List Bid) (a : Allocator) (limit : ℕ) (r : Outcome) : Type 0 where
  pub after : Allocator
  pub placed : List Bid
  pub result : r ≡ (done, after, placed)
  pub same : SameBlocks bids placed
  pub takes : Takes a after placed
  pub bounded : after.disk_bytes ≤ a.disk_bytes + limit

-- The device refused to grow, when a part of the range had its blocks already: they stay taken.
pub record Failure (bids : List Bid) (a : Allocator) (r : Outcome) : Type 0 where
  pub after : Allocator
  pub front : List Bid
  pub placed : List Bid
  pub rest : List Bid
  pub result : r ≡ (throws io_error, after, placed ++ rest)
  pub split : bids ≡ front ++ rest
  pub same : SameBlocks front placed
  pub takes : Takes a after placed
  pub refused : ℕ
  pub refuses : a.storage.accepts refused ≡ false

abbrev pub Allocates : List Bid → Allocator → ℕ → Outcome → Type 0
Allocates bids a limit r = Success bids a limit r ⊎ Failure bids a r

abbrev pub Positive : List Bid → Type 0
Positive [] = Unit {0}
Positive (b ∷ bids) = (0 < b.size) × Positive bids

-- A request that the free bytes cover.
pub record Covered (bids : List Bid) (a : Allocator) : Type 0 where
  pub nonempty : 0 < length bids
  pub positive : Positive bids
  pub valid : IsValid a
  pub free : sizes bids ≤ a.free_bytes
  pub room : a.disk_bytes + sizes bids < u64_mod

pub take-Positive : (n : ℕ) (bids : List Bid) → Positive bids → Positive (take n bids)
take-Positive zero bids p = tt
take-Positive (suc n) [] p = tt
take-Positive (suc n) (b ∷ bids) p = (p.0, take-Positive n bids p.1)

pub drop-Positive : (n : ℕ) (bids : List Bid) → Positive bids → Positive (drop n bids)
drop-Positive zero bids p = p
drop-Positive (suc n) [] p = tt
drop-Positive (suc n) (b ∷ bids) p = drop-Positive n bids p.1

pub sizes-take-drop :
    (n : ℕ) (bids : List Bid) → sizes (take n bids) + sizes (drop n bids) ≡ sizes bids
sizes-take-drop n bids =
    sym (sizes-append (take n bids) (drop n bids)) ∙ ap sizes (take-append-drop n bids)

pub SameBlocks-append :
    (bs cs ds es : List Bid)
    → SameBlocks bs cs
    → SameBlocks ds es
    → SameBlocks (bs ++ ds) (cs ++ es)
SameBlocks-append [] [] ds es h g = g
SameBlocks-append [] (c ∷ cs) ds es h g = absurd h
SameBlocks-append (b ∷ bs) [] ds es h g = absurd h
SameBlocks-append (b ∷ bs) (c ∷ cs) ds es h g = (h.0, h.1, SameBlocks-append bs cs ds es h.2 g)

pub SameBlocks-sizes : (bs cs : List Bid) → SameBlocks bs cs → sizes bs ≡ sizes cs
SameBlocks-sizes [] [] h = refl
SameBlocks-sizes [] (c ∷ cs) h = absurd h
SameBlocks-sizes (b ∷ bs) [] h = absurd h
SameBlocks-sizes (b ∷ bs) (c ∷ cs) h = omega (arith, SameBlocks-sizes bs cs h.2)
