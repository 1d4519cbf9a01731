-- ===== src/Mng/Bid.antt =====
-- Block identifiers (foxxll/mng/bid.hpp).
use foxxll.Prelude.{ℕ, Bool, not, ◌==◌, ◌&&◌}

-- `BID<Size>`: the file by a number, 0 for a null pointer; the size is the template's parameter, or
-- the member of `BID<0>`.
pub record Bid : Type 0 where
  pub storage : ℕ
  pub offset : ℕ
  pub size : ℕ

unfoldable pub valid : Bid → Bool
valid b = not (b.storage == 0)

-- `operator ==` of identifiers of one size.
abbrev pub bid_eq : Bid → Bid → Bool
bid_eq a b = (a.storage == b.storage) && (a.offset == b.offset)

-- `operator ==` of `BID<0>`.
unfoldable pub sized_bid_eq : Bid → Bid → Bool
sized_bid_eq a b = (a.storage == b.storage) && (a.offset == b.offset) && (a.size == b.size)
