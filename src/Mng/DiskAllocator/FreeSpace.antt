-- ===== src/Mng/DiskAllocator/FreeSpace.antt =====
-- `space_map_type free_space_` of foxxll/mng/disk_block_allocator.hpp: a `std::map` from the
-- position of each free region to its size, as the list of its entries in the order of the keys.
pub mod Regions
pub mod Canonical
use foxxll.Prelude.{ℕ, List, [], ◌∷◌, Option, none, some, ltb, leb, ◌==◌, if◌then◌else◌}

-- `place`: an entry (offset, size).
abbrev pub Place : Type 0
Place = ℕ × ℕ

-- An iterator into the map: the entries in front of it, the nearest one first, and those from it
-- on. It is `begin()` if there are none in front, and `end()` if there are none from it on.
pub record Cursor : Type 0 where
  pub before : List Place
  pub after : List Place

-- `upper_bound(key)`: the first entry with a greater key.
unfoldable pub seek : ℕ → List Place → List Place → Cursor
seek key lo [] = record { before = lo; after = [] }
seek key lo ((p, s) ∷ hi) =
    let rest = seek key ((p, s) ∷ lo) hi in
    if ltb key p then record { before = lo; after = (p, s) ∷ hi } else rest

abbrev pub upper_bound : ℕ → List Place → Cursor
upper_bound key m = seek key [] m

-- The map that a cursor points into.
unfoldable pub rewind : List Place → List Place → List Place
rewind [] hi = hi
rewind ((p, s) ∷ lo) hi = rewind lo ((p, s) ∷ hi)

-- `free_space_[key] = value`.
unfoldable pub assign : ℕ → ℕ → List Place → List Place
assign key value [] = (key, value) ∷ []
assign key value ((p, s) ∷ m) =
    let rest = assign key value m in
    if ltb key p
    then (key, value) ∷ (p, s) ∷ m
    else if key == p
    then (key, value) ∷ m
    else (p, s) ∷ rest

-- `free_space_.erase(it)` of the entry at a key.
unfoldable pub erase : ℕ → List Place → List Place
erase key [] = []
erase key ((p, s) ∷ m) = if key == p then m else (p, s) ∷ erase key m

-- `std::find_if` for the first region that holds the requested bytes.
unfoldable pub first_fit : ℕ → List Place → Option Place
first_fit requested [] = none
first_fit requested ((p, s) ∷ m) = if leb requested s then some (p, s) else first_fit requested m
