-- ===== src/Mng/BlockScheduler.antt =====
-- `swappable_block` (foxxll/mng/block_scheduler.hpp, lines 50-266): a block that is in memory, on
-- disk, in both or in neither. Pointers and identifiers of blocks on disk are numbers, and 0 is the
-- null pointer and the invalid identifier.
pub mod Evictable
pub mod Detach
pub mod Cache
pub mod Lru
pub mod Switch
pub mod Identifiers
pub mod Lfd
pub mod Simulation
pub mod Session
pub mod Tests
use foxxll.Prelude.{
  ℕ, ◌+◌, ◌-◌, Bool, true, false, not, ◌&&◌, ◌||◌, Option, none, some, ltb, ◌==◌, ◌>>=◌, check,
  update, if◌then◌else◌, List, [], ◌∷◌,
}

pub record SwappableBlock : Type 0 where
  pub external_data : ℕ
  pub internal_data : ℕ
  pub dirty : Bool
  pub reference_count : ℕ

-- What the blocks in memory and on disk hold, and the block manager: it hands out blocks that are
-- not in use and takes them back. The blocks are numbered as they are handed out, so that one that is
-- handed out again has a new number. `has_room` is what `new_block` answers for the number that is
-- next: false where it throws `bad_ext_alloc` or an `io_error`.
pub record Store : Type 0 where
  pub memory : ℕ → ℕ
  pub disk : ℕ → ℕ
  pub next_external : ℕ
  pub deleted : List ℕ
  pub has_room : ℕ → Bool

-- The constructor.
abbrev pub uninitialized_block : SwappableBlock
uninitialized_block = record {
  external_data = 0;
  internal_data = 0;
  dirty = false;
  reference_count = 0;
}

abbrev pub is_internal : SwappableBlock → Bool
is_internal b = not (b.internal_data == 0)

abbrev pub has_external_block : SwappableBlock → Bool
has_external_block b = not (b.external_data == 0)

abbrev pub is_external : SwappableBlock → Bool
is_external b = has_external_block b && not b.dirty

abbrev pub is_acquired : SwappableBlock → Bool
is_acquired b = ltb 0 b.reference_count

abbrev pub is_evictable : SwappableBlock → Bool
is_evictable b = not (is_acquired b) && is_internal b

abbrev pub is_initialized : SwappableBlock → Bool
is_initialized b = is_internal b || is_external b

-- An assertion that fails is `none`, and so is an exception that leaves the operation.
unfoldable pub make_dirty_if : Bool → SwappableBlock → Option SwappableBlock
make_dirty_if make_dirty b =
    check (is_acquired b) (some (record b { dirty = make_dirty || b.dirty }))

unfoldable pub acquire_block : SwappableBlock → Option SwappableBlock
acquire_block b =
    check (is_internal b) (some (record b { reference_count = b.reference_count + 1 }))

unfoldable pub release_block : SwappableBlock → Option SwappableBlock
release_block b =
    check (is_acquired b) (some (record b { reference_count = b.reference_count - 1 }))

unfoldable pub get_internal_block : SwappableBlock → Option ℕ
get_internal_block b = check (is_acquired b) (some b.internal_data)

-- `read_async` and the wait for it.
unfoldable pub read_sync : SwappableBlock → Store → Option (SwappableBlock × Store)
read_sync b s = check (is_internal b && has_external_block b) (
    some (
      record b { dirty = false },
      record s { memory = update b.internal_data (s.disk b.external_data) s.memory },
    ))

-- `get_external_block`, where there is none: `new_block` may throw.
unfoldable pub ensure_external : SwappableBlock → Store → Option (SwappableBlock × Store)
ensure_external b s =
    if not (has_external_block b)
    then check (s.has_room s.next_external) (
        some (
          record b { external_data = s.next_external },
          record s { next_external = s.next_external + 1 },
        ))
    else some (b, s)

-- The write of `clean_async`, through a pointer that must not be null.
unfoldable pub write_out : SwappableBlock × Store → Option (SwappableBlock × Store)
write_out (b, s) = check (is_internal b) (
    some (
      record b { dirty = false },
      record s { disk = update b.external_data (s.memory b.internal_data) s.disk },
    ))

unfoldable pub clean_sync : SwappableBlock → Store → Option (SwappableBlock × Store)
clean_sync b s = if not b.dirty then some (b, s) else (do out ← ensure_external b s; write_out out)

unfoldable pub attach_internal_block : ℕ → SwappableBlock → Option SwappableBlock
attach_internal_block iblock b =
    check (not (is_internal b)) (some (record b { internal_data = iblock }))

unfoldable pub detach_internal_block : SwappableBlock → Store → Option (ℕ × SwappableBlock × Store)
detach_internal_block b s =
    check (is_evictable b)
      (do (b', s') ← clean_sync b s; some (b'.internal_data, record b' { internal_data = 0 }, s'))

unfoldable pub free_external_block : SwappableBlock → Store → Store
free_external_block b s =
    if has_external_block b then record s { deleted = b.external_data ∷ s.deleted } else s

unfoldable pub deinitialize_block : SwappableBlock → Store → Option (ℕ × SwappableBlock × Store)
deinitialize_block b s = check (not (is_acquired b)) (
    some (
      b.internal_data,
      record b { dirty = false; external_data = 0; internal_data = 0 },
      free_external_block b s,
    ))

unfoldable pub initialize_block : ℕ → SwappableBlock → Option SwappableBlock
initialize_block eblock b =
    check (not (is_initialized b)) (some (record b { external_data = eblock }))

unfoldable pub extract_external_block : SwappableBlock → Option (ℕ × SwappableBlock)
extract_external_block b =
    check (not (is_internal b)) (some (b.external_data, record b { external_data = 0 }))
