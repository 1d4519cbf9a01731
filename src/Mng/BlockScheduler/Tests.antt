-- ===== src/Mng/BlockScheduler/Tests.antt =====
-- Runs of the block scheduler with the least-recently-used policy: there is one internal block, and two
-- swappable blocks use it in turn.
use foxxll.Prelude.{
  ◌⊎◌, ℕ, ◌≡◌, refl, true, false, Option, none, some, ◌>>=◌, List, [], ◌∷◌, arith, update, inl, inr,
  subst, Bool-cases, ◌==◌,
}
use foxxll.Common.FifoQueue
use foxxll.Common.FifoQueue.{FifoQueue}
use foxxll.Common.FifoQueue.Nodes.{node_of}
use foxxll.Mng.BlockScheduler.{
  SwappableBlock, Store, make_dirty_if, acquire_block, release_block, get_internal_block, read_sync,
  ensure_external, write_out, clean_sync, attach_internal_block, detach_internal_block,
  free_external_block, deinitialize_block, initialize_block, extract_external_block,
}
use foxxll.Mng.BlockScheduler.Detach.{data_of}
use foxxll.Mng.BlockScheduler.Lru.{lru_evictable, no_key}
use foxxll.Mng.BlockScheduler.Cache
use foxxll.Mng.BlockScheduler.Cache.{Cache}
use foxxll.Mng.BlockScheduler.Cache.Valid.{Consistent, create-Consistent}
use foxxll.Mng.BlockScheduler
use foxxll.Mng.BlockScheduler.Identifiers.{
  Identifiers, IsValid, Allocated, Freed, allocate_swappable_block, free_swappable_block,
  allocate_swappable_block-Allocated, free_swappable_block-Freed,
}
use foxxll.Mng.BlockScheduler.Session.{
  Operation, acquiring, writing, releasing, Session, write_block, is_honest, perform, contents,
  Sound, Outcome,
}
use foxxll.Mng.BlockScheduler.Session.Refines.{perform-Outcome}
use foxxll.Mng.BlockScheduler.Cache.Takes.{Gets, get_free_internal_block-Gets}
use foxxll.Mng.BlockScheduler.Cache.Attaches.{Acquires}
use foxxll.Mng.BlockScheduler.Cache.Acquires.{acquire-Acquires}
use foxxll.Mng.BlockScheduler.Cache.Keeps.{Releases}
use foxxll.Mng.BlockScheduler.Cache.Releases.{release-Releases}
use foxxll.Mng.BlockScheduler.Cache.Extracts.{Extracts}
use foxxll.Mng.BlockScheduler.Cache.Flushes.{Flushes, flush-Flushed}

-- What a run computes with.
program : Unit {0}
unfolding FifoQueue.create FifoQueue.empty FifoQueue.find FifoQueue.assign FifoQueue.forget
    FifoQueue.unlink FifoQueue.insert_at FifoQueue.insert FifoQueue.erase_at FifoQueue.erase
    FifoQueue.pop_front FifoQueue.pop make_dirty_if acquire_block release_block get_internal_block
    read_sync ensure_external write_out clean_sync attach_internal_block detach_internal_block
    free_external_block deinitialize_block initialize_block extract_external_block data_of
    lru_evictable Cache.create Cache.run_of Cache.num_blocks Cache.allocate_array
    Cache.take_internal Cache.return_free_internal_block Cache.set_block Cache.detach Cache.evict
    Cache.or_evict Cache.get_free_internal_block Cache.acquire_at Cache.acquire_internal Cache.load
    Cache.acquire Cache.detach_and_return Cache.let_go Cache.release Cache.erase_evictable
    Cache.return_if Cache.deinitialize Cache.initialize Cache.take_external Cache.extract
    Cache.clean Cache.flush write_block is_honest perform
program = tt

abbrev pub empty_store : Store
empty_store = record {
  memory = λ i. 0;
  disk = λ e. 0;
  next_external = 6;
  deleted = [];
  has_room = λ e. true;
}

-- A new scheduler with one internal block.
abbrev pub small : Cache
unfolding FifoQueue.create Cache.create lru_evictable
small = Cache.create 1 empty_store FifoQueue.create

abbrev pub new_session : Session
new_session = record { cache = small; touched = λ j. false }

abbrev run : List Operation → Session → Option Session
unfolding program
run [] s = some s
run (op ∷ ops) s = do s' ← perform no_key op s; run ops s'

-- Block 0 is written and let go; block 1 takes its internal block, and gives it back.
abbrev two_blocks : List Operation
two_blocks =
    acquiring 0 true
    ∷ writing 0 7
    ∷ releasing 0 true
    ∷ acquiring 1 true
    ∷ writing 1 9
    ∷ releasing 1 true
    ∷ acquiring 0 false
    ∷ []

abbrev seen : Option Session → ℕ → Option ℕ
unfolding program
seen none j = none
seen (some s) j = contents s j

seen_0 : seen (run two_blocks new_session) 0 ≡ some 7
unfolding program
seen_0 = refl

seen_1 : seen (run two_blocks new_session) 1 ≡ some 9
unfolding program
seen_1 = refl

-- Block 0 is acquired.
abbrev pub held_block : SwappableBlock
held_block = record { external_data = 0; internal_data = 1; dirty = false; reference_count = 1 }

abbrev pub held : Cache
unfolding program
held = record small {
  remaining_internal_blocks = 0;
  next_internal = 2;
  swappable_blocks = update 0 held_block small.swappable_blocks;
}

-- Block 0 is evictable.
abbrev idle : Cache
unfolding program
idle = record held {
  swappable_blocks =
      update 0 (record held_block { dirty = true; reference_count = 0 }) held.swappable_blocks;
  evictable_blocks = (FifoQueue.insert 0 FifoQueue.create).0;
}

-- Block 0 is dirty and not on disk, and the disks are full.
abbrev full : Cache
full = record idle { store = record empty_store { has_room = λ e. false } }

none_acquired : Cache.acquire 1 true full ≡ none
unfolding program
none_acquired = refl

none_extracted : Cache.extract 0 full ≡ none
unfolding program
none_extracted = refl

none_flushed : Cache.flush 2 (lru_evictable.pop full.evictable_blocks) full ≡ none
unfolding program
none_flushed = refl

pub small-Consistent : Consistent small
unfolding program node_of
small-Consistent =
    create-Consistent 1 empty_store FifoQueue.create (omega arith)
      (record { rising = omega arith; once = λ k. omega arith; finds = λ k. refl }) (λ j. refl)

acquire-Consistent : (c' : Cache) → Acquires 0 true small (some (1, c')) → Consistent c'
acquire-Consistent c' (inl (i, c, e, a)) =
    let same : c ≡ c' = cc e in subst Consistent same a.consistent
acquire-Consistent c' (inr (e, z, x)) = absurd (cc e)

pub held-Consistent : Consistent held
unfolding program
held-Consistent = acquire-Consistent held (acquire-Acquires 0 true small small-Consistent)

release-Consistent : (c' : Cache) → Releases 0 true held (some c') → Consistent c'
release-Consistent c' (inl (a, c, e, d)) =
    let same : c ≡ c' = cc e in subst Consistent same d.consistent
release-Consistent c' (inr (f, e)) = absurd (cc e)

idle-Consistent : Consistent idle
unfolding program
idle-Consistent =
    release-Consistent idle (release-Releases no_key 0 true held held-Consistent (λ p d. cc))

abbrev pub held_session : Session
held_session = record { cache = held; touched = update 0 true (λ j. false) }

-- Nothing is on disk yet.
held_session-Sound : Sound held_session
unfolding program
held_session-Sound = record {
  consistent = held-Consistent;
  saved = λ j p t d x. elim (Bool-cases (j == 0)) [
    | inl e ↦ absurd (ground (arith, e, x))
    | inr f ↦ absurd (ground (arith, f, x))
  ];
}

perform-Outcome_example :
    Outcome (releasing 0 true) held_session (perform no_key (releasing 0 true) held_session)
perform-Outcome_example =
    perform-Outcome no_key (releasing 0 true) held_session held_session-Sound tt

get_free_internal_block-Gets_example : Gets idle (Cache.get_free_internal_block idle)
get_free_internal_block-Gets_example = get_free_internal_block-Gets idle idle-Consistent

acquire-Acquires_example : Acquires 1 true idle (Cache.acquire 1 true idle)
acquire-Acquires_example = acquire-Acquires 1 true idle idle-Consistent

flush-Flushed_example : Flushes idle (Cache.flush 2 (lru_evictable.pop idle.evictable_blocks) idle)
unfolding program
flush-Flushed_example =
    flush-Flushed 2 (lru_evictable.pop idle.evictable_blocks) idle idle-Consistent refl
      (omega arith)

pub acquired_run : perform no_key (acquiring 0 true) new_session ≡ some held_session
unfolding program
acquired_run = refl

-- Identifiers 0 and 2 are in use, and 1 is free.
abbrev identifiers : Identifiers
identifiers = record { cache = idle; size = 3; free_swappable_blocks = 1 ∷ [] }

identifiers-IsValid : IsValid identifiers
unfolding program
identifiers-IsValid = record {
  consistent = idle-Consistent;
  rising = (omega arith, omega arith, tt);
  fresh = λ k h. elim (Bool-cases (k == 0)) [
    | inl y ↦ absurd (ground (arith, y, h))
    | inr f ↦ rw f refl
  ];
  beyond = λ k h. let f : (k == 0) ≡ false = ground (arith, h) in rw f refl;
}

allocate_swappable_block-Allocated_example :
    Allocated identifiers
      ((allocate_swappable_block identifiers).0)
      ((allocate_swappable_block identifiers).1)
allocate_swappable_block-Allocated_example =
    allocate_swappable_block-Allocated identifiers identifiers-IsValid

free_swappable_block-Freed_example :
    ((BlockScheduler.is_acquired (idle.swappable_blocks 0) ≡ false)
      × (s' : Identifiers) × (free_swappable_block 0 identifiers ≡ some s')
      × Freed 0 identifiers s')
    ⊎ ((BlockScheduler.is_acquired (idle.swappable_blocks 0) ≡ true)
        × (free_swappable_block 0 identifiers ≡ none))
free_swappable_block-Freed_example =
    free_swappable_block-Freed 0 identifiers identifiers-IsValid (omega arith, refl)
