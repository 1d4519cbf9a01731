-- ===== src/Mng/BlockScheduler/Simulation/Tests.antt =====
-- A run of the simulation beside the online algorithm: block 0 is acquired in a new scheduler.
use foxxll.Prelude.{ℕ, ◌+◌, ◌≡◌, ◌<◌, refl, true, arith, u64_mod}
use foxxll.Common.FifoQueue
use foxxll.Mng.BlockScheduler
use foxxll.Mng.BlockScheduler.{SwappableBlock}
use foxxll.Mng.BlockScheduler.Lru.{lru_evictable, no_key}
use foxxll.Mng.BlockScheduler.Cache
use foxxll.Mng.BlockScheduler.Session.{acquiring, Sound}
use foxxll.Mng.BlockScheduler.Tests.{acquired_run, new_session, held_session, small-Consistent}
use foxxll.Mng.BlockScheduler.Simulation
use foxxll.Mng.BlockScheduler.Simulation.{Simulation}
use foxxll.Mng.BlockScheduler.Simulation.Agrees.{simulate, Agrees, start-Agrees, simulate-Agrees}

new_session-Sound : Sound new_session
unfolding Cache.create FifoQueue.create lru_evictable
new_session-Sound = record {
  consistent = small-Consistent;
  saved = λ j p t d x. absurd (omega (arith, x));
}

abbrev started : Simulation
started =
    Simulation.start (λ j. BlockScheduler.is_initialized (new_session.cache.swappable_blocks j))

started-Agrees : Agrees started new_session
unfolding Cache.create FifoQueue.create lru_evictable
started-Agrees = start-Agrees new_session new_session-Sound (λ j. refl)

low_counts : (j : ℕ) → started.reference_counts j + 1 < u64_mod
unfolding Simulation.start Cache.create FifoQueue.create lru_evictable
low_counts j = omega arith

simulate-Agrees_example :
    Agrees (simulate (acquiring 0 true) started) held_session
    × ((j : ℕ)
        → Simulation.is_initialized j (simulate (acquiring 0 true) started)
          ≡ BlockScheduler.is_initialized (held_session.cache.swappable_blocks j))
simulate-Agrees_example =
    simulate-Agrees no_key (acquiring 0 true) started new_session held_session new_session-Sound tt
      started-Agrees low_counts acquired_run
