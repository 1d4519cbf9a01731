-- ===== src/Io/DiskQueue/Tests.antt =====
-- Runs of the disk queue at concrete requests, with a number as the semaphore.
use foxxll.Prelude.{ℕ, zero, suc, ◌+◌, ◌≡◌, refl, List, [], ◌∷◌, Option, none, some}
use foxxll.Io.DiskQueue.{
  Semaphore, read_op, write_op, Request, Queue, push, if_running, add_request, do_signal,
  stop_thread, take_write, take_read, last_token, test_state, start_round, work, exited, Action,
  submits, pushes, find, erase, push_found, give_back, leave, signal_call, stop_call, work_step,
  keep, or_stay, step, run, start_queue,
}
use foxxll.Io.DiskQueue.Tokens.{held, to_stop, Balanced}
use foxxll.Io.DiskQueue.Invariant.{start_queue-run}
use foxxll.Io.DiskQueue.Served.{Conserved, start_queue-Conserved}
use foxxll.Io.DiskQueue.Rounds.{Idle}
use foxxll.Io.DiskQueue.Progress.{rounds, Drained, run-rounds}
use foxxll.Io.DiskQueue.Stopping.{last_rounds, Stopping, Stopped, run-Stopped}
use foxxll.Io.DiskQueue.Late.{pushes-Unserved}
use foxxll.Io.DiskQueue.Shutdown.{LeftBehind, stop_thread-LeftBehind}

unfoldable number_wait : ℕ → Option (ℕ × ℕ)
number_wait zero = none
number_wait (suc n) = some (n, n)

number_wait_zero : (s : ℕ) → s ≡ 0 → number_wait s ≡ none
unfolding number_wait
number_wait_zero s e = rw e refl

number_wait_pos : (s : ℕ) (n : ℕ) → s ≡ suc n → (t : ℕ) × (number_wait s ≡ some (t, n)) × (t ≡ n)
unfolding number_wait
number_wait_pos s n e = (n, rw e refl, refl)

number_signal : (s : ℕ) → s + 1 ≡ s + 1
number_signal s = refl

instance abbrev number_semaphore : Semaphore
number_semaphore = record {
  Sem = ℕ;
  value = λ s. s;
  signal = λ s. s + 1;
  wait = number_wait;
  value-signal = number_signal;
  wait_zero = number_wait_zero;
  wait_pos = number_wait_pos;
}

abbrev a_read : Request
a_read = record { id = 1; op = read_op }

abbrev a_write : Request
a_write = record { id = 2; op = write_op }

abbrev both : List Action
both = submits a_read ∷ pushes 1 ∷ signal_call ∷ submits a_write ∷ pushes 2 ∷ signal_call ∷ []

-- The write has been served and the worker is at its test; the read is still queued.
abbrev one_served : List Action
one_served =
    submits a_read
    ∷ pushes 1
    ∷ signal_call
    ∷ submits a_write
    ∷ pushes 2
    ∷ signal_call
    ∷ work_step
    ∷ work_step
    ∷ []

-- What a run computes with.
program : Unit {0}
unfolding last_rounds run step start_queue add_request if_running find erase push_found push keep
    do_signal or_stay number_wait stop_thread work start_round take_write take_read test_state
    last_token give_back leave held to_stop
program = tt

abbrev start : ℕ → Queue
start n = start_queue n

start_queue-run_example : Balanced (run (start 0) one_served)
start_queue-run_example = start_queue-run 0 refl one_served

start_queue-Conserved_example : Conserved (run (start 0) one_served)
start_queue-Conserved_example = start_queue-Conserved 0 one_served

both-Idle : Idle (run (start 0) both)
unfolding program
both-Idle = record {
  balanced = start_queue-run 0 refl both;
  at_wait = refl;
  runs = refl;
  no_signal = refl;
  no_wait = refl;
}

run-rounds_example : Drained (run (start 0) both) (run (run (start 0) both) (rounds 4))
unfolding program
run-rounds_example = run-rounds 2 (run (start 0) both) both-Idle refl

stop_thread-LeftBehind_example :
    LeftBehind
      (run (start 0) one_served)
      (run (run (start 0) one_served) (stop_call ∷ work_step ∷ work_step ∷ work_step ∷ []))
unfolding program
stop_thread-LeftBehind_example =
    stop_thread-LeftBehind (run (start 0) one_served) (start_queue-run 0 refl one_served) refl refl
      refl refl refl

-- Both requests are queued and `stop_thread` is through with its signal.
abbrev stopping : List Action
stopping =
    submits a_read
    ∷ pushes 1
    ∷ signal_call
    ∷ submits a_write
    ∷ pushes 2
    ∷ signal_call
    ∷ stop_call
    ∷ signal_call
    ∷ []

stopping-Stopping : Stopping (run (start 0) stopping)
unfolding program
stopping-Stopping = record {
  balanced = start_queue-run 0 refl stopping;
  at_wait = refl;
  ends = refl;
  no_signal = refl;
  no_wait = refl;
}

run-Stopped_example : Stopped (run (run (start 0) stopping) (last_rounds 5))
unfolding program
run-Stopped_example = run-Stopped 2 (run (start 0) stopping) stopping-Stopping refl

-- A thread has passed the test of the state; then `stop_thread` is through, and the worker leaves.
abbrev too_late : List Action
too_late = submits a_read ∷ stop_call ∷ signal_call ∷ last_rounds 1

pushes-Unserved_example :
    ((step (run (start 0) too_late) (pushes 1)).accepted ≡ a_read ∷ [])
    × ((run (run (start 0) too_late) (pushes 1 ∷ signal_call ∷ last_rounds 2)).worker ≡ exited)
    × ((run (run (start 0) too_late) (pushes 1 ∷ signal_call ∷ last_rounds 2)).served ≡ [])
unfolding program
pushes-Unserved_example =
    pushes-Unserved (run (start 0) too_late) 1 a_read (signal_call ∷ last_rounds 2) refl refl
