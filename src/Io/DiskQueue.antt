-- ===== src/Io/DiskQueue.antt =====
-- `request_queue_impl_qwqr` (foxxll/io/request_queue_impl_qwqr.cpp): the queue of a disk, with one
-- list of reads and one of writes, the threads that submit and cancel requests, and the worker. A
-- step is what a thread does between two points at which others can run: each test of the
-- state, each locked region, each `sem_.signal()` and each `sem_.wait()` is one, but for the signal of
-- a worker that finds a list empty, which belongs to the look at the list.
pub mod Tokens
pub mod Invariant
pub mod Served
pub mod Rounds
pub mod Progress
pub mod Stopping
pub mod Shutdown
pub mod Late
pub mod Tests
use foxxll.Prelude.{
  ℕ, zero, suc, ◌+◌, ◌-◌, ◌≡◌, Bool, true, false, List, [], ◌∷◌, ◌++◌, Option, none, some, ltb,
  ◌==◌, if◌then◌else◌, length,
}

-- `tlx::semaphore`, which is not part of this repository: `signal` adds one; `wait` blocks at zero,
-- and otherwise takes one and returns the value that is left.
pub record Semaphore : Type 1 where
  pub Sem : Type 0
  pub value : Sem → ℕ
  pub signal : Sem → Sem
  pub wait : Sem → Option (Sem × ℕ)
  pub value-signal : (s : Sem) → value (signal s) ≡ value s + 1
  pub wait_zero : (s : Sem) → value s ≡ 0 → wait s ≡ none
  pub wait_pos :
      (s : Sem) (n : ℕ) → value s ≡ suc n → (t : Sem) × (wait s ≡ some (t, n)) × (value t ≡ n)

pub data Op : Type 0 where
  read_op write_op : Op

-- A request that can be served: its identity as a pointer, and what it does.
pub record Request : Type 0 where
  pub id : ℕ
  pub op : Op

-- `request_queue_impl_worker::thread_state`.
pub data ThreadState : Type 0 where
  not_running running terminating terminated : ThreadState

-- Where the worker stands: before `sem_.wait()`, before it takes a request, before the test of
-- `thread_state_`, before the `sem_.wait()` that follows it, before `sem_.signal()` where a token was
-- left, before `set_to(TERMINATED)`, and behind it.
pub data Pc : Type 0 where
  waiting taking testing asking returning leaving exited : Pc

pub data Error : Type 0 where
  invalid_argument : Error

pub data Result {ℓ} (A : Type ℓ) : Type ℓ where
  ok : A → Result A
  throws : Error → Result A

-- `find` and `erase` of a request pointer in a list of the queue.
unfoldable pub contains : ℕ → List Request → Bool
contains id [] = false
contains id (r ∷ rs) = if r.id == id then true else contains id rs

unfoldable pub erase : ℕ → List Request → List Request
erase id [] = []
erase id (r ∷ rs) = if r.id == id then rs else r ∷ erase id rs

unfoldable pub find : ℕ → List Request → Option Request
find id [] = none
find id (r ∷ rs) = if r.id == id then some r else find id rs

-- What the threads of the program can do. A request is first submitted or cancelled, which tests the
-- state, and then pushed or erased, by its identity.
pub data Action : Type 0 where
  submits : Request → Action
  cancels : Request → Action
  pushes : ℕ → Action
  erases : ℕ → Action
  signal_call wait_call stop_call join_call work_step : Action

module _ ⦃semaphore : Semaphore⦄ where
  open semaphore use {Sem, signal, wait}

  -- `adding` and `cancelling` have the requests of the threads between the test of the state and the
  -- locked region. `signals` and `waits` count the threads between a change of a list and the call of `sem_` that
  -- belongs to it; `stops` the calls of `stop_thread` whose token is not used up. `served`,
  -- `cancelled` and `accepted` record what has happened.
  pub record Queue : Type 0 where
    pub write_queue : List Request
    pub read_queue : List Request
    pub thread_state : ThreadState
    pub sem : Sem
    pub worker : Pc
    pub adding : List Request
    pub cancelling : List Request
    pub write_phase : Bool
    pub signals : ℕ
    pub waits : ℕ
    pub stops : ℕ
    pub served : List Request
    pub cancelled : List Request
    pub accepted : List Request

  -- The locked region of `add_request`.
  unfoldable pub push : Op → Request → Queue → Queue
  push read_op r q = record q {
    adding = erase r.id q.adding;
    read_queue = q.read_queue ++ r ∷ [];
    accepted = q.accepted ++ r ∷ [];
    signals = q.signals + 1;
  }
  push write_op r q = record q {
    adding = erase r.id q.adding;
    write_queue = q.write_queue ++ r ∷ [];
    accepted = q.accepted ++ r ∷ [];
    signals = q.signals + 1;
  }

  -- An empty pointer, and a queue that is not running, are refused.
  unfoldable pub if_running : ThreadState → Queue → Result Queue
  if_running running q = ok q
  if_running _ q = throws invalid_argument

  -- `add_request` up to its locked region.
  unfoldable pub add_request : Option Request → Queue → Result Queue
  add_request none q = throws invalid_argument
  add_request (some r) q = if_running q.thread_state (record q { adding = r ∷ q.adding })

  -- A thread that has passed the test pushes its request.
  unfoldable pub push_found : Option Request → Queue → Queue
  push_found none q = q
  push_found (some r) q = push r.op r q

  unfoldable pub remove : Op → Request → Queue → Queue
  remove read_op r q = record q { read_queue = erase r.id q.read_queue }
  remove write_op r q = record q { write_queue = erase r.id q.write_queue }

  unfoldable pub in_queue : Op → Request → Queue → Bool
  in_queue read_op r q = contains r.id q.read_queue
  in_queue write_op r q = contains r.id q.write_queue

  -- The locked region of `cancel_request`, with the answer that it leads to.
  unfoldable pub cancel_locked : Request → Queue → Queue × Bool
  cancel_locked r q =
      if in_queue r.op r q
      then (
        record (remove r.op r q) {
          cancelling = erase r.id q.cancelling;
          cancelled = q.cancelled ++ r ∷ [];
          waits = q.waits + 1;
        },
        true,
      )
      else (record q { cancelling = erase r.id q.cancelling }, false)

  -- `cancel_request` up to its locked region.
  unfoldable pub cancel_request : Option Request → Queue → Result Queue
  cancel_request none q = throws invalid_argument
  cancel_request (some r) q = if_running q.thread_state (record q { cancelling = r ∷ q.cancelling })

  -- A thread that has passed the test erases its request, if it is still queued.
  unfoldable pub cancel_found : Option Request → Queue → Queue
  cancel_found none q = q
  cancel_found (some r) q = (cancel_locked r q).0

  -- `sem_.signal()` of a thread that has pushed a request or has set the state.
  unfoldable pub do_signal : ℕ → Queue → Option Queue
  do_signal zero q = none
  do_signal (suc n) q = some (record q { sem = signal q.sem; signals = n })

  -- `sem_.wait()` of a thread that has erased a request.
  unfoldable pub do_wait : ℕ → Option (Sem × ℕ) → Queue → Option Queue
  do_wait (suc n) (some (s, v)) q = some (record q { sem = s; waits = n })
  do_wait _ _ q = none

  -- `stop_thread` up to `sem.signal()`; its assertion is that the thread is running.
  unfoldable pub stop_thread : ThreadState → Queue → Option Queue
  stop_thread running q =
      some (record q { thread_state = terminating; signals = q.signals + 1; stops = q.stops + 1 })
  stop_thread _ q = none

  unfoldable pub has_exited : Pc → Bool
  has_exited exited = true
  has_exited _ = false

  -- The rest of `stop_thread`: the state is TERMINATED and is set to NOT_RUNNING.
  unfoldable pub set_not_running : ThreadState → Queue → Option Queue
  set_not_running terminated q = some (record q { thread_state = not_running })
  set_not_running _ q = none

  -- `t.join()` returns when the worker has ended.
  unfoldable pub join_thread : Bool → Queue → Option Queue
  join_thread true q = set_not_running q.thread_state q
  join_thread false q = none

  -- The worker in the write phase: `priority_op_` is WRITE, so the phase ends with an empty list.
  unfoldable pub take_write : List Request → Queue → Queue
  take_write (r ∷ rs) q = record q {
    write_queue = rs;
    served = q.served ++ r ∷ [];
    worker = testing;
  }
  take_write [] q = record q { sem = signal q.sem; write_phase = false; worker = testing }

  -- The worker in the read phase, which lasts for one round.
  unfoldable pub take_read : List Request → Queue → Queue
  take_read (r ∷ rs) q = record q {
    read_queue = rs;
    served = q.served ++ r ∷ [];
    write_phase = true;
    worker = testing;
  }
  take_read [] q = record q { sem = signal q.sem; write_phase = true; worker = testing }

  -- `sem_.wait() == 0`: the token was the last one, or is to be given back.
  unfoldable pub last_token : Option (Sem × ℕ) → Queue → Option Queue
  last_token none q = none
  last_token (some (s, zero)) q = some (record q { sem = s; worker = leaving })
  last_token (some (s, suc n)) q = some (record q { sem = s; worker = returning })

  -- `else sem_.signal();`
  unfoldable pub give_back : Queue → Queue
  give_back q = record q { sem = signal q.sem; worker = waiting }

  -- `thread_state_.set_to(TERMINATED)`
  unfoldable pub leave : Queue → Queue
  leave q = record q { worker = exited; thread_state = terminated; stops = q.stops - 1 }

  unfoldable pub test_state : ThreadState → Queue → Option Queue
  test_state terminating q = some (record q { worker = asking })
  test_state _ q = some (record q { worker = waiting })

  unfoldable pub start_round : Option (Sem × ℕ) → Queue → Option Queue
  start_round none q = none
  start_round (some (s, n)) q = some (record q { sem = s; worker = taking })

  -- One step of the worker; `none` where it is blocked or has left the loop.
  unfoldable pub work : Pc → Queue → Option Queue
  work waiting q = start_round (wait q.sem) q
  work taking q =
      some (if q.write_phase then take_write q.write_queue q else take_read q.read_queue q)
  work testing q = test_state q.thread_state q
  work asking q = last_token (wait q.sem) q
  work returning q = some (give_back q)
  work leaving q = some (leave q)
  work exited q = none

  unfoldable pub keep : Queue → Result Queue → Queue
  keep q (ok q') = q'
  keep q (throws e) = q

  unfoldable pub or_stay : Queue → Option Queue → Queue
  or_stay q none = q
  or_stay q (some q') = q'

  -- A step that is not enabled changes nothing.
  unfoldable pub step : Queue → Action → Queue
  step q (submits r) = keep q (add_request (some r) q)
  step q (cancels r) = keep q (cancel_request (some r) q)
  step q (pushes id) = push_found (find id q.adding) q
  step q (erases id) = cancel_found (find id q.cancelling) q
  step q signal_call = or_stay q (do_signal q.signals q)
  step q wait_call = or_stay q (do_wait q.waits (wait q.sem) q)
  step q stop_call = or_stay q (stop_thread q.thread_state q)
  step q join_call = or_stay q (join_thread (has_exited q.worker) q)
  step q work_step = or_stay q (work q.worker q)

  unfoldable pub run : Queue → List Action → Queue
  run q [] = q
  run q (a ∷ as_) = run (step q a) as_

  -- The queue after its constructor: the worker runs and the lists are empty.
  unfoldable pub start_queue : Sem → Queue
  start_queue s = record {
    write_queue = [];
    read_queue = [];
    thread_state = running;
    sem = s;
    worker = waiting;
    adding = [];
    cancelling = [];
    write_phase = true;
    signals = 0;
    waits = 0;
    stops = 0;
    served = [];
    cancelled = [];
    accepted = [];
  }
