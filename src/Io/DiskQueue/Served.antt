-- ===== src/Io/DiskQueue/Served.antt =====
-- What becomes of the requests that foxxll/io/request_queue_impl_qwqr.cpp accepts.
use foxxll.Prelude.{
  ℕ, zero, suc, ◌+◌, ◌≡◌, refl, ap, Bool, true, false, List, [], ◌∷◌, ◌++◌, Option, none, some,
  Bool-cases, if◌then◌else◌, arith, ◌==◌, inl, inr,
}
use foxxll.Io.DiskQueue.{
  Semaphore, Op, read_op, write_op, Request, ThreadState, not_running, running, terminating,
  terminated, Pc, waiting, taking, testing, asking, returning, leaving, exited, find, push_found,
  cancel_found, contains, erase, Queue, push, if_running, add_request, remove, in_queue,
  cancel_locked, cancel_request, do_signal, do_wait, stop_thread, set_not_running, join_thread,
  take_write, take_read, last_token, give_back, leave, test_state, start_round, work, Action,
  submits, cancels, pushes, erases, signal_call, wait_call, stop_call, join_call, has_exited,
  work_step, keep, or_stay, step, run, start_queue,
}

-- How often a request stands in a list.
unfoldable pub count : ℕ → List Request → ℕ
count id [] = 0
count id (r ∷ rs) = (if r.id == id then 1 else 0) + count id rs

count-append : (id : ℕ) (xs ys : List Request) → count id (xs ++ ys) ≡ count id xs + count id ys
unfolding count
count-append id [] ys = omega arith
count-append id (x ∷ xs) ys = omega (arith, count-append id xs ys)

count-snoc :
    (id : ℕ) (xs : List Request) (r : Request)
    → count id (xs ++ r ∷ []) ≡ count id xs + (if r.id == id then 1 else 0)
unfolding count
count-snoc id xs r = omega (arith, count-append id xs (r ∷ []))

count-erase :
    (id : ℕ) (r : Request) (rs : List Request)
    → contains r.id rs ≡ true
    → count id (erase r.id rs) + (if r.id == id then 1 else 0) ≡ count id rs
unfolding contains erase count
count-erase id r [] c = cc
count-erase id r (s ∷ rs) c = elim (Bool-cases (s.id == r.id)) [
  | inl e ↦ let same : s.id ≡ r.id = ground arith in rw (e, same) (omega arith)
  | inr e ↦
      let rest : contains r.id rs ≡ true = ground (arith, c, e) in
      rw e (omega (arith, count-erase id r rs rest))
]

module _ ⦃semaphore : Semaphore⦄ where
  open semaphore use {Sem, wait}

  -- Every request that was accepted has been served or cancelled or stands in a list.
  pub record Conserved (q : Queue) : Type 0 where
    pub all_there :
        (id : ℕ)
        → count id q.accepted
          ≡ count id q.served
            + count id q.cancelled
            + count id q.read_queue
            + count id q.write_queue

  push-Conserved : (o : Op) (r : Request) (q : Queue) → Conserved q → Conserved (push o r q)
  unfolding push
  push-Conserved read_op r q b = record {
    all_there = λ id.
        omega (arith, b.all_there id, count-snoc id q.accepted r, count-snoc id q.read_queue r);
  }
  push-Conserved write_op r q b = record {
    all_there = λ id.
        omega (arith, b.all_there id, count-snoc id q.accepted r, count-snoc id q.write_queue r);
  }

  add_request-Conserved :
      (r : Request) (q : Queue) → Conserved q → Conserved (keep q (add_request (some r) q))
  unfolding add_request if_running keep
  add_request-Conserved r q b =
      elim q.thread_state
        as (λ t. Conserved (keep q (if_running t (record q { adding = r ∷ q.adding })))) [
          | running ↦ record { all_there = b.all_there }
          | not_running ↦ b
          | terminating ↦ b
          | terminated ↦ b
        ]

  push_found-Conserved : (o : Option Request) (q : Queue) → Conserved q → Conserved (push_found o q)
  unfolding push_found
  push_found-Conserved none q b = b
  push_found-Conserved (some r) q b = push-Conserved r.op r q b

  cancelled-Conserved :
      (o : Op) (r : Request) (q : Queue)
      → Conserved q
      → in_queue o r q ≡ true
      → Conserved (record (remove o r q) {
        cancelling = erase r.id q.cancelling;
        cancelled = q.cancelled ++ r ∷ [];
        waits = q.waits + 1;
      })
  unfolding remove in_queue
  cancelled-Conserved read_op r q b c = record {
    all_there = λ id.
        omega (arith, b.all_there id, count-snoc id q.cancelled r, count-erase id r q.read_queue c);
  }
  cancelled-Conserved write_op r q b c = record {
    all_there = λ id.
        omega
          (arith, b.all_there id, count-snoc id q.cancelled r, count-erase id r q.write_queue c);
  }

  cancel_locked-Conserved :
      (r : Request) (q : Queue) → Conserved q → Conserved ((cancel_locked r q).0)
  unfolding cancel_locked
  cancel_locked-Conserved r q b = elim (Bool-cases (in_queue r.op r q)) [
    | inl y ↦ rw y (cancelled-Conserved r.op r q b y)
    | inr n ↦ rw n (record { all_there = b.all_there })
  ]

  cancel_request-Conserved :
      (r : Request) (q : Queue) → Conserved q → Conserved (keep q (cancel_request (some r) q))
  unfolding cancel_request if_running keep
  cancel_request-Conserved r q b =
      elim q.thread_state
        as (λ t. Conserved (keep q (if_running t (record q { cancelling = r ∷ q.cancelling })))) [
          | running ↦ record { all_there = b.all_there }
          | not_running ↦ b
          | terminating ↦ b
          | terminated ↦ b
        ]

  cancel_found-Conserved :
      (o : Option Request) (q : Queue) → Conserved q → Conserved (cancel_found o q)
  unfolding cancel_found
  cancel_found-Conserved none q b = b
  cancel_found-Conserved (some r) q b = cancel_locked-Conserved r q b

  do_signal-Conserved : (n : ℕ) (q : Queue) → Conserved q → Conserved (or_stay q (do_signal n q))
  unfolding do_signal or_stay
  do_signal-Conserved zero q b = b
  do_signal-Conserved (suc n) q b = record { all_there = b.all_there }

  do_wait-Conserved :
      (n : ℕ) (w : Option (Sem × ℕ)) (q : Queue)
      → Conserved q
      → Conserved (or_stay q (do_wait n w q))
  unfolding do_wait or_stay
  do_wait-Conserved (suc n) (some (s, v)) q b = record { all_there = b.all_there }
  do_wait-Conserved zero (some w) q b = b
  do_wait-Conserved zero none q b = b
  do_wait-Conserved (suc n) none q b = b

  stop_thread-Conserved :
      (t : ThreadState) (q : Queue) → Conserved q → Conserved (or_stay q (stop_thread t q))
  unfolding stop_thread or_stay
  stop_thread-Conserved running q b = record { all_there = b.all_there }
  stop_thread-Conserved not_running q b = b
  stop_thread-Conserved terminating q b = b
  stop_thread-Conserved terminated q b = b

  set_not_running-Conserved :
      (t : ThreadState) (q : Queue) → Conserved q → Conserved (or_stay q (set_not_running t q))
  unfolding set_not_running or_stay
  set_not_running-Conserved terminated q b = record { all_there = b.all_there }
  set_not_running-Conserved not_running q b = b
  set_not_running-Conserved running q b = b
  set_not_running-Conserved terminating q b = b

  join_thread-Conserved :
      (gone : Bool) (q : Queue) → Conserved q → Conserved (or_stay q (join_thread gone q))
  unfolding join_thread or_stay
  join_thread-Conserved true q b = set_not_running-Conserved q.thread_state q b
  join_thread-Conserved false q b = b

  take_write-Conserved :
      (rs : List Request) (q : Queue)
      → q.write_queue ≡ rs
      → Conserved q
      → Conserved (take_write rs q)
  unfolding take_write count
  take_write-Conserved [] q e b = record { all_there = b.all_there }
  take_write-Conserved (r ∷ rs) q e b = record {
    all_there = λ id. omega (arith, b.all_there id, ap (count id) e, count-snoc id q.served r);
  }

  take_read-Conserved :
      (rs : List Request) (q : Queue) → q.read_queue ≡ rs → Conserved q → Conserved (take_read rs q)
  unfolding take_read count
  take_read-Conserved [] q e b = record { all_there = b.all_there }
  take_read-Conserved (r ∷ rs) q e b = record {
    all_there = λ id. omega (arith, b.all_there id, ap (count id) e, count-snoc id q.served r);
  }

  take-Conserved :
      (c : Bool) (q : Queue)
      → Conserved q
      → Conserved (if c then take_write q.write_queue q else take_read q.read_queue q)
  take-Conserved true q b = take_write-Conserved q.write_queue q refl b
  take-Conserved false q b = take_read-Conserved q.read_queue q refl b

  last_token-Conserved :
      (w : Option (Sem × ℕ)) (q : Queue) → Conserved q → Conserved (or_stay q (last_token w q))
  unfolding last_token or_stay
  last_token-Conserved none q b = b
  last_token-Conserved (some (s, zero)) q b = record { all_there = b.all_there }
  last_token-Conserved (some (s, suc n)) q b = record { all_there = b.all_there }

  test_state-Conserved :
      (t : ThreadState) (q : Queue) → Conserved q → Conserved (or_stay q (test_state t q))
  unfolding test_state or_stay
  test_state-Conserved terminating q b = record { all_there = b.all_there }
  test_state-Conserved running q b = record { all_there = b.all_there }
  test_state-Conserved not_running q b = record { all_there = b.all_there }
  test_state-Conserved terminated q b = record { all_there = b.all_there }

  start_round-Conserved :
      (w : Option (Sem × ℕ)) (q : Queue) → Conserved q → Conserved (or_stay q (start_round w q))
  unfolding start_round or_stay
  start_round-Conserved none q b = b
  start_round-Conserved (some (s, n)) q b = record { all_there = b.all_there }

  work-Conserved : (c : Pc) (q : Queue) → Conserved q → Conserved (or_stay q (work c q))
  unfolding work or_stay give_back leave
  work-Conserved waiting q b = start_round-Conserved (wait q.sem) q b
  work-Conserved taking q b = take-Conserved q.write_phase q b
  work-Conserved testing q b = test_state-Conserved q.thread_state q b
  work-Conserved asking q b = last_token-Conserved (wait q.sem) q b
  work-Conserved returning q b = record { all_there = b.all_there }
  work-Conserved leaving q b = record { all_there = b.all_there }
  work-Conserved exited q b = b

  pub step-Conserved : (a : Action) (q : Queue) → Conserved q → Conserved (step q a)
  unfolding step
  step-Conserved (submits r) q b = add_request-Conserved r q b
  step-Conserved (cancels r) q b = cancel_request-Conserved r q b
  step-Conserved (pushes id) q b = push_found-Conserved (find id q.adding) q b
  step-Conserved (erases id) q b = cancel_found-Conserved (find id q.cancelling) q b
  step-Conserved signal_call q b = do_signal-Conserved q.signals q b
  step-Conserved wait_call q b = do_wait-Conserved q.waits (wait q.sem) q b
  step-Conserved stop_call q b = stop_thread-Conserved q.thread_state q b
  step-Conserved join_call q b = join_thread-Conserved (has_exited q.worker) q b
  step-Conserved work_step q b = work-Conserved q.worker q b

  run-Conserved : (actions : List Action) (q : Queue) → Conserved q → Conserved (run q actions)
  unfolding run
  run-Conserved [] q b = b
  run-Conserved (a ∷ actions) q b = run-Conserved actions (step q a) (step-Conserved a q b)

  -- From the constructor on, whatever the threads do and in whatever order: a request stands in the
  -- two lists, among the served and among the cancelled as often together as it was accepted by
  -- `add_request`. So none is lost, none is served twice, and none is both served and cancelled.
  pub start_queue-Conserved :
      (s : Sem) (actions : List Action) → Conserved (run (start_queue s) actions)
  unfolding start_queue count
  start_queue-Conserved s actions =
      run-Conserved actions (start_queue s) (record { all_there = λ id. refl })
