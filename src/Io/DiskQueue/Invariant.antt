-- ===== src/Io/DiskQueue/Invariant.antt =====
-- The tokens over the steps of the worker of foxxll/io/request_queue_impl_qwqr.cpp and over the runs
-- of the queue.
use foxxll.Prelude.{
  ℕ, zero, suc, ◌≡◌, refl, ◌∙◌, ap, Bool, true, false, List, [], ◌∷◌, Option, none, some,
  if◌then◌else◌, length, arith,
}
use foxxll.Io.DiskQueue.{
  Semaphore, Request, ThreadState, not_running, running, terminating, terminated, Pc, waiting,
  taking, testing, asking, returning, leaving, exited, find, Queue, take_write, take_read,
  last_token, give_back, leave, test_state, start_round, work, Action, submits, cancels, pushes,
  erases, signal_call, wait_call, stop_call, join_call, has_exited, work_step, or_stay, step, run,
  start_queue,
}
use foxxll.Io.DiskQueue.Tokens.{
  held, is_ending, to_stop, push_found-Balanced, cancel_found-Balanced, wait-value, Balanced,
  add_request-Balanced, cancel_request-Balanced, do_signal-Balanced, do_wait-Balanced,
  stop_thread-Balanced, join_thread-Balanced,
}

module _ ⦃semaphore : Semaphore⦄ where
  open semaphore use {Sem, value, signal, wait, value-signal}

  pub take_write-Balanced :
      (rs : List Request) (q : Queue)
      → q.worker ≡ taking
      → q.write_queue ≡ rs
      → Balanced q
      → Balanced (take_write rs q)
  unfolding take_write held
  take_write-Balanced [] q w e b = record {
    tokens = omega (arith, b.tokens, ap held w, value-signal q.sem);
    stop = b.stop;
    ending = λ h. absurd (cc h);
  }
  take_write-Balanced (r ∷ rs) q w e b = record {
    tokens = omega (arith, b.tokens, ap held w, ap length e);
    stop = b.stop;
    ending = λ h. absurd (cc h);
  }

  pub take_read-Balanced :
      (rs : List Request) (q : Queue)
      → q.worker ≡ taking
      → q.read_queue ≡ rs
      → Balanced q
      → Balanced (take_read rs q)
  unfolding take_read held
  take_read-Balanced [] q w e b = record {
    tokens = omega (arith, b.tokens, ap held w, value-signal q.sem);
    stop = b.stop;
    ending = λ h. absurd (cc h);
  }
  take_read-Balanced (r ∷ rs) q w e b = record {
    tokens = omega (arith, b.tokens, ap held w, ap length e);
    stop = b.stop;
    ending = λ h. absurd (cc h);
  }

  take-Balanced :
      (c : Bool) (q : Queue)
      → q.worker ≡ taking
      → Balanced q
      → Balanced (if c then take_write q.write_queue q else take_read q.read_queue q)
  take-Balanced true q w b = take_write-Balanced q.write_queue q w refl b
  take-Balanced false q w b = take_read-Balanced q.read_queue q w refl b

  last_token-Balanced :
      (w : Option (Sem × ℕ)) (q : Queue)
      → q.worker ≡ asking
      → wait q.sem ≡ w
      → Balanced q
      → Balanced (or_stay q (last_token w q))
  unfolding last_token or_stay held
  last_token-Balanced none q e f b = b
  last_token-Balanced (some (s, zero)) q e f b = record {
    tokens = omega (arith, b.tokens, ap held e, wait-value q.sem s 0 f);
    stop = b.stop;
    ending = λ h. b.ending (ap is_ending e);
  }
  last_token-Balanced (some (s, suc n)) q e f b = record {
    tokens = omega (arith, b.tokens, ap held e, wait-value q.sem s (suc n) f);
    stop = b.stop;
    ending = λ h. absurd (cc h);
  }

  give_back-Balanced : (q : Queue) → q.worker ≡ returning → Balanced q → Balanced (give_back q)
  unfolding give_back held
  give_back-Balanced q e b = record {
    tokens = omega (arith, b.tokens, ap held e, value-signal q.sem);
    stop = b.stop;
    ending = λ h. absurd (cc h);
  }

  leave-Balanced : (q : Queue) → q.worker ≡ leaving → Balanced q → Balanced (leave q)
  unfolding leave held to_stop
  leave-Balanced q e b =
      let one : q.stops ≡ 1 = b.stop ∙ ap to_stop (b.ending (ap is_ending e)) in
      record {
        tokens = omega (arith, b.tokens, one, ap held e);
        stop = omega (arith, one);
        ending = λ h. absurd (cc h);
      }

  test_state-Balanced :
      (t : ThreadState) (q : Queue)
      → q.worker ≡ testing
      → q.thread_state ≡ t
      → Balanced q
      → Balanced (or_stay q (test_state t q))
  unfolding test_state or_stay held
  test_state-Balanced terminating q e t b = record {
    tokens = omega (arith, b.tokens, ap held e);
    stop = b.stop;
    ending = λ h. t;
  }
  test_state-Balanced running q e t b = record {
    tokens = omega (arith, b.tokens, ap held e);
    stop = b.stop;
    ending = λ h. absurd (cc h);
  }
  test_state-Balanced not_running q e t b = record {
    tokens = omega (arith, b.tokens, ap held e);
    stop = b.stop;
    ending = λ h. absurd (cc h);
  }
  test_state-Balanced terminated q e t b = record {
    tokens = omega (arith, b.tokens, ap held e);
    stop = b.stop;
    ending = λ h. absurd (cc h);
  }

  start_round-Balanced :
      (w : Option (Sem × ℕ)) (q : Queue)
      → q.worker ≡ waiting
      → wait q.sem ≡ w
      → Balanced q
      → Balanced (or_stay q (start_round w q))
  unfolding start_round or_stay held
  start_round-Balanced none q e f b = b
  start_round-Balanced (some (s, n)) q e f b = record {
    tokens = omega (arith, b.tokens, ap held e, wait-value q.sem s n f);
    stop = b.stop;
    ending = λ h. absurd (cc h);
  }

  work-Balanced : (c : Pc) (q : Queue) → q.worker ≡ c → Balanced q → Balanced (or_stay q (work c q))
  unfolding work or_stay
  work-Balanced waiting q e b = start_round-Balanced (wait q.sem) q e refl b
  work-Balanced taking q e b = take-Balanced q.write_phase q e b
  work-Balanced testing q e b = test_state-Balanced q.thread_state q e refl b
  work-Balanced asking q e b = last_token-Balanced (wait q.sem) q e refl b
  work-Balanced returning q e b = give_back-Balanced q e b
  work-Balanced leaving q e b = leave-Balanced q e b
  work-Balanced exited q e b = b

  pub step-Balanced : (a : Action) (q : Queue) → Balanced q → Balanced (step q a)
  unfolding step
  step-Balanced (submits r) q b = add_request-Balanced r q b
  step-Balanced (cancels r) q b = cancel_request-Balanced r q b
  step-Balanced (pushes id) q b = push_found-Balanced (find id q.adding) q b
  step-Balanced (erases id) q b = cancel_found-Balanced (find id q.cancelling) q b
  step-Balanced signal_call q b = do_signal-Balanced q.signals q refl b
  step-Balanced wait_call q b = do_wait-Balanced q.waits (wait q.sem) q refl refl b
  step-Balanced stop_call q b = stop_thread-Balanced q.thread_state q refl b
  step-Balanced join_call q b = join_thread-Balanced (has_exited q.worker) q b
  step-Balanced work_step q b = work-Balanced q.worker q refl b

  pub run-Balanced : (actions : List Action) (q : Queue) → Balanced q → Balanced (run q actions)
  unfolding run
  run-Balanced [] q b = b
  run-Balanced (a ∷ actions) q b = run-Balanced actions (step q a) (step-Balanced a q b)

  pub start_queue-Balanced : (s : Sem) → value s ≡ 0 → Balanced (start_queue s)
  unfolding start_queue held to_stop
  start_queue-Balanced s z = record {
    tokens = omega (arith, z);
    stop = refl;
    ending = λ h. absurd (cc h);
  }

  -- From the constructor on, whatever the threads do and in whatever order: the value of the
  -- semaphore, the signals that are still to come and the token that the worker holds are together
  -- the queued requests, the waits of `cancel_request` that are still to come and the stop tokens;
  -- there is a stop token exactly while the state is TERMINATING.
  pub start_queue-run :
      (s : Sem) → value s ≡ 0 → (actions : List Action) → Balanced (run (start_queue s) actions)
  start_queue-run s z actions = run-Balanced actions (start_queue s) (start_queue-Balanced s z)
