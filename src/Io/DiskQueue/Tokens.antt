-- ===== src/Io/DiskQueue/Tokens.antt =====
-- The tokens of `sem_` in foxxll/io/request_queue_impl_qwqr.cpp and request_queue_impl_worker.cpp:
-- what the value of the semaphore says about the lists.
use foxxll.Prelude.{
  ℕ, zero, suc, ◌+◌, ◌≡◌, refl, sym, ◌∙◌, ap, Bool, true, false, List, [], ◌∷◌, ◌++◌, Option, none,
  some, Bool-cases, length, length-append, arith, ◌==◌, none-ne-some, Nat-cases, inl, inr,
}
use foxxll.Io.DiskQueue.{
  Semaphore, Op, read_op, write_op, Request, ThreadState, not_running, running, terminating,
  terminated, Pc, taking, asking, returning, leaving, contains, erase, Queue, push, if_running,
  add_request, push_found, remove, in_queue, cancel_locked, cancel_request, cancel_found, do_signal,
  do_wait, stop_thread, set_not_running, join_thread, keep, or_stay,
}

unfoldable pub held : Pc → ℕ
held taking = 1
held returning = 1
held leaving = 1
held _ = 0

-- The worker has found the state TERMINATING, and has not given a token back.
abbrev pub is_ending : Pc → Bool
is_ending asking = true
is_ending leaving = true
is_ending _ = false

unfoldable pub to_stop : ThreadState → ℕ
to_stop terminating = 1
to_stop _ = 0

pub length-erase :
    (id : ℕ) (rs : List Request) → contains id rs ≡ true → length (erase id rs) + 1 ≡ length rs
unfolding contains erase
length-erase id [] c = cc
length-erase id (r ∷ rs) c = elim (Bool-cases (r.id == id)) [
  | inl e ↦ rw e (omega arith)
  | inr e ↦ ground (arith, length-erase id rs)
]

module _ ⦃semaphore : Semaphore⦄ where
  open semaphore use {Sem, value, signal, wait, value-signal, wait_zero, wait_pos}

  pub wait-value :
      (s : Sem) (t : Sem) (n : ℕ) → wait s ≡ some (t, n) → (value s ≡ suc n) × (value t ≡ n)
  wait-value s t n e = elim (Nat-cases (value s)) [
    | inl z ↦ absurd (none-ne-some (sym (wait_zero s z) ∙ e))
    | inr (m, z) ↦ let w = wait_pos s m z in ground (arith, e, w, z)
  ]

  -- Every token stands for a queued request, a cancelled one or a call of `stop_thread`.
  pub record Balanced (q : Queue) : Type 0 where
    pub tokens :
        value q.sem + q.signals + held q.worker
        ≡ length q.read_queue + length q.write_queue + q.waits + q.stops
    pub stop : q.stops ≡ to_stop q.thread_state
    pub ending : is_ending q.worker ≡ true → q.thread_state ≡ terminating

  pub push-Balanced : (o : Op) (r : Request) (q : Queue) → Balanced q → Balanced (push o r q)
  unfolding push
  push-Balanced read_op r q b = record {
    tokens = omega (arith, b.tokens, length-append q.read_queue (r ∷ []));
    stop = b.stop;
    ending = b.ending;
  }
  push-Balanced write_op r q b = record {
    tokens = omega (arith, b.tokens, length-append q.write_queue (r ∷ []));
    stop = b.stop;
    ending = b.ending;
  }

  pub add_request-Balanced :
      (r : Request) (q : Queue) → Balanced q → Balanced (keep q (add_request (some r) q))
  unfolding add_request if_running keep
  add_request-Balanced r q b =
      elim q.thread_state
        as (λ t. Balanced (keep q (if_running t (record q { adding = r ∷ q.adding })))) [
          | running ↦ record { tokens = b.tokens; stop = b.stop; ending = b.ending }
          | not_running ↦ b
          | terminating ↦ b
          | terminated ↦ b
        ]

  pub push_found-Balanced :
      (o : Option Request) (q : Queue) → Balanced q → Balanced (push_found o q)
  unfolding push_found
  push_found-Balanced none q b = b
  push_found-Balanced (some r) q b = push-Balanced r.op r q b

  cancelled-Balanced :
      (o : Op) (r : Request) (q : Queue)
      → Balanced q
      → in_queue o r q ≡ true
      → Balanced (record (remove o r q) {
        cancelling = erase r.id q.cancelling;
        cancelled = q.cancelled ++ r ∷ [];
        waits = q.waits + 1;
      })
  unfolding remove in_queue
  cancelled-Balanced read_op r q b c = record {
    tokens = omega (arith, b.tokens, length-erase r.id q.read_queue c);
    stop = b.stop;
    ending = b.ending;
  }
  cancelled-Balanced write_op r q b c = record {
    tokens = omega (arith, b.tokens, length-erase r.id q.write_queue c);
    stop = b.stop;
    ending = b.ending;
  }

  cancel_locked-Balanced : (r : Request) (q : Queue) → Balanced q → Balanced ((cancel_locked r q).0)
  unfolding cancel_locked
  cancel_locked-Balanced r q b = elim (Bool-cases (in_queue r.op r q)) [
    | inl y ↦ rw y (cancelled-Balanced r.op r q b y)
    | inr n ↦ rw n (record { tokens = b.tokens; stop = b.stop; ending = b.ending })
  ]

  pub cancel_request-Balanced :
      (r : Request) (q : Queue) → Balanced q → Balanced (keep q (cancel_request (some r) q))
  unfolding cancel_request if_running keep
  cancel_request-Balanced r q b =
      elim q.thread_state
        as (λ t. Balanced (keep q (if_running t (record q { cancelling = r ∷ q.cancelling })))) [
          | running ↦ record { tokens = b.tokens; stop = b.stop; ending = b.ending }
          | not_running ↦ b
          | terminating ↦ b
          | terminated ↦ b
        ]

  pub cancel_found-Balanced :
      (o : Option Request) (q : Queue) → Balanced q → Balanced (cancel_found o q)
  unfolding cancel_found
  cancel_found-Balanced none q b = b
  cancel_found-Balanced (some r) q b = cancel_locked-Balanced r q b

  pub do_signal-Balanced :
      (n : ℕ) (q : Queue) → q.signals ≡ n → Balanced q → Balanced (or_stay q (do_signal n q))
  unfolding do_signal or_stay
  do_signal-Balanced zero q e b = b
  do_signal-Balanced (suc n) q e b = record {
    tokens = omega (arith, b.tokens, e, value-signal q.sem);
    stop = b.stop;
    ending = b.ending;
  }

  pub do_wait-Balanced :
      (n : ℕ) (w : Option (Sem × ℕ)) (q : Queue)
      → q.waits ≡ n
      → wait q.sem ≡ w
      → Balanced q
      → Balanced (or_stay q (do_wait n w q))
  unfolding do_wait or_stay
  do_wait-Balanced (suc n) (some (s, v)) q e f b = record {
    tokens = omega (arith, b.tokens, e, wait-value q.sem s v f);
    stop = b.stop;
    ending = b.ending;
  }
  do_wait-Balanced zero (some w) q e f b = b
  do_wait-Balanced zero none q e f b = b
  do_wait-Balanced (suc n) none q e f b = b

  pub stop_thread-Balanced :
      (t : ThreadState) (q : Queue)
      → q.thread_state ≡ t
      → Balanced q
      → Balanced (or_stay q (stop_thread t q))
  unfolding stop_thread or_stay to_stop
  stop_thread-Balanced running q e b = record {
    tokens = omega (arith, b.tokens);
    stop = ground (arith, b.stop, ap to_stop e);
    ending = λ h. refl;
  }
  stop_thread-Balanced not_running q e b = b
  stop_thread-Balanced terminating q e b = b
  stop_thread-Balanced terminated q e b = b

  set_not_running-Balanced :
      (t : ThreadState) (q : Queue)
      → q.thread_state ≡ t
      → Balanced q
      → Balanced (or_stay q (set_not_running t q))
  unfolding set_not_running or_stay to_stop
  set_not_running-Balanced terminated q e b = record {
    tokens = b.tokens;
    stop = b.stop ∙ ap to_stop e;
    ending = λ h. absurd (cc (b.ending h, e));
  }
  set_not_running-Balanced not_running q e b = b
  set_not_running-Balanced running q e b = b
  set_not_running-Balanced terminating q e b = b

  pub join_thread-Balanced :
      (gone : Bool) (q : Queue) → Balanced q → Balanced (or_stay q (join_thread gone q))
  unfolding join_thread or_stay
  join_thread-Balanced true q b = set_not_running-Balanced q.thread_state q refl b
  join_thread-Balanced false q b = b
