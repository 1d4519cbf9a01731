-- ===== src/Io/DiskQueue/Stopping.antt =====
-- The rounds of the worker of foxxll/io/request_queue_impl_qwqr.cpp after `stop_thread`
-- (foxxll/io/request_queue_impl_worker.cpp).
use foxxll.Prelude.{
  ℕ, zero, suc, ◌+◌, ◌-◌, ◌*◌, ◌≤◌, ◌<◌, ◌≡◌, ◌∙◌, sym, subst, refl, ap, Bool, true, false, inl,
  inr, ◌⊎◌, List, [], ◌∷◌, some, arith, length, if◌then◌else◌,
}
use foxxll.Io.DiskQueue.{
  Semaphore, Request, terminating, terminated, waiting, testing, asking, exited, Queue, take_write,
  take_read, last_token, give_back, leave, test_state, work, Action, work_step, or_stay, step, run,
}
use foxxll.Io.DiskQueue.Tokens.{held, to_stop, Balanced}
use foxxll.Io.DiskQueue.Invariant.{step-Balanced}
use foxxll.Io.DiskQueue.Rounds.{
  mismatch_le, no_writes, no_reads, some_reads, some_writes, rank, three, took, started, taken,
}

-- So many rounds of the worker: it waits, takes, tests, waits again, and gives back or leaves.
unfoldable pub last_rounds : ℕ → List Action
last_rounds zero = []
last_rounds (suc n) = work_step ∷ work_step ∷ work_step ∷ work_step ∷ work_step ∷ last_rounds n

module _ ⦃semaphore : Semaphore⦄ where
  open semaphore use {Sem, value, signal, wait, wait_pos}

  -- The state is TERMINATING, the worker is about to wait, and no other thread stands between a
  -- change of a list or of the state and its call of `sem_`.
  pub record Stopping (q : Queue) : Type 0 where
    pub balanced : Balanced q
    pub at_wait : q.worker ≡ waiting
    pub ends : q.thread_state ≡ terminating
    pub no_signal : q.signals ≡ 0
    pub no_wait : q.waits ≡ 0

  -- The worker has left the loop, with nothing left in the lists.
  pub record Stopped (q : Queue) : Type 0 where
    pub left_loop : q.worker ≡ exited
    pub ended : q.thread_state ≡ terminated
    pub none_left : length q.read_queue + length q.write_queue ≡ 0

  -- What taking a request does, or finding none in the list of the phase.
  record Took (q q' : Queue) : Type 0 where
    at_test : q'.worker ≡ testing
    same_state : q'.thread_state ≡ q.thread_state
    same_signals : q'.signals ≡ q.signals
    same_waits : q'.waits ≡ q.waits
    lower : 0 < length q.read_queue + length q.write_queue → rank q' < rank q
    fewer :
        length q'.read_queue + length q'.write_queue ≤ length q.read_queue + length q.write_queue

  write-Took :
      (ws : List Request) (q : Queue) (t : Sem)
      → q.write_queue ≡ ws
      → q.write_phase ≡ true
      → Took q (take_write ws (took q t))
  unfolding take_write took rank
  write-Took [] q t e p = record {
    at_test = refl;
    same_state = refl;
    same_signals = refl;
    same_waits = refl;
    lower = λ h. omega (
      arith,
      no_writes q.write_phase q.read_queue q.write_queue p e,
      some_reads q.read_queue q.write_queue (omega (arith, h, ap length e)),
    );
    fewer = omega arith;
  }
  write-Took (w ∷ ws) q t e p = record {
    at_test = refl;
    same_state = refl;
    same_signals = refl;
    same_waits = refl;
    lower = λ h. omega (arith, ap length e, mismatch_le q.write_phase q.read_queue ws);
    fewer = omega (arith, ap length e);
  }

  read-Took :
      (rs : List Request) (q : Queue) (t : Sem)
      → q.read_queue ≡ rs
      → q.write_phase ≡ false
      → Took q (take_read rs (took q t))
  unfolding take_read took rank
  read-Took [] q t e p = record {
    at_test = refl;
    same_state = refl;
    same_signals = refl;
    same_waits = refl;
    lower = λ h. omega (
      arith,
      no_reads q.write_phase q.read_queue q.write_queue p e,
      some_writes q.read_queue q.write_queue (omega (arith, h, ap length e)),
    );
    fewer = omega arith;
  }
  read-Took (r ∷ rs) q t e p = record {
    at_test = refl;
    same_state = refl;
    same_signals = refl;
    same_waits = refl;
    lower = λ h. omega (arith, ap length e, mismatch_le true rs q.write_queue);
    fewer = omega (arith, ap length e);
  }

  phase-Took :
      (c : Bool) (q : Queue) (t : Sem)
      → q.write_phase ≡ c
      → Took q
          (if c then take_write q.write_queue (took q t) else take_read q.read_queue (took q t))
  phase-Took true q t p = write-Took q.write_queue q t refl p
  phase-Took false q t p = read-Took q.read_queue q t refl p

  -- The first two steps of a round.
  two-Took : (q : Queue) → Stopping q → Took q (step (step q work_step) work_step)
  unfolding held to_stop took
  two-Took q s =
      let (t, e, f) = wait_pos q.sem (length q.read_queue + length q.write_queue) (
        omega (
          arith,
          s.balanced.tokens,
          s.balanced.stop ∙ ap to_stop s.ends,
          ap held s.at_wait,
          s.no_signal,
          s.no_wait,
        )) in
      subst (Took q)
        (sym (
          ap (λ (x : Queue). step x work_step) (started q t _ s.at_wait e) ∙ taken (took q t) refl))
        (phase-Took q.write_phase q t refl)

  -- The test of the state: the worker leaves, or goes on with the same lists.
  Tested : Queue → Queue → Type 0
  Tested q q' =
      Stopped q'
      ⊎ (Stopping q' × (rank q' ≡ rank q) × (0 < length q.read_queue + length q.write_queue))

  -- The steps from the test of the state on: the worker has left, or waits.
  unfoldable pub tested : ℕ → Sem → Queue → Queue
  tested zero u q = record q {
    sem = u;
    worker = exited;
    thread_state = terminated;
    stops = q.stops - 1;
  }
  tested (suc n) u q = record q { sem = signal u; worker = waiting }

  test_step :
      (q : Queue)
      → q.worker ≡ testing
      → q.thread_state ≡ terminating
      → step q work_step ≡ record q { worker = asking }
  unfolding step work or_stay test_state
  test_step q e t = cc

  two_more :
      (n : ℕ) (u : Sem) (q : Queue)
      → wait q.sem ≡ some (u, n)
      → step (step (record q { worker = asking }) work_step) work_step ≡ tested n u q
  unfolding step work or_stay last_token give_back leave tested
  two_more zero u q f = rw f refl
  two_more (suc n) u q f = rw f refl

  -- The first of them, `three` without the two that take.
  pub three-tested :
      (n : ℕ) (u : Sem) (q : Queue)
      → q.worker ≡ testing
      → q.thread_state ≡ terminating
      → wait q.sem ≡ some (u, n)
      → three q ≡ tested n u q
  unfolding three
  three-tested n u q e t f =
      ap (λ (x : Queue). step (step x work_step) work_step) (test_step q e t) ∙ two_more n u q f

  tokens_left :
      (q : Queue)
      → Balanced q
      → q.worker ≡ testing
      → q.thread_state ≡ terminating
      → q.signals ≡ 0
      → q.waits ≡ 0
      → value q.sem ≡ suc (length q.read_queue + length q.write_queue)
  unfolding held to_stop
  tokens_left q b e t n w = omega (arith, b.tokens, b.stop ∙ ap to_stop t, ap held e, n, w)

  token-Tested :
      (n : ℕ) (u : Sem) (q : Queue)
      → Balanced (tested n u q)
      → length q.read_queue + length q.write_queue ≡ n
      → q.thread_state ≡ terminating
      → q.signals ≡ 0
      → q.waits ≡ 0
      → Tested q (tested n u q)
  unfolding Tested tested rank
  token-Tested zero u q b l t s w = inl (record { left_loop = refl; ended = refl; none_left = l })
  token-Tested (suc n) u q b l t s w = inr (
    record { balanced = b; at_wait = refl; ends = t; no_signal = s; no_wait = w },
    refl,
    omega (arith, l),
  )

  three-Balanced : (q : Queue) → Balanced q → Balanced (three q)
  unfolding three
  three-Balanced q b =
      step-Balanced work_step (step (step q work_step) work_step)
        (step-Balanced work_step (step q work_step) (step-Balanced work_step q b))

  test-Tested :
      (q : Queue)
      → Balanced q
      → q.worker ≡ testing
      → q.thread_state ≡ terminating
      → q.signals ≡ 0
      → q.waits ≡ 0
      → Tested q (three q)
  test-Tested q b e t n w =
      let m = length q.read_queue + length q.write_queue in
      let (u, f, g) = wait_pos q.sem m (tokens_left q b e t n w) in
      let same = three-tested m u q e t f in
      subst (Tested q) (sym same)
        (token-Tested m u q (subst Balanced same (three-Balanced q b)) refl t n w)

  -- A whole round.
  unfoldable five : Queue → Queue
  five q = three (step (step q work_step) work_step)

  round-Stopping :
      (q : Queue)
      → Stopping q
      → Stopped (five q) ⊎ (Stopping (five q) × (rank (five q) < rank q) × (0 < rank (five q)))
  unfolding five Tested rank
  round-Stopping q s =
      let q2 = step (step q work_step) work_step in
      let k = two-Took q s in
      elim (test-Tested q2
        (step-Balanced work_step (step q work_step) (step-Balanced work_step q s.balanced))
        k.at_test (k.same_state ∙ s.ends) (k.same_signals ∙ s.no_signal)
        (k.same_waits ∙ s.no_wait)) [
          | inl x ↦ inl x
          | inr (x, r, p) ↦
              inr (x, omega (arith, r, k.lower (omega (arith, p, k.fewer))), omega (arith, r, p))
        ]

  pub exited_step : (q : Queue) → q.worker ≡ exited → step q work_step ≡ q
  unfolding step work or_stay
  exited_step q e = cc

  five-still : (q : Queue) → Stopped q → five q ≡ q
  unfolding five three
  five-still q s =
      let still = exited_step q s.left_loop in rw (still, still, still, still, still) refl

  stays : (n : ℕ) (q : Queue) → Stopped q → run q (last_rounds n) ≡ q
  unfolding run last_rounds five three
  stays zero q s = refl
  stays (suc n) q s = ap (λ (x : Queue). run x (last_rounds n)) (five-still q s) ∙ stays n q s

  ends_within :
      (n : ℕ) (q : Queue) → Stopping q → rank q ≤ n + 1 → Stopped (run q (last_rounds (suc n)))
  unfolding run last_rounds five three
  ends_within zero q s h = elim (round-Stopping q s) [
    | inl x ↦ x
    | inr (x, l, p) ↦ absurd (omega (arith, h, l, p))
  ]
  ends_within (suc n) q s h = elim (round-Stopping q s) [
    | inl x ↦ subst Stopped (sym (stays (suc n) (five q) x)) x
    | inr (x, l, p) ↦ ends_within n (five q) x (omega (arith, h, l))
  ]

  -- When `stop_thread` has set the state and signalled, no other thread stands between a change of a
  -- list and its call of the semaphore, and the worker is about to wait, with n requests in the two
  -- lists: the worker alone leaves its loop within 2 n + 1 rounds of five steps, sets the state to TERMINATED and
  -- has nothing left in the lists. So `stop_thread` does not wait for it for ever.
  pub run-Stopped :
      (n : ℕ) (q : Queue)
      → Stopping q
      → length q.read_queue + length q.write_queue ≡ n
      → Stopped (run q (last_rounds (suc (2 * n))))
  unfolding rank
  run-Stopped n q s e =
      ends_within (2 * n) q s
        (omega (arith, e, mismatch_le q.write_phase q.read_queue q.write_queue))
