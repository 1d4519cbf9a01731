-- ===== src/Io/DiskQueue/Shutdown.antt =====
-- `stop_thread` of foxxll/io/request_queue_impl_worker.cpp (lines 41-65) and the end of the worker.
use foxxll.Prelude.{◌+◌, ◌≡◌, refl, sym, ◌∙◌, ap, [], ◌∷◌, length, arith, subst}
use foxxll.Io.DiskQueue.{
  Semaphore, running, terminating, terminated, testing, exited, Queue, stop_thread, stop_call,
  work_step, or_stay, step, run,
}
use foxxll.Io.DiskQueue.Tokens.{held, to_stop, Balanced}
use foxxll.Io.DiskQueue.Rounds.{three}
use foxxll.Io.DiskQueue.Stopping.{tested, three-tested}

module _ ⦃semaphore : Semaphore⦄ where
  open semaphore use {Sem, value, signal, wait, wait_pos}

  stopped :
      (q : Queue)
      → q.thread_state ≡ running
      → step q stop_call
        ≡ record q { thread_state = terminating; signals = q.signals + 1; stops = q.stops + 1 }
  unfolding step or_stay stop_thread
  stopped q e = cc

  -- What `stop_thread` leaves behind when the worker overtakes its signal.
  pub record LeftBehind (q q' : Queue) : Type 0 where
    pub left_loop : q'.worker ≡ exited
    pub ended : q'.thread_state ≡ terminated
    pub one_left : length q'.read_queue + length q'.write_queue ≡ 1
    pub not_served : q'.served ≡ q.served

  left_behind :
      (u : Sem) (q q1 : Queue)
      → length q1.read_queue + length q1.write_queue ≡ 1
      → q1.served ≡ q.served
      → LeftBehind q (tested 0 u q1)
  unfolding tested
  left_behind u q q1 o s = record { left_loop = refl; ended = refl; one_left = o; not_served = s }

  -- With the state RUNNING, one request queued, no thread between a change of a list or of the state
  -- and its call of the semaphore, and the worker at its test of the state: if the worker tests and
  -- waits between `set_to(TERMINATING)` and `signal()` of `stop_thread`, it takes the token of the queued request for its own and leaves the loop, the
  -- state is TERMINATED, and the request is still queued.
  pub stop_thread-LeftBehind :
      (q : Queue)
      → Balanced q
      → q.thread_state ≡ running
      → q.worker ≡ testing
      → q.signals ≡ 0
      → q.waits ≡ 0
      → length q.read_queue + length q.write_queue ≡ 1
      → LeftBehind q (run q (stop_call ∷ work_step ∷ work_step ∷ work_step ∷ []))
  unfolding run three held to_stop
  stop_thread-LeftBehind q b r e n w o =
      let (t, f, g) =
        wait_pos q.sem 0 (omega (arith, b.tokens, b.stop ∙ ap to_stop r, ap held e, n, w, o)) in
      let q1 : Queue = record q {
        thread_state = terminating;
        signals = q.signals + 1;
        stops = q.stops + 1;
      } in
      subst (LeftBehind q)
        (sym (ap (λ (x : Queue). three x) (stopped q r) ∙ three-tested 0 t q1 e refl f))
        (left_behind t q q1 o refl)
