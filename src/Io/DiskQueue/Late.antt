-- ===== src/Io/DiskQueue/Late.antt =====
-- Requests that reach the lists of foxxll/io/request_queue_impl_qwqr.cpp when the worker has left.
use foxxll.Prelude.{
  Bool, true, false, ℕ, zero, suc, ◌≡◌, refl, sym, Bool-cases, inl, inr, List, [], ◌∷◌, ◌++◌,
  Option, none, some, subst,
}
use foxxll.Io.DiskQueue.{
  Semaphore, Op, read_op, write_op, Request, ThreadState, not_running, running, terminating,
  terminated, exited, find, Queue, push, if_running, add_request, push_found, remove, in_queue,
  cancel_locked, cancel_request, cancel_found, do_signal, do_wait, stop_thread, set_not_running,
  join_thread, work, Action, submits, cancels, pushes, erases, signal_call, wait_call, stop_call,
  join_call, has_exited, work_step, keep, or_stay, step, run,
}
use foxxll.Io.DiskQueue.Stopping.{exited_step}

module _ ⦃semaphore : Semaphore⦄ where
  open semaphore use {Sem, wait}

  -- The worker has left its loop, and what it has served is fixed.
  record Left (served : List Request) (q : Queue) : Type 0 where
    gone : q.worker ≡ exited
    kept : q.served ≡ served

  push-Left :
      (o : Op) (r : Request) (served : List Request) (q : Queue)
      → Left served q
      → Left served (push o r q)
  unfolding push
  push-Left read_op r served q l = record { gone = l.gone; kept = l.kept }
  push-Left write_op r served q l = record { gone = l.gone; kept = l.kept }

  push_found-Left :
      (o : Option Request) (served : List Request) (q : Queue)
      → Left served q
      → Left served (push_found o q)
  unfolding push_found
  push_found-Left none served q l = l
  push_found-Left (some r) served q l = push-Left r.op r served q l

  removed-Left :
      (o : Op) (r : Request) (served : List Request) (q : Queue) (later erased : List Request)
      (n : ℕ)
      → Left served q
      → Left served (record (remove o r q) { cancelling = later; cancelled = erased; waits = n })
  unfolding remove
  removed-Left read_op r served q later erased n l = record { gone = l.gone; kept = l.kept }
  removed-Left write_op r served q later erased n l = record { gone = l.gone; kept = l.kept }

  cancel_locked-Left :
      (r : Request) (served : List Request) (q : Queue)
      → Left served q
      → Left served ((cancel_locked r q).0)
  unfolding cancel_locked
  cancel_locked-Left r served q l = elim (Bool-cases (in_queue r.op r q)) [
    | inl y ↦ rw y (removed-Left r.op r served q _ _ _ l)
    | inr n ↦ rw n (record { gone = l.gone; kept = l.kept })
  ]

  cancel_found-Left :
      (o : Option Request) (served : List Request) (q : Queue)
      → Left served q
      → Left served (cancel_found o q)
  unfolding cancel_found
  cancel_found-Left none served q l = l
  cancel_found-Left (some r) served q l = cancel_locked-Left r served q l

  tested-Left :
      (t : ThreadState) (served : List Request) (q q' : Queue)
      → Left served q
      → Left served q'
      → Left served (keep q (if_running t q'))
  unfolding if_running keep
  tested-Left running served q q' l m = m
  tested-Left not_running served q q' l m = l
  tested-Left terminating served q q' l m = l
  tested-Left terminated served q q' l m = l

  do_signal-Left :
      (n : ℕ) (served : List Request) (q : Queue)
      → Left served q
      → Left served (or_stay q (do_signal n q))
  unfolding do_signal or_stay
  do_signal-Left zero served q l = l
  do_signal-Left (suc n) served q l = record { gone = l.gone; kept = l.kept }

  do_wait-Left :
      (n : ℕ) (w : Option (Sem × ℕ)) (served : List Request) (q : Queue)
      → Left served q
      → Left served (or_stay q (do_wait n w q))
  unfolding do_wait or_stay
  do_wait-Left (suc n) (some (s, v)) served q l = record { gone = l.gone; kept = l.kept }
  do_wait-Left zero (some w) served q l = l
  do_wait-Left zero none served q l = l
  do_wait-Left (suc n) none served q l = l

  stop_thread-Left :
      (t : ThreadState) (served : List Request) (q : Queue)
      → Left served q
      → Left served (or_stay q (stop_thread t q))
  unfolding stop_thread or_stay
  stop_thread-Left running served q l = record { gone = l.gone; kept = l.kept }
  stop_thread-Left not_running served q l = l
  stop_thread-Left terminating served q l = l
  stop_thread-Left terminated served q l = l

  set_not_running-Left :
      (t : ThreadState) (served : List Request) (q : Queue)
      → Left served q
      → Left served (or_stay q (set_not_running t q))
  unfolding set_not_running or_stay
  set_not_running-Left terminated served q l = record { gone = l.gone; kept = l.kept }
  set_not_running-Left not_running served q l = l
  set_not_running-Left running served q l = l
  set_not_running-Left terminating served q l = l

  join_thread-Left :
      (gone : Bool) (served : List Request) (q : Queue)
      → Left served q
      → Left served (or_stay q (join_thread gone q))
  unfolding join_thread or_stay
  join_thread-Left true served q l = set_not_running-Left q.thread_state served q l
  join_thread-Left false served q l = l

  step-Left :
      (a : Action) (served : List Request) (q : Queue) → Left served q → Left served (step q a)
  unfolding step add_request cancel_request work or_stay
  step-Left (submits r) served q l =
      tested-Left q.thread_state served q (record q { adding = r ∷ q.adding }) l
        (record { gone = l.gone; kept = l.kept })
  step-Left (cancels r) served q l =
      tested-Left q.thread_state served q (record q { cancelling = r ∷ q.cancelling }) l
        (record { gone = l.gone; kept = l.kept })
  step-Left (pushes id) served q l = push_found-Left (find id q.adding) served q l
  step-Left (erases id) served q l = cancel_found-Left (find id q.cancelling) served q l
  step-Left signal_call served q l = do_signal-Left q.signals served q l
  step-Left wait_call served q l = do_wait-Left q.waits (wait q.sem) served q l
  step-Left stop_call served q l = stop_thread-Left q.thread_state served q l
  step-Left join_call served q l = join_thread-Left (has_exited q.worker) served q l
  step-Left work_step served q l = subst (Left served) (sym (exited_step q l.gone)) l

  run-Left :
      (actions : List Action) (served : List Request) (q : Queue)
      → Left served q
      → Left served (run q actions)
  unfolding run
  run-Left [] served q l = l
  run-Left (a ∷ actions) served q l = run-Left actions served (step q a) (step-Left a served q l)

  accepted-push : (o : Op) (r : Request) (q : Queue) → (push o r q).accepted ≡ q.accepted ++ r ∷ []
  unfolding push
  accepted-push read_op r q = refl
  accepted-push write_op r q = refl

  -- A thread that found the state RUNNING and pushes its request when the worker has left its loop:
  -- the request is accepted, and whatever the threads do from then on and in whatever order, the
  -- worker stays away and nothing is served.
  pub pushes-Unserved :
      (q : Queue) (id : ℕ) (r : Request) (actions : List Action)
      → q.worker ≡ exited
      → find id q.adding ≡ some r
      → ((step q (pushes id)).accepted ≡ q.accepted ++ r ∷ [])
        × ((run q (pushes id ∷ actions)).worker ≡ exited)
        × ((run q (pushes id ∷ actions)).served ≡ q.served)
  unfolding step push_found
  pushes-Unserved q id r actions e f =
      let l = run-Left (pushes id ∷ actions) q.served q (record { gone = e; kept = refl }) in
      (rw f (accepted-push r.op r q), l.gone, l.kept)
