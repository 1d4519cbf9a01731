-- ===== src/Io/DiskQueue/Progress.antt =====
-- The worker of foxxll/io/request_queue_impl_qwqr.cpp (lines 155-240) over many rounds.
use foxxll.Prelude.{
  ℕ, zero, suc, ◌+◌, ◌≡◌, subst, refl, sym, ◌∙◌, List, [], ◌∷◌, length, arith, ◌*◌, Nat-cases, inl,
  inr, ◌≤◌,
}
use foxxll.Io.DiskQueue.{Semaphore, Request, Queue, Action, work_step, run}
use foxxll.Io.DiskQueue.Rounds.{mismatch_le, Idle, rank, three, full-Round, empty_round, Round-Idle}

-- So many rounds of the worker: it waits, takes and tests.
unfoldable pub rounds : ℕ → List Action
rounds zero = []
rounds (suc n) = work_step ∷ work_step ∷ work_step ∷ rounds n

module _ ⦃semaphore : Semaphore⦄ where
  open semaphore use {Sem}

  -- The worker has served all that was queued, and waits.
  pub record Drained (q q' : Queue) : Type 0 where
    pub no_reads : q'.read_queue ≡ []
    pub no_writes : q'.write_queue ≡ []
    pub idle : Idle q'
    pub cancels_none : q'.cancelled ≡ q.cancelled
    pub accepts_none : q'.accepted ≡ q.accepted

  is_empty : (rs : List Request) → length rs ≡ 0 → rs ≡ []
  is_empty [] e = refl
  is_empty (r ∷ rs) e = absurd (omega (arith, e))

  drains : (n : ℕ) (q : Queue) → Idle q → rank q ≤ n + 1 → Drained q (run q (rounds n))
  unfolding run rounds rank three
  drains zero q i h = record {
    no_reads = is_empty q.read_queue (omega (arith, h));
    no_writes = is_empty q.write_queue (omega (arith, h));
    idle = i;
    cancels_none = refl;
    accepts_none = refl;
  }
  drains (suc n) q i h = elim (Nat-cases (length q.read_queue + length q.write_queue)) [
    | inl z ↦
        subst (λ (x : Queue). Drained q (run x (rounds n))) (sym (empty_round q i z))
          (drains n q i (omega (arith, z, mismatch_le q.write_phase q.read_queue q.write_queue)))
    | inr (m, e) ↦
        let r = full-Round q i (omega (arith, e)) in
        let d = drains n (three q) (Round-Idle q i r) (omega (arith, h, r.lower)) in
        record {
          no_reads = d.no_reads;
          no_writes = d.no_writes;
          idle = d.idle;
          cancels_none = d.cancels_none ∙ r.cancels_none;
          accepts_none = d.accepts_none ∙ r.accepts_none;
        }
  ]

  -- While the state is RUNNING, the worker is about to wait and no other thread stands between a
  -- change of a list and its call of the semaphore: with n requests in the two lists, 2 n rounds of
  -- the worker alone serve them all, in whichever phase it is and however they are spread, and leave
  -- it waiting; none is accepted or cancelled meanwhile.
  pub run-rounds :
      (n : ℕ) (q : Queue)
      → Idle q
      → length q.read_queue + length q.write_queue ≡ n
      → Drained q (run q (rounds (2 * n)))
  unfolding rank
  run-rounds n q i e =
      drains (2 * n) q i (omega (arith, e, mismatch_le q.write_phase q.read_queue q.write_queue))
