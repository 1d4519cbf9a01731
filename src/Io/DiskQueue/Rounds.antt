-- ===== src/Io/DiskQueue/Rounds.antt =====
-- One round of the worker of foxxll/io/request_queue_impl_qwqr.cpp (lines 155-228).
use foxxll.Prelude.{
  ℕ, ◌+◌, ◌-◌, ◌≡◌, subst, refl, sym, ◌∙◌, ap, Bool, true, false, List, [], ◌∷◌, none, some,
  if◌then◌else◌, length, arith, ◌*◌, ◌<◌, ◌≤◌,
}
use foxxll.Io.DiskQueue.{
  Semaphore, Request, running, waiting, taking, testing, Queue, take_write, take_read, test_state,
  start_round, work, work_step, or_stay, step,
}
use foxxll.Io.DiskQueue.Tokens.{held, to_stop, Balanced}
use foxxll.Io.DiskQueue.Invariant.{step-Balanced}

-- 1 where the list of the phase is empty, so that the next round only changes the phase.
unfoldable pub mismatch : Bool → List Request → List Request → ℕ
mismatch true rs [] = 1
mismatch true rs (w ∷ ws) = 0
mismatch false [] ws = 1
mismatch false (r ∷ rs) ws = 0

pub mismatch_le : (c : Bool) (rs ws : List Request) → mismatch c rs ws ≤ 1
unfolding mismatch
mismatch_le true rs [] = omega arith
mismatch_le true rs (w ∷ ws) = omega arith
mismatch_le false [] ws = omega arith
mismatch_le false (r ∷ rs) ws = omega arith

pub no_writes : (c : Bool) (rs ws : List Request) → c ≡ true → ws ≡ [] → mismatch c rs ws ≡ 1
unfolding mismatch
no_writes c rs ws e f = rw (e, f) refl

pub no_reads : (c : Bool) (rs ws : List Request) → c ≡ false → rs ≡ [] → mismatch c rs ws ≡ 1
unfolding mismatch
no_reads c rs ws e f = rw (e, f) refl

pub some_reads : (rs ws : List Request) → 0 < length rs → mismatch false rs ws ≡ 0
unfolding mismatch
some_reads [] ws h = absurd (omega (arith, h))
some_reads (r ∷ rs) ws h = refl

pub some_writes : (rs ws : List Request) → 0 < length ws → mismatch true rs ws ≡ 0
unfolding mismatch
some_writes rs [] h = absurd (omega (arith, h))
some_writes rs (w ∷ ws) h = refl

module _ ⦃semaphore : Semaphore⦄ where
  open semaphore use {Sem, value, signal, wait, wait_zero, wait_pos}

  -- The worker is about to wait, it runs, and no other thread stands between a change of a list and
  -- its call of `sem_`.
  pub record Idle (q : Queue) : Type 0 where
    pub balanced : Balanced q
    pub at_wait : q.worker ≡ waiting
    pub runs : q.thread_state ≡ running
    pub no_signal : q.signals ≡ 0
    pub no_wait : q.waits ≡ 0

  unfoldable pub rank : Queue → ℕ
  rank q =
      2 * (length q.read_queue + length q.write_queue)
      + mismatch q.write_phase q.read_queue q.write_queue

  unfoldable pub three : Queue → Queue
  three q = step (step (step q work_step) work_step) work_step

  value-queued : (q : Queue) → Idle q → value q.sem ≡ length q.read_queue + length q.write_queue
  unfolding held to_stop
  value-queued q i = omega (
    arith,
    i.balanced.tokens,
    i.balanced.stop ∙ ap to_stop i.runs,
    ap held i.at_wait,
    i.no_signal,
    i.no_wait,
  )

  -- The effect of one round that gets a token.
  pub record Round (q q' : Queue) : Type 0 where
    pub at_wait : q'.worker ≡ waiting
    pub runs : q'.thread_state ≡ running
    pub no_signal : q'.signals ≡ 0
    pub no_wait : q'.waits ≡ 0
    pub lower : rank q' < rank q
    pub cancels_none : q'.cancelled ≡ q.cancelled
    pub accepts_none : q'.accepted ≡ q.accepted

  pub started :
      (q : Queue) (t : Sem) (n : ℕ)
      → q.worker ≡ waiting
      → wait q.sem ≡ some (t, n)
      → step q work_step ≡ record q { sem = t; worker = taking }
  unfolding step work or_stay start_round
  started q t n e f = cc

  pub taken :
      (q : Queue)
      → q.worker ≡ taking
      → step q work_step
        ≡ (if q.write_phase then take_write q.write_queue q else take_read q.read_queue q)
  unfolding step work or_stay
  taken q e = cc

  tested :
      (q : Queue)
      → q.worker ≡ testing
      → q.thread_state ≡ running
      → step q work_step ≡ record q { worker = waiting }
  unfolding step work or_stay test_state
  tested q e f = cc

  blocked : (q : Queue) → q.worker ≡ waiting → wait q.sem ≡ none → step q work_step ≡ q
  unfolding step work or_stay start_round
  blocked q e f = cc

  unfoldable pub took : Queue → Sem → Queue
  took q t = record q { sem = t; worker = taking }

  write-Round :
      (ws : List Request) (q : Queue) (t : Sem)
      → q.write_queue ≡ ws
      → q.write_phase ≡ true
      → Idle q
      → 0 < length q.read_queue + length ws
      → Round q (step (take_write ws (took q t)) work_step)
  unfolding take_write rank took
  write-Round [] q t e p i h =
      let x : Queue = take_write [] (took q t) in
      subst (Round q) (sym (tested x refl i.runs)) (record {
        at_wait = refl;
        runs = i.runs;
        no_signal = i.no_signal;
        no_wait = i.no_wait;
        lower = omega (
          arith,
          no_writes q.write_phase q.read_queue q.write_queue p e,
          some_reads q.read_queue q.write_queue (omega (arith, h)),
        );
        cancels_none = refl;
        accepts_none = refl;
      })
  write-Round (w ∷ ws) q t e p i h =
      let x : Queue = take_write (w ∷ ws) (took q t) in
      subst (Round q) (sym (tested x refl i.runs)) (record {
        at_wait = refl;
        runs = i.runs;
        no_signal = i.no_signal;
        no_wait = i.no_wait;
        lower = omega (arith, ap length e, mismatch_le q.write_phase q.read_queue ws);
        cancels_none = refl;
        accepts_none = refl;
      })

  read-Round :
      (rs : List Request) (q : Queue) (t : Sem)
      → q.read_queue ≡ rs
      → q.write_phase ≡ false
      → Idle q
      → 0 < length rs + length q.write_queue
      → Round q (step (take_read rs (took q t)) work_step)
  unfolding take_read rank took
  read-Round [] q t e p i h =
      let x : Queue = take_read [] (took q t) in
      subst (Round q) (sym (tested x refl i.runs)) (record {
        at_wait = refl;
        runs = i.runs;
        no_signal = i.no_signal;
        no_wait = i.no_wait;
        lower = omega (
          arith,
          no_reads q.write_phase q.read_queue q.write_queue p e,
          some_writes q.read_queue q.write_queue (omega (arith, h)),
        );
        cancels_none = refl;
        accepts_none = refl;
      })
  read-Round (r ∷ rs) q t e p i h =
      let x : Queue = take_read (r ∷ rs) (took q t) in
      subst (Round q) (sym (tested x refl i.runs)) (record {
        at_wait = refl;
        runs = i.runs;
        no_signal = i.no_signal;
        no_wait = i.no_wait;
        lower = omega (arith, ap length e, mismatch_le true rs q.write_queue);
        cancels_none = refl;
        accepts_none = refl;
      })

  phase-Round :
      (c : Bool) (q : Queue) (t : Sem)
      → q.write_phase ≡ c
      → Idle q
      → 0 < length q.read_queue + length q.write_queue
      → Round q (
          step
            (if c then take_write q.write_queue (took q t) else take_read q.read_queue (took q t))
            work_step)
  phase-Round true q t p i h = write-Round q.write_queue q t refl p i h
  phase-Round false q t p i h = read-Round q.read_queue q t refl p i h

  pub full-Round :
      (q : Queue) → Idle q → 0 < length q.read_queue + length q.write_queue → Round q (three q)
  unfolding three took
  full-Round q i h =
      let (t, e, f) =
        wait_pos q.sem (length q.read_queue + length q.write_queue - 1)
          (omega (arith, h, value-queued q i)) in
      subst (Round q)
        (sym (
          ap (λ (x : Queue). step (step x work_step) work_step) (started q t _ i.at_wait e)
          ∙ ap (λ (x : Queue). step x work_step) (taken (took q t) refl)))
        (phase-Round q.write_phase q t refl i h)

  pub empty_round :
      (q : Queue) → Idle q → length q.read_queue + length q.write_queue ≡ 0 → three q ≡ q
  unfolding three
  empty_round q i h =
      let b = blocked q i.at_wait (wait_zero q.sem (value-queued q i ∙ h)) in rw (b, b, b) refl

  pub Round-Idle : (q : Queue) → Idle q → Round q (three q) → Idle (three q)
  unfolding three
  Round-Idle q i r = record {
    balanced =
        step-Balanced work_step (step (step q work_step) work_step)
          (step-Balanced work_step (step q work_step) (step-Balanced work_step q i.balanced));
    at_wait = r.at_wait;
    runs = r.runs;
    no_signal = r.no_signal;
    no_wait = r.no_wait;
  }
