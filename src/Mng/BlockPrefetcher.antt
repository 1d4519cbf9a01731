-- ===== src/Mng/BlockPrefetcher.antt =====
-- `block_prefetcher` (foxxll/mng/block_prefetcher.hpp): it reads the blocks of a sequence ahead, in an
-- order that it is given, into buffers that the application hands back.
pub mod Ahead
pub mod Order
pub mod Tests
use foxxll.Prelude.{
  ℕ, zero, suc, ◌+◌, ◌-◌, Bool, true, false, not, ◌&&◌, Option, none, some, ltb, leb, ◌==◌,
  if◌then◌else◌, check, update, ◌>>=◌, List, [], ◌∷◌,
}

-- What the constructor is given; `nreadblocks` is the number of buffers. A BID is a number.
pub record Plan : Type 0 where
  pub consume_seq : ℕ → ℕ
  pub seq_length : ℕ
  pub prefetch_seq : ℕ → ℕ
  pub nreadblocks : ℕ

-- `read_buffers` has what a buffer holds when the read into it has ended. `none` in `pref_buffer` is
-- the -1 of a block that has not been asked for, whose switch is never turned on.
pub record Prefetcher : Type 0 where
  pub nextread : ℕ
  pub nextconsume : ℕ
  pub read_buffers : ℕ → ℕ
  pub pref_buffer : ℕ → Option ℕ

abbrev pub is_requested : Option ℕ → Bool
is_requested none = false
is_requested (some b) = true

-- `disk` is what the blocks on disk hold.
module _ (disk : ℕ → ℕ) (plan : Plan) where
  -- The block at a position of the prefetch sequence is read into a buffer.
  unfoldable pub read_into : ℕ → ℕ → Prefetcher → Prefetcher
  read_into ibuffer position p = record p {
    read_buffers =
        update ibuffer (disk (plan.consume_seq (plan.prefetch_seq position))) p.read_buffers;
    pref_buffer = update (plan.prefetch_seq position) (some ibuffer) p.pref_buffer;
  }

  -- The loop of the constructor, of `n` rounds; its assertion, that the blocks exist, is left out.
  unfoldable pub start_reads : ℕ → Prefetcher → Prefetcher
  start_reads zero p = p
  start_reads (suc n) p = read_into n n (start_reads n p)

  unfoldable pub create : Prefetcher
  create = start_reads plan.nreadblocks (record {
    nextread = plan.nreadblocks;
    nextconsume = 0;
    read_buffers = λ i. 0;
    pref_buffer = λ k. none;
  })

  -- `none` is a wait without end.
  unfoldable pub wait : ℕ → Prefetcher → Option ℕ
  wait iblock p = do
    ibuffer ← p.pref_buffer iblock
    check (ltb ibuffer plan.nreadblocks) (some ibuffer)

  unfoldable pub pull_block : Prefetcher → Option (ℕ × Prefetcher)
  pull_block p = do
    ibuffer ← wait p.nextconsume p
    some (ibuffer, record p { nextconsume = p.nextconsume + 1 })

  -- The assertions are that the buffer and the block exist and that the block has not been read.
  unfoldable pub read_next : ℕ → Prefetcher → Option Prefetcher
  read_next ibuffer p =
      let k = plan.prefetch_seq p.nextread in
      if ltb p.nextread plan.seq_length
      then check
          (ltb ibuffer plan.nreadblocks
            && ltb k plan.seq_length
            && not (is_requested (p.pref_buffer k)))
          (some (record (read_into ibuffer p.nextread p) { nextread = p.nextread + 1 }))
      else some p

  unfoldable pub empty : Prefetcher → Bool
  empty p = leb plan.seq_length p.nextconsume

  -- Whether there is another block, and its buffer.
  unfoldable pub block_consumed : ℕ → Prefetcher → Option (Bool × ℕ × Prefetcher)
  block_consumed ibuffer p = do
    q ← read_next ibuffer p
    if empty q
        then some (false, ibuffer, q)
        else (do (next, r) ← pull_block q; some (true, next, r))

  -- A reader: it takes what a buffer holds and hands the buffer back, until there are no more.
  unfoldable pub read_on : ℕ → Option (Bool × ℕ × Prefetcher) → Option (List ℕ)
  read_on zero r = none
  read_on (suc n) none = none
  read_on (suc n) (some (false, ibuffer, p)) = some []
  read_on (suc n) (some (true, ibuffer, p)) = do
    rest ← read_on n (block_consumed ibuffer p)
    some (p.read_buffers ibuffer ∷ rest)

  unfoldable pub read_all : ℕ → Option (List ℕ)
  read_all n = do (ibuffer, p) ← pull_block create; read_on n (some (true, ibuffer, p))
