-- ===== src/Mng/BufferedWriter/Sorted.antt =====
-- The batch of a `buffered_writer` (foxxll/mng/buf_writer.hpp): its order, and its size against the
-- number of buffers.
use foxxll.Prelude.{
  ℕ, ◌+◌, ◌≤◌, ◌<◌, ◌≡◌, ◌∙◌, subst, refl, sym, ap, Bool, true, false, Bool-cases, inl, inr, List,
  [], ◌∷◌, ◌++◌, some, arith, leb, length, length-append, length-map, map, ℤ, to_int64, less,
  less-asym,
}
use mathlib.Core.List.{append_assoc, append-nil}
use foxxll.Mng.Bid.{Bid}
use foxxll.Mng.BufferedWriter.{
  BatchEntry, BufferedWriter, indices, push, write_batch, flush_full, add_entry, write, all_free,
  flush,
}
use foxxll.Mng.BufferedWriter.Handing.{get_free_block-Handed}

abbrev pub AtLeast : ℤ → List BatchEntry → Type 0
AtLeast n [] = Unit {0}
AtLeast n (e ∷ batch) = less e.offset n ≡ false

abbrev pub IsSorted : List BatchEntry → Type 0
IsSorted [] = Unit {0}
IsSorted (e ∷ batch) = AtLeast e.offset batch × IsSorted batch

push-AtLeast :
    (n : ℤ) (e : BatchEntry) (batch : List BatchEntry)
    → less e.offset n ≡ false
    → AtLeast n batch
    → AtLeast n (push e batch)
unfolding push
push-AtLeast n e [] h k = h
push-AtLeast n e (f ∷ batch) h k = elim (Bool-cases (less e.offset f.offset)) [
  | inl y ↦ rw y h
  | inr g ↦ rw g k
]

push-IsSorted :
    (e : BatchEntry) (batch : List BatchEntry) → IsSorted batch → IsSorted (push e batch)
unfolding push
push-IsSorted e [] s = (tt, tt)
push-IsSorted e (f ∷ batch) s = elim (Bool-cases (less e.offset f.offset)) [
  | inl y ↦ rw y (less-asym e.offset f.offset y, s)
  | inr g ↦ rw g (push-AtLeast f.offset e batch g (s.0), push-IsSorted e batch (s.1))
]

push-length : (e : BatchEntry) (batch : List BatchEntry) → length (push e batch) ≡ length batch + 1
unfolding push
push-length e [] = refl
push-length e (f ∷ batch) = ground (arith, push-length e batch)

-- The state of a writer of which the client holds one buffer.
pub record IsValid (w : BufferedWriter) : Type 0 where
  pub sorted : IsSorted w.batch
  pub fits : length w.batch ≤ w.writebatchsize
  pub smaller : w.writebatchsize < w.nwriteblocks
  pub one_held :
      length w.free_write_blocks + length w.busy_write_blocks + length w.batch + 1 ≡ w.nwriteblocks
  pub positive : 0 < w.writebatchsize

write_batch-eq :
    (batch : List BatchEntry) (w : BufferedWriter)
    → write_batch batch w ≡ record w {
      busy_write_blocks = w.busy_write_blocks ++ map (λ (e : BatchEntry). e.ibuffer) batch;
      written = w.written ++ batch;
      batch = [];
    }
unfolding write_batch
write_batch-eq [] w = simp append-nil
write_batch-eq (e ∷ batch) w = write_batch-eq batch _ ∙ simp append_assoc

-- What the batch is after it has been written if it was full.
record Flushed (w w' : BufferedWriter) : Type 0 where
  below : length w'.batch < w.writebatchsize
  order : IsSorted w'.batch
  counted :
      length w'.free_write_blocks + length w'.busy_write_blocks + length w'.batch
      ≡ length w.free_write_blocks + length w.busy_write_blocks + length w.batch
  same_buffers : w'.nwriteblocks ≡ w.nwriteblocks
  same_size : w'.writebatchsize ≡ w.writebatchsize

flush_full-Flushed : (w : BufferedWriter) → IsValid w → Flushed w (flush_full w)
unfolding flush_full
flush_full-Flushed w v = elim (Bool-cases (leb w.writebatchsize (length w.batch))) [
  | inl y ↦
      rw (y, write_batch-eq w.batch w)
        (record {
          below = v.positive;
          order = tt;
          counted = omega (
            arith,
            length-append w.busy_write_blocks (map (λ (e : BatchEntry). e.ibuffer) w.batch),
            length-map w.batch (λ (e : BatchEntry). e.ibuffer),
          );
          same_buffers = refl;
          same_size = refl;
        })
  | inr f ↦ rw f (record {
    below = ground (arith, f);
    order = v.sorted;
    counted = refl;
    same_buffers = refl;
    same_size = refl;
  })
]

-- A valid writer, each of whose requests is done in the end: `write` returns a buffer, and leaves a
-- valid writer of the same size: the batch sorted by its offsets as signed integers of 64 bits, smaller than the buffers and within
-- its bound, and one buffer with the client.
pub write-IsValid :
    (polled woken : ℕ → Bool) (filled : ℕ) (bid : Bid) (w : BufferedWriter)
    → IsValid w
    → ((b : ℕ) → woken b ≡ true)
    → (b : ℕ) × (w' : BufferedWriter) × (write polled woken filled bid w ≡ some (b, w'))
      × IsValid w'
      × (w'.nwriteblocks ≡ w.nwriteblocks)
unfolding write add_entry
write-IsValid polled woken filled bid w v k =
    let entry : BatchEntry = record { offset = to_int64 bid.offset; ibuffer = filled; bid = bid } in
    let f = flush_full-Flushed w v in
    let longer = push-length entry (flush_full w).batch in
    let (b, w', r, d) =
      get_free_block-Handed polled woken (add_entry entry (flush_full w))
        (omega (arith, f.counted, v.one_held, f.below, v.smaller)) k in
    (
      b,
      w',
      r,
      record {
        sorted =
            subst IsSorted (sym d.same_batch) (push-IsSorted entry (flush_full w).batch f.order);
        fits = omega (arith, ap length d.same_batch, longer, f.below, d.same_size, f.same_size);
        smaller =
            omega (arith, d.same_size, f.same_size, d.same_buffers, f.same_buffers, v.smaller);
        one_held = omega (
          arith,
          d.one_less,
          ap length d.same_batch,
          longer,
          f.counted,
          v.one_held,
          d.same_buffers,
          f.same_buffers,
        );
        positive = omega (arith, d.same_size, f.same_size, v.positive);
      },
      d.same_buffers ∙ f.same_buffers,
    )

-- `flush` of a valid writer starts the writes of the whole batch, in the order of the signed offsets, after
-- those started before, and leaves the batch and the busy buffers empty and every buffer free.
pub flush-writes :
    (w : BufferedWriter)
    → IsValid w
    → IsSorted w.batch
      × ((flush w).written ≡ w.written ++ w.batch)
      × ((flush w).batch ≡ [])
      × ((flush w).busy_write_blocks ≡ [])
      × ((flush w).free_write_blocks ≡ indices w.nwriteblocks 0)
unfolding flush all_free
flush-writes w v = rw (write_batch-eq w.batch w) (v.sorted, refl, refl, refl, refl)
