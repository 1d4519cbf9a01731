-- ===== src/Mng/BufferedWriter/Handing.antt =====
-- What `get_free_block` of foxxll/mng/buf_writer.hpp returns, and what it leaves.
use foxxll.Prelude.{
  ℕ, ◌+◌, ◌<◌, ◌≡◌, subst, refl, ap, Bool, true, Bool-cases, inl, inr, ◌⊎◌, List, [], ◌∷◌, Option,
  none, some, arith, length, length-append,
}
use foxxll.Mng.Pools.{pop_back}
use foxxll.Mng.Pools.Blocks.{pop_back-Splits}
use foxxll.Mng.BufferedWriter.{
  BufferedWriter, first_done, free_done, take_completed, take_free, get_free_block,
}

-- One buffer has been handed out.
pub record Handed (w w' : BufferedWriter) : Type 0 where
  pub one_less :
      length w'.free_write_blocks + length w'.busy_write_blocks + 1
      ≡ length w.free_write_blocks + length w.busy_write_blocks
  pub same_batch : w'.batch ≡ w.batch
  pub same_written : w'.written ≡ w.written
  pub same_buffers : w'.nwriteblocks ≡ w.nwriteblocks
  pub same_size : w'.writebatchsize ≡ w.writebatchsize

first_done-length :
    (done : ℕ → Bool) (busy : List ℕ)
    → (first_done done busy ≡ none)
      ⊎ ((b : ℕ) × (rest : List ℕ) × (first_done done busy ≡ some (b, rest))
          × (length rest + 1 ≡ length busy))
unfolding first_done
first_done-length done [] = inl refl
first_done-length done (b ∷ busy) = elim (Bool-cases (done b)) [
  | inl y ↦ inr (b, busy, rw y refl, omega arith)
  | inr f ↦ elim (first_done-length done busy) [
    | inl e ↦ inl (rw (f, e) refl)
    | inr (c, rest, e, o) ↦ inr (c, b ∷ rest, rw (f, e) refl, omega (arith, o))
  ]
]

take_completed-Handed :
    (woken : ℕ → Bool) (w : BufferedWriter) (busy : List ℕ)
    → w.busy_write_blocks ≡ busy
    → 0 < length busy
    → ((b : ℕ) → woken b ≡ true)
    → (b : ℕ) × (w' : BufferedWriter) × (take_completed (first_done woken busy) w ≡ some (b, w'))
      × Handed w w'
unfolding take_completed first_done
take_completed-Handed woken w [] e h k = absurd (omega (arith, h))
take_completed-Handed woken w (b ∷ busy) e h k = (
  b,
  record w { busy_write_blocks = busy },
  rw (k b) refl,
  record {
    one_less = omega (arith, ap length e);
    same_batch = refl;
    same_written = refl;
    same_buffers = refl;
    same_size = refl;
  },
)

take_free-Handed :
    (woken : ℕ → Bool) (w : BufferedWriter)
    → 0 < length w.free_write_blocks + length w.busy_write_blocks
    → ((b : ℕ) → woken b ≡ true)
    → (b : ℕ) × (w' : BufferedWriter) × (take_free woken (pop_back w.free_write_blocks) w
        ≡ some (b, w'))
      × Handed w w'
unfolding take_free
take_free-Handed woken w h k = elim (pop_back-Splits w.free_write_blocks) [
  | inl (e, n) ↦
      let (b, w', r, d) =
        take_completed-Handed woken w w.busy_write_blocks refl (omega (arith, h, ap length e)) k in
      (b, w', rw (n, take_free) r, d)
  | inr (cs, c, r, s) ↦ (
    c,
    record w { free_write_blocks = cs },
    rw (r, take_free) refl,
    record {
      one_less = omega (arith, ap length s, length-append cs (c ∷ []));
      same_batch = refl;
      same_written = refl;
      same_buffers = refl;
      same_size = refl;
    },
  )
]

free_done-Handed :
    (w w' : BufferedWriter) (polled : ℕ → Bool)
    → Handed (free_done (first_done polled w.busy_write_blocks) w) w'
    → Handed w w'
unfolding free_done
free_done-Handed w w' polled d = elim (first_done-length polled w.busy_write_blocks) [
  | inl e ↦ subst (λ (r : Option (ℕ × List ℕ)). Handed (free_done r w) w') e d
  | inr (b, rest, e, o) ↦
      let d' = subst (λ (r : Option (ℕ × List ℕ)). Handed (free_done r w) w') e d in
      record {
        one_less = omega (arith, d'.one_less, o, length-append w.free_write_blocks (b ∷ []));
        same_batch = d'.same_batch;
        same_written = d'.same_written;
        same_buffers = d'.same_buffers;
        same_size = d'.same_size;
      }
]

free_done-length :
    (w : BufferedWriter) (polled : ℕ → Bool)
    → length (free_done (first_done polled w.busy_write_blocks) w).free_write_blocks
        + length (free_done (first_done polled w.busy_write_blocks) w).busy_write_blocks
      ≡ length w.free_write_blocks + length w.busy_write_blocks
unfolding free_done
free_done-length w polled = elim (first_done-length polled w.busy_write_blocks) [
  | inl e ↦ rw e refl
  | inr (b, rest, e, o) ↦ rw e (omega (arith, o, length-append w.free_write_blocks (b ∷ [])))
]

pub get_free_block-Handed :
    (polled woken : ℕ → Bool) (w : BufferedWriter)
    → 0 < length w.free_write_blocks + length w.busy_write_blocks
    → ((b : ℕ) → woken b ≡ true)
    → (b : ℕ) × (w' : BufferedWriter) × (get_free_block polled woken w ≡ some (b, w')) × Handed w w'
unfolding get_free_block
get_free_block-Handed polled woken w h k =
    let (b, w', r, d) =
      take_free-Handed woken (free_done (first_done polled w.busy_write_blocks) w)
        (omega (arith, free_done-length w polled, h)) k in
    (b, w', r, free_done-Handed w w' polled d)
