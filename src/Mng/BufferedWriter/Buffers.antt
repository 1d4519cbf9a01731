-- ===== src/Mng/BufferedWriter/Buffers.antt =====
-- Which buffers of a `buffered_writer` (foxxll/mng/buf_writer.hpp) are where.
use foxxll.Prelude.{
  ℕ, zero, suc, ◌+◌, ◌≤◌, ◌<◌, ◌≡◌, ◌∙◌, subst, refl, sym, ap, Bool, Bool-cases, none-ne-some, inl,
  inr, ◌⊎◌, List, [], ◌∷◌, Option, none, some, arith, leb, ◌==◌, length, to_int64,
}
use foxxll.Mng.Bid.{Bid}
use foxxll.Mng.Pools.{pop_back}
use foxxll.Mng.Pools.Blocks.{one, occurs, occurs-append, pop_back-Splits}
use foxxll.Mng.BufferedWriter.{
  BatchEntry, BufferedWriter, indices, first_done, free_done, take_completed, take_free,
  get_free_block, push, write_batch, flush_full, add_entry, write, all_free, flush,
}

abbrev pub batch_occurs : ℕ → List BatchEntry → ℕ
batch_occurs x [] = 0
batch_occurs x (e ∷ batch) = one x e.ibuffer + batch_occurs x batch

-- How often a buffer stands in the lists of the writer.
abbrev pub owns : ℕ → BufferedWriter → ℕ
owns x w = occurs x w.free_write_blocks + occurs x w.busy_write_blocks + batch_occurs x w.batch

-- What a search for a completed request finds.
pub first_done-occurs :
    (x : ℕ) (done : ℕ → Bool) (busy : List ℕ)
    → (first_done done busy ≡ none)
      ⊎ ((b : ℕ) × (rest : List ℕ) × (first_done done busy ≡ some (b, rest))
          × (occurs x busy ≡ one x b + occurs x rest))
unfolding first_done
first_done-occurs x done [] = inl refl
first_done-occurs x done (b ∷ busy) = elim (Bool-cases (done b)) [
  | inl y ↦ inr (b, busy, rw y refl, refl)
  | inr f ↦ elim (first_done-occurs x done busy) [
    | inl e ↦ inl (rw (f, e) refl)
    | inr (c, rest, e, o) ↦ inr (c, b ∷ rest, rw (f, e) refl, omega (arith, o))
  ]
]

free_done-owns :
    (x : ℕ) (done : ℕ → Bool) (w : BufferedWriter)
    → owns x (free_done (first_done done w.busy_write_blocks) w) ≡ owns x w
unfolding free_done
free_done-owns x done w = elim (first_done-occurs x done w.busy_write_blocks) [
  | inl e ↦ rw e refl
  | inr (b, rest, e, o) ↦ rw e (omega (arith, o, occurs-append x w.free_write_blocks (b ∷ [])))
]

-- A result that is known can be put for one that is equal to it.
pub along_some :
    (P : ℕ × BufferedWriter → Type 0) (p q : ℕ × BufferedWriter) → some p ≡ some q → P p → P q
along_some P p q e h = subst P (cc) h

take_completed-owns :
    (x : ℕ) (woken : ℕ → Bool) (w : BufferedWriter) (b : ℕ) (w' : BufferedWriter)
    → take_completed (first_done woken w.busy_write_blocks) w ≡ some (b, w')
    → owns x w ≡ one x b + owns x w'
unfolding take_completed
take_completed-owns x woken w b w' e = elim (first_done-occurs x woken w.busy_write_blocks) [
  | inl n ↦ absurd (none-ne-some (sym (ap (λ (r : Option (ℕ × List ℕ)). take_completed r w) n) ∙ e))
  | inr (c, rest, r, o) ↦
      along_some (λ (p : ℕ × BufferedWriter). owns x w ≡ one x (p.0) + owns x (p.1)) _ (b, w')
        (sym (ap (λ (r : Option (ℕ × List ℕ)). take_completed r w) r) ∙ e) (omega (arith, o))
]

take_free-owns :
    (x : ℕ) (woken : ℕ → Bool) (w : BufferedWriter) (b : ℕ) (w' : BufferedWriter)
    → take_free woken (pop_back w.free_write_blocks) w ≡ some (b, w')
    → owns x w ≡ one x b + owns x w'
unfolding take_free
take_free-owns x woken w b w' e = elim (pop_back-Splits w.free_write_blocks) [
  | inl (_, n) ↦
      take_completed-owns x woken w b w'
        (sym (ap (λ (r : Option (List ℕ × ℕ)). take_free woken r w) n) ∙ e)
  | inr (cs, c, r, s) ↦
      along_some (λ (p : ℕ × BufferedWriter). owns x w ≡ one x (p.0) + owns x (p.1)) _ (b, w')
        (sym (ap (λ (r : Option (List ℕ × ℕ)). take_free woken r w) r) ∙ e)
        (omega (arith, ap (occurs x) s, occurs-append x cs (c ∷ [])))
]

write_batch-owns :
    (x : ℕ) (batch : List BatchEntry) (w : BufferedWriter)
    → owns x (write_batch batch w)
      ≡ occurs x w.free_write_blocks + occurs x w.busy_write_blocks + batch_occurs x batch
unfolding write_batch
write_batch-owns x [] w = refl
write_batch-owns x (e ∷ batch) w =
    write_batch-owns x batch _ ∙ omega (arith, occurs-append x w.busy_write_blocks (e.ibuffer ∷ []))

push-occurs :
    (x : ℕ) (e : BatchEntry) (batch : List BatchEntry)
    → batch_occurs x (push e batch) ≡ one x e.ibuffer + batch_occurs x batch
unfolding push
push-occurs x e [] = refl
push-occurs x e (f ∷ batch) = ground (arith, push-occurs x e batch)

-- A call of `get_free_block` that returns takes the buffer that it returns out of the lists, once, and
-- every other buffer stands in the lists as often as before.
pub get_free_block-owns :
    (x : ℕ) (polled woken : ℕ → Bool) (w : BufferedWriter) (b : ℕ) (w' : BufferedWriter)
    → get_free_block polled woken w ≡ some (b, w')
    → owns x w ≡ one x b + owns x w'
unfolding get_free_block
get_free_block-owns x polled woken w b w' e =
    sym (free_done-owns x polled w)
    ∙ take_free-owns x woken (free_done (first_done polled w.busy_write_blocks) w) b w' e

flush_full-owns : (x : ℕ) (w : BufferedWriter) → owns x (flush_full w) ≡ owns x w
unfolding flush_full
flush_full-owns x w = elim (Bool-cases (leb w.writebatchsize (length w.batch))) [
  | inl y ↦ rw y (write_batch-owns x w.batch w)
  | inr f ↦ rw f refl
]

-- A call of `write` that returns puts the buffer that it is given into the lists and takes the one
-- that it returns out of them; so the writer and its client together have each buffer as often as
-- before.
pub write-owns :
    (x : ℕ) (polled woken : ℕ → Bool) (filled : ℕ) (bid : Bid) (w : BufferedWriter) (b : ℕ)
    (w' : BufferedWriter)
    → write polled woken filled bid w ≡ some (b, w')
    → one x filled + owns x w ≡ one x b + owns x w'
unfolding write add_entry
write-owns x polled woken filled bid w b w' e =
    let entry : BatchEntry = record { offset = to_int64 bid.offset; ibuffer = filled; bid = bid } in
    omega (
      arith,
      flush_full-owns x w,
      push-occurs x entry (flush_full w).batch,
      get_free_block-owns x polled woken (add_entry entry (flush_full w)) b w' e,
    )

occurs-indices : (n i x : ℕ) → i ≤ x → x < i + n → occurs x (indices n i) ≡ 1
unfolding indices
occurs-indices zero i x h k = absurd (omega (arith, h, k))
occurs-indices (suc n) i x h k = elim (Bool-cases (x == i)) [
  | inl y ↦ rw y (omega (arith, later n (i + 1) (ground (arith, y))))
  | inr f ↦
      rw f (omega (arith, occurs-indices n (i + 1) x (ground (arith, f, h)) (omega (arith, k))))
]
  where
    later : (m j : ℕ) → x < j → occurs x (indices m j) ≡ 0
    later zero j l = refl
    later (suc m) j l = ground (arith, later m (j + 1) (omega (arith, l)), l)

write_batch-size :
    (batch : List BatchEntry) (w : BufferedWriter)
    → (write_batch batch w).nwriteblocks ≡ w.nwriteblocks
unfolding write_batch
write_batch-size [] w = refl
write_batch-size (e ∷ batch) w = write_batch-size batch _

write_batch-empty :
    (batch : List BatchEntry) (w : BufferedWriter) → (write_batch batch w).batch ≡ []
unfolding write_batch
write_batch-empty [] w = refl
write_batch-empty (e ∷ batch) w = write_batch-empty batch _

-- After `flush`, where the client writes a buffer whose index is below the number of buffers and the
-- call returns, the free list had that buffer already, once, and then the buffer that is returned and
-- the free, the busy and the batched ones together have it twice.
pub flush-write :
    (polled woken : ℕ → Bool) (held : ℕ) (bid : Bid) (w : BufferedWriter) (b : ℕ)
    (w' : BufferedWriter)
    → held < w.nwriteblocks
    → write polled woken held bid (flush w) ≡ some (b, w')
    → (occurs held (flush w).free_write_blocks ≡ 1) × (one held b + owns held w' ≡ 2)
unfolding flush all_free
flush-write polled woken held bid w b w' h e =
    let n = write_batch-size w.batch w in
    let o =
      occurs-indices (write_batch w.batch w).nwriteblocks 0 held (omega arith)
        (omega (arith, n, h)) in
    (
      o,
      omega (
        arith,
        write-owns held polled woken held bid (flush w) b w' e,
        o,
        ap (batch_occurs held) (write_batch-empty w.batch w),
        same held,
      ),
    )
  where
    same : (y : ℕ) → one y y ≡ 1
    same y = ground arith
