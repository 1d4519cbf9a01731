-- ===== src/Mng/DiskAllocator/Halve.antt =====
-- The recursion of `new_blocks` (foxxll/mng/disk_block_allocator.hpp) on the halves of a range.
use foxxll.Prelude.{
  ℕ, suc, ◌+◌, ◌/◌, ◌≤◌, ◌<◌, ◌≡◌, ◌∙◌, ap, sym, Bool, true, List, ◌++◌, arith, ltb, inl, inr,
  length, take, drop, take-append-drop, length-take, length-drop, subst,
}
use mathlib.Core.List.{append_assoc}
use foxxll.Mng.Bid.{Bid}
use foxxll.Mng.DiskAllocator.{Allocator}
use foxxll.Mng.DiskAllocator.NewBlocks.{Outcome, prepend, second_half, halve}
use foxxll.Mng.DiskAllocator.Carve.{sizes}
use foxxll.Mng.DiskAllocator.Takes.{
  Takes-append, Success, Failure, Allocates, Covered, take-Positive, drop-Positive, sizes-take-drop,
  SameBlocks-append, SameBlocks-sizes,
}

-- The recursive call keeps the promise on shorter ranges.
abbrev pub Ready : ℕ → (List Bid → Allocator → Outcome) → Type 0
Ready n rec =
    (bs : List Bid) (b : Allocator)
    → length bs ≤ n
    → Covered bs b
    → Allocates bs b (sizes bs) (rec bs b)

Success-then :
    (rec : List Bid → Allocator → Outcome) (bs cs : List Bid) (a : Allocator) (r : Outcome)
    (w : Success bs a (sizes bs) r)
    → Allocates cs w.after (sizes cs) (rec cs w.after)
    → Allocates (bs ++ cs) a (sizes bs + sizes cs) (second_half rec cs r)
unfolding second_half prepend
Success-then rec bs cs a r w (inl v) = inl (record {
  after = v.after;
  placed = w.placed ++ v.placed;
  result = rw (w.result, second_half, v.result);
  same = SameBlocks-append bs w.placed cs v.placed w.same v.same;
  takes = Takes-append a w.after v.after w.placed v.placed w.takes v.takes;
  bounded = omega (arith, w.bounded, v.bounded);
})
Success-then rec bs cs a r w (inr v) = inr (record {
  after = v.after;
  front = bs ++ v.front;
  placed = w.placed ++ v.placed;
  rest = v.rest;
  result = rw (w.result, second_half, v.result, append_assoc);
  split = rw (v.split, append_assoc);
  same = SameBlocks-append bs w.placed v.front v.placed w.same v.same;
  takes = Takes-append a w.after v.after w.placed v.placed w.takes v.takes;
  refused = v.refused;
  refuses = ap (λ (g : ℕ → Bool). g v.refused) (sym w.takes.device) ∙ v.refuses;
})

Failure-then :
    (rec : List Bid → Allocator → Outcome) (bs cs : List Bid) (a : Allocator) (r : Outcome)
    → Failure bs a r
    → Failure (bs ++ cs) a (second_half rec cs r)
unfolding second_half
Failure-then rec bs cs a r w = record {
  after = w.after;
  front = w.front;
  placed = w.placed;
  rest = w.rest ++ cs;
  result = rw (w.result, second_half, append_assoc);
  split = rw (w.split, append_assoc);
  same = w.same;
  takes = w.takes;
  refused = w.refused;
  refuses = w.refuses;
}

pub halve-Allocates :
    (n : ℕ) (rec : List Bid → Allocator → Outcome) (bids : List Bid) (a : Allocator)
    → Ready n rec
    → length bids ≤ suc n
    → 1 < length bids
    → Covered bids a
    → Allocates bids a (sizes bids) (halve rec bids a)
unfolding halve
halve-Allocates n rec bids a ready fuel long c =
    let m = length bids / 2 in
    let bs = take m bids in
    let cs = drop m bids in
    let lens = length-take m bids in
    let lens' = length-drop m bids in
    let total = sizes-take-drop m bids in
    let test : ltb 1 (length bids) ≡ true = ground arith in
    let first = ready bs a (omega arith) (record {
      nonempty = omega arith;
      positive = take-Positive m bids c.positive;
      valid = c.valid;
      free = omega (arith, c.free);
      room = omega (arith, c.room);
    }) in
    rw test (
      subst (λ l. Allocates l a (sizes bids) (second_half rec cs (rec bs a)))
        (take-append-drop m bids)
        (subst (λ k. Allocates (bs ++ cs) a k (second_half rec cs (rec bs a))) total
          (elim first [
            | inr w ↦ inr (Failure-then rec bs cs a (rec bs a) w)
            | inl w ↦
                let same = SameBlocks-sizes bs w.placed w.same in
                Success-then rec bs cs a (rec bs a) w (
                  ready cs w.after (omega arith) (record {
                    nonempty = omega arith;
                    positive = drop-Positive m bids c.positive;
                    valid = w.takes.valid;
                    free = omega (arith, w.takes.bytes, c.free);
                    room = omega (arith, w.bounded, c.room);
                  }))
          ])))
