-- ===== src/Mng/DiskAllocator/Coalesce.antt =====
-- Coalescing in `add_free_region` of foxxll/mng/disk_block_allocator.cpp: merging a freed region with
-- its neighbours.
use foxxll.Prelude.{
  ℕ, suc, ◌+◌, ◌≤◌, ◌<◌, ◌≡◌, refl, List, [], ◌∷◌, some, arith, ◌==◌, Bool-cases, inl, inr, length,
  add64, u64_mod,
}
use foxxll.Mng.DiskAllocator.FreeSpace.{Place}
use foxxll.Mng.DiskAllocator.FreeSpace.Regions.{
  inside, inside-split, regions_at, total_size, Fits, Before, Fits-mono,
}
use foxxll.Mng.DiskAllocator.{Merge, coalesce_pred, coalesce_succ, coalesce}

-- The merged region covers what the freed region and the merged neighbours covered.
pub record Merged (u pos size : ℕ) (lo hi : List Place) (m : Merge) : Type 0 where
  pub behind : Before m.lo m.pos
  pub ahead : Fits (suc (m.pos + m.size)) m.hi u
  pub within : m.pos + m.size ≤ u
  pub filled : 0 < m.size
  pub covers :
      (x : ℕ)
      → regions_at x m.lo + inside x m.pos m.size + regions_at x m.hi
        ≡ regions_at x lo + inside x pos size + regions_at x hi
  pub total : total_size m.lo + m.size + total_size m.hi ≡ total_size lo + size + total_size hi

-- The entry in front ends where the freed region starts, or before.
abbrev pub Clear : List Place → ℕ → Type 0
Clear [] pos = Unit {0}
Clear ((p, s) ∷ lo) pos = (p + s ≤ pos) × (0 < s) × Before lo p

module _ (u pos size : ℕ) (small : u < u64_mod) (room : pos + size ≤ u)
    (some_bytes : 0 < size) where
  coalesce_pred-Merged :
      (lo hi : List Place)
      → Clear lo pos
      → Fits (suc (pos + size)) hi u
      → Merged u pos size lo hi (coalesce_pred lo hi pos size)
  unfolding coalesce_pred
  coalesce_pred-Merged [] hi c f = record {
    behind = tt;
    ahead = f;
    within = room;
    filled = some_bytes;
    covers = λ x. refl;
    total = refl;
  }
  coalesce_pred-Merged ((p, s) ∷ lo) hi c f = elim (Bool-cases (add64 p s == pos)) [
    | inl e ↦
        let touch : p + s ≡ pos = ground arith in
        let sum : add64 size s ≡ s + size = omega arith in
        rw (e, sum)
          (record {
            behind = c.2;
            ahead =
                Fits-mono (suc (pos + size)) (suc (p + (s + size))) u u hi (omega arith)
                  (omega arith) f;
            within = omega arith;
            filled = omega arith;
            covers = λ x. rw (← touch) (omega (arith, inside-split x p s size));
            total = omega arith;
          })
    | inr e ↦ rw e (record {
      behind = (ground arith, c.1, c.2);
      ahead = f;
      within = room;
      filled = some_bytes;
      covers = λ x. refl;
      total = refl;
    })
  ]

  coalesce_succ-Merged :
      (lo hi : List Place)
      → Fits (pos + size) hi u
      → let m = coalesce_succ lo hi pos size in
        (m.lo ≡ lo)
        × (m.pos ≡ pos)
        × Fits (suc (pos + m.size)) m.hi u
        × (pos + m.size ≤ u)
        × (0 < m.size)
        × ((x : ℕ) → inside x pos m.size + regions_at x m.hi ≡ inside x pos size + regions_at x hi)
        × (m.size + total_size m.hi ≡ size + total_size hi)
  unfolding coalesce_succ
  coalesce_succ-Merged lo [] f = (refl, refl, tt, room, some_bytes, λ x. refl, refl)
  coalesce_succ-Merged lo ((p, s) ∷ hi) f = elim (Bool-cases (p == add64 pos size)) [
    | inl e ↦
        let touch : p ≡ pos + size = ground arith in
        let sum : add64 size s ≡ size + s = omega arith in
        rw (e, sum)
          (
            refl,
            refl,
            Fits-mono (suc (p + s)) (suc (pos + (size + s))) u u hi (omega arith) (omega arith) f.3,
            omega arith,
            omega arith,
            λ x. rw touch (omega (arith, inside-split x pos size s)),
            omega arith,
          )
    | inr e ↦ rw e (refl, refl, (ground arith, f.1, f.2, f.3), room, some_bytes, λ x. refl, refl)
  ]

module _ (u pos size : ℕ) (small : u < u64_mod) (room : pos + size ≤ u)
    (some_bytes : 0 < size) where
  coalesce-both :
      (e : Place) (lo hi : List Place)
      → Clear (e ∷ lo) pos
      → Fits (pos + size) hi u
      → let m = coalesce_succ (e ∷ lo) hi pos size in
        Merged u pos size (e ∷ lo) hi (coalesce_pred m.lo m.hi m.pos m.size)
  coalesce-both e lo hi c f =
      let m = coalesce_succ (e ∷ lo) hi pos size in
      let (same_lo, same_pos, ahead, within, filled, covers, total) =
        coalesce_succ-Merged u pos size small room some_bytes (e ∷ lo) hi f in
      let w = coalesce_pred-Merged u pos m.size small within filled (e ∷ lo) m.hi c ahead in
      rw (same_lo, same_pos)
        (record {
          behind = w.behind;
          ahead = w.ahead;
          within = w.within;
          filled = w.filled;
          covers = λ x. omega (arith, w.covers x, covers x);
          total = omega (arith, w.total, total);
        })

  coalesce-first :
      (hi : List Place)
      → Fits (pos + size) hi u
      → Merged u pos size [] hi (coalesce_succ [] hi pos size)
  coalesce-first hi f =
      let m = coalesce_succ [] hi pos size in
      let (same_lo, same_pos, ahead, within, filled, covers, total) =
        coalesce_succ-Merged u pos size small room some_bytes [] hi f in
      record {
        behind = rw same_lo tt;
        ahead = rw same_pos ahead;
        within = rw same_pos within;
        filled = filled;
        covers = λ x. rw (same_lo, same_pos) (omega (arith, covers x));
        total = rw same_lo (omega (arith, total));
      }

  -- Whatever the neighbours, one region is left to store, and nothing is lost.
  pub coalesce-Merged :
      (lo hi : List Place)
      → Clear lo pos
      → Fits (pos + size) hi u
      → 0 < length lo + length hi
      → (m : Merge) × (coalesce lo hi pos size ≡ some m) × Merged u pos size lo hi m
  unfolding coalesce
  coalesce-Merged [] [] c f some_entry = absurd (omega arith)
  coalesce-Merged (e ∷ lo) [] c f some_entry =
      (_, refl, coalesce_pred-Merged u pos size small room some_bytes (e ∷ lo) [] c tt)
  coalesce-Merged [] (e ∷ hi) c f some_entry = (_, ground arith, coalesce-first (e ∷ hi) f)
  coalesce-Merged (d ∷ lo) (e ∷ hi) c f some_entry =
      (_, ground arith, coalesce-both d lo (e ∷ hi) c f)
