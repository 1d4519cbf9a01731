-- ===== src/Mng/AllocStrategy/Interleaved/Runs.antt =====
-- The runs of the strategies of foxxll/mng/block_alloc_strategy_interleaved.hpp: run `r` has the blocks
-- r, nruns + r, 2 * nruns + r and so on.
use foxxll.Prelude.{
  ℕ, zero, suc, ◌+◌, ◌-◌, ◌*◌, ◌/◌, ◌%◌, ◌<◌, ◌≡◌, refl, ap, ◌∙◌, List, get_or, arith,
}
use native.Mathlib.Nat.{mul-add-div_right, mul-add-mod_self_right, div-eq_of_lt, mod-eq_of_lt}
use foxxll.Mng.AllocStrategy.{
  single_disk, disk_of, identity_from, make_striping, make_simple_random, make_random_cyclic,
}
use foxxll.Mng.AllocStrategy.Interleaved.{
  interleaved_striping, first_disk_only, vector_at, disk_of_run, draw_offsets,
  make_interleaved_simple_random, shuffle_runs, make_interleaved_random_cyclic,
}

draw_offsets-get_or :
    (n r i diff : ℕ) (draws : ℕ → ℕ)
    → r < n
    → get_or (draw_offsets n i diff draws) r 0 ≡ draws (i + r) % diff
unfolding draw_offsets
draw_offsets-get_or zero r i diff draws h = absurd (omega (arith, h))
draw_offsets-get_or (suc n) zero i diff draws h = ap (λ (k : ℕ). draws k % diff) (omega arith)
draw_offsets-get_or (suc n) (suc r) i diff draws h =
    draw_offsets-get_or n r (i + 1) diff draws (omega (arith, h))
    ∙ ap (λ (k : ℕ). draws k % diff) (omega arith)

shuffle_runs-vector_at :
    (n r i diff : ℕ) (shuffle : ℕ → List ℕ → List ℕ)
    → r < n
    → vector_at (shuffle_runs n i diff shuffle) r ≡ shuffle (i + r) (identity_from diff 0)
unfolding shuffle_runs
shuffle_runs-vector_at zero r i diff shuffle h = absurd (omega (arith, h))
shuffle_runs-vector_at (suc n) zero i diff shuffle h =
    ap (λ (k : ℕ). shuffle k (identity_from diff 0)) (omega arith)
shuffle_runs-vector_at (suc n) (suc r) i diff shuffle h =
    shuffle_runs-vector_at n r (i + 1) diff shuffle (omega (arith, h))
    ∙ ap (λ (k : ℕ). shuffle k (identity_from diff 0)) (omega arith)

run_div : (j nruns r : ℕ) → r < nruns → (j * nruns + r) / nruns ≡ j
run_div j nruns r h = mul-add-div_right (omega (arith, h)) j r ∙ omega (arith, div-eq_of_lt h)

run_mod : (j nruns r : ℕ) → r < nruns → (j * nruns + r) % nruns ≡ r
run_mod j nruns r h = mul-add-mod_self_right j nruns r ∙ mod-eq_of_lt h

-- The blocks of one run go to the disks to which a range of their own would go: the j-th block of run r
-- goes to the j-th disk of the striping, of the simple random striping with the r-th draw, of the
-- randomized cycling with the r-th shuffle, or of the single disk, on the same disks.
pub run-disk_of :
    (nruns begin diff r j : ℕ) (draws : ℕ → ℕ) (shuffle : ℕ → List ℕ → List ℕ)
    → r < nruns
    → (disk_of_run (interleaved_striping nruns begin diff) (j * nruns + r)
        ≡ disk_of (make_striping begin (begin + diff)) j)
      × (disk_of_run (make_interleaved_simple_random nruns begin diff draws) (j * nruns + r)
          ≡ disk_of (make_simple_random begin (begin + diff) (draws r)) j)
      × (disk_of_run (make_interleaved_random_cyclic nruns begin diff shuffle) (j * nruns + r)
          ≡ disk_of (make_random_cyclic begin (begin + diff) (shuffle r)) j)
      × (disk_of_run (first_disk_only nruns begin) (j * nruns + r) ≡ disk_of (single_disk begin) j)
unfolding disk_of disk_of_run make_striping make_simple_random make_random_cyclic
    make_interleaved_simple_random make_interleaved_random_cyclic
run-disk_of nruns begin diff r j draws shuffle h =
    let d = run_div j nruns r h in
    let m = run_mod j nruns r h in
    let width : begin + diff - begin ≡ diff = omega arith in
    let offset : get_or (draw_offsets nruns 0 diff draws) r 0 ≡ draws r % diff =
      draw_offsets-get_or nruns r 0 diff draws h ∙ ap (λ (k : ℕ). draws k % diff) (omega arith) in
    let perm : vector_at (shuffle_runs nruns 0 diff shuffle) r ≡ shuffle r (identity_from diff 0) =
      shuffle_runs-vector_at nruns r 0 diff shuffle h
      ∙ ap (λ (k : ℕ). shuffle k (identity_from diff 0)) (omega arith) in
    (rw (d, width) refl, rw (d, m, offset, width) refl, rw (d, m, perm, width) refl, refl)
