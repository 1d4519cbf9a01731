-- ===== src/Mng/AllocStrategy/Tests.antt =====
-- Three disks from disk 1 on, in the order 2, 0, 1, moved by 4 or for two runs.
use foxxll.Prelude.{
  ℕ, zero, suc, ◌+◌, ◌≡◌, ◌≢◌, ◌≤◌, ◌<◌, ℤ, refl, List, [], ◌∷◌, arith, pos, negsuc,
}
use foxxll.Mng.AllocStrategy.{
  Strategy, striping, random_cyclic, offset_allocator, single_disk, disk_of, identity_from,
  make_striping, make_simple_random, make_random_cyclic,
}
use foxxll.Mng.AllocStrategy.Interleaved.{
  interleaved_striping, first_disk_only, disk_of_run, make_interleaved_simple_random, shuffle_runs,
  make_interleaved_random_cyclic,
}
use foxxll.Mng.AllocStrategy.Interleaved.Runs.{run-disk_of}
use foxxll.Mng.AllocStrategy.Spread.{Permutes, permuted, moved, Ordered, Cyclic-disk_of}

abbrev order : List ℕ
order = 2 ∷ 0 ∷ 1 ∷ []

order-Permutes : Permutes 3 order
order-Permutes = record { below = λ k h. ground arith; once = λ j k h i e. ground arith }

abbrev moved_by : ℤ → Strategy
moved_by offset = offset_allocator (random_cyclic 1 3 order) offset

-- Blocks 1 and 3 with an offset of -1.
Cyclic-disk_of_example :
    ((1 ≤ disk_of (moved_by (negsuc 0)) 1) × (disk_of (moved_by (negsuc 0)) 1 < 4))
    × ((1 ≤ disk_of (moved_by (negsuc 0)) 3) × (disk_of (moved_by (negsuc 0)) 3 < 4))
    × (disk_of (moved_by (negsuc 0)) 1 ≢ disk_of (moved_by (negsuc 0)) 3)
unfolding Ordered
Cyclic-disk_of_example =
    Cyclic-disk_of (moved_by (negsuc 0)) 1 3 1 3 (moved (permuted order-Permutes)) (omega arith)
      (omega arith) (omega arith) (omega arith, tt)

third_disk : disk_of (offset_allocator (random_cyclic 1 3 order) (pos 4)) 0 ≡ 1
unfolding disk_of
third_disk = refl

-- With an offset of -1, the sum wraps around between blocks 0 and 1, and both go to one disk.
wrapped :
    disk_of (offset_allocator (striping 0 3) (negsuc 0)) 0
    ≡ disk_of (offset_allocator (striping 0 3) (negsuc 0)) 1
unfolding disk_of
wrapped = refl

-- Two runs on three disks: block 5 is block 2 of run 1.
abbrev turned : ℕ → List ℕ → List ℕ
turned zero v = v
turned (suc i) v = order

run-disk_of_example :
    (disk_of_run (interleaved_striping 2 1 3) 5 ≡ disk_of (make_striping 1 4) 2)
    × (disk_of_run (make_interleaved_simple_random 2 1 3 (λ i. i + 7)) 5
        ≡ disk_of (make_simple_random 1 4 8) 2)
    × (disk_of_run (make_interleaved_random_cyclic 2 1 3 turned) 5
        ≡ disk_of (make_random_cyclic 1 4 (turned 1)) 2)
    × (disk_of_run (first_disk_only 2 1) 5 ≡ disk_of (single_disk 1) 2)
run-disk_of_example = run-disk_of 2 1 3 1 2 (λ i. i + 7) turned (omega arith)

fifth : disk_of_run (make_interleaved_random_cyclic 2 1 3 turned) 5 ≡ 2
unfolding disk_of_run make_interleaved_random_cyclic shuffle_runs identity_from
fifth = refl
