-- ===== src/Mng/BlockManager/Choice.antt =====
-- How `block_manager::new_blocks` (foxxll/mng/block_manager.hpp, lines 188-210) chooses a disk.
use foxxll.Prelude.{
  ℕ, zero, suc, ◌+◌, ◌-◌, ◌%◌, ◌<◌, ◌≤◌, ◌≡◌, subst, ◌∙◌, refl, Bool, true, false, arith, inl, inr,
  ◌⊎◌, Bool-cases,
}
use native.Mathlib.Nat.{mod-lt, mod-eq_of_lt, mod-eq-sub-mod}
use foxxll.Mng.BlockManager.{find_disk, choose_disk}

order_cases : (a b : ℕ) → (a ≡ b) ⊎ ((a < b) ⊎ (b < a))
order_cases a b = ground arith

-- A disk that has space, or else the first choice where no disk has.
abbrev pub Chosen : (ℕ → Bool) → ℕ → ℕ → ℕ → Type 0
Chosen has ndisks disk_id r =
    (r < ndisks) × ((has r ≡ true) ⊎ ((r ≡ disk_id) × ((d : ℕ) → d < ndisks → has d ≡ false)))

abbrev Searched : ℕ → ℕ → (ℕ → Bool) → ℕ → ℕ → ℕ → Type 0
Searched n adv has ndisks disk_id r =
    ((r < ndisks) × (has r ≡ true))
    ⊎ ((r ≡ disk_id) × ((a : ℕ) → adv ≤ a → a < adv + n → has ((disk_id + a) % ndisks) ≡ false))

find_disk-Searched :
    (n adv : ℕ) (has : ℕ → Bool) (ndisks disk_id : ℕ)
    → 0 < ndisks
    → Searched n adv has ndisks disk_id (find_disk n adv has ndisks disk_id)
unfolding find_disk
find_disk-Searched zero adv has ndisks disk_id p = inr (refl, λ a h k. absurd (omega (arith, h, k)))
find_disk-Searched (suc n) adv has ndisks disk_id p =
    elim (Bool-cases (has ((disk_id + adv) % ndisks))) [
      | inl y ↦ rw y (inl (mod-lt (disk_id + adv) p, y))
      | inr f ↦ elim (find_disk-Searched n (adv + 1) has ndisks disk_id p) [
        | inl found ↦ rw f (inl found)
        | inr (same, none_later) ↦ rw f (
            inr (
              same,
              λ a h k. elim (order_cases a adv) [
                | inl e ↦ rw e f
                | inr (inl l) ↦ absurd (omega (arith, l, h))
                | inr (inr g) ↦ none_later a (omega (arith, g)) (omega (arith, k))
              ],
            ))
      ]
    ]

-- The way round from `disk_id` reaches every other disk.
way_round :
    (ndisks disk_id d : ℕ)
    → disk_id < ndisks
    → d < ndisks
    → (d ≡ disk_id) ⊎ ((a : ℕ) × (1 ≤ a) × (a < 1 + (ndisks - 1)) × ((disk_id + a) % ndisks ≡ d))
way_round ndisks disk_id d h k = elim (order_cases d disk_id) [
  | inl e ↦ inl e
  | inr (inl l) ↦ inr (
    d + ndisks - disk_id,
    omega (arith, l, h, k),
    omega (arith, l, h, k),
    let e : disk_id + (d + ndisks - disk_id) ≡ d + ndisks = omega (arith, h) in
        let wraps : (d + ndisks) % ndisks ≡ (d + ndisks - ndisks) % ndisks =
          mod-eq-sub-mod (omega arith) in
        let below : d + ndisks - ndisks < ndisks = omega (arith, k) in
        rw (e, wraps) (mod-eq_of_lt below ∙ omega arith),
  )
  | inr (inr l) ↦ inr (
    d - disk_id,
    omega (arith, l),
    omega (arith, k, h),
    let e : disk_id + (d - disk_id) ≡ d = omega (arith, l) in rw e (mod-eq_of_lt k),
  )
]

-- The disk of a block, with the strategy's choice in range: it has space for the block and for those
-- assigned to it before, or it is the strategy's choice and no disk has.
pub choose_disk-Chosen :
    (has : ℕ → Bool) (ndisks disk_id : ℕ)
    → disk_id < ndisks
    → Chosen has ndisks disk_id (choose_disk has ndisks disk_id)
unfolding choose_disk
choose_disk-Chosen has ndisks disk_id h = elim (Bool-cases (has disk_id)) [
  | inl y ↦ rw y (h, inl y)
  | inr f ↦ rw f (elim (find_disk-Searched (ndisks - 1) 1 has ndisks disk_id (omega (arith, h))) [
    | inl (below, y) ↦ (below, inl y)
    | inr (same, none) ↦ (
      omega (arith, same, h),
      inr (
        same,
        λ d k. elim (way_round ndisks disk_id d h k) [
          | inl e ↦ rw e f
          | inr (a, from, to, e) ↦ subst (λ (x : ℕ). has x ≡ false) e (none a from to)
        ],
      ),
    )
  ])
]
