-- ===== src/Mng/BlockScheduler/Evictable.antt =====
-- What the algorithms of foxxll/mng/block_scheduler.hpp use of the container of their evictable
-- blocks: an addressable queue, in the order of insertion or of priorities.
use foxxll.Prelude.{ℕ, ◌<◌, ◌≡◌, Option, none, some, ◌==◌, if◌then◌else◌}

-- `Key` is what is inserted along with a block; `holds j q` is 1 where the block is in and else 0.
pub record Evictable : Type 1 where
  pub Queue : Type 0
  pub Key : Type 0
  pub IsValid : Queue → Type 0
  pub holds : ℕ → Queue → ℕ
  pub size : Queue → ℕ
  pub insert : Key → ℕ → Queue → Queue
  pub erase : ℕ → Queue → Queue
  pub pop : Queue → Option (ℕ × Queue)
  pub insert-IsValid : (key : Key) (k : ℕ) (q : Queue) → IsValid q → IsValid (insert key k q)
  pub erase-IsValid : (k : ℕ) (q : Queue) → IsValid q → IsValid (erase k q)
  pub holds-insert :
      (key : Key) (j k : ℕ) (q : Queue)
      → IsValid q
      → holds j (insert key k q) ≡ (if j == k then 1 else holds j q)
  pub holds-erase :
      (j k : ℕ) (q : Queue) → IsValid q → holds j (erase k q) ≡ (if j == k then 0 else holds j q)
  pub pop_none : (j : ℕ) (q : Queue) → IsValid q → pop q ≡ none → holds j q ≡ 0
  pub pop-IsValid : (k : ℕ) (q q' : Queue) → IsValid q → pop q ≡ some (k, q') → IsValid q'
  pub pop_held : (k : ℕ) (q q' : Queue) → IsValid q → pop q ≡ some (k, q') → holds k q ≡ 1
  pub holds-pop :
      (j k : ℕ) (q q' : Queue)
      → IsValid q
      → pop q ≡ some (k, q')
      → holds j q' ≡ (if j == k then 0 else holds j q)
  pub size-pop : (k : ℕ) (q q' : Queue) → IsValid q → pop q ≡ some (k, q') → size q' < size q
