-- ===== src/Mng/BlockManager/Accounts.antt =====
-- The statistics of `block_manager` (foxxll/mng/block_manager.hpp): total, current and maximum
-- allocation.
use foxxll.Prelude.{
  ℕ, zero, suc, ◌+◌, ◌≤◌, ◌<◌, ◌&&◌, leb, ◌≡◌, ◌∙◌, subst, refl, ap, Bool-cases, inl, inr, List, [],
  ◌∷◌, Option, some, arith, ltb, ◌==◌, length, length-set, get_elem?, replicate, if◌then◌else◌,
  add64, u64_mod,
}
use foxxll.Mng.Bid.{Bid}
use foxxll.Mng.DiskAllocator.{Allocator, done, throws}
use foxxll.Mng.DiskAllocator.NewBlocks as NewBlocks
use foxxll.Mng.DiskAllocator.NewBlocks.{Outcome}
use foxxll.Mng.DiskAllocator.Carve.{SameBlocks, sizes}
use foxxll.Mng.DiskAllocator.Takes.{SameBlocks-sizes}
use foxxll.Mng.DiskAllocator.Same.{new_blocks-SameBlocks}
use foxxll.Mng.BlockManager.Choice.{choose_disk-Chosen}
use foxxll.Mng.BlockManager.OneDisk.{allocate_on-Round, go_on-done}
use foxxll.Mng.BlockManager.{
  Manager, Result, has_space, choose_disk, add_bytes, assign_disks, collect, count_sizes,
  store_disk, allocate_on, allocate_disks, update_maximum, new_blocks,
}

count_sizes-eq : (bs : List Bid) (n : ℕ) → n + sizes bs < u64_mod → count_sizes bs n ≡ n + sizes bs
unfolding count_sizes
count_sizes-eq [] n h = omega arith
count_sizes-eq (b ∷ bs) n h =
    let e : add64 n b.size ≡ n + b.size = omega (arith, h) in
    rw e (count_sizes-eq bs (n + b.size) (omega (arith, h)) ∙ omega arith)

-- Every block has a disk of the first `n`.
abbrev pub Below : ℕ → List ℕ → List Bid → Type 0
Below n [] [] = Unit {0}
Below n (c ∷ chosen) (b ∷ bids) = (c < n) × Below n chosen bids
Below n _ _ = ⊥

assign_disks-Below :
    (functor : ℕ → ℕ) (allocators : List Allocator) (i : ℕ) (bids : List Bid) (bytes : List ℕ)
    → ((k : ℕ) → functor k < length allocators)
    → Below (length allocators) (assign_disks functor allocators i bids bytes) bids
unfolding assign_disks
assign_disks-Below functor allocators i [] bytes h = tt
assign_disks-Below functor allocators i (b ∷ bids) bytes h =
    let d = choose_disk (has_space allocators bytes b.size) (length allocators) (functor i) in
    (
      (choose_disk-Chosen (has_space allocators bytes b.size) (length allocators) (functor i)
          (h i)).0,
      assign_disks-Below functor allocators (i + 1) bids
          (add_bytes (get_elem? bytes d) d b.size bytes) h,
    )

-- The bytes of the blocks on the disks of [d, d + n).
bytes_on : ℕ → ℕ → List ℕ → List Bid → ℕ
bytes_on zero d chosen bids = 0
bytes_on (suc n) d chosen bids = sizes (collect d chosen bids) + bytes_on n (d + 1) chosen bids

bytes_on-cons :
    (n d c : ℕ) (chosen : List ℕ) (b : Bid) (bids : List Bid)
    → bytes_on n d (c ∷ chosen) (b ∷ bids)
      ≡ (if leb d c && ltb c (d + n) then b.size else 0) + bytes_on n d chosen bids
unfolding bytes_on collect
bytes_on-cons zero d c chosen b bids = ground arith
bytes_on-cons (suc n) d c chosen b bids = elim (Bool-cases (c == d)) [
  | inl y ↦ ground (arith, y, bytes_on-cons n (d + 1) c chosen b bids)
  | inr f ↦ ground (arith, f, bytes_on-cons n (d + 1) c chosen b bids)
]

bytes_on-nil : (n d : ℕ) → bytes_on n d [] [] ≡ 0
unfolding bytes_on collect
bytes_on-nil zero d = refl
bytes_on-nil (suc n) d = omega (arith, bytes_on-nil n (d + 1))

bytes_on-sizes :
    (n : ℕ) (chosen : List ℕ) (bids : List Bid)
    → Below n chosen bids
    → bytes_on n 0 chosen bids ≡ sizes bids
bytes_on-sizes n [] [] h = bytes_on-nil n 0
bytes_on-sizes n (c ∷ chosen) (b ∷ bids) h =
    ground (arith, h.0, bytes_on-cons n 0 c chosen b bids, bytes_on-sizes n chosen bids (h.1))
bytes_on-sizes n [] (b ∷ bids) h = absurd h
bytes_on-sizes n (c ∷ chosen) [] h = absurd h

bytes_on-same :
    (n d : ℕ) (chosen : List ℕ) (bs cs : List Bid)
    → ((e : ℕ) → d ≤ e → collect e chosen bs ≡ collect e chosen cs)
    → bytes_on n d chosen bs ≡ bytes_on n d chosen cs
unfolding bytes_on
bytes_on-same zero d chosen bs cs h = refl
bytes_on-same (suc n) d chosen bs cs h = omega (
  arith,
  ap sizes (h d (omega arith)),
  bytes_on-same n (d + 1) chosen bs cs (λ e k. h e (omega (arith, k))),
)

-- Both statistics have grown by so many bytes, and the maximum and the number of disks are the same.
pub record Counts (n : ℕ) (m m' : Manager) : Type 0 where
  pub total : m'.total_allocation ≡ m.total_allocation + n
  pub current : m'.current_allocation ≡ m.current_allocation + n
  pub maximum : m'.maximum_allocation ≡ m.maximum_allocation
  pub disks : length m'.block_allocators ≡ length m.block_allocators

get_elem?-found :
    (xs : List Allocator) (i : ℕ) → i < length xs → (a : Allocator) × (get_elem? xs i ≡ some a)
get_elem?-found [] i h = absurd (omega (arith, h))
get_elem?-found (x ∷ xs) zero h = (x, refl)
get_elem?-found (x ∷ xs) (suc i) h = get_elem?-found xs i (omega (arith, h))

store_disk-Counts :
    (d : ℕ) (chosen : List ℕ) (mine bids : List Bid) (m : Manager) (a : Allocator) (o : Outcome)
    (m' : Manager) (bids' : List Bid)
    → NewBlocks.new_blocks mine a ≡ o
    → m.total_allocation + sizes mine < u64_mod
    → m.current_allocation ≤ m.total_allocation
    → store_disk d chosen bids m o ≡ (done, m', bids')
    → Counts (sizes mine) m m'
unfolding store_disk
store_disk-Counts d chosen mine bids m a (done, x, placed) m' bids' o h l e =
    let same : sizes mine ≡ sizes placed =
      SameBlocks-sizes mine placed
        (subst (λ (r : Outcome). SameBlocks mine (r.2)) o (new_blocks-SameBlocks mine a)) in
    rw (← ap (λ (r : Result). r.1) e) (record {
      total =
          count_sizes-eq placed m.total_allocation (omega (arith, same, h)) ∙ omega (arith, same);
      current =
          count_sizes-eq placed m.current_allocation (omega (arith, same, h, l))
          ∙ omega (arith, same);
      maximum = refl;
      disks = length-set m.block_allocators d x;
    })
store_disk-Counts d chosen mine bids m a (throws x, y, z) m' bids' o h l e = cc

allocate_on-Counts :
    (d : ℕ) (chosen : List ℕ) (mine bids : List Bid) (m : Manager) (a : Allocator) (m' : Manager)
    (bids' : List Bid)
    → m.total_allocation + sizes mine < u64_mod
    → m.current_allocation ≤ m.total_allocation
    → allocate_on (some a) d chosen mine bids m ≡ (done, m', bids')
    → Counts (sizes mine) m m'
unfolding allocate_on
allocate_on-Counts d chosen (b ∷ mine) bids m a m' bids' h l e =
    store_disk-Counts d chosen (b ∷ mine) bids m a (NewBlocks.new_blocks (b ∷ mine) a) m' bids' refl
      h l e
allocate_on-Counts d chosen [] bids m a m' bids' h l e =
    rw (← ap (λ (r : Result). r.1) e)
      (record { total = omega arith; current = omega arith; maximum = refl; disks = refl })

allocate_disks-Counts :
    (n d : ℕ) (chosen : List ℕ) (bids : List Bid) (m m' : Manager) (bids' : List Bid)
    → d + n ≤ length m.block_allocators
    → m.total_allocation + bytes_on n d chosen bids < u64_mod
    → m.current_allocation ≤ m.total_allocation
    → allocate_disks n d chosen bids m ≡ (done, m', bids')
    → Counts (bytes_on n d chosen bids) m m'
unfolding allocate_disks bytes_on
allocate_disks-Counts zero d chosen bids m m' bids' k h l e =
    rw (← ap (λ (r : Result). r.1) e)
      (record { total = omega arith; current = omega arith; maximum = refl; disks = refl })
allocate_disks-Counts (suc n) d chosen bids m m' bids' k h l e =
    let (a, g) = get_elem?-found m.block_allocators d (omega (arith, k)) in
    let (m1, b1, s, t) = go_on-done (λ x y. allocate_disks n (d + 1) chosen y x) _ m' bids' e in
    let s' =
      subst
        (λ (o : Option Allocator).
          allocate_on o d chosen (collect d chosen bids) bids m ≡ (done, m1, b1))
        g s in
    let first =
      allocate_on-Counts d chosen (collect d chosen bids) bids m a m1 b1 (omega (arith, h)) l s' in
    let r = allocate_on-Round d chosen (collect d chosen bids) bids m a m1 b1 g refl s' in
    let same =
      bytes_on-same n (d + 1) chosen b1 bids
        (λ c v. r.others_blocks c (λ w. omega (arith, v, w))) in
    let later =
      allocate_disks-Counts n (d + 1) chosen b1 m1 m' bids' (omega (arith, k, first.disks))
        (omega (arith, h, first.total, same)) (omega (arith, first.total, first.current, l)) t in
    record {
      total = omega (arith, first.total, later.total, same);
      current = omega (arith, first.current, later.current, same);
      maximum = later.maximum ∙ first.maximum;
      disks = later.disks ∙ first.disks;
    }

-- What `new_blocks` reports: `n` bytes more.
pub record Accounted (n : ℕ) (m m' : Manager) : Type 0 where
  pub total : m'.total_allocation ≡ m.total_allocation + n
  pub current : m'.current_allocation ≡ m.current_allocation + n
  pub maximum : m'.maximum_allocation ≡ (
      if ltb m.maximum_allocation (m.current_allocation + n)
      then m.current_allocation + n
      else m.maximum_allocation)

update_maximum-Accounted :
    (n : ℕ) (m : Manager) (r : Result) (m' : Manager) (bids' : List Bid)
    → ((m1 : Manager) → r ≡ (done, m1, bids') → Counts n m m1)
    → update_maximum r ≡ (done, m', bids')
    → Accounted n m m'
unfolding update_maximum
update_maximum-Accounted n m (done, m1, b) m' bids' h e =
    let c = h m1 (ap (λ (x : Result). (done, m1, x.2)) e) in
    rw (← ap (λ (x : Result). x.1) e)
      (record { total = c.total; current = c.current; maximum = rw (c.maximum, c.current) refl })
update_maximum-Accounted n m (throws x, y, z) m' bids' h e = cc

-- When `new_blocks` of the manager ends normally, with a strategy that keeps to the disks and a total
-- that stays below 2^64: the total and the current allocation have grown by the bytes of all the
-- blocks of the range, on whichever disks they are, and the maximum is the larger one of what it was
-- and the new current allocation.
pub new_blocks-Accounted :
    (functor : ℕ → ℕ) (offset : ℕ) (bids : List Bid) (m m' : Manager) (bids' : List Bid)
    → ((k : ℕ) → functor k < length m.block_allocators)
    → m.current_allocation ≤ m.total_allocation
    → m.total_allocation + sizes bids < u64_mod
    → new_blocks functor offset bids m ≡ (done, m', bids')
    → Accounted (sizes bids) m m'
unfolding new_blocks
new_blocks-Accounted functor offset bids m m' bids' f l h e =
    let n = length m.block_allocators in
    let chosen = assign_disks functor m.block_allocators offset bids (replicate n 0) in
    let all =
      bytes_on-sizes n chosen bids
        (assign_disks-Below functor m.block_allocators offset bids (replicate n 0) f) in
    update_maximum-Accounted (sizes bids) m (allocate_disks n 0 chosen bids m) m' bids'
      (λ m1 r.
        subst (λ (x : ℕ). Counts x m m1) all
          (allocate_disks-Counts n 0 chosen bids m m1 bids' (omega arith) (omega (arith, h, all)) l
            r))
      e
