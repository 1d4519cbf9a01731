-- ===== src/Mng/DiskAllocator/FreeSpace/Regions.antt =====
-- What a free-space map means: which bytes it covers, how many, and when its regions are in order,
-- not empty, apart from one another, and below a bound.
use foxxll.Prelude.{
  ℕ, suc, ◌+◌, ◌≤◌, ◌<◌, ◌≡◌, refl, List, [], ◌∷◌, arith, ltb, leb, ◌&&◌, if◌then◌else◌, Bool-cases,
  inl, inr, length,
}
use foxxll.Mng.DiskAllocator.FreeSpace.{Place, seek, rewind, assign}

-- 1 if the byte at `x` lies in the region, and 0 otherwise.
abbrev pub inside : ℕ → ℕ → ℕ → ℕ
inside x p s = if leb p x && ltb x (p + s) then 1 else 0

pub inside-split : (x p s t : ℕ) → inside x p (s + t) ≡ inside x p s + inside x (p + s) t
inside-split x p s t = ground arith

-- The number of regions that hold the byte at `x`.
abbrev pub regions_at : ℕ → List Place → ℕ
regions_at x [] = 0
regions_at x ((p, s) ∷ m) = inside x p s + regions_at x m

abbrev pub total_size : List Place → ℕ
total_size [] = 0
total_size ((p, s) ∷ m) = s + total_size m

-- The regions start at `l` or later and end by `u`; none is empty, and a used byte at least lies
-- between two of them.
abbrev pub Fits : ℕ → List Place → ℕ → Type 0
Fits l [] u = Unit {0}
Fits l ((p, s) ∷ m) u = (l ≤ p) × (0 < s) × (p + s ≤ u) × Fits (suc (p + s)) m u

-- The same for the entries in front of a cursor, the nearest one first.
abbrev pub Before : List Place → ℕ → Type 0
Before [] v = Unit {0}
Before ((p, s) ∷ lo) v = (p + s < v) × (0 < s) × Before lo p

-- What `upper_bound` leaves in front of the cursor.
abbrev pub Left : ℕ → ℕ → List Place → Type 0
Left key u [] = Unit {0}
Left key u ((p, s) ∷ lo) = (p ≤ key) × (0 < s) × (p + s ≤ u) × Before lo p

abbrev pub next : List Place → ℕ
next [] = 0
next ((p, s) ∷ lo) = suc (p + s)

pub Fits-mono : (l k u v : ℕ) (m : List Place) → k ≤ l → u ≤ v → Fits l m u → Fits k m v
Fits-mono l k u v [] h g f = tt
Fits-mono l k u v ((p, s) ∷ m) h g f = (
  omega arith,
  omega arith,
  omega arith,
  Fits-mono (suc (p + s)) (suc (p + s)) u v m (omega arith) g f.3,
)

pub seek-Left :
    (key u : ℕ) (lo m : List Place)
    → Left key u lo
    → Fits (next lo) m u
    → let c = seek key lo m in
      Left key u c.before × Fits (next c.before) c.after u × Fits (suc key) c.after u
unfolding seek
seek-Left key u lo [] left f = (left, tt, tt)
seek-Left key u [] ((p, s) ∷ m) left f = elim (Bool-cases (ltb key p)) [
  | inl e ↦ rw e (tt, f, (ground arith, f.1, f.2, f.3))
  | inr e ↦ rw e (seek-Left key u ((p, s) ∷ []) m (ground arith, f.1, f.2, tt) f.3)
]
seek-Left key u ((q, r) ∷ lo) ((p, s) ∷ m) left f = elim (Bool-cases (ltb key p)) [
  | inl e ↦ rw e (left, f, (ground arith, f.1, f.2, f.3))
  | inr e ↦ rw e (
      seek-Left key u ((p, s) ∷ (q, r) ∷ lo) m
        (ground arith, f.1, f.2, (omega arith, left.1, left.3)) f.3)
]

pub rewind-seek :
    (key : ℕ) (lo m : List Place) → let c = seek key lo m in rewind c.before c.after ≡ rewind lo m
unfolding seek rewind
rewind-seek key lo [] = refl
rewind-seek key lo ((p, s) ∷ m) = elim (Bool-cases (ltb key p)) [
  | inl e ↦ rw e
  | inr e ↦ rw e (rewind-seek key ((p, s) ∷ lo) m)
]

pub regions_at-rewind :
    (x : ℕ) (lo hi : List Place) → regions_at x (rewind lo hi) ≡ regions_at x lo + regions_at x hi
unfolding rewind
regions_at-rewind x [] hi = omega arith
regions_at-rewind x ((p, s) ∷ lo) hi = omega (arith, regions_at-rewind x lo ((p, s) ∷ hi))

pub total_size-rewind :
    (lo hi : List Place) → total_size (rewind lo hi) ≡ total_size lo + total_size hi
unfolding rewind
total_size-rewind [] hi = omega arith
total_size-rewind ((p, s) ∷ lo) hi = omega (arith, total_size-rewind lo ((p, s) ∷ hi))

pub rewind-Fits :
    (lo hi : List Place) (v u : ℕ) → Before lo v → v ≤ u → Fits v hi u → Fits 0 (rewind lo hi) u
unfolding rewind
rewind-Fits [] hi v u b h f = Fits-mono v 0 u u hi (omega arith) (omega arith) f
rewind-Fits ((p, s) ∷ lo) hi v u b h f =
    rewind-Fits lo ((p, s) ∷ hi) p u b.2 (omega arith)
      (omega arith, b.1, omega arith, Fits-mono v (suc (p + s)) u u hi b.0 (omega arith) f)

-- A write at a key that lies behind all of `lo`.
pub assign-rewind :
    (k v : ℕ) (lo hi hi' : List Place) (w : ℕ)
    → Before lo w
    → w ≤ k
    → assign k v hi ≡ hi'
    → assign k v (rewind lo hi) ≡ rewind lo hi'
unfolding assign rewind
assign-rewind k v [] hi hi' w b h e = e
assign-rewind k v ((p, s) ∷ lo) hi hi' w b h e =
    assign-rewind k v lo ((p, s) ∷ hi) ((p, s) ∷ hi') p b.2 (omega arith) (ground arith)

pub assign-front : (k v u : ℕ) (hi : List Place) → Fits (suc k) hi u → assign k v hi ≡ (k, v) ∷ hi
unfolding assign
assign-front k v u [] f = refl
assign-front k v u ((p, s) ∷ hi) f = ground arith

pub length-rewind : (lo hi : List Place) → length (rewind lo hi) ≡ length lo + length hi
unfolding rewind
length-rewind [] hi = omega arith
length-rewind ((p, s) ∷ lo) hi = omega (arith, length-rewind lo ((p, s) ∷ hi))

-- No byte lies in two regions, and none past the bound lies in any.
pub regions_at-below : (x l u : ℕ) (m : List Place) → Fits l m u → x < l → regions_at x m ≡ 0
regions_at-below x l u [] f h = refl
regions_at-below x l u ((p, s) ∷ m) f h = ground (arith, regions_at-below x (suc (p + s)) u m f.3)

pub regions_at-le-one : (x l u : ℕ) (m : List Place) → Fits l m u → regions_at x m ≤ 1
regions_at-le-one x l u [] f = omega arith
regions_at-le-one x l u ((p, s) ∷ m) f =
    ground
      (arith, regions_at-below x (suc (p + s)) u m f.3, regions_at-le-one x (suc (p + s)) u m f.3)

pub regions_at-above : (x l u : ℕ) (m : List Place) → Fits l m u → u ≤ x → regions_at x m ≡ 0
regions_at-above x l u [] f h = refl
regions_at-above x l u ((p, s) ∷ m) f h = ground (arith, regions_at-above x (suc (p + s)) u m f.3)

total_size-le-suc : (l u : ℕ) (m : List Place) → l ≤ suc u → Fits l m u → l + total_size m ≤ suc u
total_size-le-suc l u [] h f = omega arith
total_size-le-suc l u ((p, s) ∷ m) h f =
    omega (arith, total_size-le-suc (suc (p + s)) u m (omega arith) f.3)

pub total_size-le : (u : ℕ) (m : List Place) → Fits 0 m u → total_size m ≤ u
total_size-le u [] f = omega arith
total_size-le u ((p, s) ∷ m) f =
    omega (arith, total_size-le-suc (suc (p + s)) u m (omega arith) f.3)
