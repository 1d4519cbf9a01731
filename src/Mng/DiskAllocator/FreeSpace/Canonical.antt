-- ===== src/Mng/DiskAllocator/FreeSpace/Canonical.antt =====
-- Maps of free space (foxxll/mng/disk_block_allocator.hpp) that cover the same bytes.
use foxxll.Prelude.{ℕ, suc, ◌+◌, ◌≤◌, ◌<◌, ◌≡◌, refl, List, [], ◌∷◌, arith, ap, sym}
use foxxll.Mng.DiskAllocator.FreeSpace.{Place}
use foxxll.Mng.DiskAllocator.FreeSpace.Regions.{inside, regions_at, Fits, regions_at-below}

-- The second map starts where the first one does, or before.
start-le :
    (p s q t u v : ℕ) (m n : List Place)
    → Fits (suc (p + s)) m u
    → 0 < s
    → Fits (suc (q + t)) n v
    → regions_at p ((p, s) ∷ m) ≡ regions_at p ((q, t) ∷ n)
    → q ≤ p
start-le p s q t u v m n f pos g same = ground (arith, regions_at-below p (suc (q + t)) v n g)

size-le :
    (p s t u v : ℕ) (m n : List Place)
    → Fits (suc (p + s)) m u
    → Fits (suc (p + t)) n v
    → regions_at (p + s) ((p, s) ∷ m) ≡ regions_at (p + s) ((p, t) ∷ n)
    → t ≤ s
size-le p s t u v m n f g same = ground (arith, regions_at-below (p + s) (suc (p + s)) u m f)

pub canonical :
    (l k u v : ℕ) (m n : List Place)
    → Fits l m u
    → Fits k n v
    → ((x : ℕ) → regions_at x m ≡ regions_at x n)
    → m ≡ n
canonical l k u v [] [] f g same = refl
canonical l k u v [] ((q, t) ∷ n) f g same = absurd (ground (arith, same q))
canonical l k u v ((p, s) ∷ m) [] f g same = absurd (ground (arith, same p))
canonical l k u v ((p, s) ∷ m) ((q, t) ∷ n) f g same =
    let q-le = start-le p s q t u v m n f.3 f.1 g.3 (same p) in
    let p-le = start-le q t p s v u n m g.3 g.1 f.3 (sym (same q)) in
    let start : q ≡ p = omega arith in
    let bytes = λ (x : ℕ). rw start at (same x) in
    let ahead : Fits (suc (p + t)) n v = rw start at g.3 in
    let size : t ≡ s = omega (
      arith,
      size-le p s t u v m n f.3 ahead (bytes (p + s)),
      size-le p t s v u n m ahead f.3 (sym (bytes (p + t))),
    ) in
    let rest =
      canonical (suc (p + s)) (suc (p + t)) u v m n f.3 ahead
        (λ x. let b = bytes x in omega (arith, b, ap (inside x p) size)) in
    rw (start, size, rest) refl
