-- ===== src/Speed/Tally.antt =====
-- How many chunks each rank owns, and sums of numbers under a bound.
use starrygl_tmp.Prelude.{
  ℕ, zero, suc, ◌+◌, ◌*◌, ◌<◌, ◌≤◌, ◌==◌, ℤ, pos, negsuc, Bool, false, List, [], ◌∷◌, length,
  replicate, get_or, set, AllBelow, if◌then◌else◌, ◌≡◌, refl, arith,
}

-- Whether the owner is the rank.
unfoldable pub is_rank : ℕ → ℤ → Bool
is_rank r (pos k) = k == r
is_rank r (negsuc k) = false

unfoldable pub tally : ℕ → List ℤ → ℕ
unfolding is_rank
tally r [] = 0
tally r (o ∷ owner) = (if is_rank r o then 1 else 0) + tally r owner

pub tally-set :
    (r : ℕ) (owner : List ℤ) (i : ℕ) (o : ℤ)
    → i < length owner
    → tally r (set owner i o) + (if is_rank r (get_or owner i (negsuc 0)) then 1 else 0)
      ≡ tally r owner + (if is_rank r o then 1 else 0)
unfolding tally
tally-set r [] i o lt = elim lt [ ]
tally-set r (x ∷ owner) zero o lt = omega arith
tally-set r (x ∷ owner) (suc i) o lt = omega (arith, tally-set r owner i o (omega arith))

pub tally-replicate : (r n : ℕ) → tally r (replicate n (negsuc 0)) ≡ 0
unfolding tally
tally-replicate r zero = refl
tally-replicate r (suc n) = omega (arith, tally-replicate r n)

unfoldable pub total : List ℕ → ℕ
total [] = 0
total (x ∷ xs) = x + total xs

pub total-set :
    (xs : List ℕ) (i v : ℕ) → i < length xs → total (set xs i v) + get_or xs i 0 ≡ total xs + v
unfolding total
total-set [] i v lt = elim lt [ ]
total-set (x ∷ xs) zero v lt = omega arith
total-set (x ∷ xs) (suc i) v lt = omega (arith, total-set xs i v (omega arith))

pub total-replicate : (n : ℕ) → total (replicate n 0) ≡ 0
unfolding total
total-replicate zero = refl
total-replicate (suc n) = omega (arith, total-replicate n)

total-le : (cap : ℕ) (xs : List ℕ) → AllBelow (suc cap) xs → total xs ≤ length xs * cap
unfolding total
total-le cap [] below = omega arith
total-le cap (x ∷ xs) below = grind (arith, total-le cap xs below.1)

-- Numbers under a bound that add up to as much as they can are all the bound.
pub total_full :
    (cap : ℕ) (xs : List ℕ)
    → AllBelow (suc cap) xs
    → total xs ≡ length xs * cap
    → (i : ℕ) → i < length xs
    → get_or xs i 0 ≡ cap
unfolding total
total_full cap [] below full i lt = elim lt [ ]
total_full cap (x ∷ xs) below full zero lt = grind (arith, total-le cap xs below.1)
total_full cap (x ∷ xs) below full (suc i) lt =
    total_full cap xs below.1 (grind (arith, total-le cap xs below.1)) i (omega arith)

pub AllBelow-set : (n : ℕ) (xs : List ℕ) (i v : ℕ) → AllBelow n xs → v < n → AllBelow n (set xs i v)
AllBelow-set n [] i v below lt = tt
AllBelow-set n (x ∷ xs) zero v below lt = (lt, below.1)
AllBelow-set n (x ∷ xs) (suc i) v below lt = (below.0, AllBelow-set n xs i v below.1 lt)

pub AllBelow-replicate : (n k v : ℕ) → v < n → AllBelow n (replicate k v)
AllBelow-replicate n zero v lt = tt
AllBelow-replicate n (suc k) v lt = (lt, AllBelow-replicate n k v lt)
