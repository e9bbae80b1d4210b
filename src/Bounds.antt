-- ===== src/Bounds.antt =====
-- `std::lower_bound` and `std::upper_bound`: the binary search, and what it finds in a sorted array,
-- which is how many elements stand before the first that is not less than, or that is greater than, the
-- value. In an array that is not sorted the search may end elsewhere, but within the array.
use mathlib.Core.List.{Mem, Pairwise, mem-cons_self, mem-cons_of_mem}
use starrygl_tmp.Sort.Laws.{IsSorted}
use starrygl_tmp.Prelude.{
  ℕ, zero, suc, ◌+◌, ◌-◌, ◌/◌, ◌<◌, ◌≤◌, ℤ, pos, ltb_ℤ, Bool, true, false, not, List, [], ◌∷◌,
  length, get_elem?, get_or, get_elem?-of-lt, some, if◌then◌else◌, dec_lt, ◌≡◌, refl, arith,
  Bool-cases, inl, inr,
}

module _ (before : ℤ → Bool) (xs : List ℤ) where
  -- `while (len > 0)`, for at most so many turns: the half of what is left is cut off in each.
  unfoldable bisect : ℕ → ℕ → ℕ → ℕ
  bisect zero first len = first
  bisect (suc fuel) first zero = first
  bisect (suc fuel) first (suc len) =
      let half = suc len / 2 in
      let right = before (get_or xs (first + half) (pos 0)) in
      bisect fuel (if right then suc (first + half) else first) (if right then len - half else half)

  bisect-le : (fuel first len : ℕ) → bisect fuel first len ≤ first + len
  unfolding bisect
  bisect-le zero first len = omega arith
  bisect-le (suc fuel) first zero = omega arith
  bisect-le (suc fuel) first (suc len) =
      let half = suc len / 2 in
      elim (Bool-cases (before (get_or xs (first + half) (pos 0)))) [
        | inl e ↦ rw (bisect, e) (omega (arith, bisect-le fuel (suc (first + half)) (len - half)))
        | inr e ↦ rw (bisect, e) (omega (arith, bisect-le fuel first half))
      ]

  -- The elements before `p` come first, and no others.
  IsSplit : ℕ → Type 0
  IsSplit p =
      ((i : ℕ) → i < p → before (get_or xs i (pos 0)) ≡ true)
      × ((i : ℕ) → p ≤ i → i < length xs → before (get_or xs i (pos 0)) ≡ false)

  -- Where the elements are split at `p`, and `p` is in what is left, the search finds it.
  bisect-IsSplit :
      (p fuel first len : ℕ)
      → IsSplit p
      → len ≤ fuel
      → first ≤ p
      → p ≤ first + len
      → first + len ≤ length xs
      → bisect fuel first len ≡ p
  unfolding bisect IsSplit
  bisect-IsSplit p zero first len split enough from to inside = omega arith
  bisect-IsSplit p (suc fuel) first zero split enough from to inside = omega arith
  bisect-IsSplit p (suc fuel) first (suc len) split enough from to inside =
      let half = suc len / 2 in
      let shrinks : half < suc len = omega arith in
      elim (dec_lt (first + half) p) [
        | yes lt ↦
            let e = split.0 (first + half) lt in
            rw (bisect, e)
              (bisect-IsSplit p fuel (suc (first + half)) (len - half) split (omega (arith, enough))
                lt (omega (arith, to, shrinks)) (omega (arith, inside, shrinks)))
        | no not_lt ↦
            let e =
              split.1 (first + half) (omega (arith, not_lt)) (omega (arith, inside, shrinks)) in
            rw (bisect, e)
              (bisect-IsSplit p fuel first half split (omega (arith, enough, shrinks)) from
                (omega (arith, not_lt)) (omega (arith, inside, shrinks)))
      ]

-- Each turn leaves less of the array, so that it has no more turns than elements.
unfoldable pub lower_bound : ℤ → List ℤ → ℕ
unfolding bisect
lower_bound v xs = bisect (λ x. ltb_ℤ x v) xs (length xs) 0 (length xs)

unfoldable pub upper_bound : ℤ → List ℤ → ℕ
unfolding bisect
upper_bound v xs = bisect (λ x. not (ltb_ℤ v x)) xs (length xs) 0 (length xs)

pub lower_bound-le-length : (v : ℤ) (xs : List ℤ) → lower_bound v xs ≤ length xs
unfolding lower_bound
lower_bound-le-length v xs = omega (arith, bisect-le (λ x. ltb_ℤ x v) xs (length xs) 0 (length xs))

pub upper_bound-le-length : (v : ℤ) (xs : List ℤ) → upper_bound v xs ≤ length xs
unfolding upper_bound
upper_bound-le-length v xs =
    omega (arith, bisect-le (λ x. not (ltb_ℤ v x)) xs (length xs) 0 (length xs))

-- The first element that is not less, element by element.
unfoldable pub lower_scan : ℤ → List ℤ → ℕ
lower_scan v [] = 0
lower_scan v (x ∷ xs) = if ltb_ℤ x v then suc (lower_scan v xs) else 0

unfoldable upper_scan : ℤ → List ℤ → ℕ
upper_scan v [] = 0
upper_scan v (x ∷ xs) = if ltb_ℤ v x then 0 else suc (upper_scan v xs)

-- What stands before the first element that is not less is less.
before-lower_scan :
    (v : ℤ) (xs : List ℤ) (i : ℕ) (x : ℤ)
    → i < lower_scan v xs
    → get_elem? xs i ≡ some x
    → ltb_ℤ x v ≡ true
unfolding lower_scan
before-lower_scan v [] i x lt h = cc
before-lower_scan v (y ∷ ys) zero x lt h = ground arith
before-lower_scan v (y ∷ ys) (suc i) x lt h = elim (Bool-cases (ltb_ℤ y v)) [
  | inl e ↦ before-lower_scan v ys i x (omega (arith, rw e at lt)) h
  | inr e ↦ absurd (omega (arith, rw e at lt))
]

-- What stands before the first element that is greater is not greater.
before-upper_scan :
    (v : ℤ) (xs : List ℤ) (i : ℕ) (x : ℤ)
    → i < upper_scan v xs
    → get_elem? xs i ≡ some x
    → ltb_ℤ v x ≡ false
unfolding upper_scan
before-upper_scan v [] i x lt h = cc
before-upper_scan v (y ∷ ys) zero x lt h = ground arith
before-upper_scan v (y ∷ ys) (suc i) x lt h = elim (Bool-cases (ltb_ℤ v y)) [
  | inl e ↦ absurd (omega (arith, rw e at lt))
  | inr e ↦ before-upper_scan v ys i x (omega (arith, rw e at lt)) h
]

Mem-get_elem? : (ys : List ℤ) (i : ℕ) (x : ℤ) → get_elem? ys i ≡ some x → Mem x ys
Mem-get_elem? [] i x h = cc
Mem-get_elem? (y ∷ ys) zero x h = let same : x ≡ y = cc in rw same mem-cons_self
Mem-get_elem? (y ∷ ys) (suc i) x h = mem-cons_of_mem y (Mem-get_elem? ys i x h)

-- In a sorted array, what stands from there on is not less.
from-lower_scan :
    (v : ℤ) (xs : List ℤ) (i : ℕ) (x : ℤ)
    → IsSorted ltb_ℤ xs
    → lower_scan v xs ≤ i
    → get_elem? xs i ≡ some x
    → ltb_ℤ x v ≡ false
unfolding lower_scan
from-lower_scan v [] i x s le h = cc
from-lower_scan v (y ∷ ys) zero x s le h = ground arith
from-lower_scan v (y ∷ ys) (suc i) x (Pairwise.cons below s) le h = elim (Bool-cases (ltb_ℤ y v)) [
  | inl e ↦ from-lower_scan v ys i x s (omega (arith, rw e at le)) h
  | inr e ↦ let ordered = below x (Mem-get_elem? ys i x h) in ground arith
]

lower_scan-le-length : (v : ℤ) (xs : List ℤ) → lower_scan v xs ≤ length xs
unfolding lower_scan
lower_scan-le-length v [] = omega arith
lower_scan-le-length v (x ∷ xs) = ground (arith, lower_scan-le-length v xs)

upper_scan-le-length : (v : ℤ) (xs : List ℤ) → upper_scan v xs ≤ length xs
unfolding upper_scan
upper_scan-le-length v [] = omega arith
upper_scan-le-length v (x ∷ xs) = ground (arith, upper_scan-le-length v xs)

from-upper_scan :
    (v : ℤ) (xs : List ℤ) (i : ℕ) (x : ℤ)
    → IsSorted ltb_ℤ xs
    → upper_scan v xs ≤ i
    → get_elem? xs i ≡ some x
    → ltb_ℤ v x ≡ true
unfolding upper_scan
from-upper_scan v [] i x s le h = cc
from-upper_scan v (y ∷ ys) zero x s le h = ground arith
from-upper_scan v (y ∷ ys) (suc i) x (Pairwise.cons below s) le h = elim (Bool-cases (ltb_ℤ v y)) [
  | inl e ↦ let ordered = below x (Mem-get_elem? ys i x h) in ground arith
  | inr e ↦ from-upper_scan v ys i x s (omega (arith, rw e at le)) h
]

module _ (v : ℤ) (xs : List ℤ) (sorted : IsSorted ltb_ℤ xs) where
  -- The search in a sorted array finds what the scan finds.
  pub lower_bound-lower_scan : lower_bound v xs ≡ lower_scan v xs
  unfolding lower_bound IsSplit
  lower_bound-lower_scan =
      bisect-IsSplit (λ x. ltb_ℤ x v) xs (lower_scan v xs) (length xs) 0 (length xs) split
        (omega arith) (omega arith) (omega (arith, lower_scan-le-length v xs)) (omega arith)
    where
      split : IsSplit (λ x. ltb_ℤ x v) xs (lower_scan v xs)
      split = (
        λ i lt.
            before-lower_scan v xs i _ lt
              (get_elem?-of-lt xs i (pos 0) (omega (arith, lt, lower_scan-le-length v xs))),
        λ i le lt. from-lower_scan v xs i _ sorted le (get_elem?-of-lt xs i (pos 0) lt),
      )

  upper_bound-upper_scan : upper_bound v xs ≡ upper_scan v xs
  unfolding upper_bound IsSplit
  upper_bound-upper_scan =
      bisect-IsSplit (λ x. not (ltb_ℤ v x)) xs (upper_scan v xs) (length xs) 0 (length xs) split
        (omega arith) (omega arith) (omega (arith, upper_scan-le-length v xs)) (omega arith)
    where
      split : IsSplit (λ x. not (ltb_ℤ v x)) xs (upper_scan v xs)
      split = (
        λ i lt.
            rw
              (before-upper_scan v xs i _ lt
                (get_elem?-of-lt xs i (pos 0) (omega (arith, lt, upper_scan-le-length v xs))))
              refl,
        λ i le lt. rw (from-upper_scan v xs i _ sorted le (get_elem?-of-lt xs i (pos 0) lt)) refl,
      )

  -- What stands before the lower bound is less.
  pub before-lower_bound :
      (i : ℕ) (x : ℤ) → i < lower_bound v xs → get_elem? xs i ≡ some x → ltb_ℤ x v ≡ true
  before-lower_bound i x lt h = before-lower_scan v xs i x (rw (← lower_bound-lower_scan) lt) h

  -- What stands before the upper bound is not greater.
  pub before-upper_bound :
      (i : ℕ) (x : ℤ) → i < upper_bound v xs → get_elem? xs i ≡ some x → ltb_ℤ v x ≡ false
  before-upper_bound i x lt h = before-upper_scan v xs i x (rw (← upper_bound-upper_scan) lt) h

  -- What stands from the lower bound on is not less.
  pub from-lower_bound :
      (i : ℕ) (x : ℤ) → lower_bound v xs ≤ i → get_elem? xs i ≡ some x → ltb_ℤ x v ≡ false
  from-lower_bound i x le h = from-lower_scan v xs i x sorted (rw (← lower_bound-lower_scan) le) h
