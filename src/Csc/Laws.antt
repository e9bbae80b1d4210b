-- ===== src/Csc/Laws.antt =====
-- The pointer of a column is the number of the entries in the columns before it.
use starrygl_tmp.Prelude.{
  ℕ, zero, suc, ◌+◌, ◌<◌, ◌≤◌, List, [], ◌∷◌, get_or, set, length, replicate, ◌≡◌, refl, arith, ltb,
  ◌==◌, if◌then◌else◌, ◌∙◌, length-set, length-replicate, get_or-set_self, get_or-set_ne,
  get_or-replicate, ℕ_discrete, ap,
}
use starrygl_tmp.Csc.{count_rows, accumulate}

-- How many entries stand in the columns before `col`.
unfoldable pub count_below : ℕ → List ℕ → ℕ
count_below col [] = 0
count_below col (c ∷ cols) = (if ltb c col then 1 else 0) + count_below col cols

-- How many entries are counted at the place `i`.
hits : ℕ → List ℕ → ℕ
hits i [] = 0
hits i (c ∷ cols) = (if suc c == i then 1 else 0) + hits i cols

-- The sum of the elements up to the place `i`.
upto : List ℕ → ℕ → ℕ
upto [] i = 0
upto (x ∷ xs) zero = x
upto (x ∷ xs) (suc i) = x + upto xs i

pub length-count_rows : (ptr cols : List ℕ) → length (count_rows ptr cols) ≡ length ptr
unfolding count_rows
length-count_rows ptr [] = refl
length-count_rows ptr (c ∷ cols) =
    length-count_rows (set ptr (suc c) (get_or ptr (suc c) 0 + 1)) cols ∙ length-set ptr (suc c) _

pub length-accumulate : (before : ℕ) (xs : List ℕ) → length (accumulate before xs) ≡ length xs
unfolding accumulate
length-accumulate before [] = refl
length-accumulate before (x ∷ xs) = ap suc (length-accumulate (before + x) xs)

count_rows-hits :
    (ptr cols : List ℕ) (i : ℕ)
    → i < length ptr
    → get_or (count_rows ptr cols) i 0 ≡ get_or ptr i 0 + hits i cols
unfolding count_rows hits
count_rows-hits ptr [] i h = omega arith
count_rows-hits ptr (c ∷ cols) i h =
    let ptr' = set ptr (suc c) (get_or ptr (suc c) 0 + 1) in
    let rest =
      count_rows-hits ptr' cols i
        (omega (arith, length-set ptr (suc c) (get_or ptr (suc c) 0 + 1))) in
    elim (ℕ_discrete (suc c) i) [
      | yes e ↦ ground (arith, rest, get_or-set_self ptr i (get_or ptr i 0 + 1) 0 h)
      | no n ↦ ground (arith, rest, get_or-set_ne ptr (suc c) i (get_or ptr (suc c) 0 + 1) 0 n)
    ]

accumulate-upto :
    (before : ℕ) (xs : List ℕ) (i : ℕ)
    → i < length xs
    → get_or (accumulate before xs) i 0 ≡ before + upto xs i
unfolding accumulate upto
accumulate-upto before [] i h = elim h [ ]
accumulate-upto before (x ∷ xs) zero h = refl
accumulate-upto before (x ∷ xs) (suc i) h =
    omega (arith, accumulate-upto (before + x) xs i (omega arith))

upto-suc : (xs : List ℕ) (i : ℕ) → upto xs (suc i) ≡ upto xs i + get_or xs (suc i) 0
unfolding upto
upto-suc [] i = refl
upto-suc (x ∷ []) zero = omega arith
upto-suc (x ∷ y ∷ xs) zero = refl
upto-suc (x ∷ xs) (suc i) = omega (arith, upto-suc xs i)

upto-zero : (xs : List ℕ) → upto xs 0 ≡ get_or xs 0 0
unfolding upto
upto-zero [] = refl
upto-zero (x ∷ xs) = refl

count_below-suc :
    (i : ℕ) (cols : List ℕ) → count_below (suc i) cols ≡ count_below i cols + hits (suc i) cols
unfolding count_below hits
count_below-suc i [] = refl
count_below-suc i (c ∷ cols) = ground (arith, count_below-suc i cols)

count_below-zero : (cols : List ℕ) → (count_below 0 cols ≡ 0) × (hits 0 cols ≡ 0)
unfolding count_below hits
count_below-zero [] = (refl, refl)
count_below-zero (c ∷ cols) = ground (arith, count_below-zero cols)

upto-count_below :
    (xs cols : List ℕ) (i : ℕ)
    → ((k : ℕ) → k ≤ i → get_or xs k 0 ≡ hits k cols)
    → upto xs i ≡ count_below i cols
upto-count_below xs cols zero h =
    omega (arith, count_below-zero cols, upto-zero xs, h 0 (omega arith))
upto-count_below xs cols (suc i) h = omega (
  arith,
  upto-suc xs i,
  count_below-suc i cols,
  h (suc i) (omega arith),
  upto-count_below xs cols i (λ k le. h k (omega arith)),
)

-- Counting into zeros and summing up gives, at each place up to the number of columns, the number of
-- the entries before it.
pub accumulate-count_rows :
    (n : ℕ) (cols : List ℕ) (col : ℕ)
    → col ≤ n
    → get_or (accumulate 0 (count_rows (replicate (suc n) 0) cols)) col 0 ≡ count_below col cols
accumulate-count_rows n cols col h =
    let zeros = replicate (suc n) 0 in
    let counts = count_rows zeros cols in
    let sized = length-count_rows zeros cols ∙ length-replicate (suc n) 0 in
    accumulate-upto 0 counts col (omega (arith, sized))
    ∙ omega (
      arith,
      upto-count_below counts cols col (λ k le. omega (
        arith,
        count_rows-hits zeros cols k (omega (arith, length-replicate (suc n) (zero))),
        get_or-replicate (suc n) k (zero),
      )),
    )
