-- ===== src/Prelude/Count.antt =====
-- How often a number stands in lists, and bounds on the numbers of a list.
use starrygl_tmp.Prelude.Core.{ℕ, zero, suc, ◌+◌, ◌<◌, ◌≡◌, List, [], ◌∷◌, ◌++◌, arith}
use starrygl_tmp.Prelude.Tests.{◌==◌, if◌then◌else◌}
use starrygl_tmp.Prelude.Lists.{length, set, get_or}
use starrygl_tmp.Prelude.Vector.{row_of}

-- How often a number stands in a list.
unfoldable pub count : ℕ → List ℕ → ℕ
count a [] = 0
count a (x ∷ xs) = (if x == a then 1 else 0) + count a xs

-- How often it stands in all the rows.
unfoldable pub count_all : ℕ → List (List ℕ) → ℕ
unfolding count
count_all a [] = 0
count_all a (row ∷ rows) = count a row + count_all a rows

pub count-append : (a : ℕ) (xs ys : List ℕ) → count a (xs ++ ys) ≡ count a xs + count a ys
unfolding count
count-append a [] ys = omega arith
count-append a (x ∷ xs) ys = omega (arith, count-append a xs ys)

pub count-snoc :
    (a : ℕ) (xs : List ℕ) (y : ℕ) → count a (xs ++ y ∷ []) ≡ count a xs + (if y == a then 1 else 0)
unfolding count
count-snoc a xs y = omega (arith, count-append a xs (y ∷ []))

-- A row that is changed changes the count by the row's.
pub count_all-set :
    (a : ℕ) (rows : List (List ℕ)) (i : ℕ) (row : List ℕ)
    → i < length rows
    → count_all a (set rows i row) + count a (row_of rows i) ≡ count_all a rows + count a row
unfolding count_all
count_all-set a [] i row lt = elim lt [ ]
count_all-set a (r ∷ rows) zero row lt = omega arith
count_all-set a (r ∷ rows) (suc i) row lt = omega (arith, count_all-set a rows i row (omega arith))

-- `rows[i].push_back(x)`
pub count_all-push :
    (a : ℕ) (rows : List (List ℕ)) (i x : ℕ)
    → i < length rows
    → count_all a (set rows i (row_of rows i ++ x ∷ []))
      ≡ count_all a rows + (if x == a then 1 else 0)
count_all-push a rows i x lt =
    omega
      (arith, count_all-set a rows i (row_of rows i ++ x ∷ []) lt, count-snoc a (row_of rows i) x)

-- Every number is below a bound.
abbrev pub AllBelow : ℕ → List ℕ → Type 0
AllBelow n [] = Unit {0}
AllBelow n (x ∷ xs) = (x < n) × AllBelow n xs

pub AllBelow-append :
    (n : ℕ) (xs ys : List ℕ) → AllBelow n xs → AllBelow n ys → AllBelow n (xs ++ ys)
AllBelow-append n [] ys h k = k
AllBelow-append n (x ∷ xs) ys h k = (h.0, AllBelow-append n xs ys h.1 k)

pub AllBelow-get_or :
    (n : ℕ) (xs : List ℕ) (i d : ℕ) → AllBelow n xs → i < length xs → get_or xs i d < n
AllBelow-get_or n [] i d h lt = elim lt [ ]
AllBelow-get_or n (x ∷ xs) zero d h lt = h.0
AllBelow-get_or n (x ∷ xs) (suc i) d h lt = AllBelow-get_or n xs i d h.1 (omega arith)
