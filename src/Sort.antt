-- ===== src/Sort.antt =====
-- `std::stable_sort` and `std::sort` with a comparison, and `std::unique`. Where elements that
-- neither precedes are the same element, the two sorts return one list.
pub mod Laws
pub mod Lex
pub mod Counts
use starrygl_tmp.Prelude.{Bool, List, [], ◌∷◌, if◌then◌else◌, ite}

module _ {A : Type 0} (less : A → A → Bool) where
  -- Before the first element that does not precede it.
  pub insert_sorted : A → List A → List A
  insert_sorted x [] = x ∷ []
  insert_sorted x (y ∷ ys) = if less y x then y ∷ insert_sorted x ys else x ∷ y ∷ ys

  unfoldable pub stable_sort : List A → List A
  unfolding insert_sorted
  stable_sort [] = []
  stable_sort (x ∷ xs) = insert_sorted x (stable_sort xs)

module _ {A : Type 0} (dec : Discrete A) where
  unfoldable pub unique_from : A → List A → List A
  unique_from last [] = []
  unique_from last (x ∷ xs) = let rest = unique_from x xs in ite (dec x last) rest (x ∷ rest)

  -- `std::unique` and `erase`: the first of each run of equal elements.
  unfoldable pub unique_runs : List A → List A
  unfolding unique_from
  unique_runs [] = []
  unique_runs (x ∷ xs) = x ∷ unique_from x xs
