-- ===== src/Csc.antt =====
-- Column pointers of a CSC matrix: the entries of each column are counted one place further on, and
-- the counts are summed up. native_utils.cpp and sampler.h write this out at each use.
pub mod Laws
use starrygl_tmp.Prelude.{ℕ, suc, ◌+◌, List, [], ◌∷◌, get_or, set}

-- `ptr[col + 1] += 1` for each column of an entry.
unfoldable pub count_rows : List ℕ → List ℕ → List ℕ
count_rows ptr [] = ptr
count_rows ptr (col ∷ cols) = count_rows (set ptr (suc col) (get_or ptr (suc col) 0 + 1)) cols

-- `ptr[i] += ptr[i - 1]`; before the first element stands 0.
unfoldable pub accumulate : ℕ → List ℕ → List ℕ
accumulate before [] = []
accumulate before (x ∷ xs) = (before + x) ∷ accumulate (before + x) xs
