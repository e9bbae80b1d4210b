-- ===== src/Native/Dedup.antt =====
-- csrc/native_utils.cpp: `deduplicate_csc_edges`.
pub mod Laws
use starrygl_tmp.Prelude.{
  ℕ, suc, ◌-◌, ℤ, pos, negsuc, pos_part, ltb_ℤ, Bool, true, false, not, ◌||◌, List, [], ◌∷◌, ◌++◌,
  length, take, drop, if◌then◌else◌, Result, ok, err, runtime_error, throw_if, ◌>>=◌, ◌>>◌, ite,
  ℤ-discrete,
}
use starrygl_tmp.Phmap.{HashSet}
use starrygl_tmp.Native.Tensor.{Tensor, PairKey, contiguous_long_cpu}

-- The last element of a non-empty array, given its first one apart.
unfoldable pub last_of : ℤ → List ℤ → ℤ
last_of x [] = x
last_of x (y ∷ ys) = last_of y ys

-- The test of a column's range.
unfoldable pub is_invalid_range : ℤ → ℤ → ℕ → Bool
is_invalid_range begin end n = ltb_ℤ begin (pos 0) || ltb_ℤ end begin || ltb_ℤ (pos n) end

module _ (hs : HashSet PairKey) where
  -- The loop over the positions of a column, from `p` on: `edges` are the edges at these positions.
  unfoldable pub scan_column : hs.Elems → ℕ → ℕ → List ℤ → hs.Elems × List ℕ
  scan_column seen col p [] = (seen, [])
  scan_column seen col p (edge ∷ edges) =
      let key : PairKey = record { value = pos col; ts = edge } in
      let inserted = not (hs.has seen key) in
      let (seen', keep) = scan_column (hs.insert seen key) col (suc p) edges in
      (seen', if inserted then p ∷ keep else keep)

  -- The loop over the columns, from `col` on, whose range begins at `begin`: the positions kept so
  -- far, and the elements of `new_indptr` so far.
  unfoldable pub scan_columns :
      hs.Elems
      → List ℕ
      → List ℕ
      → (col : ℕ) (begin : ℤ) (ends edges : List ℤ) → Result (List ℕ × List ℕ)
  scan_columns seen keep new_ptr col begin [] edges = ok (keep, new_ptr)
  scan_columns seen keep new_ptr col begin (end ∷ ends) edges = do
    throw_if (is_invalid_range begin end (length edges)) runtime_error
    let found =
        scan_column seen col (pos_part begin)
          (take (pos_part end - pos_part begin) (drop (pos_part begin) edges))
    let keep' = keep ++ found.1
    scan_columns found.0 keep' (new_ptr ++ length keep' ∷ []) (suc col) end ends edges

  -- The checks of the two arrays, and the loop.
  unfoldable pub deduplicate_checked : List ℤ → List ℤ → Result (List ℕ × List ℕ)
  unfolding last_of is_invalid_range scan_column scan_columns
  deduplicate_checked [] edges = err runtime_error
  deduplicate_checked (begin ∷ ends) edges = do
    throw_if (ite (ℤ-discrete (last_of begin ends) (pos (length edges))) false true) runtime_error
    scan_columns hs.none_in [] (0 ∷ []) 0 begin ends edges

  -- The tensors `{keep_index, new_indptr}`.
  unfoldable pub deduplicate_csc_edges : Tensor → Tensor → Result (List ℕ × List ℕ)
  unfolding contiguous_long_cpu deduplicate_checked
  deduplicate_csc_edges csc_indptr edge_lids = do
    indptr ← contiguous_long_cpu csc_indptr
    edges ← contiguous_long_cpu edge_lids
    deduplicate_checked indptr edges
