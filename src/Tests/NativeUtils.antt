-- ===== src/Tests/NativeUtils.antt =====
-- csrc/native_utils.cpp on small inputs.
use mathlib.Core.Option
use starrygl_tmp.Prelude.{
  ℕ, ◌<◌, ℤ, pos, negsuc, ℤ-discrete, false, List, [], ◌∷◌, ◌≡◌, refl, ok, err, runtime_error,
  arith, length, get_or, ℕ_discrete, inr,
}
use starrygl_tmp.Phmap.Assoc.{assoc_map, list_set}
use starrygl_tmp.Native.Tensor.{Tensor, PairKey-discrete}
use starrygl_tmp.Native.Unique.{stable_unique, stable_unique_with_ts}
use starrygl_tmp.Native.Unique.Laws.{
  IsStableUnique, stable_unique-IsStableUnique, IsPairUnique, stable_unique_with_ts-IsPairUnique,
}
use starrygl_tmp.Native.Dedup.{deduplicate_csc_edges}
use starrygl_tmp.Native.Dedup.Laws.{
  concat, kept, running, deduplicate_csc_edges-kept, deduplicate_csc_edges-err,
}
use starrygl_tmp.Native.FirstTs.{first_ts_for_lids}
use starrygl_tmp.Native.FirstTs.Laws.{first_at, first_ts_for_lids-first_at, first_ts_for_lids-err}

abbrev nodes : Tensor
nodes = record { is_cuda = false; elems = pos 7 ∷ negsuc 2 ∷ pos 7 ∷ pos 4 ∷ negsuc 2 ∷ [] }

abbrev stamps : Tensor
stamps = record { is_cuda = false; elems = pos 1 ∷ pos 2 ∷ pos 1 ∷ pos 3 ∷ pos 5 ∷ [] }

abbrev rows : Tensor
rows = record { is_cuda = false; elems = pos 2 ∷ pos 0 ∷ pos 2 ∷ pos 3 ∷ pos 0 ∷ [] }

abbrev indptr : Tensor
indptr = record { is_cuda = false; elems = pos 0 ∷ pos 3 ∷ pos 5 ∷ [] }

-- The number of the last column's end is wrong.
abbrev indptr_long : Tensor
indptr_long = record { is_cuda = false; elems = pos 0 ∷ pos 3 ∷ pos 6 ∷ [] }

stable_unique_run :
    stable_unique (assoc_map ℤ-discrete) nodes
    ≡ ok (pos 7 ∷ negsuc 2 ∷ pos 4 ∷ [], 0 ∷ 1 ∷ 0 ∷ 2 ∷ 1 ∷ [])
unfolding stable_unique ℤ-discrete ℕ_discrete
stable_unique_run = refl

stable_unique_with_ts_run :
    stable_unique_with_ts (assoc_map PairKey-discrete) nodes stamps
    ≡ ok (
      pos 7 ∷ negsuc 2 ∷ pos 4 ∷ negsuc 2 ∷ [],
      0 ∷ 1 ∷ 0 ∷ 2 ∷ 3 ∷ [],
      pos 1 ∷ pos 2 ∷ pos 3 ∷ pos 5 ∷ [],
    )
unfolding stable_unique_with_ts PairKey-discrete ℕ_discrete
stable_unique_with_ts_run = refl

deduplicate_csc_edges_run :
    deduplicate_csc_edges (list_set PairKey-discrete) indptr nodes
    ≡ ok (0 ∷ 1 ∷ 3 ∷ 4 ∷ [], 0 ∷ 2 ∷ 4 ∷ [])
unfolding deduplicate_csc_edges PairKey-discrete ℤ-discrete ℕ_discrete
deduplicate_csc_edges_run = refl

first_ts_for_lids_run :
    first_ts_for_lids stamps rows (pos 4) ≡ ok (pos 2 ∷ pos 0 ∷ pos 1 ∷ pos 3 ∷ [])
unfolding first_ts_for_lids
first_ts_for_lids_run = refl

stable_unique-IsStableUnique_example :
    (unique : List ℤ) × (inverse : List ℕ) × (stable_unique (assoc_map ℤ-discrete) nodes
      ≡ ok (unique, inverse))
    × IsStableUnique ℤ-discrete nodes.elems unique inverse
stable_unique-IsStableUnique_example =
    stable_unique-IsStableUnique (assoc_map ℤ-discrete) nodes refl

stable_unique_with_ts-IsPairUnique_example :
    (unique : List ℤ) × (inverse : List ℕ) × (first : List ℤ) × (stable_unique_with_ts
        (assoc_map PairKey-discrete)
        nodes
        stamps
      ≡ ok (unique, inverse, first))
    × IsPairUnique (assoc_map PairKey-discrete) nodes.elems stamps.elems unique inverse first
stable_unique_with_ts-IsPairUnique_example =
    stable_unique_with_ts-IsPairUnique (assoc_map PairKey-discrete) nodes stamps refl refl refl

deduplicate_csc_edges-kept_example :
    deduplicate_csc_edges (list_set PairKey-discrete) indptr nodes
    ≡ ok (
      concat (kept (pos 0) (pos 3 ∷ pos 5 ∷ []) nodes.elems),
      0 ∷ running 0 (kept (pos 0) (pos 3 ∷ pos 5 ∷ []) nodes.elems),
    )
unfolding deduplicate_csc_edges
deduplicate_csc_edges-kept_example =
    deduplicate_csc_edges-kept (list_set PairKey-discrete) indptr nodes (pos 0) (pos 3 ∷ pos 5 ∷ [])
      refl refl refl refl (omega arith)

deduplicate_csc_edges-err_example :
    deduplicate_csc_edges (list_set PairKey-discrete) indptr_long nodes ≡ err runtime_error
unfolding deduplicate_csc_edges
deduplicate_csc_edges-err_example =
    deduplicate_csc_edges-err (list_set PairKey-discrete) indptr_long nodes (λ c. cc (c.0))

first_ts_for_lids-first_at_example :
    (out : List ℤ) × (first_ts_for_lids stamps rows (pos 4) ≡ ok out)
    × (length out ≡ 4)
    × ((row : ℕ)
        → row < 4
        → get_or out row (pos 0) ≡ Option.get_or (first_at row rows.elems stamps.elems) (pos 0))
first_ts_for_lids-first_at_example =
    first_ts_for_lids-first_at stamps rows 4 refl refl refl (omega arith)

first_ts_for_lids-err_example : first_ts_for_lids stamps rows (pos 3) ≡ err runtime_error
first_ts_for_lids-err_example = first_ts_for_lids-err stamps rows 3 (inr (λ r. omega arith))
