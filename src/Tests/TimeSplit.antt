-- ===== src/Tests/TimeSplit.antt =====
-- split/time_split.cpp on a few edges, with whole numbers for `double`.
use starrygl_tmp.Prelude.{
  ℤ, pos, negsuc, ℤ-discrete, ◌+ℤ◌, ◌-ℤ◌, ◌*ℤ◌, true, List, [], ◌∷◌, length, ok, err, fault,
  out_of_fuel, ok_inj, ltb_ℤ, ◌∙◌, Returns, ◌≡◌, refl, sym, ap, arith,
}
use mathlib.Core.Path.{subst}
use starrygl_tmp.Tests.Speed.{whole}
use starrygl_tmp.TimeSplit.Window.{TimedEdge}
use starrygl_tmp.TimeSplit.Segments.{get_staleness_constraint}
use starrygl_tmp.TimeSplit.Adaptive.{adaptive_split_impl}
use starrygl_tmp.TimeSplit.Adaptive.Laws.{IsGrouping, adaptive_split_impl-IsGrouping}
use starrygl_tmp.TimeSplit.Dropping.{
  Kept, timed_edges, keep_edges, preprocess_edge_dropping, adaptive_split_tensor,
}
use starrygl_tmp.TimeSplit.Dropping.Laws.{IsRising, IsKept, preprocess_edge_dropping-IsKept}
use starrygl_tmp.TimeSplit.Dropping.Split.{IsPatient, adaptive_split_tensor-IsGrouping}

abbrev src : List ℤ
src = pos 0 ∷ pos 0 ∷ pos 1 ∷ pos 0 ∷ pos 2 ∷ []

abbrev dst : List ℤ
dst = pos 1 ∷ pos 1 ∷ pos 2 ∷ pos 1 ∷ pos 0 ∷ []

abbrev times : List ℤ
times = pos 1 ∷ pos 2 ∷ pos 3 ∷ pos 4 ∷ pos 5 ∷ []

abbrev edges : List (TimedEdge ℤ)
edges =
    (record { src = pos 0; dst = pos 1; time = pos 1 })
    ∷ (record { src = pos 0; dst = pos 1; time = pos 2 })
    ∷ (record { src = pos 1; dst = pos 2; time = pos 3 })
    ∷ (record { src = pos 0; dst = pos 1; time = pos 4 })
    ∷ (record { src = pos 2; dst = pos 0; time = pos 5 })
    ∷ []

-- The second edge repeats both nodes at another time, which adds 4; the third adds 2 more, and starts the
-- second group.
adaptive_split_impl_run :
    adaptive_split_impl whole edges (pos 5) (pos 1) (pos 0) (pos 0) ≡ ok (0 ∷ 0 ∷ 1 ∷ 1 ∷ 1 ∷ [])
unfolding adaptive_split_impl ◌+ℤ◌ ◌-ℤ◌ ◌*ℤ◌ ℤ-discrete
adaptive_split_impl_run = refl

-- The edge that is kept is the one with the greatest staleness.
preprocess_edge_dropping_run :
    preprocess_edge_dropping whole (pos 1) (pos 0) edges 3 (pos 1) ≡ ok (1 ∷ [])
unfolding preprocess_edge_dropping ◌+ℤ◌ ◌-ℤ◌ ◌*ℤ◌ ℤ-discrete
preprocess_edge_dropping_run = refl

get_staleness_constraint_run :
    get_staleness_constraint whole edges (pos 1) (pos 0) (pos 0) 2 (pos 0) ≡ ok (pos 6)
unfolding get_staleness_constraint ◌+ℤ◌ ◌-ℤ◌ ◌*ℤ◌ ℤ-discrete
get_staleness_constraint_run = refl

-- Without edges, the end of an empty vector is read.
get_staleness_constraint_empty :
    get_staleness_constraint whole [] (pos 1) (pos 0) (pos 0) 2 (pos 0) ≡ err fault
unfolding get_staleness_constraint
get_staleness_constraint_empty = refl

adaptive_split_impl-IsGrouping_example :
    Returns (adaptive_split_impl whole edges (pos 5) (pos 1) (pos 0) (pos 0)) (IsGrouping 5)
unfolding ◌+ℤ◌
adaptive_split_impl-IsGrouping_example =
    adaptive_split_impl-IsGrouping whole edges (pos 5) (pos 1) (pos 0) (pos 0) refl

preprocess_edge_dropping-IsKept_example :
    Returns
      (preprocess_edge_dropping whole (pos 1) (pos 0) edges 3 (pos 1))
      (IsKept whole (pos 1) (pos 0) edges 3 (pos 1))
unfolding ◌-ℤ◌ ◌*ℤ◌
preprocess_edge_dropping-IsKept_example =
    preprocess_edge_dropping-IsKept whole (pos 1) (pos 0) edges 3 (pos 1) (omega arith)
      (omega arith) (omega arith)

abbrev all_kept : Kept ℤ
all_kept = record {
  keep_indices = 0 ∷ 1 ∷ 2 ∷ 3 ∷ 4 ∷ [];
  drop_proportion = pos 1 -ℤ pos 5;
  kept_edges = edges;
}

all_kept-IsPatient : IsPatient whole (pos 1) (pos 0) (pos 0) 2 (pos 0) all_kept
unfolding get_staleness_constraint ◌+ℤ◌ ◌-ℤ◌ ◌*ℤ◌ ℤ-discrete
all_kept-IsPatient = (omega arith, λ threshold e. ap (λ t. ltb_ℤ t (pos 0)) (sym (ok_inj e)))

timed_edges-kept :
    keep_edges whole (pos 1) (pos 0) (timed_edges src dst times) true 3 (pos 0) ≡ ok all_kept
unfolding keep_edges timed_edges ◌+ℤ◌ ◌-ℤ◌ ◌*ℤ◌ ℤ-discrete
timed_edges-kept = refl

adaptive_split_tensor-IsGrouping_example :
    Returns
      (adaptive_split_tensor whole (pos 1) (pos 0) src dst times 2 (pos 0) (pos 0) true (pos 0) 3)
      (λ r. IsRising 5 0 r.keep_indices × IsGrouping (length r.keep_indices) r.group_index)
unfolding ◌-ℤ◌ ◌*ℤ◌
adaptive_split_tensor-IsGrouping_example =
    adaptive_split_tensor-IsGrouping whole (pos 1) (pos 0) src dst times 2 (pos 0) (pos 0) true
      (pos 0) 3 refl refl (omega arith) (omega arith) (λ _. (omega arith, omega arith))
      (λ k e.
        subst (IsPatient whole (pos 1) (pos 0) (pos 0) 2 (pos 0))
          (ok_inj (sym timed_edges-kept ∙ e)) all_kept-IsPatient)

-- Below the threshold 0, the first edge of a group ends it, and the loop stands still.
adaptive_split_impl_endless :
    adaptive_split_impl whole edges (negsuc 0) (pos 1) (pos 0) (pos 0) ≡ err out_of_fuel
unfolding adaptive_split_impl ◌+ℤ◌ ◌-ℤ◌ ◌*ℤ◌ ℤ-discrete
adaptive_split_impl_endless = refl
