-- ===== src/TimeSplit/Segments.antt =====
-- split/time_split.cpp: `get_staleness_constraint`, and the windows of a fixed number of edges that it and
-- `preprocess_edge_dropping` go through.
pub mod Laws
use starrygl_tmp.Prelude.{
  ℕ, zero, suc, ◌+◌, ◌-◌, ltb, ◌==◌, pos, Bool, true, false, List, [], ◌∷◌, ◌++◌, length, Result,
  ok, err, out_of_fuel, ◌>>=◌, fetch, for_range, if◌then◌else◌,
}
use starrygl_tmp.Speed.Doubles.{Doubles, max_from}
use starrygl_tmp.Speed.State.{nought}
use starrygl_tmp.TimeSplit.Window.{
  Table, back, assign_all, TimedEdge, Window, start_times, no_edges, visit_edge,
}

-- `for (i = 0; i < N; i += size)`, for at most so many turns. The loop does not end where the size is not
-- positive.
unfoldable pub segment_starts : ℕ → ℕ → ℕ → ℕ → Result (List ℕ)
segment_starts n size zero i = if ltb i n then err out_of_fuel else ok []
segment_starts n size (suc fuel) i =
    if ltb i n then (do rest ← segment_starts n size fuel (i + size); ok (i ∷ rest)) else ok []

-- `range_`
unfoldable pub segment_bounds : ℕ → ℕ → Result (List ℕ)
unfolding segment_starts back
segment_bounds n size = do
  starts ← segment_starts n size n 0
  last ← back starts
  ok (if last == n then starts else starts ++ n ∷ [])

module _ {D : Type 0} (d : Doubles D) where
  -- `std::accumulate`
  unfoldable pub sum_doubles : D → List D → D
  sum_doubles total [] = total
  sum_doubles total (x ∷ xs) = sum_doubles (d.add total x) xs

  -- The mean, moved towards the greatest by `graph_feature`.
  unfoldable pub blend : D → List D → D
  unfolding sum_doubles max_from
  blend graph_feature [] = nought d
  blend graph_feature (x ∷ xs) =
      let mean = d.div (sum_doubles (nought d) (x ∷ xs)) (d.of_int (pos (length (x ∷ xs)))) in
      d.add mean (d.mul graph_feature (d.sub (max_from d x xs) mean))

  module _ (edges : List (TimedEdge D)) (alpha beta aggl : D) where
    unfoldable pub window_staleness : ℕ → ℕ → Table D → Result (Window D)
    unfolding for_range visit_edge
    window_staleness seg_start seg_end time_dic =
        for_range (λ x w. visit_edge d edges seg_start alpha beta time_dic aggl x w) 0
          (seg_end - seg_start) (no_edges d)

    unfoldable pub staleness_of : List ℕ → Table D → Result (List D)
    unfolding window_staleness assign_all
    staleness_of [] time_dic = ok []
    staleness_of (a ∷ []) time_dic = ok []
    staleness_of (a ∷ b ∷ bounds) time_dic = do
      w ← window_staleness a b time_dic
      rest ← staleness_of (b ∷ bounds) (assign_all w.cache time_dic)
      ok (w.stale ∷ rest)

    unfoldable pub get_staleness_constraint : ℕ → D → Result D
    unfolding segment_bounds staleness_of start_times blend
    get_staleness_constraint batch_size graph_feature = do
      bounds ← segment_bounds (length edges) batch_size
      staleness ← staleness_of bounds (start_times edges)
      ok (blend graph_feature staleness)
