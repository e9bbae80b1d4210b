-- ===== src/TimeSplit/Dropping.antt =====
-- split/time_split.cpp: `preprocess_edge_dropping`, and `adaptive_split_tensor` as a whole.
pub mod Laws
pub mod Split
use starrygl_tmp.Prelude.{
  ℕ, zero, suc, ◌+◌, ◌-◌, max, ◌==◌, ℤ, pos, pos_part, Bool, true, false, not, ◌&&◌, List, [], ◌∷◌,
  ◌++◌, length, Result, ok, err, torch_check, throw_if, ◌>>=◌, ◌>>◌, fetch, for_range, traverse,
  if◌then◌else◌,
}
use starrygl_tmp.Sort.{stable_sort}
use starrygl_tmp.Speed.Doubles.{Doubles}
use starrygl_tmp.Speed.State.{nought}
use starrygl_tmp.Speed.Partition.{range}
use starrygl_tmp.TimeSplit.Window.{
  Table, assign, assign_all, TimedEdge, Window, start_times, no_edges, visit_nodes,
}
use starrygl_tmp.TimeSplit.Segments.{segment_bounds, get_staleness_constraint}
use starrygl_tmp.TimeSplit.Adaptive.{adaptive_split_impl}

-- A window, and the numbers of the edges so far.
pub record Abundance (D : Type 0) : Type 0 where
  pub window : Window D
  pub abundant : List D

pub record Kept (D : Type 0) : Type 0 where
  pub keep_indices : List ℕ
  pub drop_proportion : D
  pub kept_edges : List (TimedEdge D)

pub record SplitResult (D : Type 0) : Type 0 where
  pub group_index : List ℕ
  pub keep_indices : List ℕ
  pub drop_proportion : D

unfoldable pub timed_edges : {D : Type 0} → List ℤ → List ℤ → List D → List (TimedEdge D)
timed_edges (s ∷ src) (r ∷ dst) (t ∷ ts) =
    record { src = s; dst = r; time = t } ∷ timed_edges src dst ts
timed_edges _ _ _ = []

module _ {D : Type 0} (d : Doubles D) where
  -- The numbers of the edges, from `i` on, that are not above the threshold.
  unfoldable pub keep_from : D → ℕ → List D → List ℕ
  keep_from threshold i [] = []
  keep_from threshold i (a ∷ abundant) =
      let rest = keep_from threshold (suc i) abundant in if d.le a threshold then i ∷ rest else rest

  -- `std::max(1, (int64_t)((1.0 - drop_rate) * N)) - 1`
  abbrev pub last_kept : D → ℕ → ℕ
  last_kept drop_rate n =
      max 1 (pos_part (d.to_int (d.mul (d.sub (d.of_int (pos 1)) drop_rate) (d.of_int (pos n)))))
      - 1

module _ {D : Type 0} (d : Doubles D) (alpha beta : D) where
  module _ (edges : List (TimedEdge D)) where
    unfoldable pub weigh_edge : ℕ → Table D → ℕ → Abundance D → Result (Abundance D)
    unfolding fetch visit_nodes
    weigh_edge seg_start time_dic x a = do
      e ← fetch edges (seg_start + x)
      let seen = assign (assign a.window.cache e.src e.time) e.dst e.time
      w ←
          visit_nodes d edges seg_start alpha beta time_dic e.src e.dst e.time x
            (record { dic = a.window.dic; cache = seen; stale = nought d })
      ok (record { window = w; abundant = a.abundant ++ d.neg w.stale ∷ [] })

    unfoldable pub weigh_edges : List ℕ → Table D → List D → Result (List D)
    unfolding for_range weigh_edge assign_all
    weigh_edges [] time_dic abundant = ok abundant
    weigh_edges (a ∷ []) time_dic abundant = ok abundant
    weigh_edges (a ∷ b ∷ bounds) time_dic abundant = do
      x ←
          for_range (weigh_edge a time_dic) 0 (b - a)
            (record { window = no_edges d; abundant = abundant })
      weigh_edges (b ∷ bounds) (assign_all x.window.cache time_dic) x.abundant

  unfoldable pub preprocess_edge_dropping : List (TimedEdge D) → ℕ → D → Result (List ℕ)
  unfolding segment_bounds weigh_edges start_times stable_sort fetch keep_from
  preprocess_edge_dropping edges window_size drop_rate = do
    bounds ← segment_bounds (length edges) window_size
    abundant ← weigh_edges edges bounds (start_times edges) []
    threshold ← fetch (stable_sort d.lt abundant) (last_kept d drop_rate (length edges))
    ok (keep_from d threshold 0 abundant)

  -- The edges that are kept.
  unfoldable pub keep_edges : List (TimedEdge D) → Bool → ℕ → D → Result (Kept D)
  unfolding preprocess_edge_dropping fetch traverse
  keep_edges edges enable_drop window_size drop_rate =
      if enable_drop
      then (do
        keep ← preprocess_edge_dropping edges window_size drop_rate
        kept ← traverse (fetch edges) keep
        ok (record {
          keep_indices = keep;
          drop_proportion =
              d.sub (d.of_int (pos 1))
                (d.div (d.of_int (pos (length keep))) (d.of_int (pos (length edges))));
          kept_edges = kept;
        }))
      else ok (record {
        keep_indices = range 0 (length edges);
        drop_proportion = nought d;
        kept_edges = edges;
      })

  unfoldable pub adaptive_split_tensor :
      List ℤ → List ℤ → List D → ℕ → D → D → Bool → D → ℕ → Result (SplitResult D)
  unfolding timed_edges keep_edges get_staleness_constraint adaptive_split_impl
  adaptive_split_tensor src dst ts base_batch_size graph_feature aggl enable_drop drop_rate
        window_size =
      do
        throw_if (not (length src == length dst && length src == length ts)) torch_check
        k ← keep_edges (timed_edges src dst ts) enable_drop window_size drop_rate
        threshold ←
            get_staleness_constraint d k.kept_edges alpha beta aggl base_batch_size graph_feature
        group_index ← adaptive_split_impl d k.kept_edges threshold alpha beta aggl
        ok (record {
          group_index = group_index;
          keep_indices = k.keep_indices;
          drop_proportion = k.drop_proportion;
        })
