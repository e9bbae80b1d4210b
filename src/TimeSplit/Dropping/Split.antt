-- ===== src/TimeSplit/Dropping/Split.antt =====
-- `adaptive_split_tensor` as a whole.
use starrygl_tmp.Prelude.{
  ℕ, zero, suc, ◌+◌, ◌<◌, ◌≤◌, ==_iff, ℤ, Bool, true, false, List, [], ◌∷◌, length, ok, fetch,
  fetch-Returns, traverse, Returns, >>=-Returns, ok-Returns, Bool-cases, ◌≡◌, inl, inr, refl, sym,
  ap, arith,
}
use mathlib.Core.Path.{subst}
use starrygl_tmp.Speed.Doubles.{Doubles}
use starrygl_tmp.Speed.State.{nought}
use starrygl_tmp.Speed.Partition.{range}
use starrygl_tmp.Speed.Exchange.Groups.{length-range}
use starrygl_tmp.TimeSplit.Window.{TimedEdge}
use starrygl_tmp.TimeSplit.Segments.{get_staleness_constraint}
use starrygl_tmp.TimeSplit.Segments.Laws.{get_staleness_constraint-Ends}
use starrygl_tmp.TimeSplit.Adaptive.Laws.{IsGrouping, adaptive_split_impl-IsGrouping}
use starrygl_tmp.TimeSplit.Dropping.{
  Kept, timed_edges, last_kept, preprocess_edge_dropping, keep_edges, adaptive_split_tensor,
}
use starrygl_tmp.TimeSplit.Dropping.Laws.{IsRising, preprocess_edge_dropping-IsKept}

length-timed_edges :
    {D : Type 0} (src dst : List ℤ) (ts : List D)
    → length dst ≡ length src
    → length ts ≡ length src
    → length (timed_edges src dst ts) ≡ length src
unfolding timed_edges
length-timed_edges [] dst ts e e' = refl
length-timed_edges (s ∷ src) [] ts e e' = absurd (omega (arith, e))
length-timed_edges (s ∷ src) (r ∷ dst) [] e e' = absurd (omega (arith, e'))
length-timed_edges (s ∷ src) (r ∷ dst) (t ∷ ts) e e' =
    ap suc (length-timed_edges src dst ts (omega (arith, e)) (omega (arith, e')))

traverse-length :
    {D : Type 0} (edges : List (TimedEdge D)) (i : ℕ) (keep : List ℕ)
    → IsRising (length edges) i keep
    → Returns (traverse (fetch edges) keep) (λ kept. length kept ≡ length keep)
unfolding traverse
traverse-length edges i [] is = ([], refl, refl)
traverse-length edges i (x ∷ keep) is =
    >>=-Returns (fetch edges x) _ (fetch-Returns edges x (length edges) refl is.1) (λ e _.
      >>=-Returns (traverse (fetch edges) keep) _ (traverse-length edges (suc x) keep is.2)
        (λ kept len. (e ∷ kept, refl, ap suc len)))

range-IsRising : (n i k : ℕ) → i + k ≤ n → IsRising n i (range i k)
range-IsRising n i zero le = tt
range-IsRising n i (suc k) le =
    (omega arith, omega (arith, le), range-IsRising n (suc i) k (omega (arith, le)))

module _ {D : Type 0} (d : Doubles D) (alpha beta : D) (edges : List (TimedEdge D))
    (enable_drop : Bool) (window_size : ℕ) (drop_rate : D) where
  -- The numbers of the edges that are left, and those edges.
  abbrev AreKept : Kept D → Type 0
  AreKept k =
      IsRising (length edges) 0 k.keep_indices × (length k.kept_edges ≡ length k.keep_indices)

  keep_edges-AreKept :
      0 < length edges
      → (enable_drop ≡ true
          → (0 < window_size) × (last_kept d drop_rate (length edges) < length edges))
      → Returns (keep_edges d alpha beta edges enable_drop window_size drop_rate) AreKept
  unfolding keep_edges
  keep_edges-AreKept any can_drop = elim (Bool-cases enable_drop) [
    | inl e ↦
        let (some_size, keeps) = can_drop e in
        rw (keep_edges, e)
          (>>=-Returns (preprocess_edge_dropping d alpha beta edges window_size drop_rate) _
            (preprocess_edge_dropping-IsKept d alpha beta edges window_size drop_rate any some_size
              keeps)
            (λ keep is.
              >>=-Returns (traverse (fetch edges) keep) _ (traverse-length edges 0 keep is.rising)
                (λ kept len. (_, refl, (is.rising, len)))))
    | inr e ↦
        rw (keep_edges, e)
          (
            _,
            refl,
            (
              range-IsRising (length edges) 0 (length edges) (omega arith),
              sym (length-range 0 (length edges)),
            ),
          )
  ]

-- The edges that are kept are not none, and their staleness constraint is not below 0.
abbrev pub IsPatient : {D : Type 0} → Doubles D → D → D → D → ℕ → D → Kept D → Type 0
IsPatient {D} d alpha beta aggl base_batch_size graph_feature k =
    (0 < length k.kept_edges)
    × ((threshold : D)
        → get_staleness_constraint d k.kept_edges alpha beta aggl base_batch_size graph_feature
          ≡ ok threshold
        → d.lt threshold (d.add (nought d) (nought d)) ≡ false)

-- The split of the edges returns, and reads and writes only within its arrays: the numbers of the
-- edges that are kept rise, and each of these edges has a group, numbered from 0 on in the order of
-- the edges without a gap. This asks for arrays of one length that have an edge, for batches that are
-- not empty, and, where edges are dropped, for windows that are not empty and a drop rate that keeps
-- no more edges than there are; that an edge is kept; and that the staleness constraint of the kept
-- edges is not below 0.
pub adaptive_split_tensor-IsGrouping :
    {D : Type 0} (d : Doubles D) (alpha beta : D) (src dst : List ℤ) (ts : List D)
    (base_batch_size : ℕ) (graph_feature aggl : D) (enable_drop : Bool) (drop_rate : D)
    (window_size : ℕ)
    → length src ≡ length dst
    → length src ≡ length ts
    → 0 < length src
    → 0 < base_batch_size
    → (enable_drop ≡ true → (0 < window_size) × (last_kept d drop_rate (length src) < length src))
    → ((k : Kept D)
        → keep_edges d alpha beta (timed_edges src dst ts) enable_drop window_size drop_rate ≡ ok k
        → IsPatient d alpha beta aggl base_batch_size graph_feature k)
    → Returns
        (adaptive_split_tensor d alpha beta src dst ts base_batch_size graph_feature aggl
          enable_drop drop_rate window_size)
        (λ r.
          IsRising (length src) 0 r.keep_indices × IsGrouping (length r.keep_indices) r.group_index)
unfolding adaptive_split_tensor
adaptive_split_tensor-IsGrouping d alpha beta src dst ts base_batch_size graph_feature aggl
      enable_drop drop_rate window_size src_dst src_ts any some_batch can_drop patient =
    let edges = timed_edges src dst ts in
    let len : length edges ≡ length src =
      length-timed_edges src dst ts (sym src_dst) (sym src_ts) in
    let (k, kept, are) =
      keep_edges-AreKept d alpha beta edges enable_drop window_size drop_rate (rw len any) (λ e.
        subst (λ n. (0 < window_size) × (last_kept d drop_rate n < n)) (sym len) (can_drop e)) in
    let (not_none, not_below) = patient k kept in
    let (threshold, e, _) =
      get_staleness_constraint-Ends d k.kept_edges alpha beta aggl base_batch_size graph_feature
        some_batch not_none in
    let (group_index, e', grouping) =
      adaptive_split_impl-IsGrouping d k.kept_edges threshold alpha beta aggl
        (not_below threshold e) in
    rw ((==_iff (length src) (length dst)).1 src_dst, (==_iff (length src) (length ts)).1 src_ts)
      (ok-Returns _ kept (
        ok-Returns _ e (
          ok-Returns _ e' (
            _,
            refl,
            (
              subst (λ n. IsRising n 0 k.keep_indices) len are.0,
              subst (λ n. IsGrouping n group_index) are.1 grouping,
            ),
          ))))
