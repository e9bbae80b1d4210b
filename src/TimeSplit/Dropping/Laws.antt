-- ===== src/TimeSplit/Dropping/Laws.antt =====
-- What `preprocess_edge_dropping` keeps, and what `adaptive_split_tensor` returns.
use starrygl_tmp.Prelude.{
  ℕ, zero, suc, ◌+◌, ◌-◌, ◌<◌, ◌≤◌, List, [], ◌∷◌, length, get_or, get_elem?, some, ok, fetch,
  for_range, for_range-Returns, Returns, >>=-Returns, ok-Returns, fetch-Returns, Bool-cases,
  if◌then◌else◌, length-append, count, ◌≡◌, inl, inr, refl, ap, ◌∙◌, arith,
}
use starrygl_tmp.Sort.{stable_sort}
use starrygl_tmp.Sort.Laws.{length-stable_sort}
use starrygl_tmp.Speed.Doubles.{Doubles}
use starrygl_tmp.Speed.State.{nought}
use starrygl_tmp.TimeSplit.Window.{Table, assign_all, TimedEdge, start_times, no_edges, visit_nodes}
use starrygl_tmp.TimeSplit.Window.Laws.{IsWindow, visit_nodes-IsWindow, no_edges-IsWindow}
use starrygl_tmp.TimeSplit.Segments.{segment_bounds}
use starrygl_tmp.TimeSplit.Segments.Laws.{IsBounds, segment_bounds-IsBounds}
use starrygl_tmp.TimeSplit.Dropping.{
  Abundance, weigh_edge, weigh_edges, keep_from, last_kept, preprocess_edge_dropping,
}

-- The numbers rise, from `i` on and below `n`.
abbrev pub IsRising : ℕ → ℕ → List ℕ → Type 0
IsRising n i [] = Unit {0}
IsRising n i (x ∷ xs) = (i ≤ x) × (x < n) × IsRising n (suc x) xs

IsRising-later : (n i : ℕ) (xs : List ℕ) → IsRising n (suc i) xs → IsRising n i xs
IsRising-later n i [] is = tt
IsRising-later n i (x ∷ xs) is = (omega (arith, is.0), is.1, is.2)

module _ {D : Type 0} (d : Doubles D) where
  keep_from-IsRising :
      (threshold : D) (i n : ℕ) (abundant : List D)
      → i + length abundant ≡ n
      → IsRising n i (keep_from d threshold i abundant)
  unfolding keep_from
  keep_from-IsRising threshold i n [] count_is = tt
  keep_from-IsRising threshold i n (a ∷ abundant) count_is =
      let later = keep_from-IsRising threshold (suc i) n abundant (omega (arith, count_is)) in
      elim (Bool-cases (d.le a threshold)) [
        | inl e ↦ rw (keep_from, e) (omega arith, omega (arith, count_is), later)
        | inr e ↦ rw (keep_from, e) (IsRising-later n i _ later)
      ]

  keep_from-before :
      (threshold : D) (i j : ℕ) (abundant : List D)
      → j < i
      → count j (keep_from d threshold i abundant) ≡ 0
  unfolding keep_from count
  keep_from-before threshold i j [] lt = refl
  keep_from-before threshold i j (a ∷ abundant) lt =
      let later = keep_from-before threshold (suc i) j abundant (omega (arith, lt)) in
      ground (arith, lt, later)

  -- Whether an edge is kept.
  count-keep_from :
      (threshold : D) (i k : ℕ) (abundant : List D)
      → k < length abundant
      → count (i + k) (keep_from d threshold i abundant)
        ≡ (if d.le (get_or abundant k (nought d)) threshold then 1 else 0)
  unfolding keep_from count
  count-keep_from threshold i k [] lt = elim lt [ ]
  count-keep_from threshold i zero (a ∷ abundant) lt =
      let later = keep_from-before threshold (suc i) i abundant (omega arith) in
      ground (arith, later)
  count-keep_from threshold i (suc k) (a ∷ abundant) lt =
      let later = count-keep_from threshold (suc i) k abundant (omega (arith, lt)) in
      ground (arith, later)

module _ {D : Type 0} (d : Doubles D) (alpha beta : D) where
  module _ (edges : List (TimedEdge D)) where
    -- The window is in order, and so many edges have been weighed.
    Weighed : ℕ → ℕ → Table D → Abundance D → Type 0
    Weighed a n time_dic x =
        IsWindow d edges a alpha beta time_dic x.window × (length x.abundant ≡ n)

    weigh_edge-Weighed :
        (a : ℕ) (time_dic : Table D) (i : ℕ) (x : Abundance D)
        → a + i < length edges
        → Weighed a (a + i) time_dic x
        → Returns (weigh_edge d alpha beta edges a time_dic i x) (Weighed a (a + suc i) time_dic)
    unfolding weigh_edge Weighed
    weigh_edge-Weighed a time_dic i x lt is =
        >>=-Returns (fetch edges (a + i)) _ (fetch-Returns edges _ (length edges) refl lt) (λ e _.
          >>=-Returns (visit_nodes d edges a alpha beta time_dic e.src e.dst e.time i _) _
            (visit_nodes-IsWindow d edges a alpha beta time_dic e.src e.dst e.time i
              (record { dic = x.window.dic; cache = _; stale = nought d }) lt is.0)
            (λ w is_window. (
              _,
              refl,
              (is_window, length-append x.abundant (d.neg w.stale ∷ []) ∙ omega (arith, is.1)),
            )))

    weigh_edges-length :
        (bounds : List ℕ) (a : ℕ) (time_dic : Table D) (abundant : List D)
        → IsBounds (length edges) a bounds
        → length abundant ≡ a
        → Returns
            (weigh_edges d alpha beta edges (a ∷ bounds) time_dic abundant)
            (λ abundant. length abundant ≡ length edges)
    unfolding weigh_edges Weighed
    weigh_edges-length [] a time_dic abundant is len = (abundant, refl, len ∙ is)
    weigh_edges-length (b ∷ bounds) a time_dic abundant is len =
        >>=-Returns (for_range (weigh_edge d alpha beta edges a time_dic) 0 (b - a) _) _
          (for_range-Returns (weigh_edge d alpha beta edges a time_dic)
            (λ i. Weighed a (a + i) time_dic) (b - a)
            (λ i x lt weighed. weigh_edge-Weighed a time_dic i x (omega (arith, lt, is.1)) weighed)
            0 (b - a) (record { window = no_edges d; abundant = abundant }) (omega arith)
            (no_edges-IsWindow d edges a alpha beta time_dic, len ∙ omega arith))
          (λ x weighed.
            weigh_edges-length bounds b (assign_all x.window.cache time_dic) x.abundant is.2
              (weighed.1 ∙ omega (arith, is.0)))

  -- The edges that are kept are those with an abundance not above the threshold, in their order. The
  -- threshold is the abundance that stands at the place `last_kept` of the sorted abundances.
  pub record IsKept (edges : List (TimedEdge D)) (window_size : ℕ) (drop_rate : D) (keep : List ℕ)
      : Type 0 where
    pub bounds : List ℕ
    pub abundant : List D
    pub threshold : D
    pub windows : segment_bounds (length edges) window_size ≡ ok bounds
    pub weighed : weigh_edges d alpha beta edges bounds (start_times edges) [] ≡ ok abundant
    pub abundant_len : length abundant ≡ length edges
    pub threshold_at :
        get_elem? (stable_sort d.lt abundant) (last_kept d drop_rate (length edges))
        ≡ some threshold
    pub rising : IsRising (length edges) 0 keep
    pub kept :
        (i : ℕ)
        → i < length edges
        → count i keep ≡ (if d.le (get_or abundant i (nought d)) threshold then 1 else 0)

-- The dropping of edges returns, and reads only within its arrays: the numbers of the edges that are
-- kept rise, and an edge is kept exactly if its abundance, which the windows give it, is at most the
-- threshold. That is the abundance at the place of the last edge to keep among the sorted ones. This
-- asks for an edge, for windows that are not empty, and for a drop rate that keeps no more edges than
-- there are.
pub preprocess_edge_dropping-IsKept :
    {D : Type 0} (d : Doubles D) (alpha beta : D) (edges : List (TimedEdge D)) (window_size : ℕ)
    (drop_rate : D)
    → 0 < length edges
    → 0 < window_size
    → last_kept d drop_rate (length edges) < length edges
    → Returns
        (preprocess_edge_dropping d alpha beta edges window_size drop_rate)
        (IsKept d alpha beta edges window_size drop_rate)
unfolding preprocess_edge_dropping
preprocess_edge_dropping-IsKept d alpha beta edges window_size drop_rate any some_size keeps =
    let (bounds, windows, (later, shape, is)) =
      segment_bounds-IsBounds (length edges) window_size some_size any in
    let (abundant, weighed, abundant_len) =
      weigh_edges-length d alpha beta edges later 0 (start_times edges) [] is refl in
    let weighed' : weigh_edges d alpha beta edges bounds (start_times edges) [] ≡ ok abundant =
      ap (λ bounds. weigh_edges d alpha beta edges bounds (start_times edges) []) shape ∙ weighed in
    let (threshold, e, threshold_at) =
      fetch-Returns (stable_sort d.lt abundant) (last_kept d drop_rate (length edges))
        (length edges) (length-stable_sort d.lt abundant ∙ abundant_len) keeps in
    ok-Returns _ windows (
      ok-Returns _ weighed' (
        ok-Returns _ e (
          keep_from d threshold 0 abundant,
          refl,
          record {
            bounds = bounds;
            abundant = abundant;
            threshold = threshold;
            windows = windows;
            weighed = weighed';
            abundant_len = abundant_len;
            threshold_at = threshold_at;
            rising =
                keep_from-IsRising d threshold 0 (length edges) abundant
                  (omega (arith, abundant_len));
            kept = λ i lt.
                ap (λ j. count j (keep_from d threshold 0 abundant)) (omega arith)
                ∙ count-keep_from d threshold 0 i abundant (rw abundant_len lt);
          },
        )))
