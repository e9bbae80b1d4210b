-- ===== src/TimeSplit/Segments/Laws.antt =====
-- The windows follow each other from the first edge to the last, and their staleness is computed.
use starrygl_tmp.Prelude.{
  ℕ, zero, suc, ◌+◌, ◌-◌, ◌<◌, ◌≤◌, ltb, true, false, List, [], ◌∷◌, ◌++◌, length, ok, ◌>>=◌,
  for_range-Returns, Returns, >>=-Returns, ok-Returns, Bool-cases, ◌≡◌, inl, inr, refl, sym, ap,
  ◌∙◌, arith,
}
use mathlib.Core.Path.{subst}
use starrygl_tmp.Speed.Doubles.{Doubles}
use starrygl_tmp.Speed.Scores.Laws.{Ends}
use starrygl_tmp.Speed.Master.Choice.{other_test}
use starrygl_tmp.TimeSplit.Window.{
  Table, back, assign_all, TimedEdge, start_times, no_edges, visit_edge,
}
use starrygl_tmp.TimeSplit.Window.Laws.{IsWindow, visit_edge-IsWindow, no_edges-IsWindow}
use starrygl_tmp.TimeSplit.Segments.{
  segment_starts, segment_bounds, window_staleness, staleness_of, blend, get_staleness_constraint,
}

-- The bounds after `a` rise, up to `n`.
abbrev pub IsBounds : ℕ → ℕ → List ℕ → Type 0
IsBounds n a [] = a ≡ n
IsBounds n a (b ∷ bounds) = (a < b) × (b ≤ n) × IsBounds n b bounds

past : (n i : ℕ) → n ≤ i → ltb i n ≡ false
past n i le = ground arith

module _ (n size : ℕ) (some_size : 0 < size) where
  segment_starts-over : (fuel i : ℕ) → n ≤ i → segment_starts n size fuel i ≡ ok []
  unfolding segment_starts
  segment_starts-over zero i le = rw (past n i le) refl
  segment_starts-over (suc fuel) i le = rw (past n i le) refl

  segment_starts-IsBounds :
      (fuel i : ℕ)
      → i < n
      → n ≤ fuel + i
      → Returns (segment_starts n size fuel i) (λ starts.
        (later : List ℕ) × (last : ℕ) × (starts ≡ i ∷ later)
        × IsBounds n i (later ++ n ∷ [])
        × (back starts ≡ ok last)
        × (last < n))
  unfolding segment_starts back
  segment_starts-IsBounds zero i lt enough = absurd (omega (arith, lt, enough))
  segment_starts-IsBounds (suc fuel) i lt enough =
      let here : ltb i n ≡ true = ground (arith, lt) in
      elim (Bool-cases (ltb (i + size) n)) [
        | inr e ↦
            let over = segment_starts-over fuel (i + size) (ground (arith, e)) in
            (
              i ∷ [],
              rw (segment_starts, here) (ap (λ r. r >>= (λ rest. ok (i ∷ rest))) over),
              ([], i, refl, (lt, omega arith, refl), refl, lt),
            )
        | inl e ↦
            let (starts, e', (later, last, shape, bounds, back_is, last_lt)) =
              segment_starts-IsBounds fuel (i + size) (ground (arith, e))
                (omega (arith, enough, some_size)) in
            (
              i ∷ starts,
              rw (segment_starts, here) (ap (λ r. r >>= (λ rest. ok (i ∷ rest))) e'),
              (
                starts,
                last,
                refl,
                subst (λ xs. IsBounds n i (xs ++ n ∷ [])) (sym shape)
                    (omega (arith, some_size), ground (arith, e), bounds),
                subst (λ xs. back (i ∷ xs) ≡ ok last) (sym shape) (ap back (sym shape) ∙ back_is),
                last_lt,
              ),
            )
      ]

  pub segment_bounds-IsBounds :
      0 < n
      → Returns
          (segment_bounds n size)
          (λ bounds. (later : List ℕ) × (bounds ≡ 0 ∷ later) × IsBounds n 0 later)
  unfolding segment_bounds
  segment_bounds-IsBounds any =
      >>=-Returns (segment_starts n size n 0) _ (segment_starts-IsBounds n 0 any (omega arith))
        (λ starts (later, last, shape, bounds, back_is, last_lt). ok-Returns _ back_is (
          _,
          rw (other_test last n (λ e. omega (arith, e, last_lt))) refl,
          (later ++ n ∷ [], ap (λ xs. xs ++ n ∷ []) shape, bounds),
        ))

module _ {D : Type 0} (d : Doubles D) (edges : List (TimedEdge D)) (alpha beta aggl : D) where
  window_staleness-Ends :
      (a b : ℕ) (time_dic : Table D)
      → b ≤ length edges
      → Ends (window_staleness d edges alpha beta aggl a b time_dic)
  unfolding window_staleness
  window_staleness-Ends a b time_dic le =
      let (w, e, _) =
        for_range-Returns (λ x w. visit_edge d edges a alpha beta time_dic aggl x w)
          (λ x w. IsWindow d edges a alpha beta time_dic w) (b - a)
          (λ x w lt is.
            visit_edge-IsWindow d edges a alpha beta time_dic aggl x w (omega (arith, lt, le)) is)
          0 (b - a) (no_edges d) (omega arith) (no_edges-IsWindow d edges a alpha beta time_dic) in
      (w, e, tt)

  staleness_of-Ends :
      (bounds : List ℕ) (a : ℕ) (time_dic : Table D)
      → IsBounds (length edges) a bounds
      → Ends (staleness_of d edges alpha beta aggl (a ∷ bounds) time_dic)
  unfolding staleness_of
  staleness_of-Ends [] a time_dic is = ([], refl, tt)
  staleness_of-Ends (b ∷ bounds) a time_dic is =
      >>=-Returns (window_staleness d edges alpha beta aggl a b time_dic) _
        (window_staleness-Ends a b time_dic is.1)
        (λ w _.
          >>=-Returns
            (staleness_of d edges alpha beta aggl (b ∷ bounds) (assign_all w.cache time_dic)) _
            (staleness_of-Ends bounds b (assign_all w.cache time_dic) is.2)
            (λ rest _. (w.stale ∷ rest, refl, tt)))

  pub get_staleness_constraint-Ends :
      (batch_size : ℕ) (graph_feature : D)
      → 0 < batch_size
      → 0 < length edges
      → Ends (get_staleness_constraint d edges alpha beta aggl batch_size graph_feature)
  unfolding get_staleness_constraint
  get_staleness_constraint-Ends batch_size graph_feature some_size any =
      >>=-Returns (segment_bounds (length edges) batch_size) _
        (segment_bounds-IsBounds (length edges) batch_size some_size any)
        (λ bounds (later, shape, is).
          >>=-Returns (staleness_of d edges alpha beta aggl bounds (start_times edges)) _
            (subst
              (λ bounds. Ends (staleness_of d edges alpha beta aggl bounds (start_times edges)))
              (sym shape) (staleness_of-Ends later 0 (start_times edges) is))
            (λ staleness _. (blend d graph_feature staleness, refl, tt)))
