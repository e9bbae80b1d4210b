-- ===== src/TimeSplit/Adaptive.antt =====
-- split/time_split.cpp: `adaptive_split_impl`, the groups of edges by their staleness.
pub mod Laws
use starrygl_tmp.Prelude.{
  ℕ, zero, suc, ◌+◌, ◌-◌, ltb, ℤ, Bool, true, false, List, [], ◌∷◌, length, replicate, Result, ok,
  err, out_of_fuel, ◌>>=◌, fetch, modify, for_range, if◌then◌else◌,
}
use starrygl_tmp.Speed.Doubles.{Doubles}
use starrygl_tmp.TimeSplit.Window.{
  Table, assign_all, TimedEdge, Window, start_times, no_edges, visit_edge,
}

-- Where a group ends, and the times of its nodes.
pub record Stop (D : Type 0) : Type 0 where
  pub index : ℕ
  pub cache : Table D

-- `v.back() = n`, of a list that is not empty
unfoldable pub with_back : List ℕ → ℕ → List ℕ
with_back [] n = []
with_back (x ∷ []) n = n ∷ []
with_back (x ∷ y ∷ xs) n = x ∷ with_back (y ∷ xs) n

-- `group_index[j] = gi` for the edges of each group
unfoldable pub fill_groups : ℕ → List ℕ → List ℕ → Result (List ℕ)
unfolding for_range modify
fill_groups gi [] g = ok g
fill_groups gi (a ∷ []) g = ok g
fill_groups gi (a ∷ b ∷ bounds) g = do
  g' ← for_range (λ j g. modify g j (λ _. gi)) a (b - a) g
  fill_groups (suc gi) (b ∷ bounds) g'

module _ {D : Type 0} (d : Doubles D) (edges : List (TimedEdge D))
    (threshold alpha beta aggl : D) where
  -- The loop over the edges from `i` on, where `k` edges come after that one.
  unfoldable pub scan : Table D → ℕ → ℕ → Window D → Result (Stop D)
  unfolding visit_edge
  scan time_dic zero i w = do
    w' ← visit_edge d edges 0 alpha beta time_dic aggl i w
    ok (record { index = i; cache = w'.cache })
  scan time_dic (suc k) i w = do
    w' ← visit_edge d edges 0 alpha beta time_dic aggl i w
    if d.lt threshold w'.stale
        then ok (record { index = i; cache = w'.cache })
        else scan time_dic k (suc i) w'

  -- `while (start < end - 1)`, for at most so many turns.
  unfoldable pub split_from : ℕ → ℕ → Table D → Result (List ℕ)
  unfolding scan assign_all
  split_from zero start time_dic = if ltb (suc start) (length edges) then err out_of_fuel else ok []
  split_from (suc fuel) start time_dic =
      if ltb (suc start) (length edges)
      then (do
        stop ← scan time_dic (length edges - suc start) start (no_edges d)
        rest ← split_from fuel stop.index (assign_all stop.cache time_dic)
        ok (stop.index ∷ rest))
      else ok []

  -- Each turn of the loop but the last ends at a later edge, so that it has no more turns than there are
  -- edges.
  unfoldable pub adaptive_split_impl : Result (List ℕ)
  unfolding split_from with_back fill_groups start_times
  adaptive_split_impl = do
    start_list ← split_from (length edges) 0 (start_times edges)
    fill_groups 0 (with_back (0 ∷ start_list) (length edges)) (replicate (length edges) 0)
