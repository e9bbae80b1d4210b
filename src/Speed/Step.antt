-- ===== src/Speed/Step.antt =====
-- sampler/speed_partition.cpp: `perform_step`, which places one edge. Its arguments `neighbors`,
-- `neighbor_ts` and `delta_ts` are not read.
pub mod Candidates
pub mod Laws
pub mod Ends
use starrygl_tmp.Prelude.{
  ℕ, zero, suc, ◌+◌, ◌-◌, ◌%◌, ℤ, pos, ◌-ℤ◌, Bool, true, false, not, ◌&&◌, ◌||◌, List, [], ◌∷◌,
  ◌++◌, length, Result, ok, ◌>>=◌, fetch, modify, if◌then◌else◌, ◌==◌,
}
use starrygl_tmp.Speed.Doubles.{Doubles, almost_equal, max_time, min_time}
use starrygl_tmp.Speed.State.{
  SpeedState, max_load, min_load, one, add_edge_to_part, add_node_to_part,
}

abbrev pub is_empty : List ℕ → Bool
is_empty [] = true
is_empty (x ∷ xs) = false

-- The loads before the loop over the parts.
pub record Loads (D : Type 0) : Type 0 where
  pub max_edge_load : ℕ
  pub min_edge_load : ℕ
  pub max_node_load : ℕ
  pub min_node_load : ℕ
  pub max_time_load : D
  pub min_time_load : D
  pub denom_time : D

-- The parts from `p` on that two nodes share.
unfoldable pub common_parts : ℕ → ℕ → List Bool → List Bool → Result (List ℕ)
unfolding fetch
common_parts zero p in_u in_v = ok []
common_parts (suc n) p in_u in_v = do
  a ← fetch in_u p
  both ← if a then fetch in_v p else ok false
  rest ← common_parts n (suc p) in_u in_v
  ok (if both then p ∷ rest else rest)

module _ {D : Type 0} (d : Doubles D) where
  -- The parts that two nodes share which are not hot.
  unfoldable pub cold_candidates : SpeedState D → ℕ → ℕ → Result (List ℕ)
  unfolding fetch common_parts
  cold_candidates s u v = do
    parts_u ← fetch s.node_parts u
    parts_v ← fetch s.node_parts v
    if is_empty parts_u || is_empty parts_v then ok [] else (do
      in_u ← fetch s.is_in u
      in_v ← fetch s.is_in v
      common_parts s.num_parts 0 in_u in_v)

  -- The candidates that the places of the two nodes give.
  unfoldable pub local_candidates : List Bool → SpeedState D → ℕ → ℕ → Result (List ℕ)
  unfolding fetch cold_candidates
  local_candidates is_hot s u v = do
    hot_u ← fetch is_hot u
    hot_v ← fetch is_hot v
    if hot_u && not hot_v
        then fetch s.node_parts v
        else if hot_v && not hot_u
        then fetch s.node_parts u
        else if hot_u
        then ok []
        else cold_candidates s u v

  unfoldable pub loads_of : SpeedState D → D → Result (Loads D)
  unfolding max_load min_load max_time min_time
  loads_of s max_time_arg = do
    max_edge ← max_load s.edge_load_by_part
    min_edge ← min_load s.edge_load_by_part
    max_node ← max_load s.node_load_by_part
    min_node ← min_load s.node_load_by_part
    max_t ← max_time d s.time_bal
    min_t ← min_time d s.time_bal
    ok (record {
      max_edge_load = max_edge;
      min_edge_load = min_edge;
      max_node_load = max_node;
      min_node_load = min_node;
      max_time_load = max_t;
      min_time_load = min_t;
      denom_time = d.max max_time_arg d.nano;
    })

  -- What is left of the importance of a node in a part.
  unfoldable pub decayed : SpeedState D → Loads D → ℕ → ℕ → D → Result D
  unfolding fetch
  decayed s loads nid p ts = do
    weights ← fetch s.importance_by_part nid
    weight ← fetch weights p
    last_row ← fetch s.last_ts_by_part nid
    last ← fetch last_row p
    ok (d.mul weight (d.exp (d.div (d.sub last ts) loads.denom_time)))

  -- `(load - min) / (epsilon + max - min)`
  unfoldable pub balance : ℕ → ℕ → ℕ → ℕ → D
  balance load min max epsilon =
      d.div (d.of_int (pos load -ℤ pos min)) (d.of_int (pos (epsilon + max) -ℤ pos min))

  unfoldable pub score_of : SpeedState D → Loads D → ℕ → ℕ → D → ℕ → ℕ → ℕ → Result D
  unfolding fetch decayed balance
  score_of s loads u v ts epsilon epsilon_t p = do
    of_u ← decayed s loads u p ts
    of_v ← decayed s loads v p ts
    let score = d.add (d.add of_u of_v) (one d)
    node_load ← fetch s.node_load_by_part p
    edge_load ← fetch s.edge_load_by_part p
    part_time ← fetch s.time_bal p
    let node_bal = balance node_load loads.min_node_load loads.max_node_load epsilon
    let edge_bal = balance edge_load loads.min_edge_load loads.max_edge_load epsilon
    let time_bal = d.exp (
        d.div (d.sub loads.min_time_load part_time) (
          d.sub (d.add (d.sub loads.max_time_load loads.min_time_load) (one d))
            (d.of_int (pos epsilon_t))))
    ok (d.mul (d.mul (d.mul score (d.sub (one d) node_bal)) (d.sub (one d) edge_bal)) time_bal)

  -- The loop over the parts from `p` on, with the best score so far and the parts that have it.
  unfoldable pub best_parts :
      SpeedState D → Loads D → ℕ → ℕ → D → ℕ → ℕ → ℕ → ℕ → D → List ℕ → Result (List ℕ)
  unfolding score_of almost_equal
  best_parts s loads u v ts epsilon epsilon_t zero p best candidates = ok candidates
  best_parts s loads u v ts epsilon epsilon_t (suc n) p best candidates = do
    score ← score_of s loads u v ts epsilon epsilon_t p
    let better = d.lt (d.add best d.eps) score
    let equal = almost_equal d score best
    best_parts s loads u v ts epsilon epsilon_t n (suc p) (if better then score else best)
        (if better then p ∷ [] else if equal then candidates ++ p ∷ [] else candidates)

  unfoldable pub scored_candidates : SpeedState D → ℕ → ℕ → D → D → ℕ → ℕ → Result (List ℕ)
  unfolding loads_of best_parts
  scored_candidates s u v ts max_time_arg epsilon epsilon_t = do
    loads ← loads_of s max_time_arg
    best_parts s loads u v ts epsilon epsilon_t s.num_parts 0 (d.of_int (ℤ.negsuc 0)) []

  unfoldable pub count_degrees : SpeedState D → ℕ → ℕ → Result (SpeedState D)
  unfolding modify
  count_degrees s u v = do
    degree_in ← modify s.degree_in u suc
    degree_in' ← modify degree_in v suc
    ok (record s { degree_in = degree_in' })

  -- `if (is_hot[nid] || node_parts[nid].empty() || node_parts[nid][0] == part) { ... }`
  unfoldable pub belongs : List Bool → SpeedState D → ℕ → ℕ → Result Bool
  unfolding fetch
  belongs is_hot s nid part = do
    hot ← fetch is_hot nid
    parts ← fetch s.node_parts nid
    ok (hot || elim parts [ [] ↦ true | q ∷ qs ↦ q == part ])

  unfoldable pub add_endpoint : List Bool → SpeedState D → ℕ → ℕ → D → D → Result (SpeedState D)
  unfolding belongs add_node_to_part
  add_endpoint is_hot s nid part ts max_time_arg = do
    here ← belongs is_hot s nid part
    if here then add_node_to_part d s nid part (one d) ts max_time_arg else ok s

  unfoldable pub place_edge :
      List Bool → SpeedState D → ℕ → ℕ → ℕ → D → D → List ℕ → Result (SpeedState D)
  unfolding fetch add_endpoint add_edge_to_part
  place_edge is_hot s u v eid ts max_time_arg [] =
      ok (record s { dropped_edges = s.dropped_edges ++ eid ∷ [] })
  place_edge is_hot s u v eid ts max_time_arg (c ∷ cs) = do
    part ← fetch (c ∷ cs) (eid % length (c ∷ cs))
    s₁ ← add_endpoint is_hot s u part ts max_time_arg
    s₂ ← add_endpoint is_hot s₁ v part ts max_time_arg
    add_edge_to_part d s₂ eid part ts

  unfoldable pub candidates_of : List Bool → SpeedState D → ℕ → ℕ → D → D → ℕ → ℕ → Result (List ℕ)
  unfolding local_candidates scored_candidates
  candidates_of is_hot s u v ts max_time_arg epsilon epsilon_t = do
    local ← local_candidates is_hot s u v
    if is_empty local then scored_candidates s u v ts max_time_arg epsilon epsilon_t else ok local

  unfoldable pub perform_step :
      List Bool → SpeedState D → ℕ → ℕ → ℕ → D → D → ℕ → ℕ → Result (SpeedState D)
  unfolding candidates_of count_degrees place_edge
  perform_step is_hot s u v eid ts max_time_arg epsilon epsilon_t = do
    candidates ← candidates_of is_hot s u v ts max_time_arg epsilon epsilon_t
    counted ← count_degrees s u v
    place_edge is_hot counted u v eid ts max_time_arg candidates
