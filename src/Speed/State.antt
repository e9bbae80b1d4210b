-- ===== src/Speed/State.antt =====
-- sampler/speed_partition.cpp: `SpeedState` and its methods. `is_in` holds 0 or 1. Node, part and edge
-- numbers are numbers: `speed_partition` checks that they are not negative before it uses them.
use starrygl_tmp.Prelude.{
  ℕ, suc, min, max, ℤ, pos, Bool, true, false, List, [], ◌∷◌, ◌++◌, replicate, Result, ok, err,
  fault, ◌>>=◌, fetch, modify, modify_row, if◌then◌else◌,
}
use starrygl_tmp.Speed.Doubles.{Doubles}

pub record SpeedState (D : Type 0) : Type 0 where
  pub num_nodes : ℕ
  pub num_edges : ℕ
  pub num_parts : ℕ
  pub edge_cap : ℤ
  pub time_bal : List D
  pub node_parts : List (List ℕ)
  pub is_in : List (List Bool)
  pub degree : List ℕ
  pub degree_in : List ℕ
  pub importance : List D
  pub edge_ids_by_part : List (List ℕ)
  pub dropped_edges : List ℕ
  pub edge_load_by_part : List ℕ
  pub node_load_by_part : List ℕ
  pub importance_by_part : List (List D)
  pub last_ts_by_part : List (List D)

-- `*std::max_element(v.begin(), v.end())`
unfoldable pub max_load : List ℕ → Result ℕ
max_load [] = err fault
max_load (x ∷ []) = ok x
max_load (x ∷ y ∷ xs) = max_load (max x y ∷ xs)

unfoldable pub min_load : List ℕ → Result ℕ
min_load [] = err fault
min_load (x ∷ []) = ok x
min_load (x ∷ y ∷ xs) = min_load (min x y ∷ xs)

module _ {D : Type 0} (d : Doubles D) where
  -- `0.0` and `1.0`
  abbrev pub nought : D
  nought = d.of_int (pos 0)

  abbrev pub one : D
  one = d.of_int (pos 1)

  -- The constructor, for `n` nodes, `e` edges and `p` parts.
  unfoldable pub initial : ℕ → ℕ → ℕ → SpeedState D
  initial n e p = record {
    num_nodes = n;
    num_edges = e;
    num_parts = p;
    edge_cap =
        d.to_int (d.div (d.mul (d.add one d.tenth) (d.of_int (pos e))) (d.of_int (pos (max p 1))));
    time_bal = replicate p nought;
    node_parts = replicate n [];
    is_in = replicate n (replicate p false);
    degree = replicate n 0;
    degree_in = replicate n 0;
    importance = replicate n nought;
    edge_ids_by_part = replicate p [];
    dropped_edges = [];
    edge_load_by_part = replicate p 0;
    node_load_by_part = replicate p 0;
    importance_by_part = replicate n (replicate p nought);
    last_ts_by_part = replicate n (replicate p nought);
  }

  unfoldable pub add_edge_to_part : SpeedState D → ℕ → ℕ → D → Result (SpeedState D)
  unfolding modify
  add_edge_to_part s eid part ts = do
    edge_load ← modify s.edge_load_by_part part suc
    edge_ids ← modify s.edge_ids_by_part part (λ ids. ids ++ eid ∷ [])
    time_bal ← modify s.time_bal part (λ t. d.max t ts)
    ok (record s {
      edge_load_by_part = edge_load;
      edge_ids_by_part = edge_ids;
      time_bal = time_bal;
    })

  unfoldable pub mark_node : SpeedState D → ℕ → ℕ → Result (SpeedState D)
  unfolding modify modify_row
  mark_node s nid part = do
    is_in ← modify_row s.is_in nid part (λ _. true)
    node_parts ← modify s.node_parts nid (λ parts. parts ++ part ∷ [])
    node_load ← modify s.node_load_by_part part suc
    ok (record s { is_in = is_in; node_parts = node_parts; node_load_by_part = node_load })

  -- `if (!is_in[nid][part]) { ... }`
  unfoldable pub place_node : SpeedState D → ℕ → ℕ → Result (SpeedState D)
  unfolding fetch mark_node
  place_node s nid part = do
    row ← fetch s.is_in nid
    inside ← fetch row part
    if inside then ok s else mark_node s nid part

  -- The rest of `add_node_to_part`: degree and importance, which decays with time.
  unfoldable pub weigh_node : SpeedState D → ℕ → ℕ → D → D → D → Result (SpeedState D)
  unfolding fetch modify modify_row
  weigh_node s nid part weight ts max_time = do
    degree ← modify s.degree nid suc
    importance ← modify s.importance nid (λ w. d.add w weight)
    let denom = d.max max_time d.nano
    last_row ← fetch s.last_ts_by_part nid
    last ← fetch last_row part
    let decay = d.exp (d.div (d.sub last ts) denom)
    importance_by_part ←
        modify_row s.importance_by_part nid part (λ w. d.add (d.mul w decay) weight)
    last_ts ← modify_row s.last_ts_by_part nid part (λ _. ts)
    ok (record s {
      degree = degree;
      importance = importance;
      importance_by_part = importance_by_part;
      last_ts_by_part = last_ts;
    })

  unfoldable pub add_node_to_part : SpeedState D → ℕ → ℕ → D → D → D → Result (SpeedState D)
  unfolding place_node weigh_node
  add_node_to_part s nid part weight ts max_time = do
    placed ← place_node s nid part
    weigh_node placed nid part weight ts max_time
