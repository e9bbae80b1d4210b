-- ===== src/Speed/Graph.antt =====
-- sampler/speed_partition.cpp: what `speed_partition` computes before it places the edges. A tensor is
-- its dimension, its device and its elements after the conversion to the type that is asked for.
use starrygl_tmp.Prelude.{
  ℕ, suc, min, ltb, ◌==◌, ℤ, pos, negsuc, ◌+ℤ◌, ltb_ℤ, pos_part, to_index, Bool, true, not, ◌&&◌,
  List, [], ◌∷◌, map, take, Result, ok, err, fault, torch_check, throw_if, or_err, ◌>>=◌, ◌>>◌,
  modify, if◌then◌else◌,
}
use starrygl_tmp.Sort.{stable_sort}
use starrygl_tmp.Speed.Doubles.{Doubles, almost_equal}
use starrygl_tmp.Speed.Master.{Edge}

pub record Input (A : Type 0) : Type 0 where
  pub dim : ℕ
  pub is_cpu : Bool
  pub values : List A

unfoldable pub require_1d_cpu_contiguous : {A : Type 0} → Input A → Result (List A)
require_1d_cpu_contiguous t = do
  throw_if (not (t.dim == 1)) torch_check
  throw_if (not t.is_cpu) torch_check
  ok t.values

-- `std::max` on `int64_t`
abbrev pub max_ℤ : ℤ → ℤ → ℤ
max_ℤ a b = if ltb_ℤ a b then b else a

unfoldable pub max_id_from : ℤ → List ℤ → List ℤ → ℤ
max_id_from max_id [] dst = max_id
max_id_from max_id (u ∷ src) [] = max_id
max_id_from max_id (u ∷ src) (v ∷ dst) = max_id_from (max_ℤ max_id (max_ℤ u v)) src dst

unfoldable pub tensor_num_nodes : List ℤ → List ℤ → ℤ → ℤ
unfolding max_id_from
tensor_num_nodes src dst requested =
    if ltb_ℤ (pos 0) requested then requested else max_id_from (negsuc 0) src dst +ℤ pos 1

-- `u >= 0 && u < n`
unfoldable pub check_node : ℕ → ℤ → Result ℕ
check_node n u = do
  nid ← or_err (to_index u) torch_check
  if ltb nid n then ok nid else err torch_check

pub record SpeedNode (D : Type 0) : Type 0 where
  pub id : ℕ
  pub degree : ℕ
  pub importance : D

module _ {D : Type 0} (d : Doubles D) where
  -- The edges, whose nodes the loop over the edges checks. The three arrays have one length.
  unfoldable pub check_edges : ℕ → List ℤ → List ℤ → List D → Result (List (Edge D))
  unfolding check_node
  check_edges n [] dst ts = ok []
  check_edges n (u ∷ src) [] ts = err fault
  check_edges n (u ∷ src) (v ∷ dst) [] = err fault
  check_edges n (u ∷ src) (v ∷ dst) (t ∷ ts) = do
    u' ← check_node n u
    v' ← check_node n v
    edges ← check_edges n src dst ts
    ok (record { src = u'; dst = v'; ts = t } ∷ edges)

  -- `max_ts`
  unfoldable pub latest : D → List D → D
  latest max_ts [] = max_ts
  latest max_ts (t ∷ ts) = latest (d.max max_ts t) ts

  pub record Weights : Type 0 where
    pub degrees : List ℕ
    pub importances : List D

  -- The rest of that loop: `degree` and `importance`. The lists of neighbours, which only
  -- `perform_step` gets, and the mean time between edges are not read.
  unfoldable pub add_weight : D → D → Weights → Edge D → Result Weights
  unfolding modify
  add_weight beta raw_max_time w e = do
    deg₁ ← modify w.degrees e.src suc
    deg₂ ← modify deg₁ e.dst suc
    let gain = d.mul beta (d.div e.ts raw_max_time)
    imp₁ ← modify w.importances e.src (λ x. d.add x gain)
    imp₂ ← modify imp₁ e.dst (λ x. d.add x gain)
    ok (record { degrees = deg₂; importances = imp₂ })

  unfoldable pub add_weights_of : D → D → List (Edge D) → Weights → Result Weights
  unfolding add_weight
  add_weights_of beta raw_max_time [] w = ok w
  add_weights_of beta raw_max_time (e ∷ edges) w = do
    w' ← add_weight beta raw_max_time w e
    add_weights_of beta raw_max_time edges w'

  -- `nodes`, from the node `i` on
  unfoldable pub nodes_from : ℕ → List ℕ → List D → List (SpeedNode D)
  nodes_from i [] importances = []
  nodes_from i (deg ∷ degrees) [] = []
  nodes_from i (deg ∷ degrees) (imp ∷ importances) =
      record { id = i; degree = deg; importance = imp } ∷ nodes_from (suc i) degrees importances

  -- The comparison of the nodes. By importance it is no strict weak order where importances are within
  -- 1e-8 of each other, and `std::sort` may then give any order; the model takes the stable one.
  unfoldable pub speed_less : Bool → SpeedNode D → SpeedNode D → Bool
  unfolding almost_equal
  speed_less use_importance a b =
      if use_importance && not (almost_equal d a.importance b.importance)
      then d.lt b.importance a.importance
      else if a.degree == b.degree
      then ltb a.id b.id
      else ltb b.degree a.degree

  -- `std::clamp(floor(topk_ratio * n), 0, n)`
  unfoldable pub topk_of : D → ℕ → ℕ
  topk_of topk_ratio n = min n (pos_part (d.to_int (d.floor (d.mul topk_ratio (d.of_int (pos n))))))

  -- `hot_node_ids`
  unfoldable pub hot_nodes : Bool → D → ℕ → Weights → List ℕ
  unfolding stable_sort speed_less topk_of nodes_from
  hot_nodes use_importance topk_ratio n w =
      map (λ (x : SpeedNode D). x.id)
        (take (topk_of topk_ratio n)
          (stable_sort (speed_less use_importance) (nodes_from 0 w.degrees w.importances)))

-- `is_hot[id] = 1` for each of them
unfoldable pub mark_hot : List ℕ → List Bool → Result (List Bool)
unfolding modify
mark_hot [] is_hot = ok is_hot
mark_hot (nid ∷ nodes) is_hot = do is_hot' ← modify is_hot nid (λ _. true); mark_hot nodes is_hot'
