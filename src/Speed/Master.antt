-- ===== src/Speed/Master.antt =====
-- sampler/speed_partition.cpp: `first_local_part_or_fallback` and `choose_balanced_node_master`, which
-- gives each node the part that owns it.
pub mod Laws
pub mod Choice
use starrygl_tmp.Prelude.{
  ℕ, zero, suc, ◌+◌, ◌%◌, max, ltb, ◌==◌, ℤ, pos, negsuc, Bool, true, false, not, ◌&&◌, ◌||◌, List,
  [], ◌∷◌, ◌++◌, length, get_or, replicate, Result, ok, err, fault, ◌>>=◌, fetch, modify,
  modify_row, if◌then◌else◌,
}
use starrygl_tmp.Sort.{stable_sort}
use starrygl_tmp.Speed.Doubles.{Doubles, almost_equal}
use starrygl_tmp.Speed.State.{SpeedState, nought, one}

-- An edge whose nodes have been checked.
pub record Edge (D : Type 0) : Type 0 where
  pub src : ℕ
  pub dst : ℕ
  pub ts : D

-- The node with more edges first, then the lower number. Every node has a degree.
unfoldable pub degree_less : List ℕ → ℕ → ℕ → Bool
degree_less degree a b =
    let deg_a = get_or degree a 0 in
    let deg_b = get_or degree b 0 in if deg_a == deg_b then ltb a b else ltb deg_b deg_a

module _ {D : Type 0} (d : Doubles D) where
  unfoldable pub first_local_part_or_fallback : SpeedState D → ℕ → ℕ → Result ℕ
  unfolding fetch
  first_local_part_or_fallback s nid fallback = do
    parts ← fetch s.node_parts nid
    ok (elim parts [ [] ↦ fallback | part ∷ rest ↦ part ])

  -- `is_hot[nid] || node_parts[nid].size() > 1`
  unfoldable pub is_replica : List Bool → SpeedState D → ℕ → Result Bool
  unfolding fetch
  is_replica is_hot s nid = do
    hot ← fetch is_hot nid
    if hot then ok true else (do parts ← fetch s.node_parts nid; ok (ltb 1 (length parts)))

  -- One edge more that a part owns, for both its nodes.
  unfoldable pub add_edge_affinity : ℕ → Edge D → ℤ → List (List D) → Result (List (List D))
  unfolding modify_row
  add_edge_affinity num_parts e (negsuc k) affinity = ok affinity
  add_edge_affinity num_parts e (pos part) affinity =
      if not (ltb part num_parts) then ok affinity else (do
        of_src ← modify_row affinity e.src part (λ a. d.add a (one d))
        modify_row of_src e.dst part (λ a. d.add a (one d)))

  -- The affinity of the nodes to the parts: how many of their edges a part owns.
  unfoldable pub add_affinity : ℕ → List (Edge D) → List ℤ → List (List D) → Result (List (List D))
  unfolding add_edge_affinity
  add_affinity num_parts [] owners affinity = ok affinity
  add_affinity num_parts (e ∷ edges) [] affinity = err fault
  add_affinity num_parts (e ∷ edges) (owner ∷ owners) affinity = do
    affinity' ← add_edge_affinity num_parts e owner affinity
    add_affinity num_parts edges owners affinity'

  -- `static_cast<double>(std::max(degree[nid], 1))`
  unfoldable pub weight_of : List ℕ → ℕ → Result D
  unfolding fetch
  weight_of degree nid = do deg ← fetch degree nid; ok (d.of_int (pos (max deg 1)))

  pub record Masters : Type 0 where
    pub node_master : List ℤ
    pub master_load : List D
    pub replica_nodes : List ℕ

  -- `node_master_ptr[nid] = part; master_load[part] += weight;`
  unfoldable pub give_master : List ℕ → Masters → ℕ → ℕ → Result Masters
  unfolding modify weight_of
  give_master degree m nid part = do
    node_master ← modify m.node_master nid (λ _. pos part)
    weight ← weight_of degree nid
    master_load ← modify m.master_load part (λ load. d.add load weight)
    ok (record m { node_master = node_master; master_load = master_load })

  -- One turn of the loop over the nodes.
  unfoldable pub visit_node : List Bool → SpeedState D → List ℕ → Masters → ℕ → Result Masters
  unfolding is_replica first_local_part_or_fallback give_master
  visit_node is_hot s degree m nid = do
    replica ← is_replica is_hot s nid
    if replica then ok (record m { replica_nodes = m.replica_nodes ++ nid ∷ [] }) else (do
      master ← first_local_part_or_fallback s nid (nid % max s.num_parts 1)
      give_master degree m nid master)

  -- The nodes from `nid` on, `k` of them.
  unfoldable pub visit_nodes : List Bool → SpeedState D → List ℕ → ℕ → ℕ → Masters → Result Masters
  unfolding visit_node
  visit_nodes is_hot s degree zero nid m = ok m
  visit_nodes is_hot s degree (suc k) nid m = do
    m' ← visit_node is_hot s degree m nid
    visit_nodes is_hot s degree k (suc nid) m'

  -- `total_weight`
  unfoldable pub add_weights : List ℕ → ℕ → ℕ → D → Result D
  unfolding weight_of
  add_weights degree zero nid total = ok total
  add_weights degree (suc k) nid total = do
    weight ← weight_of degree nid
    add_weights degree k (suc nid) (d.add total weight)

  -- `affinity_sum`
  unfoldable pub sum_from : D → List D → D
  sum_from total [] = total
  sum_from total (a ∷ row) = sum_from (d.add total a) row

  -- The loop over the parts from `part` on, with the best part and its score so far.
  unfoldable pub best_master : Bool → List Bool → List D → List D → D → D → ℕ → ℕ → ℕ → D → Result ℕ
  unfolding fetch almost_equal
  best_master hot marks affinity master_load load_penalty target_load zero part best_part
        best_score =
      ok best_part
  best_master hot marks affinity master_load load_penalty target_load (suc k) part best_part
        best_score =
      do
        mark ← if hot then ok true else fetch marks part
        a ← fetch affinity part
        load ← fetch master_load part
        let score = d.sub a (d.mul load_penalty (d.div load target_load))
        let better =
            mark
            && (d.lt (d.add best_score d.eps) score
                || (almost_equal d score best_score && ltb part best_part))
        best_master hot marks affinity master_load load_penalty target_load k (suc part)
            (if better then part else best_part) (if better then score else best_score)

  unfoldable pub choose_master :
      List Bool → SpeedState D → List ℕ → List (List D) → D → Masters → ℕ → Result Masters
  unfolding fetch sum_from best_master give_master
  choose_master is_hot s degree affinity target_load m nid = do
    row ← fetch affinity nid
    let load_penalty = d.max (one d) (sum_from (nought d) row)
    hot ← fetch is_hot nid
    marks ← fetch s.is_in nid
    best ←
        best_master hot marks row m.master_load load_penalty target_load s.num_parts 0 0
          (d.sub (nought d) d.infinity)
    give_master degree m nid best

  unfoldable pub choose_masters :
      List Bool → SpeedState D → List ℕ → List (List D) → D → List ℕ → Masters → Result Masters
  unfolding choose_master
  choose_masters is_hot s degree affinity target_load [] m = ok m
  choose_masters is_hot s degree affinity target_load (nid ∷ nodes) m = do
    m' ← choose_master is_hot s degree affinity target_load m nid
    choose_masters is_hot s degree affinity target_load nodes m'

  unfoldable pub choose_balanced_node_master :
      SpeedState D → List (Edge D) → List ℤ → List Bool → List ℕ → Result (List ℤ)
  unfolding add_affinity visit_nodes stable_sort degree_less add_weights choose_masters
  choose_balanced_node_master s edges edge_owner is_hot degree = do
    affinity ←
        add_affinity s.num_parts edges edge_owner
          (replicate s.num_nodes (replicate s.num_parts (nought d)))
    visited ← visit_nodes is_hot s degree s.num_nodes 0 (record {
      node_master = replicate s.num_nodes (negsuc 0);
      master_load = replicate s.num_parts (nought d);
      replica_nodes = [];
    })
    total_weight ← add_weights degree s.num_nodes 0 (nought d)
    let target_load = d.max (d.div total_weight (d.of_int (pos (max s.num_parts 1)))) (one d)
    chosen ←
        choose_masters is_hot s degree affinity target_load
          (stable_sort (degree_less degree) visited.replica_nodes) visited
    ok chosen.node_master
