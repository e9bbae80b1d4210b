-- ===== src/Speed/Partition.antt =====
-- sampler/speed_partition.cpp: `speed_partition` and `node_parts_to_padded_tensor`.
pub mod Edges
pub mod Locals
pub mod Start
pub mod Hot
pub mod Laws
pub mod Checks
use starrygl_tmp.Prelude.{
  ℕ, zero, suc, ◌+◌, ◌-◌, ◌%◌, max, ltb, ◌==◌, ℤ, pos, negsuc, ltb_ℤ, ℤ-discrete, to_index, Bool,
  true, false, not, ◌&&◌, ◌||◌, List, [], ◌∷◌, ◌++◌, map, length, replicate, ite, Result, ok, err,
  fault, torch_check, throw_if, or_err, ◌>>=◌, ◌>>◌, fetch, modify, if◌then◌else◌, traverse,
}
use starrygl_tmp.Speed.Doubles.{Doubles}
use starrygl_tmp.Speed.State.{SpeedState, nought, initial}
use starrygl_tmp.Speed.Step.{perform_step}
use starrygl_tmp.Speed.Master.{
  Edge, first_local_part_or_fallback, is_replica, choose_balanced_node_master,
}
use starrygl_tmp.Speed.Graph.{
  Input, require_1d_cpu_contiguous, tensor_num_nodes, check_edges, latest, Weights, add_weights_of,
  hot_nodes, mark_hot,
}

-- The numbers from `i` on, `k` of them.
abbrev pub range : ℕ → ℕ → List ℕ
range i zero = []
range i (suc k) = i ∷ range (suc i) k

-- `edge_owner_ptr[eid] = p` for each edge of the part
unfoldable pub own_part : ℕ → List ℕ → List ℤ → Result (List ℤ)
unfolding modify
own_part p [] owner = ok owner
own_part p (eid ∷ ids) owner = do owner' ← modify owner eid (λ _. pos p); own_part p ids owner'

unfoldable pub own_parts : ℕ → List (List ℕ) → List ℤ → Result (List ℤ)
unfolding own_part
own_parts p [] owner = ok owner
own_parts p (ids ∷ rows) owner = do owner' ← own_part p ids owner; own_parts (suc p) rows owner'

-- The nodes whose mark is set.
unfoldable pub shared_nodes : List ℕ → List Bool → List ℕ
shared_nodes [] mask = []
shared_nodes (nid ∷ nodes) [] = []
shared_nodes (nid ∷ nodes) (b ∷ mask) =
    let rest = shared_nodes nodes mask in if b then nid ∷ rest else rest

-- A row of `node_parts_to_padded_tensor`.
unfoldable pub padded : ℕ → List ℕ → List ℤ
padded width parts = map (λ p. pos p) parts ++ replicate (width - length parts) (negsuc 0)

unfoldable pub width_from : ℕ → List (List ℕ) → ℕ
width_from width [] = width
width_from width (parts ∷ rows) = width_from (max width (length parts)) rows

pub record PartNodes : Type 0 where
  pub replica_nodes : List ℕ
  pub owned_nodes : List ℕ
  pub shadow_nodes : List ℕ

-- Where the loop over the nodes puts a node of the part `p`.
unfoldable pub file_node : Bool → Bool → ℤ → ℕ → PartNodes → ℕ → PartNodes
file_node replica inside master p x nid =
    if not (inside || replica)
    then x
    else if replica
    then record x { replica_nodes = x.replica_nodes ++ nid ∷ [] }
    else ite (ℤ-discrete master (pos p)) (record x { owned_nodes = x.owned_nodes ++ nid ∷ [] })
        (record x { shadow_nodes = x.shadow_nodes ++ nid ∷ [] })

-- `local_node_ids_by_part`
unfoldable pub local_nodes : PartNodes → List ℕ
local_nodes x = x.replica_nodes ++ (x.owned_nodes ++ x.shadow_nodes)

-- The dictionary that is returned. `node_parts` and `node_owner` are `node_master` too, and
-- `edge_parts` is `edge_owner`.
pub record SpeedPartition : Type 0 where
  pub node_master : List ℤ
  pub edge_owner : List ℤ
  pub replica_mask : List Bool
  pub shared_node_ids : List ℕ
  pub shared_node_parts : List (List ℤ)
  pub hot_node_ids : List ℕ
  pub locals_by_part : List PartNodes
  pub edge_ids_by_part : List (List ℕ)
  pub dropped_edges : List ℕ

module _ {D : Type 0} (d : Doubles D) where
  -- The steps for the edges, whose numbers go from `eid` on.
  unfoldable pub perform_steps :
      List Bool → D → ℕ → List (Edge D) → SpeedState D → Result (SpeedState D)
  unfolding perform_step
  perform_steps is_hot max_time eid [] s = ok s
  perform_steps is_hot max_time eid (e ∷ edges) s = do
    s' ← perform_step d is_hot s e.src e.dst eid e.ts max_time 1 0
    perform_steps is_hot max_time (suc eid) edges s'

  -- The edges without an owner go to the part of their destination.
  unfoldable pub own_rest : SpeedState D → ℕ → List (Edge D) → List ℤ → Result (List ℤ)
  unfolding first_local_part_or_fallback
  own_rest s num_parts [] owner = ok owner
  own_rest s num_parts (e ∷ edges) [] = err fault
  own_rest s num_parts (e ∷ edges) (o ∷ owner) = do
    o' ←
        if ltb_ℤ o (pos 0)
        then (do p ← first_local_part_or_fallback d s e.dst (e.dst % num_parts); ok (pos p))
        else ok o
    rest ← own_rest s num_parts edges owner
    ok (o' ∷ rest)

  unfoldable pub edge_owners : SpeedState D → ℕ → List (Edge D) → Result (List ℤ)
  unfolding own_parts own_rest
  edge_owners s num_parts edges = do
    owner ← own_parts 0 s.edge_ids_by_part (replicate (length edges) (negsuc 0))
    own_rest s num_parts edges owner

  -- `replica_mask`
  unfoldable pub replica_mask_of : List Bool → SpeedState D → List ℕ → Result (List Bool)
  unfolding traverse is_replica
  replica_mask_of is_hot s nodes = traverse (is_replica d is_hot s) nodes

  -- One turn of the loop over the nodes, for the part `p`.
  unfoldable pub add_local :
      SpeedState D → List ℤ → List Bool → ℕ → PartNodes → ℕ → Result PartNodes
  unfolding fetch file_node
  add_local s node_master replica_mask p x nid = do
    replica ← fetch replica_mask nid
    marks ← fetch s.is_in nid
    inside ← fetch marks p
    master ← fetch node_master nid
    ok (file_node replica inside master p x nid)

  unfoldable pub add_locals :
      SpeedState D → List ℤ → List Bool → ℕ → List ℕ → PartNodes → Result PartNodes
  unfolding add_local
  add_locals s node_master replica_mask p [] x = ok x
  add_locals s node_master replica_mask p (nid ∷ nodes) x = do
    x' ← add_local s node_master replica_mask p x nid
    add_locals s node_master replica_mask p nodes x'

  unfoldable pub local_nodes_of : SpeedState D → List ℤ → List Bool → List ℕ → ℕ → Result PartNodes
  unfolding add_locals
  local_nodes_of s node_master replica_mask nodes p =
      add_locals s node_master replica_mask p nodes
        (record { replica_nodes = []; owned_nodes = []; shadow_nodes = [] })

  unfoldable pub node_parts_to_padded_tensor : SpeedState D → List ℕ → Result (List (List ℤ))
  unfolding traverse fetch padded width_from
  node_parts_to_padded_tensor s node_ids = do
    rows ← traverse (fetch s.node_parts) node_ids
    ok (map (padded (width_from 0 rows)) rows)

  -- What follows the steps.
  unfoldable pub collect :
      List Bool → List ℕ → List ℕ → List (Edge D) → ℕ → ℕ → SpeedState D → Result SpeedPartition
  unfolding edge_owners choose_balanced_node_master replica_mask_of shared_nodes local_nodes_of
      node_parts_to_padded_tensor traverse
  collect is_hot hot_ids degree edges n num_parts s = do
    edge_owner ← edge_owners s num_parts edges
    node_master ← choose_balanced_node_master d s edges edge_owner is_hot degree
    replica_mask ← replica_mask_of is_hot s (range 0 n)
    let shared = shared_nodes (range 0 n) replica_mask
    locals ← traverse (local_nodes_of s node_master replica_mask (range 0 n)) (range 0 num_parts)
    shared_parts ← node_parts_to_padded_tensor s shared
    ok (record {
      node_master = node_master;
      edge_owner = edge_owner;
      replica_mask = replica_mask;
      shared_node_ids = shared;
      shared_node_parts = shared_parts;
      hot_node_ids = hot_ids;
      locals_by_part = locals;
      edge_ids_by_part = s.edge_ids_by_part;
      dropped_edges = s.dropped_edges;
    })

  -- The partition of checked edges into `num_parts` parts.
  unfoldable pub partition_edges :
      List (Edge D) → List D → ℕ → ℕ → D → D → Bool → Result SpeedPartition
  unfolding latest add_weights_of hot_nodes mark_hot perform_steps initial collect
  partition_edges edges ts_values n num_parts beta topk_ratio use_importance = do
    let raw_max_time = d.max (latest d (nought d) ts_values) d.nano
    weights ←
        add_weights_of d beta raw_max_time edges
          (record { degrees = replicate n 0; importances = replicate n (nought d) })
    let hot_ids = hot_nodes d use_importance topk_ratio n weights
    is_hot ← mark_hot hot_ids (replicate n false)
    s ←
        perform_steps is_hot (d.div raw_max_time (d.of_int (pos 10))) 0 edges
          (initial d n (length edges) num_parts)
    collect is_hot hot_ids weights.degrees edges n num_parts s

  -- `use_importance` is `topk_type == "importance"`.
  unfoldable pub speed_partition :
      Input ℤ → Input ℤ → Input D → ℤ → ℤ → D → D → Bool → Result SpeedPartition
  unfolding require_1d_cpu_contiguous tensor_num_nodes check_edges partition_edges
  speed_partition src dst ts num_nodes num_parts beta topk_ratio use_importance = do
    throw_if (not (ltb_ℤ (pos 0) num_parts)) torch_check
    parts ← or_err (to_index num_parts) torch_check
    src' ← require_1d_cpu_contiguous src
    dst' ← require_1d_cpu_contiguous dst
    throw_if (not (length src' == length dst')) torch_check
    ts_values ← require_1d_cpu_contiguous ts
    throw_if (not (length ts_values == length src')) torch_check
    n ← or_err (to_index (tensor_num_nodes src' dst' num_nodes)) torch_check
    edges ← check_edges d n src' dst' ts_values
    partition_edges edges ts_values n parts beta topk_ratio use_importance
