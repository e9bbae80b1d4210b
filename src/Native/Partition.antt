-- ===== src/Native/Partition.antt =====
-- csrc/native_utils.cpp: `build_partition_topology_impl` and its four callers. Edges are assigned to
-- the slices of time by their position, and each slice's topology is appended to flat arrays with
-- offsets. `double` and `float` are a parameter: what the source computes with them.
pub mod Flat
pub mod Laws
pub mod Ranges
use starrygl_tmp.Prelude.{
  read, ℕ, suc, ◌+◌, ◌-◌, ◌≤◌, ltb, ℤ, pos, ltb_ℤ, ℤ-discrete, Bool, true, false, List, [], ◌∷◌,
  ◌++◌, map, length, replicate, take, drop, get_elem?, get_or, ite, if◌then◌else◌, Option, none,
  some, Result, ok, err, fault, runtime_error, or_err, throw_if, traverse, to_index, ◌>>=◌, ◌>>◌,
}
use mathlib.Core.Option
use starrygl_tmp.Bounds.{lower_bound}
use starrygl_tmp.Phmap.{HashMap}
use starrygl_tmp.Sort.{stable_sort}
use starrygl_tmp.Native.Tensor.{Tensor, contiguous_long_cpu}
use starrygl_tmp.Native.Slice.{
  Graph, Topology, SliceTensors, read_graph, emplace_rows, build_slice_topology_impl,
}
use starrygl_tmp.Native.Partition.Flat.{Ragged, empty_ragged, append}

-- The edges of a slice, `std::vector(left, right)`. A range that is reversed is undefined behaviour.
unfoldable pub slice_edges : List ℤ → ℤ → ℤ → Result (List ℤ)
unfolding lower_bound
slice_edges sorted begin end =
    let left = lower_bound begin sorted in
    let right = lower_bound end sorted in
    if ltb right left then err fault else ok (take (right - left) (drop left sorted))

-- A slice without edges has the fixed destination ids, or none.
unfoldable pub empty_topology : List ℤ → Option (List ℤ) → Result Topology
unfolding traverse read
empty_topology chunks full = do
  let dst_ids = Option.get_or full []
  dst_chunk ← traverse (read chunks) dst_ids
  ok (record {
    src_ids = [];
    dst_ids = dst_ids;
    gids = [];
    edge_src = [];
    edge_dst = [];
    edge_ptr = replicate (suc (length dst_ids)) 0;
    dst_chunk = dst_chunk;
  })

-- What `norm_for_gids` computes with.
pub record Floats : Type 1 where
  pub Double : Type 0
  pub Float : Type 0
  pub zero_double : Double
  pub one : Double
  -- 1e-12
  pub epsilon : Double
  pub add : Double → Double → Double
  pub max_double : Double → Double → Double
  pub mul : Double → Double → Double
  pub div : Double → Double → Double
  pub sqrt : Double → Double
  pub is_zero : Double → Bool
  pub is_finite : Double → Bool
  pub to_float : Double → Float

-- A slice in the arrays: its topology, event positions and weights.
pub record Slice (F : Type 0) : Type 0 where
  pub topology : Topology
  pub event_pos : List ℕ
  pub norm : List F

-- The outputs, each with its offsets. `gcn_norm` is there if it is asked for.
pub record Partition (F : Type 0) : Type 0 where
  pub src : Ragged ℤ
  pub dst : Ragged ℤ
  pub edge_id : Ragged ℤ
  pub event_pos : Ragged ℕ
  pub edge_src : Ragged ℕ
  pub edge_dst : Ragged ℕ
  pub edge_ptr : Ragged ℕ
  pub dst_chunk : Ragged ℤ
  pub combined : Ragged ℤ
  pub gcn_norm : Option (Ragged F)

abbrev pub empty_partition : {F : Type 0} → Bool → Partition F
empty_partition build_gcn_norm = record {
  src = empty_ragged;
  dst = empty_ragged;
  edge_id = empty_ragged;
  event_pos = empty_ragged;
  edge_src = empty_ragged;
  edge_dst = empty_ragged;
  edge_ptr = empty_ragged;
  dst_chunk = empty_ragged;
  combined = empty_ragged;
  gcn_norm = if build_gcn_norm then some empty_ragged else none;
}

unfoldable pub append_slice : {F : Type 0} → Partition F → Slice F → Partition F
unfolding append
append_slice p s = record {
  src = append p.src s.topology.src_ids;
  dst = append p.dst s.topology.dst_ids;
  edge_id = append p.edge_id s.topology.gids;
  event_pos = append p.event_pos s.event_pos;
  edge_src = append p.edge_src s.topology.edge_src;
  edge_dst = append p.edge_dst s.topology.edge_dst;
  edge_ptr = append p.edge_ptr s.topology.edge_ptr;
  dst_chunk = append p.dst_chunk s.topology.dst_chunk;
  combined = append p.combined (s.topology.dst_ids ++ s.topology.src_ids);
  gcn_norm = Option.map (λ n. append n s.norm) p.gcn_norm;
}

-- The arrays that the loop over slices reads.
pub record Inputs (F : Floats) : Type 0 where
  pub graph : Graph
  pub sorted_edges : List ℤ
  pub full_dst : Option (List ℤ)
  pub weights : Option (List F.Double)
  pub build_gcn_norm : Bool

module _ (hm : HashMap ℤ ℕ) where
  -- Where the ids of the edges of a slice stand in `edge_ids`.
  unfoldable pub event_positions : hm.Map → List ℤ → Result (List ℕ)
  unfolding traverse
  event_positions gid_to_pos gids =
      traverse (λ gid. or_err (hm.find gid_to_pos gid) runtime_error) gids

module _ (F : Floats) where
  -- The weight of an edge.
  unfoldable pub weight_of : Option (List F.Double) → ℤ → Result F.Double
  weight_of none gid = ok F.one
  weight_of (some weights) gid = elim (to_index gid) [
    | none ↦ err runtime_error
    | some n ↦ or_err (get_elem? weights n) runtime_error
  ]

  -- The ends and the weight of an edge.
  pub record Weighted : Type 0 where
    pub src : ℤ
    pub dst : ℤ
    pub weight : F.Double

  unfoldable pub safe_norm : F.Double → F.Double → F.Double → F.Float
  safe_norm weight in_deg out_deg =
      let in_v = F.max_double in_deg F.epsilon in
      let out_v = F.max_double out_deg F.epsilon in
      let denom = F.mul (F.sqrt in_v) (F.sqrt out_v) in
      let value = if F.is_zero denom then F.zero_double else F.div weight denom in
      F.to_float (if F.is_finite value then value else F.zero_double)

  module _ (hm : HashMap ℤ ℕ) where
    unfoldable pub weighted_edge : hm.Map → Graph → Option (List F.Double) → ℤ → Result Weighted
    unfolding weight_of read
    weighted_edge gid_to_pos g weights gid = do
      p ← or_err (hm.find gid_to_pos gid) runtime_error
      w ← weight_of weights gid
      d ← read g.dst (pos p)
      s ← read g.src (pos p)
      ok (record { src = s; dst = d; weight = w })

  module _ (degrees : HashMap ℤ F.Double) where
    -- `deg[node] += w`; a node that is not there has 0.
    unfoldable pub add_degree : degrees.Map → ℤ → F.Double → degrees.Map
    add_degree deg node w =
        degrees.assign deg node (F.add (Option.get_or (degrees.find deg node) F.zero_double) w)

    unfoldable pub sum_degrees : degrees.Map → List (ℤ × F.Double) → degrees.Map
    unfolding add_degree
    sum_degrees deg [] = deg
    sum_degrees deg ((node, w) ∷ edges) = sum_degrees (add_degree deg node w) edges

    unfoldable pub degree : degrees.Map → ℤ → F.Double
    degree deg node = Option.get_or (degrees.find deg node) F.zero_double

    unfoldable pub norm_for_gids :
        (hm : HashMap ℤ ℕ)
        → hm.Map
        → Graph
        → Option (List F.Double)
        → List ℤ
        → Result (List F.Float)
    unfolding traverse weighted_edge safe_norm sum_degrees degree
    norm_for_gids hm gid_to_pos g weights gids = do
      edges ← traverse (weighted_edge hm gid_to_pos g weights) gids
      let in_deg = sum_degrees degrees.empty (map (λ (e : Weighted). (e.dst, e.weight)) edges)
      let out_deg = sum_degrees degrees.empty (map (λ (e : Weighted). (e.src, e.weight)) edges)
      ok (
          map (λ (e : Weighted). safe_norm e.weight (degree in_deg e.dst) (degree out_deg e.src))
            edges)

    unfoldable pub slice_norm :
        (hm : HashMap ℤ ℕ) → hm.Map → Inputs F → List ℤ → Result (List F.Float)
    unfolding norm_for_gids
    slice_norm hm gid_to_pos x gids =
        if x.build_gcn_norm then norm_for_gids hm gid_to_pos x.graph x.weights gids else ok []

    -- The topology of the edges of a slice, if it has any.
    unfoldable pub slice_topology : (hm : HashMap ℤ ℕ) → Inputs F → List ℤ → Result Topology
    unfolding empty_topology build_slice_topology_impl
    slice_topology hm x [] = empty_topology x.graph.node_to_chunk x.full_dst
    slice_topology hm x (eid ∷ eids) = build_slice_topology_impl hm x.graph (eid ∷ eids) x.full_dst

    -- One turn of the loop over slices.
    unfoldable pub partition_slice :
        (hm : HashMap ℤ ℕ) → hm.Map → Inputs F → ℤ × ℤ → Result (Slice F.Float)
    unfolding slice_edges slice_topology event_positions slice_norm
    partition_slice hm gid_to_pos x (begin, end) = do
      eids ← slice_edges x.sorted_edges begin end
      t ← slice_topology hm x eids
      event_pos ← event_positions hm gid_to_pos t.gids
      norm ← slice_norm hm gid_to_pos x t.gids
      ok (record { topology = t; event_pos = event_pos; norm = norm })

    unfoldable pub partition_slices :
        (hm : HashMap ℤ ℕ)
        → hm.Map
        → Inputs F
        → List (ℤ × ℤ)
        → Partition F.Float
        → Result (Partition F.Float)
    unfolding partition_slice append_slice
    partition_slices hm gid_to_pos x [] p = ok p
    partition_slices hm gid_to_pos x (range ∷ ranges) p = do
      s ← partition_slice hm gid_to_pos x range
      partition_slices hm gid_to_pos x ranges (append_slice p s)

-- `time_ptr_2` holds a begin and an end for each slice.
unfoldable pub time_ranges : List ℤ → Result (List (ℤ × ℤ))
time_ranges [] = ok []
time_ranges (begin ∷ []) = err runtime_error
time_ranges (begin ∷ end ∷ rest) = do ranges ← time_ranges rest; ok ((begin, end) ∷ ranges)

-- `edge_weight`: no weights, or weights with the device they are on.
pub record Weights (F : Floats) : Type 0 where
  pub is_cuda : Bool
  pub elems : List F.Double

unfoldable pub checked_weights : {F : Floats} → Weights F → Result (Option (List F.Double))
checked_weights w = elim w.elems [
  | [] ↦ ok none
  | _ ∷ _ ↦ do throw_if w.is_cuda runtime_error; ok (some w.elems)
]

module _ (F : Floats) (degrees : HashMap ℤ F.Double) (hm : HashMap ℤ ℕ) where
  unfoldable pub build_partition_topology_impl :
      SliceTensors → Tensor → Tensor → Weights F → Bool → Bool → Result (Partition F.Float)
  unfolding contiguous_long_cpu read_graph checked_weights time_ranges emplace_rows stable_sort
      partition_slices
  build_partition_topology_impl x time_ptr_2 full_dst_ids edge_weight use_full_dst build_gcn_norm =
      do
        local_edges ← contiguous_long_cpu x.eids
        time_ptr ← contiguous_long_cpu time_ptr_2
        g ← read_graph x
        full_dst ← contiguous_long_cpu full_dst_ids
        weights ← checked_weights edge_weight
        ranges ← time_ranges time_ptr
        let gid_to_pos = emplace_rows hm hm.empty 0 g.edge_ids
        let inputs : Inputs F = record {
          graph = g;
          sorted_edges = stable_sort ltb_ℤ local_edges;
          full_dst = if use_full_dst then some full_dst else none;
          weights = weights;
          build_gcn_norm = build_gcn_norm;
        }
        partition_slices F degrees hm gid_to_pos inputs ranges (empty_partition build_gcn_norm)

  abbrev no_tensor : Tensor
  no_tensor = record { is_cuda = false; elems = [] }

  abbrev no_weights : Weights F
  no_weights = record { is_cuda = false; elems = [] }

  unfoldable pub build_partition_topology : SliceTensors → Tensor → Result (Partition F.Float)
  unfolding build_partition_topology_impl
  build_partition_topology x time_ptr_2 =
      build_partition_topology_impl x time_ptr_2 no_tensor no_weights false false

  unfoldable pub build_partition_topology_full :
      SliceTensors → Tensor → Tensor → Result (Partition F.Float)
  unfolding build_partition_topology_impl
  build_partition_topology_full x time_ptr_2 full_dst_ids =
      build_partition_topology_impl x time_ptr_2 full_dst_ids no_weights true false

  unfoldable pub build_partition_topology_with_norm :
      SliceTensors → Tensor → Weights F → Bool → Result (Partition F.Float)
  unfolding build_partition_topology_impl
  build_partition_topology_with_norm x time_ptr_2 edge_weight build_gcn_norm =
      build_partition_topology_impl x time_ptr_2 no_tensor edge_weight false build_gcn_norm

  unfoldable pub build_partition_topology_full_with_norm :
      SliceTensors → Tensor → Tensor → Weights F → Bool → Result (Partition F.Float)
  unfolding build_partition_topology_impl
  build_partition_topology_full_with_norm x time_ptr_2 full_dst_ids edge_weight build_gcn_norm =
      build_partition_topology_impl x time_ptr_2 full_dst_ids edge_weight true build_gcn_norm
