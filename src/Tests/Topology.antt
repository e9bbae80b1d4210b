-- ===== src/Tests/Topology.antt =====
-- csrc/native_utils.cpp, slices and partitions on small inputs.
use starrygl_tmp.Prelude.{
  ℕ, ℤ, pos, ltb_ℤ, ℤ-discrete, true, List, [], ◌∷◌, ◌≡◌, refl, ok, IsOk, IsOk-traverse, arith,
  ℕ_discrete, none, some, map, get_elem?, traverse, ◌==◌, max, ◌+◌, ◌*◌, ◌/◌,
}
use mathlib.Core.List.{Perm}
use starrygl_tmp.Phmap.Assoc.{assoc_map}
use starrygl_tmp.Phmap.{HashMap}
use starrygl_tmp.Sort.{stable_sort}
use starrygl_tmp.Sort.Laws.{IsSorted, stable_sort-IsSorted}
use starrygl_tmp.Sort.Lex.{ltb_ℤ-IsStrictTotal}
use starrygl_tmp.Native.Slice.{
  Edge, Graph, Topology, read_edge, edge_less, emplace_rows, build_slice_topology_impl,
}
use starrygl_tmp.Native.Slice.Laws.{Represents, build_slice_topology_impl-Represents}
use starrygl_tmp.Native.Slice.Total.{build_slice_topology_impl-IsOk}
use starrygl_tmp.Native.Partition.{
  Floats, Inputs, Partition, Slice, slice_edges, partition_slice, partition_slices, empty_partition,
}
use starrygl_tmp.Native.Partition.Laws.{HasSlice, partition_slices-HasSlice, partition_slice-events}
use starrygl_tmp.Native.Partition.Ranges.{within, slice_edges-within}

abbrev rows : HashMap ℤ ℕ
rows = assoc_map ℤ-discrete

-- Three edges between four nodes, which belong to two chunks.
abbrev graph : Graph
graph = record {
  src = pos 3 ∷ pos 0 ∷ pos 1 ∷ [];
  dst = pos 0 ∷ pos 2 ∷ pos 0 ∷ [];
  edge_ids = pos 10 ∷ pos 11 ∷ pos 9 ∷ [];
  node_to_chunk = pos 1 ∷ pos 0 ∷ pos 0 ∷ pos 1 ∷ [];
}

abbrev eids : List ℤ
eids = pos 0 ∷ pos 1 ∷ pos 2 ∷ []

-- Node 2 of chunk 0 comes first; nodes 0 and 2 are destinations, and 1 and 3 only sources.
abbrev topology : Topology
topology = record {
  src_ids = pos 1 ∷ pos 3 ∷ [];
  dst_ids = pos 0 ∷ pos 2 ∷ [];
  gids = pos 11 ∷ pos 9 ∷ pos 10 ∷ [];
  edge_src = 0 ∷ 2 ∷ 3 ∷ [];
  edge_dst = 1 ∷ 0 ∷ 0 ∷ [];
  edge_ptr = 0 ∷ 2 ∷ 3 ∷ [];
  dst_chunk = pos 1 ∷ pos 0 ∷ [];
}

build_slice_topology_impl_run : build_slice_topology_impl rows graph eids none ≡ ok topology
unfolding build_slice_topology_impl ℤ-discrete ℕ_discrete
build_slice_topology_impl_run = refl

build_slice_topology_impl-Represents_example :
    (edges : List Edge) × (ordered : List Edge) × (traverse (read_edge graph) eids ≡ ok edges)
    × (Perm ordered edges)
    × (IsSorted edge_less ordered)
    × (Represents topology ordered)
build_slice_topology_impl-Represents_example =
    build_slice_topology_impl-Represents rows graph eids none topology build_slice_topology_impl_run

all_readable : IsOk (traverse (read_edge graph) eids)
unfolding traverse read_edge
all_readable = tt

build_slice_topology_impl-IsOk_example : IsOk (build_slice_topology_impl rows graph eids none)
build_slice_topology_impl-IsOk_example =
    build_slice_topology_impl-IsOk rows graph eids
      (IsOk-traverse (read_edge graph) eids all_readable)

-- Whole numbers in place of floating point ones.
abbrev floats : Floats
floats = record {
  Double = ℕ;
  Float = ℕ;
  zero_double = 0;
  one = 1;
  epsilon = 1;
  add = ◌+◌;
  max_double = max;
  mul = ◌*◌;
  div = ◌/◌;
  sqrt = λ x. x;
  is_zero = λ x. x == 0;
  is_finite = λ x. true;
  to_float = λ x. x;
}

abbrev inputs : Inputs floats
inputs = record {
  graph = graph;
  sorted_edges = eids;
  full_dst = none;
  weights = none;
  build_gcn_norm = true;
}

abbrev gid_to_pos : List (ℤ × ℕ)
gid_to_pos = emplace_rows rows [] 0 (pos 10 ∷ pos 11 ∷ pos 9 ∷ [])

-- The times of the two slices; the second is empty.
abbrev ranges : List (ℤ × ℤ)
ranges = (pos 0, pos 3) ∷ (pos 3, pos 3) ∷ []

abbrev whole : Slice ℕ
whole = record { topology = topology; event_pos = 1 ∷ 2 ∷ 0 ∷ []; norm = 1 ∷ 0 ∷ 0 ∷ [] }

partition_slice_run :
    partition_slice floats (assoc_map ℤ-discrete) rows gid_to_pos inputs (pos 0, pos 3) ≡ ok whole
unfolding partition_slice emplace_rows ℤ-discrete ℕ_discrete
partition_slice_run = refl

partition_slice-events_example :
    map (get_elem? (pos 10 ∷ pos 11 ∷ pos 9 ∷ [])) (1 ∷ 2 ∷ 0 ∷ [])
    ≡ map some (pos 11 ∷ pos 9 ∷ pos 10 ∷ [])
partition_slice-events_example =
    partition_slice-events floats (assoc_map ℤ-discrete) rows inputs (pos 0, pos 3) whole
      partition_slice_run

abbrev partition : Partition ℕ
partition = record {
  src = record { elems = pos 1 ∷ pos 3 ∷ []; ptr = 0 ∷ 2 ∷ 2 ∷ [] };
  dst = record { elems = pos 0 ∷ pos 2 ∷ []; ptr = 0 ∷ 2 ∷ 2 ∷ [] };
  edge_id = record { elems = pos 11 ∷ pos 9 ∷ pos 10 ∷ []; ptr = 0 ∷ 3 ∷ 3 ∷ [] };
  event_pos = record { elems = 1 ∷ 2 ∷ 0 ∷ []; ptr = 0 ∷ 3 ∷ 3 ∷ [] };
  edge_src = record { elems = 0 ∷ 2 ∷ 3 ∷ []; ptr = 0 ∷ 3 ∷ 3 ∷ [] };
  edge_dst = record { elems = 1 ∷ 0 ∷ 0 ∷ []; ptr = 0 ∷ 3 ∷ 3 ∷ [] };
  edge_ptr = record { elems = 0 ∷ 2 ∷ 3 ∷ 0 ∷ []; ptr = 0 ∷ 3 ∷ 4 ∷ [] };
  dst_chunk = record { elems = pos 1 ∷ pos 0 ∷ []; ptr = 0 ∷ 2 ∷ 2 ∷ [] };
  combined = record { elems = pos 0 ∷ pos 2 ∷ pos 1 ∷ pos 3 ∷ []; ptr = 0 ∷ 4 ∷ 4 ∷ [] };
  gcn_norm = some (record { elems = 1 ∷ 0 ∷ 0 ∷ []; ptr = 0 ∷ 3 ∷ 3 ∷ [] });
}

partition_slices_run :
    partition_slices floats
      (assoc_map ℤ-discrete)
      rows
      gid_to_pos
      inputs
      ranges
      (empty_partition true)
    ≡ ok partition
unfolding partition_slices emplace_rows ℤ-discrete ℕ_discrete
partition_slices_run = refl

partition_slices-HasSlice_example :
    (ss : List (Slice ℕ)) × (traverse
        (partition_slice floats (assoc_map ℤ-discrete) rows gid_to_pos inputs)
        ranges
      ≡ ok ss)
    × ((i : ℕ) (s : Slice ℕ) → get_elem? ss i ≡ some s → HasSlice partition i s)
partition_slices-HasSlice_example =
    partition_slices-HasSlice floats (assoc_map ℤ-discrete) rows gid_to_pos inputs ranges partition
      partition_slices_run

abbrev times : List ℤ
times = stable_sort ltb_ℤ (pos 7 ∷ pos 2 ∷ pos 5 ∷ pos 2 ∷ [])

slice_edges-within_example : slice_edges times (pos 2) (pos 7) ≡ ok (within (pos 2) (pos 7) times)
slice_edges-within_example =
    slice_edges-within (pos 2) (pos 7) times (omega arith)
      (stable_sort-IsSorted ltb_ℤ ltb_ℤ-IsStrictTotal.weak (pos 7 ∷ pos 2 ∷ pos 5 ∷ pos 2 ∷ []))
