-- ===== src/Native/Slice.antt =====
-- csrc/native_utils.cpp: `build_slice_topology_impl`, `build_slice_topology` and
-- `build_slice_topology_full`. An edge of the slice is its position's entries in the arrays; the
-- source sorts positions by these entries and reads them afterwards, which is to sort the entries.
pub mod Order
pub mod Rows
pub mod Laws
pub mod Total
use starrygl_tmp.Prelude.{
  read, ℕ, suc, ℤ, ltb_ℤ, ℤ-discrete, Bool, List, [], ◌∷◌, map, length, replicate, get_elem?, ite,
  Option, none, some, Result, ok, err, fault, runtime_error, or_err, traverse, to_index, ◌>>=◌,
  ◌>>◌,
}
use starrygl_tmp.Phmap.{HashMap}
use starrygl_tmp.Csc.{count_rows, accumulate}
use starrygl_tmp.Sort.{stable_sort, unique_runs}
use starrygl_tmp.Native.Tensor.{Tensor, contiguous_long_cpu}

pub record Edge : Type 0 where
  pub src : ℤ
  pub dst : ℤ
  pub gid : ℤ
  pub chunk : ℤ

-- The arrays of the graph.
pub record Graph : Type 0 where
  pub src : List ℤ
  pub dst : List ℤ
  pub edge_ids : List ℤ
  pub node_to_chunk : List ℤ

unfoldable pub read_edge : Graph → ℤ → Result Edge
unfolding read
read_edge g eid = do
  s ← read g.src eid
  d ← read g.dst eid
  i ← read g.edge_ids eid
  c ← read g.node_to_chunk d
  ok (record { src = s; dst = d; gid = i; chunk = c })

-- The comparison of `std::stable_sort`: by chunk, destination and edge id.
unfoldable pub edge_less : Edge → Edge → Bool
edge_less a b =
    ite (ℤ-discrete a.chunk b.chunk)
      (ite (ℤ-discrete a.dst b.dst) (ltb_ℤ a.gid b.gid) (ltb_ℤ a.dst b.dst)) (ltb_ℤ a.chunk b.chunk)

-- `sort`, `unique` and `erase`.
unfoldable pub sorted_unique : List ℤ → List ℤ
unfolding stable_sort unique_runs
sorted_unique ids = unique_runs ℤ-discrete (stable_sort ltb_ℤ ids)

module _ (hm : HashMap ℤ ℕ) where
  -- `for (i ...) rows.emplace(ids[i], base + i);`
  unfoldable pub emplace_rows : hm.Map → ℕ → List ℤ → hm.Map
  emplace_rows rows base [] = rows
  emplace_rows rows base (id ∷ ids) = emplace_rows (hm.emplace rows id base) (suc base) ids

  -- `remove_if` of the nodes that have a row.
  unfoldable pub without_rows : hm.Map → List ℤ → List ℤ
  without_rows rows [] = []
  without_rows rows (id ∷ ids) = elim (hm.find rows id) [
    | none ↦ id ∷ without_rows rows ids
    | some _ ↦ without_rows rows ids
  ]

  -- The two rows of an edge, `(edge_src, edge_dst)`.
  unfoldable pub edge_rows : hm.Map → hm.Map → Edge → Result (ℕ × ℕ)
  edge_rows dst_row src_tail_row e = do
    drow ← or_err (hm.find dst_row e.dst) runtime_error
    elim (hm.find dst_row e.src) [
      | some srow ↦ ok (srow, drow)
      | none ↦ do srow ← or_err (hm.find src_tail_row e.src) runtime_error; ok (srow, drow)
    ]

pub record Topology : Type 0 where
  pub src_ids : List ℤ
  pub dst_ids : List ℤ
  pub gids : List ℤ
  pub edge_src : List ℕ
  pub edge_dst : List ℕ
  pub edge_ptr : List ℕ
  pub dst_chunk : List ℤ

module _ (hm : HashMap ℤ ℕ) where
  -- From the sorted edges and the destination ids on.
  unfoldable pub build_topology : List ℤ → List Edge → List ℤ → Result Topology
  unfolding sorted_unique read emplace_rows without_rows edge_rows count_rows accumulate traverse
  build_topology chunks ordered dst_ids = do
    let dst_row = emplace_rows hm hm.empty 0 dst_ids
    let src_ids = without_rows hm dst_row (sorted_unique (map (λ (e : Edge). e.src) ordered))
    let src_tail_row = emplace_rows hm hm.empty (length dst_ids) src_ids
    rows ← traverse (edge_rows hm dst_row src_tail_row) ordered
    dst_chunk ← traverse (read chunks) dst_ids
    ok (record {
      src_ids = src_ids;
      dst_ids = dst_ids;
      gids = map (λ (e : Edge). e.gid) ordered;
      edge_src = map (λ (r : ℕ × ℕ). r.0) rows;
      edge_dst = map (λ (r : ℕ × ℕ). r.1) rows;
      edge_ptr =
          accumulate 0
            (count_rows (replicate (suc (length dst_ids)) 0) (map (λ (r : ℕ × ℕ). r.1) rows));
      dst_chunk = dst_chunk;
    })

  -- `full` is the array of destination ids, if the caller fixes them.
  unfoldable pub build_slice_topology_impl : Graph → List ℤ → Option (List ℤ) → Result Topology
  unfolding read_edge edge_less stable_sort sorted_unique build_topology traverse
  build_slice_topology_impl g eids full = do
    edges ← traverse (read_edge g) eids
    let ordered = stable_sort edge_less edges
    build_topology g.node_to_chunk ordered
        (elim full [ some ids ↦ ids | none ↦ sorted_unique (map (λ (e : Edge). e.dst) ordered) ])

-- The tensors that are given with the slice.
pub record SliceTensors : Type 0 where
  pub eids : Tensor
  pub src : Tensor
  pub dst : Tensor
  pub edge_ids : Tensor
  pub node_to_chunk : Tensor

unfoldable pub read_graph : SliceTensors → Result Graph
unfolding contiguous_long_cpu
read_graph x = do
  s ← contiguous_long_cpu x.src
  d ← contiguous_long_cpu x.dst
  gids ← contiguous_long_cpu x.edge_ids
  chunks ← contiguous_long_cpu x.node_to_chunk
  ok (record { src = s; dst = d; edge_ids = gids; node_to_chunk = chunks })

module _ (hm : HashMap ℤ ℕ) where
  unfoldable pub build_slice_topology : SliceTensors → Result Topology
  unfolding read_graph build_slice_topology_impl contiguous_long_cpu
  build_slice_topology x = do
    e ← contiguous_long_cpu x.eids
    g ← read_graph x
    build_slice_topology_impl hm g e none

  unfoldable pub build_slice_topology_full : SliceTensors → Tensor → Result Topology
  unfolding read_graph build_slice_topology_impl contiguous_long_cpu
  build_slice_topology_full x full_dst_ids = do
    e ← contiguous_long_cpu x.eids
    g ← read_graph x
    full_dst ← contiguous_long_cpu full_dst_ids
    build_slice_topology_impl hm g e (some full_dst)
