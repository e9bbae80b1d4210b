-- ===== src/Neighbors/Update.antt =====
-- sampler/include/neighbors.h: `update_edge_weight` and `update_all_node_weight`. AT_ASSERTM throws
-- `torch_check`.
pub mod Laws
use starrygl_tmp.Prelude.{
  ℕ, zero, suc, ◌-◌, ◌<◌, ℤ, pos, Bool, true, false, not, List, [], ◌∷◌, ◌++◌, map, length,
  replicate, Option, none, some, if◌then◌else◌, Result, ok, err, fault, torch_check, throw_if,
  ◌>>=◌, ◌>>◌, or_err, read, write, push_at, push_all, ltb, ◌==◌, to_index, set, leb, traverse,
}
use mathlib.Core.Option
use starrygl_tmp.Phmap.{HashMap, HashSet}
use starrygl_tmp.Neighbors.Block.{TemporalNeighborBlock, empty}
use starrygl_tmp.Neighbors.Build.{has_value}

module _ (W : Type 0) (hm : HashMap ℤ ℕ) (hs : HashSet ℤ) where
  -- `edge_weight[node][index] = w;` of one row
  unfoldable pub write_weight : List (List W) → ℤ → ℕ → W → Result (List (List W))
  unfolding read write
  write_weight weights node index w = do
    row ← read weights node
    row' ← write row (pos index) w
    write weights node row'

  -- One turn of the loop of `update_edge_weight`; `key` is an edge id, or a source without edge ids.
  unfoldable pub set_edge_weight : List hm.Map → List (List W) → ℤ → ℤ → W → Result (List (List W))
  unfolding read write_weight
  set_edge_weight inverted_index weights node key w = do
    m ← read inverted_index node
    index ← or_err (hm.find m key) torch_check
    write_weight weights node index w

  unfoldable pub set_edge_weights :
      List hm.Map → List (List W) → List ℤ → List ℤ → List W → Result (List (List W))
  unfolding set_edge_weight
  set_edge_weights inverted_index weights [] keys ws = ok weights
  set_edge_weights inverted_index weights (d ∷ dst) [] ws = err fault
  set_edge_weights inverted_index weights (d ∷ dst) (k ∷ keys) [] = err fault
  set_edge_weights inverted_index weights (d ∷ dst) (k ∷ keys) (w ∷ ws) = do
    weights' ← set_edge_weight inverted_index weights d k w
    set_edge_weights inverted_index weights' dst keys ws

  abbrev pub with_weights :
      TemporalNeighborBlock W hm hs → List (List W) → TemporalNeighborBlock W hm hs
  with_weights tnb weights = record {
    neighbors = tnb.neighbors;
    timestamp = tnb.timestamp;
    eid = tnb.eid;
    dist_eid = tnb.dist_eid;
    edge_weight = weights;
    inverted_index = tnb.inverted_index;
    deg = tnb.deg;
    neighbors_set = tnb.neighbors_set;
    with_eid = tnb.with_eid;
    with_dist_eid = tnb.with_dist_eid;
    weighted = tnb.weighted;
    with_timestamp = tnb.with_timestamp;
  }

  unfoldable pub update_edge_weight :
      TemporalNeighborBlock W hm hs
      → List ℤ
      → List ℤ
      → List W
      → Result (TemporalNeighborBlock W hm hs)
  unfolding set_edge_weights
  update_edge_weight tnb row_or_eid col edge_weight = do
    throw_if (not tnb.weighted) torch_check
    weights ← set_edge_weights tnb.inverted_index tnb.edge_weight col row_or_eid edge_weight
    ok (with_weights tnb weights)

  -- `edge_weight[i][j] = nw[neighbors[i][j]]` for each neighbour `j` of the node `i`.
  unfoldable pub node_weights : List W → List ℤ → List W → Result (List W)
  unfolding read
  node_weights nw [] row = ok row
  node_weights nw (j ∷ neighbors) [] = do _ ← read nw j; err fault
  node_weights nw (j ∷ neighbors) (old ∷ row) = do
    w ← read nw j
    row' ← node_weights nw neighbors row
    ok (w ∷ row')

  unfoldable pub all_node_weights : List W → List (List ℤ) → List (List W) → Result (List (List W))
  unfolding node_weights
  all_node_weights nw [] weights = ok weights
  all_node_weights nw (neighbors ∷ rest) [] = elim neighbors [
    | [] ↦ all_node_weights nw rest []
    | j ∷ _ ↦ do _ ← read nw j; err fault
  ]
  all_node_weights nw (neighbors ∷ rest) (row ∷ weights) = do
    row' ← node_weights nw neighbors row
    weights' ← all_node_weights nw rest weights
    ok (row' ∷ weights')

  unfoldable pub update_all_node_weight :
      TemporalNeighborBlock W hm hs → List W → Result (TemporalNeighborBlock W hm hs)
  unfolding all_node_weights
  update_all_node_weight tnb node_weight = do
    throw_if (not tnb.weighted) torch_check
    throw_if (not (length node_weight == length tnb.neighbors)) torch_check
    weights ← all_node_weights node_weight tnb.neighbors tnb.edge_weight
    ok (with_weights tnb weights)
