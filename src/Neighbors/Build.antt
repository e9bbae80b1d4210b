-- ===== src/Neighbors/Build.antt =====
-- sampler/include/neighbors.h: `get_neighbors`.
pub mod Laws
use starrygl_tmp.Prelude.{
  ℕ, zero, suc, ◌-◌, ℤ, Bool, true, false, List, [], ◌∷◌, ◌++◌, map, length, replicate, Option,
  none, some, if◌then◌else◌, Result, ok, err, fault, ◌>>=◌, read, write, push_at, push_all,
}
use mathlib.Core.Option
use starrygl_tmp.Phmap.{HashMap, HashSet}
use starrygl_tmp.Neighbors.Block.{TemporalNeighborBlock}

-- The arrays of the edges; `row` are the sources, `col` the destinations.
pub record Edges (W : Type 0) : Type 0 where
  pub row : List ℤ
  pub col : List ℤ
  pub eid : Option (List ℤ)
  pub dist_eid : Option (List ℤ)
  pub edge_weight : Option (List W)
  pub time : Option (List ℤ)

abbrev pub has_value : {A : Type 0} → Option A → Bool
has_value none = false
has_value (some _) = true

-- An optional array, sorted into the rows of the destinations.
unfoldable pub optional_rows :
    {A : Type 0} → ℕ → ℕ → List ℤ → Option (List A) → Result (List (List A))
unfolding push_all
optional_rows edge_num num_nodes dst none = ok []
optional_rows edge_num num_nodes dst (some xs) = push_all edge_num (replicate num_nodes []) dst xs

module _ (hm : HashMap ℤ ℕ) where
  -- `inverted_index[dst][key] = neighbors[dst].size() - 1;` The neighbours are complete by then.
  unfoldable pub index_edges :
      ℕ → List hm.Map → List (List ℤ) → List ℤ → List ℤ → Result (List hm.Map)
  unfolding read write
  index_edges zero index neighbors dst keys = ok index
  index_edges (suc n) index neighbors [] keys = err fault
  index_edges (suc n) index neighbors (d ∷ dst) [] = err fault
  index_edges (suc n) index neighbors (d ∷ dst) (k ∷ keys) = do
    row ← read neighbors d
    m ← read index d
    index' ← write index d (hm.assign m k (length row - 1))
    index_edges n index' neighbors dst keys

module _ (hs : HashSet ℤ) where
  unfoldable pub set_of : hs.Elems → List ℤ → hs.Elems
  set_of s [] = s
  set_of s (x ∷ xs) = set_of (hs.insert s x) xs

module _ (W : Type 0) (hm : HashMap ℤ ℕ) where
  -- The index of a graph with weights; another graph has none.
  unfoldable pub inverted_rows :
      ℕ → ℕ → List (List ℤ) → List ℤ → List ℤ → Option (List W) → Result (List hm.Map)
  unfolding index_edges
  inverted_rows edge_num num_nodes neighbors dst keys none = ok []
  inverted_rows edge_num num_nodes neighbors dst keys (some _) =
      index_edges hm edge_num (replicate num_nodes hm.empty) neighbors dst keys

module _ (W : Type 0) (hm : HashMap ℤ ℕ) (hs : HashSet ℤ) where
  unfoldable pub build_neighbors : Edges W → ℕ → Bool → Result (TemporalNeighborBlock W hm hs)
  unfolding push_all optional_rows inverted_rows set_of
  build_neighbors x num_nodes is_distinct = do
    let edge_num = length x.row
    neighbors ← push_all edge_num (replicate num_nodes []) x.col x.row
    eid ← optional_rows edge_num num_nodes x.col x.eid
    dist_eid ← optional_rows edge_num num_nodes x.col x.dist_eid
    edge_weight ← optional_rows edge_num num_nodes x.col x.edge_weight
    inverted_index ←
        inverted_rows W hm edge_num num_nodes neighbors x.col (Option.get_or x.eid x.row)
          x.edge_weight
    timestamp ← optional_rows edge_num num_nodes x.col x.time
    ok (record {
      neighbors = neighbors;
      timestamp = timestamp;
      eid = eid;
      dist_eid = dist_eid;
      edge_weight = edge_weight;
      inverted_index = inverted_index;
      deg = map (λ (r : List ℤ). length r) neighbors;
      neighbors_set = if is_distinct then map (set_of hs hs.none_in) neighbors else [];
      with_eid = has_value x.eid;
      with_dist_eid = has_value x.dist_eid;
      weighted = has_value x.edge_weight;
      with_timestamp = has_value x.time;
    })

  -- A graph that has been built under the name is returned as it is; `tnb_map` is the argument `graphs`.
  unfoldable pub get_neighbors :
      {Name : Type 0}
      → (tnb_map : HashMap Name (TemporalNeighborBlock W hm hs)) → tnb_map.Map
      → Name
      → Edges W
      → ℕ
      → Bool
      → Result (tnb_map.Map × TemporalNeighborBlock W hm hs)
  unfolding build_neighbors
  get_neighbors tnb_map graphs graph_name x num_nodes is_distinct =
      elim (tnb_map.find graphs graph_name) [
        | some tnb ↦ ok (graphs, tnb)
        | none ↦ do
          tnb ← build_neighbors x num_nodes is_distinct
          ok (tnb_map.assign graphs graph_name tnb, tnb)
      ]
