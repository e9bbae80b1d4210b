-- ===== src/Neighbors/Block.antt =====
-- sampler/include/neighbors.h: `TemporalNeighborBlock`.
use starrygl_tmp.Prelude.{ℕ, ℤ, Bool, true, false, List, [], ◌∷◌, Result, read}
use starrygl_tmp.Phmap.{HashMap, HashSet}

module _ (W : Type 0) (hm : HashMap ℤ ℕ) (hs : HashSet ℤ) where
  pub record TemporalNeighborBlock : Type 0 where
    pub neighbors : List (List ℤ)
    pub timestamp : List (List ℤ)
    pub eid : List (List ℤ)
    pub dist_eid : List (List ℤ)
    pub edge_weight : List (List W)
    -- of each node, the position of a neighbour or an edge id among its neighbours
    pub inverted_index : List hm.Map
    pub deg : List ℕ
    pub neighbors_set : List hs.Elems
    pub with_eid : Bool
    pub with_dist_eid : Bool
    pub weighted : Bool
    pub with_timestamp : Bool

  -- The constructor without arguments.
  abbrev pub empty_block : TemporalNeighborBlock
  empty_block = record {
    neighbors = [];
    timestamp = [];
    eid = [];
    dist_eid = [];
    edge_weight = [];
    inverted_index = [];
    deg = [];
    neighbors_set = [];
    with_eid = false;
    with_dist_eid = false;
    weighted = false;
    with_timestamp = false;
  }

  unfoldable pub get_node_neighbor : TemporalNeighborBlock → ℤ → Result (List ℤ)
  unfolding read
  get_node_neighbor tnb node_id = read tnb.neighbors node_id

  unfoldable pub get_node_neighbor_timestamp : TemporalNeighborBlock → ℤ → Result (List ℤ)
  unfolding read
  get_node_neighbor_timestamp tnb node_id = read tnb.timestamp node_id

  unfoldable pub get_node_deg : TemporalNeighborBlock → ℤ → Result ℕ
  unfolding read
  get_node_deg tnb node_id = read tnb.deg node_id

  unfoldable pub empty : TemporalNeighborBlock → Bool
  empty tnb = elim tnb.deg [ [] ↦ true | _ ∷ _ ↦ false ]
