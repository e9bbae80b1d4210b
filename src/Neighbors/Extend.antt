-- ===== src/Neighbors/Extend.antt =====
-- sampler/include/neighbors.h: `update_neighbors_with_time`. AT_ASSERTM throws `torch_check`.
pub mod Laws
use starrygl_tmp.Prelude.{
  ℕ, zero, suc, ◌-◌, ◌<◌, ℤ, pos, negsuc, ltb_ℤ, Bool, true, false, not, List, [], ◌∷◌, ◌++◌,
  length, replicate, Option, none, some, if◌then◌else◌, Result, ok, err, fault, torch_check,
  throw_if, ◌>>=◌, ◌>>◌, or_err, read, write, push_at, leb, pos_part,
}
use mathlib.Core.Option
use starrygl_tmp.Phmap.{HashMap, HashSet}
use starrygl_tmp.Neighbors.Block.{TemporalNeighborBlock, empty}
use starrygl_tmp.Neighbors.Build.{has_value}

-- An edge that is added: an entry of each of the arrays.
pub record Event (W : Type 0) : Type 0 where
  pub src : ℤ
  pub dst : ℤ
  pub time : ℤ
  pub eid : ℤ
  pub weight : Option W

-- The entries `i` of the arrays, for `i` from 0 to the size of `row`.
unfoldable pub events :
    {W : Type 0} → List ℤ → List ℤ → List ℤ → List ℤ → Option (List W) → Result (List (Event W))
events [] col time eid ew = ok []
events (s ∷ row) [] time eid ew = err fault
events (s ∷ row) (d ∷ col) [] eid ew = err fault
events (s ∷ row) (d ∷ col) (t ∷ time) [] ew = err fault
events (s ∷ row) (d ∷ col) (t ∷ time) (e ∷ eid) (some []) = err fault
events (s ∷ row) (d ∷ col) (t ∷ time) (e ∷ eid) (some (w ∷ ew)) = do
  rest ← events row col time eid (some ew)
  ok (record { src = s; dst = d; time = t; eid = e; weight = some w } ∷ rest)
events (s ∷ row) (d ∷ col) (t ∷ time) (e ∷ eid) none = do
  rest ← events row col time eid none
  ok (record { src = s; dst = d; time = t; eid = e; weight = none } ∷ rest)

-- `v.resize(n, a)` to a size that is not smaller.
unfoldable pub resize : {A : Type 0} → List A → ℕ → A → List A
resize xs n a = xs ++ replicate (n - length xs) a

module _ (W : Type 0) (hm : HashMap ℤ ℕ) (hs : HashSet ℤ) where
  -- Room for a node that is new; `num_nodes` is the number of nodes so far.
  unfoldable pub grow : TemporalNeighborBlock W hm hs → ℕ → ℤ → TemporalNeighborBlock W hm hs × ℕ
  unfolding resize
  grow tnb num_nodes (negsuc d) = (tnb, num_nodes)
  grow tnb num_nodes (pos d) =
      if leb num_nodes d
      then (
        record {
          neighbors = resize tnb.neighbors (suc d) [];
          timestamp = resize tnb.timestamp (suc d) [];
          eid = resize tnb.eid (suc d) [];
          dist_eid = tnb.dist_eid;
          edge_weight = if tnb.weighted then resize tnb.edge_weight (suc d) [] else tnb.edge_weight;
          inverted_index =
              if tnb.weighted
              then resize tnb.inverted_index (suc d) hm.empty
              else tnb.inverted_index;
          deg = resize tnb.deg (suc d) 0;
          neighbors_set = tnb.neighbors_set;
          with_eid = tnb.with_eid;
          with_dist_eid = tnb.with_dist_eid;
          weighted = tnb.weighted;
          with_timestamp = tnb.with_timestamp;
        },
        suc d,
      )
      else (tnb, num_nodes)

  -- The weight of the edge and its place in the index, `inverted_index[dst][key]`.
  unfoldable pub add_weight :
      TemporalNeighborBlock W hm hs
      → List (List ℤ)
      → Event W
      → ℤ
      → Result (List (List W) × List hm.Map)
  unfolding read write push_at
  add_weight tnb neighbors x key =
      if tnb.weighted
      then (do
        w ← or_err x.weight fault
        weights ← push_at tnb.edge_weight x.dst w
        row ← read neighbors x.dst
        m ← read tnb.inverted_index x.dst
        index ← write tnb.inverted_index x.dst (hm.assign m key (length row - 1))
        ok (weights, index))
      else ok (tnb.edge_weight, tnb.inverted_index)

  -- One turn of the loop with `is_distinct`, on a block that has room.
  unfoldable pub add_distinct :
      TemporalNeighborBlock W hm hs → Event W → Result (TemporalNeighborBlock W hm hs)
  unfolding read write push_at add_weight
  add_distinct tnb x = do
    neighbors ← push_at tnb.neighbors x.dst x.src
    eid ← push_at tnb.eid x.dst x.eid
    timestamp ← push_at tnb.timestamp x.dst x.time
    (weights, index) ← add_weight tnb neighbors x (if tnb.with_eid then x.eid else x.src)
    s ← read tnb.neighbors_set x.dst
    let s' = hs.insert s x.src
    sets ← write tnb.neighbors_set x.dst s'
    deg ← write tnb.deg x.dst (hs.size s')
    ok (record {
      neighbors = neighbors;
      timestamp = timestamp;
      eid = eid;
      dist_eid = tnb.dist_eid;
      edge_weight = weights;
      inverted_index = index;
      deg = deg;
      neighbors_set = sets;
      with_eid = tnb.with_eid;
      with_dist_eid = tnb.with_dist_eid;
      weighted = tnb.weighted;
      with_timestamp = tnb.with_timestamp;
    })

  -- One turn of the other loop, which makes no room and indexes by the source.
  unfoldable pub add_repeated :
      TemporalNeighborBlock W hm hs → Event W → Result (TemporalNeighborBlock W hm hs)
  unfolding read write push_at add_weight
  add_repeated tnb x = do
    neighbors ← push_at tnb.neighbors x.dst x.src
    eid ← push_at tnb.eid x.dst x.eid
    timestamp ← push_at tnb.timestamp x.dst x.time
    (weights, index) ← add_weight tnb neighbors x x.src
    row ← read neighbors x.dst
    deg ← write tnb.deg x.dst (length row)
    ok (record {
      neighbors = neighbors;
      timestamp = timestamp;
      eid = eid;
      dist_eid = tnb.dist_eid;
      edge_weight = weights;
      inverted_index = index;
      deg = deg;
      neighbors_set = tnb.neighbors_set;
      with_eid = tnb.with_eid;
      with_dist_eid = tnb.with_dist_eid;
      weighted = tnb.weighted;
      with_timestamp = tnb.with_timestamp;
    })

  unfoldable pub add_all_distinct :
      TemporalNeighborBlock W hm hs
      → ℕ
      → List (Event W)
      → Result (TemporalNeighborBlock W hm hs × ℕ)
  unfolding grow add_distinct
  add_all_distinct tnb num_nodes [] = ok (tnb, num_nodes)
  add_all_distinct tnb num_nodes (x ∷ xs) = do
    let (grown, n) = grow tnb num_nodes x.dst
    tnb' ← add_distinct grown x
    add_all_distinct tnb' n xs

  unfoldable pub add_all_repeated :
      TemporalNeighborBlock W hm hs → List (Event W) → Result (TemporalNeighborBlock W hm hs)
  unfolding add_repeated
  add_all_repeated tnb [] = ok tnb
  add_all_repeated tnb (x ∷ xs) = do tnb' ← add_repeated tnb x; add_all_repeated tnb' xs

  -- The block is updated in place, and the number of nodes is returned.
  unfoldable pub update_neighbors_with_time :
      TemporalNeighborBlock W hm hs
      → List ℤ
      → List ℤ
      → List ℤ
      → List ℤ
      → Bool
      → Option (List W)
      → Result (TemporalNeighborBlock W hm hs × ℕ)
  unfolding empty events add_all_distinct add_all_repeated
  update_neighbors_with_time tnb row col time eid is_distinct edge_weight = do
    throw_if (not (empty W hm hs tnb)) torch_check
    throw_if (not tnb.with_timestamp) torch_check
    throw_if (if has_value edge_weight then not tnb.weighted else false) torch_check
    throw_if (if tnb.weighted then not (has_value edge_weight) else false) torch_check
    xs ← events row col time eid edge_weight
    if is_distinct
        then add_all_distinct tnb (length tnb.neighbors) xs
        else (do tnb' ← add_all_repeated tnb xs; ok (tnb', length tnb.neighbors))
