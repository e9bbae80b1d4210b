-- ===== src/Tests/Neighbors.antt =====
-- sampler/include/neighbors.h and head.h on small inputs.

use mathlib.Core.Path.{subst}
use starrygl_tmp.Prelude.{
  ℕ, zero, suc, length, ◌<◌, ℤ, pos, ℤ-discrete, true, false, List, [], ◌∷◌, map, get_elem?, get_or,
  none, some, ◌≡◌, ◌≢◌, refl, sym, ap, ◌∙◌, ok, err, char_pointer, ok_inj, row_of, arith,
  ℕ_discrete,
}
use starrygl_tmp.Phmap.{HashMap, HashSet}
use starrygl_tmp.Phmap.Assoc.{assoc_map, list_set}
use starrygl_tmp.Neighbors.Block.{TemporalNeighborBlock}
use starrygl_tmp.Neighbors.Build.{Edges, get_neighbors}
use starrygl_tmp.Neighbors.Build.Laws.{
  AreEdges, IsBlockOf, IsLast, get_neighbors-IsBlockOf, get_neighbors_again,
}
use starrygl_tmp.Neighbors.Update.{update_edge_weight, update_all_node_weight, with_weights}
use starrygl_tmp.Neighbors.Update.Laws.{
  lookup, update_edge_weight-IsLast, update_all_node_weight-lookup,
}
use starrygl_tmp.Neighbors.Extend.{update_neighbors_with_time}
use starrygl_tmp.Neighbors.Extend.Laws.{update_neighbors_with_time-nil}
use starrygl_tmp.Head.{node_id_to_part_id, node_id_to_in_out, divide_nodes_to_part}
use starrygl_tmp.Head.Divide.{nodes_of, divide_nodes_to_part-perm}
use mathlib.Core.List.{Perm}
use starrygl_tmp.Head.Laws.{node_id_to_part_id-first}

abbrev index : HashMap ℤ ℕ
index = assoc_map ℤ-discrete

abbrev nodes : HashSet ℤ
nodes = list_set ℤ-discrete

abbrev Block : Type 0
Block = TemporalNeighborBlock ℕ index nodes

abbrev graphs : HashMap ℕ Block
graphs = assoc_map ℕ_discrete

-- Two edges into node 0 and one into node 2.
abbrev edges : Edges ℕ
edges = record {
  row = pos 1 ∷ pos 0 ∷ pos 2 ∷ [];
  col = pos 0 ∷ pos 2 ∷ pos 0 ∷ [];
  eid = some (pos 10 ∷ pos 11 ∷ pos 12 ∷ []);
  dist_eid = none;
  edge_weight = some (5 ∷ 6 ∷ 7 ∷ []);
  time = some (pos 1 ∷ pos 2 ∷ pos 3 ∷ []);
}

abbrev block : Block
block = record {
  neighbors = (pos 1 ∷ pos 2 ∷ []) ∷ [] ∷ (pos 0 ∷ []) ∷ [];
  timestamp = (pos 1 ∷ pos 3 ∷ []) ∷ [] ∷ (pos 2 ∷ []) ∷ [];
  eid = (pos 10 ∷ pos 12 ∷ []) ∷ [] ∷ (pos 11 ∷ []) ∷ [];
  dist_eid = [];
  edge_weight = (5 ∷ 7 ∷ []) ∷ [] ∷ (6 ∷ []) ∷ [];
  inverted_index = ((pos 12, 1) ∷ (pos 10, 1) ∷ []) ∷ [] ∷ ((pos 11, 0) ∷ []) ∷ [];
  deg = 2 ∷ 0 ∷ 1 ∷ [];
  neighbors_set = (pos 2 ∷ pos 1 ∷ []) ∷ [] ∷ (pos 0 ∷ []) ∷ [];
  with_eid = true;
  with_dist_eid = false;
  weighted = true;
  with_timestamp = true;
}

get_neighbors_run :
    get_neighbors ℕ index nodes graphs [] 7 edges 3 true ≡ ok ((7, block) ∷ [], block)
unfolding get_neighbors ℤ-discrete ℕ_discrete
get_neighbors_run = refl

edges-AreEdges : AreEdges edges 3
edges-AreEdges = record {
  inside = (omega arith, (omega arith, (omega arith, tt)));
  eid = omega arith;
  dist_eid = tt;
  edge_weight = omega arith;
  time = omega arith;
}

get_neighbors-IsBlockOf_example :
    (tnb : Block) × (get_neighbors ℕ index nodes graphs [] 7 edges 3 true ≡ ok ((7, tnb) ∷ [], tnb))
    × (IsBlockOf ℕ index nodes edges 3 tnb)
    × ((v : ℕ) → IsLast index tnb.inverted_index tnb.neighbors v)
get_neighbors-IsBlockOf_example =
    get_neighbors-IsBlockOf ℕ index nodes graphs [] 7 edges 3 true refl edges-AreEdges

get_neighbors_again_example :
    get_neighbors ℕ index nodes graphs ((7, block) ∷ []) 7 edges 0 false
    ≡ ok ((7, block) ∷ [], block)
get_neighbors_again_example =
    get_neighbors_again ℕ index nodes graphs [] 7 edges edges 3 0 true false ((7, block) ∷ []) block
      get_neighbors_run

block-IsLast : (v : ℕ) → IsLast index block.inverted_index block.neighbors v
block-IsLast =
    let (tnb, built, _, last) =
      get_neighbors-IsBlockOf ℕ index nodes graphs [] 7 edges 3 true refl edges-AreEdges in
    let same : tnb ≡ block =
      ap (λ (r : graphs.Map × Block). r.1) (ok_inj (sym built ∙ get_neighbors_run)) in
    subst (λ (t : Block). (v : ℕ) → IsLast index t.inverted_index t.neighbors v) same last

-- The weight 9 is meant for the edge 10, whose position is 0.
abbrev updated : Block
updated = with_weights ℕ index nodes block ((5 ∷ 9 ∷ []) ∷ [] ∷ (6 ∷ []) ∷ [])

update_edge_weight_run :
    update_edge_weight ℕ index nodes block (pos 10 ∷ []) (pos 0 ∷ []) (9 ∷ []) ≡ ok updated
unfolding update_edge_weight ℤ-discrete ℕ_discrete
update_edge_weight_run = refl

update_edge_weight-IsLast_example :
    (get_elem? (row_of updated.edge_weight 0) 1 ≡ some 9)
    × ((v j : ℕ) (default : ℕ)
        → (v ≡ 0 → j ≢ 1)
        → get_or (row_of updated.edge_weight v) j default
          ≡ get_or (row_of block.edge_weight v) j default)
update_edge_weight-IsLast_example =
    update_edge_weight-IsLast ℕ index nodes block updated 0 (pos 10) 9 block-IsLast
      update_edge_weight_run

update_all_node_weight-lookup_example :
    (weights : List (List ℕ)) × (update_all_node_weight ℕ index nodes block (4 ∷ 3 ∷ 8 ∷ [])
      ≡ ok (with_weights ℕ index nodes block weights))
    × (map (map some) weights ≡ map (map (lookup (4 ∷ 3 ∷ 8 ∷ []))) block.neighbors)
update_all_node_weight-lookup_example =
    update_all_node_weight-lookup ℕ index nodes block (4 ∷ 3 ∷ 8 ∷ []) refl refl
      ((omega arith, (omega arith, tt)), (tt, ((omega arith, tt), tt))) refl

-- A block without nodes that has times.
abbrev no_nodes : Block
no_nodes = record {
  neighbors = [];
  timestamp = [];
  eid = [];
  dist_eid = [];
  edge_weight = [];
  inverted_index = [];
  deg = [];
  neighbors_set = [];
  with_eid = true;
  with_dist_eid = false;
  weighted = false;
  with_timestamp = true;
}

abbrev nothing : List ℤ
nothing = []

update_neighbors_with_time_run :
    update_neighbors_with_time ℕ index nodes no_nodes [] [] [] [] true none ≡ ok (no_nodes, 0)
unfolding update_neighbors_with_time
update_neighbors_with_time_run = refl

update_neighbors_with_time-nil_example : nothing ≡ []
update_neighbors_with_time-nil_example =
    update_neighbors_with_time-nil ℕ index nodes no_nodes nothing [] [] [] true none (no_nodes, 0)
      (omega arith) (omega arith) update_neighbors_with_time_run

abbrev part_ptr : List ℤ
part_ptr = pos 0 ∷ pos 4 ∷ pos 9 ∷ []

node_id_to_part_id_run : node_id_to_part_id (pos 5) part_ptr ≡ ok 1
unfolding node_id_to_part_id
node_id_to_part_id_run = refl

node_id_to_part_id-first_example :
    ((p : ℕ)
      → node_id_to_part_id (pos 5) part_ptr ≡ ok p
      → (node_id_to_in_out (pos 5) (pos p) part_ptr ≡ ok 0)
        × ((q : ℕ) → q < p → node_id_to_in_out (pos 5) (pos q) part_ptr ≡ ok 1))
    × (node_id_to_part_id (pos 5) part_ptr ≡ err char_pointer
        → (q : ℕ) → q < 2
        → node_id_to_in_out (pos 5) (pos q) part_ptr ≡ ok 1)
node_id_to_part_id-first_example = node_id_to_part_id-first (pos 5) (pos 0) (pos 4 ∷ pos 9 ∷ [])

-- The iterations 1 and 2 are of the second thread.
abbrev thread_at : ℕ → ℕ
thread_at zero = 0
thread_at (suc zero) = 1
thread_at (suc (suc zero)) = 1
thread_at (suc (suc (suc i))) = 0

thread_at-lt : (j : ℕ) → thread_at j < 2
thread_at-lt zero = omega arith
thread_at-lt (suc zero) = omega arith
thread_at-lt (suc (suc zero)) = omega arith
thread_at-lt (suc (suc (suc i))) = omega arith

abbrev scattered : List ℤ
scattered = pos 3 ∷ pos 7 ∷ pos 1 ∷ pos 8 ∷ []

abbrev gathered : List (List ℤ)
gathered = (pos 3 ∷ pos 1 ∷ []) ∷ (pos 8 ∷ pos 7 ∷ []) ∷ []

divide_nodes_to_part_run : divide_nodes_to_part thread_at 2 scattered part_ptr ≡ ok gathered
unfolding divide_nodes_to_part
divide_nodes_to_part_run = refl

divide_nodes_to_part-perm_example :
    (length gathered ≡ 2)
    × ((pid : ℕ) → pid < 2 → Perm (row_of gathered pid) (nodes_of part_ptr pid scattered))
divide_nodes_to_part-perm_example =
    divide_nodes_to_part-perm thread_at 2 scattered (pos 0) (pos 4 ∷ pos 9 ∷ []) gathered
      thread_at-lt divide_nodes_to_part_run
