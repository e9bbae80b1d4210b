-- ===== src/Sampler/Output.antt =====
-- sampler.h: `get_sampling_output`, which numbers the nodes and edges of the sampled blocks and builds
-- the matrix of each block. output.h: `NativeMfgBlock` and `NativeSamplingOutput`. The read layout of
-- the edges, which the function calls at its end, is not part of this file.
pub mod Laws
pub mod Linked
use starrygl_tmp.Prelude.{
  ℕ, zero, suc, ◌+◌, ◌≤◌, ltb, leb, ℤ, pos, ℤ-discrete, Bool, true, false, not, List, [], ◌∷◌, ◌++◌,
  map, length, replicate, set, get_elem?, get_or, Option, none, some, if◌then◌else◌, Result, ok,
  err, fault, torch_check, throw_if, or_err, ◌>>=◌, ◌>>◌, traverse, to_index, ap, ◌==◌, ite,
}
use mathlib.Core.Option
use starrygl_tmp.Phmap.{HashMap}
use starrygl_tmp.Intern.{Table, empty_table, intern, intern_all}
use starrygl_tmp.Csc.{count_rows, accumulate}
use starrygl_tmp.Sampler.Draw.{Sample}

pub record NodeInstanceKey : Type 0 where
  pub node : ℤ
  pub ts : ℤ

unfoldable pub NodeInstanceKey-discrete : Discrete NodeInstanceKey
unfolding ℤ-discrete
NodeInstanceKey-discrete a b = elim (ℤ-discrete a.node b.node) [
  | no n ↦ no (λ e. n (ap (λ (k : NodeInstanceKey). k.node) e))
  | yes p ↦ elim (ℤ-discrete a.ts b.ts) [
    | no n ↦ no (λ e. n (ap (λ (k : NodeInstanceKey). k.ts) e))
    | yes q ↦ yes (λ i. record { node = p i; ts = q i })
  ]
]

pub record NativeMfgBlock : Type 0 where
  pub layer : ℕ
  pub dst_lids : List ℕ
  pub src_lids : List ℕ
  pub csc_indptr : List ℕ
  pub csc_indices : List ℕ
  pub edge_lids : List ℕ
  pub delta_t : List ℤ
  pub dst_begin : ℕ
  pub dst_end : ℕ

-- The edges that have a number: `edge_lid_dense` by edge id, where `none` is -1, and the ids and times
-- by number.
pub record EdgeTable : Type 0 where
  pub edge_lid_dense : List (Option ℕ)
  pub edge_gids : List ℤ
  pub edge_ts : List ℤ

-- `add_edge`
unfoldable pub add_edge : EdgeTable → ℤ → ℤ → Result (EdgeTable × ℕ)
add_edge t gid ts = elim (to_index gid) [
  | none ↦ err torch_check
  | some n ↦ do
    cached ← or_err (get_elem? t.edge_lid_dense n) torch_check
    let lid = length t.edge_gids
    ok (elim cached [
      | some old ↦ (t, old)
      | none ↦ (
        record {
          edge_lid_dense = set t.edge_lid_dense n (some lid);
          edge_gids = t.edge_gids ++ gid ∷ [];
          edge_ts = t.edge_ts ++ ts ∷ [];
        },
        lid,
      )
    ])
]

unfoldable pub add_edges : EdgeTable → List (ℤ × ℤ) → Result (EdgeTable × List ℕ)
unfolding add_edge
add_edges t [] = ok (t, [])
add_edges t ((gid, ts) ∷ edges) = do
  (t', lid) ← add_edge t gid ts
  (t'', lids) ← add_edges t' edges
  ok (t'', lid ∷ lids)

-- The entries of a matrix and the next free place of each column, while it is filled.
pub record Filling : Type 0 where
  pub cursor : List ℕ
  pub csc_indices : List ℕ
  pub edge_lids : List ℕ
  pub delta_t : List ℤ

-- An entry of a block with the numbers of its node and its edge.
pub record Entry : Type 0 where
  pub dst_pos : ℕ
  pub src_lid : ℕ
  pub edge_lid : ℕ
  pub delta : ℤ

-- One turn of the loop that fills the matrix; `offset = cursor[dst_pos]++`.
unfoldable pub fill_entry : ℕ → Filling → Entry → Filling
fill_entry num_dst f e =
    if leb num_dst e.dst_pos
    then f
    else (let offset = get_or f.cursor e.dst_pos 0 in
        record {
          cursor = set f.cursor e.dst_pos (suc offset);
          csc_indices = set f.csc_indices offset e.src_lid;
          edge_lids = set f.edge_lids offset e.edge_lid;
          delta_t = set f.delta_t offset e.delta;
        })

unfoldable pub fill_entries : ℕ → Filling → List Entry → Filling
unfolding fill_entry
fill_entries num_dst f [] = f
fill_entries num_dst f (e ∷ es) = fill_entries num_dst (fill_entry num_dst f e) es

unfoldable pub entries_of : List Sample → List ℕ → List ℕ → List Entry
entries_of (s ∷ block) (src ∷ srcs) (edge ∷ edges) =
    record { dst_pos = s.src_index; src_lid = src; edge_lid = edge; delta = s.delta }
    ∷ entries_of block srcs edges
entries_of _ _ _ = []

-- `std::iota` from 0.
unfoldable pub iota : ℕ → ℕ → List ℕ
iota start zero = []
iota start (suc n) = start ∷ iota (suc start) n

abbrev pub key_of : Sample → NodeInstanceKey
key_of s = record { node = s.node; ts = s.ts }

-- The times of the edges that are new in a block, in the order of their numbers in it: the first
-- sample with the edge gives the time.
unfoldable pub first_times : List ℤ → List Sample → List (ℤ × ℤ)
first_times [] block = []
first_times (gid ∷ gids) block = (gid, time_of gid block) ∷ first_times gids block
  where
    time_of : ℤ → List Sample → ℤ
    time_of gid [] = pos 0
    time_of gid (s ∷ rest) = let later = time_of gid rest in ite (ℤ-discrete s.eid gid) s.ts later

module _ (hn : HashMap NodeInstanceKey ℕ) (he : HashMap ℤ ℕ) where
  -- What the loop over the layers keeps.
  pub record Numbering : Type 0 where
    pub nodes : Table hn
    pub edges : EdgeTable
    pub frontier_lids : List ℕ

  -- One turn of the loop over the layers. Nodes and edges are numbered within the block first.
  unfoldable pub output_layer :
      ℕ → ℕ → ℕ → Numbering → List Sample → Result (NativeMfgBlock × Numbering)
  unfolding intern_all add_edges fill_entries entries_of iota first_times count_rows accumulate
      traverse
  output_layer layer dst_begin dst_end s block = do
    let num_dst = length s.frontier_lids
    let edge_count = length block
    let (local_nodes, edge_to_local_node) = intern_all hn (empty_table hn) (map key_of block)
    let (local_edges, edge_to_local_edge) =
        intern_all he (empty_table he) (map (λ (s : Sample). s.eid) block)
    let (nodes, local_node_lids) = intern_all hn s.nodes local_nodes.unique
    (edges, local_edge_lids) ← add_edges s.edges (first_times local_edges.unique block)
    src_lids ← traverse (λ i. or_err (get_elem? local_node_lids i) fault) edge_to_local_node
    edge_lids ← traverse (λ i. or_err (get_elem? local_edge_lids i) fault) edge_to_local_edge
    let indptr =
        accumulate 0
          (count_rows (replicate (suc num_dst) 0) (map (λ (s : Sample). s.src_index) block))
    let start : Filling = record {
      cursor = indptr;
      csc_indices = replicate edge_count 0;
      edge_lids = replicate edge_count 0;
      delta_t = replicate edge_count (pos 0);
    }
    let filled = fill_entries num_dst start (entries_of block src_lids edge_lids)
    ok (
      record {
        layer = layer;
        dst_lids = s.frontier_lids;
        src_lids = iota 0 (length nodes.unique);
        csc_indptr = indptr;
        csc_indices = filled.csc_indices;
        edge_lids = filled.edge_lids;
        delta_t = filled.delta_t;
        dst_begin = dst_begin;
        dst_end = dst_end;
      },
      record { nodes = nodes; edges = edges; frontier_lids = src_lids },
    )

  -- The layers from `layer` on. `node_layer_ptr` grows by the number of nodes after each.
  unfoldable pub output_layers :
      ℕ
      → List ℕ
      → Numbering
      → List (List Sample)
      → Result (List NativeMfgBlock × List ℕ × List ℕ × Numbering)
  unfolding output_layer
  output_layers layer node_layer_ptr s [] = ok ([], [], [], s)
  output_layers layer node_layer_ptr s (block ∷ blocks) = do
    let dst_begin = if layer == 0 then 0 else get_or node_layer_ptr layer 0
    (mfg, s') ← output_layer layer dst_begin (get_or node_layer_ptr (suc layer) 0) s block
    let count = length s'.nodes.unique
    (mfgs, node_ptr, edge_ptr, s'') ←
        output_layers (suc layer) (node_layer_ptr ++ count ∷ []) s' blocks
    ok (mfg ∷ mfgs, count ∷ node_ptr, length s'.edges.edge_gids ∷ edge_ptr, s'')

  pub record NativeSamplingOutput : Type 0 where
    pub mfgs : List NativeMfgBlock
    -- `node_gids` and `node_ts`
    pub nodes : List NodeInstanceKey
    pub node_layer_ptr : List ℕ
    -- `root_gids` and `root_ts`
    pub roots : List NodeInstanceKey
    pub root_lids : List ℕ
    pub edge_gids : List ℤ
    pub edge_ts : List ℤ
    pub edge_layer_ptr : List ℕ

  unfoldable pub root_keys : List ℤ → Option (List ℤ) → Result (List NodeInstanceKey)
  root_keys nodes none = ok (map (λ gid. record { node = gid; ts = pos 0 }) nodes)
  root_keys [] (some times) = elim times [ [] ↦ ok [] | _ ∷ _ ↦ err torch_check ]
  root_keys (gid ∷ nodes) (some []) = err torch_check
  root_keys (gid ∷ nodes) (some (t ∷ times)) = do
    rest ← root_keys nodes (some times)
    ok (record { node = gid; ts = t } ∷ rest)

  -- `edge_lid_dense` is -1 everywhere when the function is called, and again when it returns.
  unfoldable pub get_sampling_output :
      ℕ → List (List Sample) → List ℤ → Option (List ℤ) → Result NativeSamplingOutput
  unfolding root_keys intern_all output_layers
  get_sampling_output num_edges ret root_nodes root_ts = do
    roots ← root_keys root_nodes root_ts
    let (nodes, root_lids) = intern_all hn (empty_table hn) roots
    let no_edges : EdgeTable = record {
      edge_lid_dense = replicate num_edges none;
      edge_gids = [];
      edge_ts = [];
    }
    let ptr = 0 ∷ length nodes.unique ∷ []
    let start : Numbering = record { nodes = nodes; edges = no_edges; frontier_lids = root_lids }
    (mfgs, node_ptr, edge_ptr, s) ← output_layers 0 ptr start ret
    ok (record {
      mfgs = mfgs;
      nodes = s.nodes.unique;
      node_layer_ptr = ptr ++ node_ptr;
      roots = roots;
      root_lids = root_lids;
      edge_gids = s.edges.edge_gids;
      edge_ts = s.edges.edge_ts;
      edge_layer_ptr = 0 ∷ edge_ptr;
    })
