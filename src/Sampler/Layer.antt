-- ===== src/Sampler/Layer.antt =====
-- sampler.h: `neighbor_sample_from_nodes_with_before_layer_data` and
-- `neighbor_sample_from_nodes_with_before`. The threads take blocks of consecutive nodes, and their
-- results are joined in the order of the threads: the samples are in the order of the nodes.
pub mod Laws
pub mod Total
use starrygl_tmp.Prelude.{
  ℕ, zero, suc, ◌+◌, ℤ, List, [], ◌∷◌, ◌++◌, map, get_elem?, Result, ok, err, fault, or_err, ◌>>=◌,
  read,
}
use starrygl_tmp.Sampler.Draw.{History, Sample, Settings, sample_node}

-- What a sampler reads of the `TemporalNeighborBlock`.
pub record Tnb : Type 0 where
  pub neighbors : List (List ℤ)
  pub timestamp : List (List ℤ)
  pub eid : List (List ℤ)

unfoldable pub history_of : Tnb → ℤ → Result History
unfolding read
history_of tnb node = do
  neighbors ← read tnb.neighbors node
  timestamps ← read tnb.timestamp node
  edge_ids ← read tnb.eid node
  ok (record { neighbors = neighbors; timestamps = timestamps; edge_ids = edge_ids })

-- The nodes of a layer from the position `i` on, each with its time.
unfoldable pub sample_layer : Settings → Tnb → ℕ → ℕ → ℕ → List ℤ → List ℤ → Result (List Sample)
unfolding history_of sample_node
sample_layer x tnb fanout layer i [] times = ok []
sample_layer x tnb fanout layer i (node ∷ nodes) [] = err fault
sample_layer x tnb fanout layer i (node ∷ nodes) (t ∷ times) = do
  h ← history_of tnb node
  here ← sample_node x fanout layer i h t
  rest ← sample_layer x tnb fanout layer (suc i) nodes times
  ok (here ++ rest)

-- The layers from `layer` on, `n` of them; each one samples for the nodes of the one before.
unfoldable pub sample_layers :
    Settings → Tnb → List ℕ → ℕ → ℕ → List ℤ → List ℤ → Result (List (List Sample))
unfolding sample_layer
sample_layers x tnb fanouts zero layer nodes times = ok []
sample_layers x tnb fanouts (suc n) layer nodes times = do
  fanout ← or_err (get_elem? fanouts layer) fault
  block ← sample_layer x tnb fanout layer 0 nodes times
  rest ←
      sample_layers x tnb fanouts n (suc layer) (map (λ (s : Sample). s.node) block)
        (map (λ (s : Sample). s.ts) block)
  ok (block ∷ rest)

-- `ret`, the block of each layer.
unfoldable pub neighbor_sample_from_nodes_with_before :
    Settings → Tnb → List ℕ → ℕ → List ℤ → List ℤ → Result (List (List Sample))
unfolding sample_layers
neighbor_sample_from_nodes_with_before x tnb fanouts num_layers nodes root_ts =
    sample_layers x tnb fanouts num_layers 0 nodes root_ts
