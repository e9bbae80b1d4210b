-- ===== src/Sampler/Layer/Total.antt =====
-- Sampling layer by layer returns on a store whose lists are aligned.
use starrygl_tmp.Prelude.{
  ℕ, zero, suc, ◌+◌, ◌≤◌, ◌<◌, ℤ, pos, List, [], ◌∷◌, ◌++◌, map, length, length-map, get_elem?,
  get_or, some, ok, fault, or_err, read, ◌>>=◌, >>=-eq-ok, ok_inj, IsOk, IsOk→value, ◌≡◌, ◌≢◌, refl,
  ap, ◌∙◌, arith, Option-cases, inl, inr, get_elem?-of-lt, row_of,
}
use starrygl_tmp.Sampler.Draw.{History, Sample, Settings, weighted, sample_at}
use starrygl_tmp.Sampler.Draw.Range.{All, All-map}
use starrygl_tmp.Sampler.Draw.Causal.{sample_node-policy}
use starrygl_tmp.Sampler.Draw.Total.{AreAligned, sample_node-IsOk}
use starrygl_tmp.Sampler.Layer.{
  Tnb, history_of, sample_layer, sample_layers, neighbor_sample_from_nodes_with_before,
}
use starrygl_tmp.Sampler.Layer.Laws.{All-append}

abbrev pub IsNode : Tnb → ℤ → Type 0
IsNode tnb u = (n : ℕ) × (u ≡ pos n) × (n < length tnb.neighbors)

abbrev pub history_at : Tnb → ℕ → History
history_at tnb v = record {
  neighbors = row_of tnb.neighbors v;
  timestamps = row_of tnb.timestamp v;
  edge_ids = row_of tnb.eid v;
}

-- Every node has lists of one length, and every neighbour is a node.
pub record IsStore (tnb : Tnb) : Type 0 where
  pub timestamp : length tnb.timestamp ≡ length tnb.neighbors
  pub eid : length tnb.eid ≡ length tnb.neighbors
  pub aligned : (v : ℕ) → AreAligned (history_at tnb v)
  pub nodes : (v cid : ℕ) (u : ℤ) → get_elem? (row_of tnb.neighbors v) cid ≡ some u → IsNode tnb u

sample_at-node :
    (h : History) (rtts : ℤ) (i cid : ℕ) (s : Sample)
    → sample_at h rtts i cid ≡ ok s
    → get_elem? h.neighbors cid ≡ some s.node
unfolding sample_at
sample_at-node h rtts i cid s e =
    let (node, found, e1) = >>=-eq-ok (or_err (get_elem? h.neighbors cid) fault) _ e in
    let (ts, _, e2) = >>=-eq-ok (or_err (get_elem? h.timestamps cid) fault) _ e1 in
    let (eid, _, e3) = >>=-eq-ok (or_err (get_elem? h.edge_ids cid) fault) _ e2 in
    elim (Option-cases (get_elem? h.neighbors cid)) [
      | inl missing ↦ cc (rw missing at found)
      | inr (u, there) ↦
          there ∙ ap some (ok_inj (rw there at found) ∙ ap (λ (s : Sample). s.node) (ok_inj e3))
    ]

module _ (x : Settings) (tnb : Tnb) (store : IsStore tnb) (n : x.policy ≢ weighted) where
  history_of-node :
      (v : ℕ) → v < length tnb.neighbors → history_of tnb (pos v) ≡ ok (history_at tnb v)
  unfolding history_of read
  history_of-node v lt = rw (
    get_elem?-of-lt tnb.neighbors v [] lt,
    ◌>>=◌,
    get_elem?-of-lt tnb.timestamp v [] (omega (arith, store.timestamp)),
    get_elem?-of-lt tnb.eid v [] (omega (arith, store.eid)),
  )

  sample_layer-IsOk :
      (fanout layer i : ℕ) (nodes times : List ℤ)
      → All (IsNode tnb) nodes
      → length nodes ≤ length times
      → (ss : List Sample) × (sample_layer x tnb fanout layer i nodes times ≡ ok ss)
        × All (λ (s : Sample). IsNode tnb s.node) ss
  unfolding sample_layer
  sample_layer-IsOk fanout layer i [] times inside long = ([], refl, tt)
  sample_layer-IsOk fanout layer i (node ∷ nodes) [] inside long = elim long [ ]
  sample_layer-IsOk fanout layer i (node ∷ nodes) (t ∷ times) ((v, is, lt), inside) long =
      let h = history_at tnb v in
      let found : history_of tnb node ≡ ok h = ap (history_of tnb) is ∙ history_of-node v lt in
      let (drawn, e) = IsOk→value _ (sample_node-IsOk h (store.aligned v) t i x fanout layer n) in
      let (rest, f, later) =
        sample_layer-IsOk fanout layer (suc i) nodes times inside (omega arith) in
      let (all, _) = sample_node-policy x fanout layer i h t x.policy drawn n e in
      (
        drawn ++ rest,
        rw (found, ◌>>=◌, e, f),
        All-append (λ (s : Sample). IsNode tnb s.node) drawn rest
            (All-map (λ s (cid, _, _, at). store.nodes v cid s.node (sample_at-node h t i cid s at))
              drawn all)
            later,
      )

  map-IsNode :
      (ss : List Sample)
      → All (λ (s : Sample). IsNode tnb s.node) ss
      → All (IsNode tnb) (map (λ (s : Sample). s.node) ss)
  map-IsNode [] h = tt
  map-IsNode (s ∷ ss) (h, rest) = (h, map-IsNode ss rest)

  sample_layers-IsOk :
      (fanouts : List ℕ) (num layer : ℕ) (nodes times : List ℤ)
      → All (IsNode tnb) nodes
      → length nodes ≤ length times
      → layer + num ≤ length fanouts
      → IsOk (sample_layers x tnb fanouts num layer nodes times)
  unfolding sample_layers
  sample_layers-IsOk fanouts zero layer nodes times inside long enough = tt
  sample_layers-IsOk fanouts (suc num) layer nodes times inside long enough =
      let fanout = get_or fanouts layer 0 in
      let here = get_elem?-of-lt fanouts layer 0 (omega arith) in
      let (block, e, all) = sample_layer-IsOk fanout layer 0 nodes times inside long in
      let (rest, f) = IsOk→value _ (
        sample_layers-IsOk fanouts num (suc layer) (map (λ (s : Sample). s.node) block)
          (map (λ (s : Sample). s.ts) block) (map-IsNode block all)
          (omega (
            arith,
            length-map block (λ (s : Sample). s.node),
            length-map block (λ (s : Sample). s.ts),
          ))
          (omega arith)) in
      rw (here, ◌>>=◌, e, f) tt

  -- On a store in which every node has lists of one length and every neighbour is a node, for roots that
  -- are nodes, each with a time, and with a fanout for each layer, `neighbor_sample_from_nodes_with_before`
  -- returns under every policy but the weighted one.
  pub neighbor_sample_from_nodes_with_before-IsOk :
      (fanouts : List ℕ) (num_layers : ℕ) (nodes root_ts : List ℤ)
      → All (IsNode tnb) nodes
      → length nodes ≤ length root_ts
      → num_layers ≤ length fanouts
      → IsOk (neighbor_sample_from_nodes_with_before x tnb fanouts num_layers nodes root_ts)
  unfolding neighbor_sample_from_nodes_with_before
  neighbor_sample_from_nodes_with_before-IsOk fanouts num_layers nodes root_ts inside long enough =
      sample_layers-IsOk fanouts num_layers 0 nodes root_ts inside long (omega arith)
