-- ===== src/Sampler/Layer/Laws.antt =====
-- Samples go back in time, layer by layer.
use native.Mathlib.Nat.{mul-suc}
use starrygl_tmp.Prelude.{
  ℕ, zero, suc, ◌+◌, ◌*◌, ◌≤◌, ℤ, ltb_ℤ, true, List, [], ◌∷◌, ◌++◌, map, length, length-append,
  get_elem?, some, ok, fault, or_err, >>=-eq-ok, ok_inj, ◌≡◌, ◌≢◌, refl, ap, arith,
}
use starrygl_tmp.Sort.Laws.{IsSorted}
use starrygl_tmp.Sampler.Draw.{History, Sample, Settings, weighted, dtdg_uniform, sample_node}
use starrygl_tmp.Sampler.Draw.Range.{All, All-map}
use starrygl_tmp.Sampler.Draw.Causal.{sample_node-earlier}
use starrygl_tmp.Sampler.Layer.{
  Tnb, history_of, sample_layer, sample_layers, neighbor_sample_from_nodes_with_before,
}

-- The neighbours of each node are in the order of time.
abbrev pub AreSorted : Tnb → Type 0
AreSorted tnb = (node : ℤ) (h : History) → history_of tnb node ≡ ok h → IsSorted ltb_ℤ h.timestamps

-- The sample belongs to the node at its `src_index`, counted from `i` on, and is of before its time.
abbrev pub IsEarlier : ℕ → List ℤ → Sample → Type 0
IsEarlier i times s =
    (k : ℕ) × (t : ℤ) × (s.src_index ≡ i + k) × (get_elem? times k ≡ some t) × (ltb_ℤ s.ts t ≡ true)

-- The blocks are samples for the nodes of the block before.
abbrev pub AreEarlier : List ℤ → List (List Sample) → Type 0
AreEarlier times [] = Unit {0}
AreEarlier times (block ∷ blocks) =
    All (IsEarlier 0 times) block × AreEarlier (map (λ (s : Sample). s.ts) block) blocks

pub All-append :
    {A : Type 0} (P : A → Type 0) (xs ys : List A) → All P xs → All P ys → All P (xs ++ ys)
All-append P [] ys h k = k
All-append P (x ∷ xs) ys (h, rest) k = (h, All-append P xs ys rest k)

module _ (x : Settings) (tnb : Tnb) (sorted : AreSorted tnb) (n : x.policy ≢ weighted)
    (m : x.policy ≢ dtdg_uniform) where
  sample_layer-IsEarlier :
      (fanout layer i : ℕ) (nodes times : List ℤ) (ss : List Sample)
      → sample_layer x tnb fanout layer i nodes times ≡ ok ss
      → (All (IsEarlier i times) ss) × (length ss ≤ fanout * length nodes)
  unfolding sample_layer
  sample_layer-IsEarlier fanout layer i [] times ss e = rw (← ok_inj e) (tt, omega arith)
  sample_layer-IsEarlier fanout layer i (node ∷ nodes) [] ss e = cc
  sample_layer-IsEarlier fanout layer i (node ∷ nodes) (t ∷ times) ss e =
      let (h, e0, e1) = >>=-eq-ok (history_of tnb node) _ e in
      let (here, e2, e3) = >>=-eq-ok (sample_node x fanout layer i h t) _ e1 in
      let (rest, e4, e5) = >>=-eq-ok (sample_layer x tnb fanout layer (suc i) nodes times) _ e3 in
      let (size, all) = sample_node-earlier x fanout layer i h t here n m (sorted node h e0) e2 in
      let (all', size') = sample_layer-IsEarlier fanout layer (suc i) nodes times rest e4 in
      rw (← ok_inj e5) (
        All-append (IsEarlier i (t ∷ times)) here rest
            (All-map (λ s (at, lt). (0, t, omega arith, refl, lt)) here all)
            (All-map (λ s (k, u, at, found, lt). (suc k, u, omega arith, found, lt)) rest all'),
        omega (arith, length-append here rest, mul-suc fanout (length nodes)),
      )

  sample_layers-AreEarlier :
      (fanouts : List ℕ) (num layer : ℕ) (nodes times : List ℤ) (blocks : List (List Sample))
      → sample_layers x tnb fanouts num layer nodes times ≡ ok blocks
      → (AreEarlier times blocks) × (length blocks ≡ num)
  unfolding sample_layers
  sample_layers-AreEarlier fanouts zero layer nodes times blocks e = rw (← ok_inj e) (tt, refl)
  sample_layers-AreEarlier fanouts (suc num) layer nodes times blocks e =
      let (fanout, _, e1) = >>=-eq-ok (or_err (get_elem? fanouts layer) fault) _ e in
      let (block, e2, e3) = >>=-eq-ok (sample_layer x tnb fanout layer 0 nodes times) _ e1 in
      let (rest, e4, e5) =
        >>=-eq-ok
          (sample_layers x tnb fanouts num (suc layer) (map (λ (s : Sample). s.node) block)
            (map (λ (s : Sample). s.ts) block))
          _ e3 in
      let (all, size) = sample_layers-AreEarlier fanouts num (suc layer) _ _ rest e4 in
      rw (← ok_inj e5)
        (((sample_layer-IsEarlier fanout layer 0 nodes times block e2).0, all), ap suc size)

  -- Where the neighbours of each node are in the order of time, and under every policy but the weighted
  -- one and `dtdg_uniform`, whenever `neighbor_sample_from_nodes_with_before` returns, it returns a block
  -- for each layer, in which every sample belongs to a root, or to a sample of the layer before, and is
  -- strictly earlier than that.
  pub neighbor_sample_from_nodes_with_before-AreEarlier :
      (fanouts : List ℕ) (num_layers : ℕ) (nodes root_ts : List ℤ) (blocks : List (List Sample))
      → neighbor_sample_from_nodes_with_before x tnb fanouts num_layers nodes root_ts ≡ ok blocks
      → (AreEarlier root_ts blocks) × (length blocks ≡ num_layers)
  unfolding neighbor_sample_from_nodes_with_before
  neighbor_sample_from_nodes_with_before-AreEarlier fanouts num_layers nodes root_ts blocks e =
      sample_layers-AreEarlier fanouts num_layers 0 nodes root_ts blocks e
