-- ===== src/Sampler/Dtdg/Laws.antt =====
-- Every sample of a slice is of the time of the slice, in all layers.
use mathlib.Core.Path.{subst}
use starrygl_tmp.Prelude.{
  ℕ, zero, suc, ◌==◌, ℤ, pos, ◌+ℤ◌, ◌-ℤ◌, Bool, not, List, [], ◌∷◌, map, length, replicate,
  get_elem?, some, ok, fault, torch_check, throw_if, or_err, >>=-eq-ok, ok_inj, ◌≡◌, ◌≢◌, refl, ap,
  ◌∙◌,
}
use starrygl_tmp.Phmap.{HashMap}
use starrygl_tmp.Sampler.Draw.{Sample, Settings, weighted, dtdg_uniform, sample_node}
use starrygl_tmp.Sampler.Draw.Range.{All, All-map}
use starrygl_tmp.Sampler.Draw.Causal.{sample_node-causal}
use starrygl_tmp.Sampler.Layer.{
  Tnb, history_of, sample_layer, sample_layers, neighbor_sample_from_nodes_with_before,
}
use starrygl_tmp.Sampler.Layer.Laws.{AreSorted, All-append}
use starrygl_tmp.Sampler.Output.{NodeInstanceKey, get_sampling_output}
use starrygl_tmp.Sampler.Dtdg.{
  with_dtdg_uniform, SliceOutput, sample_slice, sample_slices, sample_dtdg_uniform,
}

abbrev IsAt : ℤ → Sample → Type 0
IsAt t s = s.ts ≡ t

dtdg_uniform-ne-weighted : dtdg_uniform ≢ weighted
dtdg_uniform-ne-weighted e = cc

module _ (x : Settings) (tnb : Tnb) (sorted : AreSorted tnb) (t : ℤ) where
  sample_layer-IsAt :
      (fanout layer i : ℕ) (nodes times : List ℤ) (ss : List Sample)
      → All (λ u. u ≡ t) times
      → sample_layer (with_dtdg_uniform x) tnb fanout layer i nodes times ≡ ok ss
      → All (IsAt t) ss
  unfolding sample_layer
  sample_layer-IsAt fanout layer i [] times ss at e = subst (All (IsAt t)) (ok_inj e) tt
  sample_layer-IsAt fanout layer i (node ∷ nodes) [] ss at e = cc
  sample_layer-IsAt fanout layer i (node ∷ nodes) (u ∷ times) ss (here, later) e =
      let (h, e0, e1) = >>=-eq-ok (history_of tnb node) _ e in
      let (drawn, e2, e3) = >>=-eq-ok (sample_node (with_dtdg_uniform x) fanout layer i h u) _ e1 in
      let (rest, e4, e5) =
        >>=-eq-ok (sample_layer (with_dtdg_uniform x) tnb fanout layer (suc i) nodes times) _ e3 in
      let (size, all) =
        sample_node-causal (with_dtdg_uniform x) fanout layer i h u drawn dtdg_uniform-ne-weighted
          (sorted node h e0) e2 in
      subst (All (IsAt t)) (ok_inj e5) (
        All-append (IsAt t) drawn rest
          (All-map (λ s (cid, at, earlier, same). same refl ∙ here) drawn all)
          (sample_layer-IsAt fanout layer (suc i) nodes times rest later e4))

  times-IsAt :
      (ss : List Sample) → All (IsAt t) ss → All (λ u. u ≡ t) (map (λ (s : Sample). s.ts) ss)
  times-IsAt [] h = tt
  times-IsAt (s ∷ ss) (h, rest) = (h, times-IsAt ss rest)

  sample_layers-IsAt :
      (fanouts : List ℕ) (n layer : ℕ) (nodes times : List ℤ) (blocks : List (List Sample))
      → All (λ u. u ≡ t) times
      → sample_layers (with_dtdg_uniform x) tnb fanouts n layer nodes times ≡ ok blocks
      → All (All (IsAt t)) blocks
  unfolding sample_layers
  sample_layers-IsAt fanouts zero layer nodes times blocks at e =
      subst (All (All (IsAt t))) (ok_inj e) tt
  sample_layers-IsAt fanouts (suc n) layer nodes times blocks at e =
      let (fanout, _, e1) = >>=-eq-ok (or_err (get_elem? fanouts layer) fault) _ e in
      let (block, e2, e3) =
        >>=-eq-ok (sample_layer (with_dtdg_uniform x) tnb fanout layer 0 nodes times) _ e1 in
      let (rest, e4, e5) =
        >>=-eq-ok
          (sample_layers (with_dtdg_uniform x) tnb fanouts n (suc layer)
            (map (λ (s : Sample). s.node) block) (map (λ (s : Sample). s.ts) block))
          _ e3 in
      let all = sample_layer-IsAt fanout layer 0 nodes times block at e2 in
      subst (All (All (IsAt t))) (ok_inj e5)
        (all, sample_layers-IsAt fanouts n (suc layer) _ _ rest (times-IsAt block all) e4)

replicate-IsAt : (n : ℕ) (t : ℤ) → All (λ u. u ≡ t) (replicate n t)
replicate-IsAt zero t = tt
replicate-IsAt (suc n) t = (refl, replicate-IsAt n t)

module _ (hn : HashMap NodeInstanceKey ℕ) (he : HashMap ℤ ℕ) where
  -- The outputs are of the slices from `slice` on, in order.
  abbrev pub AreSlices : ℤ → List (SliceOutput hn he) → Type 0
  AreSlices slice [] = Unit {0}
  AreSlices slice (out ∷ outs) = All (All (IsAt slice)) out.blocks × AreSlices (slice +ℤ pos 1) outs

  module _ (x : Settings) (tnb : Tnb) (sorted : AreSorted tnb) (fanouts : List ℕ)
      (num_layers num_edges : ℕ) (root_nodes : List ℤ) where
    sample_slices-AreSlices :
        (n : ℕ) (slice : ℤ) (outs : List (SliceOutput hn he))
        → sample_slices hn he x tnb fanouts num_layers num_edges root_nodes n slice ≡ ok outs
        → (AreSlices slice outs) × (length outs ≡ n)
    unfolding sample_slices sample_slice neighbor_sample_from_nodes_with_before
    sample_slices-AreSlices zero slice outs e =
        subst (λ outs. (AreSlices slice outs) × (length outs ≡ 0)) (ok_inj e) (tt, refl)
    sample_slices-AreSlices (suc n) slice outs e =
        let (out, e1, e2) =
          >>=-eq-ok (sample_slice hn he x tnb fanouts num_layers num_edges root_nodes slice) _ e in
        let (rest, e3, e4) =
          >>=-eq-ok
            (sample_slices hn he x tnb fanouts num_layers num_edges root_nodes n (slice +ℤ pos 1)) _
            e2 in
        let root_ts = replicate (length root_nodes) slice in
        let (blocks, e5, e6) =
          >>=-eq-ok
            (sample_layers (with_dtdg_uniform x) tnb fanouts num_layers 0 root_nodes root_ts) _
            e1 in
        let (output, _, e7) =
          >>=-eq-ok (get_sampling_output hn he num_edges blocks root_nodes (some root_ts)) _ e6 in
        let all =
          sample_layers-IsAt x tnb sorted slice fanouts num_layers 0 root_nodes root_ts blocks
            (replicate-IsAt (length root_nodes) slice) e5 in
        let here : All (All (IsAt slice)) out.blocks =
          subst (λ (o : SliceOutput hn he). All (All (IsAt slice)) o.blocks) (ok_inj e7) all in
        let (later, size) = sample_slices-AreSlices n (slice +ℤ pos 1) rest e3 in
        subst (λ outs. (AreSlices slice outs) × (length outs ≡ suc n)) (ok_inj e4)
          ((here, later), ap suc size)

    -- Where the neighbours of each node are in the order of time and `sample_dtdg_uniform` returns, it
    -- returns one output for each of the `num_hist` slices up to `t_now`, and every edge that was
    -- sampled for a slice, in any layer, is of exactly the time of the slice.
    pub sample_dtdg_uniform-AreSlices :
        (with_timestamp : Bool) (t_now : ℤ) (num_hist : ℕ) (outs : List (SliceOutput hn he))
        → sample_dtdg_uniform hn he with_timestamp x tnb fanouts num_layers num_edges root_nodes
            t_now num_hist
          ≡ ok outs
        → (AreSlices (t_now -ℤ pos num_hist +ℤ pos 1) outs) × (length outs ≡ num_hist)
    unfolding sample_dtdg_uniform
    sample_dtdg_uniform-AreSlices with_timestamp t_now num_hist outs e =
        let (_, _, e1) = >>=-eq-ok (throw_if (not with_timestamp) torch_check) _ e in
        let (_, _, e2) = >>=-eq-ok (throw_if (num_hist == 0) torch_check) _ e1 in
        sample_slices-AreSlices num_hist (t_now -ℤ pos num_hist +ℤ pos 1) outs e2
