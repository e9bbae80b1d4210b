-- ===== src/Sampler/Output/Linked.antt =====
-- The blocks of a sampling output are linked: what one block samples, the next one samples for.
use starrygl_tmp.Prelude.{
  ℕ, suc, ℤ, List, [], ◌∷◌, ◌++◌, map, length, get_or, Option, none, ok, >>=-eq-ok, ok_inj, ◌≡◌, ap,
  sym, ◌∙◌, IsDistinct, replicate, append-nil, append_assoc, if◌then◌else◌, ◌==◌,
}
use mathlib.Core.Path.{subst}
use starrygl_tmp.Phmap.{HashMap}
use starrygl_tmp.Intern.{empty_table, intern_all}
use starrygl_tmp.Intern.Laws.{
  IsIndexed, empty_table-IsIndexed, intern_all-IsIndexed, intern_all-rows,
}
use starrygl_tmp.Sampler.Draw.{Sample}
use starrygl_tmp.Sampler.Output.{
  NodeInstanceKey, NodeInstanceKey-discrete, NativeMfgBlock, EdgeTable, Numbering, key_of,
  output_layer, output_layers, NativeSamplingOutput, root_keys, get_sampling_output,
}
use starrygl_tmp.Sampler.Output.Laws.{StandFor, StandFor-append, CountsBlock, output_layer-StandFor}

module _ (hn : HashMap NodeInstanceKey ℕ) (he : HashMap ℤ ℕ) where
  -- The destinations of each matrix stand for what was sampled before, first of all `keys`, and its
  -- pointers count the entries of its block.
  abbrev pub AreLinked :
      List NodeInstanceKey
      → List NodeInstanceKey
      → List NativeMfgBlock
      → List (List Sample)
      → Type 0
  AreLinked nodes keys [] [] = Unit {0}
  AreLinked nodes keys [] (block ∷ blocks) = ⊥
  AreLinked nodes keys (mfg ∷ mfgs) [] = ⊥
  AreLinked nodes keys (mfg ∷ mfgs) (block ∷ blocks) =
      StandFor nodes mfg.dst_lids keys
      × CountsBlock hn he mfg block
      × AreLinked nodes (map key_of block) mfgs blocks

  output_layers-AreLinked :
      (layer : ℕ) (ptr : List ℕ) (s s' : Numbering hn he) (keys : List NodeInstanceKey)
      (blocks : List (List Sample)) (mfgs : List NativeMfgBlock) (node_ptr edge_ptr : List ℕ)
      → IsIndexed NodeInstanceKey-discrete hn s.nodes
      → StandFor s.nodes.unique s.frontier_lids keys
      → output_layers hn he layer ptr s blocks ≡ ok (mfgs, node_ptr, edge_ptr, s')
      → (IsIndexed NodeInstanceKey-discrete hn s'.nodes)
        × ((more : List NodeInstanceKey) × (s'.nodes.unique ≡ s.nodes.unique ++ more))
        × (AreLinked s'.nodes.unique keys mfgs blocks)
  unfolding output_layers
  output_layers-AreLinked layer ptr s s' keys [] mfgs node_ptr edge_ptr v front h =
      let same = ok_inj h in
      let state : s ≡ s' =
        ap (λ (r : List NativeMfgBlock × List ℕ × List ℕ × Numbering hn he). r.3) same in
      let none_left : [] ≡ mfgs =
        ap (λ (r : List NativeMfgBlock × List ℕ × List ℕ × Numbering hn he). r.0) same in
      (
        subst (λ (t : Numbering hn he). IsIndexed NodeInstanceKey-discrete hn t.nodes) state v,
        (
          [],
          ap (λ (t : Numbering hn he). t.nodes.unique) (sym state)
              ∙ sym (append-nil s.nodes.unique),
        ),
        subst (λ ms. AreLinked s'.nodes.unique keys ms []) none_left tt,
      )
  output_layers-AreLinked layer ptr s s' keys (block ∷ blocks) mfgs node_ptr edge_ptr v front h =
      let dst_begin = if layer == 0 then 0 else get_or ptr layer 0 in
      let (one, e1, h1) =
        >>=-eq-ok (output_layer hn he layer dst_begin (get_or ptr (suc layer) 0) s block) _ h in
      let next = one.1 in
      let count = length next.nodes.unique in
      let (rest, e2, h2) =
        >>=-eq-ok (output_layers hn he (suc layer) (ptr ++ count ∷ []) next blocks) _ h1 in
      let (v', front', (more, grown), dsts, counts) =
        output_layer-StandFor hn he layer dst_begin (get_or ptr (suc layer) 0) s next block (one.0)
          v e1 in
      let (v'', (more', grown'), linked) =
        output_layers-AreLinked (suc layer) (ptr ++ count ∷ []) next (rest.3) (map key_of block)
          blocks (rest.0) (rest.1) (rest.2) v' front' e2 in
      let same = ok_inj h2 in
      let state : rest.3 ≡ s' =
        ap (λ (r : List NativeMfgBlock × List ℕ × List ℕ × Numbering hn he). r.3) same in
      let all : one.0 ∷ rest.0 ≡ mfgs =
        ap (λ (r : List NativeMfgBlock × List ℕ × List ℕ × Numbering hn he). r.0) same in
      let extends : rest.3.nodes.unique ≡ s.nodes.unique ++ (more ++ more') =
        grown' ∙ ap (λ xs. xs ++ more') grown ∙ append_assoc s.nodes.unique more more' in
      let first : StandFor rest.3.nodes.unique (one.0).dst_lids keys =
        subst (λ lids. StandFor rest.3.nodes.unique lids keys) (sym dsts)
          (subst (λ nodes. StandFor nodes s.frontier_lids keys) (sym extends)
            (StandFor-append s.nodes.unique (more ++ more') s.frontier_lids keys front)) in
      (
        subst (λ (t : Numbering hn he). IsIndexed NodeInstanceKey-discrete hn t.nodes) state v'',
        (more ++ more', ap (λ (t : Numbering hn he). t.nodes.unique) (sym state) ∙ extends),
        subst (λ ms. AreLinked s'.nodes.unique keys ms (block ∷ blocks)) all
            (subst
              (λ (t : Numbering hn he).
                AreLinked t.nodes.unique keys (one.0 ∷ rest.0) (block ∷ blocks))
              state (first, counts, linked)),
      )

  -- Whenever `get_sampling_output` returns, no node instance has two numbers, the numbers of the roots
  -- stand for the roots, each matrix's destinations stand for the roots or for what the layer before
  -- sampled, in that order, and its pointers count the samples of each destination.
  pub get_sampling_output-AreLinked :
      (num_edges : ℕ) (ret : List (List Sample)) (root_nodes : List ℤ) (root_ts : Option (List ℤ))
      (out : NativeSamplingOutput hn he)
      → get_sampling_output hn he num_edges ret root_nodes root_ts ≡ ok out
      → (IsDistinct NodeInstanceKey-discrete out.nodes)
        × (StandFor out.nodes out.root_lids out.roots)
        × (AreLinked out.nodes out.roots out.mfgs ret)
        × (root_keys hn he root_nodes root_ts ≡ ok out.roots)
  unfolding get_sampling_output
  get_sampling_output-AreLinked num_edges ret root_nodes root_ts out h =
      let (roots, e1, h1) = >>=-eq-ok (root_keys hn he root_nodes root_ts) _ h in
      let numbered = intern_all hn (empty_table hn) roots in
      let no_edges : EdgeTable = record {
        edge_lid_dense = replicate num_edges none;
        edge_gids = [];
        edge_ts = [];
      } in
      let start : Numbering hn he = record {
        nodes = numbered.0;
        edges = no_edges;
        frontier_lids = numbered.1;
      } in
      let (rest, e2, h2) =
        >>=-eq-ok (output_layers hn he 0 (0 ∷ length numbered.0.unique ∷ []) start ret) _ h1 in
      let empty_v = empty_table-IsIndexed NodeInstanceKey-discrete hn in
      let rows = intern_all-rows NodeInstanceKey-discrete hn (empty_table hn) roots empty_v in
      let (v, (more, grown), linked) =
        output_layers-AreLinked 0 (0 ∷ length numbered.0.unique ∷ []) start (rest.3) roots ret
          (rest.0) (rest.1) (rest.2)
          (intern_all-IsIndexed NodeInstanceKey-discrete hn (empty_table hn) roots empty_v) rows
          e2 in
      let same = ok_inj h2 in
      let root_stand : StandFor rest.3.nodes.unique numbered.1 roots =
        subst (λ nodes. StandFor nodes numbered.1 roots) (sym grown)
          (StandFor-append numbered.0.unique more numbered.1 roots rows) in
      subst
        (λ (out : NativeSamplingOutput hn he).
          (IsDistinct NodeInstanceKey-discrete out.nodes)
          × (StandFor out.nodes out.root_lids out.roots)
          × (AreLinked out.nodes out.roots out.mfgs ret)
          × (root_keys hn he root_nodes root_ts ≡ ok out.roots))
        same (v.distinct, root_stand, linked, e1)
