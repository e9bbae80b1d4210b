-- ===== src/Sampler/Output/Laws.antt =====
-- The numbers in a sampling output stand for the node instances that were sampled.
use starrygl_tmp.Prelude.{
  ℕ, zero, suc, ◌≤◌, ℤ, List, [], ◌∷◌, ◌++◌, map, length, get_elem?, get_or, Option, none, some, ok,
  fault, or_err, traverse, >>=-eq-ok, ok_inj, map-traverse, ◌≡◌, refl, ap, ap₂, sym, ◌∙◌,
  get_elem?-append_left, lacking, first_occurrences,
}
use mathlib.Core.Path.{subst}
use starrygl_tmp.Phmap.{HashMap}
use starrygl_tmp.Intern.{Table, empty_table, intern_all}
use starrygl_tmp.Intern.Laws.{
  IsIndexed, empty_table-IsIndexed, intern_all-IsIndexed, intern_all-unique, intern_all-rows,
}
use starrygl_tmp.Csc.Laws.{count_below, accumulate-count_rows}
use starrygl_tmp.Sampler.Draw.{Sample}
use starrygl_tmp.Sampler.Output.{
  NodeInstanceKey, NodeInstanceKey-discrete, NativeMfgBlock, Numbering, key_of, first_times,
  add_edges, output_layer,
}

-- Numbers that stand for these keys.
abbrev pub StandFor : List NodeInstanceKey → List ℕ → List NodeInstanceKey → Type 0
StandFor nodes lids keys = map (get_elem? nodes) lids ≡ map some keys

pub StandFor-append :
    (nodes more : List NodeInstanceKey) (lids : List ℕ) (keys : List NodeInstanceKey)
    → StandFor nodes lids keys
    → StandFor (nodes ++ more) lids keys
StandFor-append nodes more [] [] h = refl
StandFor-append nodes more [] (k ∷ keys) h = cc
StandFor-append nodes more (i ∷ lids) [] h = cc
StandFor-append nodes more (i ∷ lids) (k ∷ keys) h =
    ap₂ ◌∷◌ (get_elem?-append_left nodes more i (cc)) (StandFor-append nodes more lids keys (cc))

StandFor-get_elem? :
    (nodes : List NodeInstanceKey) (lids : List ℕ) (keys : List NodeInstanceKey) (i l : ℕ)
    → StandFor nodes lids keys
    → get_elem? lids i ≡ some l
    → get_elem? nodes l ≡ get_elem? keys i
StandFor-get_elem? nodes [] keys i l h e = cc
StandFor-get_elem? nodes (j ∷ lids) [] i l h e = cc
StandFor-get_elem? nodes (j ∷ lids) (k ∷ keys) zero l h e = cc
StandFor-get_elem? nodes (j ∷ lids) (k ∷ keys) (suc i) l h e =
    StandFor-get_elem? nodes lids keys i l (cc) e

or_err-value : (o : Option ℕ) (l : ℕ) → or_err o fault ≡ ok l → o ≡ some l
or_err-value none l e = cc
or_err-value (some j) l e = cc

-- Numbers that are looked up in a list of numbers.
StandFor-traverse :
    (nodes local : List NodeInstanceKey) (lids : List ℕ) (at : List ℕ) (out : List ℕ)
    (keys : List NodeInstanceKey)
    → StandFor nodes lids local
    → StandFor local at keys
    → traverse (λ i. or_err (get_elem? lids i) fault) at ≡ ok out
    → StandFor nodes out keys
StandFor-traverse nodes local lids at out keys h k e =
    map-traverse (λ i. or_err (get_elem? lids i) fault) (get_elem? nodes) (get_elem? local)
      (λ i l found.
        StandFor-get_elem? nodes lids local i l h (or_err-value (get_elem? lids i) l found))
      at e
    ∙ k

module _ (hn : HashMap NodeInstanceKey ℕ) (he : HashMap ℤ ℕ) where
  -- The pointers of the matrix count the entries of the block.
  abbrev pub CountsBlock : NativeMfgBlock → List Sample → Type 0
  CountsBlock mfg block =
      (col : ℕ)
      → col ≤ length mfg.dst_lids
      → get_or mfg.csc_indptr col 0 ≡ count_below col (map (λ (s : Sample). s.src_index) block)

  pub output_layer-StandFor :
      (layer dst_begin dst_end : ℕ) (s s' : Numbering hn he) (block : List Sample)
      (mfg : NativeMfgBlock)
      → IsIndexed NodeInstanceKey-discrete hn s.nodes
      → output_layer hn he layer dst_begin dst_end s block ≡ ok (mfg, s')
      → (IsIndexed NodeInstanceKey-discrete hn s'.nodes)
        × (StandFor s'.nodes.unique s'.frontier_lids (map key_of block))
        × ((more : List NodeInstanceKey) × (s'.nodes.unique ≡ s.nodes.unique ++ more))
        × (mfg.dst_lids ≡ s.frontier_lids)
        × (CountsBlock mfg block)
  unfolding output_layer
  output_layer-StandFor layer dst_begin dst_end s s' block mfg v h =
      let keys = map key_of block in
      let local_nodes = intern_all hn (empty_table hn) keys in
      let local_edges = intern_all he (empty_table he) (map (λ (s : Sample). s.eid) block) in
      let nodes = intern_all hn s.nodes local_nodes.0.unique in
      let (found, e1, h1) =
        >>=-eq-ok (add_edges s.edges (first_times local_edges.0.unique block)) _ h in
      let (src_lids, e2, h2) =
        >>=-eq-ok (traverse (λ i. or_err (get_elem? nodes.1 i) fault) local_nodes.1) _ h1 in
      let (edge_lids, e3, h3) =
        >>=-eq-ok (traverse (λ i. or_err (get_elem? found.1 i) fault) local_edges.1) _ h2 in
      let local_v = empty_table-IsIndexed NodeInstanceKey-discrete hn in
      let after : nodes.0 ≡ s'.nodes =
        ap (λ (r : NativeMfgBlock × Numbering hn he). r.1.nodes) (ok_inj h3) in
      let front : src_lids ≡ s'.frontier_lids =
        ap (λ (r : NativeMfgBlock × Numbering hn he). r.1.frontier_lids) (ok_inj h3) in
      let dsts : s.frontier_lids ≡ mfg.dst_lids =
        ap (λ (r : NativeMfgBlock × Numbering hn he). r.0.dst_lids) (ok_inj h3) in
      let ptrs = ap (λ (r : NativeMfgBlock × Numbering hn he). r.0.csc_indptr) (ok_inj h3) in
      (
        subst (IsIndexed NodeInstanceKey-discrete hn) after
            (intern_all-IsIndexed NodeInstanceKey-discrete hn s.nodes local_nodes.0.unique v),
        subst (λ (t : Table hn). StandFor t.unique s'.frontier_lids keys) after
            (subst (λ lids. StandFor nodes.0.unique lids keys) front
              (StandFor-traverse nodes.0.unique local_nodes.0.unique nodes.1 local_nodes.1 src_lids
                keys (intern_all-rows NodeInstanceKey-discrete hn s.nodes local_nodes.0.unique v)
                (intern_all-rows NodeInstanceKey-discrete hn (empty_table hn) keys local_v) e2)),
        (
          lacking NodeInstanceKey-discrete s.nodes.unique
              (first_occurrences NodeInstanceKey-discrete local_nodes.0.unique),
          ap (λ (t : Table hn). t.unique) (sym after)
              ∙ intern_all-unique NodeInstanceKey-discrete hn s.nodes local_nodes.0.unique v,
        ),
        sym dsts,
        λ col le.
            ap (λ ptr. get_or ptr col 0) (sym ptrs)
            ∙ accumulate-count_rows (length s.frontier_lids)
                (map (λ (s : Sample). s.src_index) block) col
                (subst (λ lids. col ≤ length lids) (sym dsts) le),
      )
