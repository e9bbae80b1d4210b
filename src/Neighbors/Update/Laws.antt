-- ===== src/Neighbors/Update/Laws.antt =====
-- What the updates of weights change.

use mathlib.Core.Path.{subst}
use starrygl_tmp.Prelude.{
  ℕ, ◌-◌, ◌<◌, ℤ, pos, negsuc, true, not, List, [], ◌∷◌, map, length, set, get_or, get_elem?,
  Option, none, some, ok, torch_check, throw_if, or_err, ◌>>=◌, >>=-eq-ok, ok_inj, read, write,
  row_of, ==_iff, AreIndices, get_elem?-of-lt, get_or-of-get_elem?, ℕ_discrete, get_elem?-lt_length,
  get_elem?-set_self, get_or-set_self, get_or-set_ne, ◌≡◌, ◌≢◌, refl, ap, ap₂, sym, ◌∙◌, arith,
  Option-cases, inl, inr,
}
use starrygl_tmp.Phmap.{HashMap, HashSet}
use starrygl_tmp.Neighbors.Block.{TemporalNeighborBlock}
use starrygl_tmp.Neighbors.Build.Laws.{IsLast, index_of_node}
use starrygl_tmp.Neighbors.Update.{
  write_weight, set_edge_weight, set_edge_weights, with_weights, update_edge_weight, node_weights,
  all_node_weights, update_all_node_weight,
}

-- `nw[j]`, if it is there.
abbrev pub lookup : {W : Type 0} → List W → ℤ → Option W
lookup nw (pos j) = get_elem? nw j
lookup nw (negsuc j) = none

-- Every neighbour is a node.
abbrev pub AreNodes : ℕ → List (List ℤ) → Type 0
AreNodes n [] = Unit {0}
AreNodes n (row ∷ rows) = AreIndices (length row) n row × AreNodes n rows

-- An element that was read is there.
read-value :
    {A : Type 0} (xs : List A) (i : ℕ) (a : A) → read xs (pos i) ≡ ok a → get_elem? xs i ≡ some a
unfolding read
read-value xs i a h = elim (Option-cases (get_elem? xs i)) [
  | inl e ↦ ground arith
  | inr (b, e) ↦ ground arith
]

write-value :
    {A : Type 0} (xs ys : List A) (i : ℕ) (a : A)
    → write xs (pos i) a ≡ ok ys
    → (i < length xs) × (ys ≡ set xs i a)
unfolding write
write-value xs ys i a h =
    let (old, found, done) = >>=-eq-ok (read xs (pos i)) _ h in
    (get_elem?-lt_length xs i (read-value xs i old found), sym (ok_inj done))

module _ (W : Type 0) (hm : HashMap ℤ ℕ) (hs : HashSet ℤ) where
  write_weight-value :
      (weights weights' : List (List W)) (d i : ℕ) (w : W)
      → write_weight W hm hs weights (pos d) i w ≡ ok weights'
      → (d < length weights)
        × (i < length (row_of weights d))
        × (weights' ≡ set weights d (set (row_of weights d) i w))
  unfolding write_weight
  write_weight-value weights weights' d i w h =
      let (row, h1, rest) = >>=-eq-ok (read weights (pos d)) _ h in
      let (row', h2, h3) = >>=-eq-ok (write row (pos i) w) _ rest in
      let row_is : row_of weights d ≡ row =
        get_or-of-get_elem? weights d [] (read-value weights d row h1) in
      let (lt, new) = write-value row row' i w h2 in
      let (lt', done) = write-value weights weights' d row' h3 in
      (
        lt',
        subst (λ r. i < length r) (sym row_is) lt,
        done ∙ ap (set weights d) (new ∙ ap (λ r. set r i w) (sym row_is)),
      )

  set_edge_weight-value :
      (index : List hm.Map) (weights weights' : List (List W)) (d : ℕ) (key : ℤ) (w : W)
      → set_edge_weight W hm hs index weights (pos d) key w ≡ ok weights'
      → (i : ℕ) × (hm.find (index_of_node hm index d) key ≡ some i)
        × (d < length weights)
        × (i < length (row_of weights d))
        × (weights' ≡ set weights d (set (row_of weights d) i w))
  unfolding set_edge_weight
  set_edge_weight-value index weights weights' d key w h =
      let (m, h1, rest) = >>=-eq-ok (read index (pos d)) _ h in
      let (i, h2, h3) = >>=-eq-ok (or_err (hm.find m key) torch_check) _ rest in
      let m_is = get_or-of-get_elem? index d hm.empty (read-value index d m h1) in
      let found : hm.find m key ≡ some i = found_of (hm.find m key) i h2 in
      let (lt, lt', new) = write_weight-value weights weights' d i w h3 in
      (i, ap (λ m. hm.find m key) m_is ∙ found, lt, lt', new)
    where
      found_of : (o : Option ℕ) (i : ℕ) → or_err o torch_check ≡ ok i → o ≡ some i
      found_of none i e = cc
      found_of (some j) i e = cc

  -- Where each key of the inverted index leads to the last neighbour, as after `get_neighbors`,
  -- `update_edge_weight` of one edge into `d` writes the weight of the last neighbour of `d`, whichever
  -- edge is given, and no other weight of any node.
  pub update_edge_weight-IsLast :
      (tnb tnb' : TemporalNeighborBlock W hm hs) (d : ℕ) (key : ℤ) (w : W)
      → ((v : ℕ) → IsLast hm tnb.inverted_index tnb.neighbors v)
      → update_edge_weight W hm hs tnb (key ∷ []) (pos d ∷ []) (w ∷ []) ≡ ok tnb'
      → (get_elem? (row_of tnb'.edge_weight d) (length (row_of tnb.neighbors d) - 1) ≡ some w)
        × ((v j : ℕ) (default : W)
            → (v ≡ d → j ≢ length (row_of tnb.neighbors d) - 1)
            → get_or (row_of tnb'.edge_weight v) j default
              ≡ get_or (row_of tnb.edge_weight v) j default)
  unfolding update_edge_weight set_edge_weights
  update_edge_weight-IsLast tnb tnb' d key w last h =
      let (_, _, h1) = >>=-eq-ok (throw_if (not tnb.weighted) torch_check) _ h in
      let (weights, h2, done) =
        >>=-eq-ok
          (set_edge_weights W hm hs tnb.inverted_index tnb.edge_weight (pos d ∷ []) (key ∷ [])
            (w ∷ []))
          _ h1 in
      let (weights', h3, same) =
        >>=-eq-ok (set_edge_weight W hm hs tnb.inverted_index tnb.edge_weight (pos d) key w) _ h2 in
      let (i, found, lt, lt', new) =
        set_edge_weight-value tnb.inverted_index tnb.edge_weight weights' d key w h3 in
      let at : i ≡ length (row_of tnb.neighbors d) - 1 = last d key i found in
      let result : tnb'.edge_weight ≡ set tnb.edge_weight d (set (row_of tnb.edge_weight d) i w) =
        ap (λ (t : TemporalNeighborBlock W hm hs). t.edge_weight) (sym (ok_inj done))
        ∙ sym (ok_inj same)
        ∙ new in
      (
        rw (← at, result)
            (ap (λ r. get_elem? r i) (get_or-set_self tnb.edge_weight d _ [] lt)
              ∙ get_elem?-set_self (row_of tnb.edge_weight d) i w lt'),
        λ v j default apart. rw result (elim (ℕ_discrete d v) [
          | no other ↦ ap (λ r. get_or r j default) (get_or-set_ne tnb.edge_weight d v _ [] other)
          | yes e ↦
              subst
                (λ v.
                  get_or (row_of (set tnb.edge_weight d (set (row_of tnb.edge_weight d) i w)) v) j
                    default
                  ≡ get_or (row_of tnb.edge_weight v) j default)
                e
                (ap (λ r. get_or r j default) (get_or-set_self tnb.edge_weight d _ [] lt)
                  ∙ get_or-set_ne (row_of tnb.edge_weight d) i j w default
                      (λ q. apart (sym e) (sym q ∙ at)))
        ]),
      )

  node_weights-lookup :
      (nw : List W) (neighbors : List ℤ) (row : List W)
      → AreIndices (length neighbors) (length nw) neighbors
      → length row ≡ length neighbors
      → (row' : List W) × (node_weights W hm hs nw neighbors row ≡ ok row')
        × (map some row' ≡ map (lookup nw) neighbors)
  unfolding node_weights read
  node_weights-lookup nw [] [] inside size = ([], refl, refl)
  node_weights-lookup nw [] (w ∷ row) inside size = absurd (omega arith)
  node_weights-lookup nw (j ∷ neighbors) [] inside size = absurd (omega arith)
  node_weights-lookup nw (negsuc j ∷ neighbors) (w ∷ row) inside size = elim inside [ ]
  node_weights-lookup nw (pos j ∷ neighbors) (w ∷ row) (lt, inside) size =
      let (row', done, each) = node_weights-lookup nw neighbors row inside (omega arith) in
      let found = get_elem?-of-lt nw j w lt in
      (get_or nw j w ∷ row', rw (found, ◌>>=◌, done), ap₂ ◌∷◌ (sym found) each)

  all_node_weights-lookup :
      (nw : List W) (neighbors : List (List ℤ)) (weights : List (List W))
      → AreNodes (length nw) neighbors
      → map (λ (r : List W). length r) weights ≡ map (λ (r : List ℤ). length r) neighbors
      → (weights' : List (List W)) × (all_node_weights W hm hs nw neighbors weights ≡ ok weights')
        × (map (map some) weights' ≡ map (map (lookup nw)) neighbors)
  unfolding all_node_weights
  all_node_weights-lookup nw [] [] inside shape = ([], refl, refl)
  all_node_weights-lookup nw [] (r ∷ weights) inside shape = cc
  all_node_weights-lookup nw (row ∷ neighbors) [] inside shape = cc
  all_node_weights-lookup nw (row ∷ neighbors) (r ∷ weights) (here, inside) shape =
      let (r', done, each) = node_weights-lookup nw row r here (cc) in
      let (weights', done', each') = all_node_weights-lookup nw neighbors weights inside (cc) in
      (r' ∷ weights', rw (done, ◌>>=◌, done'), ap₂ ◌∷◌ each each')

  -- On a block with weights, one for each neighbour, and one new weight for each node,
  -- `update_all_node_weight` returns, and the weight of each neighbour is that of its node.
  pub update_all_node_weight-lookup :
      (tnb : TemporalNeighborBlock W hm hs) (nw : List W)
      → tnb.weighted ≡ true
      → length nw ≡ length tnb.neighbors
      → AreNodes (length nw) tnb.neighbors
      → map (λ (r : List W). length r) tnb.edge_weight
        ≡ map (λ (r : List ℤ). length r) tnb.neighbors
      → (weights : List (List W)) × (update_all_node_weight W hm hs tnb nw
          ≡ ok (with_weights W hm hs tnb weights))
        × (map (map some) weights ≡ map (map (lookup nw)) tnb.neighbors)
  unfolding update_all_node_weight
  update_all_node_weight-lookup tnb nw weighted size inside shape =
      let (weights, done, each) =
        all_node_weights-lookup nw tnb.neighbors tnb.edge_weight inside shape in
      (
        weights,
        rw (weighted, (==_iff (length nw) (length tnb.neighbors)).1 size, ◌>>=◌, done),
        each,
      )
