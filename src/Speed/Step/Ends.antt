-- ===== src/Speed/Step/Ends.antt =====
-- Where `perform_step` puts the ends of the edges: none is left without a part, and a hot one is in the
-- part of each of its edges.
pub mod Steps
pub mod Edges
use starrygl_tmp.Prelude.{
  ℕ, suc, ◌+◌, ◌%◌, ◌<◌, ◌≤◌, ◌==◌, ==_iff, Bool, true, false, ◌||◌, List, [], ◌∷◌, ◌++◌, length,
  set, get_or, get_elem?, some, row_of, Result, ok, ok_inj, ◌>>=◌, >>=-eq-ok, fetch, modify,
  modify_row, fetch-value, modify-value, get_or-set, length-append, count, count-snoc, AllBelow,
  AllBelow-get_or, if◌then◌else◌, Bool-cases, Returns, ◌≡◌, ◌⊎◌, inl, inr, refl, sym, ap, ◌∙◌,
  arith,
}
use mathlib.Core.Option.{some-injective}
use mathlib.Core.Path.{subst}
use starrygl_tmp.Speed.Doubles.{Doubles}
use starrygl_tmp.Speed.State.{
  SpeedState, one, mark_node, place_node, weigh_node, add_node_to_part, add_edge_to_part,
}
use starrygl_tmp.Speed.Master.{Edge}
use starrygl_tmp.Speed.Invariant.{ArePlaced, IsState}
use starrygl_tmp.Speed.Step.{
  count_degrees, belongs, add_endpoint, place_edge, candidates_of, perform_step,
}
use starrygl_tmp.Speed.Step.Candidates.{candidates_of-AllBelow}
use starrygl_tmp.Speed.Step.Laws.{add_endpoint-IsState, count_degrees-IsState}

pub Returns-value :
    {A : Type 0} {P : A → Type 0} {r : Result A} {a : A} → Returns r P → r ≡ ok a → P a
Returns-value {P} (b, e, p) h = subst P (ok_inj (sym e ∙ h)) p

module _ {D : Type 0} where
  -- The node has a part, and is in the part if it is hot.
  abbrev pub IsAt : List Bool → SpeedState D → ℕ → ℕ → Type 0
  IsAt is_hot s v p =
      (0 < length (row_of s.node_parts v))
      × (get_or is_hot v false ≡ true → 0 < count p (row_of s.node_parts v))

  -- Both ends of each edge that a part lists are there.
  abbrev pub AreEndsPlaced : List Bool → List (Edge D) → SpeedState D → Type 0
  AreEndsPlaced is_hot edges s =
      (i p : ℕ) (e : Edge D)
      → get_elem? edges i ≡ some e
      → 0 < count i (row_of s.edge_ids_by_part p)
      → IsAt is_hot s e.src p × IsAt is_hot s e.dst p

  -- An edge that a part of a node lists, and that has the node as an end.
  pub record EdgeOf (edges : List (Edge D)) (s : SpeedState D) (v p : ℕ) : Type 0 where
    pub id : ℕ
    pub edge : Edge D
    pub at : get_elem? edges id ≡ some edge
    pub listed : 0 < count id (row_of s.edge_ids_by_part p)
    pub end : (edge.src ≡ v) ⊎ (edge.dst ≡ v)

  -- No node is in a part without such an edge.
  abbrev pub HaveEdges : List (Edge D) → SpeedState D → Type 0
  HaveEdges edges s = (v p : ℕ) → 0 < count p (row_of s.node_parts v) → EdgeOf edges s v p

  -- No node gets a part but the one, this part.
  abbrev pub Only : SpeedState D → SpeedState D → ℕ → ℕ → Type 0
  Only s s' nid part =
      (v p : ℕ)
      → 0 < count p (row_of s'.node_parts v)
      → (0 < count p (row_of s.node_parts v)) ⊎ ((nid ≡ v) × (part ≡ p))

  -- No node loses a part.
  abbrev pub Grows : SpeedState D → SpeedState D → Type 0
  Grows s s' =
      (v p : ℕ)
      → (length (row_of s.node_parts v) ≤ length (row_of s'.node_parts v))
        × (count p (row_of s.node_parts v) ≤ count p (row_of s'.node_parts v))

  pub IsAt-Grows :
      (is_hot : List Bool) (s s' : SpeedState D) (v p : ℕ)
      → Grows s s'
      → IsAt is_hot s v p
      → IsAt is_hot s' v p
  IsAt-Grows is_hot s s' v p grows at =
      (omega (arith, at.0, (grows v p).0), λ hot. omega (arith, at.1 hot, (grows v p).1))

  pub Grows-of-same : (s s' : SpeedState D) → s'.node_parts ≡ s.node_parts → Grows s s'
  Grows-of-same s s' same v p = rw same (omega arith, omega arith)

  pub Grows-trans : (r s t : SpeedState D) → Grows r s → Grows s t → Grows r t
  Grows-trans r s t first later v p =
      (omega (arith, (first v p).0, (later v p).0), omega (arith, (first v p).1, (later v p).1))

abbrev pub Moves : {D : Type 0} → SpeedState D → SpeedState D → ℕ → ℕ → Type 0
Moves s s' nid part = Grows s s' × (s'.edge_ids_by_part ≡ s.edge_ids_by_part) × Only s s' nid part

count-le-length : (a : ℕ) (xs : List ℕ) → count a xs ≤ length xs
unfolding count
count-le-length a [] = omega arith
count-le-length a (x ∷ xs) = ground (arith, count-le-length a xs)

-- What a step makes of the parts of the nodes and of the edges.
pub record Joins {D : Type 0} (s s' : SpeedState D) (nid part : ℕ) : Type 0 where
  pub grows : Grows s s'
  pub edge_ids : s'.edge_ids_by_part ≡ s.edge_ids_by_part
  pub inside : 0 < count part (row_of s'.node_parts nid)
  pub only : Only s s' nid part

module _ {D : Type 0} (d : Doubles D) where
  mark_node-Joins :
      (s s' : SpeedState D) (nid part : ℕ) → mark_node d s nid part ≡ ok s' → Joins s s' nid part
  unfolding mark_node
  mark_node-Joins s s' nid part h =
      let (is_in, _, h1) = >>=-eq-ok (modify_row s.is_in nid part (λ _. true)) _ h in
      let (node_parts, e2, h2) = >>=-eq-ok (modify s.node_parts nid _) _ h1 in
      let (node_load, _, h3) = >>=-eq-ok (modify s.node_load_by_part part suc) _ h2 in
      let (lt, are) = modify-value s.node_parts nid (λ parts. parts ++ part ∷ []) [] e2 in
      let s'_is = ok_inj h3 in
      let row = λ (v : ℕ).
        ap (λ (s : SpeedState D). row_of s.node_parts v) (sym s'_is)
        ∙ ap (λ rows. row_of rows v) are
        ∙ get_or-set s.node_parts nid v (row_of s.node_parts nid ++ part ∷ []) [] lt in
      record {
        grows = λ v p. elim (Bool-cases (nid == v)) [
          | inl e ↦
              rw (row v, e, ← (==_iff nid v).0 e)
                (
                  omega (arith, length-append (row_of s.node_parts nid) (part ∷ [])),
                  omega (arith, count-snoc p (row_of s.node_parts nid) part),
                )
          | inr e ↦ rw (row v, e) (omega arith, omega arith)
        ];
        edge_ids = ap (λ (s : SpeedState D). s.edge_ids_by_part) (sym s'_is);
        inside =
            rw
              (
                row nid,
                (==_iff nid nid).1 refl,
                count-snoc part (row_of s.node_parts nid) part,
                (==_iff part part).1 refl,
              )
              (omega arith);
        only = λ v p there. elim (Bool-cases (nid == v)) [
          | inl e ↦ elim (Bool-cases (part == p)) [
            | inl e' ↦ inr ((==_iff nid v).0 e, (==_iff part p).0 e')
            | inr e' ↦ inl (
                subst (λ v. 0 < count p (row_of s.node_parts v)) ((==_iff nid v).0 e)
                  (omega (
                    arith,
                    rw (row v, e, count-snoc p (row_of s.node_parts nid) part, e') at there,
                  )))
          ]
          | inr e ↦ inl (rw (row v, e) at there)
        ];
      }

  place_node-Joins :
      (is_hot : List Bool) (num_parts : ℕ) (s s' : SpeedState D) (nid part : ℕ)
      → ArePlaced is_hot num_parts s
      → place_node d s nid part ≡ ok s'
      → Joins s s' nid part
  unfolding place_node
  place_node-Joins is_hot num_parts s s' nid part placed h =
      let (row, e1, h1) = >>=-eq-ok (fetch s.is_in nid) _ h in
      let (inside, e2, h2) = >>=-eq-ok (fetch row part) _ h1 in
      elim (Bool-cases inside) [
        | inl e ↦
            let same : s ≡ s' = ok_inj (rw e at h2) in
            let marked : get_or (row_of s.is_in nid) part false ≡ true =
              ap (λ row. get_or row part false) (fetch-value s.is_in nid [] e1).1
              ∙ (fetch-value row part false e2).1
              ∙ e in
            subst (λ s'. Joins s s' nid part) same
              (record {
                grows = Grows-of-same s s refl;
                edge_ids = refl;
                inside = rw (placed.marked nid part, marked) (omega arith);
                only = λ v p there. inl there;
              })
        | inr e ↦ mark_node-Joins s s' nid part (rw e at h2)
      ]

  weigh_node-same :
      (s s' : SpeedState D) (nid part : ℕ) (weight ts max_time : D)
      → weigh_node d s nid part weight ts max_time ≡ ok s'
      → (s'.node_parts ≡ s.node_parts) × (s'.edge_ids_by_part ≡ s.edge_ids_by_part)
  unfolding weigh_node
  weigh_node-same s s' nid part weight ts max_time h =
      let (_, _, h1) = >>=-eq-ok (modify s.degree nid suc) _ h in
      let (_, _, h2) = >>=-eq-ok (modify s.importance nid _) _ h1 in
      let (last_row, _, h3) = >>=-eq-ok (fetch s.last_ts_by_part nid) _ h2 in
      let (_, _, h4) = >>=-eq-ok (fetch last_row part) _ h3 in
      let (_, _, h5) = >>=-eq-ok (modify_row s.importance_by_part nid part _) _ h4 in
      let (_, _, h6) = >>=-eq-ok (modify_row s.last_ts_by_part nid part _) _ h5 in
      let s'_is = ok_inj h6 in
      (
        ap (λ (s : SpeedState D). s.node_parts) (sym s'_is),
        ap (λ (s : SpeedState D). s.edge_ids_by_part) (sym s'_is),
      )

  module _ (is_hot : List Bool) (num_parts : ℕ) where
    add_node_to_part-Joins :
        (s s' : SpeedState D) (nid part : ℕ) (weight ts max_time : D)
        → ArePlaced is_hot num_parts s
        → add_node_to_part d s nid part weight ts max_time ≡ ok s'
        → Joins s s' nid part
    unfolding add_node_to_part
    add_node_to_part-Joins s s' nid part weight ts max_time placed h =
        let (s₁, e1, h1) = >>=-eq-ok (place_node d s nid part) _ h in
        let joins = place_node-Joins is_hot num_parts s s₁ nid part placed e1 in
        let (nodes_same, edges_same) = weigh_node-same s₁ s' nid part weight ts max_time h1 in
        record {
          grows = Grows-trans s s₁ s' joins.grows (Grows-of-same s₁ s' nodes_same);
          edge_ids = edges_same ∙ joins.edge_ids;
          inside = rw nodes_same joins.inside;
          only = λ v p there. joins.only v p (rw nodes_same at there);
        }

    -- Where a node does not belong in the part, it is not hot and has another part.
    belongs-elsewhere :
        (s : SpeedState D) (nid part : ℕ)
        → belongs d is_hot s nid part ≡ ok false
        → (get_or is_hot nid false ≡ false) × (0 < length (row_of s.node_parts nid))
    unfolding belongs
    belongs-elsewhere s nid part h =
        let (hot, e1, h1) = >>=-eq-ok (fetch is_hot nid) _ h in
        let (parts, e2, h2) = >>=-eq-ok (fetch s.node_parts nid) _ h1 in
        let (cold, other) = by_parts hot parts (ok_inj h2) in
        (
          (fetch-value is_hot nid false e1).1 ∙ cold,
          rw (fetch-value s.node_parts nid [] e2).1 other,
        )
      where
        by_parts :
            (hot : Bool) (parts : List ℕ)
            → (hot || elim parts [ [] ↦ true | q ∷ qs ↦ q == part ]) ≡ false
            → (hot ≡ false) × (0 < length parts)
        by_parts true parts h = cc
        by_parts false [] h = cc
        by_parts false (q ∷ qs) h = (refl, omega arith)

    -- After `add_endpoint` the node is in the part if it is hot, and in some part in any case.
    pub add_endpoint-IsAt :
        (s s' : SpeedState D) (nid part : ℕ) (ts max_time_arg : D)
        → ArePlaced is_hot num_parts s
        → add_endpoint d is_hot s nid part ts max_time_arg ≡ ok s'
        → Moves s s' nid part × IsAt is_hot s' nid part
    unfolding add_endpoint
    add_endpoint-IsAt s s' nid part ts max_time_arg placed h =
        let (here, e1, h1) = >>=-eq-ok (belongs d is_hot s nid part) _ h in
        elim (Bool-cases here) [
          | inl e ↦
              let joins =
                add_node_to_part-Joins s s' nid part (one d) ts max_time_arg placed (rw e at h1) in
              (
                (joins.grows, joins.edge_ids, joins.only),
                (
                  omega (arith, joins.inside, count-le-length part (row_of s'.node_parts nid)),
                  λ hot. joins.inside,
                ),
              )
          | inr e ↦
              let same : s ≡ s' = ok_inj (rw e at h1) in
              let (cold, other) = belongs-elsewhere s nid part (e1 ∙ ap (λ b. ok b) e) in
              subst (λ s'. Moves s s' nid part × IsAt is_hot s' nid part) same
                ((Grows-of-same s s refl, refl, λ v p there. inl there), (other, λ hot. cc))
        ]
