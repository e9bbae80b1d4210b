-- ===== src/Speed/Step/Ends/Edges.antt =====
-- No node is in a part without an edge there, over a whole `perform_step`.
use starrygl_tmp.Prelude.{
  ℕ, suc, ◌%◌, ◌<◌, ◌≤◌, ◌==◌, ==_iff, Bool, List, [], ◌∷◌, ◌++◌, length, get_elem?, some, row_of,
  ok, ok_inj, >>=-eq-ok, fetch, modify, fetch-value, modify-value, get_or-set, count, count-snoc,
  AllBelow, AllBelow-get_or, Bool-cases, ◌≡◌, inl, inr, refl, sym, ap, ◌∙◌, arith,
}
use mathlib.Core.Path.{subst}
use starrygl_tmp.Speed.Doubles.{Doubles}
use starrygl_tmp.Speed.State.{SpeedState, add_edge_to_part}
use starrygl_tmp.Speed.Master.{Edge}
use starrygl_tmp.Speed.Invariant.{IsState}
use starrygl_tmp.Speed.Step.{count_degrees, add_endpoint, place_edge, candidates_of, perform_step}
use starrygl_tmp.Speed.Step.Candidates.{candidates_of-AllBelow}
use starrygl_tmp.Speed.Step.Laws.{add_endpoint-IsState, count_degrees-IsState}
use starrygl_tmp.Speed.Step.Ends.{Returns-value, EdgeOf, HaveEdges, add_endpoint-IsAt}

module _ {D : Type 0} (d : Doubles D) where
  -- The part lists the edge `i`, and no part loses an edge.
  add_edge_to_part-lists :
      (s s' : SpeedState D) (i part : ℕ) (ts : D)
      → add_edge_to_part d s i part ts ≡ ok s'
      → (s'.node_parts ≡ s.node_parts)
        × ((p j : ℕ)
            → count j (row_of s.edge_ids_by_part p) ≤ count j (row_of s'.edge_ids_by_part p))
        × (0 < count i (row_of s'.edge_ids_by_part part))
  unfolding add_edge_to_part
  add_edge_to_part-lists s s' i part ts h =
      let (load, _, h1) = >>=-eq-ok (modify s.edge_load_by_part part suc) _ h in
      let (edge_ids, e2, h2) = >>=-eq-ok (modify s.edge_ids_by_part part _) _ h1 in
      let (time_bal, _, h3) = >>=-eq-ok (modify s.time_bal part _) _ h2 in
      let (lt, are) = modify-value s.edge_ids_by_part part (λ ids. ids ++ i ∷ []) [] e2 in
      let s'_is = ok_inj h3 in
      let row = λ (p : ℕ).
        ap (λ (s : SpeedState D). row_of s.edge_ids_by_part p) (sym s'_is)
        ∙ ap (λ rows. row_of rows p) are
        ∙ get_or-set s.edge_ids_by_part part p (row_of s.edge_ids_by_part part ++ i ∷ []) [] lt in
      (
        ap (λ (s : SpeedState D). s.node_parts) (sym s'_is),
        λ p j. elim (Bool-cases (part == p)) [
          | inl e ↦
              rw (row p, e, ← (==_iff part p).0 e)
                (omega (arith, count-snoc j (row_of s.edge_ids_by_part part) i))
          | inr e ↦ rw (row p, e) (omega arith)
        ],
        rw
            (
              row part,
              (==_iff part part).1 refl,
              count-snoc i (row_of s.edge_ids_by_part part) i,
              (==_iff i i).1 refl,
            )
            (omega arith),
      )

  EdgeOf-of-more :
      (edges : List (Edge D)) (s s' : SpeedState D) (v p : ℕ)
      → ((j : ℕ) → count j (row_of s.edge_ids_by_part p) ≤ count j (row_of s'.edge_ids_by_part p))
      → EdgeOf edges s v p
      → EdgeOf edges s' v p
  EdgeOf-of-more edges s s' v p more x = record {
    id = x.id;
    edge = x.edge;
    at = x.at;
    listed = omega (arith, x.listed, more x.id);
    end = x.end;
  }

module _ {D : Type 0} (d : Doubles D) (is_hot : List Bool) (n num_parts i : ℕ)
    (hot_len : length is_hot ≡ n) (edges : List (Edge D)) (e : Edge D)
    (at : get_elem? edges i ≡ some e) (src_lt : e.src < n) (dst_lt : e.dst < n) where
  place_edge-HaveEdges :
      (s s' : SpeedState D) (ts max_time_arg : D) (candidates : List ℕ)
      → IsState is_hot n num_parts i s
      → AllBelow num_parts candidates
      → HaveEdges edges s
      → place_edge d is_hot s e.src e.dst i ts max_time_arg candidates ≡ ok s'
      → HaveEdges edges s'
  unfolding place_edge
  place_edge-HaveEdges s s' ts max_time_arg [] st below have h =
      subst (HaveEdges edges) (ok_inj h) (λ v p there.
        let x = have v p there in
        record { id = x.id; edge = x.edge; at = x.at; listed = x.listed; end = x.end })
  place_edge-HaveEdges s s' ts max_time_arg (c ∷ cs) st below have h =
      let (part, e1, h1) = >>=-eq-ok (fetch (c ∷ cs) (i % length (c ∷ cs))) _ h in
      let (s₁, e2, h2) = >>=-eq-ok (add_endpoint d is_hot s e.src part ts max_time_arg) _ h1 in
      let (s₂, e3, h3) = >>=-eq-ok (add_endpoint d is_hot s₁ e.dst part ts max_time_arg) _ h2 in
      let (inside, part_is) = fetch-value (c ∷ cs) (i % length (c ∷ cs)) 0 e1 in
      let part_lt : part < num_parts =
        rw part_is at (AllBelow-get_or num_parts (c ∷ cs) (i % length (c ∷ cs)) 0 below inside) in
      let st₁ =
        Returns-value
          (add_endpoint-IsState d is_hot n num_parts i hot_len s e.src part ts max_time_arg st
            src_lt part_lt)
          e2 in
      let ((_, same₁, only₁), _) =
        add_endpoint-IsAt d is_hot num_parts s s₁ e.src part ts max_time_arg st.placed e2 in
      let ((_, same₂, only₂), _) =
        add_endpoint-IsAt d is_hot num_parts s₁ s₂ e.dst part ts max_time_arg st₁.placed e3 in
      let (nodes_same, more, listed) = add_edge_to_part-lists d s₂ s' i part ts h3 in
      λ v p there. elim (only₂ v p (rw nodes_same at there)) [
        | inr (is_v, is_p) ↦ record {
          id = i;
          edge = e;
          at = at;
          listed = subst (λ p. 0 < count i (row_of s'.edge_ids_by_part p)) is_p listed;
          end = inr is_v;
        }
        | inl there₁ ↦ elim (only₁ v p there₁) [
          | inr (is_v, is_p) ↦ record {
            id = i;
            edge = e;
            at = at;
            listed = subst (λ p. 0 < count i (row_of s'.edge_ids_by_part p)) is_p listed;
            end = inl is_v;
          }
          | inl there₀ ↦
              EdgeOf-of-more d edges s s' v p
                (λ j.
                  subst (λ rows. count j (row_of rows p) ≤ count j (row_of s'.edge_ids_by_part p))
                    (same₂ ∙ same₁) (more p j))
                (have v p there₀)
        ]
      ]

  -- A step keeps an edge of each node in each of its parts.
  pub perform_step-HaveEdges :
      (s s' : SpeedState D) (ts max_time_arg : D) (epsilon epsilon_t : ℕ)
      → 0 < num_parts
      → IsState is_hot n num_parts i s
      → HaveEdges edges s
      → perform_step d is_hot s e.src e.dst i ts max_time_arg epsilon epsilon_t ≡ ok s'
      → HaveEdges edges s'
  unfolding perform_step count_degrees
  perform_step-HaveEdges s s' ts max_time_arg epsilon epsilon_t some_parts st have h =
      let (candidates, e1, h1) =
        >>=-eq-ok (candidates_of d is_hot s e.src e.dst ts max_time_arg epsilon epsilon_t) _ h in
      let (counted, e2, h2) = >>=-eq-ok (count_degrees d s e.src e.dst) _ h1 in
      let (degree_in, _, k1) = >>=-eq-ok (modify s.degree_in e.src suc) _ e2 in
      let (degree_in', _, k2) = >>=-eq-ok (modify degree_in e.dst suc) _ k1 in
      let below =
        Returns-value
          (candidates_of-AllBelow d is_hot n num_parts s st.placed st.shape hot_len some_parts e.src
            e.dst ts max_time_arg epsilon epsilon_t src_lt dst_lt)
          e1 in
      let st' =
        Returns-value
          (count_degrees-IsState d is_hot n num_parts i hot_len s e.src e.dst st src_lt dst_lt)
          e2 in
      place_edge-HaveEdges counted s' ts max_time_arg candidates st' below
        (subst (HaveEdges edges) (ok_inj k2) (λ v p there.
          let x = have v p there in
          record { id = x.id; edge = x.edge; at = x.at; listed = x.listed; end = x.end }))
        h2
