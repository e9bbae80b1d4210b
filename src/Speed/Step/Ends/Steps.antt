-- ===== src/Speed/Step/Ends/Steps.antt =====
-- The ends of the edges over a whole `perform_step`.
use starrygl_tmp.Prelude.{
  ℕ, suc, ◌%◌, ◌<◌, ◌==◌, ==_iff, Bool, List, [], ◌∷◌, ◌++◌, length, get_elem?, some, row_of, ok,
  ok_inj, >>=-eq-ok, fetch, modify, fetch-value, modify-value, get_or-set, count, count-snoc,
  AllBelow, AllBelow-get_or, Bool-cases, ◌≡◌, inl, inr, sym, ap, ◌∙◌, arith,
}
use mathlib.Core.Option.{some-injective}
use mathlib.Core.Path.{subst}
use starrygl_tmp.Speed.Doubles.{Doubles}
use starrygl_tmp.Speed.State.{SpeedState, add_edge_to_part}
use starrygl_tmp.Speed.Master.{Edge}
use starrygl_tmp.Speed.Invariant.{IsState}
use starrygl_tmp.Speed.Step.{count_degrees, add_endpoint, place_edge, candidates_of, perform_step}
use starrygl_tmp.Speed.Step.Candidates.{candidates_of-AllBelow}
use starrygl_tmp.Speed.Step.Laws.{add_endpoint-IsState, count_degrees-IsState}
use starrygl_tmp.Speed.Step.Ends.{
  Returns-value, IsAt, AreEndsPlaced, IsAt-Grows, Grows-of-same, Grows-trans, add_endpoint-IsAt,
}

module _ {D : Type 0} (d : Doubles D) where
  -- The edge `i` goes to the part.
  add_edge_to_part-AreEndsPlaced :
      (is_hot : List Bool) (edges : List (Edge D)) (e : Edge D) (s s' : SpeedState D) (i part : ℕ)
      (ts : D)
      → get_elem? edges i ≡ some e
      → AreEndsPlaced is_hot edges s
      → IsAt is_hot s e.src part
      → IsAt is_hot s e.dst part
      → add_edge_to_part d s i part ts ≡ ok s'
      → AreEndsPlaced is_hot edges s'
  unfolding add_edge_to_part
  add_edge_to_part-AreEndsPlaced is_hot edges e s s' i part ts at ends at_src at_dst h =
      let (load, _, h1) = >>=-eq-ok (modify s.edge_load_by_part part suc) _ h in
      let (edge_ids, e2, h2) = >>=-eq-ok (modify s.edge_ids_by_part part _) _ h1 in
      let (time_bal, _, h3) = >>=-eq-ok (modify s.time_bal part _) _ h2 in
      let (lt, are) = modify-value s.edge_ids_by_part part (λ ids. ids ++ i ∷ []) [] e2 in
      let s'_is = ok_inj h3 in
      let same : s'.node_parts ≡ s.node_parts =
        ap (λ (s : SpeedState D). s.node_parts) (sym s'_is) in
      let row = λ (p : ℕ).
        ap (λ (s : SpeedState D). row_of s.edge_ids_by_part p) (sym s'_is)
        ∙ ap (λ rows. row_of rows p) are
        ∙ get_or-set s.edge_ids_by_part part p (row_of s.edge_ids_by_part part ++ i ∷ []) [] lt in
      λ j p e' at' listed.
        let moved = λ (v : ℕ). IsAt-Grows is_hot s s' v p (Grows-of-same s s' same) in
        let old : 0 < count j (row_of s.edge_ids_by_part p)
            → IsAt is_hot s' e'.src p × IsAt is_hot s' e'.dst p =
          λ here.
            let (u_at, v_at) = ends j p e' at' here in (moved e'.src u_at, moved e'.dst v_at) in
        elim (Bool-cases (part == p)) [
          | inl is_p ↦ elim (Bool-cases (i == j)) [
            | inl is_j ↦
                let e_is : e ≡ e' =
                  some-injective _ _
                    (sym at ∙ ap (λ i. get_elem? edges i) ((==_iff i j).0 is_j) ∙ at') in
                let to_p = (==_iff part p).0 is_p in
                (
                  moved e'.src
                      (subst (λ (e : Edge D). IsAt is_hot s e.src p) e_is (rw to_p at at_src)),
                  moved e'.dst
                      (subst (λ (e : Edge D). IsAt is_hot s e.dst p) e_is (rw to_p at at_dst)),
                )
            | inr other ↦ old (
                omega (
                  arith,
                  rw
                      (
                        row p,
                        is_p,
                        count-snoc j (row_of s.edge_ids_by_part part) i,
                        other,
                        (==_iff part p).0 is_p,
                      )
                      at listed,
                ))
          ]
          | inr other ↦ old (rw (row p, other) at listed)
        ]

module _ {D : Type 0} (d : Doubles D) (is_hot : List Bool) (n num_parts i : ℕ)
    (hot_len : length is_hot ≡ n) (edges : List (Edge D)) (e : Edge D)
    (at : get_elem? edges i ≡ some e) (src_lt : e.src < n) (dst_lt : e.dst < n) where
  place_edge-AreEndsPlaced :
      (s s' : SpeedState D) (ts max_time_arg : D) (candidates : List ℕ)
      → IsState is_hot n num_parts i s
      → AllBelow num_parts candidates
      → AreEndsPlaced is_hot edges s
      → place_edge d is_hot s e.src e.dst i ts max_time_arg candidates ≡ ok s'
      → AreEndsPlaced is_hot edges s'
  unfolding place_edge
  place_edge-AreEndsPlaced s s' ts max_time_arg [] st below ends h =
      subst (AreEndsPlaced is_hot edges) (ok_inj h) ends
  place_edge-AreEndsPlaced s s' ts max_time_arg (c ∷ cs) st below ends h =
      let (part, e1, h1) = >>=-eq-ok (fetch (c ∷ cs) (i % length (c ∷ cs))) _ h in
      let (s₁, e2, h2) = >>=-eq-ok (add_endpoint d is_hot s e.src part ts max_time_arg) _ h1 in
      let (s₂, e3, h3) = >>=-eq-ok (add_endpoint d is_hot s₁ e.dst part ts max_time_arg) _ h2 in
      let (inside, part_is) = fetch-value (c ∷ cs) (i % length (c ∷ cs)) 0 e1 in
      let part_lt : part < num_parts =
        rw part_is at (AllBelow-get_or num_parts (c ∷ cs) (i % length (c ∷ cs)) 0 below inside) in
      let st₁ =
        Returns-value
          (add_endpoint-IsState d is_hot n num_parts i hot_len s e.src part ts max_time_arg st
            src_lt part_lt)
          e2 in
      let ((grows₁, same₁, _), src_at) =
        add_endpoint-IsAt d is_hot num_parts s s₁ e.src part ts max_time_arg st.placed e2 in
      let ((grows₂, same₂, _), dst_at) =
        add_endpoint-IsAt d is_hot num_parts s₁ s₂ e.dst part ts max_time_arg st₁.placed e3 in
      let moved = λ (v p : ℕ). IsAt-Grows is_hot s s₂ v p (Grows-trans s s₁ s₂ grows₁ grows₂) in
      let ends₂ : AreEndsPlaced is_hot edges s₂ = λ j p e' at' listed.
        let (u_at, v_at) =
          ends j p e' at' (subst (λ rows. 0 < count j (row_of rows p)) (same₂ ∙ same₁) listed) in
        (moved e'.src p u_at, moved e'.dst p v_at) in
      add_edge_to_part-AreEndsPlaced d is_hot edges e s₂ s' i part ts at ends₂
        (IsAt-Grows is_hot s₁ s₂ e.src part grows₂ src_at) dst_at h3

  -- A step keeps the ends of the listed edges in parts, and puts those of the edge `i` in parts where
  -- it lists the edge.
  pub perform_step-AreEndsPlaced :
      (s s' : SpeedState D) (ts max_time_arg : D) (epsilon epsilon_t : ℕ)
      → 0 < num_parts
      → IsState is_hot n num_parts i s
      → AreEndsPlaced is_hot edges s
      → perform_step d is_hot s e.src e.dst i ts max_time_arg epsilon epsilon_t ≡ ok s'
      → AreEndsPlaced is_hot edges s'
  unfolding perform_step count_degrees
  perform_step-AreEndsPlaced s s' ts max_time_arg epsilon epsilon_t some_parts st ends h =
      let (candidates, e1, h1) =
        >>=-eq-ok (candidates_of d is_hot s e.src e.dst ts max_time_arg epsilon epsilon_t) _ h in
      let (counted, e2, h2) = >>=-eq-ok (count_degrees d s e.src e.dst) _ h1 in
      let (degree_in, _, k1) = >>=-eq-ok (modify s.degree_in e.src suc) _ e2 in
      let (degree_in', _, k2) = >>=-eq-ok (modify degree_in e.dst suc) _ k1 in
      let below =
        Returns-value
          (candidates_of-AllBelow d is_hot n num_parts s st.placed st.shape hot_len some_parts e.src
            e.dst ts max_time_arg epsilon epsilon_t src_lt dst_lt)
          e1 in
      let st' =
        Returns-value
          (count_degrees-IsState d is_hot n num_parts i hot_len s e.src e.dst st src_lt dst_lt)
          e2 in
      place_edge-AreEndsPlaced counted s' ts max_time_arg candidates st' below
        (subst (AreEndsPlaced is_hot edges) (ok_inj k2) ends) h2
