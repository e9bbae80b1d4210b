-- ===== src/Speed/Step/Laws.antt =====
-- `perform_step` returns, and keeps what holds of the state.
use starrygl_tmp.Prelude.{
  ℕ, suc, ◌<◌, ◌%◌, ◌==◌, ==_iff, Bool, true, false, ◌||◌, List, [], ◌∷◌, length, get_or, row_of,
  fetch, modify, fetch-of-lt, get_or-of-get_elem?, AllBelow, AllBelow-get_or, Bool-cases, Returns,
  >>=-Returns, fetch-Returns, modify-Returns, ◌≡◌, ◌⊎◌, inl, inr, refl, arith,
}
use starrygl_tmp.Speed.Doubles.{Doubles}
use starrygl_tmp.Speed.State.{SpeedState, one}
use starrygl_tmp.Speed.Invariant.{IsState, MayJoin, drop-AreListed}
use starrygl_tmp.Speed.Invariant.Moves.{add_node_to_part-IsState, add_edge_to_part-IsState}
use starrygl_tmp.Speed.Step.{
  candidates_of, count_degrees, belongs, add_endpoint, place_edge, perform_step,
}
use starrygl_tmp.Speed.Step.Candidates.{candidates_of-AllBelow}

module _ {D : Type 0} (d : Doubles D) (is_hot : List Bool) (n num_parts i : ℕ)
    (hot_len : length is_hot ≡ n) where
  belongs-MayJoin :
      (s : SpeedState D) (nid part : ℕ)
      → IsState is_hot n num_parts i s
      → nid < n
      → Returns (belongs d is_hot s nid part) (λ here. here ≡ true → MayJoin is_hot s nid part)
  unfolding belongs
  belongs-MayJoin s nid part st lt =
      >>=-Returns (fetch is_hot nid) _ (fetch-Returns is_hot nid n hot_len lt) (λ hot found. (
        _,
        rw (fetch-of-lt s.node_parts nid [] (rw st.shape.node_parts lt)) refl,
        by_parts hot (row_of s.node_parts nid) (get_or-of-get_elem? is_hot nid false found),
      ))
    where
      by_parts :
          (hot : Bool) (parts : List ℕ)
          → get_or is_hot nid false ≡ hot
          → (hot || elim parts [ [] ↦ true | q ∷ qs ↦ q == part ]) ≡ true
          → (get_or is_hot nid false ≡ true) ⊎ ((parts ≡ []) ⊎ (get_or parts 0 (suc part) ≡ part))
      by_parts true parts at h = inl at
      by_parts false [] at h = inr (inl refl)
      by_parts false (q ∷ qs) at h = inr (inr ((==_iff q part).0 h))

  pub add_endpoint-IsState :
      (s : SpeedState D) (nid part : ℕ) (ts max_time_arg : D)
      → IsState is_hot n num_parts i s
      → nid < n
      → part < num_parts
      → Returns (add_endpoint d is_hot s nid part ts max_time_arg) (IsState is_hot n num_parts i)
  unfolding add_endpoint
  add_endpoint-IsState s nid part ts max_time_arg st lt lt' =
      >>=-Returns (belongs d is_hot s nid part) _ (belongs-MayJoin s nid part st lt) (λ here may.
        elim (Bool-cases here) [
          | inl e ↦ rw e (
              add_node_to_part-IsState d is_hot n num_parts i s nid part (one d) ts max_time_arg st
                lt lt' (may e))
          | inr e ↦ rw e (s, refl, st)
        ])

  place_edge-IsState :
      (s : SpeedState D) (u v : ℕ) (ts max_time_arg : D) (candidates : List ℕ)
      → IsState is_hot n num_parts i s
      → u < n
      → v < n
      → AllBelow num_parts candidates
      → Returns
          (place_edge d is_hot s u v i ts max_time_arg candidates)
          (IsState is_hot n num_parts (suc i))
  unfolding place_edge
  place_edge-IsState s u v ts max_time_arg [] st lt_u lt_v below = (
    _,
    refl,
    record {
      placed = record {
        parts_are = st.placed.parts_are;
        marked = st.placed.marked;
        cold_once = st.placed.cold_once;
        parts_below = st.placed.parts_below;
        node_load = st.placed.node_load;
      };
      listed = drop-AreListed i s st.listed;
      shape = record {
        num_nodes = st.shape.num_nodes;
        time_bal = st.shape.time_bal;
        node_parts = st.shape.node_parts;
        is_in = st.shape.is_in;
        degree = st.shape.degree;
        degree_in = st.shape.degree_in;
        importance = st.shape.importance;
        edge_ids_by_part = st.shape.edge_ids_by_part;
        edge_load_by_part = st.shape.edge_load_by_part;
        node_load_by_part = st.shape.node_load_by_part;
        importance_by_part = st.shape.importance_by_part;
        last_ts_by_part = st.shape.last_ts_by_part;
      };
    },
  )
  place_edge-IsState s u v ts max_time_arg (c ∷ cs) st lt_u lt_v below =
      let chosen : ℕ = i % suc (length cs) in
      let inside : chosen < suc (length cs) = grind arith in
      let part_lt : get_or (c ∷ cs) chosen 0 < num_parts =
        AllBelow-get_or num_parts (c ∷ cs) chosen 0 below inside in
      >>=-Returns (fetch (c ∷ cs) chosen) _ (_, fetch-of-lt (c ∷ cs) chosen 0 inside, part_lt)
        (λ part (lt : part < num_parts).
          >>=-Returns (add_endpoint d is_hot s u part ts max_time_arg) _
            (add_endpoint-IsState s u part ts max_time_arg st lt_u lt)
            (λ s₁ st₁.
              >>=-Returns (add_endpoint d is_hot s₁ v part ts max_time_arg) _
                (add_endpoint-IsState s₁ v part ts max_time_arg st₁ lt_v lt)
                (λ s₂ st₂. add_edge_to_part-IsState d is_hot n num_parts i s₂ part ts st₂ lt)))

  pub count_degrees-IsState :
      (s : SpeedState D) (u v : ℕ)
      → IsState is_hot n num_parts i s
      → u < n
      → v < n
      → Returns (count_degrees d s u v) (IsState is_hot n num_parts i)
  unfolding count_degrees
  count_degrees-IsState s u v st lt_u lt_v =
      >>=-Returns (modify s.degree_in u suc) _
        (modify-Returns s.degree_in u n suc st.shape.degree_in lt_u)
        (λ degree_in h.
          >>=-Returns (modify degree_in v suc) _ (modify-Returns degree_in v n suc h lt_v)
            (λ degree_in' h'. (
              _,
              refl,
              record {
                placed = record {
                  parts_are = st.placed.parts_are;
                  marked = st.placed.marked;
                  cold_once = st.placed.cold_once;
                  parts_below = st.placed.parts_below;
                  node_load = st.placed.node_load;
                };
                listed = record {
                  edges_once = st.listed.edges_once;
                  edge_load = st.listed.edge_load;
                };
                shape = record {
                  num_nodes = st.shape.num_nodes;
                  time_bal = st.shape.time_bal;
                  node_parts = st.shape.node_parts;
                  is_in = st.shape.is_in;
                  degree = st.shape.degree;
                  degree_in = h';
                  importance = st.shape.importance;
                  edge_ids_by_part = st.shape.edge_ids_by_part;
                  edge_load_by_part = st.shape.edge_load_by_part;
                  node_load_by_part = st.shape.node_load_by_part;
                  importance_by_part = st.shape.importance_by_part;
                  last_ts_by_part = st.shape.last_ts_by_part;
                };
              },
            )))

  -- On a state that holds the edges below `i`, and for two nodes, `perform_step` returns, whatever the
  -- scores are: the edge `i` is then in one part or dropped, as is each edge before it, once; a node's
  -- parts are listed once each and marked in `is_in`, and a node that is not hot has at most one; the
  -- loads of the parts count their edges and nodes.
  pub perform_step-IsState :
      (s : SpeedState D) (u v : ℕ) (ts max_time_arg : D) (epsilon epsilon_t : ℕ)
      → 0 < num_parts
      → IsState is_hot n num_parts i s
      → u < n
      → v < n
      → Returns
          (perform_step d is_hot s u v i ts max_time_arg epsilon epsilon_t)
          (IsState is_hot n num_parts (suc i))
  unfolding perform_step
  perform_step-IsState s u v ts max_time_arg epsilon epsilon_t some_parts st lt_u lt_v =
      >>=-Returns (candidates_of d is_hot s u v ts max_time_arg epsilon epsilon_t) _
        (candidates_of-AllBelow d is_hot n num_parts s st.placed st.shape hot_len some_parts u v ts
          max_time_arg epsilon epsilon_t lt_u lt_v)
        (λ candidates below.
          >>=-Returns (count_degrees d s u v) _ (count_degrees-IsState s u v st lt_u lt_v)
            (λ counted st'.
              place_edge-IsState counted u v ts max_time_arg candidates st' lt_u lt_v below))
