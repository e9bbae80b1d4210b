-- ===== src/Speed/Invariant/Moves.antt =====
-- The methods of `SpeedState` return, and keep what holds of the state.
use starrygl_tmp.Prelude.{
  ℕ, suc, ◌<◌, Bool, true, false, List, [], ◌∷◌, ◌++◌, length, get_or, row_of, fetch, modify,
  modify_row, get_or-of-get_elem?, modify-of-lt, modify_row-of-lt, length-set, Bool-cases,
  HasRows-set, Returns, >>=-Returns, fetch-Returns, modify-Returns, row-Returns, modify_row-Returns,
  ◌≡◌, inl, inr, refl, ap, ◌∙◌,
}
use starrygl_tmp.Speed.Doubles.{Doubles}
use starrygl_tmp.Speed.State.{
  SpeedState, mark_node, place_node, weigh_node, add_node_to_part, add_edge_to_part,
}
use starrygl_tmp.Speed.Invariant.{
  IsState, MayJoin, with_place, with_place-ArePlaced, with_edge, with_edge-AreListed,
}

module _ {D : Type 0} (d : Doubles D) (is_hot : List Bool) (n num_parts i : ℕ)
    (s : SpeedState D) where
  mark_node-IsState :
      (nid part : ℕ)
      → IsState is_hot n num_parts i s
      → nid < n
      → part < num_parts
      → MayJoin is_hot s nid part
      → get_or (row_of s.is_in nid) part false ≡ false
      → Returns (mark_node d s nid part) (IsState is_hot n num_parts i)
  unfolding mark_node
  mark_node-IsState nid part st lt lt' may outside =
      let shape = st.shape in
      let in₁ : nid < length s.is_in = rw shape.is_in.0 lt in
      let in₂ : part < length (row_of s.is_in nid) = rw (shape.is_in.1 nid lt) lt' in
      let in₃ : nid < length s.node_parts = rw shape.node_parts lt in
      let in₄ : part < length s.node_load_by_part = rw shape.node_load_by_part lt' in
      (
        with_place s nid part,
        rw
            (
              modify_row-of-lt s.is_in nid part (λ _. true) false in₁ in₂,
              modify-of-lt s.node_parts nid (λ parts. parts ++ part ∷ []) [] in₃,
              modify-of-lt s.node_load_by_part part suc 0 in₄,
            )
            refl,
        record {
          placed =
              with_place-ArePlaced is_hot num_parts s nid part st.placed lt' may outside in₁ in₂ in₃
                in₄;
          listed = record { edges_once = st.listed.edges_once; edge_load = st.listed.edge_load };
          shape = record {
            num_nodes = shape.num_nodes;
            time_bal = shape.time_bal;
            node_parts = length-set s.node_parts nid _ ∙ shape.node_parts;
            is_in =
                HasRows-set n num_parts s.is_in nid _ shape.is_in lt
                  (length-set (row_of s.is_in nid) part true ∙ shape.is_in.1 nid lt);
            degree = shape.degree;
            degree_in = shape.degree_in;
            importance = shape.importance;
            edge_ids_by_part = shape.edge_ids_by_part;
            edge_load_by_part = shape.edge_load_by_part;
            node_load_by_part = length-set s.node_load_by_part part _ ∙ shape.node_load_by_part;
            importance_by_part = shape.importance_by_part;
            last_ts_by_part = shape.last_ts_by_part;
          };
        },
      )

  place_node-IsState :
      (nid part : ℕ)
      → IsState is_hot n num_parts i s
      → nid < n
      → part < num_parts
      → MayJoin is_hot s nid part
      → Returns (place_node d s nid part) (IsState is_hot n num_parts i)
  unfolding place_node
  place_node-IsState nid part st lt lt' may =
      >>=-Returns (fetch s.is_in nid) _ (row-Returns n num_parts s.is_in nid st.shape.is_in lt)
        (λ row at.
          >>=-Returns (fetch row part) _ (fetch-Returns row part num_parts at.1 lt')
            (λ inside found. elim (Bool-cases inside) [
              | inl e ↦ rw e (s, refl, st)
              | inr e ↦
                  let outside : get_or (row_of s.is_in nid) part false ≡ false =
                    ap (λ row. get_or row part false) at.0
                    ∙ get_or-of-get_elem? row part false found
                    ∙ e in
                  rw e (mark_node-IsState nid part st lt lt' may outside)
            ]))

  weigh_node-IsState :
      (nid part : ℕ) (weight ts max_time : D)
      → IsState is_hot n num_parts i s
      → nid < n
      → part < num_parts
      → Returns (weigh_node d s nid part weight ts max_time) (IsState is_hot n num_parts i)
  unfolding weigh_node
  weigh_node-IsState nid part weight ts max_time st lt lt' =
      let shape = st.shape in
      >>=-Returns (modify s.degree nid suc) _ (modify-Returns s.degree nid n suc shape.degree lt)
        (λ degree h1.
          >>=-Returns (modify s.importance nid _) _
            (modify-Returns s.importance nid n _ shape.importance lt)
            (λ importance h2.
              >>=-Returns (fetch s.last_ts_by_part nid) _
                (row-Returns n num_parts s.last_ts_by_part nid shape.last_ts_by_part lt)
                (λ last_row h3.
                  >>=-Returns (fetch last_row part) _
                    (fetch-Returns last_row part num_parts h3.1 lt')
                    (λ last h4.
                      >>=-Returns (modify_row s.importance_by_part nid part _) _
                        (modify_row-Returns n num_parts s.importance_by_part nid part _
                          shape.importance_by_part lt lt')
                        (λ weights h5.
                          >>=-Returns (modify_row s.last_ts_by_part nid part _) _
                            (modify_row-Returns n num_parts s.last_ts_by_part nid part (λ _. ts)
                              shape.last_ts_by_part lt lt')
                            (λ last_ts h6. (
                              record s {
                                degree = degree;
                                importance = importance;
                                importance_by_part = weights;
                                last_ts_by_part = last_ts;
                              },
                              refl,
                              record {
                                placed = record {
                                  parts_are = st.placed.parts_are;
                                  marked = st.placed.marked;
                                  cold_once = st.placed.cold_once;
                                  parts_below = st.placed.parts_below;
                                  node_load = st.placed.node_load;
                                };
                                listed = record {
                                  edges_once = st.listed.edges_once;
                                  edge_load = st.listed.edge_load;
                                };
                                shape = record {
                                  num_nodes = shape.num_nodes;
                                  time_bal = shape.time_bal;
                                  node_parts = shape.node_parts;
                                  is_in = shape.is_in;
                                  degree = h1;
                                  degree_in = shape.degree_in;
                                  importance = h2;
                                  edge_ids_by_part = shape.edge_ids_by_part;
                                  edge_load_by_part = shape.edge_load_by_part;
                                  node_load_by_part = shape.node_load_by_part;
                                  importance_by_part = h5;
                                  last_ts_by_part = h6;
                                };
                              },
                            )))))))

module _ {D : Type 0} (d : Doubles D) (is_hot : List Bool) (n num_parts i : ℕ) where
  pub add_node_to_part-IsState :
      (s : SpeedState D) (nid part : ℕ) (weight ts max_time : D)
      → IsState is_hot n num_parts i s
      → nid < n
      → part < num_parts
      → MayJoin is_hot s nid part
      → Returns (add_node_to_part d s nid part weight ts max_time) (IsState is_hot n num_parts i)
  unfolding add_node_to_part
  add_node_to_part-IsState s nid part weight ts max_time st lt lt' may =
      >>=-Returns (place_node d s nid part) _
        (place_node-IsState d is_hot n num_parts i s nid part st lt lt' may)
        (λ placed st'.
          weigh_node-IsState d is_hot n num_parts i placed nid part weight ts max_time st' lt lt')

  -- The edge `i` is the next one.
  pub add_edge_to_part-IsState :
      (s : SpeedState D) (part : ℕ) (ts : D)
      → IsState is_hot n num_parts i s
      → part < num_parts
      → Returns (add_edge_to_part d s i part ts) (IsState is_hot n num_parts (suc i))
  unfolding add_edge_to_part
  add_edge_to_part-IsState s part ts st lt =
      let shape = st.shape in
      let in₁ : part < length s.edge_load_by_part = rw shape.edge_load_by_part lt in
      let in₂ : part < length s.edge_ids_by_part = rw shape.edge_ids_by_part lt in
      let (time_bal, e, len) =
        modify-Returns s.time_bal part num_parts (λ t. d.max t ts) shape.time_bal lt in
      (
        with_edge i s st.listed part time_bal,
        rw
            (
              modify-of-lt s.edge_load_by_part part suc 0 in₁,
              modify-of-lt s.edge_ids_by_part part (λ ids. ids ++ i ∷ []) [] in₂,
              e,
            )
            refl,
        record {
          placed = record {
            parts_are = st.placed.parts_are;
            marked = st.placed.marked;
            cold_once = st.placed.cold_once;
            parts_below = st.placed.parts_below;
            node_load = st.placed.node_load;
          };
          listed = with_edge-AreListed i s st.listed part time_bal in₁ in₂;
          shape = record {
            num_nodes = shape.num_nodes;
            time_bal = len;
            node_parts = shape.node_parts;
            is_in = shape.is_in;
            degree = shape.degree;
            degree_in = shape.degree_in;
            importance = shape.importance;
            edge_ids_by_part = length-set s.edge_ids_by_part part _ ∙ shape.edge_ids_by_part;
            edge_load_by_part = length-set s.edge_load_by_part part _ ∙ shape.edge_load_by_part;
            node_load_by_part = shape.node_load_by_part;
            importance_by_part = shape.importance_by_part;
            last_ts_by_part = shape.last_ts_by_part;
          };
        },
      )
