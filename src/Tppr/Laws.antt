-- ===== src/Tppr/Laws.antt =====
-- No node has more than `fanout` entries, and the updates read and write within the arrays.
use starrygl_tmp.Prelude.{
  ℕ, ◌+◌, ◌<◌, ◌≤◌, leb, ◌==◌, ℤ, List, [], ◌∷◌, length, get_or, take, length-take, modify,
  modify-of-lt, fetch-of-lt, Returns, >>=-Returns, ok-Returns, modify-Returns, Bool-cases,
  length-set, get_or-set, length-replicate, get_or-replicate, ℕ_discrete, ◌≡◌, inl, inr, refl, ◌∙◌,
  arith,
}
use starrygl_tmp.Sort.{stable_sort}
use starrygl_tmp.Speed.Doubles.{Doubles, same_double}
use starrygl_tmp.Speed.State.{nought}
use starrygl_tmp.Speed.Master.Choice.{same_test, other_test}
use starrygl_tmp.Tppr.{
  PprKey, PprMap, TpprState, insert_all, top_k, compute_s1_s2, update_node, update_edge, reset_tppr,
}

module _ {D : Type 0} (hm : PprMap D) where
  length-insert_all :
      (es : List (PprKey × D)) (m : hm.Map)
      → length (hm.entries (insert_all hm es m)) ≤ length es + length (hm.entries m)
  unfolding insert_all
  length-insert_all [] m = omega arith
  length-insert_all ((k, v) ∷ es) m =
      omega (arith, length-insert_all es (hm.assign m k v), hm.length-entries_assign m k v)

  module _ (fanout : ℕ) where
    -- Every node has a norm, and no more than `fanout` entries.
    pub record IsTppr (n : ℕ) (s : TpprState hm.Map D) : Type 0 where
      pub ppr_len : length s.ppr_list ≡ n
      pub norm_len : length s.norm_list ≡ n
      pub bounded : (v : ℕ) → v < n → length (hm.entries (get_or s.ppr_list v hm.empty)) ≤ fanout

    length-top_k : (d : Doubles D) (m : hm.Map) → length (hm.entries (top_k hm d fanout m)) ≤ fanout
    unfolding top_k
    length-top_k d m = elim (Bool-cases (leb (length (hm.entries m)) fanout)) [
      | inl e ↦ rw (top_k, e) (ground (arith, e))
      | inr e ↦
          let sorted = stable_sort (λ (a b : PprKey × D). d.lt b.1 a.1) (hm.entries m) in
          let few : length (take fanout sorted) ≤ fanout =
            omega (arith, length-take fanout sorted) in
          rw (top_k, e)
            (omega (
              arith,
              length-insert_all (take fanout sorted) hm.empty,
              few,
              hm.length-entries_empty,
            ))
    ]

module _ {D : Type 0} (d : Doubles D) (to_float : D → D) (hm : PprMap D) (fanout : ℕ)
    (alpha beta : ℤ) where
  compute_s1_s2-Returns :
      (n s1 s2 : ℕ) (eid ts : ℤ) (s : TpprState hm.Map D)
      → s1 < n
      → s2 < n
      → IsTppr hm fanout n s
      → Returns
          (compute_s1_s2 d to_float hm fanout alpha beta s s1 s2 eid ts)
          (λ m. length (hm.entries m) ≤ fanout)
  unfolding compute_s1_s2
  compute_s1_s2-Returns n s1 s2 eid ts s lt lt' is =
      ok-Returns _ (fetch-of-lt s.norm_list s1 (nought d) (rw is.norm_len lt))
        (elim (Bool-cases (same_double d (get_or s.norm_list s1 (nought d)) (nought d))) [
          | inl e ↦ rw e (_, refl, length-top_k hm fanout d _)
          | inr e ↦ rw e (
              ok-Returns _ (fetch-of-lt s.ppr_list s1 hm.empty (rw is.ppr_len lt)) (
                ok-Returns _ (fetch-of-lt s.ppr_list s2 hm.empty (rw is.ppr_len lt'))
                  (_, refl, length-top_k hm fanout d _)))
        ])

  update_node-IsTppr :
      (n s1 s2 : ℕ) (eid ts : ℤ) (s : TpprState hm.Map D)
      → s1 < n
      → s2 < n
      → IsTppr hm fanout n s
      → Returns (update_node d to_float hm fanout alpha beta s1 s2 eid ts s) (IsTppr hm fanout n)
  unfolding update_node
  update_node-IsTppr n s1 s2 eid ts s lt lt' is =
      >>=-Returns (compute_s1_s2 d to_float hm fanout alpha beta s s1 s2 eid ts) _
        (compute_s1_s2-Returns n s1 s2 eid ts s lt lt' is)
        (λ m few. ok-Returns _ (modify-of-lt s.ppr_list s1 (λ _. m) hm.empty (rw is.ppr_len lt)) (
          >>=-Returns (modify s.norm_list s1 _) _ (modify-Returns s.norm_list s1 n _ is.norm_len lt)
            (λ norm_list norm_len. (
              _,
              refl,
              record {
                ppr_len = length-set s.ppr_list s1 m ∙ is.ppr_len;
                norm_len = norm_len;
                bounded = λ v v_lt.
                    rw (get_or-set s.ppr_list s1 v m hm.empty (rw is.ppr_len lt))
                      (elim (ℕ_discrete s1 v) [
                        | yes e ↦ rw (same_test s1 v e) few
                        | no apart ↦ rw (other_test s1 v apart) (is.bounded v v_lt)
                      ]);
              },
            ))))

  pub update_edge-IsTppr :
      (n src dst : ℕ) (eid ts : ℤ) (s : TpprState hm.Map D)
      → src < n
      → dst < n
      → IsTppr hm fanout n s
      → Returns (update_edge d to_float hm fanout alpha beta src dst eid ts s) (IsTppr hm fanout n)
  unfolding update_edge
  update_edge-IsTppr n src dst eid ts s lt lt' is =
      >>=-Returns (update_node d to_float hm fanout alpha beta src dst eid ts s) _
        (update_node-IsTppr n src dst eid ts s lt lt' is)
        (λ s' is'. elim (Bool-cases (src == dst)) [
          | inl e ↦ rw e (s', refl, is')
          | inr e ↦ rw e (update_node-IsTppr n dst src eid ts s' lt' lt is')
        ])

pub reset_tppr-IsTppr :
    {D : Type 0} (d : Doubles D) (hm : PprMap D) (fanout num_nodes : ℕ)
    → IsTppr hm fanout num_nodes (reset_tppr d hm num_nodes)
unfolding reset_tppr
reset_tppr-IsTppr d hm fanout num_nodes = record {
  ppr_len = length-replicate num_nodes hm.empty;
  norm_len = length-replicate num_nodes (nought d);
  bounded =
      λ v lt. rw (get_or-replicate num_nodes v hm.empty) (omega (arith, hm.length-entries_empty));
}
