-- ===== src/Speed/Partition/Laws.antt =====
-- `speed_partition` returns, and what it returns is a partition.
use starrygl_tmp.Prelude.{
  ℕ, zero, suc, ◌+◌, ◌<◌, ◌≤◌, pos, Bool, false, List, [], ◌∷◌, map, length, replicate, get_or,
  fetch, traverse, Returns, >>=-Returns, length-replicate, get_or-replicate, AllBelow, fetch-of-lt,
  Bool-cases, ◌≡◌, inl, inr, refl, sym, ap, ◌∙◌, arith,
}
use mathlib.Core.Path.{subst}
use starrygl_tmp.Speed.Doubles.{Doubles}
use starrygl_tmp.Speed.State.{SpeedState, nought}
use starrygl_tmp.Speed.Invariant.{IsState}
use starrygl_tmp.Speed.Master.{Edge, choose_balanced_node_master}
use starrygl_tmp.Speed.Master.Laws.{AreBelow}
use starrygl_tmp.Speed.Master.Choice.{HaveMasters, choose_balanced_node_master-HaveMasters}
use starrygl_tmp.Speed.Graph.{latest, add_weights_of, hot_nodes, mark_hot}
use starrygl_tmp.Speed.Partition.{
  range, edge_owners, replica_mask_of, shared_nodes, local_nodes_of, node_parts_to_padded_tensor,
  SpeedPartition, perform_steps, collect, partition_edges,
}
use starrygl_tmp.Speed.Partition.Edges.{HaveOwners, edge_owners-HaveOwners}
use starrygl_tmp.Speed.Partition.Locals.{
  select, hot_at, expected, replica_mask_of-hot, shared_nodes-select, locals-expected,
}
use starrygl_tmp.Speed.Step.Ends.{AreEndsPlaced, HaveEdges}
use starrygl_tmp.Speed.Partition.Hot.{AreHot, mark_hot-AreHot}
use starrygl_tmp.Speed.Partition.Hot.Ends.{ends_at, add_weights_of-ends_at}
use starrygl_tmp.Speed.Partition.Start.{perform_steps-IsState, hot_nodes-AllBelow}

-- The result of `speed_partition` for `n` nodes, with the marks `is_hot`, from the state `s` after the
-- steps.
pub record IsPartition {D : Type 0} (d : Doubles D) (n num_parts : ℕ) (edges : List (Edge D))
    (topk_ratio : D) (use_importance : Bool) (is_hot : List Bool) (s : SpeedState D)
    (r : SpeedPartition) : Type 0 where
  pub hot : AreHot d n edges topk_ratio use_importance is_hot r.hot_node_ids
  pub state : IsState is_hot n num_parts (length edges) s
  pub ends : AreEndsPlaced is_hot edges s
  pub edges_of_nodes : HaveEdges edges s
  pub ids : r.edge_ids_by_part ≡ s.edge_ids_by_part
  pub dropped : r.dropped_edges ≡ s.dropped_edges
  pub owners : HaveOwners num_parts s edges r.edge_owner
  pub masters : HaveMasters is_hot n num_parts s r.node_master
  pub mask : r.replica_mask ≡ map (hot_at is_hot) (range 0 n)
  pub shared : r.shared_node_ids ≡ select (hot_at is_hot) (range 0 n)
  pub locals : r.locals_by_part ≡ map (expected is_hot n s) (range 0 num_parts)

select-AllBelow : (test : ℕ → Bool) (n i k : ℕ) → i + k ≤ n → AllBelow n (select test (range i k))
select-AllBelow test n i zero le = tt
select-AllBelow test n i (suc k) le = elim (Bool-cases (test i)) [
  | inl e ↦ rw e (omega arith, select-AllBelow test n (suc i) k (omega arith))
  | inr e ↦ rw e (select-AllBelow test n (suc i) k (omega arith))
]

fetch_all-Returns :
    {A : Type 0} (n : ℕ) (rows : List A) (nodes : List ℕ)
    → (a : A) → length rows ≡ n
    → AllBelow n nodes
    → Returns (traverse (fetch rows) nodes) (λ xs. Unit {0})
unfolding traverse
fetch_all-Returns n rows [] a len below = ([], refl, tt)
fetch_all-Returns n rows (v ∷ nodes) a len below =
    let (xs, done, _) = fetch_all-Returns n rows nodes a len below.1 in
    (get_or rows v a ∷ xs, rw (fetch-of-lt rows v a (rw len below.0), done) refl, tt)

module _ {D : Type 0} (d : Doubles D) (n num_parts : ℕ) (some_parts : 0 < num_parts)
    (edges : List (Edge D)) (below : AreBelow n edges) (topk_ratio : D)
    (use_importance : Bool) where
  collect-IsPartition :
      (is_hot : List Bool) (hot_ids degree : List ℕ) (s : SpeedState D)
      → length is_hot ≡ n
      → length degree ≡ n
      → AreHot d n edges topk_ratio use_importance is_hot hot_ids
      → IsState is_hot n num_parts (length edges) s
      → AreEndsPlaced is_hot edges s
      → HaveEdges edges s
      → Returns
          (collect d is_hot hot_ids degree edges n num_parts s)
          (IsPartition d n num_parts edges topk_ratio use_importance is_hot s)
  unfolding collect node_parts_to_padded_tensor
  collect-IsPartition is_hot hot_ids degree s hot_len degree_len hot st ends have_edges =
      >>=-Returns (edge_owners d s num_parts edges) _
        (edge_owners-HaveOwners d is_hot n num_parts s st.placed st.shape hot_len some_parts edges
          st.listed below)
        (λ owner owned.
          >>=-Returns (choose_balanced_node_master d s edges owner is_hot degree) _
            (choose_balanced_node_master-HaveMasters d is_hot n num_parts s st.placed st.shape
              hot_len some_parts degree degree_len edges owner st.shape.num_nodes below owned.0)
            (λ masters have.
              >>=-Returns (replica_mask_of d is_hot s (range 0 n)) _
                (replica_mask_of-hot d is_hot n num_parts s st.placed st.shape hot_len some_parts)
                (λ mask (mask_is : mask ≡ map (hot_at is_hot) (range 0 n)).
                  let own = λ (v : ℕ) (lt : v < n) (cold : hot_at is_hot v ≡ false).
                    let (p, p_lt, at, here) = have.1 v lt in at ∙ ap (λ p. pos p) (here cold) in
                  >>=-Returns
                    (traverse (local_nodes_of d s masters mask (range 0 n)) (range 0 num_parts)) _
                    (subst
                      (λ mask.
                        Returns
                          (traverse (local_nodes_of d s masters mask (range 0 n))
                            (range 0 num_parts))
                          (λ xs. xs ≡ map (expected is_hot n s) (range 0 num_parts)))
                      (sym mask_is)
                      (locals-expected d is_hot n num_parts s st.placed st.shape hot_len some_parts
                        masters have.0 own))
                    (λ locals (locals_are : locals ≡ map (expected is_hot n s) (range 0 num_parts)).
                      let shared_is : shared_nodes (range 0 n) mask
                          ≡ select (hot_at is_hot) (range 0 n) =
                        ap (shared_nodes (range 0 n)) mask_is
                        ∙ shared_nodes-select (hot_at is_hot) 0 n in
                      >>=-Returns (node_parts_to_padded_tensor d s (shared_nodes (range 0 n) mask))
                        _
                        (>>=-Returns (traverse (fetch s.node_parts) (shared_nodes (range 0 n) mask))
                          _
                          (fetch_all-Returns n s.node_parts (shared_nodes (range 0 n) mask) []
                            st.shape.node_parts
                            (subst (λ xs. AllBelow n xs) (sym shared_is)
                              (select-AllBelow (hot_at is_hot) n 0 n (omega arith))))
                          (λ rows _. (_, refl, tt)))
                        (λ shared_parts (_ : Unit {0}). (
                          _,
                          refl,
                          record {
                            hot = hot;
                            state = st;
                            ends = ends;
                            edges_of_nodes = have_edges;
                            ids = refl;
                            dropped = refl;
                            owners = owned;
                            masters = have;
                            mask = mask_is;
                            shared = shared_is;
                            locals = locals_are;
                          },
                        ))))))

  -- On checked edges, and for at least one part, the partition returns.
  pub partition_edges-IsPartition :
      (ts_values : List D) (beta : D)
      → Returns (partition_edges d edges ts_values n num_parts beta topk_ratio use_importance) (λ r.
        (is_hot : List Bool) × (s : SpeedState D) × IsPartition d n num_parts edges topk_ratio
          use_importance is_hot s r)
  unfolding partition_edges
  partition_edges-IsPartition ts_values beta =
      let raw = d.max (latest d (nought d) ts_values) d.nano in
      >>=-Returns (add_weights_of d beta raw edges _) _
        (add_weights_of-ends_at d n beta raw edges _ below (length-replicate n 0)
          (length-replicate n (nought d)))
        (λ weights (degrees_len, importances_len, counted).
          let hot_ids = hot_nodes d use_importance topk_ratio n weights in
          >>=-Returns (mark_hot hot_ids (replicate n false)) _
            (mark_hot-AreHot d n edges topk_ratio use_importance weights degrees_len importances_len
              (λ v.
                counted v ∙ ap (λ k. k + ends_at v edges) (get_or-replicate n v 0) ∙ omega arith)
              (hot_nodes-AllBelow d n num_parts use_importance topk_ratio weights degrees_len))
            (λ is_hot (hot_len, hot).
              >>=-Returns (perform_steps d is_hot (d.div raw (d.of_int (pos 10))) 0 edges _) _
                (perform_steps-IsState d n num_parts is_hot hot_len some_parts _ edges below)
                (λ s (st, ends, have_edges).
                  let (r, done, is) =
                    collect-IsPartition is_hot hot_ids weights.degrees s hot_len degrees_len hot st
                      ends have_edges in
                  (r, done, (is_hot, s, is)))))
