-- ===== src/Speed/Partition/Start.antt =====
-- What `speed_partition` computes before the steps, and the state after them.
use starrygl_tmp.Prelude.{
  ℕ, zero, suc, ◌+◌, ◌<◌, ◌≤◌, Bool, false, List, [], ◌∷◌, map, length, replicate, take, get_or,
  get_elem?, some, row_of, Returns, HasRows-replicate, length-replicate, get_or-replicate, count,
  count_all, AllBelow, ◌≡◌, refl, sym, ap, ◌∙◌, arith,
}
use mathlib.Core.Path.{subst}
use starrygl_tmp.Sort.Counts.{All, stable_sort-All}
use starrygl_tmp.Speed.Doubles.{Doubles}
use starrygl_tmp.Speed.State.{SpeedState, initial, nought}
use starrygl_tmp.Speed.Invariant.{IsState}
use starrygl_tmp.Speed.Step.Laws.{perform_step-IsState}
use starrygl_tmp.Speed.Step.Ends.{AreEndsPlaced, HaveEdges}
use starrygl_tmp.Speed.Step.Ends.Edges.{perform_step-HaveEdges}
use starrygl_tmp.Speed.Step.Ends.Steps.{perform_step-AreEndsPlaced}
use starrygl_tmp.Speed.Master.{Edge}
use starrygl_tmp.Speed.Master.Laws.{AreBelow}
use starrygl_tmp.Speed.Graph.{SpeedNode, Weights, nodes_from, speed_less, hot_nodes}
use starrygl_tmp.Speed.Partition.{perform_steps}

nil_row : (k v : ℕ) → row_of {A = ℕ} (replicate k []) v ≡ []
nil_row k v = get_or-replicate k v []

constant_entry :
    {A : Type 0} (n m v p : ℕ) (a : A) → get_or (row_of (replicate n (replicate m a)) v) p a ≡ a
constant_entry zero m v p a = refl
constant_entry (suc n) m zero p a = get_or-replicate m p a
constant_entry (suc n) m (suc v) p a = constant_entry n m v p a

count_all-nil : (k e : ℕ) → count_all e (replicate k []) ≡ 0
unfolding count_all count
count_all-nil zero e = refl
count_all-nil (suc k) e = omega (arith, count_all-nil k e)

module _ {D : Type 0} (d : Doubles D) (n num_parts : ℕ) where
  pub initial-IsState :
      (is_hot : List Bool) (num_edges : ℕ)
      → IsState is_hot n num_parts 0 (initial d n num_edges num_parts)
  unfolding initial count
  initial-IsState is_hot num_edges = record {
    placed = record {
      parts_are = refl;
      marked = λ v p. rw (nil_row n v, constant_entry n num_parts v p false) refl;
      cold_once = λ v cold. rw (nil_row n v) (omega arith);
      parts_below = λ v. rw (nil_row n v) tt;
      node_load = λ p. get_or-replicate num_parts p 0 ∙ sym (count_all-nil n p);
    };
    listed = record {
      edges_once = λ e. ground (arith, count_all-nil num_parts e);
      edge_load = λ p. rw (nil_row num_parts p) (get_or-replicate num_parts p 0);
    };
    shape = record {
      num_nodes = refl;
      time_bal = length-replicate num_parts (nought d);
      node_parts = length-replicate n [];
      is_in = HasRows-replicate n num_parts false;
      degree = length-replicate n 0;
      degree_in = length-replicate n 0;
      importance = length-replicate n (nought d);
      edge_ids_by_part = length-replicate num_parts [];
      edge_load_by_part = length-replicate num_parts 0;
      node_load_by_part = length-replicate num_parts 0;
      importance_by_part = HasRows-replicate n num_parts (nought d);
      last_ts_by_part = HasRows-replicate n num_parts (nought d);
    };
  }

  initial-AreEndsPlaced :
      (is_hot : List Bool) (edges : List (Edge D))
      → AreEndsPlaced is_hot edges (initial d n (length edges) num_parts)
  unfolding initial count
  initial-AreEndsPlaced is_hot edges i p e at listed =
      absurd (omega (arith, rw (nil_row num_parts p) at listed))

  initial-HaveEdges :
      (edges : List (Edge D)) → HaveEdges edges (initial d n (length edges) num_parts)
  unfolding initial count
  initial-HaveEdges edges v p there = absurd (omega (arith, rw (nil_row n v) at there))

  -- The edges `edges` are those of `all` from the edge `eid` on.
  perform_steps-Holds :
      (is_hot : List Bool)
      → length is_hot ≡ n
      → 0 < num_parts
      → (all : List (Edge D)) (max_time : D) (eid : ℕ) (edges : List (Edge D)) (s : SpeedState D)
      → AreBelow n edges
      → ((j : ℕ) → get_elem? all (eid + j) ≡ get_elem? edges j)
      → IsState is_hot n num_parts eid s
      → AreEndsPlaced is_hot all s
      → HaveEdges all s
      → Returns (perform_steps d is_hot max_time eid edges s) (λ s'.
        IsState is_hot n num_parts (eid + length edges) s'
        × AreEndsPlaced is_hot all s'
        × HaveEdges all s')
  unfolding perform_steps
  perform_steps-Holds is_hot hot_len some_parts all max_time eid [] s below same st ends have =
      (s, refl, (subst (λ i. IsState is_hot n num_parts i s) (omega arith) st, ends, have))
  perform_steps-Holds is_hot hot_len some_parts all max_time eid (e ∷ edges) s below same st ends
        have =
      let at : get_elem? all eid ≡ some e =
        subst (λ i. get_elem? all i ≡ some e) (omega arith) (same 0) in
      let (s₁, step, st₁) =
        perform_step-IsState d is_hot n num_parts eid hot_len s e.src e.dst e.ts max_time 1 0
          some_parts st below.0 below.1 in
      let ends₁ =
        perform_step-AreEndsPlaced d is_hot n num_parts eid hot_len all e at below.0 below.1 s s₁
          e.ts max_time 1 0 some_parts st ends step in
      let have₁ =
        perform_step-HaveEdges d is_hot n num_parts eid hot_len all e at below.0 below.1 s s₁ e.ts
          max_time 1 0 some_parts st have step in
      let (s₂, done, (st₂, ends₂, have₂)) =
        perform_steps-Holds is_hot hot_len some_parts all max_time (suc eid) edges s₁ below.2
          (λ j. subst (λ i. get_elem? all i ≡ get_elem? edges j) (omega arith) (same (suc j))) st₁
          ends₁ have₁ in
      (
        s₂,
        rw step done,
        (subst (λ i. IsState is_hot n num_parts i s₂) (omega arith) st₂, ends₂, have₂),
      )

  -- From the state of the constructor.
  pub perform_steps-IsState :
      (is_hot : List Bool)
      → length is_hot ≡ n
      → 0 < num_parts
      → (max_time : D) (edges : List (Edge D)) → AreBelow n edges
      → Returns
          (perform_steps d is_hot max_time 0 edges (initial d n (length edges) num_parts))
          (λ s.
            IsState is_hot n num_parts (length edges) s
            × AreEndsPlaced is_hot edges s
            × HaveEdges edges s)
  perform_steps-IsState is_hot hot_len some_parts max_time edges below =
      let (s, done, (st, ends, have)) =
        perform_steps-Holds is_hot hot_len some_parts edges max_time 0 edges _ below
          (λ j. ap (get_elem? edges) (omega arith)) (initial-IsState is_hot (length edges))
          (initial-AreEndsPlaced is_hot edges) (initial-HaveEdges edges) in
      (s, done, (subst (λ i. IsState is_hot n num_parts i s) (omega arith) st, ends, have))

  nodes_from-All :
      (i : ℕ) (degrees : List ℕ) (importances : List D)
      → i + length degrees ≤ n
      → All (λ (x : SpeedNode D). x.id < n) (nodes_from d i degrees importances)
  unfolding nodes_from
  nodes_from-All i [] importances le = tt
  nodes_from-All i (deg ∷ degrees) [] le = tt
  nodes_from-All i (deg ∷ degrees) (imp ∷ importances) le =
      (omega arith, nodes_from-All (suc i) degrees importances (omega arith))

  take_ids-AllBelow :
      (k : ℕ) (xs : List (SpeedNode D))
      → All (λ (x : SpeedNode D). x.id < n) xs
      → AllBelow n (map (λ (x : SpeedNode D). x.id) (take k xs))
  take_ids-AllBelow zero xs all = tt
  take_ids-AllBelow (suc k) [] all = tt
  take_ids-AllBelow (suc k) (x ∷ xs) all = (all.0, take_ids-AllBelow k xs all.1)

  pub hot_nodes-AllBelow :
      (use_importance : Bool) (topk_ratio : D) (w : Weights d)
      → length w.degrees ≡ n
      → AllBelow n (hot_nodes d use_importance topk_ratio n w)
  unfolding hot_nodes
  hot_nodes-AllBelow use_importance topk_ratio w h = take_ids-AllBelow _ _ (
      stable_sort-All (speed_less d use_importance) (λ (x : SpeedNode D). x.id < n) _
        (nodes_from-All 0 w.degrees w.importances (omega (arith, h))))
