-- ===== src/Speed/Master/Choice.antt =====
-- Which part `choose_balanced_node_master` gives to each node.
use starrygl_tmp.Prelude.{
  ℕ, zero, suc, ◌+◌, ◌<◌, ◌≤◌, ltb, ◌==◌, ==_iff, ℤ, pos, negsuc, Bool, true, false, ◌&&◌, ◌||◌,
  List, [], ◌∷◌, ◌++◌, length, replicate, get_or, row_of, ok, fetch, if◌then◌else◌, Bool-cases,
  fetch-of-lt, ◌%◌, max, ℕ_discrete, ◌≢◌, length-replicate, count, count-snoc, Returns, >>=-Returns,
  HasRows, HasRows-replicate, fetch-Returns, row-Returns, ◌≡◌, inl, inr, refl, sym, ap, ◌∙◌, arith,
}
use mathlib.Core.Path.{subst}
use starrygl_tmp.Sort.{stable_sort}
use starrygl_tmp.Sort.Counts.{count-stable_sort}
use starrygl_tmp.Speed.Doubles.{Doubles, almost_equal}
use starrygl_tmp.Speed.State.{SpeedState, nought, one}
use starrygl_tmp.Speed.Invariant.{ArePlaced, HasShape}
use starrygl_tmp.Speed.Master.{
  Edge, degree_less, first_local_part_or_fallback, is_replica, add_affinity, Masters, visit_node,
  visit_nodes, add_weights, sum_from, best_master, choose_master, choose_masters,
  choose_balanced_node_master,
}
use starrygl_tmp.Speed.Master.Laws.{
  AreBelow, home, home-lt, is_replica-hot, add_affinity-Returns, add_weights-Returns, HasSize,
  master_at, give_master-Returns,
}

pub same_test : (k v : ℕ) → k ≡ v → (k == v) ≡ true
same_test k v e = (==_iff k v).1 e

pub other_test : (k v : ℕ) → k ≢ v → (k == v) ≡ false
other_test k v apart = elim (Bool-cases (k == v)) [
  | inl e ↦ absurd (apart ((==_iff k v).0 e))
  | inr e ↦ e
]

zero_if : (k v : ℕ) → k ≢ v → (if k == v then 1 else 0) ≤ 0
zero_if k v apart = ground (arith, other_test k v apart)

-- Every node has a part that owns it, and a node that is not hot has its own.
abbrev pub HaveMasters : {D : Type 0} → List Bool → ℕ → ℕ → SpeedState D → List ℤ → Type 0
HaveMasters is_hot n num_parts s masters =
    (length masters ≡ n)
    × ((v : ℕ)
        → v < n
        → (p : ℕ) × (p < num_parts)
          × (get_or masters v (negsuc 0) ≡ pos p)
          × (get_or is_hot v false ≡ false → p ≡ home num_parts s v))

module _ {D : Type 0} (d : Doubles D) (is_hot : List Bool) (n num_parts : ℕ) (s : SpeedState D)
    (placed : ArePlaced is_hot num_parts s) (shape : HasShape n num_parts s)
    (hot_len : length is_hot ≡ n) (some_parts : 0 < num_parts) (degree : List ℕ)
    (degree_len : length degree ≡ n) where
  -- The nodes below `k` have their own part, or wait among the replicas.
  record AreVisited (k : ℕ) (m : Masters d) : Type 0 where
    sized : HasSize n num_parts m
    own : (v : ℕ) → v < k → get_or is_hot v false ≡ false → master_at m v ≡ pos (home num_parts s v)
    waiting : (v : ℕ) → v < k → get_or is_hot v false ≡ true → 0 < count v m.replica_nodes
    only_hot : (v : ℕ) → 0 < count v m.replica_nodes → (get_or is_hot v false ≡ true) × (v < n)

  at_home :
      (v : ℕ)
      → v < n
      → Returns
          (first_local_part_or_fallback d s v (v % max s.num_parts 1))
          (λ part. part ≡ home num_parts s v)
  unfolding first_local_part_or_fallback
  at_home v lt =
      >>=-Returns (fetch s.node_parts v) _
        (_, fetch-of-lt s.node_parts v [] (rw shape.node_parts lt), refl)
        (λ parts (at : parts ≡ row_of s.node_parts v).
          (_, refl, rw at (ap (λ p. home p s v) placed.parts_are)))

  wait-AreVisited :
      (m : Masters d) (k : ℕ)
      → AreVisited k m
      → k < n
      → get_or is_hot k false ≡ true
      → AreVisited (suc k) (record m { replica_nodes = m.replica_nodes ++ k ∷ [] })
  wait-AreVisited m k vis lt hot = record {
    sized = vis.sized;
    own = λ v below cold. elim (ℕ_discrete k v) [
      | yes e ↦ cc (ap (λ v. get_or is_hot v false) e)
      | no apart ↦ vis.own v (omega (arith, apart)) cold
    ];
    waiting = λ v below hot_v. elim (ℕ_discrete k v) [
      | yes e ↦ ground (arith, count-snoc v m.replica_nodes k, e)
      | no apart ↦
          ground (arith, count-snoc v m.replica_nodes k, vis.waiting v (omega (arith, apart)) hot_v)
    ];
    only_hot = λ v any. elim (ℕ_discrete k v) [
      | yes e ↦ (ap (λ v. get_or is_hot v false) (sym e) ∙ hot, omega (arith, e))
      | no apart ↦
          vis.only_hot v (ground (arith, count-snoc v m.replica_nodes k, other_test k v apart))
    ];
  }

  visit_node-AreVisited :
      (m : Masters d) (k : ℕ)
      → AreVisited k m
      → k < n
      → Returns (visit_node d is_hot s degree m k) (AreVisited (suc k))
  unfolding visit_node
  visit_node-AreVisited m k vis lt =
      >>=-Returns (is_replica d is_hot s k) _
        (is_replica-hot d is_hot n num_parts s placed shape hot_len some_parts k lt)
        (λ replica is. elim (Bool-cases replica) [
          | inl e ↦ rw e (_, refl, wait-AreVisited m k vis lt (sym is ∙ e))
          | inr e ↦ rw e (
              >>=-Returns (first_local_part_or_fallback d s k (k % max s.num_parts 1)) _
                (at_home k lt)
                (λ part (here : part ≡ home num_parts s k).
                  let (m', done, (size, same, given)) =
                    give_master-Returns d is_hot n num_parts s placed shape hot_len some_parts
                      degree degree_len m k part vis.sized lt
                      (rw here
                        (home-lt d is_hot n num_parts s placed shape hot_len some_parts k)) in
                  (
                    m',
                    done,
                    record {
                      sized = size;
                      own = λ v below cold. rw (given v) (elim (ℕ_discrete k v) [
                        | yes at ↦ rw (same_test k v at) (ap pos (here ∙ ap (home num_parts s) at))
                        | no apart ↦
                            rw (other_test k v apart) (vis.own v (omega (arith, apart)) cold)
                      ]);
                      waiting = λ v below hot_v. elim (ℕ_discrete k v) [
                        | yes at ↦ cc (ap (λ v. get_or is_hot v false) at)
                        | no apart ↦ rw same (vis.waiting v (omega (arith, apart)) hot_v)
                      ];
                      only_hot = λ v any. vis.only_hot v (rw (← same) any);
                    },
                  )))
        ])

  visit_nodes-AreVisited :
      (j k : ℕ) (m : Masters d)
      → k + j ≡ n
      → AreVisited k m
      → Returns (visit_nodes d is_hot s degree j k m) (AreVisited n)
  unfolding visit_nodes
  visit_nodes-AreVisited zero k m at_end vis =
      (m, refl, subst (λ k. AreVisited k m) (omega (arith, at_end)) vis)
  visit_nodes-AreVisited (suc j) k m at_end vis =
      >>=-Returns (visit_node d is_hot s degree m k) _
        (visit_node-AreVisited m k vis (omega (arith, at_end)))
        (λ m' vis'. visit_nodes-AreVisited j (suc k) m' (omega (arith, at_end)) vis')

  best_master-lt :
      (hot : Bool) (marks : List Bool) (row load : List D) (penalty target : D) (k part best : ℕ)
      (best_score : D)
      → length marks ≡ num_parts
      → length row ≡ num_parts
      → length load ≡ num_parts
      → part + k ≤ num_parts
      → best < num_parts
      → Returns
          (best_master d hot marks row load penalty target k part best best_score)
          (λ best. best < num_parts)
  unfolding best_master
  best_master-lt hot marks row load penalty target zero part best best_score h₁ h₂ h₃ le lt =
      (best, refl, lt)
  best_master-lt hot marks row load penalty target (suc k) part best best_score h₁ h₂ h₃ le lt =
      let below : part < num_parts = omega arith in
      >>=-Returns (if hot then ok true else fetch marks part) _ (mark_of hot below) (λ mark _.
        >>=-Returns (fetch row part) _ (fetch-Returns row part num_parts h₂ below) (λ a _.
          >>=-Returns (fetch load part) _ (fetch-Returns load part num_parts h₃ below) (λ l _.
            best_master-lt hot marks row load penalty target k (suc part) _ _ h₁ h₂ h₃ (omega arith)
              (one_of below (
                mark
                && (d.lt (d.add best_score d.eps) (d.sub a (d.mul penalty (d.div l target)))
                    || (almost_equal d (d.sub a (d.mul penalty (d.div l target))) best_score
                        && ltb part best)))))))
    where
      mark_of :
          (hot : Bool)
          → part < num_parts
          → Returns (if hot then ok true else fetch marks part) (λ _. Unit {0})
      mark_of true below = (true, refl, tt)
      mark_of false below =
          let (b, e, _) = fetch-Returns marks part num_parts h₁ below in (b, e, tt)

      one_of : part < num_parts → (better : Bool) → (if better then part else best) < num_parts
      one_of below true = below
      one_of below false = lt

  module _ (affinity : List (List D)) (target_load : D) (rows : HasRows n num_parts affinity) where
    choose_master-Returns :
        (m : Masters d) (nid : ℕ)
        → HasSize n num_parts m
        → nid < n
        → Returns (choose_master d is_hot s degree affinity target_load m nid) (λ m'.
          HasSize n num_parts m'
          × ((v : ℕ) → v ≢ nid → master_at m' v ≡ master_at m v)
          × ((p : ℕ) × (p < num_parts) × (master_at m' nid ≡ pos p)))
    unfolding choose_master
    choose_master-Returns m nid size lt =
        >>=-Returns (fetch affinity nid) _ (row-Returns n num_parts affinity nid rows lt)
          (λ row at_row.
            >>=-Returns (fetch is_hot nid) _ (fetch-Returns is_hot nid n hot_len lt) (λ hot _.
              >>=-Returns (fetch s.is_in nid) _ (row-Returns n num_parts s.is_in nid shape.is_in lt)
                (λ marks at_marks.
                  >>=-Returns
                    (best_master d hot marks row m.master_load
                      (d.max (one d) (sum_from d (nought d) row)) target_load s.num_parts 0 0
                      (d.sub (nought d) d.infinity))
                    _
                    (best_master-lt hot marks row m.master_load _ target_load s.num_parts 0 0 _
                      at_marks.1 at_row.1 size.1 (omega (arith, placed.parts_are)) some_parts)
                    (λ best best_lt.
                      let (m', done, (size', same, given)) =
                        give_master-Returns d is_hot n num_parts s placed shape hot_len some_parts
                          degree degree_len m nid best size lt best_lt in
                      (
                        m',
                        done,
                        (
                          size',
                          λ v apart. given v ∙ rw (other_test nid v (λ e. apart (sym e))) refl,
                          (best, best_lt, given nid ∙ rw (same_test nid nid refl) refl),
                        ),
                      )))))

    -- The nodes of the list have a part, and the others keep what they have.
    choose_masters-Returns :
        (nodes : List ℕ) (m : Masters d)
        → HasSize n num_parts m
        → ((v : ℕ) → 0 < count v nodes → v < n)
        → Returns (choose_masters d is_hot s degree affinity target_load nodes m) (λ m'.
          HasSize n num_parts m'
          × ((v : ℕ) → count v nodes ≡ 0 → master_at m' v ≡ master_at m v)
          × ((v : ℕ) → 0 < count v nodes → (p : ℕ) × (p < num_parts) × (master_at m' v ≡ pos p)))
    unfolding choose_masters count
    choose_masters-Returns [] m size below =
        (m, refl, (size, λ v h. refl, λ v h. absurd (omega (arith, h))))
    choose_masters-Returns (nid ∷ nodes) m size below =
        >>=-Returns (choose_master d is_hot s degree affinity target_load m nid) _
          (choose_master-Returns m nid size (below nid (ground arith)))
          (λ m₁ first.
            let (m₂, done, (size₂, others, chosen)) =
              choose_masters-Returns nodes m₁ first.0 (λ v any. below v (omega (arith, any))) in
            (
              m₂,
              done,
              (
                size₂,
                λ v none. others v (omega (arith, none)) ∙ first.1 v (λ e. ground (arith, none, e)),
                λ v any. elim (ℕ_discrete (count v nodes) 0) [
                  | no later ↦ chosen v (omega (arith, later))
                  | yes never ↦ elim (ℕ_discrete nid v) [
                    | yes e ↦
                        let (p, lt, at) = first.2 in
                        (p, lt, others v never ∙ ap (master_at m₁) (sym e) ∙ at)
                    | no apart ↦ absurd (omega (arith, any, never, zero_if nid v apart))
                  ]
                ],
              ),
            ))

  none_waits :
      (m : Masters d)
      → AreVisited n m
      → (v : ℕ) → get_or is_hot v false ≡ false
      → count v m.replica_nodes ≡ 0
  none_waits m vis v cold = elim (ℕ_discrete (count v m.replica_nodes) 0) [
    | yes none ↦ none
    | no any ↦ cc ((vis.only_hot v (omega (arith, any))).0)
  ]

  pub choose_balanced_node_master-HaveMasters :
      (edges : List (Edge D)) (edge_owner : List ℤ)
      → s.num_nodes ≡ n
      → AreBelow n edges
      → length edge_owner ≡ length edges
      → Returns
          (choose_balanced_node_master d s edges edge_owner is_hot degree)
          (HaveMasters is_hot n num_parts s)
  unfolding choose_balanced_node_master count
  choose_balanced_node_master-HaveMasters edges edge_owner nodes_are below owners_len =
      >>=-Returns (add_affinity d s.num_parts edges edge_owner _) _
        (subst
          (λ p.
            Returns
              (add_affinity d p edges edge_owner (replicate s.num_nodes (replicate p (nought d))))
              (HasRows n num_parts))
          (sym placed.parts_are)
          (add_affinity-Returns d is_hot n num_parts s placed shape hot_len some_parts edges
            edge_owner _ below owners_len
            (subst
              (λ k. HasRows k num_parts (replicate s.num_nodes (replicate num_parts (nought d))))
              nodes_are (HasRows-replicate s.num_nodes num_parts (nought d)))))
        (λ affinity rows.
          >>=-Returns (visit_nodes d is_hot s degree s.num_nodes 0 _) _
            (visit_nodes-AreVisited s.num_nodes 0 _ (omega (arith, nodes_are)) (record {
              sized = (
                length-replicate s.num_nodes (negsuc 0) ∙ nodes_are,
                length-replicate s.num_parts (nought d) ∙ placed.parts_are,
              );
              own = λ v lt. absurd (omega arith);
              waiting = λ v lt. absurd (omega arith);
              only_hot = λ v any. absurd (omega arith);
            }))
            (λ visited (vis : AreVisited n visited).
              let sorted = stable_sort (degree_less degree) visited.replica_nodes in
              let same =
                λ (v : ℕ). count-stable_sort (degree_less degree) v visited.replica_nodes in
              >>=-Returns (add_weights d degree s.num_nodes 0 (nought d)) _
                (add_weights-Returns d is_hot n num_parts s placed shape hot_len some_parts degree
                  degree_len s.num_nodes 0 (nought d) (omega (arith, nodes_are)))
                (λ total _.
                  >>=-Returns (choose_masters d is_hot s degree affinity _ sorted visited) _
                    (choose_masters-Returns affinity _ rows sorted visited vis.sized
                      (λ v any. (vis.only_hot v (omega (arith, any, same v))).1))
                    (λ chosen is. (
                      chosen.node_master,
                      refl,
                      (
                        is.0.0,
                        λ v lt. elim (Bool-cases (get_or is_hot v false)) [
                          | inl hot ↦
                              let (p, p_lt, at) =
                                is.2 v (omega (arith, same v, vis.waiting v lt hot)) in
                              (p, p_lt, at, λ cold. cc)
                          | inr cold ↦ (
                            home num_parts s v,
                            home-lt d is_hot n num_parts s placed shape hot_len some_parts v,
                            is.1 v (same v ∙ none_waits visited vis v cold) ∙ vis.own v lt cold,
                            λ _. refl,
                          )
                        ],
                      ),
                    )))))
