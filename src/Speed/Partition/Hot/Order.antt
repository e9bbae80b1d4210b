-- ===== src/Speed/Partition/Hot/Order.antt =====
-- sampler/speed_partition.cpp, which nodes are among the first after the sort.
use starrygl_tmp.Prelude.{
  ℕ, zero, suc, ◌+◌, ◌<◌, ◌≤◌, ltb, ◌==◌, ==_iff, Bool, false, List, [], ◌∷◌, map, take, length,
  get_or, length-map, length-take, count, if◌then◌else◌, Bool-cases, ◌≡◌, inl, inr, refl, sym, ap,
  ◌∙◌, arith,
}
use mathlib.Core.List.{Mem, Pairwise, mem-cons_self, mem-cons_of_mem}
use mathlib.Core.Path.{subst}
use starrygl_tmp.Sort.{stable_sort}
use starrygl_tmp.Sort.Counts.{All, stable_sort-All, count-map-stable_sort}
use starrygl_tmp.Sort.Laws.{IsStrictWeak, IsSorted, stable_sort-IsSorted, length-stable_sort}
use starrygl_tmp.Speed.Doubles.{Doubles}
use starrygl_tmp.Speed.Master.{Edge}
use starrygl_tmp.Speed.Graph.{SpeedNode, Weights, nodes_from, speed_less, topk_of, hot_nodes}
use starrygl_tmp.Speed.Partition.Hot.Ends.{ends_at}

-- The numbers of the nodes.
abbrev ids : {D : Type 0} → List (SpeedNode D) → List ℕ
ids = map (λ x. x.id)

count-take :
    {D : Type 0} (v k : ℕ) (xs : List (SpeedNode D)) → count v (ids (take k xs)) ≤ count v (ids xs)
unfolding count
count-take v zero xs = omega arith
count-take v (suc k) [] = omega arith
count-take v (suc k) (x ∷ xs) = omega (arith, count-take v k xs)

-- A number that stands among those of the nodes is of one of them.
node_of :
    {D : Type 0} (P : SpeedNode D → Type 0) (v : ℕ) (xs : List (SpeedNode D))
    → All P xs
    → 0 < count v (ids xs)
    → (b : SpeedNode D) × Mem b xs × P b × (b.id ≡ v)
unfolding count
node_of P v [] all present = elim present [ ]
node_of P v (x ∷ xs) all present = elim (Bool-cases (x.id == v)) [
  | inl e ↦ (x, mem-cons_self, all.0, (==_iff x.id v).0 e)
  | inr e ↦
      let (b, at, p, is) = node_of P v xs all.1 (omega (arith, rw e at present)) in
      (b, mem-cons_of_mem x at, p, is)
]

-- Of a node among the first of a sorted list, and one that is not among them: the second does not
-- come before the first.
first_and_rest :
    {D : Type 0} (less : SpeedNode D → SpeedNode D → Bool) (P : SpeedNode D → Type 0) (u v k : ℕ)
    (xs : List (SpeedNode D))
    → IsSorted less xs
    → All P xs
    → 0 < count u (ids (take k xs))
    → count v (ids (take k xs)) ≡ 0
    → 0 < count v (ids xs)
    → (a : SpeedNode D) × (b : SpeedNode D) × P a
      × P b
      × (a.id ≡ u)
      × (b.id ≡ v)
      × (less b a ≡ false)
unfolding count
first_and_rest less P u v zero xs sorted all first rest present = elim first [ ]
first_and_rest less P u v (suc k) [] sorted all first rest present = elim first [ ]
first_and_rest less P u v (suc k) (x ∷ xs) (Pairwise.cons before sorted) all first rest present =
    let later : 0 < count v (ids xs) = ground arith in
    elim (Bool-cases (x.id == u)) [
      | inl e ↦
          let (b, at, p, is) = node_of P v xs all.1 later in
          (x, b, all.0, p, (==_iff x.id u).0 e, is, before b at)
      | inr e ↦
          first_and_rest less P u v k xs sorted all.1 (omega (arith, rw e at first))
            (ground (arith, rest)) later
    ]

module _ {D : Type 0} (d : Doubles D) where
  by_degree-IsStrictWeak : IsStrictWeak (speed_less d false)
  unfolding speed_less
  by_degree-IsStrictWeak = record {
    asym = λ a b h. ground arith;
    trans = λ a b c h k. ground arith;
  }

  length-nodes_from :
      (i : ℕ) (degrees : List ℕ) (importances : List D)
      → length importances ≡ length degrees
      → length (nodes_from d i degrees importances) ≡ length degrees
  unfolding nodes_from
  length-nodes_from i [] importances h = refl
  length-nodes_from i (x ∷ degrees) [] h = absurd (omega (arith, h))
  length-nodes_from i (x ∷ degrees) (y ∷ importances) h =
      omega (arith, length-nodes_from (suc i) degrees importances (omega (arith, h)))

  -- The nodes from `i` on are each there once.
  count-nodes_from :
      (v i : ℕ) (degrees : List ℕ) (importances : List D)
      → length importances ≡ length degrees
      → count v (ids (nodes_from d i degrees importances))
        ≡ (if ltb v i then 0 else if ltb v (i + length degrees) then 1 else 0)
  unfolding nodes_from count
  count-nodes_from v i [] importances h = ground arith
  count-nodes_from v i (x ∷ degrees) [] h = absurd (omega (arith, h))
  count-nodes_from v i (x ∷ degrees) (y ∷ importances) h =
      let rest = count-nodes_from v (suc i) degrees importances (omega (arith, h)) in
      ground (arith, rest)

  nodes_from-degree :
      (i : ℕ) (degrees all : List ℕ) (importances : List D)
      → ((j : ℕ) → get_or all (i + j) 0 ≡ get_or degrees j 0)
      → All (λ (x : SpeedNode D). x.degree ≡ get_or all x.id 0) (nodes_from d i degrees importances)
  unfolding nodes_from
  nodes_from-degree i [] all importances same = tt
  nodes_from-degree i (x ∷ degrees) all [] same = tt
  nodes_from-degree i (x ∷ degrees) all (y ∷ importances) same = (
    sym (subst (λ k. get_or all k 0 ≡ x) (omega arith) (same 0)),
    nodes_from-degree (suc i) degrees all importances
        (λ j. subst (λ k. get_or all k 0 ≡ get_or degrees j 0) (omega arith) (same (suc j))),
  )

module _ {D : Type 0} (d : Doubles D) (n : ℕ) (edges : List (Edge D)) (topk_ratio : D)
    (use_importance : Bool) (w : Weights d) (degrees_len : length w.degrees ≡ n)
    (importances_len : length w.importances ≡ n)
    (counted : (v : ℕ) → get_or w.degrees v 0 ≡ ends_at v edges) where
  abbrev nodes : List (SpeedNode D)
  nodes = nodes_from d 0 w.degrees w.importances

  abbrev sorted_nodes : List (SpeedNode D)
  sorted_nodes = stable_sort (speed_less d use_importance) nodes

  pub length-hot_nodes : length (hot_nodes d use_importance topk_ratio n w) ≡ topk_of d topk_ratio n
  unfolding hot_nodes topk_of
  length-hot_nodes =
      length-map (take (topk_of d topk_ratio n) sorted_nodes) (λ (x : SpeedNode D). x.id)
      ∙ length-take (topk_of d topk_ratio n) sorted_nodes
      ∙ omega (
        arith,
        length-stable_sort (speed_less d use_importance) nodes,
        length-nodes_from d 0 w.degrees w.importances (importances_len ∙ sym degrees_len),
        degrees_len,
      )

  count-sorted_nodes : (v : ℕ) → count v (ids sorted_nodes) ≡ (if ltb v n then 1 else 0)
  count-sorted_nodes v =
      count-map-stable_sort (speed_less d use_importance) (λ (x : SpeedNode D). x.id) v nodes
      ∙ count-nodes_from d v 0 w.degrees w.importances (importances_len ∙ sym degrees_len)
      ∙ rw degrees_len (ground arith)

  pub hot_nodes-once : (v : ℕ) → count v (hot_nodes d use_importance topk_ratio n w) < 2
  unfolding hot_nodes
  hot_nodes-once v =
      ground (arith, count-take v (topk_of d topk_ratio n) sorted_nodes, count-sorted_nodes v)

  pub hot_nodes-heaviest :
      use_importance ≡ false
      → (u v : ℕ) → v < n
      → 0 < count u (hot_nodes d use_importance topk_ratio n w)
      → count v (hot_nodes d use_importance topk_ratio n w) ≡ 0
      → (ends_at v edges ≤ ends_at u edges) × (ends_at v edges ≡ ends_at u edges → u ≤ v)
  unfolding hot_nodes speed_less
  hot_nodes-heaviest by_degree u v lt hot cold =
      let weak : IsStrictWeak (speed_less d use_importance) =
        subst (λ b. IsStrictWeak (speed_less d b)) (sym by_degree) (by_degree-IsStrictWeak d) in
      let (a, b, deg_a, deg_b, a_is, b_is, later) =
        first_and_rest (speed_less d use_importance)
          (λ (x : SpeedNode D). x.degree ≡ get_or w.degrees x.id 0) u v (topk_of d topk_ratio n)
          sorted_nodes (stable_sort-IsSorted (speed_less d use_importance) weak nodes)
          (stable_sort-All (speed_less d use_importance) _ nodes (
            nodes_from-degree d 0 w.degrees w.degrees w.importances
              (λ j. ap (λ k. get_or w.degrees k 0) (omega arith))))
          hot cold (ground (arith, count-sorted_nodes v)) in
      let ends_a : a.degree ≡ ends_at u edges =
        deg_a ∙ ap (λ k. get_or w.degrees k 0) a_is ∙ counted u in
      let ends_b : b.degree ≡ ends_at v edges =
        deg_b ∙ ap (λ k. get_or w.degrees k 0) b_is ∙ counted v in
      let by : (if b.degree == a.degree then ltb b.id a.id else ltb a.degree b.degree) ≡ false =
        subst (λ c. speed_less d c b a ≡ false) by_degree later in
      (ground (arith, by, ends_a, ends_b), λ same. ground (arith, by, ends_a, ends_b, a_is, b_is))
