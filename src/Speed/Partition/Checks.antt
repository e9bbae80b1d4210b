-- ===== src/Speed/Partition/Checks.antt =====
-- The checks of `speed_partition`: which inputs it partitions, and which it refuses.
use starrygl_tmp.Prelude.{
  ℕ, zero, suc, ◌<◌, ◌≤◌, ltb, lt→ltb, ltb→lt, ltb_ℤ, ◌==◌, ℤ, pos, negsuc, Bool, true, false, not,
  List, [], ◌∷◌, map, length, get_elem?, some, ok, err, torch_check, ◌>>=◌, Returns, AllBelow,
  Bool-cases, ◌≡◌, ◌⊎◌, inl, inr, refl, sym, ap, ◌∙◌, arith, length-map,
}
use mathlib.Core.Path.{subst}
use starrygl_tmp.Speed.Doubles.{Doubles}
use starrygl_tmp.Speed.State.{SpeedState}
use starrygl_tmp.Speed.Master.{Edge}
use starrygl_tmp.Speed.Master.Laws.{AreBelow}
use starrygl_tmp.Speed.Graph.{
  Input, require_1d_cpu_contiguous, tensor_num_nodes, check_node, check_edges,
}
use starrygl_tmp.Speed.Partition.{partition_edges, speed_partition}
use starrygl_tmp.Speed.Partition.Laws.{IsPartition, partition_edges-IsPartition}

-- A vector on the CPU.
abbrev pub cpu_vector : {A : Type 0} → List A → Input A
cpu_vector values = record { dim = 1; is_cpu = true; values = values }

-- The edges that three arrays stand for.
abbrev pub edges_of : {D : Type 0} → List ℕ → List ℕ → List D → List (Edge D)
edges_of [] dst ts = []
edges_of (u ∷ src) [] ts = []
edges_of (u ∷ src) (v ∷ dst) [] = []
edges_of (u ∷ src) (v ∷ dst) (t ∷ ts) = record { src = u; dst = v; ts = t } ∷ edges_of src dst ts

-- No node, or none of the first `n`.
abbrev pub IsOutside : ℕ → ℤ → Type 0
IsOutside n (pos u) = n ≤ u
IsOutside n (negsuc u) = Unit {0}

check_node-of_lt : (n u : ℕ) → u < n → check_node n (pos u) ≡ ok u
unfolding check_node
check_node-of_lt n u lt = rw (lt→ltb u n lt) refl

check_node-outside : (n : ℕ) (u : ℤ) → IsOutside n u → check_node n u ≡ err torch_check
unfolding check_node
check_node-outside n (pos u) out = elim (Bool-cases (ltb u n)) [
  | inl e ↦ absurd (omega (arith, ltb→lt u n e))
  | inr e ↦ rw e refl
]
check_node-outside n (negsuc u) out = refl

-- The check of a node passes, or throws.
check_node-cases :
    (n : ℕ) (u : ℤ) → (check_node n u ≡ err torch_check) ⊎ ((k : ℕ) × (check_node n u ≡ ok k))
unfolding check_node
check_node-cases n (pos u) = elim (Bool-cases (ltb u n)) [
  | inl e ↦ inr (u, rw e refl)
  | inr e ↦ inl (rw e refl)
]
check_node-cases n (negsuc u) = inl refl

same_length : (a b : ℕ) → a ≡ b → not (a == b) ≡ false
same_length a b e = ground (arith, e)

module _ {D : Type 0} (d : Doubles D) (n : ℕ) where
  check_edges-edges_of :
      (src dst : List ℕ) (ts : List D)
      → length src ≡ length dst
      → length ts ≡ length src
      → AllBelow n src
      → AllBelow n dst
      → check_edges d n (map (λ u. pos u) src) (map (λ v. pos v) dst) ts ≡ ok (edges_of src dst ts)
  unfolding check_edges
  check_edges-edges_of [] dst ts h k below_u below_v = refl
  check_edges-edges_of (u ∷ src) [] ts h k below_u below_v = absurd (omega (arith, h))
  check_edges-edges_of (u ∷ src) (v ∷ dst) [] h k below_u below_v = absurd (omega (arith, k))
  check_edges-edges_of (u ∷ src) (v ∷ dst) (t ∷ ts) h k below_u below_v =
      rw
        (
          check_node-of_lt n u below_u.0,
          check_node-of_lt n v below_v.0,
          check_edges-edges_of src dst ts (omega (arith, h)) (omega (arith, k)) below_u.1 below_v.1,
        )
        refl

  edges_of-AreBelow :
      (src dst : List ℕ) (ts : List D)
      → AllBelow n src
      → AllBelow n dst
      → AreBelow n (edges_of src dst ts)
  edges_of-AreBelow [] dst ts below_u below_v = tt
  edges_of-AreBelow (u ∷ src) [] ts below_u below_v = tt
  edges_of-AreBelow (u ∷ src) (v ∷ dst) [] below_u below_v = tt
  edges_of-AreBelow (u ∷ src) (v ∷ dst) (t ∷ ts) below_u below_v =
      (below_u.0, below_v.0, edges_of-AreBelow src dst ts below_u.1 below_v.1)

  -- One node outside is enough.
  check_edges-outside :
      (src dst : List ℤ) (ts : List D) (i : ℕ) (u v : ℤ)
      → length src ≡ length dst
      → length ts ≡ length src
      → get_elem? src i ≡ some u
      → get_elem? dst i ≡ some v
      → IsOutside n u ⊎ IsOutside n v
      → check_edges d n src dst ts ≡ err torch_check
  unfolding check_edges
  check_edges-outside [] dst ts i u v h k at_u at_v out = cc
  check_edges-outside (x ∷ src) [] ts i u v h k at_u at_v out = absurd (omega (arith, h))
  check_edges-outside (x ∷ src) (y ∷ dst) [] i u v h k at_u at_v out = absurd (omega (arith, k))
  check_edges-outside (x ∷ src) (y ∷ dst) (t ∷ ts) zero u v h k at_u at_v out =
      let u_is : u ≡ x = cc in
      let v_is : v ≡ y = cc in
      elim (check_node-cases n x) [
        | inl bad ↦ rw bad refl
        | inr (x', good) ↦ elim out [
          | inl out_u ↦ cc (check_node-outside n x (subst (IsOutside n) u_is out_u))
          | inr out_v ↦ rw (good, check_node-outside n y (subst (IsOutside n) v_is out_v)) refl
        ]
      ]
  check_edges-outside (x ∷ src) (y ∷ dst) (t ∷ ts) (suc i) u v h k at_u at_v out =
      let later =
        check_edges-outside src dst ts i u v (omega (arith, h)) (omega (arith, k)) at_u at_v out in
      elim (check_node-cases n x) [
        | inl bad ↦ rw bad refl
        | inr (x', good) ↦ elim (check_node-cases n y) [
          | inl bad' ↦ rw (good, bad') refl
          | inr (y', good') ↦ rw (good, good', later) refl
        ]
      ]

module _ {D : Type 0} (d : Doubles D) where
  -- What the checks before those of the nodes leave, for vectors of one length on the CPU.
  speed_partition-step :
      (src dst : List ℤ) (ts : List D) (n num_parts : ℕ) (beta topk_ratio : D)
      (use_importance : Bool)
      → 0 < n
      → 0 < num_parts
      → length src ≡ length dst
      → length ts ≡ length src
      → speed_partition d
          (cpu_vector src)
          (cpu_vector dst)
          (cpu_vector ts)
          (pos n)
          (pos num_parts)
          beta
          topk_ratio
          use_importance
        ≡ (check_edges d n src dst ts
            >>= (λ edges. partition_edges d edges ts n num_parts beta topk_ratio use_importance))
  unfolding speed_partition require_1d_cpu_contiguous tensor_num_nodes
  speed_partition-step src dst ts n num_parts beta topk_ratio use_importance n_pos parts_pos h k =
      rw
        (
          positive num_parts parts_pos,
          same_length (length src) (length dst) h,
          same_length (length ts) (length src) k,
          positive n n_pos,
        )
        refl
    where
      positive : (m : ℕ) → 0 < m → ltb_ℤ (pos 0) (pos m) ≡ true
      positive m lt = ground arith

  -- For vectors of one length on the CPU, at least one part and node, and nodes below `num_nodes`,
  -- `speed_partition` returns, whatever the floating point operations give, and there are marks `is_hot`
  -- and a `SpeedState` for which this holds. The `hot_node_ids` are different nodes,
  -- `floor(topk_ratio * num_nodes)` many, held between none and all; the marks are set at these and no
  -- others; by degree, each of them has at least as many edge ends as any node that is not among them, and
  -- with as many the smaller number. The `replica_mask` is those marks, and the shared nodes are the marked
  -- ones. Every edge is once in the list of one part or once dropped, and it is owned by the part that
  -- lists it or, if it was dropped, by the first part of its destination. Both ends of an edge in the list
  -- of a part are in some part, and a hot one is in that part; a node is in no part but those that list an
  -- edge with it as an end, and one that is not hot is in at most one. Every node has a master among the
  -- parts, and one that is not hot has the first part it is in. For a node in no part, its number modulo
  -- the number of parts counts as that first part. Each part has the hot nodes as replicas, owns the other
  -- nodes that are in it, and has no shadow nodes.
  pub speed_partition-IsPartition :
      (src dst : List ℕ) (ts : List D) (n num_parts : ℕ) (beta topk_ratio : D)
      (use_importance : Bool)
      → 0 < n
      → 0 < num_parts
      → length src ≡ length dst
      → length ts ≡ length src
      → AllBelow n src
      → AllBelow n dst
      → Returns
          (speed_partition d
            (cpu_vector (map (λ u. pos u) src))
            (cpu_vector (map (λ v. pos v) dst))
            (cpu_vector ts)
            (pos n)
            (pos num_parts)
            beta
            topk_ratio
            use_importance)
          (λ r.
            (is_hot : List Bool) × (s : SpeedState D) × IsPartition d n num_parts
              (edges_of src dst ts)
              topk_ratio
              use_importance
              is_hot
              s
              r)
  speed_partition-IsPartition src dst ts n num_parts beta topk_ratio use_importance n_pos parts_pos
        h k below_u below_v =
      let (r, done, is) =
        partition_edges-IsPartition d n num_parts parts_pos (edges_of src dst ts)
          (edges_of-AreBelow d n src dst ts below_u below_v) topk_ratio use_importance ts beta in
      (
        r,
        speed_partition-step (map (λ u. pos u) src) (map (λ v. pos v) dst) ts n num_parts beta
              topk_ratio use_importance n_pos parts_pos
              (length-map src _ ∙ h ∙ sym (length-map dst _)) (k ∙ sym (length-map src _))
            ∙ ap
                (λ edges. edges >>= (λ edges.
                  partition_edges d edges ts n num_parts beta topk_ratio use_importance))
                (check_edges-edges_of d n src dst ts h k below_u below_v)
            ∙ done,
        is,
      )

  -- For vectors of one length on the CPU, at least one part, and a `num_nodes` above 0: where one edge
  -- has a node that is negative, or not below `num_nodes`, `speed_partition` throws.
  pub speed_partition-err :
      (src dst : List ℤ) (ts : List D) (n num_parts : ℕ) (beta topk_ratio : D)
      (use_importance : Bool) (i : ℕ) (u v : ℤ)
      → 0 < n
      → 0 < num_parts
      → length src ≡ length dst
      → length ts ≡ length src
      → get_elem? src i ≡ some u
      → get_elem? dst i ≡ some v
      → IsOutside n u ⊎ IsOutside n v
      → speed_partition d
          (cpu_vector src)
          (cpu_vector dst)
          (cpu_vector ts)
          (pos n)
          (pos num_parts)
          beta
          topk_ratio
          use_importance
        ≡ err torch_check
  speed_partition-err src dst ts n num_parts beta topk_ratio use_importance i u v n_pos parts_pos h
        k at_u at_v out =
      speed_partition-step src dst ts n num_parts beta topk_ratio use_importance n_pos parts_pos h k
      ∙ ap
          (λ edges.
            edges
            >>= (λ edges. partition_edges d edges ts n num_parts beta topk_ratio use_importance))
          (check_edges-outside d n src dst ts i u v h k at_u at_v out)
