-- ===== src/Speed/Master/Laws.antt =====
-- Every node gets a part that owns it; a node that is not hot gets its own.
use starrygl_tmp.Prelude.{
  ℕ, zero, suc, ◌+◌, ◌<◌, ◌≤◌, ◌%◌, max, ltb, ◌==◌, ltb→lt, ℤ, pos, negsuc, Bool, true, false, List,
  [], ◌∷◌, length, get_or, row_of, set, fetch, modify_row, if◌then◌else◌, Bool-cases, fetch-of-lt,
  modify-of-lt, get_or-of-get_elem?, get_or-set, length-set, AllBelow, Returns, >>=-Returns,
  HasRows, fetch-Returns, modify-Returns, modify_row-Returns, ◌≡◌, inl, inr, refl, sym, ◌∙◌, arith,
}
use starrygl_tmp.Speed.Doubles.{Doubles}
use starrygl_tmp.Speed.State.{SpeedState, one}
use starrygl_tmp.Speed.Invariant.{ArePlaced, HasShape}
use starrygl_tmp.Speed.Master.{
  Edge, is_replica, add_edge_affinity, add_affinity, weight_of, Masters, give_master, add_weights,
}

-- The nodes of the edges are below `n`.
abbrev pub AreBelow : {D : Type 0} → ℕ → List (Edge D) → Type 0
AreBelow n [] = Unit {0}
AreBelow n (e ∷ edges) = (e.src < n) × (e.dst < n) × AreBelow n edges

-- The first part of a node, or what the code takes for a node without parts.
abbrev pub home : {D : Type 0} → ℕ → SpeedState D → ℕ → ℕ
home num_parts s v = elim (row_of s.node_parts v) [ [] ↦ v % max num_parts 1 | part ∷ rest ↦ part ]

abbrev pub HasSize : {D : Type 0} {d : Doubles D} → ℕ → ℕ → Masters d → Type 0
HasSize n num_parts m = (length m.node_master ≡ n) × (length m.master_load ≡ num_parts)

abbrev pub master_at : {D : Type 0} {d : Doubles D} → Masters d → ℕ → ℤ
master_at m v = get_or m.node_master v (negsuc 0)

module _ {D : Type 0} (d : Doubles D) (is_hot : List Bool) (n num_parts : ℕ) (s : SpeedState D)
    (placed : ArePlaced is_hot num_parts s) (shape : HasShape n num_parts s)
    (hot_len : length is_hot ≡ n) (some_parts : 0 < num_parts) where
  pub home-lt : (v : ℕ) → home num_parts s v < num_parts
  home-lt v = first (row_of s.node_parts v) (placed.parts_below v)
    where
      first :
          (parts : List ℕ)
          → AllBelow num_parts parts
          → elim parts [ [] ↦ v % max num_parts 1 | part ∷ rest ↦ part ] < num_parts
      first [] below = grind arith
      first (p ∷ ps) below = below.0

  -- A node is a replica if and only if it is hot.
  pub is_replica-hot :
      (v : ℕ) → v < n → Returns (is_replica d is_hot s v) (λ b. b ≡ get_or is_hot v false)
  unfolding is_replica
  is_replica-hot v lt =
      >>=-Returns (fetch is_hot v) _ (fetch-Returns is_hot v n hot_len lt) (λ hot found.
        let at : get_or is_hot v false ≡ hot = get_or-of-get_elem? is_hot v false found in
        elim (Bool-cases hot) [
          | inl e ↦ rw e (true, refl, sym (at ∙ e))
          | inr e ↦ rw e (
            _,
            rw (fetch-of-lt s.node_parts v [] (rw shape.node_parts lt)) refl,
            not_more (row_of s.node_parts v) (placed.cold_once v (at ∙ e)) ∙ sym (at ∙ e),
          )
        ])
    where
      not_more : (xs : List ℕ) → length xs < 2 → ltb 1 (length xs) ≡ false
      not_more xs lt = ground arith

  add_edge_affinity-Returns :
      (e : Edge D) (owner : ℤ) (affinity : List (List D))
      → e.src < n
      → e.dst < n
      → HasRows n num_parts affinity
      → Returns (add_edge_affinity d num_parts e owner affinity) (HasRows n num_parts)
  unfolding add_edge_affinity
  add_edge_affinity-Returns e (negsuc k) affinity lt_u lt_v rows = (affinity, refl, rows)
  add_edge_affinity-Returns e (pos part) affinity lt_u lt_v rows =
      elim (Bool-cases (ltb part num_parts)) [
        | inl h ↦
            let lt : part < num_parts = ltb→lt part num_parts h in
            rw h (
              >>=-Returns (modify_row affinity e.src part (λ a. d.add a (one d))) _
                (modify_row-Returns n num_parts affinity e.src part _ rows lt_u lt)
                (λ of_src rows'. modify_row-Returns n num_parts of_src e.dst part _ rows' lt_v lt))
        | inr h ↦ rw h (affinity, refl, rows)
      ]

  pub add_affinity-Returns :
      (edges : List (Edge D)) (owners : List ℤ) (affinity : List (List D))
      → AreBelow n edges
      → length owners ≡ length edges
      → HasRows n num_parts affinity
      → Returns (add_affinity d num_parts edges owners affinity) (HasRows n num_parts)
  unfolding add_affinity
  add_affinity-Returns [] owners affinity below len rows = (affinity, refl, rows)
  add_affinity-Returns (e ∷ edges) [] affinity below len rows = absurd (omega (arith, len))
  add_affinity-Returns (e ∷ edges) (owner ∷ owners) affinity below len rows =
      >>=-Returns (add_edge_affinity d num_parts e owner affinity) _
        (add_edge_affinity-Returns e owner affinity below.0 below.1 rows)
        (λ affinity' rows'.
          add_affinity-Returns edges owners affinity' below.2 (omega (arith, len)) rows')

  module _ (degree : List ℕ) (degree_len : length degree ≡ n) where
    weight_of-Returns : (v : ℕ) → v < n → Returns (weight_of d degree v) (λ _. Unit {0})
    unfolding weight_of
    weight_of-Returns v lt =
        >>=-Returns (fetch degree v) _ (fetch-Returns degree v n degree_len lt)
          (λ deg _. (_, refl, tt))

    pub add_weights-Returns :
        (k v : ℕ) (total : D) → v + k ≤ n → Returns (add_weights d degree k v total) (λ _. Unit {0})
    unfolding add_weights
    add_weights-Returns zero v total le = (total, refl, tt)
    add_weights-Returns (suc k) v total le =
        >>=-Returns (weight_of d degree v) _ (weight_of-Returns v (omega arith))
          (λ weight _. add_weights-Returns k (suc v) _ (omega arith))

    pub give_master-Returns :
        (m : Masters d) (nid part : ℕ)
        → HasSize n num_parts m
        → nid < n
        → part < num_parts
        → Returns (give_master d degree m nid part) (λ m'.
          HasSize n num_parts m'
          × (m'.replica_nodes ≡ m.replica_nodes)
          × ((v : ℕ) → master_at m' v ≡ (if nid == v then pos part else master_at m v)))
    unfolding give_master
    give_master-Returns m nid part size lt lt' =
        let in₁ : nid < length m.node_master = rw size.0 lt in
        let (weight, e, _) = weight_of-Returns nid lt in
        let (load, e', load_len) =
          modify-Returns m.master_load part num_parts (λ load. d.add load weight) size.1 lt' in
        (
          record m { node_master = set m.node_master nid (pos part); master_load = load },
          rw (modify-of-lt m.node_master nid (λ _. pos part) (negsuc 0) in₁, e, e') refl,
          (
            (length-set m.node_master nid (pos part) ∙ size.0, load_len),
            refl,
            λ v. get_or-set m.node_master nid v (pos part) (negsuc 0) in₁,
          ),
        )
