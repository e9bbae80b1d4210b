-- ===== src/Speed/Partition/Locals.antt =====
-- Which nodes each part has, as replicas and as its own.
use starrygl_tmp.Prelude.{
  ℕ, zero, suc, ◌+◌, ◌<◌, ◌≤◌, ◌%◌, max, ℤ, pos, negsuc, ℤ-discrete, Bool, true, false, List, [],
  ◌∷◌, ◌++◌, map, append-nil, append_assoc, length, get_or, row_of, if_pos, Result, fetch, traverse,
  count, Returns, >>=-Returns, fetch-of-lt, if◌then◌else◌, Bool-cases, ◌≡◌, inl, inr, refl, sym, ap,
  ◌∙◌, arith,
}
use mathlib.Core.Path.{subst}
use starrygl_tmp.Speed.Doubles.{Doubles}
use starrygl_tmp.Speed.State.{SpeedState}
use starrygl_tmp.Speed.Invariant.{ArePlaced, HasShape}
use starrygl_tmp.Speed.Master.{is_replica}
use starrygl_tmp.Speed.Master.Laws.{home, is_replica-hot}
use starrygl_tmp.Speed.Partition.{
  range, replica_mask_of, shared_nodes, file_node, PartNodes, add_local, add_locals, local_nodes_of,
}

-- The numbers that pass a test.
abbrev pub select : (ℕ → Bool) → List ℕ → List ℕ
select test [] = []
select test (x ∷ xs) = if test x then x ∷ select test xs else select test xs

traverse-range :
    {A : Type 0} (f : ℕ → Result A) (g : ℕ → A) (i k : ℕ)
    → ((v : ℕ) → v < i + k → Returns (f v) (λ a. a ≡ g v))
    → Returns (traverse f (range i k)) (λ xs. xs ≡ map g (range i k))
unfolding traverse
traverse-range f g i zero each = ([], refl, refl)
traverse-range f g i (suc k) each = >>=-Returns (f i) _ (each i (omega arith)) (λ a (at : a ≡ g i).
    >>=-Returns (traverse f (range (suc i) k)) _
      (traverse-range f g (suc i) k (λ v lt. each v (omega arith)))
      (λ xs (rest : xs ≡ map g (range (suc i) k)). (a ∷ xs, refl, λ j. at j ∷ rest j)))

get_or-map-range :
    {A : Type 0} (g : ℕ → A) (i k j : ℕ) (a : A)
    → j < k
    → get_or (map g (range i k)) j a ≡ g (i + j)
get_or-map-range g i zero j a lt = elim lt [ ]
get_or-map-range g i (suc k) zero a lt = ap g (omega arith)
get_or-map-range g i (suc k) (suc j) a lt =
    get_or-map-range g (suc i) k j a (omega arith) ∙ ap g (omega arith)

length-map-range : {A : Type 0} (g : ℕ → A) (i k : ℕ) → length (map g (range i k)) ≡ k
length-map-range g i zero = refl
length-map-range g i (suc k) = ap suc (length-map-range g (suc i) k)

pub shared_nodes-select :
    (g : ℕ → Bool) (i k : ℕ) → shared_nodes (range i k) (map g (range i k)) ≡ select g (range i k)
unfolding shared_nodes
shared_nodes-select g i zero = refl
shared_nodes-select g i (suc k) = elim (Bool-cases (g i)) [
  | inl e ↦ rw e (ap (λ xs. i ∷ xs) (shared_nodes-select g (suc i) k))
  | inr e ↦ rw e (shared_nodes-select g (suc i) k)
]

-- By whether the node is hot, and in the part.
file_node-lem :
    (replica inside : Bool) (master : ℤ) (p : ℕ) (x : PartNodes) (v : ℕ)
    → (replica ≡ false → inside ≡ true → master ≡ pos p)
    → ((file_node replica inside master p x v).replica_nodes
        ≡ x.replica_nodes ++ (if replica then v ∷ [] else []))
      × ((file_node replica inside master p x v).owned_nodes
          ≡ x.owned_nodes ++ (if (if replica then false else inside) then v ∷ [] else []))
      × ((file_node replica inside master p x v).shadow_nodes ≡ x.shadow_nodes)
unfolding file_node
file_node-lem true true master p x v own = (refl, sym (append-nil x.owned_nodes), refl)
file_node-lem true false master p x v own = (refl, sym (append-nil x.owned_nodes), refl)
file_node-lem false true master p x v own =
    let e : file_node false true master p x v ≡ record x { owned_nodes = x.owned_nodes ++ v ∷ [] } =
      if_pos (ℤ-discrete master (pos p)) (own refl refl) _ _ in
    (
      ap (λ (y : PartNodes). y.replica_nodes) e ∙ sym (append-nil x.replica_nodes),
      ap (λ (y : PartNodes). y.owned_nodes) e,
      ap (λ (y : PartNodes). y.shadow_nodes) e,
    )
file_node-lem false false master p x v own =
    (sym (append-nil x.replica_nodes), sym (append-nil x.owned_nodes), refl)

append_select :
    (test : ℕ → Bool) (v : ℕ) (vs xs ys : List ℕ)
    → ys ≡ xs ++ (if test v then v ∷ [] else [])
    → ys ++ select test vs ≡ xs ++ (if test v then v ∷ select test vs else select test vs)
append_select test v vs xs ys h = elim (Bool-cases (test v)) [
  | inl e ↦ rw (h, e) (append_assoc xs (v ∷ []) (select test vs))
  | inr e ↦ rw (h, e) (append_assoc xs [] (select test vs))
]

-- A list that has a number, and has less than two, is that number alone.
only_one : (p : ℕ) (xs : List ℕ) → count p xs ≡ 1 → length xs < 2 → xs ≡ p ∷ []
unfolding count
only_one p [] h lt = absurd (omega (arith, h))
only_one p (x ∷ []) h lt = ground (arith, h)
only_one p (x ∷ y ∷ xs) h lt = absurd (omega arith)

abbrev pub hot_at : List Bool → ℕ → Bool
hot_at is_hot v = get_or is_hot v false

-- A node that is not hot, in the part.
abbrev pub owned_at : {D : Type 0} → List Bool → SpeedState D → ℕ → ℕ → Bool
owned_at is_hot s p v = if hot_at is_hot v then false else get_or (row_of s.is_in v) p false

-- What a part has: the hot nodes as replicas, and its own nodes, which are not hot; no shadows.
abbrev pub expected : {D : Type 0} → List Bool → ℕ → SpeedState D → ℕ → PartNodes
expected is_hot n s p = record {
  replica_nodes = select (hot_at is_hot) (range 0 n);
  owned_nodes = select (owned_at is_hot s p) (range 0 n);
  shadow_nodes = [];
}

module _ {D : Type 0} (d : Doubles D) (is_hot : List Bool) (n num_parts : ℕ) (s : SpeedState D)
    (placed : ArePlaced is_hot num_parts s) (shape : HasShape n num_parts s)
    (hot_len : length is_hot ≡ n) (some_parts : 0 < num_parts) where
  pub replica_mask_of-hot :
      Returns
        (replica_mask_of d is_hot s (range 0 n))
        (λ mask. mask ≡ map (hot_at is_hot) (range 0 n))
  unfolding replica_mask_of
  replica_mask_of-hot = traverse-range (is_replica d is_hot s) (hot_at is_hot) 0 n (λ v lt.
      is_replica-hot d is_hot n num_parts s placed shape hot_len some_parts v (omega arith))

  -- Its part is the owner of a node that is not hot.
  own_of_marked :
      (p v : ℕ)
      → hot_at is_hot v ≡ false
      → get_or (row_of s.is_in v) p false ≡ true
      → home num_parts s v ≡ p
  own_of_marked p v cold mark =
      let alone : row_of s.node_parts v ≡ p ∷ [] =
        only_one p (row_of s.node_parts v) (placed.marked v p ∙ rw mark refl)
          (placed.cold_once v cold) in
      ap (λ parts. elim parts as (λ _. ℕ) [ [] ↦ v % max num_parts 1 | part ∷ rest ↦ part ]) alone

  module _ (masters : List ℤ) (masters_len : length masters ≡ n)
      (own : (v : ℕ)
        → v < n
        → hot_at is_hot v ≡ false
        → get_or masters v (negsuc 0) ≡ pos (home num_parts s v))
      (p : ℕ) (p_lt : p < num_parts) where
    abbrev mask : List Bool
    mask = map (hot_at is_hot) (range 0 n)

    add_local-Returns :
        (x : PartNodes) (v : ℕ)
        → v < n
        → Returns (add_local d s masters mask p x v) (λ y.
          (y.replica_nodes ≡ x.replica_nodes ++ select (hot_at is_hot) (v ∷ []))
          × (y.owned_nodes ≡ x.owned_nodes ++ select (owned_at is_hot s p) (v ∷ []))
          × (y.shadow_nodes ≡ x.shadow_nodes))
    unfolding add_local
    add_local-Returns x v lt =
        let at : get_or mask v false ≡ hot_at is_hot v =
          get_or-map-range (hot_at is_hot) 0 n v false lt ∙ ap (hot_at is_hot) (omega arith) in
        >>=-Returns (fetch mask v) _
          (_, fetch-of-lt mask v false (rw (length-map-range (hot_at is_hot) 0 n) lt), at)
          (λ replica (is : replica ≡ hot_at is_hot v).
            >>=-Returns (fetch s.is_in v) _
              (_, fetch-of-lt s.is_in v [] (rw shape.is_in.0 lt), refl)
              (λ marks (marks_are : marks ≡ row_of s.is_in v).
                >>=-Returns (fetch marks p) _
                  (_, fetch-of-lt marks p false (rw (marks_are, shape.is_in.1 v lt) p_lt), refl)
                  (λ inside (inside_is : inside ≡ get_or marks p false).
                    >>=-Returns (fetch masters v) _
                      (_, fetch-of-lt masters v (negsuc 0) (rw masters_len lt), refl)
                      (λ master (master_is : master ≡ get_or masters v (negsuc 0)).
                        let at_mark : inside ≡ get_or (row_of s.is_in v) p false =
                          inside_is ∙ ap (λ row. get_or row p false) marks_are in
                        (
                          file_node replica inside master p x v,
                          refl,
                          subst
                              (λ hot.
                                ((file_node replica inside master p x v).replica_nodes
                                  ≡ x.replica_nodes ++ (if hot then v ∷ [] else []))
                                × ((file_node replica inside master p x v).owned_nodes
                                    ≡ x.owned_nodes
                                      ++ (if (if hot
                                            then false
                                            else get_or (row_of s.is_in v) p false)
                                          then v ∷ []
                                          else []))
                                × ((file_node replica inside master p x v).shadow_nodes
                                    ≡ x.shadow_nodes))
                              is
                              (subst
                                (λ mark.
                                  ((file_node replica inside master p x v).replica_nodes
                                    ≡ x.replica_nodes ++ (if replica then v ∷ [] else []))
                                  × ((file_node replica inside master p x v).owned_nodes
                                      ≡ x.owned_nodes
                                        ++ (if (if replica then false else mark)
                                            then v ∷ []
                                            else []))
                                  × ((file_node replica inside master p x v).shadow_nodes
                                      ≡ x.shadow_nodes))
                                at_mark
                                (file_node-lem replica inside master p x v (λ cold marked.
                                  master_is
                                  ∙ own v lt (sym is ∙ cold)
                                  ∙ ap (λ p. pos p)
                                      (own_of_marked p v (sym is ∙ cold) (sym at_mark ∙ marked))))),
                        )))))

    add_locals-Returns :
        (i k : ℕ) (x : PartNodes)
        → i + k ≤ n
        → Returns (add_locals d s masters mask p (range i k) x) (λ y.
          (y.replica_nodes ≡ x.replica_nodes ++ select (hot_at is_hot) (range i k))
          × (y.owned_nodes ≡ x.owned_nodes ++ select (owned_at is_hot s p) (range i k))
          × (y.shadow_nodes ≡ x.shadow_nodes))
    unfolding add_locals
    add_locals-Returns i zero x le =
        (x, refl, (sym (append-nil x.replica_nodes), sym (append-nil x.owned_nodes), refl))
    add_locals-Returns i (suc k) x le =
        >>=-Returns (add_local d s masters mask p x i) _ (add_local-Returns x i (omega arith))
          (λ y first.
            let (z, done, rest) = add_locals-Returns (suc i) k y (omega arith) in
            (
              z,
              done,
              (
                rest.0
                    ∙ append_select (hot_at is_hot) i (range (suc i) k) x.replica_nodes
                        y.replica_nodes first.0,
                rest.1
                    ∙ append_select (owned_at is_hot s p) i (range (suc i) k) x.owned_nodes
                        y.owned_nodes first.1,
                rest.2 ∙ first.2,
              ),
            ))

    local_nodes_of-expected :
        Returns (local_nodes_of d s masters mask (range 0 n) p) (λ x. x ≡ expected is_hot n s p)
    unfolding local_nodes_of
    local_nodes_of-expected =
        let (x, done, is) = add_locals-Returns 0 n _ (omega arith) in
        (
          x,
          done,
          λ i. record { replica_nodes = is.0 i; owned_nodes = is.1 i; shadow_nodes = is.2 i },
        )

  pub locals-expected :
      (masters : List ℤ)
      → length masters ≡ n
      → ((v : ℕ)
          → v < n
          → hot_at is_hot v ≡ false
          → get_or masters v (negsuc 0) ≡ pos (home num_parts s v))
      → Returns
          (traverse
            (local_nodes_of d s masters (map (hot_at is_hot) (range 0 n)) (range 0 n))
            (range 0 num_parts))
          (λ xs. xs ≡ map (expected is_hot n s) (range 0 num_parts))
  locals-expected masters masters_len own =
      traverse-range _ (expected is_hot n s) 0 num_parts
        (λ p lt. local_nodes_of-expected masters masters_len own p (omega arith))
