-- ===== src/Sampler/Boundary.antt =====
-- sampler.h: `is_boundary_candidate`, which tells whether a sampled edge leads out of the local part.
use starrygl_tmp.Prelude.{
  ℕ, ℤ, pos, ℤ-discrete, ltb_ℤ, Bool, true, false, not, List, [], ◌∷◌, Option, none, some,
  get_elem?, to_index, ite, ◌==◌, if◌then◌else◌,
}

-- The parts of the edges and nodes, and the nodes that are replicated everywhere (`node_is_hot`).
pub record Parts : Type 0 where
  pub local_part : ℤ
  pub part : List ℤ
  pub node_part : List ℤ
  pub node_is_hot : List ℕ

-- The element at a signed index, if there is one.
unfoldable pub entry : {A : Type 0} → List A → ℤ → Option A
entry xs i = elim (to_index i) [ none ↦ none | some n ↦ get_elem? xs n ]

unfoldable pub is_hot : Parts → ℤ → Bool
unfolding entry
is_hot p neighbor = elim (entry p.node_is_hot neighbor) [ none ↦ false | some h ↦ not (h == 0) ]

-- Whether the neighbour is of another part and not hot.
unfoldable pub is_remote_node : Parts → ℤ → Bool
unfolding is_hot entry
is_remote_node p neighbor = elim (entry p.node_part neighbor) [
  | none ↦ false
  | some owner ↦ if is_hot p neighbor then false else ite (ℤ-discrete owner p.local_part) false true
]

unfoldable pub is_boundary_candidate : Parts → ℤ → ℤ → Bool
unfolding is_remote_node entry
is_boundary_candidate p edge_lid neighbor =
    if ltb_ℤ p.local_part (pos 0) then false else elim p.part [
      | [] ↦ false
      | q ∷ qs ↦ elim (entry (q ∷ qs) edge_lid) [
        | none ↦ true
        | some owner ↦ ite (ℤ-discrete owner p.local_part) (is_remote_node p neighbor) true
      ]
    ]
