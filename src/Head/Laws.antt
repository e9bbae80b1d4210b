-- ===== src/Head/Laws.antt =====
-- The part of a node is the first part that has it as an inner node.
use starrygl_tmp.Prelude.{
  ℕ, zero, suc, ◌+◌, ◌<◌, ℤ, pos, ◌+ℤ◌, ltb_ℤ, List, [], ◌∷◌, length, none, some, if◌then◌else◌, ok,
  err, char_pointer, ◌>>=◌, read, ◌≡◌, ◌∙◌, arith, Bool-cases, Option-cases, inl, inr, ok_inj,
}
use starrygl_tmp.Head.{is_within, find_part, node_id_to_part_id, node_id_to_in_out}

next_index : (k : ℕ) → pos k +ℤ pos 1 ≡ pos (suc k)
unfolding ◌+ℤ◌
next_index k = ground arith

-- The first part.
node_id_to_in_out-zero :
    (nid begin end : ℤ) (ends : List ℤ)
    → node_id_to_in_out nid (pos 0) (begin ∷ end ∷ ends)
      ≡ ok (if is_within nid begin end then 0 else 1)
unfolding node_id_to_in_out is_within
node_id_to_in_out-zero nid begin end ends = elim (Bool-cases (ltb_ℤ nid begin)) [
  | inl e ↦ rw (e, ◌>>=◌)
  | inr e ↦ rw (e, ◌>>=◌, next_index 0)
]

-- The other parts are those of the rest of the array.
node_id_to_in_out-suc :
    (nid begin : ℤ) (ptr : List ℤ) (k : ℕ)
    → node_id_to_in_out nid (pos (suc k)) (begin ∷ ptr) ≡ node_id_to_in_out nid (pos k) ptr
unfolding node_id_to_in_out read
node_id_to_in_out-suc nid begin ptr k = rw (next_index (suc k), next_index k)

find_part-first :
    (nid begin : ℤ) (ends : List ℤ) (i p : ℕ)
    → find_part nid begin ends i ≡ some p
    → (k : ℕ) × (p ≡ i + k)
      × (node_id_to_in_out nid (pos k) (begin ∷ ends) ≡ ok 0)
      × ((q : ℕ) → q < k → node_id_to_in_out nid (pos q) (begin ∷ ends) ≡ ok 1)
unfolding find_part
find_part-first nid begin [] i p h = cc
find_part-first nid begin (end ∷ ends) i p h = elim (Bool-cases (is_within nid begin end)) [
  | inl e ↦
      let here : some i ≡ some p = rw e at h in
      (
        0,
        ground (arith, here),
        node_id_to_in_out-zero nid begin end ends ∙ rw e,
        λ q lt. absurd (omega arith),
      )
  | inr e ↦
      let later : find_part nid end ends (suc i) ≡ some p = rw e at h in
      let (k, at, inner, outer) = find_part-first nid end ends (suc i) p later in
      (
        suc k,
        omega arith,
        node_id_to_in_out-suc nid begin (end ∷ ends) k ∙ inner,
        λ q lt. before q lt (node_id_to_in_out-zero nid begin end ends ∙ rw e) outer,
      )
]
  where
    before :
        (q : ℕ) {k : ℕ}
        → q < suc k
        → node_id_to_in_out nid (pos 0) (begin ∷ end ∷ ends) ≡ ok 1
        → ((q : ℕ) → q < k → node_id_to_in_out nid (pos q) (end ∷ ends) ≡ ok 1)
        → node_id_to_in_out nid (pos q) (begin ∷ end ∷ ends) ≡ ok 1
    before zero lt first rest = first
    before (suc q) lt first rest =
        node_id_to_in_out-suc nid begin (end ∷ ends) q ∙ rest q (omega arith)

find_part-none :
    (nid begin : ℤ) (ends : List ℤ) (i : ℕ)
    → find_part nid begin ends i ≡ none
    → (q : ℕ) → q < length ends
    → node_id_to_in_out nid (pos q) (begin ∷ ends) ≡ ok 1
unfolding find_part
find_part-none nid begin [] i h q lt = elim lt [ ]
find_part-none nid begin (end ∷ ends) i h q lt = elim (Bool-cases (is_within nid begin end)) [
  | inl e ↦ cc (rw e at h)
  | inr e ↦
      here q lt (node_id_to_in_out-zero nid begin end ends ∙ rw e)
        (find_part-none nid end ends (suc i) (rw e at h))
]
  where
    here :
        (q : ℕ)
        → q < suc (length ends)
        → node_id_to_in_out nid (pos 0) (begin ∷ end ∷ ends) ≡ ok 1
        → ((q : ℕ) → q < length ends → node_id_to_in_out nid (pos q) (end ∷ ends) ≡ ok 1)
        → node_id_to_in_out nid (pos q) (begin ∷ end ∷ ends) ≡ ok 1
    here zero lt first rest = first
    here (suc q) lt first rest =
        node_id_to_in_out-suc nid begin (end ∷ ends) q ∙ rest q (omega arith)

-- `nodeIdToPartId` returns the first part in which `nodeIdToInOut` finds the node inner, or throws, and
-- then the node is outer in every part.
pub node_id_to_part_id-first :
    (nid begin : ℤ) (ends : List ℤ)
    → ((p : ℕ)
        → node_id_to_part_id nid (begin ∷ ends) ≡ ok p
        → (node_id_to_in_out nid (pos p) (begin ∷ ends) ≡ ok 0)
          × ((q : ℕ) → q < p → node_id_to_in_out nid (pos q) (begin ∷ ends) ≡ ok 1))
      × (node_id_to_part_id nid (begin ∷ ends) ≡ err char_pointer
          → (q : ℕ) → q < length ends
          → node_id_to_in_out nid (pos q) (begin ∷ ends) ≡ ok 1)
unfolding node_id_to_part_id
node_id_to_part_id-first nid begin ends = (
  λ p h. elim (Option-cases (find_part nid begin ends 0)) [
    | inl e ↦ cc (rw e at h)
    | inr (k, e) ↦
        let (k', at, inner, outer) = find_part-first nid begin ends 0 k e in
        let same : k' ≡ p = omega (arith, ok_inj (rw e at h)) in rw (← same) (inner, outer)
  ],
  λ h. elim (Option-cases (find_part nid begin ends 0)) [
    | inl e ↦ find_part-none nid begin ends 0 e
    | inr (k, e) ↦ cc (rw e at h)
  ],
)
