-- ===== src/Native/Slice/Rows.antt =====
-- The rows that the hash maps of a slice give to nodes.
use mathlib.Core.Option
use starrygl_tmp.Prelude.{
  ℕ, suc, ◌+◌, ℤ, ℤ-discrete, List, [], ◌∷◌, ◌++◌, length, get_elem?, index_of, Option, none, some,
  ◌≡◌, refl, ap, ◌∙◌, Option-cases, inl, inr, arith, ok, get_elem?-index_of, get_elem?-append_left,
  if_pos, if_neg,
}
use native.Mathlib.Nat.{zero-add, suc-add, add-zero}
use starrygl_tmp.Phmap.{HashMap}
use starrygl_tmp.Native.Slice.{Edge, emplace_rows, edge_rows}

-- The elements after the first list.
pub get_elem?-append_right {ℓ} :
    {A : Type ℓ} (xs ys : List A) (i : ℕ) → get_elem? (xs ++ ys) (length xs + i) ≡ get_elem? ys i
get_elem?-append_right [] ys i = rw (zero-add i)
get_elem?-append_right (x ∷ xs) ys i = rw (suc-add (length xs) i) (get_elem?-append_right xs ys i)

module _ (hm : HashMap ℤ ℕ) where
  emplace_rows_old :
      (ids : List ℤ) (m : hm.Map) (base : ℕ) (v : ℤ) {r : ℕ}
      → hm.find m v ≡ some r
      → hm.find (emplace_rows hm m base ids) v ≡ some r
  unfolding emplace_rows
  emplace_rows_old [] m base v h = h
  emplace_rows_old (id ∷ ids) m base v h =
      emplace_rows_old ids (hm.emplace m id base) (suc base) v (elim (ℤ-discrete id v) [
        | yes e ↦ rw (e, hm.find-emplace_self, h)
        | no n ↦ hm.find-emplace_ne m id base v n ∙ h
      ])

  -- A value gets the row of its first occurrence.
  emplace_rows_new :
      (ids : List ℤ) (m : hm.Map) (base : ℕ) (v : ℤ)
      → hm.find m v ≡ none
      → hm.find (emplace_rows hm m base ids) v
        ≡ Option.map (λ i. base + i) (index_of ℤ-discrete v ids)
  unfolding emplace_rows index_of
  emplace_rows_new [] m base v h = h
  emplace_rows_new (id ∷ ids) m base v h = elim (ℤ-discrete id v) [
    | yes e ↦
        let here : hm.find (hm.emplace m id base) v ≡ some base = rw (e, hm.find-emplace_self, h) in
        rw (emplace_rows_old ids (hm.emplace m id base) (suc base) v here) (
          rw (
            if_pos (ℤ-discrete id v) e (some 0) (Option.map suc (index_of ℤ-discrete v ids)),
            add-zero base,
          ))
    | no n ↦
        rw
          (emplace_rows_new ids (hm.emplace m id base) (suc base) v
            (hm.find-emplace_ne m id base v n ∙ h))
          (rw (if_neg (ℤ-discrete id v) n (some 0) (Option.map suc (index_of ℤ-discrete v ids)))
            (shift base (index_of ℤ-discrete v ids)))
  ]
    where
      shift :
          (base : ℕ) (o : Option ℕ)
          → Option.map (λ i. suc base + i) o ≡ Option.map (λ i. base + i) (Option.map suc o)
      shift base none = refl
      shift base (some i) = ap some (omega arith)

  pub find-emplace_rows :
      (base : ℕ) (ids : List ℤ) (v : ℤ)
      → hm.find (emplace_rows hm hm.empty base ids) v
        ≡ Option.map (λ i. base + i) (index_of ℤ-discrete v ids)
  find-emplace_rows base ids v = emplace_rows_new ids hm.empty base v (hm.find-empty v)

  pub find-dst_row :
      (ids : List ℤ) (v : ℤ)
      → hm.find (emplace_rows hm hm.empty 0 ids) v ≡ index_of ℤ-discrete v ids
  find-dst_row ids v = find-emplace_rows 0 ids v ∙ from_zero (index_of ℤ-discrete v ids)
    where
      from_zero : (o : Option ℕ) → Option.map (λ i. 0 + i) o ≡ o
      from_zero none = refl
      from_zero (some i) = ap some (zero-add i)

  -- The two rows of an edge stand for its ends in the destination and the source ids.
  pub edge_rows-ends :
      (dst_ids src_ids : List ℤ) (e : Edge) (r : ℕ × ℕ)
      → edge_rows hm
          (emplace_rows hm hm.empty 0 dst_ids)
          (emplace_rows hm hm.empty (length dst_ids) src_ids)
          e
        ≡ ok r
      → (get_elem? (dst_ids ++ src_ids) r.0 ≡ some e.src) × (get_elem? dst_ids r.1 ≡ some e.dst)
  unfolding edge_rows
  edge_rows-ends dst_ids src_ids e r h =
      let dst_of = find-dst_row dst_ids e.dst in
      let src_of = find-dst_row dst_ids e.src in
      let tail_of = find-emplace_rows (length dst_ids) src_ids e.src in
      elim (Option-cases (index_of ℤ-discrete e.dst dst_ids)) [
        | inl missing ↦ ground (arith, dst_of)
        | inr (d, at_dst) ↦
            let here = get_elem?-index_of ℤ-discrete e.dst dst_ids d at_dst in
            elim (Option-cases (index_of ℤ-discrete e.src dst_ids)) [
              | inr (s, at_src) ↦ ground (
                arith,
                dst_of,
                src_of,
                get_elem?-append_left dst_ids src_ids s
                    (get_elem?-index_of ℤ-discrete e.src dst_ids s at_src),
              )
              | inl outside ↦ elim (Option-cases (index_of ℤ-discrete e.src src_ids)) [
                | inl missing ↦ ground (arith, dst_of, src_of, tail_of)
                | inr (s, at_tail) ↦ ground (
                  arith,
                  dst_of,
                  src_of,
                  tail_of,
                  get_elem?-append_right dst_ids src_ids s,
                  get_elem?-index_of ℤ-discrete e.src src_ids s at_tail,
                )
              ]
            ]
      ]
