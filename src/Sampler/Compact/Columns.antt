-- ===== src/Sampler/Compact/Columns.antt =====
-- `deduplicate_compact_mfg_edges` column by column, also where it leaves the matrix as it is.
use starrygl_tmp.Prelude.{
  ℕ, zero, suc, ◌+◌, ◌-◌, ◌≤◌, ◌<◌, leb, ◌==◌, ==_iff, leb→le, ℤ, ℤ-discrete, true, List, [], ◌∷◌,
  map, length, take, drop, get_elem?, some, ok, >>=-eq-ok, ok_inj, ◌≡◌, refl, ap, ap₂, sym, ◌∙◌,
  ◌⊎◌, arith, Bool-cases, inl, inr, first_by_key, without_key, length-append, length-take,
  length-drop, if_pos, if_neg,
}
use mathlib.Core.Path.{subst}
use starrygl_tmp.Phmap.{HashSet}
use starrygl_tmp.Native.Partition.Flat.{
  Ragged, empty_ragged, append, append_all, row, row-append_all,
}
use starrygl_tmp.Sampler.Compact.{Row, compact_columns, deduplicate_compact_mfg_edges}
use starrygl_tmp.Sampler.Compact.Laws.{lid_of, columns, firsts, compact_columns-firsts}

-- The pointers go up from `begin` to the number of entries.
abbrev pub AreAscending : ℕ → List ℕ → ℕ → Type 0
AreAscending begin [] n = begin ≡ n
AreAscending begin (end ∷ ends) n = (begin ≤ end) × (end ≤ n) × AreAscending end ends n

without_key-shorter :
    (k : ℤ) (xs : List Row)
    → (without_key ℤ-discrete lid_of k xs ≡ xs)
      ⊎ (length (without_key ℤ-discrete lid_of k xs) < length xs)
unfolding without_key
without_key-shorter k [] = inl refl
without_key-shorter k (x ∷ xs) = elim (ℤ-discrete x.edge_lid k) [
  | yes e ↦
      rw
        (if_pos (ℤ-discrete x.edge_lid k) e (without_key ℤ-discrete lid_of k xs)
          (x ∷ without_key ℤ-discrete lid_of k xs))
        (elim (without_key-shorter k xs) [
          | inl same ↦ inr (omega (arith, ap (λ (l : List Row). length l) same))
          | inr less ↦ inr (omega arith)
        ])
  | no n ↦
      rw
        (if_neg (ℤ-discrete x.edge_lid k) n (without_key ℤ-discrete lid_of k xs)
          (x ∷ without_key ℤ-discrete lid_of k xs))
        (elim (without_key-shorter k xs) [
          | inl same ↦ inl (ap (◌∷◌ x) same)
          | inr less ↦ inr (omega arith)
        ])
]

firsts-shorter : (xs : List Row) → (firsts xs ≡ xs) ⊎ (length (firsts xs) < length xs)
unfolding firsts first_by_key
firsts-shorter [] = inl refl
firsts-shorter (x ∷ xs) = elim (firsts-shorter xs) [
  | inl same ↦ elim (without_key-shorter x.edge_lid (first_by_key ℤ-discrete lid_of xs)) [
    | inl kept ↦ inl (ap (◌∷◌ x) (kept ∙ same))
    | inr less ↦ inr (omega (arith, ap (λ (l : List Row). length l) same))
  ]
  | inr less ↦ elim (without_key-shorter x.edge_lid (first_by_key ℤ-discrete lid_of xs)) [
    | inl kept ↦ inr (omega (arith, ap (λ (l : List Row). length l) kept))
    | inr more ↦ inr (omega arith)
  ]
]

total : List (List Row) → ℕ
total [] = 0
total (c ∷ cs) = length c + total cs

total-firsts : (cs : List (List Row)) → (map firsts cs ≡ cs) ⊎ (total (map firsts cs) < total cs)
unfolding total
total-firsts [] = inl refl
total-firsts (c ∷ cs) = elim (firsts-shorter c) [
  | inl same ↦ elim (total-firsts cs) [
    | inl rest ↦ inl (ap₂ ◌∷◌ same rest)
    | inr less ↦ inr (omega (arith, ap (λ (l : List Row). length l) same))
  ]
  | inr less ↦ elim (total-firsts cs) [
    | inl rest ↦ inr (omega (arith, ap total rest))
    | inr more ↦ inr (omega arith)
  ]
]

length-append_all :
    (r : Ragged Row) (cs : List (List Row))
    → length (append_all r cs).elems ≡ length r.elems + total cs
unfolding append_all total
length-append_all r [] = omega arith
length-append_all r (c ∷ cs) =
    omega (arith, length-append_all (append r c) cs, length-append r.elems c)

total-columns :
    (rows : List Row) (begin : ℕ) (ends : List ℕ)
    → AreAscending begin ends (length rows)
    → total (columns rows begin ends) + begin ≡ length rows
unfolding columns total
total-columns rows begin [] h = omega arith
total-columns rows begin (end ∷ ends) (le, inside, rest) = omega (
  arith,
  total-columns rows end ends rest,
  length-take (end - begin) (drop begin rows),
  length-drop begin rows,
)

row-columns :
    (rows : List Row) (begin : ℕ) (ends : List ℕ) (v : ℕ) {c : List Row}
    → get_elem? (columns rows begin ends) v ≡ some c
    → row (record { elems = rows; ptr = begin ∷ ends }) v ≡ c
unfolding columns row
row-columns rows begin [] v h = cc
row-columns rows begin (end ∷ ends) zero h = cc
row-columns rows begin (end ∷ ends) (suc v) h = row-columns rows end ends v h

get_elem?-map-firsts :
    (cs : List (List Row)) (v : ℕ) {c : List Row}
    → get_elem? cs v ≡ some c
    → get_elem? (map firsts cs) v ≡ some (firsts c)
get_elem?-map-firsts [] v h = cc
get_elem?-map-firsts (d ∷ cs) zero h = cc
get_elem?-map-firsts (d ∷ cs) (suc v) h = get_elem?-map-firsts cs v h

-- Where every column has its first entries only, so does the matrix.
row-unchanged :
    (rows : List Row) (begin : ℕ) (ends : List ℕ) (v : ℕ) {c : List Row}
    → map firsts (columns rows begin ends) ≡ columns rows begin ends
    → get_elem? (columns rows begin ends) v ≡ some c
    → row (record { elems = rows; ptr = begin ∷ ends }) v ≡ firsts c
row-unchanged rows begin ends v {c} same h =
    let kept = get_elem?-map-firsts (columns rows begin ends) v h in
    let again : get_elem? (columns rows begin ends) v ≡ some (firsts c) =
      ap (λ (cs : List (List Row)). get_elem? cs v) (sym same) ∙ kept in
    row-columns rows begin ends v again

firsts-short : (c : List Row) → length c ≤ 1 → firsts c ≡ c
unfolding firsts first_by_key without_key
firsts-short [] h = refl
firsts-short (x ∷ []) h = refl
firsts-short (x ∷ y ∷ c) h = absurd (omega arith)

columns-short :
    (rows : List Row) (begin : ℕ) (ends : List ℕ)
    → length rows ≤ 1
    → map firsts (columns rows begin ends) ≡ columns rows begin ends
unfolding columns
columns-short rows begin [] h = refl
columns-short rows begin (end ∷ ends) h =
    ap₂ ◌∷◌
      (firsts-short (take (end - begin) (drop begin rows))
        (omega (arith, length-take (end - begin) (drop begin rows), length-drop begin rows)))
      (columns-short rows end ends h)

module _ (hs : HashSet ℤ) where
  -- On a matrix whose pointers go up to the number of its entries, `deduplicate_compact_mfg_edges` of
  -- compact ids, whenever it returns, leaves in each column exactly the first entries of its edges, in
  -- their order, also where it returns the matrix as it was.
  pub deduplicate_compact_mfg_edges-firsts :
      (rows : List Row) (begin : ℕ) (ends : List ℕ) (new : Ragged Row)
      → AreAscending begin ends (length rows)
      → begin ≡ 0
      → deduplicate_compact_mfg_edges hs true (record { elems = rows; ptr = begin ∷ ends }) ≡ ok new
      → (v : ℕ) (c : List Row) → get_elem? (columns rows begin ends) v ≡ some c
      → row new v ≡ firsts c
  unfolding deduplicate_compact_mfg_edges
  deduplicate_compact_mfg_edges-firsts rows begin ends new up start h v c at =
      let old : Ragged Row = record { elems = rows; ptr = begin ∷ ends } in
      let cs = columns rows begin ends in
      elim (Bool-cases (leb (length rows) 1)) [
        | inl few ↦
            subst (λ (new : Ragged Row). row new v ≡ firsts c) (ok_inj (rw few at h))
              (row-unchanged rows begin ends v
                (columns-short rows begin ends (leb→le (length rows) 1 few)) at)
        | inr many ↦
            let (kept, built, done) =
              >>=-eq-ok (compact_columns hs rows begin ends empty_ragged) _ (rw many at h) in
            let kept_is = compact_columns-firsts hs rows begin ends empty_ragged kept built in
            elim (Bool-cases (length kept.elems == length rows)) [
              | inl equal ↦
                  let size = (==_iff (length kept.elems) (length rows)).0 equal in
                  let same : map firsts cs ≡ cs = elim (total-firsts cs) [
                    | inl same ↦ same
                    | inr less ↦ absurd (
                        omega (
                          arith,
                          total-columns rows begin ends up,
                          length-append_all empty_ragged (map firsts cs),
                          ap (λ (r : Ragged Row). length r.elems) kept_is,
                        ))
                  ] in
                  subst (λ (new : Ragged Row). row new v ≡ firsts c) (ok_inj (rw equal at done))
                    (row-unchanged rows begin ends v same at)
              | inr other ↦
                  subst (λ (new : Ragged Row). row new v ≡ firsts c)
                    (sym kept_is ∙ ok_inj (rw other at done))
                    (row-append_all (map firsts cs) v (get_elem?-map-firsts cs v at))
            ]
      ]
