-- ===== src/Native/Dedup/Laws.antt =====
-- `deduplicate_csc_edges` keeps, in each column, the position of the first occurrence of each edge.
use starrygl_tmp.Prelude.{
  ℕ, suc, ◌+◌, ◌-◌, ◌<◌, ◌≤◌, ℤ, pos, pos_part, ◌≤ℤ◌, ℤ-discrete, Bool, true, false, List, [], ◌∷◌,
  ◌++◌, map, length, take, drop, ◌≡◌, refl, ap, ◌∙◌, ok, err, runtime_error, ◌>>=◌, Option, none,
  some, index_of, Option-cases, inl, inr, if_pos, if_neg, Bool-cases, first_by_key, lacking_keys,
  lacking_keys-nil, lacking_keys-first_old, lacking_keys-first_new, arith, index_of-append_new,
  index_of-append_ne, append_assoc, append-nil, length-append,
}
use starrygl_tmp.Phmap.{HashSet}
use starrygl_tmp.Native.Tensor.{Tensor, PairKey, contiguous_long_cpu}
use starrygl_tmp.Native.Dedup.{
  last_of, is_invalid_range, scan_column, scan_columns, deduplicate_checked, deduplicate_csc_edges,
}

-- The elements with their positions.
unfoldable pub label : ℕ → List ℤ → List (ℕ × ℤ)
label p [] = []
label p (edge ∷ edges) = (p, edge) ∷ label (suc p) edges

abbrev label_edge : ℕ × ℤ → ℤ
label_edge l = l.1

-- The positions, from `p` on, of the first occurrences in a column.
unfoldable pub first_positions : ℕ → List ℤ → List ℕ
unfolding label
first_positions p column = map (λ l. l.0) (first_by_key ℤ-discrete label_edge (label p column))

-- The positions that the columns keep.
unfoldable pub kept : ℤ → List ℤ → List ℤ → List (List ℕ)
unfolding first_positions
kept begin [] edges = []
kept begin (end ∷ ends) edges =
    first_positions (pos_part begin)
      (take (pos_part end - pos_part begin) (drop (pos_part begin) edges))
    ∷ kept end ends edges

unfoldable pub concat : List (List ℕ) → List ℕ
concat [] = []
concat (xs ∷ xss) = xs ++ concat xss

-- The running totals of the lengths.
unfoldable pub running : ℕ → List (List ℕ) → List ℕ
running n [] = []
running n (xs ∷ xss) = (n + length xs) ∷ running (n + length xs) xss

-- Each column is a range of positions.
abbrev pub AreRanges : ℤ → List ℤ → ℕ → Type 0
AreRanges begin [] n = Unit {0}
AreRanges begin (end ∷ ends) n =
    (pos 0 ≤ℤ begin) × (begin ≤ℤ end) × (end ≤ℤ pos n) × AreRanges end ends n

abbrev is_some : Option ℕ → Bool
is_some none = false
is_some (some _) = true

is_invalid_range-false :
    (begin end : ℤ) (n : ℕ)
    → pos 0 ≤ℤ begin
    → begin ≤ℤ end
    → end ≤ℤ pos n
    → is_invalid_range begin end n ≡ false
unfolding is_invalid_range
is_invalid_range-false begin end n h k l = ground arith

is_invalid_range→range :
    (begin end : ℤ) (n : ℕ)
    → is_invalid_range begin end n ≡ false
    → (pos 0 ≤ℤ begin) × (begin ≤ℤ end) × (end ≤ℤ pos n)
unfolding is_invalid_range
is_invalid_range→range begin end n h = ground arith

module _ (hs : HashSet PairKey) where
  abbrev key : ℕ → ℤ → PairKey
  key col edge = record { value = pos col; ts = edge }

  -- Of the column `col`, the set holds these edges.
  Holds : hs.Elems → ℕ → List ℤ → Type 0
  Holds seen col earlier =
      (edge : ℤ) → hs.has seen (key col edge) ≡ is_some (index_of ℤ-discrete edge earlier)

  insert_old :
      (seen : hs.Elems) (col : ℕ) (earlier : List ℤ) (edge : ℤ) {i : ℕ}
      → Holds seen col earlier
      → index_of ℤ-discrete edge earlier ≡ some i
      → Holds (hs.insert seen (key col edge)) col earlier
  unfolding Holds
  insert_old seen col earlier edge h e j = elim (ℤ-discrete edge j) [
    | yes p ↦ rw (← p, hs.has-insert_self, e)
    | no n ↦ hs.has-insert_ne seen _ _ (λ q. n (ap (λ (k : PairKey). k.ts) q)) ∙ h j
  ]

  insert_new :
      (seen : hs.Elems) (col : ℕ) (earlier : List ℤ) (edge : ℤ)
      → Holds seen col earlier
      → index_of ℤ-discrete edge earlier ≡ none
      → Holds (hs.insert seen (key col edge)) col (earlier ++ edge ∷ [])
  unfolding Holds
  insert_new seen col earlier edge h e j = elim (ℤ-discrete edge j) [
    | yes p ↦ rw (← p, hs.has-insert_self, index_of-append_new ℤ-discrete edge earlier e)
    | no n ↦
        rw (index_of-append_ne ℤ-discrete j edge earlier n)
          (hs.has-insert_ne seen _ _ (λ q. n (ap (λ (k : PairKey). k.ts) q)) ∙ h j)
  ]

  scan_column-kept :
      (seen : hs.Elems) (col p : ℕ) (earlier edges : List ℤ)
      → Holds seen col earlier
      → (scan_column hs seen col p edges).1
        ≡ map
            (λ l. l.0)
            (lacking_keys ℤ-discrete label_edge earlier
              (first_by_key ℤ-discrete label_edge (label p edges)))
  unfolding scan_column label Holds first_by_key lacking_keys
  scan_column-kept seen col p earlier [] h = refl
  scan_column-kept seen col p earlier (edge ∷ edges) h =
      elim (Option-cases (index_of ℤ-discrete edge earlier)) [
        | inr (i, e) ↦
            rw
              (
                h edge,
                e,
                lacking_keys-first_old ℤ-discrete label_edge earlier (p, edge) (label (suc p) edges)
                    e,
              )
              (scan_column-kept (hs.insert seen (key col edge)) col (suc p) earlier edges
                (insert_old seen col earlier edge h e))
        | inl e ↦
            rw
              (
                h edge,
                e,
                lacking_keys-first_new ℤ-discrete label_edge earlier (p, edge) (label (suc p) edges)
                    e,
              )
              (ap (◌∷◌ p) (
                scan_column-kept (hs.insert seen (key col edge)) col (suc p) (earlier ++ edge ∷ [])
                  edges (insert_new seen col earlier edge h e)))
      ]

  -- Columns that come later are not touched.
  scan_column-later :
      (seen : hs.Elems) (col p later : ℕ) (edges : List ℤ)
      → col < later
      → Holds seen later []
      → Holds (scan_column hs seen col p edges).0 later []
  unfolding scan_column Holds
  scan_column-later seen col p later [] lt h edge = h edge
  scan_column-later seen col p later (e ∷ edges) lt h edge =
      scan_column-later (hs.insert seen (key col e)) col (suc p) later edges lt
        (λ j. hs.has-insert_ne seen _ _ (λ q. other q) ∙ h j) edge
    where
      other : {j : ℤ} → key col e ≡ key later j → ⊥
      other q = absurd (omega (arith, ap (λ (k : PairKey). pos_part k.value) q))

  -- On ranges, each column keeps its first positions, and `new_indptr` the running totals.
  scan_columns-kept :
      (seen : hs.Elems) (keep new_ptr : List ℕ) (col : ℕ) (begin : ℤ) (ends edges : List ℤ)
      → ((later : ℕ) → col ≤ later → Holds seen later [])
      → AreRanges begin ends (length edges)
      → scan_columns hs seen keep new_ptr col begin ends edges
        ≡ ok (
          keep ++ concat (kept begin ends edges),
          new_ptr ++ running (length keep) (kept begin ends edges),
        )
  unfolding scan_columns concat running kept first_positions
  scan_columns-kept seen keep new_ptr col begin [] edges h r =
      rw (append-nil keep, append-nil new_ptr)
  scan_columns-kept seen keep new_ptr col begin (end ∷ ends) edges h r =
      let column = take (pos_part end - pos_part begin) (drop (pos_part begin) edges) in
      let found = scan_column hs seen col (pos_part begin) column in
      let here : found.1 ≡ first_positions (pos_part begin) column =
        scan_column-kept seen col (pos_part begin) [] column (h col (omega arith))
        ∙ ap (map (λ l. l.0)) (lacking_keys-nil ℤ-discrete label_edge _) in
      rw (is_invalid_range-false begin end (length edges) r.0 r.1 r.2) (
        scan_columns-kept found.0 (keep ++ found.1) (new_ptr ++ length (keep ++ found.1) ∷ [])
          (suc col) end ends edges
          (λ later lt.
            scan_column-later seen col (pos_part begin) later column lt (h later (omega arith)))
          r.3
        ∙ rw (here, length-append, append_assoc keep _ _, append_assoc new_ptr _ _))

  scan_columns-err :
      (ends edges : List ℤ) (begin : ℤ) (seen : hs.Elems) (keep new_ptr : List ℕ) (col : ℕ)
      → ¬ AreRanges begin ends (length edges)
      → scan_columns hs seen keep new_ptr col begin ends edges ≡ err runtime_error
  unfolding scan_columns
  scan_columns-err [] edges begin seen keep new_ptr col r = absurd (r tt)
  scan_columns-err (end ∷ ends) edges begin seen keep new_ptr col r =
      elim (Bool-cases (is_invalid_range begin end (length edges))) [
        | inl bad ↦ rw bad
        | inr good ↦
            let (h, k, l) = is_invalid_range→range begin end (length edges) good in
            rw good (scan_columns-err ends edges end _ _ _ (suc col) (λ rest. r (h, k, l, rest)))
      ]

-- `indptr` is the column pointer array of a CSC matrix with `n` entries.
abbrev pub IsCsc : List ℤ → ℕ → Type 0
IsCsc [] n = ⊥
IsCsc (begin ∷ ends) n = (last_of begin ends ≡ pos n) × AreRanges begin ends n

none_in-Holds : (hs : HashSet PairKey) (col : ℕ) → Holds hs hs.none_in col []
unfolding Holds index_of
none_in-Holds hs col edge = hs.has-none_in (key hs col edge)

-- On the CPU and a CSC matrix, the positions that are kept are those of the first occurrences in
-- each column, and the new pointers are the running totals of what the columns keep.
pub deduplicate_csc_edges-kept :
    (hs : HashSet PairKey) (csc_indptr edge_lids : Tensor) (begin : ℤ) (ends : List ℤ)
    → csc_indptr.elems ≡ begin ∷ ends
    → csc_indptr.is_cuda ≡ false
    → edge_lids.is_cuda ≡ false
    → last_of begin ends ≡ pos (length edge_lids.elems)
    → AreRanges begin ends (length edge_lids.elems)
    → deduplicate_csc_edges hs csc_indptr edge_lids
      ≡ ok (
        concat (kept begin ends edge_lids.elems),
        0 ∷ running 0 (kept begin ends edge_lids.elems),
      )
unfolding deduplicate_csc_edges
deduplicate_csc_edges-kept hs indptr lids begin ends e h k last r =
    rw (h, ◌>>=◌, k, e)
      (rw (if_pos (ℤ-discrete (last_of begin ends) (pos (length lids.elems))) last _ _) (
        scan_columns-kept hs hs.none_in [] (0 ∷ []) 0 begin ends lids.elems
          (λ later _. none_in-Holds hs later) r))

deduplicate_checked-err :
    (hs : HashSet PairKey) (indptr edges : List ℤ)
    → ¬ IsCsc indptr (length edges)
    → deduplicate_checked hs indptr edges ≡ err runtime_error
unfolding deduplicate_checked
deduplicate_checked-err hs [] edges n = refl
deduplicate_checked-err hs (begin ∷ ends) edges n =
    elim (ℤ-discrete (last_of begin ends) (pos (length edges))) [
      | no other ↦ rw (if_neg _ other)
      | yes last ↦
          rw (if_pos (ℤ-discrete (last_of begin ends) (pos (length edges))) last _ _)
            (scan_columns-err hs ends edges begin hs.none_in [] (0 ∷ []) 0 (λ r. n (last, r)))
    ]

-- Where the pointers are no such array, the function throws.
pub deduplicate_csc_edges-err :
    (hs : HashSet PairKey) (csc_indptr edge_lids : Tensor)
    → ¬ IsCsc csc_indptr.elems (length edge_lids.elems)
    → deduplicate_csc_edges hs csc_indptr edge_lids ≡ err runtime_error
unfolding deduplicate_csc_edges contiguous_long_cpu
deduplicate_csc_edges-err hs indptr lids n =
    ground (arith, deduplicate_checked-err hs indptr.elems lids.elems n)
