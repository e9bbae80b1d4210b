-- ===== src/Intern/Laws.antt =====
-- The table finds each of its values at its row, and lists the values in the order of their first
-- occurrences.

use starrygl_tmp.Prelude.{
  ℕ, ◌≡◌, refl, ap, ap₂, without, none, some, List, [], ◌∷◌, ◌++◌, map, length, get_elem?,
  append-nil, append_assoc, Option-cases, inl, inr, sym, ◌∙◌, index_of, IsDistinct,
  first_occurrences, lacking, lacking-without_old, lacking-append_new, lacking-cons_old,
  lacking-cons_new, get_elem?-append_left, get_elem?-snoc, get_elem?-append_length,
  get_elem?-index_of, index_of-append_old, index_of-append_new, index_of-append_ne,
}
use starrygl_tmp.Phmap.{HashMap}
use starrygl_tmp.Intern.{Table, empty_table, intern, intern_all}

module _ {K : Type 0} (dec : Discrete K) (hm : HashMap K ℕ) where
  -- The map and the vector agree, and no value has two rows.
  pub record IsIndexed (t : Table hm) : Type 0 where
    pub finds : (k : K) → hm.find t.seen k ≡ index_of dec k t.unique
    pub distinct : IsDistinct dec t.unique

  pub empty_table-IsIndexed : IsIndexed (empty_table hm)
  unfolding index_of
  empty_table-IsIndexed = record { finds = hm.find-empty; distinct = λ i a h. cc }

  snoc-IsDistinct :
      (xs : List K) (k : K)
      → IsDistinct dec xs
      → index_of dec k xs ≡ none
      → IsDistinct dec (xs ++ k ∷ [])
  snoc-IsDistinct xs k d h i a g = elim (get_elem?-snoc xs k i g) [
    | inl e ↦ index_of-append_old dec a xs (k ∷ []) i (d i a e)
    | inr (e, f) ↦ rw (e, f, index_of-append_new dec k xs h)
  ]

  find-snoc :
      (t : Table hm) (k : K)
      → IsIndexed t
      → index_of dec k t.unique ≡ none
      → (j : K)
      → hm.find (hm.emplace t.seen k (length t.unique)) j ≡ index_of dec j (t.unique ++ k ∷ [])
  find-snoc t k v h j = elim (dec k j) [
    | yes e ↦ rw (← e, hm.find-emplace_self, v.finds k, h, index_of-append_new dec k t.unique h)
    | no n ↦
        hm.find-emplace_ne t.seen k (length t.unique) j n
        ∙ v.finds j
        ∙ sym (index_of-append_ne dec j k t.unique n)
  ]

  -- Interning an old value changes nothing; a new one gets the next row.
  pub intern_old :
      (t : Table hm) (k : K) (i : ℕ)
      → IsIndexed t
      → index_of dec k t.unique ≡ some i
      → intern hm t k ≡ (t, i)
  unfolding intern
  intern_old t k i v h = rw (v.finds k ∙ h, intern)

  intern_new-unique :
      (t : Table hm) (k : K)
      → IsIndexed t
      → index_of dec k t.unique ≡ none
      → (intern hm t k).0.unique ≡ t.unique ++ k ∷ []
  unfolding intern
  intern_new-unique t k v h = rw (v.finds k ∙ h, intern)

  pub intern-IsIndexed : (t : Table hm) (k : K) → IsIndexed t → IsIndexed (intern hm t k).0
  unfolding intern
  intern-IsIndexed t k v = elim (Option-cases (index_of dec k t.unique)) [
    | inr (i, h) ↦ rw (v.finds k ∙ h, intern) v
    | inl h ↦
        rw (v.finds k ∙ h, intern)
          (record { finds = find-snoc t k v h; distinct = snoc-IsDistinct t.unique k v.distinct h })
  ]

  -- The row that is returned holds the value.
  pub intern-row :
      (t : Table hm) (k : K)
      → IsIndexed t
      → get_elem? (intern hm t k).0.unique (intern hm t k).1 ≡ some k
  unfolding intern
  intern-row t k v = elim (Option-cases (index_of dec k t.unique)) [
    | inr (i, h) ↦ rw (v.finds k ∙ h, intern) (get_elem?-index_of dec k t.unique i h)
    | inl h ↦ rw (v.finds k ∙ h, intern) (get_elem?-append_length t.unique (k ∷ []))
  ]

  pub intern_all-IsIndexed :
      (t : Table hm) (ks : List K) → IsIndexed t → IsIndexed (intern_all hm t ks).0
  unfolding intern_all
  intern_all-IsIndexed t [] v = v
  intern_all-IsIndexed t (k ∷ ks) v =
      intern_all-IsIndexed (intern hm t k).0 ks (intern-IsIndexed t k v)

  append-lacking_snoc :
      (k : K) (s ks : List K) {u : List K}
      → index_of dec k s ≡ none
      → u ≡ s ++ k ∷ []
      → u ++ lacking dec u ks ≡ s ++ k ∷ lacking dec s (without dec k ks)
  append-lacking_snoc k s ks h e =
      rw e (append_assoc s (k ∷ []) _ ∙ ap (λ l. s ++ k ∷ l) (lacking-append_new dec k s ks h))

  pub intern_all-unique :
      (t : Table hm) (ks : List K)
      → IsIndexed t
      → (intern_all hm t ks).0.unique ≡ t.unique ++ lacking dec t.unique (first_occurrences dec ks)
  unfolding intern_all first_occurrences lacking
  intern_all-unique t [] v = rw (append-nil t.unique)
  intern_all-unique t (k ∷ ks) v =
      let rest = first_occurrences dec ks in
      elim (Option-cases (index_of dec k t.unique)) [
        | inr (i, h) ↦
            rw (intern_old t k i v h, lacking-cons_old dec k t.unique _ h)
              (rw (lacking-without_old dec k t.unique rest h) (intern_all-unique t ks v))
        | inl h ↦ rw (lacking-cons_new dec k t.unique _ h) (
            intern_all-unique (intern hm t k).0 ks (intern-IsIndexed t k v)
            ∙ append-lacking_snoc k t.unique rest h (intern_new-unique t k v h))
      ]

  pub intern_all-rows :
      (t : Table hm) (ks : List K)
      → IsIndexed t
      → map (get_elem? (intern_all hm t ks).0.unique) (intern_all hm t ks).1 ≡ map some ks
  unfolding intern_all
  intern_all-rows t [] v = refl
  intern_all-rows t (k ∷ ks) v =
      let t' = (intern hm t k).0 in
      let v' = intern-IsIndexed t k v in
      let grown = intern_all-unique t' ks v' in
      ap₂ ◌∷◌ (rw grown (get_elem?-append_left t'.unique _ (intern hm t k).1 (intern-row t k v)))
        (intern_all-rows t' ks v')
