-- ===== src/Sampler/Compact/Laws.antt =====
-- What is left of a column are the first entries of its edges.
use starrygl_tmp.Prelude.{
  ℕ, ◌-◌, ltb, ℤ, ℤ-discrete, Bool, true, false, List, [], ◌∷◌, ◌++◌, map, length, take, drop, some,
  none, Option, ok, ok_inj, ◌≡◌, refl, ap, sym, ◌∙◌, Option-cases, Bool-cases, inl, inr, index_of,
  first_by_key, lacking_keys, lacking_keys-nil, lacking_keys-first_old, lacking_keys-first_new,
  index_of-append_new, index_of-append_ne,
}
use starrygl_tmp.Phmap.{HashSet}
use starrygl_tmp.Native.Partition.Flat.{Ragged, append, append_all}
use starrygl_tmp.Sampler.Compact.{Row, keep_new, compact_columns}

abbrev pub lid_of : Row → ℤ
lid_of r = r.edge_lid

-- The columns of a matrix.
unfoldable pub columns : List Row → ℕ → List ℕ → List (List Row)
columns rows begin [] = []
columns rows begin (end ∷ ends) = take (end - begin) (drop begin rows) ∷ columns rows end ends

-- The first entries of the edges.
unfoldable pub firsts : List Row → List Row
unfolding first_by_key
firsts = first_by_key ℤ-discrete lid_of

abbrev is_some : Option ℕ → Bool
is_some none = false
is_some (some _) = true

module _ (hs : HashSet ℤ) where
  Holds : hs.Elems → List ℤ → Type 0
  Holds seen earlier = (e : ℤ) → hs.has seen e ≡ is_some (index_of ℤ-discrete e earlier)

  insert_old :
      (seen : hs.Elems) (earlier : List ℤ) (e : ℤ) {i : ℕ}
      → Holds seen earlier
      → index_of ℤ-discrete e earlier ≡ some i
      → Holds (hs.insert seen e) earlier
  unfolding Holds
  insert_old seen earlier e h at j = elim (ℤ-discrete e j) [
    | yes p ↦ rw (← p, hs.has-insert_self, at)
    | no n ↦ hs.has-insert_ne seen e j n ∙ h j
  ]

  insert_new :
      (seen : hs.Elems) (earlier : List ℤ) (e : ℤ)
      → Holds seen earlier
      → index_of ℤ-discrete e earlier ≡ none
      → Holds (hs.insert seen e) (earlier ++ e ∷ [])
  unfolding Holds
  insert_new seen earlier e h at j = elim (ℤ-discrete e j) [
    | yes p ↦ rw (← p, hs.has-insert_self, index_of-append_new ℤ-discrete e earlier at)
    | no n ↦ rw (index_of-append_ne ℤ-discrete j e earlier n) (hs.has-insert_ne seen e j n ∙ h j)
  ]

  keep_new-lacking :
      (seen : hs.Elems) (earlier : List ℤ) (rows : List Row)
      → Holds seen earlier
      → keep_new hs seen rows
        ≡ lacking_keys ℤ-discrete lid_of earlier (first_by_key ℤ-discrete lid_of rows)
  unfolding keep_new Holds first_by_key lacking_keys
  keep_new-lacking seen earlier [] h = refl
  keep_new-lacking seen earlier (r ∷ rows) h =
      elim (Option-cases (index_of ℤ-discrete r.edge_lid earlier)) [
        | inr (i, e) ↦
            rw (h r.edge_lid, e, lacking_keys-first_old ℤ-discrete lid_of earlier r rows e)
              (keep_new-lacking (hs.insert seen r.edge_lid) earlier rows
                (insert_old seen earlier r.edge_lid h e))
        | inl e ↦
            rw (h r.edge_lid, e, lacking_keys-first_new ℤ-discrete lid_of earlier r rows e)
              (ap (◌∷◌ r) (
                keep_new-lacking (hs.insert seen r.edge_lid) (earlier ++ r.edge_lid ∷ []) rows
                  (insert_new seen earlier r.edge_lid h e)))
      ]

  keep_new-firsts : (rows : List Row) → keep_new hs hs.none_in rows ≡ firsts rows
  unfolding firsts Holds index_of
  keep_new-firsts rows =
      keep_new-lacking hs.none_in [] rows (λ e. hs.has-none_in e)
      ∙ lacking_keys-nil ℤ-discrete lid_of (first_by_key ℤ-discrete lid_of rows)

  pub compact_columns-firsts :
      (rows : List Row) (begin : ℕ) (ends : List ℕ) (r new : Ragged Row)
      → compact_columns hs rows begin ends r ≡ ok new
      → new ≡ append_all r (map firsts (columns rows begin ends))
  unfolding compact_columns append_all columns
  compact_columns-firsts rows begin [] r new h = sym (ok_inj h)
  compact_columns-firsts rows begin (end ∷ ends) r new h =
      elim (Bool-cases (ltb (length rows) end)) [
        | inl over ↦ cc (rw over at h)
        | inr inside ↦
            let column = take (end - begin) (drop begin rows) in
            compact_columns-firsts rows end ends (append r (keep_new hs hs.none_in column)) new
              (rw inside at h)
            ∙ ap (λ kept. append_all (append r kept) (map firsts (columns rows end ends)))
                (keep_new-firsts column)
      ]
