-- ===== src/Prelude/Firsts.antt =====
-- The items of a list whose key has not come before, in their order.
use starrygl_tmp.Prelude.Core.{
  ℕ, ◌≡◌, refl, ap, ite, none, some, List, [], ◌∷◌, ◌++◌, map, ◌∙◌, sym, arith,
}
use starrygl_tmp.Prelude.Search.{
  index_of, index_of-append_new, index_of-append_ne, first_occurrences, without,
}

module _ {ℓ κ} {A : Type ℓ} {K : Type κ} (dec : Discrete K) (key : A → K) where
  unfoldable pub without_key : K → List A → List A
  without_key k [] = []
  without_key k (x ∷ xs) = ite (dec (key x) k) (without_key k xs) (x ∷ without_key k xs)

  unfoldable pub first_by_key : List A → List A
  unfolding without_key
  first_by_key [] = []
  first_by_key (x ∷ xs) = x ∷ without_key (key x) (first_by_key xs)

  -- The items whose key the list of keys lacks.
  unfoldable pub lacking_keys : List K → List A → List A
  lacking_keys s [] = []
  lacking_keys s (x ∷ xs) = elim (index_of dec (key x) s) [
    | none ↦ x ∷ lacking_keys s xs
    | some _ ↦ lacking_keys s xs
  ]

  pub lacking_keys-nil : (xs : List A) → lacking_keys [] xs ≡ xs
  unfolding lacking_keys index_of
  lacking_keys-nil [] = refl
  lacking_keys-nil (x ∷ xs) = ap (◌∷◌ x) (lacking_keys-nil xs)

  without_key_old :
      (k : K) (s : List K) (xs : List A) {i : ℕ}
      → index_of dec k s ≡ some i
      → lacking_keys s (without_key k xs) ≡ lacking_keys s xs
  unfolding lacking_keys without_key
  without_key_old k s [] h = refl
  without_key_old k s (x ∷ xs) h = ground (arith, without_key_old k s xs h)

  without_key_new :
      (k : K) (s : List K) (xs : List A)
      → index_of dec k s ≡ none
      → lacking_keys (s ++ k ∷ []) xs ≡ lacking_keys s (without_key k xs)
  unfolding lacking_keys without_key
  without_key_new k s [] h = refl
  without_key_new k s (x ∷ xs) h = ground (
    arith,
    without_key_new k s xs h,
    index_of-append_new dec k s h,
    index_of-append_ne dec (key x) k s,
  )

  -- The first item of a list, and the rest of it, against the keys that have come before.
  pub lacking_keys-first_old :
      (s : List K) (x : A) (xs : List A) {i : ℕ}
      → index_of dec (key x) s ≡ some i
      → lacking_keys s (first_by_key (x ∷ xs)) ≡ lacking_keys s (first_by_key xs)
  unfolding lacking_keys first_by_key
  lacking_keys-first_old s x xs h = rw (h, lacking_keys) (without_key_old (key x) s _ h)

  pub lacking_keys-first_new :
      (s : List K) (x : A) (xs : List A)
      → index_of dec (key x) s ≡ none
      → lacking_keys s (first_by_key (x ∷ xs))
        ≡ x ∷ lacking_keys (s ++ key x ∷ []) (first_by_key xs)
  unfolding lacking_keys first_by_key
  lacking_keys-first_new s x xs h =
      rw (h, lacking_keys) (ap (◌∷◌ x) (sym (without_key_new (key x) s _ h)))

  without-map-key : (k : K) (xs : List A) → map key (without_key k xs) ≡ without dec k (map key xs)
  unfolding without_key without
  without-map-key k [] = refl
  without-map-key k (x ∷ xs) = ground (arith, without-map-key k xs)

  -- The keys of the first items are the first occurrences of the keys.
  pub map-first_by_key :
      (xs : List A) → map key (first_by_key xs) ≡ first_occurrences dec (map key xs)
  unfolding first_by_key first_occurrences
  map-first_by_key [] = refl
  map-first_by_key (x ∷ xs) =
      ap (◌∷◌ (key x))
        (without-map-key (key x) (first_by_key xs) ∙ ap (without dec (key x)) (map-first_by_key xs))
