-- ===== src/Sort/Counts.antt =====
-- A sort keeps how often each number stands in a list, and what all elements have in common.
use starrygl_tmp.Prelude.{
  ℕ, ◌+◌, ◌==◌, Bool, List, [], ◌∷◌, map, count, if◌then◌else◌, Bool-cases, ◌≡◌, refl, inl, inr,
  arith,
}
use starrygl_tmp.Sort.{insert_sorted, stable_sort}

module _ (less : ℕ → ℕ → Bool) where
  count-insert_sorted :
      (a x : ℕ) (xs : List ℕ)
      → count a (insert_sorted less x xs) ≡ (if x == a then 1 else 0) + count a xs
  unfolding insert_sorted count
  count-insert_sorted a x [] = refl
  count-insert_sorted a x (y ∷ ys) = elim (Bool-cases (less y x)) [
    | inl e ↦ rw e (omega (arith, count-insert_sorted a x ys))
    | inr e ↦ rw e refl
  ]

  pub count-stable_sort : (a : ℕ) (xs : List ℕ) → count a (stable_sort less xs) ≡ count a xs
  unfolding stable_sort count
  count-stable_sort a [] = refl
  count-stable_sort a (x ∷ xs) =
      omega (arith, count-insert_sorted a x (stable_sort less xs), count-stable_sort a xs)

module _ {A : Type 0} (less : A → A → Bool) (key : A → ℕ) where
  count-map-insert_sorted :
      (a : ℕ) (x : A) (xs : List A)
      → count a (map key (insert_sorted less x xs))
        ≡ (if key x == a then 1 else 0) + count a (map key xs)
  unfolding insert_sorted count
  count-map-insert_sorted a x [] = refl
  count-map-insert_sorted a x (y ∷ ys) = elim (Bool-cases (less y x)) [
    | inl e ↦ rw e (omega (arith, count-map-insert_sorted a x ys))
    | inr e ↦ rw e refl
  ]

  pub count-map-stable_sort :
      (a : ℕ) (xs : List A) → count a (map key (stable_sort less xs)) ≡ count a (map key xs)
  unfolding stable_sort count
  count-map-stable_sort a [] = refl
  count-map-stable_sort a (x ∷ xs) =
      omega (arith, count-map-insert_sorted a x (stable_sort less xs), count-map-stable_sort a xs)

-- Every element has a property.
abbrev pub All : {A : Type 0} → (A → Type 0) → List A → Type 0
All P [] = Unit {0}
All P (x ∷ xs) = P x × All P xs

module _ {A : Type 0} (less : A → A → Bool) (P : A → Type 0) where
  insert_sorted-All : (x : A) (xs : List A) → P x → All P xs → All P (insert_sorted less x xs)
  unfolding insert_sorted
  insert_sorted-All x [] h all = (h, tt)
  insert_sorted-All x (y ∷ ys) h all = elim (Bool-cases (less y x)) [
    | inl e ↦ rw e (all.0, insert_sorted-All x ys h all.1)
    | inr e ↦ rw e (h, all)
  ]

  pub stable_sort-All : (xs : List A) → All P xs → All P (stable_sort less xs)
  unfolding stable_sort
  stable_sort-All [] all = tt
  stable_sort-All (x ∷ xs) all =
      insert_sorted-All x (stable_sort less xs) all.0 (stable_sort-All xs all.1)
