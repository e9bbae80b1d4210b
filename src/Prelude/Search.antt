-- ===== src/Prelude/Search.antt =====
-- The position of a value in a list, and the values of a list without repetition.
use mathlib.Core.Option
use starrygl_tmp.Prelude.Core.{
  ℕ, zero, suc, ◌<◌, ◌≡◌, ◌≢◌, refl, ap, ite, if_pos, if_neg, Option, none, some, List, [], ◌∷◌,
  ◌++◌, ◌⊎◌, inl, inr, arith,
}
use starrygl_tmp.Prelude.Lists.{length, get_elem?}

module _ {ℓ} {A : Type ℓ} where
  pub get_elem?-append_left :
      (xs ys : List A) (i : ℕ) {a : A} → get_elem? xs i ≡ some a → get_elem? (xs ++ ys) i ≡ some a
  get_elem?-append_left [] ys i h = cc
  get_elem?-append_left (x ∷ xs) ys zero h = h
  get_elem?-append_left (x ∷ xs) ys (suc i) h = get_elem?-append_left xs ys i h

  pub get_elem?-append_length : (xs ys : List A) → get_elem? (xs ++ ys) (length xs) ≡ get_elem? ys 0
  get_elem?-append_length [] ys = refl
  get_elem?-append_length (x ∷ xs) ys = get_elem?-append_length xs ys

  pub get_elem?-snoc :
      (xs : List A) (y : A) (i : ℕ) {a : A}
      → get_elem? (xs ++ y ∷ []) i ≡ some a
      → (get_elem? xs i ≡ some a) ⊎ ((i ≡ length xs) × (a ≡ y))
  get_elem?-snoc [] y zero h = inr (refl, cc)
  get_elem?-snoc [] y (suc i) h = cc
  get_elem?-snoc (x ∷ xs) y zero h = inl h
  get_elem?-snoc (x ∷ xs) y (suc i) h = elim (get_elem?-snoc xs y i h) [
    | inl e ↦ inl e
    | inr (e, f) ↦ inr (ap suc e, f)
  ]

  pub get_elem?-lt_length : (xs : List A) (i : ℕ) {a : A} → get_elem? xs i ≡ some a → i < length xs
  get_elem?-lt_length [] i h = cc
  get_elem?-lt_length (x ∷ xs) zero h = omega arith
  get_elem?-lt_length (x ∷ xs) (suc i) h = omega (arith, get_elem?-lt_length xs i h)

  pub get_elem?-total : (xs : List A) (i : ℕ) → i < length xs → (a : A) × (get_elem? xs i ≡ some a)
  get_elem?-total [] i h = elim h [ ]
  get_elem?-total (x ∷ xs) zero h = (x, refl)
  get_elem?-total (x ∷ xs) (suc i) h = get_elem?-total xs i (omega arith)

module _ {ℓ} {A : Type ℓ} (dec : Discrete A) where
  unfoldable pub index_of : A → List A → Option ℕ
  index_of a [] = none
  index_of a (x ∷ xs) = ite (dec x a) (some 0) (Option.map suc (index_of a xs))

  -- The list without the value.
  unfoldable pub without : A → List A → List A
  without a [] = []
  without a (x ∷ xs) = ite (dec x a) (without a xs) (x ∷ without a xs)

  -- Each value once, in the order of its first occurrences.
  unfoldable pub first_occurrences : List A → List A
  first_occurrences [] = []
  first_occurrences (x ∷ xs) = x ∷ without x (first_occurrences xs)

  -- The values of the second list that the first one lacks.
  unfoldable pub lacking : List A → List A → List A
  lacking s [] = []
  lacking s (x ∷ xs) = elim (index_of x s) [ none ↦ x ∷ lacking s xs | some _ ↦ lacking s xs ]

  -- No value stands at two places: a value is found where it stands.
  abbrev pub IsDistinct : List A → Type ℓ
  IsDistinct xs = (i : ℕ) (a : A) → get_elem? xs i ≡ some a → index_of a xs ≡ some i

  pub get_elem?-index_of :
      (a : A) (xs : List A) (i : ℕ) → index_of a xs ≡ some i → get_elem? xs i ≡ some a
  unfolding index_of
  get_elem?-index_of a [] i h = cc
  get_elem?-index_of a (x ∷ xs) zero h = ground arith
  get_elem?-index_of a (x ∷ xs) (suc i) h = ground (arith, get_elem?-index_of a xs i)

  pub index_of-append_old :
      (a : A) (xs ys : List A) (i : ℕ) → index_of a xs ≡ some i → index_of a (xs ++ ys) ≡ some i
  unfolding index_of
  index_of-append_old a [] ys i h = cc
  index_of-append_old a (x ∷ xs) ys zero h = ground arith
  index_of-append_old a (x ∷ xs) ys (suc i) h = ground (arith, index_of-append_old a xs ys i)

  pub index_of-append_new :
      (a : A) (xs : List A) → index_of a xs ≡ none → index_of a (xs ++ a ∷ []) ≡ some (length xs)
  unfolding index_of
  index_of-append_new a [] h = if_pos (dec a a) refl _ _
  index_of-append_new a (x ∷ xs) h = ground (arith, index_of-append_new a xs)

  pub index_of-append_ne :
      (a b : A) (xs : List A) → b ≢ a → index_of a (xs ++ b ∷ []) ≡ index_of a xs
  unfolding index_of
  index_of-append_ne a b [] h = if_neg (dec b a) h _ _
  index_of-append_ne a b (x ∷ xs) h = ground (arith, index_of-append_ne a b xs h)

  pub lacking-nil : (xs : List A) → lacking [] xs ≡ xs
  unfolding lacking index_of
  lacking-nil [] = refl
  lacking-nil (x ∷ xs) = ap (◌∷◌ x) (lacking-nil xs)

  pub lacking-cons_new :
      (a : A) (s xs : List A) → index_of a s ≡ none → lacking s (a ∷ xs) ≡ a ∷ lacking s xs
  unfolding lacking
  lacking-cons_new a s xs h = rw (h, lacking)

  pub lacking-cons_old :
      (a : A) (s xs : List A) {i : ℕ} → index_of a s ≡ some i → lacking s (a ∷ xs) ≡ lacking s xs
  unfolding lacking
  lacking-cons_old a s xs h = rw (h, lacking)

  -- Removing a value that is lacking anyway changes nothing.
  pub lacking-without_old :
      (a : A) (s xs : List A) {i : ℕ}
      → index_of a s ≡ some i
      → lacking s (without a xs) ≡ lacking s xs
  unfolding lacking without
  lacking-without_old a s [] h = refl
  lacking-without_old a s (x ∷ xs) h = ground (arith, lacking-without_old a s xs h)

  pub lacking-append_new :
      (a : A) (s xs : List A)
      → index_of a s ≡ none
      → lacking (s ++ a ∷ []) xs ≡ lacking s (without a xs)
  unfolding lacking without
  lacking-append_new a s [] h = refl
  lacking-append_new a s (x ∷ xs) h =
      ground
        (arith, lacking-append_new a s xs h, index_of-append_new a s h, index_of-append_ne x a s)
