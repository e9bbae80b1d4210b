-- ===== src/Prelude/Vector.antt =====
-- `std::vector` by signed index. An access outside the vector is a `fault`.
use mathlib.Core.Path.{subst}
use starrygl_tmp.Prelude.Core.{
  ℕ, zero, suc, ◌<◌, ◌≤◌, ◌≡◌, refl, ap, sym, ◌∙◌, none, some, List, [], ◌∷◌, ◌++◌, append-nil,
  append_assoc, arith, ite, if_pos, if_neg, ℕ_discrete,
}
use starrygl_tmp.Prelude.Lists.{
  length, get_elem?, set, get_or, length-set, get_or-set_self, get_or-set_ne,
}
use starrygl_tmp.Prelude.Int.{ℤ, pos_part, pos, negsuc, ℤ-discrete, to_index}
use starrygl_tmp.Prelude.Fallible.{Result, ok, err, fault, or_err, ◌>>=◌}

module _ {A : Type 0} where
  -- `v[i]`
  unfoldable pub read : List A → ℤ → Result A
  read xs i = elim (to_index i) [ none ↦ err fault | some n ↦ or_err (get_elem? xs n) fault ]

  -- `v[i] = a`
  unfoldable pub write : List A → ℤ → A → Result (List A)
  unfolding read
  write xs i a = do _ ← read xs i; ok (elim (to_index i) [ none ↦ xs | some n ↦ set xs n a ])

  -- `rows[i].emplace_back(a)`
  unfoldable pub push_at : List (List A) → ℤ → A → Result (List (List A))
  push_at rows i a = elim (to_index i) [
    | none ↦ err fault
    | some n ↦ do row ← or_err (get_elem? rows n) fault; ok (set rows n (row ++ a ∷ []))
  ]

  -- `for (i = 0; i < n; i++) rows[at[i]].emplace_back(xs[i]);`
  unfoldable pub push_all : ℕ → List (List A) → List ℤ → List A → Result (List (List A))
  unfolding push_at
  push_all zero rows at xs = ok rows
  push_all (suc n) rows [] xs = err fault
  push_all (suc n) rows (i ∷ at) [] = err fault
  push_all (suc n) rows (i ∷ at) (x ∷ xs) = do rows' ← push_at rows i x; push_all n rows' at xs

  -- The elements of `xs` at the places where `at` has `i`, among the first `n`.
  unfoldable pub picked : ℕ → ℤ → List ℤ → List A → List A
  picked zero i at xs = []
  picked (suc n) i [] xs = []
  picked (suc n) i (j ∷ at) [] = []
  picked (suc n) i (j ∷ at) (x ∷ xs) =
      let rest = picked n i at xs in ite (ℤ-discrete j i) (x ∷ rest) rest

  abbrev pub row_of : List (List A) → ℕ → List A
  row_of rows v = get_or rows v []

-- Every place is inside a vector of `m` elements.
abbrev pub AreIndices : ℕ → ℕ → List ℤ → Type 0
AreIndices zero m at = Unit
AreIndices (suc n) m [] = ⊥
AreIndices (suc n) m (pos i ∷ at) = (i < m) × AreIndices n m at
AreIndices (suc n) m (negsuc i ∷ at) = ⊥

module _ {A : Type 0} where
  pub get_or-of-get_elem? :
      (xs : List A) (i : ℕ) (d : A) {a : A} → get_elem? xs i ≡ some a → get_or xs i d ≡ a
  get_or-of-get_elem? [] i d h = cc
  get_or-of-get_elem? (x ∷ xs) zero d h = cc
  get_or-of-get_elem? (x ∷ xs) (suc i) d h = get_or-of-get_elem? xs i d h

  pub get_elem?-of-lt :
      (xs : List A) (i : ℕ) (d : A) → i < length xs → get_elem? xs i ≡ some (get_or xs i d)
  get_elem?-of-lt [] i d h = elim h [ ]
  get_elem?-of-lt (x ∷ xs) zero d h = refl
  get_elem?-of-lt (x ∷ xs) (suc i) d h = get_elem?-of-lt xs i d (omega arith)

module _ {A : Type 0} where
  -- On indices that are inside, every element is appended to its row and nothing else happens.
  pub push_all-rows :
      (n : ℕ) (rows : List (List A)) (at : List ℤ) (xs : List A)
      → AreIndices n (length rows) at
      → n ≤ length xs
      → (rows' : List (List A)) × (push_all n rows at xs ≡ ok rows')
        × (length rows' ≡ length rows)
        × ((v : ℕ) → row_of rows' v ≡ row_of rows v ++ picked n (pos v) at xs)
  unfolding push_all picked
  push_all-rows zero rows at xs inside long =
      (rows, refl, refl, λ v. sym (append-nil (row_of rows v)))
  push_all-rows (suc n) rows [] xs inside long = elim inside [ ]
  push_all-rows (suc n) rows (negsuc i ∷ at) xs inside long = elim inside [ ]
  push_all-rows (suc n) rows (pos i ∷ at) [] inside long = elim long [ ]
  push_all-rows (suc n) rows (pos i ∷ at) (x ∷ xs) (lt, inside) long =
      let next = set rows i (row_of rows i ++ x ∷ []) in
      let size : length next ≡ length rows = length-set rows i _ in
      let (rows', done, same, each) = push_all-rows n next at xs (rw size inside) (omega arith) in
      (
        rows',
        rw (get_elem?-of-lt rows i [] lt, ◌>>=◌) done,
        same ∙ size,
        λ v. each v ∙ step v (picked n (pos v) at xs) (ℕ_discrete i v),
      )
    where
      step :
          (v : ℕ) (rest : List A)
          → Dec (i ≡ v)
          → row_of (set rows i (row_of rows i ++ x ∷ [])) v ++ rest
            ≡ row_of rows v ++ ite (ℤ-discrete (pos i) (pos v)) (x ∷ rest) rest
      step v rest (yes e) = rw (if_pos (ℤ-discrete (pos i) (pos v)) (ap pos e) (x ∷ rest) rest) (
          subst
            (λ v.
              row_of (set rows i (row_of rows i ++ x ∷ [])) v ++ rest ≡ row_of rows v ++ (x ∷ rest))
            e
            (ap (λ r. r ++ rest) (get_or-set_self rows i _ [] lt)
              ∙ append_assoc (row_of rows i) (x ∷ []) rest))
      step v rest (no other) =
          rw (if_neg (ℤ-discrete (pos i) (pos v)) (λ e. other (ap pos_part e)) (x ∷ rest) rest)
            (ap (λ r. r ++ rest) (get_or-set_ne rows i v _ [] other))
