-- ===== src/Prelude/Index.antt =====
-- `std::vector` by a number.
use starrygl_tmp.Prelude.Core.{
  ℕ, zero, suc, ◌<◌, ◌≡◌, refl, ap, sym, ◌∙◌, some, List, [], ◌∷◌, arith, inl, inr,
}
use starrygl_tmp.Prelude.Tests.{◌==◌, if◌then◌else◌, Bool-cases, Option-cases}
use starrygl_tmp.Prelude.Lists.{
  replicate, length-replicate, length, get_elem?, set, get_or, length-set,
}
use starrygl_tmp.Prelude.Fallible.{Result, ok, fault, or_err, ◌>>=◌, >>=-eq-ok, ok_inj}
use starrygl_tmp.Prelude.Search.{get_elem?-lt_length, get_elem?-total}
use starrygl_tmp.Prelude.Vector.{row_of, get_or-of-get_elem?, get_elem?-of-lt}

module _ {A : Type 0} where
  -- `v[i]`
  unfoldable pub fetch : List A → ℕ → Result A
  fetch xs i = or_err (get_elem? xs i) fault

  -- `v[i] = f(v[i])`
  unfoldable pub modify : List A → ℕ → (A → A) → Result (List A)
  unfolding fetch
  modify xs i f = do a ← fetch xs i; ok (set xs i (f a))

  pub fetch-value :
      (xs : List A) (i : ℕ) (d : A) {a : A}
      → fetch xs i ≡ ok a
      → (i < length xs) × (get_or xs i d ≡ a)
  unfolding fetch
  fetch-value xs i d h = elim (Option-cases (get_elem? xs i)) [
    | inl e ↦ cc (rw e at h)
    | inr (b, e) ↦ (get_elem?-lt_length xs i e, get_or-of-get_elem? xs i d e ∙ ok_inj (rw e at h))
  ]

  pub fetch-of-lt : (xs : List A) (i : ℕ) (d : A) → i < length xs → fetch xs i ≡ ok (get_or xs i d)
  unfolding fetch
  fetch-of-lt xs i d lt = rw (get_elem?-of-lt xs i d lt)

  pub modify-value :
      (xs : List A) (i : ℕ) (f : A → A) (d : A) {ys : List A}
      → modify xs i f ≡ ok ys
      → (i < length xs) × (ys ≡ set xs i (f (get_or xs i d)))
  unfolding modify
  modify-value xs i f d h =
      let (a, h1, h2) = >>=-eq-ok (fetch xs i) _ h in
      let (lt, at) = fetch-value xs i d h1 in
      (lt, sym (ok_inj h2) ∙ ap (λ a. set xs i (f a)) (sym at))

  pub modify-of-lt :
      (xs : List A) (i : ℕ) (f : A → A) (d : A)
      → i < length xs
      → modify xs i f ≡ ok (set xs i (f (get_or xs i d)))
  unfolding modify
  modify-of-lt xs i f d lt = rw (fetch-of-lt xs i d lt)

module _ {A : Type 0} where
  -- `v[i][j] = f(v[i][j])`
  unfoldable pub modify_row : List (List A) → ℕ → ℕ → (A → A) → Result (List (List A))
  unfolding modify
  modify_row rows i j f = do row ← fetch rows i; row' ← modify row j f; ok (set rows i row')

  pub modify_row-value :
      (rows : List (List A)) (i j : ℕ) (f : A → A) (d : A) {rows' : List (List A)}
      → modify_row rows i j f ≡ ok rows'
      → (i < length rows)
        × (j < length (row_of rows i))
        × (rows' ≡ set rows i (set (row_of rows i) j (f (get_or (row_of rows i) j d))))
  unfolding modify_row
  modify_row-value rows i j f d h =
      let (row, h1, h2) = >>=-eq-ok (fetch rows i) _ h in
      let (row', h3, h4) = >>=-eq-ok (modify row j f) _ h2 in
      let (lt, at) = fetch-value rows i [] h1 in
      let (lt', at') = modify-value row j f d h3 in
      (
        lt,
        rw at lt',
        sym (ok_inj h4)
            ∙ ap (set rows i) (at' ∙ ap (λ row. set row j (f (get_or row j d))) (sym at)),
      )

  pub modify_row-of-lt :
      (rows : List (List A)) (i j : ℕ) (f : A → A) (d : A)
      → i < length rows
      → j < length (row_of rows i)
      → modify_row rows i j f
        ≡ ok (set rows i (set (row_of rows i) j (f (get_or (row_of rows i) j d))))
  unfolding modify_row
  modify_row-of-lt rows i j f d lt lt' =
      rw (fetch-of-lt rows i [] lt, modify-of-lt (row_of rows i) j f d lt')

module _ {A : Type 0} where
  pub get_or-set :
      (xs : List A) (i j : ℕ) (v d : A)
      → i < length xs
      → get_or (set xs i v) j d ≡ (if i == j then v else get_or xs j d)
  get_or-set [] i j v d lt = elim lt [ ]
  get_or-set (x ∷ xs) zero zero v d lt = λ i. v
  get_or-set (x ∷ xs) zero (suc j) v d lt = ground arith
  get_or-set (x ∷ xs) (suc i) zero v d lt = ground arith
  get_or-set (x ∷ xs) (suc i) (suc j) v d lt = ground (arith, get_or-set xs i j v d)

-- The call returns, and its result is as said.
abbrev pub Returns {ℓ κ} : {A : Type ℓ} → Result A → (A → Type κ) → Type (ℓ ⊔ κ)
Returns {A = A} r P = (a : A) × (r ≡ ok a) × P a

module _ {ℓ κ μ ν} {A : Type ℓ} {B : Type κ} {P : A → Type μ} {Q : B → Type ν} where
  pub >>=-Returns :
      (call : Result A) (rest : A → Result B)
      → Returns call P
      → ((a : A) → P a → Returns (rest a) Q)
      → Returns (call >>= rest) Q
  >>=-Returns call rest first then_rest =
      let (a, e, p) = first in let (b, e', q) = then_rest a p in (b, ap (λ r. r >>= rest) e ∙ e', q)

module _ {ℓ κ ν} {A : Type ℓ} {B : Type κ} {Q : B → Type ν} where
  -- The first call returns `a`.
  pub ok-Returns :
      {call : Result A} {a : A} (rest : A → Result B)
      → call ≡ ok a
      → Returns (rest a) Q
      → Returns (call >>= rest) Q
  ok-Returns rest e (b, e', q) = (b, ap (λ r. r >>= rest) e ∙ e', q)

-- `n` rows of length `m`.
abbrev pub HasRows : {A : Type 0} → ℕ → ℕ → List (List A) → Type 0
HasRows n m rows = (length rows ≡ n) × ((v : ℕ) → v < n → length (row_of rows v) ≡ m)

module _ {A : Type 0} where
  pub fetch-Returns :
      (xs : List A) (i n : ℕ)
      → length xs ≡ n
      → i < n
      → Returns (fetch xs i) (λ a. get_elem? xs i ≡ some a)
  unfolding fetch
  fetch-Returns xs i n len lt = let (a, e) = get_elem?-total xs i (rw len lt) in (a, rw e refl, e)

  pub modify-Returns :
      (xs : List A) (i n : ℕ) (f : A → A)
      → length xs ≡ n
      → i < n
      → Returns (modify xs i f) (λ ys. length ys ≡ n)
  unfolding modify
  modify-Returns xs i n f len lt =
      let (a, e, _) = fetch-Returns xs i n len lt in
      (set xs i (f a), rw e refl, length-set xs i (f a) ∙ len)

module _ {A : Type 0} where
  pub HasRows-set :
      (n m : ℕ) (rows : List (List A)) (i : ℕ) (row : List A)
      → HasRows n m rows
      → i < n
      → length row ≡ m
      → HasRows n m (set rows i row)
  HasRows-set n m rows i row (len, rows_len) lt row_len = (
    length-set rows i row ∙ len,
    λ v below.
        rw (get_or-set rows i v row [] (rw len lt))
          (elim (Bool-cases (i == v)) [ inl e ↦ rw e row_len | inr e ↦ rw e (rows_len v below) ]),
  )

  pub row-Returns :
      (n m : ℕ) (rows : List (List A)) (i : ℕ)
      → HasRows n m rows
      → i < n
      → Returns (fetch rows i) (λ row. (row_of rows i ≡ row) × (length row ≡ m))
  row-Returns n m rows i (len, rows_len) lt =
      (row_of rows i, fetch-of-lt rows i [] (rw len lt), (refl, rows_len i lt))

  pub modify_row-Returns :
      (n m : ℕ) (rows : List (List A)) (i j : ℕ) (f : A → A)
      → HasRows n m rows
      → i < n
      → j < m
      → Returns (modify_row rows i j f) (HasRows n m)
  unfolding modify_row
  modify_row-Returns n m rows i j f shape lt lt' =
      >>=-Returns (fetch rows i) _ (row-Returns n m rows i shape lt) (λ row at.
        >>=-Returns (modify row j f) _ (modify-Returns row j m f at.1 lt')
          (λ row' len. (set rows i row', refl, HasRows-set n m rows i row' shape lt len)))

module _ {A : Type 0} where
  pub row_of-replicate : (n v : ℕ) (row : List A) → v < n → row_of (replicate n row) v ≡ row
  row_of-replicate zero v row lt = elim lt [ ]
  row_of-replicate (suc n) zero row lt = refl
  row_of-replicate (suc n) (suc v) row lt = row_of-replicate n v row (omega arith)

  pub HasRows-replicate : (n m : ℕ) (a : A) → HasRows n m (replicate n (replicate m a))
  HasRows-replicate n m a = (
    length-replicate n (replicate m a),
    λ v lt. ap length (row_of-replicate n v (replicate m a) lt) ∙ length-replicate m a,
  )
