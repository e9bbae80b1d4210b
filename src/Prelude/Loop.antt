-- ===== src/Prelude/Loop.antt =====
-- Counted loops whose body can fail.
use starrygl_tmp.Prelude.Core.{
  ℕ, zero, suc, ◌+◌, ◌<◌, ◌≤◌, ◌≡◌, refl, arith, ◌⊎◌, inl, inr, ap, ◌∙◌,
}
use mathlib.Core.Path.{subst}
use starrygl_tmp.Prelude.Fallible.{Result, ok, err, Error, ◌>>=◌}
use starrygl_tmp.Prelude.Index.{Returns, >>=-Returns, ok-Returns}

module _ {S : Type 0} (body : ℕ → S → Result S) where
  -- `for (i = i; ...; ++i)`, for `k` turns, with what the loop changes.
  unfoldable pub for_range : ℕ → ℕ → S → Result S
  for_range i zero s = ok s
  for_range i (suc k) s = do s' ← body i s; for_range (suc i) k s'

  -- What each turn keeps holds after the loop.
  pub for_range-Returns :
      (P : ℕ → S → Type 0) (bound : ℕ)
      → ((i : ℕ) (s : S) → i < bound → P i s → Returns (body i s) (P (suc i)))
      → (i k : ℕ) (s : S) → i + k ≤ bound
      → P i s
      → Returns (for_range i k s) (P (i + k))
  unfolding for_range
  for_range-Returns P bound turn i zero s le p = (s, refl, subst (λ i. P i s) (omega arith) p)
  for_range-Returns P bound turn i (suc k) s le p =
      >>=-Returns (body i s) _ (turn i s (omega arith) p) (λ s' p'.
        let (t, done, q) = for_range-Returns P bound turn (suc i) k s' (omega arith) p' in
        (t, done, subst (λ i. P i t) (omega arith) q))

-- The call throws the error, or returns with a result as said.
abbrev pub ReturnsOr {ℓ κ} : {A : Type ℓ} → Error → Result A → (A → Type κ) → Type (ℓ ⊔ κ)
ReturnsOr e r P = (r ≡ err e) ⊎ Returns r P

module _ {A B : Type 0} {P : A → Type 0} {Q : B → Type 0} (e : Error) where
  pub >>=-ReturnsOr :
      (call : Result A) (rest : A → Result B)
      → ReturnsOr e call P
      → ((a : A) → P a → ReturnsOr e (rest a) Q)
      → ReturnsOr e (call >>= rest) Q
  >>=-ReturnsOr call rest (inl thrown) then_rest = inl (ap (λ r. r >>= rest) thrown)
  >>=-ReturnsOr call rest (inr (a, done, p)) then_rest = elim (then_rest a p) [
    | inl thrown ↦ inl (ap (λ r. r >>= rest) done ∙ thrown)
    | inr (b, done', q) ↦ inr (b, ap (λ r. r >>= rest) done ∙ done', q)
  ]

module _ {A B : Type 0} {Q : B → Type 0} (e : Error) where
  -- The first call returns `a`.
  pub ok-ReturnsOr :
      {call : Result A} {a : A} (rest : A → Result B)
      → call ≡ ok a
      → ReturnsOr e (rest a) Q
      → ReturnsOr e (call >>= rest) Q
  ok-ReturnsOr rest done (inl thrown) = inl (ap (λ r. r >>= rest) done ∙ thrown)
  ok-ReturnsOr rest done (inr ends) = inr (ok-Returns rest done ends)
