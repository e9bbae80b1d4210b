-- ===== src/Speed/Partition/Hot/Ends.antt =====
-- sampler/speed_partition.cpp, the degrees of the nodes.
use starrygl_tmp.Prelude.{
  ℕ, suc, ◌+◌, ◌<◌, ◌==◌, ==_iff, List, [], ◌∷◌, length, set, get_or, modify, modify-of-lt,
  get_or-set, Returns, modify-Returns, ok, ok_inj, if◌then◌else◌, Bool-cases, ◌≡◌, inl, inr, refl,
  sym, ◌∙◌, arith,
}
use starrygl_tmp.Speed.Doubles.{Doubles}
use starrygl_tmp.Speed.Master.{Edge}
use starrygl_tmp.Speed.Master.Laws.{AreBelow}
use starrygl_tmp.Speed.Graph.{Weights, add_weight, add_weights_of}

-- How many ends of edges a node is, a loop counted twice.
unfoldable pub ends_at : {D : Type 0} → ℕ → List (Edge D) → ℕ
ends_at v [] = 0
ends_at v (e ∷ edges) =
    (if e.src == v then 1 else 0) + (if e.dst == v then 1 else 0) + ends_at v edges

get_or-modify :
    (xs ys : List ℕ) (i v n : ℕ)
    → length xs ≡ n
    → i < n
    → modify xs i suc ≡ ok ys
    → get_or ys v 0 ≡ get_or xs v 0 + (if i == v then 1 else 0)
unfolding modify
get_or-modify xs ys i v n len lt h =
    let ys_are : ys ≡ set xs i (suc (get_or xs i 0)) =
      ok_inj (sym h ∙ modify-of-lt xs i suc 0 (rw len lt)) in
    rw (ys_are, get_or-set xs i v (suc (get_or xs i 0)) 0 (rw len lt))
      (elim (Bool-cases (i == v)) [
        | inl e ↦ rw (e, ← (==_iff i v).0 e) (omega arith)
        | inr e ↦ rw e (omega arith)
      ])

module _ {D : Type 0} (d : Doubles D) (n : ℕ) where
  -- The loop over the edges counts at each node the ends that the edges have there.
  pub add_weights_of-ends_at :
      (beta raw_max_time : D) (edges : List (Edge D)) (w : Weights d)
      → AreBelow n edges
      → length w.degrees ≡ n
      → length w.importances ≡ n
      → Returns (add_weights_of d beta raw_max_time edges w) (λ w'.
        (length w'.degrees ≡ n)
        × (length w'.importances ≡ n)
        × ((v : ℕ) → get_or w'.degrees v 0 ≡ get_or w.degrees v 0 + ends_at v edges))
  unfolding add_weights_of add_weight ends_at
  add_weights_of-ends_at beta raw_max_time [] w below h k = (w, refl, (h, k, λ v. omega arith))
  add_weights_of-ends_at beta raw_max_time (e ∷ edges) w below h k =
      let gain = d.mul beta (d.div e.ts raw_max_time) in
      let (deg₁, e₁, h₁) = modify-Returns w.degrees e.src n suc h below.0 in
      let (deg₂, e₂, h₂) = modify-Returns deg₁ e.dst n suc h₁ below.1 in
      let (imp₁, e₃, k₁) = modify-Returns w.importances e.src n (λ x. d.add x gain) k below.0 in
      let (imp₂, e₄, k₂) = modify-Returns imp₁ e.dst n (λ x. d.add x gain) k₁ below.1 in
      let (w', done, (h', k', counted)) =
        add_weights_of-ends_at beta raw_max_time edges
          (record { degrees = deg₂; importances = imp₂ }) below.2 h₂ k₂ in
      (
        w',
        rw (e₁, e₂, e₃, e₄) done,
        (
          h',
          k',
          λ v. omega (
            arith,
            counted v,
            get_or-modify w.degrees deg₁ e.src v n h below.0 e₁,
            get_or-modify deg₁ deg₂ e.dst v n h₁ below.1 e₂,
          ),
        ),
      )
