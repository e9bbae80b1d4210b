-- ===== src/Speed/Scores/Laws.antt =====
-- The scores are computed: nothing is read outside the arrays.
use starrygl_tmp.Prelude.{
  ℕ, ◌+◌, ◌*◌, ◌<◌, ◌≤◌, ◌==◌, List, length, Result, fetch, for_range, for_range-Returns,
  Bool-cases, Returns, >>=-Returns, fetch-Returns, ◌≡◌, inl, inr, refl, arith,
}
use starrygl_tmp.Speed.Doubles.{Doubles}
use starrygl_tmp.Speed.State.{nought}
use starrygl_tmp.Speed.Scores.{
  load_score_for_rank, load_objective, no_load, mean_ratio, average_batch_load_ratio, exchanged,
  average_batch_load_ratio_after_swap,
}

-- The call returns.
abbrev pub Ends : {A : Type 0} → Result A → Type 0
Ends r = Returns r (λ _. Unit {0})

pub index-lt : (r c w h : ℕ) → r < h → c < w → r * w + c < h * w
index-lt r c w h p q = grind arith

pub for_range-Ends :
    {S : Type 0} (body : ℕ → S → Result S) (i k bound : ℕ) (s : S)
    → i + k ≤ bound
    → ((i : ℕ) (s : S) → i < bound → Ends (body i s))
    → Ends (for_range body i k s)
for_range-Ends body i k bound s le turn =
    for_range-Returns body (λ _ _. Unit {0}) bound (λ i s lt _. turn i s lt) i k s le tt

module _ {D : Type 0} (d : Doubles D) (num_slices num_chunks : ℕ) (load : List D)
    (chunks_len : length load ≡ num_slices * num_chunks) where
  pub exchanged-Ends :
      (t out into : ℕ) (value : D)
      → t < num_slices
      → out < num_chunks
      → into < num_chunks
      → Ends (exchanged d load num_chunks t out into value)
  unfolding exchanged
  exchanged-Ends t out into value lt lt_out lt_into =
      >>=-Returns (fetch load (t * num_chunks + out)) _
        (fetch-Returns load _ (num_slices * num_chunks) chunks_len
          (index-lt t out num_chunks num_slices lt lt_out))
        (λ x _.
          >>=-Returns (fetch load (t * num_chunks + into)) _
            (fetch-Returns load _ (num_slices * num_chunks) chunks_len
              (index-lt t into num_chunks num_slices lt lt_into))
            (λ y _. (_, refl, tt)))

module _ {D : Type 0} (d : Doubles D) (world_size num_slices : ℕ) (rank_load : List D)
    (load_len : length rank_load ≡ world_size * num_slices) where
  fetch_load :
      (rank t : ℕ)
      → rank < world_size
      → t < num_slices
      → Ends (fetch rank_load (rank * num_slices + t))
  fetch_load rank t lt lt' =
      let (a, e, _) =
        fetch-Returns rank_load (rank * num_slices + t) (world_size * num_slices) load_len
          (index-lt rank t num_slices world_size lt lt') in
      (a, e, tt)

  module _ (target : List D) (target_len : length target ≡ num_slices) where
    pub load_score_for_rank-Ends :
        (rank : ℕ)
        → rank < world_size
        → Ends (load_score_for_rank d rank_load target rank num_slices)
    unfolding load_score_for_rank
    load_score_for_rank-Ends rank lt =
        >>=-Returns (for_range _ 0 num_slices (nought d)) _
          (for_range-Ends _ 0 num_slices num_slices (nought d) (omega arith) (λ t score lt'.
            >>=-Returns (fetch rank_load (rank * num_slices + t)) _ (fetch_load rank t lt lt')
              (λ x _.
                >>=-Returns (fetch target t) _ (fetch-Returns target t num_slices target_len lt')
                  (λ y _. (_, refl, tt)))))
          (λ score _. (_, refl, tt))

    pub load_objective-Ends : Ends (load_objective d rank_load target world_size num_slices)
    unfolding load_objective
    load_objective-Ends =
        for_range-Ends _ 0 world_size world_size (nought d) (omega arith) (λ rank score lt.
          >>=-Returns (load_score_for_rank d rank_load target rank num_slices) _
            (load_score_for_rank-Ends rank lt) (λ x _. (_, refl, tt)))

  mean_ratio-Ends :
      (value : ℕ → ℕ → Result D)
      → ((t rank : ℕ) → t < num_slices → rank < world_size → Ends (value t rank))
      → Ends (mean_ratio d value world_size num_slices)
  unfolding mean_ratio
  mean_ratio-Ends value ends =
      >>=-Returns (for_range _ 0 num_slices _) _
        (for_range-Ends _ 0 num_slices num_slices _ (omega arith) (λ t r lt.
          >>=-Returns (for_range _ 0 world_size (no_load d)) _
            (for_range-Ends _ 0 world_size world_size (no_load d) (omega arith) (λ rank x lt'.
              >>=-Returns (value t rank) _ (ends t rank lt lt') (λ v _. (_, refl, tt))))
            (λ x _. (_, refl, tt))))
        (λ r _. (_, refl, tt))

  pub average_batch_load_ratio-Ends :
      Ends (average_batch_load_ratio d rank_load world_size num_slices)
  unfolding average_batch_load_ratio
  average_batch_load_ratio-Ends = mean_ratio-Ends _ (λ t rank lt lt'. fetch_load rank t lt' lt)

  module _ (load : List D) (num_chunks : ℕ)
      (chunks_len : length load ≡ num_slices * num_chunks) where
    pub average_batch_load_ratio_after_swap-Ends :
        (rank_a rank_b a b : ℕ)
        → a < num_chunks
        → b < num_chunks
        → Ends (
            average_batch_load_ratio_after_swap d rank_load load world_size num_slices num_chunks
              rank_a rank_b a b)
    unfolding average_batch_load_ratio_after_swap
    average_batch_load_ratio_after_swap-Ends rank_a rank_b a b lt_a lt_b =
        mean_ratio-Ends _ (λ t rank lt lt'.
          >>=-Returns (fetch rank_load (rank * num_slices + t)) _ (fetch_load rank t lt' lt)
            (λ value _. elim (Bool-cases (rank == rank_a)) [
              | inl e ↦
                  rw e (
                    exchanged-Ends d num_slices num_chunks load chunks_len t a b value lt lt_a lt_b)
              | inr e ↦ rw e (elim (Bool-cases (rank == rank_b)) [
                | inl e' ↦ rw e' (
                    exchanged-Ends d num_slices num_chunks load chunks_len t b a value lt lt_b lt_a)
                | inr e' ↦ rw e' (value, refl, tt)
              ])
            ]))
