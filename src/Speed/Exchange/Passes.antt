-- ===== src/Speed/Exchange/Passes.antt =====
-- The first search for better exchanges returns, and leaves the assignment in order.
use starrygl_tmp.Prelude.{
  ℕ, zero, suc, ◌-◌, ◌*◌, ◌<◌, ◌==◌, ==_iff, negsuc, ◌||◌, ◌&&◌, List, length, none, some,
  Option-cases, fetch-of-lt, for_range-Returns, Bool-cases, Returns, >>=-Returns, ◌≡◌, inl, inr,
  refl, arith,
}
use mathlib.Core.Path.{subst}
use starrygl_tmp.Speed.Doubles.{Doubles, almost_equal}
use starrygl_tmp.Speed.Scores.{average_batch_load_ratio_after_swap}
use starrygl_tmp.Speed.Scores.Laws.{average_batch_load_ratio_after_swap-Ends}
use starrygl_tmp.Speed.Exchange.{
  Exchange, Swap, Best, is_earlier, try_pair, best_swap, apply_swap, ratio_passes,
}
use starrygl_tmp.Speed.Exchange.Swaps.{IsExchange, IsSwap}
use starrygl_tmp.Speed.Exchange.Laws.{apply_swap-IsExchange}

module _ {D : Type 0} (d : Doubles D) (load affinity : List D)
    (world_size num_slices num_chunks chunks_per_rank : ℕ)
    (load_len : length load ≡ num_slices * num_chunks)
    (affinity_len : length affinity ≡ num_chunks * num_chunks) where
  -- The swap that is found can be made.
  Found : Exchange D → Best D → Type 0
  Found x best =
      (w : Swap) → best.swap ≡ some w → IsSwap world_size num_slices num_chunks chunks_per_rank x w

  try_pair-Found :
      (x : Exchange D) (a b : ℕ) (best : Best D)
      → IsExchange world_size num_slices num_chunks chunks_per_rank x
      → a < num_chunks
      → b < num_chunks
      → Found x best
      → Returns (try_pair d load affinity world_size num_slices num_chunks x a b best) (Found x)
  unfolding try_pair Found
  try_pair-Found x a b best is lt_a lt_b found =
      let (rank_a, rank_a_lt, at_a) = is.owned a lt_a in
      let (rank_b, rank_b_lt, at_b) = is.owned b lt_b in
      rw
        (
          fetch-of-lt x.owner a (negsuc 0) (rw is.owner_len lt_a),
          fetch-of-lt x.owner b (negsuc 0) (rw is.owner_len lt_b),
          at_a,
          at_b,
        )
        (elim (Bool-cases (rank_a == rank_b)) [
          | inl e ↦ rw e (best, refl, found)
          | inr e ↦ rw e (
              >>=-Returns
                (average_batch_load_ratio_after_swap d x.rank_load load world_size num_slices
                  num_chunks rank_a rank_b a b)
                _
                (average_batch_load_ratio_after_swap-Ends d world_size num_slices x.rank_load
                  is.loads_len load num_chunks load_len rank_a rank_b a b lt_a lt_b)
                (λ ratio _.
                  let better =
                    d.lt ratio (d.sub best.next_ratio d.nano)
                    || (almost_equal d ratio best.next_ratio && is_earlier a b best.swap) in
                  elim (Bool-cases better) [
                    | inl e' ↦ rw e' (
                      _,
                      refl,
                      λ w same.
                          subst (IsSwap world_size num_slices num_chunks chunks_per_rank x)
                            (some_inj same)
                            (record {
                              a_lt = lt_a;
                              b_lt = lt_b;
                              rank_a_lt = rank_a_lt;
                              rank_b_lt = rank_b_lt;
                              apart = λ same'. cc (e, (==_iff rank_a rank_b).1 same');
                              owner_a = at_a;
                              owner_b = at_b;
                            }),
                    )
                    | inr e' ↦ rw e' (best, refl, found)
                  ]))
        ])
    where
      some_inj : {v w : Swap} → some v ≡ some w → v ≡ w
      some_inj e = cc

  best_swap-Found :
      (x : Exchange D) (ratio : D)
      → IsExchange world_size num_slices num_chunks chunks_per_rank x
      → Returns (best_swap d load affinity world_size num_slices num_chunks x ratio) (Found x)
  unfolding best_swap Found
  best_swap-Found x ratio is =
      for_range-Returns _ (λ a best. Found x best) num_chunks
        (λ a best lt_a found.
          for_range-Returns _ (λ b best. Found x best) num_chunks
            (λ b best lt_b found. try_pair-Found x a b best is lt_a lt_b found) (suc a)
            (num_chunks - suc a) best (omega arith) found)
        0 num_chunks (record { next_ratio = ratio; swap = none }) (omega arith) (λ w nothing. cc)

  pub ratio_passes-IsExchange :
      (k : ℕ) (ratio : D) (x : Exchange D)
      → IsExchange world_size num_slices num_chunks chunks_per_rank x
      → Returns
          (ratio_passes d load affinity world_size num_slices num_chunks k ratio x)
          (IsExchange world_size num_slices num_chunks chunks_per_rank)
  unfolding ratio_passes Found
  ratio_passes-IsExchange zero ratio x is = (x, refl, is)
  ratio_passes-IsExchange (suc k) ratio x is =
      >>=-Returns {P = Found x} (best_swap d load affinity world_size num_slices num_chunks x ratio)
        _ (best_swap-Found x ratio is)
        (λ best found. elim (Option-cases best.swap) [
          | inl nothing ↦ rw nothing (x, refl, is)
          | inr (w, e) ↦ rw e (
              >>=-Returns (apply_swap d load affinity world_size num_slices num_chunks w x) _
                (apply_swap-IsExchange d load affinity world_size num_slices num_chunks
                  chunks_per_rank load_len affinity_len x is w (found w e))
                (λ x' is'. ratio_passes-IsExchange k best.next_ratio x' is'))
        ])
