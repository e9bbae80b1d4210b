-- ===== src/Speed/Exchange/Loads.antt =====
-- What an exchange of chunks computes on the loads and on the cut returns.
use starrygl_tmp.Prelude.{
  ℕ, ◌+◌, ◌*◌, ◌<◌, ◌==◌, min, max, ℤ, ◌||◌, List, [], ◌∷◌, length, fetch, modify,
  for_range-Returns, Bool-cases, Returns, >>=-Returns, fetch-Returns, modify-Returns, length-append,
  ◌≡◌, inl, inr, refl, ◌∙◌, arith,
}
use starrygl_tmp.Speed.Doubles.{Doubles}
use starrygl_tmp.Speed.State.{nought}
use starrygl_tmp.Speed.Scores.{exchanged}
use starrygl_tmp.Speed.Scores.Laws.{Ends, index-lt, for_range-Ends, exchanged-Ends}
use starrygl_tmp.Speed.Exchange.{Swap, swap_loads}
use starrygl_tmp.Speed.Exchange.LocalSearch.{Trial, try_loads, cut_delta, store_trial}

min-lt : (a b n : ℕ) → a < n → b < n → min a b < n
min-lt a b n lt lt' = ground arith

max-lt : (a b n : ℕ) → a < n → b < n → max a b < n
max-lt a b n lt lt' = ground arith

module _ {D : Type 0} (d : Doubles D) (load affinity : List D)
    (world_size num_slices num_chunks : ℕ) (load_len : length load ≡ num_slices * num_chunks)
    (affinity_len : length affinity ≡ num_chunks * num_chunks) where
  -- The chunks and the ranks of the exchange exist.
  pub record InRange (w : Swap) : Type 0 where
    pub a_lt : w.chunk_a < num_chunks
    pub b_lt : w.chunk_b < num_chunks
    pub rank_a_lt : w.rank_a < world_size
    pub rank_b_lt : w.rank_b < world_size

  load_at :
      (loads : List D) (rank t : ℕ)
      → length loads ≡ world_size * num_slices
      → rank < world_size
      → t < num_slices
      → Ends (fetch loads (rank * num_slices + t))
  load_at loads rank t len lt lt' =
      let (x, e, _) =
        fetch-Returns loads _ (world_size * num_slices) len
          (index-lt rank t num_slices world_size lt lt') in
      (x, e, tt)

  put_at :
      (loads : List D) (rank t : ℕ) (x : D)
      → length loads ≡ world_size * num_slices
      → rank < world_size
      → t < num_slices
      → Returns
          (modify loads (rank * num_slices + t) (λ _. x))
          (λ ys. length ys ≡ world_size * num_slices)
  put_at loads rank t x len lt lt' =
      modify-Returns loads _ (world_size * num_slices) (λ _. x) len
        (index-lt rank t num_slices world_size lt lt')

  new_load :
      (t out into : ℕ) (x : D)
      → t < num_slices
      → out < num_chunks
      → into < num_chunks
      → Ends (exchanged d load num_chunks t out into x)
  new_load t out into x lt lt_out lt_into =
      exchanged-Ends d num_slices num_chunks load load_len t out into x lt lt_out lt_into

  pub swap_loads-Returns :
      (w : Swap) (loads : List D)
      → InRange w
      → length loads ≡ world_size * num_slices
      → Returns
          (swap_loads d load affinity world_size num_slices num_chunks w loads)
          (λ loads. length loads ≡ world_size * num_slices)
  unfolding swap_loads
  swap_loads-Returns w loads here len =
      for_range-Returns _ (λ t loads. length loads ≡ world_size * num_slices) num_slices
        (λ t loads lt len.
          >>=-Returns (fetch loads (w.rank_a * num_slices + t)) _
            (load_at loads w.rank_a t len here.rank_a_lt lt)
            (λ old_a _.
              >>=-Returns (exchanged d load num_chunks t w.chunk_a w.chunk_b old_a) _
                (new_load t w.chunk_a w.chunk_b old_a lt here.a_lt here.b_lt)
                (λ new_a _.
                  >>=-Returns (modify loads (w.rank_a * num_slices + t) _) _
                    (put_at loads w.rank_a t new_a len here.rank_a_lt lt)
                    (λ loads' len'.
                      >>=-Returns (fetch loads' (w.rank_b * num_slices + t)) _
                        (load_at loads' w.rank_b t len' here.rank_b_lt lt)
                        (λ old_b _.
                          >>=-Returns (exchanged d load num_chunks t w.chunk_b w.chunk_a old_b) _
                            (new_load t w.chunk_b w.chunk_a old_b lt here.b_lt here.a_lt)
                            (λ new_b _. put_at loads' w.rank_b t new_b len' here.rank_b_lt lt))))))
        0 num_slices loads (omega arith) len

  -- The trials have a load for each slice.
  abbrev pub IsTrial : Trial D → Type 0
  IsTrial x = (length x.trial_a ≡ num_slices) × (length x.trial_b ≡ num_slices)

  pub try_loads-IsTrial :
      (w : Swap) (loads target : List D)
      → InRange w
      → length loads ≡ world_size * num_slices
      → length target ≡ num_slices
      → Returns (try_loads d load affinity world_size num_slices num_chunks loads target w) IsTrial
  unfolding try_loads
  try_loads-IsTrial w loads target here len target_len =
      let (x, e, lens) =
        for_range-Returns _ (λ t (x : Trial D). (length x.trial_a ≡ t) × (length x.trial_b ≡ t))
          num_slices
          (λ t x lt lens.
            >>=-Returns (fetch loads (w.rank_a * num_slices + t)) _
              (load_at loads w.rank_a t len here.rank_a_lt lt)
              (λ old_a _.
                >>=-Returns (exchanged d load num_chunks t w.chunk_a w.chunk_b old_a) _
                  (new_load t w.chunk_a w.chunk_b old_a lt here.a_lt here.b_lt)
                  (λ new_a _.
                    >>=-Returns (fetch loads (w.rank_b * num_slices + t)) _
                      (load_at loads w.rank_b t len here.rank_b_lt lt)
                      (λ old_b _.
                        >>=-Returns (exchanged d load num_chunks t w.chunk_b w.chunk_a old_b) _
                          (new_load t w.chunk_b w.chunk_a old_b lt here.b_lt here.a_lt)
                          (λ new_b _.
                            >>=-Returns (fetch target t) _
                              (fetch-Returns target t num_slices target_len lt)
                              (λ aim _. (
                                _,
                                refl,
                                (
                                  length-append x.trial_a (new_a ∷ []) ∙ omega (arith, lens.0),
                                  length-append x.trial_b (new_b ∷ []) ∙ omega (arith, lens.1),
                                ),
                              )))))))
          0 num_slices (record { trial_a = []; trial_b = []; after_load = nought d }) (omega arith)
          (refl, refl) in
      (x, e, (lens.0 ∙ omega arith, lens.1 ∙ omega arith))

  pub cut_delta-Ends :
      (w : Swap) (owner : List ℤ)
      → InRange w
      → length owner ≡ num_chunks
      → Ends (cut_delta d load affinity world_size num_slices num_chunks owner w)
  unfolding cut_delta
  cut_delta-Ends w owner here len =
      for_range-Ends _ 0 num_chunks num_chunks (nought d) (omega arith) (λ c delta lt.
        elim (Bool-cases (c == w.chunk_a || c == w.chunk_b)) [
          | inl e ↦ rw e (delta, refl, tt)
          | inr e ↦ rw e (
              >>=-Returns (fetch owner c) _ (fetch-Returns owner c num_chunks len lt) (λ rc _.
                >>=-Returns (fetch affinity (min w.chunk_a c * num_chunks + max w.chunk_a c)) _
                  (fetch-Returns affinity _ (num_chunks * num_chunks) affinity_len (
                    index-lt (min w.chunk_a c) (max w.chunk_a c) num_chunks num_chunks
                      (min-lt w.chunk_a c num_chunks here.a_lt lt)
                      (max-lt w.chunk_a c num_chunks here.a_lt lt)))
                  (λ wa _.
                    >>=-Returns (fetch affinity (min w.chunk_b c * num_chunks + max w.chunk_b c)) _
                      (fetch-Returns affinity _ (num_chunks * num_chunks) affinity_len (
                        index-lt (min w.chunk_b c) (max w.chunk_b c) num_chunks num_chunks
                          (min-lt w.chunk_b c num_chunks here.b_lt lt)
                          (max-lt w.chunk_b c num_chunks here.b_lt lt)))
                      (λ wb _. (_, refl, tt)))))
        ])

  pub store_trial-Returns :
      (rank : ℕ) (trial loads : List D)
      → rank < world_size
      → length trial ≡ num_slices
      → length loads ≡ world_size * num_slices
      → Returns
          (store_trial d load affinity world_size num_slices num_chunks rank trial loads)
          (λ loads. length loads ≡ world_size * num_slices)
  unfolding store_trial
  store_trial-Returns rank trial loads rank_lt trial_len len =
      for_range-Returns _ (λ t loads. length loads ≡ world_size * num_slices) num_slices
        (λ t loads lt len.
          >>=-Returns (fetch trial t) _ (fetch-Returns trial t num_slices trial_len lt)
            (λ x _. put_at loads rank t x len rank_lt lt))
        0 num_slices loads (omega arith) len
