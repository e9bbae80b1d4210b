-- ===== src/Speed/Exchange/Turns.antt =====
-- The second search for better exchanges returns, and leaves the assignment in order.
use starrygl_tmp.Prelude.{
  ℕ, zero, suc, ◌+◌, ◌*◌, ◌<◌, ◌%◌, ◌==◌, ==_iff, ltb, leb, min, max, ◌/◌, pos, Bool, true, false,
  ◌||◌, ◌&&◌, List, [], ◌∷◌, length, get_or, row_of, ok, ◌>>=◌, fetch-of-lt, if◌then◌else◌,
  Bool-cases, Returns, >>=-Returns, ok-Returns, ◌≡◌, inl, inr, refl, arith,
}
use native.Mathlib.Nat.{mod-lt}
use starrygl_tmp.Speed.Doubles.{Doubles}
use starrygl_tmp.Speed.Step.{is_empty}
use starrygl_tmp.Speed.Partition.Edges.{owner_at}
use starrygl_tmp.Speed.Scores.{at_least_one, load_score_for_rank, average_batch_load_ratio}
use starrygl_tmp.Speed.Scores.Laws.{load_score_for_rank-Ends, average_batch_load_ratio-Ends}
use starrygl_tmp.Speed.Chunks.{total_score}
use starrygl_tmp.Speed.Chunks.Ends.{total_score-Ends}
use starrygl_tmp.Speed.Exchange.{Exchange, Swap, ratio_passes}
use starrygl_tmp.Speed.Exchange.LocalSearch.{
  Search, try_loads, cut_delta, accept_swap, try_swap, search_step, search_steps,
}
use starrygl_tmp.Speed.Assignment.{improve}
use starrygl_tmp.Speed.Exchange.Counts.{count-get_or}
use starrygl_tmp.Speed.Exchange.Swaps.{IsExchange, IsSwap}
use starrygl_tmp.Speed.Exchange.Loads.{try_loads-IsTrial, cut_delta-Ends}
use starrygl_tmp.Speed.Exchange.Laws.{
  owner-of_listed, lt-of_listed, in_range, accept_swap-IsExchange,
}
use starrygl_tmp.Speed.Exchange.Passes.{ratio_passes-IsExchange}

module _ {D : Type 0} (d : Doubles D) (load affinity : List D)
    (world_size num_slices num_chunks chunks_per_rank : ℕ)
    (load_len : length load ≡ num_slices * num_chunks)
    (affinity_len : length affinity ≡ num_chunks * num_chunks) where
  module _ (target : List D) (target_len : length target ≡ num_slices) (affinity_weight : D) where
    try_swap-IsExchange :
        (w : Swap) (pos_a pos_b : ℕ) (s : Search D)
        → IsExchange world_size num_slices num_chunks chunks_per_rank s.exchange
        → IsSwap world_size num_slices num_chunks chunks_per_rank s.exchange w
        → pos_a < length (row_of s.exchange.chunks_by_rank w.rank_a)
        → pos_b < length (row_of s.exchange.chunks_by_rank w.rank_b)
        → get_or (row_of s.exchange.chunks_by_rank w.rank_a) pos_a 0 ≡ w.chunk_a
        → get_or (row_of s.exchange.chunks_by_rank w.rank_b) pos_b 0 ≡ w.chunk_b
        → Returns
            (try_swap d load affinity world_size num_slices num_chunks target affinity_weight w
              pos_a pos_b s)
            (λ t. IsExchange world_size num_slices num_chunks chunks_per_rank t.exchange)
    unfolding try_swap
    try_swap-IsExchange w pos_a pos_b s is swap lt_a lt_b at_a at_b =
        let x = s.exchange in
        let here =
          in_range d load affinity world_size num_slices num_chunks chunks_per_rank load_len
            affinity_len x is w swap in
        >>=-Returns (load_score_for_rank d x.rank_load target w.rank_a num_slices) _
          (load_score_for_rank-Ends d world_size num_slices x.rank_load is.loads_len target
            target_len w.rank_a swap.rank_a_lt)
          (λ before_a _.
            >>=-Returns (load_score_for_rank d x.rank_load target w.rank_b num_slices) _
              (load_score_for_rank-Ends d world_size num_slices x.rank_load is.loads_len target
                target_len w.rank_b swap.rank_b_lt)
              (λ before_b _.
                >>=-Returns
                  (try_loads d load affinity world_size num_slices num_chunks x.rank_load target w)
                  _
                  (try_loads-IsTrial d load affinity world_size num_slices num_chunks load_len
                    affinity_len w x.rank_load target here is.loads_len target_len)
                  (λ trial lens.
                    >>=-Returns
                      (cut_delta d load affinity world_size num_slices num_chunks x.owner w) _
                      (cut_delta-Ends d load affinity world_size num_slices num_chunks load_len
                        affinity_len w x.owner here is.owner_len)
                      (λ delta _.
                        let after = d.div trial.after_load (at_least_one d num_slices) in
                        let next_score =
                          d.add (d.add s.best_score (d.sub after (d.add before_a before_b)))
                            (d.mul affinity_weight delta) in
                        elim (Bool-cases (d.lt next_score (d.sub s.best_score d.micro))) [
                          | inl e ↦ rw e (
                              >>=-Returns
                                (accept_swap d load affinity world_size num_slices num_chunks w
                                  pos_a pos_b trial x)
                                _
                                (accept_swap-IsExchange d load affinity world_size num_slices
                                  num_chunks chunks_per_rank load_len affinity_len x is w swap pos_a
                                  pos_b trial lt_a lt_b at_a at_b lens)
                                (λ x' is'. (_, refl, is')))
                          | inr e ↦ rw e (_, refl, is)
                        ]))))

    module _ (ranks : 0 < world_size) where
      search_step-IsExchange :
          (step : ℕ) (s : Search D)
          → IsExchange world_size num_slices num_chunks chunks_per_rank s.exchange
          → Returns
              (search_step d load affinity world_size num_slices num_chunks target affinity_weight
                step s)
              (λ t. IsExchange world_size num_slices num_chunks chunks_per_rank t.exchange)
      unfolding search_step
      search_step-IsExchange step s is =
          let x = s.exchange in
          let rank_a = step % world_size in
          let rank_b = (step * 7 + 1) % world_size in
          let lt_a : rank_a < world_size = mod-lt step ranks in
          let lt_b : rank_b < world_size = mod-lt (step * 7 + 1) ranks in
          let list_a = row_of x.chunks_by_rank rank_a in
          let list_b = row_of x.chunks_by_rank rank_b in
          ok-Returns _ (fetch-of-lt x.chunks_by_rank rank_a [] (rw is.rows_len lt_a)) (
            ok-Returns _ (fetch-of-lt x.chunks_by_rank rank_b [] (rw is.rows_len lt_b))
              (elim (Bool-cases (rank_a == rank_b || (is_empty list_a || is_empty list_b))) [
                | inl e ↦ rw e (s, refl, is)
                | inr e ↦
                    let (differ, filled) = or-parts (rank_a == rank_b) _ e in
                    let (filled_a, filled_b) =
                      or-parts (is_empty list_a) (is_empty list_b) filled in
                    let pos_a = (step * 13) % length list_a in
                    let pos_b = (step * 17) % length list_b in
                    let in_a : pos_a < length list_a =
                      mod-lt (step * 13) (filled-length list_a filled_a) in
                    let in_b : pos_b < length list_b =
                      mod-lt (step * 17) (filled-length list_b filled_b) in
                    let owner_a = owner-of_place x is rank_a pos_a lt_a in_a in
                    let owner_b = owner-of_place x is rank_b pos_b lt_b in_b in
                    let swap : Swap = record {
                      chunk_a = get_or list_a pos_a 0;
                      chunk_b = get_or list_b pos_b 0;
                      rank_a = rank_a;
                      rank_b = rank_b;
                    } in
                    rw e (
                      ok-Returns _ (fetch-of-lt list_a pos_a 0 in_a) (
                        ok-Returns _ (fetch-of-lt list_b pos_b 0 in_b) (
                          try_swap-IsExchange swap pos_a pos_b s is
                            (record {
                              a_lt =
                                  lt-of_listed d load affinity world_size num_slices num_chunks
                                    chunks_per_rank load_len affinity_len x is _ rank_a owner_a;
                              b_lt =
                                  lt-of_listed d load affinity world_size num_slices num_chunks
                                    chunks_per_rank load_len affinity_len x is _ rank_b owner_b;
                              rank_a_lt = lt_a;
                              rank_b_lt = lt_b;
                              apart = λ same. cc (differ, (==_iff rank_a rank_b).1 same);
                              owner_a = owner_a;
                              owner_b = owner_b;
                            })
                            in_a in_b refl refl)))
              ]))
        where
          or-parts : (a b : Bool) → (a || b) ≡ false → (a ≡ false) × (b ≡ false)
          or-parts true b e = absurd (cc e)
          or-parts false b e = (refl, e)

          filled-length : (xs : List ℕ) → is_empty xs ≡ false → 0 < length xs
          filled-length [] e = absurd (cc e)
          filled-length (x ∷ xs) e = omega arith

          owner-of_place :
              (x : Exchange D)
              → IsExchange world_size num_slices num_chunks chunks_per_rank x
              → (r i : ℕ) → r < world_size
              → i < length (row_of x.chunks_by_rank r)
              → owner_at x.owner (get_or (row_of x.chunks_by_rank r) i 0) ≡ pos r
          owner-of_place x is r i lt in_row =
              owner-of_listed d load affinity world_size num_slices num_chunks chunks_per_rank
                load_len affinity_len x is (get_or (row_of x.chunks_by_rank r) i 0) r lt
                (count-get_or (row_of x.chunks_by_rank r) i in_row)

      search_steps-IsExchange :
          (max_stale k step : ℕ) (s : Search D)
          → IsExchange world_size num_slices num_chunks chunks_per_rank s.exchange
          → Returns
              (search_steps d load affinity world_size num_slices num_chunks target affinity_weight
                max_stale k step s)
              (λ t. IsExchange world_size num_slices num_chunks chunks_per_rank t.exchange)
      unfolding search_steps
      search_steps-IsExchange max_stale zero step s is = (s, refl, is)
      search_steps-IsExchange max_stale (suc k) step s is =
          >>=-Returns
            (search_step d load affinity world_size num_slices num_chunks target affinity_weight
              step s)
            _ (search_step-IsExchange step s is)
            (λ t is'. elim (Bool-cases (leb max_stale t.stale)) [
              | inl e ↦ rw e (t, refl, is')
              | inr e ↦ rw e (search_steps-IsExchange max_stale k (suc step) t is')
            ])

      pub improve-IsExchange :
          (iters : ℕ) (x : Exchange D)
          → IsExchange world_size num_slices num_chunks chunks_per_rank x
          → Returns
              (improve d load affinity world_size num_slices num_chunks target affinity_weight iters
                x)
              (IsExchange world_size num_slices num_chunks chunks_per_rank)
      unfolding improve
      improve-IsExchange iters x is =
          let is_small = leb num_chunks 256 in
          >>=-Returns
            (if ltb 0 iters && is_small
              then (do
                best_ratio ← average_batch_load_ratio d x.rank_load world_size num_slices
                ratio_passes d load affinity world_size num_slices num_chunks (min iters 64)
                    best_ratio x)
              else ok x)
            _
            (elim (Bool-cases (ltb 0 iters && is_small)) [
              | inl e ↦ rw e (
                  >>=-Returns (average_batch_load_ratio d x.rank_load world_size num_slices) _
                    (average_batch_load_ratio-Ends d world_size num_slices x.rank_load is.loads_len)
                    (λ ratio _.
                      ratio_passes-IsExchange d load affinity world_size num_slices num_chunks
                        chunks_per_rank load_len affinity_len (min iters 64) ratio x is))
              | inr e ↦ rw e (x, refl, is)
            ])
            (λ x' is'.
              >>=-Returns
                (total_score d load affinity world_size num_slices num_chunks affinity_weight target
                  x'.rank_load x'.owner)
                _
                (total_score-Ends d load affinity world_size num_slices num_chunks affinity_weight
                  load_len affinity_len target x'.rank_load x'.owner target_len is'.loads_len
                  is'.owner_len)
                (λ best_score _.
                  >>=-Returns
                    (search_steps d load affinity world_size num_slices num_chunks target
                      affinity_weight (max 100 (max iters 1 / 10)) (if is_small then 0 else iters) 0
                      (record { exchange = x'; best_score = best_score; stale = 0 }))
                    _
                    (search_steps-IsExchange _ _ 0
                      (record { exchange = x'; best_score = best_score; stale = 0 }) is')
                    (λ s is''. (s.exchange, refl, is''))))
