-- ===== src/Speed/Exchange/LocalSearch.antt =====
-- sampler/speed_partition.cpp: `assign_chunks_temporal_balance`, the second search for chunks to exchange.
use starrygl_tmp.Prelude.{
  ℕ, zero, suc, ◌+◌, ◌*◌, ◌%◌, min, max, leb, ◌==◌, ℤ, pos, ℤ-discrete, ite, Bool, true, false,
  ◌||◌, List, [], ◌∷◌, ◌++◌, length, Result, ok, ◌>>=◌, fetch, modify, modify_row, for_range,
  if◌then◌else◌,
}
use starrygl_tmp.Speed.Doubles.{Doubles}
use starrygl_tmp.Speed.State.{nought}
use starrygl_tmp.Speed.Step.{is_empty}
use starrygl_tmp.Speed.Scores.{at_least_one, load_score_for_rank, exchanged}
use starrygl_tmp.Speed.Exchange.{Exchange, Swap, swap_owners}

-- The loads of the two ranks if the swap is made, and their score before the division.
pub record Trial (D : Type 0) : Type 0 where
  pub trial_a : List D
  pub trial_b : List D
  pub after_load : D

-- The state of the second search.
pub record Search (D : Type 0) : Type 0 where
  pub exchange : Exchange D
  pub best_score : D
  pub stale : ℕ

module _ {D : Type 0} (d : Doubles D) (load affinity : List D)
    (world_size num_slices num_chunks : ℕ) where
  -- `trial_a`, `trial_b` and `after_load`, before the division
  unfoldable pub try_loads : List D → List D → Swap → Result (Trial D)
  unfolding for_range fetch exchanged
  try_loads rank_load target w =
      for_range
        (λ t x. do
          old_a ← fetch rank_load (w.rank_a * num_slices + t)
          new_a ← exchanged d load num_chunks t w.chunk_a w.chunk_b old_a
          old_b ← fetch rank_load (w.rank_b * num_slices + t)
          new_b ← exchanged d load num_chunks t w.chunk_b w.chunk_a old_b
          aim ← fetch target t
          let da = d.sub new_a aim
          let db = d.sub new_b aim
          ok (record {
            trial_a = x.trial_a ++ new_a ∷ [];
            trial_b = x.trial_b ++ new_b ∷ [];
            after_load = d.add x.after_load (d.add (d.mul da da) (d.mul db db));
          }))
        0 num_slices (record { trial_a = []; trial_b = []; after_load = nought d })

  -- What a chunk adds to the cut where `is_cut`.
  abbrev pub cut : Bool → D → D
  cut is_cut w = if is_cut then w else nought d

  abbrev pub differs : ℕ → ℤ → Bool
  differs rank owner = ite (ℤ-discrete (pos rank) owner) false true

  unfoldable pub cut_delta : List ℤ → Swap → Result D
  unfolding for_range fetch
  cut_delta owner w =
      for_range
        (λ c delta. if c == w.chunk_a || c == w.chunk_b then ok delta else (do
          rc ← fetch owner c
          wa ← fetch affinity (min w.chunk_a c * num_chunks + max w.chunk_a c)
          wb ← fetch affinity (min w.chunk_b c * num_chunks + max w.chunk_b c)
          let in_a = differs w.rank_a rc
          let in_b = differs w.rank_b rc
          let delta' = d.add delta (d.sub (cut in_b wa) (cut in_a wa))
          ok (d.add delta' (d.sub (cut in_a wb) (cut in_b wb)))))
        0 num_chunks (nought d)

  -- `rank_load[rank][t] = trial[t]`
  unfoldable pub store_trial : ℕ → List D → List D → Result (List D)
  unfolding for_range fetch modify
  store_trial rank trial =
      for_range
        (λ t rank_load. do x ← fetch trial t; modify rank_load (rank * num_slices + t) (λ _. x)) 0
        num_slices

  -- The chunks that are accepted: at the places `pos_a` and `pos_b` of their ranks.
  unfoldable pub accept_swap : Swap → ℕ → ℕ → Trial D → Exchange D → Result (Exchange D)
  unfolding store_trial swap_owners modify_row
  accept_swap w pos_a pos_b trial x = do
    loads ← store_trial w.rank_a trial.trial_a x.rank_load
    loads' ← store_trial w.rank_b trial.trial_b loads
    owner ← swap_owners w x.owner
    rows ← modify_row x.chunks_by_rank w.rank_a pos_a (λ _. w.chunk_b)
    rows' ← modify_row rows w.rank_b pos_b (λ _. w.chunk_a)
    ok (record { owner = owner; rank_load = loads'; chunks_by_rank = rows' })

  -- The swap of two chunks, if it lowers the score.
  unfoldable pub try_swap : List D → D → Swap → ℕ → ℕ → Search D → Result (Search D)
  unfolding load_score_for_rank try_loads cut_delta accept_swap
  try_swap target affinity_weight w pos_a pos_b s = do
    let x = s.exchange
    before_a ← load_score_for_rank d x.rank_load target w.rank_a num_slices
    before_b ← load_score_for_rank d x.rank_load target w.rank_b num_slices
    trial ← try_loads x.rank_load target w
    let after = d.div trial.after_load (at_least_one d num_slices)
    delta ← cut_delta x.owner w
    let next_score =
        d.add (d.add s.best_score (d.sub after (d.add before_a before_b)))
          (d.mul affinity_weight delta)
    if d.lt next_score (d.sub s.best_score d.micro)
        then (do
          x' ← accept_swap w pos_a pos_b trial x
          ok (record { exchange = x'; best_score = next_score; stale = 0 }))
        else ok (record s { stale = suc s.stale })

  -- One turn of the second search.
  unfoldable pub search_step : List D → D → ℕ → Search D → Result (Search D)
  unfolding fetch try_swap
  search_step target affinity_weight step s = do
    let rank_a = step % world_size
    let rank_b = (step * 7 + 1) % world_size
    list_a ← fetch s.exchange.chunks_by_rank rank_a
    list_b ← fetch s.exchange.chunks_by_rank rank_b
    if rank_a == rank_b || (is_empty list_a || is_empty list_b) then ok s else (do
      let pos_a = (step * 13) % length list_a
      let pos_b = (step * 17) % length list_b
      a ← fetch list_a pos_a
      b ← fetch list_b pos_b
      let w : Swap = record { chunk_a = a; chunk_b = b; rank_a = rank_a; rank_b = rank_b }
      try_swap target affinity_weight w pos_a pos_b s)

  -- The second search, from `step` on. It ends where nothing has changed for `max_stale` turns: a turn
  -- that is skipped leaves `stale` below that.
  unfoldable pub search_steps : List D → D → ℕ → ℕ → ℕ → Search D → Result (Search D)
  unfolding search_step
  search_steps target affinity_weight max_stale zero step s = ok s
  search_steps target affinity_weight max_stale (suc k) step s = do
    s' ← search_step target affinity_weight step s
    if leb max_stale s'.stale
        then ok s'
        else search_steps target affinity_weight max_stale k (suc step) s'
