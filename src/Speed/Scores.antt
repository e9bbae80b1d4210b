-- ===== src/Speed/Scores.antt =====
-- sampler/speed_partition.cpp: the scores by which `assign_chunks_temporal_balance` compares assignments
-- of chunks to ranks. `rank_load` has the load of each rank in each slice, rank by rank; the loads of the
-- chunks stand slice by slice.
pub mod Laws
use starrygl_tmp.Prelude.{
  ℕ, suc, ◌+◌, ◌-◌, ◌*◌, max, ◌==◌, ℤ, pos, Bool, true, false, not, ◌&&◌, List, [], ◌∷◌, Result, ok,
  ◌>>=◌, fetch, modify, for_range, if◌then◌else◌,
}
use starrygl_tmp.Speed.Doubles.{Doubles}
use starrygl_tmp.Speed.State.{nought}

module _ {D : Type 0} (d : Doubles D) where
  -- `static_cast<double>(std::max(n, 1))`
  abbrev pub at_least_one : ℕ → D
  at_least_one n = d.of_int (pos (max n 1))

  unfoldable pub load_score_for_rank : List D → List D → ℕ → ℕ → Result D
  unfolding fetch for_range
  load_score_for_rank rank_load target rank num_slices = do
    score ←
        for_range
          (λ t score. do
            load ← fetch rank_load (rank * num_slices + t)
            aim ← fetch target t
            let diff = d.sub load aim
            ok (d.add score (d.mul diff diff)))
          0 num_slices (nought d)
    ok (d.div score (at_least_one num_slices))

  unfoldable pub load_objective : List D → List D → ℕ → ℕ → Result D
  unfolding load_score_for_rank for_range
  load_objective rank_load target world_size num_slices =
      for_range
        (λ rank score. do
          s ← load_score_for_rank rank_load target rank num_slices
          ok (d.add score s))
        0 world_size (nought d)

  -- The least and the greatest load of a slice.
  pub record Extremes : Type 0 where
    pub min_load : D
    pub max_load : D

  pub record Ratio : Type 0 where
    pub total_ratio : D
    pub valid_slices : ℕ

  unfoldable pub widen : Extremes → D → Extremes
  widen x value = record { min_load = d.min x.min_load value; max_load = d.max x.max_load value }

  -- A slice without load counts for nothing.
  unfoldable pub add_ratio : Ratio → Extremes → Ratio
  add_ratio r x = if d.le x.max_load (nought d) then r else record {
    total_ratio = d.add r.total_ratio (d.div x.max_load (d.max x.min_load d.eps));
    valid_slices = suc r.valid_slices;
  }

  abbrev pub no_load : Extremes
  no_load = record { min_load = d.infinity; max_load = nought d }

  -- The mean, over the slices, of the ratio between the greatest and the least load of a rank, where
  -- `value` is the load of a rank in a slice.
  unfoldable pub mean_ratio : (ℕ → ℕ → Result D) → ℕ → ℕ → Result D
  unfolding for_range widen add_ratio
  mean_ratio value world_size num_slices = do
    r ←
        for_range
          (λ t r. do
            x ← for_range (λ rank x. do v ← value t rank; ok (widen x v)) 0 world_size no_load
            ok (add_ratio r x))
          0 num_slices (record { total_ratio = nought d; valid_slices = 0 })
    ok (d.div r.total_ratio (at_least_one r.valid_slices))

  unfoldable pub average_batch_load_ratio : List D → ℕ → ℕ → Result D
  unfolding mean_ratio fetch
  average_batch_load_ratio rank_load world_size num_slices =
      mean_ratio (λ t rank. fetch rank_load (rank * num_slices + t)) world_size num_slices

  -- `value - load[t][out] + load[t][into]`
  unfoldable pub exchanged : List D → ℕ → ℕ → ℕ → ℕ → D → Result D
  unfolding fetch
  exchanged load num_chunks t out into value = do
    less ← fetch load (t * num_chunks + out)
    more ← fetch load (t * num_chunks + into)
    ok (d.add (d.sub value less) more)

  unfoldable pub average_batch_load_ratio_after_swap :
      List D → List D → ℕ → ℕ → ℕ → ℕ → ℕ → ℕ → ℕ → Result D
  unfolding mean_ratio fetch exchanged
  average_batch_load_ratio_after_swap rank_load load world_size num_slices num_chunks rank_a rank_b
        chunk_a chunk_b =
      mean_ratio
        (λ t rank. do
          value ← fetch rank_load (rank * num_slices + t)
          if rank == rank_a
              then exchanged load num_chunks t chunk_a chunk_b value
              else if rank == rank_b
              then exchanged load num_chunks t chunk_b chunk_a value
              else ok value)
        world_size num_slices
