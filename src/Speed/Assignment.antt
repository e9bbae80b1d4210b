-- ===== src/Speed/Assignment.antt =====
-- sampler/speed_partition.cpp: `assign_chunks_temporal_balance` as a whole.
use starrygl_tmp.Prelude.{
  ℕ, ◌*◌, ◌/◌, min, max, ltb, leb, ◌==◌, ℤ, pos, negsuc, pos_part, ltb_ℤ, not, ◌&&◌, List, [],
  replicate, Result, ok, torch_check, throw_if, ◌>>=◌, ◌>>◌, if◌then◌else◌,
}
use starrygl_tmp.Sort.{stable_sort}
use starrygl_tmp.Speed.Doubles.{Doubles}
use starrygl_tmp.Speed.State.{nought}
use starrygl_tmp.Speed.Scores.{average_batch_load_ratio}
use starrygl_tmp.Speed.Partition.{range}
use starrygl_tmp.Speed.Chunks.{
  Matrix, require_2d_cpu_contiguous, targets, chunk_norms, chunk_less, assign_all, total_score,
  group_chunks,
}
use starrygl_tmp.Speed.Exchange.{Exchange, ratio_passes}
use starrygl_tmp.Speed.Exchange.LocalSearch.{search_steps}

module _ {D : Type 0} (d : Doubles D) where
  -- The two searches, for `iters` iterations.
  unfoldable pub improve :
      List D → List D → ℕ → ℕ → ℕ → List D → D → ℕ → Exchange D → Result (Exchange D)
  unfolding average_batch_load_ratio ratio_passes total_score search_steps
  improve load affinity world_size num_slices num_chunks target affinity_weight iters x = do
    let is_small = leb num_chunks 256
    x' ←
        if ltb 0 iters && is_small
        then (do
          best_ratio ← average_batch_load_ratio d x.rank_load world_size num_slices
          ratio_passes d load affinity world_size num_slices num_chunks (min iters 64) best_ratio x)
        else ok x
    best_score ←
        total_score d load affinity world_size num_slices num_chunks affinity_weight target
          x'.rank_load x'.owner
    s ←
        search_steps d load affinity world_size num_slices num_chunks target affinity_weight
          (max 100 (max iters 1 / 10)) (if is_small then 0 else iters) 0
          (record { exchange = x'; best_score = best_score; stale = 0 })
    ok s.exchange

  -- What follows the checks.
  unfoldable pub balance_chunks : List D → List D → ℕ → ℕ → ℕ → ℕ → D → ℕ → Result (List ℤ)
  unfolding targets chunk_norms stable_sort chunk_less assign_all total_score group_chunks improve
  balance_chunks load affinity world_size chunks_per_rank num_slices num_chunks affinity_weight
        iters =
      do
        target ← targets d load affinity world_size num_slices num_chunks affinity_weight
        scalar ← chunk_norms d load affinity world_size num_slices num_chunks affinity_weight
        let order =
            stable_sort
              (chunk_less d load affinity world_size num_slices num_chunks affinity_weight scalar)
              (range 0 num_chunks)
        g ←
            assign_all d load affinity world_size num_slices num_chunks affinity_weight
              chunks_per_rank target order
              (record {
                owner = replicate num_chunks (negsuc 0);
                rank_count = replicate world_size 0;
                rank_load = replicate (world_size * num_slices) (nought d);
                assigned = [];
              })
        _ ←
            total_score d load affinity world_size num_slices num_chunks affinity_weight target
              g.rank_load g.owner
        rows ← group_chunks d load affinity world_size num_slices num_chunks affinity_weight g.owner
        x ←
            improve load affinity world_size num_slices num_chunks target affinity_weight iters
              (record { owner = g.owner; rank_load = g.rank_load; chunks_by_rank = rows })
        ok x.owner

  unfoldable pub assign_chunks_temporal_balance :
      Matrix D → Matrix D → ℤ → ℤ → D → ℤ → Result (List ℤ)
  unfolding require_2d_cpu_contiguous balance_chunks
  assign_chunks_temporal_balance chunk_load affinity world_size chunks_per_rank affinity_weight
        local_search_iters =
      do
        throw_if (not (ltb_ℤ (pos 0) world_size)) torch_check
        throw_if (not (ltb_ℤ (pos 0) chunks_per_rank)) torch_check
        load ← require_2d_cpu_contiguous chunk_load
        aff ← require_2d_cpu_contiguous affinity
        let ranks = pos_part world_size
        let per_rank = pos_part chunks_per_rank
        throw_if (not (load.columns == ranks * per_rank)) torch_check
        throw_if (not (aff.rows == load.columns && aff.columns == load.columns)) torch_check
        balance_chunks load.values aff.values ranks per_rank load.rows load.columns affinity_weight
            (pos_part local_search_iters)
