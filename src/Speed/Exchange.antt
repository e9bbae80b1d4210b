-- ===== src/Speed/Exchange.antt =====
-- sampler/speed_partition.cpp: `assign_chunks_temporal_balance`, the first search for chunks to exchange.
pub mod Counts
pub mod LocalSearch
pub mod Swaps
pub mod Loads
pub mod Laws
pub mod Passes
pub mod Turns
pub mod Groups
pub mod Balance
use starrygl_tmp.Prelude.{
  ℕ, zero, suc, ◌+◌, ◌-◌, ◌*◌, ◌/◌, ◌%◌, min, max, ltb, leb, ◌==◌, ℤ, pos, negsuc, pos_part, ltb_ℤ,
  ℤ-discrete, to_index, ite, Bool, true, false, not, ◌&&◌, ◌||◌, List, [], ◌∷◌, ◌++◌, length,
  replicate, get_or, Option, none, some, Result, ok, err, fault, torch_check, throw_if, or_err,
  ◌>>=◌, ◌>>◌, fetch, modify, modify_row, for_range, if◌then◌else◌,
}
use starrygl_tmp.Sort.{stable_sort}
use starrygl_tmp.Speed.Doubles.{Doubles, almost_equal}
use starrygl_tmp.Speed.State.{nought}
use starrygl_tmp.Speed.Step.{is_empty}
use starrygl_tmp.Speed.Scores.{
  at_least_one, load_score_for_rank, average_batch_load_ratio, exchanged,
  average_batch_load_ratio_after_swap,
}
use starrygl_tmp.Speed.Partition.{range}
use starrygl_tmp.Speed.Chunks.{
  Matrix, require_2d_cpu_contiguous, Greedy, targets, chunk_norms, chunk_less, assign_all,
  total_score, group_chunks,
}

-- The assignment while chunks are exchanged.
pub record Exchange (D : Type 0) : Type 0 where
  pub owner : List ℤ
  pub rank_load : List D
  pub chunks_by_rank : List (List ℕ)

-- Two chunks of different ranks.
pub record Swap : Type 0 where
  pub chunk_a : ℕ
  pub chunk_b : ℕ
  pub rank_a : ℕ
  pub rank_b : ℕ

-- The best swap so far, and its ratio.
pub record Best (D : Type 0) : Type 0 where
  pub next_ratio : D
  pub swap : Option Swap

-- `std::find`, and the element replaced.
unfoldable pub replace_first : ℕ → ℕ → List ℕ → List ℕ
replace_first a b [] = []
replace_first a b (x ∷ xs) = if x == a then b ∷ xs else x ∷ replace_first a b xs

-- `owner[a] = rank_b; owner[b] = rank_a;`
unfoldable pub swap_owners : Swap → List ℤ → Result (List ℤ)
unfolding modify
swap_owners w owner = do
  owner' ← modify owner w.chunk_a (λ _. pos w.rank_b)
  modify owner' w.chunk_b (λ _. pos w.rank_a)

-- `best_a < 0 || a < best_a || (a == best_a && b < best_b)`
unfoldable pub is_earlier : ℕ → ℕ → Option Swap → Bool
is_earlier a b none = true
is_earlier a b (some w) = ltb a w.chunk_a || (a == w.chunk_a && ltb b w.chunk_b)

module _ {D : Type 0} (d : Doubles D) (load affinity : List D)
    (world_size num_slices num_chunks : ℕ) where
  unfoldable pub try_pair : Exchange D → ℕ → ℕ → Best D → Result (Best D)
  unfolding fetch average_batch_load_ratio_after_swap almost_equal is_earlier
  try_pair x a b best = do
    owner_a ← fetch x.owner a
    rank_a ← or_err (to_index owner_a) fault
    owner_b ← fetch x.owner b
    rank_b ← or_err (to_index owner_b) fault
    if rank_a == rank_b then ok best else (do
      ratio ←
          average_batch_load_ratio_after_swap d x.rank_load load world_size num_slices num_chunks
            rank_a rank_b a b
      let better =
          d.lt ratio (d.sub best.next_ratio d.nano)
          || (almost_equal d ratio best.next_ratio && is_earlier a b best.swap)
      let swap : Swap = record { chunk_a = a; chunk_b = b; rank_a = rank_a; rank_b = rank_b }
      ok (if better then record { next_ratio = ratio; swap = some swap } else best))

  unfoldable pub best_swap : Exchange D → D → Result (Best D)
  unfolding for_range try_pair
  best_swap x best_ratio =
      for_range
        (λ a best. for_range (λ b best. try_pair x a b best) (suc a) (num_chunks - suc a) best) 0
        num_chunks (record { next_ratio = best_ratio; swap = none })

  -- The loads of the two ranks after the swap, slice by slice.
  unfoldable pub swap_loads : Swap → List D → Result (List D)
  unfolding for_range fetch modify exchanged
  swap_loads w =
      for_range
        (λ t rank_load. do
          old_a ← fetch rank_load (w.rank_a * num_slices + t)
          new_a ← exchanged d load num_chunks t w.chunk_a w.chunk_b old_a
          loads ← modify rank_load (w.rank_a * num_slices + t) (λ _. new_a)
          old_b ← fetch loads (w.rank_b * num_slices + t)
          new_b ← exchanged d load num_chunks t w.chunk_b w.chunk_a old_b
          modify loads (w.rank_b * num_slices + t) (λ _. new_b))
        0 num_slices

  unfoldable pub apply_swap : Swap → Exchange D → Result (Exchange D)
  unfolding swap_loads swap_owners modify replace_first
  apply_swap w x = do
    rank_load ← swap_loads w x.rank_load
    owner ← swap_owners w x.owner
    rows ← modify x.chunks_by_rank w.rank_a (replace_first w.chunk_a w.chunk_b)
    rows' ← modify rows w.rank_b (replace_first w.chunk_b w.chunk_a)
    ok (record { owner = owner; rank_load = rank_load; chunks_by_rank = rows' })

  -- The first search, for at most `k` passes.
  unfoldable pub ratio_passes : ℕ → D → Exchange D → Result (Exchange D)
  unfolding best_swap apply_swap
  ratio_passes zero best_ratio x = ok x
  ratio_passes (suc k) best_ratio x = do
    best ← best_swap x best_ratio
    elim best.swap [
      | none ↦ ok x
      | some w ↦ do x' ← apply_swap w x; ratio_passes k best.next_ratio x'
    ]
