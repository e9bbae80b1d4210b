-- ===== src/Speed/Chunks.antt =====
-- sampler/speed_partition.cpp: `assign_chunks_temporal_balance`, which gives each rank the same number of
-- chunks: first one chunk after the other, then by exchanging two chunks of different ranks.
pub mod Ends
pub mod Laws
use starrygl_tmp.Prelude.{
  ℕ, zero, suc, ◌+◌, ◌-◌, ◌*◌, ◌/◌, ◌%◌, min, max, ltb, leb, ◌==◌, ℤ, pos, negsuc, pos_part, ltb_ℤ,
  ℤ-discrete, to_index, ite, Bool, true, false, not, ◌&&◌, ◌||◌, List, [], ◌∷◌, ◌++◌, length,
  replicate, get_or, Option, none, some, Result, ok, err, fault, torch_check, throw_if, or_err,
  ◌>>=◌, ◌>>◌, fetch, modify, for_range, if◌then◌else◌,
}
use starrygl_tmp.Sort.{stable_sort}
use starrygl_tmp.Speed.Doubles.{Doubles, almost_equal}
use starrygl_tmp.Speed.State.{nought}
use starrygl_tmp.Speed.Scores.{
  at_least_one, load_score_for_rank, load_objective, average_batch_load_ratio, exchanged,
  average_batch_load_ratio_after_swap,
}
use starrygl_tmp.Speed.Partition.{range}

-- A tensor of two dimensions, row by row.
pub record Matrix (A : Type 0) : Type 0 where
  pub dim : ℕ
  pub is_cpu : Bool
  pub rows : ℕ
  pub columns : ℕ
  pub values : List A

unfoldable pub require_2d_cpu_contiguous : {A : Type 0} → Matrix A → Result (Matrix A)
require_2d_cpu_contiguous t = do
  throw_if (not (t.dim == 2)) torch_check
  throw_if (not t.is_cpu) torch_check
  ok t

-- The assignment while it is built.
pub record Greedy (D : Type 0) : Type 0 where
  pub owner : List ℤ
  pub rank_count : List ℕ
  pub rank_load : List D
  pub assigned : List ℕ

-- The best rank so far, if there is one, and its score.
pub record Choice (D : Type 0) : Type 0 where
  pub best_rank : Option ℕ
  pub best_score : D

-- `best_rank < 0 || rank < best_rank`
abbrev pub comes_first : ℕ → Option ℕ → Bool
comes_first rank none = true
comes_first rank (some best) = ltb rank best

module _ {D : Type 0} (d : Doubles D) (load affinity : List D)
    (world_size num_slices num_chunks : ℕ) (affinity_weight : D) where
  -- `target` of one slice
  unfoldable pub slice_target : ℕ → Result D
  unfolding for_range fetch
  slice_target t = do
    total ←
        for_range (λ c total. do v ← fetch load (t * num_chunks + c); ok (d.add total v)) 0
          num_chunks (nought d)
    ok (d.div total (d.of_int (pos world_size)))

  unfoldable pub targets : Result (List D)
  unfolding for_range slice_target
  targets = for_range (λ t target. do x ← slice_target t; ok (target ++ x ∷ [])) 0 num_slices []

  -- `scalar` of one chunk: the norm of its loads
  unfoldable pub chunk_norm : ℕ → Result D
  unfolding for_range fetch
  chunk_norm c = do
    squares ←
        for_range
          (λ t squares. do v ← fetch load (t * num_chunks + c); ok (d.add squares (d.mul v v))) 0
          num_slices (nought d)
    ok (d.sqrt squares)

  unfoldable pub chunk_norms : Result (List D)
  unfolding for_range chunk_norm
  chunk_norms = for_range (λ c norms. do x ← chunk_norm c; ok (norms ++ x ∷ [])) 0 num_chunks []

  -- The heavier chunk first, then the lower number. Every chunk has a norm. Norms within 1e-8 count as
  -- equal, which is no strict weak order; the model takes the order of the stable sort.
  unfoldable pub chunk_less : List D → ℕ → ℕ → Bool
  unfolding almost_equal
  chunk_less scalar a b =
      let x = get_or scalar a (nought d) in
      let y = get_or scalar b (nought d) in if almost_equal d x y then ltb a b else d.lt y x

  -- `after_load`
  unfoldable pub load_with : List D → List D → ℕ → ℕ → Result D
  unfolding for_range fetch
  load_with rank_load target rank cid = do
    after ←
        for_range
          (λ t after. do
            old ← fetch rank_load (rank * num_slices + t)
            more ← fetch load (t * num_chunks + cid)
            aim ← fetch target t
            let diff = d.sub (d.add old more) aim
            ok (d.add after (d.mul diff diff)))
          0 num_slices (nought d)
    ok (d.div after (at_least_one d num_slices))

  -- `locality_score`: the affinity to the chunks of other ranks
  unfoldable pub locality : List ℤ → ℕ → ℕ → List ℕ → D → Result D
  unfolding fetch
  locality owner rank cid [] score = ok score
  locality owner rank cid (other ∷ assigned) score = do
    o ← fetch owner other
    score' ←
        ite (ℤ-discrete o (pos rank)) (ok score)
          (do a ← fetch affinity (cid * num_chunks + other); ok (d.add score a))
    locality owner rank cid assigned score'

  unfoldable pub rank_score : List D → Greedy D → ℕ → ℕ → Result D
  unfolding load_score_for_rank load_with locality
  rank_score target g cid rank = do
    before ← load_score_for_rank d g.rank_load target rank num_slices
    after ← load_with g.rank_load target rank cid
    local ← locality g.owner rank cid g.assigned (nought d)
    ok (d.add (d.sub after before) (d.mul affinity_weight local))

  -- One turn of the loop over the ranks.
  unfoldable pub try_rank : ℕ → List D → Greedy D → ℕ → ℕ → Choice D → Result (Choice D)
  unfolding fetch rank_score almost_equal
  try_rank chunks_per_rank target g cid rank x = do
    taken ← fetch g.rank_count rank
    if leb chunks_per_rank taken then ok x else (do
      score ← rank_score target g cid rank
      let better =
          d.lt score (d.sub x.best_score d.eps)
          || (almost_equal d score x.best_score && comes_first rank x.best_rank)
      ok (if better then record { best_rank = some rank; best_score = score } else x))

  -- `rank_load[rank][t] += load[t][cid]` for each slice
  unfoldable pub add_load : ℕ → ℕ → List D → Result (List D)
  unfolding for_range fetch modify
  add_load rank cid =
      for_range
        (λ t rank_load. do
          more ← fetch load (t * num_chunks + cid)
          modify rank_load (rank * num_slices + t) (λ x. d.add x more))
        0 num_slices

  -- One turn of the loop over the chunks.
  unfoldable pub assign_chunk : ℕ → List D → Greedy D → ℕ → Result (Greedy D)
  unfolding for_range try_rank fetch modify add_load
  assign_chunk chunks_per_rank target g cid = do
    choice ←
        for_range (try_rank chunks_per_rank target g cid) 0 world_size
          (record { best_rank = none; best_score = d.infinity })
    rank ← or_err choice.best_rank torch_check
    owner ← modify g.owner cid (λ _. pos rank)
    rank_count ← modify g.rank_count rank suc
    rank_load ← add_load rank cid g.rank_load
    ok (record {
      owner = owner;
      rank_count = rank_count;
      rank_load = rank_load;
      assigned = g.assigned ++ cid ∷ [];
    })

  unfoldable pub assign_all : ℕ → List D → List ℕ → Greedy D → Result (Greedy D)
  unfolding assign_chunk
  assign_all chunks_per_rank target [] g = ok g
  assign_all chunks_per_rank target (cid ∷ order) g = do
    g' ← assign_chunk chunks_per_rank target g cid
    assign_all chunks_per_rank target order g'

  -- `cut_score`: the affinity of the pairs of chunks in different ranks
  unfoldable pub cut_score : List ℤ → Result D
  unfolding for_range fetch
  cut_score owner =
      for_range
        (λ i score.
          for_range
            (λ j score. do
              a ← fetch owner i
              b ← fetch owner j
              ite (ℤ-discrete a b) (ok score)
                  (do w ← fetch affinity (i * num_chunks + j); ok (d.add score w)))
            (suc i) (num_chunks - suc i) score)
        0 num_chunks (nought d)

  -- `load_score + affinity_weight * cut_score`
  unfoldable pub total_score : List D → List D → List ℤ → Result D
  unfolding load_objective cut_score
  total_score target rank_load owner = do
    cut ← cut_score owner
    loads ← load_objective d rank_load target world_size num_slices
    ok (d.add loads (d.mul affinity_weight cut))

  -- `chunks_by_rank`
  unfoldable pub group_chunks : List ℤ → Result (List (List ℕ))
  unfolding for_range fetch modify
  group_chunks owner =
      for_range
        (λ c rows. do
          o ← fetch owner c
          rank ← or_err (to_index o) fault
          modify rows rank (λ row. row ++ c ∷ []))
        0 num_chunks (replicate world_size [])
