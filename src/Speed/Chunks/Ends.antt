-- ===== src/Speed/Chunks/Ends.antt =====
-- What the assignment of chunks computes without changing it returns.
use starrygl_tmp.Prelude.{
  ℕ, suc, ◌+◌, ◌-◌, ◌*◌, ◌<◌, ℤ, pos, ℤ-discrete, ite, List, [], ◌∷◌, ◌++◌, length, Result, ok,
  ◌>>=◌, fetch, for_range, for_range-Returns, Returns, >>=-Returns, fetch-Returns, modify-Returns,
  length-append, AllBelow, ◌≡◌, refl, ◌∙◌, arith,
}
use starrygl_tmp.Speed.Doubles.{Doubles}
use starrygl_tmp.Speed.State.{nought}
use starrygl_tmp.Speed.Scores.{load_score_for_rank, load_objective}
use starrygl_tmp.Speed.Scores.Laws.{
  Ends, index-lt, for_range-Ends, load_score_for_rank-Ends, load_objective-Ends,
}
use starrygl_tmp.Speed.Chunks.{
  Greedy, slice_target, targets, chunk_norm, chunk_norms, load_with, locality, rank_score, add_load,
  cut_score, total_score,
}

-- A loop that appends one element in each turn.
append_loop :
    {A : Type 0} (call : ℕ → Result A) (n : ℕ)
    → ((i : ℕ) → i < n → Ends (call i))
    → Returns (for_range (λ i xs. do x ← call i; ok (xs ++ x ∷ [])) 0 n []) (λ xs. length xs ≡ n)
append_loop call n ends =
    let (xs, e, len) =
      for_range-Returns (λ i xs. do x ← call i; ok (xs ++ x ∷ [])) (λ i xs. length xs ≡ i) n
        (λ i xs lt len.
          >>=-Returns (call i) _ (ends i lt)
            (λ x _. (_, refl, length-append xs (x ∷ []) ∙ omega (arith, len))))
        0 n [] (omega arith) refl in
    (xs, e, len ∙ omega arith)

ite-Ends :
    {D P : Type 0} (test : Dec P) (score : D) {other : Result D}
    → Ends other
    → Ends (ite test (ok score) other)
ite-Ends (yes p) score ends = (score, refl, tt)
ite-Ends (no n) score ends = ends

module _ {D : Type 0} (d : Doubles D) (load affinity : List D)
    (world_size num_slices num_chunks : ℕ) (affinity_weight : D)
    (load_len : length load ≡ num_slices * num_chunks)
    (affinity_len : length affinity ≡ num_chunks * num_chunks) where
  fetch_chunk : (t c : ℕ) → t < num_slices → c < num_chunks → Ends (fetch load (t * num_chunks + c))
  fetch_chunk t c lt lt' =
      let (a, e, _) =
        fetch-Returns load _ (num_slices * num_chunks) load_len
          (index-lt t c num_chunks num_slices lt lt') in
      (a, e, tt)

  fetch_affinity :
      (a b : ℕ) → a < num_chunks → b < num_chunks → Ends (fetch affinity (a * num_chunks + b))
  fetch_affinity a b lt lt' =
      let (x, e, _) =
        fetch-Returns affinity _ (num_chunks * num_chunks) affinity_len
          (index-lt a b num_chunks num_chunks lt lt') in
      (x, e, tt)

  pub targets-Returns :
      Returns
        (targets d load affinity world_size num_slices num_chunks affinity_weight)
        (λ target. length target ≡ num_slices)
  unfolding targets slice_target
  targets-Returns = append_loop _ num_slices (λ t lt.
      >>=-Returns (for_range _ 0 num_chunks (nought d)) _
        (for_range-Ends _ 0 num_chunks num_chunks (nought d) (omega arith) (λ c total lt'.
          >>=-Returns (fetch load (t * num_chunks + c)) _ (fetch_chunk t c lt lt')
            (λ v _. (_, refl, tt))))
        (λ total _. (_, refl, tt)))

  pub chunk_norms-Returns :
      Returns
        (chunk_norms d load affinity world_size num_slices num_chunks affinity_weight)
        (λ norms. length norms ≡ num_chunks)
  unfolding chunk_norms chunk_norm
  chunk_norms-Returns = append_loop _ num_chunks (λ c lt.
      >>=-Returns (for_range _ 0 num_slices (nought d)) _
        (for_range-Ends _ 0 num_slices num_slices (nought d) (omega arith) (λ t squares lt'.
          >>=-Returns (fetch load (t * num_chunks + c)) _ (fetch_chunk t c lt' lt)
            (λ v _. (_, refl, tt))))
        (λ squares _. (_, refl, tt)))

  pub add_load-Returns :
      (rank cid : ℕ) (rank_load : List D)
      → rank < world_size
      → cid < num_chunks
      → length rank_load ≡ world_size * num_slices
      → Returns
          (add_load d load affinity world_size num_slices num_chunks affinity_weight rank cid
            rank_load)
          (λ loads. length loads ≡ world_size * num_slices)
  unfolding add_load
  add_load-Returns rank cid rank_load lt lt' len =
      for_range-Returns _ (λ t loads. length loads ≡ world_size * num_slices) num_slices
        (λ t loads lt_t len'.
          >>=-Returns (fetch load (t * num_chunks + cid)) _ (fetch_chunk t cid lt_t lt') (λ more _.
            modify-Returns loads _ (world_size * num_slices) (λ x. d.add x more) len'
              (index-lt rank t num_slices world_size lt lt_t)))
        0 num_slices rank_load (omega arith) len

  cut_score-Ends :
      (owner : List ℤ)
      → length owner ≡ num_chunks
      → Ends (cut_score d load affinity world_size num_slices num_chunks affinity_weight owner)
  unfolding cut_score
  cut_score-Ends owner len =
      for_range-Ends _ 0 num_chunks num_chunks (nought d) (omega arith) (λ i score lt.
        for_range-Ends _ (suc i) (num_chunks - suc i) num_chunks score (omega arith) (λ j score lt'.
          >>=-Returns (fetch owner i) _ (fetch-Returns owner i num_chunks len lt) (λ a _.
            >>=-Returns (fetch owner j) _ (fetch-Returns owner j num_chunks len lt') (λ b _.
              ite-Ends (ℤ-discrete a b) score (
                >>=-Returns (fetch affinity (i * num_chunks + j)) _ (fetch_affinity i j lt lt')
                  (λ w _. (d.add score w, refl, tt)))))))

  pub total_score-Ends :
      (target rank_load : List D) (owner : List ℤ)
      → length target ≡ num_slices
      → length rank_load ≡ world_size * num_slices
      → length owner ≡ num_chunks
      → Ends (
          total_score d load affinity world_size num_slices num_chunks affinity_weight target
            rank_load owner)
  unfolding total_score
  total_score-Ends target rank_load owner target_len loads_len owner_len =
      >>=-Returns (cut_score d load affinity world_size num_slices num_chunks affinity_weight owner)
        _ (cut_score-Ends owner owner_len)
        (λ cut _.
          >>=-Returns (load_objective d rank_load target world_size num_slices) _
            (load_objective-Ends d world_size num_slices rank_load loads_len target target_len)
            (λ x _. (_, refl, tt)))

  module _ (target : List D) (target_len : length target ≡ num_slices) where
    load_with-Ends :
        (rank_load : List D) (rank cid : ℕ)
        → length rank_load ≡ world_size * num_slices
        → rank < world_size
        → cid < num_chunks
        → Ends (
            load_with d load affinity world_size num_slices num_chunks affinity_weight rank_load
              target rank cid)
    unfolding load_with
    load_with-Ends rank_load rank cid len lt lt' =
        >>=-Returns (for_range _ 0 num_slices (nought d)) _
          (for_range-Ends _ 0 num_slices num_slices (nought d) (omega arith) (λ t after lt_t.
            >>=-Returns (fetch rank_load (rank * num_slices + t)) _
              (fetch-Returns rank_load _ (world_size * num_slices) len
                (index-lt rank t num_slices world_size lt lt_t))
              (λ old _.
                >>=-Returns (fetch load (t * num_chunks + cid)) _ (fetch_chunk t cid lt_t lt')
                  (λ more _.
                    >>=-Returns (fetch target t) _
                      (fetch-Returns target t num_slices target_len lt_t)
                      (λ aim _. (_, refl, tt))))))
          (λ after _. (_, refl, tt))

    locality-Ends :
        (owner : List ℤ) (rank cid : ℕ) (assigned : List ℕ) (score : D)
        → length owner ≡ num_chunks
        → cid < num_chunks
        → AllBelow num_chunks assigned
        → Ends (
            locality d load affinity world_size num_slices num_chunks affinity_weight owner rank cid
              assigned score)
    unfolding locality
    locality-Ends owner rank cid [] score len lt below = (score, refl, tt)
    locality-Ends owner rank cid (other ∷ assigned) score len lt below =
        >>=-Returns (fetch owner other) _ (fetch-Returns owner other num_chunks len below.0) (λ o _.
          >>=-Returns (ite (ℤ-discrete o (pos rank)) (ok score) _) _
            (ite-Ends (ℤ-discrete o (pos rank)) score (
              >>=-Returns (fetch affinity (cid * num_chunks + other)) _
                (fetch_affinity cid other lt below.0) (λ w _. (d.add score w, refl, tt))))
            (λ score' _. locality-Ends owner rank cid assigned score' len lt below.1))

    pub rank_score-Ends :
        (g : Greedy D) (cid rank : ℕ)
        → length g.owner ≡ num_chunks
        → length g.rank_load ≡ world_size * num_slices
        → AllBelow num_chunks g.assigned
        → cid < num_chunks
        → rank < world_size
        → Ends (
            rank_score d load affinity world_size num_slices num_chunks affinity_weight target g cid
              rank)
    unfolding rank_score
    rank_score-Ends g cid rank owner_len loads_len below lt lt' =
        >>=-Returns (load_score_for_rank d g.rank_load target rank num_slices) _
          (load_score_for_rank-Ends d world_size num_slices g.rank_load loads_len target target_len
            rank lt')
          (λ before _.
            >>=-Returns
              (load_with d load affinity world_size num_slices num_chunks affinity_weight
                g.rank_load target rank cid)
              _ (load_with-Ends g.rank_load rank cid loads_len lt' lt)
              (λ after _.
                >>=-Returns
                  (locality d load affinity world_size num_slices num_chunks affinity_weight g.owner
                    rank cid g.assigned (nought d))
                  _ (locality-Ends g.owner rank cid g.assigned (nought d) owner_len lt below)
                  (λ local _. (_, refl, tt))))
