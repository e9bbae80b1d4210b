-- ===== src/Speed/Chunks/Laws.antt =====
-- The first assignment: if it returns, every rank has its number of chunks.
use starrygl_tmp.Prelude.{
  ℕ, suc, ◌+◌, ◌*◌, ◌<◌, ◌≤◌, leb, ◌==◌, pos, negsuc, ◌||◌, ◌&&◌, List, [], ◌∷◌, ◌++◌, length, set,
  get_or, Option, none, some, Option-cases, torch_check, fetch, fetch-of-lt, modify-of-lt,
  for_range, for_range-Returns, ReturnsOr, >>=-ReturnsOr, if◌then◌else◌, Bool-cases, Returns,
  >>=-Returns, length-set, get_or-set, AllBelow, AllBelow-append, count, ℕ_discrete, ◌≡◌, inl, inr,
  refl, sym, ap, ◌∙◌, arith,
}
use mathlib.Core.Path.{subst}
use starrygl_tmp.Speed.Doubles.{Doubles, almost_equal}
use starrygl_tmp.Speed.Tally.{is_rank, tally, tally-set, total, total-set, total_full, AllBelow-set}
use starrygl_tmp.Speed.Master.Choice.{same_test, other_test}
use starrygl_tmp.Speed.Partition.Edges.{owner_at}
use starrygl_tmp.Speed.Chunks.{
  Greedy, Choice, comes_first, rank_score, try_rank, assign_chunk, assign_all,
}
use starrygl_tmp.Speed.Chunks.Ends.{add_load-Returns, rank_score-Ends}

module _ {D : Type 0} (d : Doubles D) (load affinity : List D)
    (world_size num_slices num_chunks : ℕ) (affinity_weight : D)
    (load_len : length load ≡ num_slices * num_chunks)
    (affinity_len : length affinity ≡ num_chunks * num_chunks) (target : List D)
    (target_len : length target ≡ num_slices) (chunks_per_rank : ℕ) where
  -- What holds while the chunks `rest` wait. The counts of the ranks are right and within bounds.
  pub record IsAssigned (rest : List ℕ) (g : Greedy D) : Type 0 where
    pub owner_len : length g.owner ≡ num_chunks
    pub count_len : length g.rank_count ≡ world_size
    pub loads_len : length g.rank_load ≡ world_size * num_slices
    pub assigned_below : AllBelow num_chunks g.assigned
    pub counted : (r : ℕ) → get_or g.rank_count r 0 ≡ tally r g.owner
    pub capped : AllBelow (suc chunks_per_rank) g.rank_count
    pub all_counted : total g.rank_count + length rest ≡ num_chunks
    pub waiting : (c : ℕ) → 0 < count c rest → owner_at g.owner c ≡ negsuc 0
    pub owned :
        (c : ℕ)
        → c < num_chunks
        → count c rest ≡ 0
        → (r : ℕ) × (r < world_size) × (owner_at g.owner c ≡ pos r)

  -- The rank that is chosen has room.
  HasRoom : Greedy D → Option ℕ → Type 0
  HasRoom g best =
      (r : ℕ) → best ≡ some r → (r < world_size) × (get_or g.rank_count r 0 < chunks_per_rank)

  try_rank-HasRoom :
      (rest : List ℕ) (g : Greedy D) (cid rank : ℕ)
      → IsAssigned rest g
      → cid < num_chunks
      → rank < world_size
      → (x : Choice D) → HasRoom g x.best_rank
      → Returns
          (try_rank d load affinity world_size num_slices num_chunks affinity_weight chunks_per_rank
            target g cid rank x)
          (λ y. HasRoom g y.best_rank)
  unfolding try_rank HasRoom
  try_rank-HasRoom rest g cid rank is lt lt' x room =
      >>=-Returns (fetch g.rank_count rank) _
        (_, fetch-of-lt g.rank_count rank 0 (rw is.count_len lt'), refl)
        (λ taken (taken_is : taken ≡ get_or g.rank_count rank 0).
          elim (Bool-cases (leb chunks_per_rank taken)) [
            | inl e ↦ rw e (x, refl, room)
            | inr e ↦ rw e (
                >>=-Returns
                  (rank_score d load affinity world_size num_slices num_chunks affinity_weight
                    target g cid rank)
                  _
                  (rank_score-Ends d load affinity world_size num_slices num_chunks affinity_weight
                    load_len affinity_len target target_len g cid rank is.owner_len is.loads_len
                    is.assigned_below lt lt')
                  (λ score _.
                    let better =
                      d.lt score (d.sub x.best_score d.eps)
                      || (almost_equal d score x.best_score && comes_first rank x.best_rank) in
                    elim (Bool-cases better) [
                      | inl e' ↦ rw e' (
                        _,
                        refl,
                        λ r (same : some rank ≡ some r).
                            let at : rank ≡ r = cc in
                            let free : taken < chunks_per_rank = ground (arith, e) in
                            subst
                              (λ r. (r < world_size) × (get_or g.rank_count r 0 < chunks_per_rank))
                              at (lt', rw (← taken_is) free),
                      )
                      | inr e' ↦ rw e' (x, refl, room)
                    ]))
          ])

  abbrev given : Greedy D → ℕ → ℕ → List D → Greedy D
  given g cid rank loads = record {
    owner = set g.owner cid (pos rank);
    rank_count = set g.rank_count rank (suc (get_or g.rank_count rank 0));
    rank_load = loads;
    assigned = g.assigned ++ cid ∷ [];
  }

  next-IsAssigned :
      (cid : ℕ) (rest : List ℕ) (g : Greedy D) (rank : ℕ) (loads : List D)
      → cid < num_chunks
      → count cid rest ≡ 0
      → IsAssigned (cid ∷ rest) g
      → rank < world_size
      → get_or g.rank_count rank 0 < chunks_per_rank
      → length loads ≡ world_size * num_slices
      → IsAssigned rest (given g cid rank loads)
  unfolding is_rank count
  next-IsAssigned cid rest g rank loads lt alone is rank_lt free loads_len =
      let in₁ : cid < length g.owner = rw is.owner_len lt in
      let in₂ : rank < length g.rank_count = rw is.count_len rank_lt in
      let was : owner_at g.owner cid ≡ negsuc 0 = is.waiting cid (ground arith) in
      let owner_now = λ (c : ℕ). get_or-set g.owner cid c (pos rank) (negsuc 0) in₁ in
      record {
        owner_len = length-set g.owner cid (pos rank) ∙ is.owner_len;
        count_len = length-set g.rank_count rank _ ∙ is.count_len;
        loads_len = loads_len;
        assigned_below =
            AllBelow-append num_chunks g.assigned (cid ∷ []) is.assigned_below (lt, tt);
        counted = λ r.
            let before : tally r (set g.owner cid (pos rank)) + 0
                ≡ tally r g.owner + (if rank == r then 1 else 0) =
              subst
                (λ o.
                  tally r (set g.owner cid (pos rank)) + (if is_rank r o then 1 else 0)
                  ≡ tally r g.owner + (if rank == r then 1 else 0))
                was (tally-set r g.owner cid (pos rank) in₁) in
            ground (
              arith,
              before,
              is.counted r,
              get_or-set g.rank_count rank r (suc (get_or g.rank_count rank 0)) 0 in₂,
            );
        capped =
            AllBelow-set (suc chunks_per_rank) g.rank_count rank _ is.capped (omega (arith, free));
        all_counted = omega (
          arith,
          is.all_counted,
          total-set g.rank_count rank (suc (get_or g.rank_count rank 0)) in₂,
        );
        waiting = λ c any. elim (ℕ_discrete cid c) [
          | yes e ↦ absurd (omega (arith, ap (λ c. count c rest) e, alone, any))
          | no apart ↦
              owner_now c ∙ rw (other_test cid c apart) (is.waiting c (ground (arith, any)))
        ];
        owned = λ c c_lt none_left. elim (ℕ_discrete cid c) [
          | yes e ↦ (rank, rank_lt, owner_now c ∙ rw (same_test cid c e) refl)
          | no apart ↦
              let (r, r_lt, at) =
                is.owned c c_lt (ground (arith, none_left, other_test cid c apart)) in
              (r, r_lt, owner_now c ∙ rw (other_test cid c apart) at)
        ];
      }

  assign_chunk-IsAssigned :
      (cid : ℕ) (rest : List ℕ) (g : Greedy D)
      → cid < num_chunks
      → count cid rest ≡ 0
      → IsAssigned (cid ∷ rest) g
      → ReturnsOr torch_check
          (assign_chunk d load affinity world_size num_slices num_chunks affinity_weight
            chunks_per_rank target g cid)
          (IsAssigned rest)
  unfolding assign_chunk HasRoom count
  assign_chunk-IsAssigned cid rest g lt alone is =
      let (choice, e, room) =
        for_range-Returns
          (try_rank d load affinity world_size num_slices num_chunks affinity_weight chunks_per_rank
            target g cid)
          (λ i x. HasRoom g x.best_rank) world_size
          (λ rank x lt' room. try_rank-HasRoom (cid ∷ rest) g cid rank is lt lt' x room) 0
          world_size (record { best_rank = none; best_score = d.infinity }) (omega arith)
          (λ r none_is. cc) in
      >>=-ReturnsOr {P = λ (x : Choice D). HasRoom g x.best_rank} torch_check
        (for_range _ 0 world_size _) _ (inr (choice, e, room))
        (λ x room'. elim (Option-cases x.best_rank) [
          | inl nothing ↦ inl (rw nothing refl)
          | inr (rank, found) ↦
              let (rank_lt, free) = room' rank found in
              let (loads, e', loads_len) =
                add_load-Returns d load affinity world_size num_slices num_chunks affinity_weight
                  load_len affinity_len rank cid g.rank_load rank_lt lt is.loads_len in
              let in₁ : cid < length g.owner = rw is.owner_len lt in
              let in₂ : rank < length g.rank_count = rw is.count_len rank_lt in
              inr (
                given g cid rank loads,
                rw
                    (
                      found,
                      modify-of-lt g.owner cid (λ _. pos rank) (negsuc 0) in₁,
                      modify-of-lt g.rank_count rank suc 0 in₂,
                      e',
                    )
                    refl,
                next-IsAssigned cid rest g rank loads lt alone is rank_lt free loads_len,
              )
        ])

  -- Each of the chunks once.
  pub assign_all-IsAssigned :
      (order : List ℕ) (g : Greedy D)
      → AllBelow num_chunks order
      → ((c : ℕ) → count c order ≤ 1)
      → IsAssigned order g
      → ReturnsOr torch_check
          (assign_all d load affinity world_size num_slices num_chunks affinity_weight
            chunks_per_rank target order g)
          (IsAssigned [])
  unfolding assign_all count
  assign_all-IsAssigned [] g below once is = inr (g, refl, is)
  assign_all-IsAssigned (cid ∷ order) g below once is =
      >>=-ReturnsOr {P = IsAssigned order} torch_check
        (assign_chunk d load affinity world_size num_slices num_chunks affinity_weight
          chunks_per_rank target g cid)
        _ (assign_chunk-IsAssigned cid order g below.0 (ground (arith, once cid)) is)
        (λ g' is'. assign_all-IsAssigned order g' below.1 (λ c. omega (arith, once c)) is')

  -- As many chunks as the ranks have room for: every rank is full.
  pub IsAssigned-full :
      (g : Greedy D)
      → num_chunks ≡ world_size * chunks_per_rank
      → IsAssigned [] g
      → (r : ℕ) → r < world_size
      → tally r g.owner ≡ chunks_per_rank
  IsAssigned-full g chunks_are is r lt =
      sym (is.counted r)
      ∙ total_full chunks_per_rank g.rank_count is.capped
          (omega (arith, is.all_counted)
            ∙ chunks_are
            ∙ ap (λ k. k * chunks_per_rank) (sym is.count_len))
          r (rw is.count_len lt)
