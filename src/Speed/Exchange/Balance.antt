-- ===== src/Speed/Exchange/Balance.antt =====
-- `assign_chunks_temporal_balance` as a whole.
use starrygl_tmp.Prelude.{
  ℕ, suc, ◌*◌, ◌<◌, ◌==◌, ==_iff, ltb, ltb_ℤ, ℤ, pos, negsuc, pos_part, Bool, true, false, not,
  ◌&&◌, List, [], length, replicate, torch_check, throw_if, Bool-cases, >>=-Returns, ReturnsOr,
  >>=-ReturnsOr, ok-ReturnsOr, length-replicate, get_or-replicate, count, ◌≡◌, ◌≢◌, inl, inr, refl,
  sym, ap, ◌∙◌, arith,
}
use mathlib.Core.Path.{subst}
use starrygl_tmp.Sort.{stable_sort}
use starrygl_tmp.Sort.Laws.{length-stable_sort}
use starrygl_tmp.Sort.Counts.{count-stable_sort, stable_sort-All}
use starrygl_tmp.Speed.Doubles.{Doubles}
use starrygl_tmp.Speed.State.{nought}
use starrygl_tmp.Speed.Tally.{is_rank, tally, tally-replicate, total-replicate, AllBelow-replicate}
use starrygl_tmp.Speed.Partition.{range}
use starrygl_tmp.Speed.Partition.Edges.{owner_at}
use starrygl_tmp.Speed.Chunks.{
  Matrix, require_2d_cpu_contiguous, Greedy, chunk_less, assign_all, total_score, group_chunks,
}
use starrygl_tmp.Speed.Chunks.Ends.{targets-Returns, chunk_norms-Returns, total_score-Ends}
use starrygl_tmp.Speed.Chunks.Laws.{IsAssigned, assign_all-IsAssigned, IsAssigned-full}
use starrygl_tmp.Speed.Assignment.{improve, balance_chunks, assign_chunks_temporal_balance}
use starrygl_tmp.Speed.Exchange.Swaps.{IsExchange}
use starrygl_tmp.Speed.Exchange.Turns.{improve-IsExchange}
use starrygl_tmp.Speed.Exchange.Groups.{
  count-range, length-range, range-All, AllBelow-of_All, owner_at-beyond, Grouped,
  group_chunks-Grouped,
}

-- Every rank has its number of chunks, and each chunk has a rank.
pub record IsBalanced (world_size num_chunks chunks_per_rank : ℕ) (owner : List ℤ) : Type 0 where
  pub owner_len : length owner ≡ num_chunks
  pub full : (r : ℕ) → r < world_size → tally r owner ≡ chunks_per_rank
  pub owned : (c : ℕ) → c < num_chunks → (r : ℕ) × (r < world_size) × (owner_at owner c ≡ pos r)

module _ {D : Type 0} (d : Doubles D) (load affinity : List D)
    (world_size num_slices num_chunks : ℕ) (affinity_weight : D) where
  module _ (load_len : length load ≡ num_slices * num_chunks)
      (affinity_len : length affinity ≡ num_chunks * num_chunks) (chunks_per_rank : ℕ) where
    -- Nothing is assigned, and every chunk waits.
    nothing-IsAssigned :
        (target : List D) (target_len : length target ≡ num_slices) (order : List ℕ)
        → length order ≡ num_chunks
        → ((c : ℕ) → c < num_chunks → count c order ≢ 0)
        → IsAssigned d load affinity world_size num_slices num_chunks affinity_weight load_len
            affinity_len target target_len chunks_per_rank order
            (record {
              owner = replicate num_chunks (negsuc 0);
              rank_count = replicate world_size 0;
              rank_load = replicate (world_size * num_slices) (nought d);
              assigned = [];
            })
    nothing-IsAssigned target target_len order len all = record {
      owner_len = length-replicate num_chunks (negsuc 0);
      count_len = length-replicate world_size 0;
      loads_len = length-replicate (world_size * num_slices) (nought d);
      assigned_below = tt;
      counted = λ r. get_or-replicate world_size r 0 ∙ sym (tally-replicate r num_chunks);
      capped = AllBelow-replicate (suc chunks_per_rank) world_size 0 (omega arith);
      all_counted = omega (arith, total-replicate world_size, len);
      waiting = λ c any. get_or-replicate num_chunks c (negsuc 0);
      owned = λ c lt none_left. absurd (all c lt none_left);
    }

    Grouped-IsExchange :
        (target : List D) (target_len : length target ≡ num_slices) (g : Greedy D)
        → num_chunks ≡ world_size * chunks_per_rank
        → IsAssigned d load affinity world_size num_slices num_chunks affinity_weight load_len
            affinity_len target target_len chunks_per_rank [] g
        → (rows : List (List ℕ))
        → Grouped d load affinity world_size num_slices num_chunks affinity_weight g.owner
            num_chunks rows
        → IsExchange world_size num_slices num_chunks chunks_per_rank
            (record { owner = g.owner; rank_load = g.rank_load; chunks_by_rank = rows })
    unfolding is_rank count
    Grouped-IsExchange target target_len g chunks_are is rows grouped = record {
      owner_len = is.owner_len;
      loads_len = is.loads_len;
      rows_len = grouped.0;
      full =
          IsAssigned-full d load affinity world_size num_slices num_chunks affinity_weight load_len
            affinity_len target target_len chunks_per_rank g chunks_are is;
      owned = λ c lt. is.owned c lt refl;
      grouped = λ c r lt. elim (Bool-cases (ltb c num_chunks)) [
        | inl e ↦ grouped.1 c r lt ∙ rw e refl
        | inr e ↦
            let beyond : owner_at g.owner c ≡ negsuc 0 =
              owner_at-beyond g.owner c (rw is.owner_len (ground (arith, e))) in
            grouped.1 c r lt ∙ rw (e, beyond) refl
      ];
    }

    balance_chunks-IsBalanced :
        (iters : ℕ)
        → 0 < world_size
        → num_chunks ≡ world_size * chunks_per_rank
        → ReturnsOr torch_check
            (balance_chunks d load affinity world_size chunks_per_rank num_slices num_chunks
              affinity_weight iters)
            (IsBalanced world_size num_chunks chunks_per_rank)
    unfolding balance_chunks count
    balance_chunks-IsBalanced iters ranks chunks_are =
        let (target, target_is, target_len) =
          targets-Returns d load affinity world_size num_slices num_chunks affinity_weight load_len
            affinity_len in
        let (scalar, scalar_is, _) =
          chunk_norms-Returns d load affinity world_size num_slices num_chunks affinity_weight
            load_len affinity_len in
        let less =
          chunk_less d load affinity world_size num_slices num_chunks affinity_weight scalar in
        let order = stable_sort less (range 0 num_chunks) in
        let times =
          λ (c : ℕ). count-stable_sort less c (range 0 num_chunks) ∙ count-range c 0 num_chunks in
        ok-ReturnsOr torch_check _ target_is (
          ok-ReturnsOr torch_check _ scalar_is (
            >>=-ReturnsOr torch_check
              (assign_all d load affinity world_size num_slices num_chunks affinity_weight
                chunks_per_rank target order _)
              _
              (assign_all-IsAssigned d load affinity world_size num_slices num_chunks
                affinity_weight load_len affinity_len target target_len chunks_per_rank order _
                (AllBelow-of_All num_chunks order (
                  stable_sort-All less (λ c. c < num_chunks) (range 0 num_chunks)
                    (range-All num_chunks 0 num_chunks (omega arith))))
                (λ c. ground (arith, times c))
                (nothing-IsAssigned target target_len order
                  (length-stable_sort less (range 0 num_chunks) ∙ length-range 0 num_chunks)
                  (λ c lt. ground (arith, times c))))
              (λ g is. inr (
                >>=-Returns
                  (total_score d load affinity world_size num_slices num_chunks affinity_weight
                    target g.rank_load g.owner)
                  _
                  (total_score-Ends d load affinity world_size num_slices num_chunks affinity_weight
                    load_len affinity_len target g.rank_load g.owner target_len is.loads_len
                    is.owner_len)
                  (λ _ _.
                    >>=-Returns
                      (group_chunks d load affinity world_size num_slices num_chunks affinity_weight
                        g.owner)
                      _
                      (group_chunks-Grouped d load affinity world_size num_slices num_chunks
                        affinity_weight g.owner is.owner_len (λ c lt. is.owned c lt refl))
                      (λ rows grouped.
                        >>=-Returns
                          (improve d load affinity world_size num_slices num_chunks target
                            affinity_weight iters
                            (record {
                              owner = g.owner;
                              rank_load = g.rank_load;
                              chunks_by_rank = rows;
                            }))
                          _
                          (improve-IsExchange d load affinity world_size num_slices num_chunks
                            chunks_per_rank load_len affinity_len target target_len affinity_weight
                            ranks iters _
                            (Grouped-IsExchange target target_len g chunks_are is rows grouped))
                          (λ x is'. (
                            x.owner,
                            refl,
                            record {
                              owner_len = is'.owner_len;
                              full = is'.full;
                              owned = is'.owned;
                            },
                          ))))))))

-- A check that is passed.
check-ReturnsOr :
    (test : Bool) → ReturnsOr torch_check (throw_if (not test) torch_check) (λ _. test ≡ true)
check-ReturnsOr true = inr (tt, refl, refl)
check-ReturnsOr false = inl refl

require-ReturnsOr :
    {A : Type 0} (t : Matrix A) → ReturnsOr torch_check (require_2d_cpu_contiguous t) (λ t'. t' ≡ t)
unfolding require_2d_cpu_contiguous
require-ReturnsOr t =
    >>=-ReturnsOr torch_check (throw_if (not (t.dim == 2)) torch_check) _
      (check-ReturnsOr (t.dim == 2))
      (λ _ _.
        >>=-ReturnsOr torch_check (throw_if (not t.is_cpu) torch_check) _ (check-ReturnsOr t.is_cpu)
          (λ _ _. inr (t, refl, refl)))

positive : (z : ℤ) → ltb_ℤ (pos 0) z ≡ true → 0 < pos_part z
positive (pos k) h = ground (arith, h)
positive (negsuc k) h = ground (arith, h)

and-parts : (a b : Bool) → (a && b) ≡ true → (a ≡ true) × (b ≡ true)
and-parts true b e = (refl, e)
and-parts false b e = absurd (cc e)

-- The matrix holds as many values as its sizes say.
abbrev pub HasValues : {A : Type 0} → Matrix A → Type 0
HasValues t = length t.values ≡ t.rows * t.columns

-- The assignment of chunks to ranks throws by a TORCH_CHECK, or it returns: it reads and writes
-- nothing out of range. What it returns gives each chunk a rank below `world_size`, and each rank
-- exactly `chunks_per_rank` chunks, whatever the numbers of the type `double` are. The two matrices
-- hold as many values as their sizes say.
pub assign_chunks_temporal_balance-IsBalanced :
    {D : Type 0} (d : Doubles D) (chunk_load affinity : Matrix D) (world_size chunks_per_rank : ℤ)
    (affinity_weight : D) (local_search_iters : ℤ)
    → HasValues chunk_load
    → HasValues affinity
    → ReturnsOr torch_check
        (assign_chunks_temporal_balance d chunk_load affinity world_size chunks_per_rank
          affinity_weight local_search_iters)
        (IsBalanced (pos_part world_size) chunk_load.columns (pos_part chunks_per_rank))
unfolding assign_chunks_temporal_balance
assign_chunks_temporal_balance-IsBalanced d chunk_load affinity world_size chunks_per_rank
      affinity_weight iters load_len affinity_len =
    let ranks = pos_part world_size in
    let per_rank = pos_part chunks_per_rank in
    >>=-ReturnsOr torch_check (throw_if (not (ltb_ℤ (pos 0) world_size)) torch_check) _
      (check-ReturnsOr (ltb_ℤ (pos 0) world_size))
      (λ _ some_rank.
        >>=-ReturnsOr torch_check (throw_if (not (ltb_ℤ (pos 0) chunks_per_rank)) torch_check) _
          (check-ReturnsOr (ltb_ℤ (pos 0) chunks_per_rank))
          (λ _ _.
            >>=-ReturnsOr torch_check (require_2d_cpu_contiguous chunk_load) _
              (require-ReturnsOr chunk_load)
              (λ load load_is.
                >>=-ReturnsOr torch_check (require_2d_cpu_contiguous affinity) _
                  (require-ReturnsOr affinity)
                  (λ aff aff_is.
                    >>=-ReturnsOr torch_check
                      (throw_if (not (load.columns == ranks * per_rank)) torch_check) _
                      (check-ReturnsOr (load.columns == ranks * per_rank))
                      (λ _ chunks_are.
                        >>=-ReturnsOr torch_check
                          (throw_if (not (aff.rows == load.columns && aff.columns == load.columns))
                            torch_check)
                          _
                          (check-ReturnsOr
                            (aff.rows == load.columns && aff.columns == load.columns))
                          (λ _ square.
                            let (rows_are, columns_are) =
                              and-parts (aff.rows == load.columns) _ square in
                            let aff_len = subst HasValues (sym aff_is) affinity_len in
                            subst
                              (λ n.
                                ReturnsOr torch_check
                                  (balance_chunks d load.values aff.values ranks per_rank load.rows
                                    load.columns affinity_weight (pos_part iters))
                                  (IsBalanced ranks n per_rank))
                              (ap (λ t. t.columns) load_is)
                              (balance_chunks-IsBalanced d load.values aff.values ranks load.rows
                                load.columns affinity_weight
                                (subst HasValues (sym load_is) load_len)
                                (aff_len
                                  ∙ ap (λ n. n * aff.columns)
                                      ((==_iff aff.rows load.columns).0 rows_are)
                                  ∙ ap (λ n. load.columns * n)
                                      ((==_iff aff.columns load.columns).0 columns_are))
                                per_rank (pos_part iters) (positive world_size some_rank)
                                ((==_iff load.columns (ranks * per_rank)).0 chunks_are))))))))
