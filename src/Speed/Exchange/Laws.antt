-- ===== src/Speed/Exchange/Laws.antt =====
-- Both ways of exchanging two chunks leave the assignment in order.
use starrygl_tmp.Prelude.{
  ℕ, ◌+◌, ◌*◌, ◌<◌, ◌==◌, pos, negsuc, List, [], length, set, get_or, row_of, ok, modify-of-lt,
  modify_row-of-lt, Bool-cases, Returns, >>=-Returns, length-set, get_or-set, count, ◌≡◌, inl, inr,
  refl, sym, ap, ◌∙◌, arith,
}
use mathlib.Core.Path.{subst}
use starrygl_tmp.Speed.Doubles.{Doubles}
use starrygl_tmp.Speed.Tally.{is_rank}
use starrygl_tmp.Speed.Master.Choice.{same_test, other_test}
use starrygl_tmp.Speed.Partition.Edges.{owner_at}
use starrygl_tmp.Speed.Exchange.{Exchange, Swap, replace_first, swap_loads, swap_owners, apply_swap}
use starrygl_tmp.Speed.Exchange.LocalSearch.{Trial, store_trial, accept_swap}
use starrygl_tmp.Speed.Exchange.Counts.{
  one_if, count-replace_first, count-set, lt-of_owner, owner-of_is_rank,
}
use starrygl_tmp.Speed.Exchange.Swaps.{IsExchange, IsSwap, swapped-IsExchange}
use starrygl_tmp.Speed.Exchange.Loads.{InRange, swap_loads-Returns, IsTrial, store_trial-Returns}

module _ {D : Type 0} (d : Doubles D) (load affinity : List D)
    (world_size num_slices num_chunks chunks_per_rank : ℕ)
    (load_len : length load ≡ num_slices * num_chunks)
    (affinity_len : length affinity ≡ num_chunks * num_chunks) (x : Exchange D)
    (is : IsExchange world_size num_slices num_chunks chunks_per_rank x) where
  -- The owner of a chunk has it in its list.
  listed :
      (c r : ℕ)
      → r < world_size
      → owner_at x.owner c ≡ pos r
      → 0 < count c (row_of x.chunks_by_rank r)
  unfolding is_rank
  listed c r lt at =
      let one : count c (row_of x.chunks_by_rank r) ≡ one_if (r == r) =
        is.grouped c r lt ∙ ap (λ o. one_if (is_rank r o)) at in
      omega (arith, one, ap one_if (same_test r r refl))

  -- And the other way round.
  pub owner-of_listed :
      (c r : ℕ)
      → r < world_size
      → 0 < count c (row_of x.chunks_by_rank r)
      → owner_at x.owner c ≡ pos r
  owner-of_listed c r lt any = elim (Bool-cases (is_rank r (owner_at x.owner c))) [
    | inl e ↦ owner-of_is_rank r (owner_at x.owner c) e
    | inr e ↦ absurd (omega (arith, any, is.grouped c r lt, ap one_if e))
  ]

  pub lt-of_listed : (c r : ℕ) → owner_at x.owner c ≡ pos r → c < num_chunks
  lt-of_listed c r at = rw (← is.owner_len) (lt-of_owner x.owner c r at)

  module _ (w : Swap) (swap : IsSwap world_size num_slices num_chunks chunks_per_rank x w) where
    pub in_range : InRange d load affinity world_size num_slices num_chunks load_len affinity_len w
    in_range = record {
      a_lt = swap.a_lt;
      b_lt = swap.b_lt;
      rank_a_lt = swap.rank_a_lt;
      rank_b_lt = swap.rank_b_lt;
    }

    swap_owners-value :
        swap_owners w x.owner
        ≡ ok (set (set x.owner w.chunk_a (pos w.rank_b)) w.chunk_b (pos w.rank_a))
    unfolding swap_owners
    swap_owners-value =
        rw
          (
            modify-of-lt x.owner w.chunk_a (λ _. pos w.rank_b) (negsuc 0)
                (rw is.owner_len swap.a_lt),
            modify-of-lt (set x.owner w.chunk_a (pos w.rank_b)) w.chunk_b (λ _. pos w.rank_a)
                (negsuc 0)
                (rw (length-set x.owner w.chunk_a (pos w.rank_b), is.owner_len) swap.b_lt),
          )
          refl

    -- The list of the second rank is the one from before.
    other_row :
        (row : List ℕ)
        → row_of (set x.chunks_by_rank w.rank_a row) w.rank_b ≡ row_of x.chunks_by_rank w.rank_b
    other_row row =
        get_or-set x.chunks_by_rank w.rank_a w.rank_b row [] (rw is.rows_len swap.rank_a_lt)
        ∙ rw (other_test w.rank_a w.rank_b swap.apart) refl

    pub apply_swap-IsExchange :
        Returns
          (apply_swap d load affinity world_size num_slices num_chunks w x)
          (IsExchange world_size num_slices num_chunks chunks_per_rank)
    unfolding apply_swap
    apply_swap-IsExchange =
        let row_a = replace_first w.chunk_a w.chunk_b (row_of x.chunks_by_rank w.rank_a) in
        let rows = set x.chunks_by_rank w.rank_a row_a in
        let row_b = replace_first w.chunk_b w.chunk_a (row_of rows w.rank_b) in
        >>=-Returns (swap_loads d load affinity world_size num_slices num_chunks w x.rank_load) _
          (swap_loads-Returns d load affinity world_size num_slices num_chunks load_len affinity_len
            w x.rank_load in_range is.loads_len)
          (λ loads loads_len. (
            _,
            rw
                (
                  swap_owners-value,
                  modify-of-lt x.chunks_by_rank w.rank_a (replace_first w.chunk_a w.chunk_b) []
                      (rw is.rows_len swap.rank_a_lt),
                  modify-of-lt rows w.rank_b (replace_first w.chunk_b w.chunk_a) []
                      (rw (length-set x.chunks_by_rank w.rank_a row_a, is.rows_len) swap.rank_b_lt),
                )
                refl,
            swapped-IsExchange world_size num_slices num_chunks chunks_per_rank x w is swap row_a
                row_b
                (λ c.
                  count-replace_first w.chunk_a w.chunk_b c (row_of x.chunks_by_rank w.rank_a)
                    (listed w.chunk_a w.rank_a swap.rank_a_lt swap.owner_a))
                (λ c.
                  subst
                    (λ row.
                      count c (replace_first w.chunk_b w.chunk_a row) + one_if (w.chunk_b == c)
                      ≡ count c (row_of x.chunks_by_rank w.rank_b) + one_if (w.chunk_a == c))
                    (sym (other_row row_a))
                    (count-replace_first w.chunk_b w.chunk_a c (row_of x.chunks_by_rank w.rank_b)
                      (listed w.chunk_b w.rank_b swap.rank_b_lt swap.owner_b)))
                loads loads_len,
          ))

    pub accept_swap-IsExchange :
        (pos_a pos_b : ℕ) (trial : Trial D)
        → pos_a < length (row_of x.chunks_by_rank w.rank_a)
        → pos_b < length (row_of x.chunks_by_rank w.rank_b)
        → get_or (row_of x.chunks_by_rank w.rank_a) pos_a 0 ≡ w.chunk_a
        → get_or (row_of x.chunks_by_rank w.rank_b) pos_b 0 ≡ w.chunk_b
        → IsTrial d load affinity world_size num_slices num_chunks load_len affinity_len trial
        → Returns
            (accept_swap d load affinity world_size num_slices num_chunks w pos_a pos_b trial x)
            (IsExchange world_size num_slices num_chunks chunks_per_rank)
    unfolding accept_swap
    accept_swap-IsExchange pos_a pos_b trial lt_a lt_b at_a at_b lens =
        let row_a = set (row_of x.chunks_by_rank w.rank_a) pos_a w.chunk_b in
        let rows = set x.chunks_by_rank w.rank_a row_a in
        let row_b = set (row_of rows w.rank_b) pos_b w.chunk_a in
        >>=-Returns
          (store_trial d load affinity world_size num_slices num_chunks w.rank_a trial.trial_a
            x.rank_load)
          _
          (store_trial-Returns d load affinity world_size num_slices num_chunks load_len
            affinity_len w.rank_a trial.trial_a x.rank_load swap.rank_a_lt lens.0 is.loads_len)
          (λ loads₁ len₁.
            >>=-Returns
              (store_trial d load affinity world_size num_slices num_chunks w.rank_b trial.trial_b
                loads₁)
              _
              (store_trial-Returns d load affinity world_size num_slices num_chunks load_len
                affinity_len w.rank_b trial.trial_b loads₁ swap.rank_b_lt lens.1 len₁)
              (λ loads₂ len₂. (
                _,
                rw
                    (
                      swap_owners-value,
                      modify_row-of-lt x.chunks_by_rank w.rank_a pos_a (λ _. w.chunk_b) 0
                          (rw is.rows_len swap.rank_a_lt) lt_a,
                      modify_row-of-lt rows w.rank_b pos_b (λ _. w.chunk_a) 0
                          (rw (length-set x.chunks_by_rank w.rank_a row_a, is.rows_len)
                            swap.rank_b_lt)
                          (rw (other_row row_a) lt_b),
                    )
                    refl,
                swapped-IsExchange world_size num_slices num_chunks chunks_per_rank x w is swap
                    row_a row_b
                    (λ c.
                      subst
                        (λ a.
                          count c row_a + one_if (a == c)
                          ≡ count c (row_of x.chunks_by_rank w.rank_a) + one_if (w.chunk_b == c))
                        at_a (count-set c (row_of x.chunks_by_rank w.rank_a) pos_a w.chunk_b lt_a))
                    (λ c.
                      subst
                        (λ row.
                          count c (set row pos_b w.chunk_a) + one_if (w.chunk_b == c)
                          ≡ count c (row_of x.chunks_by_rank w.rank_b) + one_if (w.chunk_a == c))
                        (sym (other_row row_a))
                        (subst
                          (λ b.
                            count c (set (row_of x.chunks_by_rank w.rank_b) pos_b w.chunk_a)
                              + one_if (b == c)
                            ≡ count c (row_of x.chunks_by_rank w.rank_b) + one_if (w.chunk_a == c))
                          at_b
                          (count-set c (row_of x.chunks_by_rank w.rank_b) pos_b w.chunk_a lt_b)))
                    loads₂ len₂,
              )))
