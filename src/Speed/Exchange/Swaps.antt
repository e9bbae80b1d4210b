-- ===== src/Speed/Exchange/Swaps.antt =====
-- An exchange of two chunks leaves every rank with as many chunks as before.
use starrygl_tmp.Prelude.{
  ℕ, ◌+◌, ◌*◌, ◌<◌, ◌==◌, ℤ, pos, negsuc, List, [], length, set, row_of, if◌then◌else◌, Bool-cases,
  length-set, get_or-set, count, ℕ_discrete, ◌≡◌, ◌≢◌, inl, inr, refl, sym, ap, ◌∙◌, arith,
}
use mathlib.Core.Path.{subst}
use starrygl_tmp.Speed.Tally.{is_rank, tally, tally-set}
use starrygl_tmp.Speed.Master.Choice.{same_test, other_test}
use starrygl_tmp.Speed.Partition.Edges.{owner_at}
use starrygl_tmp.Speed.Exchange.{Exchange, Swap}
use starrygl_tmp.Speed.Exchange.Counts.{one_if}

module _ {D : Type 0} (world_size num_slices num_chunks chunks_per_rank : ℕ) where
  -- Every rank owns its number of chunks, and its list has the chunks that it owns, once each.
  pub record IsExchange (x : Exchange D) : Type 0 where
    pub owner_len : length x.owner ≡ num_chunks
    pub loads_len : length x.rank_load ≡ world_size * num_slices
    pub rows_len : length x.chunks_by_rank ≡ world_size
    pub full : (r : ℕ) → r < world_size → tally r x.owner ≡ chunks_per_rank
    pub owned : (c : ℕ) → c < num_chunks → (r : ℕ) × (r < world_size) × (owner_at x.owner c ≡ pos r)
    pub grouped :
        (c r : ℕ)
        → r < world_size
        → count c (row_of x.chunks_by_rank r) ≡ one_if (is_rank r (owner_at x.owner c))

  -- Two chunks, with the ranks that own them, which differ.
  pub record IsSwap (x : Exchange D) (w : Swap) : Type 0 where
    pub a_lt : w.chunk_a < num_chunks
    pub b_lt : w.chunk_b < num_chunks
    pub rank_a_lt : w.rank_a < world_size
    pub rank_b_lt : w.rank_b < world_size
    pub apart : w.rank_a ≢ w.rank_b
    pub owner_a : owner_at x.owner w.chunk_a ≡ pos w.rank_a
    pub owner_b : owner_at x.owner w.chunk_b ≡ pos w.rank_b

  module _ (x : Exchange D) (w : Swap) (is : IsExchange x) (swap : IsSwap x w)
      (row_a row_b : List ℕ)
      (row_a_is : (c : ℕ)
        → count c row_a + one_if (w.chunk_a == c)
          ≡ count c (row_of x.chunks_by_rank w.rank_a) + one_if (w.chunk_b == c))
      (row_b_is : (c : ℕ)
        → count c row_b + one_if (w.chunk_b == c)
          ≡ count c (row_of x.chunks_by_rank w.rank_b) + one_if (w.chunk_a == c)) where
    chunks_apart : w.chunk_a ≢ w.chunk_b
    chunks_apart e =
        swap.apart (pos_inj (sym swap.owner_a ∙ ap (owner_at x.owner) e ∙ swap.owner_b))
      where
        pos_inj : {a b : ℕ} → pos a ≡ pos b → a ≡ b
        pos_inj e = cc

    abbrev owner_after : List ℤ
    owner_after = set (set x.owner w.chunk_a (pos w.rank_b)) w.chunk_b (pos w.rank_a)

    abbrev rows_after : List (List ℕ)
    rows_after = set (set x.chunks_by_rank w.rank_a row_a) w.rank_b row_b

    a_in : w.chunk_a < length x.owner
    a_in = rw is.owner_len swap.a_lt

    b_in : w.chunk_b < length (set x.owner w.chunk_a (pos w.rank_b))
    b_in = rw (length-set x.owner w.chunk_a (pos w.rank_b), is.owner_len) swap.b_lt

    owner_at-after :
        (c : ℕ)
        → owner_at owner_after c ≡ (
            if w.chunk_b == c
            then pos w.rank_a
            else if w.chunk_a == c
            then pos w.rank_b
            else owner_at x.owner c)
    owner_at-after c =
        rw
          (
            get_or-set (set x.owner w.chunk_a (pos w.rank_b)) w.chunk_b c (pos w.rank_a) (negsuc 0)
                b_in,
            get_or-set x.owner w.chunk_a c (pos w.rank_b) (negsuc 0) a_in,
          )
          refl

    row_of-after :
        (r : ℕ)
        → row_of rows_after r ≡ (
            if w.rank_b == r
            then row_b
            else if w.rank_a == r
            then row_a
            else row_of x.chunks_by_rank r)
    row_of-after r =
        rw
          (
            get_or-set (set x.chunks_by_rank w.rank_a row_a) w.rank_b r row_b []
                (rw (length-set x.chunks_by_rank w.rank_a row_a, is.rows_len) swap.rank_b_lt),
            get_or-set x.chunks_by_rank w.rank_a r row_a [] (rw is.rows_len swap.rank_a_lt),
          )
          refl

    full-after : (r : ℕ) → r < world_size → tally r owner_after ≡ chunks_per_rank
    unfolding is_rank
    full-after r lt =
        let first : tally r (set x.owner w.chunk_a (pos w.rank_b)) + one_if (w.rank_a == r)
            ≡ tally r x.owner + one_if (w.rank_b == r) =
          subst
            (λ o.
              tally r (set x.owner w.chunk_a (pos w.rank_b)) + one_if (is_rank r o)
              ≡ tally r x.owner + one_if (w.rank_b == r))
            swap.owner_a (tally-set r x.owner w.chunk_a (pos w.rank_b) a_in) in
        let at_b : owner_at (set x.owner w.chunk_a (pos w.rank_b)) w.chunk_b ≡ pos w.rank_b =
          get_or-set x.owner w.chunk_a w.chunk_b (pos w.rank_b) (negsuc 0) a_in
          ∙ rw (other_test w.chunk_a w.chunk_b chunks_apart) swap.owner_b in
        let second : tally r owner_after + one_if (w.rank_b == r)
            ≡ tally r (set x.owner w.chunk_a (pos w.rank_b)) + one_if (w.rank_a == r) =
          subst
            (λ o.
              tally r owner_after + one_if (is_rank r o)
              ≡ tally r (set x.owner w.chunk_a (pos w.rank_b)) + one_if (w.rank_a == r))
            at_b
            (tally-set r (set x.owner w.chunk_a (pos w.rank_b)) w.chunk_b (pos w.rank_a) b_in) in
        omega (arith, first, second, is.full r lt)

    owned-after :
        (c : ℕ) → c < num_chunks → (r : ℕ) × (r < world_size) × (owner_at owner_after c ≡ pos r)
    owned-after c lt = elim (Bool-cases (w.chunk_b == c)) [
      | inl e ↦ (w.rank_a, swap.rank_a_lt, owner_at-after c ∙ rw e refl)
      | inr e ↦ elim (Bool-cases (w.chunk_a == c)) [
        | inl e' ↦ (w.rank_b, swap.rank_b_lt, owner_at-after c ∙ rw (e, e') refl)
        | inr e' ↦ let (r, r_lt, at) = is.owned c lt in (r, r_lt, owner_at-after c ∙ rw (e, e') at)
      ]
    ]

    -- How the two chunks move from one list to the other.
    owner-change :
        (c r : ℕ)
        → one_if (is_rank r (owner_at owner_after c))
            + ((if w.chunk_a == c then one_if (w.rank_a == r) else 0)
                + (if w.chunk_b == c then one_if (w.rank_b == r) else 0))
          ≡ one_if (is_rank r (owner_at x.owner c))
            + ((if w.chunk_a == c then one_if (w.rank_b == r) else 0)
                + (if w.chunk_b == c then one_if (w.rank_a == r) else 0))
    unfolding is_rank
    owner-change c r = rw (owner_at-after c) (elim (ℕ_discrete w.chunk_b c) [
      | yes e ↦
          let at : owner_at x.owner c ≡ pos w.rank_b =
            ap (owner_at x.owner) (sym e) ∙ swap.owner_b in
          let apart' : w.chunk_a ≢ c = λ e'. chunks_apart (e' ∙ sym e) in
          rw (at, same_test w.chunk_b c e, other_test w.chunk_a c apart') (omega arith)
      | no not_b ↦ elim (ℕ_discrete w.chunk_a c) [
        | yes e ↦
            let at : owner_at x.owner c ≡ pos w.rank_a =
              ap (owner_at x.owner) (sym e) ∙ swap.owner_a in
            rw (at, other_test w.chunk_b c not_b, same_test w.chunk_a c e) (omega arith)
        | no not_a ↦ rw (other_test w.chunk_b c not_b, other_test w.chunk_a c not_a) (omega arith)
      ]
    ])

    grouped-after :
        (c r : ℕ)
        → r < world_size
        → count c (row_of rows_after r) ≡ one_if (is_rank r (owner_at owner_after c))
    grouped-after c r lt =
        let change = owner-change c r in
        let was = is.grouped c r lt in
        rw (row_of-after r) (elim (ℕ_discrete w.rank_b r) [
          | yes e ↦
              let apart' : w.rank_a ≢ r = λ e'. swap.apart (e' ∙ sym e) in
              let now : count c row_b + one_if (w.chunk_b == c)
                  ≡ count c (row_of x.chunks_by_rank r) + one_if (w.chunk_a == c) =
                subst
                  (λ k.
                    count c row_b + one_if (w.chunk_b == c)
                    ≡ count c (row_of x.chunks_by_rank k) + one_if (w.chunk_a == c))
                  e (row_b_is c) in
              let change' = rw (same_test w.rank_b r e, other_test w.rank_a r apart') at change in
              rw (same_test w.rank_b r e) (ground (arith, now, was, change'))
          | no not_b ↦ elim (ℕ_discrete w.rank_a r) [
            | yes e ↦
                let now : count c row_a + one_if (w.chunk_a == c)
                    ≡ count c (row_of x.chunks_by_rank r) + one_if (w.chunk_b == c) =
                  subst
                    (λ k.
                      count c row_a + one_if (w.chunk_a == c)
                      ≡ count c (row_of x.chunks_by_rank k) + one_if (w.chunk_b == c))
                    e (row_a_is c) in
                let change' = rw (other_test w.rank_b r not_b, same_test w.rank_a r e) at change in
                rw (other_test w.rank_b r not_b, same_test w.rank_a r e)
                  (ground (arith, now, was, change'))
            | no not_a ↦
                let change' =
                  rw (other_test w.rank_b r not_b, other_test w.rank_a r not_a) at change in
                rw (other_test w.rank_b r not_b, other_test w.rank_a r not_a)
                  (ground (arith, was, change'))
          ]
        ])

    pub swapped-IsExchange :
        (loads : List D)
        → length loads ≡ world_size * num_slices
        → IsExchange
            (record { owner = owner_after; rank_load = loads; chunks_by_rank = rows_after })
    swapped-IsExchange loads loads_len = record {
      owner_len =
          length-set (set x.owner w.chunk_a (pos w.rank_b)) w.chunk_b _
          ∙ (length-set x.owner w.chunk_a _ ∙ is.owner_len);
      loads_len = loads_len;
      rows_len =
          length-set (set x.chunks_by_rank w.rank_a row_a) w.rank_b row_b
          ∙ (length-set x.chunks_by_rank w.rank_a row_a ∙ is.rows_len);
      full = full-after;
      owned = owned-after;
      grouped = grouped-after;
    }
