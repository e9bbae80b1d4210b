-- ===== src/Speed/Exchange/Groups.antt =====
-- The chunks are grouped by their ranks, and each chunk has one place in the order.
use starrygl_tmp.Prelude.{
  ℕ, zero, suc, ◌+◌, ◌<◌, ◌≤◌, ◌==◌, ltb, leb, ℤ, pos, negsuc, List, [], ◌∷◌, ◌++◌, length,
  replicate, set, row_of, ok, fetch-of-lt, modify-of-lt, for_range-Returns, if◌then◌else◌, Returns,
  ok-Returns, length-set, length-replicate, get_or-set, row_of-replicate, count, count-snoc,
  AllBelow, ℕ_discrete, ◌≡◌, refl, sym, ap, ◌∙◌, arith,
}
use mathlib.Core.Path.{subst}
use starrygl_tmp.Sort.Counts.{All}
use starrygl_tmp.Speed.Doubles.{Doubles}
use starrygl_tmp.Speed.Tally.{is_rank}
use starrygl_tmp.Speed.Master.Choice.{same_test, other_test}
use starrygl_tmp.Speed.Partition.{range}
use starrygl_tmp.Speed.Partition.Edges.{owner_at}
use starrygl_tmp.Speed.Chunks.{group_chunks}
use starrygl_tmp.Speed.Exchange.Counts.{one_if}

pub count-range :
    (c i k : ℕ) → count c (range i k) ≡ (if leb i c then (if ltb c (i + k) then 1 else 0) else 0)
unfolding count
count-range c i zero = ground arith
count-range c i (suc k) = ground (arith, count-range c (suc i) k)

pub length-range : (i k : ℕ) → length (range i k) ≡ k
length-range i zero = refl
length-range i (suc k) = omega (arith, length-range (suc i) k)

pub range-All : (n i k : ℕ) → i + k ≤ n → All (λ c. c < n) (range i k)
range-All n i zero le = tt
range-All n i (suc k) le = (omega arith, range-All n (suc i) k (omega arith))

pub AllBelow-of_All : (n : ℕ) (xs : List ℕ) → All (λ c. c < n) xs → AllBelow n xs
AllBelow-of_All n [] all = tt
AllBelow-of_All n (x ∷ xs) all = (all.0, AllBelow-of_All n xs all.1)

pub owner_at-beyond : (owner : List ℤ) (c : ℕ) → length owner ≤ c → owner_at owner c ≡ negsuc 0
owner_at-beyond [] c le = refl
owner_at-beyond (o ∷ owner) zero le = absurd (omega (arith, le))
owner_at-beyond (o ∷ owner) (suc c) le = owner_at-beyond owner c (omega (arith, le))

module _ {D : Type 0} (d : Doubles D) (load affinity : List D)
    (world_size num_slices num_chunks : ℕ) (affinity_weight : D) where
  -- The first `i` chunks are in the lists of their ranks.
  abbrev pub Grouped : List ℤ → ℕ → List (List ℕ) → Type 0
  Grouped owner i rows =
      (length rows ≡ world_size)
      × ((c r : ℕ)
          → r < world_size
          → count c (row_of rows r)
            ≡ (if ltb c i then one_if (is_rank r (owner_at owner c)) else 0))

  group_one :
      (owner : List ℤ) (i rank : ℕ) (rows : List (List ℕ))
      → rank < world_size
      → owner_at owner i ≡ pos rank
      → Grouped owner i rows
      → Grouped owner (suc i) (set rows rank (row_of rows rank ++ i ∷ []))
  unfolding is_rank
  group_one owner i rank rows lt at (len, counts) = (
    length-set rows rank _ ∙ len,
    λ c r r_lt.
        let was = counts c r r_lt in
        let now : count c (row_of (set rows rank (row_of rows rank ++ i ∷ [])) r) ≡ (
            if rank == r
            then count c (row_of rows r) + (if i == c then 1 else 0)
            else count c (row_of rows r)) =
          rw (get_or-set rows rank r (row_of rows rank ++ i ∷ []) [] (rw len lt))
            (elim (ℕ_discrete rank r) [
              | yes e ↦ rw (same_test rank r e, ← e) (count-snoc c (row_of rows rank) i)
              | no apart ↦ rw (other_test rank r apart) refl
            ]) in
        now ∙ elim (ℕ_discrete i c) [
          | yes e ↦
              let here : owner_at owner c ≡ pos rank = ap (owner_at owner) (sym e) ∙ at in
              let was' = rw here at was in rw (here, same_test i c e) (ground (arith, was', e))
          | no apart ↦ rw (other_test i c apart) (ground (arith, was, apart))
        ],
  )

  pub group_chunks-Grouped :
      (owner : List ℤ)
      → length owner ≡ num_chunks
      → ((c : ℕ) → c < num_chunks → (r : ℕ) × (r < world_size) × (owner_at owner c ≡ pos r))
      → Returns
          (group_chunks d load affinity world_size num_slices num_chunks affinity_weight owner)
          (Grouped owner num_chunks)
  unfolding group_chunks count
  group_chunks-Grouped owner len owned =
      let (rows, e, grouped) =
        for_range-Returns _ (Grouped owner) num_chunks
          (λ i rows lt grouped.
            let (rank, rank_lt, at) = owned i lt in
            ok-Returns _ (fetch-of-lt owner i (negsuc 0) (rw len lt) ∙ ap ok at) (
              set rows rank (row_of rows rank ++ i ∷ []),
              modify-of-lt rows rank (λ row. row ++ i ∷ []) [] (rw grouped.0 rank_lt),
              group_one owner i rank rows rank_lt at grouped,
            ))
          0 num_chunks (replicate world_size []) (omega arith)
          (
            length-replicate world_size [],
            λ c r lt. rw (row_of-replicate world_size r [] lt) (ground arith),
          ) in
      (rows, e, subst (λ n. Grouped owner n rows) (omega arith) grouped)
