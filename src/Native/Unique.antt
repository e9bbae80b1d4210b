-- ===== src/Native/Unique.antt =====
-- csrc/native_utils.cpp: `stable_unique` and `stable_unique_with_ts`.
pub mod Laws
use starrygl_tmp.Prelude.{
  ℕ, ℤ, not, List, [], ◌∷◌, ◌++◌, length, ◌==◌, Option, none, some, Result, ok, runtime_error,
  throw_if, ◌>>=◌, ◌>>◌,
}
use starrygl_tmp.Phmap.{HashMap}
use starrygl_tmp.Intern.{Table, empty_table, intern_all}
use starrygl_tmp.Native.Tensor.{Tensor, PairKey, contiguous_long_cpu}

-- The tensors `{out, inverse}`.
unfoldable pub stable_unique : HashMap ℤ ℕ → Tensor → Result (List ℤ × List ℕ)
unfolding contiguous_long_cpu intern_all
stable_unique hm values = do
  vals ← contiguous_long_cpu values
  let done = intern_all hm (empty_table hm) vals
  ok (done.0.unique, done.1)

-- The variables of the loop of `stable_unique_with_ts`.
pub record Seen (hm : HashMap PairKey ℕ) : Type 0 where
  pub seen : hm.Map
  pub unique : List ℤ
  pub first_ts : List ℤ
  pub inverse : List ℕ

module _ (hm : HashMap PairKey ℕ) where
  -- One round of the loop.
  unfoldable pub see_pair : Seen hm → PairKey → Seen hm
  see_pair s key = elim (hm.find s.seen key) [
    | none ↦
        let row = length s.unique in
        record {
          seen = hm.emplace s.seen key row;
          unique = s.unique ++ key.value ∷ [];
          first_ts = s.first_ts ++ key.ts ∷ [];
          inverse = s.inverse ++ row ∷ [];
        }
    | some row ↦ record s { inverse = s.inverse ++ row ∷ [] }
  ]

  -- The loop over the two arrays, which have one length.
  unfoldable pub see_pairs : Seen hm → List ℤ → List ℤ → Seen hm
  see_pairs s (v ∷ vals) (t ∷ times) =
      see_pairs (see_pair s (record { value = v; ts = t })) vals times
  see_pairs s _ _ = s

  -- The tensors `{uniq, inverse, first}`.
  unfoldable pub stable_unique_with_ts : Tensor → Tensor → Result (List ℤ × List ℕ × List ℤ)
  unfolding contiguous_long_cpu see_pairs see_pair
  stable_unique_with_ts values ts = do
    vals ← contiguous_long_cpu values
    times ← contiguous_long_cpu ts
    throw_if (not (length times == length vals)) runtime_error
    let done =
        see_pairs (record { seen = hm.empty; unique = []; first_ts = []; inverse = [] }) vals times
    ok (done.unique, done.inverse, done.first_ts)
