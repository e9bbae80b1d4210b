-- ===== src/Native/Unique/Laws.antt =====
-- What `stable_unique` and `stable_unique_with_ts` return.
use starrygl_tmp.Prelude.{
  ℕ, ℤ, ℤ-discrete, ◌≡◌, ◌≢◌, ap, ◌∙◌, false, some, List, [], ◌∷◌, ◌++◌, map, length, get_elem?,
  IsDistinct, ==_iff, first_occurrences, lacking-nil, append-nil, append_assoc, length-map,
  Option-cases, inl, inr, ◌>>=◌, ok, err, runtime_error, arith,
}
use mathlib.Core.List.{map-append}
use starrygl_tmp.Phmap.{HashMap}
use starrygl_tmp.Intern.{Table, empty_table, intern, intern_all}
use starrygl_tmp.Intern.Laws.{
  empty_table-IsIndexed, intern_all-IsIndexed, intern_all-unique, intern_all-rows,
}
use starrygl_tmp.Native.Tensor.{Tensor, PairKey, PairKey-discrete}
use starrygl_tmp.Native.Unique.{stable_unique, Seen, see_pair, see_pairs, stable_unique_with_ts}

-- `unique` lists each value once, in the order of first occurrences, and `inverse` holds the row
-- of each value.
pub record IsStableUnique {K : Type 0} (dec : Discrete K) (vals unique : List K) (inverse : List ℕ)
    : Type 0 where
  pub distinct : IsDistinct dec unique
  pub ordered : unique ≡ first_occurrences dec vals
  pub rows : map (get_elem? unique) inverse ≡ map some vals

intern_all-IsStableUnique :
    {K : Type 0} (dec : Discrete K) (hm : HashMap K ℕ) (vals : List K)
    → IsStableUnique dec vals
        (intern_all hm (empty_table hm) vals).0.unique
        (intern_all hm (empty_table hm) vals).1
intern_all-IsStableUnique dec hm vals =
    let v = empty_table-IsIndexed dec hm in
    record {
      distinct = (intern_all-IsIndexed dec hm (empty_table hm) vals v).distinct;
      ordered = intern_all-unique dec hm (empty_table hm) vals v ∙ lacking-nil dec _;
      rows = intern_all-rows dec hm (empty_table hm) vals v;
    }

-- The result is the stable unique of the values.
pub stable_unique-IsStableUnique :
    (hm : HashMap ℤ ℕ) (values : Tensor)
    → values.is_cuda ≡ false
    → (unique : List ℤ) × (inverse : List ℕ) × (stable_unique hm values ≡ ok (unique, inverse))
      × IsStableUnique ℤ-discrete values.elems unique inverse
unfolding stable_unique
stable_unique-IsStableUnique hm values h =
    (_, _, rw (h, ◌>>=◌), intern_all-IsStableUnique ℤ-discrete hm values.elems)

-- The keys of the two arrays.
unfoldable pub pairs : List ℤ → List ℤ → List PairKey
pairs (v ∷ vals) (t ∷ times) = record { value = v; ts = t } ∷ pairs vals times
pairs _ _ = []

module _ (hm : HashMap PairKey ℕ) where
  -- The two vectors hold the two parts of the interned keys.
  view : Table hm → List ℕ → Seen hm
  view t inverse = record {
    seen = t.seen;
    unique = map (λ (k : PairKey). k.value) t.unique;
    first_ts = map (λ (k : PairKey). k.ts) t.unique;
    inverse = inverse;
  }

  see_pair-view :
      (t : Table hm) (inverse : List ℕ) (k : PairKey)
      → see_pair hm (view t inverse) k ≡ view (intern hm t k).0 (inverse ++ (intern hm t k).1 ∷ [])
  unfolding see_pair view intern
  see_pair-view t inverse k = elim (Option-cases (hm.find t.seen k)) [
    | inr (i, h) ↦ rw (h, see_pair, intern)
    | inl h ↦ rw (h, see_pair, intern) (simp (map-append, length-map))
  ]

  see_pairs-view :
      (t : Table hm) (inverse : List ℕ) (vals times : List ℤ)
      → see_pairs hm (view t inverse) vals times
        ≡ view
            (intern_all hm t (pairs vals times)).0
            (inverse ++ (intern_all hm t (pairs vals times)).1)
  unfolding see_pairs pairs intern_all
  see_pairs-view t inverse (v ∷ vals) (x ∷ times) =
      let k : PairKey = record { value = v; ts = x } in
      rw (see_pair-view t inverse k) (
        see_pairs-view (intern hm t k).0 (inverse ++ (intern hm t k).1 ∷ []) vals times
        ∙ rw append_assoc)
  see_pairs-view t inverse [] times = rw append-nil
  see_pairs-view t inverse (v ∷ vals) [] = rw append-nil

  -- `unique` and `first` are the two parts of the stable unique of the pairs.
  pub record IsPairUnique (vals times unique : List ℤ) (inverse : List ℕ) (first : List ℤ)
      : Type 0 where
    pub keys : List PairKey
    pub values : unique ≡ map (λ (k : PairKey). k.value) keys
    pub times_of : first ≡ map (λ (k : PairKey). k.ts) keys
    pub stable : IsStableUnique PairKey-discrete (pairs vals times) keys inverse

  -- On CPU tensors of one length, `stable_unique_with_ts` returns the distinct pairs in the order of
  -- their first occurrences, split into values and times, and the row of each pair.
  pub stable_unique_with_ts-IsPairUnique :
      (values ts : Tensor)
      → values.is_cuda ≡ false
      → ts.is_cuda ≡ false
      → length ts.elems ≡ length values.elems
      → (unique : List ℤ) × (inverse : List ℕ) × (first : List ℤ) × (stable_unique_with_ts hm values
            ts
          ≡ ok (unique, inverse, first))
        × IsPairUnique values.elems ts.elems unique inverse first
  unfolding stable_unique_with_ts view
  stable_unique_with_ts-IsPairUnique values ts h k e =
      let done = see_pairs-view (empty_table hm) [] values.elems ts.elems in
      let interned = intern_all hm (empty_table hm) (pairs values.elems ts.elems) in
      let out = see_pairs hm (view (empty_table hm) []) values.elems ts.elems in
      (
        out.unique,
        out.inverse,
        out.first_ts,
        rw (h, k, ◌>>=◌, (==_iff _ _).1 e),
        record {
          keys = interned.0.unique;
          values = ap (λ (s : Seen hm). s.unique) done;
          times_of = ap (λ (s : Seen hm). s.first_ts) done;
          stable =
              rw (ap (λ (s : Seen hm). s.inverse) done)
                (intern_all-IsStableUnique PairKey-discrete hm _);
        },
      )

  pub stable_unique_with_ts-mismatch :
      (values ts : Tensor)
      → length ts.elems ≢ length values.elems
      → stable_unique_with_ts hm values ts ≡ err runtime_error
  unfolding stable_unique_with_ts
  stable_unique_with_ts-mismatch values ts n = ground arith
