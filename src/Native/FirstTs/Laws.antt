-- ===== src/Native/FirstTs/Laws.antt =====
-- `first_ts_for_lids` gives each row the first timestamp of its roots.
use mathlib.Core.Option
use starrygl_tmp.Prelude.{
  ℕ, ◌<◌, ℤ, pos, negsuc, pos_part, ◌≤ℤ◌, ℤ-discrete, Bool, true, false, List, [], ◌∷◌, length,
  replicate, get_or, set, if◌then◌else◌, ok, err, runtime_error, ◌>>=◌, Option, none, some, ite,
  if_pos, if_neg, arith, ◌≡◌, ◌≢◌, ◌⊎◌, refl, ap, Bool-cases, inl, inr, ◌∙◌, ==_iff, length-set,
  length-replicate, get_or-set_self, get_or-set_ne, get_or-replicate,
}
use starrygl_tmp.Native.Tensor.{Tensor, contiguous_long_cpu}
use starrygl_tmp.Native.FirstTs.{is_outside, fill_first, first_ts_for_lids}

-- The timestamp of the first root at the row.
unfoldable pub first_at : ℕ → List ℤ → List ℤ → Option ℤ
first_at row (lid ∷ lids) (t ∷ times) =
    ite (ℤ-discrete lid (pos row)) (some t) (first_at row lids times)
first_at row _ _ = none

-- Every row of a root is a row of the output.
abbrev pub AreRows : List ℤ → ℕ → Type 0
AreRows [] size = Unit {0}
AreRows (lid ∷ lids) size = (pos 0 ≤ℤ lid) × (pos_part lid < size) × AreRows lids size

is_outside-false :
    (lid : ℤ) (size : ℕ) → pos 0 ≤ℤ lid → pos_part lid < size → is_outside lid size ≡ false
unfolding is_outside
is_outside-false lid size h k = ground arith

is_outside→row :
    (lid : ℤ) (size : ℕ) → is_outside lid size ≡ false → (pos 0 ≤ℤ lid) × (pos_part lid < size)
unfolding is_outside
is_outside→row lid size h = ground arith

-- What a row holds once the loop is through.
abbrev final : List ℤ → List Bool → List ℤ → List ℤ → ℕ → ℤ
final out filled lids times row =
    if get_or filled row false
    then get_or out row (pos 0)
    else Option.get_or (first_at row lids times) (get_or out row (pos 0))

pub record IsFilled (size : ℕ) (out : List ℤ) (filled : List Bool) (lids times out' : List ℤ)
    : Type 0 where
  pub sized : length out' ≡ size
  pub rows : (row : ℕ) → row < size → get_or out' row (pos 0) ≡ final out filled lids times row

module _ (out : List ℤ) (filled : List Bool) (i : ℕ) (lids : List ℤ) (t : ℤ) (times : List ℤ)
    (row : ℕ) where
  final_old :
      get_or filled i false ≡ true
      → final out filled lids times row ≡ final out filled (pos i ∷ lids) (t ∷ times) row
  unfolding first_at
  final_old old = elim (ℤ-discrete (pos i) (pos row)) [
    | yes e ↦ let same : i ≡ row = omega (arith, ap pos_part e) in rw (← same, old) refl
    | no n ↦ rw (if_neg (ℤ-discrete (pos i) (pos row)) n (some t) (first_at row lids times)) refl
  ]

  final_new :
      get_or filled i false ≡ false
      → i < length out
      → i < length filled
      → final (set out i t) (set filled i true) lids times row
        ≡ final out filled (pos i ∷ lids) (t ∷ times) row
  unfolding first_at
  final_new new h k = elim (ℤ-discrete (pos i) (pos row)) [
    | yes e ↦
        let same : i ≡ row = omega (arith, ap pos_part e) in
        rw
          (
            if_pos (ℤ-discrete (pos i) (pos row)) e (some t) (first_at row lids times),
            ← same,
            get_or-set_self filled i true false k,
            new,
            get_or-set_self out i t (pos 0) h,
          )
          refl
    | no n ↦
        let apart : i ≢ row = λ e. n (ap pos e) in
        rw
          (
            get_or-set_ne filled i row true false apart,
            get_or-set_ne out i row t (pos 0) apart,
            if_neg (ℤ-discrete (pos i) (pos row)) n (some t) (first_at row lids times),
          )
          refl
  ]

fill_first-IsFilled :
    (size : ℕ) (out : List ℤ) (filled : List Bool) (lids times : List ℤ)
    → length out ≡ size
    → length filled ≡ size
    → AreRows lids size
    → (out' : List ℤ) × (fill_first size out filled lids times ≡ ok out')
      × IsFilled size out filled lids times out'
unfolding fill_first first_at
fill_first-IsFilled size out filled [] times a b r =
    (out, refl, record { sized = a; rows = λ row h. ground arith })
fill_first-IsFilled size out filled (lid ∷ lids) [] a b r =
    (out, refl, record { sized = a; rows = λ row h. ground arith })
fill_first-IsFilled size out filled (negsuc _ ∷ lids) (t ∷ times) a b (low, high, r) =
    absurd (omega arith)
fill_first-IsFilled size out filled (pos i ∷ lids) (t ∷ times) a b (low, high, r) =
    elim (Bool-cases (get_or filled i false)) [
      | inl old ↦
          let (out', e, f) = fill_first-IsFilled size out filled lids times a b r in
          (
            out',
            rw (is_outside-false (pos i) size low high, old) e,
            record {
              sized = f.sized;
              rows = λ row h. f.rows row h ∙ final_old out filled i lids t times row old;
            },
          )
      | inr new ↦
          let (out', e, f) =
            fill_first-IsFilled size (set out i t) (set filled i true) lids times
              (length-set out i t ∙ a) (length-set filled i true ∙ b) r in
          (
            out',
            rw (is_outside-false (pos i) size low high, new) e,
            record {
              sized = f.sized;
              rows = λ row h.
                  f.rows row h
                  ∙ final_new out filled i lids t times row new (omega arith) (omega arith);
            },
          )
    ]

fill_first-err :
    (lids times : List ℤ) (size : ℕ) (out : List ℤ) (filled : List Bool)
    → length times ≡ length lids
    → ¬ AreRows lids size
    → fill_first size out filled lids times ≡ err runtime_error
unfolding fill_first
fill_first-err [] times size out filled e n = absurd (n tt)
fill_first-err (lid ∷ lids) [] size out filled e n = absurd (omega arith)
fill_first-err (lid ∷ lids) (t ∷ times) size out filled e n =
    elim (Bool-cases (is_outside lid size)) [
      | inl bad ↦ rw bad
      | inr good ↦
          let (low, high) = is_outside→row lid size good in
          rw good (fill_first-err lids times size _ _ (omega arith) (λ r. n (low, high, r)))
    ]

-- On arrays of one length whose rows lie below `size`, each row of the result holds the timestamp of
-- its first root, and 0 if it has none.
pub first_ts_for_lids-first_at :
    (root_ts root_lids : Tensor) (size : ℕ)
    → root_ts.is_cuda ≡ false
    → root_lids.is_cuda ≡ false
    → length root_ts.elems ≡ length root_lids.elems
    → AreRows root_lids.elems size
    → (out : List ℤ) × (first_ts_for_lids root_ts root_lids (pos size) ≡ ok out)
      × (length out ≡ size)
      × ((row : ℕ)
          → row < size
          → get_or out row (pos 0)
            ≡ Option.get_or (first_at row root_lids.elems root_ts.elems) (pos 0))
unfolding first_ts_for_lids
first_ts_for_lids-first_at ts lids size h k e r =
    let (out, done, f) =
      fill_first-IsFilled size (replicate size (pos 0)) (replicate size false) lids.elems ts.elems
        (length-replicate size (pos 0)) (length-replicate size false) r in
    (
      out,
      rw (h, ◌>>=◌, k, (==_iff _ _).1 e) done,
      f.sized,
      λ row lt.
          f.rows row lt ∙ rw (get_or-replicate size row false, get_or-replicate size row (pos 0)),
    )

-- A root whose row does not lie below `size` makes the function throw, as do arrays of two lengths.
pub first_ts_for_lids-err :
    (root_ts root_lids : Tensor) (size : ℕ)
    → (length root_ts.elems ≢ length root_lids.elems) ⊎ (¬ AreRows root_lids.elems size)
    → first_ts_for_lids root_ts root_lids (pos size) ≡ err runtime_error
unfolding first_ts_for_lids contiguous_long_cpu
first_ts_for_lids-err ts lids size (inl n) = ground arith
first_ts_for_lids-err ts lids size (inr n) =
    ground (
      arith,
      fill_first-err lids.elems ts.elems size (replicate size (pos 0)) (replicate size false),
    )
