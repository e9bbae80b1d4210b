-- ===== src/Native/FirstTs.antt =====
-- csrc/native_utils.cpp: `first_ts_for_lids`.
pub mod Laws
use starrygl_tmp.Prelude.{
  ℕ, ℤ, pos, negsuc, pos_part, ltb_ℤ, leb, Bool, true, false, not, ◌||◌, List, [], ◌∷◌, length,
  replicate, get_or, set, ◌==◌, if◌then◌else◌, Result, ok, err, runtime_error, torch_check,
  throw_if, ◌>>=◌, ◌>>◌,
}
use starrygl_tmp.Native.Tensor.{Tensor, contiguous_long_cpu}

-- `lid < 0 || lid >= size`
unfoldable pub is_outside : ℤ → ℕ → Bool
is_outside lid size = ltb_ℤ lid (pos 0) || not (ltb_ℤ lid (pos size))

-- The loop, over the two arrays, with `out` and `filled`.
unfoldable pub fill_first : ℕ → List ℤ → List Bool → List ℤ → List ℤ → Result (List ℤ)
unfolding is_outside
fill_first size out filled (lid ∷ lids) (t ∷ times) = do
  throw_if (is_outside lid size) runtime_error
  let done = get_or filled (pos_part lid) false
  fill_first size (if done then out else set out (pos_part lid) t)
      (if done then filled else set filled (pos_part lid) true) lids times
fill_first size out filled _ _ = ok out

-- A negative size is refused by `torch::zeros`.
unfoldable pub first_ts_for_lids : Tensor → Tensor → ℤ → Result (List ℤ)
unfolding contiguous_long_cpu fill_first
first_ts_for_lids root_ts root_lids size = do
  times ← contiguous_long_cpu root_ts
  lids ← contiguous_long_cpu root_lids
  throw_if (not (length times == length lids)) runtime_error
  elim size [
    | negsuc _ ↦ err torch_check
    | pos n ↦ fill_first n (replicate n (pos 0)) (replicate n false) lids times
  ]
