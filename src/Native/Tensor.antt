-- ===== src/Native/Tensor.antt =====
-- csrc/native_utils.cpp: what its functions take and how they read it. A tensor is its device and
-- its elements; the elements are those of an int64 tensor, on which `.to(kLong)`, `.contiguous()`,
-- `.view({-1})` and the conversions back to the tensor's own type change nothing.
use starrygl_tmp.Prelude.{ℤ, ℤ-discrete, Bool, List, Result, ok, runtime_error, throw_if, ◌>>◌, ap}

pub record Tensor : Type 0 where
  pub is_cuda : Bool
  pub elems : List ℤ

pub record PairKey : Type 0 where
  pub value : ℤ
  pub ts : ℤ

unfoldable pub PairKey-discrete : Discrete PairKey
unfolding ℤ-discrete
PairKey-discrete a b = elim (ℤ-discrete a.value b.value) [
  | no n ↦ no (λ e. n (ap (λ (k : PairKey). k.value) e))
  | yes p ↦ elim (ℤ-discrete a.ts b.ts) [
    | no n ↦ no (λ e. n (ap (λ (k : PairKey). k.ts) e))
    | yes q ↦ yes (λ i. record { value = p i; ts = q i })
  ]
]

unfoldable pub contiguous_long_cpu : Tensor → Result (List ℤ)
contiguous_long_cpu x = do throw_if x.is_cuda runtime_error; ok x.elems
