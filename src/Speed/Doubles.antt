-- ===== src/Speed/Doubles.antt =====
-- What sampler/speed_partition.cpp and split/time_split.cpp do with `double`: a type with the operations of the hardware. No
-- law is assumed of them, so that rounding, infinities and NaN may behave in any way.
use starrygl_tmp.Prelude.{ℤ, Bool, ◌&&◌, List, [], ◌∷◌, Result, ok, err, fault}

pub record Doubles (D : Type 0) : Type 0 where
  pub of_int : ℤ → D
  -- `static_cast<int64_t>`, which cuts off the fraction
  pub to_int : D → ℤ
  pub add : D → D → D
  pub sub : D → D → D
  pub mul : D → D → D
  pub div : D → D → D
  pub neg : D → D
  pub exp : D → D
  pub abs : D → D
  pub sqrt : D → D
  pub floor : D → D
  -- `std::min` and `std::max`
  pub min : D → D → D
  pub max : D → D → D
  -- `a < b`
  pub lt : D → D → Bool
  -- `a <= b`
  pub le : D → D → Bool
  pub infinity : D
  -- the literals 1e-8, 1e-9, 1e-6, 0.1 and 1e-2
  pub eps : D
  pub nano : D
  pub micro : D
  pub tenth : D
  pub hundredth : D

module _ {D : Type 0} (d : Doubles D) where
  -- `a == b`
  abbrev pub same_double : D → D → Bool
  same_double a b = d.le a b && d.le b a

  unfoldable pub almost_equal : D → D → Bool
  almost_equal a b = d.lt (d.abs (d.sub a b)) d.eps

  -- `*std::max_element(v.begin(), v.end())`, which reads the end of an empty vector.
  unfoldable pub max_from : D → List D → D
  max_from best [] = best
  max_from best (x ∷ xs) = max_from (d.max best x) xs

  unfoldable pub min_from : D → List D → D
  min_from best [] = best
  min_from best (x ∷ xs) = min_from (d.min best x) xs

  unfoldable pub max_time : List D → Result D
  unfolding max_from
  max_time [] = err fault
  max_time (x ∷ xs) = ok (max_from x xs)

  unfoldable pub min_time : List D → Result D
  unfolding min_from
  min_time [] = err fault
  min_time (x ∷ xs) = ok (min_from x xs)
