-- ===== src/Speed/Exchange/Counts.antt =====
-- What a list of chunks has after one is replaced, and the owners that a chunk can have.
use starrygl_tmp.Prelude.{
  ℕ, zero, suc, ◌+◌, ◌<◌, ◌==◌, ==_iff, ℤ, pos, negsuc, Bool, true, List, [], ◌∷◌, length, set,
  get_or, if◌then◌else◌, count, ℕ_discrete, ◌≡◌, refl, ap, arith,
}
use starrygl_tmp.Speed.Tally.{is_rank}
use starrygl_tmp.Speed.Master.Choice.{same_test, other_test}
use starrygl_tmp.Speed.Partition.Edges.{owner_at}
use starrygl_tmp.Speed.Exchange.{replace_first}

abbrev pub one_if : Bool → ℕ
one_if b = if b then 1 else 0

pub count-replace_first :
    (a b c : ℕ) (xs : List ℕ)
    → 0 < count a xs
    → count c (replace_first a b xs) + one_if (a == c) ≡ count c xs + one_if (b == c)
unfolding count replace_first
count-replace_first a b c [] any = absurd (omega (arith, any))
count-replace_first a b c (x ∷ xs) any = elim (ℕ_discrete x a) [
  | yes e ↦ rw (same_test x a e, e) (omega arith)
  | no apart ↦
      let later : 0 < count a xs = ground (arith, any, other_test x a apart) in
      rw (other_test x a apart) (omega (arith, count-replace_first a b c xs later))
]

pub count-set :
    (c : ℕ) (xs : List ℕ) (i v : ℕ)
    → i < length xs
    → count c (set xs i v) + one_if (get_or xs i 0 == c) ≡ count c xs + one_if (v == c)
unfolding count
count-set c [] i v lt = elim lt [ ]
count-set c (x ∷ xs) zero v lt = omega arith
count-set c (x ∷ xs) (suc i) v lt = omega (arith, count-set c xs i v (omega arith))

pub count-get_or : (xs : List ℕ) (i : ℕ) → i < length xs → 0 < count (get_or xs i 0) xs
unfolding count
count-get_or [] i lt = elim lt [ ]
count-get_or (x ∷ xs) zero lt = ground (arith, same_test x x refl)
count-get_or (x ∷ xs) (suc i) lt = omega (arith, count-get_or xs i (omega arith))

pub lt-of_owner : (owner : List ℤ) (c r : ℕ) → owner_at owner c ≡ pos r → c < length owner
lt-of_owner [] c r h = cc
lt-of_owner (o ∷ owner) zero r h = omega arith
lt-of_owner (o ∷ owner) (suc c) r h = omega (arith, lt-of_owner owner c r h)

pub owner-of_is_rank : (r : ℕ) (o : ℤ) → is_rank r o ≡ true → o ≡ pos r
unfolding is_rank
owner-of_is_rank r (pos k) h = ap (λ k. pos k) ((==_iff k r).0 h)
owner-of_is_rank r (negsuc k) h = cc
