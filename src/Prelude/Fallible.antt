-- ===== src/Prelude/Fallible.antt =====
-- Results of code that can throw. `fault` stands for a read or write outside an array, which the
-- source does not check (undefined behaviour in C++), and `out_of_fuel` for a loop that has more turns
-- than the model gives it; the other errors are its exceptions, where `char_pointer` is a text that is
-- thrown as it is.
use mathlib.Core.List.{Mem, mem-cons, mem-cons_self, mem-cons_of_mem, not-mem-nil}
use mathlib.Core.Logic.Or
use starrygl_tmp.Prelude.Core.{
  map, ap₂, Option, none, some, Bool, true, false, List, [], ◌∷◌, ◌≡◌, refl, ◌⊎◌, inl, inr,
}

pub data Error : Type 0 where
  runtime_error : Error
  char_pointer : Error
  torch_check : Error
  fault : Error
  out_of_fuel : Error

pub data Result {ℓ} (A : Type ℓ) : Type ℓ where
  ok : A → Result A
  err : Error → Result A

-- The first exception ends the call.
module _ {ℓ κ} {A : Type ℓ} {B : Type κ} where
  infixl 5 ◌>>=◌
  abbrev pub ◌>>=◌ : (call : Result A) (rest : A → Result B) → Result B
  err thrown >>= rest = err thrown
  ok value >>= rest = rest value

module _ {κ} {B : Type κ} where
  infixl 5 ◌>>◌
  abbrev pub ◌>>◌ : (check : Result (Unit {0})) (rest : Result B) → Result B
  check >> rest = check >>= (λ done. rest)

-- `if (bad) throw e;`
abbrev pub throw_if : Bool → Error → Result (Unit {0})
throw_if true e = err e
throw_if false e = ok tt

abbrev pub or_err {ℓ} : {A : Type ℓ} → Option A → Error → Result A
or_err (some a) e = ok a
or_err none e = err e

-- A loop that calls a function of each element, in order, and stops at the first error.
unfoldable pub traverse {ℓ κ} :
    {A : Type ℓ} {B : Type κ} → (A → Result B) → List A → Result (List B)
traverse f [] = ok []
traverse f (x ∷ xs) = do y ← f x; ys ← traverse f xs; ok (y ∷ ys)

pub Result-cases {ℓ} :
    {A : Type ℓ} (r : Result A) → ((a : A) × (r ≡ ok a)) ⊎ ((e : Error) × (r ≡ err e))
Result-cases (ok a) = inl (a, refl)
Result-cases (err e) = inr (e, refl)

-- A call that is followed by another has returned if both together have.
module _ {ℓ κ} {A : Type ℓ} {B : Type κ} where
  pub >>=-eq-ok :
      (call : Result A) (rest : A → Result B) {result : B}
      → (call >>= rest) ≡ ok result
      → (value : A) × (call ≡ ok value) × (rest value ≡ ok result)
  >>=-eq-ok (err thrown) rest both = cc
  >>=-eq-ok (ok value) rest both = (value, refl, both)

pub ok_inj {ℓ} : {A : Type ℓ} {a b : A} → ok a ≡ ok b → a ≡ b
ok_inj h = cc

-- The call returns.
abbrev pub IsOk {ℓ} : {A : Type ℓ} → Result A → Type 0
IsOk (ok a) = Unit
IsOk (err e) = ⊥

pub IsOk-prop {ℓ} : {A : Type ℓ} (r : Result A) → IsProp (IsOk r)
IsOk-prop (ok a) = hlevel
IsOk-prop (err e) = hlevel

pub IsOk→value {ℓ} : {A : Type ℓ} (r : Result A) → IsOk r → (a : A) × (r ≡ ok a)
IsOk→value (ok a) h = (a, refl)
IsOk→value (err e) h = elim h [ ]

pub IsOk-of_eq {ℓ} : {A : Type ℓ} {r : Result A} {a : A} → r ≡ ok a → IsOk r
IsOk-of_eq h = rw h tt

-- What each call guarantees holds of all the results.
pub map-traverse {ℓ κ μ} :
    {A : Type ℓ} {B : Type κ} {C : Type μ} (f : A → Result B) (g : B → C) (h : A → C)
    → ((x : A) (y : B) → f x ≡ ok y → g y ≡ h x)
    → (xs : List A) {ys : List B} → traverse f xs ≡ ok ys
    → map g ys ≡ map h xs
unfolding traverse
map-traverse f g h each [] e = rw (← ok_inj e)
map-traverse f g h each (x ∷ xs) {ys} e =
    let (y, here, rest) = >>=-eq-ok (f x) _ e in
    let (ys', later, done) = >>=-eq-ok (traverse f xs) _ rest in
    rw (← ok_inj done) (ap₂ ◌∷◌ (each x y here) (map-traverse f g h each xs later))

pub traverse-IsOk {ℓ κ} :
    {A : Type ℓ} {B : Type κ} (f : A → Result B) (xs : List A)
    → ((x : A) → Mem x xs → IsOk (f x))
    → IsOk (traverse f xs)
unfolding traverse
traverse-IsOk f [] h = tt
traverse-IsOk f (x ∷ xs) h =
    let (y, here) = IsOk→value (f x) (h x mem-cons_self) in
    let (ys, later) = IsOk→value _ (traverse-IsOk f xs (λ z m. h z (mem-cons_of_mem x m))) in
    rw (here, ◌>>=◌, later) tt

pub IsOk-traverse {ℓ κ} :
    {A : Type ℓ} {B : Type κ} (f : A → Result B) (xs : List A)
    → IsOk (traverse f xs)
    → (x : A) → Mem x xs
    → IsOk (f x)
unfolding traverse
IsOk-traverse f [] h x m = absurd (not-mem-nil m)
IsOk-traverse f (z ∷ xs) h x m =
    let (ys, all) = IsOk→value _ h in
    let (y, here, rest) = >>=-eq-ok (f z) _ all in
    let (ys', later, done) = >>=-eq-ok (traverse f xs) _ rest in
    Or.elim (IsOk-prop (f x)) (mem-cons.0 m) (λ same. rw same (IsOk-of_eq here))
      (λ within. IsOk-traverse f xs (IsOk-of_eq later) x within)
