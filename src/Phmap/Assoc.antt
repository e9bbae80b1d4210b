-- ===== src/Phmap/Assoc.antt =====
-- Association lists meet the laws of `HashMap`, and lists those of `HashSet`.
use mathlib.Core.Option
use starrygl_tmp.Prelude.{
  Bool-cases, length, suc, Option, none, some, Bool, true, false, List, [], ◌∷◌, ◌≡◌, ◌≢◌, refl,
  ite, if_pos, if_neg, Option-cases, inl, inr,
}
use starrygl_tmp.Phmap.{HashMap, HashSet}

module _ {K V : Type 0} (dec : Discrete K) where
  abbrev find : List (K × V) → K → Option V
  find [] j = none
  find ((k, v) ∷ m) j = ite (dec k j) (some v) (find m j)

  abbrev assign : List (K × V) → K → V → List (K × V)
  assign m k v = (k, v) ∷ m

  abbrev emplace : List (K × V) → K → V → List (K × V)
  emplace m k v = elim (find m k) [ none ↦ (k, v) ∷ m | some _ ↦ m ]

  pub find-assign_self : (m : List (K × V)) (k : K) (v : V) → find (assign m k v) k ≡ some v
  find-assign_self m k v = if_pos (dec k k) refl _ _

  pub find-assign_ne :
      (m : List (K × V)) (k : K) (v : V) (j : K) → k ≢ j → find (assign m k v) j ≡ find m j
  find-assign_ne m k v j h = if_neg (dec k j) h _ _

  pub find-emplace_self :
      (m : List (K × V)) (k : K) (v : V)
      → find (emplace m k v) k ≡ some (Option.get_or (find m k) v)
  find-emplace_self m k v = elim (Option-cases (find m k)) [
    | inl e ↦ rw (e, emplace) (if_pos (dec k k) refl _ _)
    | inr (w, e) ↦ rw (e, emplace) e
  ]

  pub find-emplace_ne :
      (m : List (K × V)) (k : K) (v : V) (j : K) → k ≢ j → find (emplace m k v) j ≡ find m j
  find-emplace_ne m k v j h = elim (Option-cases (find m k)) [
    | inl e ↦ rw (e, emplace) (if_neg (dec k j) h _ _)
    | inr (w, e) ↦ rw (e, emplace)
  ]

abbrev pub assoc_map : {K V : Type 0} → Discrete K → HashMap K V
assoc_map {K} {V} dec = record {
  Map = List (K × V);
  empty = [];
  find = find dec;
  emplace = emplace dec;
  assign = assign dec;
  find-empty = λ k. refl;
  find-emplace_self = find-emplace_self dec;
  find-emplace_ne = find-emplace_ne dec;
  find-assign_self = find-assign_self dec;
  find-assign_ne = find-assign_ne dec;
}

module _ {K : Type 0} (dec : Discrete K) where
  abbrev has : List K → K → Bool
  has [] j = false
  has (k ∷ s) j = ite (dec k j) true (has s j)

  abbrev insert : List K → K → List K
  insert s k = elim (has s k) [ true ↦ s | false ↦ k ∷ s ]

  pub has-insert_self : (s : List K) (k : K) → has (insert s k) k ≡ true
  has-insert_self s k = elim (Bool-cases (has s k)) [
    | inl e ↦ rw (e, insert) e
    | inr e ↦ rw (e, insert) (if_pos (dec k k) refl _ _)
  ]

  pub has-insert_ne : (s : List K) (k j : K) → k ≢ j → has (insert s k) j ≡ has s j
  has-insert_ne s k j h = elim (Bool-cases (has s k)) [
    | inl e ↦ rw (e, insert)
    | inr e ↦ rw (e, insert) (if_neg (dec k j) h _ _)
  ]

  pub size-insert_old : (s : List K) (k : K) → has s k ≡ true → length (insert s k) ≡ length s
  size-insert_old s k e = rw (e, insert)

  pub size-insert_new :
      (s : List K) (k : K) → has s k ≡ false → length (insert s k) ≡ suc (length s)
  size-insert_new s k e = rw (e, insert)

abbrev pub list_set : {K : Type 0} → Discrete K → HashSet K
list_set {K} dec = record {
  Elems = List K;
  none_in = [];
  has = has dec;
  insert = insert dec;
  has-none_in = λ k. refl;
  has-insert_self = has-insert_self dec;
  has-insert_ne = has-insert_ne dec;
  size = length;
  size-none_in = refl;
  size-insert_old = size-insert_old dec;
  size-insert_new = size-insert_new dec;
}
