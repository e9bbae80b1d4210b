-- ===== src/Sort/Laws.antt =====
-- A sort returns its elements in an order in which none precedes an earlier one.
use mathlib.Core.List.{Perm, Mem, Pairwise, Pairwise-singleton}
use mathlib.Core.List.Perm
use mathlib.Core.List.{
  forall_mem-cons, mem-cons, mem-cons_self, mem-cons_of_mem, not-mem-nil, Mem-prop,
}
use mathlib.Core.Logic.Or
use mathlib.Core.Bool.{Bool-set}
use starrygl_tmp.Prelude.{
  refl, suc, length, ap, Bool, true, false, List, [], ◌∷◌, ◌≡◌, ◌≢◌, if_pos, if_neg, ◌∙◌,
  Bool-cases, inl, inr,
}
use starrygl_tmp.Sort.{insert_sorted, stable_sort, unique_from, unique_runs}

-- `less` is a strict weak order, as the standard library wants.
pub record IsStrictWeak {A : Type 0} (less : A → A → Bool) : Type 0 where
  pub asym : (a b : A) → less a b ≡ true → less b a ≡ false
  pub trans : (a b c : A) → less b a ≡ false → less c b ≡ false → less c a ≡ false

module _ {A : Type 0} (less : A → A → Bool) where
  -- No element precedes one that stands before it.
  abbrev pub IsSorted : List A → Type 0
  IsSorted = Pairwise (λ a b. less b a ≡ false)

  insert_sorted-perm : (x : A) (xs : List A) → Perm (insert_sorted less x xs) (x ∷ xs)
  unfolding insert_sorted
  insert_sorted-perm x [] = Perm.rfl
  insert_sorted-perm x (y ∷ ys) = elim (Bool-cases (less y x)) [
    | inl e ↦ rw e (Perm.trans (Perm.cons y (insert_sorted-perm x ys)) (Perm.swap x y ys))
    | inr e ↦ rw e Perm.rfl
  ]

  length-insert_sorted : (x : A) (xs : List A) → length (insert_sorted less x xs) ≡ suc (length xs)
  unfolding insert_sorted
  length-insert_sorted x [] = refl
  length-insert_sorted x (y ∷ ys) = elim (Bool-cases (less y x)) [
    | inl e ↦ rw e (ap suc (length-insert_sorted x ys))
    | inr e ↦ rw e
  ]

  pub length-stable_sort : (xs : List A) → length (stable_sort less xs) ≡ length xs
  unfolding stable_sort
  length-stable_sort [] = refl
  length-stable_sort (x ∷ xs) =
      length-insert_sorted x (stable_sort less xs) ∙ ap suc (length-stable_sort xs)

  pub stable_sort-perm : (xs : List A) → Perm (stable_sort less xs) xs
  unfolding stable_sort
  stable_sort-perm [] = Perm.rfl
  stable_sort-perm (x ∷ xs) =
      Perm.trans (insert_sorted-perm x (stable_sort less xs)) (Perm.cons x (stable_sort-perm xs))

  module _ (w : IsStrictWeak less) where
    insert_sorted-IsSorted :
        (x : A) (xs : List A) → IsSorted xs → IsSorted (insert_sorted less x xs)
    unfolding insert_sorted
    insert_sorted-IsSorted x [] s = Pairwise-singleton _ x
    insert_sorted-IsSorted x (y ∷ ys) (Pairwise.cons below s) = elim (Bool-cases (less y x)) [
      | inl e ↦ rw e (
          Pairwise.cons
            (λ a m.
              (forall_mem-cons (λ b. Bool-set (less b y) false)).1 (w.asym y x e, below) a
                ((Perm.mem_iff (insert_sorted-perm x ys)).0 m))
            (insert_sorted-IsSorted x ys s))
      | inr e ↦ rw e (
          Pairwise.cons
            ((forall_mem-cons (λ b. Bool-set (less b x) false)).1
              (e, λ a m. w.trans x y a e (below a m)))
            (Pairwise.cons below s))
    ]

    pub stable_sort-IsSorted : (xs : List A) → IsSorted (stable_sort less xs)
    unfolding stable_sort
    stable_sort-IsSorted [] = Pairwise.nil
    stable_sort-IsSorted (x ∷ xs) =
        insert_sorted-IsSorted x (stable_sort less xs) (stable_sort-IsSorted xs)

module _ {A : Type 0} (dec : Discrete A) where
  unique_from-mem :
      (last : A) (xs : List A) {a : A} → Mem a xs → a ≢ last → Mem a (unique_from dec last xs)
  unfolding unique_from
  unique_from-mem last [] m n = absurd (not-mem-nil m)
  unique_from-mem last (x ∷ xs) {a} m n = elim (dec x last) [
    | yes e ↦ rw (if_pos (dec x last) e (unique_from dec x xs) (x ∷ unique_from dec x xs)) (
        Or.elim Mem-prop (mem-cons.0 m) (λ same. absurd (n (same ∙ e)))
          (λ later. unique_from-mem x xs later (λ same. n (same ∙ e))))
    | no other ↦
        rw (if_neg (dec x last) other (unique_from dec x xs) (x ∷ unique_from dec x xs))
          (elim (dec a x) [
            | yes same ↦ rw same mem-cons_self
            | no apart ↦ mem-cons_of_mem x (
                unique_from-mem x xs
                  (Or.elim Mem-prop (mem-cons.0 m) (λ same. absurd (apart same)) (λ later. later))
                  apart)
          ])
  ]

  -- `std::unique` loses no value.
  pub unique_runs-mem : (xs : List A) {a : A} → Mem a xs → Mem a (unique_runs dec xs)
  unfolding unique_runs
  unique_runs-mem [] m = m
  unique_runs-mem (x ∷ xs) {a} m = elim (dec a x) [
    | yes same ↦ rw same mem-cons_self
    | no apart ↦ mem-cons_of_mem x (
        unique_from-mem x xs
          (Or.elim Mem-prop (mem-cons.0 m) (λ same. absurd (apart same)) (λ later. later)) apart)
  ]

  mem-unique_from : (last : A) (xs : List A) {a : A} → Mem a (unique_from dec last xs) → Mem a xs
  unfolding unique_from
  mem-unique_from last [] m = m
  mem-unique_from last (x ∷ xs) m = elim (dec x last) [
    | yes e ↦ mem-cons_of_mem x (
        mem-unique_from x xs
          (rw (if_pos (dec x last) e (unique_from dec x xs) (x ∷ unique_from dec x xs)) at m))
    | no other ↦
        Or.elim Mem-prop
          (mem-cons.0
            (rw (if_neg (dec x last) other (unique_from dec x xs) (x ∷ unique_from dec x xs)) at m))
          (λ same. rw same mem-cons_self) (λ later. mem-cons_of_mem x (mem-unique_from x xs later))
  ]

  -- It invents none either.
  pub mem-unique_runs : (xs : List A) {a : A} → Mem a (unique_runs dec xs) → Mem a xs
  unfolding unique_runs
  mem-unique_runs [] m = m
  mem-unique_runs (x ∷ xs) m =
      Or.elim Mem-prop (mem-cons.0 m) (λ same. rw same mem-cons_self)
        (λ later. mem-cons_of_mem x (mem-unique_from x xs later))
