-- ===== src/Native/Partition/Ranges.antt =====
-- Between the lower bounds of two times stand the edges that are not before the first and are
-- before the second.
use mathlib.Core.List.{Pairwise, Mem, mem-cons_self, mem-cons_of_mem, forall_mem-cons}
use mathlib.Core.Bool.{Bool-set}
use starrygl_tmp.Prelude.{
  suc, ◌-◌, ◌≤◌, ℤ, ltb_ℤ, ltb, ◌≤ℤ◌, true, false, not, ◌&&◌, List, [], ◌∷◌, take, drop, ◌≡◌, refl,
  ap, sym, ◌∙◌, ok, if◌then◌else◌, Bool-cases, inl, inr, arith,
}
use starrygl_tmp.Sort.Laws.{IsSorted}
use starrygl_tmp.Native.Partition.{slice_edges}
use starrygl_tmp.Bounds.{lower_scan, lower_bound-lower_scan}

-- The edges of the times from `begin` to before `end`.
unfoldable pub within : ℤ → ℤ → List ℤ → List ℤ
within begin end [] = []
within begin end (x ∷ xs) =
    if not (ltb_ℤ x begin) && ltb_ℤ x end then x ∷ within begin end xs else within begin end xs

-- Nothing of the list is before `end`.
within_none :
    (begin end : ℤ) (xs : List ℤ)
    → ((x : ℤ) → Mem x xs → ltb_ℤ x end ≡ false)
    → within begin end xs ≡ []
unfolding within
within_none begin end [] h = refl
within_none begin end (x ∷ xs) h =
    ground (arith, h x mem-cons_self, within_none begin end xs (λ y m. h y (mem-cons_of_mem x m)))

not_before : (x y end : ℤ) → ltb_ℤ x end ≡ false → ltb_ℤ y x ≡ false → ltb_ℤ y end ≡ false
not_before x y end h k = ground arith

lower_scan_le :
    (begin end : ℤ) (xs : List ℤ) → begin ≤ℤ end → lower_scan begin xs ≤ lower_scan end xs
unfolding lower_scan
lower_scan_le begin end [] h = omega arith
lower_scan_le begin end (x ∷ xs) h = ground (arith, lower_scan_le begin end xs h)

-- The elements before `end`.
take-lower_scan :
    (begin end : ℤ) (xs : List ℤ)
    → IsSorted ltb_ℤ xs
    → ((x : ℤ) → Mem x xs → ltb_ℤ x begin ≡ false)
    → take (lower_scan end xs) xs ≡ within begin end xs
unfolding lower_scan within
take-lower_scan begin end [] s h = refl
take-lower_scan begin end (x ∷ xs) (Pairwise.cons below s) h = elim (Bool-cases (ltb_ℤ x end)) [
  | inl e ↦
      rw (e, h x mem-cons_self)
        (ap (◌∷◌ x) (take-lower_scan begin end xs s (λ y m. h y (mem-cons_of_mem x m))))
  | inr e ↦
      rw (e, h x mem-cons_self)
        (sym (within_none begin end xs (λ y m. not_before x y end e (below y m))))
]

cut-within :
    (begin end : ℤ) (xs : List ℤ)
    → begin ≤ℤ end
    → IsSorted ltb_ℤ xs
    → take (lower_scan end xs - lower_scan begin xs) (drop (lower_scan begin xs) xs)
      ≡ within begin end xs
unfolding lower_scan within
cut-within begin end [] le s = refl
cut-within begin end (x ∷ xs) le (Pairwise.cons below s) = elim (Bool-cases (ltb_ℤ x begin)) [
  | inl e ↦
      let early : ltb_ℤ x end ≡ true = ground arith in
      let shorter : suc (lower_scan end xs) - suc (lower_scan begin xs)
          ≡ lower_scan end xs - lower_scan begin xs =
        omega arith in
      rw (e, early, shorter) (cut-within begin end xs le s)
  | inr e ↦
      let late : (y : ℤ) → Mem y (x ∷ xs) → ltb_ℤ y begin ≡ false =
        (forall_mem-cons (λ y. Bool-set (ltb_ℤ y begin) false)).1
          (e, λ y m. not_before x y begin e (below y m)) in
      let all : lower_scan end (x ∷ xs) - 0 ≡ lower_scan end (x ∷ xs) = omega arith in
      let start : lower_scan begin (x ∷ xs) ≡ 0 = rw e in
      ap (λ n. take (lower_scan end (x ∷ xs) - n) (drop n (x ∷ xs))) start
      ∙ ap (λ n. take n (x ∷ xs)) all
      ∙ take-lower_scan begin end (x ∷ xs) (Pairwise.cons below s) late
]

-- A slice of a sorted list of edges has exactly the edges from its begin to before its end, in
-- their order and with their repetitions, if the begin is not after the end.
pub slice_edges-within :
    (begin end : ℤ) (sorted : List ℤ)
    → begin ≤ℤ end
    → IsSorted ltb_ℤ sorted
    → slice_edges sorted begin end ≡ ok (within begin end sorted)
unfolding slice_edges
slice_edges-within begin end sorted le s =
    let order : ltb (lower_scan end sorted) (lower_scan begin sorted) ≡ false =
      ground (arith, lower_scan_le begin end sorted le) in
    rw (lower_bound-lower_scan end sorted s, lower_bound-lower_scan begin sorted s, order)
      (ap ok (cut-within begin end sorted le s))
