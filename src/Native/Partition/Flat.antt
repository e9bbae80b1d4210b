-- ===== src/Native/Partition/Flat.antt =====
-- csrc/native_utils.cpp, `append` and `append_float_vec` of `build_partition_topology_impl`: rows of
-- different lengths in one array, with the offset at which each row ends.
use starrygl_tmp.Prelude.{
  ℕ, zero, suc, ◌+◌, ◌-◌, List, [], ◌∷◌, ◌++◌, length, take, drop, get_elem?, ◌≡◌, refl, ap, sym,
  ◌∙◌, arith, some, append_assoc, length-append, get_or, append-nil,
}
use native.Mathlib.Nat.{zero-add, suc-add}

pub record Ragged (A : Type 0) : Type 0 where
  pub elems : List A
  pub ptr : List ℕ

abbrev pub empty_ragged : {A : Type 0} → Ragged A
empty_ragged = record { elems = []; ptr = 0 ∷ [] }

unfoldable pub append : {A : Type 0} → Ragged A → List A → Ragged A
append r xs = record { elems = r.elems ++ xs; ptr = r.ptr ++ length (r.elems ++ xs) ∷ [] }

-- The row between two neighbouring offsets, the way the readers of the arrays cut it out.
unfoldable pub row : {A : Type 0} → Ragged A → ℕ → List A
row r i = take (get_or r.ptr (suc i) 0 - get_or r.ptr i 0) (drop (get_or r.ptr i 0) r.elems)

unfoldable pub append_all : {A : Type 0} → Ragged A → List (List A) → Ragged A
unfolding append
append_all r [] = r
append_all r (xs ∷ xss) = append_all (append r xs) xss

-- The offsets of rows from the place `n` on.
offsets : {A : Type 0} → ℕ → List (List A) → List ℕ
offsets n [] = []
offsets n (xs ∷ xss) = (n + length xs) ∷ offsets (n + length xs) xss

flat : {A : Type 0} → List (List A) → List A
flat [] = []
flat (xs ∷ xss) = xs ++ flat xss

append_all-elems :
    {A : Type 0} (r : Ragged A) (xss : List (List A))
    → (append_all r xss).elems ≡ r.elems ++ flat xss
unfolding append_all flat
append_all-elems r [] = sym (append-nil r.elems)
append_all-elems r (xs ∷ xss) =
    append_all-elems (append r xs) xss ∙ append_assoc r.elems xs (flat xss)

append_all-ptr :
    {A : Type 0} (r : Ragged A) (xss : List (List A))
    → (append_all r xss).ptr ≡ r.ptr ++ offsets (length r.elems) xss
unfolding append_all offsets
append_all-ptr r [] = sym (append-nil r.ptr)
append_all-ptr r (xs ∷ xss) =
    append_all-ptr (append r xs) xss
    ∙ append_assoc r.ptr (length (r.elems ++ xs) ∷ []) (offsets (length (r.elems ++ xs)) xss)
    ∙ ap (λ n. r.ptr ++ n ∷ offsets n xss) (length-append r.elems xs)

drop-append : {A : Type 0} (xs ys : List A) (n : ℕ) → drop (length xs + n) (xs ++ ys) ≡ drop n ys
drop-append [] ys n = rw (zero-add n)
drop-append (x ∷ xs) ys n = rw (suc-add (length xs) n) (drop-append xs ys n)

take-append : {A : Type 0} (xs ys : List A) → take (length xs) (xs ++ ys) ≡ xs
take-append [] ys = refl
take-append (x ∷ xs) ys = ap (◌∷◌ x) (take-append xs ys)

-- Rows cut out of the flat array at the offsets are the rows.
cut :
    {A : Type 0} (xss : List (List A)) (before : List A) (n i : ℕ) {xs : List A}
    → n ≡ length before
    → get_elem? xss i ≡ some xs
    → take
        (get_or (n ∷ offsets n xss) (suc i) 0 - get_or (n ∷ offsets n xss) i 0)
        (drop (get_or (n ∷ offsets n xss) i 0) (before ++ flat xss))
      ≡ xs
unfolding offsets flat
cut [] before n i e h = cc
cut (ys ∷ xss) before n zero {xs} e h =
    let same : ys ≡ xs = cc in
    let size : (n + length ys) - n ≡ length ys = omega arith in
    let start : n ≡ length before + 0 = omega arith in
    rw size (
      ap (λ n. take (length ys) (drop n (before ++ (ys ++ flat xss)))) start
      ∙ ap (take (length ys)) (drop-append before (ys ++ flat xss) 0)
      ∙ take-append ys (flat xss)
      ∙ same)
cut (ys ∷ xss) before n (suc i) e h =
    rw (← append_assoc before ys (flat xss))
      (cut xss (before ++ ys) (n + length ys) i (omega (arith, length-append before ys)) h)

-- Each row that is appended can be read back.
pub row-append_all :
    {A : Type 0} (xss : List (List A)) (i : ℕ) {xs : List A}
    → get_elem? xss i ≡ some xs
    → row (append_all empty_ragged xss) i ≡ xs
unfolding row
row-append_all xss i h =
    rw (append_all-elems empty_ragged xss, append_all-ptr empty_ragged xss) (cut xss [] 0 i refl h)
