-- ===== src/Speed/Step/Candidates.antt =====
-- The candidates for an edge are found, and are parts.
use starrygl_tmp.Prelude.{
  ℕ, zero, suc, ◌+◌, ◌<◌, ◌≤◌, Bool, true, false, not, ◌&&◌, ◌||◌, List, [], ◌∷◌, ◌++◌, length, max,
  min, row_of, Result, ok, fetch, fetch-of-lt, AllBelow, AllBelow-append, if◌then◌else◌, Bool-cases,
  Returns, >>=-Returns, fetch-Returns, row-Returns, ◌≡◌, inl, inr, refl, arith,
}
use starrygl_tmp.Speed.Doubles.{Doubles, almost_equal, max_time, min_time}
use starrygl_tmp.Speed.State.{SpeedState, max_load, min_load}
use starrygl_tmp.Speed.Invariant.{ArePlaced, HasShape}
use starrygl_tmp.Speed.Step.{
  Loads, is_empty, common_parts, cold_candidates, local_candidates, loads_of, decayed, score_of,
  best_parts, candidates_of,
}

-- The call returns.
abbrev Ends : {A : Type 0} → Result A → Type 0
Ends r = Returns r (λ _. Unit {0})

max_load-Ends : (x : ℕ) (xs : List ℕ) → Ends (max_load (x ∷ xs))
unfolding max_load
max_load-Ends x [] = (x, refl, tt)
max_load-Ends x (y ∷ xs) = max_load-Ends (max x y) xs

min_load-Ends : (x : ℕ) (xs : List ℕ) → Ends (min_load (x ∷ xs))
unfolding min_load
min_load-Ends x [] = (x, refl, tt)
min_load-Ends x (y ∷ xs) = min_load-Ends (min x y) xs

module _ {A B : Type 0} (call : List A → Result B)
    (some_load : (x : A) (xs : List A) → Ends (call (x ∷ xs))) where
  nonempty-Ends : (xs : List A) (n : ℕ) → length xs ≡ n → 0 < n → Ends (call xs)
  nonempty-Ends [] n len lt = absurd (omega (arith, len))
  nonempty-Ends (x ∷ xs) n len lt = some_load x xs

common_parts-AllBelow :
    (num_parts n p : ℕ) (in_u in_v : List Bool)
    → length in_u ≡ num_parts
    → length in_v ≡ num_parts
    → p + n ≤ num_parts
    → Returns (common_parts n p in_u in_v) (AllBelow num_parts)
unfolding common_parts
common_parts-AllBelow num_parts zero p in_u in_v hu hv le = ([], refl, tt)
common_parts-AllBelow num_parts (suc n) p in_u in_v hu hv le =
    let lt : p < num_parts = omega arith in
    let (rest, found, below) =
      common_parts-AllBelow num_parts n (suc p) in_u in_v hu hv (omega arith) in
    let (b, eb, _) = fetch-Returns in_v p num_parts hv lt in
    let (a, ea, _) = fetch-Returns in_u p num_parts hu lt in
    elim (Bool-cases a) [
      | inl e ↦ elim (Bool-cases b) [
        | inl e' ↦ (p ∷ rest, rw (ea, e, eb, found, e') refl, (lt, below))
        | inr e' ↦ (rest, rw (ea, e, eb, found, e') refl, below)
      ]
      | inr e ↦ (rest, rw (ea, e, found) refl, below)
    ]

module _ {D : Type 0} (d : Doubles D) (is_hot : List Bool) (n num_parts : ℕ) (s : SpeedState D)
    (placed : ArePlaced is_hot num_parts s) (shape : HasShape n num_parts s)
    (hot_len : length is_hot ≡ n) (some_parts : 0 < num_parts) where
  parts-Returns : (v : ℕ) → v < n → Returns (fetch s.node_parts v) (AllBelow num_parts)
  parts-Returns v lt = (
    row_of s.node_parts v,
    fetch-of-lt s.node_parts v [] (rw shape.node_parts lt),
    placed.parts_below v,
  )

  cold_candidates-AllBelow :
      (u v : ℕ) → u < n → v < n → Returns (cold_candidates d s u v) (AllBelow num_parts)
  unfolding cold_candidates
  cold_candidates-AllBelow u v lt_u lt_v =
      >>=-Returns (fetch s.node_parts u) _ (parts-Returns u lt_u) (λ parts_u _.
        >>=-Returns (fetch s.node_parts v) _ (parts-Returns v lt_v) (λ parts_v _.
          elim (Bool-cases (is_empty parts_u || is_empty parts_v)) [
            | inl e ↦ rw e ([], refl, tt)
            | inr e ↦ rw e (
                >>=-Returns (fetch s.is_in u) _ (row-Returns n num_parts s.is_in u shape.is_in lt_u)
                  (λ in_u at_u.
                    >>=-Returns (fetch s.is_in v) _
                      (row-Returns n num_parts s.is_in v shape.is_in lt_v)
                      (λ in_v at_v.
                        common_parts-AllBelow num_parts s.num_parts 0 in_u in_v at_u.1 at_v.1
                          (omega (arith, placed.parts_are)))))
          ]))

  local_candidates-AllBelow :
      (u v : ℕ) → u < n → v < n → Returns (local_candidates d is_hot s u v) (AllBelow num_parts)
  unfolding local_candidates
  local_candidates-AllBelow u v lt_u lt_v =
      >>=-Returns (fetch is_hot u) _ (fetch-Returns is_hot u n hot_len lt_u) (λ hot_u _.
        >>=-Returns (fetch is_hot v) _ (fetch-Returns is_hot v n hot_len lt_v)
          (λ hot_v _. by_heat hot_u hot_v))
    where
      by_heat :
          (hot_u hot_v : Bool)
          → Returns
              (if hot_u && not hot_v
                then fetch s.node_parts v
                else if hot_v && not hot_u
                then fetch s.node_parts u
                else if hot_u
                then ok []
                else cold_candidates d s u v)
              (AllBelow num_parts)
      by_heat true true = ([], refl, tt)
      by_heat true false = parts-Returns v lt_v
      by_heat false true = parts-Returns u lt_u
      by_heat false false = cold_candidates-AllBelow u v lt_u lt_v

  loads_of-Ends : (max_time_arg : D) → Ends (loads_of d s max_time_arg)
  unfolding loads_of max_time min_time
  loads_of-Ends max_time_arg =
      >>=-Returns (max_load s.edge_load_by_part) _
        (nonempty-Ends max_load max_load-Ends s.edge_load_by_part num_parts shape.edge_load_by_part
          some_parts)
        (λ a _.
          >>=-Returns (min_load s.edge_load_by_part) _
            (nonempty-Ends min_load min_load-Ends s.edge_load_by_part num_parts
              shape.edge_load_by_part some_parts)
            (λ b _.
              >>=-Returns (max_load s.node_load_by_part) _
                (nonempty-Ends max_load max_load-Ends s.node_load_by_part num_parts
                  shape.node_load_by_part some_parts)
                (λ c _.
                  >>=-Returns (min_load s.node_load_by_part) _
                    (nonempty-Ends min_load min_load-Ends s.node_load_by_part num_parts
                      shape.node_load_by_part some_parts)
                    (λ e _.
                      >>=-Returns (max_time d s.time_bal) _
                        (nonempty-Ends (max_time d) (λ x xs. (_, refl, tt)) s.time_bal num_parts
                          shape.time_bal some_parts)
                        (λ f _.
                          >>=-Returns (min_time d s.time_bal) _
                            (nonempty-Ends (min_time d) (λ x xs. (_, refl, tt)) s.time_bal num_parts
                              shape.time_bal some_parts)
                            (λ g _. (_, refl, tt)))))))

  decayed-Ends :
      (loads : Loads D) (v p : ℕ) (ts : D) → v < n → p < num_parts → Ends (decayed d s loads v p ts)
  unfolding decayed
  decayed-Ends loads v p ts lt lt' =
      >>=-Returns (fetch s.importance_by_part v) _
        (row-Returns n num_parts s.importance_by_part v shape.importance_by_part lt)
        (λ weights at.
          >>=-Returns (fetch weights p) _ (fetch-Returns weights p num_parts at.1 lt') (λ weight _.
            >>=-Returns (fetch s.last_ts_by_part v) _
              (row-Returns n num_parts s.last_ts_by_part v shape.last_ts_by_part lt)
              (λ last_row at'.
                >>=-Returns (fetch last_row p) _ (fetch-Returns last_row p num_parts at'.1 lt')
                  (λ last _. (_, refl, tt)))))

  module _ (loads : Loads D) (u v : ℕ) (ts : D) (epsilon epsilon_t : ℕ) (lt_u : u < n)
      (lt_v : v < n) where
    score_of-Ends : (p : ℕ) → p < num_parts → Ends (score_of d s loads u v ts epsilon epsilon_t p)
    unfolding score_of
    score_of-Ends p lt =
        >>=-Returns (decayed d s loads u p ts) _ (decayed-Ends loads u p ts lt_u lt) (λ of_u _.
          >>=-Returns (decayed d s loads v p ts) _ (decayed-Ends loads v p ts lt_v lt) (λ of_v _.
            >>=-Returns (fetch s.node_load_by_part p) _
              (fetch-Returns s.node_load_by_part p num_parts shape.node_load_by_part lt)
              (λ node_load _.
                >>=-Returns (fetch s.edge_load_by_part p) _
                  (fetch-Returns s.edge_load_by_part p num_parts shape.edge_load_by_part lt)
                  (λ edge_load _.
                    >>=-Returns (fetch s.time_bal p) _
                      (fetch-Returns s.time_bal p num_parts shape.time_bal lt)
                      (λ part_time _. (_, refl, tt))))))

    best_parts-AllBelow :
        (k p : ℕ) (best : D) (candidates : List ℕ)
        → p + k ≤ num_parts
        → AllBelow num_parts candidates
        → Returns
            (best_parts d s loads u v ts epsilon epsilon_t k p best candidates)
            (AllBelow num_parts)
    unfolding best_parts
    best_parts-AllBelow zero p best candidates le below = (candidates, refl, below)
    best_parts-AllBelow (suc k) p best candidates le below =
        let lt : p < num_parts = omega arith in
        >>=-Returns (score_of d s loads u v ts epsilon epsilon_t p) _ (score_of-Ends p lt)
          (λ score _.
            best_parts-AllBelow k (suc p) _ _ (omega arith)
              (next lt (d.lt (d.add best d.eps) score) (almost_equal d score best)))
      where
        next :
            p < num_parts
            → (better equal : Bool)
            → AllBelow num_parts
                (if better then p ∷ [] else if equal then candidates ++ p ∷ [] else candidates)
        next lt true equal = (lt, tt)
        next lt false true = AllBelow-append num_parts candidates (p ∷ []) below (lt, tt)
        next lt false false = below

  pub candidates_of-AllBelow :
      (u v : ℕ) (ts max_time_arg : D) (epsilon epsilon_t : ℕ)
      → u < n
      → v < n
      → Returns
          (candidates_of d is_hot s u v ts max_time_arg epsilon epsilon_t)
          (AllBelow num_parts)
  unfolding candidates_of
  candidates_of-AllBelow u v ts max_time_arg epsilon epsilon_t lt_u lt_v =
      >>=-Returns (local_candidates d is_hot s u v) _ (local_candidates-AllBelow u v lt_u lt_v)
        (λ local below. elim (Bool-cases (is_empty local)) [
          | inl e ↦ rw e (
              >>=-Returns (loads_of d s max_time_arg) _ (loads_of-Ends max_time_arg) (λ loads _.
                best_parts-AllBelow loads u v ts epsilon epsilon_t lt_u lt_v s.num_parts 0 _ []
                  (omega (arith, placed.parts_are)) tt))
          | inr e ↦ rw e (local, refl, below)
        ])
