-- ===== src/TimeSplit/Adaptive/Laws.antt =====
-- `adaptive_split_impl` ends, and its groups follow each other.
use starrygl_tmp.Prelude.{
  ℕ, zero, suc, ◌+◌, ◌-◌, ◌<◌, ◌≤◌, ltb, false, List, [], ◌∷◌, length, replicate, set, get_or,
  modify, modify-of-lt, for_range, for_range-Returns, Returns, >>=-Returns, Bool-cases, length-set,
  length-replicate, get_or-set, get_or-replicate, ◌≡◌, ◌⊎◌, inl, inr, refl, sym, ap, ◌∙◌,
  ℕ_discrete, dec_lt, arith,
}
use mathlib.Core.Path.{subst}
use starrygl_tmp.Speed.Doubles.{Doubles}
use starrygl_tmp.Speed.State.{nought}
use starrygl_tmp.Speed.Master.Choice.{same_test, other_test}
use starrygl_tmp.TimeSplit.Window.{
  Table, assign_all, TimedEdge, Window, start_times, no_edges, visit_edge,
}
use starrygl_tmp.TimeSplit.Window.Laws.{IsWindow, visit_edge-IsWindow, visit_edge-first}
use starrygl_tmp.TimeSplit.Adaptive.{
  Stop, with_back, fill_groups, scan, split_from, adaptive_split_impl,
}

-- The edges are in groups that are numbered from 0 on, in the order of the edges, without a gap.
pub record IsGrouping (n : ℕ) (g : List ℕ) : Type 0 where
  pub grouping_len : length g ≡ n
  pub grouping_first : 0 < n → get_or g 0 0 ≡ 0
  pub grouping_steps :
      (j : ℕ)
      → suc j < n
      → (get_or g (suc j) 0 ≡ get_or g j 0) ⊎ (get_or g (suc j) 0 ≡ suc (get_or g j 0))

-- The edges before `a` are in the groups before `gi`.
record IsFilled (n a gi : ℕ) (g : List ℕ) : Type 0 where
  len : length g ≡ n
  start : a ≡ 0 → gi ≡ 0
  first : 0 < a → get_or g 0 0 ≡ 0
  last : (j : ℕ) → suc j ≡ a → suc (get_or g j 0) ≡ gi
  steps :
      (j : ℕ)
      → suc j < a
      → (get_or g (suc j) 0 ≡ get_or g j 0) ⊎ (get_or g (suc j) 0 ≡ suc (get_or g j 0))

-- What a group's edges get, and the others keep.
record IsWritten (n gi a i : ℕ) (g g' : List ℕ) : Type 0 where
  len : length g' ≡ n
  from : a ≤ i
  before : (j : ℕ) → j < a → get_or g' j 0 ≡ get_or g j 0
  within : (j : ℕ) → a ≤ j → j < i → get_or g' j 0 ≡ gi

fill_range-IsWritten :
    (n gi a b : ℕ) (g : List ℕ)
    → a < b
    → b ≤ n
    → length g ≡ n
    → Returns (for_range (λ j g. modify g j (λ _. gi)) a (b - a) g) (IsWritten n gi a b g)
fill_range-IsWritten n gi a b g lt le len =
    let (g', e, is) =
      for_range-Returns (λ j g. modify g j (λ _. gi)) (λ i. IsWritten n gi a i g) n
        (λ i g' lt' is.
          let value = λ (j : ℕ). get_or-set g' i j gi 0 (rw is.len lt') in
          (
            set g' i gi,
            modify-of-lt g' i (λ _. gi) 0 (rw is.len lt'),
            record {
              len = length-set g' i gi ∙ is.len;
              from = omega (arith, is.from);
              before = λ j j_lt.
                  value j
                  ∙ rw (other_test i j (λ e. omega (arith, e, is.from, j_lt))) (is.before j j_lt);
              within = λ j j_from j_to. elim (ℕ_discrete i j) [
                | yes e ↦ value j ∙ rw (same_test i j e) refl
                | no apart ↦
                    value j
                    ∙ rw (other_test i j apart) (is.within j j_from (omega (arith, j_to, apart)))
              ];
            },
          ))
        a (b - a) g (omega (arith, lt, le))
        (record {
          len = len;
          from = omega arith;
          before = λ j _. refl;
          within = λ j j_from j_to. absurd (omega (arith, j_from, j_to));
        }) in
    (g', e, subst (λ i. IsWritten n gi a i g g') (omega (arith, lt)) is)

IsWritten-IsFilled :
    (n gi a b : ℕ) (g g' : List ℕ)
    → a < b
    → IsFilled n a gi g
    → IsWritten n gi a b g g'
    → IsFilled n b (suc gi) g'
IsWritten-IsFilled n gi a b g g' lt was now = record {
  len = now.len;
  start = λ e. absurd (omega (arith, e, lt));
  first = λ _. elim (ℕ_discrete a 0) [
    | yes e ↦ now.within 0 (omega (arith, e)) (omega (arith, lt)) ∙ was.start e
    | no apart ↦ now.before 0 (omega (arith, apart)) ∙ was.first (omega (arith, apart))
  ];
  last = λ j e. ap suc (now.within j (omega (arith, e, lt)) (omega (arith, e)));
  steps = λ j j_lt. elim (dec_lt j a) [
    | no after ↦ inl (
        now.within (suc j) (omega (arith, after)) j_lt
        ∙ sym (now.within j (omega (arith, after)) (omega (arith, j_lt))))
    | yes under ↦ elim (ℕ_discrete (suc j) a) [
      | yes e ↦ inr (
          now.within (suc j) (omega (arith, e)) j_lt
          ∙ sym (was.last j e)
          ∙ ap suc (sym (now.before j under)))
      | no apart ↦
          let old : (get_or g (suc j) 0 ≡ get_or g j 0)
              ⊎ (get_or g (suc j) 0 ≡ suc (get_or g j 0)) =
            was.steps j (omega (arith, under, apart)) in
          rw (now.before (suc j) (omega (arith, under, apart)), now.before j under) old
    ]
  ];
}

-- The ends of the groups rise, up to the last edge.
abbrev IsChain : ℕ → ℕ → List ℕ → Type 0
IsChain n start [] = n ≤ suc start
IsChain n start (x ∷ xs) = (start < x) × (x < n) × IsChain n x xs

fill_groups-IsGrouping :
    (n : ℕ) (xs : List ℕ) (a x gi : ℕ) (g : List ℕ)
    → IsChain n a (x ∷ xs)
    → IsFilled n a gi g
    → Returns (fill_groups gi (with_back (a ∷ x ∷ xs) n) g) (IsGrouping n)
unfolding fill_groups with_back
fill_groups-IsGrouping n [] a x gi g chain is =
    >>=-Returns (for_range (λ j g. modify g j (λ _. gi)) a (n - a) g) _
      (fill_range-IsWritten n gi a n g (omega (arith, chain.0, chain.1)) (omega arith) is.len)
      (λ g' now.
        let done = IsWritten-IsFilled n gi a n g g' (omega (arith, chain.0, chain.1)) is now in
        (
          g',
          refl,
          record {
            grouping_len = done.len;
            grouping_first = done.first;
            grouping_steps = done.steps;
          },
        ))
fill_groups-IsGrouping n (y ∷ ys) a x gi g chain is =
    >>=-Returns (for_range (λ j g. modify g j (λ _. gi)) a (x - a) g) _
      (fill_range-IsWritten n gi a x g chain.0 (omega (arith, chain.1)) is.len)
      (λ g' now.
        fill_groups-IsGrouping n ys x y (suc gi) g' chain.2
          (IsWritten-IsFilled n gi a x g g' chain.0 is now))

module _ {D : Type 0} (d : Doubles D) (edges : List (TimedEdge D))
    (threshold alpha beta aggl : D) where
  abbrev StopsWithin : ℕ → Stop D → Type 0
  StopsWithin i stop = (i ≤ stop.index) × (stop.index < length edges)

  scan-StopsWithin :
      (time_dic : Table D) (k i : ℕ) (w : Window D)
      → suc (i + k) ≡ length edges
      → IsWindow d edges 0 alpha beta time_dic w
      → Returns (scan d edges threshold alpha beta aggl time_dic k i w) (StopsWithin i)
  unfolding scan
  scan-StopsWithin time_dic zero i w count is =
      >>=-Returns (visit_edge d edges 0 alpha beta time_dic aggl i w) _
        (visit_edge-IsWindow d edges 0 alpha beta time_dic aggl i w (omega (arith, count)) is)
        (λ w' _. (_, refl, (omega arith, omega (arith, count))))
  scan-StopsWithin time_dic (suc k) i w count is =
      >>=-Returns (visit_edge d edges 0 alpha beta time_dic aggl i w) _
        (visit_edge-IsWindow d edges 0 alpha beta time_dic aggl i w (omega (arith, count)) is)
        (λ w' is'. elim (Bool-cases (d.lt threshold w'.stale)) [
          | inl e ↦ rw e (_, refl, (omega arith, omega (arith, count)))
          | inr e ↦
              let (stop, stops, within) =
                scan-StopsWithin time_dic k (suc i) w' (omega (arith, count)) is' in
              rw e (stop, stops, (omega (arith, within.0), within.1))
        ])

  module _ (patient : d.lt threshold (d.add (nought d) (nought d)) ≡ false) where
    -- The first edge of a group does not end it.
    scan-moves :
        (time_dic : Table D) (start : ℕ)
        → suc start < length edges
        → Returns
            (scan d edges threshold alpha beta aggl time_dic
              (length edges - suc start)
              start
              (no_edges d))
            (StopsWithin (suc start))
    unfolding scan
    scan-moves time_dic start lt =
        let count : suc (length edges - suc (suc start)) ≡ length edges - suc start =
          omega (arith, lt) in
        subst
          (λ k.
            Returns (scan d edges threshold alpha beta aggl time_dic k start (no_edges d))
              (StopsWithin (suc start)))
          count
          (>>=-Returns (visit_edge d edges 0 alpha beta time_dic aggl start (no_edges d)) _
            (visit_edge-first d edges 0 alpha beta time_dic aggl start (omega (arith, lt)))
            (λ w first. rw (ap (d.lt threshold) first.1 ∙ patient) (
              scan-StopsWithin time_dic (length edges - suc (suc start)) (suc start) w
                (omega (arith, lt)) first.0)))

    split_from-IsChain :
        (fuel start : ℕ) (time_dic : Table D)
        → length edges ≤ fuel + start
        → Returns
            (split_from d edges threshold alpha beta aggl fuel start time_dic)
            (IsChain (length edges) start)
    unfolding split_from
    split_from-IsChain zero start time_dic enough =
        let over : ltb (suc start) (length edges) ≡ false = ground (arith, enough) in
        rw over ([], refl, omega (arith, enough))
    split_from-IsChain (suc fuel) start time_dic enough =
        elim (Bool-cases (ltb (suc start) (length edges))) [
          | inr e ↦ rw e ([], refl, ground (arith, e))
          | inl e ↦ rw e (
              >>=-Returns
                (scan d edges threshold alpha beta aggl time_dic (length edges - suc start) start
                  (no_edges d))
                _ (scan-moves time_dic start (ground (arith, e)))
                (λ stop within.
                  >>=-Returns
                    (split_from d edges threshold alpha beta aggl fuel stop.index
                      (assign_all stop.cache time_dic))
                    _
                    (split_from-IsChain fuel stop.index (assign_all stop.cache time_dic)
                      (omega (arith, enough, within.0)))
                    (λ rest chain.
                      (stop.index ∷ rest, refl, (omega (arith, within.0), within.1, chain)))))
        ]

-- The adaptive split ends with no more turns than there are edges, reads and writes only within its
-- arrays, and gives each edge a group: the first edge the group 0, and each other edge the group of the
-- edge before it or the next one. This asks that the staleness 0 of a window of one edge is not above
-- the threshold.
pub adaptive_split_impl-IsGrouping :
    {D : Type 0} (d : Doubles D) (edges : List (TimedEdge D)) (threshold alpha beta aggl : D)
    → d.lt threshold (d.add (nought d) (nought d)) ≡ false
    → Returns (adaptive_split_impl d edges threshold alpha beta aggl) (IsGrouping (length edges))
unfolding adaptive_split_impl with_back fill_groups
adaptive_split_impl-IsGrouping d edges threshold alpha beta aggl patient =
    >>=-Returns (split_from d edges threshold alpha beta aggl (length edges) 0 (start_times edges))
      _
      (split_from-IsChain d edges threshold alpha beta aggl patient (length edges) 0
        (start_times edges) (omega arith))
      (λ start_list chain. from_chain start_list chain)
  where
    from_chain :
        (start_list : List ℕ)
        → IsChain (length edges) 0 start_list
        → Returns
            (fill_groups 0 (with_back (0 ∷ start_list) (length edges)) (replicate (length edges) 0))
            (IsGrouping (length edges))
    from_chain [] few = (
      _,
      refl,
      record {
        grouping_len = length-replicate (length edges) 0;
        grouping_first = λ _. get_or-replicate (length edges) 0 0;
        grouping_steps = λ j lt. absurd (omega (arith, few, lt));
      },
    )
    from_chain (x ∷ xs) chain =
        fill_groups-IsGrouping (length edges) xs 0 x 0 (replicate (length edges) 0) chain (record {
          len = length-replicate (length edges) 0;
          start = λ _. refl;
          first = λ none_yet. absurd (omega (arith, none_yet));
          last = λ j e. absurd (omega (arith, e));
          steps = λ j lt. absurd (omega (arith, lt));
        })
