-- ===== src/Speed/Invariant.antt =====
-- What holds of a `SpeedState` between the edges, and that placing a node keeps it.
pub mod Moves
use starrygl_tmp.Prelude.{
  ℕ, zero, suc, ◌+◌, ◌<◌, ltb, ◌==◌, ==_iff, Bool, true, false, not, ◌||◌, List, [], ◌∷◌, ◌++◌,
  length, set, get_or, row_of, Result, ok, ◌>>=◌, >>=-eq-ok, ok_inj, fetch, modify, modify_row,
  fetch-value, modify-value, modify_row-value, get_or-set, count, count_all, count-snoc,
  count_all-push, AllBelow, AllBelow-append, HasRows, if◌then◌else◌, Bool-cases, ◌≡◌, ◌⊎◌, inl, inr,
  refl, sym, ap, ◌∙◌, arith, length-append,
}
use mathlib.Core.Path.{subst}
use starrygl_tmp.Speed.Doubles.{Doubles}
use starrygl_tmp.Speed.State.{SpeedState}

module _ {D : Type 0} where
  -- The nodes: a node's parts are listed once each, and marked in `is_in`; a node that is not hot has at
  -- most one; the loads of the parts count their nodes.
  pub record ArePlaced (is_hot : List Bool) (num_parts : ℕ) (s : SpeedState D) : Type 0 where
    pub parts_are : s.num_parts ≡ num_parts
    pub marked :
        (v p : ℕ)
        → count p (row_of s.node_parts v) ≡ (if get_or (row_of s.is_in v) p false then 1 else 0)
    pub cold_once : (v : ℕ) → get_or is_hot v false ≡ false → length (row_of s.node_parts v) < 2
    pub parts_below : (v : ℕ) → AllBelow num_parts (row_of s.node_parts v)
    pub node_load : (p : ℕ) → get_or s.node_load_by_part p 0 ≡ count_all p s.node_parts

  -- The edges below `i`: each stands once in the list of one part, or once among the dropped ones; the
  -- loads are the lengths of the lists.
  pub record AreListed (i : ℕ) (s : SpeedState D) : Type 0 where
    pub edges_once :
        (e : ℕ)
        → count_all e s.edge_ids_by_part + count e s.dropped_edges ≡ (if ltb e i then 1 else 0)
    pub edge_load : (p : ℕ) → get_or s.edge_load_by_part p 0 ≡ length (row_of s.edge_ids_by_part p)

  -- Every vector has the length that the constructor gives it.
  pub record HasShape (n num_parts : ℕ) (s : SpeedState D) : Type 0 where
    pub num_nodes : s.num_nodes ≡ n
    pub time_bal : length s.time_bal ≡ num_parts
    pub node_parts : length s.node_parts ≡ n
    pub is_in : HasRows n num_parts s.is_in
    pub degree : length s.degree ≡ n
    pub degree_in : length s.degree_in ≡ n
    pub importance : length s.importance ≡ n
    pub edge_ids_by_part : length s.edge_ids_by_part ≡ num_parts
    pub edge_load_by_part : length s.edge_load_by_part ≡ num_parts
    pub node_load_by_part : length s.node_load_by_part ≡ num_parts
    pub importance_by_part : HasRows n num_parts s.importance_by_part
    pub last_ts_by_part : HasRows n num_parts s.last_ts_by_part

  pub record IsState (is_hot : List Bool) (n num_parts i : ℕ) (s : SpeedState D) : Type 0 where
    pub placed : ArePlaced is_hot num_parts s
    pub listed : AreListed i s
    pub shape : HasShape n num_parts s

  -- The node may be put in the part: it is hot, or has no part, or has this part first.
  abbrev pub MayJoin : List Bool → SpeedState D → ℕ → ℕ → Type 0
  MayJoin is_hot s nid part =
      (get_or is_hot nid false ≡ true)
      ⊎ ((row_of s.node_parts nid ≡ []) ⊎ ((get_or (row_of s.node_parts nid) 0 (suc part) ≡ part)))

  abbrev pub with_place : SpeedState D → ℕ → ℕ → SpeedState D
  with_place s nid part = record s {
    is_in = set s.is_in nid (set (row_of s.is_in nid) part true);
    node_parts = set s.node_parts nid (row_of s.node_parts nid ++ part ∷ []);
    node_load_by_part = set s.node_load_by_part part (suc (get_or s.node_load_by_part part 0));
  }

count-first : (a : ℕ) (xs : List ℕ) → get_or xs 0 (suc a) ≡ a → 0 < count a xs
unfolding count
count-first a [] h = omega (arith, h)
count-first a (x ∷ xs) h = ground (arith, h)

module _ {D : Type 0} (is_hot : List Bool) (num_parts : ℕ) (s : SpeedState D) (nid part : ℕ)
    (placed : ArePlaced is_hot num_parts s) (below : part < num_parts)
    (may : MayJoin is_hot s nid part) (outside : get_or (row_of s.is_in nid) part false ≡ false)
    (in₁ : nid < length s.is_in) (in₂ : part < length (row_of s.is_in nid))
    (in₃ : nid < length s.node_parts) (in₄ : part < length s.node_load_by_part) where
  row_after :
      (v : ℕ)
      → row_of (with_place s nid part).node_parts v
        ≡ (if nid == v then row_of s.node_parts nid ++ part ∷ [] else row_of s.node_parts v)
  row_after v = get_or-set s.node_parts nid v (row_of s.node_parts nid ++ part ∷ []) [] in₃

  absent : count part (row_of s.node_parts nid) ≡ 0
  absent = placed.marked nid part ∙ rw outside refl

  with_place-marked :
      (v p : ℕ)
      → count p (row_of (with_place s nid part).node_parts v)
        ≡ (if get_or (row_of (with_place s nid part).is_in v) p false then 1 else 0)
  with_place-marked v p = elim (Bool-cases (nid == v)) [
    | inl e ↦
        rw
          (
            row_after v,
            get_or-set s.is_in nid v (set (row_of s.is_in nid) part true) [] in₁,
            e,
            count-snoc p (row_of s.node_parts nid) part,
            get_or-set (row_of s.is_in nid) part p true false in₂,
            placed.marked nid p,
          )
          (elim (Bool-cases (part == p)) [
            | inl same ↦ rw (same, ← (==_iff part p).0 same, outside) refl
            | inr other ↦ rw other (omega arith)
          ])
    | inr e ↦
        rw (row_after v, get_or-set s.is_in nid v (set (row_of s.is_in nid) part true) [] in₁, e)
          (placed.marked v p)
  ]

  with_place-cold_once :
      (v : ℕ)
      → get_or is_hot v false ≡ false
      → length (row_of (with_place s nid part).node_parts v) < 2
  with_place-cold_once v cold = elim (Bool-cases (nid == v)) [
    | inl e ↦
        let cold_nid : get_or is_hot nid false ≡ false =
          ap (λ v. get_or is_hot v false) ((==_iff nid v).0 e) ∙ cold in
        rw (row_after v, e)
          (elim may [
            | inl hot ↦ cc
            | inr (inl empty) ↦ rw empty (omega arith)
            | inr (inr first) ↦
                absurd (omega (arith, count-first part (row_of s.node_parts nid) first, absent))
          ])
    | inr e ↦ rw (row_after v, e) (placed.cold_once v cold)
  ]

  with_place-parts_below :
      (v : ℕ) → AllBelow num_parts (row_of (with_place s nid part).node_parts v)
  with_place-parts_below v = elim (Bool-cases (nid == v)) [
    | inl e ↦
        rw (row_after v, e)
          (AllBelow-append num_parts (row_of s.node_parts nid) (part ∷ []) (placed.parts_below nid)
            (below, tt))
    | inr e ↦ rw (row_after v, e) (placed.parts_below v)
  ]

  with_place-node_load :
      (p : ℕ)
      → get_or (with_place s nid part).node_load_by_part p 0
        ≡ count_all p (with_place s nid part).node_parts
  with_place-node_load p = ground (
    arith,
    get_or-set s.node_load_by_part part p (suc (get_or s.node_load_by_part part 0)) 0,
    count_all-push p s.node_parts nid part,
    placed.node_load p,
    placed.node_load part,
  )

  pub with_place-ArePlaced : ArePlaced is_hot num_parts (with_place s nid part)
  with_place-ArePlaced = record {
    parts_are = placed.parts_are;
    marked = with_place-marked;
    cold_once = with_place-cold_once;
    parts_below = with_place-parts_below;
    node_load = with_place-node_load;
  }

module _ {D : Type 0} (i : ℕ) (s : SpeedState D) (listed : AreListed i s) where
  abbrev pub with_edge : ℕ → List D → SpeedState D
  with_edge part time_bal = record s {
    edge_load_by_part = set s.edge_load_by_part part (suc (get_or s.edge_load_by_part part 0));
    edge_ids_by_part = set s.edge_ids_by_part part (row_of s.edge_ids_by_part part ++ i ∷ []);
    time_bal = time_bal;
  }

  pub with_edge-AreListed :
      (part : ℕ) (time_bal : List D)
      → part < length s.edge_load_by_part
      → part < length s.edge_ids_by_part
      → AreListed (suc i) (with_edge part time_bal)
  with_edge-AreListed part time_bal in₁ in₂ = record {
    edges_once =
        λ e. ground (arith, count_all-push e s.edge_ids_by_part part i in₂, listed.edges_once e);
    edge_load = λ p.
        rw
          (
            get_or-set s.edge_load_by_part part p (suc (get_or s.edge_load_by_part part 0)) 0 in₁,
            get_or-set s.edge_ids_by_part part p (row_of s.edge_ids_by_part part ++ i ∷ []) [] in₂,
          )
          (elim (Bool-cases (part == p)) [
            | inl e ↦ rw e (
                omega (
                  arith,
                  length-append (row_of s.edge_ids_by_part part) (i ∷ []),
                  listed.edge_load part,
                ))
            | inr e ↦ rw e (listed.edge_load p)
          ]);
  }

  pub drop-AreListed : AreListed (suc i) (record s { dropped_edges = s.dropped_edges ++ i ∷ [] })
  drop-AreListed = record {
    edges_once = λ e. ground (arith, count-snoc e s.dropped_edges i, listed.edges_once e);
    edge_load = listed.edge_load;
  }
