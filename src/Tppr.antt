-- ===== src/Tppr.antt =====
-- sampler/include/tppr.h: `ParallelTppRComputer`, for one of its pairs of `alpha` and `beta`.
pub mod Stream
pub mod Laws
use starrygl_tmp.Prelude.{
  ℕ, zero, suc, ◌+◌, ◌≤◌, ltb, leb, ◌==◌, ℤ, pos, ℤ-discrete, ite, Bool, true, false, not, ◌&&◌,
  List, [], ◌∷◌, ◌++◌, length, replicate, take, Option, none, some, ◌≡◌, Result, ok, ◌>>=◌, fetch,
  modify, ◌-ℤ◌, if◌then◌else◌,
}
use starrygl_tmp.Sort.{stable_sort}
use starrygl_tmp.Speed.Doubles.{Doubles, same_double}
use starrygl_tmp.Speed.State.{nought}

-- `PPRKeyType`
pub record PprKey : Type 0 where
  pub eid : ℤ
  pub node : ℤ
  pub time : ℤ

-- `PPRDictType`, a `phmap::parallel_flat_hash_map`: a parameter, with what the code relies on. The
-- entries stand in the order of iteration.
pub record PprMap (D : Type 0) : Type 1 where
  pub Map : Type 0
  pub empty : Map
  pub entries : Map → List (PprKey × D)
  pub find : Map → PprKey → Option D
  -- `m[k] = v`
  pub assign : Map → PprKey → D → Map
  pub length-entries_empty : length (entries empty) ≡ 0
  pub length-entries_assign :
      (m : Map) (k : PprKey) (v : D) → length (entries (assign m k v)) ≤ suc (length (entries m))

-- What there is for each node: `PPR_list[tppr_id]` and `norm_list[tppr_id]`.
pub record TpprState (M D : Type 0) : Type 0 where
  pub ppr_list : List M
  pub norm_list : List D

module _ {D : Type 0} (hm : PprMap D) where
  unfoldable pub insert_all : List (PprKey × D) → hm.Map → hm.Map
  insert_all [] m = m
  insert_all ((k, v) ∷ entries) m = insert_all entries (hm.assign m k v)

  module _ (d : Doubles D) where
    -- `t_s1_PPR[pair.first] = pair.second * scala_s1`
    unfoldable pub scale : D → List (PprKey × D) → hm.Map → hm.Map
    scale scala_s1 [] m = m
    scale scala_s1 ((k, v) ∷ entries) m = scale scala_s1 entries (hm.assign m k (d.mul v scala_s1))

    unfoldable pub merge : D → List (PprKey × D) → hm.Map → hm.Map
    merge scala_s2 [] m = m
    merge scala_s2 ((k, v) ∷ entries) m =
        let more = d.mul v scala_s2 in
        merge scala_s2 entries
          (hm.assign m k (elim (hm.find m k) [ none ↦ more | some old ↦ d.add old more ]))

    module _ (fanout : ℕ) where
      -- The entries with the greatest values. `std::partial_sort` leaves the order of equal values open.
      unfoldable pub top_k : hm.Map → hm.Map
      unfolding stable_sort insert_all
      top_k m =
          if leb (length (hm.entries m)) fanout
          then m
          else insert_all (take fanout (stable_sort (λ a b. d.lt b.1 a.1) (hm.entries m))) hm.empty

-- `reset_tppr`, for one pair
unfoldable pub reset_tppr : {D : Type 0} → Doubles D → (hm : PprMap D) → ℕ → TpprState hm.Map D
reset_tppr d hm num_nodes = record {
  ppr_list = replicate num_nodes hm.empty;
  norm_list = replicate num_nodes (nought d);
}

-- `alpha` and `beta` are cut off to whole numbers; `to_float` rounds to a `float`.
module _ {D : Type 0} (d : Doubles D) (to_float : D → D) (hm : PprMap D) (fanout : ℕ)
    (alpha beta : ℤ) where
  -- The value of the new edge.
  abbrev pub edge_value : D → D
  edge_value scala_s2 =
      ite (ℤ-discrete alpha (pos 0)) scala_s2 (to_float (d.mul scala_s2 (d.of_int alpha)))

  unfoldable pub compute_s1_s2 : TpprState hm.Map D → ℕ → ℕ → ℤ → ℤ → Result hm.Map
  unfolding fetch scale merge top_k
  compute_s1_s2 s s1 s2 eid ts = do
    last_norm ← fetch s.norm_list s1
    let key : PprKey = record { eid = eid; node = pos s2; time = ts }
    if same_double d last_norm (nought d)
        then (let scala_s2 = to_float (d.of_int (pos 1 -ℤ alpha)) in
            ok (top_k hm d fanout (hm.assign hm.empty key (edge_value scala_s2))))
        else (do
          s1_ppr ← fetch s.ppr_list s1
          let b = d.of_int beta
          let new_norm = d.add (d.mul last_norm b) b
          let scala_s1 = to_float (d.mul (d.div last_norm new_norm) b)
          let scala_s2 = to_float (d.mul (d.div b new_norm) (d.of_int (pos 1 -ℤ alpha)))
          s2_ppr ← fetch s.ppr_list s2
          let scaled = scale hm d scala_s1 (hm.entries s1_ppr) s1_ppr
          let merged = merge hm d scala_s2 (hm.entries s2_ppr) scaled
          ok (top_k hm d fanout (hm.assign merged key (edge_value scala_s2))))

  -- `PPR_list[s1] = compute_s1_s2(s1, s2); norm_list[s1] = norm_list[s1]*beta+beta;`
  unfoldable pub update_node : ℕ → ℕ → ℤ → ℤ → TpprState hm.Map D → Result (TpprState hm.Map D)
  unfolding compute_s1_s2 modify
  update_node s1 s2 eid ts s = do
    m ← compute_s1_s2 s s1 s2 eid ts
    ppr_list ← modify s.ppr_list s1 (λ _. m)
    let b = d.of_int beta
    norm_list ← modify s.norm_list s1 (λ norm. d.add (d.mul norm b) b)
    ok (record { ppr_list = ppr_list; norm_list = norm_list })

  -- Both ends of an edge.
  unfoldable pub update_edge : ℕ → ℕ → ℤ → ℤ → TpprState hm.Map D → Result (TpprState hm.Map D)
  unfolding update_node
  update_edge src dst eid ts s = do
    s' ← update_node src dst eid ts s
    if src == dst then ok s' else update_node dst src eid ts s'
