-- ===== src/Speed/Partition/Hot.antt =====
-- sampler/speed_partition.cpp, the hot nodes: as many as the ratio asks for, those with the most edges,
-- and what `is_hot` marks.
pub mod Ends
pub mod Order
use starrygl_tmp.Prelude.{
  ℕ, zero, suc, ◌+◌, ◌<◌, ◌≤◌, min, ltb, ◌==◌, ==_iff, pos, pos_part, Bool, true, false, List, [],
  ◌∷◌, map, take, length, replicate, set, get_or, modify, modify-of-lt, get_or-set, length-set,
  length-replicate, length-map, length-take, get_or-replicate, count, AllBelow, Returns,
  >>=-Returns, modify-Returns, ok, ok_inj, if◌then◌else◌, Bool-cases, ◌≡◌, inl, inr, refl, sym, ap,
  ◌∙◌, arith,
}
use mathlib.Core.List.{Mem, Pairwise, mem-cons_self, mem-cons_of_mem}
use mathlib.Core.Path.{subst}
use starrygl_tmp.Sort.{stable_sort}
use starrygl_tmp.Sort.Counts.{All, stable_sort-All, count-map-stable_sort}
use starrygl_tmp.Sort.Laws.{IsStrictWeak, IsSorted, stable_sort-IsSorted, length-stable_sort}
use starrygl_tmp.Speed.Doubles.{Doubles}
use starrygl_tmp.Speed.Master.{Edge}
use starrygl_tmp.Speed.Master.Laws.{AreBelow}
use starrygl_tmp.Speed.Graph.{
  SpeedNode, Weights, add_weight, add_weights_of, nodes_from, speed_less, topk_of, hot_nodes,
  mark_hot,
}
use starrygl_tmp.Speed.Partition.Hot.Ends.{ends_at}
use starrygl_tmp.Speed.Partition.Hot.Order.{length-hot_nodes, hot_nodes-once, hot_nodes-heaviest}

-- The hot nodes are `floor(topk_ratio * n)` many, held between none and all; `is_hot` marks these and no
-- others; and by degree, no other node has more edges than one of them, nor as many and a smaller number.
pub record AreHot {D : Type 0} (d : Doubles D) (n : ℕ) (edges : List (Edge D)) (topk_ratio : D)
    (use_importance : Bool) (is_hot : List Bool) (hot_ids : List ℕ) : Type 0 where
  pub topk :
      length hot_ids ≡ min n (pos_part (d.to_int (d.floor (d.mul topk_ratio (d.of_int (pos n))))))
  pub below : AllBelow n hot_ids
  pub once : (v : ℕ) → count v hot_ids < 2
  pub marks : (v : ℕ) → get_or is_hot v false ≡ ltb 0 (count v hot_ids)
  pub heaviest :
      use_importance ≡ false
      → (u v : ℕ) → v < n
      → 0 < count u hot_ids
      → count v hot_ids ≡ 0
      → (ends_at v edges ≤ ends_at u edges) × (ends_at v edges ≡ ends_at u edges → u ≤ v)

mark_hot-marks :
    (n : ℕ) (nodes : List ℕ) (is_hot : List Bool)
    → AllBelow n nodes
    → length is_hot ≡ n
    → Returns (mark_hot nodes is_hot) (λ is_hot'.
      (length is_hot' ≡ n)
      × ((v : ℕ)
          → get_or is_hot' v false
            ≡ (if ltb 0 (count v nodes) then true else get_or is_hot v false)))
unfolding mark_hot count
mark_hot-marks n [] is_hot below len = (is_hot, refl, (len, λ v. refl))
mark_hot-marks n (u ∷ nodes) is_hot below len =
    let (marked, done, (len', marks)) =
      mark_hot-marks n nodes (set is_hot u true) below.1 (length-set is_hot u true ∙ len) in
    (
      marked,
      rw (modify-of-lt is_hot u (λ _. true) false (rw len below.0)) done,
      (
        len',
        λ v.
            marks v
            ∙ rw (get_or-set is_hot u v true false (rw len below.0)) (elim (Bool-cases (u == v)) [
              | inl e ↦ rw e (ground arith)
              | inr e ↦ rw e (ground arith)
            ]),
      ),
    )

module _ {D : Type 0} (d : Doubles D) (n : ℕ) (edges : List (Edge D)) (topk_ratio : D)
    (use_importance : Bool) (w : Weights d) (degrees_len : length w.degrees ≡ n)
    (importances_len : length w.importances ≡ n)
    (counted : (v : ℕ) → get_or w.degrees v 0 ≡ ends_at v edges) where
  -- Once the nodes are chosen and marked, they are as `AreHot` says.
  pub mark_hot-AreHot :
      AllBelow n (hot_nodes d use_importance topk_ratio n w)
      → Returns
          (mark_hot (hot_nodes d use_importance topk_ratio n w) (replicate n false))
          (λ is_hot.
            (length is_hot ≡ n)
            × AreHot d n edges topk_ratio use_importance is_hot
                (hot_nodes d use_importance topk_ratio n w))
  unfolding topk_of
  mark_hot-AreHot below =
      let (is_hot, done, (len, marks)) =
        mark_hot-marks n (hot_nodes d use_importance topk_ratio n w) (replicate n false) below
          (length-replicate n false) in
      (
        is_hot,
        done,
        (
          len,
          record {
            topk =
                length-hot_nodes d n edges topk_ratio use_importance w degrees_len importances_len
                  counted;
            below = below;
            once =
                hot_nodes-once d n edges topk_ratio use_importance w degrees_len importances_len
                  counted;
            marks = λ v. marks v ∙ rw (get_or-replicate n v false) (ground arith);
            heaviest =
                hot_nodes-heaviest d n edges topk_ratio use_importance w degrees_len importances_len
                  counted;
          },
        ),
      )
