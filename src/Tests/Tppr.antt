-- ===== src/Tests/Tppr.antt =====
-- sampler/include/tppr.h on a few edges, with whole numbers for `double` and a list for the map.
use starrygl_tmp.Prelude.{
  zero, suc, ◌≤◌, ◌&&◌, ℤ, pos, ℤ-discrete, ◌+ℤ◌, ◌-ℤ◌, ◌*ℤ◌, ite, Bool, true, false, List, [], ◌∷◌,
  length, Option, none, some, err, fault, Returns, Bool-cases, if◌then◌else◌, ◌≡◌, inl, inr, refl,
  arith,
}
use starrygl_tmp.Tests.Speed.{whole}
use starrygl_tmp.Tppr.{PprKey, PprMap, reset_tppr}
use starrygl_tmp.Tppr.Laws.{IsTppr, reset_tppr-IsTppr}
use starrygl_tmp.Tppr.Stream.{single_streaming_topk, streaming_topk_no_fake, compute_val_tppr}
use starrygl_tmp.Tppr.Stream.Laws.{
  AreNodes, IsStreaming, single_streaming_topk-IsStreaming, compute_val_tppr-IsTppr,
}

same_key : PprKey → PprKey → Bool
same_key a b =
    ite (ℤ-discrete a.eid b.eid) true false
    && (ite (ℤ-discrete a.node b.node) true false && ite (ℤ-discrete a.time b.time) true false)

find : List (PprKey × ℤ) → PprKey → Option ℤ
unfolding same_key
find [] k = none
find ((j, v) ∷ m) k = if same_key j k then some v else find m k

assign : List (PprKey × ℤ) → PprKey → ℤ → List (PprKey × ℤ)
unfolding same_key
assign [] k v = (k, v) ∷ []
assign ((j, u) ∷ m) k v = if same_key j k then (j, v) ∷ m else (j, u) ∷ assign m k v

length-assign :
    (m : List (PprKey × ℤ)) (k : PprKey) (v : ℤ) → length (assign m k v) ≤ suc (length m)
unfolding assign
length-assign [] k v = omega arith
length-assign ((j, u) ∷ m) k v = elim (Bool-cases (same_key j k)) [
  | inl e ↦ rw (assign, e) (omega arith)
  | inr e ↦ rw (assign, e) (omega (arith, length-assign m k v))
]

abbrev list_map : PprMap ℤ
list_map = record {
  Map = List (PprKey × ℤ);
  empty = [];
  entries = λ m. m;
  find = find;
  assign = assign;
  length-entries_empty = refl;
  length-entries_assign = length-assign;
}

abbrev src_nodes : List ℤ
src_nodes = pos 0 ∷ pos 1 ∷ pos 2 ∷ pos 1 ∷ []

abbrev times : List ℤ
times = pos 5 ∷ pos 6 ∷ []

abbrev eids : List ℤ
eids = pos 7 ∷ pos 8 ∷ []

src_nodes-AreNodes : AreNodes 4 src_nodes
src_nodes-AreNodes zero lt = (0, refl, omega arith)
src_nodes-AreNodes (suc zero) lt = (1, refl, omega arith)
src_nodes-AreNodes (suc (suc zero)) lt = (2, refl, omega arith)
src_nodes-AreNodes (suc (suc (suc zero))) lt = (1, refl, omega arith)
src_nodes-AreNodes (suc (suc (suc (suc i)))) lt = absurd (omega (arith, lt))

single_streaming_topk-IsStreaming_example :
    Returns
      (single_streaming_topk whole
        (λ a. a)
        list_map
        2
        (pos 0)
        (pos 1)
        src_nodes
        times
        eids
        4
        (reset_tppr whole list_map 4))
      (IsStreaming whole (λ a. a) list_map 2 4 4)
    × Returns
        (streaming_topk_no_fake whole
          (λ a. a)
          list_map
          2
          (pos 0)
          (pos 1)
          src_nodes
          times
          eids
          4
          (reset_tppr whole list_map 4))
        (IsStreaming whole (λ a. a) list_map 2 4 4)
single_streaming_topk-IsStreaming_example =
    single_streaming_topk-IsStreaming whole (λ a. a) list_map 2 (pos 0) (pos 1) src_nodes times eids
      4 src_nodes-AreNodes (reset_tppr whole list_map 4) (omega arith) (omega arith) (omega arith)
      (reset_tppr-IsTppr whole list_map 2 4)

compute_val_tppr-IsTppr_example :
    Returns
      (compute_val_tppr whole
        (λ a. a)
        list_map
        2
        (pos 0)
        (pos 1)
        src_nodes
        src_nodes
        src_nodes
        src_nodes
        (reset_tppr whole list_map 4))
      (λ r.
        IsTppr list_map 2 4 r.state
        × (r.val_norm_list ≡ r.state.norm_list)
        × (r.val_ppr_list ≡ r.state.ppr_list))
compute_val_tppr-IsTppr_example =
    compute_val_tppr-IsTppr whole (λ a. a) list_map 2 (pos 0) (pos 1) src_nodes src_nodes src_nodes
      4 src_nodes-AreNodes src_nodes (reset_tppr whole list_map 4) src_nodes-AreNodes refl refl refl
      (reset_tppr-IsTppr whole list_map 2 4)

-- With fewer nodes in the batch than in the graph, the batch is read past its end.
single_streaming_topk_short :
    single_streaming_topk whole
      (λ a. a)
      list_map
      2
      (pos 0)
      (pos 1)
      (pos 0 ∷ pos 1 ∷ pos 2 ∷ [])
      times
      eids
      9
      (reset_tppr whole list_map 9)
    ≡ err fault
unfolding single_streaming_topk reset_tppr find assign same_key ◌+ℤ◌ ◌-ℤ◌ ◌*ℤ◌ ℤ-discrete
single_streaming_topk_short = refl
