-- ===== src/Tests/Sampling.antt =====
-- sampler/include/sampler.h on small inputs.
use starrygl_tmp.Sampler.Draw.Total.{AreAligned, sample_node-IsOk}
use starrygl_tmp.Sampler.Layer.Total.{
  IsNode, history_at, neighbor_sample_from_nodes_with_before-IsOk,
}
use starrygl_tmp.Prelude.{
  arith, IsOk, zero, suc, get_elem?, row_of, ◌-ℤ◌, ℕ, ◌≤◌, ℤ, pos, negsuc, ltb_ℤ, ℤ-discrete, true,
  false, List, [], ◌∷◌, length, some, ◌≡◌, ◌≢◌, refl, ok, ℕ_discrete, IsDistinct,
}
use starrygl_tmp.Phmap.{HashMap}
use starrygl_tmp.Phmap.Assoc.{assoc_map}
use starrygl_tmp.Sort.{stable_sort}
use starrygl_tmp.Sort.Laws.{stable_sort-IsSorted}
use starrygl_tmp.Sort.Lex.{ltb_ℤ-IsStrictTotal}
use starrygl_tmp.Sampler.Draw.{
  Policy, recent, weighted, dtdg_uniform, History, Sample, Settings, sample_at, sample_node,
}
use starrygl_tmp.Sampler.Draw.Range.{All}
use starrygl_tmp.Sampler.Draw.Causal.{sample_node-causal}
use mathlib.Core.Path.{subst}
use starrygl_tmp.Sort.Laws.{IsSorted}
use starrygl_tmp.Prelude.{read, ok_inj}
use starrygl_tmp.Sampler.Layer.{Tnb, history_of, neighbor_sample_from_nodes_with_before}
use starrygl_tmp.Sampler.Layer.Laws.{
  AreSorted, AreEarlier, neighbor_sample_from_nodes_with_before-AreEarlier,
}
use starrygl_tmp.Sampler.Output.{
  NodeInstanceKey, NodeInstanceKey-discrete, NativeSamplingOutput, root_keys, get_sampling_output,
}
use starrygl_tmp.Sampler.Output.Laws.{StandFor}
use starrygl_tmp.Sampler.Output.Linked.{AreLinked, get_sampling_output-AreLinked}

abbrev settings : Policy → Settings
settings p = record {
  policy = p;
  base_seed = 42;
  parts = record { local_part = negsuc 0; part = []; node_part = []; node_is_hot = [] };
  above = λ bits. false;
  decay_above = λ fanout h rtts cid bits. false;
  multinomial = λ i draw. 3;
}

abbrev history : History
history = record {
  neighbors = pos 1 ∷ pos 2 ∷ pos 3 ∷ pos 4 ∷ [];
  timestamps = pos 10 ∷ pos 20 ∷ pos 30 ∷ pos 40 ∷ [];
  edge_ids = pos 0 ∷ pos 1 ∷ pos 2 ∷ pos 3 ∷ [];
}

abbrev sample : ℤ → ℤ → ℤ → ℤ → Sample
sample node ts delta eid = record { src_index = 0; node = node; ts = ts; delta = delta; eid = eid }

-- The two last edges before the time 35.
sample_node_run :
    sample_node (settings recent) 2 0 0 history (pos 35)
    ≡ ok (sample (pos 2) (pos 20) (pos 15) (pos 1) ∷ sample (pos 3) (pos 30) (pos 5) (pos 2) ∷ [])
unfolding sample_node ◌-ℤ◌
sample_node_run = refl

-- Drawn by weight, an edge of the time 40 is sampled at the time 35.
sample_node_weighted_run :
    sample_node (settings weighted) 1 0 0 history (pos 35)
    ≡ ok (sample (pos 4) (pos 40) (negsuc 4) (pos 3) ∷ [])
unfolding sample_node ◌-ℤ◌
sample_node_weighted_run = refl

recent-ne-weighted : recent ≢ weighted
recent-ne-weighted e = cc

recent-ne-dtdg_uniform : recent ≢ dtdg_uniform
recent-ne-dtdg_uniform e = cc

sample_node-causal_example :
    (2 ≤ 2)
    × (All
        (λ (s : Sample).
          (cid : ℕ) × (sample_at history (pos 35) 0 cid ≡ ok s)
          × (recent ≢ dtdg_uniform → ltb_ℤ s.ts (pos 35) ≡ true)
          × (recent ≡ dtdg_uniform → s.ts ≡ pos 35))
        (sample (pos 2) (pos 20) (pos 15) (pos 1) ∷ sample (pos 3) (pos 30) (pos 5) (pos 2) ∷ []))
unfolding stable_sort
sample_node-causal_example =
    sample_node-causal (settings recent) 2 0 0 history (pos 35)
      (sample (pos 2) (pos 20) (pos 15) (pos 1) ∷ sample (pos 3) (pos 30) (pos 5) (pos 2) ∷ [])
      recent-ne-weighted (stable_sort-IsSorted ltb_ℤ ltb_ℤ-IsStrictTotal.weak history.timestamps)
      sample_node_run

abbrev tnb : Tnb
tnb = record {
  neighbors = (pos 1 ∷ pos 1 ∷ []) ∷ (pos 0 ∷ []) ∷ [];
  timestamp = (pos 10 ∷ pos 20 ∷ []) ∷ (pos 5 ∷ []) ∷ [];
  eid = (pos 0 ∷ pos 1 ∷ []) ∷ (pos 2 ∷ []) ∷ [];
}

-- Node 0 at the time 30 has two edges before it; each end, node 1, has one.
abbrev blocks : List (List Sample)
blocks =
    (sample (pos 1) (pos 10) (pos 20) (pos 0) ∷ sample (pos 1) (pos 20) (pos 10) (pos 1) ∷ [])
    ∷ (record { src_index = 0; node = pos 0; ts = pos 5; delta = pos 5; eid = pos 2 }
        ∷ record { src_index = 1; node = pos 0; ts = pos 5; delta = pos 15; eid = pos 2 }
        ∷ [])
    ∷ []

neighbor_sample_run :
    neighbor_sample_from_nodes_with_before
      (settings recent)
      tnb
      (2 ∷ 2 ∷ [])
      2
      (pos 0 ∷ [])
      (pos 30 ∷ [])
    ≡ ok blocks
unfolding neighbor_sample_from_nodes_with_before ◌-ℤ◌
neighbor_sample_run = refl

tnb-AreSorted : AreSorted tnb
unfolding history_of read stable_sort
tnb-AreSorted (negsuc n) h e = cc
tnb-AreSorted (pos zero) h e =
    subst (λ (h : History). IsSorted ltb_ℤ h.timestamps) (ok_inj e)
      (stable_sort-IsSorted ltb_ℤ ltb_ℤ-IsStrictTotal.weak (pos 10 ∷ pos 20 ∷ []))
tnb-AreSorted (pos (suc zero)) h e =
    subst (λ (h : History). IsSorted ltb_ℤ h.timestamps) (ok_inj e)
      (stable_sort-IsSorted ltb_ℤ ltb_ℤ-IsStrictTotal.weak (pos 5 ∷ []))
tnb-AreSorted (pos (suc (suc n))) h e = cc

neighbor_sample_from_nodes_with_before-AreEarlier_example :
    (AreEarlier (pos 30 ∷ []) blocks) × (length blocks ≡ 2)
neighbor_sample_from_nodes_with_before-AreEarlier_example =
    neighbor_sample_from_nodes_with_before-AreEarlier (settings recent) tnb tnb-AreSorted
      recent-ne-weighted recent-ne-dtdg_uniform (2 ∷ 2 ∷ []) 2 (pos 0 ∷ []) (pos 30 ∷ []) blocks
      neighbor_sample_run

abbrev node_map : HashMap NodeInstanceKey ℕ
node_map = assoc_map NodeInstanceKey-discrete

abbrev edge_map : HashMap ℤ ℕ
edge_map = assoc_map ℤ-discrete

abbrev instance_of : ℤ → ℤ → NodeInstanceKey
instance_of node ts = record { node = node; ts = ts }

-- The edge 2 is sampled twice and numbered once, and so is node 0 at the time 5.
abbrev output : NativeSamplingOutput node_map edge_map
output = record {
  mfgs =
      record {
        layer = 0;
        dst_lids = 0 ∷ [];
        src_lids = 0 ∷ 1 ∷ 2 ∷ [];
        csc_indptr = 0 ∷ 2 ∷ [];
        csc_indices = 1 ∷ 2 ∷ [];
        edge_lids = 0 ∷ 1 ∷ [];
        delta_t = pos 20 ∷ pos 10 ∷ [];
        dst_begin = 0;
        dst_end = 1;
      }
      ∷ record {
        layer = 1;
        dst_lids = 1 ∷ 2 ∷ [];
        src_lids = 0 ∷ 1 ∷ 2 ∷ 3 ∷ [];
        csc_indptr = 0 ∷ 1 ∷ 2 ∷ [];
        csc_indices = 3 ∷ 3 ∷ [];
        edge_lids = 2 ∷ 2 ∷ [];
        delta_t = pos 5 ∷ pos 15 ∷ [];
        dst_begin = 1;
        dst_end = 3;
      }
      ∷ [];
  nodes =
      instance_of (pos 0) (pos 30)
      ∷ instance_of (pos 1) (pos 10)
      ∷ instance_of (pos 1) (pos 20)
      ∷ instance_of (pos 0) (pos 5)
      ∷ [];
  node_layer_ptr = 0 ∷ 1 ∷ 3 ∷ 4 ∷ [];
  roots = instance_of (pos 0) (pos 30) ∷ [];
  root_lids = 0 ∷ [];
  edge_gids = pos 0 ∷ pos 1 ∷ pos 2 ∷ [];
  edge_ts = pos 10 ∷ pos 20 ∷ pos 5 ∷ [];
  edge_layer_ptr = 0 ∷ 2 ∷ 3 ∷ [];
}

get_sampling_output_run :
    get_sampling_output node_map edge_map 3 blocks (pos 0 ∷ []) (some (pos 30 ∷ [])) ≡ ok output
unfolding get_sampling_output NodeInstanceKey-discrete ℤ-discrete ℕ_discrete
get_sampling_output_run = refl

get_sampling_output-AreLinked_example :
    (IsDistinct NodeInstanceKey-discrete output.nodes)
    × (StandFor output.nodes output.root_lids output.roots)
    × (AreLinked node_map edge_map output.nodes output.roots output.mfgs blocks)
    × (root_keys node_map edge_map (pos 0 ∷ []) (some (pos 30 ∷ [])) ≡ ok output.roots)
get_sampling_output-AreLinked_example =
    get_sampling_output-AreLinked node_map edge_map 3 blocks (pos 0 ∷ []) (some (pos 30 ∷ []))
      output get_sampling_output_run

sample_node-IsOk_example : IsOk (sample_node (settings recent) 2 0 0 history (pos 35))
sample_node-IsOk_example =
    sample_node-IsOk history (record { neighbors = refl; edge_ids = refl }) (pos 35) 0
      (settings recent) 2 0 recent-ne-weighted

tnb-aligned : (v : ℕ) → AreAligned (history_at tnb v)
tnb-aligned zero = record { neighbors = refl; edge_ids = refl }
tnb-aligned (suc zero) = record { neighbors = refl; edge_ids = refl }
tnb-aligned (suc (suc v)) = record { neighbors = refl; edge_ids = refl }

tnb-nodes : (v cid : ℕ) (u : ℤ) → get_elem? (row_of tnb.neighbors v) cid ≡ some u → IsNode tnb u
tnb-nodes zero zero u h = (1, cc, omega arith)
tnb-nodes zero (suc zero) u h = (1, cc, omega arith)
tnb-nodes zero (suc (suc cid)) u h = cc
tnb-nodes (suc zero) zero u h = (0, cc, omega arith)
tnb-nodes (suc zero) (suc cid) u h = cc
tnb-nodes (suc (suc v)) cid u h = cc

neighbor_sample_from_nodes_with_before-IsOk_example : IsOk (
    neighbor_sample_from_nodes_with_before
      (settings recent)
      tnb
      (2 ∷ 2 ∷ [])
      2
      (pos 0 ∷ [])
      (pos 30 ∷ []))
neighbor_sample_from_nodes_with_before-IsOk_example =
    neighbor_sample_from_nodes_with_before-IsOk (settings recent) tnb
      (record { timestamp = refl; eid = refl; aligned = tnb-aligned; nodes = tnb-nodes })
      recent-ne-weighted (2 ∷ 2 ∷ []) 2 (pos 0 ∷ []) (pos 30 ∷ []) ((0, refl, omega arith), tt)
      (omega arith) (omega arith)
