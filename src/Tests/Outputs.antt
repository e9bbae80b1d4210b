-- ===== src/Tests/Outputs.antt =====
-- sampler/include/sampler.h, what follows the sampling, on small inputs.

use starrygl_tmp.Sort.{stable_sort}
use starrygl_tmp.Sort.Laws.{stable_sort-IsSorted}
use starrygl_tmp.Sort.Lex.{ltb_ℤ-IsStrictTotal}
use starrygl_tmp.Prelude.{
  IsOk, IsOk→value, zero, suc, ℕ, ℤ, pos, negsuc, ltb_ℤ, ℤ-discrete, ◌+ℤ◌, ◌-ℤ◌, true, false, List,
  [], ◌∷◌, length, some, ◌≡◌, refl, ok, ℕ_discrete, arith, read, ok_inj, get_elem?,
}
use mathlib.Core.Path.{subst}
use starrygl_tmp.Phmap.{HashMap}
use starrygl_tmp.Phmap.Assoc.{assoc_map, list_set}
use starrygl_tmp.Sort.Laws.{IsSorted}
use starrygl_tmp.Native.Partition.Flat.{Ragged, row}
use starrygl_tmp.Sampler.Draw.{recent, History, Settings}
use starrygl_tmp.Sampler.Boundary.{entry}
use starrygl_tmp.Sampler.Layer.{Tnb, history_of}
use starrygl_tmp.Sampler.Output.{NodeInstanceKey, NodeInstanceKey-discrete}
use starrygl_tmp.Sampler.ReadLayout.{ReadItem, read_items, build_edge_read_layout}
use starrygl_tmp.Sampler.ReadLayout.Laws.{read_back, build_edge_read_layout-read_back}
use starrygl_tmp.Sampler.Compact.{Row, deduplicate_compact_mfg_edges}
use starrygl_tmp.Sampler.Compact.Laws.{firsts, columns}
use starrygl_tmp.Sampler.Compact.Columns.{deduplicate_compact_mfg_edges-firsts}
use starrygl_tmp.Sampler.Dtdg.{SliceOutput, sample_dtdg_uniform}
use starrygl_tmp.Sampler.Layer.Laws.{AreSorted}
use starrygl_tmp.Sampler.Dtdg.Laws.{AreSlices, sample_dtdg_uniform-AreSlices}

-- Three edges, of the parts 1, 0 and 0, at the locations 4, 3 and 1.
abbrev dist : List ℤ
dist = pos 1125899906842628 ∷ pos 3 ∷ pos 1 ∷ []

abbrev edge_gids : List ℤ
edge_gids = pos 0 ∷ pos 1 ∷ pos 2 ∷ []

abbrev items : List ReadItem
items =
    record { compute_pos = 0; index = pos 1125899906842628 }
    ∷ record { compute_pos = 1; index = pos 3 }
    ∷ record { compute_pos = 2; index = pos 1 }
    ∷ []

build_edge_read_layout_run : build_edge_read_layout dist (pos 0) edge_gids ≡ record {
  edge_read_index = pos 1 ∷ pos 3 ∷ pos 1125899906842628 ∷ [];
  edge_read_ptr = 0 ∷ 2 ∷ 3 ∷ [];
  compute_to_edge_feature = 2 ∷ 1 ∷ 0 ∷ [];
}
unfolding build_edge_read_layout
build_edge_read_layout_run = refl

read_items_run : read_items dist 0 edge_gids ≡ some items
unfolding read_items
read_items_run = refl

build_edge_read_layout-read_back_example :
    read_back (build_edge_read_layout dist (pos 0) edge_gids) 1 ≡ entry dist (pos 1)
build_edge_read_layout-read_back_example =
    build_edge_read_layout-read_back dist (pos 0) edge_gids items read_items_run 1 (pos 1) refl

abbrev entry_of : ℕ → ℤ → ℤ → Row
entry_of source lid delta = record { source = source; edge_lid = lid; delta = delta }

abbrev entries : List Row
entries =
    entry_of 4 (pos 0) (pos 7)
    ∷ entry_of 5 (pos 1) (pos 6)
    ∷ entry_of 4 (pos 0) (pos 5)
    ∷ entry_of 6 (pos 0) (pos 4)
    ∷ []

abbrev deduplicated : Ragged Row
deduplicated = record {
  elems = entry_of 4 (pos 0) (pos 7) ∷ entry_of 5 (pos 1) (pos 6) ∷ entry_of 6 (pos 0) (pos 4) ∷ [];
  ptr = 0 ∷ 2 ∷ 3 ∷ [];
}

deduplicate_compact_run :
    deduplicate_compact_mfg_edges
      (list_set ℤ-discrete)
      true
      (record { elems = entries; ptr = 0 ∷ 3 ∷ 4 ∷ [] })
    ≡ ok deduplicated
unfolding deduplicate_compact_mfg_edges ℤ-discrete ℕ_discrete
deduplicate_compact_run = refl

columns_run : get_elem? (columns entries 0 (3 ∷ 4 ∷ [])) 1 ≡ some (entry_of 6 (pos 0) (pos 4) ∷ [])
unfolding columns
columns_run = refl

deduplicate_compact_mfg_edges-firsts_example :
    row deduplicated 1 ≡ firsts (entry_of 6 (pos 0) (pos 4) ∷ [])
deduplicate_compact_mfg_edges-firsts_example =
    deduplicate_compact_mfg_edges-firsts (list_set ℤ-discrete) entries 0 (3 ∷ 4 ∷ []) deduplicated
      (omega arith, omega arith, (omega arith, omega arith, refl)) refl deduplicate_compact_run 1
      (entry_of 6 (pos 0) (pos 4) ∷ []) columns_run

abbrev settings : Settings
settings = record {
  policy = recent;
  base_seed = 1;
  parts = record { local_part = negsuc 0; part = []; node_part = []; node_is_hot = [] };
  above = λ bits. false;
  decay_above = λ fanout h rtts cid bits. false;
  multinomial = λ i draw. 0;
}

-- Node 0 has an edge in each of the slices 1 and 2.
abbrev tnb : Tnb
tnb = record {
  neighbors = (pos 0 ∷ pos 0 ∷ []) ∷ [];
  timestamp = (pos 1 ∷ pos 2 ∷ []) ∷ [];
  eid = (pos 0 ∷ pos 1 ∷ []) ∷ [];
}

tnb-AreSorted : AreSorted tnb
unfolding history_of read stable_sort
tnb-AreSorted (negsuc n) h e = cc
tnb-AreSorted (pos (suc n)) h e = cc
tnb-AreSorted (pos zero) h e =
    subst (λ (h : History). IsSorted ltb_ℤ h.timestamps) (ok_inj e)
      (stable_sort-IsSorted ltb_ℤ ltb_ℤ-IsStrictTotal.weak (pos 1 ∷ pos 2 ∷ []))

abbrev node_map : HashMap NodeInstanceKey ℕ
node_map = assoc_map NodeInstanceKey-discrete

abbrev edge_map : HashMap ℤ ℕ
edge_map = assoc_map ℤ-discrete

sample_dtdg_uniform_run : IsOk (
    sample_dtdg_uniform node_map edge_map true settings tnb (1 ∷ 1 ∷ []) 2 2 (pos 0 ∷ []) (pos 2) 2)
unfolding sample_dtdg_uniform NodeInstanceKey-discrete ℤ-discrete ℕ_discrete ◌+ℤ◌ ◌-ℤ◌
sample_dtdg_uniform_run = tt

sample_dtdg_uniform-AreSlices_example :
    (outs : List (SliceOutput node_map edge_map)) × (sample_dtdg_uniform node_map edge_map true
        settings tnb
        (1 ∷ 1 ∷ [])
        2
        2
        (pos 0 ∷ [])
        (pos 2)
        2
      ≡ ok outs)
    × ((AreSlices node_map edge_map (pos 2 -ℤ pos 2 +ℤ pos 1) outs) × (length outs ≡ 2))
sample_dtdg_uniform-AreSlices_example =
    let (outs, e) = IsOk→value _ sample_dtdg_uniform_run in
    (
      outs,
      e,
      sample_dtdg_uniform-AreSlices node_map edge_map settings tnb tnb-AreSorted (1 ∷ 1 ∷ []) 2 2
          (pos 0 ∷ []) true (pos 2) 2 outs e,
    )
