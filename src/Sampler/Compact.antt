-- ===== src/Sampler/Compact.antt =====
-- sampler.h: `deduplicate_compact_mfg_edges`, which keeps the first entry of each edge in each column of
-- a matrix. The arrays `csc_indices`, `edge_lids` and `delta_t` have an entry for each `Row`.
pub mod Laws
pub mod Columns
use starrygl_tmp.Prelude.{
  ℕ, zero, suc, ◌-◌, ltb, leb, ◌==◌, ℤ, Bool, true, false, not, ◌||◌, List, [], ◌∷◌, length, take,
  drop, if◌then◌else◌, Result, ok, err, fault, ◌>>=◌,
}
use starrygl_tmp.Phmap.{HashSet}
use starrygl_tmp.Native.Partition.Flat.{Ragged, empty_ragged, append}

pub record Row : Type 0 where
  pub source : ℕ
  pub edge_lid : ℤ
  pub delta : ℤ

module _ (hs : HashSet ℤ) where
  -- The loop over a column; `seen.emplace` tells whether the edge is new.
  unfoldable pub keep_new : hs.Elems → List Row → List Row
  keep_new seen [] = []
  keep_new seen (r ∷ rows) =
      let rest = keep_new (hs.insert seen r.edge_lid) rows in
      if hs.has seen r.edge_lid then rest else r ∷ rest

  -- The loop over the columns from the one that begins at `begin` on; `seen` is cleared for each.
  unfoldable pub compact_columns : List Row → ℕ → List ℕ → Ragged Row → Result (Ragged Row)
  unfolding keep_new append
  compact_columns rows begin [] r = ok r
  compact_columns rows begin (end ∷ ends) r =
      if ltb (length rows) end
      then err fault
      else compact_columns rows end ends
          (append r (keep_new hs.none_in (take (end - begin) (drop begin rows))))

  -- A matrix from which nothing is removed stays as it is, and so does one of compact ids only. Without
  -- pointers there are no columns, and all is removed.
  unfoldable pub deduplicate_compact_mfg_edges : Bool → Ragged Row → Result (Ragged Row)
  unfolding compact_columns
  deduplicate_compact_mfg_edges compact_node_ids mfg =
      if not compact_node_ids || leb (length mfg.elems) 1 then ok mfg else elim mfg.ptr [
        | [] ↦ ok (record { elems = []; ptr = [] })
        | begin ∷ ends ↦ do
          new ← compact_columns mfg.elems begin ends empty_ragged
          ok (if length new.elems == length mfg.elems then mfg else new)
      ]
