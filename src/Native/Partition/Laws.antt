-- ===== src/Native/Partition/Laws.antt =====
-- Each slice of a partition can be read back from the flat arrays.

use mathlib.Core.Path.{subst}
use starrygl_tmp.Prelude.{
  ℕ, zero, suc, ℤ, ℤ-discrete, Bool, List, [], ◌∷◌, ◌++◌, map, get_elem?, some, ◌≡◌, refl, ap, sym,
  ◌∙◌, ok, or_err, runtime_error, traverse, ◌>>=◌, >>=-eq-ok, ok_inj, map-traverse, Option-cases,
  inl, inr, arith, get_elem?-index_of, index_of,
}
use starrygl_tmp.Phmap.{HashMap}
use starrygl_tmp.Native.Slice.{emplace_rows}
use starrygl_tmp.Native.Slice.Rows.{find-dst_row}
use starrygl_tmp.Native.Partition.{
  Floats, Slice, Partition, Inputs, empty_partition, append_slice, event_positions, slice_edges,
  slice_topology, slice_norm, partition_slice, partition_slices,
}
use starrygl_tmp.Native.Partition.Flat.{
  Ragged, empty_ragged, append, append_all, row, row-append_all,
}

-- The arrays have the slice at the place `i`.
pub record HasSlice {F : Type 0} (p : Partition F) (i : ℕ) (s : Slice F) : Type 0 where
  pub src : row p.src i ≡ s.topology.src_ids
  pub dst : row p.dst i ≡ s.topology.dst_ids
  pub edge_id : row p.edge_id i ≡ s.topology.gids
  pub event_pos : row p.event_pos i ≡ s.event_pos
  pub edge_src : row p.edge_src i ≡ s.topology.edge_src
  pub edge_dst : row p.edge_dst i ≡ s.topology.edge_dst
  pub edge_ptr : row p.edge_ptr i ≡ s.topology.edge_ptr
  pub dst_chunk : row p.dst_chunk i ≡ s.topology.dst_chunk
  pub combined : row p.combined i ≡ s.topology.dst_ids ++ s.topology.src_ids

module _ {F : Type 0} where
  append_slices : Partition F → List (Slice F) → Partition F
  append_slices p [] = p
  append_slices p (s ∷ ss) = append_slices (append_slice p s) ss

  -- An output of the loop that each slice adds a row to.
  append_slices-field :
      {A : Type 0} (out : Partition F → Ragged A) (value : Slice F → List A)
      → ((p : Partition F) (s : Slice F) → out (append_slice p s) ≡ append (out p) (value s))
      → (ss : List (Slice F)) (p : Partition F)
      → out (append_slices p ss) ≡ append_all (out p) (map value ss)
  unfolding append_slices append_all
  append_slices-field out value each [] p = refl
  append_slices-field out value each (s ∷ ss) p =
      append_slices-field out value each ss (append_slice p s)
      ∙ ap (λ r. append_all r (map value ss)) (each p s)

  get_elem?-map-some :
      {A : Type 0} (f : Slice F → A) (ss : List (Slice F)) (i : ℕ) {s : Slice F}
      → get_elem? ss i ≡ some s
      → get_elem? (map f ss) i ≡ some (f s)
  get_elem?-map-some f [] i h = cc
  get_elem?-map-some f (x ∷ xs) zero h = cc
  get_elem?-map-some f (x ∷ xs) (suc i) h = get_elem?-map-some f xs i h

  append_slices-row :
      {A : Type 0} (out : Partition F → Ragged A) (value : Slice F → List A)
      → ((p : Partition F) (s : Slice F) → out (append_slice p s) ≡ append (out p) (value s))
      → (ss : List (Slice F)) (p : Partition F) → out p ≡ empty_ragged
      → (i : ℕ) {s : Slice F} → get_elem? ss i ≡ some s
      → row (out (append_slices p ss)) i ≡ value s
  append_slices-row out value each ss p e i h =
      rw (append_slices-field out value each ss p, e)
        (row-append_all (map value ss) i (get_elem?-map-some value ss i h))

  append_slices-HasSlice :
      (ss : List (Slice F)) (b : Bool) (i : ℕ) {s : Slice F}
      → get_elem? ss i ≡ some s
      → HasSlice (append_slices (empty_partition b) ss) i s
  unfolding append_slice
  append_slices-HasSlice ss b i h =
      let p = empty_partition b in
      record {
        src = append_slices-row (λ p. p.src) (λ s. s.topology.src_ids) (λ p s. refl) ss p refl i h;
        dst = append_slices-row (λ p. p.dst) (λ s. s.topology.dst_ids) (λ p s. refl) ss p refl i h;
        edge_id =
            append_slices-row (λ p. p.edge_id) (λ s. s.topology.gids) (λ p s. refl) ss p refl i h;
        event_pos =
            append_slices-row (λ p. p.event_pos) (λ s. s.event_pos) (λ p s. refl) ss p refl i h;
        edge_src =
            append_slices-row (λ p. p.edge_src) (λ s. s.topology.edge_src) (λ p s. refl) ss p refl i
              h;
        edge_dst =
            append_slices-row (λ p. p.edge_dst) (λ s. s.topology.edge_dst) (λ p s. refl) ss p refl i
              h;
        edge_ptr =
            append_slices-row (λ p. p.edge_ptr) (λ s. s.topology.edge_ptr) (λ p s. refl) ss p refl i
              h;
        dst_chunk =
            append_slices-row (λ p. p.dst_chunk) (λ s. s.topology.dst_chunk) (λ p s. refl) ss p refl
              i h;
        combined =
            append_slices-row (λ p. p.combined) (λ s. s.topology.dst_ids ++ s.topology.src_ids)
              (λ p s. refl) ss p refl i h;
      }

module _ (F : Floats) (degrees : HashMap ℤ F.Double) (hm : HashMap ℤ ℕ) where
  partition_slices-traverse :
      (m : hm.Map) (x : Inputs F) (ranges : List (ℤ × ℤ)) (p q : Partition F.Float)
      → partition_slices F degrees hm m x ranges p ≡ ok q
      → (ss : List (Slice F.Float)) × (traverse (partition_slice F degrees hm m x) ranges ≡ ok ss)
        × (q ≡ append_slices p ss)
  unfolding partition_slices traverse append_slices
  partition_slices-traverse m x [] p q h = ([], refl, sym (ok_inj h))
  partition_slices-traverse m x (r ∷ ranges) p q h =
      let (s, here, rest) = >>=-eq-ok (partition_slice F degrees hm m x r) _ h in
      let (ss, later, same) = partition_slices-traverse m x ranges (append_slice p s) q rest in
      (s ∷ ss, rw (here, ◌>>=◌, later), same)

  -- Whenever the loop over slices returns, every slice was built, and the flat arrays, cut at
  -- their offsets, hold each slice's topology and event positions at the slice's place.
  pub partition_slices-HasSlice :
      (m : hm.Map) (x : Inputs F) (ranges : List (ℤ × ℤ)) (p : Partition F.Float)
      → partition_slices F degrees hm m x ranges (empty_partition x.build_gcn_norm) ≡ ok p
      → (ss : List (Slice F.Float)) × (traverse (partition_slice F degrees hm m x) ranges ≡ ok ss)
        × ((i : ℕ) (s : Slice F.Float) → get_elem? ss i ≡ some s → HasSlice p i s)
  partition_slices-HasSlice m x ranges p h =
      let (ss, built, same) =
        partition_slices-traverse m x ranges (empty_partition x.build_gcn_norm) p h in
      (ss, built, λ i s at. rw same (append_slices-HasSlice ss x.build_gcn_norm i at))

  event_positions-ids :
      (ids gids : List ℤ) (positions : List ℕ)
      → event_positions hm (emplace_rows hm hm.empty 0 ids) gids ≡ ok positions
      → map (get_elem? ids) positions ≡ map some gids
  unfolding event_positions
  event_positions-ids ids gids positions h =
      map-traverse (λ gid. or_err (hm.find (emplace_rows hm hm.empty 0 ids) gid) runtime_error)
        (get_elem? ids) some (λ gid p e. found gid p e) gids h
    where
      found :
          (gid : ℤ) (p : ℕ)
          → or_err (hm.find (emplace_rows hm hm.empty 0 ids) gid) runtime_error ≡ ok p
          → get_elem? ids p ≡ some gid
      found gid p e = elim (Option-cases (index_of ℤ-discrete gid ids)) [
        | inl missing ↦ ground (arith, find-dst_row hm ids gid)
        | inr (i, at) ↦
            ground (arith, find-dst_row hm ids gid, get_elem?-index_of ℤ-discrete gid ids i at)
      ]

  -- The event positions of a slice are places of its edge ids in the graph's array.
  pub partition_slice-events :
      (x : Inputs F) (range : ℤ × ℤ) (s : Slice F.Float)
      → partition_slice F degrees hm (emplace_rows hm hm.empty 0 x.graph.edge_ids) x range ≡ ok s
      → map (get_elem? x.graph.edge_ids) s.event_pos ≡ map some s.topology.gids
  unfolding partition_slice
  partition_slice-events x range s h =
      let gid_to_pos = emplace_rows hm hm.empty 0 x.graph.edge_ids in
      let (eids, _, h1) = >>=-eq-ok (slice_edges x.sorted_edges (range.0) (range.1)) _ h in
      let (t, _, h2) = >>=-eq-ok (slice_topology F degrees hm x eids) _ h1 in
      let (event_pos, found, h3) = >>=-eq-ok (event_positions hm gid_to_pos t.gids) _ h2 in
      let (norm, _, h4) = >>=-eq-ok (slice_norm F degrees hm gid_to_pos x t.gids) _ h3 in
      subst
        (λ (s : Slice F.Float).
          map (get_elem? x.graph.edge_ids) s.event_pos ≡ map some s.topology.gids)
        (ok_inj h4) (event_positions-ids x.graph.edge_ids t.gids event_pos found)
