-- ===== src/Native/Slice/Laws.antt =====
-- A slice topology stands for the sorted edges of the slice: rows lead back to nodes, and the
-- column pointers count the edges before each destination.
use mathlib.Core.List.{Perm}
use starrygl_tmp.Prelude.{
  read, ℕ, ◌≤◌, ℤ, List, [], ◌∷◌, ◌++◌, map, length, get_elem?, get_or, Option, none, some, ◌≡◌,
  refl, ap, ◌∙◌, ok, traverse, >>=-eq-ok, ok_inj, map-traverse,
}
use starrygl_tmp.Phmap.{HashMap}
use starrygl_tmp.Csc.Laws.{count_below, accumulate-count_rows}
use starrygl_tmp.Sort.{stable_sort}
use starrygl_tmp.Sort.Laws.{stable_sort-perm, stable_sort-IsSorted, IsSorted}
use starrygl_tmp.Native.Slice.{
  Edge, Graph, read_edge, edge_less, sorted_unique, emplace_rows, without_rows, edge_rows, Topology,
  build_topology, build_slice_topology_impl,
}
use starrygl_tmp.Native.Slice.Order.{edge_less-IsStrictWeak}
use starrygl_tmp.Native.Slice.Rows.{edge_rows-ends}

-- The topology has the edges, in this order.
pub record Represents (t : Topology) (edges : List Edge) : Type 0 where
  pub sources :
      map (get_elem? (t.dst_ids ++ t.src_ids)) t.edge_src ≡ map (λ (e : Edge). some e.src) edges
  pub destinations : map (get_elem? t.dst_ids) t.edge_dst ≡ map (λ (e : Edge). some e.dst) edges
  pub ids : t.gids ≡ map (λ (e : Edge). e.gid) edges
  pub pointers :
      (col : ℕ) → col ≤ length t.dst_ids → get_or t.edge_ptr col 0 ≡ count_below col t.edge_dst

map-map :
    {A B C : Type 0} (g : B → C) (f : A → B) (xs : List A)
    → map g (map f xs) ≡ map (λ x. g (f x)) xs
map-map g f [] = refl
map-map g f (x ∷ xs) = ap (◌∷◌ (g (f x))) (map-map g f xs)

module _ (hm : HashMap ℤ ℕ) where
  build_topology-Represents :
      (chunks : List ℤ) (ordered : List Edge) (dst_ids : List ℤ) (t : Topology)
      → build_topology hm chunks ordered dst_ids ≡ ok t
      → (Represents t ordered) × (t.dst_ids ≡ dst_ids)
  unfolding build_topology
  build_topology-Represents chunks ordered dst_ids t h =
      let dst_row = emplace_rows hm hm.empty 0 dst_ids in
      let src_ids = without_rows hm dst_row (sorted_unique (map (λ (e : Edge). e.src) ordered)) in
      let tail_row = emplace_rows hm hm.empty (length dst_ids) src_ids in
      let (rows, found, rest) = >>=-eq-ok (traverse (edge_rows hm dst_row tail_row) ordered) _ h in
      let (dst_chunk, _, done) = >>=-eq-ok (traverse (read chunks) dst_ids) _ rest in
      let ends = edge_rows-ends hm dst_ids src_ids in
      rw (← ok_inj done) (
        record {
          sources =
              map-map _ _ rows
              ∙ map-traverse (edge_rows hm dst_row tail_row)
                  (λ r. get_elem? (dst_ids ++ src_ids) (r.0)) (λ e. some e.src)
                  (λ e r q. (ends e r q).0) ordered found;
          destinations =
              map-map _ _ rows
              ∙ map-traverse (edge_rows hm dst_row tail_row) (λ r. get_elem? dst_ids (r.1))
                  (λ e. some e.dst) (λ e r q. (ends e r q).1) ordered found;
          ids = refl;
          pointers = λ col le.
              accumulate-count_rows (length dst_ids) (map (λ (r : ℕ × ℕ). r.1) rows) col le;
        },
        refl,
      )

  -- Whenever the function returns, the slice's edges could be read, and the topology represents
  -- them, in an order sorted by chunk, destination and edge id.
  pub build_slice_topology_impl-Represents :
      (g : Graph) (eids : List ℤ) (full : Option (List ℤ)) (t : Topology)
      → build_slice_topology_impl hm g eids full ≡ ok t
      → (edges : List Edge) × (ordered : List Edge) × (traverse (read_edge g) eids ≡ ok edges)
        × (Perm ordered edges)
        × (IsSorted edge_less ordered)
        × (Represents t ordered)
  unfolding build_slice_topology_impl
  build_slice_topology_impl-Represents g eids full t h =
      let (edges, found, rest) = >>=-eq-ok (traverse (read_edge g) eids) _ h in
      let ordered = stable_sort edge_less edges in
      (
        edges,
        ordered,
        found,
        stable_sort-perm edge_less edges,
        stable_sort-IsSorted edge_less edge_less-IsStrictWeak edges,
        (build_topology-Represents g.node_to_chunk ordered
            (elim full [
              | some ids ↦ ids
              | none ↦ sorted_unique (map (λ (e : Edge). e.dst) ordered)
            ])
            t rest).0,
      )
