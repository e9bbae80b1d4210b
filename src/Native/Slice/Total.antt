-- ===== src/Native/Slice/Total.antt =====
-- A slice whose entries can be read has a topology.
use mathlib.Core.List.{Mem, mem-cons, mem-cons_self, mem-cons_of_mem, not-mem-nil, Mem-prop}
use mathlib.Core.List.Perm
use mathlib.Core.Logic.Or
use mathlib.Core.Option
use starrygl_tmp.Prelude.{
  read, ℕ, suc, ℤ, ltb_ℤ, ℤ-discrete, List, [], ◌∷◌, map, length, none, some, ◌≡◌, ap, sym, ◌∙◌,
  Option-cases, inl, inr, Result, ok, IsOk, IsOk-prop, IsOk-of_eq, IsOk→value, traverse, ◌>>=◌,
  >>=-eq-ok, ok_inj, traverse-IsOk, index_of, if_pos, if_neg,
}
use starrygl_tmp.Phmap.{HashMap}
use starrygl_tmp.Sort.{stable_sort}
use starrygl_tmp.Sort.Laws.{stable_sort-perm, unique_runs-mem, mem-unique_runs}
use starrygl_tmp.Native.Slice.{
  Edge, Graph, read_edge, edge_less, sorted_unique, emplace_rows, without_rows, edge_rows,
  build_topology, build_slice_topology_impl,
}
use starrygl_tmp.Native.Slice.Rows.{find-dst_row, find-emplace_rows}

Mem-index_of : (v : ℤ) (xs : List ℤ) → Mem v xs → (i : ℕ) × (index_of ℤ-discrete v xs ≡ some i)
unfolding index_of
Mem-index_of v [] m = absurd (not-mem-nil m)
Mem-index_of v (x ∷ xs) m = elim (ℤ-discrete x v) [
  | yes e ↦ (0, if_pos (ℤ-discrete x v) e _ _)
  | no n ↦
      let (i, h) =
        Mem-index_of v xs
          (Or.elim Mem-prop (mem-cons.0 m) (λ same. absurd (n (sym same))) (λ later. later)) in
      (
        suc i,
        if_neg (ℤ-discrete x v) n (some 0) (Option.map suc (index_of ℤ-discrete v xs))
            ∙ ap (Option.map suc) h,
      )
]

Mem-sorted_unique : (v : ℤ) (xs : List ℤ) → Mem v xs → Mem v (sorted_unique xs)
unfolding sorted_unique
Mem-sorted_unique v xs m =
    unique_runs-mem ℤ-discrete (stable_sort ltb_ℤ xs)
      ((Perm.mem_iff (stable_sort-perm ltb_ℤ xs)).1 m)

mem-sorted_unique : (xs : List ℤ) (v : ℤ) → Mem v (sorted_unique xs) → Mem v xs
unfolding sorted_unique
mem-sorted_unique xs v m =
    (Perm.mem_iff (stable_sort-perm ltb_ℤ xs)).0
      (mem-unique_runs ℤ-discrete (stable_sort ltb_ℤ xs) m)

Mem-map : {A B : Type 0} (f : A → B) (x : A) (xs : List A) → Mem x xs → Mem (f x) (map f xs)
Mem-map f x [] m = absurd (not-mem-nil m)
Mem-map f x (y ∷ ys) m =
    Or.elim Mem-prop (mem-cons.0 m) (λ same. rw same mem-cons_self)
      (λ later. mem-cons_of_mem (f y) (Mem-map f x ys later))

module _ (hm : HashMap ℤ ℕ) where
  without_rows-none :
      (m : hm.Map) (x : ℤ) (xs : List ℤ)
      → hm.find m x ≡ none
      → without_rows hm m (x ∷ xs) ≡ x ∷ without_rows hm m xs
  unfolding without_rows
  without_rows-none m x xs e = rw (e, without_rows)

  without_rows-some :
      (m : hm.Map) (x : ℤ) (xs : List ℤ) {r : ℕ}
      → hm.find m x ≡ some r
      → without_rows hm m (x ∷ xs) ≡ without_rows hm m xs
  unfolding without_rows
  without_rows-some m x xs e = rw (e, without_rows)

  Mem-without_rows :
      (m : hm.Map) (v : ℤ) (xs : List ℤ)
      → hm.find m v ≡ none
      → Mem v xs
      → Mem v (without_rows hm m xs)
  Mem-without_rows m v [] h i = absurd (not-mem-nil i)
  Mem-without_rows m v (x ∷ xs) h i = elim (Option-cases (hm.find m x)) [
    | inl e ↦ rw (without_rows-none m x xs e) (
        Or.elim Mem-prop (mem-cons.0 i) (λ same. rw same mem-cons_self)
          (λ later. mem-cons_of_mem x (Mem-without_rows m v xs h later)))
    | inr (r, e) ↦ rw (without_rows-some m x xs e) (
        Or.elim Mem-prop (mem-cons.0 i) (λ same. cc (h, e, ap (hm.find m) same))
          (λ later. Mem-without_rows m v xs h later))
  ]

  -- An edge whose ends are listed has its rows.
  edge_rows-IsOk :
      (dst_ids nodes : List ℤ) (e : Edge)
      → Mem e.dst dst_ids
      → Mem e.src nodes
      → IsOk (
          edge_rows hm
            (emplace_rows hm hm.empty 0 dst_ids)
            (emplace_rows hm hm.empty
              (length dst_ids)
              (without_rows hm (emplace_rows hm hm.empty 0 dst_ids) nodes))
            e)
  unfolding edge_rows
  edge_rows-IsOk dst_ids nodes e md ms =
      let dst_row = emplace_rows hm hm.empty 0 dst_ids in
      let (d, at_dst) = Mem-index_of e.dst dst_ids md in
      rw (find-dst_row hm dst_ids e.dst ∙ at_dst) (elim (Option-cases (hm.find dst_row e.src)) [
        | inr (s, h) ↦ rw h tt
        | inl h ↦
            let (i, at_tail) =
              Mem-index_of e.src (without_rows hm dst_row nodes)
                (Mem-without_rows dst_row e.src nodes h ms) in
            rw
              (
                h,
                find-emplace_rows hm (length dst_ids) (without_rows hm dst_row nodes) e.src,
                at_tail,
              )
              tt
      ])

  build_topology-IsOk :
      (chunks : List ℤ) (ordered : List Edge) (dst_ids : List ℤ)
      → ((e : Edge) → Mem e ordered → Mem e.dst dst_ids)
      → ((d : ℤ) → Mem d dst_ids → IsOk (read chunks d))
      → IsOk (build_topology hm chunks ordered dst_ids)
  unfolding build_topology
  build_topology-IsOk chunks ordered dst_ids listed readable =
      let nodes = sorted_unique (map (λ (e : Edge). e.src) ordered) in
      let (rows, h) = IsOk→value _ (
        traverse-IsOk _ ordered (λ e m.
          edge_rows-IsOk dst_ids nodes e (listed e m)
            (Mem-sorted_unique e.src _ (Mem-map (λ (e : Edge). e.src) e ordered m)))) in
      let (dst_chunk, k) = IsOk→value _ (traverse-IsOk (read chunks) dst_ids readable) in
      rw (h, ◌>>=◌, k) tt

traverse-each :
    {A B : Type 0} (f : A → Result B) (P : B → Type 0)
    → ((y : B) → IsProp (P y))
    → ((x : A) (y : B) → f x ≡ ok y → P y)
    → (xs : List A) {ys : List B} → traverse f xs ≡ ok ys
    → (y : B) → Mem y ys
    → P y
unfolding traverse
traverse-each f P prop each [] e y m = absurd (not-mem-nil (rw (← ok_inj e) at m))
traverse-each f P prop each (x ∷ xs) {ys} e y m =
    let (z, here, rest) = >>=-eq-ok (f x) _ e in
    let (zs, later, done) = >>=-eq-ok (traverse f xs) _ rest in
    Or.elim (prop y) (mem-cons.0 (rw (← ok_inj done) at m)) (λ same. rw same (each x z here))
      (λ within. traverse-each f P prop each xs later y within)

map-each :
    {A B : Type 0} (f : A → B) (P : B → Type 0)
    → ((y : B) → IsProp (P y))
    → (xs : List A) → ((x : A) → Mem x xs → P (f x))
    → (y : B) → Mem y (map f xs)
    → P y
map-each f P prop [] each y m = absurd (not-mem-nil m)
map-each f P prop (x ∷ xs) each y m =
    Or.elim (prop y) (mem-cons.0 m) (λ same. rw same (each x mem-cons_self))
      (λ within. map-each f P prop xs (λ z i. each z (mem-cons_of_mem x i)) y within)

read_edge-chunk :
    (g : Graph) (eid : ℤ) (e : Edge) → read_edge g eid ≡ ok e → IsOk (read g.node_to_chunk e.dst)
unfolding read_edge
read_edge-chunk g eid e h =
    let (s, hs, h1) = >>=-eq-ok (read g.src eid) _ h in
    let (d, hd, h2) = >>=-eq-ok (read g.dst eid) _ h1 in
    let (i, hi, h3) = >>=-eq-ok (read g.edge_ids eid) _ h2 in
    let (c, hc, h4) = >>=-eq-ok (read g.node_to_chunk d) _ h3 in rw (← ok_inj h4) (IsOk-of_eq hc)

-- Where the entries of each edge of the slice are inside the arrays and the caller does not fix the
-- destination ids, the function returns: it neither throws nor reads outside an array.
pub build_slice_topology_impl-IsOk :
    (hm : HashMap ℤ ℕ) (g : Graph) (eids : List ℤ)
    → ((eid : ℤ) → Mem eid eids → IsOk (read_edge g eid))
    → IsOk (build_slice_topology_impl hm g eids none)
unfolding build_slice_topology_impl
build_slice_topology_impl-IsOk hm g eids readable =
    let (edges, h) = IsOk→value _ (traverse-IsOk (read_edge g) eids readable) in
    let ordered = stable_sort edge_less edges in
    let dsts = map (λ (e : Edge). e.dst) ordered in
    rw (h, ◌>>=◌)
      (build_topology-IsOk hm g.node_to_chunk ordered (sorted_unique dsts)
        (λ e m. Mem-sorted_unique e.dst dsts (Mem-map (λ (e : Edge). e.dst) e ordered m))
        (λ d m.
          map-each (λ (e : Edge). e.dst) (λ d. IsOk (read g.node_to_chunk d)) (λ d. IsOk-prop _)
            ordered
            (λ e i.
              traverse-each (read_edge g) (λ e. IsOk (read g.node_to_chunk e.dst))
                (λ e. IsOk-prop _) (read_edge-chunk g) eids h e
                ((Perm.mem_iff (stable_sort-perm edge_less edges)).0 i))
            d (mem-sorted_unique dsts d m)))
