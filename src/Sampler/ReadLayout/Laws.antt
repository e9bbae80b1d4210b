-- ===== src/Sampler/ReadLayout/Laws.antt =====
-- Through the read layout, each edge of the output finds its own distributed index.
use mathlib.Core.List.{Mem, Pairwise, mem-cons, mem-cons_self, mem-cons_of_mem, not-mem-nil}
use mathlib.Core.List.Perm
use mathlib.Core.Logic.Or
use mathlib.Core.Path.{subst}
use mathlib.Core.HLevel.{hedberg, ¬_prop}
use native.Mathlib.Bridge.{le_prop}
use native.Mathlib.Nat.{add-zero, zero-add}
use starrygl_tmp.Prelude.{
  ℕ, zero, suc, ◌+◌, ◌≤◌, ◌<◌, ℤ, pos, negsuc, ℤ-discrete, List, [], ◌∷◌, map, length, replicate,
  set, get_elem?, Option, none, some, ◌≡◌, ◌≢◌, refl, ap, sym, ◌∙◌, arith, length-replicate,
  length-set, get_elem?-set_self, get_elem?-set_ne,
}
use starrygl_tmp.Sort.{stable_sort}
use starrygl_tmp.Sort.Laws.{stable_sort-perm, length-stable_sort}
use starrygl_tmp.Sampler.Boundary.{entry}
use starrygl_tmp.Sampler.ReadLayout.{
  ReadItem, ReadLayout, read_less, read_items, read_item, scatter, layout_of, world_size_of,
  build_edge_read_layout,
}

some_inj : {A : Type 0} {a b : A} → some a ≡ some b → a ≡ b
some_inj h = cc

-- No two items have one position.
abbrev ArePlaced : List ReadItem → Type 0
ArePlaced = Pairwise (λ (a b : ReadItem). a.compute_pos ≢ b.compute_pos)

length-scatter :
    (out : List ℕ) (g : ℕ) (order : List ReadItem) → length (scatter out g order) ≡ length out
unfolding scatter
length-scatter out g [] = refl
length-scatter out g (x ∷ order) =
    length-scatter (set out x.compute_pos g) (suc g) order ∙ length-set out x.compute_pos g

-- A place that no item has keeps its value.
scatter-other :
    (out : List ℕ) (g p : ℕ) (order : List ReadItem)
    → ((x : ReadItem) → Mem x order → x.compute_pos ≢ p)
    → get_elem? (scatter out g order) p ≡ get_elem? out p
unfolding scatter
scatter-other out g p [] h = refl
scatter-other out g p (x ∷ order) h =
    scatter-other (set out x.compute_pos g) (suc g) p order (λ y m. h y (mem-cons_of_mem x m))
    ∙ get_elem?-set_ne out g (h x mem-cons_self)

-- Each item's place has the number of the item.
scatter-item :
    (out : List ℕ) (g k : ℕ) (order : List ReadItem) (x : ReadItem)
    → ArePlaced order
    → get_elem? order k ≡ some x
    → x.compute_pos < length out
    → get_elem? (scatter out g order) x.compute_pos ≡ some (g + k)
unfolding scatter
scatter-item out g k [] x d e lt = cc
scatter-item out g zero (y ∷ order) x (Pairwise.cons apart d) e lt =
    let same : y ≡ x = cc in
    scatter-other (set out y.compute_pos g) (suc g) x.compute_pos order
      (λ z m q. apart z m (ap (λ (x : ReadItem). x.compute_pos) same ∙ sym q))
    ∙ ap (λ (y : ReadItem). get_elem? (set out y.compute_pos g) x.compute_pos) same
    ∙ get_elem?-set_self out x.compute_pos g lt
    ∙ ap some (omega arith)
scatter-item out g (suc k) (y ∷ order) x (Pairwise.cons apart d) e lt =
    scatter-item (set out y.compute_pos g) (suc g) k order x d e
      (omega (arith, length-set out y.compute_pos g))
    ∙ ap some (omega arith)

read_item-some :
    (i : ℕ) (o : Option ℤ) (r : Option (List ReadItem)) (items : List ReadItem)
    → read_item i o r ≡ some items
    → (index : ℤ) × (rest : List ReadItem) × (o ≡ some index)
      × (r ≡ some rest)
      × (record { compute_pos = i; index = index } ∷ rest ≡ items)
unfolding read_item
read_item-some i none r items h = cc
read_item-some i (some index) none items h = cc
read_item-some i (some index) (some rest) items h = (index, rest, refl, refl, cc)

range_prop : (i n : ℕ) (x : ReadItem) → IsProp ((i ≤ x.compute_pos) × (x.compute_pos < n))
range_prop i n x = hlevel (le_prop)

-- The items of `gids` stand at the positions from `i` on, in order, with the indices of the edges.
read_items-placed :
    (dist : List ℤ) (i : ℕ) (gids : List ℤ) (items : List ReadItem)
    → read_items dist i gids ≡ some items
    → (length items ≡ length gids)
      × ArePlaced items
      × ((x : ReadItem) → Mem x items → (i ≤ x.compute_pos) × (x.compute_pos < i + length gids))
      × ((k : ℕ) (gid : ℤ)
          → get_elem? gids k ≡ some gid
          → (index : ℤ) × (entry dist gid ≡ some index)
            × Mem (record { compute_pos = i + k; index = index }) items)
unfolding read_items
read_items-placed dist i [] items h =
    subst
      (λ (items : List ReadItem).
        (length items ≡ 0)
        × ArePlaced items
        × ((x : ReadItem) → Mem x items → (i ≤ x.compute_pos) × (x.compute_pos < i + 0))
        × ((k : ℕ) (gid : ℤ)
            → get_elem? [] k ≡ some gid
            → (index : ℤ) × (entry dist gid ≡ some index)
              × Mem (record { compute_pos = i + k; index = index }) items))
      (some_inj h) (refl, Pairwise.nil, λ x m. absurd (not-mem-nil m), λ k gid e. cc)
read_items-placed dist i (gid ∷ gids) items h =
    let (index, rest, e, f, same) =
      read_item-some i (entry dist gid) (read_items dist (suc i) gids) items h in
    let (size, placed, inside, each) = read_items-placed dist (suc i) gids rest f in
    let head : ReadItem = record { compute_pos = i; index = index } in
    subst
      (λ (items : List ReadItem).
        (length items ≡ suc (length gids))
        × ArePlaced items
        × ((x : ReadItem)
            → Mem x items
            → (i ≤ x.compute_pos) × (x.compute_pos < i + suc (length gids)))
        × ((k : ℕ) (g : ℤ)
            → get_elem? (gid ∷ gids) k ≡ some g
            → (index : ℤ) × (entry dist g ≡ some index)
              × Mem (record { compute_pos = i + k; index = index }) items))
      same
      (
        ap suc size,
        Pairwise.cons (λ y m q. absurd (omega (arith, (inside y m).0))) placed,
        λ x m.
            Or.elim (range_prop i (i + suc (length gids)) x) (mem-cons.0 m)
              (λ here.
                let at = ap (λ (x : ReadItem). x.compute_pos) here in (omega arith, omega arith))
              (λ later. (omega (arith, (inside x later).0), omega (arith, (inside x later).1))),
        item e each,
      )
  where
    item :
        {index : ℤ} {rest : List ReadItem}
        → entry dist gid ≡ some index
        → ((k : ℕ) (g : ℤ)
            → get_elem? gids k ≡ some g
            → (index : ℤ) × (entry dist g ≡ some index)
              × Mem (record { compute_pos = suc i + k; index = index }) rest)
        → (k : ℕ) (g : ℤ) → get_elem? (gid ∷ gids) k ≡ some g
        → (index' : ℤ) × (entry dist g ≡ some index')
          × Mem
              (record { compute_pos = i + k; index = index' })
              (record { compute_pos = i; index = index } ∷ rest)
    item {index} {rest} e each zero g h =
        let same : gid ≡ g = cc in (index, rw (← same) e, rw (add-zero i) mem-cons_self)
    item {index} {rest} e each (suc k) g h =
        let (index', found, m) = each k g h in
        let shift : suc i + k ≡ i + suc k = omega arith in
        (
          index',
          found,
          mem-cons_of_mem _
              (subst (λ p. Mem (record { compute_pos = p; index = index' }) rest) shift m),
        )

Mem-elim :
    {A : Type 0} (P : Type 0)
    → IsProp P
    → (xs : List A) (x : A) → Mem x xs
    → ((k : ℕ) → get_elem? xs k ≡ some x → P)
    → P
Mem-elim P prop [] x m f = absurd (not-mem-nil m)
Mem-elim P prop (y ∷ ys) x m f =
    Or.elim prop (mem-cons.0 m) (λ here. f 0 (ap some (sym here)))
      (λ later. Mem-elim P prop ys x later (λ k. f (suc k)))

get_elem?-map :
    {A B : Type 0} (f : A → B) (xs : List A) (k : ℕ) {x : A}
    → get_elem? xs k ≡ some x
    → get_elem? (map f xs) k ≡ some (f x)
get_elem?-map f [] k h = cc
get_elem?-map f (y ∷ ys) zero h = cc
get_elem?-map f (y ∷ ys) (suc k) h = get_elem?-map f ys k h

-- `edge_read_index[compute_to_edge_feature[i]]`
unfoldable pub read_back : ReadLayout → ℕ → Option ℤ
read_back l i = elim (get_elem? l.compute_to_edge_feature i) [
  | none ↦ none
  | some j ↦ get_elem? l.edge_read_index j
]

read_back-layout_of :
    (world_size : ℕ) (order : List ReadItem) (k : ℕ) (x : ReadItem)
    → ArePlaced order
    → get_elem? order k ≡ some x
    → x.compute_pos < length order
    → read_back (layout_of world_size order) x.compute_pos ≡ some x.index
unfolding read_back layout_of
read_back-layout_of world_size order k x d e lt =
    let at : get_elem? (scatter (replicate (length order) 0) 0 order) x.compute_pos ≡ some k =
      scatter-item (replicate (length order) 0) 0 k order x d e
        (omega (arith, length-replicate (length order) (zero)))
      ∙ ap some (zero-add k) in
    ap (λ o. elim o [ none ↦ none | some j ↦ get_elem? (map (λ (x : ReadItem). x.index) order) j ])
      at
    ∙ get_elem?-map (λ (x : ReadItem). x.index) order k e

entry-nil : (gid : ℤ) {index : ℤ} → entry [] gid ≡ some index → ⊥
unfolding entry
entry-nil (pos n) h = absurd (cc)
entry-nil (negsuc n) h = absurd (cc)

Option-discrete : Discrete (Option ℤ)
Option-discrete none none = yes refl
Option-discrete none (some b) = no (λ e. cc)
Option-discrete (some a) none = no (λ e. cc)
Option-discrete (some a) (some b) = elim (ℤ-discrete a b) [
  | yes e ↦ yes (ap some e)
  | no n ↦ no (λ e. n (some_inj e))
]

build_edge_read_layout-items :
    (index : ℤ) (dist : List ℤ) (world_size : ℤ) (edge_gids : List ℤ) (items : List ReadItem)
    → read_items (index ∷ dist) 0 edge_gids ≡ some items
    → build_edge_read_layout (index ∷ dist) world_size edge_gids
      ≡ layout_of (world_size_of world_size (index ∷ dist)) (stable_sort read_less items)
unfolding build_edge_read_layout
build_edge_read_layout-items index dist world_size edge_gids items h =
    rw (h, build_edge_read_layout)

-- If every edge of the output has a distributed index, the read layout has each edge's own index at
-- the place that `compute_to_edge_feature` gives for the edge.
pub build_edge_read_layout-read_back :
    (dist : List ℤ) (world_size : ℤ) (edge_gids : List ℤ) (items : List ReadItem)
    → read_items dist 0 edge_gids ≡ some items
    → (i : ℕ) (gid : ℤ) → get_elem? edge_gids i ≡ some gid
    → read_back (build_edge_read_layout dist world_size edge_gids) i ≡ entry dist gid
unfolding build_edge_read_layout
build_edge_read_layout-read_back [] world_size [] items h i gid e = cc
build_edge_read_layout-read_back [] world_size (g ∷ gids) items h i gid e =
    let (index, _, found, _, _) = read_item-some 0 (entry [] g) (read_items [] 1 gids) items h in
    absurd (entry-nil g found)
build_edge_read_layout-read_back (index ∷ dist) world_size edge_gids items h i gid e =
    let (size, placed, inside, each) = read_items-placed (index ∷ dist) 0 edge_gids items h in
    let (own, found, m) = each i gid e in
    let order = stable_sort read_less items in
    let perm = stable_sort-perm read_less items in
    let x : ReadItem = record { compute_pos = 0 + i; index = own } in
    let layout = layout_of (world_size_of world_size (index ∷ dist)) order in
    let goal : read_back layout (0 + i) ≡ some own =
      Mem-elim (read_back layout (0 + i) ≡ some own)
        (hedberg Option-discrete (read_back layout (0 + i)) (some own)) order x
        ((Perm.mem_iff perm).1 m)
        (λ k at.
          read_back-layout_of (world_size_of world_size (index ∷ dist)) order k x
            (Perm.pairwise (λ a b. ¬_prop) (λ a b n q. n (sym q)) (Perm.symm perm) placed) at
            (omega (arith, (inside x m).1, length-stable_sort read_less items, size))) in
    ap (λ l. read_back l i) (build_edge_read_layout-items index dist world_size edge_gids items h)
    ∙ subst (λ p. read_back layout p ≡ some own) (zero-add i) goal
    ∙ sym found
