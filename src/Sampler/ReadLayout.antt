-- ===== src/Sampler/ReadLayout.antt =====
-- sampler.h: `set_edge_read_dist_index`, `build_edge_read_layout` and `count_sampled_local_remote`. A
-- distributed index holds a part in its bits from 50 on and a location in its bits below 48.
pub mod Laws
use starrygl_tmp.Prelude.{
  ℕ, zero, suc, ◌+◌, ◌-◌, ◌/◌, ◌%◌, ◌^◌, ltb, ◌==◌, max, ℤ, pos, negsuc, ltb_ℤ, ℤ-discrete, Bool,
  true, false, not, ◌||◌, List, [], ◌∷◌, map, length, replicate, set, get_elem?, Option, none, some,
  if◌then◌else◌, ite,
}
use mathlib.Core.Option
use starrygl_tmp.Csc.{count_rows, accumulate}
use starrygl_tmp.Sort.{stable_sort}
use starrygl_tmp.Sampler.Boundary.{Parts, entry}

-- `(index >> 50) & 8191`, by the two's complement of a negative index.
unfoldable pub part_id : ℤ → ℕ
part_id (pos n) = (n / 2 ^ 50) % 8192
part_id (negsuc n) = 8191 - (n / 2 ^ 50) % 8192

-- `index & ((1LL << 48) - 1)`
unfoldable pub location : ℤ → ℕ
location (pos n) = n % 2 ^ 48
location (negsuc n) = 2 ^ 48 - 1 - n % 2 ^ 48

-- An edge of the output: its position, and its distributed index.
pub record ReadItem : Type 0 where
  pub compute_pos : ℕ
  pub index : ℤ

-- The comparison of `sort`: by part, location and position.
unfoldable pub read_less : ReadItem → ReadItem → Bool
unfolding part_id location
read_less a b =
    if part_id a.index == part_id b.index
    then (if location a.index == location b.index
        then ltb a.compute_pos b.compute_pos
        else ltb (location a.index) (location b.index))
    else ltb (part_id a.index) (part_id b.index)

-- One turn of the loop that collects the indices; the rest is what follows.
unfoldable pub read_item : ℕ → Option ℤ → Option (List ReadItem) → Option (List ReadItem)
read_item i none rest = none
read_item i (some index) none = none
read_item i (some index) (some items) = some (record { compute_pos = i; index = index } ∷ items)

-- The items from the position `i` on; none if an edge has no distributed index.
unfoldable pub read_items : List ℤ → ℕ → List ℤ → Option (List ReadItem)
unfolding entry read_item
read_items dist i [] = some []
read_items dist i (gid ∷ gids) = read_item i (entry dist gid) (read_items dist (suc i) gids)

-- One more than the greatest part.
unfoldable pub count_parts : ℕ → List ℤ → ℕ
unfolding part_id
count_parts world_size [] = world_size
count_parts world_size (index ∷ dist) = count_parts (max world_size (suc (part_id index))) dist

-- The number of parts, as far as it is known; a `world_size` that is 0 or less is not.
unfoldable pub world_size_of : ℤ → List ℤ → ℕ
unfolding count_parts
world_size_of (pos (suc n)) dist = suc n
world_size_of (pos zero) dist = max 1 (count_parts 0 dist)
world_size_of (negsuc n) dist = max 1 (count_parts 0 dist)

-- `compute_to_edge_feature[compute_pos] = grouped_pos`, from the position `grouped_pos` on.
unfoldable pub scatter : List ℕ → ℕ → List ReadItem → List ℕ
scatter out grouped_pos [] = out
scatter out grouped_pos (x ∷ order) =
    scatter (set out x.compute_pos grouped_pos) (suc grouped_pos) order

pub record ReadLayout : Type 0 where
  pub edge_read_index : List ℤ
  pub edge_read_ptr : List ℕ
  pub compute_to_edge_feature : List ℕ

abbrev pub no_layout : ReadLayout
no_layout = record { edge_read_index = []; edge_read_ptr = []; compute_to_edge_feature = [] }

-- The layout of the items in the order in which they are read.
unfoldable pub layout_of : ℕ → List ReadItem → ReadLayout
unfolding part_id count_rows accumulate scatter
layout_of world_size order = record {
  edge_read_index = map (λ (x : ReadItem). x.index) order;
  edge_read_ptr =
      accumulate 0
        (count_rows (replicate (suc world_size) 0) (map (λ (x : ReadItem). part_id x.index) order));
  compute_to_edge_feature = scatter (replicate (length order) 0) 0 order;
}

-- `dist` is `edge_read_dist_index`; if it is empty, the layout stays as it is, which is empty.
unfoldable pub build_edge_read_layout : List ℤ → ℤ → List ℤ → ReadLayout
unfolding world_size_of read_items read_less stable_sort layout_of
build_edge_read_layout [] world_size edge_gids = no_layout
build_edge_read_layout (index ∷ dist) world_size edge_gids =
    elim (read_items (index ∷ dist) 0 edge_gids) [
      | none ↦ no_layout
      | some items ↦
          layout_of (world_size_of world_size (index ∷ dist)) (stable_sort read_less items)
    ]

-- How many of the ids are of the local part, and how many are not.
unfoldable pub count_local : List ℤ → ℤ → List ℤ → ℕ × ℕ
unfolding entry
count_local owners local_part [] = (0, 0)
count_local owners local_part (gid ∷ gids) =
    let (near, far) = count_local owners local_part gids in
    elim (entry owners gid) [
      | none ↦ (near, suc far)
      | some owner ↦ ite (ℤ-discrete owner local_part) (suc near, far) (near, suc far)
    ]

-- What is added to `sampler_local_nodes`, `sampler_remote_nodes`, `sampler_local_edges` and
-- `sampler_remote_edges`.
unfoldable pub count_sampled_local_remote : Parts → List ℤ → List ℤ → (ℕ × ℕ) × (ℕ × ℕ)
unfolding count_local
count_sampled_local_remote p node_gids edge_gids =
    if ltb_ℤ p.local_part (pos 0) || length p.node_part == 0 || length p.part == 0
    then ((length node_gids, 0), (length edge_gids, 0))
    else (count_local p.node_part p.local_part node_gids, count_local p.part p.local_part edge_gids)
