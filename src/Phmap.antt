-- ===== src/Phmap.antt =====
-- What the sources use of `phmap::flat_hash_map` and `phmap::flat_hash_set` (parallel_hashmap, a
-- third-party library): a parameter of the model, with the documented behaviour of its calls as
-- laws. Nothing is assumed of the order of iteration, which no function modelled here depends on.
pub mod Assoc
use mathlib.Core.Option
use starrygl_tmp.Prelude.{ℕ, suc, Option, none, some, Bool, true, false, ◌≡◌, ◌≢◌, ◌||◌}

pub record HashMap (K V : Type 0) : Type 1 where
  pub Map : Type 0
  pub empty : Map
  pub find : Map → K → Option V
  -- `emplace` keeps an entry that is there already
  pub emplace : Map → K → V → Map
  -- `m[k] = v`
  pub assign : Map → K → V → Map
  pub find-empty : (k : K) → find empty k ≡ none
  pub find-emplace_self :
      (m : Map) (k : K) (v : V) → find (emplace m k v) k ≡ some (Option.get_or (find m k) v)
  pub find-emplace_ne :
      (m : Map) (k : K) (v : V) (j : K) → k ≢ j → find (emplace m k v) j ≡ find m j
  pub find-assign_self : (m : Map) (k : K) (v : V) → find (assign m k v) k ≡ some v
  pub find-assign_ne : (m : Map) (k : K) (v : V) (j : K) → k ≢ j → find (assign m k v) j ≡ find m j

-- A set, by its membership test `count` and `insert`.
pub record HashSet (K : Type 0) : Type 1 where
  pub Elems : Type 0
  pub none_in : Elems
  pub has : Elems → K → Bool
  pub insert : Elems → K → Elems
  pub has-none_in : (k : K) → has none_in k ≡ false
  pub has-insert_self : (s : Elems) (k : K) → has (insert s k) k ≡ true
  pub has-insert_ne : (s : Elems) (k j : K) → k ≢ j → has (insert s k) j ≡ has s j
  pub size : Elems → ℕ
  pub size-none_in : size none_in ≡ 0
  pub size-insert_old : (s : Elems) (k : K) → has s k ≡ true → size (insert s k) ≡ size s
  pub size-insert_new : (s : Elems) (k : K) → has s k ≡ false → size (insert s k) ≡ suc (size s)
