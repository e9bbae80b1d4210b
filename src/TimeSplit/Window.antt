-- ===== src/TimeSplit/Window.antt =====
-- split/time_split.cpp: what the edges of one window add to its staleness. The three functions of the
-- file that go through the edges of a window have the same body for an edge.
pub mod Laws
use starrygl_tmp.Prelude.{
  ℕ, zero, suc, ◌+◌, ℤ, pos, negsuc, ℤ-discrete, ite, Bool, true, false, not, ◌&&◌, List, [], ◌∷◌,
  ◌++◌, length, Option, none, some, Result, ok, err, fault, ◌>>=◌, fetch, if◌then◌else◌,
}
use starrygl_tmp.Speed.Doubles.{Doubles, same_double}
use starrygl_tmp.Speed.State.{nought}

-- `std::unordered_map` from node numbers: the newest entry stands first.
abbrev pub Table : Type 0 → Type 0
Table V = List (ℤ × V)

module _ {V : Type 0} where
  unfoldable pub find : Table V → ℤ → Option V
  find [] j = none
  find ((k, v) ∷ m) j = ite (ℤ-discrete k j) (some v) (find m j)

  -- `m.count(k)`
  abbrev pub is_found : Option V → Bool
  is_found none = false
  is_found (some v) = true

  -- `m[k] = v`
  abbrev pub assign : Table V → ℤ → V → Table V
  assign m k v = (k, v) ∷ m

  -- `m.emplace(k, v)`
  abbrev pub emplace : Table V → ℤ → V → Table V
  emplace m k v = if is_found (find m k) then m else assign m k v

  -- `for (auto& [k, v] : from) m[k] = v`
  unfoldable pub assign_all : Table V → Table V → Table V
  assign_all [] m = m
  assign_all ((k, v) ∷ from) m = assign (assign_all from m) k v

  -- A missing entry is made by `m[k]`.
  abbrev pub found_or : V → Option V → V
  found_or v none = v
  found_or v (some u) = u

-- `edge_indices.back()`
unfoldable pub back : List ℕ → Result ℕ
back [] = err fault
back (x ∷ []) = ok x
back (x ∷ y ∷ xs) = back (y ∷ xs)

pub record TimedEdge (D : Type 0) : Type 0 where
  pub src : ℤ
  pub dst : ℤ
  pub time : D

pub record Window (D : Type 0) : Type 0 where
  pub dic : Table (List ℕ)
  pub cache : Table D
  pub stale : D

module _ {D : Type 0} where
  -- The nodes of the edges, each with the time `t`.
  unfoldable first_times : D → List (TimedEdge D) → Table D → Table D
  unfolding find
  first_times t [] m = m
  first_times t (e ∷ edges) m = first_times t edges (emplace (emplace m e.src t) e.dst t)

  -- `time_dic`: every node has the time of the first edge.
  unfoldable pub start_times : List (TimedEdge D) → Table D
  unfolding first_times
  start_times [] = []
  start_times (e ∷ edges) = first_times e.time (e ∷ edges) []

module _ {D : Type 0} (d : Doubles D) where
  -- `std::clamp`
  abbrev pub clamp : D → D → D → D
  clamp v low high = if d.lt v low then low else if d.lt high v then high else v

  unfoldable pub get_staleness : D → D → D → ℕ → D → D → D
  get_staleness tlast tnow tbatch dic_size alpha beta =
      if same_double d (d.sub tnow tlast) (nought d)
      then nought d
      else (let raw_diff = d.sub tnow tbatch in
          let time_diff = if d.lt (d.abs raw_diff) d.micro then d.micro else raw_diff in
          let exp_arg =
            clamp (d.div (d.sub tlast tbatch) time_diff) (d.of_int (negsuc 99))
              (d.of_int (pos 100)) in
          let dic_arg = d.min (d.mul d.hundredth (d.of_int (pos dic_size))) (d.of_int (pos 100)) in
          let coeff = d.add alpha (d.mul (d.of_int (pos 2)) beta) in
          d.add (d.mul coeff (d.exp exp_arg)) (d.mul coeff (d.exp dic_arg)))

  unfoldable pub get_aggloss : ℤ → ℤ → Table (List ℕ) → D → D
  unfolding find
  get_aggloss src dst dic aggl =
      let once = if is_found (find dic src) then d.add (nought d) aggl else nought d in
      if is_found (find dic dst) then d.add once aggl else once

  abbrev pub no_edges : Window D
  no_edges = record { dic = []; cache = []; stale = nought d }

  module _ (edges : List (TimedEdge D)) (seg_start : ℕ) (alpha beta : D) (time_dic : Table D) where
    -- `dic[node].edge_indices.push_back(x)`
    unfoldable pub push : ℤ → ℕ → Window D → Window D
    unfolding find
    push node x w = record w { dic = assign w.dic node (found_or [] (find w.dic node) ++ x ∷ []) }

    -- `update_node` and `try_append`
    unfoldable pub try_append : D → ℕ → ℤ → Window D → Result (Window D)
    unfolding find back fetch get_staleness push
    try_append t x node w = elim (find w.dic node) [
      | none ↦ ok (push node x w)
      | some indices ↦ do
        last ← back indices
        e ← fetch edges (seg_start + last)
        let more =
            get_staleness e.time t (found_or (nought d) (find time_dic node)) (length indices) alpha
              beta
        ok (
            if same_double d (d.sub t e.time) (nought d)
            then w
            else push node x (record w { stale = d.add w.stale more }))
    ]

    -- The nodes of an edge. Where both are in the window and differ, the second is read as it was before,
    -- since only the first is changed.
    unfoldable pub visit_nodes : ℤ → ℤ → D → ℕ → Window D → Result (Window D)
    unfolding find push try_append
    visit_nodes s r t x w =
        if not (is_found (find w.dic s)) && not (is_found (find w.dic r))
        then ok (push r x (push s x w))
        else if not (is_found (find w.dic s))
        then (do w' ← try_append t x r w; ok (push s x w'))
        else if not (is_found (find w.dic r))
        then (do w' ← try_append t x s w; ok (push r x w'))
        else ite (ℤ-discrete s r) (try_append t x s w)
            (do w' ← try_append t x s w; try_append t x r w')

    unfoldable pub visit_edge : D → ℕ → Window D → Result (Window D)
    unfolding fetch get_aggloss visit_nodes
    visit_edge aggl x w = do
      e ← fetch edges (seg_start + x)
      let seen = assign (assign w.cache e.src e.time) e.dst e.time
      let loss = get_aggloss e.src e.dst w.dic aggl
      visit_nodes e.src e.dst e.time x (record w { cache = seen; stale = d.add w.stale loss })
