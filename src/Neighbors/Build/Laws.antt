-- ===== src/Neighbors/Build/Laws.antt =====
-- What `get_neighbors` builds: the row of a node has the entries of the edges into it, in the order
-- of the edges.
use mathlib.Core.Option
use mathlib.Core.Path.{subst}
use starrygl_tmp.Prelude.{
  ℕ, zero, suc, ◌-◌, ◌<◌, ◌≤◌, ℤ, pos, negsuc, Bool, List, [], ◌∷◌, ◌++◌, map, length, replicate,
  set, get_or, Option, none, some, ok, ◌>>=◌, AreIndices, row_of, picked, push_all-rows,
  length-replicate, get_or-replicate, ◌≡◌, refl, ap, sym, ◌∙◌, arith, ℕ_discrete, ℤ-discrete,
  get_elem?-of-lt, length-set, get_or-set_self, get_or-set_ne, inl, inr, if◌then◌else◌,
  Option-cases, >>=-eq-ok, ok_inj,
}
use starrygl_tmp.Phmap.{HashMap, HashSet}
use starrygl_tmp.Neighbors.Block.{TemporalNeighborBlock}
use starrygl_tmp.Neighbors.Build.{
  Edges, optional_rows, index_edges, inverted_rows, set_of, has_value, build_neighbors,
  get_neighbors,
}

-- An optional array has an entry for each edge.
abbrev pub IsLong : {A : Type 0} → ℕ → Option (List A) → Type 0
IsLong n none = Unit {0}
IsLong n (some xs) = n ≤ length xs

-- The arrays are complete, and the destinations are nodes.
pub record AreEdges {W : Type 0} (x : Edges W) (num_nodes : ℕ) : Type 0 where
  pub inside : AreIndices (length x.row) num_nodes x.col
  pub eid : IsLong (length x.row) x.eid
  pub dist_eid : IsLong (length x.row) x.dist_eid
  pub edge_weight : IsLong (length x.row) x.edge_weight
  pub time : IsLong (length x.row) x.time

-- The rows hold the entries of an optional array; without the array there are no rows.
abbrev pub AreRowsOf : {A : Type 0} → ℕ → List ℤ → Option (List A) → List (List A) → Type 0
AreRowsOf n col none rows = rows ≡ []
AreRowsOf n col (some xs) rows = (v : ℕ) → row_of rows v ≡ picked n (pos v) col xs

optional_rows-AreRowsOf :
    {A : Type 0} (n num_nodes : ℕ) (col : List ℤ) (xs : Option (List A))
    → AreIndices n num_nodes col
    → IsLong n xs
    → (rows : List (List A)) × (optional_rows n num_nodes col xs ≡ ok rows)
      × AreRowsOf n col xs rows
unfolding optional_rows
optional_rows-AreRowsOf n num_nodes col none inside long = ([], refl, refl)
optional_rows-AreRowsOf {A = A} n num_nodes col (some xs) inside long =
    let (rows, done, _, each) =
      push_all-rows n (replicate num_nodes []) col xs
        (rw (length-replicate {A = List A} num_nodes []) inside) long in
    (
      rows,
      done,
      λ v. each v ∙ ap (λ r. r ++ picked n (pos v) col xs) (get_or-replicate num_nodes v []),
    )

module _ (hm : HashMap ℤ ℕ) where
  abbrev pub index_of_node : List hm.Map → ℕ → hm.Map
  index_of_node index v = get_or index v hm.empty

  -- Every key of the node's index leads to the last neighbour.
  abbrev pub IsLast : List hm.Map → List (List ℤ) → ℕ → Type 0
  IsLast index neighbors v =
      (k : ℤ) (i : ℕ)
      → hm.find (index_of_node index v) k ≡ some i
      → i ≡ length (row_of neighbors v) - 1

  assign-IsLast :
      (index : List hm.Map) (neighbors : List (List ℤ)) (d : ℕ) (k : ℤ)
      → d < length index
      → ((v : ℕ) → IsLast index neighbors v)
      → (v : ℕ)
      → IsLast
          (set index d (hm.assign (index_of_node index d) k (length (row_of neighbors d) - 1)))
          neighbors
          v
  assign-IsLast index neighbors d k lt last v j i found = elim (ℕ_discrete d v) [
    | no other ↦
        last v j i (ap (λ m. hm.find m j) (sym (get_or-set_ne index d v _ hm.empty other)) ∙ found)
    | yes same ↦
        let here =
          get_or-set_self index d
            (hm.assign (index_of_node index d) k (length (row_of neighbors d) - 1)) hm.empty lt in
        let found' : hm.find (hm.assign (index_of_node index d) k (length (row_of neighbors d) - 1))
              j
            ≡ some i =
          ap (λ m. hm.find m j) (sym here)
          ∙ ap
              (λ u.
                hm.find
                  (index_of_node
                    (set index d
                      (hm.assign (index_of_node index d) k (length (row_of neighbors d) - 1)))
                    u)
                  j)
              same
          ∙ found in
        elim (ℤ-discrete k j) [
          | yes e ↦
              let value : some (length (row_of neighbors d) - 1) ≡ some i =
                sym (hm.find-assign_self (index_of_node index d) k _) ∙ ap (hm.find _) e ∙ found' in
              subst (λ u. i ≡ length (row_of neighbors u) - 1) same (cc)
          | no n ↦
              subst (λ u. i ≡ length (row_of neighbors u) - 1) same
                (last d j i (sym (hm.find-assign_ne (index_of_node index d) k _ j n) ∙ found'))
        ]
  ]

  index_edges-IsLast :
      (n : ℕ) (index : List hm.Map) (neighbors : List (List ℤ)) (col keys : List ℤ)
      → AreIndices n (length neighbors) col
      → length index ≡ length neighbors
      → n ≤ length keys
      → ((v : ℕ) → IsLast index neighbors v)
      → (index' : List hm.Map) × (index_edges hm n index neighbors col keys ≡ ok index')
        × ((v : ℕ) → IsLast index' neighbors v)
  unfolding index_edges
  index_edges-IsLast zero index neighbors col keys inside size long last = (index, refl, last)
  index_edges-IsLast (suc n) index neighbors [] keys inside size long last = elim inside [ ]
  index_edges-IsLast (suc n) index neighbors (negsuc d ∷ col) keys inside size long last =
      elim inside [ ]
  index_edges-IsLast (suc n) index neighbors (pos d ∷ col) [] inside size long last = elim long [ ]
  index_edges-IsLast (suc n) index neighbors (pos d ∷ col) (k ∷ keys) (lt, inside) size long last =
      let lt' : d < length index = omega arith in
      let value = length (row_of neighbors d) - 1 in
      let next = set index d (hm.assign (index_of_node index d) k value) in
      let (index', done, each) =
        index_edges-IsLast n next neighbors col keys inside (length-set index d _ ∙ size)
          (omega arith) (assign-IsLast index neighbors d k lt' last) in
      (
        index',
        rw (get_elem?-of-lt neighbors d [] lt, ◌>>=◌, get_elem?-of-lt index d hm.empty lt') done,
        each,
      )

  inverted_rows-IsLast :
      {W : Type 0} (n num_nodes : ℕ) (neighbors : List (List ℤ)) (col keys : List ℤ)
      (weights : Option (List W))
      → AreIndices n num_nodes col
      → length neighbors ≡ num_nodes
      → n ≤ length keys
      → (index : List hm.Map) × (inverted_rows W hm n num_nodes neighbors col keys weights
          ≡ ok index)
        × ((v : ℕ) → IsLast index neighbors v)
  unfolding inverted_rows
  inverted_rows-IsLast n num_nodes neighbors col keys none inside size long =
      ([], refl, λ v k i found. cc (hm.find-empty k, found))
  inverted_rows-IsLast n num_nodes neighbors col keys (some ws) inside size long =
      index_edges-IsLast n (replicate num_nodes hm.empty) neighbors col keys (rw size inside)
        (length-replicate num_nodes hm.empty ∙ sym size) long
        (λ v k i found.
          cc
            (hm.find-empty k, ap (λ m. hm.find m k) (get_or-replicate num_nodes v hm.empty), found))

module _ (W : Type 0) (hm : HashMap ℤ ℕ) (hs : HashSet ℤ) where
  -- The block of these edges.
  pub record IsBlockOf (x : Edges W) (num_nodes : ℕ) (tnb : TemporalNeighborBlock W hm hs)
      : Type 0 where
    pub size : length tnb.neighbors ≡ num_nodes
    pub neighbors : (v : ℕ) → row_of tnb.neighbors v ≡ picked (length x.row) (pos v) x.col x.row
    pub degrees : tnb.deg ≡ map (λ (r : List ℤ). length r) tnb.neighbors
    pub eids : AreRowsOf (length x.row) x.col x.eid tnb.eid
    pub dist_eids : AreRowsOf (length x.row) x.col x.dist_eid tnb.dist_eid
    pub weights : AreRowsOf (length x.row) x.col x.edge_weight tnb.edge_weight
    pub times : AreRowsOf (length x.row) x.col x.time tnb.timestamp

  keys_long :
      (x : Edges W)
      → IsLong (length x.row) x.eid
      → length x.row ≤ length (Option.get_or x.eid x.row)
  keys_long x h = elim_long x.eid h
    where
      elim_long :
          (o : Option (List ℤ))
          → IsLong (length x.row) o
          → length x.row ≤ length (Option.get_or o x.row)
      elim_long none h = omega arith
      elim_long (some es) h = h

  build_neighbors-IsBlockOf :
      (x : Edges W) (num_nodes : ℕ) (is_distinct : Bool)
      → AreEdges x num_nodes
      → (tnb : TemporalNeighborBlock W hm hs) × (build_neighbors W hm hs x num_nodes is_distinct
          ≡ ok tnb)
        × (IsBlockOf x num_nodes tnb)
        × ((v : ℕ) → IsLast hm tnb.inverted_index tnb.neighbors v)
  unfolding build_neighbors
  build_neighbors-IsBlockOf x num_nodes is_distinct h =
      let n = length x.row in
      let (neighbors, e1, size, each) =
        push_all-rows n (replicate num_nodes []) x.col x.row
          (rw (length-replicate {A = List ℤ} num_nodes []) h.inside) (omega arith) in
      let size' = size ∙ length-replicate {A = List ℤ} num_nodes [] in
      let (eid, e2, eids) = optional_rows-AreRowsOf n num_nodes x.col x.eid h.inside h.eid in
      let (dist_eid, e3, dist_eids) =
        optional_rows-AreRowsOf n num_nodes x.col x.dist_eid h.inside h.dist_eid in
      let (weight, e4, weights) =
        optional_rows-AreRowsOf n num_nodes x.col x.edge_weight h.inside h.edge_weight in
      let (index, e5, last) =
        inverted_rows-IsLast hm n num_nodes neighbors x.col (Option.get_or x.eid x.row)
          x.edge_weight h.inside size' (keys_long x h.eid) in
      let (time, e6, times) = optional_rows-AreRowsOf n num_nodes x.col x.time h.inside h.time in
      let tnb : TemporalNeighborBlock W hm hs = record {
        neighbors = neighbors;
        timestamp = time;
        eid = eid;
        dist_eid = dist_eid;
        edge_weight = weight;
        inverted_index = index;
        deg = map (λ (r : List ℤ). length r) neighbors;
        neighbors_set = if is_distinct then map (set_of hs hs.none_in) neighbors else [];
        with_eid = has_value x.eid;
        with_dist_eid = has_value x.dist_eid;
        weighted = has_value x.edge_weight;
        with_timestamp = has_value x.time;
      } in
      (
        tnb,
        rw (e1, ◌>>=◌, e2, e3, e4, e5, e6),
        record {
          size = size';
          neighbors = λ v.
              each v
              ∙ ap (λ r. r ++ picked n (pos v) x.col x.row)
                  (get_or-replicate {A = List ℤ} num_nodes v []);
          degrees = refl;
          eids = eids;
          dist_eids = dist_eids;
          weights = weights;
          times = times;
        },
        last,
      )

  get_neighbors-new :
      {Name : Type 0} (tnb_map : HashMap Name (TemporalNeighborBlock W hm hs))
      (graphs : tnb_map.Map) (name : Name) (x : Edges W) (n : ℕ) (b : Bool)
      (tnb : TemporalNeighborBlock W hm hs)
      → tnb_map.find graphs name ≡ none
      → build_neighbors W hm hs x n b ≡ ok tnb
      → get_neighbors W hm hs tnb_map graphs name x n b ≡ ok (tnb_map.assign graphs name tnb, tnb)
  unfolding get_neighbors
  get_neighbors-new tnb_map graphs name x n b tnb new built = rw (new, get_neighbors, built)

  -- On complete arrays whose destinations are nodes, `get_neighbors` of a new name returns a block:
  -- the row of each node has exactly the entries of the edges into it, in the order of the edges, in
  -- each of the arrays, and the degrees are the lengths of the rows. Each key of the inverted index
  -- leads to the last neighbour of the node.
  pub get_neighbors-IsBlockOf :
      {Name : Type 0} (tnb_map : HashMap Name (TemporalNeighborBlock W hm hs))
      (graphs : tnb_map.Map) (name : Name) (x : Edges W) (num_nodes : ℕ) (is_distinct : Bool)
      → tnb_map.find graphs name ≡ none
      → AreEdges x num_nodes
      → (tnb : TemporalNeighborBlock W hm hs) × (get_neighbors W hm hs tnb_map graphs name x
            num_nodes is_distinct
          ≡ ok (tnb_map.assign graphs name tnb, tnb))
        × (IsBlockOf x num_nodes tnb)
        × ((v : ℕ) → IsLast hm tnb.inverted_index tnb.neighbors v)
  get_neighbors-IsBlockOf tnb_map graphs name x num_nodes is_distinct new h =
      let (tnb, built, block, last) = build_neighbors-IsBlockOf x num_nodes is_distinct h in
      (
        tnb,
        get_neighbors-new tnb_map graphs name x num_nodes is_distinct tnb new built,
        block,
        last,
      )

  -- Afterwards the block is stored under its name.
  get_neighbors-find :
      {Name : Type 0} (tnb_map : HashMap Name (TemporalNeighborBlock W hm hs))
      (graphs : tnb_map.Map) (name : Name) (x : Edges W) (n : ℕ) (b : Bool) (graphs' : tnb_map.Map)
      (tnb : TemporalNeighborBlock W hm hs)
      → get_neighbors W hm hs tnb_map graphs name x n b ≡ ok (graphs', tnb)
      → tnb_map.find graphs' name ≡ some tnb
  unfolding get_neighbors
  get_neighbors-find tnb_map graphs name x n b graphs' tnb h =
      elim (Option-cases (tnb_map.find graphs name)) [
        | inr (old, e) ↦
            let same : (graphs, old) ≡ (graphs', tnb) = ok_inj (rw (e, get_neighbors) at h) in
            subst
              (λ (r : tnb_map.Map × TemporalNeighborBlock W hm hs).
                tnb_map.find (r.0) name ≡ some (r.1))
              same e
        | inl e ↦
            let (built, _, done) =
              >>=-eq-ok (build_neighbors W hm hs x n b) _ (rw (e, get_neighbors) at h) in
            subst
              (λ (r : tnb_map.Map × TemporalNeighborBlock W hm hs).
                tnb_map.find (r.0) name ≡ some (r.1))
              (ok_inj done) (tnb_map.find-assign_self graphs name built)
      ]

  -- A name that has a block gets that block, whatever the other arguments are.
  pub get_neighbors_again :
      {Name : Type 0} (tnb_map : HashMap Name (TemporalNeighborBlock W hm hs))
      (graphs : tnb_map.Map) (name : Name) (x y : Edges W) (n m : ℕ) (b c : Bool)
      (graphs' : tnb_map.Map) (tnb : TemporalNeighborBlock W hm hs)
      → get_neighbors W hm hs tnb_map graphs name x n b ≡ ok (graphs', tnb)
      → get_neighbors W hm hs tnb_map graphs' name y m c ≡ ok (graphs', tnb)
  unfolding get_neighbors
  get_neighbors_again tnb_map graphs name x y n m b c graphs' tnb h =
      rw (get_neighbors-find tnb_map graphs name x n b graphs' tnb h, get_neighbors)
