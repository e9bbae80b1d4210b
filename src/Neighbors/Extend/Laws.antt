-- ===== src/Neighbors/Extend/Laws.antt =====
-- `update_neighbors_with_time` asks for a block without nodes, and has no room in such a block.
use mathlib.Core.Path.{subst}
use starrygl_tmp.Prelude.{
  ℕ, ◌≤◌, ℤ, pos, negsuc, Bool, true, false, not, List, [], ◌∷◌, length, Option, none, some,
  if◌then◌else◌, ok, torch_check, Error, throw_if, ◌>>=◌, >>=-eq-ok, ok_inj, read, push_at, leb,
  ◌≡◌, refl, ap, sym, ◌∙◌, arith, Bool-cases, inl, inr,
}
use starrygl_tmp.Phmap.{HashMap, HashSet}
use starrygl_tmp.Neighbors.Block.{TemporalNeighborBlock, empty}
use starrygl_tmp.Neighbors.Build.{has_value}
use starrygl_tmp.Neighbors.Extend.{
  Event, events, grow, add_weight, add_distinct, add_repeated, add_all_distinct, add_all_repeated,
  update_neighbors_with_time,
}

throw_if-ok : (b : Bool) (e : Error) {u : Unit {0}} → throw_if b e ≡ ok u → b ≡ false
throw_if-ok true e h = cc
throw_if-ok false e h = refl

length-zero : {A : Type 0} (xs : List A) → length xs ≤ 0 → xs ≡ []
length-zero [] h = refl
length-zero (x ∷ xs) h = elim h [ ]

read-nil : {A : Type 0} (i : ℤ) {a : A} → read [] i ≡ ok a → ⊥
unfolding read
read-nil (pos i) h = absurd (cc)
read-nil (negsuc i) h = absurd (cc)

push_at-nil : {A : Type 0} (i : ℤ) (a : A) {rows : List (List A)} → push_at [] i a ≡ ok rows → ⊥
unfolding push_at
push_at-nil (pos i) a h = absurd (cc)
push_at-nil (negsuc i) a h = absurd (cc)

events-cons :
    {W : Type 0} (s : ℤ) (row col time eid : List ℤ) (ew : Option (List W)) (xs : List (Event W))
    → events (s ∷ row) col time eid ew ≡ ok xs
    → (x : Event W) × (rest : List (Event W)) × (xs ≡ x ∷ rest)
unfolding events
events-cons s row [] time eid ew xs h = cc
events-cons s row (d ∷ col) [] eid ew xs h = cc
events-cons s row (d ∷ col) (t ∷ time) [] ew xs h = cc
events-cons s row (d ∷ col) (t ∷ time) (e ∷ eid) (some []) xs h = cc
events-cons s row (d ∷ col) (t ∷ time) (e ∷ eid) (some (w ∷ ew)) xs h =
    let (rest, _, done) = >>=-eq-ok (events row col time eid (some ew)) _ h in
    (_, rest, sym (ok_inj done))
events-cons s row (d ∷ col) (t ∷ time) (e ∷ eid) none xs h =
    let (rest, _, done) = >>=-eq-ok (events row col time eid none) _ h in
    (_, rest, sym (ok_inj done))

module _ (W : Type 0) (hm : HashMap ℤ ℕ) (hs : HashSet ℤ) where
  empty-deg : (tnb : TemporalNeighborBlock W hm hs) → empty W hm hs tnb ≡ true → length tnb.deg ≡ 0
  unfolding empty
  empty-deg tnb h = deg_of tnb.deg h
    where
      deg_of : (deg : List ℕ) → (elim deg [ [] ↦ true | _ ∷ _ ↦ false ]) ≡ true → length deg ≡ 0
      deg_of [] h = refl
      deg_of (d ∷ deg) h = cc

  grow-neighbors_set :
      (tnb : TemporalNeighborBlock W hm hs) (n : ℕ) (d : ℤ)
      → (grow W hm hs tnb n d).0.neighbors_set ≡ tnb.neighbors_set
  unfolding grow
  grow-neighbors_set tnb n (negsuc d) = refl
  grow-neighbors_set tnb n (pos d) = elim (Bool-cases (leb n d)) [ inl e ↦ rw e | inr e ↦ rw e ]

  add_distinct-no_sets :
      (tnb tnb' : TemporalNeighborBlock W hm hs) (x : Event W)
      → tnb.neighbors_set ≡ []
      → add_distinct W hm hs tnb x ≡ ok tnb'
      → ⊥
  unfolding add_distinct
  add_distinct-no_sets tnb tnb' x none_there h =
      let (neighbors, _, h1) = >>=-eq-ok (push_at tnb.neighbors x.dst x.src) _ h in
      let (_, _, h2) = >>=-eq-ok (push_at tnb.eid x.dst x.eid) _ h1 in
      let (_, _, h3) = >>=-eq-ok (push_at tnb.timestamp x.dst x.time) _ h2 in
      let (_, _, h4) =
        >>=-eq-ok (add_weight W hm hs tnb neighbors x (if tnb.with_eid then x.eid else x.src)) _
          h3 in
      let (s, found, _) = >>=-eq-ok (read tnb.neighbors_set x.dst) _ h4 in
      read-nil x.dst (ap (λ sets. read sets x.dst) (sym none_there) ∙ found)

  -- On a block with no more lists of neighbours, and no more sets of them, than degrees, where
  -- `update_neighbors_with_time` returns there were no edges to add: its array of sources is empty.
  pub update_neighbors_with_time-nil :
      (tnb : TemporalNeighborBlock W hm hs) (row col time eid : List ℤ) (is_distinct : Bool)
      (edge_weight : Option (List W)) (r : TemporalNeighborBlock W hm hs × ℕ)
      → length tnb.neighbors ≤ length tnb.deg
      → length tnb.neighbors_set ≤ length tnb.deg
      → update_neighbors_with_time W hm hs tnb row col time eid is_distinct edge_weight ≡ ok r
      → row ≡ []
  unfolding update_neighbors_with_time add_all_distinct add_all_repeated add_repeated
  update_neighbors_with_time-nil tnb [] col time eid is_distinct ew r listed sets h = refl
  update_neighbors_with_time-nil tnb (s ∷ row) col time eid is_distinct ew r listed sets h =
      let (_, e1, h1) = >>=-eq-ok (throw_if (not (empty W hm hs tnb)) torch_check) _ h in
      let (_, _, h2) = >>=-eq-ok (throw_if (not tnb.with_timestamp) torch_check) _ h1 in
      let (_, _, h3) =
        >>=-eq-ok (throw_if (if has_value ew then not tnb.weighted else false) torch_check) _ h2 in
      let (_, _, h4) =
        >>=-eq-ok (throw_if (if tnb.weighted then not (has_value ew) else false) torch_check) _
          h3 in
      let (xs, found, h5) = >>=-eq-ok (events (s ∷ row) col time eid ew) _ h4 in
      let (x, rest, cons) = events-cons s row col time eid ew xs found in
      let none_deg =
        empty-deg tnb
          (is_true (empty W hm hs tnb) (throw_if-ok (not (empty W hm hs tnb)) torch_check e1)) in
      let no_neighbors = length-zero tnb.neighbors (omega arith) in
      let no_sets = length-zero tnb.neighbors_set (omega arith) in
      absurd (
        stuck is_distinct x rest no_neighbors no_sets (
          subst
            (λ xs.
              (if is_distinct
                then add_all_distinct W hm hs tnb (length tnb.neighbors) xs
                else (add_all_repeated W hm hs tnb xs >>= λ tnb'. ok (tnb', length tnb.neighbors)))
              ≡ ok r)
            cons h5))
    where
      is_true : (b : Bool) → not b ≡ false → b ≡ true
      is_true true h = refl
      is_true false h = cc

      stuck :
          (b : Bool) (x : Event W) (rest : List (Event W))
          → tnb.neighbors ≡ []
          → tnb.neighbors_set ≡ []
          → (if b
              then add_all_distinct W hm hs tnb (length tnb.neighbors) (x ∷ rest)
              else (add_all_repeated W hm hs tnb (x ∷ rest) >>= λ tnb'.
                  ok (tnb', length tnb.neighbors)))
            ≡ ok r
          → ⊥
      stuck true x rest n s h =
          let grown = (grow W hm hs tnb (length tnb.neighbors) x.dst).0 in
          let (tnb', found, _) = >>=-eq-ok (add_distinct W hm hs grown x) _ h in
          add_distinct-no_sets grown tnb' x (grow-neighbors_set tnb _ x.dst ∙ s) found
      stuck false x rest n s h =
          let (tnb', found, _) = >>=-eq-ok (add_all_repeated W hm hs tnb (x ∷ rest)) _ h in
          let (_, found', _) = >>=-eq-ok (add_repeated W hm hs tnb x) _ found in
          let (_, pushed, _) = >>=-eq-ok (push_at tnb.neighbors x.dst x.src) _ found' in
          push_at-nil x.dst x.src (ap (λ rows. push_at rows x.dst x.src) (sym n) ∙ pushed)
