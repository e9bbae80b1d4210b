-- ===== src/Speed/Partition/Edges.antt =====
-- Every edge gets an owner: the part that has it, or the part of its destination.
use starrygl_tmp.Prelude.{
  ℕ, zero, suc, ◌+◌, ◌<◌, ◌%◌, max, ℤ, pos, negsuc, ltb_ℤ, Bool, true, false, List, [], ◌∷◌, length,
  replicate, get_or, get_elem?, row_of, set, some, ok, ◌>>=◌, fetch, fetch-of-lt, modify-of-lt,
  get_or-set, length-set, length-replicate, get_or-replicate, get_elem?-lt_length, count, count_all,
  Returns, >>=-Returns, if◌then◌else◌, ℕ_discrete, ◌≡◌, ◌⊎◌, inl, inr, refl, ap, ◌∙◌, arith,
}
use starrygl_tmp.Speed.Doubles.{Doubles}
use starrygl_tmp.Speed.State.{SpeedState}
use starrygl_tmp.Speed.Invariant.{ArePlaced, AreListed, HasShape}
use starrygl_tmp.Speed.Master.{Edge, first_local_part_or_fallback}
use starrygl_tmp.Speed.Master.Laws.{AreBelow, home, home-lt}
use starrygl_tmp.Speed.Partition.{own_part, own_parts, own_rest, edge_owners}

abbrev pub owner_at : List ℤ → ℕ → ℤ
owner_at owner e = get_or owner e (negsuc 0)

-- The edges of the list are owned by `p`, and nothing else changes.
own_part-Returns :
    (p : ℕ) (ids : List ℕ) (owner : List ℤ)
    → ((e : ℕ) → 0 < count e ids → e < length owner)
    → Returns (own_part p ids owner) (λ owner'.
      (length owner' ≡ length owner)
      × ((e : ℕ) → 0 < count e ids → owner_at owner' e ≡ pos p)
      × ((e : ℕ) → count e ids ≡ 0 → owner_at owner' e ≡ owner_at owner e))
unfolding own_part count
own_part-Returns p [] owner below =
    (owner, refl, (refl, λ e h. absurd (omega (arith, h)), λ e h. refl))
own_part-Returns p (x ∷ ids) owner below =
    let lt : x < length owner = below x (ground arith) in
    let owner₁ = set owner x (pos p) in
    let len : length owner₁ ≡ length owner = length-set owner x (pos p) in
    let at = λ (e : ℕ). get_or-set owner x e (pos p) (negsuc 0) lt in
    let (owner', done, (len', owned, kept)) =
      own_part-Returns p ids owner₁ (λ e any. rw len (below e (omega (arith, any)))) in
    (
      owner',
      rw (modify-of-lt owner x (λ _. pos p) (negsuc 0) lt) done,
      (
        len' ∙ len,
        λ e any. elim (ℕ_discrete (count e ids) 0) [
          | no later ↦ owned e (omega (arith, later))
          | yes never ↦ kept e never ∙ ground (arith, at e, any, never)
        ],
        λ e none. kept e (omega (arith, none)) ∙ ground (arith, at e, none),
      ),
    )

own_parts-Returns :
    (q : ℕ) (rows : List (List ℕ)) (owner : List ℤ)
    → ((e : ℕ) → 0 < count_all e rows → e < length owner)
    → Returns (own_parts q rows owner) (λ owner'.
      (length owner' ≡ length owner)
      × ((e : ℕ) → count_all e rows ≡ 0 → owner_at owner' e ≡ owner_at owner e)
      × ((e : ℕ)
          → count_all e rows ≡ 1
          → (k : ℕ) × (k < length rows)
            × (count e (row_of rows k) ≡ 1)
            × (owner_at owner' e ≡ pos (q + k))))
unfolding own_parts count_all
own_parts-Returns q [] owner below =
    (owner, refl, (refl, λ e h. refl, λ e h. absurd (omega (arith, h))))
own_parts-Returns q (ids ∷ rows) owner below =
    let (owner₁, done₁, (len₁, owned₁, kept₁)) =
      own_part-Returns q ids owner (λ e any. below e (omega (arith, any))) in
    let (owner₂, done₂, (len₂, kept₂, owned₂)) =
      own_parts-Returns (suc q) rows owner₁ (λ e any. rw len₁ (below e (omega (arith, any)))) in
    (
      owner₂,
      rw done₁ done₂,
      (
        len₂ ∙ len₁,
        λ e none. kept₂ e (omega (arith, none)) ∙ kept₁ e (omega (arith, none)),
        λ e once. elim (ℕ_discrete (count_all e rows) 0) [
          | yes never ↦ (
            0,
            omega arith,
            omega (arith, once, never),
            kept₂ e never ∙ owned₁ e (omega (arith, once, never)) ∙ ap (λ k. pos k) (omega arith),
          )
          | no later ↦
              let (k, lt, at, own) = owned₂ e (omega (arith, once, later)) in
              (suc k, omega (arith, lt), at, own ∙ ap (λ k. pos k) (omega arith))
        ],
      ),
    )

not_negative : (k : ℕ) → ltb_ℤ (pos k) (pos 0) ≡ false
not_negative k = ground arith

is_negative : (k : ℕ) → ltb_ℤ (negsuc k) (pos 0) ≡ true
is_negative k = ground arith

-- Every edge has an owner: the one part that lists it, or, if it was dropped, the part of its
-- destination.
abbrev pub HaveOwners : {D : Type 0} → ℕ → SpeedState D → List (Edge D) → List ℤ → Type 0
HaveOwners {D} num_parts s edges owner =
    (length owner ≡ length edges)
    × ((e : ℕ) (edge : Edge D)
        → get_elem? edges e ≡ some edge
        → (p : ℕ) × (p < num_parts)
          × (owner_at owner e ≡ pos p)
          × (((count e s.dropped_edges ≡ 0) × (count e (row_of s.edge_ids_by_part p) ≡ 1))
              ⊎ ((count e s.dropped_edges ≡ 1) × (p ≡ home num_parts s edge.dst))))

module _ {D : Type 0} (d : Doubles D) (is_hot : List Bool) (n num_parts : ℕ) (s : SpeedState D)
    (placed : ArePlaced is_hot num_parts s) (shape : HasShape n num_parts s)
    (hot_len : length is_hot ≡ n) (some_parts : 0 < num_parts) where
  at_destination :
      (v : ℕ)
      → v < n
      → Returns (first_local_part_or_fallback d s v (v % num_parts)) (λ p. p ≡ home num_parts s v)
  unfolding first_local_part_or_fallback
  at_destination v lt =
      >>=-Returns (fetch s.node_parts v) _
        (_, fetch-of-lt s.node_parts v [] (rw shape.node_parts lt), refl)
        (λ parts (at : parts ≡ row_of s.node_parts v). (
          _,
          refl,
          rw at (
              ap (λ p. elim (row_of s.node_parts v) as (λ _. ℕ) [ [] ↦ v % p | part ∷ rest ↦ part ])
                positive),
        ))
    where
      positive : num_parts ≡ max num_parts 1
      positive = omega arith

  own_one :
      (o : ℤ) (v : ℕ)
      → v < n
      → Returns
          (if ltb_ℤ o (pos 0)
            then (do p ← first_local_part_or_fallback d s v (v % num_parts); ok (pos p))
            else ok o)
          (λ o'.
            ((k : ℕ) → o ≡ pos k → o' ≡ pos k) × (o ≡ negsuc 0 → o' ≡ pos (home num_parts s v)))
  own_one (pos k) v lt = rw (not_negative k) (pos k, refl, (λ j e. e, λ e. cc))
  own_one (negsuc k) v lt =
      let (p, e, here) = at_destination v lt in
      rw (is_negative k) (pos p, rw e refl, (λ j e. cc, λ e. ap (λ p. pos p) here))

  -- An owner stays, and an edge without one goes to the part of its destination.
  abbrev IsFilled : List (Edge D) → List ℤ → List ℤ → Type 0
  IsFilled edges owner owner' =
      (e : ℕ) (edge : Edge D)
      → get_elem? edges e ≡ some edge
      → ((k : ℕ) → owner_at owner e ≡ pos k → owner_at owner' e ≡ pos k)
        × (owner_at owner e ≡ negsuc 0 → owner_at owner' e ≡ pos (home num_parts s edge.dst))

  IsFilled-cons :
      (x : Edge D) (edges : List (Edge D)) (o o' : ℤ) (owner owner' : List ℤ)
      → ((k : ℕ) → o ≡ pos k → o' ≡ pos k) × (o ≡ negsuc 0 → o' ≡ pos (home num_parts s x.dst))
      → IsFilled edges owner owner'
      → IsFilled (x ∷ edges) (o ∷ owner) (o' ∷ owner')
  IsFilled-cons x edges o o' owner owner' first rest zero edge found =
      let same : x ≡ edge = cc in
      (first.0, λ none. first.1 none ∙ ap (λ (x : Edge D). pos (home num_parts s x.dst)) same)
  IsFilled-cons x edges o o' owner owner' first rest (suc e) edge found = rest e edge found

  own_rest-Returns :
      (edges : List (Edge D)) (owner : List ℤ)
      → AreBelow n edges
      → length owner ≡ length edges
      → Returns
          (own_rest d s num_parts edges owner)
          (λ owner'. (length owner' ≡ length edges) × IsFilled edges owner owner')
  unfolding own_rest
  own_rest-Returns [] owner below len = (owner, refl, (len, λ e edge h. cc))
  own_rest-Returns (x ∷ edges) [] below len = absurd (omega (arith, len))
  own_rest-Returns (x ∷ edges) (o ∷ owner) below len =
      let (o', done, kept) = own_one o x.dst below.1 in
      let (rest, done', (len', kept')) =
        own_rest-Returns edges owner below.2 (omega (arith, len)) in
      (
        o' ∷ rest,
        rw (done, done') refl,
        (omega (arith, len'), IsFilled-cons x edges o o' owner rest kept kept'),
      )

  pub edge_owners-HaveOwners :
      (edges : List (Edge D))
      → AreListed (length edges) s
      → AreBelow n edges
      → Returns (edge_owners d s num_parts edges) (HaveOwners num_parts s edges)
  unfolding edge_owners
  edge_owners-HaveOwners edges listed below =
      let rows = s.edge_ids_by_part in
      let start : List ℤ = replicate (length edges) (negsuc 0) in
      >>=-Returns (own_parts 0 rows start) _
        (own_parts-Returns 0 rows start (λ e any.
          ground (arith, listed.edges_once e, length-replicate (length edges) (negsuc 0))))
        (λ owner owned.
          let (owner', done, filled) =
            own_rest-Returns edges owner below
              (owned.0 ∙ length-replicate (length edges) (negsuc 0)) in
          (
            owner',
            done,
            (
              filled.0,
              λ e edge found.
                  let lt : e < length edges = get_elem?-lt_length edges e found in
                  let once : count_all e rows + count e s.dropped_edges ≡ 1 =
                    ground (arith, listed.edges_once e) in
                  elim (ℕ_discrete (count_all e rows) 0) [
                    | yes none ↦ (
                      home num_parts s edge.dst,
                      home-lt d is_hot n num_parts s placed shape hot_len some_parts edge.dst,
                      (filled.1 e edge found).1
                          (owned.1 e none ∙ get_or-replicate (length edges) e (negsuc 0)),
                      inr (omega (arith, once, none), refl),
                    )
                    | no any ↦
                        let (k, k_lt, at, own) = owned.2 e (omega (arith, once, any)) in
                        (
                          k,
                          rw (← shape.edge_ids_by_part) k_lt,
                          (filled.1 e edge found).0 k (own ∙ ap (λ k. pos k) (omega arith)),
                          inl (omega (arith, once, any), at),
                        )
                  ],
            ),
          ))
