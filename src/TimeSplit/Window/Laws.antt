-- ===== src/TimeSplit/Window/Laws.antt =====
-- The edges of a window are read within the array of edges.
use starrygl_tmp.Prelude.{
  ℕ, ◌+◌, ◌<◌, ℤ, ℤ-discrete, ite, List, [], ◌∷◌, ◌++◌, length, some, Option-cases, ok, ◌>>=◌,
  fetch, fetch-Returns, Returns, >>=-Returns, Bool-cases, if_pos, if_neg, ◌≡◌, inl, inr, refl, sym,
  ap, ◌∙◌,
}
use starrygl_tmp.Speed.Doubles.{Doubles, same_double}
use starrygl_tmp.Speed.State.{nought}
use starrygl_tmp.TimeSplit.Window.{
  Table, find, is_found, found_or, back, TimedEdge, Window, get_aggloss, no_edges, push, try_append,
  visit_nodes, visit_edge,
}

back-snoc : (xs : List ℕ) (x : ℕ) → back (xs ++ x ∷ []) ≡ ok x
unfolding back
back-snoc [] x = refl
back-snoc (y ∷ []) x = refl
back-snoc (y ∷ z ∷ xs) x = back-snoc (z ∷ xs) x

module _ {D : Type 0} (d : Doubles D) (edges : List (TimedEdge D)) (seg_start : ℕ) (alpha beta : D)
    (time_dic : Table D) where
  -- The last edge of each node of the window is one of the edges.
  abbrev pub IsWindow : Window D → Type 0
  IsWindow w =
      (node : ℤ) (indices : List ℕ)
      → find w.dic node ≡ some indices
      → (last : ℕ) × (back indices ≡ ok last) × (seg_start + last < length edges)

  push-IsWindow :
      (node : ℤ) (x : ℕ) (w : Window D)
      → seg_start + x < length edges
      → IsWindow w
      → IsWindow (push d edges seg_start alpha beta time_dic node x w)
  unfolding push find
  push-IsWindow node x w lt is j indices found = elim (ℤ-discrete node j) [
    | yes e ↦
        let same = some_inj (sym (if_pos (ℤ-discrete node j) e _ _) ∙ found) in
        (x, ap back (sym same) ∙ back-snoc (found_or [] (find w.dic node)) x, lt)
    | no apart ↦ is j indices (sym (if_neg (ℤ-discrete node j) apart _ _) ∙ found)
  ]
    where
      some_inj : {v u : List ℕ} → some v ≡ some u → v ≡ u
      some_inj e = cc

  try_append-IsWindow :
      (t : D) (x : ℕ) (node : ℤ) (w : Window D)
      → seg_start + x < length edges
      → IsWindow w
      → Returns (try_append d edges seg_start alpha beta time_dic t x node w) IsWindow
  unfolding try_append
  try_append-IsWindow t x node w lt is = elim (Option-cases (find w.dic node)) [
    | inl e ↦ rw (try_append, e) (_, refl, push-IsWindow node x w lt is)
    | inr (indices, e) ↦
        let (last, last_is, last_lt) = is node indices e in
        rw (try_append, e, last_is)
          (>>=-Returns (fetch edges (seg_start + last)) _
            (fetch-Returns edges _ (length edges) refl last_lt)
            (λ edge _. elim (Bool-cases (same_double d (d.sub t edge.time) (nought d))) [
              | inl e' ↦ rw e' (w, refl, is)
              | inr e' ↦ rw e' (_, refl, push-IsWindow node x w lt is)
            ]))
  ]

  pub visit_nodes-IsWindow :
      (s r : ℤ) (t : D) (x : ℕ) (w : Window D)
      → seg_start + x < length edges
      → IsWindow w
      → Returns (visit_nodes d edges seg_start alpha beta time_dic s r t x w) IsWindow
  unfolding visit_nodes
  visit_nodes-IsWindow s r t x w lt is = elim (Bool-cases (is_found (find w.dic s))) [
    | inl e ↦ elim (Bool-cases (is_found (find w.dic r))) [
      | inl e' ↦
          rw (e, e')
            (elim (ℤ-discrete s r)
              as (λ c.
                Returns
                  (ite c (try_append d edges seg_start alpha beta time_dic t x s w) (do
                    w' ← try_append d edges seg_start alpha beta time_dic t x s w
                    try_append d edges seg_start alpha beta time_dic t x r w'))
                  IsWindow) [
                    | yes same ↦ try_append-IsWindow t x s w lt is
                    | no apart ↦
                        >>=-Returns (try_append d edges seg_start alpha beta time_dic t x s w) _
                          (try_append-IsWindow t x s w lt is)
                          (λ w' is'. try_append-IsWindow t x r w' lt is')
                  ])
      | inr e' ↦
          rw (e, e')
            (>>=-Returns (try_append d edges seg_start alpha beta time_dic t x s w) _
              (try_append-IsWindow t x s w lt is)
              (λ w' is'. (_, refl, push-IsWindow r x w' lt is')))
    ]
    | inr e ↦ elim (Bool-cases (is_found (find w.dic r))) [
      | inl e' ↦
          rw (e, e')
            (>>=-Returns (try_append d edges seg_start alpha beta time_dic t x r w) _
              (try_append-IsWindow t x r w lt is)
              (λ w' is'. (_, refl, push-IsWindow s x w' lt is')))
      | inr e' ↦
          rw (e, e')
            (
              _,
              refl,
              push-IsWindow r x (push d edges seg_start alpha beta time_dic s x w) lt
                  (push-IsWindow s x w lt is),
            )
    ]
  ]

  pub visit_edge-IsWindow :
      (aggl : D) (x : ℕ) (w : Window D)
      → seg_start + x < length edges
      → IsWindow w
      → Returns (visit_edge d edges seg_start alpha beta time_dic aggl x w) IsWindow
  unfolding visit_edge
  visit_edge-IsWindow aggl x w lt is =
      >>=-Returns (fetch edges (seg_start + x)) _ (fetch-Returns edges _ (length edges) refl lt)
        (λ e _. visit_nodes-IsWindow e.src e.dst e.time x _ lt is)

  pub no_edges-IsWindow : IsWindow (no_edges d)
  unfolding find
  no_edges-IsWindow node indices nothing = absurd (cc nothing)

  -- The first edge of a window adds nothing but zeros.
  pub visit_edge-first :
      (aggl : D) (x : ℕ)
      → seg_start + x < length edges
      → Returns
          (visit_edge d edges seg_start alpha beta time_dic aggl x (no_edges d))
          (λ w. IsWindow w × (w.stale ≡ d.add (nought d) (nought d)))
  unfolding visit_edge visit_nodes find push get_aggloss
  visit_edge-first aggl x lt =
      >>=-Returns (fetch edges (seg_start + x)) _ (fetch-Returns edges _ (length edges) refl lt)
        (λ e _. (
          _,
          refl,
          (
            push-IsWindow e.dst x (push d edges seg_start alpha beta time_dic e.src x (no_edges d))
                lt (push-IsWindow e.src x (no_edges d) lt no_edges-IsWindow),
            refl,
          ),
        ))
