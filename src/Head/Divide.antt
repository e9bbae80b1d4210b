-- ===== src/Head/Divide.antt =====
-- Each node is put in the part that it belongs to, whichever thread places it.
use mathlib.Core.List.{Perm, perm_middle}
use mathlib.Core.List.Perm
use mathlib.Core.Path.{subst}
use starrygl_tmp.Prelude.{
  ℕ, zero, suc, ◌+◌, ◌<◌, ◌≤◌, ℤ, List, [], ◌∷◌, ◌++◌, length, if◌then◌else◌, Result, ok, err,
  >>=-eq-ok, ◌≡◌, ◌≢◌, ◌∙◌, arith, Bool-cases, inl, inr, ok_inj, ap, ap₂, refl, sym, ◌==◌, row_of,
  ==_iff, Bool, true, false, ℕ_discrete, ◌⊎◌,
}
use starrygl_tmp.Head.{
  Placed, node_id_to_part_id, place_nodes, of_thread, of_threads, parts_from, divide_nodes_to_part,
}

-- Whether the part was found and is `pid`.
is_part : Result ℕ → ℕ → Bool
is_part (ok q) pid = q == pid
is_part (err e) pid = false

-- The nodes of a part, in the order in which they are given.
pub nodes_of : List ℤ → ℕ → List ℤ → List ℤ
unfolding is_part
nodes_of part_ptr pid [] = []
nodes_of part_ptr pid (nid ∷ nodes) =
    let rest = nodes_of part_ptr pid nodes in
    if is_part (node_id_to_part_id nid part_ptr) pid then nid ∷ rest else rest

eq_self : (a b : ℕ) → a ≡ b → (a == b) ≡ true
eq_self a b e = (==_iff a b).1 e

eq_other : (a b : ℕ) → a ≢ b → (a == b) ≡ false
eq_other a b n = elim (Bool-cases (a == b)) [ inl e ↦ absurd (n ((==_iff a b).0 e)) | inr e ↦ e ]

-- An item of another thread or of another part is passed over.
of_thread-skip :
    (tid pid : ℕ) (x : Placed) (xs : List Placed)
    → (x.thread ≢ tid) ⊎ (x.part ≢ pid)
    → of_thread tid pid (x ∷ xs) ≡ of_thread tid pid xs
unfolding of_thread
of_thread-skip tid pid x xs (inl n) = rw (eq_other x.thread tid n) refl
of_thread-skip tid pid x xs (inr n) = elim (Bool-cases (x.thread == tid)) [
  | inl e ↦ rw (e, eq_other x.part pid n) refl
  | inr e ↦ rw e refl
]

of_thread-take :
    (tid pid : ℕ) (x : Placed) (xs : List Placed)
    → x.thread ≡ tid
    → x.part ≡ pid
    → of_thread tid pid (x ∷ xs) ≡ x.node ∷ of_thread tid pid xs
unfolding of_thread
of_thread-take tid pid x xs t p = rw (eq_self x.thread tid t, eq_self x.part pid p) refl

of_threads-skip :
    (n tid pid : ℕ) (x : Placed) (xs : List Placed)
    → (x.thread < tid) ⊎ (x.part ≢ pid)
    → of_threads n tid pid (x ∷ xs) ≡ of_threads n tid pid xs
unfolding of_threads
of_threads-skip zero tid pid x xs other = refl
of_threads-skip (suc n) tid pid x xs (inl lt) =
    ap₂ (λ a b. a ++ b) (of_thread-skip tid pid x xs (inl (λ e. omega (arith, e))))
      (of_threads-skip n (suc tid) pid x xs (inl (omega arith)))
of_threads-skip (suc n) tid pid x xs (inr other) =
    ap₂ (λ a b. a ++ b) (of_thread-skip tid pid x xs (inr other))
      (of_threads-skip n (suc tid) pid x xs (inr other))

-- An item of one of the threads is among the nodes of its part.
of_threads-take :
    (n tid pid : ℕ) (x : Placed) (xs : List Placed)
    → x.part ≡ pid
    → tid ≤ x.thread
    → x.thread < tid + n
    → Perm (of_threads n tid pid (x ∷ xs)) (x.node ∷ of_threads n tid pid xs)
unfolding of_threads
of_threads-take zero tid pid x xs p le lt = absurd (omega arith)
of_threads-take (suc n) tid pid x xs p le lt = elim (ℕ_discrete x.thread tid) [
  | yes e ↦
      rw
        (
          of_thread-take tid pid x xs e p,
          of_threads-skip n (suc tid) pid x xs (inl (omega (arith, e))),
        )
        Perm.rfl
  | no other ↦ rw (of_thread-skip tid pid x xs (inl other)) (
      Perm.trans
        (Perm.append_left (of_thread tid pid xs)
          (of_threads-take n (suc tid) pid x xs p (omega (arith, other)) (omega arith)))
        (perm_middle (of_thread tid pid xs) (of_threads n (suc tid) pid xs)))
]

parts_from-row :
    (threads n q k : ℕ) (xs : List Placed)
    → k < n
    → row_of (parts_from threads n q xs) k ≡ of_threads threads 0 (q + k) xs
unfolding parts_from
parts_from-row threads zero q k xs lt = elim lt [ ]
parts_from-row threads (suc n) q zero xs lt = ap (λ p. of_threads threads 0 p xs) (omega arith)
parts_from-row threads (suc n) q (suc k) xs lt =
    parts_from-row threads n (suc q) k xs (omega arith)
    ∙ ap (λ p. of_threads threads 0 p xs) (omega arith)

length-parts_from : (threads n q : ℕ) (xs : List Placed) → length (parts_from threads n q xs) ≡ n
unfolding parts_from
length-parts_from threads zero q xs = refl
length-parts_from threads (suc n) q xs = ap suc (length-parts_from threads n (suc q) xs)

of_threads-nil : (n tid pid : ℕ) → of_threads n tid pid [] ≡ []
unfolding of_threads of_thread
of_threads-nil zero tid pid = refl
of_threads-nil (suc n) tid pid = of_threads-nil n (suc tid) pid

place_nodes-perm :
    (thread_of : ℕ → ℕ) (threads : ℕ) (part_ptr : List ℤ) (i : ℕ) (nodes : List ℤ) (pid : ℕ)
    → ((j : ℕ) → thread_of j < threads)
    → (xs : List Placed) → place_nodes thread_of part_ptr i nodes ≡ ok xs
    → Perm (of_threads threads 0 pid xs) (nodes_of part_ptr pid nodes)
unfolding place_nodes nodes_of is_part
place_nodes-perm thread_of threads part_ptr i [] pid all xs h =
    subst (λ xs. Perm (of_threads threads 0 pid xs) []) (ok_inj h)
      (rw (of_threads-nil threads 0 pid) Perm.rfl)
place_nodes-perm thread_of threads part_ptr i (nid ∷ nodes) pid all xs h =
    let (q, at, h1) = >>=-eq-ok (node_id_to_part_id nid part_ptr) _ h in
    let (rest, placed, h2) = >>=-eq-ok (place_nodes thread_of part_ptr (suc i) nodes) _ h1 in
    let x : Placed = record { thread = thread_of i; part = q; node = nid } in
    let below = place_nodes-perm thread_of threads part_ptr (suc i) nodes pid all rest placed in
    subst (λ xs. Perm (of_threads threads 0 pid xs) (nodes_of part_ptr pid (nid ∷ nodes)))
      (ok_inj h2)
      (elim (ℕ_discrete q pid) [
        | yes e ↦
            rw (at, eq_self q pid e)
              (Perm.trans
                (of_threads-take threads 0 pid x rest e (omega arith) (omega (arith, all i)))
                (Perm.cons nid below))
        | no n ↦ rw (at, eq_other q pid n, of_threads-skip threads 0 pid x rest (inr n)) below
      ])

-- Whenever `divide_nodes_to_part` returns, and every iteration has one of the threads, there is one
-- list for each part, and it is a permutation of the nodes that `nodeIdToPartId` finds in the part:
-- no node is lost, added or put in another part.
pub divide_nodes_to_part-perm :
    (thread_of : ℕ → ℕ) (threads : ℕ) (nodes : List ℤ) (begin : ℤ) (ends : List ℤ)
    (parts : List (List ℤ))
    → ((j : ℕ) → thread_of j < threads)
    → divide_nodes_to_part thread_of threads nodes (begin ∷ ends) ≡ ok parts
    → (length parts ≡ length ends)
      × ((pid : ℕ)
          → pid < length ends
          → Perm (row_of parts pid) (nodes_of (begin ∷ ends) pid nodes))
unfolding divide_nodes_to_part
divide_nodes_to_part-perm thread_of threads nodes begin ends parts all h =
    let (placed, h1, h2) = >>=-eq-ok (place_nodes thread_of (begin ∷ ends) 0 nodes) _ h in
    (
      ap length (sym (ok_inj h2)) ∙ length-parts_from threads (length ends) 0 placed,
      λ pid lt.
          subst (λ row. Perm row (nodes_of (begin ∷ ends) pid nodes))
            (ap (λ p. of_threads threads 0 p placed) (omega arith)
              ∙ sym (parts_from-row threads (length ends) 0 pid placed lt)
              ∙ ap (λ parts. row_of parts pid) (ok_inj h2))
            (place_nodes-perm thread_of threads (begin ∷ ends) 0 nodes pid all placed h1),
    )
