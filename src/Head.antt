-- ===== src/Head.antt =====
-- sampler/include/head.h: the part of a node, and nodes divided by part. `part_ptr` is the array of
-- the first node of each part and the end of the last. An OpenMP loop may give any iteration to any
-- thread: the thread of an iteration is an argument.
pub mod Laws
pub mod Divide
use starrygl_tmp.Prelude.{
  ℕ, zero, suc, ℤ, ltb_ℤ, Bool, true, false, not, ◌&&◌, List, [], ◌∷◌, ◌++◌, Option, none, some,
  if◌then◌else◌, Result, ok, err, fault, char_pointer, or_err, ◌+ℤ◌, length, ◌>>=◌, read, pos, ◌==◌,
  traverse, map,
}
use mathlib.Core.Option

-- `nid >= begin && nid < end`
unfoldable pub is_within : ℤ → ℤ → ℤ → Bool
is_within nid begin end = not (ltb_ℤ nid begin) && ltb_ℤ nid end

-- The loop: the first part, from `i` on, that has the node.
unfoldable pub find_part : ℤ → ℤ → List ℤ → ℕ → Option ℕ
unfolding is_within
find_part nid begin [] i = none
find_part nid begin (end ∷ ends) i =
    let later = find_part nid end ends (suc i) in if is_within nid begin end then some i else later

-- Without a first node the bound of the loop wraps around.
unfoldable pub node_id_to_part_id : ℤ → List ℤ → Result ℕ
unfolding find_part
node_id_to_part_id nid [] = err fault
node_id_to_part_id nid (begin ∷ ends) = or_err (find_part nid begin ends 0) char_pointer

-- 0: inner; 1: outer
unfoldable pub node_id_to_in_out : ℤ → ℤ → List ℤ → Result ℕ
unfolding read is_within
node_id_to_in_out nid pid part_ptr = do
  begin ← read part_ptr pid
  if ltb_ℤ nid begin
      then ok 1
      else (do end ← read part_ptr (pid +ℤ pos 1); ok (if ltb_ℤ nid end then 0 else 1))

-- A node with its thread and its part.
pub record Placed : Type 0 where
  pub thread : ℕ
  pub part : ℕ
  pub node : ℤ

-- The first loop, `node_part_threads[tid][pid].emplace_back(nodes_id[i])`.
unfoldable pub place_nodes : (ℕ → ℕ) → List ℤ → ℕ → List ℤ → Result (List Placed)
unfolding node_id_to_part_id
place_nodes thread_of part_ptr i [] = ok []
place_nodes thread_of part_ptr i (nid ∷ nodes) = do
  pid ← node_id_to_part_id nid part_ptr
  rest ← place_nodes thread_of part_ptr (suc i) nodes
  ok (record { thread = thread_of i; part = pid; node = nid } ∷ rest)

-- `node_part_threads[tid][pid]`
unfoldable pub of_thread : ℕ → ℕ → List Placed → List ℤ
of_thread tid pid [] = []
of_thread tid pid (x ∷ xs) =
    let rest = of_thread tid pid xs in
    if x.thread == tid && x.part == pid then x.node ∷ rest else rest

-- The nodes of a part, of the threads from `tid` on.
unfoldable pub of_threads : ℕ → ℕ → ℕ → List Placed → List ℤ
unfolding of_thread
of_threads zero tid pid xs = []
of_threads (suc n) tid pid xs = of_thread tid pid xs ++ of_threads n (suc tid) pid xs

unfoldable pub parts_from : ℕ → ℕ → ℕ → List Placed → List (List ℤ)
unfolding of_threads
parts_from threads zero pid xs = []
parts_from threads (suc n) pid xs = of_threads threads 0 pid xs ∷ parts_from threads n (suc pid) xs

unfoldable pub divide_nodes_to_part : (ℕ → ℕ) → ℕ → List ℤ → List ℤ → Result (List (List ℤ))
unfolding place_nodes parts_from
divide_nodes_to_part thread_of threads nodes [] = err fault
divide_nodes_to_part thread_of threads nodes (begin ∷ ends) = do
  placed ← place_nodes thread_of (begin ∷ ends) 0 nodes
  ok (parts_from threads (length ends) 0 placed)
