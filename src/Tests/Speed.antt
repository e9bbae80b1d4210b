-- ===== src/Tests/Speed.antt =====
-- sampler/speed_partition.cpp on a small graph, with whole numbers for `double`.
use starrygl_tmp.Prelude.{
  replicate, ℕ, ◌/◌, ℤ, pos, negsuc, ltb_ℤ, ℤ-discrete, ◌+ℤ◌, ◌-ℤ◌, ◌*ℤ◌, pos_part, Bool, true,
  false, not, List, [], ◌∷◌, map, ok, err, torch_check, Returns, ReturnsOr, if◌then◌else◌, ◌≡◌, inr,
  refl, arith,
}
use starrygl_tmp.Speed.Doubles.{Doubles}
use starrygl_tmp.Speed.State.{SpeedState, initial}
use starrygl_tmp.Speed.Invariant.{IsState}
use starrygl_tmp.Speed.Step.{perform_step}
use starrygl_tmp.Speed.Step.Laws.{perform_step-IsState}
use starrygl_tmp.Speed.Partition.{speed_partition}
use starrygl_tmp.Speed.Chunks.{Matrix}
use starrygl_tmp.Speed.Assignment.{assign_chunks_temporal_balance}
use starrygl_tmp.Speed.Exchange.Balance.{IsBalanced, assign_chunks_temporal_balance-IsBalanced}
use starrygl_tmp.Speed.Partition.Start.{initial-IsState}
use starrygl_tmp.Speed.Partition.Laws.{IsPartition}
use starrygl_tmp.Speed.Partition.Checks.{
  cpu_vector, edges_of, speed_partition-IsPartition, speed_partition-err,
}

-- Quotients are cut off, `exp` is 1, and the small constants are 0.
abbrev pub whole : Doubles ℤ
whole = record {
  of_int = λ z. z;
  to_int = λ z. z;
  add = ◌+ℤ◌;
  sub = ◌-ℤ◌;
  mul = ◌*ℤ◌;
  div = λ a b. a;
  neg = λ a. pos 0 -ℤ a;
  exp = λ a. pos 1;
  abs = λ a. if ltb_ℤ a (pos 0) then pos 0 -ℤ a else a;
  sqrt = λ a. a;
  floor = λ a. pos (pos_part a / 4);
  min = λ a b. if ltb_ℤ b a then b else a;
  max = λ a b. if ltb_ℤ a b then b else a;
  lt = ltb_ℤ;
  le = λ a b. not (ltb_ℤ b a);
  infinity = pos 1000000;
  eps = pos 1;
  nano = pos 0;
  micro = pos 0;
  tenth = pos 0;
  hundredth = pos 0;
}

abbrev src : List ℕ
src = 0 ∷ 1 ∷ 2 ∷ 0 ∷ 1 ∷ []

abbrev dst : List ℕ
dst = 1 ∷ 2 ∷ 3 ∷ 3 ∷ 3 ∷ []

abbrev times : List ℤ
times = pos 1 ∷ pos 2 ∷ pos 3 ∷ pos 4 ∷ pos 5 ∷ []

-- Node 1 has the most edges and is hot; node 4 has none, and is in no part.
speed_partition_run :
    speed_partition whole
      (cpu_vector (map (λ u. pos u) src))
      (cpu_vector (map (λ v. pos v) dst))
      (cpu_vector times)
      (pos 5)
      (pos 2)
      (pos 1)
      (pos 1)
      false
    ≡ ok (record {
      node_master = pos 0 ∷ pos 1 ∷ pos 1 ∷ pos 0 ∷ pos 0 ∷ [];
      edge_owner = pos 0 ∷ pos 1 ∷ pos 0 ∷ pos 0 ∷ pos 0 ∷ [];
      replica_mask = false ∷ true ∷ false ∷ false ∷ false ∷ [];
      shared_node_ids = 1 ∷ [];
      shared_node_parts = (pos 0 ∷ pos 1 ∷ []) ∷ [];
      hot_node_ids = 1 ∷ [];
      locals_by_part =
          (record { replica_nodes = 1 ∷ []; owned_nodes = 0 ∷ 3 ∷ []; shadow_nodes = [] })
          ∷ (record { replica_nodes = 1 ∷ []; owned_nodes = 2 ∷ []; shadow_nodes = [] })
          ∷ [];
      edge_ids_by_part = (0 ∷ 2 ∷ 3 ∷ 4 ∷ []) ∷ (1 ∷ []) ∷ [];
      dropped_edges = [];
    })
unfolding speed_partition ◌+ℤ◌ ◌-ℤ◌ ◌*ℤ◌ ℤ-discrete
speed_partition_run = refl

speed_partition-IsPartition_example :
    Returns
      (speed_partition whole
        (cpu_vector (map (λ u. pos u) src))
        (cpu_vector (map (λ v. pos v) dst))
        (cpu_vector times)
        (pos 5)
        (pos 2)
        (pos 1)
        (pos 1)
        false)
      (λ r.
        (is_hot : List Bool) × (s : SpeedState ℤ) × IsPartition whole 5 2
          (edges_of src dst times)
          (pos 1)
          false
          is_hot
          s
          r)
speed_partition-IsPartition_example =
    speed_partition-IsPartition whole src dst times 5 2 (pos 1) (pos 1) false (omega arith)
      (omega arith) refl refl (omega arith) (omega arith)

speed_partition-err_example :
    speed_partition whole
      (cpu_vector (pos 0 ∷ pos 1 ∷ []))
      (cpu_vector (pos 2 ∷ negsuc 0 ∷ []))
      (cpu_vector (pos 1 ∷ pos 2 ∷ []))
      (pos 3)
      (pos 2)
      (pos 1)
      (pos 1)
      true
    ≡ err torch_check
speed_partition-err_example =
    speed_partition-err whole (pos 0 ∷ pos 1 ∷ []) (pos 2 ∷ negsuc 0 ∷ []) (pos 1 ∷ pos 2 ∷ []) 3 2
      (pos 1) (pos 1) true 1 (pos 1) (negsuc 0) (omega arith) (omega arith) refl refl refl refl
      (inr tt)

abbrev hot_marks : List Bool
hot_marks = false ∷ true ∷ false ∷ false ∷ false ∷ []

perform_step-IsState_example :
    Returns
      (perform_step whole hot_marks (initial whole 5 5 2) 0 1 0 (pos 1) (pos 0) 1 0)
      (IsState hot_marks 5 2 1)
perform_step-IsState_example =
    perform_step-IsState whole hot_marks 5 2 0 refl (initial whole 5 5 2) 0 1 (pos 1) (pos 0) 1 0
      (omega arith) (initial-IsState whole 5 2 hot_marks 5) (omega arith) (omega arith)

-- Two slices with the loads of four chunks.
abbrev loads : Matrix ℤ
loads = record {
  dim = 2;
  is_cpu = true;
  rows = 2;
  columns = 4;
  values = pos 5 ∷ pos 1 ∷ pos 4 ∷ pos 2 ∷ pos 1 ∷ pos 1 ∷ pos 3 ∷ pos 2 ∷ [];
}

abbrev affinities : Matrix ℤ
affinities = record { dim = 2; is_cpu = true; rows = 4; columns = 4; values = replicate 16 (pos 1) }

-- The two busiest chunks, 0 and 2, are in different ranks.
assign_chunks_temporal_balance_run :
    assign_chunks_temporal_balance whole loads affinities (pos 2) (pos 2) (pos 1) (pos 3)
    ≡ ok (pos 1 ∷ pos 1 ∷ pos 0 ∷ pos 0 ∷ [])
unfolding assign_chunks_temporal_balance ◌+ℤ◌ ◌-ℤ◌ ◌*ℤ◌ ℤ-discrete
assign_chunks_temporal_balance_run = refl

assign_chunks_temporal_balance-IsBalanced_example :
    ReturnsOr torch_check
      (assign_chunks_temporal_balance whole loads affinities (pos 2) (pos 2) (pos 1) (pos 3))
      (IsBalanced 2 4 2)
assign_chunks_temporal_balance-IsBalanced_example =
    assign_chunks_temporal_balance-IsBalanced whole loads affinities (pos 2) (pos 2) (pos 1) (pos 3)
      refl refl
