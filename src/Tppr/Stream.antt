-- ===== src/Tppr/Stream.antt =====
-- sampler/include/tppr.h: `extract_streaming_tppr`, `single_streaming_topk`, `streaming_topk_no_fake` and
-- `compute_val_tppr`.
pub mod Laws
use starrygl_tmp.Prelude.{
  ℕ, zero, suc, ◌+◌, ◌*◌, ◌/◌, ℤ, pos, to_index, ◌-ℤ◌, Bool, List, [], ◌∷◌, length, replicate,
  Result, ok, fault, or_err, ◌>>=◌, fetch, modify, for_range, if◌then◌else◌,
}
use starrygl_tmp.Speed.Doubles.{Doubles}
use starrygl_tmp.Speed.State.{nought}
use starrygl_tmp.Tppr.{PprKey, PprMap, TpprState, update_edge}

-- What `ret` holds at a position: the vectors of `TemporalGraphBlock` that are filled.
pub record TpprBlock (D : Type 0) : Type 0 where
  pub sample_nodes : List ℤ
  pub eid : List ℤ
  pub sample_nodes_ts : List ℤ
  pub e_weights : List D
  pub delta_ts : List ℤ

abbrev pub empty_block : {D : Type 0} → TpprBlock D
empty_block = record {
  sample_nodes = [];
  eid = [];
  sample_nodes_ts = [];
  e_weights = [];
  delta_ts = [];
}

-- A node number, which is an index. A negative one is out of every array.
unfoldable pub node_at : List ℤ → ℕ → Result ℕ
unfolding fetch
node_at nodes i = do z ← fetch nodes i; or_err (to_index z) fault

module _ {D : Type 0} (d : Doubles D) (to_float : D → D) (hm : PprMap D) (fanout : ℕ) where
  -- The entries, from the place `j` on.
  unfoldable pub write_entries : ℤ → ℕ → List (PprKey × D) → TpprBlock D → Result (TpprBlock D)
  unfolding modify
  write_entries current_ts j [] b = ok b
  write_entries current_ts j ((k, weight) ∷ entries) b = do
    sample_nodes ← modify b.sample_nodes j (λ _. k.node)
    eid ← modify b.eid j (λ _. k.eid)
    sample_nodes_ts ← modify b.sample_nodes_ts j (λ _. k.time)
    e_weights ← modify b.e_weights j (λ _. to_float weight)
    delta_ts ← modify b.delta_ts j (λ _. current_ts -ℤ k.time)
    write_entries current_ts (suc j) entries (record {
      sample_nodes = sample_nodes;
      eid = eid;
      sample_nodes_ts = sample_nodes_ts;
      e_weights = e_weights;
      delta_ts = delta_ts;
    })

  -- The block of one position: all its vectors have the length `fanout`, unless there is no entry.
  unfoldable pub block_of : List (PprKey × D) → ℤ → Result (TpprBlock D)
  unfolding write_entries
  block_of [] current_ts = ok empty_block
  block_of (e ∷ entries) current_ts = write_entries current_ts 0 (e ∷ entries) (record {
    sample_nodes = replicate fanout (pos 0);
    eid = replicate fanout (pos 0);
    sample_nodes_ts = replicate fanout (pos 0);
    e_weights = replicate fanout (nought d);
    delta_ts = replicate fanout (pos 0);
  })

  unfoldable pub extract_streaming_tppr :
      hm.Map → ℤ → ℕ → List (TpprBlock D) → Result (List (TpprBlock D))
  unfolding block_of modify
  extract_streaming_tppr m current_ts position ret = do
    b ← block_of (hm.entries m) current_ts
    modify ret position (λ _. b)

  pub record Streaming : Type 0 where
    pub state : TpprState hm.Map D
    pub ret : List (TpprBlock D)

  -- The lists after `compute_val_tppr`, and the copies of them that the validation starts from.
  pub record Validation : Type 0 where
    pub state : TpprState hm.Map D
    pub val_norm_list : List D
    pub val_ppr_list : List hm.Map

  -- The block of the node that stands at a position of `src_nodes`.
  unfoldable pub extract_at : List ℤ → ℤ → ℕ → Streaming → Result Streaming
  unfolding node_at fetch extract_streaming_tppr
  extract_at src_nodes ts position x = do
    v ← node_at src_nodes position
    m ← fetch x.state.ppr_list v
    ret ← extract_streaming_tppr m ts position x.ret
    ok (record x { ret = ret })

  module _ (alpha beta : ℤ) (src_nodes root_ts eids : List ℤ) where
    -- The edge `i`: the first half of `src_nodes`, or the first third, has the sources.
    unfoldable pub update_at : ℕ → ℕ → Streaming → Result Streaming
    unfolding node_at fetch update_edge
    update_at n_edges i x = do
      src ← node_at src_nodes i
      dst ← node_at src_nodes (i + n_edges)
      ts ← fetch root_ts i
      eid ← fetch eids i
      state ← update_edge d to_float hm fanout alpha beta src dst eid ts x.state
      ok (record x { state = state })

    unfoldable pub stream_edge : ℕ → ℕ → Streaming → Result Streaming
    unfolding fetch extract_at update_at
    stream_edge n_edges i x = do
      ts ← fetch root_ts i
      x₁ ← extract_at src_nodes ts i x
      x₂ ← extract_at src_nodes ts (i + n_edges) x₁
      x₃ ← extract_at src_nodes ts (i + n_edges * 2) x₂
      update_at n_edges i x₃

    -- The blocks are made anew, one for each of `src_nodes`.
    unfoldable pub single_streaming_topk : ℕ → TpprState hm.Map D → Result Streaming
    unfolding for_range stream_edge
    single_streaming_topk num_nodes state =
        for_range (stream_edge (num_nodes / 3)) 0 (num_nodes / 3)
          (record { state = state; ret = replicate (length src_nodes) empty_block })

    unfoldable pub stream_edge_no_fake : ℕ → ℕ → Streaming → Result Streaming
    unfolding fetch extract_at update_at
    stream_edge_no_fake n_edges i x = do
      ts ← fetch root_ts i
      x₁ ← extract_at src_nodes ts i x
      x₂ ← extract_at src_nodes ts (i + n_edges) x₁
      update_at n_edges i x₂

    unfoldable pub streaming_topk_no_fake : ℕ → TpprState hm.Map D → Result Streaming
    unfolding for_range stream_edge_no_fake
    streaming_topk_no_fake num_nodes state =
        for_range (stream_edge_no_fake (num_nodes / 2)) 0 (num_nodes / 2)
          (record { state = state; ret = replicate (length src_nodes) empty_block })

    -- `src_nodes` and `dst_nodes` are two arrays. The lists are copied at the end.
    unfoldable pub compute_val_tppr : List ℤ → TpprState hm.Map D → Result Validation
    unfolding for_range node_at fetch update_edge
    compute_val_tppr dst_nodes state = do
      state' ←
          for_range
            (λ i s. do
              src ← node_at src_nodes i
              dst ← node_at dst_nodes i
              ts ← fetch root_ts i
              eid ← fetch eids i
              update_edge d to_float hm fanout alpha beta src dst eid ts s)
            0 (length src_nodes) state
      ok (record {
        state = state';
        val_norm_list = state'.norm_list;
        val_ppr_list = state'.ppr_list;
      })
