-- ===== src/Tppr/Stream/Laws.antt =====
-- The streaming functions read and write within the arrays.
use starrygl_tmp.Prelude.{
  ℕ, suc, ◌+◌, ◌*◌, ◌/◌, ◌<◌, ◌≤◌, ℤ, pos, List, [], ◌∷◌, length, replicate, get_or, get_elem?,
  some, fetch, modify, fetch-of-lt, for_range, for_range-Returns, Returns, >>=-Returns, ok-Returns,
  fetch-Returns, modify-Returns, length-replicate, ◌≡◌, refl, arith,
}
use starrygl_tmp.Speed.Doubles.{Doubles}
use starrygl_tmp.Speed.State.{nought}
use starrygl_tmp.Speed.Scores.Laws.{Ends}
use starrygl_tmp.Tppr.{PprKey, PprMap, TpprState, update_edge}
use starrygl_tmp.Tppr.Laws.{IsTppr, update_edge-IsTppr}
use starrygl_tmp.Tppr.Stream.{
  TpprBlock, empty_block, node_at, write_entries, block_of, extract_streaming_tppr, Streaming,
  extract_at, update_at, stream_edge, single_streaming_topk, stream_edge_no_fake,
  streaming_topk_no_fake, compute_val_tppr,
}

-- The numbers are nodes below `n`.
abbrev pub AreNodes : ℕ → List ℤ → Type 0
AreNodes n nodes =
    (i : ℕ) → i < length nodes → (v : ℕ) × (get_elem? nodes i ≡ some (pos v)) × (v < n)

node_at-lt :
    (n : ℕ) (nodes : List ℤ) (i : ℕ)
    → AreNodes n nodes
    → i < length nodes
    → Returns (node_at nodes i) (λ v. v < n)
unfolding node_at fetch
node_at-lt n nodes i are lt = let (v, at, v_lt) = are i lt in (v, rw at refl, v_lt)

module _ {D : Type 0} (d : Doubles D) (to_float : D → D) (hm : PprMap D) (fanout : ℕ) where
  -- The vectors have the length `fanout`.
  record IsSized (b : TpprBlock D) : Type 0 where
    sample_nodes_len : length b.sample_nodes ≡ fanout
    eid_len : length b.eid ≡ fanout
    sample_nodes_ts_len : length b.sample_nodes_ts ≡ fanout
    e_weights_len : length b.e_weights ≡ fanout
    delta_ts_len : length b.delta_ts ≡ fanout

  write_entries-Ends :
      (current_ts : ℤ) (j : ℕ) (entries : List (PprKey × D)) (b : TpprBlock D)
      → j + length entries ≤ fanout
      → IsSized b
      → Ends (write_entries d to_float hm fanout current_ts j entries b)
  unfolding write_entries
  write_entries-Ends current_ts j [] b le is = (b, refl, tt)
  write_entries-Ends current_ts j ((k, weight) ∷ entries) b le is =
      let lt : j < fanout = omega (arith, le) in
      >>=-Returns (modify b.sample_nodes j _) _
        (modify-Returns b.sample_nodes j fanout _ is.sample_nodes_len lt)
        (λ b₁ len₁.
          >>=-Returns (modify b.eid j _) _ (modify-Returns b.eid j fanout _ is.eid_len lt)
            (λ b₂ len₂.
              >>=-Returns (modify b.sample_nodes_ts j _) _
                (modify-Returns b.sample_nodes_ts j fanout _ is.sample_nodes_ts_len lt)
                (λ b₃ len₃.
                  >>=-Returns (modify b.e_weights j _) _
                    (modify-Returns b.e_weights j fanout _ is.e_weights_len lt)
                    (λ b₄ len₄.
                      >>=-Returns (modify b.delta_ts j _) _
                        (modify-Returns b.delta_ts j fanout _ is.delta_ts_len lt)
                        (λ b₅ len₅.
                          write_entries-Ends current_ts (suc j) entries
                            (record {
                              sample_nodes = b₁;
                              eid = b₂;
                              sample_nodes_ts = b₃;
                              e_weights = b₄;
                              delta_ts = b₅;
                            })
                            (omega (arith, le))
                            (record {
                              sample_nodes_len = len₁;
                              eid_len = len₂;
                              sample_nodes_ts_len = len₃;
                              e_weights_len = len₄;
                              delta_ts_len = len₅;
                            }))))))

  block_of-Ends :
      (entries : List (PprKey × D)) (current_ts : ℤ)
      → length entries ≤ fanout
      → Ends (block_of d to_float hm fanout entries current_ts)
  unfolding block_of
  block_of-Ends [] current_ts le = (empty_block, refl, tt)
  block_of-Ends (e ∷ entries) current_ts le =
      write_entries-Ends current_ts 0 (e ∷ entries) _ (omega (arith, le)) (record {
        sample_nodes_len = length-replicate fanout (pos 0);
        eid_len = length-replicate fanout (pos 0);
        sample_nodes_ts_len = length-replicate fanout (pos 0);
        e_weights_len = length-replicate fanout (nought d);
        delta_ts_len = length-replicate fanout (pos 0);
      })

  -- The state is in order, and there is a block for each position.
  abbrev pub IsStreaming : ℕ → ℕ → Streaming d to_float hm fanout → Type 0
  IsStreaming n positions x = IsTppr hm fanout n x.state × (length x.ret ≡ positions)

  extract_at-IsStreaming :
      (n : ℕ) (src_nodes : List ℤ) (ts : ℤ) (position : ℕ) (x : Streaming d to_float hm fanout)
      → AreNodes n src_nodes
      → position < length src_nodes
      → IsStreaming n (length src_nodes) x
      → Returns
          (extract_at d to_float hm fanout src_nodes ts position x)
          (IsStreaming n (length src_nodes))
  unfolding extract_at extract_streaming_tppr
  extract_at-IsStreaming n src_nodes ts position x are lt is =
      >>=-Returns (node_at src_nodes position) _ (node_at-lt n src_nodes position are lt) (λ v v_lt.
        ok-Returns _ (fetch-of-lt x.state.ppr_list v hm.empty (rw is.0.ppr_len v_lt)) (
          >>=-Returns
            (extract_streaming_tppr d to_float hm fanout (get_or x.state.ppr_list v hm.empty) ts
              position x.ret)
            _
            (>>=-Returns
              (block_of d to_float hm fanout (hm.entries (get_or x.state.ppr_list v hm.empty)) ts) _
              (block_of-Ends (hm.entries (get_or x.state.ppr_list v hm.empty)) ts
                (is.0.bounded v v_lt))
              (λ b _. modify-Returns x.ret position (length src_nodes) (λ _. b) is.1 lt))
            (λ ret len. (_, refl, (is.0, len)))))

  module _ (alpha beta : ℤ) (src_nodes root_ts eids : List ℤ) (n : ℕ)
      (are : AreNodes n src_nodes) where
    update_at-IsStreaming :
        (n_edges i : ℕ) (x : Streaming d to_float hm fanout)
        → i + n_edges < length src_nodes
        → i < length root_ts
        → i < length eids
        → IsStreaming n (length src_nodes) x
        → Returns
            (update_at d to_float hm fanout alpha beta src_nodes root_ts eids n_edges i x)
            (IsStreaming n (length src_nodes))
    unfolding update_at
    update_at-IsStreaming n_edges i x lt ts_lt eid_lt is =
        >>=-Returns (node_at src_nodes i) _ (node_at-lt n src_nodes i are (omega (arith, lt)))
          (λ src src_lt.
            >>=-Returns (node_at src_nodes (i + n_edges)) _
              (node_at-lt n src_nodes (i + n_edges) are lt)
              (λ dst dst_lt.
                >>=-Returns (fetch root_ts i) _
                  (fetch-Returns root_ts i (length root_ts) refl ts_lt)
                  (λ ts _.
                    >>=-Returns (fetch eids i) _ (fetch-Returns eids i (length eids) refl eid_lt)
                      (λ eid _.
                        >>=-Returns
                          (update_edge d to_float hm fanout alpha beta src dst eid ts x.state) _
                          (update_edge-IsTppr d to_float hm fanout alpha beta n src dst eid ts
                            x.state src_lt dst_lt is.0)
                          (λ state is_state. (_, refl, (is_state, is.1)))))))

    stream_edge-IsStreaming :
        (n_edges i : ℕ) (x : Streaming d to_float hm fanout)
        → i + n_edges * 2 < length src_nodes
        → i < length root_ts
        → i < length eids
        → IsStreaming n (length src_nodes) x
        → Returns
            (stream_edge d to_float hm fanout alpha beta src_nodes root_ts eids n_edges i x)
            (IsStreaming n (length src_nodes))
    unfolding stream_edge
    stream_edge-IsStreaming n_edges i x lt ts_lt eid_lt is =
        >>=-Returns (fetch root_ts i) _ (fetch-Returns root_ts i (length root_ts) refl ts_lt)
          (λ ts _.
            >>=-Returns (extract_at d to_float hm fanout src_nodes ts i x) _
              (extract_at-IsStreaming n src_nodes ts i x are (omega (arith, lt)) is)
              (λ x₁ is₁.
                >>=-Returns (extract_at d to_float hm fanout src_nodes ts (i + n_edges) x₁) _
                  (extract_at-IsStreaming n src_nodes ts (i + n_edges) x₁ are (omega (arith, lt))
                    is₁)
                  (λ x₂ is₂.
                    >>=-Returns (extract_at d to_float hm fanout src_nodes ts (i + n_edges * 2) x₂)
                      _ (extract_at-IsStreaming n src_nodes ts (i + n_edges * 2) x₂ are lt is₂)
                      (λ x₃ is₃.
                        update_at-IsStreaming n_edges i x₃ (omega (arith, lt)) ts_lt eid_lt is₃))))

    stream_edge_no_fake-IsStreaming :
        (n_edges i : ℕ) (x : Streaming d to_float hm fanout)
        → i + n_edges < length src_nodes
        → i < length root_ts
        → i < length eids
        → IsStreaming n (length src_nodes) x
        → Returns
            (stream_edge_no_fake d to_float hm fanout alpha beta src_nodes root_ts eids n_edges i x)
            (IsStreaming n (length src_nodes))
    unfolding stream_edge_no_fake
    stream_edge_no_fake-IsStreaming n_edges i x lt ts_lt eid_lt is =
        >>=-Returns (fetch root_ts i) _ (fetch-Returns root_ts i (length root_ts) refl ts_lt)
          (λ ts _.
            >>=-Returns (extract_at d to_float hm fanout src_nodes ts i x) _
              (extract_at-IsStreaming n src_nodes ts i x are (omega (arith, lt)) is)
              (λ x₁ is₁.
                >>=-Returns (extract_at d to_float hm fanout src_nodes ts (i + n_edges) x₁) _
                  (extract_at-IsStreaming n src_nodes ts (i + n_edges) x₁ are lt is₁)
                  (λ x₂ is₂. update_at-IsStreaming n_edges i x₂ lt ts_lt eid_lt is₂)))

    -- Both streaming functions return, and read and write only within their arrays; afterwards every node
    -- has no more than `fanout` entries still, and there is a block for each of `src_nodes`. This asks for
    -- a state where that holds, for nodes below `num_nodes`, for no fewer of them than `num_nodes`, and for
    -- a time and an id for each of the `num_nodes / 2` edges.
    pub single_streaming_topk-IsStreaming :
        (state : TpprState hm.Map D)
        → n ≤ length src_nodes
        → n / 2 ≤ length root_ts
        → n / 2 ≤ length eids
        → IsTppr hm fanout n state
        → Returns
            (single_streaming_topk d to_float hm fanout alpha beta src_nodes root_ts eids n state)
            (IsStreaming n (length src_nodes))
          × Returns
              (streaming_topk_no_fake d to_float hm fanout alpha beta src_nodes root_ts eids n
                state)
              (IsStreaming n (length src_nodes))
    unfolding single_streaming_topk streaming_topk_no_fake
    single_streaming_topk-IsStreaming state some_nodes some_ts some_eids is =
        let start : Streaming d to_float hm fanout = record {
          state = state;
          ret = replicate (length src_nodes) empty_block;
        } in
        (
          for_range-Returns _ (λ _. IsStreaming n (length src_nodes)) (n / 3)
              (λ i x lt is'.
                stream_edge-IsStreaming (n / 3) i x (omega (arith, lt, some_nodes))
                  (omega (arith, lt, some_ts)) (omega (arith, lt, some_eids)) is')
              0 (n / 3) start (omega arith) (is, length-replicate (length src_nodes) empty_block),
          for_range-Returns _ (λ _. IsStreaming n (length src_nodes)) (n / 2)
              (λ i x lt is'.
                stream_edge_no_fake-IsStreaming (n / 2) i x (omega (arith, lt, some_nodes))
                  (omega (arith, lt, some_ts)) (omega (arith, lt, some_eids)) is')
              0 (n / 2) start (omega arith) (is, length-replicate (length src_nodes) empty_block),
        )

    -- The replay of edges returns, and reads and writes only within its arrays; afterwards every node has
    -- no more than `fanout` entries still, and the lists for the validation, `val_norm_list` and
    -- `val_PPR_list`, are the `norm_list` and the `PPR_list` after the replay. This asks for a state where
    -- the bound holds, for nodes below `num_nodes`, and for arrays as long as the one of the sources.
    pub compute_val_tppr-IsTppr :
        (dst_nodes : List ℤ) (state : TpprState hm.Map D)
        → AreNodes n dst_nodes
        → length dst_nodes ≡ length src_nodes
        → length root_ts ≡ length src_nodes
        → length eids ≡ length src_nodes
        → IsTppr hm fanout n state
        → Returns
            (compute_val_tppr d to_float hm fanout alpha beta src_nodes root_ts eids dst_nodes
              state)
            (λ r.
              IsTppr hm fanout n r.state
              × (r.val_norm_list ≡ r.state.norm_list)
              × (r.val_ppr_list ≡ r.state.ppr_list))
    unfolding compute_val_tppr
    compute_val_tppr-IsTppr dst_nodes state are_dst dst_len ts_len eid_len is =
        >>=-Returns (for_range _ 0 (length src_nodes) state) _
          (for_range-Returns _ (λ _. IsTppr hm fanout n) (length src_nodes)
            (λ i s lt is'.
              >>=-Returns (node_at src_nodes i) _ (node_at-lt n src_nodes i are lt) (λ src src_lt.
                >>=-Returns (node_at dst_nodes i) _
                  (node_at-lt n dst_nodes i are_dst (rw dst_len lt))
                  (λ dst dst_lt.
                    >>=-Returns (fetch root_ts i) _
                      (fetch-Returns root_ts i (length src_nodes) ts_len lt)
                      (λ ts _.
                        >>=-Returns (fetch eids i) _
                          (fetch-Returns eids i (length src_nodes) eid_len lt)
                          (λ eid _.
                            update_edge-IsTppr d to_float hm fanout alpha beta n src dst eid ts s
                              src_lt dst_lt is')))))
            0 (length src_nodes) state (omega arith) is)
          (λ state' is'. (_, refl, (is', refl, refl)))
