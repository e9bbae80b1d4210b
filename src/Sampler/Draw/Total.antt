-- ===== src/Sampler/Draw/Total.antt =====
-- Sampling for a node returns: nothing is read outside the node's lists.
use starrygl_tmp.Prelude.{
  ℕ, zero, suc, ◌+◌, ◌-◌, ◌*◌, ◌≤◌, ◌<◌, leb, ltb, ℤ, pos, Bool, true, false, ◌&&◌, List, length,
  Result, ◌>>=◌, IsOk, IsOk→value, ◌≡◌, ◌≢◌, refl, arith, Bool-cases, inl, inr, if◌then◌else◌,
  get_elem?-of-lt,
}
use starrygl_tmp.Bounds.{lower_bound, upper_bound, lower_bound-le-length, upper_bound-le-length}
use starrygl_tmp.Sampler.Draw.{
  Policy, weighted, dtdg_uniform, recent, uniform, boundery_uniform, boundery_recent_uniform,
  boundery_recent_decay, History, Sample, sample_at, sample_range, scan_back, draw_all, Settings,
  position_of, sample_node,
}
use starrygl_tmp.Sampler.Draw.Causal.{with_policy, position_of-uniform, position_of-dtdg_uniform}

-- The lists of a node have one length.
pub record AreAligned (h : History) : Type 0 where
  pub neighbors : length h.neighbors ≡ length h.timestamps
  pub edge_ids : length h.edge_ids ≡ length h.timestamps

module _ (h : History) (a : AreAligned h) (rtts : ℤ) (i : ℕ) where
  sample_at-IsOk : (cid : ℕ) → cid < length h.timestamps → IsOk (sample_at h rtts i cid)
  unfolding sample_at
  sample_at-IsOk cid lt =
      rw
        (
          get_elem?-of-lt h.neighbors cid (pos 0) (omega (arith, a.neighbors)),
          ◌>>=◌,
          get_elem?-of-lt h.timestamps cid (pos 0) lt,
          get_elem?-of-lt h.edge_ids cid (pos 0) (omega (arith, a.edge_ids)),
        )
        tt

  sample_range-IsOk :
      (n cid : ℕ) → cid + n ≤ length h.timestamps → IsOk (sample_range h rtts i n cid)
  unfolding sample_range
  sample_range-IsOk zero cid le = tt
  sample_range-IsOk (suc n) cid le =
      let (s, here) = IsOk→value _ (sample_at-IsOk cid (omega arith)) in
      let (rest, later) = IsOk→value _ (sample_range-IsOk n (suc cid) (omega arith)) in
      rw (here, ◌>>=◌, later) tt

  draw_all-IsOk :
      (position : ℕ → ℕ)
      → ((draw : ℕ) → position draw < length h.timestamps)
      → (n draw : ℕ) → IsOk (draw_all h rtts i position n draw)
  unfolding draw_all
  draw_all-IsOk position bound zero draw = tt
  draw_all-IsOk position bound (suc n) draw =
      let (s, here) = IsOk→value _ (sample_at-IsOk (position draw) (bound draw)) in
      let (rest, later) = IsOk→value _ (draw_all-IsOk position bound n (suc draw)) in
      rw (here, ◌>>=◌, later) tt

  scan_back-IsOk :
      (fanout : ℕ) (skip : ℕ → ℤ → ℤ → Bool) (n cal_cnt cnt : ℕ)
      → n ≤ length h.timestamps
      → IsOk (scan_back h rtts i fanout skip n cal_cnt cnt)
  unfolding scan_back
  scan_back-IsOk fanout skip zero cal_cnt cnt le = tt
  scan_back-IsOk fanout skip (suc cid) cal_cnt cnt le =
      elim (Bool-cases (ltb (2 * fanout) (suc cal_cnt))) [
        | inl stop ↦ rw stop tt
        | inr on ↦
            let (s, here) = IsOk→value _ (sample_at-IsOk cid (omega arith)) in
            elim (Bool-cases (skip cid s.eid s.node)) [
              | inl left ↦
                  rw (on, here, ◌>>=◌, left)
                    (scan_back-IsOk fanout skip cid (suc cal_cnt) cnt (omega arith))
              | inr kept ↦ elim (Bool-cases (leb fanout (suc cnt))) [
                | inl full ↦ rw (on, here, ◌>>=◌, kept, full) tt
                | inr room ↦
                    let (rest, later) =
                      IsOk→value _
                        (scan_back-IsOk fanout skip cid (suc cal_cnt) (suc cnt) (omega arith)) in
                    rw (on, here, ◌>>=◌, kept, room, later) tt
              ]
            ]
      ]

  boundery-IsOk :
      (fanout end : ℕ) (skip : ℕ → ℤ → ℤ → Bool) (few : Bool) (r : Result (List Sample))
      → end ≤ length h.timestamps
      → IsOk (if few && false then r else scan_back h rtts i fanout skip end 0 0)
  boundery-IsOk fanout end skip true r le = scan_back-IsOk fanout skip end 0 0 le
  boundery-IsOk fanout end skip false r le = scan_back-IsOk fanout skip end 0 0 le

  module _ (x : Settings) (fanout layer : ℕ) where
    sample_node-policy-IsOk :
        (p : Policy) → p ≢ weighted → IsOk (sample_node (with_policy x p) fanout layer i h rtts)
    unfolding sample_node
    sample_node-policy-IsOk weighted n = absurd (n refl)
    sample_node-policy-IsOk recent n =
        let end = lower_bound rtts h.timestamps in
        sample_range-IsOk (end - (end - fanout)) (end - fanout)
          (omega (arith, lower_bound-le-length rtts h.timestamps))
    sample_node-policy-IsOk uniform n =
        let end = lower_bound rtts h.timestamps in
        let inside = lower_bound-le-length rtts h.timestamps in
        elim (Bool-cases (leb end fanout)) [
          | inl few ↦ rw few (sample_range-IsOk (end - (end - fanout)) (end - fanout) (omega arith))
          | inr many ↦
              let bound : 0 < end = ground arith in
              rw many (
                draw_all-IsOk (position_of (with_policy x uniform) layer i 0 end)
                  (λ draw.
                    omega (arith, position_of-uniform x fanout layer i h rtts draw end bound))
                  fanout 0)
        ]
    sample_node-policy-IsOk dtdg_uniform n =
        let start = lower_bound rtts h.timestamps in
        let end = upper_bound rtts h.timestamps in
        let inside = upper_bound-le-length rtts h.timestamps in
        elim (Bool-cases (leb end start)) [
          | inl none_there ↦ rw none_there tt
          | inr there ↦ elim (Bool-cases (leb (end - start) fanout)) [
            | inl few ↦ rw (there, few) (sample_range-IsOk (end - start) start (ground arith))
            | inr many ↦
                let over : leb end fanout ≡ false = ground arith in
                let bound : start < end = ground arith in
                rw (there, many, over)
                  (draw_all-IsOk (position_of (with_policy x dtdg_uniform) layer i start end)
                    (λ draw. omega (
                      arith,
                      (position_of-dtdg_uniform x fanout layer i h rtts draw start end bound).1,
                    ))
                    fanout 0)
          ]
        ]
    sample_node-policy-IsOk boundery_uniform n =
        boundery-IsOk fanout (lower_bound rtts h.timestamps) _ _ _
          (lower_bound-le-length rtts h.timestamps)
    sample_node-policy-IsOk boundery_recent_uniform n =
        boundery-IsOk fanout (lower_bound rtts h.timestamps) _ _ _
          (lower_bound-le-length rtts h.timestamps)
    sample_node-policy-IsOk boundery_recent_decay n =
        boundery-IsOk fanout (lower_bound rtts h.timestamps) _ _ _
          (lower_bound-le-length rtts h.timestamps)

    -- If the lists of a node have one length, sampling for the node returns under every policy but the
    -- weighted one: it throws nothing and reads nothing outside the lists.
    pub sample_node-IsOk : x.policy ≢ weighted → IsOk (sample_node x fanout layer i h rtts)
    sample_node-IsOk n = sample_node-policy-IsOk x.policy n
