-- ===== src/Sampler/Draw/Causal.antt =====
-- What is sampled for a node at a time is in its past, or, by time slices, in that slice.
use mathlib.Core.Path.{subst}
use starrygl_tmp.Prelude.{
  eq_of_parts, ℕ, zero, suc, ◌-◌, ◌≤◌, ◌<◌, leb, ℤ, ltb_ℤ, Bool, true, false, ◌&&◌, List, length,
  get_elem?, some, Result, ok, fault, or_err, >>=-eq-ok, ok_inj, ◌≡◌, ◌≢◌, refl, ap, sym, ◌∙◌,
  arith, Bool-cases, Option-cases, inl, inr, if◌then◌else◌,
}
use starrygl_tmp.Bounds.{
  lower_bound, upper_bound, before-lower_bound, before-upper_bound, from-lower_bound,
}
use starrygl_tmp.Sort.Laws.{IsSorted}
use starrygl_tmp.Sampler.Seeds.Laws.{stateless_mod-lt}
use starrygl_tmp.Sampler.Draw.{
  Policy, weighted, dtdg_uniform, recent, uniform, boundery_uniform, boundery_recent_uniform,
  boundery_recent_decay, History, Sample, sample_at, sample_range, scan_back, Settings, start_of,
  end_of, skips, position_of, sample_node,
}
use starrygl_tmp.Sampler.Draw.Range.{
  All, All-map, IsEdgeIn, sample_range-IsEdgeIn, draw_all-IsEdgeIn, scan_back-IsEdgeIn,
  scan_back-zero,
}

abbrev pub with_policy : Settings → Policy → Settings
with_policy x p = record {
  policy = p;
  base_seed = x.base_seed;
  parts = x.parts;
  above = x.above;
  decay_above = x.decay_above;
  multinomial = x.multinomial;
}

-- The samples are edges that may be drawn, at most `fanout` of them.
abbrev pub AreDrawn : Policy → ℕ → History → ℤ → ℕ → List Sample → Type 0
AreDrawn p fanout h rtts i ss =
    (All (IsEdgeIn h rtts i (start_of p rtts h.timestamps) (end_of p rtts h.timestamps)) ss)
    × (length ss ≤ fanout)

sample_at-ts :
    (h : History) (rtts : ℤ) (i cid : ℕ) (s : Sample)
    → sample_at h rtts i cid ≡ ok s
    → get_elem? h.timestamps cid ≡ some s.ts
unfolding sample_at
sample_at-ts h rtts i cid s e =
    let (node, _, e1) = >>=-eq-ok (or_err (get_elem? h.neighbors cid) fault) _ e in
    let (ts, found, e2) = >>=-eq-ok (or_err (get_elem? h.timestamps cid) fault) _ e1 in
    let (eid, _, e3) = >>=-eq-ok (or_err (get_elem? h.edge_ids cid) fault) _ e2 in
    elim (Option-cases (get_elem? h.timestamps cid)) [
      | inl missing ↦ cc (rw missing at found)
      | inr (t, there) ↦
          there ∙ ap some (ok_inj (rw there at found) ∙ ap (λ (s : Sample). s.ts) (ok_inj e3))
    ]

end_of-other :
    (p : Policy)
    → p ≢ dtdg_uniform
    → (rtts : ℤ) (ts : List ℤ) → end_of p rtts ts ≡ lower_bound rtts ts
end_of-other recent n rtts ts = refl
end_of-other uniform n rtts ts = refl
end_of-other weighted n rtts ts = refl
end_of-other dtdg_uniform n rtts ts = absurd (n refl)
end_of-other boundery_uniform n rtts ts = refl
end_of-other boundery_recent_uniform n rtts ts = refl
end_of-other boundery_recent_decay n rtts ts = refl

equal_of : (a b : ℤ) → ltb_ℤ b a ≡ false → ltb_ℤ a b ≡ false → a ≡ b
equal_of a b h k = eq_of_parts a b (ground arith)

module _ (x : Settings) (fanout layer i : ℕ) (h : History) (rtts : ℤ) where
  last_edges :
      (end : ℕ) (ss : List Sample)
      → sample_range h rtts i (end - (end - fanout)) (end - fanout) ≡ ok ss
      → (All (IsEdgeIn h rtts i 0 end) ss) × (length ss ≤ fanout)
  last_edges end ss e =
      let (all, size) = sample_range-IsEdgeIn h rtts i (end - (end - fanout)) (end - fanout) ss e in
      (All-map (λ s (c, le, lt, at). (c, omega arith, omega arith, at)) ss all, omega arith)

  scanned :
      (skip : ℕ → ℤ → ℤ → Bool) (end : ℕ) (ss : List Sample)
      → scan_back h rtts i fanout skip end 0 0 ≡ ok ss
      → (All (IsEdgeIn h rtts i 0 end) ss) × (length ss ≤ fanout)
  scanned skip end ss e = split fanout refl
    where
      split : (f : ℕ) → fanout ≡ f → (All (IsEdgeIn h rtts i 0 end) ss) × (length ss ≤ fanout)
      split zero z = rw (scan_back-zero h rtts i fanout skip end 0 0 ss z e) (tt, omega arith)
      split (suc f) z =
          let (all, size) = scan_back-IsEdgeIn h rtts i fanout skip end 0 0 ss (omega arith) e in
          (all, omega arith)

  pub position_of-uniform :
      (draw end : ℕ) → 0 < end → position_of (with_policy x uniform) layer i 0 end draw < end
  unfolding position_of
  position_of-uniform draw end lt = stateless_mod-lt x.base_seed layer i draw end 0xA11CE001 lt

  pub position_of-dtdg_uniform :
      (draw start end : ℕ)
      → start < end
      → (start ≤ position_of (with_policy x dtdg_uniform) layer i start end draw)
        × (position_of (with_policy x dtdg_uniform) layer i start end draw < end)
  unfolding position_of
  position_of-dtdg_uniform draw start end lt =
      let below =
        stateless_mod-lt x.base_seed layer i draw (end - start) 0xD7D60001 (omega arith) in
      (omega arith, omega arith)

  -- The boundary policies do not take the last edges.
  not_recent : (few : Bool) (r s : Result (List Sample)) → (if few && false then r else s) ≡ s
  not_recent true r s = refl
  not_recent false r s = refl

  pub sample_node-policy :
      (p : Policy) (ss : List Sample)
      → p ≢ weighted
      → sample_node (with_policy x p) fanout layer i h rtts ≡ ok ss
      → AreDrawn p fanout h rtts i ss
  unfolding sample_node
  sample_node-policy recent ss n e = last_edges (lower_bound rtts h.timestamps) ss e
  sample_node-policy weighted ss n e = absurd (n refl)
  sample_node-policy uniform ss n e =
      let end = lower_bound rtts h.timestamps in
      elim (Bool-cases (leb end fanout)) [
        | inl few ↦ last_edges end ss (rw few at e)
        | inr many ↦
            let (all, size) =
              draw_all-IsEdgeIn h rtts i 0 end (position_of (with_policy x uniform) layer i 0 end)
                fanout 0 ss (λ draw. (omega arith, position_of-uniform draw end (ground arith)))
                (rw many at e) in
            (all, omega arith)
      ]
  sample_node-policy dtdg_uniform ss n e =
      let start = lower_bound rtts h.timestamps in
      let end = upper_bound rtts h.timestamps in
      elim (Bool-cases (leb end start)) [
        | inl none_there ↦ rw (← ok_inj (rw none_there at e)) (tt, omega arith)
        | inr there ↦ elim (Bool-cases (leb (end - start) fanout)) [
          | inl few ↦
              let (all, size) =
                sample_range-IsEdgeIn h rtts i (end - start) start ss (rw (there, few) at e) in
              (All-map (λ s (c, le, lt, at). (c, le, ground arith, at)) ss all, ground arith)
          | inr many ↦
              let over : leb end fanout ≡ false = ground arith in
              let (all, size) =
                draw_all-IsEdgeIn h rtts i start end
                  (position_of (with_policy x dtdg_uniform) layer i start end) fanout 0 ss
                  (λ draw. position_of-dtdg_uniform draw start end (ground arith))
                  (rw (there, many, over) at e) in
              (all, omega arith)
        ]
      ]
  sample_node-policy boundery_uniform ss n e =
      scanned
        (skips (with_policy x boundery_uniform) fanout (lower_bound rtts h.timestamps) h rtts layer
          i)
        (lower_bound rtts h.timestamps) ss
        (sym (not_recent (leb (lower_bound rtts h.timestamps) fanout) _ _) ∙ e)
  sample_node-policy boundery_recent_uniform ss n e =
      scanned
        (skips (with_policy x boundery_recent_uniform) fanout (lower_bound rtts h.timestamps) h rtts
          layer i)
        (lower_bound rtts h.timestamps) ss
        (sym (not_recent (leb (lower_bound rtts h.timestamps) fanout) _ _) ∙ e)
  sample_node-policy boundery_recent_decay ss n e =
      scanned
        (skips (with_policy x boundery_recent_decay) fanout (lower_bound rtts h.timestamps) h rtts
          layer i)
        (lower_bound rtts h.timestamps) ss
        (sym (not_recent (leb (lower_bound rtts h.timestamps) fanout) _ _) ∙ e)

  -- Under every policy but the weighted one, and where the timestamps of the node are in order, what is
  -- sampled for the node at the time `rtts` are edges of the node, at most `fanout` of them: edges
  -- before that time or, under `dtdg_uniform`, edges of exactly that time.
  pub sample_node-causal :
      (ss : List Sample)
      → x.policy ≢ weighted
      → IsSorted ltb_ℤ h.timestamps
      → sample_node x fanout layer i h rtts ≡ ok ss
      → (length ss ≤ fanout)
        × (All
            (λ (s : Sample).
              (cid : ℕ) × (sample_at h rtts i cid ≡ ok s)
              × ((x.policy ≢ dtdg_uniform → ltb_ℤ s.ts rtts ≡ true))
              × (x.policy ≡ dtdg_uniform → s.ts ≡ rtts))
            ss)
  sample_node-causal ss n sorted e =
      let (all, size) = sample_node-policy x.policy ss n e in
      (
        size,
        All-map
            (λ s (cid, le, lt, at). (
              cid,
              at,
              λ other.
                  before-lower_bound rtts h.timestamps sorted cid s.ts
                    (subst (λ b. cid < b) (end_of-other x.policy other rtts h.timestamps) lt)
                    (sample_at-ts h rtts i cid s at),
              λ same.
                  equal_of s.ts rtts
                    (before-upper_bound rtts h.timestamps sorted cid s.ts
                      (subst (λ p. cid < end_of p rtts h.timestamps) same lt)
                      (sample_at-ts h rtts i cid s at))
                    (from-lower_bound rtts h.timestamps sorted cid s.ts
                      (subst (λ p. start_of p rtts h.timestamps ≤ cid) same le)
                      (sample_at-ts h rtts i cid s at)),
            ))
            ss all,
      )

  sample_at-src_index : (cid : ℕ) (s : Sample) → sample_at h rtts i cid ≡ ok s → s.src_index ≡ i
  unfolding sample_at
  sample_at-src_index cid s e =
      let (node, _, e1) = >>=-eq-ok (or_err (get_elem? h.neighbors cid) fault) _ e in
      let (ts, _, e2) = >>=-eq-ok (or_err (get_elem? h.timestamps cid) fault) _ e1 in
      let (eid, _, e3) = >>=-eq-ok (or_err (get_elem? h.edge_ids cid) fault) _ e2 in
      sym (ap (λ (s : Sample). s.src_index) (ok_inj e3))

  pub sample_node-earlier :
      (ss : List Sample)
      → x.policy ≢ weighted
      → x.policy ≢ dtdg_uniform
      → IsSorted ltb_ℤ h.timestamps
      → sample_node x fanout layer i h rtts ≡ ok ss
      → (length ss ≤ fanout)
        × (All (λ (s : Sample). (s.src_index ≡ i) × (ltb_ℤ s.ts rtts ≡ true)) ss)
  sample_node-earlier ss n m sorted e =
      let (all, size) = sample_node-policy x.policy ss n e in
      (
        size,
        All-map
            (λ s (cid, le, lt, at). (
              sample_at-src_index cid s at,
              before-lower_bound rtts h.timestamps sorted cid s.ts
                  (subst (λ b. cid < b) (end_of-other x.policy m rtts h.timestamps) lt)
                  (sample_at-ts h rtts i cid s at),
            ))
            ss all,
      )
