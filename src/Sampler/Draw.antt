-- ===== src/Sampler/Draw.antt =====
-- sampler.h: what `neighbor_sample_from_nodes_with_before_layer_data` draws for one node.
-- `start_index` and `end_index` bound the edges that may be drawn. A list that is too short is read
-- outside its end, a `fault`. Not modelled: `sample_weight`, which only export.cpp reads.
pub mod Range
pub mod Causal
pub mod Total
use starrygl_tmp.Prelude.{
  ℕ, zero, suc, ◌+◌, ◌-◌, ◌*◌, ◌≤◌, ◌<◌, ltb, leb, ◌==◌, ℤ, ◌-ℤ◌, Bool, true, false, not, ◌&&◌,
  ◌||◌, List, [], ◌∷◌, get_elem?, length, if◌then◌else◌, Result, ok, err, fault, or_err, ◌>>=◌,
}
use starrygl_tmp.Bounds.{lower_bound, upper_bound}
use starrygl_tmp.Sampler.Seeds.{stateless_mod, stateless_uniform_bits}
use starrygl_tmp.Sampler.Boundary.{Parts, is_boundary_candidate}

-- The policies that `neighbor_sample_from_nodes` accepts.
pub data Policy : Type 0 where
  recent uniform weighted dtdg_uniform : Policy
  boundery_uniform boundery_recent_uniform boundery_recent_decay : Policy

-- The lists of one node in the `TemporalNeighborBlock`.
pub record History : Type 0 where
  pub neighbors : List ℤ
  pub timestamps : List ℤ
  pub edge_ids : List ℤ

-- An entry of a `TemporalGraphBlock`; `src_index` is the position of the node that was sampled for.
pub record Sample : Type 0 where
  pub src_index : ℕ
  pub node : ℤ
  pub ts : ℤ
  pub delta : ℤ
  pub eid : ℤ

-- The edge at the position `cid`.
unfoldable pub sample_at : History → ℤ → ℕ → ℕ → Result Sample
sample_at h rtts i cid = do
  node ← or_err (get_elem? h.neighbors cid) fault
  ts ← or_err (get_elem? h.timestamps cid) fault
  eid ← or_err (get_elem? h.edge_ids cid) fault
  ok (record { src_index = i; node = node; ts = ts; delta = rtts -ℤ ts; eid = eid })

-- `n` edges from the position `cid` on.
unfoldable pub sample_range : History → ℤ → ℕ → ℕ → ℕ → Result (List Sample)
unfolding sample_at
sample_range h rtts i zero cid = ok []
sample_range h rtts i (suc n) cid = do
  s ← sample_at h rtts i cid
  rest ← sample_range h rtts i n (suc cid)
  ok (s ∷ rest)

-- The last edges before the position `end`, at most `2 * fanout` of them, until `fanout` have been
-- taken. An edge that `skips` holds of is left out.
unfoldable pub scan_back :
    History → ℤ → ℕ → ℕ → (ℕ → ℤ → ℤ → Bool) → ℕ → ℕ → ℕ → Result (List Sample)
unfolding sample_at
scan_back h rtts i fanout skips zero cal_cnt cnt = ok []
scan_back h rtts i fanout skips (suc cid) cal_cnt cnt =
    let more = scan_back h rtts i fanout skips cid (suc cal_cnt) cnt in
    let next = scan_back h rtts i fanout skips cid (suc cal_cnt) (suc cnt) in
    if ltb (2 * fanout) (suc cal_cnt) then ok [] else (do
      s ← sample_at h rtts i cid
      if skips cid s.eid s.node
          then more
          else if leb fanout (suc cnt)
          then ok (s ∷ [])
          else (do rest ← next; ok (s ∷ rest)))

-- The draws from `draw` on, `n` of them; `position` gives the edge of a draw.
unfoldable pub draw_all : History → ℤ → ℕ → (ℕ → ℕ) → ℕ → ℕ → Result (List Sample)
unfolding sample_at
draw_all h rtts i position zero draw = ok []
draw_all h rtts i position (suc n) draw = do
  s ← sample_at h rtts i (position draw)
  rest ← draw_all h rtts i position n (suc draw)
  ok (s ∷ rest)

-- What a layer is sampled with. Floating point arithmetic is a parameter: `above` tells whether a
-- random number, given by its 53 bits, is greater than `boundery_probility`; `decay_above`
-- whether it is greater than the probability of the edge at a position under the decaying policy, for a
-- fanout; and `multinomial` draws a position by weight.
pub record Settings : Type 0 where
  pub policy : Policy
  pub base_seed : ℕ
  pub parts : Parts
  pub above : ℕ → Bool
  pub decay_above : ℕ → History → ℤ → ℕ → ℕ → Bool
  pub multinomial : ℕ → ℕ → ℕ

abbrev pub is_dtdg : Policy → Bool
is_dtdg dtdg_uniform = true
is_dtdg _ = false

abbrev pub is_recent : Policy → Bool
is_recent recent = true
is_recent _ = false

-- `policy.substr(0,8) == "boundery"`
abbrev pub is_boundery : Policy → Bool
is_boundery boundery_uniform = true
is_boundery boundery_recent_uniform = true
is_boundery boundery_recent_decay = true
is_boundery _ = false

abbrev pub start_of : Policy → ℤ → List ℤ → ℕ
start_of p rtts timestamps = if is_dtdg p then lower_bound rtts timestamps else 0

abbrev pub end_of : Policy → ℤ → List ℤ → ℕ
end_of p rtts timestamps =
    if is_dtdg p then upper_bound rtts timestamps else lower_bound rtts timestamps

-- The salt of the boundary policies.
abbrev pub salt_of : Policy → ℕ
salt_of boundery_uniform = 0xB0A0D00D
salt_of boundery_recent_uniform = 0xB001D00D
salt_of _ = 0xDECADA7A

-- Whether a boundary policy leaves the edge out: a candidate is, if its random number is too great. The
-- decaying policy has probabilities for the last `fanout` edges only, and leaves out candidates before.
unfoldable pub skips : Settings → ℕ → ℕ → History → ℤ → ℕ → ℕ → ℕ → ℤ → ℤ → Bool
unfolding is_boundary_candidate stateless_uniform_bits
skips x fanout end_index h rtts layer i cid eid node =
    let bits = stateless_uniform_bits x.base_seed layer i cid (salt_of x.policy) in
    is_boundary_candidate x.parts eid node && (elim x.policy [
      | boundery_recent_decay ↦ ltb fanout (end_index - cid) || x.decay_above fanout h rtts cid bits
      | _ ↦ x.above bits
    ])

-- The position of a draw.
unfoldable pub position_of : Settings → ℕ → ℕ → ℕ → ℕ → ℕ → ℕ
unfolding stateless_mod
position_of x layer i start_index end_index draw = elim x.policy [
  | dtdg_uniform ↦
      start_index + stateless_mod x.base_seed layer i draw (end_index - start_index) 0xD7D60001
  | weighted ↦ x.multinomial i draw
  | _ ↦ stateless_mod x.base_seed layer i draw end_index 0xA11CE001
]

-- One turn of the loop over the nodes of a layer.
unfoldable pub sample_node : Settings → ℕ → ℕ → ℕ → History → ℤ → Result (List Sample)
unfolding lower_bound upper_bound sample_range scan_back draw_all skips position_of
sample_node x fanout layer i h rtts =
    let start_index = start_of x.policy rtts h.timestamps in
    let end_index = end_of x.policy rtts h.timestamps in
    if is_dtdg x.policy && leb end_index start_index
    then ok []
    else if is_dtdg x.policy && leb (end_index - start_index) fanout
    then sample_range h rtts i (end_index - start_index) start_index
    else if is_recent x.policy || (leb end_index fanout && not (is_boundery x.policy))
    then sample_range h rtts i (end_index - (end_index - fanout)) (end_index - fanout)
    else if is_boundery x.policy
    then scan_back h rtts i fanout (skips x fanout end_index h rtts layer i) end_index 0 0
    else draw_all h rtts i (position_of x layer i start_index end_index) fanout 0
