-- ===== src/Sampler/Draw/Range.antt =====
-- The samples of a node are edges of the node at positions that may be drawn, at most `fanout`.
use starrygl_tmp.Prelude.{
  ℕ, zero, suc, ◌+◌, ◌*◌, ◌≤◌, ◌<◌, ltb, leb, ℤ, Bool, true, List, [], ◌∷◌, length, ok, >>=-eq-ok,
  ok_inj, ◌≡◌, refl, ap, sym, arith, Bool-cases, inl, inr,
}
use starrygl_tmp.Sampler.Draw.{History, Sample, sample_at, sample_range, scan_back, draw_all}

-- The property holds of each element.
abbrev pub All : {A : Type 0} → (A → Type 0) → List A → Type 0
All P [] = Unit {0}
All P (x ∷ xs) = P x × All P xs

pub All-map :
    {A : Type 0} {P Q : A → Type 0} → ((x : A) → P x → Q x) → (xs : List A) → All P xs → All Q xs
All-map f [] h = tt
All-map f (x ∷ xs) (h, rest) = (f x h, All-map f xs rest)

-- The sample is the edge at a position from `lo` to before `hi`.
abbrev pub IsEdgeIn : History → ℤ → ℕ → ℕ → ℕ → Sample → Type 0
IsEdgeIn h rtts i lo hi s = (cid : ℕ) × (lo ≤ cid) × (cid < hi) × (sample_at h rtts i cid ≡ ok s)

pub sample_range-IsEdgeIn :
    (h : History) (rtts : ℤ) (i n cid : ℕ) (ss : List Sample)
    → sample_range h rtts i n cid ≡ ok ss
    → (All (IsEdgeIn h rtts i cid (cid + n)) ss) × (length ss ≡ n)
unfolding sample_range
sample_range-IsEdgeIn h rtts i zero cid ss e = rw (← ok_inj e) (tt, refl)
sample_range-IsEdgeIn h rtts i (suc n) cid ss e =
    let (s, here, rest) = >>=-eq-ok (sample_at h rtts i cid) _ e in
    let (ss', later, done) = >>=-eq-ok (sample_range h rtts i n (suc cid)) _ rest in
    let (all, size) = sample_range-IsEdgeIn h rtts i n (suc cid) ss' later in
    rw (← ok_inj done) (
      (
        (cid, omega arith, omega arith, here),
        All-map (λ s (c, le, lt, at). (c, omega arith, omega arith, at)) ss' all,
      ),
      ap suc size,
    )

pub draw_all-IsEdgeIn :
    (h : History) (rtts : ℤ) (i lo hi : ℕ) (position : ℕ → ℕ) (n draw : ℕ) (ss : List Sample)
    → ((draw : ℕ) → (lo ≤ position draw) × (position draw < hi))
    → draw_all h rtts i position n draw ≡ ok ss
    → (All (IsEdgeIn h rtts i lo hi) ss) × (length ss ≡ n)
unfolding draw_all
draw_all-IsEdgeIn h rtts i lo hi position zero draw ss bound e = rw (← ok_inj e) (tt, refl)
draw_all-IsEdgeIn h rtts i lo hi position (suc n) draw ss bound e =
    let (s, here, rest) = >>=-eq-ok (sample_at h rtts i (position draw)) _ e in
    let (ss', later, done) = >>=-eq-ok (draw_all h rtts i position n (suc draw)) _ rest in
    let (all, size) = draw_all-IsEdgeIn h rtts i lo hi position n (suc draw) ss' bound later in
    rw (← ok_inj done) (((position draw, (bound draw).0, (bound draw).1, here), all), ap suc size)

module _ (h : History) (rtts : ℤ) (i fanout : ℕ) (skip : ℕ → ℤ → ℤ → Bool) where
  pub scan_back-IsEdgeIn :
      (n cal_cnt cnt : ℕ) (ss : List Sample)
      → cnt < fanout
      → scan_back h rtts i fanout skip n cal_cnt cnt ≡ ok ss
      → (All (IsEdgeIn h rtts i 0 n) ss) × (length ss + cnt ≤ fanout)
  unfolding scan_back
  scan_back-IsEdgeIn zero cal_cnt cnt ss lt e = rw (← ok_inj e) (tt, omega arith)
  scan_back-IsEdgeIn (suc cid) cal_cnt cnt ss lt e =
      elim (Bool-cases (ltb (2 * fanout) (suc cal_cnt))) [
        | inl stop ↦ rw (← ok_inj (rw stop at e)) (tt, omega arith)
        | inr on ↦
            let (s, here, rest) = >>=-eq-ok (sample_at h rtts i cid) _ (rw on at e) in
            elim (Bool-cases (skip cid s.eid s.node)) [
              | inl left ↦
                  let (all, size) =
                    scan_back-IsEdgeIn cid (suc cal_cnt) cnt ss lt (rw left at rest) in
                  (widen cid ss all, size)
              | inr kept ↦ elim (Bool-cases (leb fanout (suc cnt))) [
                | inl full ↦
                    rw (← ok_inj (rw (kept, full) at rest))
                      (((cid, omega arith, omega arith, here), tt), omega arith)
                | inr room ↦
                    let (ss', later, done) =
                      >>=-eq-ok (scan_back h rtts i fanout skip cid (suc cal_cnt) (suc cnt)) _
                        (rw (kept, room) at rest) in
                    let (all, size) =
                      scan_back-IsEdgeIn cid (suc cal_cnt) (suc cnt) ss' (ground arith) later in
                    rw (← ok_inj done)
                      (((cid, omega arith, omega arith, here), widen cid ss' all), omega arith)
              ]
            ]
      ]
    where
      widen :
          (cid : ℕ) (ss : List Sample)
          → All (IsEdgeIn h rtts i 0 cid) ss
          → All (IsEdgeIn h rtts i 0 (suc cid)) ss
      widen cid ss all = All-map (λ s (c, le, lt, at). (c, le, omega arith, at)) ss all

  pub scan_back-zero :
      (n cal_cnt cnt : ℕ) (ss : List Sample)
      → fanout ≡ 0
      → scan_back h rtts i fanout skip n cal_cnt cnt ≡ ok ss
      → ss ≡ []
  unfolding scan_back
  scan_back-zero zero cal_cnt cnt ss z e = sym (ok_inj e)
  scan_back-zero (suc cid) cal_cnt cnt ss z e =
      let stop : ltb (2 * fanout) (suc cal_cnt) ≡ true = ground arith in sym (ok_inj (rw stop at e))
