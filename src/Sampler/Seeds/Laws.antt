-- ===== src/Sampler/Seeds/Laws.antt =====
-- A draw is below its modulus.
use native.Mathlib.Nat.{mod-lt}
use starrygl_tmp.Prelude.{ℕ, ◌<◌}
use starrygl_tmp.Sampler.Seeds.{stateless_random_bits, stateless_mod}

pub stateless_mod-lt :
    (base_seed layer root_pos draw_pos modulo salt : ℕ)
    → 0 < modulo
    → stateless_mod base_seed layer root_pos draw_pos modulo salt < modulo
unfolding stateless_mod
stateless_mod-lt base_seed layer root_pos draw_pos modulo salt h =
    mod-lt (stateless_random_bits base_seed layer root_pos draw_pos salt) h
