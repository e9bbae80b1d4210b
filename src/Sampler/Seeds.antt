-- ===== src/Sampler/Seeds.antt =====
-- sampler.h: random numbers that depend on a seed and a position only. Words have 64 bits.
pub mod Laws
use Prim.Native.Nat.{bit_xor}
use starrygl_tmp.Prelude.{ℕ, zero, suc, ◌+◌, ◌*◌, ◌/◌, ◌%◌, ◌^◌, List, [], ◌∷◌}

abbrev pub word : ℕ
word = 2 ^ 64

-- `value ^ (value >> shift)`
unfoldable pub xor_shift : ℕ → ℕ → ℕ
xor_shift shift value = bit_xor value (value / 2 ^ shift)

unfoldable pub splitmix64 : ℕ → ℕ
unfolding xor_shift
splitmix64 value =
    let a = (value + 0x9E3779B97F4A7C15) % word in
    let b = (xor_shift 30 a * 0xBF58476D1CE4E5B9) % word in
    let c = (xor_shift 27 b * 0x94D049BB133111EB) % word in xor_shift 31 c

-- The arguments are not negative.
unfoldable pub stateless_random_bits : ℕ → ℕ → ℕ → ℕ → ℕ → ℕ
unfolding splitmix64
stateless_random_bits base_seed layer root_pos draw_pos salt =
    let a = bit_xor base_seed ((suc layer * 0xD1B54A32D192ED03) % word) in
    let b = bit_xor a ((suc root_pos * 0xABC98388FB8FAC03) % word) in
    let c = bit_xor b ((suc draw_pos * 0x8CB92BA72F3D8DD7) % word) in splitmix64 (bit_xor c salt)

-- `stateless_uniform01` is this number times 2⁻⁵³.
unfoldable pub stateless_uniform_bits : ℕ → ℕ → ℕ → ℕ → ℕ → ℕ
unfolding stateless_random_bits
stateless_uniform_bits base_seed layer root_pos draw_pos salt =
    stateless_random_bits base_seed layer root_pos draw_pos salt / 2 ^ 11

unfoldable pub stateless_mod : ℕ → ℕ → ℕ → ℕ → ℕ → ℕ → ℕ
unfolding stateless_random_bits
stateless_mod base_seed layer root_pos draw_pos modulo salt =
    stateless_random_bits base_seed layer root_pos draw_pos salt % modulo

-- The seeds of the threads from `i` on; an `unsigned int` has 32 bits.
unfoldable pub seeds_from : ℕ → ℕ → ℕ → List ℕ
seeds_from seed zero i = []
seeds_from seed (suc n) i =
    let value = (seed + suc i * 0x9E3779B97F4A7C15) % word in
    (bit_xor value (value / 2 ^ 32) % 2 ^ 32) ∷ seeds_from seed n (suc i)

unfoldable pub set_seed : ℕ → ℕ → List ℕ
unfolding seeds_from
set_seed threads seed = seeds_from seed threads 0
