-- ===== src/Sampler/Dtdg.antt =====
-- sampler.h: `sample_dtdg_uniform`, which samples a number of time slices up to `t_now`, each with a
-- sampling output of its own.
pub mod Laws
use starrygl_tmp.Prelude.{
  ℕ, zero, suc, ◌+◌, ltb, leb, ◌==◌, ℤ, pos, ◌+ℤ◌, ◌-ℤ◌, Bool, true, false, not, List, [], ◌∷◌,
  length, replicate, Option, some, Result, ok, torch_check, throw_if, ◌>>=◌, ◌>>◌,
}
use starrygl_tmp.Phmap.{HashMap}
use starrygl_tmp.Sampler.Draw.{Sample, Settings, dtdg_uniform}
use starrygl_tmp.Sampler.Layer.{Tnb, neighbor_sample_from_nodes_with_before}
use starrygl_tmp.Sampler.Output.{NodeInstanceKey, NativeSamplingOutput, get_sampling_output}

-- The policy is `dtdg_uniform` while the slices are sampled.
abbrev pub with_dtdg_uniform : Settings → Settings
with_dtdg_uniform x = record {
  policy = dtdg_uniform;
  base_seed = x.base_seed;
  parts = x.parts;
  above = x.above;
  decay_above = x.decay_above;
  multinomial = x.multinomial;
}

module _ (hn : HashMap NodeInstanceKey ℕ) (he : HashMap ℤ ℕ) where
  -- A slice: its blocks, and the output that is made of them.
  pub record SliceOutput : Type 0 where
    pub blocks : List (List Sample)
    pub output : NativeSamplingOutput hn he

  unfoldable pub sample_slice : Settings → Tnb → List ℕ → ℕ → ℕ → List ℤ → ℤ → Result SliceOutput
  unfolding neighbor_sample_from_nodes_with_before get_sampling_output
  sample_slice x tnb fanouts num_layers num_edges root_nodes slice = do
    let root_ts = replicate (length root_nodes) slice
    blocks ←
        neighbor_sample_from_nodes_with_before (with_dtdg_uniform x) tnb fanouts num_layers
          root_nodes root_ts
    out ← get_sampling_output hn he num_edges blocks root_nodes (some root_ts)
    ok (record { blocks = blocks; output = out })

  -- `n` slices from `slice` on.
  unfoldable pub sample_slices :
      Settings → Tnb → List ℕ → ℕ → ℕ → List ℤ → ℕ → ℤ → Result (List SliceOutput)
  unfolding sample_slice
  sample_slices x tnb fanouts num_layers num_edges root_nodes zero slice = ok []
  sample_slices x tnb fanouts num_layers num_edges root_nodes (suc n) slice = do
    out ← sample_slice x tnb fanouts num_layers num_edges root_nodes slice
    rest ← sample_slices x tnb fanouts num_layers num_edges root_nodes n (slice +ℤ pos 1)
    ok (out ∷ rest)

  unfoldable pub sample_dtdg_uniform :
      Bool → Settings → Tnb → List ℕ → ℕ → ℕ → List ℤ → ℤ → ℕ → Result (List SliceOutput)
  unfolding sample_slices
  sample_dtdg_uniform with_timestamp x tnb fanouts num_layers num_edges root_nodes t_now num_hist =
      do
        throw_if (not with_timestamp) torch_check
        throw_if (num_hist == 0) torch_check
        sample_slices x tnb fanouts num_layers num_edges root_nodes num_hist
            (t_now -ℤ pos num_hist +ℤ pos 1)
