-- ===== src/Neighbors.antt =====
-- csrc/ctdg_sampler/bts_sampler/sampler/include/neighbors.h: the neighbours of each node with the
-- ids, times and weights of their edges, how they are built and how they are updated. Arrays are
-- lists; a tensor is its elements. The printing of timings is left out, and so is `part`, which
-- nothing sets. Weights are a parameter: the file only moves them.
pub mod Block
pub mod Build
pub mod Update
pub mod Extend
