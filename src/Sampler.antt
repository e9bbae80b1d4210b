-- ===== src/Sampler.antt =====
-- csrc/ctdg_sampler/bts_sampler/sampler/include/sampler.h: `ParallelSampler`, which samples temporal
-- neighbourhoods and numbers what it has sampled. Timers and profile counters are left out.
pub mod Seeds
pub mod Boundary
pub mod Draw
pub mod Layer
pub mod Output
pub mod ReadLayout
pub mod Compact
pub mod Dtdg
