-- ===== src/Speed.antt =====
-- csrc/ctdg_sampler/bts_sampler/sampler/speed_partition.cpp: streaming partition of a temporal graph, and
-- the assignment of chunks to ranks.
pub mod Doubles
pub mod State
pub mod Step
pub mod Invariant
pub mod Master
pub mod Graph
pub mod Partition
pub mod Scores
pub mod Tally
pub mod Chunks
pub mod Exchange
pub mod Assignment
