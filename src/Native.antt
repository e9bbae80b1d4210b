-- ===== src/Native.antt =====
-- csrc/native_utils.cpp: the CPU extension that deduplicates ids and builds the slice topologies.
pub mod Tensor
pub mod Unique
pub mod Dedup
pub mod FirstTs
pub mod Slice
pub mod Partition
