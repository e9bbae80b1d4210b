-- ===== src/TimeSplit.antt =====
-- split/time_split.cpp: the edges of a graph, in the order of time, in groups.
pub mod Window
pub mod Adaptive
pub mod Segments
pub mod Dropping
