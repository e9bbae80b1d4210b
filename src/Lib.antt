-- ===== src/Lib.antt =====
-- StarryGL: the native code that samples temporal graphs and lays out their parts.
--
-- The program. csrc/native_utils.cpp serves the Python packages with operations on id arrays: unique
-- values, removal of duplicate edges, and the topologies of slices and partitions of a graph.
-- csrc/ctdg_sampler/bts_sampler/sampler/include holds the sampler: neighbors.h stores the neighbours of
-- each node, sampler.h draws from them layer by layer and numbers what was drawn, output.h has the
-- results, and head.h finds the part of a node. sampler/speed_partition.cpp divides the edges and
-- nodes of a graph among parts before all that, in the order of time, and assigns chunks of nodes to
-- the ranks that work on them, and split/time_split.cpp divides the edges into groups by how stale the
-- memories of their nodes get.
--
-- Files and code:
--   Prelude     library names, tests on numbers, lists and vectors by index, integers (int64_t), results
--   Phmap       `phmap::flat_hash_map` and `flat_hash_set`, a third-party library, as parameters with
--               laws; Phmap/Assoc shows that association lists meet them
--   Intern      the numbering of values by first occurrence, which both parts of the program write out
--   Csc         the counting of entries into column pointers
--   Sort        `std::stable_sort`, `std::unique`; Bounds: `std::lower_bound` and `std::upper_bound`
--   Native      csrc/native_utils.cpp: Tensor (arguments), Unique, Dedup, FirstTs, Slice, Partition, one
--               file for each group of functions, under the functions' names
--   Neighbors   neighbors.h: Block (`TemporalNeighborBlock`), Build (`get_neighbors`), Update (weights),
--               Extend (`update_neighbors_with_time`)
--   Head        head.h: `nodeIdToPartId`, `nodeIdToInOut`, `divide_nodes_to_part`
--   Sampler     sampler.h: Seeds, Boundary, Draw (one node), Layer (all nodes of all layers), Output
--               (`get_sampling_output`), ReadLayout (`build_edge_read_layout`), Compact
--               (`deduplicate_compact_mfg_edges`), Dtdg (`sample_dtdg_uniform`)
--   Speed       speed_partition.cpp: Doubles, State (`SpeedState`), Step (`perform_step`), Master
--               (`choose_balanced_node_master`), Graph and Partition (`speed_partition`); Scores, Chunks,
--               Exchange (with Exchange/LocalSearch) and Assignment
--               (`assign_chunks_temporal_balance`); Invariant, Tally and the modules below these
--               hold the proofs
--   TimeSplit   split/time_split.cpp: Window (what an edge adds to the staleness), Segments
--               (`get_staleness_constraint`), Adaptive (`adaptive_split_impl`) and Dropping
--               (`preprocess_edge_dropping`, `adaptive_split_tensor`)
--   Tppr        tppr.h: `compute_s1_s2` and the updates of a node; Tppr/Stream: the streaming functions
--   Tests       runs on small inputs, and the theorems applied to them
--
-- How the state is modelled. A function that changes an object returns the changed object. Exceptions
-- and failed assertions are errors of `Result`; an access outside an array, which the code does not
-- check, is the error `fault`. An id is an integer without bound: the code only compares, copies and
-- subtracts ids and times. Random words keep the wrap-around of 64 bits.
-- Loops are recursive on the list they run over, or on the number of their turns. Two loops of TimeSplit
-- have fuel, as many turns as there are edges: each turn goes on by an edge or more, unless the size of a
-- window is 0 or the threshold below 0, where the loops of the code do not end.
--
-- Not modelled. Floating point numbers are parameters (the GCN norm, edge weights, the tests of random
-- numbers against probabilities). OpenMP loops run in the order in which their results are joined.
-- Timers and counters of the profile are left out. Of the sampler, the static layers and the compact
-- and the parallel output are not modelled, nor are `update_node_weight` and the serialization of a
-- block, temporal_utils.h, and `get_pruned_topk` of tppr.h. The Python packages are not part of this development.
pub mod Prelude
pub mod Phmap
pub mod Intern
pub mod Csc
pub mod Sort
pub mod Native
pub mod Neighbors
pub mod Head
pub mod Sampler
pub mod Bounds
pub mod Speed
pub mod TimeSplit
pub mod Tppr
mod Tests
