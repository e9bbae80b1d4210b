-- ===== src/Tests.antt =====
-- The definitions run on small inputs, and the theorems applied to them.
mod NativeUtils
mod Topology
mod Neighbors
mod Sampling
mod Outputs
mod Speed
mod TimeSplit
mod Tppr
