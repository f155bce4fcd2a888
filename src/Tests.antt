-- ===== src/Tests.antt =====
-- Runs of the model at concrete inputs, and the theorems applied to them.
mod Sets
mod Paths
mod Schemes
mod Texts
mod Parsers
mod Filters
mod Calls
