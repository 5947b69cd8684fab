-- ===== src/Connection/Tests.antt =====
-- Tests of the connection modules, on a cluster held in memory.
pub mod Cluster
pub mod Data
mod Catalog
mod Service
