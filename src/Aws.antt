-- ===== src/Aws.antt =====
-- The RDS client of pkg/reconcile/storagenode/aws: what the operator checks before it calls the
-- SDK, and the calls.
pub mod Username
pub mod Identifier
pub mod Instance
pub mod Cluster
pub mod Aurora
