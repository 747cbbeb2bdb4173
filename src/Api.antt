-- ===== src/Api.antt =====
-- The resources of the operator's API (shardingsphere-operator/api/v1alpha1).
pub mod StorageNode
pub mod StorageProvider
pub mod ComputeNode
