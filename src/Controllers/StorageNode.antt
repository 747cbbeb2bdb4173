-- ===== src/Controllers/StorageNode.antt =====
-- pkg/controllers/storage_node_controller.go
pub mod Status
pub mod Database
pub mod Unit
pub mod CloudNative
pub mod Store
pub mod Finalize
pub mod Reconcile
pub mod Footprint
pub mod Ordering
pub mod Connection
pub mod Creation
pub mod Completion
pub mod Instances
pub mod Registration
pub mod Finalizer
