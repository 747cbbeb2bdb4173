-- ===== src/Controllers/ComputeNode.antt =====
-- pkg/controllers/compute_node_controller.go and pkg/reconcile/computenode/utils.go
pub mod Pods
pub mod Status
pub mod Ports
pub mod Workload
pub mod Reconcile
pub mod Parts
