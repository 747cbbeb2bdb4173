-- ===== src/Examples.antt =====
-- Concrete inputs, and the theorems at them.
mod Compute
mod Data
mod Nodes
mod Deletion
mod Proxy
mod Pitr
mod PitrData
mod PitrDisk
mod PitrPolling
mod PitrAgent
mod EndToEnd
mod Aws
mod ComputeNode
mod StorageNode
