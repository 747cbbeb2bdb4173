-- ===== src/Pitr.antt =====
-- solutions/opengauss/pitr/cli: the command line that backs up and restores a cluster of openGauss
-- nodes behind a ShardingSphere proxy.
pub mod Model
pub mod Requests
pub mod Runtime
pub mod Agent
pub mod Proxy
pub mod Storage
pub mod Commands
pub mod Kinds
pub mod Footprint
