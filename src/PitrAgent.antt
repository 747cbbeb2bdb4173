-- ===== src/PitrAgent.antt =====
-- The agent server beside a data node of the PITR tool, solutions/opengauss/pitr/agent.
pub mod Requests
pub mod Errors
pub mod Host
pub mod Cmds
pub mod Gsutil
pub mod OpenGauss
pub mod View
pub mod Handlers
