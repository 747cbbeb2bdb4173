-- ===== src/Pitr/Commands.antt =====
-- solutions/opengauss/pitr/cli/internal/cmd: the commands. What they log and print is not modelled.
pub mod Common
pub mod Nodes
pub mod Backup
pub mod Restore
pub mod Delete
pub mod Show
pub mod Declined
