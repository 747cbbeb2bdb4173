-- ===== src/Controllers.antt =====
-- The controllers of pkg/controllers.
pub mod StorageNode
pub mod ComputeNode
use shardingsphere_on_cloud.Prelude.{ℕ, Bool, true, false, Option}
use shardingsphere_on_cloud.Go.{Error}

-- `ctrl.Result`; the delay is in seconds, 0 for none.
pub record CtrlResult : Type 0 where
  pub requeue : Bool
  pub requeue_after : ℕ

-- The `(ctrl.Result, error)` of a reconciliation.
pub record Verdict : Type 0 where
  pub result : CtrlResult
  pub error : Option Error

abbrev pub no_requeue : CtrlResult
no_requeue = record { requeue = false; requeue_after = 0 }

abbrev pub requeue_now : CtrlResult
requeue_now = record { requeue = true; requeue_after = 0 }

-- `defaultRequeueTime`, 10 seconds
abbrev pub requeue_later : CtrlResult
requeue_later = record { requeue = false; requeue_after = 10 }
