-- ===== src/Controllers/StorageNode/Store.antt =====
-- How a reconciliation of a storage node ends: the comparison and the write of the status.
use shardingsphere_on_cloud.Prelude.{
  String-discrete, String, Bool, false, none, some, not, if◌then◌else◌,
}
use mathlib.Core.Bool.{decide}
use native.Mathlib.Decide.{ℕ_discrete}
use shardingsphere_on_cloud.Go.{Error}
use shardingsphere_on_cloud.Sdk.{Sdk}
use shardingsphere_on_cloud.Api.StorageNode.{StorageNode, StorageNodeStatus}
use shardingsphere_on_cloud.Effects.{Prog, attempt, pure, call, update_storage_node_status}
use shardingsphere_on_cloud.Controllers.{CtrlResult, Verdict, requeue_now, requeue_later}
use shardingsphere_on_cloud.Controllers.StorageNode.Status.{Stamps, compute_desired_state}

-- The fields of the reconciler that hold the AWS credentials.
pub record Credentials : Type 0 where
  pub aws_region : String
  pub aws_access_key_id : String
  pub aws_secret_access_key : String

-- An argument of `reflect.DeepEqual`. Values of distinct types are never deeply equal.
pub data GoValue : Type 0 where
  status_pointer : StorageNodeStatus → GoValue
  status_value : StorageNodeStatus → GoValue

abbrev pub finish : CtrlResult → Prog Verdict
finish r = pure (record { result = r; error = none })

abbrev pub stop : CtrlResult → Error → Prog Verdict
stop r e = pure (record { result = r; error = some e })

pub StorageNodeStatus-discrete : Discrete StorageNodeStatus
StorageNodeStatus-discrete = hlevel (ℕ_discrete, String-discrete)

-- `reflect.DeepEqual`
unfoldable pub deep_equal : GoValue → GoValue → Bool
deep_equal (status_pointer s) (status_pointer t) = decide (StorageNodeStatus-discrete s t)
deep_equal (status_value s) (status_value t) = decide (StorageNodeStatus-discrete s t)
deep_equal _ _ = false

module _ (sdk : Sdk) (now : Stamps) where
  -- The status is written if the old one, a pointer, is not deeply equal to the desired one.
  unfoldable pub write_status : StorageNodeStatus → StorageNode → Prog Verdict
  write_status old_status node =
      let desired_state = compute_desired_state sdk now node.status in
      if not (deep_equal (status_pointer old_status) (status_value desired_state))
      then attempt (call (update_storage_node_status (record node { status = desired_state })))
          (λ e. stop requeue_now e) (λ _. finish requeue_later)
      else finish requeue_later
