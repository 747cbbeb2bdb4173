-- ===== src/Api/StorageProvider.antt =====
-- api/v1alpha1/storageprovider_types.go: the annotation keys, the provisioners and the reclaim
-- policies.
use shardingsphere_on_cloud.Prelude.{String}
use shardingsphere_on_cloud.Go.Map.{GoMap}

abbrev pub annotations_cluster_identifier : String
annotations_cluster_identifier = "storageproviders.shardingsphere.apache.org/cluster-identifier"

abbrev pub annotations_instance_identifier : String
annotations_instance_identifier = "storageproviders.shardingsphere.apache.org/instance-identifier"

abbrev pub annotations_instance_db_name : String
annotations_instance_db_name = "storageproviders.shardingsphere.apache.org/instance-db-name"

abbrev pub annotations_master_username : String
annotations_master_username = "storageproviders.shardingsphere.apache.org/master-username"

abbrev pub annotations_master_user_password : String
annotations_master_user_password = "storageproviders.shardingsphere.apache.org/master-user-password"

abbrev pub annotations_final_snapshot_identifier : String
annotations_final_snapshot_identifier =
    "storageproviders.shardingsphere.apache.org/final-snapshot-identifier"

-- The provisioner is a string, compared with four constants.
pub data Provisioner : Type 0 where
  aws_rds_instance aws_rds_cluster aws_aurora cloud_native_pg : Provisioner
  unsupported : String → Provisioner

-- The reclaim policy is a string with three constants; `other_policy` is any other.
pub data ReclaimPolicy : Type 0 where
  delete_with_final_snapshot delete retain other_policy : ReclaimPolicy

pub record StorageProvider : Type 0 where
  pub name : String
  pub provisioner : Provisioner
  pub parameters : GoMap
  pub reclaim_policy : ReclaimPolicy
