-- ===== src/Controllers/StorageNode/Finalizer.antt =====
-- The finalizer of a storage node: it stays until the status says that the deletion is complete.
use shardingsphere_on_cloud.Prelude.{◌≡◌, ◌≢◌, refl, Bool, true, false, arith, All}
use shardingsphere_on_cloud.Sdk.{Sdk}
use shardingsphere_on_cloud.Api.StorageNode.{
  StorageNode, StorageNodeStatus, Phase, ready, not_ready, deleting, delete_complete,
}
use shardingsphere_on_cloud.Api.StorageProvider.{StorageProvider, Provisioner, cloud_native_pg}
use shardingsphere_on_cloud.Effects.{Request, attempt}
use shardingsphere_on_cloud.Effects.Run.{Env, run}
use shardingsphere_on_cloud.Effects.Avoids.{Fails, Avoids, Avoids-attempt, Avoids-run}
use shardingsphere_on_cloud.Effects.Kinds.{Kind, of_kind, writes_node}
use shardingsphere_on_cloud.Controllers.StorageNode.Connection.{is_statement}
use shardingsphere_on_cloud.Controllers.StorageNode.Status.{Stamps}
use shardingsphere_on_cloud.Controllers.StorageNode.CloudNative.{get_cluster_by_name}
use shardingsphere_on_cloud.Controllers.StorageNode.Unit.{unregister_unit}
use shardingsphere_on_cloud.Controllers.StorageNode.Finalize.{
  finalize, finalize_phase, finalize_provisioner, finalize_deleting, finalize_cloud_native_pg,
  delete_pg_cluster_if, remove_finalizer, with_phase,
}
use shardingsphere_on_cloud.Controllers.StorageNode.Footprint.{
  unregister_unit-Avoids, write_status-Avoids,
}
use shardingsphere_on_cloud.Controllers.StorageNode.Footprint.Deletion.{
  delete_database_cluster-Avoids,
}

abbrev pub is_writes_node : Kind → Bool
is_writes_node writes_node = true
is_writes_node _ = false

-- The request writes the node itself, not its status.
abbrev pub writes_object : Request → Bool
writes_object = of_kind is_writes_node

module _ (sdk : Sdk) (now : Stamps) where
  finalize_deleting-Avoids :
      (old_status : StorageNodeStatus) (node : StorageNode) (provider : StorageProvider)
      → Avoids writes_object (finalize_deleting sdk now old_status node provider)
  unfolding finalize_deleting
  finalize_deleting-Avoids old_status node provider =
      Avoids-attempt writes_object (unregister_unit sdk node) _ _
        (unregister_unit-Avoids sdk is_writes_node refl refl refl refl refl node) (λ _. tt)
        λ n.
          Avoids-attempt writes_object _ _ _
            (delete_database_cluster-Avoids is_writes_node refl sdk refl refl n provider) (λ _. tt)
            λ m. write_status-Avoids sdk now is_writes_node refl old_status m

  finalize_provisioner-Avoids :
      (p : Provisioner) (old_status : StorageNodeStatus) (node : StorageNode)
      (provider : StorageProvider)
      → p ≢ cloud_native_pg
      → Avoids writes_object (finalize_provisioner sdk now p old_status node provider)
  unfolding finalize_provisioner
  finalize_provisioner-Avoids cloud_native_pg old_status node provider h = absurd (h refl)
  finalize_provisioner-Avoids _ old_status node provider h =
      finalize_deleting-Avoids old_status node provider

  finalize_phase-Avoids :
      (phase : Phase) (node : StorageNode) (provider : StorageProvider)
      → phase ≢ delete_complete
      → provider.provisioner ≢ cloud_native_pg
      → Avoids writes_object (finalize_phase sdk now phase node provider)
  unfolding finalize_phase
  finalize_phase-Avoids delete_complete node provider d h = absurd (d refl)
  finalize_phase-Avoids _ node provider d h =
      finalize_provisioner-Avoids provider.provisioner _ _ provider h

  -- Unless the phase is `delete_complete` or the provisioner is CloudNativePG, no run of `finalize`
  -- writes the node itself, so its finalizer stays.
  pub finalizer_kept :
      (env : Env) (node : StorageNode) (provider : StorageProvider)
      → node.status.phase ≢ delete_complete
      → provider.provisioner ≢ cloud_native_pg
      → All (Fails writes_object) (run env (finalize sdk now node provider)).1
  unfolding finalize
  finalizer_kept env node provider d h =
      Avoids-run writes_object env _ (finalize_phase-Avoids node.status.phase node provider d h)

  finalize_cloud_native_pg-Avoids :
      (node : StorageNode) → Avoids is_statement (finalize_cloud_native_pg sdk node)
  unfolding finalize_cloud_native_pg get_cluster_by_name delete_pg_cluster_if attempt
  finalize_cloud_native_pg-Avoids node = ground arith

  finalize_phase_pg-Avoids :
      (phase : Phase) (node : StorageNode) (provider : StorageProvider)
      → provider.provisioner ≡ cloud_native_pg
      → Avoids is_statement (finalize_phase sdk now phase node provider)
  unfolding finalize_phase finalize_provisioner remove_finalizer attempt
  finalize_phase_pg-Avoids delete_complete node provider h = ground arith
  finalize_phase_pg-Avoids ready node provider h =
      rw h (finalize_cloud_native_pg-Avoids (with_phase node deleting))
  finalize_phase_pg-Avoids not_ready node provider h =
      rw h (finalize_cloud_native_pg-Avoids (with_phase node deleting))
  finalize_phase_pg-Avoids _ node provider h = rw h (finalize_cloud_native_pg-Avoids node)

  -- No run of `finalize` on a node of CloudNativePG sends a statement to the proxy, also where the
  -- node's storage unit is registered there.
  pub pg_unit_stays_registered :
      (env : Env) (node : StorageNode) (provider : StorageProvider)
      → provider.provisioner ≡ cloud_native_pg
      → All (Fails is_statement) (run env (finalize sdk now node provider)).1
  unfolding finalize
  pg_unit_stays_registered env node provider h =
      Avoids-run is_statement env _ (finalize_phase_pg-Avoids node.status.phase node provider h)
