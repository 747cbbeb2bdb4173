-- ===== src/Controllers/StorageNode/Ordering.antt =====
-- The order of the requests in the finalisation of a storage node: its database is deleted only
-- after its storage unit was unregistered.
use shardingsphere_on_cloud.Prelude.{
  String, ◌≡◌, Bool, true, false, inl, [], refl, ap, not, ◌==◌, eq_refl, arith,
}
use shardingsphere_on_cloud.Sdk.{Sdk}
use shardingsphere_on_cloud.Api.StorageNode.{
  StorageNode, StorageNodeStatus, Phase, ready, not_ready, deleting, delete_complete, other,
}
use shardingsphere_on_cloud.Api.StorageProvider.{StorageProvider, Provisioner, cloud_native_pg}
use shardingsphere_on_cloud.Effects.{Request, Prog, attempt, sql_close}
use shardingsphere_on_cloud.Effects.Run.{Env, run, Always, Always-run}
use shardingsphere_on_cloud.Effects.Avoids.{Avoids, Precedes, Precedes-avoiding}
use shardingsphere_on_cloud.Effects.Performs.{
  Performs, Performs-first, Performs-then, Performs-deferring, Performs-else, Precedes-sequence,
}
use shardingsphere_on_cloud.Effects.Kinds.{Kind, of_kind, deletes}
use shardingsphere_on_cloud.ShardingSphere.{unregister_sql, unregister_storage_unit, drop_rules}
use shardingsphere_on_cloud.Controllers.{Verdict}
use shardingsphere_on_cloud.Controllers.StorageNode.Status.{Stamps}
use shardingsphere_on_cloud.Controllers.StorageNode.Unit.{
  unregister_with_server, open_and_unregister, unregister_unit, get_ds_name,
}
use shardingsphere_on_cloud.Controllers.StorageNode.CloudNative.{get_cluster_by_name}
use shardingsphere_on_cloud.Controllers.StorageNode.Finalize.{
  finalize, finalize_phase, finalize_provisioner, finalize_deleting, finalize_cloud_native_pg,
  remove_finalizer, delete_pg_cluster_if, with_phase,
}
use shardingsphere_on_cloud.Controllers.StorageNode.Footprint.{unregister_unit-Avoids}

abbrev pub is_deletes : Kind → Bool
is_deletes deletes = true
is_deletes _ = false

-- The request deletes a database of the cloud provider.
abbrev pub deletes_database : Request → Bool
deletes_database = of_kind is_deletes

-- The request unregisters the storage unit `ds`.
abbrev pub unregisters : String → Request → Bool
unregisters ds (Request.sql_exec s) = s == unregister_sql ds
unregisters ds _ = false

unregister_storage_unit-Performs :
    (db ds : String) → Performs (unregisters ds) (unregister_storage_unit db ds)
unfolding unregister_storage_unit
unregister_storage_unit-Performs db ds =
    Performs-then (unregisters ds) _ _ _ (λ _. tt)
      λ _.
        Performs-then (unregisters ds) _ _ _ (λ _. tt)
          λ rules.
            Performs-then (unregisters ds) (drop_rules rules) _ _ (λ _. tt)
              λ _.
                Performs-first (unregisters ds) _ _ _ (inl (eq_refl (unregister_sql ds))) (λ _. tt)

module _ (sdk : Sdk) where
  unregister_with_server-Performs :
      (node : StorageNode)
      → Performs (unregisters (get_ds_name node)) (unregister_with_server sdk node)
  unfolding unregister_with_server
  unregister_with_server-Performs node =
      Performs-first (unregisters (get_ds_name node)) _ _ _
        (Performs-first (unregisters (get_ds_name node)) _ _ _
          (unregister_storage_unit-Performs _ (get_ds_name node)) (λ _. tt))
        (λ _. tt)

  unregister_unit-Performs :
      (node : StorageNode)
      → node.status.registered ≡ true
      → Performs (unregisters (get_ds_name node)) (unregister_unit sdk node)
  unfolding unregister_unit open_and_unregister
  unregister_unit-Performs node h =
      let t = unregisters (get_ds_name node) in
      Performs-else t (not node.status.registered) _ _ (ap not h) (
        Performs-then t _ _ _ (λ _. tt)
          λ _.
            Performs-then t _ _ _ (λ _. tt)
              λ _. Performs-deferring t sql_close _ (unregister_with_server-Performs node))

module _ (sdk : Sdk) (now : Stamps) where
  finalize_cloud_native_pg-Avoids :
      (node : StorageNode) → Avoids deletes_database (finalize_cloud_native_pg sdk node)
  unfolding finalize_cloud_native_pg get_cluster_by_name delete_pg_cluster_if attempt
  finalize_cloud_native_pg-Avoids node = ground arith

  -- The statement of `unregister_before_delete` for each run of a program about `node`.
  abbrev InOrder : StorageNode → Prog Verdict → Type 0
  InOrder node m = Always (λ _ h. Precedes (unregisters (get_ds_name node)) deletes_database h) [] m

  finalize_deleting-InOrder :
      (old_status : StorageNodeStatus) (node : StorageNode) (provider : StorageProvider)
      → node.status.registered ≡ true
      → InOrder node (finalize_deleting sdk now old_status node provider)
  unfolding finalize_deleting
  finalize_deleting-InOrder old_status node provider h =
      Precedes-sequence (unregisters (get_ds_name node)) deletes_database []
        (unregister_unit sdk node) _ _ (unregister_unit-Performs sdk node h)
        (unregister_unit-Avoids sdk is_deletes refl refl refl refl refl node) (λ _. tt) tt

  finalize_cloud_native_pg-InOrder :
      (node : StorageNode) → InOrder node (finalize_cloud_native_pg sdk node)
  finalize_cloud_native_pg-InOrder node =
      Precedes-avoiding (unregisters (get_ds_name node)) deletes_database [] _
        (finalize_cloud_native_pg-Avoids node) tt

  finalize_provisioner-InOrder :
      (p : Provisioner) (old_status : StorageNodeStatus) (node : StorageNode)
      (provider : StorageProvider)
      → node.status.registered ≡ true
      → InOrder node (finalize_provisioner sdk now p old_status node provider)
  unfolding finalize_provisioner
  finalize_provisioner-InOrder cloud_native_pg old_status node provider h =
      finalize_cloud_native_pg-InOrder node
  finalize_provisioner-InOrder _ old_status node provider h =
      finalize_deleting-InOrder old_status node provider h

  remove_finalizer-InOrder : (node : StorageNode) → InOrder node (remove_finalizer node)
  unfolding remove_finalizer attempt
  remove_finalizer-InOrder node = ground arith

  finalize_phase-InOrder :
      (phase : Phase) (node : StorageNode) (provider : StorageProvider)
      → node.status.registered ≡ true
      → InOrder node (finalize_phase sdk now phase node provider)
  unfolding finalize_phase get_ds_name
  finalize_phase-InOrder delete_complete node provider h = remove_finalizer-InOrder node
  finalize_phase-InOrder ready node provider h =
      finalize_provisioner-InOrder provider.provisioner _ (with_phase node deleting) provider h
  finalize_phase-InOrder not_ready node provider h =
      finalize_provisioner-InOrder provider.provisioner _ (with_phase node deleting) provider h
  finalize_phase-InOrder deleting node provider h =
      finalize_provisioner-InOrder provider.provisioner _ node provider h
  finalize_phase-InOrder (other _) node provider h =
      finalize_provisioner-InOrder provider.provisioner _ node provider h

  -- In every run of `finalize` on a registered node, whatever the answers, each request that
  -- deletes a database of the cloud provider comes after the request that unregisters the node's
  -- storage unit.
  pub unregister_before_delete :
      (env : Env) (node : StorageNode) (provider : StorageProvider)
      → node.status.registered ≡ true
      → Precedes
          (unregisters (get_ds_name node))
          deletes_database
          (run env (finalize sdk now node provider)).1
  unfolding finalize
  unregister_before_delete env node provider h =
      Always-run (λ _ g. Precedes (unregisters (get_ds_name node)) deletes_database g) env _
        (finalize_phase-InOrder node.status.phase node provider h)
