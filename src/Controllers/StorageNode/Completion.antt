-- ===== src/Controllers/StorageNode/Completion.antt =====
-- The end of a deletion: a database that is gone makes the phase `delete_complete`, which takes the
-- finalizer off.
use shardingsphere_on_cloud.Prelude.{
  String, ◌≡◌, ◌≢◌, refl, sym, subst, ap, ◌∙◌, false, none, some, List, [], ◌∷◌, if◌then◌else◌,
  arith, ◌==◌, eq_iff,
}
use shardingsphere_on_cloud.Go.{Error, Result, ok, err}
use shardingsphere_on_cloud.Go.Map.{find, get}
use shardingsphere_on_cloud.Sdk.{Sdk}
use shardingsphere_on_cloud.Api.StorageNode.{
  StorageNode, StorageNodeStatus, deleting, delete_complete,
}
use shardingsphere_on_cloud.Api.StorageProvider.{
  StorageProvider, aws_rds_instance, annotations_instance_identifier,
}
use shardingsphere_on_cloud.Effects.{
  Prog, done, pure, attempt, update_storage_node, update_storage_node_status, describe_instance,
}
use shardingsphere_on_cloud.Effects.Run.{Env, History, run, run_from}
use shardingsphere_on_cloud.Controllers.{no_requeue, requeue_now, requeue_later}
use shardingsphere_on_cloud.Controllers.StorageNode.Status.{Stamps, compute_desired_state}
use shardingsphere_on_cloud.Controllers.StorageNode.Status.Readiness.{delete_complete_iff}
use shardingsphere_on_cloud.Controllers.StorageNode.Store.{finish, stop, write_status, deep_equal}
use shardingsphere_on_cloud.Controllers.StorageNode.Unit.{unregister_unit}
use shardingsphere_on_cloud.Controllers.StorageNode.Database.{
  delete_database_cluster, delete_by_provisioner, delete_aws_rds_instance, set_instances,
  delete_instance_unless_deleting, update_aws_rds_instance_status,
}
use shardingsphere_on_cloud.Aws.Identifier.{with_identifier}
use shardingsphere_on_cloud.Aws.Instance.{get_db_instance}
use shardingsphere_on_cloud.Controllers.StorageNode.Finalize.{
  finalize, finalize_phase, finalize_provisioner, finalize_deleting, remove_finalizer, without,
  finalizer_name,
}
use shardingsphere_on_cloud.Controllers.StorageNode.Reconcile.{contains}

contains-without :
    (xs : List String) (s t : String)
    → contains (without xs s) t ≡ (if t == s then false else contains xs t)
unfolding contains without
contains-without [] s t = ground arith
contains-without (x ∷ xs) s t =
    ground (arith, eq_iff x s, eq_iff t s, eq_iff x t, contains-without xs s t)

either_way :
    {A : Type 0} (env : Env) (h : History) (r : Result A)
    → (run_from env h (attempt (done r) (λ _. finish no_requeue) (λ _. finish no_requeue))).1 ≡ h
unfolding run_from attempt
either_way env h (ok a) = refl
either_way env h (err x) = refl

stopped_or_finished :
    {A : Type 0} (env : Env) (h : History) (r : Result A)
    → (run_from env h (attempt (done r) (λ e. stop requeue_now e) (λ _. finish requeue_later))).1
      ≡ h
unfolding run_from attempt
stopped_or_finished env h (ok a) = refl
stopped_or_finished env h (err x) = refl

module _ (sdk : Sdk) (now : Stamps) where
  removed :
      (env : Env) (node : StorageNode) (provider : StorageProvider)
      → (run env (finalize_phase sdk now delete_complete node provider)).1
        ≡ update_storage_node (record node { finalizers = without node.finalizers finalizer_name })
          ∷ []
  unfolding finalize_phase remove_finalizer run run_from attempt
  removed env node provider = either_way env _ (env [] _)

  -- In phase `delete_complete` a run of `finalize` makes one request, whatever its answer: it
  -- writes the node without the finalizer and with every other finalizer that it had.
  pub finalizer_removed :
      (env : Env) (node : StorageNode) (provider : StorageProvider)
      → node.status.phase ≡ delete_complete
      → (written : StorageNode) × ((run env (finalize sdk now node provider)).1
          ≡ update_storage_node written ∷ [])
        × ((f : String)
            → contains written.finalizers f
              ≡ (if f == finalizer_name then false else contains node.finalizers f))
  unfolding finalize
  finalizer_removed env node provider c = (
    record node { finalizers = without node.finalizers finalizer_name },
    subst
        (λ p.
          (run env (finalize_phase sdk now p node provider)).1
          ≡ update_storage_node
              (record node { finalizers = without node.finalizers finalizer_name })
            ∷ [])
        (sym c) (removed env node provider),
    λ f. contains-without node.finalizers finalizer_name f,
  )

  unregister_unregistered :
      (node : StorageNode) → node.status.registered ≡ false → unregister_unit sdk node ≡ pure node
  unfolding unregister_unit
  unregister_unregistered node h = ground arith

  delete_gone :
      {B : Type 0} (env : Env) (h : History) (node : StorageNode) (provider : StorageProvider)
      (id : String) (e : Error → Prog B) (k : StorageNode → Prog B)
      → find annotations_instance_identifier node.annotations ≡ some id
      → id ≢ ""
      → env h (describe_instance id) ≡ ok none
      → run_from env h (attempt (delete_by_provisioner sdk aws_rds_instance node provider) e k)
        ≡ run_from env (describe_instance id ∷ h) (k (set_instances node []))
  unfolding delete_by_provisioner delete_aws_rds_instance get_db_instance with_identifier attempt
      run_from get delete_instance_unless_deleting update_aws_rds_instance_status
  delete_gone env h node provider id e k f n a =
      let i : (id == "") ≡ false = ground (arith, eq_iff id "") in rw f (rw i (rw a refl))

  -- Every run of `write_status` writes the desired status, whatever the answer, also where the old
  -- status is the desired one already.
  pub status_written :
      (env : Env) (h : History) (old_status : StorageNodeStatus) (node : StorageNode)
      → (run_from env h (write_status sdk now old_status node)).1
        ≡ update_storage_node_status
            (record node { status = compute_desired_state sdk now node.status })
          ∷ h
  unfolding write_status deep_equal run_from attempt
  status_written env h old_status node = stopped_or_finished env _ (env h _)

  write_completed :
      (env : Env) (h : History) (old_status : StorageNodeStatus) (node : StorageNode)
      → node.status.phase ≡ deleting
      → node.status.cluster.status ≡ ""
      → node.status.instances ≡ []
      → (written : StorageNode) × ((run_from env h (write_status sdk now old_status node)).1
          ≡ update_storage_node_status written ∷ h)
        × (written.status.phase ≡ delete_complete)
  write_completed env h old_status node p c i = (
    record node { status = compute_desired_state sdk now node.status },
    status_written env h old_status node,
    (delete_complete_iff sdk now node.status).0.1 (p, c, i),
  )

  deleting_completed :
      (env : Env) (old_status : StorageNodeStatus) (node : StorageNode) (provider : StorageProvider)
      (id : String)
      → provider.provisioner ≡ aws_rds_instance
      → node.status.phase ≡ deleting
      → node.status.registered ≡ false
      → node.status.cluster.status ≡ ""
      → find annotations_instance_identifier node.annotations ≡ some id
      → id ≢ ""
      → env [] (describe_instance id) ≡ ok none
      → (written : StorageNode) × ((run env (finalize_deleting sdk now old_status node provider)).1
          ≡ update_storage_node_status written ∷ describe_instance id ∷ [])
        × (written.status.phase ≡ delete_complete)
  unfolding finalize_deleting run delete_database_cluster attempt
  deleting_completed env old_status node provider id q p g c f n a =
      let (written, e, w) =
        write_completed env (describe_instance id ∷ []) old_status (set_instances node []) p c
          refl in
      (
        written,
        rw (unregister_unregistered node g) (
            subst
              (λ r.
                (run_from env [] (
                  attempt (delete_by_provisioner sdk r node provider) (λ x. stop requeue_later x)
                    (λ deleted. write_status sdk now old_status deleted))).1
                ≡ update_storage_node_status written ∷ describe_instance id ∷ [])
              (sym q)
              (ap (λ o. o.1)
                  (delete_gone env [] node provider id (λ x. stop requeue_later x)
                    (λ deleted. write_status sdk now old_status deleted) f n a)
                ∙ e)),
        w,
      )

  -- A node of an RDS instance that is in phase `deleting`, with its storage unit unregistered and
  -- no cluster: if AWS has no instance of its identifier, then the run of `finalize` makes two
  -- requests, one to describe the instance and one to write a status in phase `delete_complete`.
  pub gone_completes :
      (env : Env) (node : StorageNode) (provider : StorageProvider) (id : String)
      → provider.provisioner ≡ aws_rds_instance
      → node.status.phase ≡ deleting
      → node.status.registered ≡ false
      → node.status.cluster.status ≡ ""
      → find annotations_instance_identifier node.annotations ≡ some id
      → id ≢ ""
      → env [] (describe_instance id) ≡ ok none
      → (written : StorageNode) × ((run env (finalize sdk now node provider)).1
          ≡ update_storage_node_status written ∷ describe_instance id ∷ [])
        × (written.status.phase ≡ delete_complete)
  unfolding finalize finalize_phase finalize_provisioner
  gone_completes env node provider id q p g c f n a =
      let (written, e, w) = deleting_completed env node.status node provider id q p g c f n a in
      (
        written,
        subst
            (λ r.
              (run env (finalize_phase sdk now r node provider)).1
              ≡ update_storage_node_status written ∷ describe_instance id ∷ [])
            (sym p)
            (subst
              (λ r.
                (run env (finalize_provisioner sdk now r node.status node provider)).1
                ≡ update_storage_node_status written ∷ describe_instance id ∷ [])
              (sym q) e),
        w,
      )
