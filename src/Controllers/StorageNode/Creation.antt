-- ===== src/Controllers/StorageNode/Creation.antt =====
-- When the reconciliation of a storage node creates a database.
use shardingsphere_on_cloud.Prelude.{
  ◌⊎◌, List, ◌∷◌, ◌++◌, ◌==◌, ◌&&◌, eq_refl, String, ◌≡◌, refl, sym, subst, Bool, true, false,
  Option, none, some, inl, inr, [], All, arith,
}
use shardingsphere_on_cloud.Go.{ok}
use shardingsphere_on_cloud.Go.Map.{find}
use shardingsphere_on_cloud.Sdk.{Sdk, DescInstance}
use shardingsphere_on_cloud.Api.StorageNode.{StorageNode, StorageNodeStatus, is_deleting}
use shardingsphere_on_cloud.Api.StorageProvider.{
  StorageProvider, aws_rds_instance, annotations_instance_identifier,
}
use shardingsphere_on_cloud.Effects.{
  Request, Prog, done, panic, ask, attempt, call, update_storage_node, describe_instance,
}
use shardingsphere_on_cloud.Effects.Run.{
  Env, History, Outcome, run, Always, Always-run, Always-then, Always-else,
}
use shardingsphere_on_cloud.Effects.Avoids.{
  Fails, Avoids, Avoids-attempt, Avoids-bind, Avoids-run, Precedes,
}
use shardingsphere_on_cloud.Effects.Along.{Along, Along-attempt, Along-call, Along-run}
use shardingsphere_on_cloud.Effects.Performs.{Precedes-sequence}
use shardingsphere_on_cloud.Effects.Kinds.{Kind, of_kind, creates, writes_pg}
use shardingsphere_on_cloud.Controllers.{Verdict}
use shardingsphere_on_cloud.Controllers.StorageNode.Status.{Stamps}
use shardingsphere_on_cloud.Controllers.StorageNode.Store.{Credentials}
use shardingsphere_on_cloud.Controllers.StorageNode.Finalize.{finalizer_name}
use shardingsphere_on_cloud.Aws.Identifier.{with_identifier, with_identifier-Avoids}
use shardingsphere_on_cloud.Aws.Instance.{get_db_instance}
use shardingsphere_on_cloud.Controllers.StorageNode.Unit.{register_unit}
use shardingsphere_on_cloud.Controllers.StorageNode.Database.{
  find_or_create_instance, reconcile_aws_rds_instance,
}
use shardingsphere_on_cloud.Controllers.StorageNode.Footprint.{
  register_unit-Avoids, write_status-Avoids,
}
use shardingsphere_on_cloud.Controllers.StorageNode.Reconcile.{
  contains, reconcile, reconcile_found, reconcile_provisioner, register_and_write,
}

abbrev is_creates : Kind → Bool
is_creates creates = true
is_creates writes_pg = true
is_creates _ = false

-- The request creates a database at AWS, or writes the cluster of CloudNativePG.
abbrev pub creates_database : Request → Bool
creates_database = of_kind is_creates

-- The first request of the history is `q`.
abbrev pub Begins : Request → History → Type 0
Begins q [] = ⊥
Begins q (r ∷ []) = r ≡ q
Begins q (r ∷ (s ∷ h)) = Begins q (s ∷ h)

Begins-Always :
    {A : Type 0} (q : Request) (h : History) (m : Prog A)
    → Begins q h
    → Always (λ _ g. Begins q g) h m
Begins-Always q h (done r) b = b
Begins-Always q h (panic s) b = b
Begins-Always q [] (ask p k) b = absurd b
Begins-Always q (r ∷ h) (ask p k) b = λ a. Begins-Always q (p ∷ (r ∷ h)) (k a) b

abbrev pub with_finalizer : StorageNode → StorageNode
with_finalizer node = record node { finalizers = node.finalizers ++ finalizer_name ∷ [] }

-- The request writes the node of this namespace and name, with the finalizer.
abbrev pub adds_finalizer : StorageNode → Request → Bool
adds_finalizer node (update_storage_node w) =
    (w.namespace == node.namespace)
    && ((w.name == node.name) && contains w.finalizers finalizer_name)
adds_finalizer node _ = false

contains-append : (xs : List String) (s : String) → contains (xs ++ (s ∷ [])) s ≡ true
unfolding contains
contains-append [] s = ground (arith, eq_refl s)
contains-append (x ∷ xs) s = ground (arith, contains-append xs s)

with_finalizer-added :
    (node : StorageNode) → adds_finalizer node (update_storage_node (with_finalizer node)) ≡ true
with_finalizer-added node =
    rw (eq_refl node.namespace)
      (rw (eq_refl node.name) (contains-append node.finalizers finalizer_name))

module _ (sdk : Sdk) (credentials : Credentials) (now : Stamps) where
  -- In every run of `reconcile_found` on a node that is not being deleted and lacks the finalizer,
  -- whatever the answers, the first request writes the node with the finalizer added to those that it
  -- had and nothing else changed, and each request that creates a database comes after one that
  -- writes the node, by its namespace and name, with the finalizer.
  pub finalizer_before_create :
      (env : Env) (node : StorageNode) (provider : StorageProvider)
      → node.deletion_timestamp_is_zero ≡ true
      → contains node.finalizers finalizer_name ≡ false
      → Begins
          (update_storage_node (with_finalizer node))
          (run env (reconcile_found sdk credentials now node provider)).1
        × Precedes
            (adds_finalizer node)
            creates_database
            (run env (reconcile_found sdk credentials now node provider)).1
  unfolding reconcile_found attempt
  finalizer_before_create env node provider z c =
      let first = update_storage_node (with_finalizer node) in
      let P = λ (_ : Outcome Verdict) (g : History). Begins first g in
      let Q =
        λ (_ : Outcome Verdict) (g : History). Precedes (adds_finalizer node) creates_database g in
      (
        Always-run P env _ (
            Always-then P [] _ _ _ z
              (Always-else P [] _ _ _ c (λ r. Begins-Always first (first ∷ []) _ refl))),
        Always-run Q env _ (
            Always-then Q [] _ _ _ z (
              Always-else Q [] _ _ _ c (
                Precedes-sequence (adds_finalizer node) creates_database [] (call first) _ _
                  (inl (with_finalizer-added node)) (refl, λ _. tt) (λ _. tt) tt))),
      )

  register_and_write-Avoids :
      (old_status : StorageNodeStatus) (node : StorageNode) (provider : StorageProvider)
      → Avoids creates_database (register_and_write sdk credentials now old_status node provider)
  unfolding register_and_write attempt
  register_and_write-Avoids old_status node provider =
      Avoids-attempt creates_database (register_unit sdk node provider) _ _
        (register_unit-Avoids sdk is_creates refl refl refl refl refl node provider)
        (λ _. (refl, λ _. tt)) λ n. write_status-Avoids sdk now is_creates refl old_status n

  get_db_instance-Avoids : (node : StorageNode) → Avoids creates_database (get_db_instance node)
  unfolding get_db_instance
  get_db_instance-Avoids node = with_identifier-Avoids creates_database _ _ _ (λ _. (refl, λ _. tt))

  module _ (node : StorageNode) (provider : StorageProvider)
      (found-Avoids : (i : Option DescInstance)
        → Avoids creates_database (find_or_create_instance sdk node provider i)) where
    rds_instance-Avoids : Avoids creates_database (reconcile_aws_rds_instance sdk node provider)
    unfolding reconcile_aws_rds_instance
    rds_instance-Avoids =
        Avoids-bind creates_database (get_db_instance node) _ (get_db_instance-Avoids node)
          λ i. Avoids-bind creates_database _ _ (found-Avoids i) (λ _. tt)

    reconcile_rds-Avoids :
        Avoids creates_database
          (reconcile_provisioner sdk credentials now aws_rds_instance node provider)
    unfolding reconcile_provisioner attempt
    reconcile_rds-Avoids =
        Avoids-attempt creates_database (reconcile_aws_rds_instance sdk node provider) _ _
          rds_instance-Avoids (λ _. (refl, λ _. tt))
          (λ r. register_and_write-Avoids node.status r.0 r.1)

  deleting_found-Avoids :
      (node : StorageNode) (provider : StorageProvider) (i : Option DescInstance)
      → is_deleting node.status.phase ≡ true
      → Avoids creates_database (find_or_create_instance sdk node provider i)
  unfolding find_or_create_instance
  deleting_found-Avoids node provider none d = ground arith
  deleting_found-Avoids node provider (some i) d = tt

  -- In no run of `reconcile` on a node of an RDS instance whose phase is `deleting`, whatever the
  -- answers, a database is created.
  deleting_never_creates :
      (env : Env) (node : StorageNode) (provider : StorageProvider)
      → provider.provisioner ≡ aws_rds_instance
      → is_deleting node.status.phase ≡ true
      → All (Fails creates_database) (run env (reconcile sdk credentials now node provider)).1
  unfolding reconcile
  deleting_never_creates env node provider p d = Avoids-run creates_database env _ (
      subst
        (λ q. Avoids creates_database (reconcile_provisioner sdk credentials now q node provider))
        (sym p) (reconcile_rds-Avoids node provider (λ i. deleting_found-Avoids node provider i d)))

  module _ (env : Env) (existing : DescInstance) (node : StorageNode) (provider : StorageProvider)
      (id : String) (named : find annotations_instance_identifier node.annotations ≡ some id)
      (exists : env [] (describe_instance id) ≡ ok (some existing)) where
    get_existing : Along env creates_database (λ i. i ≡ some existing) [] (get_db_instance node)
    unfolding get_db_instance with_identifier
    get_existing = rw named (
        Along-call env creates_database (describe_instance id) (some existing)
          (λ i. i ≡ some existing) [] refl exists refl)

    found_existing-Avoids :
        (i : Option DescInstance)
        → i ≡ some existing
        → Avoids creates_database (find_or_create_instance sdk node provider i)
    unfolding find_or_create_instance
    found_existing-Avoids none e = cc
    found_existing-Avoids (some i) e = tt

    rds_existing :
        Along env creates_database (λ _. Unit) [] (reconcile_aws_rds_instance sdk node provider)
    unfolding reconcile_aws_rds_instance
    rds_existing =
        Along-attempt env creates_database (λ i. i ≡ some existing) [] (get_db_instance node) _ _
          get_existing (λ _. tt)
          λ i e. Avoids-bind creates_database _ _ (found_existing-Avoids i e) (λ _. tt)

    reconcile_existing :
        Along env creates_database
          (λ _. Unit)
          []
          (reconcile_provisioner sdk credentials now aws_rds_instance node provider)
    unfolding reconcile_provisioner attempt
    reconcile_existing =
        Along-attempt env creates_database (λ _. Unit) []
          (reconcile_aws_rds_instance sdk node provider) _ _ rds_existing (λ _. (refl, λ _. tt))
          (λ r _. register_and_write-Avoids node.status r.0 r.1)

  -- If AWS describes an instance under the identifier of the node's annotation, then the run of
  -- `reconcile` on a node of an RDS instance creates no database.
  existing_never_recreated :
      (env : Env) (existing : DescInstance) (node : StorageNode) (provider : StorageProvider)
      (id : String)
      → provider.provisioner ≡ aws_rds_instance
      → find annotations_instance_identifier node.annotations ≡ some id
      → env [] (describe_instance id) ≡ ok (some existing)
      → All (Fails creates_database) (run env (reconcile sdk credentials now node provider)).1
  unfolding reconcile
  existing_never_recreated env existing node provider id p named exists =
      Along-run env creates_database (λ _. Unit) _
        (subst
          (λ q.
            Along env creates_database (λ _. Unit) []
              (reconcile_provisioner sdk credentials now q node provider))
          (sym p) (reconcile_existing env existing node provider id named exists))

  -- If a node of an RDS instance is in phase `deleting`, or AWS, when it is asked first, describes an
  -- instance under the identifier of the node's annotation, then the run of `reconcile` on the node
  -- creates no database.
  pub never_recreated :
      (env : Env) (node : StorageNode) (provider : StorageProvider)
      → provider.provisioner ≡ aws_rds_instance
      → (is_deleting node.status.phase ≡ true)
        ⊎ ((id : String) × (existing : DescInstance) × (find annotations_instance_identifier
                node.annotations
              ≡ some id)
            × (env [] (describe_instance id) ≡ ok (some existing)))
      → All (Fails creates_database) (run env (reconcile sdk credentials now node provider)).1
  never_recreated env node provider p (inl d) = deleting_never_creates env node provider p d
  never_recreated env node provider p (inr (id, existing, named, exists)) =
      existing_never_recreated env existing node provider id p named exists
