-- ===== src/Controllers/StorageNode/Registration.antt =====
-- The flag `registered`: `registerStorageUnit` and `unregisterStorageUnit` change it only after the
-- statement that the proxy executed.
use shardingsphere_on_cloud.Prelude.{String, ◌≡◌, ◌⊎◌, refl, false, not, arith, ◌==◌}
use shardingsphere_on_cloud.Go.{Result, ok}
use shardingsphere_on_cloud.Go.Map.{get}
use shardingsphere_on_cloud.Sdk.{Sdk}
use shardingsphere_on_cloud.Api.StorageNode.{StorageNode, is_ready}
use shardingsphere_on_cloud.Api.StorageProvider.{StorageProvider, annotations_instance_db_name}
use shardingsphere_on_cloud.Effects.{Request, Response, event, call, sql_close, sql_exec}
use shardingsphere_on_cloud.Effects.Run.{Env, returned, run}
use shardingsphere_on_cloud.Effects.Succeeds.{
  Succeeds, Answered, Succeeds-call, Succeeds-then, Succeeds-first, Succeeds-deferring, Succeeds-if,
  Succeeds-run,
}
use shardingsphere_on_cloud.ShardingSphere.{
  register_sql, unregister_sql, register_storage_unit, unregister_storage_unit,
}
use shardingsphere_on_cloud.Controllers.StorageNode.Unit.{
  Datasource, key_register_enabled, get_ds_name, register_unit, unregister_unit, register_annotated,
  register_with_server, unregister_with_server, open_and_register, open_and_unregister,
}

-- The statement registers the storage unit of the node, and is answered without an error.
abbrev pub Registers : StorageNode → (q : Request) → Result (Response q) → Type 0
Registers node (sql_exec s) (ok _) =
    (d : Datasource) × (s
      ≡ register_sql (get_ds_name node) d.host d.port
          (get annotations_instance_db_name node.annotations) d.username d.password)
Registers node _ _ = ⊥

-- The statement unregisters the storage unit of the node, and is answered without an error.
abbrev pub Unregisters : StorageNode → (q : Request) → Result (Response q) → Type 0
Unregisters node (sql_exec s) (ok _) = s ≡ unregister_sql (get_ds_name node)
Unregisters node _ _ = ⊥

register_storage_unit-Succeeds :
    (node : StorageNode) (db : String) (d : Datasource)
    → Succeeds
        (Registers node)
        (λ _. ⊥)
        (register_storage_unit db
          (get_ds_name node)
          d.host
          d.port
          (get annotations_instance_db_name node.annotations)
          d.username
          d.password)
unfolding register_storage_unit
register_storage_unit-Succeeds node db d =
    Succeeds-then (Registers node) (λ _. ⊥) _ _ _ (λ _. tt)
      λ _.
        Succeeds-first (Registers node) (λ _. ⊥) (call (sql_exec _)) _ _
          (Succeeds-call (Registers node) (sql_exec _) λ _. (d, refl)) (λ _. tt)

unregister_storage_unit-Succeeds :
    (node : StorageNode) (db : String)
    → Succeeds (Unregisters node) (λ _. ⊥) (unregister_storage_unit db (get_ds_name node))
unfolding unregister_storage_unit
unregister_storage_unit-Succeeds node db =
    let T = Unregisters node in
    Succeeds-then T (λ _. ⊥) _ _ _ (λ _. tt)
      λ _.
        Succeeds-then T (λ _. ⊥) _ _ _ (λ _. tt)
          λ rules.
            Succeeds-then T (λ _. ⊥) _ _ _ (λ _. tt)
              λ _.
                Succeeds-first T (λ _. ⊥) (call (sql_exec _)) _ _
                  (Succeeds-call T (sql_exec _) λ _. refl) (λ _. tt)

-- The node is as it was given.
abbrev IsSame : StorageNode → StorageNode → Type 0
IsSame node a = a ≡ node

-- The node is as it was given, not registered.
abbrev IsUnregistered : StorageNode → StorageNode → Type 0
IsUnregistered node a = (a ≡ node) × (node.status.registered ≡ false)

module _ (sdk : Sdk) where
  with_server-Succeeds :
      (node : StorageNode) (provider : StorageProvider)
      → Succeeds (Registers node) (IsSame node) (register_with_server sdk node provider)
  unfolding register_with_server
  with_server-Succeeds node provider =
      let T = Registers node in
      let Q = IsSame node in
      Succeeds-then T Q _ _ _ (λ _. tt)
        λ _.
          Succeeds-then T Q _ _ _ (λ _. tt)
            λ _.
              Succeeds-then T Q _ _ _ (λ _. tt)
                λ d.
                  Succeeds-first T Q _ _ _
                    (Succeeds-first T (λ _. ⊥) _ _ _ (register_storage_unit-Succeeds node _ d)
                      (λ _. tt))
                    (λ _. tt)

  annotated-Succeeds :
      (node : StorageNode) (provider : StorageProvider)
      → Succeeds (Registers node) (IsSame node) (register_annotated sdk node provider)
  unfolding register_annotated open_and_register
  annotated-Succeeds node provider =
      let T = Registers node in
      let Q = IsSame node in
      Succeeds-if T Q node.status.registered _ _ (λ _. refl)
        λ _.
          Succeeds-if T Q (not (is_ready node.status.phase)) _ _
            (λ _. Succeeds-then T Q (event "RegisterWaiting") _ _ (λ _. tt) (λ _. refl))
            (λ _.
              Succeeds-then T Q _ _ _ (λ _. tt)
                λ _. Succeeds-deferring T Q sql_close _ (with_server-Succeeds node provider))

  register_unit-Succeeds :
      (node : StorageNode) (provider : StorageProvider)
      → Succeeds (Registers node) (IsSame node) (register_unit sdk node provider)
  unfolding register_unit
  register_unit-Succeeds node provider =
      let T = Registers node in
      let Q = IsSame node in
      Succeeds-if T Q (not (get key_register_enabled node.annotations == "true")) _ _ (λ _. refl)
        λ _. Succeeds-then T Q _ _ _ (λ _. tt) (λ _. annotated-Succeeds node provider)

  unregister_unit-Succeeds :
      (node : StorageNode)
      → Succeeds (Unregisters node) (IsUnregistered node) (unregister_unit sdk node)
  unfolding unregister_unit open_and_unregister unregister_with_server
  unregister_unit-Succeeds node =
      let T = Unregisters node in
      let Q = IsUnregistered node in
      Succeeds-if T Q (not node.status.registered) _ _ (λ e. (refl, ground arith))
        λ _.
          Succeeds-then T Q _ _ _ (λ _. tt)
            λ _.
              Succeeds-then T Q _ _ _ (λ _. tt)
                λ _. Succeeds-deferring T Q sql_close _ (
                  Succeeds-first T Q _ _ _
                    (Succeeds-first T (λ _. ⊥) _ _ _ (unregister_storage_unit-Succeeds node _)
                      (λ _. tt))
                    (λ _. tt))

  -- In every run of `register_unit` that returns a node, whatever the answers, that node is the one
  -- given, or the proxy executed without an error a statement that registers the storage unit under
  -- the node's name.
  pub register_unit-Answered :
      (env : Env) (node registered : StorageNode) (provider : StorageProvider)
      → (run env (register_unit sdk node provider)).0 ≡ returned (ok registered)
      → (registered ≡ node)
        ⊎ Answered env (Registers node) (run env (register_unit sdk node provider)).1
  register_unit-Answered env node registered provider =
      Succeeds-run (Registers node) env (IsSame node) _ registered
        (register_unit-Succeeds node provider)

  -- In every run of `unregister_unit` that returns a node, whatever the answers, that node is the
  -- one given and was not registered, or the proxy executed without an error the statement that
  -- unregisters the storage unit under the node's name.
  pub unregister_unit-Answered :
      (env : Env) (node unregistered : StorageNode)
      → (run env (unregister_unit sdk node)).0 ≡ returned (ok unregistered)
      → ((unregistered ≡ node) × (node.status.registered ≡ false))
        ⊎ Answered env (Unregisters node) (run env (unregister_unit sdk node)).1
  unregister_unit-Answered env node unregistered =
      Succeeds-run (Unregisters node) env (IsUnregistered node) _ unregistered
        (unregister_unit-Succeeds node)
