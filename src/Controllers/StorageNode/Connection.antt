-- ===== src/Controllers/StorageNode/Connection.antt =====
-- The connection to the proxy: `registerStorageUnit` and `unregisterStorageUnit` close what they
-- open.
use shardingsphere_on_cloud.Prelude.{
  ◌≡◌, refl, Bool, true, false, not, ◌&&◌, ◌==◌, All, [], Bool-cases, inl, inr, arith,
}
use shardingsphere_on_cloud.Go.{err}
use shardingsphere_on_cloud.Go.Map.{get}
use shardingsphere_on_cloud.Sdk.{Sdk}
use shardingsphere_on_cloud.Api.StorageNode.{StorageNode, is_ready}
use shardingsphere_on_cloud.Api.StorageProvider.{StorageProvider}
use shardingsphere_on_cloud.Effects.{Request, attempt, done, pure, event, ◌>>◌, sql_close}
use shardingsphere_on_cloud.Effects.Run.{Env, History, run, Always-run}
use shardingsphere_on_cloud.Effects.Avoids.{
  Fails, Avoids, Avoids-if, Avoids-bind, Avoids-run, Avoids-on_error,
}
use shardingsphere_on_cloud.Effects.Closing.{
  IsClosed, Closes, Closes-attempt, Closes-deferring, Closes-if, Closes-avoiding,
}
use shardingsphere_on_cloud.Effects.Kinds.{Kind, of_kind, states, closes}
use shardingsphere_on_cloud.Controllers.StorageNode.Unit.{
  key_register_enabled, register_unit, unregister_unit, register_annotated, open_and_register,
  open_and_unregister, get_shardingsphere_server, validate_compute_node_annotations,
}
use shardingsphere_on_cloud.Controllers.StorageNode.Footprint.{
  validate-Avoids, get_shardingsphere_server-Avoids,
}

abbrev pub is_states : Kind → Bool
is_states states = true
is_states _ = false

-- The request is an SQL statement or query.
abbrev pub is_statement : Request → Bool
is_statement = of_kind is_states

abbrev is_closes : Kind → Bool
is_closes closes = true
is_closes _ = false

-- The request closes the connection.
abbrev pub is_close : Request → Bool
is_close = of_kind is_closes

-- The node asks for a registration that has not happened, and its database is ready.
abbrev pub wants_registration : StorageNode → Bool
wants_registration node =
    (get key_register_enabled node.annotations == "true")
    && (not node.status.registered && is_ready node.status.phase)

module _ (sdk : Sdk) where
  open_and_register-Closes :
      (node : StorageNode) (provider : StorageProvider) (h : History)
      → All (Fails is_statement) h
      → Closes is_statement is_close h (open_and_register sdk node provider)
  unfolding open_and_register
  open_and_register-Closes node provider h f =
      Closes-attempt is_statement is_close h _ _ _ f
        (Avoids-on_error is_statement _ (get_shardingsphere_server sdk node)
          (get_shardingsphere_server-Avoids sdk is_states refl refl node))
        (λ _. tt) (λ _ g _. Closes-deferring is_statement is_close g sql_close _ refl)

  open_and_unregister-Closes :
      (node : StorageNode) (h : History)
      → All (Fails is_statement) h
      → Closes is_statement is_close h (open_and_unregister sdk node)
  unfolding open_and_unregister
  open_and_unregister-Closes node h f =
      Closes-attempt is_statement is_close h _ _ _ f
        (Avoids-on_error is_statement _ (get_shardingsphere_server sdk node)
          (get_shardingsphere_server-Avoids sdk is_states refl refl node))
        (λ _. tt) (λ _ g _. Closes-deferring is_statement is_close g sql_close _ refl)

  register_annotated-Closes :
      (node : StorageNode) (provider : StorageProvider) (h : History)
      → All (Fails is_statement) h
      → Closes is_statement is_close h (register_annotated sdk node provider)
  unfolding register_annotated attempt
  register_annotated-Closes node provider h f = search (
    Closes-if is_statement is_close,
    Closes-avoiding is_statement is_close h (pure node) f tt,
    Closes-avoiding is_statement is_close h (event "RegisterWaiting" >> pure node) f
        (refl, λ _. tt),
    open_and_register-Closes node provider h f,
  )

  register_unit-Closes :
      (node : StorageNode) (provider : StorageProvider)
      → Closes is_statement is_close [] (register_unit sdk node provider)
  unfolding register_unit
  register_unit-Closes node provider = search (
    Closes-if is_statement is_close,
    Closes-avoiding is_statement is_close [] (pure node) tt tt,
    Closes-attempt is_statement is_close [] (validate_compute_node_annotations node)
        (λ x. done (err x)) (λ _. register_annotated sdk node provider) tt
        (validate-Avoids is_states refl node) (λ x. tt)
        (λ _ g f. register_annotated-Closes node provider g f),
  )

  unregister_unit-Closes :
      (node : StorageNode) → Closes is_statement is_close [] (unregister_unit sdk node)
  unfolding unregister_unit
  unregister_unit-Closes node = search (
    Closes-if is_statement is_close,
    Closes-avoiding is_statement is_close [] (pure node) tt tt,
    Closes-attempt is_statement is_close [] (validate_compute_node_annotations node)
        (λ x. done (err x)) (λ _. open_and_unregister sdk node) tt
        (validate-Avoids is_states refl node) (λ x. tt)
        (λ _ g f. open_and_unregister-Closes node g f),
  )

  -- In every run of `register_unit` and of `unregister_unit`, whatever the answers and also where
  -- the run panics, the last request is the one that closes the connection if any statement was
  -- sent.
  pub connection-IsClosed :
      (env : Env) (node : StorageNode) (provider : StorageProvider)
      → IsClosed is_statement is_close (run env (register_unit sdk node provider)).1
        × IsClosed is_statement is_close (run env (unregister_unit sdk node)).1
  connection-IsClosed env node provider = (
    Always-run (λ _ g. IsClosed is_statement is_close g) env _ (register_unit-Closes node provider),
    Always-run (λ _ g. IsClosed is_statement is_close g) env _ (unregister_unit-Closes node),
  )

  annotated_quiet :
      (node : StorageNode) (provider : StorageProvider)
      → (not node.status.registered && is_ready node.status.phase) ≡ false
      → Avoids is_statement (register_annotated sdk node provider)
  unfolding register_annotated attempt
  annotated_quiet node provider h = ground arith

  unit_quiet :
      (node : StorageNode) (provider : StorageProvider)
      → wants_registration node ≡ false
      → Avoids is_statement (register_unit sdk node provider)
  unfolding register_unit
  unit_quiet node provider h =
      elim (Bool-cases (get key_register_enabled node.annotations == "true")) [
        | inl e ↦ search (
          Avoids-if is_statement,
          Avoids-bind is_statement (validate_compute_node_annotations node)
              (λ _. register_annotated sdk node provider) (validate-Avoids is_states refl node)
              (λ _. annotated_quiet node provider (ground arith)),
        )
        | inr e ↦ rw e tt
      ]

  -- Unless the annotation that enables the registration is "true", the storage unit is not
  -- registered yet and the phase is `ready`, no run of `register_unit` sends a statement to the
  -- proxy, whatever the answers.
  pub register_guarded :
      (env : Env) (node : StorageNode) (provider : StorageProvider)
      → wants_registration node ≡ false
      → All (Fails is_statement) (run env (register_unit sdk node provider)).1
  register_guarded env node provider h = Avoids-run is_statement env _ (unit_quiet node provider h)
