-- ===== src/ShardingSphere/Statements.antt =====
-- The statements of `UnRegisterStorageUnit` and their order.
use shardingsphere_on_cloud.Prelude.{String, ◌≡◌, refl, ◌∙◌, List, [], ◌∷◌}
use shardingsphere_on_cloud.Go.{Error, ok}
use shardingsphere_on_cloud.Effects.{Rule, Prog, attempt, sql_exec, sql_query}
use shardingsphere_on_cloud.Effects.Run.{Env, History, returned, run, run_from}
use shardingsphere_on_cloud.ShardingSphere.{
  use_database_sql, show_rules_sql, drop_rule_sql, unregister_sql, get_rules_used, drop_rule,
  drop_rules, unregister_storage_unit,
}

-- The history after the statements that drop the rules, from `h`.
abbrev pub dropped : List Rule → History → History
dropped [] h = h
dropped (r ∷ rs) h = dropped rs (sql_exec (drop_rule_sql r) ∷ h)

module _ (env : Env) (executes : (h : History) (s : String) → env h (sql_exec s) ≡ ok tt) where
  drop_rules-run :
      {B : Type 0} (rs : List Rule) (h : History) (e : Error → Prog B) (k : Unit {0} → Prog B)
      → run_from env h (attempt (drop_rules rs) e k) ≡ run_from env (dropped rs h) (k tt)
  unfolding drop_rules drop_rule run_from attempt
  drop_rules-run [] h e k = refl
  drop_rules-run (r ∷ rs) h e k =
      rw (executes h (drop_rule_sql r)) (drop_rules-run rs (sql_exec (drop_rule_sql r) ∷ h) e k)

-- If the proxy executes every statement and answers the query with `rules`, then
-- `unregister_storage_unit` succeeds after these requests: it selects the logic database, asks for
-- the rules used, drops each of them in the order of the answer, and unregisters the storage unit
-- last.
pub unregister_statements :
    (env : Env) (rules : List Rule) (db ds : String)
    → ((h : History) (s : String) → env h (sql_exec s) ≡ ok tt)
    → ((h : History) (s : String) → env h (sql_query s) ≡ ok rules)
    → run env (unregister_storage_unit db ds) ≡ (
      returned (ok tt),
      sql_exec (unregister_sql ds)
          ∷ dropped rules (sql_query (show_rules_sql ds) ∷ sql_exec (use_database_sql db) ∷ []),
    )
unfolding unregister_storage_unit get_rules_used run run_from attempt
unregister_statements env rules db ds x q =
    let selected : History = sql_exec (use_database_sql db) ∷ [] in
    let asked : History = sql_query (show_rules_sql ds) ∷ selected in
    let last : History = dropped rules asked in
    rw (x [] (use_database_sql db)) (
      rw (q selected (show_rules_sql ds))
        (drop_rules-run env x rules asked _ _ ∙ rw (x last (unregister_sql ds)) refl))
