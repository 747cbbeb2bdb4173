-- ===== src/ShardingSphere.antt =====
-- pkg/shardingsphere/shardingsphere.go: the DistSQL that the operator sends to a ShardingSphere
-- proxy over `database/sql`.
pub mod Statements
use shardingsphere_on_cloud.Prelude.{
  ℕ, String, ◌<>◌, List, [], ◌∷◌, ◌==◌, ◌&&◌, ◌||◌, not, eqb, if◌then◌else◌,
}
use shardingsphere_on_cloud.Go.{text, wrap, cite}
use shardingsphere_on_cloud.Go.Number.{decimal}
use shardingsphere_on_cloud.Effects.{
  Rule, Prog, pure, fail, call, on_error, ◌>>=◌, ◌>>◌, sql_open, sql_ping, sql_exec, sql_query,
}

abbrev pub create_database_sql : String → String
create_database_sql db = "CREATE DATABASE IF NOT EXISTS " <> (db <> ";")

abbrev pub use_database_sql : String → String
use_database_sql db = "USE " <> (db <> ";")

abbrev pub register_sql : String → String → ℕ → String → String → String → String
register_sql ds host port db user password =
    "REGISTER STORAGE UNIT IF NOT EXISTS "
    <> (ds
        <> (" (HOST=\""
            <> (host
                <> ("\",PORT="
                    <> (decimal port
                        <> (",DB=\""
                            <> (db
                                <> ("\",USER=\""
                                    <> (user <> ("\",PASSWORD=\"" <> (password <> "\");")))))))))))

abbrev pub show_rules_sql : String → String
show_rules_sql ds = "SHOW RULES USED STORAGE UNIT " <> (ds <> ";")

abbrev pub unregister_sql : String → String
unregister_sql ds = "UNREGISTER STORAGE UNIT " <> (ds <> ";")

-- `ruleTypeMap[ruleType]`, which knows one type of rule
abbrev pub rule_type : String → String
rule_type t = if t == "sharding" then "SHARDING TABLE" else ""

abbrev pub drop_rule_sql : Rule → String
drop_rule_sql r = "DROP " <> (rule_type r.type <> (" RULE " <> (r.name <> ";")))

unfoldable pub data_source_name : String → String → String → ℕ → String
data_source_name user password host port =
    user <> (":" <> (password <> ("@tcp(" <> (host <> (":" <> (decimal port <> ")/"))))))

-- `NewServer`
unfoldable pub new_server : String → String → ℕ → String → String → Prog (Unit {0})
new_server driver host port user password =
    if not (driver == "mysql") && not (driver == "postgres")
    then fail (text ("unsupported database driver: " <> driver))
    else if (host == "") || eqb port 0 || (user == "") || (password == "")
    then fail (text "invalid database config")
    else (do
      on_error (wrap "open database error")
          (call (sql_open driver (data_source_name user password host port)))
      on_error (wrap "ping database error") (call sql_ping))

-- `CreateDatabase`
unfoldable pub create_database : String → Prog (Unit {0})
create_database db =
    on_error (wrap "create database error") (call (sql_exec (create_database_sql db)))

-- `RegisterStorageUnit`
unfoldable pub register_storage_unit :
    String → String → String → ℕ → String → String → String → Prog (Unit {0})
register_storage_unit logic_db ds host port db user password = do
  on_error (wrap "use database error") (call (sql_exec (use_database_sql logic_db)))
  on_error (wrap "register database error")
      (call (sql_exec (register_sql ds host port db user password)))

-- `getRulesUsed`; the rows are read as one list, so an error of the query, of a row (`Scan`) and of
-- their end (`Err`) is one answer, with the message of the first.
unfoldable pub get_rules_used : String → Prog (List Rule)
get_rules_used ds = on_error (wrap "get rules used error") (call (sql_query (show_rules_sql ds)))

-- `dropRule`
unfoldable pub drop_rule : Rule → Prog (Unit {0})
drop_rule r = on_error (cite "drop rule fail, err: ") (call (sql_exec (drop_rule_sql r)))

-- The loop of `UnRegisterStorageUnit` over the rules used.
unfoldable pub drop_rules : List Rule → Prog (Unit {0})
drop_rules [] = pure tt
drop_rules (r ∷ rs) = on_error (wrap "drop rule error") (drop_rule r) >> drop_rules rs

-- `UnRegisterStorageUnit`
unfoldable pub unregister_storage_unit : String → String → Prog (Unit {0})
unregister_storage_unit logic_db ds = do
  on_error (wrap "use database error") (call (sql_exec (use_database_sql logic_db)))
  rules ← on_error (wrap "get rules used error") (get_rules_used ds)
  drop_rules rules
  on_error (wrap "unregister database error") (call (sql_exec (unregister_sql ds)))
