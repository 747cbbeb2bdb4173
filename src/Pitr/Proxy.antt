-- ===== src/Pitr/Proxy.antt =====
-- solutions/opengauss/pitr/cli/internal/pkg/shardingsphere-proxy.go: the client of the proxy.
use Prim.Native.String.{len}
use shardingsphere_on_cloud.Prelude.{
  ℕ, String, ◌<>◌, Option, none, some, List, [], ◌∷◌, ◌++◌, ◌==◌, any, if◌then◌else◌,
}
use shardingsphere_on_cloud.Go.{Error, Result, ok, err, text, cite}
use shardingsphere_on_cloud.Go.Number.{decimal}
use shardingsphere_on_cloud.Effects.{
  Prog, done, pure, fail, call, attempt, on_error, ◌>>=◌, ◌>>◌, pitr,
}
use shardingsphere_on_cloud.Pitr.Model.{StorageNode, SnapshotInfo, ClusterInfo}
use shardingsphere_on_cloud.Pitr.Requests.{Rows, db_open, db_ping, db_exec, db_query}
use shardingsphere_on_cloud.Pitr.Runtime.{Runtime}

abbrev pub default_db_name : String
default_db_name = "postgres"

abbrev pub lock_for_backup_sql : String
lock_for_backup_sql =
    "LOCK CLUSTER WITH LOCK_STRATEGY(TYPE(NAME=\"WRITE\", PROPERTIES(\"lock_csn\"=true)));"

abbrev pub lock_for_restore_sql : String
lock_for_restore_sql = "LOCK CLUSTER WITH LOCK_STRATEGY(TYPE(NAME=\"READ_WRITE\"))"

abbrev pub unlock_sql : String
unlock_sql = "UNLOCK CLUSTER;"

abbrev pub import_metadata_sql : String → String
import_metadata_sql s = "IMPORT METADATA '" <> (s <> "';")

abbrev pub drop_database_sql : String → String
drop_database_sql name = "DROP DATABASE " <> (name <> ";")

abbrev db_ping_failed : (user password db_name host : String) → ℕ → Error → Error
db_ping_failed user password db_name host port = cite (
    "db ping fail[host="
    <> (host
        <> (",port="
            <> (decimal port
                <> (",user="
                    <> (user
                        <> (",pwLen="
                            <> (decimal (len password)
                                <> (",dbName=" <> (db_name <> "],err="))))))))))

-- `NewShardingSphereProxy`
unfoldable pub new_shardingsphere_proxy :
    (user password db_name host : String) → ℕ → Prog (Unit {0})
new_shardingsphere_proxy user password db_name host port = do
  call (pitr (db_open user password db_name host port))
  on_error (db_ping_failed user password db_name host port) (call (pitr db_ping))

-- `LockForBackup`
unfoldable pub lock_for_backup : Prog (Unit {0})
lock_for_backup =
    on_error (cite "shardingsphere lock for backup failure. err: ")
      (call (pitr (db_exec lock_for_backup_sql)))

-- `LockForRestore`
unfoldable pub lock_for_restore : Prog (Unit {0})
lock_for_restore =
    on_error (cite "shardingsphere lock for restore failure. err: ")
      (call (pitr (db_exec lock_for_restore_sql)))

-- `Unlock`
unfoldable pub unlock : Prog (Unit {0})
unlock = on_error (cite "shardingsphere unlock failure. err: ") (call (pitr (db_exec unlock_sql)))

-- What `ExportMetaData` and `ExportStorageNodes` read of the rows: the data of the first one, or
-- nothing where there is none.
unfoldable pub read_rows : String → Rows → Result String
read_rows prefix rows = elim rows.first [
  | some (err e) ↦ err (cite "query scan failure. err: " e)
  | some (ok data_column) ↦ elim rows.close [
    | err e ↦ err (cite "query close failure. err: " e)
    | ok _ ↦ elim rows.error [ none ↦ ok data_column | some e ↦ err (cite prefix e) ]
  ]
  | none ↦ elim rows.error [ none ↦ ok "" | some e ↦ err (cite prefix e) ]
]

-- A snapshot without a CSN is no snapshot.
abbrev clear_snapshot : Option SnapshotInfo → Option SnapshotInfo
clear_snapshot none = none
clear_snapshot (some s) = if s.csn == "" then none else some s

abbrev cite_result : {A : Type 0} → String → Result A → Result A
cite_result prefix (ok a) = ok a
cite_result prefix (err e) = err (cite prefix e)

-- The address that tells two nodes apart.
abbrev pub address : StorageNode → String
address n = n.ip <> (":" <> decimal n.port)

-- The inner loop of `ExportStorageNodes` over the nodes of one database, with the addresses that
-- were met.
unfoldable pub filter_duplicates : List StorageNode → List String → List StorageNode
filter_duplicates [] seen = []
filter_duplicates (n ∷ ns) seen =
    let duplicate = any (λ a. a == address n) seen in
    let rest = filter_duplicates ns (if duplicate then seen else address n ∷ seen) in
    if duplicate then rest else n ∷ rest

abbrev pub all_nodes : List (String × List StorageNode) → List StorageNode
all_nodes [] = []
all_nodes ((db, ns) ∷ rest) = ns ++ all_nodes rest

module _ (rt : Runtime) where
  -- `ExportMetaData`
  unfoldable pub export_metadata : Prog ClusterInfo
  export_metadata = do
    rows ←
        on_error (cite "export meta data failure. err: ")
          (call (pitr (db_query "EXPORT METADATA;")))
    column ← done (read_rows "query err: " rows)
    raw ← done (cite_result "base64 decode return err: " (rt.base64_decode column))
    out ← done (cite_result "json unmarshal return err: " (rt.unmarshal_cluster raw))
    pure (record out { snapshot_info = clear_snapshot out.snapshot_info })

  -- `ExportStorageNodes`
  unfoldable pub export_storage_nodes : Prog (List StorageNode)
  export_storage_nodes = do
    rows ←
        on_error (cite "export storage nodes failure. err: ")
          (call (pitr (db_query "EXPORT STORAGE NODES;")))
    column ← done (read_rows "query err failure. err: " rows)
    out ← done (cite_result "json unmarshal return err: " (rt.unmarshal_nodes column))
    pure (filter_duplicates (all_nodes (rt.visit_nodes out)) [])

  -- `ImportMetaData`
  unfoldable pub import_metadata : Option ClusterInfo → Prog (Unit {0})
  import_metadata none = fail (text "import meta data is nil")
  import_metadata (some i) =
      attempt (done (rt.marshal_cluster i)) (λ e. fail (text "json marshal,invalid data"))
        λ s.
          on_error (cite "import metadata failure. err: ")
            (call (pitr (db_exec (import_metadata_sql (rt.base64_encode s)))))

-- `DropDatabase`
unfoldable pub drop_database : String → Prog (Unit {0})
drop_database name =
    on_error (cite "drop database failure. err: ") (call (pitr (db_exec (drop_database_sql name))))
