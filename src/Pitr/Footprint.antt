-- ===== src/Pitr/Footprint.antt =====
-- The kinds of request that each part of the PITR command line makes, stated as the kinds that it
-- avoids: `s` marks kinds that are none of those that the part makes.
pub mod Agents
pub mod Nodes
use shardingsphere_on_cloud.Prelude.{
  ℕ, zero, suc, String, ◌≡◌, Bool, false, Option, none, some, List, [], ◌∷◌, ◌==◌, is_empty, arith,
}
use shardingsphere_on_cloud.Go.{Error, ok, err, cite, text}
use shardingsphere_on_cloud.Effects.{Prog, panic, ◌>>=◌, attempt, done, pure, fail, call, pitr}
use shardingsphere_on_cloud.Effects.Avoids.{
  avoid_rules, Avoids, Avoids-attempt, Avoids-bind, Avoids-on_error, Avoids-if,
}
use shardingsphere_on_cloud.Pitr.Kinds.{
  PitrKind, agent_kind, pitr_kind, of_pitr_kind, connects, queries, checks, backs_up, deletes,
  reports, measures, makes_dir, reads, writes, removes, prompts, gives,
}
use shardingsphere_on_cloud.Pitr.Model.{StorageNode, DataNode, LsBackup, BackupStatus, canceled}
use shardingsphere_on_cloud.Pitr.Requests.{AgentIn, Entry, new_uuid, remove_file}
use shardingsphere_on_cloud.Pitr.Runtime.{Runtime, Flags}
use shardingsphere_on_cloud.Pitr.Agent as Agent
use shardingsphere_on_cloud.Pitr.Agent.{post}
use shardingsphere_on_cloud.Pitr.Proxy.{
  new_shardingsphere_proxy, export_metadata, export_storage_nodes,
}
use shardingsphere_on_cloud.Pitr.Storage.{
  init_dir, new_local_storage, named, read_entry, read_entries, read_all, read_all_by_csn,
  read_by_id, write_by_json, delete_file, delete_by_name, extn_json, gen_filename,
}
use shardingsphere_on_cloud.Pitr.Commands.Common.{
  get_user_approve_in_terminal, checked_records, first_backup, check_agents, now_text, certain,
  check_agent_server_status, show_disk_spaces, check_disk_space, validate, find_data_node,
  agent_address, db_of,
}
use shardingsphere_on_cloud.Pitr.Commands.Nodes.{
  exec_backup_node, backed_up, exec_backup_nodes, exec_backup, check_progress, polled, poll,
  poll_node, poll_nodes, check_backup_status, ongoing, ended, broken,
  default_show_detail_retry_times, show_detail_of, export_data,
}
use shardingsphere_on_cloud.Pitr.Commands.Backup.{do_delete, delete_nodes, delete_backup_files}

pub post-Avoids :
    (s : PitrKind → Bool) (method url : String) (i : AgentIn)
    → s (agent_kind i) ≡ false
    → Avoids (of_pitr_kind s) (post method url i)
unfolding post attempt
post-Avoids s method url i h = ground arith

pub new_proxy-Avoids :
    (s : PitrKind → Bool)
    → s connects ≡ false
    → (user password db host : String) (port : ℕ)
    → Avoids (of_pitr_kind s) (new_shardingsphere_proxy user password db host port)
unfolding new_shardingsphere_proxy attempt
new_proxy-Avoids s h user password db host port = ground arith

pub prompt-Avoids :
    (s : PitrKind → Bool) → s prompts ≡ false → Avoids (of_pitr_kind s) get_user_approve_in_terminal
unfolding get_user_approve_in_terminal attempt
prompt-Avoids s h = ground arith

check_agents-Avoids :
    (s : PitrKind → Bool) (flags : Flags) (sns : List StorageNode)
    → s checks ≡ false
    → Avoids (of_pitr_kind s) (check_agents flags sns)
unfolding check_agents Agent.check_status
check_agents-Avoids s flags [] h = tt
check_agents-Avoids s flags (sn ∷ sns) h =
    let t = of_pitr_kind s in
    let rest = check_agents-Avoids s flags sns h in
    Avoids-attempt t _ _ _ (post-Avoids s _ _ _ h) (λ _. Avoids-bind t _ _ rest (λ _. tt))
      (λ _. rest)

pub check_agent_server_status-Avoids :
    (s : PitrKind → Bool) (flags : Flags) (b : LsBackup)
    → s checks ≡ false
    → Avoids (of_pitr_kind s) (check_agent_server_status flags b)
unfolding check_agent_server_status
check_agent_server_status-Avoids s flags b h =
    Avoids-bind (of_pitr_kind s) _ _ (check_agents-Avoids s flags b.ss_backup.storage_nodes h)
      (λ _. tt)

module _ (rt : Runtime) (s : PitrKind → Bool) (no_queries : s queries ≡ false) where
  pub export_metadata-Avoids : Avoids (of_pitr_kind s) (export_metadata rt)
  unfolding export_metadata
  export_metadata-Avoids =
      let t = of_pitr_kind s in
      Avoids-bind t _ _ (search (avoid_rules)) λ rows.
        Avoids-bind t (done _) _ tt
          λ column. Avoids-bind t (done _) _ tt λ raw. Avoids-bind t (done _) _ tt λ out. tt

  pub export_storage_nodes-Avoids : Avoids (of_pitr_kind s) (export_storage_nodes rt)
  unfolding export_storage_nodes
  export_storage_nodes-Avoids =
      let t = of_pitr_kind s in
      Avoids-bind t _ _ (search (avoid_rules))
        λ rows. Avoids-bind t (done _) _ tt λ column. Avoids-bind t (done _) _ tt λ out. tt

module _ (rt : Runtime) (s : PitrKind → Bool) (no_reads : s reads ≡ false) where
  named-Avoids : (name : String) (b : Option LsBackup) → Avoids (of_pitr_kind s) (named name b)
  named-Avoids name none = tt
  named-Avoids name (some b) = tt

  read_entry-Avoids :
      (dir : String) (entry : Entry) → Avoids (of_pitr_kind s) (read_entry rt dir entry)
  unfolding read_entry
  read_entry-Avoids dir entry = search (avoid_rules, Avoids-attempt, named-Avoids) depth 12

  read_entries-Avoids :
      (dir : String) (entries : List Entry) → Avoids (of_pitr_kind s) (read_entries rt dir entries)
  unfolding read_entries
  read_entries-Avoids dir [] = tt
  read_entries-Avoids dir (entry ∷ entries) =
      search (avoid_rules, read_entry-Avoids, read_entries-Avoids dir entries)

  read_all-Avoids : (dir : String) → Avoids (of_pitr_kind s) (read_all rt dir)
  unfolding read_all
  read_all-Avoids dir = search (avoid_rules, read_entries-Avoids)

  checked_records-Avoids : (bs : List LsBackup) → Avoids (of_pitr_kind s) (checked_records bs)
  checked_records-Avoids [] = tt
  checked_records-Avoids (b ∷ []) = tt
  checked_records-Avoids (a ∷ (b ∷ bs)) = tt

  pub first_backup-Avoids : (bs : List LsBackup) → Avoids (of_pitr_kind s) (first_backup bs)
  first_backup-Avoids [] = tt
  first_backup-Avoids (b ∷ bs) = tt

  read_all_by_csn-Avoids : (dir csn : String) → Avoids (of_pitr_kind s) (read_all_by_csn rt dir csn)
  unfolding read_all_by_csn
  read_all_by_csn-Avoids dir csn =
      Avoids-bind (of_pitr_kind s) (read_all rt dir) _ (read_all-Avoids dir) λ list. tt

  read_by_id-Avoids : (dir id : String) → Avoids (of_pitr_kind s) (read_by_id rt dir id)
  unfolding read_by_id
  read_by_id-Avoids dir id =
      Avoids-bind (of_pitr_kind s) (read_all rt dir) _ (read_all-Avoids dir) λ list. tt

  pub validate-Avoids :
      (flags : Flags) (dir : String) → Avoids (of_pitr_kind s) (validate flags rt dir)
  unfolding validate
  validate-Avoids flags dir =
      let t = of_pitr_kind s in
      Avoids-bind t _ _
        (Avoids-if t (flags.csn == "") _ _ tt
          (Avoids-on_error t _ _ (read_all_by_csn-Avoids dir flags.csn)))
        λ of_csn.
          Avoids-bind t _ _
            (Avoids-if t (flags.record_id == "") _ _ tt (
              Avoids-on_error t _ _
                (Avoids-bind t _ _ (read_by_id-Avoids dir flags.record_id) λ b. tt)))
            λ of_id. checked_records-Avoids _

  module _ (no_dirs : s makes_dir ≡ false) where
    init_dir-Avoids :
        (what exists info dir : String) → Avoids (of_pitr_kind s) (init_dir rt what exists info dir)
    unfolding init_dir attempt
    init_dir-Avoids what exists info dir = ground arith

    pub new_local_storage-Avoids :
        (root : String) → Avoids (of_pitr_kind s) (new_local_storage rt root)
    unfolding new_local_storage
    new_local_storage-Avoids root = search (avoid_rules, init_dir-Avoids)

module _ (rt : Runtime) (s : PitrKind → Bool) (no_writes : s writes ≡ false) where
  pub write_by_json-Avoids :
      (dir name : String) (b : LsBackup) → Avoids (of_pitr_kind s) (write_by_json rt dir name b)
  unfolding write_by_json attempt
  write_by_json-Avoids dir name b = ground arith

module _ (s : PitrKind → Bool) (none_given : s gives ≡ false) where
  certain-Avoids :
      (m : Prog String) → Avoids (of_pitr_kind s) m → Avoids (of_pitr_kind s) (certain m)
  certain-Avoids m a =
      Avoids-attempt (of_pitr_kind s) m (λ _. pure "") (λ v. pure v) a (λ _. tt) (λ _. tt)

  pub now_text-Avoids : Avoids (of_pitr_kind s) now_text
  unfolding attempt
  now_text-Avoids = ground arith

  gen_filename-Avoids : Avoids (of_pitr_kind s) (gen_filename extn_json)
  unfolding gen_filename attempt
  gen_filename-Avoids = ground arith

  pub export_data-Avoids :
      (rt : Runtime) (flags : Flags) (dir : String)
      → s queries ≡ false
      → s writes ≡ false
      → Avoids (of_pitr_kind s) (export_data rt flags dir)
  unfolding export_data
  export_data-Avoids rt flags dir q w =
      let t = of_pitr_kind s in
      Avoids-bind t _ _ (Avoids-on_error t _ _ (export_metadata-Avoids rt s q)) λ cluster.
        Avoids-bind t _ _ (Avoids-on_error t _ _ (export_storage_nodes-Avoids rt s q)) λ nodes.
          Avoids-bind t _ _ (certain-Avoids (gen_filename extn_json) gen_filename-Avoids)
            λ filename.
              Avoids-bind t _ _ (certain-Avoids (call (pitr new_uuid)) (none_given, λ _. tt)) λ id.
                Avoids-bind t _ _ now_text-Avoids λ start_time.
                  Avoids-bind t _ _
                    (Avoids-on_error t _ _ (write_by_json-Avoids rt s w dir filename _)) (λ _. tt)
