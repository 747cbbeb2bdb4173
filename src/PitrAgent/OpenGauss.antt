-- ===== src/PitrAgent/OpenGauss.antt =====
-- solutions/opengauss/pitr/agent/internal/pkg/opengauss.go: the commands on openGauss. A receive from
-- a nil channel, which never returns, is a `panic` here: no deferred function runs after it either.
use shardingsphere_on_cloud.Prelude.{
  ℕ, String, ◌<>◌, Option, none, some, List, [], ◌∷◌, ◌==◌, ◌||◌, eqb, ◌&&◌, if◌then◌else◌,
}
use shardingsphere_on_cloud.Go.{Error, Result, ok, err, text, wrap}
use shardingsphere_on_cloud.Go.Number.{decimal}
use shardingsphere_on_cloud.Go.Text.{contains, is_blank, has_prefix, parent}
use shardingsphere_on_cloud.Effects.{Prog, done, panic, pure, fail, attempt, ◌>>=◌, ◌>>◌}
use shardingsphere_on_cloud.PitrAgent.Errors.{
  is_error, cmd_operate_failed, no_permission, instance_already_exist, missing_db_information,
  unknown_og_status, cmd_async_backup_failed,
}
use shardingsphere_on_cloud.PitrAgent.Host.{Host, Backup, BackupList}
use shardingsphere_on_cloud.PitrAgent.Cmds.{Output, exec, async_exec}
use shardingsphere_on_cloud.PitrAgent.Gsutil as Gsutil

-- The loop of `ShowBackup` and `ShowBackupList`: the backups of the instance, none where it is not
-- found, since the error that is returned there is nil.
abbrev pub of_instance : String → List BackupList → List Backup
of_instance name [] = []
of_instance name (l ∷ ls) =
    let rest = of_instance name ls in if l.instance_name == name then l.list else rest

-- The first output with an error, at which `Restore` returns; the command is then taken to have ended,
-- although the code does not wait for it.
abbrev pub first_error : List Output → Option Error
first_error [] = none
first_error (o ∷ os) = let rest = first_error os in elim o.error [ none ↦ rest | some e ↦ some e ]

abbrev pub first_of : List Backup → Option Backup
first_of [] = none
first_of (b ∷ bs) = some b

module _ (h : Host) where
  -- A command whose output is not read.
  unfoldable pub operate : String → Prog (Unit {0})
  operate cmd = exec h h.shell cmd >> pure tt

  -- The field `pgDataTemp`: `pgData` with its last part replaced by "temp".
  abbrev pub pg_data_temp : String
  pg_data_temp = parent h.pg_data <> "temp"

  -- `getBackupID`: where nothing matches, the error that is returned is nil.
  abbrev pub get_backup_id : String → Result String
  get_backup_id msg = elim (h.find_backup_id msg) [
    | err e ↦ err e
    | ok none ↦ ok ""
    | ok (some id) ↦ ok id
  ]

  -- The loop of `AsyncBackup`
  abbrev pub read_outputs : String → List Output → Result String
  read_outputs bid [] = ok bid
  read_outputs bid (o ∷ os) = elim o.error [
    | some e ↦ err e
    | none ↦
        if contains o.message "INFO: Backup start"
        then elim (get_backup_id o.message) [ err e ↦ err e | ok id ↦ read_outputs id os ]
        else read_outputs bid os
  ]

  abbrev backup_cmd : (path name mode : String) → (threads port : ℕ) → String
  backup_cmd path name mode threads port =
      "gs_probackup backup --backup-path="
      <> (path
          <> (" --instance="
              <> (name
                  <> (" --backup-mode="
                      <> (mode
                          <> (" --pgdata="
                              <> (h.pg_data
                                  <> (" --threads="
                                      <> (decimal threads
                                          <> (" --pgport " <> (decimal port <> " 2>&1")))))))))))

  -- `AsyncBackup`
  unfoldable pub async_backup : (path name mode : String) → (threads port : ℕ) → Prog String
  async_backup path name mode threads port =
      attempt (async_exec h h.shell (backup_cmd path name mode threads port))
        (λ _. fail (wrap "cmds.AsyncExec return err wrap: " cmd_async_backup_failed))
        (λ os. done (read_outputs "" os))

  -- `showbackup`
  unfoldable pub show_backups : (cmd name : String) → Prog (List Backup)
  show_backups cmd name = exec h h.shell cmd >>= λ out.
      done (h.unmarshal_lists out) >>= λ ls. pure (of_instance name ls)

  -- `ShowBackup`
  unfoldable pub show_backup : (path name id : String) → Prog (Option Backup)
  show_backup path name id =
      show_backups
        ("gs_probackup show --instance="
          <> (name
              <> (" --backup-path="
                  <> (path <> (" --backup-id=" <> (id <> " --format=json 2>&1"))))))
        name
      >>= λ list. pure (first_of list)

  -- `ShowBackupList`
  unfoldable pub show_backup_list : (path name : String) → Prog (List Backup)
  show_backup_list path name =
      show_backups
        ("gs_probackup show --instance="
          <> (name <> (" --backup-path=" <> (path <> " --format=json 2>&1"))))
        name

  -- `DelBackup`
  unfoldable pub del_backup : (path name id : String) → Prog (Unit {0})
  del_backup path name id = operate (
      "gs_probackup delete --backup-path="
      <> (path <> (" --instance=" <> (name <> (" --backup-id=" <> (id <> " 2>&1"))))))

  -- `Init`: a catalog that exists already is no error.
  unfoldable pub init : String → Prog (Unit {0})
  init path =
      attempt (operate ("gs_probackup init --backup-path=" <> (path <> " 2>&1")))
        (λ e.
          if is_error cmd_operate_failed e
            && contains (h.error_text e) "backup catalog already exist and it's not empty"
          then pure tt
          else fail e)
        (λ _. pure tt)

  -- `deinit`
  unfoldable pub deinit : String → Prog (Unit {0})
  deinit path =
      if has_prefix path "/home/omm/" then operate ("rm -r " <> path) else fail no_permission

  -- `AddInstance`
  unfoldable pub add_instance : (path name : String) → Prog (Unit {0})
  add_instance path name =
      attempt
        (operate (
          "gs_probackup add-instance --backup-path="
          <> (path <> (" --instance=" <> (name <> (" --pgdata=" <> (h.pg_data <> " 2>&1")))))))
        (λ e.
          if is_error cmd_operate_failed e
          then fail (
              wrap ("add instance failure, err: " <> (h.error_text e <> ", wrap: "))
                (text instance_already_exist))
          else fail e)
        (λ _. pure tt)

  -- `DelInstance`
  unfoldable pub del_instance : (path name : String) → Prog (Unit {0})
  del_instance path name = operate (
      "gs_probackup del-instance --backup-path=" <> (path <> (" --instance=" <> (name <> " 2>&1"))))

  abbrev pub start_cmd : String
  start_cmd = "gs_ctl start --pgdata=" <> h.pg_data

  abbrev pub stop_cmd : String
  stop_cmd = "gs_ctl stop --pgdata=" <> h.pg_data

  abbrev pub mv_to_temp_cmd : String
  mv_to_temp_cmd = "mv " <> (h.pg_data <> (" " <> pg_data_temp))

  abbrev pub mv_to_pg_data_cmd : String
  mv_to_pg_data_cmd = "mv " <> (pg_data_temp <> (" " <> h.pg_data))

  abbrev pub clean_cmd : String
  clean_cmd = "rm -r " <> pg_data_temp

  abbrev pub restore_cmd : (path name id : String) → (threads : ℕ) → String
  restore_cmd path name id threads =
      "gs_probackup restore --backup-path="
      <> (path
          <> (" --instance="
              <> (name
                  <> (" --backup-id="
                      <> (id
                          <> (" --pgdata="
                              <> (h.pg_data
                                  <> (" --threads=" <> (decimal threads <> " 2>&1")))))))))

  -- `Start`, `Stop`, `MvPgDataToTemp`, `MvTempToPgData` and `CleanPgDataTemp`, where the branches on
  -- an error differ in what they log
  unfoldable pub start : Prog (Unit {0})
  start = operate start_cmd

  unfoldable pub stop : Prog (Unit {0})
  stop = operate stop_cmd

  unfoldable pub mv_pg_data_to_temp : Prog (Unit {0})
  mv_pg_data_to_temp = operate mv_to_temp_cmd

  unfoldable pub mv_temp_to_pg_data : Prog (Unit {0})
  mv_temp_to_pg_data = operate mv_to_pg_data_cmd

  unfoldable pub clean_pg_data_temp : Prog (Unit {0})
  clean_pg_data_temp = operate clean_cmd

  -- `Status`
  unfoldable pub status : Prog String
  status =
      attempt (exec h h.shell ("gs_ctl status --pgdata=" <> h.pg_data))
        (λ e.
          if is_error cmd_operate_failed e && contains (h.error_text e) "no server running"
          then pure "Stopped"
          else fail e)
        (λ out. if contains out "server is running" then pure "Running" else fail unknown_og_status)

  -- `Restore`: where `AsyncExec` fails its channel is nil.
  unfoldable pub restore : (path name id : String) → (threads : ℕ) → Prog (Unit {0})
  restore path name id threads =
      attempt (async_exec h h.shell (restore_cmd path name id threads))
        (λ _. panic "receive from a nil channel")
        (λ os. elim (first_error os) [ none ↦ pure tt | some e ↦ fail e ])

  -- `Auth`
  unfoldable pub auth : (user password db_name : String) → (port : ℕ) → Prog (Unit {0})
  auth user password db_name port =
      if is_blank user || (is_blank password || (is_blank db_name || eqb port 0))
      then fail (wrap "invalid inputs, err wrap: " missing_db_information)
      else Gsutil.open_db h user password db_name port >> Gsutil.ping h

  -- `CheckSchema`
  unfoldable pub check_schema :
      (user password db_name : String) → (port : ℕ) → String → Prog (Unit {0})
  check_schema user password db_name port schema =
      Gsutil.open_db h user password db_name port >> Gsutil.check_schema schema
