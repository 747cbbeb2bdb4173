-- ===== src/PitrAgent/Handlers.antt =====
-- solutions/opengauss/pitr/agent/internal/handler: what each handler answers with. `body` is what
-- `BodyParser` gave.
pub mod Recovery
pub mod Accepts
use shardingsphere_on_cloud.Prelude.{
  String, ◌<>◌, Option, none, some, List, [], not, ◌==◌, if◌then◌else◌,
}
use shardingsphere_on_cloud.Go.{Error, Result, ok, err, text, wrap, cite}
use shardingsphere_on_cloud.Go.Number.{pos, negsuc}
use shardingsphere_on_cloud.Effects.{
  Prog, done, pure, fail, call, attempt, on_error, ◌>>=◌, ◌>>◌, host,
}
use shardingsphere_on_cloud.Pitr.Model.{
  HealthCheckIn, BackupIn, DeleteBackupIn, RestoreIn, ShowDetailIn, ShowListIn, DiskSpaceIn,
  BackupInfo, Reply,
}
use shardingsphere_on_cloud.PitrAgent.Requests.{mkdir_all}
use shardingsphere_on_cloud.PitrAgent.Errors.{is_error, instance_already_exist, body_parse_failed}
use shardingsphere_on_cloud.PitrAgent.Host.{Host}
use shardingsphere_on_cloud.PitrAgent.Cmds.{exec}
use shardingsphere_on_cloud.PitrAgent.OpenGauss as OpenGauss
use shardingsphere_on_cloud.PitrAgent.View.{
  validate_backup, validate_delete_backup, validate_restore, validate_show, validate_show_list,
  validate_disk_space, new_backup_info, new_backup_info_list,
}

-- `UniformRawErrResp` and `Success`: the answer to what a handler ended with.
abbrev pub reply_of : {A : Type 0} → Host → Result A → Reply (Option A)
reply_of h (ok a) = record { code = pos 0; msg = "Success"; payload = some a }
reply_of h (err e) = record { code = negsuc 0; msg = h.error_text e; payload = none }

-- An input, unless its method `Validate` returns an error.
abbrev pub checked : {In : Type 0} → In → Option Error → Prog In
checked i none = pure i
checked i (some e) = fail (wrap "invalid parameter, err wrap: " e)

module _ (h : Host) where
  -- What every handler begins with: the input, parsed and valid.
  abbrev pub input : {In : Type 0} → (In → Option Error) → Result In → Prog In
  input validate (err e) =
      fail (wrap ("body parse err: " <> (h.error_text e <> ", wrap: ")) body_parse_failed)
  input validate (ok i) = checked i (validate i)

  unfoldable pub authenticate : HealthCheckIn → Prog (Unit {0})
  authenticate db =
      on_error (wrap "pkg.OG.Auth failure, err wrap=")
        (OpenGauss.auth h db.username db.password db.db_name db.db_port)

  -- `Backup`
  unfoldable pub backup : Result BackupIn → Prog String
  backup body = input validate_backup body >>= λ i.
      authenticate i.db
      >> (on_error (wrap "init instance failed, err: ") (OpenGauss.init h i.dn_backup_path)
          >> (attempt (OpenGauss.add_instance h i.dn_backup_path i.instance_name)
                (λ e.
                  if is_error instance_already_exist e
                  then pure tt
                  else fail (wrap "add instance failed, err wrap: " e))
                (λ _. pure tt)
              >> on_error (wrap "pkg.OG.AsyncBackup failure, err wrap: ") (
                  OpenGauss.async_backup h i.dn_backup_path i.instance_name i.dn_backup_mode
                    i.dn_threads_num i.db.db_port)))

  -- `DeleteBackup`
  unfoldable pub delete_backup : Result DeleteBackupIn → Prog (Unit {0})
  delete_backup body = input validate_delete_backup body >>= λ i.
      authenticate i.db
      >> on_error (wrap "delete backup failure, err: ")
          (OpenGauss.del_backup h i.dn_backup_path i.instance_name i.backup_id)

  -- `HealthCheck`, which validates nothing
  unfoldable pub health_check : (schema : String) → Result HealthCheckIn → Prog (Unit {0})
  health_check schema body = input (λ _. none) body >>= λ db.
      authenticate db
      >> (if not (schema == "")
          then on_error (wrap "pkg.OG.CheckSchema return err wrap: ")
              (OpenGauss.check_schema h db.username db.password db.db_name db.db_port schema)
          else pure tt)

  -- `Show`
  unfoldable pub show : Result ShowDetailIn → Prog (Option BackupInfo)
  show body = input validate_show body >>= λ i.
      authenticate i.db
      >> (on_error (wrap "pkg.OG.ShowBackupDetail failure, err wrap: ")
            (OpenGauss.show_backup h i.dn_backup_path i.instance_name i.dn_backup_id)
          >>= λ b. pure (new_backup_info i.dn_backup_path i.instance_name b))

  -- `ShowList`
  unfoldable pub show_list : Result ShowListIn → Prog (List BackupInfo)
  show_list body = input validate_show_list body >>= λ i.
      authenticate i.db
      >> (on_error (wrap "pkg.OG.ShowBackupList failure, err wrap: ")
            (OpenGauss.show_backup_list h i.dn_backup_path i.instance_name)
          >>= λ bs. pure (new_backup_info_list i.dn_backup_path i.instance_name bs))

  -- `DiskSpace`
  unfoldable pub disk_space : Result DiskSpaceIn → Prog String
  disk_space body = input validate_disk_space body >>= λ i.
      on_error (wrap "mkdir failure, err wrap: ") (call (host (mkdir_all i.disk_path)))
      >> on_error (wrap "exec cmd failure, err wrap: ")
          (exec h h.env_shell ("df -h " <> i.disk_path))

  -- The deferred function that starts openGauss after an error.
  unfoldable pub started_after : Error → Prog (Unit {0})
  started_after e =
      attempt (OpenGauss.start h)
        (λ s. fail (wrap ("pkg.OG.Start() return err: " <> (h.error_text s <> ", wrap: ")) e))
        (λ _. fail e)

  -- The deferred function that moves the data back after a failed restore.
  unfoldable pub moved_back : Error → Prog (Unit {0})
  moved_back e =
      attempt (OpenGauss.mv_temp_to_pg_data h)
        (λ m. fail (
          text (
            "restore failure[err="
            <> (h.error_text e <> ("], pkg.OG.MvTempToPgData return err: " <> h.error_text m)))))
        (λ _. fail (cite "restore failure[err=" e))

  -- `Restore` once the data is in the temporary directory
  unfoldable pub restore_data : RestoreIn → Prog (Unit {0})
  restore_data i =
      attempt (OpenGauss.restore h i.dn_backup_path i.instance_name i.dn_backup_id i.dn_threads_num)
        moved_back
        (λ _.
          on_error (wrap "pkg.OG.CleanPgDataTemp return err wrap: ")
            (OpenGauss.clean_pg_data_temp h)
          >> on_error (wrap "pkg.OG.Start return err wrap: ") (OpenGauss.start h))

  -- `Restore` once openGauss has stopped
  unfoldable pub restore_stopped : RestoreIn → Prog (Unit {0})
  restore_stopped i =
      attempt
        (on_error (wrap "pkg.OG.MvPgDataToTemp return err wrap: ") (OpenGauss.mv_pg_data_to_temp h)
          >> restore_data i)
        started_after (λ _. pure tt)

  -- `Restore`
  unfoldable pub restore : Result RestoreIn → Prog (Unit {0})
  restore body = input validate_restore body >>= λ i.
      authenticate i.db
      >> (on_error (wrap "stop openGauss failure, err wrap: ") (OpenGauss.stop h)
          >> restore_stopped i)
