-- ===== src/Pitr/Commands/Show.antt =====
-- solutions/opengauss/pitr/cli/internal/cmd/show.go. A run answers with the records that it prints.
use shardingsphere_on_cloud.Prelude.{String, List, [], ◌∷◌, ◌==◌, ◌&&◌, not, if◌then◌else◌}
use shardingsphere_on_cloud.Go.{cite, text}
use shardingsphere_on_cloud.Effects.{Prog, done, pure, fail, attempt, on_error, ◌>>=◌}
use shardingsphere_on_cloud.Pitr.Model.{LsBackup}
use shardingsphere_on_cloud.Pitr.Runtime.{Runtime, Flags}
use shardingsphere_on_cloud.Pitr.Storage.{
  default_root_dir, new_local_storage, read_all, read_all_by_csn, read_by_id,
}

module _ (rt : Runtime) (flags : Flags) where
  -- `formatRecordJSON`
  unfoldable pub format_record_json : List LsBackup → Prog (List String)
  format_record_json [] = pure []
  format_record_json (b ∷ bs) =
      attempt (done (rt.marshal_backup b))
        (λ _. fail (text "format backup record failed, indent failed."))
        (λ s. format_record_json bs >>= λ rest. pure (s ∷ rest))

  -- `show`; where no record is found it prints a message and no record.
  unfoldable pub show : Prog (List String)
  show = do
    dir ←
        on_error (cite "connect to local storage failed. err: ")
          (new_local_storage rt (default_root_dir rt))
    baks ← on_error (cite "read backup record failed. err: ") (
        if not (flags.csn == "")
        then read_all_by_csn rt dir flags.csn
        else if not (flags.record_id == "")
        then (read_by_id rt dir flags.record_id >>= λ b. pure (b ∷ []))
        else read_all rt dir)
    format_record_json baks

  -- `ShowCmd.Run`, which logs an error, and answers with what it prints
  unfoldable pub show_cmd : Prog (List String)
  show_cmd =
      if not (flags.csn == "") && not (flags.record_id == "")
      then pure []
      else attempt show (λ _. pure []) (λ out. pure out)
