-- ===== src/Pitr/Storage.antt =====
-- solutions/opengauss/pitr/cli/internal/pkg/local-storage.go: the directory of backup records.
pub mod Disk
pub mod Directory
pub mod Records
pub mod Reading
pub mod Lifecycle
use shardingsphere_on_cloud.Prelude.{
  String, ◌<>◌, Option, none, some, List, [], ◌∷◌, ◌==◌, not, if◌then◌else◌,
}
use shardingsphere_on_cloud.Go.{Error, Result, ok, err, text, cite}
use shardingsphere_on_cloud.Go.Text.{has_prefix, has_suffix}
use shardingsphere_on_cloud.Effects.{
  Prog, done, panic, pure, fail, call, attempt, on_error, ◌>>=◌, ◌>>◌, pitr,
}
use shardingsphere_on_cloud.Pitr.Model.{LsBackup}
use shardingsphere_on_cloud.Pitr.Requests.{
  Entry, stat, mkdir, read_dir, create_file, entry_info, read_file, remove_file, write_file,
  rename_file, clock, random,
}
use shardingsphere_on_cloud.Pitr.Runtime.{Runtime}

pub data Extension : Type 0 where
  extn_json other_extn : Extension

-- `DefaultRootDir`
abbrev pub default_root_dir : Runtime → String
default_root_dir rt = rt.home <> "/.gs_pitr"

-- `ls.backupDir`
abbrev pub backup_dir : String → String
backup_dir root = root <> "/backup"

abbrev pub hidden : String → String
hidden name = "." <> name

-- `NotFound`
abbrev pub not_found : Error
not_found = text "Not found"

-- `GenFilename`
unfoldable pub gen_filename : Extension → Prog String
gen_filename extn = do
  prefix ← call (pitr (clock "20060102150405"))
  suffix ← call (pitr (random 8))
  pure (elim extn [
    | extn_json ↦ prefix <> ("_" <> (suffix <> ".json"))
    | other_extn ↦ prefix <> ("_" <> suffix)
  ])

-- `deleteByName`
unfoldable pub delete_file : (dir name : String) → Prog (Unit {0})
delete_file dir name =
    on_error (cite "delete file failed. err: ") (call (pitr (remove_file dir name)))

-- `DeleteByName`
unfoldable pub delete_by_name : (dir name : String) → Prog (Unit {0})
delete_by_name dir name = delete_file dir name

-- `DeleteByHidedName`
unfoldable pub delete_by_hided_name : (dir name : String) → Prog (Unit {0})
delete_by_hided_name dir name = delete_file dir (hidden name)

-- `HideByName`
unfoldable pub hide_by_name : (dir name : String) → Prog (Unit {0})
hide_by_name dir name =
    on_error (cite "hide file failed. err: ") (call (pitr (rename_file dir name (hidden name))))

-- The record of a file, with the name of the file, where `b.Info` is not nil.
abbrev pub named : String → Option LsBackup → Prog LsBackup
named name none = panic "invalid memory address or nil pointer dereference"
named name (some b) = pure (record b { info = record b.info { file_name = name } })

-- `ReadByID` and the loop of `ReadAllByCSN`
unfoldable pub find_id : String → List LsBackup → Result LsBackup
find_id id [] = err not_found
find_id id (b ∷ bs) = if b.info.id == id then ok b else find_id id bs

unfoldable pub filter_csn : String → List LsBackup → List LsBackup
filter_csn csn [] = []
filter_csn csn (b ∷ bs) =
    let rest = filter_csn csn bs in if b.info.csn == csn then b ∷ rest else rest

unfoldable pub find_csn : String → List LsBackup → Result LsBackup
find_csn csn [] = err not_found
find_csn csn (b ∷ bs) = if b.info.csn == csn then ok b else find_csn csn bs

abbrev pub with_first : Option LsBackup → List LsBackup → List LsBackup
with_first none bs = bs
with_first (some b) bs = b ∷ bs

module _ (rt : Runtime) where
  -- `ls.init` for one of its two directories. `Stat` answers with an error and no file, so the
  -- test of a file that exists is made on nil.
  unfoldable pub init_dir : (what exists info dir : String) → Prog (Unit {0})
  init_dir what exists info dir =
      attempt (call (pitr (stat dir)))
        (λ e.
          if rt.is_not_exist e
          then on_error (cite (what <> (dir <> ", err: "))) (call (pitr (mkdir dir)))
          else if rt.is_exist e
          then panic "invalid memory address or nil pointer dereference"
          else fail (cite (info <> (dir <> ", err: ")) e))
        (λ _. pure tt)

  -- `NewLocalStorage`, which answers with the backup directory
  unfoldable pub new_local_storage : String → Prog String
  new_local_storage root = do
    init_dir "create root dir failure. dir: " "file has already exist. name: "
        "failed to get file info. root dir: " root
    init_dir "create backup dir failure. dir: " "backup: file has already exist. name: "
        "failed to get file info. backup dir: " (backup_dir root)
    pure (backup_dir root)

  -- `WriteByJSON`
  unfoldable pub write_by_json : (dir name : String) → LsBackup → Prog (Unit {0})
  write_by_json dir name contents =
      if not (has_suffix name ".json")
      then fail (text ("wrong file extension. file name: " <> name))
      else (do
        body ← done (rt.marshal_backup contents)
        on_error (λ _. text ("create file failure. file path: " <> (dir <> ("/" <> name))))
            (call (pitr (create_file dir name)))
        on_error (cite "write to file failure. err: ") (call (pitr (write_file dir name body))))

  -- One round of the loop of `ReadAll`: an entry that is no record of a backup is skipped.
  unfoldable pub read_entry : String → Entry → Prog (Option LsBackup)
  read_entry dir entry =
      if entry.is_dir then pure none else if has_prefix entry.name "." then pure none else (do
        name ←
            attempt (call (pitr (entry_info dir entry.name)))
              (λ e.
                if rt.is_not_exist e
                then fail (text "The file does not exist or has changed")
                else fail (cite "Unknown err: get entry info failed. err: " e))
              (λ name. pure name)
        if not (has_suffix name ".json") then pure none else (do
          file ← on_error (cite "read file failed. err: ") (call (pitr (read_file dir name)))
          b ←
              on_error
                (cite ("invalid contents[filePath=" <> (dir <> ("/" <> (name <> "]. err: ")))))
                (done (rt.unmarshal_backup file))
          v ← named name b
          pure (some v)))

  -- The loop of `ReadAll`
  unfoldable pub read_entries : String → List Entry → Prog (List LsBackup)
  read_entries dir [] = pure []
  read_entries dir (entry ∷ entries) =
      read_entry dir entry >>= λ b. read_entries dir entries >>= λ bs. pure (with_first b bs)

  -- `ReadAll`
  unfoldable pub read_all : String → Prog (List LsBackup)
  read_all dir = do
    entries ←
        on_error (cite ("read the dir[path:" <> (dir <> "] failed. err: ")))
          (call (pitr (read_dir dir)))
    read_entries dir entries

  -- `ReadByCSN`
  unfoldable pub read_by_csn : (dir csn : String) → Prog LsBackup
  read_by_csn dir csn = read_all dir >>= λ list. done (find_csn csn list)

  -- `ReadAllByCSN`
  unfoldable pub read_all_by_csn : (dir csn : String) → Prog (List LsBackup)
  read_all_by_csn dir csn = read_all dir >>= λ list. pure (filter_csn csn list)

  -- `ReadByID`
  unfoldable pub read_by_id : (dir id : String) → Prog LsBackup
  read_by_id dir id = read_all dir >>= λ list. done (find_id id list)
