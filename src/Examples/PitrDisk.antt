-- ===== src/Examples/PitrDisk.antt =====
-- A directory that holds one record, kept by an environment.
use shardingsphere_on_cloud.Prelude.{
  String, ◌≡◌, refl, ap, Option, none, some, List, [], ◌∷◌, ◌++◌, All, true,
}
use shardingsphere_on_cloud.Go.{Result, ok, err, external}
use shardingsphere_on_cloud.Go.Map.{GoMap, find}
use shardingsphere_on_cloud.Go.Order.{before}
use shardingsphere_on_cloud.Effects.{Request, pure, ◌>>=◌, ◌>>◌}
use shardingsphere_on_cloud.Effects.Run.{Env, History, returned, run}
use shardingsphere_on_cloud.Pitr.Model.{LsBackup}
use shardingsphere_on_cloud.Pitr.Requests.{PitrRequest, PitrResponse}
use shardingsphere_on_cloud.Pitr.Storage.{write_by_json, read_all, hide_by_name}
use shardingsphere_on_cloud.Pitr.Storage.Disk.{disk, entries_of, IsDisk}
use shardingsphere_on_cloud.Pitr.Storage.Records.{titled}
use shardingsphere_on_cloud.Pitr.Storage.Lifecycle.{write_then_hide}
use shardingsphere_on_cloud.Examples.PitrData.{backup_record, rt}

abbrev files : GoMap
files = ("1.json", "{}") ∷ []

abbrev opened : Option String → Result String
opened none = err (external "not found")
opened (some c) = ok c

abbrev disk_answer : History → (q : PitrRequest) → Result (PitrResponse q)
disk_answer h (PitrRequest.read_dir dir) = ok (entries_of (disk files "backup" h))
disk_answer h (PitrRequest.read_file dir name) = opened (find name (disk files "backup" h))
disk_answer h (PitrRequest.entry_info dir name) = ok name
disk_answer h (PitrRequest.create_file dir name) = ok tt
disk_answer h (PitrRequest.write_file dir name c) = ok tt
disk_answer h (PitrRequest.rename_file dir from to) = ok tt
disk_answer h _ = err (external "no answer")

abbrev disk_env : Env
disk_env h (Request.pitr q) = disk_answer h q
disk_env h _ = err (external "no answer")

disk_env-IsDisk : IsDisk disk_env files "backup"
disk_env-IsDisk = record {
  lists = λ h. refl;
  tells = λ h n. refl;
  reads = λ h n c e. ap opened e;
  creates = λ h n. refl;
  writes = λ h n c. refl;
  renames = λ h from to c e. refl;
}

write_then_hide_example :
    (pre : List LsBackup) × (post : List LsBackup) × (titled "1.json" backup_record ∷ []
      ≡ pre ++ post)
    × ((run disk_env (
          write_by_json rt "backup" "0.json" backup_record
          >> (read_all rt "backup" >>= λ written.
              hide_by_name "backup" "0.json"
              >> (read_all rt "backup" >>= λ left.
                  pure {A = List LsBackup × List LsBackup} (written, left))))).0
        ≡ returned (
            ok (pre ++ (titled "0.json" backup_record ∷ post), titled "1.json" backup_record ∷ [])))
    × All (λ x. before x.info.file_name "0.json" ≡ true) pre
    × All (λ x. before "0.json" x.info.file_name ≡ true) post
unfolding find before
write_then_hide_example =
    write_then_hide rt disk_env files "backup" "0.json" "{}" backup_record
      (titled "1.json" backup_record ∷ []) disk_env-IsDisk (tt, tt) refl refl refl refl refl refl
