-- ===== src/Pitr/Storage/Lifecycle.antt =====
-- A record that is written is read back, and one that is hidden is not.
use package.text.Mathlib.TextPositions.{starts_with-append}
use shardingsphere_on_cloud.Prelude.{
  String, ◌≡◌, refl, ap, ◌∙◌, true, false, none, some, List, [], ◌∷◌, ◌++◌, All, not, arith,
  eq_refl,
}
use shardingsphere_on_cloud.Go.{Error, ok}
use shardingsphere_on_cloud.Go.Map.{GoMap, find}
use shardingsphere_on_cloud.Go.Order.{before}
use shardingsphere_on_cloud.Go.Text.{has_prefix, has_suffix}
use shardingsphere_on_cloud.Effects.{pure, call, on_error, pitr, ◌>>=◌, ◌>>◌}
use shardingsphere_on_cloud.Effects.Run.{Env, returned, run}
use shardingsphere_on_cloud.Pitr.Model.{LsBackup}
use shardingsphere_on_cloud.Pitr.Requests.{create_file, write_file, rename_file}
use shardingsphere_on_cloud.Pitr.Runtime.{Runtime}
use shardingsphere_on_cloud.Pitr.Storage.{hidden, hide_by_name, write_by_json, read_all}
use shardingsphere_on_cloud.Pitr.Storage.Disk.{
  IsDisk, Leads, Leads-pure, Leads-call, Leads-attempt, Leads-else,
}
use shardingsphere_on_cloud.Pitr.Storage.Directory.{
  IsDirectory, place, find-place, place-place, delete-place, place-IsDirectory,
}
use shardingsphere_on_cloud.Pitr.Storage.Records.{
  is_skipped, titled, records, records-skipped, records-place,
}
use shardingsphere_on_cloud.Pitr.Storage.Reading.{read_all-Leads}

module _ (rt : Runtime) where
  hidden_skipped : (name : String) → is_skipped (hidden name) ≡ true
  hidden_skipped name =
      let p : has_prefix (hidden name) "." ≡ true = starts_with-append "." name in ground arith

  module _ (env : Env) (m : GoMap) (dir : String) (keeps : IsDisk env m dir) (name s : String)
      (b : LsBackup) (new : find name m ≡ none) where
    abbrev with_file : GoMap
    with_file = place name s m

    found_placed : find name (place name s m) ≡ some s
    found_placed = ground (arith, eq_refl name, find-place name name s m)

    created :
        (f : Error → Error)
        → Leads env m dir (on_error f (call (pitr (create_file dir name)))) m tt (place name "" m)
    created f =
        Leads-attempt env m dir _ _ _ tt tt m _ _
          (Leads-call env m dir (create_file dir name) tt m (place name "" m)
            (λ h i. keeps.creates h name) (rw (eq_refl dir) refl))
          (Leads-pure env m dir tt _)

    written :
        (f : Error → Error)
        → Leads env m dir
            (on_error f (call (pitr (write_file dir name s))))
            (place name "" m)
            tt
            with_file
    written f =
        Leads-attempt env m dir _ _ _ tt tt _ _ _
          (Leads-call env m dir (write_file dir name s) tt (place name "" m) with_file
            (λ h i. keeps.writes h name s) (rw (eq_refl dir) (place-place name s "" m)))
          (Leads-pure env m dir tt with_file)

    hide_by_name-Leads :
        find (hidden name) m ≡ none
        → Leads env m dir (hide_by_name dir name) with_file tt (place (hidden name) s m)
    unfolding hide_by_name
    hide_by_name-Leads unused =
        Leads-attempt env m dir _ _ _ tt tt _ _ _
          (Leads-call env m dir (rename_file dir name (hidden name)) tt with_file
            (place (hidden name) s m)
            (λ h i. keeps.renames h name (hidden name) s (ap (find name) i ∙ found_placed))
            (rw (eq_refl dir) (rw (found_placed) (rw (delete-place name s m new) refl))))
          (Leads-pure env m dir tt _)

    write_by_json-Leads :
        is_skipped name ≡ false
        → rt.marshal_backup b ≡ ok s
        → Leads env m dir (write_by_json rt dir name b) m tt with_file
    unfolding write_by_json
    write_by_json-Leads visible marshals =
        Leads-else env m dir (not (has_suffix name ".json")) _ _ tt m with_file (ground arith) (
          rw marshals (
            Leads-attempt env m dir (pure s) _ _ s tt m m with_file (Leads-pure env m dir s m) (
              Leads-attempt env m dir _ _ _ tt tt m (place name "" m) with_file (created _)
                (written _))))

  -- In an environment that keeps the directory `m`, whose files are in the order of their names and
  -- which `os.ReadDir` lists in that order, where each file that is not skipped holds a record: a
  -- record `b` that is written to a new file of a name that is not skipped, whose hidden name is
  -- unused too, in an encoding that decodes to `b`, is read back by `read_all` with the name of its
  -- file among the records that were there, behind those of the lesser file names and before those of
  -- the greater ones; and after it is hidden `read_all` gives the records that were there.
  pub write_then_hide :
      (env : Env) (m : GoMap) (dir name s : String) (b : LsBackup) (bs : List LsBackup)
      → IsDisk env m dir
      → IsDirectory m
      → records rt m ≡ some bs
      → find name m ≡ none
      → find (hidden name) m ≡ none
      → is_skipped name ≡ false
      → rt.marshal_backup b ≡ ok s
      → rt.unmarshal_backup s ≡ ok (some b)
      → (pre : List LsBackup) × (post : List LsBackup) × (bs ≡ pre ++ post)
        × ((run env (
              write_by_json rt dir name b
              >> (read_all rt dir >>= λ written.
                  hide_by_name dir name
                  >> (read_all rt dir >>= λ left.
                      pure {A = List LsBackup × List LsBackup} (written, left))))).0
            ≡ returned (ok (pre ++ (titled name b ∷ post), bs)))
        × All (λ x. before x.info.file_name name ≡ true) pre
        × All (λ x. before name x.info.file_name ≡ true) post
  unfolding run
  write_then_hide env m dir name s b bs keeps i r new unused visible marshals decodes =
      let t = titled name b in
      let (pre, post, parts, found, prior, later) =
        records-place rt name s b visible decodes m bs i new r in
      let all = pre ++ (t ∷ post) in
      let d = place name s m in
      let hid = place (hidden name) s m in
      let left : records rt hid ≡ some bs =
        records-skipped rt (hidden name) s m (hidden_skipped name) unused ∙ r in
      let out : List LsBackup × List LsBackup = (all, bs) in
      let leads =
        Leads-attempt env m dir _ _ _ tt out m d hid
          (write_by_json-Leads env m dir keeps name s b new visible marshals)
          (Leads-attempt env m dir _ _ _ all out d d hid
            (read_all-Leads rt env m dir keeps d all (place-IsDirectory name s m i) found)
            (Leads-attempt env m dir _ _ _ tt out d hid hid
              (hide_by_name-Leads env m dir keeps name s b new unused)
              (Leads-attempt env m dir _ _ _ bs out hid hid hid
                (read_all-Leads rt env m dir keeps hid bs (place-IsDirectory (hidden name) s m i)
                  left)
                (Leads-pure env m dir out hid)))) in
      (pre, post, parts, ap (λ x. x.0) (leads [] refl).1, prior, later)
