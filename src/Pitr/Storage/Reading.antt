-- ===== src/Pitr/Storage/Reading.antt =====
-- `ReadAll` on a directory whose records are known.
use shardingsphere_on_cloud.Prelude.{
  String, ◌≡◌, refl, sym, ap, ◌∙◌, subst, true, false, none, some, List, [], ◌∷◌, not, All,
  Bool-cases, inl, inr, arith,
}
use shardingsphere_on_cloud.Go.{Error, ok}
use shardingsphere_on_cloud.Go.Map.{GoMap, find}
use shardingsphere_on_cloud.Go.Text.{has_prefix, has_suffix}
use shardingsphere_on_cloud.Effects.{Prog, done, pure, call, attempt, on_error, pitr}
use shardingsphere_on_cloud.Effects.Run.{Env}
use shardingsphere_on_cloud.Pitr.Model.{LsBackup}
use shardingsphere_on_cloud.Pitr.Requests.{read_dir, entry_info, read_file}
use shardingsphere_on_cloud.Pitr.Runtime.{Runtime}
use shardingsphere_on_cloud.Pitr.Storage.{read_entry, read_entries, read_all}
use shardingsphere_on_cloud.Pitr.Storage.Disk.{
  entries_of, IsDisk, Leads, Leads-pure, Leads-call, Leads-attempt, Leads-else, Leads-if,
}
use shardingsphere_on_cloud.Pitr.Storage.Directory.{IsDirectory, IsDirectory-finds}
use shardingsphere_on_cloud.Pitr.Storage.Records.{
  is_skipped, titled, records, records-past, records-read, with_record-some,
}

module _ (rt : Runtime) where
  module _ (env : Env) (m : GoMap) (dir : String) (keeps : IsDisk env m dir) (d : GoMap) where
    told :
        (n : String) (e : Error → Prog String)
        → Leads env m dir (attempt (call (pitr (entry_info dir n))) e (λ name. pure name)) d n d
    told n e =
        Leads-attempt env m dir _ _ _ n n d d d
          (Leads-call env m dir (entry_info dir n) n d d (λ h i. keeps.tells h n) refl)
          (Leads-pure env m dir n d)

    content :
        (n c : String)
        → find n d ≡ some c
        → (f : Error → Error) → Leads env m dir (on_error f (call (pitr (read_file dir n)))) d c d
    content n c p f =
        Leads-attempt env m dir _ _ _ c c d d d
          (Leads-call env m dir (read_file dir n) c d d
            (λ h i. keeps.reads h n c (ap (find n) i ∙ p)) refl)
          (Leads-pure env m dir c d)

    parsed :
        (c : String) (b : LsBackup)
        → rt.unmarshal_backup c ≡ ok (some b)
        → (f : Error → Error)
        → Leads env m dir (on_error f (done (rt.unmarshal_backup c))) d (some b) d
    parsed c b u f = rw u (
        Leads-attempt env m dir (pure (some b)) _ _ (some b) (some b) d d d
          (Leads-pure env m dir (some b) d) (Leads-pure env m dir (some b) d))

    listed :
        (f : Error → Error)
        → Leads env m dir (on_error f (call (pitr (read_dir dir)))) d (entries_of d) d
    listed f =
        Leads-attempt env m dir _ _ _ (entries_of d) (entries_of d) d d d
          (Leads-call env m dir (read_dir dir) (entries_of d) d d
            (λ h i. keeps.lists h ∙ ap (λ x. ok (entries_of x)) i) refl)
          (Leads-pure env m dir (entries_of d) d)

    read_entry_skipped :
        (n : String)
        → is_skipped n ≡ true
        → Leads env m dir (read_entry rt dir (record { name = n; is_dir = false })) d none d
    unfolding read_entry
    read_entry_skipped n h = elim (Bool-cases (has_prefix n ".")) [
      | inl e ↦ Leads-if env m dir (has_prefix n ".") _ _ none d d e (Leads-pure env m dir none d)
      | inr e ↦ Leads-else env m dir (has_prefix n ".") _ _ none d d e (
          Leads-attempt env m dir _ _ _ n none d d d (told n _) (
            Leads-if env m dir (not (has_suffix n ".json")) _ _ none d d (ground arith)
              (Leads-pure env m dir none d)))
    ]

    read_entry_added :
        (n c : String) (b : LsBackup)
        → is_skipped n ≡ false
        → rt.unmarshal_backup c ≡ ok (some b)
        → find n d ≡ some c
        → Leads env m dir
            (read_entry rt dir (record { name = n; is_dir = false }))
            d
            (some (titled n b))
            d
    unfolding read_entry
    read_entry_added n c b h u f =
        let v = some (titled n b) in
        Leads-else env m dir (has_prefix n ".") _ _ v d d (ground arith) (
          Leads-attempt env m dir _ _ _ n v d d d (told n _) (
            Leads-else env m dir (not (has_suffix n ".json")) _ _ v d d (ground arith) (
              Leads-attempt env m dir _ _ _ c v d d d (content n c f _) (
                Leads-attempt env m dir _ _ _ (some b) v d d d (parsed c b u _) (
                  Leads-attempt env m dir _ _ _ (titled n b) v d d d
                    (Leads-pure env m dir (titled n b) d) (Leads-pure env m dir v d))))))

    read_entries-Leads :
        (d0 : GoMap) (bs : List LsBackup)
        → All (λ p. find p.0 d ≡ some p.1) d0
        → records rt d0 ≡ some bs
        → Leads env m dir (read_entries rt dir (entries_of d0)) d bs d
    unfolding read_entries
    read_entries-Leads [] [] all r = Leads-pure env m dir [] d
    read_entries-Leads [] (b ∷ bs) all r = cc
    read_entries-Leads ((n, c) ∷ d0) bs all r = elim (Bool-cases (is_skipped n)) [
      | inl e ↦
          let rest : records rt d0 ≡ some bs = sym (records-past rt n c d0 e) ∙ r in
          Leads-attempt env m dir _ _ _ none bs d d d (read_entry_skipped n e) (
            Leads-attempt env m dir _ _ _ bs bs d d d (read_entries-Leads d0 bs all.1 rest)
              (Leads-pure env m dir bs d))
      | inr e ↦
          let (b, rest, u, o, q) =
            with_record-some n (rt.unmarshal_backup c) (records rt d0) bs
              (sym (records-read rt n c d0 e) ∙ r) in
          subst (λ v. Leads env m dir (read_entries rt dir (entries_of ((n, c) ∷ d0))) d v d) q
            (Leads-attempt env m dir _ _ _ (some (titled n b)) (titled n b ∷ rest) d d d
              (read_entry_added n c b e u all.0)
              (Leads-attempt env m dir _ _ _ rest (titled n b ∷ rest) d d d
                (read_entries-Leads d0 rest all.1 o) (Leads-pure env m dir (titled n b ∷ rest) d)))
    ]

    pub read_all-Leads :
        (bs : List LsBackup)
        → IsDirectory d
        → records rt d ≡ some bs
        → Leads env m dir (read_all rt dir) d bs d
    unfolding read_all
    read_all-Leads bs i r =
        Leads-attempt env m dir _ _ _ (entries_of d) bs d d d (listed _)
          (read_entries-Leads d bs (IsDirectory-finds d i) r)
