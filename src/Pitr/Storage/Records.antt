-- ===== src/Pitr/Storage/Records.antt =====
-- The records that a directory holds.
use shardingsphere_on_cloud.Prelude.{
  String, ◌≡◌, ◌≢◌, refl, sym, ◌∙◌, subst, ap, eq_iff, All, All-mono, Bool, true, false, Option,
  none, some, List, [], ◌∷◌, ◌++◌, ◌||◌, ◌==◌, not, if◌then◌else◌, Bool-cases, inl, inr, arith,
}
use shardingsphere_on_cloud.Go.{Result, ok, err}
use shardingsphere_on_cloud.Go.Map.{GoMap, find}
use shardingsphere_on_cloud.Go.Order.{before, before_trans, before-total}
use shardingsphere_on_cloud.Pitr.Storage.Directory.{IsDirectory, place}
use shardingsphere_on_cloud.Go.Text.{has_prefix, has_suffix}
use shardingsphere_on_cloud.Pitr.Model.{LsBackup}
use shardingsphere_on_cloud.Pitr.Runtime.{Runtime}

-- A name that is no name of a record: a hidden file, or one without the extension.
abbrev pub is_skipped : String → Bool
is_skipped name = has_prefix name "." || not (has_suffix name ".json")

abbrev pub titled : String → LsBackup → LsBackup
titled name b = record b { info = record b.info { file_name = name } }

abbrev pub with_record :
    String → Result (Option LsBackup) → Option (List LsBackup) → Option (List LsBackup)
with_record name (ok (some b)) (some bs) = some (titled name b ∷ bs)
with_record name _ _ = none

pub with_record-some :
    (n : String) (r : Result (Option LsBackup)) (o : Option (List LsBackup)) (bs : List LsBackup)
    → with_record n r o ≡ some bs
    → (b : LsBackup) × (rest : List LsBackup) × (r ≡ ok (some b))
      × (o ≡ some rest)
      × (titled n b ∷ rest ≡ bs)
with_record-some n (ok (some b)) none bs e = cc
with_record-some n (ok (some b)) (some rest) bs e = (b, rest, refl, refl, ground arith)
with_record-some n (ok none) o bs e = cc
with_record-some n (err x) o bs e = cc

module _ (rt : Runtime) where
  -- The records of a directory, where each file that is not skipped holds one.
  abbrev pub records : GoMap → Option (List LsBackup)
  records [] = some []
  records ((n, c) ∷ m) =
      let rest = records m in
      if is_skipped n then rest else with_record n (rt.unmarshal_backup c) rest

  pub records-past :
      (n c : String) (m : GoMap) → is_skipped n ≡ true → records ((n, c) ∷ m) ≡ records m
  records-past n c m h = rw h refl

  pub records-read :
      (n c : String) (m : GoMap)
      → is_skipped n ≡ false
      → records ((n, c) ∷ m) ≡ with_record n (rt.unmarshal_backup c) (records m)
  records-read n c m h = rw h refl

  pub records-skipped :
      (n c : String) (m : GoMap)
      → is_skipped n ≡ true
      → find n m ≡ none
      → records (place n c m) ≡ records m
  unfolding find place
  records-skipped n c [] h new = rw h refl
  records-skipped n c ((j, d) ∷ m) h new = elim (Bool-cases (j == n)) [
    | inl e ↦ ground (arith, new, e)
    | inr e ↦
        let rest : find n m ≡ none = ground (arith, new, e) in
        elim (Bool-cases (before n j)) [
          | inl b ↦ rw (e, b, h) refl
          | inr b ↦ rw (e, b, records-skipped n c m h rest) refl
        ]
  ]

  -- The records of files behind a name have names behind it.
  records-behind :
      (n : String) (m : GoMap) (bs : List LsBackup)
      → All (λ p. before n p.0 ≡ true) m
      → records m ≡ some bs
      → All (λ x. before n x.info.file_name ≡ true) bs
  records-behind n [] [] all r = tt
  records-behind n [] (x ∷ bs) all r = cc
  records-behind n ((j, d) ∷ m) bs all r = elim (Bool-cases (is_skipped j)) [
    | inl e ↦ records-behind n m bs all.1 (sym (records-past j d m e) ∙ r)
    | inr e ↦
        let (b, rest, u, o, q) =
          with_record-some j (rt.unmarshal_backup d) (records m) bs
            (sym (records-read j d m e) ∙ r) in
        subst (λ l. All (λ x. before n x.info.file_name ≡ true) l) q
          (all.0, records-behind n m rest all.1 o)
  ]

  -- The records with one more, which stands by its file name.
  abbrev pub Inserted : LsBackup → List LsBackup → Option (List LsBackup) → Type 0
  Inserted t bs o =
      (pre : List LsBackup) × (post : List LsBackup) × (bs ≡ pre ++ post)
      × (o ≡ some (pre ++ (t ∷ post)))
      × All (λ x. before x.info.file_name t.info.file_name ≡ true) pre
      × All (λ x. before t.info.file_name x.info.file_name ≡ true) post

  module _ (n c : String) (b : LsBackup) (visible : is_skipped n ≡ false)
      (decodes : rt.unmarshal_backup c ≡ ok (some b)) where
    records-first :
        (m : GoMap) (bs : List LsBackup)
        → records m ≡ some bs
        → records ((n, c) ∷ m) ≡ some (titled n b ∷ bs)
    records-first m bs r = records-read n c m visible ∙ rw (decodes, r) refl

    -- The new file stands behind one, given where it stands among the others.
    records-beyond :
        (j d : String) (m : GoMap) (bs : List LsBackup)
        → before j n ≡ true
        → records ((j, d) ∷ m) ≡ some bs
        → ((l : List LsBackup)
            → records m ≡ some l
            → Inserted (titled n b) l (records (place n c m)))
        → Inserted (titled n b) bs (records ((j, d) ∷ place n c m))
    records-beyond j d m bs prior r next = elim (Bool-cases (is_skipped j)) [
      | inl s ↦
          let (pre, post, p, o, f, g) = next bs (sym (records-past j d m s) ∙ r) in
          (pre, post, p, records-past j d (place n c m) s ∙ o, f, g)
      | inr s ↦
          let (a, l, u, o, q) =
            with_record-some j (rt.unmarshal_backup d) (records m) bs
              (sym (records-read j d m s) ∙ r) in
          let (pre, post, p, o', f, g) = next l o in
          (
            titled j a ∷ pre,
            post,
            sym q ∙ ap (λ l. titled j a ∷ l) p,
            records-read j d (place n c m) s ∙ (λ k. with_record j (u k) (o' k)),
            (prior, f),
            g,
          )
    ]

    pub records-place :
        (m : GoMap) (bs : List LsBackup)
        → IsDirectory m
        → find n m ≡ none
        → records m ≡ some bs
        → Inserted (titled n b) bs (records (place n c m))
    unfolding find place
    records-place [] [] i new r = ([], [], refl, records-first [] [] refl, tt, tt)
    records-place [] (x ∷ bs) i new r = cc
    records-place ((j, d) ∷ m) bs i new r =
        let apart : (j == n) ≡ false = ground (arith, new) in
        let rest : find n m ≡ none = ground (arith, new, apart) in
        elim (Bool-cases (before n j)) [
          | inl e ↦
              let behind : All (λ p. before n p.0 ≡ true) m =
                All-mono (λ p. before j p.0 ≡ true) (λ p. before n p.0 ≡ true)
                  (λ p. before_trans n j p.0 e) m i.0 in
              rw (apart, e)
                (
                  [],
                  bs,
                  refl,
                  records-first ((j, d) ∷ m) bs r,
                  tt,
                  records-behind n ((j, d) ∷ m) bs (e, behind) r,
                )
          | inr e ↦
              let differ : n ≢ j = ground (arith, eq_iff j n, apart) in
              rw (apart, e)
                (records-beyond j d m bs (before-total n j e differ) r
                  (λ l o. records-place m l i.1 rest o))
        ]
