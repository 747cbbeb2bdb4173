-- ===== src/Pitr/Storage/Disk.antt =====
-- The directory of records as a map from names to contents, in the order of the names, and programs that lead from one state of
-- it to another.
use shardingsphere_on_cloud.Prelude.{
  String, ◌≡◌, refl, ap, ◌∙◌, Bool, true, false, Option, none, some, List, [], ◌∷◌, ◌==◌,
  if◌then◌else◌,
}
use shardingsphere_on_cloud.Go.{Error, ok}
use shardingsphere_on_cloud.Go.Map.{GoMap, find, delete}
use shardingsphere_on_cloud.Pitr.Storage.Directory.{place}
use shardingsphere_on_cloud.Effects.{Response, Prog, attempt, pure, call, pitr}
use shardingsphere_on_cloud.Effects.Run.{Env, History, returned, run_from, run_from-attempt}
use shardingsphere_on_cloud.Pitr.Requests.{
  Entry, PitrRequest, read_dir, create_file, entry_info, read_file, remove_file, write_file,
  rename_file,
}

abbrev moved : Option String → (from to : String) → GoMap → GoMap
moved none from to m = m
moved (some c) from to m = place to c (delete from m)

-- What a request leaves in the directory.
abbrev pub after : String → PitrRequest → GoMap → GoMap
after dir (create_file d n) m = if d == dir then place n "" m else m
after dir (write_file d n c) m = if d == dir then place n c m else m
after dir (rename_file d from to) m = if d == dir then moved (find from m) from to m else m
after dir (remove_file d n) m = if d == dir then delete n m else m
after dir _ m = m

-- The directory after the requests of a history, from the map that it held at first.
abbrev pub disk : GoMap → String → History → GoMap
disk m dir [] = m
disk m dir (pitr q ∷ h) = after dir q (disk m dir h)
disk m dir (_ ∷ h) = disk m dir h

abbrev pub entries_of : GoMap → List Entry
entries_of [] = []
entries_of ((n, c) ∷ m) = record { name = n; is_dir = false } ∷ entries_of m

-- An environment that keeps the directory: it lists the files in the order of their names, as
-- `os.ReadDir` does, reads them back, and no call fails.
pub record IsDisk (env : Env) (m : GoMap) (dir : String) : Type 0 where
  pub lists : (h : History) → env h (pitr (read_dir dir)) ≡ ok (entries_of (disk m dir h))
  pub tells : (h : History) (n : String) → env h (pitr (entry_info dir n)) ≡ ok n
  pub reads :
      (h : History) (n c : String)
      → find n (disk m dir h) ≡ some c
      → env h (pitr (read_file dir n)) ≡ ok c
  pub creates : (h : History) (n : String) → env h (pitr (create_file dir n)) ≡ ok tt
  pub writes : (h : History) (n c : String) → env h (pitr (write_file dir n c)) ≡ ok tt
  pub renames :
      (h : History) (from to c : String)
      → find from (disk m dir h) ≡ some c
      → env h (pitr (rename_file dir from to)) ≡ ok tt

module _ (env : Env) (m : GoMap) (dir : String) where
  -- Where the directory is `d`, the program returns `a` and leaves `d'`.
  abbrev pub Leads : {A : Type 0} → Prog A → GoMap → A → GoMap → Type 0
  Leads p d a d' =
      (h : History)
      → disk m dir h ≡ d
      → (g : History) × (run_from env h p ≡ (returned (ok a), g)) × (disk m dir g ≡ d')

  pub Leads-pure : {A : Type 0} (a : A) (d : GoMap) → Leads (pure a) d a d
  unfolding run_from
  Leads-pure a d h e = (h, refl, e)

  pub Leads-call :
      (q : PitrRequest) (a : Response (pitr q)) (d d' : GoMap)
      → ((h : History) → disk m dir h ≡ d → env h (pitr q) ≡ ok a)
      → after dir q d ≡ d'
      → Leads (call (pitr q)) d a d'
  unfolding run_from
  Leads-call q a d d' answers changes h e =
      (pitr q ∷ h, ap (λ r. (returned r, pitr q ∷ h)) (answers h e), ap (after dir q) e ∙ changes)

  pub Leads-attempt :
      {A B : Type 0} (p : Prog A) (e : Error → Prog B) (k : A → Prog B) (a : A) (b : B)
      (d d' d'' : GoMap)
      → Leads p d a d'
      → Leads (k a) d' b d''
      → Leads (attempt p e k) d b d''
  Leads-attempt p e k a b d d' d'' l c h i =
      let (g, r, j) = l h i in
      let (f, s, n) = c g j in (f, run_from-attempt env p e k h g a r ∙ s, n)

  pub Leads-else :
      {A : Type 0} (b : Bool) (p q : Prog A) (a : A) (d d' : GoMap)
      → b ≡ false
      → Leads q d a d'
      → Leads (if b then p else q) d a d'
  Leads-else true p q a d d' f l = cc
  Leads-else false p q a d d' f l = l

  pub Leads-if :
      {A : Type 0} (b : Bool) (p q : Prog A) (a : A) (d d' : GoMap)
      → b ≡ true
      → Leads p d a d'
      → Leads (if b then p else q) d a d'
  Leads-if true p q a d d' f l = l
  Leads-if false p q a d d' f l = cc
