-- ===== src/Aws/Instance/Checks.antt =====
-- The checks of `validCreateInstanceParams` on the user name, the identifier and the password.
use Prim.Native.String.{len}
use shardingsphere_on_cloud.Prelude.{
  ◌≤◌, String, ◌≡◌, ◌≢◌, refl, sym, subst, true, false, none, some, arith, eq_iff, Option-cases,
  inl, inr,
}
use shardingsphere_on_cloud.Go.{Result, ok, err}
use shardingsphere_on_cloud.Go.Map.{GoMap, find, get, put, get-put}
use shardingsphere_on_cloud.Api.StorageNode.{StorageNode}
use shardingsphere_on_cloud.Api.StorageProvider.{
  annotations_instance_identifier, annotations_master_user_password,
}
use shardingsphere_on_cloud.Aws.Username.{validate_username}
use shardingsphere_on_cloud.Aws.Username.Collapse.{IsUsername, validate_username-IsUsername}
use shardingsphere_on_cloud.Aws.Instance.{is_generated, check_username, check_password}

-- The engine, its version and the class are given.
abbrev pub HasEngine : GoMap → Type 0
HasEngine m = (get "engine" m ≢ "") × (get "engineVersion" m ≢ "") × (get "instanceClass" m ≢ "")

abbrev pub IsFilled : GoMap → Type 0
IsFilled m = HasEngine m × (find "masterUsername" m ≢ none)

abbrev pub IsNamed : GoMap → Type 0
IsNamed m = HasEngine m × IsUsername (get "masterUsername" m)

-- A parameter that is never generated stays as it is given.
pub keep_given :
    (k j v : String) (m : GoMap)
    → is_generated k ≡ false
    → is_generated j ≡ true
    → get k m ≢ ""
    → get k (put j v m) ≢ ""
keep_given k j v m h g n = ground (arith, get-put j k v m, eq_iff j k)

validated_result :
    (o : Result String) (filled named : GoMap)
    → elim o [ ok valid ↦ ok (put "masterUsername" valid filled) | err e ↦ err e ] ≡ ok named
    → (v : String) × (o ≡ ok v) × (put "masterUsername" v filled ≡ named)
validated_result (ok v) filled named h = (v, refl, ground arith)
validated_result (err e) filled named h = ground arith

validated :
    (u : String) (filled named : GoMap)
    → check_username (some u) filled ≡ ok named
    → (v : String) × (validate_username u ≡ ok v) × (put "masterUsername" v filled ≡ named)
unfolding check_username
validated u filled named h = validated_result (validate_username u) filled named h

IsNamed-put :
    (v : String) (m : GoMap) → HasEngine m → IsUsername v → IsNamed (put "masterUsername" v m)
IsNamed-put v m e u = (
  (
    keep_given "engine" "masterUsername" v m refl refl e.0,
    keep_given "engineVersion" "masterUsername" v m refl refl e.1,
    keep_given "instanceClass" "masterUsername" v m refl refl e.2,
  ),
  subst IsUsername (sym (get-put "masterUsername" "masterUsername" v m)) u,
)

pub check_username-IsNamed :
    (filled named : GoMap)
    → IsFilled filled
    → check_username (find "masterUsername" filled) filled ≡ ok named
    → IsNamed named
check_username-IsNamed filled named f h = elim (Option-cases (find "masterUsername" filled)) [
  | inl e ↦ absurd (f.1 e)
  | inr (u, e) ↦
      let (v, valid, p) =
        validated u filled named (subst (λ o. check_username o filled ≡ ok named) e h) in
      subst IsNamed p (IsNamed-put v filled f.0 (validate_username-IsUsername u v valid))
]

abbrev pub IsReady : StorageNode × GoMap → Type 0
IsReady r =
    IsNamed r.1
    × (get annotations_instance_identifier r.0.annotations ≢ "")
    × (8 ≤ len (get "masterUserPassword" r.1))
    × (len (get "masterUserPassword" r.1) ≤ 41)

abbrev with_password : StorageNode → GoMap → StorageNode × GoMap
with_password node named = (
  record node {
    annotations =
        put annotations_master_user_password (get "masterUserPassword" named) node.annotations;
  },
  named,
)

checked :
    (node : StorageNode) (named : GoMap) (r : StorageNode × GoMap)
    → check_password node named ≡ ok r
    → (with_password node named ≡ r)
      × (8 ≤ len (get "masterUserPassword" named))
      × (len (get "masterUserPassword" named) ≤ 41)
unfolding check_password
checked node named r h = ground arith

identifier_kept :
    (password : String) (annotations : GoMap)
    → get annotations_instance_identifier annotations ≢ ""
    → get annotations_instance_identifier
        (put annotations_master_user_password password annotations)
      ≢ ""
identifier_kept password annotations i =
    subst (λ s. s ≢ "")
      (sym (
        get-put annotations_master_user_password annotations_instance_identifier password
          annotations))
      i

pub check_password-IsReady :
    (node : StorageNode) (named : GoMap) (r : StorageNode × GoMap)
    → IsNamed named
    → get annotations_instance_identifier node.annotations ≢ ""
    → check_password node named ≡ ok r
    → IsReady r
check_password-IsReady node named r n i h =
    let (e, long, short) = checked node named r h in
    subst IsReady e
      (n, identifier_kept (get "masterUserPassword" named) node.annotations i, long, short)
