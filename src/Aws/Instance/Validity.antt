-- ===== src/Aws/Instance/Validity.antt =====
-- What `CreateInstance` asks of AWS.
use Prim.Native.String.{len}
use shardingsphere_on_cloud.Prelude.{
  ◌≤◌, String, ◌≡◌, ◌≢◌, refl, sym, subst, false, Option, none, some, arith, ◌==◌, eq_iff, All,
}
use shardingsphere_on_cloud.Go.Map.{GoMap, find, get, put, find-put}
use shardingsphere_on_cloud.Go.Number.{ℤ, parse_int}
use shardingsphere_on_cloud.Api.StorageNode.{StorageNode}
use shardingsphere_on_cloud.Api.StorageProvider.{annotations_instance_identifier}
use shardingsphere_on_cloud.Sdk.{Sdk}
use shardingsphere_on_cloud.Effects.{InstanceParams, done, call, create_instance}
use shardingsphere_on_cloud.Effects.Run.{Env, run}
use shardingsphere_on_cloud.Effects.Only.{
  Only, Only-attempt, Only-run, Only-Yields, Yields, Yields-bind, Yields-done, Yields-if,
  Yields-result, Yields-pair, Yields-mono,
}
use shardingsphere_on_cloud.Aws.Username.Collapse.{IsUsername}
use shardingsphere_on_cloud.Aws.Instance.{
  required_instance_params, fill_required, is_generated, check_username, check_password,
  instance_of, create_parsed, valid_create_instance_params, create_db_instance,
}
use shardingsphere_on_cloud.Aws.Instance.Filling.{Creates, fill-gains}
use shardingsphere_on_cloud.Aws.Instance.Checks.{
  IsFilled, IsReady, keep_given, check_username-IsNamed, check_password-IsReady,
}

-- An instance with everything that AWS requires, a user name, and a password of 8 to 41 bytes.
abbrev pub IsComplete : InstanceParams → Type 0
IsComplete p =
    (p.engine ≢ "")
    × (p.engine_version ≢ "")
    × (p.db_instance_class ≢ "")
    × (p.db_instance_identifier ≢ "")
    × IsUsername p.master_username
    × (8 ≤ len p.master_user_password)
    × (len p.master_user_password ≤ 41)

-- `range` visits each key of a map, with its value.
abbrev pub VisitsAll : Sdk → Type 0
VisitsAll sdk = (m : GoMap) (k : String) → find k (sdk.visit m) ≡ find k m

keep_username :
    (j v : String) (m : GoMap)
    → find "masterUsername" m ≢ none
    → find "masterUsername" (put j v m) ≢ none
keep_username j v m n = ground (arith, find-put j "masterUsername" v m)

find_of_get : (k : String) (m : GoMap) → get k m ≢ "" → find k m ≢ none
unfolding get
find_of_get k m n e = n (ground arith)

module _ (req : GoMap)
    (req_all : (k : String) → find k required_instance_params ≢ none → find k req ≢ none) where
  fill-given :
      (k : String) (params : GoMap)
      → is_generated k ≡ false
      → find k required_instance_params ≢ none
      → Yields (Creates IsComplete) (λ m. get k m ≢ "") (fill_required req params)
  fill-given k params h r =
      fill-gains IsComplete (λ m. get k m ≢ "") (λ j v m g _ q. keep_given k j v m h g q) k
        (λ m n. n) (λ g. cc) req params (req_all k r)

  fill-IsFilled : (params : GoMap) → Yields (Creates IsComplete) IsFilled (fill_required req params)
  unfolding find
  fill-IsFilled params =
      let P = Creates IsComplete in
      let engine = λ (m : GoMap). get "engine" m ≢ "" in
      let version = λ (m : GoMap). get "engineVersion" m ≢ "" in
      let class = λ (m : GoMap). get "instanceClass" m ≢ "" in
      let user = λ (m : GoMap). find "masterUsername" m ≢ none in
      Yields-mono P (λ m. (engine m × version m) × (class m × user m)) IsFilled _
        (λ m q. ((q.0.0, q.0.1, q.1.0), q.1.1))
        (Yields-pair P (λ m. engine m × version m) (λ m. class m × user m) _
          (Yields-pair P engine version _ (fill-given "engine" params refl (λ e. cc))
            (fill-given "engineVersion" params refl (λ e. cc)))
          (Yields-pair P class user _ (fill-given "instanceClass" params refl (λ e. cc)) (
            fill-gains IsComplete user (λ j v m _ _ q. keep_username j v m q) "masterUsername"
              (λ m n. find_of_get "masterUsername" m n)
              (λ _ v m. ground (arith, find-put "masterUsername" "masterUsername" v m)) req params
              (req_all "masterUsername" (λ e. cc)))))

instance_of-IsComplete :
    (node : StorageNode) (params : GoMap) (storage : ℤ)
    → IsReady (node, params)
    → IsComplete (instance_of node params storage)
instance_of-IsComplete node params storage r = (r.0.0.0, r.0.0.1, r.0.0.2, r.1, r.0.1, r.2, r.3)

create_parsed-Only :
    (r : StorageNode × GoMap) (o : Option ℤ)
    → IsReady r
    → Only (Creates IsComplete) (create_parsed r o)
unfolding create_parsed
create_parsed-Only (node, params) none h = tt
create_parsed-Only (node, params) (some storage) h =
    Only-attempt (Creates IsComplete) (call (create_instance (instance_of node params storage))) _ _
      (instance_of-IsComplete node params storage h, λ _. tt) (λ _. tt) (λ _. tt)

module _ (sdk : Sdk) (visits : VisitsAll sdk) where
  valid-Yields :
      (node : StorageNode) (params : GoMap)
      → Yields (Creates IsComplete) IsReady (valid_create_instance_params sdk node params)
  unfolding valid_create_instance_params
  valid-Yields node params =
      let P = Creates IsComplete in
      let identifier = get annotations_instance_identifier node.annotations in
      Yields-bind P IsFilled IsReady _ _
        (fill-IsFilled (sdk.visit required_instance_params)
          (λ k r. subst (λ o. o ≢ none) (sym (visits required_instance_params k)) r) params)
        λ filled f.
          Yields-done P IsReady (check_username (find "masterUsername" filled) filled) _ λ named n.
            Yields-if P IsReady (identifier == "") _ (done (check_password node named)) (λ _. tt)
              λ e. Yields-result P IsReady (check_password node named) λ r h.
                check_password-IsReady node named r (check_username-IsNamed filled named f n)
                  (λ p. cc (e, (eq_iff identifier "").1 p)) h

  -- If `range` visits each key of a map, then in every run of `create_db_instance`, whatever the
  -- parameters, the order of the visits and the answers, a request to create an instance has an
  -- engine, its version, a class, an identifier, a password of 8 to 41 bytes, and as user name at
  -- most 16 letters, digits, `_` and `-` with neither of the two doubled.
  pub create_db_instance-IsComplete :
      (env : Env) (node : StorageNode) (params : GoMap)
      → All (Creates IsComplete) (run env (create_db_instance sdk node params)).1
  unfolding create_db_instance
  create_db_instance-IsComplete env node params = Only-run (Creates IsComplete) env _ (
      Only-Yields (Creates IsComplete) IsReady (valid_create_instance_params sdk node params) _
        (valid-Yields node params)
        λ valid r. create_parsed-Only valid (parse_int (get "allocatedStorage" valid.1)) r)
