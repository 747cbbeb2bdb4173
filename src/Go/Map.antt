-- ===== src/Go/Map.antt =====
-- `map[string]string`: an association list read front to back. A missing key reads as "".
use shardingsphere_on_cloud.Prelude.{
  String, ◌≡◌, refl, Option, none, some, List, [], ◌∷◌, arith, ◌==◌, eq_iff, if◌then◌else◌,
}

abbrev pub GoMap : Type 0
GoMap = List (String × String)

-- `v, ok := m[k]`
unfoldable pub find : String → GoMap → Option String
find k [] = none
find k ((j, v) ∷ m) = if j == k then some v else find k m

abbrev pub or_zero : Option String → String
or_zero none = ""
or_zero (some v) = v

-- `m[k]`
unfoldable pub get : String → GoMap → String
get k m = or_zero (find k m)

-- `m[k] = v`
unfoldable pub put : String → String → GoMap → GoMap
put k v [] = (k, v) ∷ []
put k v ((j, w) ∷ m) = if j == k then (k, v) ∷ m else (j, w) ∷ put k v m

pub find-put :
    (k j v : String) (m : GoMap) → find j (put k v m) ≡ (if k == j then some v else find j m)
unfolding find put
find-put k j v [] = refl
find-put k j v ((i, w) ∷ m) = ground (arith, eq_iff k j, eq_iff i k, eq_iff i j, find-put k j v m)

pub get-put : (k j v : String) (m : GoMap) → get j (put k v m) ≡ (if k == j then v else get j m)
unfolding get
get-put k j v m = ground (arith, find-put k j v m)

-- `delete(m, k)`
unfoldable pub delete : String → GoMap → GoMap
delete k [] = []
delete k ((j, v) ∷ m) = let rest = delete k m in if j == k then rest else (j, v) ∷ rest
