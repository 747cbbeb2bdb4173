-- ===== src/Api/StorageNode/Conditions.antt =====
-- The condition list of a storage node as a map from condition types to conditions.
use shardingsphere_on_cloud.Prelude.{
  String, ◌≡◌, refl, false, Option, none, some, List, [], ◌∷◌, arith, ◌==◌, eq_iff, if◌then◌else◌,
  All, subst, Bool-cases, inl, inr,
}
use shardingsphere_on_cloud.Api.StorageNode.{Condition, upsert_condition, remove_condition}

-- The first condition of a type.
unfoldable pub find_condition : String → List Condition → Option Condition
find_condition t [] = none
find_condition t (x ∷ cs) = if x.type == t then some x else find_condition t cs

-- No condition of the type.
abbrev pub Lacks : String → List Condition → Type 0
Lacks t = All (λ x. (x.type == t) ≡ false)

-- No two conditions of one type.
abbrev pub HasDistinctTypes : List Condition → Type 0
HasDistinctTypes [] = Unit
HasDistinctTypes (x ∷ cs) = Lacks x.type cs × HasDistinctTypes cs

pub find_condition-upsert :
    (t : String) (c : Condition) (cs : List Condition)
    → find_condition t (upsert_condition cs c)
      ≡ (if c.type == t then some c else find_condition t cs)
unfolding find_condition upsert_condition
find_condition-upsert t c [] = refl
find_condition-upsert t c (x ∷ cs) =
    ground
      (arith, eq_iff x.type c.type, eq_iff x.type t, eq_iff c.type t, find_condition-upsert t c cs)

pub find_condition-remove :
    (t r : String) (cs : List Condition)
    → find_condition t (remove_condition cs r) ≡ (if r == t then none else find_condition t cs)
unfolding find_condition remove_condition
find_condition-remove t r [] = ground arith
find_condition-remove t r (x ∷ cs) =
    ground (arith, eq_iff x.type r, eq_iff x.type t, eq_iff r t, find_condition-remove t r cs)

Lacks-upsert :
    (t : String) (c : Condition) (cs : List Condition)
    → (c.type == t) ≡ false
    → Lacks t cs
    → Lacks t (upsert_condition cs c)
unfolding upsert_condition
Lacks-upsert t c [] h l = (h, tt)
Lacks-upsert t c (x ∷ cs) h l = elim (Bool-cases (x.type == c.type)) [
  | inl e ↦ rw e (h, l.1)
  | inr e ↦ rw e (l.0, Lacks-upsert t c cs h l.1)
]

Lacks-remove : (t r : String) (cs : List Condition) → Lacks t cs → Lacks t (remove_condition cs r)
unfolding remove_condition
Lacks-remove t r [] l = tt
Lacks-remove t r (x ∷ cs) l = elim (Bool-cases (x.type == r)) [
  | inl e ↦ rw e (Lacks-remove t r cs l.1)
  | inr e ↦ rw e (l.0, Lacks-remove t r cs l.1)
]

==_false_comm : (s t : String) → (s == t) ≡ false → (t == s) ≡ false
==_false_comm s t h = ground (arith, eq_iff s t, eq_iff t s)

pub HasDistinctTypes-upsert :
    (c : Condition) (cs : List Condition)
    → HasDistinctTypes cs
    → HasDistinctTypes (upsert_condition cs c)
unfolding upsert_condition
HasDistinctTypes-upsert c [] d = (tt, tt)
HasDistinctTypes-upsert c (x ∷ cs) d = elim (Bool-cases (x.type == c.type)) [
  | inl e ↦ rw e (subst (λ t. Lacks t cs) ((eq_iff x.type c.type).0 e) d.0, d.1)
  | inr e ↦ rw e (
    Lacks-upsert x.type c cs (==_false_comm x.type c.type e) d.0,
    HasDistinctTypes-upsert c cs d.1,
  )
]

pub HasDistinctTypes-remove :
    (r : String) (cs : List Condition)
    → HasDistinctTypes cs
    → HasDistinctTypes (remove_condition cs r)
unfolding remove_condition
HasDistinctTypes-remove r [] d = tt
HasDistinctTypes-remove r (x ∷ cs) d = elim (Bool-cases (x.type == r)) [
  | inl e ↦ rw e (HasDistinctTypes-remove r cs d.1)
  | inr e ↦ rw e (Lacks-remove x.type r cs d.0, HasDistinctTypes-remove r cs d.1)
]
