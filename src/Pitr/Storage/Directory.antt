-- ===== src/Pitr/Storage/Directory.antt =====
-- A directory as a map from the names of its files to their contents, in the order of the names.
use shardingsphere_on_cloud.Prelude.{
  String, ◌≡◌, ◌≢◌, refl, ap, subst, true, none, some, [], ◌∷◌, ◌==◌, All, All-mono, Bool-cases,
  inl, inr, if◌then◌else◌, arith, eq_iff,
}
use shardingsphere_on_cloud.Go.Map.{GoMap, find, delete}
use shardingsphere_on_cloud.Go.Order.{before, before_irrefl, before_trans, before-total}

-- The name of each file is less than the names behind it.
abbrev pub IsDirectory : GoMap → Type 0
IsDirectory [] = Unit
IsDirectory ((n, c) ∷ m) = All (λ p. before n p.0 ≡ true) m × IsDirectory m

-- The directory after a file of that name is given that content.
unfoldable pub place : (name content : String) → GoMap → GoMap
place k v [] = (k, v) ∷ []
place k v ((j, w) ∷ m) =
    let rest = place k v m in
    if j == k then (k, v) ∷ m else if before k j then (k, v) ∷ (j, w) ∷ m else (j, w) ∷ rest

pub find-place :
    (k j v : String) (m : GoMap) → find j (place k v m) ≡ (if k == j then some v else find j m)
unfolding find place
find-place k j v [] = refl
find-place k j v ((i, w) ∷ m) =
    ground (arith, eq_iff k j, eq_iff i k, eq_iff i j, find-place k j v m)

pub place-place : (k v w : String) (m : GoMap) → place k v (place k w m) ≡ place k v m
unfolding place
place-place k v w [] = ground (arith, eq_iff k k)
place-place k v w ((j, x) ∷ m) = ground (arith, eq_iff k k, place-place k v w m)

pub delete-none : (k : String) (m : GoMap) → find k m ≡ none → delete k m ≡ m
unfolding delete find
delete-none k [] h = refl
delete-none k ((j, x) ∷ m) h = ground (arith, delete-none k m)

pub delete-place : (k v : String) (m : GoMap) → find k m ≡ none → delete k (place k v m) ≡ m
unfolding delete find place
delete-place k v [] h = ground (arith, eq_iff k k)
delete-place k v ((j, x) ∷ m) h = ground (arith, eq_iff k k, delete-place k v m, delete-none k m)

before-differ : (j k : String) → before j k ≡ true → j ≢ k
before-differ j k h e = cc (before_irrefl k, ap (λ x. before x k) e, h)

find-later : (k : String) (m : GoMap) → All (λ p. before k p.0 ≡ true) m → find k m ≡ none
unfolding find
find-later k [] all = refl
find-later k ((j, x) ∷ m) all =
    ground (arith, eq_iff j k, before-differ k j all.0, find-later k m all.1)

All-place :
    (P : String × String → Type 0) (k v : String) (m : GoMap)
    → P (k, v)
    → All P m
    → All P (place k v m)
unfolding place
All-place P k v [] p all = (p, tt)
All-place P k v ((j, x) ∷ m) p all = elim (Bool-cases (j == k)) [
  | inl e ↦ rw e (p, all.1)
  | inr e ↦ elim (Bool-cases (before k j)) [
    | inl b ↦ rw (e, b) (p, all)
    | inr b ↦ rw (e, b) (all.0, All-place P k v m p all.1)
  ]
]

pub place-IsDirectory : (k v : String) (m : GoMap) → IsDirectory m → IsDirectory (place k v m)
unfolding place
place-IsDirectory k v [] i = (tt, tt)
place-IsDirectory k v ((j, x) ∷ m) i = elim (Bool-cases (j == k)) [
  | inl e ↦
      let same : j ≡ k = ground (arith, eq_iff j k, e) in
      rw e (subst (λ n. All (λ p. before n p.0 ≡ true) m) same i.0, i.1)
  | inr e ↦ elim (Bool-cases (before k j)) [
    | inl b ↦
        rw (e, b)
          (
            (
              b,
              All-mono (λ p. before j p.0 ≡ true) (λ p. before k p.0 ≡ true)
                  (λ p h. before_trans k j p.0 b h) m i.0,
            ),
            i,
          )
    | inr b ↦
        let apart : k ≢ j = ground (arith, eq_iff j k, e) in
        rw (e, b)
          (
            All-place (λ p. before j p.0 ≡ true) k v m (before-total k j b apart) i.0,
            place-IsDirectory k v m i.1,
          )
  ]
]

find-behind :
    (j x : String) (m d : GoMap)
    → All (λ p. before j p.0 ≡ true) d
    → All (λ p. find p.0 m ≡ some p.1) d
    → All (λ p. find p.0 ((j, x) ∷ m) ≡ some p.1) d
unfolding find
find-behind j x m [] later found = tt
find-behind j x m ((k, v) ∷ d) later found = (
  ground (arith, eq_iff j k, before-differ j k later.0, found.0),
  find-behind j x m d later.1 found.1,
)

-- Each name stands for one file.
pub IsDirectory-finds : (m : GoMap) → IsDirectory m → All (λ p. find p.0 m ≡ some p.1) m
unfolding find
IsDirectory-finds [] i = tt
IsDirectory-finds ((j, x) ∷ m) i =
    (ground (arith, eq_iff j j), find-behind j x m m i.0 (IsDirectory-finds m i.1))
