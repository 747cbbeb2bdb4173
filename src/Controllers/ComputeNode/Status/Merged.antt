-- ===== src/Controllers/ComputeNode/Status/Merged.antt =====
-- What `updateComputeNodeStatusCondition` does to the conditions of a compute node.
use shardingsphere_on_cloud.Prelude.{
  String, ◌≡◌, refl, ap, sym, ◌∙◌, subst, Bool, true, false, ◌||◌, not, Option, none, some, List,
  [], ◌∷◌, ◌++◌, map, ◌==◌, eq_iff, eq_refl, all, All, if◌then◌else◌, arith, Bool-cases, inl, inr,
}
use shardingsphere_on_cloud.Api.ComputeNode.Status.{
  ComputeNodeCondition, ComputeNodeStatus, LoadBalancerStatus, unknown_type,
}
use shardingsphere_on_cloud.Sdk.{Pod}
use shardingsphere_on_cloud.Controllers.ComputeNode.Pods.{
  Clock, appended, new_condition, conditions_of_tally, get_condition_from_pods,
}
use shardingsphere_on_cloud.Controllers.ComputeNode.Pods.Reported.{
  has_type, is_unknown, conditions_report,
}
use shardingsphere_on_cloud.Controllers.ComputeNode.Status.{
  merge_into, is_found, merge_condition, update_compute_node_status_condition,
  reconcile_compute_node_status,
}

-- The status of the first condition of a type.
abbrev pub find_status : String → List ComputeNodeCondition → Option String
find_status t [] = none
find_status t (x ∷ xs) = if x.type == t then some x.status else find_status t xs

abbrev is_none : Option String → Bool
is_none none = true
is_none (some _) = false

abbrev pub set_if_some : String → Option String → Option String
set_if_some s none = none
set_if_some s (some _) = some s

-- The status of a type after `c` is merged into each condition of a list.
abbrev pub after_merge : ComputeNodeCondition → String → Option String → Option String
after_merge c t o =
    if c.type == t
    then set_if_some c.status o
    else if (c.type == unknown_type) || (t == unknown_type)
    then set_if_some "False" o
    else o

merge_into-type : (c x : ComputeNodeCondition) → (merge_into c x).type ≡ x.type
unfolding merge_into
merge_into-type c x = ground (arith, eq_iff x.type c.type)

merge_into-status :
    (c x : ComputeNodeCondition)
    → some (merge_into c x).status ≡ after_merge c x.type (some x.status)
unfolding merge_into
merge_into-status c x = ground (arith, eq_iff x.type c.type, eq_iff c.type x.type)

find_status-map :
    (c : ComputeNodeCondition) (t : String) (xs : List ComputeNodeCondition)
    → find_status t (map (merge_into c) xs) ≡ after_merge c t (find_status t xs)
find_status-map c t [] = ground arith
find_status-map c t (x ∷ xs) = elim (Bool-cases (x.type == t)) [
  | inl e ↦ rw (merge_into-type c x) (
      rw e (
        subst (λ u. some (merge_into c x).status ≡ after_merge c u (some x.status))
          ((eq_iff x.type t).0 e) (merge_into-status c x)))
  | inr e ↦ rw (merge_into-type c x) (rw e (find_status-map c t xs))
]

is_found-find :
    (c : ComputeNodeCondition) (xs : List ComputeNodeCondition)
    → is_found c xs ≡ not (is_none (find_status c.type xs))
unfolding is_found
is_found-find c [] = refl
is_found-find c (x ∷ xs) = ground (arith, is_found-find c xs)

find_status-append :
    (t : String) (xs : List ComputeNodeCondition) (c : ComputeNodeCondition)
    → find_status t (xs ++ c ∷ []) ≡ (
        if is_none (find_status t xs)
        then (if c.type == t then some c.status else none)
        else find_status t xs)
find_status-append t [] c = ground arith
find_status-append t (x ∷ xs) c = ground (arith, find_status-append t xs c)

after_merge-some :
    (c : ComputeNodeCondition) (o : Option String)
    → is_none o ≡ false
    → after_merge c c.type o ≡ some c.status
after_merge-some c none h = cc
after_merge-some c (some s) h = rw (eq_refl c.type) refl

after_merge-none : (c : ComputeNodeCondition) (t : String) → after_merge c t none ≡ none
after_merge-none c t = ground arith

find_status-found :
    (c : ComputeNodeCondition) (t : String) (xs : List ComputeNodeCondition)
    → is_none (find_status c.type xs) ≡ false
    → find_status t (map (merge_into c) xs)
      ≡ (if c.type == t then some c.status else after_merge c t (find_status t xs))
find_status-found c t xs h = elim (Bool-cases (c.type == t)) [
  | inl e ↦
      let p = (eq_iff c.type t).0 e in
      find_status-map c t xs
      ∙ subst (λ u. after_merge c u (find_status u xs) ≡ some c.status) p
          (after_merge-some c (find_status c.type xs) h)
      ∙ sym (ap (λ b. if b then some c.status else after_merge c t (find_status t xs)) e)
  | inr e ↦
      find_status-map c t xs
      ∙ sym (ap (λ b. if b then some c.status else after_merge c t (find_status t xs)) e)
]

find_status-added :
    (c : ComputeNodeCondition) (t : String) (xs : List ComputeNodeCondition)
    → is_none (find_status c.type xs) ≡ true
    → find_status t (map (merge_into c) xs ++ c ∷ [])
      ≡ (if c.type == t then some c.status else after_merge c t (find_status t xs))
find_status-added c t xs h =
    find_status-append t (map (merge_into c) xs) c
    ∙ ap (λ o. if is_none o then (if c.type == t then some c.status else none) else o)
        (find_status-map c t xs)
    ∙ added (find_status t xs)
        (λ e. subst (λ u. is_none (find_status u xs) ≡ true) ((eq_iff c.type t).0 e) h)
  where
    added :
        (o : Option String)
        → ((c.type == t) ≡ true → is_none o ≡ true)
        → (if is_none (after_merge c t o)
            then (if c.type == t then some c.status else none)
            else after_merge c t o)
          ≡ (if c.type == t then some c.status else after_merge c t o)
    added o h = ground arith

-- One iteration of `update_compute_node_status_condition`.
pub find_status-merge :
    (c : ComputeNodeCondition) (t : String) (xs : List ComputeNodeCondition)
    → find_status t (merge_condition xs c)
      ≡ (if c.type == t then some c.status else after_merge c t (find_status t xs))
unfolding merge_condition
find_status-merge c t [] = ground arith
find_status-merge c t (x ∷ xs) = elim (Bool-cases (is_found c (x ∷ xs))) [
  | inl e ↦ rw e (find_status-found c t (x ∷ xs) (ground (arith, is_found-find c (x ∷ xs))))
  | inr e ↦ rw e (find_status-added c t (x ∷ xs) (ground (arith, is_found-find c (x ∷ xs))))
]

-- A condition that says that something holds, other than that the pods are unknown.
abbrev pub IsPlain : ComputeNodeCondition → Type 0
IsPlain c = (c.status ≡ "True") × ((c.type == unknown_type) ≡ false)

find_status-update :
    (t : String) (conds xs : List ComputeNodeCondition)
    → (t == unknown_type) ≡ false
    → All IsPlain conds
    → find_status t (update_compute_node_status_condition xs conds)
      ≡ (if has_type t conds then some "True" else find_status t xs)
unfolding update_compute_node_status_condition
find_status-update t [] xs u p = refl
find_status-update t (c ∷ conds) xs u p =
    find_status-update t conds (merge_condition xs c) u p.1
    ∙ ground (arith, find_status-merge c t xs, p.0.0, p.0.1)

abbrev IsTrue : ComputeNodeCondition → Type 0
IsTrue c = c.status ≡ "True"

appended-IsTrue :
    (bs : List (Bool × ComputeNodeCondition)) → All (λ b. IsTrue b.1) bs → All IsTrue (appended bs)
unfolding appended
appended-IsTrue [] h = tt
appended-IsTrue ((true, c) ∷ bs) h = (h.0, appended-IsTrue bs h.1)
appended-IsTrue ((false, c) ∷ bs) h = appended-IsTrue bs h.1

get_condition-IsTrue :
    (clock : Clock) (pods : List Pod) → All IsTrue (get_condition_from_pods clock pods)
unfolding get_condition_from_pods conditions_of_tally new_condition
get_condition-IsTrue clock [] = (refl, tt)
get_condition-IsTrue clock (p ∷ pods) =
    appended-IsTrue _ (refl, (refl, (refl, (refl, (refl, (refl, (refl, tt)))))))

IsPlain-IsTrue :
    (cs : List ComputeNodeCondition)
    → All IsTrue cs
    → has_type unknown_type cs ≡ false
    → All IsPlain cs
IsPlain-IsTrue [] h u = tt
IsPlain-IsTrue (c ∷ cs) h u = ((h.0, ground arith), IsPlain-IsTrue cs h.1 (ground arith))

-- If some pod is not in phase unknown, then after `reconcile_compute_node_status` each type of
-- condition but `Unknown` has the status "True" if the pods report it, and otherwise the status
-- that it had before, be that "True" as well: a condition that no pod reports any more stays.
pub conditions_kept :
    (clock : Clock) (pods : List Pod) (service : LoadBalancerStatus) (status : ComputeNodeStatus)
    (t : String)
    → all is_unknown pods ≡ false
    → (t == unknown_type) ≡ false
    → find_status t (reconcile_compute_node_status clock pods service status).conditions ≡ (
        if has_type t (get_condition_from_pods clock pods)
        then some "True"
        else find_status t status.conditions)
unfolding reconcile_compute_node_status
conditions_kept clock pods service status t h u =
    find_status-update t (get_condition_from_pods clock pods) status.conditions u
      (IsPlain-IsTrue _ (get_condition-IsTrue clock pods) ((conditions_report clock pods).0 ∙ h))
