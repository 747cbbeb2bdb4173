-- ===== src/Controllers/ComputeNode/Pods/Reported.antt =====
-- What the conditions of `GetConditionFromPods` say of the pods.
use shardingsphere_on_cloud.Prelude.{
  ℕ, suc, ◌+◌, ◌≤◌, String, ◌≡◌, refl, ap, ◌∙◌, Bool, true, false, ◌&&◌, ◌||◌, not, List, [], ◌∷◌,
  ◌==◌, ltb, eqb, length, all, any, if◌then◌else◌, arith,
}
use shardingsphere_on_cloud.Api.ComputeNode.Status.{
  ComputeNodeCondition, ready_type, unknown_type, failed_type,
}
use shardingsphere_on_cloud.Sdk.{
  Pod, PodCondition, PodConditionType, pod_ready, pod_unknown, pod_failed,
}
use shardingsphere_on_cloud.Controllers.ComputeNode.Pods.{
  Clock, Tally, appended, increment, tally_conditions, tally_pods, new_condition,
  prefered_from_conditions, prefered_in_phase, prefered_from_pod, conditions_of_tally,
  get_condition_from_pods,
}

-- A condition of the type is in the list.
abbrev pub has_type : String → List ComputeNodeCondition → Bool
has_type t = any (λ c. c.type == t)

abbrev pub is_unknown : Pod → Bool
is_unknown pod = elim pod.phase [ pod_unknown ↦ true | _ ↦ false ]

abbrev pub is_failed : Pod → Bool
is_failed pod = elim pod.phase [ pod_failed ↦ true | _ ↦ false ]

abbrev pub is_ready_type : PodConditionType → Bool
is_ready_type pod_ready = true
is_ready_type _ = false

-- The pod has a true condition `Ready`.
abbrev pub is_ready : Pod → Bool
is_ready pod = any (λ c. c.is_true && is_ready_type c.type) pod.conditions

abbrev pub count : String → List ComputeNodeCondition → ℕ
count t [] = 0
count t (c ∷ cs) = if c.type == t then suc (count t cs) else count t cs

abbrev pub count_pods : String → List Pod → ℕ
count_pods t [] = 0
count_pods t (p ∷ pods) = count t (prefered_from_pod p) + count_pods t pods

tally_conditions-count :
    (t : String) (cs : List ComputeNodeCondition) (result : Tally)
    → tally_conditions cs result t ≡ result t + count t cs
unfolding tally_conditions
tally_conditions-count t [] result = omega arith
tally_conditions-count t (c ∷ cs) result =
    ground (arith, tally_conditions-count t cs (increment c.type result))

tally_pods-count :
    (t : String) (pods : List Pod) (result : Tally)
    → tally_pods pods result t ≡ result t + count_pods t pods
unfolding tally_pods
tally_pods-count t [] result = omega arith
tally_pods-count t (p ∷ pods) result = omega (
  arith,
  tally_pods-count t pods (tally_conditions (prefered_from_pod p) result),
  tally_conditions-count t (prefered_from_pod p) result,
)

pub tallied : (t : String) (pods : List Pod) → tally_pods pods (λ _. 0) t ≡ count_pods t pods
tallied t pods = omega (arith, tally_pods-count t pods (λ _. 0))

ltb-count : (t : String) (cs : List ComputeNodeCondition) → ltb 0 (count t cs) ≡ has_type t cs
ltb-count t [] = refl
ltb-count t (c ∷ cs) = ground (arith, ltb-count t cs)

ltb-count_pods :
    (t : String) (pods : List Pod)
    → ltb 0 (count_pods t pods) ≡ any (λ p. has_type t (prefered_from_pod p)) pods
ltb-count_pods t [] = refl
ltb-count_pods t (p ∷ pods) =
    ground (arith, ltb-count t (prefered_from_pod p), ltb-count_pods t pods)

has_type-appended :
    (t : String) (bs : List (Bool × ComputeNodeCondition))
    → has_type t (appended bs) ≡ any (λ b. b.0 && (b.1.type == t)) bs
unfolding appended
has_type-appended t [] = refl
has_type-appended t ((true, c) ∷ rest) = ap (λ x. (c.type == t) || x) (has_type-appended t rest)
has_type-appended t ((false, c) ∷ rest) = has_type-appended t rest

-- The seven conditions, by type.
tally_has :
    (clock : Clock) (result : Tally) (n : ℕ)
    → (has_type unknown_type (conditions_of_tally clock result n) ≡ eqb (result unknown_type) n)
      × (has_type ready_type (conditions_of_tally clock result n) ≡ ltb 0 (result ready_type))
      × (has_type failed_type (conditions_of_tally clock result n) ≡ ltb 0 (result failed_type))
unfolding conditions_of_tally new_condition
tally_has clock result n = (
  has_type-appended unknown_type _ ∙ ground arith,
  has_type-appended ready_type _ ∙ ground arith,
  has_type-appended failed_type _ ∙ ground arith,
)

prefered-ready :
    (cs : List PodCondition)
    → has_type ready_type (prefered_from_conditions cs)
      ≡ any (λ c. c.is_true && is_ready_type c.type) cs
unfolding prefered_from_conditions
prefered-ready [] = refl
prefered-ready (c ∷ cs) = ground (arith, prefered-ready cs)

prefered-other :
    (cs : List PodCondition)
    → (has_type failed_type (prefered_from_conditions cs) ≡ false)
      × (count unknown_type (prefered_from_conditions cs) ≡ 0)
unfolding prefered_from_conditions
prefered-other [] = (refl, refl)
prefered-other (c ∷ cs) = ground (arith, prefered-other cs)

pod-ready :
    (p : Pod)
    → has_type ready_type (prefered_from_pod p)
      ≡ (not (is_unknown p) && not (is_failed p) && is_ready p)
unfolding prefered_from_pod prefered_in_phase
pod-ready p = ground (arith, prefered-ready p.conditions)

pod-failed : (p : Pod) → has_type failed_type (prefered_from_pod p) ≡ is_failed p
unfolding prefered_from_pod prefered_in_phase
pod-failed p = ground (arith, prefered-other p.conditions)

pod-unknown : (p : Pod) → count unknown_type (prefered_from_pod p) ≡ (if is_unknown p then 1 else 0)
unfolding prefered_from_pod prefered_in_phase
pod-unknown p = ground (arith, prefered-other p.conditions)

any_cong : {A : Type 0} (p q : A → Bool) (xs : List A) → ((x : A) → p x ≡ q x) → any p xs ≡ any q xs
any_cong p q [] h = refl
any_cong p q (x ∷ xs) h = ground (arith, h x, any_cong p q xs h)

count_pods_bound : (pods : List Pod) → count_pods unknown_type pods ≤ length pods
count_pods_bound [] = omega arith
count_pods_bound (p ∷ pods) = ground (arith, pod-unknown p, count_pods_bound pods)

pub eqb-count_pods :
    (pods : List Pod) → eqb (count_pods unknown_type pods) (length pods) ≡ all is_unknown pods
eqb-count_pods [] = refl
eqb-count_pods (p ∷ pods) =
    ground (arith, pod-unknown p, count_pods_bound pods, eqb-count_pods pods)

-- Among the conditions of `get_condition_from_pods`, `Unknown` is there exactly if every pod is in
-- phase unknown (so also without pods), `Failed` exactly if some pod has failed, and `Ready`
-- exactly if some pod that is in neither of these phases has a true condition `Ready`.
pub conditions_report :
    (clock : Clock) (pods : List Pod)
    → (has_type unknown_type (get_condition_from_pods clock pods) ≡ all is_unknown pods)
      × (has_type failed_type (get_condition_from_pods clock pods) ≡ any is_failed pods)
      × (has_type ready_type (get_condition_from_pods clock pods)
          ≡ any (λ p. not (is_unknown p) && not (is_failed p) && is_ready p) pods)
unfolding get_condition_from_pods new_condition
conditions_report clock [] = (refl, refl, refl)
conditions_report clock (p ∷ pods) =
    let ps = p ∷ pods in
    let has = tally_has clock (tally_pods ps (λ _. 0)) (length ps) in
    (
      has.0 ∙ ap (λ k. eqb k (length ps)) (tallied unknown_type ps) ∙ eqb-count_pods ps,
      has.2
          ∙ ap (λ k. ltb 0 k) (tallied failed_type ps)
          ∙ ltb-count_pods failed_type ps
          ∙ any_cong (λ q. has_type failed_type (prefered_from_pod q)) is_failed ps pod-failed,
      has.1
          ∙ ap (λ k. ltb 0 k) (tallied ready_type ps)
          ∙ ltb-count_pods ready_type ps
          ∙ any_cong (λ q. has_type ready_type (prefered_from_pod q))
              (λ q. not (is_unknown q) && not (is_failed q) && is_ready q) ps pod-ready,
    )
