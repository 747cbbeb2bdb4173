-- ===== src/Aws/Instance/Filling.antt =====
-- The loop of `validCreateInstanceParams` over the required parameters.
use shardingsphere_on_cloud.Prelude.{
  String, ◌≡◌, ◌≢◌, refl, true, none, some, [], ◌∷◌, arith, ◌==◌, eq_iff, Bool-cases, inl, inr,
  subst, sym, if◌then◌else◌,
}
use shardingsphere_on_cloud.Go.{text}
use shardingsphere_on_cloud.Go.Map.{GoMap, find, get, put}
use shardingsphere_on_cloud.Effects.{InstanceParams, Request, attempt, create_instance, fail}
use shardingsphere_on_cloud.Effects.Only.{Yields, Yields-bind, Yields-if}
use shardingsphere_on_cloud.Aws.Instance.{fill_required, generate, is_missing, is_generated}

-- A predicate of the requests that create an instance.
abbrev pub Creates : (InstanceParams → Type 0) → Request → Type 0
Creates I (create_instance p) = I p
Creates I _ = Unit

module _ (I : InstanceParams → Type 0) where
  generate-Yields : (k : String) → Yields (Creates I) (λ _. Unit) (generate k)
  unfolding generate attempt
  generate-Yields k = ground arith

  -- A predicate of the parameters that survives the generation of a missing parameter.
  module _ (Q : GoMap → Type 0)
      (keep : (j v : String) (m : GoMap)
        → is_generated j ≡ true
        → get j m ≡ ""
        → Q m
        → Q (put j v m)) where
    pub fill-keeps : (req m : GoMap) → Q m → Yields (Creates I) Q (fill_required req m)
    unfolding fill_required
    fill-keeps [] m q = q
    fill-keeps ((k, v) ∷ rest) m q =
        Yields-if (Creates I) Q (is_missing k m) _ _
          (λ missing.
            Yields-if (Creates I) Q (is_generated k) _ (fail (text v))
              (λ g.
                Yields-bind (Creates I) (λ _. Unit) Q (generate k) _ (generate-Yields k)
                  λ value _.
                    fill-keeps rest (put k value m)
                      (keep k value m g ((eq_iff (get k m) "").0 missing) q))
              (λ _. tt))
          (λ _. fill-keeps rest m q)

    module _ (k : String) (given : (m : GoMap) → get k m ≢ "" → Q m)
        (generated : is_generated k ≡ true → (v : String) (m : GoMap) → Q (put k v m)) where
      fill-at :
          (v : String) (rest m : GoMap) → Yields (Creates I) Q (fill_required ((k, v) ∷ rest) m)
      unfolding fill_required
      fill-at v rest m =
          Yields-if (Creates I) Q (is_missing k m) _ _
            (λ missing.
              Yields-if (Creates I) Q (is_generated k) _ (fail (text v))
                (λ g.
                  Yields-bind (Creates I) (λ _. Unit) Q (generate k) _ (generate-Yields k)
                    λ value _. fill-keeps rest (put k value m) (generated g value m))
                (λ _. tt))
            (λ present. fill-keeps rest m (given m (λ e. cc (present, (eq_iff (get k m) "").1 e))))

      -- It holds in the end if it holds of each map that has the required parameter `k`, be it
      -- given or generated.
      pub fill-gains :
          (req m : GoMap) → find k req ≢ none → Yields (Creates I) Q (fill_required req m)
      unfolding fill_required find
      fill-gains [] m r = absurd (r refl)
      fill-gains ((j, v) ∷ rest) m r = elim (Bool-cases (j == k)) [
        | inl e ↦
            subst (λ i. Yields (Creates I) Q (fill_required ((i, v) ∷ rest) m))
              (sym ((eq_iff j k).0 e)) (fill-at v rest m)
        | inr e ↦
            let later = subst (λ b. (if b then some v else find k rest) ≢ none) e r in
            Yields-if (Creates I) Q (is_missing j m) _ _
              (λ missing.
                Yields-if (Creates I) Q (is_generated j) _ (fail (text v))
                  (λ _.
                    Yields-bind (Creates I) (λ _. Unit) Q (generate j) _ (generate-Yields j)
                      λ value _. fill-gains rest (put j value m) later)
                  (λ _. tt))
              (λ _. fill-gains rest m later)
      ]
