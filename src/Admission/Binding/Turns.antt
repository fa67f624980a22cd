-- ===== src/Admission/Binding/Turns.antt =====
-- admission/rulebinding/cache/cache.go: what a turn of the loop of `ListRulesForObject` decides of a
-- binding, described by the cases of its object and of its two selectors.
use kontroller.Base.{
  String, ◌≡◌, ◌≢◌, refl, Bool, true, false, Option, none, some, Result, ok, err, String-cases,
  eq_iff, eq-false, inl, inr, ap, ◌∙◌, ◌↔◌,
}
use kontroller.Base.Dict.{lookup}
use kontroller.Admission.Binding.{
  BindingEnv, K8sObject, LabelSelector, RuleBinding, applies, applies_in_namespace, applies_to_pod,
  include_cluster_objects, includes, namespace_listed, strings_contains,
}

module _ (env : BindingEnv) (o : K8sObject) (rb : RuleBinding) where
  -- The pod selector is valid and matches the object, which has a namespace.
  pub record IsMatched : Type 0 where
    pub namespaced : o.namespace ≢ ""
    pub selector : LabelSelector
    pub valid : env.label_selector_as_selector rb.pod_selector ≡ some selector
    pub matched : selector.matches o.labels ≡ true

  -- Whether a binding applies, and why; `none` is a panic, which an invalid selector causes.
  pub data IsTurn : Option Bool → Type 0 where
    of_cluster :
        o.namespace ≡ ""
        → lookup include_cluster_objects o.labels ≢ some "false"
        → IsTurn (some true)
    excluded :
        o.namespace ≡ ""
        → lookup include_cluster_objects o.labels ≡ some "false"
        → IsTurn (some false)
    bad_pod_selector :
        o.namespace ≢ "" → env.label_selector_as_selector rb.pod_selector ≡ none → IsTurn none
    other_pod :
        o.namespace ≢ ""
        → (s : LabelSelector) → env.label_selector_as_selector rb.pod_selector ≡ some s
        → s.matches o.labels ≡ false
        → IsTurn (some false)
    bad_namespace_selector :
        IsMatched → env.label_selector_as_selector rb.namespace_selector ≡ none → IsTurn none
    every_namespace :
        IsMatched
        → (t : LabelSelector) → env.label_selector_as_selector rb.namespace_selector ≡ some t
        → t.text ≡ ""
        → IsTurn (some true)
    by_namespaces :
        IsMatched
        → (t : LabelSelector) → env.label_selector_as_selector rb.namespace_selector ≡ some t
        → t.text ≢ ""
        → (text : String) → env.namespaces_text t.text ≡ ok text
        → IsTurn (some (strings_contains text o.namespace))
    no_namespaces :
        IsMatched
        → (t : LabelSelector) → env.label_selector_as_selector rb.namespace_selector ≡ some t
        → t.text ≢ ""
        → (e : String) → env.namespaces_text t.text ≡ err e
        → IsTurn (some false)

  includes-IsTurn :
      (label : Option String)
      → o.namespace ≡ ""
      → lookup include_cluster_objects o.labels ≡ label
      → IsTurn (some (includes env label))
  includes-IsTurn none e l = of_cluster e (λ f. cc (l, f))
  includes-IsTurn (some v) e l = elim (String-cases v "false") [
    | inl y ↦ rw ((eq_iff v "false").1 y) (excluded e (cc (l, y)))
    | inr n ↦
        rw (eq-false v "false" n)
          (of_cluster e (λ f. (let same : some v ≡ some "false" = cc (l, f) in n cc)))
  ]

  listed-IsTurn :
      (t : LabelSelector) (r : Result String)
      → IsMatched
      → env.label_selector_as_selector rb.namespace_selector ≡ some t
      → t.text ≢ ""
      → env.namespaces_text t.text ≡ r
      → IsTurn (some (namespace_listed env o.namespace r))
  listed-IsTurn t (ok text) m v n r = by_namespaces m t v n text r
  listed-IsTurn t (err e) m v n r = no_namespaces m t v n e r

  namespace-IsTurn :
      (t : Option LabelSelector)
      → IsMatched
      → env.label_selector_as_selector rb.namespace_selector ≡ t
      → IsTurn (applies_in_namespace env o.namespace t)
  namespace-IsTurn none m v = bad_namespace_selector m v
  namespace-IsTurn (some t) m v = elim (String-cases t.text "") [
    | inl e ↦ rw ((eq_iff t.text "").1 e) (every_namespace m t v e)
    | inr n ↦ rw (eq-false t.text "" n) (listed-IsTurn t (env.namespaces_text t.text) m v n refl)
  ]

  matched-IsTurn :
      (s : LabelSelector) (b : Bool)
      → o.namespace ≢ ""
      → env.label_selector_as_selector rb.pod_selector ≡ some s
      → s.matches o.labels ≡ b
      → IsTurn (applies_to_pod env o rb.namespace_selector (some s))
  matched-IsTurn s false n v h = rw h (other_pod n s v h)
  matched-IsTurn s true n v h =
      let m : IsMatched = record { namespaced = n; selector = s; valid = v; matched = h } in
      rw h (namespace-IsTurn (env.label_selector_as_selector rb.namespace_selector) m refl)

  pod-IsTurn :
      (s : Option LabelSelector)
      → o.namespace ≢ ""
      → env.label_selector_as_selector rb.pod_selector ≡ s
      → IsTurn (applies_to_pod env o rb.namespace_selector s)
  pod-IsTurn none n v = bad_pod_selector n v
  pod-IsTurn (some s) n v = matched-IsTurn s (s.matches o.labels) n v refl

  pub applies-IsTurn : IsTurn (applies env o rb)
  unfolding applies
  applies-IsTurn = elim (String-cases o.namespace "") [
    | inl e ↦
        rw (applies, (eq_iff o.namespace "").1 e)
          (includes-IsTurn (lookup include_cluster_objects o.labels) e refl)
    | inr n ↦
        rw (applies, eq-false o.namespace "" n)
          (pod-IsTurn (env.label_selector_as_selector rb.pod_selector) n refl)
  ]

  includes-true : (label : Option String) → label ≢ some "false" → includes env label ≡ true
  includes-true none n = refl
  includes-true (some v) n = rw (eq-false v "false" (λ e. n (ap some e))) refl

  in_cluster :
      o.namespace ≡ ""
      → applies env o rb ≡ some (includes env (lookup include_cluster_objects o.labels))
  unfolding applies
  in_cluster e = rw (applies, (eq_iff o.namespace "").1 e) refl

  in_namespace :
      o.namespace ≢ ""
      → applies env o rb
        ≡ applies_to_pod env o rb.namespace_selector
            (env.label_selector_as_selector rb.pod_selector)
  unfolding applies
  in_namespace n = rw (applies, eq-false o.namespace "" n) refl

  if_matched :
      (m : IsMatched)
      → applies env o rb
        ≡ applies_in_namespace env o.namespace
            (env.label_selector_as_selector rb.namespace_selector)
  if_matched m =
      in_namespace m.namespaced
      ∙ ap (applies_to_pod env o rb.namespace_selector) m.valid
      ∙ (rw m.matched refl)

  -- No other turn is described.
  turn_is : (b : Option Bool) → IsTurn b → applies env o rb ≡ b
  turn_is _ (of_cluster e n) = in_cluster e ∙ ap some (includes-true _ n)
  turn_is _ (excluded e l) = in_cluster e ∙ (rw l refl)
  turn_is _ (bad_pod_selector n v) =
      in_namespace n ∙ ap (applies_to_pod env o rb.namespace_selector) v
  turn_is _ (other_pod n s v h) =
      in_namespace n ∙ ap (applies_to_pod env o rb.namespace_selector) v ∙ (rw h refl)
  turn_is _ (bad_namespace_selector m v) =
      if_matched m ∙ ap (applies_in_namespace env o.namespace) v
  turn_is _ (every_namespace m t v e) =
      if_matched m
      ∙ ap (applies_in_namespace env o.namespace) v
      ∙ (rw ((eq_iff t.text "").1 e) refl)
  turn_is _ (by_namespaces m t v n text l) =
      if_matched m
      ∙ ap (applies_in_namespace env o.namespace) v
      ∙ (rw (eq-false t.text "" n, l) refl)
  turn_is _ (no_namespaces m t v n e l) =
      if_matched m
      ∙ ap (applies_in_namespace env o.namespace) v
      ∙ (rw (eq-false t.text "" n, l) refl)

  pub IsTurn-iff : (b : Option Bool) → (applies env o rb ≡ b) ↔ IsTurn b
  IsTurn-iff b = (λ h. (rw (← h) applies-IsTurn), turn_is b)
