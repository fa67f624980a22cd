-- ===== src/Admission/Webhook/Verdicts.antt =====
-- When the webhook forbids a request, and what it sends then.
use kontroller.Base.{
  ℕ, String, ◌≡◌, ◌≢◌, ◌↔◌, refl, Option, none, some, List, [], ◌∷◌, arith, Result, ok, err,
  Result-cases, Option-cases, inl, inr, ◌⊎◌, eq_iff, Memᴰ, mem-cons-cases,
}
use kontroller.Utils.Types.{Pod}
use kontroller.Admission.Rules.{Rule, RuleKind}
use kontroller.Admission.Binding.{RbCache, K8sObject, list_rules_for_object}
use kontroller.Admission.Exporter.{HttpExporter, send_admission_alert}
use kontroller.Admission.Owner.{ClusterApi, Details, get_controller_details}
use kontroller.Admission.Webhook.{
  Attributes, RuleFailure, process_event, kind_of, first_failure, WebhookEnv, object_of, validate,
  verdict_on, on_listing, panicked, with_object, with_request, allowed, forbidden, Validated,
}

module _ (api : ClusterApi) where
  details_iff :
      (name namespace : String)
      → ((d : Details) × (get_controller_details api name namespace ≡ ok d))
        ↔ ((name ≢ "") × (namespace ≢ "") × (p : Pod) × (api.pod namespace name ≡ ok p))
  unfolding get_controller_details
  details_iff name namespace = elim (Result-cases (api.pod namespace name)) [
    | inl (p, e) ↦ (
      λ (d, h).
          (λ f. ground (arith, eq_iff name ""), λ f. ground (arith, eq_iff namespace ""), p, e),
      λ (n, m, _, _). elim (Result-cases (get_controller_details api name namespace)) [
        | inl (d, f) ↦ (d, f)
        | inr (w, f) ↦ absurd (ground (arith, eq_iff name "", eq_iff namespace ""))
      ],
    )
    | inr (w, e) ↦ (λ (d, h). absurd (ground arith), λ (_, _, p, f). absurd (cc (e, f)))
  ]

  -- A rule reports a request exactly if it is of the rule's kind, names a pod and a namespace, and
  -- the API has that pod.
  pub process_event_iff :
      (k : RuleKind) (a : Attributes)
      → ((f : RuleFailure) × (process_event api k a ≡ some f)) ↔ (
          (a.kind ≡ kind_of k)
          × (a.name ≢ "")
          × (a.namespace ≢ "")
          × (p : Pod) × (api.pod a.namespace a.name ≡ ok p))
  unfolding process_event
  process_event_iff k a =
      let found = details_iff a.name a.namespace in
      elim (Result-cases (get_controller_details api a.name a.namespace)) [
        | inl (d, e) ↦ (
          λ (f, h).
              let (n, m, p, q) = found.0 (d, e) in
              (ground (arith, eq_iff a.kind (kind_of k)), n, m, p, q),
          λ (g, _, _, _, _).
              let y = (eq_iff a.kind (kind_of k)).1 g in
              elim (Option-cases (process_event api k a)) [
                | inl n ↦ absurd (ground (arith, y, e))
                | inr f ↦ f
              ],
        )
        | inr (w, e) ↦ (
          λ (f, h). absurd (ground (arith, e)),
          λ (_, n, m, p, q). let (d, f) = found.1 (n, m, p, q) in absurd (cc (e, f)),
        )
      ]

  first_failure-cases :
      (rules : List Rule) (a : Attributes)
      → ((first_failure api rules a ≡ none)
          × ((r : Rule) → Memᴰ r rules → process_event api r.kind a ≡ none))
        ⊎ ((r : Rule) × (f : RuleFailure) × Memᴰ r rules
            × (process_event api r.kind a ≡ some f)
            × (first_failure api rules a ≡ some f))
  unfolding first_failure
  first_failure-cases [] a = inl (refl, λ r m. elim m [ ])
  first_failure-cases (x ∷ rest) a = elim (Option-cases (process_event api x.kind a)) [
    | inr (f, e) ↦ inr (x, f, Memᴰ.head refl, e, rw (first_failure, e) refl)
    | inl e ↦ elim (first_failure-cases rest a) [
      | inl (n, all) ↦ inl (
        rw (first_failure, e) n,
        λ r m. elim (mem-cons-cases m) [ inl s ↦ rw s e | inr k ↦ all r k ],
      )
      | inr (r, f, m, g, h) ↦ inr (r, f, Memᴰ.tail m, g, rw (first_failure, e) h)
    ]
  ]

module _ (env : WebhookEnv) (now : ℕ) (a : Attributes) (c : RbCache) (e : HttpExporter) where
  -- The rules listed for the object that the request is resolved to.
  pub record IsResolved (o : K8sObject) : Type 0 where
    pub given : K8sObject
    pub carried : a.object ≡ some given
    pub resolved : object_of env a given ≡ ok o

  abbrev listed_for : K8sObject → Option (List Rule)
  listed_for o = list_rules_for_object env.bindings o c

  -- The outcome of a request, and why.
  pub data IsJudged : Validated → Type 0 where
    no_object : a.object ≡ none → IsJudged (record { verdict = allowed; exporter = e; sent = [] })
    unresolved :
        (given : K8sObject) (why : String)
        → a.object ≡ some given
        → object_of env a given ≡ err why
        → IsJudged (record { verdict = forbidden (some why); exporter = e; sent = [] })
    crashes :
        (o : K8sObject)
        → IsResolved o
        → listed_for o ≡ none
        → IsJudged (record { verdict = panicked; exporter = e; sent = [] })
    passes :
        (o : K8sObject)
        → IsResolved o
        → (rules : List Rule) → listed_for o ≡ some rules
        → ((r : Rule) → Memᴰ r rules → process_event env.api r.kind a ≡ none)
        → IsJudged (record { verdict = allowed; exporter = e; sent = [] })
    fails :
        (o : K8sObject)
        → IsResolved o
        → (rules : List Rule) → listed_for o ≡ some rules
        → (r : Rule) (f : RuleFailure) → Memᴰ r rules
        → process_event env.api r.kind a ≡ some f
        → IsJudged (record {
          verdict = forbidden none;
          exporter = (send_admission_alert now f e).0;
          sent = (send_admission_alert now f e).1 ∷ [];
        })

  on_rules :
      (o : K8sObject) (rules : List Rule)
      → IsResolved o
      → listed_for o ≡ some rules
      → IsJudged (verdict_on env now (first_failure env.api rules a) e)
  unfolding verdict_on
  on_rules o rules resolved l = elim (first_failure-cases env.api rules a) [
    | inl (n, all) ↦ rw n (IsJudged.passes o resolved rules l all)
    | inr (r, x, m, p, h) ↦ rw h (IsJudged.fails o resolved rules l r x m p)
  ]

  listing-IsJudged :
      (o : K8sObject) (listed : Option (List Rule))
      → IsResolved o
      → listed_for o ≡ listed
      → IsJudged (on_listing env now a listed e)
  unfolding on_listing
  listing-IsJudged o none resolved l = IsJudged.crashes o resolved l
  listing-IsJudged o (some rules) resolved l = on_rules o rules resolved l

  on_object :
      (given : K8sObject) (found : Result K8sObject)
      → a.object ≡ some given
      → object_of env a given ≡ found
      → IsJudged (with_object env now a c found e)
  unfolding with_object
  on_object given (err why) g f = IsJudged.unresolved given why g f
  on_object given (ok o) g f =
      listing-IsJudged o (listed_for o) (record { given = given; carried = g; resolved = f }) refl

  on_request : (x : Option K8sObject) → a.object ≡ x → IsJudged (with_request env now a c x e)
  unfolding with_request
  on_request none g = IsJudged.no_object g
  on_request (some given) g = on_object given (object_of env a given) g refl

  -- A request that carries no object is allowed. Any other is forbidden if its object cannot be
  -- fetched; else its validation panics if the listing of the rules for the object does; else it is
  -- forbidden exactly if a rule that is listed for the object reports it. One thing is sent in that last
  -- case, for one such rule, and none otherwise.
  pub validate-IsJudged : IsJudged (validate env now a c e)
  unfolding validate
  validate-IsJudged = on_request a.object refl
