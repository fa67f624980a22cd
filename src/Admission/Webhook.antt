-- ===== src/Admission/Webhook.antt =====
-- admission/webhook/validator.go, and `ProcessEvent` of the two rules (r2000_exec_to_pod.go and
-- r2001_portforward.go in admission/rules/v1): which requests are forbidden.
pub mod Verdicts
use Prim.Native.String.{◌++◌ as str_append}
use kontroller.Base.{
  ℕ, String, ◌≡◌, ◌≢◌, ◌↔◌, refl, Bool, true, false, not, ◌||◌, ◌&&◌, Option, none, some, List, [],
  ◌∷◌, ◌==◌, arith, if◌then◌else◌, Result, ok, err, Result-cases,
}
use kontroller.Base.Dict.{Dict}
use kontroller.Admission.Rules.{
  Rule, RuleKind, exec_to_pod, port_forward, RuleDescriptor, r2000_exec_to_pod_rule_descriptor,
  r2001_port_forward_rule_descriptor,
}
use kontroller.Admission.Binding.{BindingEnv, RbCache, K8sObject, list_rules_for_object}
use kontroller.Admission.Exporter.{HttpExporter, Sent, send_admission_alert}
use kontroller.Admission.Owner.{ClusterApi, Owner, Details, get_controller_details}

-- `admission.Attributes`, with what the operator reads. `container` is what decoding the object as
-- the options of an exec gives: the container's name.
pub record Attributes : Type 0 where
  pub object : Option K8sObject
  pub group : String
  pub version : String
  pub resource : String
  pub subresource : String
  pub kind : String
  pub name : String
  pub namespace : String
  pub container : Result String

pub record RuleFailure : Type 0 where
  pub alert_name : String
  pub severity : ℕ
  pub rule_description : String
  pub rule_id : String
  pub pod_name : String
  pub namespace : String
  pub owner : Owner
  pub node_name : String
  pub container_name : String

abbrev pub descriptor_of : RuleKind → RuleDescriptor
descriptor_of exec_to_pod = r2000_exec_to_pod_rule_descriptor
descriptor_of port_forward = r2001_port_forward_rule_descriptor

-- The kind of the requests that a rule is about.
abbrev pub kind_of : RuleKind → String
kind_of exec_to_pod = "PodExecOptions"
kind_of port_forward = "PodPortForwardOptions"

abbrev text_of : RuleKind → String
text_of exec_to_pod = "Exec to pod detected on pod "
text_of port_forward = "Port forward detected on pod "

unfoldable pub get_container_name_from_exec_to_pod_event : Attributes → Result String
get_container_name_from_exec_to_pod_event a =
    if not (a.subresource == "exec")
    then err "not an exec subresource"
    else elim a.object [ none ↦ err "event object is nil" | some _ ↦ a.container ]

-- An exec names a container; a name that cannot be found is left empty.
abbrev container_of : RuleKind → Attributes → String
container_of port_forward a = ""
container_of exec_to_pod a = elim (get_container_name_from_exec_to_pod_event a) [
  | err _ ↦ ""
  | ok name ↦ name
]

abbrev failure_of : RuleKind → Attributes → Details → RuleFailure
failure_of k a d = record {
  alert_name = (descriptor_of k).name;
  severity = (descriptor_of k).priority;
  rule_description = str_append (text_of k) a.name;
  rule_id = (descriptor_of k).id;
  pod_name = a.name;
  namespace = a.namespace;
  owner = d.owner;
  node_name = d.node_name;
  container_name = container_of k a;
}

module _ (api : ClusterApi) where
  unfoldable pub process_event : RuleKind → Attributes → Option RuleFailure
  process_event k a =
      if not (a.kind == kind_of k)
      then none
      else elim (get_controller_details api a.name a.namespace) [
        | err _ ↦ none
        | ok d ↦ some (failure_of k a d)
      ]

  -- The loop over the rules: the first failure.
  unfoldable pub first_failure : List Rule → Attributes → Option RuleFailure
  first_failure [] a = none
  first_failure (r ∷ rest) a =
      let later = first_failure rest a in
      elim (process_event r.kind a) [ none ↦ later | some f ↦ some f ]

-- A request is allowed, or forbidden with an error, or its validation panics.
pub data Verdict : Type 0 where
  allowed : Verdict
  forbidden : Option String → Verdict
  panicked : Verdict

-- `fetch` is the dynamic client: it reads the object that a request is about.
pub record WebhookEnv : Type 0 where
  pub bindings : BindingEnv
  pub api : ClusterApi
  pub fetch : String → String → String → String → String → Result K8sObject

pub record Validated : Type 0 where
  pub verdict : Verdict
  pub exporter : HttpExporter
  pub sent : List (Sent RuleFailure)

module _ (env : WebhookEnv) where
  -- The object whose labels and namespace decide: a request on a pod that does not carry it is
  -- resolved to it.
  unfoldable pub object_of : Attributes → K8sObject → Result K8sObject
  object_of a o =
      if a.resource == "pods" && not (a.kind == "Pod")
      then elim (env.fetch a.group a.version a.resource a.namespace a.name) [
        | err e ↦ err (str_append "failed to fetch resource: failed to fetch resource: " e)
        | ok found ↦ ok found
      ]
      else ok o

  unfoldable pub verdict_on : ℕ → Option RuleFailure → HttpExporter → Validated
  verdict_on now none e = record { verdict = allowed; exporter = e; sent = [] }
  verdict_on now (some f) e =
      let (after, sent) = send_admission_alert now f e in
      record { verdict = forbidden none; exporter = after; sent = sent ∷ [] }

  -- The listing of the rules may panic.
  unfoldable pub on_listing : ℕ → Attributes → Option (List Rule) → HttpExporter → Validated
  on_listing now a none e = record { verdict = panicked; exporter = e; sent = [] }
  on_listing now a (some rules) e = verdict_on now (first_failure env.api rules a) e

  unfoldable pub with_object :
      ℕ → Attributes → RbCache → Result K8sObject → HttpExporter → Validated
  unfolding on_listing
  with_object now a c (err why) e = record {
    verdict = forbidden (some why);
    exporter = e;
    sent = [];
  }
  with_object now a c (ok o) e = on_listing now a (list_rules_for_object env.bindings o c) e

  unfoldable pub with_request :
      ℕ → Attributes → RbCache → Option K8sObject → HttpExporter → Validated
  unfolding with_object
  with_request now a c none e = record { verdict = allowed; exporter = e; sent = [] }
  with_request now a c (some o) e = with_object now a c (object_of a o) e

  unfoldable pub validate : ℕ → Attributes → RbCache → HttpExporter → Validated
  unfolding with_request
  validate now a c e = with_request now a c a.object e
