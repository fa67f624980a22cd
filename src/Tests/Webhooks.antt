-- ===== src/Tests/Webhooks.antt =====
-- The admission webhook, at concrete inputs.
use Prim.Native.String.{◌++◌}
use kontroller.Base.{
  ℕ, ◌+◌, ◌≤◌, String, ◌≡◌, refl, true, false, none, some, List, [], ◌∷◌, All, ok, err, is_empty,
  arith,
}
use kontroller.Base.Dict.{lookup, insert}
use kontroller.Admission.Rules.{Rule, find_by_id, exec_to_pod}
use kontroller.Admission.Binding.{
  Selector, RuleBinding, BindingEnv, K8sObject, RbCache, Change, add_handler, handle_all,
  list_rules_for_object, rb_names, handle, add_rule_binding, applies, create_rules, create_rule,
}
use kontroller.Admission.Binding.Listing.{IsConsistent}
use kontroller.Admission.Binding.Listing.History.{IsListed, empty_cache, handle_all-IsListed}
use kontroller.Admission.Exporter.{
  HttpExporterConfig, HttpExporter, limit_reached, alert, validate, send_admission_alerts,
  send_admission_alerts-one_minute, minute,
}
use kontroller.Admission.Owner.{ClusterApi}
use kontroller.Admission.Webhook.{Attributes, RuleFailure, WebhookEnv, process_event, kind_of}
use kontroller.Admission.Webhook as webhook
use kontroller.Admission.Webhook.Verdicts.{IsJudged, validate-IsJudged}
use kontroller.Tests.Fixtures.{sample_pod}

abbrev any_selector : Selector
any_selector = record { match_labels = []; match_expressions = [] }

abbrev exec_binding : RuleBinding
exec_binding = record {
  namespace = "";
  name = "exec";
  pod_selector = any_selector;
  namespace_selector = any_selector;
  rules = record { rule_id = "R2000"; rule_name = ""; rule_tags = []; parameters = none } ∷ [];
}

abbrev bindings : BindingEnv
bindings = record {
  unique_name = λ ns name. ns ++ name;
  label_selector_as_selector = λ s. elim (is_empty s.match_expressions) [
    | true ↦ some (record { matches = λ labels. true; text = "" })
    | false ↦ none
  ];
  namespaces_text = λ s. err "unreachable";
}

abbrev shop_object : K8sObject
shop_object = record { namespace = "shop"; labels = [] }

abbrev exec_rule : Rule
exec_rule = record { kind = exec_to_pod; parameters = [] }

abbrev history : List (Change bindings)
history = add_handler (ok exec_binding) ∷ []

handle_all-IsListed_example :
    IsListed bindings history shop_object
      (list_rules_for_object bindings shop_object (handle_all bindings history empty_cache))
handle_all-IsListed_example = handle_all-IsListed bindings history shop_object

-- A binding by an operator that does not exist.
abbrev bad_binding : RuleBinding
bad_binding = record exec_binding {
  pod_selector = record {
    match_labels = [];
    match_expressions = record { key = "app"; operator = "Is"; values = [] } ∷ [];
  };
}

bad_selector_panics :
    list_rules_for_object bindings shop_object
      (handle_all bindings (add_handler (ok bad_binding) ∷ []) empty_cache)
    ≡ none
unfolding list_rules_for_object rb_names handle_all handle add_rule_binding insert applies
bad_selector_panics = refl

abbrev exec_cache : RbCache
exec_cache = record {
  rb_name_to_rb = ("exec", exec_binding) ∷ [];
  rb_name_to_rules = ("exec", exec_rule ∷ []) ∷ [];
}

exec_rules : create_rules exec_binding.rules ≡ exec_rule ∷ []
unfolding create_rules create_rule find_by_id
exec_rules = refl

exec_cache-IsConsistent : IsConsistent bindings exec_cache
unfolding lookup
exec_cache-IsConsistent = record {
  keyed = (refl, refl, tt);
  rules = λ k. ground (arith, exec_rules);
}

abbrev api : ClusterApi
api = record {
  replica_set = λ ns name. ok (record { kind = "Deployment"; name = "web" } ∷ []);
  job = λ ns name. err "not found";
  pod = λ ns name. ok sample_pod;
}

abbrev sample_env : WebhookEnv
sample_env = record { bindings = bindings; api = api; fetch = λ g v r ns name. ok shop_object }

abbrev exec_request : Attributes
exec_request = record {
  object = some shop_object;
  group = "";
  version = "v1";
  resource = "pods";
  subresource = "exec";
  kind = "PodExecOptions";
  name = "web-1";
  namespace = "shop";
  container = ok "nginx";
}

abbrev exporter_config : HttpExporterConfig
exporter_config = record {
  url = "http://synchronizer";
  headers = none;
  timeout_seconds = 0;
  method = "";
  max_alerts_per_minute = 1;
}

abbrev valid_config : HttpExporterConfig
valid_config = record {
  url = "http://synchronizer";
  headers = some [];
  timeout_seconds = 5;
  method = "POST";
  max_alerts_per_minute = 1;
}

abbrev exporter : HttpExporter
exporter = record {
  config = valid_config;
  cluster_name = "prod";
  alert_count = 0;
  alert_count_start = some 10;
  alert_limit_notified = false;
}

validate-IsJudged_example :
    IsJudged sample_env 20 exec_request exec_cache exporter
      (webhook.validate sample_env 20 exec_request exec_cache exporter)
validate-IsJudged_example = validate-IsJudged sample_env 20 exec_request exec_cache exporter

abbrev three_alerts : List (ℕ × String)
three_alerts = (11, "a") ∷ (12, "b") ∷ (13, "c") ∷ []

send_admission_alerts-one_minute_example :
    (send_admission_alerts three_alerts exporter).1 ≡ alert "a" ∷ limit_reached ∷ alert "c" ∷ []
send_admission_alerts-one_minute_example =
    send_admission_alerts-one_minute 10 three_alerts exporter refl refl within
  where
    within : All (λ a. a.0 ≤ 10 + minute) three_alerts
    within = (ground arith, (ground arith, (ground arith, tt)))

valid_sample : validate exporter_config ≡ ok valid_config
unfolding validate
valid_sample = refl
