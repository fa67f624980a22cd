-- ===== src/Admission/Binding.antt =====
-- admission/rulebinding/cache/cache.go: the cache of rule bindings and of the rules made for them.
-- The selectors of the Kubernetes libraries are the environment.
pub mod Listing
pub mod Turns
use Prim.Native.String.{find, len}
use kontroller.Base.{
  leb, ℕ, String, ◌≡◌, refl, Bool, true, false, not, ◌||◌, ◌&&◌, Option, none, some, List, [], ◌∷◌,
  ◌++◌, ◌==◌, arith, if◌then◌else◌, is_empty, Result, ok, err,
}
use kontroller.Base.Dict.{Dict, lookup, insert, remove, values}
use kontroller.Admission.Rules.{
  Rule, Value, create_rule_by_id, create_rule_by_name, create_rules_by_tags, set_parameters,
}

-- `strings.Contains`
unfoldable pub strings_contains : String → String → Bool
strings_contains text part = leb (find text part) (len text)

abbrev pub include_cluster_objects : String
include_cluster_objects = "includeClusterObjects"

-- `metav1.LabelSelector`
pub record Requirement : Type 0 where
  pub key : String
  pub operator : String
  pub values : List String

pub record Selector : Type 0 where
  pub match_labels : Dict String
  pub match_expressions : List Requirement

-- `RuntimeAlertRuleBindingRule`; the parameters may be a nil map.
pub record BindingRule : Type 0 where
  pub rule_id : String
  pub rule_name : String
  pub rule_tags : List String
  pub parameters : Option (Dict Value)

pub record RuleBinding : Type 0 where
  pub namespace : String
  pub name : String
  pub pod_selector : Selector
  pub namespace_selector : Selector
  pub rules : List BindingRule

pub record RbCache : Type 0 where
  pub rb_name_to_rb : Dict RuleBinding
  pub rb_name_to_rules : Dict (List Rule)

pub record K8sObject : Type 0 where
  pub namespace : String
  pub labels : Dict String

-- `labels.Selector`: its methods.
pub record LabelSelector : Type 0 where
  pub matches : Dict String → Bool
  pub text : String

-- `unique_name` is `CreateK8sPodID`; `label_selector_as_selector` has no value where it returns an
-- error, and with it a nil interface; and `namespaces_text` is the text of the list of namespaces that
-- a selector's text selects.
pub record BindingEnv : Type 0 where
  pub unique_name : String → String → String
  pub label_selector_as_selector : Selector → Option LabelSelector
  pub namespaces_text : String → Result String

abbrev pub with_parameters : Option (Dict Value) → Rule → Rule
with_parameters none r = r
with_parameters (some ps) r = set_parameters ps r

abbrev pub all_with_parameters : Option (Dict Value) → List Rule → List Rule
all_with_parameters ps [] = []
all_with_parameters ps (r ∷ rs) = with_parameters ps r ∷ all_with_parameters ps rs

abbrev by_id : BindingRule → Option Rule
by_id r = if r.rule_id == "" then none else create_rule_by_id r.rule_id

abbrev by_name : BindingRule → Option Rule
by_name r = if r.rule_name == "" then none else create_rule_by_name r.rule_name

-- By the identifier, else by the name, else by the tags.
unfoldable pub create_rule : BindingRule → List Rule
create_rule r = elim (by_id r) [
  | some rule ↦ with_parameters r.parameters rule ∷ []
  | none ↦ elim (by_name r) [
    | some rule ↦ with_parameters r.parameters rule ∷ []
    | none ↦
        if is_empty r.rule_tags
        then []
        else all_with_parameters r.parameters (create_rules_by_tags r.rule_tags)
  ]
]

unfoldable pub create_rules : List BindingRule → List Rule
create_rules [] = []
create_rules (r ∷ rest) = create_rule r ++ create_rules rest

module _ (env : BindingEnv) where
  abbrev pub name_of : RuleBinding → String
  name_of rb = env.unique_name rb.namespace rb.name

  unfoldable pub add_rule_binding : RuleBinding → RbCache → RbCache
  add_rule_binding rb c = record {
    rb_name_to_rb = insert (name_of rb) rb c.rb_name_to_rb;
    rb_name_to_rules = insert (name_of rb) (create_rules rb.rules) c.rb_name_to_rules;
  }

  unfoldable pub delete_rule_binding : String → RbCache → RbCache
  delete_rule_binding name c = record {
    rb_name_to_rb = remove name c.rb_name_to_rb;
    rb_name_to_rules = remove name c.rb_name_to_rules;
  }

  unfoldable pub modified_rule_binding : RuleBinding → RbCache → RbCache
  modified_rule_binding rb c = add_rule_binding rb (delete_rule_binding (name_of rb) c)

  -- What the watcher tells the cache: an object that is added or modified, as it is converted, or
  -- the namespace and the name of one that is deleted.
  pub data Change : Type 0 where
    add_handler modify_handler : Result RuleBinding → Change
    delete_handler : String → String → Change

  unfoldable pub handle : Change → RbCache → RbCache
  handle (add_handler (err _)) c = c
  handle (add_handler (ok rb)) c = add_rule_binding rb c
  handle (modify_handler (err _)) c = c
  handle (modify_handler (ok rb)) c = modified_rule_binding rb c
  handle (delete_handler ns name) c = delete_rule_binding (env.unique_name ns name) c

  unfoldable pub handle_all : List Change → RbCache → RbCache
  handle_all [] c = c
  handle_all (x ∷ rest) c = handle_all rest (handle x c)

  abbrev pub namespace_listed : String → Result String → Bool
  namespace_listed ns (err _) = false
  namespace_listed ns (ok text) = strings_contains text ns

  -- The object of a cluster: by its label, where a missing label stands for "true".
  abbrev pub includes : Option String → Bool
  includes none = true
  includes (some v) = not (v == "false")

  -- The check of the namespaces. Where a selector is nil, the call of its method panics: `none`.
  abbrev pub applies_in_namespace : (namespace : String) → Option LabelSelector → Option Bool
  applies_in_namespace ns none = none
  applies_in_namespace ns (some s) =
      if s.text == "" then some true else some (namespace_listed ns (env.namespaces_text s.text))

  abbrev pub applies_to_pod : K8sObject → Selector → Option LabelSelector → Option Bool
  applies_to_pod o namespaces none = none
  applies_to_pod o namespaces (some s) =
      if not (s.matches o.labels)
      then some false
      else applies_in_namespace o.namespace (env.label_selector_as_selector namespaces)

  -- The turn of the first loop for one binding: whether it adds the binding's name, unless it panics.
  unfoldable pub applies : K8sObject → RuleBinding → Option Bool
  applies o rb =
      if o.namespace == ""
      then some (includes (lookup include_cluster_objects o.labels))
      else applies_to_pod o rb.namespace_selector (env.label_selector_as_selector rb.pod_selector)

  abbrev pub add_name : RuleBinding → Option Bool → Option (List String) → Option (List String)
  add_name rb none others = none
  add_name rb (some b) none = none
  add_name rb (some true) (some names) = some (name_of rb ∷ names)
  add_name rb (some false) (some names) = some names

  -- A panic of any turn is a panic of the loop.
  unfoldable pub rb_names : K8sObject → List RuleBinding → Option (List String)
  rb_names o [] = some []
  rb_names o (rb ∷ rest) = add_name rb (applies o rb) (rb_names o rest)

  unfoldable pub rules_of_names : Dict (List Rule) → List String → List Rule
  rules_of_names rules [] = []
  rules_of_names rules (n ∷ rest) =
      let others = rules_of_names rules rest in
      elim (lookup n rules) [ none ↦ others | some rs ↦ rs ++ others ]

  -- The rules, or `none` for a panic.
  unfoldable pub list_rules_for_object : K8sObject → RbCache → Option (List Rule)
  list_rules_for_object o c = elim (rb_names o (values c.rb_name_to_rb)) [
    | none ↦ none
    | some names ↦ some (rules_of_names c.rb_name_to_rules names)
  ]
