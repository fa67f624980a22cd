-- ===== src/Admission/Rules.antt =====
-- admission/rules/v1: the descriptors of the rules, and the creator that makes rules from them
-- (rule.go, factory.go, r2000_exec_to_pod.go, r2001_portforward.go).
use kontroller.Base.{
  ℕ, String, ◌≡◌, ◌↔◌, refl, Bool, true, false, ◌||◌, Option, none, some, List, [], ◌∷◌, ◌==◌,
  arith, contains, if◌then◌else◌, Memᴰ, contains_iff, Bool-cases, inl, inr,
}
use kontroller.Base.Dict.{Dict, insert}

abbrev pub rule_priority_low : ℕ
rule_priority_low = 1

-- `RuleCreationFunc` of a descriptor makes the rule of that kind.
pub data RuleKind : Type 0 where
  exec_to_pod port_forward : RuleKind

pub record RuleDescriptor : Type 0 where
  pub id : String
  pub name : String
  pub description : String
  pub priority : ℕ
  pub tags : List String
  pub rule_kind : RuleKind

abbrev pub r2000_exec_to_pod_rule_descriptor : RuleDescriptor
r2000_exec_to_pod_rule_descriptor = record {
  id = "R2000";
  name = "Exec to pod";
  description = "Detecting exec to pod";
  priority = rule_priority_low;
  tags = "exec" ∷ [];
  rule_kind = exec_to_pod;
}

abbrev pub r2001_port_forward_rule_descriptor : RuleDescriptor
r2001_port_forward_rule_descriptor = record {
  id = "R2001";
  name = "Port forward";
  description = "Detecting port forward";
  priority = rule_priority_low;
  tags = "portforward" ∷ [];
  rule_kind = port_forward;
}

-- `NewRuleCreator`
abbrev pub rule_descriptions : List RuleDescriptor
rule_descriptions = r2000_exec_to_pod_rule_descriptor ∷ r2001_port_forward_rule_descriptor ∷ []

-- The two loops of `HasTags`.
unfoldable pub has_tags : RuleDescriptor → List String → Bool
has_tags d [] = false
has_tags d (tag ∷ rest) = contains d.tags tag || has_tags d rest

-- A descriptor has the tags if it shares one with them.
pub has_tags_iff :
    (d : RuleDescriptor) (tags : List String)
    → (has_tags d tags ≡ true) ↔ ((t : String) × Memᴰ t tags × Memᴰ t d.tags)
unfolding has_tags
has_tags_iff d [] = (λ h. absurd cc, λ (t, m, _). elim m [ ])
has_tags_iff d (tag ∷ rest) =
    let ih = has_tags_iff d rest in
    (
      λ h. elim (Bool-cases (contains d.tags tag)) [
        | inl y ↦ (tag, Memᴰ.head refl, (contains_iff d.tags tag).0 y)
        | inr n ↦ let (t, m, k) = ih.0 (ground arith) in (t, Memᴰ.tail m, k)
      ],
      λ (t, m, k). elim m [
        | Memᴰ.head e ↦ let y = (contains_iff d.tags t).1 k in ground (arith, e, y)
        | Memᴰ.tail n ↦ let y = ih.1 (t, n, k) in ground (arith, y)
      ],
    )

-- A value of any type, which is only stored: its JSON text.
abbrev pub Value : Type 0
Value = String

pub record Rule : Type 0 where
  pub kind : RuleKind
  pub parameters : Dict Value

abbrev rule_of : RuleDescriptor → Rule
rule_of d = record { kind = d.rule_kind; parameters = [] }

unfoldable pub find_by_id : List RuleDescriptor → String → Option Rule
find_by_id [] id = none
find_by_id (d ∷ rest) id = if d.id == id then some (rule_of d) else find_by_id rest id

unfoldable pub find_by_name : List RuleDescriptor → String → Option Rule
find_by_name [] name = none
find_by_name (d ∷ rest) name = if d.name == name then some (rule_of d) else find_by_name rest name

abbrev pub create_rule_by_id : String → Option Rule
create_rule_by_id id = find_by_id rule_descriptions id

abbrev pub create_rule_by_name : String → Option Rule
create_rule_by_name name = find_by_name rule_descriptions name

unfoldable pub rules_with_tags : List RuleDescriptor → List String → List Rule
rules_with_tags [] tags = []
rules_with_tags (d ∷ rest) tags =
    let others = rules_with_tags rest tags in if has_tags d tags then rule_of d ∷ others else others

abbrev pub create_rules_by_tags : List String → List Rule
create_rules_by_tags tags = rules_with_tags rule_descriptions tags

-- `SetParameters`
unfoldable pub set_all : Dict Value → Dict Value → Dict Value
set_all [] m = m
set_all ((k, v) ∷ rest) m = set_all rest (insert k v m)

unfoldable pub set_parameters : Dict Value → Rule → Rule
set_parameters ps r = record r { parameters = set_all ps r.parameters }
