-- ===== src/Config/Laws.antt =====
-- Which namespaces are watched, and which configurations are accepted (config/config.go).
use kontroller.Base.{
  String, ◌≡◌, ◌≢◌, ◌↔◌, inl, inr, true, false, [], Memᴰ, contains_iff, not-contains_iff,
  nil-or-not, eq_iff, arith, ok, List,
}
use kontroller.Config.{OperatorConfig, skip_namespace, validate_config}

-- What the two lists mean: the include list if it is not empty, else all that is not excluded.
pub record IsWatched (include exclude : List String) (ns : String) : Type 0 where
  pub included : include ≢ [] → Memᴰ ns include
  pub not_excluded : include ≡ [] → ¬ Memᴰ ns exclude

-- A namespace is skipped exactly if the two lists of the configuration do not watch it.
pub skip_namespace_iff :
    (c : OperatorConfig) (ns : String)
    → (skip_namespace c ns ≡ false)
      ↔ IsWatched c.service_config.include_namespaces c.service_config.exclude_namespaces ns
unfolding skip_namespace
skip_namespace_iff c ns = (
  λ h. record {
    included = λ n. (contains_iff include ns).0 (ground arith);
    not_excluded = λ e m. ground (arith, (contains_iff exclude ns).1 m);
  },
  λ w. elim (nil-or-not include) [
    | inl e ↦ ground (arith, (not-contains_iff exclude ns).1 (w.not_excluded e))
    | inr n ↦ ground (arith, (contains_iff include ns).1 (w.included n))
  ],
)
  where
    include : List String
    include = c.service_config.include_namespaces

    exclude : List String
    exclude = c.service_config.exclude_namespaces

-- A configuration is accepted exactly if it names its cluster, and an account too wherever the
-- services are discovered.
pub validate_config_iff :
    (c : OperatorConfig)
    → (validate_config c ≡ ok tt) ↔ (
        (c.cluster_config.cluster_name ≢ "")
        × (c.components.components.service_discovery.enabled ≡ true → c.account_id ≢ ""))
unfolding validate_config
validate_config_iff c = (
  λ h. (
    λ e. ground (arith, eq_iff c.cluster_config.cluster_name ""),
    λ d e. ground (arith, eq_iff c.account_id ""),
  ),
  λ (n, a). ground (arith, eq_iff c.cluster_config.cluster_name "", eq_iff c.account_id ""),
)
