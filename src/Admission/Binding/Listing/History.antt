-- ===== src/Admission/Binding/Listing/History.antt =====
-- The cache as it stands after a history of changes, against what the history says of each name.
use kontroller.Base.{
  String, ◌≡◌, ◌↔◌, refl, true, Option, none, some, List, [], ◌∷◌, ◌==◌, arith, if◌then◌else◌, Memᴰ,
  inl, inr, ok, err, ap, ◌∙◌,
}
use kontroller.Base.Dict.{lookup, values, lookup-insert, lookup-remove, lookup-nil}
use kontroller.Admission.Rules.{Rule}
use kontroller.Admission.Binding.{
  RuleBinding, RbCache, BindingEnv, K8sObject, create_rules, name_of, rb_names, rules_of_names,
  list_rules_for_object, add_rule_binding, delete_rule_binding, modified_rule_binding, Change,
  handle, handle_all,
}
use kontroller.Admission.Binding.Turns.{IsTurn, IsTurn-iff}
use kontroller.Admission.Binding.Listing.{
  IsConsistent, handle-IsConsistent, list_rules_for_object_iff, rb_names-Panics, lookup_of_value,
  value_of_lookup,
}

abbrev pub empty_cache : RbCache
empty_cache = record { rb_name_to_rb = []; rb_name_to_rules = [] }

module _ (env : BindingEnv) where
  -- The binding of a name after a change, given the one before: a change of another name, or one
  -- that cannot be converted, leaves it.
  abbrev after : Change env → String → Option RuleBinding → Option RuleBinding
  after (Change.add_handler (err _)) k before = before
  after (Change.add_handler (ok rb)) k before = if name_of env rb == k then some rb else before
  after (Change.modify_handler (err _)) k before = before
  after (Change.modify_handler (ok rb)) k before = if name_of env rb == k then some rb else before
  after (Change.delete_handler ns name) k before =
      if env.unique_name ns name == k then none else before

  -- The binding of a name after a history.
  abbrev pub bound : List (Change env) → String → Option RuleBinding → Option RuleBinding
  bound [] k before = before
  bound (x ∷ rest) k before = bound rest k (after x k before)

  lookup-handle :
      (x : Change env) (k : String) (c : RbCache)
      → lookup k (handle env x c).rb_name_to_rb ≡ after x k (lookup k c.rb_name_to_rb)
  unfolding handle add_rule_binding delete_rule_binding modified_rule_binding
  lookup-handle (Change.add_handler (err _)) k c = refl
  lookup-handle (Change.add_handler (ok rb)) k c =
      lookup-insert (name_of env rb) k rb c.rb_name_to_rb
  lookup-handle (Change.modify_handler (err _)) k c = refl
  lookup-handle (Change.modify_handler (ok rb)) k c = ground (
    arith,
    lookup-insert (name_of env rb) k rb (delete_rule_binding env (name_of env rb) c).rb_name_to_rb,
    lookup-remove (name_of env rb) k c.rb_name_to_rb,
  )
  lookup-handle (Change.delete_handler ns name) k c =
      lookup-remove (env.unique_name ns name) k c.rb_name_to_rb

  lookup-handle_all :
      (xs : List (Change env)) (k : String) (c : RbCache)
      → lookup k (handle_all env xs c).rb_name_to_rb ≡ bound xs k (lookup k c.rb_name_to_rb)
  unfolding handle_all
  lookup-handle_all [] k c = refl
  lookup-handle_all (x ∷ rest) k c =
      rw (lookup-handle_all rest k (handle env x c), lookup-handle x k c) refl

  lookup-history :
      (xs : List (Change env)) (k : String)
      → lookup k (handle_all env xs empty_cache).rb_name_to_rb ≡ bound xs k none
  lookup-history xs k = lookup-handle_all xs k empty_cache ∙ ap (bound xs k) (lookup-nil k)

  all-IsConsistent :
      (xs : List (Change env)) (c : RbCache)
      → IsConsistent env c
      → IsConsistent env (handle_all env xs c)
  unfolding handle_all
  all-IsConsistent [] c h = h
  all-IsConsistent (x ∷ rest) c h =
      all-IsConsistent rest (handle env x c) (handle-IsConsistent env x c h)

  empty-IsConsistent : IsConsistent env empty_cache
  unfolding lookup
  empty-IsConsistent = record { keyed = tt; rules = λ k. refl }

  -- The binding that a history leaves under its own name.
  abbrev pub IsBound : List (Change env) → RuleBinding → Type 0
  IsBound xs rb = bound xs (name_of env rb) none ≡ some rb

  -- What is listed for an object after a history; `none` is a panic.
  pub data IsListed (xs : List (Change env)) (o : K8sObject) : Option (List Rule) → Type 0 where
    panics : (rb : RuleBinding) → IsBound xs rb → IsTurn env o rb none → IsListed xs o none
    lists :
        (rules : List Rule)
        → ((rb : RuleBinding) → IsBound xs rb → ¬ IsTurn env o rb none)
        → ((r : Rule)
            → Memᴰ r rules ↔ (
                (rb : RuleBinding) × IsBound xs rb
                × IsTurn env o rb (some true)
                × Memᴰ r (create_rules rb.rules)))
        → IsListed xs o (some rules)

  -- A binding is bound exactly if the cache holds it.
  IsBound-iff :
      (xs : List (Change env)) (rb : RuleBinding)
      → Memᴰ rb (values (handle_all env xs empty_cache).rb_name_to_rb) ↔ IsBound xs rb
  IsBound-iff xs rb =
      let c = handle_all env xs empty_cache in
      let h = (all-IsConsistent xs empty_cache empty-IsConsistent).keyed in
      (
        λ m. cc (lookup_of_value env c.rb_name_to_rb rb h m, lookup-history xs (name_of env rb)),
        λ b.
            value_of_lookup env c.rb_name_to_rb (name_of env rb) rb
              (cc (b, lookup-history xs (name_of env rb))),
      )

  mem_listed :
      (xs : List (Change env)) (o : K8sObject) (r : Rule) (names : List String)
      → let c = handle_all env xs empty_cache in
        rb_names env o (values c.rb_name_to_rb) ≡ some names
        → Memᴰ r (rules_of_names env c.rb_name_to_rules names) ↔ (
            (rb : RuleBinding) × IsBound xs rb
            × IsTurn env o rb (some true)
            × Memᴰ r (create_rules rb.rules))
  mem_listed xs o r names g =
      let c = handle_all env xs empty_cache in
      let listing =
        list_rules_for_object_iff env o c r names
          (all-IsConsistent xs empty_cache empty-IsConsistent) g in
      (
        λ m.
            let (rb, f, y, k) = listing.0 m in
            (
              rb,
              cc (f, lookup-history xs (name_of env rb)),
              (IsTurn-iff env o rb (some true)).0 y,
              k,
            ),
        λ (rb, f, t, k). listing.1 (
          rb,
          cc (f, lookup-history xs (name_of env rb)),
          (IsTurn-iff env o rb (some true)).1 t,
          k,
        ),
      )

  -- After any history of changes, the listing for an object panics exactly if the history leaves some
  -- binding bound to its name whose turn panics, by a selector that is not valid. Else the rules that
  -- are listed are exactly those made for the bindings that the history leaves bound to their name and
  -- that apply to the object, by the labels and the namespace of the object.
  pub handle_all-IsListed :
      (xs : List (Change env)) (o : K8sObject)
      → IsListed xs o (list_rules_for_object env o (handle_all env xs empty_cache))
  unfolding list_rules_for_object
  handle_all-IsListed xs o =
      let c = handle_all env xs empty_cache in
      elim (rb_names-Panics env o (values c.rb_name_to_rb)) [
        | inl (p, (rb, m, a)) ↦
            rw (list_rules_for_object, p)
              (panics rb ((IsBound-iff xs rb).0 m) ((IsTurn-iff env o rb none).0 a))
        | inr (names, g, calm) ↦
            rw (list_rules_for_object, g)
              (lists (rules_of_names env c.rb_name_to_rules names)
                (λ rb b t. calm (rb, (IsBound-iff xs rb).1 b, (IsTurn-iff env o rb none).1 t))
                (λ r. mem_listed xs o r names g))
      ]
