-- ===== src/Admission/Binding/Listing.antt =====
-- The cache of rule bindings as a function of what the watcher told it, and the rules that are
-- listed for an object.
pub mod History
use kontroller.Base.{
  String, ◌≡◌, ◌↔◌, refl, Bool, true, false, Option, none, some, List, [], ◌∷◌, ◌++◌, ◌==◌, arith,
  if◌then◌else◌, Memᴰ, Bool-cases, Option-cases, inl, inr, ◌⊎◌, eq_iff, Result, ok, err, ◌≢◌,
  mem-cons-cases, sym,
}
use kontroller.Base.Dict.{
  Dict, lookup, insert, remove, values, lookup-insert, lookup-remove, lookup-nil,
}
use mathlib.Core.List.Memᴰ as Mem
use kontroller.Admission.Rules.{Rule}
use kontroller.Admission.Binding.{
  RuleBinding, RbCache, BindingEnv, K8sObject, create_rules, name_of, applies, rb_names,
  rules_of_names, list_rules_for_object, add_rule_binding, delete_rule_binding,
  modified_rule_binding, Change, handle, add_name,
}

some_injective {ℓ} : {A : Type ℓ} {a b : A} → Option.some a ≡ some b → a ≡ b
some_injective h = cc

module _ (env : BindingEnv) where
  -- Every binding stands once, under its own name.
  abbrev pub Keyed : Dict RuleBinding → Type 0
  Keyed [] = Unit
  Keyed ((k, rb) ∷ m) = (k ≡ name_of env rb) × (lookup k m ≡ none) × Keyed m

  abbrev pub rules_of : Option RuleBinding → Option (List Rule)
  rules_of none = none
  rules_of (some rb) = some (create_rules rb.rules)

  -- The two maps of the cache agree: the rules are those made for the bindings.
  pub record IsConsistent (c : RbCache) : Type 0 where
    pub keyed : Keyed c.rb_name_to_rb
    pub rules : (k : String) → lookup k c.rb_name_to_rules ≡ rules_of (lookup k c.rb_name_to_rb)

  insert-Keyed :
      (rb : RuleBinding) (m : Dict RuleBinding) → Keyed m → Keyed (insert (name_of env rb) rb m)
  unfolding insert
  insert-Keyed rb [] h = (refl, lookup-nil (name_of env rb), tt)
  insert-Keyed rb ((k, old) ∷ m) h = elim (Bool-cases (k == name_of env rb)) [
    | inl y ↦ rw y (refl, ground (arith, h, eq_iff k (name_of env rb)), h.2)
    | inr n ↦ rw n (
      h.0,
      ground (
        arith,
        h,
        n,
        lookup-insert (name_of env rb) k rb m,
        eq_iff k (name_of env rb),
        eq_iff (name_of env rb) k,
      ),
      insert-Keyed rb m h.2,
    )
  ]

  remove-Keyed : (k : String) (m : Dict RuleBinding) → Keyed m → Keyed (remove k m)
  unfolding remove
  remove-Keyed k [] h = h
  remove-Keyed k ((j, rb) ∷ m) h = elim (Bool-cases (j == k)) [
    | inl y ↦ rw y (remove-Keyed k m h.2)
    | inr n ↦ rw n (h.0, ground (arith, h, lookup-remove k j m), remove-Keyed k m h.2)
  ]

  pub value_of_lookup :
      (m : Dict RuleBinding) (k : String) (rb : RuleBinding)
      → lookup k m ≡ some rb
      → Memᴰ rb (values m)
  unfolding lookup
  value_of_lookup [] k rb e = absurd cc
  value_of_lookup ((j, old) ∷ m) k rb e = elim (Bool-cases (j == k)) [
    | inl y ↦ Memᴰ.head (ground arith)
    | inr n ↦ Memᴰ.tail (value_of_lookup m k rb (ground arith))
  ]

  pub lookup_of_value :
      (m : Dict RuleBinding) (rb : RuleBinding)
      → Keyed m
      → Memᴰ rb (values m)
      → lookup (name_of env rb) m ≡ some rb
  unfolding lookup
  lookup_of_value [] rb h v = elim v [ ]
  lookup_of_value ((j, old) ∷ m) rb h v = elim (mem-cons-cases v) [
    | inl e ↦ ground (arith, e, h, eq_iff j (name_of env rb))
    | inr n ↦
        let ih = lookup_of_value m rb h.2 n in ground (arith, h, ih, eq_iff j (name_of env rb))
  ]

  add-IsConsistent :
      (rb : RuleBinding) (c : RbCache) → IsConsistent c → IsConsistent (add_rule_binding env rb c)
  unfolding add_rule_binding
  add-IsConsistent rb c h = record {
    keyed = insert-Keyed rb c.rb_name_to_rb h.keyed;
    rules = λ k. ground (
      arith,
      h.rules k,
      lookup-insert (name_of env rb) k rb c.rb_name_to_rb,
      lookup-insert (name_of env rb) k (create_rules rb.rules) c.rb_name_to_rules,
    );
  }

  delete-IsConsistent :
      (name : String) (c : RbCache) → IsConsistent c → IsConsistent (delete_rule_binding env name c)
  unfolding delete_rule_binding
  delete-IsConsistent name c h = record {
    keyed = remove-Keyed name c.rb_name_to_rb h.keyed;
    rules = λ k. ground (
      arith,
      h.rules k,
      lookup-remove name k c.rb_name_to_rb,
      lookup-remove name k c.rb_name_to_rules,
    );
  }

  -- Every change that the watcher reports keeps the two maps of the cache in agreement.
  pub handle-IsConsistent :
      (x : Change env) (c : RbCache) → IsConsistent c → IsConsistent (handle env x c)
  unfolding handle modified_rule_binding
  handle-IsConsistent (Change.add_handler (err _)) c h = h
  handle-IsConsistent (Change.add_handler (ok rb)) c h = add-IsConsistent rb c h
  handle-IsConsistent (Change.modify_handler (err _)) c h = h
  handle-IsConsistent (Change.modify_handler (ok rb)) c h =
      add-IsConsistent rb (delete_rule_binding env (name_of env rb) c)
        (delete-IsConsistent (name_of env rb) c h)
  handle-IsConsistent (Change.delete_handler ns name) c h =
      delete-IsConsistent (env.unique_name ns name) c h

  -- Names that a binding adds are those of the others and its own.
  add_name-cases :
      (rb : RuleBinding) (b : Option Bool) (others : Option (List String)) (names : List String)
      → add_name env rb b others ≡ some names
      → (rest : List String) × (others ≡ some rest)
        × (((b ≡ some true) × (names ≡ name_of env rb ∷ rest))
            ⊎ ((b ≡ some false) × (names ≡ rest)))
  add_name-cases rb none others names h = absurd cc
  add_name-cases rb (some true) none names h = absurd cc
  add_name-cases rb (some false) none names h = absurd cc
  add_name-cases rb (some true) (some rest) names h =
      (rest, refl, inl (refl, sym (some_injective h)))
  add_name-cases rb (some false) (some rest) names h =
      (rest, refl, inr (refl, sym (some_injective h)))

  abbrev InNames : K8sObject → List RuleBinding → String → Type 0
  InNames o rbs n =
      (rb : RuleBinding) × Memᴰ rb rbs × (applies env o rb ≡ some true) × (n ≡ name_of env rb)

  mem-rb_names :
      (o : K8sObject) (rbs : List RuleBinding) (names : List String) (n : String)
      → rb_names env o rbs ≡ some names
      → Memᴰ n names ↔ InNames o rbs n
  unfolding rb_names
  mem-rb_names o [] names n h =
      rw (← some_injective h) ((λ m. elim m [ ], λ (_, m, _, _). elim m [ ]))
  mem-rb_names o (x ∷ rest) names n h =
      let (others, g, split) = add_name-cases x (applies env o x) (rb_names env o rest) names h in
      let ih = mem-rb_names o rest others n g in
      elim split [
        | inl (y, same) ↦ rw same (
          λ m. elim (mem-cons-cases m) [
            | inl e ↦ (x, Memᴰ.head refl, y, e)
            | inr k ↦ let (rb, a, b, c) = ih.0 k in (rb, Memᴰ.tail a, b, c)
          ],
          λ (rb, m, a, e). elim (mem-cons-cases m) [
            | inl s ↦ Memᴰ.head (cc (e, s))
            | inr k ↦ Memᴰ.tail (ih.1 (rb, k, a, e))
          ],
        )
        | inr (no_match, same) ↦ rw same (
          λ m. let (rb, a, b, c) = ih.0 m in (rb, Memᴰ.tail a, b, c),
          λ (rb, m, a, e). elim (mem-cons-cases m) [
            | inl s ↦ absurd (cc (rw s at a, no_match))
            | inr k ↦ ih.1 (rb, k, a, e)
          ],
        )
      ]

  add_name-some :
      (rb : RuleBinding) (b : Bool) (names : List String)
      → (all : List String) × (add_name env rb (some b) (some names) ≡ some all)
  add_name-some rb true names = (name_of env rb ∷ names, refl)
  add_name-some rb false names = (names, refl)

  add_name-none : (rb : RuleBinding) (b : Bool) → add_name env rb (some b) none ≡ none
  add_name-none rb true = refl
  add_name-none rb false = refl

  abbrev pub Panics : K8sObject → List RuleBinding → Type 0
  Panics o rbs = (rb : RuleBinding) × Memᴰ rb rbs × (applies env o rb ≡ none)

  -- The loop panics exactly if a turn of it does.
  pub rb_names-Panics :
      (o : K8sObject) (rbs : List RuleBinding)
      → ((rb_names env o rbs ≡ none) × Panics o rbs)
        ⊎ ((names : List String) × (rb_names env o rbs ≡ some names) × ¬ Panics o rbs)
  unfolding rb_names
  rb_names-Panics o [] = inr ([], refl, λ (_, m, _). elim m [ ])
  rb_names-Panics o (x ∷ rest) = elim (Option-cases (applies env o x)) [
    | inl p ↦ inl (rw (rb_names, p) refl, (x, Memᴰ.head refl, p))
    | inr (b, e) ↦ elim (rb_names-Panics o rest) [
      | inl (n, (rb, m, p)) ↦ inl (rw (rb_names, e, n) (add_name-none x b), (rb, Memᴰ.tail m, p))
      | inr (names, n, calm) ↦
          let (all, same) = add_name-some x b names in
          inr (
            all,
            rw (rb_names, e, n) same,
            λ (rb, m, p). elim (mem-cons-cases m) [
              | inl s ↦ absurd (cc (rw s at p, e))
              | inr k ↦ calm (rb, k, p)
            ],
          )
    ]
  ]

  mem-rules_of_names :
      (rules : Dict (List Rule)) (names : List String) (r : Rule)
      → Memᴰ r (rules_of_names env rules names)
        ↔ ((n : String) × (rs : List Rule) × Memᴰ n names × (lookup n rules ≡ some rs) × Memᴰ r rs)
  unfolding rules_of_names
  mem-rules_of_names rules [] r = (λ m. elim m [ ], λ (_, _, m, _, _). elim m [ ])
  mem-rules_of_names rules (x ∷ rest) r =
      let ih = mem-rules_of_names rules rest r in
      elim (Option-cases (lookup x rules)) [
        | inl e ↦
            rw (rules_of_names, e)
              (
                λ m. let (n, rs, a, b, c) = ih.0 m in (n, rs, Memᴰ.tail a, b, c),
                λ (n, rs, m, b, c). elim (mem-cons-cases m) [
                  | inl s ↦ absurd (cc (rw s at b, e))
                  | inr k ↦ ih.1 (n, rs, k, b, c)
                ],
              )
        | inr (found, e) ↦
            rw (rules_of_names, e)
              (
                λ m. elim (Mem.append_cases found m) [
                  | inl k ↦ (x, found, Memᴰ.head refl, e, k)
                  | inr k ↦ let (n, rs, a, b, c) = ih.0 k in (n, rs, Memᴰ.tail a, b, c)
                ],
                λ (n, rs, m, b, c). elim (mem-cons-cases m) [
                  | inl s ↦
                      let same : rs ≡ found = ground (arith, e, b, s) in
                      Mem.append_left (rules_of_names env rules rest) (rw same at c)
                  | inr k ↦ Mem.append_right found (ih.1 (n, rs, k, b, c))
                ],
              )
      ]

  -- In a consistent cache the rules listed for an object are exactly those made for the bindings
  -- that the cache holds and that apply to the object.
  pub list_rules_for_object_iff :
      (o : K8sObject) (c : RbCache) (r : Rule) (names : List String)
      → IsConsistent c
      → rb_names env o (values c.rb_name_to_rb) ≡ some names
      → Memᴰ r (rules_of_names env c.rb_name_to_rules names) ↔ (
          (rb : RuleBinding) × (lookup (name_of env rb) c.rb_name_to_rb ≡ some rb)
          × (applies env o rb ≡ some true)
          × Memᴰ r (create_rules rb.rules))
  list_rules_for_object_iff o c r names h g =
      let of_names = mem-rules_of_names c.rb_name_to_rules names r in
      (
        λ m.
            let (n, rs, a, b, k) = of_names.0 m in
            let (rb, v, y, e) = (mem-rb_names o (values c.rb_name_to_rb) names n g).0 a in
            let f = lookup_of_value c.rb_name_to_rb rb h.keyed v in
            let same : rs ≡ create_rules rb.rules = ground (arith, b, e, f, h.rules n) in
            (rb, f, y, rw same at k),
        λ (rb, f, y, k). of_names.1 (
          name_of env rb,
          create_rules rb.rules,
          (mem-rb_names o (values c.rb_name_to_rb) names (name_of env rb) g).1
              (rb, value_of_lookup c.rb_name_to_rb (name_of env rb) rb f, y, refl),
          ground (arith, f, h.rules (name_of env rb)),
          k,
        ),
      )
