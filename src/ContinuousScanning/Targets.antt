-- ===== src/ContinuousScanning/Targets.antt =====
-- continuousscanning/loader.go: the kinds of resources that the matching rules name. Reading and
-- decoding the rules is the fetcher, a parameter: `none` is the nil pointer that it may return.
use kontroller.Base.{
  String, ◌≡◌, ◌↔◌, refl, Option, none, some, List, [], ◌∷◌, ◌++◌, Memᴰ, mem-cons-cases, inl, inr,
  arith,
}
use mathlib.Core.List.Memᴰ as Mem

pub record ApiResourceMatch : Type 0 where
  pub groups : List String
  pub versions : List String
  pub resources : List String

pub record MatchingRules : Type 0 where
  pub api_resources : List ApiResourceMatch
  pub namespaces : List String

pub record GroupVersionResource : Type 0 where
  pub group : String
  pub version : String
  pub resource : String

-- the innermost loop, over the resources
of_resources : String → String → List String → List GroupVersionResource
of_resources g v [] = []
of_resources g v (r ∷ rest) =
    record { group = g; version = v; resource = r } ∷ of_resources g v rest

-- the loop over the versions
of_versions : String → List String → List String → List GroupVersionResource
unfolding of_resources
of_versions g [] rs = []
of_versions g (v ∷ rest) rs = of_resources g v rs ++ of_versions g rest rs

-- the loop over the groups
of_groups : List String → List String → List String → List GroupVersionResource
unfolding of_versions
of_groups [] vs rs = []
of_groups (g ∷ rest) vs rs = of_versions g vs rs ++ of_groups rest vs rs

unfoldable pub match_rule_to_gvr : ApiResourceMatch → List GroupVersionResource
unfolding of_groups
match_rule_to_gvr m = of_groups m.groups m.versions m.resources

unfoldable pub gvrs_of_rules : List ApiResourceMatch → List GroupVersionResource
gvrs_of_rules [] = []
gvrs_of_rules (m ∷ rest) = match_rule_to_gvr m ++ gvrs_of_rules rest

-- `LoadGVRs`; without rules the nil pointer is read, which panics: `none`.
unfoldable pub load_gvrs : Option MatchingRules → Option (List GroupVersionResource)
load_gvrs none = none
load_gvrs (some rules) = some (gvrs_of_rules rules.api_resources)

-- A rule names each combination of its groups, versions and resources.
pub record IsMatch (m : ApiResourceMatch) (k : GroupVersionResource) : Type 0 where
  pub group : Memᴰ k.group m.groups
  pub version : Memᴰ k.version m.versions
  pub resource : Memᴰ k.resource m.resources

mem-of_resources :
    (g v : String) (rs : List String) (k : GroupVersionResource)
    → Memᴰ k (of_resources g v rs) ↔ ((k.group ≡ g) × (k.version ≡ v) × Memᴰ k.resource rs)
unfolding of_resources
mem-of_resources g v [] k = (λ m. elim m [ ], λ (_, _, m). elim m [ ])
mem-of_resources g v (r ∷ rest) k =
    let ih = mem-of_resources g v rest k in
    (
      λ m. elim (mem-cons-cases m) [
        | inl e ↦ (cc e, cc e, Memᴰ.head (cc e))
        | inr n ↦ let (a, b, c) = ih.0 n in (a, b, Memᴰ.tail c)
      ],
      λ (a, b, c). elim (mem-cons-cases c) [
        | inl e ↦ Memᴰ.head (ground (arith, a, b, e))
        | inr n ↦ Memᴰ.tail (ih.1 (a, b, n))
      ],
    )

mem-of_versions :
    (g : String) (vs rs : List String) (k : GroupVersionResource)
    → Memᴰ k (of_versions g vs rs) ↔ ((k.group ≡ g) × Memᴰ k.version vs × Memᴰ k.resource rs)
unfolding of_versions
mem-of_versions g [] rs k = (λ m. elim m [ ], λ (_, m, _). elim m [ ])
mem-of_versions g (v ∷ rest) rs k =
    let ih = mem-of_versions g rest rs k in
    let here = mem-of_resources g v rs k in
    (
      λ m. elim (Mem.append_cases (of_resources g v rs) m) [
        | inl n ↦ let (a, b, c) = here.0 n in (a, Memᴰ.head b, c)
        | inr n ↦ let (a, b, c) = ih.0 n in (a, Memᴰ.tail b, c)
      ],
      λ (a, b, c). elim (mem-cons-cases b) [
        | inl e ↦ Mem.append_left (of_versions g rest rs) (here.1 (a, e, c))
        | inr n ↦ Mem.append_right (of_resources g v rs) (ih.1 (a, n, c))
      ],
    )

mem-of_groups :
    (gs vs rs : List String) (k : GroupVersionResource)
    → Memᴰ k (of_groups gs vs rs) ↔ (Memᴰ k.group gs × Memᴰ k.version vs × Memᴰ k.resource rs)
unfolding of_groups
mem-of_groups [] vs rs k = (λ m. elim m [ ], λ (m, _, _). elim m [ ])
mem-of_groups (g ∷ rest) vs rs k =
    let ih = mem-of_groups rest vs rs k in
    let here = mem-of_versions g vs rs k in
    (
      λ m. elim (Mem.append_cases (of_versions g vs rs) m) [
        | inl n ↦ let (a, b, c) = here.0 n in (Memᴰ.head a, b, c)
        | inr n ↦ let (a, b, c) = ih.0 n in (Memᴰ.tail a, b, c)
      ],
      λ (a, b, c). elim (mem-cons-cases a) [
        | inl e ↦ Mem.append_left (of_groups rest vs rs) (here.1 (e, b, c))
        | inr n ↦ Mem.append_right (of_versions g vs rs) (ih.1 (n, b, c))
      ],
    )

-- The kinds that are loaded are exactly those that some rule names.
pub gvrs_of_rules_iff :
    (rules : List ApiResourceMatch) (k : GroupVersionResource)
    → Memᴰ k (gvrs_of_rules rules) ↔ ((m : ApiResourceMatch) × Memᴰ m rules × IsMatch m k)
unfolding gvrs_of_rules match_rule_to_gvr
gvrs_of_rules_iff [] k = (λ m. elim m [ ], λ (_, m, _). elim m [ ])
gvrs_of_rules_iff (r ∷ rest) k =
    let ih = gvrs_of_rules_iff rest k in
    let here = mem-of_groups r.groups r.versions r.resources k in
    (
      λ m. elim (Mem.append_cases (match_rule_to_gvr r) m) [
        | inl n ↦
            let (a, b, c) = here.0 n in
            (r, Memᴰ.head refl, record { group = a; version = b; resource = c })
        | inr n ↦ let (a, b, c) = ih.0 n in (a, Memᴰ.tail b, c)
      ],
      λ (m, n, v). elim (mem-cons-cases n) [
        | inl e ↦
            let w : IsMatch r k = rw (← e) v in
            Mem.append_left (gvrs_of_rules rest) (here.1 (w.group, w.version, w.resource))
        | inr o ↦ Mem.append_right (match_rule_to_gvr r) (ih.1 (m, o, v))
      ],
    )
