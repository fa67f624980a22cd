-- ===== src/Watcher/Registry/Contracts.antt =====
-- watcher/registryhandler.go: what each goroutine of `upsertRegistry` relies on, changes and
-- ensures. Each owns some kinds of objects: nothing else of the group writes those.
use kontroller.Base.{
  ℕ, suc, ◌≤◌, String, ◌≡◌, refl, ◌∙◌, Bool, true, false, ◌&&◌, Option, none, some, arith, ◌==◌,
  Option-cases, inl, inr,
}
use kontroller.Cluster.{Api, Kind, Held, Verb, same_kind}
use kontroller.Cluster.Goroutines.{Goroutine, Ensures, Confined, Within, Succeeds}
use kontroller.Cluster.Goroutines.Contracts.{Contract}
use kontroller.Watcher.Registry.{upsert_resource, unless_failed}
use kontroller.Watcher.Registry.Objects.{RegistryEnv}

pub same_kind-owned :
    (own : Kind → Bool) (k other : Kind) (b : Bool)
    → own k ≡ true
    → (own other && b) ≡ false
    → (same_kind k other && b) ≡ false
same_kind-owned own Kind.cron_jobs Kind.cron_jobs b h e = ground arith
same_kind-owned own Kind.config_maps Kind.config_maps b h e = ground arith
same_kind-owned own Kind.secrets Kind.secrets b h e = ground arith
same_kind-owned own Kind.jobs Kind.jobs b h e = ground arith
same_kind-owned own k other b h e = refl

module _ {S : Type 0} (api : Api S) (own : Kind → Bool) where
  -- The owned objects stay as they are.
  abbrev pub Unchanged : S → S → Type 0
  Unchanged s u = (k : Kind) → own k ≡ true → (n : String) → api.held k n u ≡ api.held k n s

  -- At most the owned objects of one name change.
  abbrev pub Changed : String → S → S → Type 0
  Changed name s u =
      (k : Kind) (n : String) → (own k && name == n) ≡ false → api.held k n u ≡ api.held k n s

  abbrev pub contract : String → (S → Type 0) → Contract S
  contract name Goal = record {
    Rely = Unchanged;
    Change = Changed name;
    Goal = Goal;
    rely_refl = λ s k h n. refl;
    rely_trans = λ s t u p q k h n. q k h n ∙ p k h n;
    change_refl = λ s k n h. refl;
  }

  module _ (env : RegistryEnv) (Goal : S → Type 0) (k : Kind) (a : Held k) (name : String)
      (rest : Goroutine S) where
    answered-Ensures :
        (e : Option String) (s : S)
        → (e ≡ none → Ensures Unchanged Goal rest s)
        → Ensures Unchanged Goal (unless_failed e rest) s
    answered-Ensures none s h = h refl
    answered-Ensures (some e) s h = λ u r e0. absurd cc

    -- After a resource is applied, its goroutine goes on knowing that it is held.
    pub upsert_resource-Ensures :
        (Pre : S → Type 0)
        → ((s u : S) → Unchanged s u → Pre s → Pre u)
        → ((u : S)
            → Pre u
            → api.held k name (api.write Verb.apply k name a u).1 ≡ some a
            → Ensures Unchanged Goal rest (api.write Verb.apply k name a u).1)
        → (s : S) → Pre s
        → Ensures Unchanged Goal (upsert_resource api env k a name rest) s
    unfolding upsert_resource
    upsert_resource-Ensures Pre stable next s h = elim (Option-cases (env.unstructured k a)) [
      | inr (e, p) ↦ rw (p) (λ u r e0. absurd cc)
      | inl p ↦ rw (p) (λ u r.
          answered-Ensures (api.write Verb.apply k name a u).0 _
            (λ e0. next u (stable s u r h) (api.write-held Verb.apply k name a u e0)))
    ]

    answered-Confined :
        (e : Option String)
        → Confined (Changed name) rest
        → Confined (Changed name) (unless_failed e rest)
    answered-Confined none h = h
    answered-Confined (some e) h = tt

    pub upsert_resource-Confined :
        own k ≡ true
        → Confined (Changed name) rest
        → Confined (Changed name) (upsert_resource api env k a name rest)
    unfolding upsert_resource
    upsert_resource-Confined o h = elim (Option-cases (env.unstructured k a)) [
      | inr (e, p) ↦ rw (p) tt
      | inl p ↦ rw (p) (λ u. (
        λ other n f.
            api.write_others Verb.apply k name a u other n
              (same_kind-owned own k other (name == n) o f),
        answered-Confined (api.write Verb.apply k name a u).0 h,
      ))
    ]

module _ {S : Type 0} (api : Api S) (env : RegistryEnv) (k : Kind) (a : Held k) (name : String)
    (rest : Goroutine S) where
  answered-Within :
      (n : ℕ) (e : Option String) → 1 ≤ n → Within n rest → Within n (unless_failed e rest)
  answered-Within n none l h = h
  answered-Within n (some e) l h = l

  pub upsert_resource-Within :
      (n : ℕ) → 1 ≤ n → Within n rest → Within (suc n) (upsert_resource api env k a name rest)
  unfolding upsert_resource
  upsert_resource-Within n l h = elim (Option-cases (env.unstructured k a)) [
    | inr (e, p) ↦ rw p (ground arith)
    | inl p ↦ rw p (n, ground arith, λ u. answered-Within n (api.write Verb.apply k name a u).0 l h)
  ]

  -- A resource that can be converted and that the server takes is no error.
  pub upsert_resource-Succeeds :
      (Inv : S → Type 0)
      → env.unstructured k a ≡ none
      → ((u : S) → (api.write Verb.apply k name a u).0 ≡ none)
      → ((u : S) → Inv u → Inv (api.write Verb.apply k name a u).1)
      → Succeeds Inv rest
      → Succeeds Inv (upsert_resource api env k a name rest)
  unfolding upsert_resource
  upsert_resource-Succeeds Inv p q keep h = rw p (λ u i. (keep u i, rw (q u) h))
