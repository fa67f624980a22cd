-- ===== src/Watcher/Registry/Deleted.antt =====
-- watcher/registryhandler.go: what `deleteRegistry` leaves, and what it leaves behind.
use kontroller.Base.{
  String, ◌≡◌, ◌≢◌, refl, sym, ◌∙◌, Bool, true, false, ◌&&◌, not, none, some, List, arith, ◌==◌, ok,
  Result-cases, String-cases, inl, inr, ◌⊎◌, eq-false,
}
use kontroller.Cluster.{Api, Kind}
use kontroller.Cluster.Steps.{Prog, returned, failed, call, Holds, Holds-bind, ◌>>=◌, ◌>>◌, given}
use kontroller.Cluster.Effects.{
  Holds-call, answer-failed, IsInOrder, delete-cron_job-IsInOrder, delete-config_map-IsInOrder,
  delete-secret-IsInOrder,
}
use kontroller.Cluster.Goroutines.{Turn}
use kontroller.Watcher.Registry.{delete_registry, upserting}
use kontroller.Watcher.Registry.Objects.{Registry, RegistryEnv}
use kontroller.Watcher.Registry.Contracts.{same_kind-owned}
use kontroller.Watcher.Registry.Upserted.{upserting_others}

module _ {S : Type 0} (api : Api S) (env : RegistryEnv) where
  -- The three calls of a deletion.
  abbrev delete_all : String → Prog S (Unit {0})
  delete_all n =
      call (api.delete Kind.cron_jobs n)
      >> (call (api.delete Kind.secrets n) >> call (api.delete Kind.config_maps n))

  abbrev NoCronJob : String → S → Type 0
  NoCronJob n s = api.held Kind.cron_jobs n s ≡ none

  delete_all-IsInOrder :
      (n : String) → Holds (IsInOrder api) (λ _. Unit) (delete_all n) (λ _ _. Unit)
  delete_all-IsInOrder n =
      Holds-bind (IsInOrder api) (λ _. Unit) (λ _. NoCronJob n) (λ _ _. Unit)
        (call (api.delete Kind.cron_jobs n)) _
        (Holds-call (IsInOrder api) (λ _. Unit) (NoCronJob n) (api.delete Kind.cron_jobs n)
          (λ s b t. delete-cron_job-IsInOrder api n s b)
          (λ s b t e. api.delete-held Kind.cron_jobs n s e))
        (λ _.
          Holds-bind (IsInOrder api) (NoCronJob n) (λ _. NoCronJob n) (λ _ _. Unit)
            (call (api.delete Kind.secrets n)) _
            (Holds-call (IsInOrder api) (NoCronJob n) (NoCronJob n) (api.delete Kind.secrets n)
              (λ s b p. delete-secret-IsInOrder api n s b)
              (λ s b p e. api.delete_others Kind.secrets n s Kind.cron_jobs n refl ∙ p))
            (λ _.
              Holds-call (IsInOrder api) (NoCronJob n) (λ _. Unit) (api.delete Kind.config_maps n)
                (λ s b p. delete-config_map-IsInOrder api n s b p) (λ s b p e. tt)))

  delete_registry_lem :
      (body : String) (r : Registry) (s : S)
      → env.unmarshal_registry body ≡ ok r
      → delete_registry api env body s ≡ delete_all r.resource_name s
  unfolding delete_registry ◌>>=◌ given
  delete_registry_lem body r s p = rw p refl

  -- A deletion keeps the cluster in order, also where one of its calls fails: the cron job is deleted
  -- first and the config map last.
  pub delete_registry-IsInOrder :
      (body : String) (s : S) → IsInOrder api s → IsInOrder api (delete_registry api env body s).1
  unfolding delete_registry ◌>>=◌ given
  delete_registry-IsInOrder body s b = elim (Result-cases (env.unmarshal_registry body)) [
    | inr (e, p) ↦ rw p b
    | inl (r, p) ↦
        rw (delete_registry_lem body r s p) (delete_all-IsInOrder r.resource_name s b tt).0
  ]

  abbrev is_job : Kind → Bool
  is_job Kind.jobs = true
  is_job Kind.cron_jobs = false
  is_job Kind.secrets = false
  is_job Kind.config_maps = false

  -- What a registry of that name does not keep is as it was; its jobs are not kept.
  abbrev Elsewhere : String → S → S → Type 0
  Elsewhere n s u =
      (k : Kind) (m : String) → (not (is_job k) && n == m) ≡ false → api.held k m u ≡ api.held k m s

  delete-Elsewhere :
      (n : String) (k : Kind) (s u : S)
      → is_job k ≡ false
      → Elsewhere n s u
      → Elsewhere n s (api.delete k n u).1
  delete-Elsewhere n k s u j h other m f =
      api.delete_others k n u other m
        (same_kind-owned (λ k. not (is_job k)) k other (n == m) (ground (arith, j)) f)
      ∙ h other m f

  abbrev Gone : Kind → String → S → Type 0
  Gone k n s = api.held k n s ≡ none

  delete-call :
      (n : String) (s : S) (k : Kind) (Pre Post : S → Type 0)
      → is_job k ≡ false
      → ((u : S) → Pre u → api.held k n (api.delete k n u).1 ≡ none → Post (api.delete k n u).1)
      → Holds (Elsewhere n s) Pre (call (api.delete k n)) (λ _. Post)
  delete-call n s k Pre Post j ensure =
      Holds-call (Elsewhere n s) Pre Post (api.delete k n) (λ u h p. delete-Elsewhere n k s u j h)
        (λ u h p e. ensure u p (api.delete-held k n u e))

  abbrev TwoGone : String → S → Type 0
  TwoGone n u = Gone Kind.cron_jobs n u × Gone Kind.secrets n u

  abbrev AllGone : String → S → Type 0
  AllGone n u = Gone Kind.cron_jobs n u × Gone Kind.secrets n u × Gone Kind.config_maps n u

  delete_all-Gone :
      (n : String) (s : S) → Holds (Elsewhere n s) (λ _. Unit) (delete_all n) (λ _. AllGone n)
  delete_all-Gone n s =
      Holds-bind (Elsewhere n s) (λ _. Unit) (λ _. Gone Kind.cron_jobs n) (λ _. AllGone n)
        (call (api.delete Kind.cron_jobs n)) _
        (delete-call n s Kind.cron_jobs (λ _. Unit) (Gone Kind.cron_jobs n) refl (λ u p g. g))
        (λ _.
          Holds-bind (Elsewhere n s) (Gone Kind.cron_jobs n) (λ _. TwoGone n) (λ _. AllGone n)
            (call (api.delete Kind.secrets n)) _
            (delete-call n s Kind.secrets (Gone Kind.cron_jobs n) (TwoGone n) refl
              (λ u p g. (api.delete_others Kind.secrets n u Kind.cron_jobs n refl ∙ p, g)))
            (λ _. delete-call n s Kind.config_maps (TwoGone n) (AllGone n) refl (λ u p g. (
              api.delete_others Kind.config_maps n u Kind.cron_jobs n refl ∙ p.0,
              api.delete_others Kind.config_maps n u Kind.secrets n refl ∙ p.1,
              g,
            ))))

  -- A deletion that returns no error has removed the registry's cron job, secret and config map;
  -- and whatever it returns, it has touched nothing else, which includes the jobs of the registry.
  pub delete_registry-Gone :
      (body : String) (r : Registry) (s : S)
      → env.unmarshal_registry body ≡ ok r
      → let n = r.resource_name in
        let (end, u) = delete_registry api env body s in
        (end ≡ returned tt
          → Gone Kind.cron_jobs n u × Gone Kind.secrets n u × Gone Kind.config_maps n u)
        × Elsewhere n s u
  delete_registry-Gone body r s p =
      let (other, gone) = delete_all-Gone r.resource_name s s (λ k m f. refl) tt in
      rw (delete_registry_lem body r s p) (gone tt, other)

  deletion_stops :
      (n : String) (s : S) (e : String)
      → (api.delete Kind.cron_jobs n s).0 ≡ some e
      → delete_all n s ≡ (failed e, (api.delete Kind.cron_jobs n s).1)
  unfolding ◌>>=◌ call
  deletion_stops n s e h = rw (answer-failed (api.delete Kind.cron_jobs n s) e h) refl

  -- A registry without a cron job cannot be deleted: the deletion fails at the cron job, and the
  -- secret and the config map of the registry are held as before.
  pub unscheduled_is_kept :
      (body : String) (r : Registry) (s : S)
      → env.unmarshal_registry body ≡ ok r
      → Gone Kind.cron_jobs r.resource_name s
      → let (end, u) = delete_registry api env body s in
        ((e : String) × (end ≡ failed e))
        × (api.held Kind.secrets r.resource_name u ≡ api.held Kind.secrets r.resource_name s)
        × (api.held Kind.config_maps r.resource_name u
            ≡ api.held Kind.config_maps r.resource_name s)
  unscheduled_is_kept body r s p g =
      let (e, h) = api.delete_missing Kind.cron_jobs r.resource_name s g in
      rw (delete_registry_lem body r s p, deletion_stops r.resource_name s e h)
        (
          (e, refl),
          api.delete_others Kind.cron_jobs r.resource_name s Kind.secrets r.resource_name refl,
          api.delete_others Kind.cron_jobs r.resource_name s Kind.config_maps r.resource_name refl,
        )

  both_gone :
      (n : String) (k : Kind) (s u : S)
      → is_job k ≡ false
      → AllGone n s
      → AllGone n u
      → api.held k n s ≡ api.held k n u
  both_gone n Kind.cron_jobs s u j (p, _, _) (q, _, _) = p ∙ sym q
  both_gone n Kind.secrets s u j (_, p, _) (_, q, _) = p ∙ sym q
  both_gone n Kind.config_maps s u j (_, _, p) (_, _, q) = p ∙ sym q
  both_gone n Kind.jobs s u j p q = absurd cc

  -- A registry that is inserted or updated and then deleted leaves no trace but its jobs: if nothing
  -- was held of it before and the deletion returns no error, everything else is as it was, in
  -- whatever order the goroutines ran, and whatever failed of them.
  pub upsert_then_delete :
      (body : String) (r : Registry) (trigger_now : Bool) (turns : List Turn) (s : S)
      → env.unmarshal_registry body ≡ ok r
      → AllGone r.resource_name s
      → let u = (upserting api env trigger_now r turns s).store in
        (delete_registry api env body u).0 ≡ returned tt
        → (k : Kind) (n : String) → (is_job k ≡ false) ⊎ (r.resource_name ≢ n)
        → api.held k n (delete_registry api env body u).1 ≡ api.held k n s
  upsert_then_delete body r b ts s p fresh =
      let u = (upserting api env b r ts s).store in
      let (gone, other) = delete_registry-Gone body r u p in
      λ done k n apart. elim (String-cases r.resource_name n) [
        | inr ne ↦
            other k n (ground (arith, eq-false r.resource_name n ne))
            ∙ upserting_others api env r b ts s k n ne
        | inl e ↦ elim apart [
          | inr ne ↦ absurd (ne e)
          | inl j ↦ rw (← e) (both_gone r.resource_name k _ s j (gone done) fresh)
        ]
      ]
