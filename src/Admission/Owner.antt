-- ===== src/Admission/Owner.antt =====
-- admission/rules/v1/helpers.go: the workload that owns a pod, and the container that a request to
-- execute a command names. The Kubernetes API is the environment.
use kontroller.Base.{
  String, ◌≡◌, ◌++◌ as append, All, not-contains_iff, refl, ◌||◌, Option, none, some, List, [], ◌∷◌,
  ◌==◌, arith, if◌then◌else◌, Result, ok, err, Bool-cases, inl, inr, ◌⊎◌, eq_iff, Memᴰ, ◌∙◌, ap,
  sym,
}
use mathlib.Core.Path.{subst}
use Prim.Native.String.{◌++◌}
use kontroller.Utils.Types.{Pod, OwnerReference}

-- The owner references of a replica set and of a job, by namespace and name, and a pod.
pub record ClusterApi : Type 0 where
  pub replica_set : String → String → Result (List OwnerReference)
  pub job : String → String → Result (List OwnerReference)
  pub pod : String → String → Result Pod

pub record Owner : Type 0 where
  pub kind : String
  pub name : String
  pub namespace : String

pub record Details : Type 0 where
  pub owner : Owner
  pub node_name : String

-- The first owner, if it is of the kind asked for.
abbrev first_of_kind : String → Result (List OwnerReference) → Option OwnerReference
first_of_kind kind (err _) = none
first_of_kind kind (ok []) = none
first_of_kind kind (ok (o ∷ _)) = if o.kind == kind then some o else none

-- `resolveReplicaSet` and `resolveJob`, which differ in the two kinds and in what is read.
abbrev resolve : String → String → OwnerReference → String → Result (List OwnerReference) → Owner
resolve parent kind o namespace parents = elim (first_of_kind parent parents) [
  | some p ↦ record { kind = parent; name = p.name; namespace = namespace }
  | none ↦ record { kind = kind; name = o.name; namespace = namespace }
]

abbrev pub no_owner : Owner
no_owner = record { kind = ""; name = ""; namespace = "" }

module _ (api : ClusterApi) where
  abbrev pub resolve_replica_set : OwnerReference → String → Owner
  resolve_replica_set o ns = resolve "Deployment" "ReplicaSet" o ns (api.replica_set ns o.name)

  abbrev pub resolve_job : OwnerReference → String → Owner
  resolve_job o ns = resolve "CronJob" "Job" o ns (api.job ns o.name)

  -- The loop over the owner references.
  unfoldable pub owner_of : List OwnerReference → String → Owner
  owner_of [] ns = no_owner
  owner_of (o ∷ rest) ns =
      let later = owner_of rest ns in
      if o.kind == "ReplicaSet"
      then resolve_replica_set o ns
      else if o.kind == "Job"
      then resolve_job o ns
      else if o.kind == "StatefulSet" || o.kind == "DaemonSet"
      then record { kind = o.kind; name = o.name; namespace = ns }
      else later

  abbrev pub extract_pod_owner : Pod → Owner
  extract_pod_owner p = owner_of p.owner_references p.namespace

  details_of : Result Pod → Result Details
  details_of (err e) = err ("failed to get pod details: failed to get pod: " ++ e)
  details_of (ok p) = ok (record { owner = extract_pod_owner p; node_name = p.node_name })

  unfoldable pub get_controller_details : String → String → Result Details
  unfolding details_of
  get_controller_details name namespace =
      if name == "" || namespace == ""
      then err "invalid pod details from admission event"
      else details_of (api.pod namespace name)

  -- What the operator says owns a pod, by the pod's own reference and the API.
  pub data IsOwner (ns : String) (o : OwnerReference) : Owner → Type 0 where
    itself :
        ((o.kind ≡ "StatefulSet") ⊎ (o.kind ≡ "DaemonSet"))
        → IsOwner ns o (record { kind = o.kind; name = o.name; namespace = ns })
    replica_set :
        o.kind ≡ "ReplicaSet"
        → IsOwner ns o (record { kind = "ReplicaSet"; name = o.name; namespace = ns })
    deployment :
        o.kind ≡ "ReplicaSet"
        → (p : OwnerReference) (ps : List OwnerReference) → api.replica_set ns o.name ≡ ok (p ∷ ps)
        → p.kind ≡ "Deployment"
        → IsOwner ns o (record { kind = "Deployment"; name = p.name; namespace = ns })
    job : o.kind ≡ "Job" → IsOwner ns o (record { kind = "Job"; name = o.name; namespace = ns })
    cron_job :
        o.kind ≡ "Job"
        → (p : OwnerReference) (ps : List OwnerReference) → api.job ns o.name ≡ ok (p ∷ ps)
        → p.kind ≡ "CronJob"
        → IsOwner ns o (record { kind = "CronJob"; name = p.name; namespace = ns })

  first_of_kind-cases :
      (kind : String) (r : Result (List OwnerReference))
      → (first_of_kind kind r ≡ none)
        ⊎ ((p : OwnerReference) × (ps : List OwnerReference) × (r ≡ ok (p ∷ ps))
            × (p.kind ≡ kind)
            × (first_of_kind kind r ≡ some p))
  first_of_kind-cases kind (err _) = inl refl
  first_of_kind-cases kind (ok []) = inl refl
  first_of_kind-cases kind (ok (p ∷ ps)) = elim (Bool-cases (p.kind == kind)) [
    | inl y ↦ inr (p, ps, refl, (eq_iff _ _).0 y, rw y refl)
    | inr n ↦ inl (rw n refl)
  ]

  replica_set-IsOwner :
      (o : OwnerReference) (ns : String)
      → o.kind ≡ "ReplicaSet"
      → IsOwner ns o (resolve_replica_set o ns)
  replica_set-IsOwner o ns k = elim (first_of_kind-cases "Deployment" (api.replica_set ns o.name)) [
    | inl e ↦ rw (resolve, e) (IsOwner.replica_set k)
    | inr (p, ps, r, d, e) ↦ rw (resolve, e) (IsOwner.deployment k p ps r d)
  ]

  job-IsOwner :
      (o : OwnerReference) (ns : String) → o.kind ≡ "Job" → IsOwner ns o (resolve_job o ns)
  job-IsOwner o ns k = elim (first_of_kind-cases "CronJob" (api.job ns o.name)) [
    | inl e ↦ rw (resolve, e) (IsOwner.job k)
    | inr (p, ps, r, d, e) ↦ rw (resolve, e) (IsOwner.cron_job k p ps r d)
  ]

  abbrev pub known_kinds : List String
  known_kinds = "ReplicaSet" ∷ "Job" ∷ "StatefulSet" ∷ "DaemonSet" ∷ []

  owner_of-cases :
      (o : OwnerReference) (rest : List OwnerReference) (ns : String)
      → IsOwner ns o (owner_of (o ∷ rest) ns)
        ⊎ ((owner_of (o ∷ rest) ns ≡ owner_of rest ns) × (¬ Memᴰ o.kind known_kinds))
  unfolding owner_of
  owner_of-cases o rest ns = elim (Bool-cases (o.kind == "ReplicaSet")) [
    | inl y ↦ inl (rw y (replica_set-IsOwner o ns ((eq_iff _ _).0 y)))
    | inr n1 ↦ elim (Bool-cases (o.kind == "Job")) [
      | inl y ↦ inl (rw (n1, y) (job-IsOwner o ns ((eq_iff _ _).0 y)))
      | inr n2 ↦ elim (Bool-cases (o.kind == "StatefulSet")) [
        | inl y ↦ inl (rw (n1, n2, y) (IsOwner.itself (inl ((eq_iff _ _).0 y))))
        | inr n3 ↦ elim (Bool-cases (o.kind == "DaemonSet")) [
          | inl y ↦ inl (rw (n1, n2, n3, y) (IsOwner.itself (inr ((eq_iff _ _).0 y))))
          | inr n4 ↦ inr (
            rw (n1, n2, n3, n4) refl,
            (not-contains_iff known_kinds o.kind).0 (
                ground (
                  arith,
                  eq_iff "ReplicaSet" o.kind,
                  eq_iff "Job" o.kind,
                  eq_iff "StatefulSet" o.kind,
                  eq_iff "DaemonSet" o.kind,
                  eq_iff o.kind "ReplicaSet",
                  eq_iff o.kind "Job",
                  eq_iff o.kind "StatefulSet",
                  eq_iff o.kind "DaemonSet",
                )),
          )
        ]
      ]
    ]
  ]

  -- The owner is given by the first owner reference of a known kind: the workload that it names, or
  -- the deployment or cron job that comes first among the owners of that one; and there is no owner
  -- exactly if no reference is of a known kind.
  pub owner_of_lem :
      (refs : List OwnerReference) (ns : String)
      → (All (λ o. ¬ Memᴰ o.kind known_kinds) refs × (owner_of refs ns ≡ no_owner))
        ⊎ ((before : List OwnerReference) × (o : OwnerReference) × (after : List OwnerReference)
            × (refs ≡ append before (o ∷ after))
            × All (λ q. ¬ Memᴰ q.kind known_kinds) before
            × IsOwner ns o (owner_of refs ns))
  unfolding owner_of
  owner_of_lem [] ns = inl (tt, refl)
  owner_of_lem (o ∷ rest) ns = elim (owner_of-cases o rest ns) [
    | inl v ↦ inr ([], o, rest, refl, tt, v)
    | inr (e, n) ↦ elim (owner_of_lem rest ns) [
      | inl (all, f) ↦ inl ((n, all), e ∙ f)
      | inr (before, q, after, f, all, v) ↦
          inr (o ∷ before, q, after, ap (λ l. o ∷ l) f, (n, all), subst (IsOwner ns q) (sym e) v)
    ]
  ]
