-- ===== src/ContinuousScanning/Handlers/Scans.antt =====
-- The scans that the two handlers trigger.
use kontroller.Base.{
  Memᴰ, contains, contains_iff, ◌↔◌, String, ◌≡◌, ◌≢◌, refl, true, false, ◌||◌, List, [], ◌∷◌, ◌++◌,
  arith, if◌then◌else◌, Result, ok, err, Bool-cases, Result-cases, ◌⊎◌, inl, inr,
}
use kontroller.Watcher.Event.{EventType, added, modified, deleted, bookmark, error}
use kontroller.ContinuousScanning.Handlers.{
  Resource, ResourceEvent, ScanCommand, Effect, delete_scan, delete_summary, trigger, HandlerEnv,
  orphanable_workload_types, is_orphan_workload, is_trigger_type, is_deleted, make_scan_command,
  on_trigger, invoker_handle, after_scan, artifacts_of, delete_scan_artifacts, on_deleted,
  cleaner_handle, work,
}

-- The types of which one of the two handlers takes the event.
type-cases :
    (t : EventType)
    → (((is_trigger_type t || is_deleted t) ≡ true) × ((t ≢ bookmark) × (t ≢ error)))
      ⊎ (((is_trigger_type t || is_deleted t) ≡ false) × ((t ≡ bookmark) ⊎ (t ≡ error)))
type-cases added = inl (refl, (λ e. cc, λ e. cc))
type-cases modified = inl (refl, (λ e. cc, λ e. cc))
type-cases deleted = inl (refl, (λ e. cc, λ e. cc))
type-cases bookmark = inr (refl, inl refl)
type-cases error = inr (refl, inr refl)

is_deleted_iff : (t : EventType) → (is_deleted t ≡ true) ↔ (t ≡ deleted)
is_deleted_iff added = (λ h. absurd cc, λ e. absurd cc)
is_deleted_iff modified = (λ h. absurd cc, λ e. absurd cc)
is_deleted_iff deleted = (λ h. refl, λ e. refl)
is_deleted_iff bookmark = (λ h. absurd cc, λ e. absurd cc)
is_deleted_iff error = (λ h. absurd cc, λ e. absurd cc)

orphan_iff :
    (r : Resource)
    → (is_orphan_workload r ≡ false)
      ↔ (Memᴰ r.kind orphanable_workload_types → r.has_parent ≡ false)
unfolding is_orphan_workload
orphan_iff r = elim (Bool-cases (contains orphanable_workload_types r.kind)) [
  | inl y ↦ (
    λ h m. ground (arith, h, y),
    λ f.
        (let no = f ((contains_iff orphanable_workload_types r.kind).0 y) in ground (arith, no, y)),
  )
  | inr n ↦ (
    λ h m. absurd (cc ((contains_iff orphanable_workload_types r.kind).1 m, n)),
    λ f. ground (arith, n),
  )
]

module _ (env : HandlerEnv) where
  -- The scans among the effects.
  abbrev pub scans_of : List Effect → List ScanCommand
  scans_of [] = []
  scans_of (delete_scan _ _ ∷ rest) = scans_of rest
  scans_of (delete_summary _ _ ∷ rest) = scans_of rest
  scans_of (trigger c ∷ rest) = c ∷ scans_of rest

  -- An event whose resource is scanned: it adds, modifies or deletes a resource that can be read and,
  -- if it is a pod, a replica set or a job, has no parent.
  pub record IsScanned (e : ResourceEvent) : Type 0 where
    pub type : (e.type ≢ bookmark) × (e.type ≢ error)
    pub readable : env.to_unstructured e.object ≡ ok tt
    pub owned : Memᴰ e.object.kind orphanable_workload_types → e.object.has_parent ≡ false

  -- The command that scans the resource of an event.
  pub record IsScanOf (e : ResourceEvent) (c : ScanCommand) : Type 0 where
    pub command_name : c.command_name ≡ env.run_kubescape
    pub wlid : c.wlid ≡ env.get_k8s_wlid env.cluster e.object.namespace e.object.kind e.object.name
    pub scan_object : c.scan_object ≡ env.new_scan_object e.object
    pub no_host_scanner : c.host_scanner ≡ false
    pub deletion : (c.is_deleted_scan_object ≡ true) ↔ (e.type ≡ deleted)

  -- The scans that a series of events should trigger.
  pub data AreScans : List ResourceEvent → List ScanCommand → Type 0 where
    none_left : AreScans [] []
    scanned :
        {e : ResourceEvent} {es : List ResourceEvent} {cs : List ScanCommand}
        → IsScanned e
        → {c : ScanCommand} → IsScanOf e c
        → AreScans es cs
        → AreScans (e ∷ es) (c ∷ cs)
    skipped :
        {e : ResourceEvent} {es : List ResourceEvent} {cs : List ScanCommand}
        → (¬ IsScanned e)
        → AreScans es cs
        → AreScans (e ∷ es) cs

  scans_of-append : (xs ys : List Effect) → scans_of (xs ++ ys) ≡ scans_of xs ++ scans_of ys
  scans_of-append [] ys = refl
  scans_of-append (delete_scan _ _ ∷ rest) ys = scans_of-append rest ys
  scans_of-append (delete_summary _ _ ∷ rest) ys = scans_of-append rest ys
  scans_of-append (trigger c ∷ rest) ys = cc (scans_of-append rest ys)

  after_scan-silent :
      (ns name : String) (r : Result (Unit {0})) → scans_of (after_scan env ns name r) ≡ []
  unfolding after_scan
  after_scan-silent ns name (err _) = refl
  after_scan-silent ns name (ok _) = refl

  artifacts_silent : (ns : String) (r : Result String) → scans_of (artifacts_of env ns r) ≡ []
  unfolding artifacts_of
  artifacts_silent ns (err _) = refl
  artifacts_silent ns (ok name) = after_scan-silent ns name (env.delete_scan_answer ns name)

  delete_scan_artifacts-silent : (r : Resource) → scans_of (delete_scan_artifacts env r) ≡ []
  unfolding delete_scan_artifacts
  delete_scan_artifacts-silent r = artifacts_silent r.namespace (env.resource_to_slug r)

  on_trigger-scans :
      (r : Resource)
      → scans_of (on_trigger env r (ok tt))
        ≡ (if is_orphan_workload r then [] else make_scan_command env r false ∷ [])
  unfolding on_trigger
  on_trigger-scans r = ground arith

  on_deleted-scans :
      (r : Resource)
      → scans_of (on_deleted env r (ok tt))
        ≡ (if is_orphan_workload r then [] else make_scan_command env r true ∷ [])
  unfolding on_deleted
  on_deleted-scans r = ground (
    arith,
    scans_of-append (delete_scan_artifacts env r) (trigger (make_scan_command env r true) ∷ []),
    delete_scan_artifacts-silent r,
  )

  abbrev event_effects : ResourceEvent → List Effect
  event_effects e = invoker_handle env e ++ cleaner_handle env e

  unreadable-scans :
      (e : ResourceEvent) (why : String)
      → env.to_unstructured e.object ≡ err why
      → scans_of (event_effects e) ≡ []
  unfolding invoker_handle cleaner_handle
  unreadable-scans e why h = ground (arith, h)

  readable-scans :
      (e : ResourceEvent)
      → env.to_unstructured e.object ≡ ok tt
      → scans_of (event_effects e) ≡ (
          if is_trigger_type e.type || is_deleted e.type
          then (if is_orphan_workload e.object
              then []
              else make_scan_command env e.object (is_deleted e.type) ∷ [])
          else [])
  unfolding invoker_handle cleaner_handle
  readable-scans e h = ground (
    arith,
    h,
    scans_of-append (invoker_handle env e) (cleaner_handle env e),
    on_trigger-scans e.object,
    on_deleted-scans e.object,
  )

  -- An event is one whose resource is scanned or it is not, and triggers one scan or none.
  event-cases :
      (e : ResourceEvent)
      → (IsScanned e
          × (scans_of (event_effects e) ≡ make_scan_command env e.object (is_deleted e.type) ∷ []))
        ⊎ ((¬ IsScanned e) × (scans_of (event_effects e) ≡ []))
  event-cases e = elim (Result-cases (env.to_unstructured e.object)) [
    | inr (why, h) ↦ inr (λ v. cc (h, v.readable), unreadable-scans e why h)
    | inl (u, h) ↦
        let r = readable-scans e h in
        elim (type-cases e.type) [
          | inr (f, t) ↦
              inr (λ v. elim t [ inl b ↦ v.type.0 b | inr b ↦ v.type.1 b ], ground (arith, r, f))
          | inl (y, n) ↦ elim (Bool-cases (is_orphan_workload e.object)) [
            | inl o ↦ inr (λ v. cc (o, (orphan_iff e.object).1 v.owned), ground (arith, r, y, o))
            | inr o ↦ inl (
              record { type = n; readable = h; owned = (orphan_iff e.object).0 o },
              ground (arith, r, y, o),
            )
          ]
        ]
  ]

  made-IsScanOf :
      (e : ResourceEvent) → IsScanOf e (make_scan_command env e.object (is_deleted e.type))
  unfolding make_scan_command
  made-IsScanOf e = record {
    command_name = refl;
    wlid = refl;
    scan_object = refl;
    no_host_scanner = refl;
    deletion = is_deleted_iff e.type;
  }

  -- The scans that a series of events triggers, across the two handlers, are one for each event whose
  -- resource is scanned, in order, marked as a deletion exactly if the event is one.
  pub work-AreScans : (es : List ResourceEvent) → AreScans es (scans_of (work env es))
  unfolding work
  work-AreScans [] = AreScans.none_left
  work-AreScans (e ∷ rest) =
      let both = scans_of-append (event_effects e) (work env rest) in
      elim (event-cases e) [
        | inl (v, one) ↦ rw (both, one) (AreScans.scanned v (made-IsScanOf e) (work-AreScans rest))
        | inr (n, no_scan) ↦ rw (both, no_scan) (AreScans.skipped n (work-AreScans rest))
      ]
