-- ===== src/MainHandler/Images/Scope.antt =====
-- What a scoped image scan triggers.
use kontroller.Base.{
  ◌+◌, ◌≤◌, String, ◌≡◌, refl, false, not, ◌&&◌, Option, none, some, List, [], ◌∷◌, ◌++◌, ◌==◌,
  contains, Result, ok, err, ltb, arith, Bool-cases, Option-cases, inl, inr, All, All-append,
  eq_iff, sym, Memᴰ,
}
use mathlib.Core.List.{append-nil, append_assoc}
use kontroller.Config.{skip_namespace, guard_time}
use kontroller.Utils.Types.{Pod, InstanceId, ContainerData, Command, SessionObj}
use kontroller.Utils.Images.{pod_to_container_data}
use kontroller.Utils.Profile.{
  ApplicationProfile, get_application_profile_for_relevancy_scan,
  get_application_profile_scan_command, IsScannable,
}
use kontroller.Utils.Profile.Scannable.{
  get_application_profile_IsScannable, get_application_profile-none,
}
use kontroller.Watcher.Pod.{scan_image_command}
use kontroller.Watcher.Feeds.{pod_running}
use kontroller.MainHandler.Images.{
  ScopeEnv, Progress, trigger, scan_container, with_data, scan_instance, scan_instances,
  with_instances, with_workload, scan_pod, scan_pods, scan_namespace, scan_namespaces, add_error,
}

All-map {ℓ κ μ} :
    {A : Type ℓ} {P : A → Type κ} {Q : A → Type μ} (f : (x : A) → P x → Q x) (xs : List A)
    → All P xs
    → All Q xs
All-map f [] h = tt
All-map f (x ∷ xs) h = (f x h.0, All-map f xs h.1)

module _ (env : ScopeEnv) (request : SessionObj) where
  -- A pod that is scanned in a namespace: one that the API lists, runs and, without a parent, is as old
  -- as the guard time.
  pub record IsScanned (ns : String) (p : Pod) : Type 0 where
    pub watched : skip_namespace env.config ns ≡ false
    pub listed : Memᴰ p (env.list_pods ns).0
    pub running : p.phase ≡ pod_running
    pub guarded :
        env.workloads.has_parent p ≡ false → p.creation_timestamp + guard_time env.config ≤ env.now

  -- A container of such a pod, by an instance that is generated for the pod.
  pub record IsContainer (ns : String) (p : Pod) (i : InstanceId) (d : ContainerData) : Type 0 where
    pub scanned : IsScanned ns p
    pub ids : List InstanceId
    pub generated : env.pods.generate_instance_id p ≡ ok ids
    pub instance : Memᴰ i ids
    pub contained : pod_to_container_data env.pods.parents p i env.pods.cluster ≡ ok d

  -- The command of a container in a namespace: its workload's profile's, if the storage holds a
  -- scannable one, else its image's.
  pub data IsTriggered (ns : String) (c : Command) : Type 0 where
    of_profile :
        (p : Pod) (i : InstanceId) (d : ContainerData)
        → IsContainer ns p i d
        → (profile : ApplicationProfile)
        → env.pods.get_profile i.no_container_slug ns ≡ some profile
        → IsScannable env.pods.metadata profile.annotations
        → c ≡ get_application_profile_scan_command env.pods.metadata env.pods.apis profile
        → IsTriggered ns c
    of_image :
        (p : Pod) (i : InstanceId) (d : ContainerData)
        → IsContainer ns p i d
        → ((profile : ApplicationProfile)
            → env.pods.get_profile i.no_container_slug ns ≡ some profile
            → ¬ IsScannable env.pods.metadata profile.annotations)
        → c ≡ scan_image_command env.pods.apis p d
        → IsTriggered ns c

  abbrev pub Triggers : String → Progress → Progress → Type 0
  Triggers ns s t =
      (new : List Command) × (t.triggered ≡ s.triggered ++ new) × All (IsTriggered ns) new

  trigger-triggered :
      (slug : String) (c : Command) (s : Progress)
      → (trigger env request slug c s).triggered ≡ s.triggered ++ c ∷ []
  unfolding trigger
  trigger-triggered slug c s = ground arith

  none_new : (ns : String) (s : Progress) → Triggers ns s s
  none_new ns s = ([], sym (append-nil s.triggered), tt)

  one_new :
      (ns slug : String) (c : Command) (s : Progress)
      → IsTriggered ns c
      → Triggers ns s (trigger env request slug c s)
  one_new ns slug c s t = (c ∷ [], trigger-triggered slug c s, (t, tt))

  then_new : (ns : String) (s t u : Progress) → Triggers ns s t → Triggers ns t u → Triggers ns s u
  then_new ns s t u (a, e, f) (b, g, h) =
      (a ++ b, cc (g, e, append_assoc s.triggered a b), All-append (IsTriggered ns) a b f h)

  module _ (ns : String) (p : Pod) (scanned : IsScanned ns p) (ids : List InstanceId)
      (generated : env.pods.generate_instance_id p ≡ ok ids) where
    container-Triggers :
        (i : InstanceId) (d : ContainerData) (s : Progress)
        → IsContainer ns p i d
        → Triggers ns s (scan_container env request ns p i d s)
    unfolding scan_container
    container-Triggers i d s e =
        elim (Option-cases (
          get_application_profile_for_relevancy_scan env.pods.metadata env.pods.get_profile
            i.no_container_slug ns)) [
              | inl n ↦
                  rw (scan_container, n)
                    (one_new ns i.slug (scan_image_command env.pods.apis p d) s (
                      IsTriggered.of_image p i d e
                        (get_application_profile-none env.pods.metadata env.pods.get_profile
                          i.no_container_slug ns n)
                        refl))
              | inr (profile, f) ↦
                  let (g, v) =
                    get_application_profile_IsScannable env.pods.metadata env.pods.get_profile
                      i.no_container_slug ns profile f in
                  rw (scan_container, f)
                    (one_new ns i.no_container_slug
                      (get_application_profile_scan_command env.pods.metadata env.pods.apis profile)
                      s (IsTriggered.of_profile p i d e profile g v refl))
            ]

    data-Triggers :
        (i : InstanceId) (r : Result ContainerData) (s : Progress)
        → Memᴰ i ids
        → pod_to_container_data env.pods.parents p i env.pods.cluster ≡ r
        → Triggers ns s (with_data env request ns p i r s)
    unfolding with_data
    data-Triggers i (err _) s m e = none_new ns s
    data-Triggers i (ok d) s m e = container-Triggers i d s (record {
      scanned = scanned;
      ids = ids;
      generated = generated;
      instance = m;
      contained = e;
    })

    instance-Triggers :
        (i : InstanceId) (s : Progress)
        → Memᴰ i ids
        → Triggers ns s (scan_instance env request ns p i s)
    unfolding scan_instance
    instance-Triggers i s m = elim (Bool-cases (contains s.slugs i.slug)) [
      | inl y ↦ rw y (none_new ns s)
      | inr n ↦
          rw n
            (data-Triggers i (pod_to_container_data env.pods.parents p i env.pods.cluster) s m refl)
    ]

    instances-Triggers :
        (some_ids : List InstanceId) (s : Progress)
        → ((i : InstanceId) → Memᴰ i some_ids → Memᴰ i ids)
        → Triggers ns s (scan_instances env request ns p some_ids s)
    unfolding scan_instances
    instances-Triggers [] s m = none_new ns s
    instances-Triggers (i ∷ rest) s m =
        then_new ns s (scan_instance env request ns p i s)
          (scan_instances env request ns p rest (scan_instance env request ns p i s))
          (instance-Triggers i s (m i (Memᴰ.head refl)))
          (instances-Triggers rest (scan_instance env request ns p i s) (λ j k. m j (Memᴰ.tail k)))

  instances_of-Triggers :
      (ns : String) (p : Pod) (ids : Result (List InstanceId)) (s : Progress)
      → skip_namespace env.config ns ≡ false
      → Memᴰ p (env.list_pods ns).0
      → p.phase ≡ pod_running
      → env.pods.generate_instance_id p ≡ ids
      → Triggers ns s (with_instances env request ns p ids s)
  unfolding with_instances
  instances_of-Triggers ns p (err _) s w m r g = none_new ns s
  instances_of-Triggers ns p (ok ids) s w m r g =
      elim (Bool-cases (
        not (env.workloads.has_parent p)
        && ltb env.now (p.creation_timestamp + guard_time env.config))) [
          | inl y ↦ rw y (none_new ns s)
          | inr n ↦
              let scanned : IsScanned ns p = record {
                watched = w;
                listed = m;
                running = r;
                guarded = λ h. ground (arith, n, h);
              } in
              rw n (instances-Triggers ns p scanned ids g ids s (λ i k. k))
        ]

  workload-Triggers :
      (ns : String) (p : Pod) (u : Result (Unit {0})) (s : Progress)
      → skip_namespace env.config ns ≡ false
      → Memᴰ p (env.list_pods ns).0
      → p.phase ≡ pod_running
      → Triggers ns s (with_workload env request ns p u s)
  unfolding with_workload
  workload-Triggers ns p (err _) s w m r = none_new ns s
  workload-Triggers ns p (ok _) s w m r =
      instances_of-Triggers ns p (env.pods.generate_instance_id p) s w m r refl

  pod-Triggers :
      (ns : String) (p : Pod) (s : Progress)
      → skip_namespace env.config ns ≡ false
      → Memᴰ p (env.list_pods ns).0
      → Triggers ns s (scan_pod env request ns p s)
  unfolding scan_pod
  pod-Triggers ns p s w m = elim (Bool-cases (p.phase == pod_running)) [
    | inr n ↦ rw n (none_new ns s)
    | inl y ↦
        rw y (workload-Triggers ns p (env.workloads.to_unstructured p) s w m ((eq_iff _ _).0 y))
  ]

  pods-Triggers :
      (ns : String) (ps : List Pod) (s : Progress)
      → skip_namespace env.config ns ≡ false
      → ((p : Pod) → Memᴰ p ps → Memᴰ p (env.list_pods ns).0)
      → Triggers ns s (scan_pods env request ns ps s)
  unfolding scan_pods
  pods-Triggers ns [] s w m = none_new ns s
  pods-Triggers ns (p ∷ rest) s w m =
      then_new ns s (scan_pod env request ns p s)
        (scan_pods env request ns rest (scan_pod env request ns p s))
        (pod-Triggers ns p s w (m p (Memᴰ.head refl)))
        (pods-Triggers ns rest (scan_pod env request ns p s) w (λ q k. m q (Memᴰ.tail k)))

  error-Triggers :
      (ns : String) (e : Option String) (s t : Progress)
      → Triggers ns s t
      → Triggers ns s (add_error env request e t)
  error-Triggers ns none s t h = h
  error-Triggers ns (some _) s t h = h

  namespace-Triggers :
      (ns : String) (s : Progress) → Triggers ns s (scan_namespace env request ns s)
  unfolding scan_namespace
  namespace-Triggers ns s = elim (Bool-cases (skip_namespace env.config ns)) [
    | inl y ↦ rw y (none_new ns s)
    | inr n ↦ rw n (
        error-Triggers ns (env.list_pods ns).1 s (scan_pods env request ns (env.list_pods ns).0 s)
          (pods-Triggers ns (env.list_pods ns).0 s n (λ p m. m)))
  ]

  -- Every command that is triggered is for a container of a pod, by an instance that is generated for
  -- that pod, in one of the namespaces asked for: it scans the scannable profile that the storage holds
  -- for the container's workload, or the container's image where it holds none. The pod is listed and
  -- runs there, the namespace is not skipped, and the pod is old enough if it has no parent.
  pub scan_namespaces_sound :
      (namespaces : List String) (s : Progress)
      → (new : List Command) × ((scan_namespaces env request namespaces s).triggered
          ≡ s.triggered ++ new)
        × All (λ c. (ns : String) × Memᴰ ns namespaces × IsTriggered ns c) new
  unfolding scan_namespaces
  scan_namespaces_sound [] s = ([], sym (append-nil s.triggered), tt)
  scan_namespaces_sound (ns ∷ rest) s =
      let (a, e, f) = namespace-Triggers ns s in
      let (b, g, h) = scan_namespaces_sound rest (scan_namespace env request ns s) in
      (
        a ++ b,
        cc (g, e, append_assoc s.triggered a b),
        All-append (λ c. (n : String) × Memᴰ n (ns ∷ rest) × IsTriggered n c) a b
            (All-map (λ c t. (ns, Memᴰ.head refl, t)) a f)
            (All-map (λ c (n, m, t). (n, Memᴰ.tail m, t)) b h),
      )
