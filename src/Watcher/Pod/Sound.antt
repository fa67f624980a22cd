-- ===== src/Watcher/Pod/Sound.antt =====
-- Every command that a pod event sends is a scan of one of its containers, and a workload's profile
-- is scanned once (watcher/podwatcher.go).
use kontroller.Base.{
  ◌≤◌, String, ◌≡◌, refl, true, Bool-cases, inl, inr, ◌⊎◌, some, Option-cases, List, [], ◌∷◌, ◌++◌,
  arith, ◌==◌, ok, Result-cases, contains, length, All, All-append,
}
use kontroller.Base.Dict.{Dict, lookup}
use kontroller.Utils.Types.{Pod, InstanceId, ContainerData, Command}
use kontroller.Utils.Images.{pod_to_container_data}
use kontroller.Utils.Profile.{ApplicationProfile, get_application_profile_for_relevancy_scan}
use kontroller.Watcher.Pod.{
  PodEnv, WatchHandler, Scan, scan, handle_new_image, handle_new_slug, handle_slug, handle_slugs,
  handle_pod_watcher, map_slug_to_instance_id, map_slugs_to_image_ids, get_wlid_and_image_id,
}
use kontroller.Watcher.Pod.UseCases.{
  contains-add_self, IsScanOf, Sends, new_slug-Sends, new_image-Sends,
}

module _ (env : PodEnv) (p : Pod) where
  -- A command that is sent for the pod scans a container of one of its instances.
  abbrev pub IsSound : Dict InstanceId → Command → Type 0
  IsSound instances c =
      (i : InstanceId) × (d : ContainerData) × (j : String) × (lookup j instances ≡ some i)
      × (pod_to_container_data env.parents p i env.cluster ≡ ok d)
      × IsScanOf env p i d c

  module _ (instances : Dict InstanceId) (images : Dict String) where
    handle_slug_is :
        (j : String) (i : InstanceId) (d : ContainerData) (s : Scan)
        → lookup j instances ≡ some i
        → pod_to_container_data env.parents p i env.cluster ≡ ok d
        → let t = handle_slug env p instances images j s in
          (t ≡ s) ⊎ (t ≡ handle_new_slug env p i d s) ⊎ (t ≡ handle_new_image env p i d s)
    unfolding handle_slug
    handle_slug_is j i d s e f = elim (Option-cases (lookup j s.handler.slug_to_image_id)) [
      | inl new ↦ inr (inl (ground arith))
      | inr (image, old) ↦ elim (Option-cases (lookup j images)) [
        | inl n ↦ inl (ground arith)
        | inr (now, n) ↦ elim (Bool-cases (image == now)) [
          | inl y ↦ inl (ground arith)
          | inr y ↦ inr (inr (ground arith))
        ]
      ]
    ]

    handle_slug_idle :
        (j : String) (s : Scan)
        → ((i : InstanceId) × (d : ContainerData) × (lookup j instances ≡ some i)
            × (pod_to_container_data env.parents p i env.cluster ≡ ok d))
          ⊎ (handle_slug env p instances images j s ≡ s)
    unfolding handle_slug
    handle_slug_idle j s = elim (Option-cases (lookup j instances)) [
      | inl e ↦ inr (ground arith)
      | inr (i, e) ↦ elim (Result-cases (pod_to_container_data env.parents p i env.cluster)) [
        | inr (_, f) ↦ inr (ground arith)
        | inl (d, f) ↦ inl (i, d, e, f)
      ]
    ]

    abbrev SendsSound : Scan → Scan → Type 0
    SendsSound s t =
        (t.sent ≡ s.sent) ⊎ ((c : Command) × (t.sent ≡ s.sent ++ c ∷ []) × IsSound instances c)

    handle_slug-sends :
        (j : String) (s : Scan) → SendsSound s (handle_slug env p instances images j s)
    handle_slug-sends j s = elim (handle_slug_idle j s) [
      | inr same ↦ rw same (inl refl)
      | inl (i, d, e, f) ↦ elim (handle_slug_is j i d s e f) [
        | inl same ↦ rw same (inl refl)
        | inr (inl new) ↦
            rw new (sound (handle_new_slug env p i d s) i d e f (new_slug-Sends env p i d s))
        | inr (inr new) ↦
            rw new (sound (handle_new_image env p i d s) i d e f (new_image-Sends env p i d s))
      ]
    ]
      where
        sound :
            (t : Scan) (i : InstanceId) (d : ContainerData)
            → lookup j instances ≡ some i
            → pod_to_container_data env.parents p i env.cluster ≡ ok d
            → Sends env p i d s t
            → SendsSound s t
        sound t i d e f (inl same) = inl same
        sound t i d e f (inr (c, g, k)) = inr (c, g, (i, d, j, e, f, k))

    handle_slugs-IsSound :
        (order : List String) (s : Scan)
        → All (IsSound instances) s.sent
        → All (IsSound instances) (handle_slugs env p instances images order s).sent
    unfolding handle_slugs
    handle_slugs-IsSound [] s h = h
    handle_slugs-IsSound (j ∷ order) s h =
        handle_slugs-IsSound order (handle_slug env p instances images j s)
          (elim (handle_slug-sends j s) [
            | inl same ↦ rw same h
            | inr (c, g, k) ↦ rw g (All-append (IsSound instances) s.sent (c ∷ []) h (k, tt))
          ])

  -- Whatever is cached and in whatever order the images come, each command that a pod event sends
  -- scans a container of the pod of which the image is known: by the scannable profile that the
  -- storage holds for its workload if there is one, and by its image only if there is none.
  pub handle_pod_watcher-IsSound :
      (order : List String) (wh : WatchHandler) (ids : List InstanceId)
      → env.generate_instance_id p ≡ ok ids
      → All (IsSound (map_slug_to_instance_id ids)) (handle_pod_watcher env p order wh).sent
  unfolding handle_pod_watcher
  handle_pod_watcher-IsSound order wh ids e =
      rw e (
        handle_slugs-IsSound (map_slug_to_instance_id ids) (map_slugs_to_image_ids p ids) order _
          tt)

  -- What one scan does while every workload slug is `n` and its profile is `profile`.
  module _ (n : String) (profile : ApplicationProfile)
      (found : get_application_profile_for_relevancy_scan env.metadata env.get_profile n p.namespace
        ≡ some profile) where
    -- Nothing was sent yet, or the one profile was.
    abbrev AtMostOne : Scan → Type 0
    AtMostOne s = (s.sent ≡ []) ⊎ ((contains s.no_container_slugs n ≡ true) × (length s.sent ≤ 1))

    new_slug-AtMostOne :
        (i : InstanceId) (d : ContainerData) (s : Scan)
        → i.no_container_slug ≡ n
        → AtMostOne s
        → AtMostOne (handle_new_slug env p i d s)
    unfolding handle_new_slug scan
    new_slug-AtMostOne i d s e (inl nothing) =
        elim (Bool-cases (contains s.handler.wlid_and_image_id (get_wlid_and_image_id d))) [
          | inl y ↦ inl (ground arith)
          | inr y ↦ elim (Bool-cases (contains s.no_container_slugs i.no_container_slug)) [
            | inl z ↦ inl (ground arith)
            | inr z ↦ inr (
              ground (arith, found, contains-add_self n s.no_container_slugs),
              ground (arith, found),
            )
          ]
        ]
    new_slug-AtMostOne i d s e (inr (known, few)) =
        inr (ground (arith, found), ground (arith, found))

    new_image-AtMostOne :
        (i : InstanceId) (d : ContainerData) (s : Scan)
        → i.no_container_slug ≡ n
        → AtMostOne s
        → AtMostOne (handle_new_image env p i d s)
    unfolding handle_new_image scan
    new_image-AtMostOne i d s e (inl nothing) =
        elim (Bool-cases (contains s.no_container_slugs i.no_container_slug)) [
          | inl z ↦ inl (ground arith)
          | inr z ↦ inr (
            ground (arith, found, contains-add_self n s.no_container_slugs),
            ground (arith, found),
          )
        ]
    new_image-AtMostOne i d s e (inr (known, few)) =
        inr (ground (arith, found), ground (arith, found))

    handle_slugs-AtMostOne :
        (instances : Dict InstanceId) (images : Dict String)
        → ((j : String) (i : InstanceId) → lookup j instances ≡ some i → i.no_container_slug ≡ n)
        → (order : List String) (s : Scan) → AtMostOne s
        → AtMostOne (handle_slugs env p instances images order s)
    unfolding handle_slugs
    handle_slugs-AtMostOne instances images same [] s h = h
    handle_slugs-AtMostOne instances images same (j ∷ order) s h =
        handle_slugs-AtMostOne instances images same order (handle_slug env p instances images j s)
          (elim (handle_slug_idle instances images j s) [
            | inr idle ↦ rw idle h
            | inl (i, d, e, f) ↦ elim (handle_slug_is instances images j i d s e f) [
              | inl idle ↦ rw idle h
              | inr (inl new) ↦ rw new (new_slug-AtMostOne i d s (same j i e) h)
              | inr (inr new) ↦ rw new (new_image-AtMostOne i d s (same j i e) h)
            ]
          ])

    -- Where all the pod's instances belong to one workload slug, and the storage holds a scannable
    -- profile for it, a pod event sends at most one command, however many containers the pod has.
    pub handle_pod_watcher_once :
        (order : List String) (wh : WatchHandler) (ids : List InstanceId)
        → env.generate_instance_id p ≡ ok ids
        → ((j : String) (i : InstanceId)
            → lookup j (map_slug_to_instance_id ids) ≡ some i
            → i.no_container_slug ≡ n)
        → length (handle_pod_watcher env p order wh).sent ≤ 1
    unfolding handle_pod_watcher
    handle_pod_watcher_once order wh ids e same =
        elim (handle_slugs-AtMostOne (map_slug_to_instance_id ids) (map_slugs_to_image_ids p ids)
          same order (record { handler = wh; no_container_slugs = []; sent = [] }) (inl refl)) [
            | inl nothing ↦ ground (arith, e, nothing)
            | inr (_, few) ↦ ground (arith, e, few)
          ]
