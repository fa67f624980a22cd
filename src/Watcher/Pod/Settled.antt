-- ===== src/Watcher/Pod/Settled.antt =====
-- A pod event that changes nothing sends nothing (use-cases 5 and 6 of watcher/podwatcher.go).
use kontroller.Base.{
  String, ◌≡◌, ◌≢◌, refl, ◌∙◌, inl, inr, ◌⊎◌, some, Option-cases, List, [], ◌∷◌, arith, eq_iff, ok,
  Result-cases, Memᴰ, eq_refl, String-cases,
}
use kontroller.Base.Dict.{Dict, lookup, insert, lookup-insert}
use kontroller.Utils.Types.{Pod, InstanceId, ContainerData}
use kontroller.Utils.Images.{pod_to_container_data}
use kontroller.Utils.Images.Laws.{pod_to_container_data_lem}
use kontroller.Watcher.Pod.{
  PodEnv, WatchHandler, Scan, scan, handle_new_image, handle_new_slug, handle_slug, handle_slugs,
  handle_pod_watcher, map_slug_to_instance_id, map_slugs_to_image_ids,
}
use kontroller.Watcher.Pod.Slugs.{map_slug_to_instance_id-keyed}

abbrev cached : Scan → Dict String
cached s = s.handler.slug_to_image_id

module _ (env : PodEnv) (p : Pod) where
  new_image-cached :
      (i : InstanceId) (d : ContainerData) (s : Scan)
      → cached (handle_new_image env p i d s) ≡ insert d.slug d.image_id (cached s)
  unfolding handle_new_image scan
  new_image-cached i d s = ground arith

  new_slug-cached :
      (i : InstanceId) (d : ContainerData) (s : Scan)
      → cached (handle_new_slug env p i d s) ≡ insert d.slug d.image_id (cached s)
  unfolding handle_new_slug scan
  new_slug-cached i d s = ground arith

  module _ (instances : Dict InstanceId) (images : Dict String) where
    -- A slug needs no more work: its image is cached, or its container's data cannot be had.
    abbrev IsSettled : Scan → String → Type 0
    IsSettled s j =
        ((image : String) × (lookup j (cached s) ≡ some image) × (lookup j images ≡ some image))
        ⊎ ((i : InstanceId) (d : ContainerData)
            → lookup j instances ≡ some i
            → pod_to_container_data env.parents p i env.cluster ≢ ok d)

    -- The data that is had of a slug's instance is the slug's, with the image of the pod's status.
    abbrev Agree : Type 0
    Agree =
        (j : String) (i : InstanceId) (d : ContainerData)
        → lookup j instances ≡ some i
        → pod_to_container_data env.parents p i env.cluster ≡ ok d
        → (d.slug ≡ j) × (lookup j images ≡ some d.image_id)

    -- The instance of a slug and its container's data, if both are there.
    Data-cases :
        (j : String)
        → ((i : InstanceId) × (d : ContainerData) × (lookup j instances ≡ some i)
            × (pod_to_container_data env.parents p i env.cluster ≡ ok d))
          ⊎ (((i : InstanceId) (d : ContainerData)
                → lookup j instances ≡ some i
                → pod_to_container_data env.parents p i env.cluster ≢ ok d)
              × ((s : Scan) → handle_slug env p instances images j s ≡ s))
    unfolding handle_slug
    Data-cases j = elim (Option-cases (lookup j instances)) [
      | inl e ↦ inr (λ i d f. cc (e, f), λ s. ground arith)
      | inr (i, e) ↦ elim (Result-cases (pod_to_container_data env.parents p i env.cluster)) [
        | inr (_, f) ↦ inr (λ i' d g h. ground arith, λ s. ground arith)
        | inl (d, f) ↦ inl (i, d, e, f)
      ]
    ]

    -- With the data there, the slug's image is cached already or the data's image is cached now.
    handle_slug-cached :
        (j : String) (i : InstanceId) (d : ContainerData) (s : Scan)
        → lookup j instances ≡ some i
        → pod_to_container_data env.parents p i env.cluster ≡ ok d
        → lookup j images ≡ some d.image_id
        → ((handle_slug env p instances images j s ≡ s) × (lookup j (cached s) ≡ some d.image_id))
          ⊎ (cached (handle_slug env p instances images j s) ≡ insert d.slug d.image_id (cached s))
    unfolding handle_slug
    handle_slug-cached j i d s e f m = elim (Option-cases (lookup j (cached s))) [
      | inl new ↦ inr (ground (arith, new_slug-cached i d s))
      | inr (image, old) ↦ elim (String-cases image d.image_id) [
        | inl same ↦ inl (ground (arith, eq_iff image d.image_id), ground arith)
        | inr other ↦ inr (ground (arith, eq_iff image d.image_id, new_image-cached i d s))
      ]
    ]

    settled_slug :
        (j : String) (s : Scan) → IsSettled s j → handle_slug env p instances images j s ≡ s
    unfolding handle_slug
    settled_slug j s (inl (image, old, m)) = ground (arith, eq_refl image)
    settled_slug j s (inr fails) = elim (Data-cases j) [
      | inl (i, d, e, f) ↦ absurd (fails i d e f)
      | inr (_, same) ↦ same s
    ]

    settled_slugs :
        (order : List String) (s : Scan)
        → ((j : String) → Memᴰ j order → IsSettled s j)
        → handle_slugs env p instances images order s ≡ s
    unfolding handle_slugs
    settled_slugs [] s h = refl
    settled_slugs (j ∷ order) s h =
        rw (settled_slug j s (h j (Memᴰ.head refl)))
          (settled_slugs order s (λ k m. h k (Memᴰ.tail m)))

    settles : Agree → (j : String) (s : Scan) → IsSettled (handle_slug env p instances images j s) j
    settles a j s = elim (Data-cases j) [
      | inr (fails, _) ↦ inr fails
      | inl (i, d, e, f) ↦
          let (own, m) = a j i d e f in
          elim (handle_slug-cached j i d s e f m) [
            | inl (same, old) ↦ inl (d.image_id, rw same old, m)
            | inr new ↦ inl (d.image_id, rw (new, lookup-insert) (rw own (rw (eq_refl j))), m)
          ]
    ]

    stays-IsSettled :
        Agree
        → (j k : String) (s : Scan) → IsSettled s k
        → IsSettled (handle_slug env p instances images j s) k
    stays-IsSettled a j k s (inr fails) = inr fails
    stays-IsSettled a j k s (inl (image, old, now)) = elim (Data-cases j) [
      | inr (_, same) ↦ rw (same s) (inl (image, old, now))
      | inl (i, d, e, f) ↦
          let (own, m) = a j i d e f in
          elim (handle_slug-cached j i d s e f m) [
            | inl (same, _) ↦ rw same (inl (image, old, now))
            | inr new ↦ inl (image, rw (new, lookup-insert) (ground (arith, eq_iff d.slug k)), now)
          ]
    ]

    handle_slugs-stays :
        Agree
        → (order : List String) (k : String) (s : Scan) → IsSettled s k
        → IsSettled (handle_slugs env p instances images order s) k
    unfolding handle_slugs
    handle_slugs-stays a [] k s h = h
    handle_slugs-stays a (j ∷ order) k s h =
        handle_slugs-stays a order k (handle_slug env p instances images j s)
          (stays-IsSettled a j k s h)

    handle_slugs-settles :
        Agree
        → (order : List String) (k : String) (s : Scan) → Memᴰ k order
        → IsSettled (handle_slugs env p instances images order s) k
    unfolding handle_slugs
    handle_slugs-settles a [] k s m = elim m [ ]
    handle_slugs-settles a (j ∷ order) k s (Memᴰ.head e) =
        handle_slugs-stays a order k (handle_slug env p instances images j s) (rw e (settles a j s))
    handle_slugs-settles a (j ∷ order) k s (Memᴰ.tail m) =
        handle_slugs-settles a order k (handle_slug env p instances images j s) m

  -- The same event again sends nothing and changes nothing, in whatever orders Go ranges over the
  -- images, if the second pass goes over no slug that the first did not, and the image that is had
  -- of a container is the one of the pod's statuses.
  pub handled_again :
      (wh : WatchHandler) (ids : List InstanceId) (first second : List String)
      → env.generate_instance_id p ≡ ok ids
      → ((j : String) → Memᴰ j second → Memᴰ j first)
      → ((j : String) (i : InstanceId) (d : ContainerData)
          → lookup j (map_slug_to_instance_id ids) ≡ some i
          → pod_to_container_data env.parents p i env.cluster ≡ ok d
          → lookup j (map_slugs_to_image_ids p ids) ≡ some d.image_id)
      → let seen = (handle_pod_watcher env p first wh).handler in
        handle_pod_watcher env p second seen
        ≡ record { handler = seen; no_container_slugs = []; sent = [] }
  unfolding handle_pod_watcher
  handled_again wh ids first second e sub image =
      let instances = map_slug_to_instance_id ids in
      let images = map_slugs_to_image_ids p ids in
      let start : Scan = record { handler = wh; no_container_slugs = []; sent = [] } in
      let agree : Agree instances images = λ j i d g f. (
        (pod_to_container_data_lem env.parents p i env.cluster d f).0
            ∙ map_slug_to_instance_id-keyed ids j i g,
        image j i d g f,
      ) in
      rw e (
        settled_slugs instances images second _
          (λ j m. handle_slugs-settles instances images agree first j start (sub j m)))
