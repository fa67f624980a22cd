-- ===== src/Watcher/Pod/UseCases.antt =====
-- The use-cases that watcher/podwatcher.go lists: what one slug of a pod event sends.
use kontroller.Base.{
  String, ◌≡◌, refl, true, false, Bool-cases, inl, inr, ◌⊎◌, some, Option-cases, List, [], ◌∷◌,
  ◌++◌, arith, eq_refl, contains,
}
use kontroller.Base.Dict.{insert}
use kontroller.Utils.Types.{Pod, InstanceId, ContainerData, Command}
use kontroller.Utils.Profile.{
  ApplicationProfile, IsScannable, get_application_profile_scan_command,
  get_application_profile_for_relevancy_scan,
}
use kontroller.Utils.Profile.Scannable.{
  get_application_profile_IsScannable, get_application_profile-none,
}
use kontroller.Watcher.Pod.{
  PodEnv, Scan, add, cache_slug, scan, handle_new_image, handle_new_slug, get_wlid_and_image_id,
  scan_image_command,
}

pub contains-add_self : (s : String) (set : List String) → contains (add s set) s ≡ true
unfolding add
contains-add_self s set = ground (arith, eq_refl s)

module _ (env : PodEnv) (p : Pod) where
  -- The command for a container: its application profile's, if the storage holds a scannable one
  -- for its workload, else its image's.
  pub data IsScanOf (i : InstanceId) (d : ContainerData) (c : Command) : Type 0 where
    of_profile :
        (profile : ApplicationProfile)
        → env.get_profile i.no_container_slug p.namespace ≡ some profile
        → IsScannable env.metadata profile.annotations
        → c ≡ get_application_profile_scan_command env.metadata env.apis profile
        → IsScanOf i d c
    of_image :
        ((profile : ApplicationProfile)
          → env.get_profile i.no_container_slug p.namespace ≡ some profile
          → ¬ IsScannable env.metadata profile.annotations)
        → c ≡ scan_image_command env.apis p d
        → IsScanOf i d c

  scan-sends :
      (i : InstanceId) (d : ContainerData) (s : Scan)
      → (c : Command) × ((scan env p i d s).sent ≡ s.sent ++ c ∷ []) × IsScanOf i d c
  unfolding scan
  scan-sends i d s =
      elim (Option-cases (
        get_application_profile_for_relevancy_scan env.metadata env.get_profile i.no_container_slug
          p.namespace)) [
            | inl e ↦ (
              scan_image_command env.apis p d,
              ground arith,
              of_image
                  (get_application_profile-none env.metadata env.get_profile i.no_container_slug
                    p.namespace e)
                  refl,
            )
            | inr (profile, e) ↦
                let (g, v) =
                  get_application_profile_IsScannable env.metadata env.get_profile
                    i.no_container_slug p.namespace profile e in
                (
                  get_application_profile_scan_command env.metadata env.apis profile,
                  ground arith,
                  of_profile profile g v refl,
                )
          ]

  scan-handler :
      (i : InstanceId) (d : ContainerData) (s : Scan) → (scan env p i d s).handler ≡ s.handler
  unfolding scan
  scan-handler i d s = ground arith

  -- Use-cases 1 to 3 and 5, of a slug that is not cached, whose container has data: an image that
  -- the workload ran before (5) sends nothing, nor does a workload whose profile this event had
  -- scanned; else one command is sent. Either way the slug and the image are cached.
  pub new_slug_use_cases :
      (i : InstanceId) (d : ContainerData) (s : Scan)
      → let t = handle_new_slug env p i d s in
        let key = get_wlid_and_image_id d in
        (contains s.handler.wlid_and_image_id key ≡ true → t.sent ≡ s.sent)
        × (contains s.no_container_slugs i.no_container_slug ≡ true → t.sent ≡ s.sent)
        × (contains s.handler.wlid_and_image_id key ≡ false
            → contains s.no_container_slugs i.no_container_slug ≡ false
            → (c : Command) × (t.sent ≡ s.sent ++ c ∷ []) × IsScanOf i d c)
        × (t.handler.slug_to_image_id ≡ insert d.slug d.image_id s.handler.slug_to_image_id)
        × (contains t.handler.wlid_and_image_id key ≡ true)
  unfolding handle_new_slug
  new_slug_use_cases i d s =
      let t = cache_slug d.slug d.image_id s in
      let same : (scan env p i d t).handler ≡ t.handler = scan-handler i d t in
      let here = contains-add_self (get_wlid_and_image_id d) t.handler.wlid_and_image_id in
      (
        λ e. ground arith,
        λ e. ground arith,
        λ e f. let (c, g, k) = scan-sends i d t in (c, ground (arith, g), k),
        ground (arith, same),
        ground (arith, same, here),
      )

  -- Use-case 4, of a slug that is cached with another image: one command is sent, unless this event
  -- had the workload's profile scanned. The slug is cached with the new image.
  pub new_image_use_case :
      (i : InstanceId) (d : ContainerData) (s : Scan)
      → let t = handle_new_image env p i d s in
        (contains s.no_container_slugs i.no_container_slug ≡ true → t.sent ≡ s.sent)
        × (contains s.no_container_slugs i.no_container_slug ≡ false
            → (c : Command) × (t.sent ≡ s.sent ++ c ∷ []) × IsScanOf i d c)
        × (t.handler.slug_to_image_id ≡ insert d.slug d.image_id s.handler.slug_to_image_id)
        × (contains t.handler.wlid_and_image_id (get_wlid_and_image_id d) ≡ true)
  unfolding handle_new_image
  new_image_use_case i d s =
      let same : (scan env p i d s).handler ≡ s.handler = scan-handler i d s in
      let here = contains-add_self (get_wlid_and_image_id d) s.handler.wlid_and_image_id in
      (
        λ e. ground arith,
        λ e. let (c, g, k) = scan-sends i d s in (c, ground (arith, g), k),
        ground (arith, same),
        ground (arith, same, here),
      )

  -- Either nothing is sent, or one command more.
  abbrev pub Sends : InstanceId → ContainerData → Scan → Scan → Type 0
  Sends i d s t = (t.sent ≡ s.sent) ⊎ ((c : Command) × (t.sent ≡ s.sent ++ c ∷ []) × IsScanOf i d c)

  pub new_slug-Sends :
      (i : InstanceId) (d : ContainerData) (s : Scan) → Sends i d s (handle_new_slug env p i d s)
  new_slug-Sends i d s =
      let u = new_slug_use_cases i d s in
      elim (Bool-cases (contains s.handler.wlid_and_image_id (get_wlid_and_image_id d))) [
        | inl y ↦ inl (u.0 y)
        | inr n ↦ elim (Bool-cases (contains s.no_container_slugs i.no_container_slug)) [
          | inl y ↦ inl (u.1 y)
          | inr m ↦ inr (u.2 n m)
        ]
      ]

  pub new_image-Sends :
      (i : InstanceId) (d : ContainerData) (s : Scan) → Sends i d s (handle_new_image env p i d s)
  new_image-Sends i d s =
      let u = new_image_use_case i d s in
      elim (Bool-cases (contains s.no_container_slugs i.no_container_slug)) [
        | inl y ↦ inl (u.0 y)
        | inr n ↦ inr (u.1 n)
      ]
