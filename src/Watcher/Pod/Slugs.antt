-- ===== src/Watcher/Pod/Slugs.antt =====
-- The two maps that `handlePodWatcher` builds from the instances of a pod.
use kontroller.Base.{
  String, ◌≡◌, ◌≢◌, Bool-cases, inl, inr, some, List, [], ◌∷◌, arith, eq_iff, ◌==◌, String-cases,
  eq-false,
}
use kontroller.Base.Dict.{Dict, lookup, insert, lookup-insert, lookup-nil}
use kontroller.Utils.Types.{Pod, ContainerStatus, InstanceId}
use kontroller.Utils.Images.{extract_image_id}
use kontroller.Watcher.Pod.{
  slugs_of_instances, slugs_of_status, slug_to_image, map_slug_to_instance_id,
  map_slugs_to_image_ids,
}

slugs_of_instances-keyed :
    (ids : List InstanceId) (m : Dict InstanceId)
    → ((s : String) (i : InstanceId) → lookup s m ≡ some i → i.slug ≡ s)
    → (s : String) (i : InstanceId) → lookup s (slugs_of_instances ids m) ≡ some i
    → i.slug ≡ s
unfolding slugs_of_instances
slugs_of_instances-keyed [] m h s i e = h s i e
slugs_of_instances-keyed (x ∷ ids) m h s i e =
    slugs_of_instances-keyed ids (insert x.slug x m)
      (λ t j g. ground (arith, lookup-insert x.slug t x m, eq_iff x.slug t, h t j)) s i e

-- An instance is kept under its own slug.
pub map_slug_to_instance_id-keyed :
    (ids : List InstanceId) (s : String) (i : InstanceId)
    → lookup s (map_slug_to_instance_id ids) ≡ some i
    → i.slug ≡ s
unfolding map_slug_to_instance_id
map_slug_to_instance_id-keyed ids =
    slugs_of_instances-keyed ids []
      (λ s i e. absurd (ground (arith, lookup-nil {V = InstanceId} s)))

-- No image is kept that has no identifier.
abbrev AllKnown : Dict String → Type 0
AllKnown m = (s image : String) → lookup s m ≡ some image → image ≢ ""

slugs_of_status-known :
    (ids : List InstanceId) (name image : String) (m : Dict String)
    → image ≢ ""
    → AllKnown m
    → AllKnown (slugs_of_status ids name image m)
unfolding slugs_of_status
slugs_of_status-known [] name image m n h = h
slugs_of_status-known (i ∷ ids) name image m n h = elim (Bool-cases (i.container_name == name)) [
  | inl y ↦ rw y (
      slugs_of_status-known ids name image (insert i.slug image m) n
        (λ s v e. ground (arith, lookup-insert i.slug s image m, h s v, n)))
  | inr y ↦ rw y (slugs_of_status-known ids name image m n h)
]

slug_to_image-known :
    (ids : List InstanceId) (m : Dict String) (statuses : List ContainerStatus)
    → AllKnown m
    → AllKnown (slug_to_image ids m statuses)
unfolding slug_to_image
slug_to_image-known ids m [] h = h
slug_to_image-known ids m (s ∷ rest) h = elim (String-cases (extract_image_id s.image_id) "") [
  | inl e ↦ rw ((eq_iff _ _).1 e) (slug_to_image-known ids m rest h)
  | inr n ↦
      let image = extract_image_id s.image_id in
      rw (eq-false _ _ n) (
        slug_to_image-known ids (slugs_of_status ids s.name image m) rest
          (slugs_of_status-known ids s.name image m n h))
]

-- Every image of the map has an identifier: containers without one are left out.
pub map_slugs_to_image_ids-known :
    (p : Pod) (ids : List InstanceId) (s image : String)
    → lookup s (map_slugs_to_image_ids p ids) ≡ some image
    → image ≢ ""
unfolding map_slugs_to_image_ids
map_slugs_to_image_ids-known p ids = slug_to_image-known ids _ p.ephemeral_container_statuses (
    slug_to_image-known ids _ p.init_container_statuses (
      slug_to_image-known ids [] p.container_statuses
        (λ s i e. absurd (ground (arith, lookup-nil {V = String} s)))))
