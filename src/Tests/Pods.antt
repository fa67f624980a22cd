-- ===== src/Tests/Pods.antt =====
-- The pod watcher, at concrete inputs.
use kontroller.Base.{◌≤◌, String, ◌≡◌, refl, some, List, [], ◌∷◌, All, ok, arith, length}
use kontroller.Base.Dict.{lookup, insert}
use kontroller.Utils.Types.{InstanceId, ContainerData}
use kontroller.Utils.Images.{
  pod_to_container_data, get_parent_id_for_pod, get_image, get_image_from_spec,
  get_image_from_status, extract_image_id,
}
use kontroller.Utils.Profile.{get_application_profile_for_relevancy_scan, skip_application_profile}
use kontroller.Watcher.Pod.{
  Scan, handle_pod_watcher, map_slug_to_instance_id, map_slugs_to_image_ids, slug_to_image,
}
use kontroller.Watcher.Pod.Settled.{handled_again}
use kontroller.Watcher.Pod.Sound.{IsSound, handle_pod_watcher-IsSound, handle_pod_watcher_once}
use kontroller.Tests.Fixtures.{
  sample_pod, sample_instance, sample_env, sample_data, sample_keys, sample_profile, sample_parents,
  no_caches, profile_of_web,
}

abbrev ids : List InstanceId
ids = sample_instance ∷ []

abbrev start : Scan
start = record { handler = no_caches; no_container_slugs = []; sent = [] }

handle_pod_watcher-IsSound_example :
    All
      (IsSound sample_env sample_pod (map_slug_to_instance_id ids))
      (handle_pod_watcher sample_env sample_pod ("web-nginx" ∷ []) no_caches).sent
handle_pod_watcher-IsSound_example =
    handle_pod_watcher-IsSound sample_env sample_pod ("web-nginx" ∷ []) no_caches ids refl

found_sample :
    get_application_profile_for_relevancy_scan sample_keys profile_of_web "web" "shop"
    ≡ some sample_profile
unfolding get_application_profile_for_relevancy_scan skip_application_profile lookup
found_sample = refl

instances_of_sample :
    (j : String) (i : InstanceId)
    → lookup j (map_slug_to_instance_id ids) ≡ some i
    → i ≡ sample_instance
unfolding map_slug_to_instance_id lookup insert
instances_of_sample j i h = ground arith

slugs_of_sample :
    (j : String) (i : InstanceId)
    → lookup j (map_slug_to_instance_id ids) ≡ some i
    → i.no_container_slug ≡ "web"
slugs_of_sample j i h = cc (instances_of_sample j i h)

handle_pod_watcher_once_example :
    length (handle_pod_watcher sample_env sample_pod ("web-nginx" ∷ []) no_caches).sent ≤ 1
handle_pod_watcher_once_example =
    handle_pod_watcher_once sample_env sample_pod "web" sample_profile found_sample
      ("web-nginx" ∷ []) no_caches ids refl slugs_of_sample

data_of_sample :
    pod_to_container_data sample_parents sample_pod sample_instance "prod" ≡ ok sample_data
unfolding pod_to_container_data get_parent_id_for_pod get_image get_image_from_spec
    get_image_from_status extract_image_id
data_of_sample = refl

images_of_sample :
    (j : String) (i : InstanceId) (d : ContainerData)
    → lookup j (map_slug_to_instance_id ids) ≡ some i
    → pod_to_container_data sample_parents sample_pod i "prod" ≡ ok d
    → lookup j (map_slugs_to_image_ids sample_pod ids) ≡ some d.image_id
unfolding map_slugs_to_image_ids slug_to_image map_slug_to_instance_id lookup insert
    extract_image_id
images_of_sample j i d h k =
    let f : i ≡ sample_instance = instances_of_sample j i h in
    let g : d ≡ sample_data = ground (arith, k, rw f at k, data_of_sample) in ground (arith, h, g)

handled_again_example :
    let seen = (handle_pod_watcher sample_env sample_pod ("web-nginx" ∷ []) no_caches).handler in
    handle_pod_watcher sample_env sample_pod ("web-nginx" ∷ []) seen
    ≡ record { handler = seen; no_container_slugs = []; sent = [] }
handled_again_example =
    handled_again sample_env sample_pod no_caches ids ("web-nginx" ∷ []) ("web-nginx" ∷ []) refl
      (λ j m. m) images_of_sample
