-- ===== src/Watcher/Pod.antt =====
-- watcher/podwatcher.go and watcher/watchhandler.go: which images and application profiles of a pod
-- are sent to be scanned. The pool that takes the commands, the storage and the libraries that name
-- instances are the environment; a command that is sent is one that is handed to the pool.
pub mod Slugs
pub mod Settled
pub mod UseCases
pub mod Sound
use Prim.Native.String.{◌++◌ as str_append}
use kontroller.Base.{
  String, Bool, true, false, Option, none, some, List, [], ◌∷◌, ◌++◌, ◌==◌, if◌then◌else◌, contains,
  Result, ok, err, is_empty,
}
use kontroller.Base.Dict.{Dict, lookup, insert, keys}
use kontroller.Utils.Types.{
  Pod, ContainerStatus, InstanceId, ContainerData, Command, CommandNames, new_command,
  container_data, pod, args_container_data, args_pod,
}
use kontroller.Utils.Images.{Parents, extract_image_id, pod_to_container_data}
use kontroller.Utils.Profile.{
  MetadataKeys, ApplicationProfile, get_application_profile_for_relevancy_scan,
  get_application_profile_scan_command,
}

-- The two caches of `WatchHandler`.
pub record WatchHandler : Type 0 where
  pub slug_to_image_id : Dict String
  pub wlid_and_image_id : List String

pub record PodEnv : Type 0 where
  pub apis : CommandNames
  pub metadata : MetadataKeys
  pub parents : Parents
  pub cluster : String
  -- `instanceidhandlerv1.GenerateInstanceID`
  pub generate_instance_id : Pod → Result (List InstanceId)
  -- the storage's application profile under a slug and a namespace
  pub get_profile : String → String → Option ApplicationProfile

-- `getWlidAndImageID` of watcher/utils.go
unfoldable pub get_wlid_and_image_id : ContainerData → String
get_wlid_and_image_id d = str_append d.wlid (str_append d.container_name d.image_id)

-- `Add` of a set of strings
unfoldable pub add : String → List String → List String
add s set = if contains set s then set else s ∷ set

-- the inner loop of `slugToImage`, for one container status
slugs_of_status : List InstanceId → String → String → Dict String → Dict String
slugs_of_status [] name image m = m
slugs_of_status (i ∷ rest) name image m =
    slugs_of_status rest name image (if i.container_name == name then insert i.slug image m else m)

unfoldable pub slug_to_image : List InstanceId → Dict String → List ContainerStatus → Dict String
unfolding slugs_of_status
slug_to_image ids m [] = m
slug_to_image ids m (s ∷ rest) =
    let image = extract_image_id s.image_id in
    slug_to_image ids (if image == "" then m else slugs_of_status ids s.name image m) rest

unfoldable pub map_slugs_to_image_ids : Pod → List InstanceId → Dict String
unfolding slug_to_image
map_slugs_to_image_ids p ids =
    let regular = slug_to_image ids [] p.container_statuses in
    let with_init = slug_to_image ids regular p.init_container_statuses in
    slug_to_image ids with_init p.ephemeral_container_statuses

slugs_of_instances : List InstanceId → Dict InstanceId → Dict InstanceId
slugs_of_instances [] m = m
slugs_of_instances (i ∷ rest) m = slugs_of_instances rest (insert i.slug i m)

unfoldable pub map_slug_to_instance_id : List InstanceId → Dict InstanceId
unfolding slugs_of_instances
map_slug_to_instance_id ids = slugs_of_instances ids []

-- The command of `scanImage`.
unfoldable pub scan_image_command : CommandNames → Pod → ContainerData → Command
scan_image_command apis p d =
    new_command apis.scan_images d.wlid
      ((args_container_data, container_data d) ∷ (args_pod, pod p) ∷ [])

-- What the loop of `handlePodWatcher` changes: the handler's caches, the profiles that this event
-- had scanned, and the commands sent.
pub record Scan : Type 0 where
  pub handler : WatchHandler
  pub no_container_slugs : List String
  pub sent : List Command

abbrev pub cache_slug : String → String → Scan → Scan
cache_slug slug image s = record s {
  handler = record s.handler { slug_to_image_id = insert slug image s.handler.slug_to_image_id };
}

abbrev pub cache_wlid : ContainerData → Scan → Scan
cache_wlid d s = record s {
  handler = record s.handler {
    wlid_and_image_id = add (get_wlid_and_image_id d) s.handler.wlid_and_image_id;
  };
}

module _ (env : PodEnv) (p : Pod) where
  -- `scanApplicationProfile` if there is a profile, else `scanImage`
  unfoldable pub scan : InstanceId → ContainerData → Scan → Scan
  scan i d s =
      elim (get_application_profile_for_relevancy_scan env.metadata env.get_profile
        i.no_container_slug p.namespace) [
          | some profile ↦ record s {
            sent =
                s.sent ++ get_application_profile_scan_command env.metadata env.apis profile ∷ [];
            no_container_slugs = add i.no_container_slug s.no_container_slugs;
          }
          | none ↦ record s { sent = s.sent ++ scan_image_command env.apis p d ∷ [] }
        ]

  -- use-case 4: the slug is cached with another image
  unfoldable pub handle_new_image : InstanceId → ContainerData → Scan → Scan
  handle_new_image i d s =
      if contains s.no_container_slugs i.no_container_slug
      then cache_wlid d (cache_slug d.slug d.image_id s)
      else cache_wlid d (cache_slug d.slug d.image_id (scan i d s))

  -- use-cases 1, 2, 3 and 5: the slug is not cached
  unfoldable pub handle_new_slug : InstanceId → ContainerData → Scan → Scan
  handle_new_slug i d s =
      let t = cache_slug d.slug d.image_id s in
      if contains t.handler.wlid_and_image_id (get_wlid_and_image_id d)
      then t
      else if contains t.no_container_slugs i.no_container_slug
      then cache_wlid d t
      else cache_wlid d (scan i d t)

  with_container_data :
      (InstanceId → ContainerData → Scan → Scan) → InstanceId → Result ContainerData → Scan → Scan
  with_container_data handle i (err _) s = s
  with_container_data handle i (ok d) s = handle i d s

  -- The instance of a slug of the images is always there: both maps are made from the instances.
  with_instance : (InstanceId → ContainerData → Scan → Scan) → Option InstanceId → Scan → Scan
  unfolding with_container_data
  with_instance handle none s = s
  with_instance handle (some i) s =
      with_container_data handle i (pod_to_container_data env.parents p i env.cluster) s

  -- The body of the loop, for one slug and its image.
  unfoldable pub handle_slug : Dict InstanceId → Dict String → String → Scan → Scan
  unfolding with_instance
  handle_slug instances images slug s = elim (lookup slug s.handler.slug_to_image_id) [
    | none ↦ with_instance handle_new_slug (lookup slug instances) s
    | some image ↦ elim (lookup slug images) [
      | none ↦ s
      | some new ↦
          if image == new then s else with_instance handle_new_image (lookup slug instances) s
    ]
  ]

  unfoldable pub handle_slugs : Dict InstanceId → Dict String → List String → Scan → Scan
  handle_slugs instances images [] s = s
  handle_slugs instances images (slug ∷ rest) s =
      handle_slugs instances images rest (handle_slug instances images slug s)

  -- `order` is the order in which Go ranges over the map of images, which may be any.
  handle_instances : List String → Result (List InstanceId) → WatchHandler → Scan
  handle_instances order (err _) wh = record { handler = wh; no_container_slugs = []; sent = [] }
  handle_instances order (ok ids) wh =
      handle_slugs (map_slug_to_instance_id ids) (map_slugs_to_image_ids p ids) order
        (record { handler = wh; no_container_slugs = []; sent = [] })

  -- One call. A delayed pod is handled on a timer's goroutine: the calls are taken here one after the
  -- other, each with the caches that the one before it leaves.
  unfoldable pub handle_pod_watcher : List String → WatchHandler → Scan
  unfolding handle_instances
  handle_pod_watcher order wh = handle_instances order (env.generate_instance_id p) wh
