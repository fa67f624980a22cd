-- ===== src/Utils/Images.antt =====
-- utils/utils.go: image identifiers, and the data of one container of a pod.
pub mod Laws
use Prim.Native.Char.{code}
use Prim.Native.Nat.{compare, Ordering}
use kontroller.Base.{
  String, ◌||◌, Option, none, some, List, [], ◌∷◌, ◌==◌, if◌then◌else◌, Result, ok, err, ◌>>=◌,
}
use kontroller.Base.Dict.{Dict, insert}
use kontroller.Utils.Types.{
  Pod, Container, ContainerStatus, InstanceId, InstanceType, container, init_container,
  ephemeral_container, ContainerData,
}

abbrev pub docker_pullable_urn : String
docker_pullable_urn = "docker-pullable://"

-- The text behind a prefix, if it is there.
strip_prefix : String → String → Option String
strip_prefix String.[] s = some s
strip_prefix (String.◌∷◌ c p) String.[] = none
strip_prefix (String.◌∷◌ c p) (String.◌∷◌ d s) = elim (compare (code c) (code d)) [
  | Ordering.eq ↦ strip_prefix p s
  | _ ↦ none
]

-- `strings.TrimPrefix`
trim_prefix : String → String → String
unfolding strip_prefix
trim_prefix s p = elim (strip_prefix p s) [ some rest ↦ rest | none ↦ s ]

unfoldable pub extract_image_id : String → String
unfolding trim_prefix
extract_image_id image_id = trim_prefix image_id docker_pullable_urn

running_images : List ContainerStatus → Dict String → Dict String
running_images [] m = m
running_images (s ∷ rest) m =
    running_images rest (if s.running then insert s.name (extract_image_id s.image_id) m else m)

unfoldable pub extract_containers_to_image_ids_from_pod : Pod → Dict String
unfolding running_images
extract_containers_to_image_ids_from_pod pod =
    running_images pod.init_container_statuses (running_images pod.container_statuses [])

unfoldable pub get_image_from_status : InstanceId → List ContainerStatus → String × String
get_image_from_status i [] = ("", "")
get_image_from_status i (s ∷ rest) =
    if i.container_name == s.name
    then (s.image, extract_image_id s.image_id)
    else get_image_from_status i rest

unfoldable pub get_image_from_spec : InstanceId → List Container → String
get_image_from_spec i [] = ""
get_image_from_spec i (c ∷ rest) =
    if i.container_name == c.name then c.image else get_image_from_spec i rest

image_of_type : InstanceType → Pod → InstanceId → String × String
image_of_type container pod i =
    (get_image_from_spec i pod.containers, (get_image_from_status i pod.container_statuses).1)
image_of_type init_container pod i = (
  get_image_from_spec i pod.init_containers,
  (get_image_from_status i pod.init_container_statuses).1,
)
image_of_type ephemeral_container pod i = ("", "")

-- The image's tag and identifier, if both are known.
unfoldable pub get_image : Pod → InstanceId → Option (String × String)
unfolding image_of_type
get_image pod i =
    let (tag, id) = image_of_type i.instance_type pod i in
    if tag == "" || id == "" then none else some (tag, id)

pub record Workload : Type 0 where
  pub namespace : String
  pub name : String

-- What the operator asks of Kubernetes and of the identifier library about a workload.
pub record Parents : Type 0 where
  -- `json.Marshal` and `workloadinterface.NewWorkload`
  pub new_workload : Pod → Result Workload
  -- `CalculateWorkloadParentRecursive`: the parent's kind and name, and the error
  pub parent_recursive : Workload → String × String × Option String
  -- `pkgwlid.GetWLID`
  pub get_wlid : String → String → String → String → String

module _ (k : Parents) where
  parent_wlid : String → Workload → String × String × Option String → Result String
  parent_wlid cluster wl (kind, name, e) =
      if kind == "Node" then ok (k.get_wlid cluster wl.namespace wl.namespace wl.name) else elim e [
        | some message ↦ err message
        | none ↦ ok (k.get_wlid cluster wl.namespace kind name)
      ]

  unfoldable pub get_parent_id_for_pod : Pod → String → Result String
  unfolding parent_wlid
  get_parent_id_for_pod pod cluster = do
    wl ← k.new_workload pod
    parent_wlid cluster wl (k.parent_recursive wl)

  container_data_of : InstanceId → String → Option (String × String) → Result ContainerData
  container_data_of i wlid none = err "failed to get image ID"
  container_data_of i wlid (some (tag, id)) = ok (record {
    image_tag = tag;
    image_id = id;
    instance_id = i.string_formatted;
    container_name = i.container_name;
    container_type = i.instance_type;
    slug = i.slug;
    wlid = wlid;
  })

  unfoldable pub pod_to_container_data : Pod → InstanceId → String → Result ContainerData
  unfolding container_data_of
  pod_to_container_data pod i cluster = do
    wlid ← get_parent_id_for_pod pod cluster
    container_data_of i wlid (get_image pod i)
