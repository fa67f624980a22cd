-- ===== src/Utils/Images/Laws.antt =====
-- What image identifiers and container data say (utils/utils.go).
use Prim.Native.String.append
use Prim.Native.String.{◌++◌}
use kontroller.Base.{
  String, ◌≡◌, ◌≢◌, some, arith, eq_iff, ok, Result-cases, Option-cases, inl, inr,
}
use kontroller.Utils.Types.{Pod, InstanceId, ContainerData}
use kontroller.Utils.Images.{
  strip_prefix, trim_prefix, docker_pullable_urn, extract_image_id, get_image, image_of_type,
  Parents, get_parent_id_for_pod, pod_to_container_data,
}

strip_prefix-append : (p s : String) → strip_prefix p (p ++ s) ≡ some s
unfolding strip_prefix
strip_prefix-append String.[] s = rw append.nil
strip_prefix-append (String.◌∷◌ c p) s = rw append.cons (ground (arith, strip_prefix-append p s))

trim_prefix-append : (p s : String) → trim_prefix (p ++ s) p ≡ s
unfolding trim_prefix
trim_prefix-append p s = ground (arith, strip_prefix-append p s)

-- A pullable reference and the bare identifier behind it are one image identifier.
pub extract_image_id-append : (s : String) → extract_image_id (docker_pullable_urn ++ s) ≡ s
extract_image_id-append s = unfold extract_image_id in trim_prefix-append docker_pullable_urn s

get_image_known :
    (pod : Pod) (i : InstanceId) (tag id : String)
    → get_image pod i ≡ some (tag, id)
    → (tag ≢ "") × (id ≢ "")
unfolding get_image
get_image_known pod i tag id h = (
  λ e. let (t, u) = image_of_type i.instance_type pod i in ground (arith, eq_iff t "", eq_iff u ""),
  λ e. let (t, u) = image_of_type i.instance_type pod i in ground (arith, eq_iff t "", eq_iff u ""),
)

module _ (k : Parents) (pod : Pod) (i : InstanceId) (cluster : String) where
  -- Container data is built only of a container whose image is known by tag and identifier, and
  -- carries the slug and the name of the instance that was asked for and its parent's identifier.
  pub pod_to_container_data_lem :
      (d : ContainerData)
      → pod_to_container_data k pod i cluster ≡ ok d
      → (d.slug ≡ i.slug)
        × (d.container_name ≡ i.container_name)
        × (get_image pod i ≡ some (d.image_tag, d.image_id))
        × (d.image_tag ≢ "")
        × (d.image_id ≢ "")
        × (get_parent_id_for_pod k pod cluster ≡ ok d.wlid)
  unfolding pod_to_container_data
  pod_to_container_data_lem d h = elim (Result-cases (get_parent_id_for_pod k pod cluster)) [
    | inr (e, p) ↦ ground (arith, p)
    | inl (w, p) ↦ elim (Option-cases (get_image pod i)) [
      | inl q ↦ ground (arith, p, q)
      | inr ((tag, id), q) ↦ ground (arith, p, q, get_image_known pod i tag id q)
    ]
  ]
