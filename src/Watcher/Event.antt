-- ===== src/Watcher/Event.antt =====
-- The events of a Kubernetes watch, and the objects that they carry, as far as the operator reads
-- them.
use Prim.Native.String.{◌++◌}
use kontroller.Base.{String, Option, none, some, List, [], ◌∷◌}
use kontroller.Base.Dict.{Dict}
use kontroller.Utils.Types.{Pod}
use kontroller.Utils.Profile.{ApplicationProfile}

pub data EventType : Type 0 where
  added modified deleted bookmark error : EventType

pub record SbomSyft : Type 0 where
  pub name : String
  pub namespace : String
  pub annotations : Dict String

-- An object of the dynamic client: `other` objects have no metadata.
pub data Object : Type 0 where
  pod : Pod → Object
  sbom_syft : SbomSyft → Object
  application_profile : ApplicationProfile → Object
  unstructured : String → String → Object
  other : Object

pub record Gvk : Type 0 where
  pub group : String
  pub version : String
  pub kind : String

pub record Event : Type 0 where
  pub type : EventType
  pub gvk : Gvk
  pub object : Object

-- Namespace and name, for an object that implements `metav1.Object`.
abbrev pub meta_of : Object → Option (String × String)
meta_of (pod p) = some (p.namespace, p.name)
meta_of (sbom_syft s) = some (s.namespace, s.name)
meta_of (application_profile p) = some (p.namespace, p.name)
meta_of (unstructured ns name) = some (ns, name)
meta_of other = none

-- `strings.Join`
unfoldable pub join : String → List String → String
join sep [] = ""
join sep (x ∷ []) = x
join sep (x ∷ y ∷ rest) = x ++ (sep ++ join sep (y ∷ rest))
