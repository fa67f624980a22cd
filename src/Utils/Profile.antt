-- ===== src/Utils/Profile.antt =====
-- utils/applicationprofile.go: which application profiles are scanned, and the command that does it.
pub mod Scannable
use kontroller.Base.{
  String, Bool, true, false, not, Option, none, some, List, [], ◌∷◌, ◌==◌, is_empty, contains,
  if◌then◌else◌, ◌≡◌, ◌≢◌, Memᴰ,
}
use kontroller.Base.Dict.{Dict, lookup}
use kontroller.Utils.Types.{Command, CommandNames, args_name, args_namespace, text, new_command}

-- The annotation keys and values of `instanceidhandler/v1/helpers`.
pub record MetadataKeys : Type 0 where
  pub completion : String
  pub complete : String
  pub status : String
  pub ready : String
  pub completed : String
  pub instance_id : String
  pub wlid : String
  pub image_id : String
  pub image_tag : String

pub record ApplicationProfile : Type 0 where
  pub name : String
  pub namespace : String
  pub annotations : Dict String

-- A Go map read yields the zero value where the key is missing.
abbrev pub get_or_empty : String → Dict String → String
get_or_empty k m = elim (lookup k m) [ none ↦ "" | some v ↦ v ]

module _ (keys : MetadataKeys) where
  -- the statuses that are scanned; the empty one is for backward compatibility
  abbrev pub scanned_statuses : List String
  scanned_statuses = "" ∷ keys.ready ∷ keys.completed ∷ []

  abbrev is_complete : Option String → Bool
  is_complete none = false
  is_complete (some s) = s == keys.complete

  abbrev pub is_scanned_status : Option String → Bool
  is_scanned_status none = true
  is_scanned_status (some s) = contains scanned_statuses s

  abbrev is_given : Option String → Bool
  is_given none = false
  is_given (some s) = not (s == "")

  -- whether to skip, and the reason
  unfoldable pub skip_application_profile : Dict String → Bool × Option String
  skip_application_profile annotations =
      if is_empty annotations
      then (true, some "no annotations")
      else if not (is_complete (lookup keys.completion annotations))
      then (true, some "partial - workload restart required")
      else if not (is_scanned_status (lookup keys.status annotations))
      then (true, some "invalid status")
      else if not (is_given (lookup keys.instance_id annotations))
      then (true, some "missing InstanceID annotation")
      else if not (is_given (lookup keys.wlid annotations))
      then (true, some "missing WLID annotation")
      else (false, none)

  -- `get slug namespace` is the storage's answer: `none` for an error or no object.
  unfoldable pub get_application_profile_for_relevancy_scan :
      (String → String → Option ApplicationProfile) → String → String → Option ApplicationProfile
  get_application_profile_for_relevancy_scan get slug namespace = elim (get slug namespace) [
    | none ↦ none
    | some p ↦ if (skip_application_profile p.annotations).0 then none else some p
  ]

  unfoldable pub get_application_profile_scan_command : CommandNames → ApplicationProfile → Command
  get_application_profile_scan_command apis p =
      new_command apis.scan_application_profile (get_or_empty keys.wlid p.annotations)
        ((args_name, text p.name) ∷ (args_namespace, text p.namespace) ∷ [])

  -- What a profile's annotations must say for it to be scanned.
  pub record IsScannable (annotations : Dict String) : Type 0 where
    pub complete : lookup keys.completion annotations ≡ some keys.complete
    pub status : (s : String) → lookup keys.status annotations ≡ some s → Memᴰ s scanned_statuses
    pub instance : (s : String) × (lookup keys.instance_id annotations ≡ some s) × (s ≢ "")
    pub wlid : (s : String) × (lookup keys.wlid annotations ≡ some s) × (s ≢ "")
