-- ===== src/Watcher/Sbom.antt =====
-- watcher/sbomwatcher.go: what the handler of SBOM events does with each event that it receives,
-- with the errors of watcher/watchhandler.go.
use kontroller.Base.{
  String, ◌≡◌, ◌≢◌, ◌↔◌, refl, Bool, true, false, not, none, some, [], ◌∷◌, arith, if◌then◌else◌,
  Bool-cases, inl, inr, ◌⊎◌, Option-cases, ◌==◌, is_empty, contains, eq_iff, Memᴰ, contains_iff,
  Result, ok, err,
}
use kontroller.Base.Dict.{Dict, lookup}
use kontroller.Utils.Types.{
  Command, CommandNames, ContainerData, new_command, args_container_data, container_data,
  InstanceType,
}
use kontroller.Utils.Profile.{MetadataKeys, get_or_empty, scanned_statuses}
use kontroller.Watcher.Event.{
  Event, EventType, added, modified, deleted, bookmark, error, Object, pod, sbom_syft,
  application_profile, unstructured, other, SbomSyft,
}

-- The texts are the source's: that of a missing image ID and that of a missing image tag.
abbrev pub err_missing_image_id : String
err_missing_image_id = "missing image tag"

abbrev pub err_missing_image_tag : String
err_missing_image_tag = "missing image ID"

abbrev pub err_unsupported_object : String
err_unsupported_object = "unsupported object type"

-- What a handler puts on its channels for one event.
pub data Reaction : Type 0 where
  skips : Reaction
  reports : String → Reaction
  produces : Command → Reaction

-- The cases of the switch on the type that go on: any but these two.
abbrev pub is_handled_type : EventType → Bool
is_handled_type added = true
is_handled_type modified = true
is_handled_type deleted = false
is_handled_type bookmark = false
is_handled_type error = true

unfoldable pub validate_container_data : ContainerData → Result (Unit {0})
validate_container_data d =
    if d.image_id == ""
    then err err_missing_image_id
    else if d.image_tag == ""
    then err err_missing_image_tag
    else ok tt

module _ (keys : MetadataKeys) where
  unfoldable pub skip_sbom : Dict String → Bool
  skip_sbom annotations =
      if is_empty annotations then true else elim (lookup keys.status annotations) [
        | none ↦ false
        | some status ↦ not (contains (scanned_statuses keys) status)
      ]

  -- Only the image's fields are set.
  abbrev pub data_of_sbom : SbomSyft → ContainerData
  data_of_sbom s = record {
    image_tag = get_or_empty keys.image_tag s.annotations;
    image_id = get_or_empty keys.image_id s.annotations;
    instance_id = "";
    container_name = "";
    container_type = InstanceType.container;
    slug = "";
    wlid = "";
  }

  abbrev pub command_of_sbom : CommandNames → SbomSyft → Command
  command_of_sbom apis s =
      new_command apis.scan_images "" ((args_container_data, container_data (data_of_sbom s)) ∷ [])

  validated : CommandNames → SbomSyft → Result (Unit {0}) → Reaction
  validated apis s (err e) = reports e
  validated apis s (ok _) = produces (command_of_sbom apis s)

  handle_sbom : CommandNames → EventType → SbomSyft → Reaction
  unfolding validated
  handle_sbom apis t s =
      if not (is_handled_type t)
      then skips
      else if skip_sbom s.annotations
      then skips
      else validated apis s (validate_container_data (data_of_sbom s))

  handle_sbom_object : CommandNames → EventType → Object → Reaction
  unfolding handle_sbom
  handle_sbom_object apis t (sbom_syft s) = handle_sbom apis t s
  handle_sbom_object apis t (pod _) = reports err_unsupported_object
  handle_sbom_object apis t (application_profile _) = reports err_unsupported_object
  handle_sbom_object apis t (unstructured _ _) = reports err_unsupported_object
  handle_sbom_object apis t other = reports err_unsupported_object

  -- The body of the loop of `HandleSBOMEvents`, for one event.
  unfoldable pub handle_sbom_event : CommandNames → Event → Reaction
  unfolding handle_sbom_object
  handle_sbom_event apis e = handle_sbom_object apis e.type e.object

  -- An SBOM that is ready to be scanned: it has annotations, a status, if any, that is scanned, and
  -- the image's ID and tag.
  pub record IsScannableSbom (s : SbomSyft) : Type 0 where
    pub annotated : is_empty s.annotations ≡ false
    pub status :
        (v : String) → lookup keys.status s.annotations ≡ some v → Memᴰ v (scanned_statuses keys)
    pub image_id : get_or_empty keys.image_id s.annotations ≢ ""
    pub image_tag : get_or_empty keys.image_tag s.annotations ≢ ""

  skip_sbom_iff :
      (s : SbomSyft)
      → (skip_sbom s.annotations ≡ false) ↔ (
          (is_empty s.annotations ≡ false)
          × ((v : String)
              → lookup keys.status s.annotations ≡ some v
              → Memᴰ v (scanned_statuses keys)))
  unfolding skip_sbom
  skip_sbom_iff s = (
    λ h. (ground arith, λ v e. (contains_iff (scanned_statuses keys) v).0 (ground arith)),
    λ (a, h). elim (Option-cases (lookup keys.status s.annotations)) [
      | inl e ↦ ground arith
      | inr (v, e) ↦ let m = (contains_iff (scanned_statuses keys) v).1 (h v e) in ground (arith, m)
    ],
  )

  produced-IsScannable :
      (apis : CommandNames) (t : EventType) (s : SbomSyft) (c : Command)
      → handle_sbom apis t s ≡ produces c
      → (is_handled_type t ≡ true) × IsScannableSbom s × (c ≡ command_of_sbom apis s)
  unfolding handle_sbom validate_container_data
  produced-IsScannable apis t s c h = elim (Bool-cases (skip_sbom s.annotations)) [
    | inl y ↦ absurd (ground arith)
    | inr n ↦
        let (a, m) = (skip_sbom_iff s).0 n in
        (
          ground arith,
          record {
            annotated = a;
            status = m;
            image_id = λ e. ground (arith, eq_iff (get_or_empty keys.image_id s.annotations) "");
            image_tag = λ e. ground (arith, eq_iff (get_or_empty keys.image_tag s.annotations) "");
          },
          ground arith,
        )
  ]

  scannable-produces :
      (apis : CommandNames) (t : EventType) (s : SbomSyft)
      → is_handled_type t ≡ true
      → IsScannableSbom s
      → handle_sbom apis t s ≡ produces (command_of_sbom apis s)
  unfolding handle_sbom validate_container_data
  scannable-produces apis t s h v =
      let n = (skip_sbom_iff s).1 (v.annotated, v.status) in
      ground (
        arith,
        n,
        v.image_id,
        v.image_tag,
        eq_iff (get_or_empty keys.image_id s.annotations) "",
        eq_iff (get_or_empty keys.image_tag s.annotations) "",
      )

  object-cases :
      (o : Object)
      → ((s : SbomSyft) × (o ≡ sbom_syft s))
        ⊎ ((apis : CommandNames) (t : EventType)
            → handle_sbom_object apis t o ≡ reports err_unsupported_object)
  unfolding handle_sbom_object
  object-cases (sbom_syft s) = inl (s, refl)
  object-cases (pod _) = inr (λ apis t. refl)
  object-cases (application_profile _) = inr (λ apis t. refl)
  object-cases (unstructured _ _) = inr (λ apis t. refl)
  object-cases other = inr (λ apis t. refl)

  -- An event produces a command exactly if it is neither a deletion nor a bookmark and its object
  -- is an SBOM that is ready to be scanned. The command is to scan the SBOM's image.
  pub handle_sbom_event_iff :
      (apis : CommandNames) (e : Event) (c : Command)
      → (handle_sbom_event apis e ≡ produces c) ↔ (
          (s : SbomSyft) × (e.object ≡ sbom_syft s)
          × (is_handled_type e.type ≡ true)
          × IsScannableSbom s
          × (c ≡ command_of_sbom apis s))
  unfolding handle_sbom_event
  handle_sbom_event_iff apis e c = (
    λ h. elim (object-cases e.object) [
      | inr r ↦ absurd (cc (h, r apis e.type))
      | inl (s, o) ↦
          let (t, v, same) = produced-IsScannable apis e.type s c (rw o at h) in (s, o, t, v, same)
    ],
    λ (s, o, t, v, same). rw (o, same) (scannable-produces apis e.type s t v),
  )
