-- ===== src/Watcher/Profiles.antt =====
-- watcher/applicationprofilewatcher.go: what the handler of application profile events does with
-- each event that comes out of the cooldown queue.
use kontroller.Base.{
  ◌≡◌, ◌↔◌, refl, true, not, [], ◌∷◌, arith, if◌then◌else◌, Bool-cases, inl, inr, ◌⊎◌,
}
use kontroller.Utils.Types.{
  Command, new_command, args_name, args_namespace, text, command_scan_application_profile,
}
use kontroller.Utils.Profile.{
  MetadataKeys, ApplicationProfile, get_or_empty, skip_application_profile, IsScannable,
}
use kontroller.Utils.Profile.Scannable.{skip_application_profile_iff}
use kontroller.Watcher.Event.{
  Event, EventType, Object, pod, sbom_syft, application_profile, unstructured, other,
}
use kontroller.Watcher.Sbom.{
  Reaction, skips, reports, produces, is_handled_type, err_unsupported_object,
}

module _ (keys : MetadataKeys) where
  abbrev pub command_of_profile : ApplicationProfile → Command
  command_of_profile p =
      new_command command_scan_application_profile (get_or_empty keys.wlid p.annotations)
        ((args_name, text p.name) ∷ (args_namespace, text p.namespace) ∷ [])

  handle_profile : EventType → ApplicationProfile → Reaction
  handle_profile t p =
      if not (is_handled_type t)
      then skips
      else if (skip_application_profile keys p.annotations).0
      then skips
      else produces (command_of_profile p)

  handle_profile_object : EventType → Object → Reaction
  unfolding handle_profile
  handle_profile_object t (application_profile p) = handle_profile t p
  handle_profile_object t (pod _) = reports err_unsupported_object
  handle_profile_object t (sbom_syft _) = reports err_unsupported_object
  handle_profile_object t (unstructured _ _) = reports err_unsupported_object
  handle_profile_object t other = reports err_unsupported_object

  -- The body of the loop of `HandleApplicationProfileEvents`, for one event.
  unfoldable pub handle_profile_event : Event → Reaction
  unfolding handle_profile_object
  handle_profile_event e = handle_profile_object e.type e.object

  object-cases :
      (o : Object)
      → ((p : ApplicationProfile) × (o ≡ application_profile p))
        ⊎ ((t : EventType) → handle_profile_object t o ≡ reports err_unsupported_object)
  unfolding handle_profile_object
  object-cases (application_profile p) = inl (p, refl)
  object-cases (pod _) = inr (λ t. refl)
  object-cases (sbom_syft _) = inr (λ t. refl)
  object-cases (unstructured _ _) = inr (λ t. refl)
  object-cases other = inr (λ t. refl)

  produced-IsScannable :
      (t : EventType) (p : ApplicationProfile) (c : Command)
      → handle_profile t p ≡ produces c
      → (is_handled_type t ≡ true) × IsScannable keys p.annotations × (c ≡ command_of_profile p)
  unfolding handle_profile
  produced-IsScannable t p c h = elim (Bool-cases (skip_application_profile keys p.annotations).0) [
    | inl y ↦ absurd (ground arith)
    | inr n ↦ (ground arith, (skip_application_profile_iff keys p.annotations).0 n, ground arith)
  ]

  scannable-produces :
      (t : EventType) (p : ApplicationProfile)
      → is_handled_type t ≡ true
      → IsScannable keys p.annotations
      → handle_profile t p ≡ produces (command_of_profile p)
  unfolding handle_profile
  scannable-produces t p h v =
      let n = (skip_application_profile_iff keys p.annotations).1 v in ground (arith, n)

  -- An event produces a command exactly if its type is not a deletion or a bookmark and its object is
  -- an application profile that is scannable. The command names the profile and its workload.
  pub handle_profile_event_iff :
      (e : Event) (c : Command)
      → (handle_profile_event e ≡ produces c) ↔ (
          (p : ApplicationProfile) × (e.object ≡ application_profile p)
          × (is_handled_type e.type ≡ true)
          × IsScannable keys p.annotations
          × (c ≡ command_of_profile p))
  unfolding handle_profile_event
  handle_profile_event_iff e c = (
    λ h. elim (object-cases e.object) [
      | inr r ↦ absurd (cc (h, r e.type))
      | inl (p, o) ↦
          let (t, v, same) = produced-IsScannable e.type p c (rw o at h) in (p, o, t, v, same)
    ],
    λ (p, o, t, v, same). rw (o, same) (scannable-produces e.type p t v),
  )
