-- ===== src/Utils/Profile/Scannable.antt =====
-- When an application profile is scanned (utils/applicationprofile.go).
use kontroller.Base.{
  String, true, false, Option, none, some, [], ◌∷◌, is_empty, ◌≡◌, ◌↔◌, arith, eq_iff, Option-cases,
  Bool-cases, inl, inr, contains_iff, refl, ap,
}
use kontroller.Base.Dict.{Dict, lookup}
use kontroller.Utils.Profile.{
  MetadataKeys, ApplicationProfile, IsScannable, skip_application_profile, scanned_statuses,
  get_application_profile_for_relevancy_scan, is_scanned_status,
}

found-nonempty :
    (k : String) (m : Dict String) {v : String} → lookup k m ≡ some v → is_empty m ≡ false
unfolding lookup
found-nonempty k [] h = cc
found-nonempty k (x ∷ m) h = refl

module _ (keys : MetadataKeys) (annotations : Dict String) where
  abbrev at : String → Option String
  at k = lookup k annotations

  IsScannable-of_skip :
      (skip_application_profile keys annotations).0 ≡ false → IsScannable keys annotations
  unfolding skip_application_profile
  IsScannable-of_skip h = elim (Option-cases (at keys.completion)) [
    | inl e ↦ absurd (ground arith)
    | inr (c, ec) ↦ elim (Option-cases (at keys.instance_id)) [
      | inl e ↦ absurd (ground arith)
      | inr (i, ei) ↦ elim (Option-cases (at keys.wlid)) [
        | inl e ↦ absurd (ground arith)
        | inr (w, ew) ↦ record {
          complete = ground (arith, eq_iff c keys.complete);
          status = λ s es. (contains_iff (scanned_statuses keys) s).0 (ground arith);
          instance = (i, ei, λ e. ground (arith, eq_iff i ""));
          wlid = (w, ew, λ e. ground (arith, eq_iff w ""));
        }
      ]
    ]
  ]

  status_of_scannable :
      IsScannable keys annotations → is_scanned_status keys (at keys.status) ≡ true
  status_of_scannable v = elim (Option-cases (at keys.status)) [
    | inl e ↦ rw e
    | inr (s, e) ↦ rw e ((contains_iff (scanned_statuses keys) s).1 (v.status s e))
  ]

  skip_of_scannable :
      IsScannable keys annotations → skip_application_profile keys annotations ≡ (false, none)
  unfolding skip_application_profile
  skip_of_scannable v =
      let (i, ei, ni) = v.instance in
      let (w, ew, nw) = v.wlid in
      ground (
        arith,
        found-nonempty keys.completion annotations v.complete,
        status_of_scannable v,
        v.complete,
        ei,
        ew,
        eq_iff keys.complete keys.complete,
        eq_iff i "",
        eq_iff w "",
      )

  -- A profile is scanned exactly if its annotations say that it is complete, give no status but the
  -- three that are scanned, and name its instance and its workload.
  pub skip_application_profile_iff :
      ((skip_application_profile keys annotations).0 ≡ false) ↔ IsScannable keys annotations
  skip_application_profile_iff = (IsScannable-of_skip, λ v. ap (λ r. r.0) (skip_of_scannable v))

-- What the relevancy scan gets is a scannable profile that the storage holds under the slug.
pub get_application_profile_IsScannable :
    (keys : MetadataKeys) (get : String → String → Option ApplicationProfile) (slug ns : String)
    (p : ApplicationProfile)
    → get_application_profile_for_relevancy_scan keys get slug ns ≡ some p
    → (get slug ns ≡ some p) × IsScannable keys p.annotations
unfolding get_application_profile_for_relevancy_scan
get_application_profile_IsScannable keys get slug ns p h = elim (Option-cases (get slug ns)) [
  | inl e ↦ absurd (ground arith)
  | inr (q, e) ↦ elim (Bool-cases (skip_application_profile keys q.annotations).0) [
    | inl y ↦ absurd (ground arith)
    | inr n ↦
        let same : q ≡ p = ground arith in
        (ground arith, rw (← same) (IsScannable-of_skip keys q.annotations n))
  ]
]

-- Where it gets none, the storage holds no scannable profile under the slug.
pub get_application_profile-none :
    (keys : MetadataKeys) (get : String → String → Option ApplicationProfile) (slug ns : String)
    → get_application_profile_for_relevancy_scan keys get slug ns ≡ none
    → (p : ApplicationProfile) → get slug ns ≡ some p
    → ¬ IsScannable keys p.annotations
unfolding get_application_profile_for_relevancy_scan
get_application_profile-none keys get slug ns h p e v =
    let skip = (skip_application_profile_iff keys p.annotations).1 v in ground (arith, h, e, skip)
