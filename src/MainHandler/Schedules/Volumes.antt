-- ===== src/MainHandler/Schedules/Volumes.antt =====
-- mainhandler/cronjobhandler.go: what the loop over the volumes does to a template, and when it panics.
use kontroller.Base.{
  String, ◌≡◌, ◌≢◌, ◌↔◌, refl, none, some, List, [], ◌∷◌, ◌==◌, arith, if◌then◌else◌, All, eq_iff,
  Memᴰ, mem-cons-cases, ◌⊎◌, inl, inr, Bool-cases, Option-cases,
}
use kontroller.Base.Dict.{insert}
use kontroller.Cluster.{CronJob, Volume}
use kontroller.Cluster.Steps.{Ended, returned, failed, panicked}
use kontroller.MainHandler.Schedules.Templates.{
  annotate, update_volumes, named_cron_job, filled, update_volume, then_volumes,
  request_volume_name,
}

-- A volume that stands for the request but has no config map.
abbrev pub IsBroken : Volume → Type 0
IsBroken v = (v.name ≡ request_volume_name) × (v.config_map ≡ none)

-- The volumes refer to the request of that name.
abbrev pub Mounts : String → Volume → Type 0
Mounts name v = v.name ≡ request_volume_name → v.config_map ≡ some name

update_volume-Mounts :
    (name : String) (v out : Volume) → update_volume name v ≡ returned out → Mounts name out
unfolding update_volume
update_volume-Mounts name v out h e = elim (Bool-cases (v.name == request_volume_name)) [
  | inr n ↦ absurd (ground (arith, h, e, n, eq_iff v.name request_volume_name))
  | inl y ↦ elim (Option-cases v.config_map) [
    | inl p ↦ absurd (ground (arith, h, y, p))
    | inr (old, p) ↦ ground (arith, h, y, p)
  ]
]

then_volumes-returned :
    (x : Ended Volume) (y : Ended (List Volume)) (out : List Volume)
    → then_volumes x y ≡ returned out
    → (v : Volume) × (others : List Volume) × (x ≡ returned v)
      × (y ≡ returned others)
      × (v ∷ others ≡ out)
then_volumes-returned (returned v) (returned others) out h =
    (v, others, refl, refl, ground (arith, h))
then_volumes-returned (returned v) (failed e) out h = absurd cc
then_volumes-returned (returned v) panicked out h = absurd cc
then_volumes-returned (failed e) y out h = absurd cc
then_volumes-returned panicked y out h = absurd cc

pub update_volumes-Mounts :
    (name : String) (vs out : List Volume)
    → update_volumes name vs ≡ returned out
    → All (Mounts name) out
unfolding update_volumes
update_volumes-Mounts name [] [] h = tt
update_volumes-Mounts name [] (v ∷ out) h = absurd (ground (arith, h))
update_volumes-Mounts name (v ∷ rest) out h =
    let (w, others, p, q, e) =
      then_volumes-returned (update_volume name v) (update_volumes name rest) out h in
    rw (← e) (update_volume-Mounts name v w p, update_volumes-Mounts name rest others q)

update_volume_panics : (name : String) (v : Volume) → (update_volume name v ≡ panicked) ↔ IsBroken v
unfolding update_volume
update_volume_panics name v = elim (Bool-cases (v.name == request_volume_name)) [
  | inr n ↦ (
    λ h. absurd (ground (arith, h, n)),
    λ (e, p). absurd (ground (arith, e, n, eq_iff v.name request_volume_name)),
  )
  | inl y ↦ elim (Option-cases v.config_map) [
    | inl p ↦ (λ h. ((eq_iff v.name request_volume_name).0 y, p), λ b. rw (y, p) refl)
    | inr (old, p) ↦ (λ h. absurd (ground (arith, h, y, p)), λ b. absurd (ground (arith, b, p)))
  ]
]

update_volume_fails : (name : String) (v : Volume) (e : String) → update_volume name v ≢ failed e
unfolding update_volume
update_volume_fails name v e h = elim (Bool-cases (v.name == request_volume_name)) [
  | inr n ↦ absurd (ground (arith, h, n))
  | inl y ↦ elim (Option-cases v.config_map) [
    | inl p ↦ absurd (ground (arith, h, y, p))
    | inr (old, p) ↦ absurd (ground (arith, h, y, p))
  ]
]

then_volumes-panicked :
    (x : Ended Volume) (y : Ended (List Volume))
    → then_volumes x y ≡ panicked
    → (x ≡ panicked) ⊎ (y ≡ panicked)
then_volumes-panicked (returned v) (returned others) h = absurd cc
then_volumes-panicked (returned v) (failed e) h = absurd cc
then_volumes-panicked (returned v) panicked h = inr refl
then_volumes-panicked (failed e) y h = absurd cc
then_volumes-panicked panicked y h = inl refl

then_volumes_panics :
    (x : Ended Volume) (y : Ended (List Volume))
    → ((e : String) → x ≢ failed e)
    → y ≡ panicked
    → then_volumes x y ≡ panicked
then_volumes_panics (returned v) y n h = rw h refl
then_volumes_panics (failed e) y n h = absurd (n e refl)
then_volumes_panics panicked y n h = refl

then_volumes_fails :
    (x : Ended Volume) (y : Ended (List Volume))
    → ((e : String) → x ≢ failed e)
    → ((e : String) → y ≢ failed e)
    → (e : String) → then_volumes x y ≢ failed e
then_volumes_fails (returned v) (returned others) n m e h = cc
then_volumes_fails (returned v) (failed f) n m e h = m f refl
then_volumes_fails (returned v) panicked n m e h = cc
then_volumes_fails (failed f) y n m e h = n f refl
then_volumes_fails panicked y n m e h = cc

update_volumes_fails :
    (name : String) (vs : List Volume) (e : String) → update_volumes name vs ≢ failed e
unfolding update_volumes
update_volumes_fails name [] e h = cc
update_volumes_fails name (v ∷ rest) e h =
    then_volumes_fails (update_volume name v) (update_volumes name rest)
      (update_volume_fails name v) (update_volumes_fails name rest) e h

volumes-panicked :
    (name : String) (vs : List Volume)
    → update_volumes name vs ≡ panicked
    → (v : Volume) × Memᴰ v vs × IsBroken v
unfolding update_volumes
volumes-panicked name [] h = absurd cc
volumes-panicked name (v ∷ rest) h =
    elim (then_volumes-panicked (update_volume name v) (update_volumes name rest) h) [
      | inl p ↦ (v, Memᴰ.head refl, (update_volume_panics name v).0 p)
      | inr p ↦ let (w, m, b) = volumes-panicked name rest p in (w, Memᴰ.tail m, b)
    ]

volumes_panic :
    (name : String) (vs : List Volume) (v : Volume)
    → Memᴰ v vs
    → IsBroken v
    → update_volumes name vs ≡ panicked
unfolding update_volumes
volumes_panic name [] v m b = elim m [ ]
volumes_panic name (w ∷ rest) v m b = elim (mem-cons-cases m) [
  | inl e ↦ rw ((update_volume_panics name w).1 (rw (← e) b)) refl
  | inr n ↦
      then_volumes_panics (update_volume name w) (update_volumes name rest)
        (update_volume_fails name w) (volumes_panic name rest v n b)
]

filled_ends :
    (name schedule : String) (notes : List (String × String)) (t : CronJob)
    (v : Ended (List Volume))
    → ((filled name schedule notes t v ≡ panicked) ↔ (v ≡ panicked))
      × ((e : String) → filled name schedule notes t v ≡ failed e → v ≡ failed e)
filled_ends name schedule notes t (returned vs) =
    ((λ h. absurd cc, λ h. absurd cc), λ e h. absurd cc)
filled_ends name schedule notes t (failed e) =
    ((λ h. absurd cc, λ h. absurd cc), λ f h. ground (arith, h))
filled_ends name schedule notes t panicked = ((λ h. refl, λ h. refl), λ e h. absurd cc)

-- Setting a cron job up panics exactly if its template has a volume for the request that is not a
-- config map, and it returns no error.
pub named_cron_job_panics :
    (name schedule : String) (notes : List (String × String)) (t : CronJob)
    → ((named_cron_job name schedule notes t ≡ panicked)
        ↔ ((v : Volume) × Memᴰ v t.job.volumes × IsBroken v))
      × ((e : String) → named_cron_job name schedule notes t ≢ failed e)
unfolding named_cron_job
named_cron_job_panics name schedule notes t =
    let (f, g) = filled_ends name schedule notes t (update_volumes name t.job.volumes) in
    (
      (
        λ h. volumes-panicked name t.job.volumes (f.0 h),
        λ (v, m, b). f.1 (volumes_panic name t.job.volumes v m b),
      ),
      λ e h. update_volumes_fails name t.job.volumes e (g e h),
    )

pub returned_injective {ℓ} : {A : Type ℓ} {a b : A} → returned a ≡ returned b → a ≡ b
returned_injective h = cc

pub annotate_kept :
    (notes : List (String × String)) (j : CronJob)
    → ((annotate notes j).schedule ≡ j.schedule)
      × ((annotate notes j).job.volumes ≡ j.job.volumes)
      × ((annotate notes j).name ≡ j.name)
annotate_kept [] j = (refl, refl, refl)
annotate_kept ((k, v) ∷ rest) j = annotate_kept rest _

pub filled-name :
    (name schedule : String) (notes : List (String × String)) (t j : CronJob)
    (v : Ended (List Volume))
    → filled name schedule notes t v ≡ returned j
    → j.name ≡ name
filled-name name schedule notes t j (returned volumes) h =
    let c0 = record t {
      name = name;
      schedule = if schedule == "" then t.schedule else schedule;
      job = record t.job { volumes = volumes };
      labels = insert "app" name t.labels;
    } in
    rw (← returned_injective h) (annotate_kept notes c0).2
filled-name name schedule notes t j (failed e) h = absurd cc
filled-name name schedule notes t j panicked h = absurd cc
