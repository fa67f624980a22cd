-- ===== src/MainHandler/Images/Repeated.antt =====
-- A profile that one scoped image scan has scanned more than once.
use kontroller.Base.{
  String, ◌≡◌, ◌≢◌, false, some, [], ◌∷◌, ◌++◌, contains, Result, ok, err, arith, eq_iff, refl,
}
use mathlib.Core.List.{append_assoc}
use kontroller.Utils.Types.{Pod, InstanceId, ContainerData, Command, SessionObj}
use kontroller.Utils.Images.{pod_to_container_data}
use kontroller.Utils.Profile.{
  ApplicationProfile, get_application_profile_for_relevancy_scan,
  get_application_profile_scan_command,
}
use kontroller.Watcher.Pod.{add}
use kontroller.MainHandler.Images.{
  ScopeEnv, Progress, trigger, scan_container, with_data, scan_instance, scan_instances, finish,
}

module _ (env : ScopeEnv) (request : SessionObj) where
  finish-triggered :
      (slug : String) (r : Result (Unit {0})) (s : Progress)
      → (finish env request slug r s).triggered ≡ s.triggered
  finish-triggered slug (err e) s = refl
  finish-triggered slug (ok _) s = refl

  trigger-triggered :
      (slug : String) (c : Command) (s : Progress)
      → (trigger env request slug c s).triggered ≡ s.triggered ++ c ∷ []
  unfolding trigger
  trigger-triggered slug c s = ground arith

  -- A slug that is not the one that is marked stays unmarked.
  trigger-unmarked :
      (slug x : String) (c : Command) (s : Progress)
      → x ≢ slug
      → contains s.slugs x ≡ false
      → contains (trigger env request slug c s).slugs x ≡ false
  unfolding trigger add
  trigger-unmarked slug x c s n h = ground (arith, n, h, eq_iff slug x)

  scans_profile :
      (ns : String) (p : Pod) (i : InstanceId) (d : ContainerData) (profile : ApplicationProfile)
      (s : Progress)
      → pod_to_container_data env.pods.parents p i env.pods.cluster ≡ ok d
      → get_application_profile_for_relevancy_scan env.pods.metadata env.pods.get_profile
          i.no_container_slug ns
        ≡ some profile
      → contains s.slugs i.slug ≡ false
      → scan_instance env request ns p i s
        ≡ trigger env request i.no_container_slug
            (get_application_profile_scan_command env.pods.metadata env.pods.apis profile)
            s
  unfolding scan_instance with_data scan_container
  scans_profile ns p i d profile s hd hp hi = rw (hi, hd, scan_container, hp) refl

  -- Two containers of one workload whose profile is scannable, neither of which is marked and the
  -- second of which has another slug than the workload, have the one profile scanned twice: what
  -- is marked is the workload's slug, and what is asked for is the container's.
  pub profile_scanned_twice :
      (ns : String) (p : Pod) (i j : InstanceId) (d e : ContainerData)
      (profile : ApplicationProfile) (s : Progress)
      → pod_to_container_data env.pods.parents p i env.pods.cluster ≡ ok d
      → pod_to_container_data env.pods.parents p j env.pods.cluster ≡ ok e
      → get_application_profile_for_relevancy_scan env.pods.metadata env.pods.get_profile
          i.no_container_slug ns
        ≡ some profile
      → j.no_container_slug ≡ i.no_container_slug
      → contains s.slugs i.slug ≡ false
      → contains s.slugs j.slug ≡ false
      → j.slug ≢ i.no_container_slug
      → let c = get_application_profile_scan_command env.pods.metadata env.pods.apis profile in
        (scan_instances env request ns p (i ∷ j ∷ []) s).triggered ≡ s.triggered ++ c ∷ c ∷ []
  unfolding scan_instances
  profile_scanned_twice ns p i j d e profile s hd he hp same hi hj n =
      let c = get_application_profile_scan_command env.pods.metadata env.pods.apis profile in
      let t = trigger env request i.no_container_slug c s in
      let first = scans_profile ns p i d profile s hd hp hi in
      let second =
        scans_profile ns p j e profile t he (rw same hp)
          (trigger-unmarked i.no_container_slug j.slug c s n hj) in
      rw
        (
          first,
          second,
          trigger-triggered j.no_container_slug c t,
          trigger-triggered i.no_container_slug c s,
        )
        (append_assoc s.triggered (c ∷ []) (c ∷ []))
