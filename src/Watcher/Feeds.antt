-- ===== src/Watcher/Feeds.antt =====
-- watcher/podwatcher.go: what is put into the queue of pod events, and what is done with an event
-- that comes out of it.
use kontroller.Base.{
  ℕ, ◌+◌, ◌≤◌, String, ◌≡◌, ◌↔◌, Bool, true, false, not, ◌&&◌, List, [], ◌∷◌, arith, ◌==◌, eq_iff,
  ltb, if◌then◌else◌, Result, ok, err, Memᴰ, Bool-cases, inl, inr, ◌⊎◌, mem-cons-cases, ap,
}
use kontroller.Config.{OperatorConfig, skip_namespace, guard_time}
use kontroller.Utils.Types.{Pod}
use kontroller.Watcher.Event.{
  Event, EventType, added, modified, deleted, bookmark, error, Object, pod, sbom_syft,
  application_profile, unstructured, other, Gvk,
}

abbrev no_gvk : Gvk
no_gvk = record { group = ""; version = ""; kind = "" }

-- The pod's type fields are set before it is put.
abbrev pod_gvk : Gvk
pod_gvk = record { group = ""; version = "v1"; kind = "Pod" }

abbrev pub pod_running : String
pod_running = "Running"

-- `listPods`: the events that are put, for the pods that the API lists
unfoldable pub list_pods : OperatorConfig → List Pod → List Event
list_pods cfg [] = []
list_pods cfg (p ∷ rest) =
    let others = list_pods cfg rest in
    if not (p.phase == pod_running)
    then others
    else if skip_namespace cfg p.namespace
    then others
    else record { type = added; gvk = pod_gvk; object = pod p } ∷ others

-- What `PodWatch` does with an event: nothing, `handlePodWatcher` at once, or the same at a later
-- time if the pod still exists then.
pub data PodAction : Type 0 where
  ignore : PodAction
  handle : Pod → PodAction
  handle_at : ℕ → Pod → PodAction

-- `ToUnstructured`, which may fail, and `WorkloadHasParent`
pub record WorkloadEnv : Type 0 where
  pub to_unstructured : Pod → Result (Unit {0})
  pub has_parent : Pod → Bool

module _ (cfg : OperatorConfig) (env : WorkloadEnv) (now : ℕ) where
  handle_pod : Pod → Result (Unit {0}) → PodAction
  handle_pod p (err _) = ignore
  handle_pod p (ok _) =
      let mature = p.creation_timestamp + guard_time cfg in
      if not (env.has_parent p) && ltb now mature then handle_at mature p else handle p

  of_type : EventType → Pod → PodAction
  unfolding handle_pod
  of_type added p = handle_pod p (env.to_unstructured p)
  of_type modified p = handle_pod p (env.to_unstructured p)
  of_type deleted p = ignore
  of_type bookmark p = ignore
  of_type error p = ignore

  of_object : EventType → Object → PodAction
  unfolding of_type
  of_object t (pod p) = of_type t p
  of_object t (sbom_syft _) = ignore
  of_object t (application_profile _) = ignore
  of_object t (unstructured _ _) = ignore
  of_object t other = ignore

  unfoldable pub pod_watch : Event → PodAction
  unfolding of_object
  pod_watch e = of_object e.type e.object

  -- When `handlePodWatcher` first runs for the pod of an event, if it runs.
  abbrev pub HandledFrom : PodAction → Pod → ℕ → Type 0
  HandledFrom ignore p t = ⊥
  HandledFrom (handle q) p t = (q ≡ p) × (t ≡ now)
  HandledFrom (handle_at m q) p t = (q ≡ p) × (t ≡ m)

  of_object_guarded :
      (t : EventType) (o : Object) (p : Pod) (at : ℕ)
      → HandledFrom (of_object t o) p at
      → (o ≡ pod p)
        × ((t ≡ added) ⊎ (t ≡ modified))
        × (env.has_parent p ≡ false → p.creation_timestamp + guard_time cfg ≤ at)
        × (env.has_parent p ≡ true → at ≡ now)
        × (now ≤ at)
  unfolding of_object
  of_object_guarded t o p at h = ground arith

  -- Only pods that were added or modified are handled; a pod without a parent not before it is as
  -- old as the guard time; a pod with a parent at once.
  pub pod_watch_guarded :
      (e : Event) (p : Pod) (at : ℕ)
      → HandledFrom (pod_watch e) p at
      → (e.object ≡ pod p)
        × ((e.type ≡ added) ⊎ (e.type ≡ modified))
        × (env.has_parent p ≡ false → p.creation_timestamp + guard_time cfg ≤ at)
        × (env.has_parent p ≡ true → at ≡ now)
        × (now ≤ at)
  unfolding pod_watch
  pod_watch_guarded e p at h = of_object_guarded e.type e.object p at h

abbrev pub listed : Pod → Event
listed p = record { type = added; gvk = pod_gvk; object = pod p }

module _ (cfg : OperatorConfig) where
  abbrev IsListed : Pod → Type 0
  IsListed p = (p.phase ≡ pod_running) × (skip_namespace cfg p.namespace ≡ false)

  -- The head of the list is put or left out.
  list_pods-cases :
      (q : Pod) (rest : List Pod)
      → ((list_pods cfg (q ∷ rest) ≡ listed q ∷ list_pods cfg rest) × IsListed q)
        ⊎ ((list_pods cfg (q ∷ rest) ≡ list_pods cfg rest) × (¬ IsListed q))
  unfolding list_pods
  list_pods-cases q rest = elim (Bool-cases (q.phase == pod_running)) [
    | inr n ↦ inr (ground arith, λ l. ground (arith, eq_iff q.phase pod_running))
    | inl y ↦ elim (Bool-cases (skip_namespace cfg q.namespace)) [
      | inl skipped ↦ inr (ground arith, λ l. cc (skipped, l.1))
      | inr kept ↦ inl (ground arith, ((eq_iff _ _).0 y, kept))
    ]
  ]

  none_listed : (e : Event) → ¬ Memᴰ e (list_pods cfg [])
  unfolding list_pods
  none_listed e m = elim m [ ]

  mem_of_listed :
      (pods : List Pod) (p : Pod) → Memᴰ (listed p) (list_pods cfg pods) → Memᴰ p pods × IsListed p
  mem_of_listed [] p m = absurd (none_listed (listed p) m)
  mem_of_listed (q ∷ rest) p m = elim (list_pods-cases q rest) [
    | inr (e, _) ↦ let (n, l) = mem_of_listed rest p (rw e at m) in (Memᴰ.tail n, l)
    | inl (e, l) ↦ elim (mem-cons-cases (rw e at m)) [
      | inl same ↦ let f : p ≡ q = ground (arith, same) in (Memᴰ.head f, rw f l)
      | inr n ↦ let (o, k) = mem_of_listed rest p n in (Memᴰ.tail o, k)
    ]
  ]

  listed_of_mem :
      (pods : List Pod) (p : Pod) → Memᴰ p pods → IsListed p → Memᴰ (listed p) (list_pods cfg pods)
  listed_of_mem [] p m l = elim m [ ]
  listed_of_mem (q ∷ rest) p m l = elim (list_pods-cases q rest) [
    | inl (e, _) ↦ elim (mem-cons-cases m) [
      | inl same ↦ rw e (Memᴰ.head (ap listed same))
      | inr n ↦ rw e (Memᴰ.tail (listed_of_mem rest p n l))
    ]
    | inr (e, no_match) ↦ elim (mem-cons-cases m) [
      | inl same ↦ absurd (no_match (rw same at l))
      | inr n ↦ rw e (listed_of_mem rest p n l)
    ]
  ]

  -- The list puts exactly the running pods of the watched namespaces.
  pub list_pods_iff :
      (pods : List Pod) (p : Pod)
      → Memᴰ (listed p) (list_pods cfg pods)
        ↔ (Memᴰ p pods × ((p.phase ≡ pod_running) × (skip_namespace cfg p.namespace ≡ false)))
  list_pods_iff pods p = (mem_of_listed pods p, λ (m, l). listed_of_mem pods p m l)
