-- ===== src/Watcher/Retry.antt =====
-- watcher/watchretry.go, and `watchRetry` of watcher/commandswatcher.go: one watch, from its start
-- until it ends and the retry library (backoff) is told why. What the watch delivers is a list.
use kontroller.Base.{
  String, ◌≡◌, refl, Bool, true, false, not, Option, none, some, List, [], ◌∷◌, ◌++◌, arith,
  if◌then◌else◌, Bool-cases, inl, inr, Option-cases, is_some, ◌&&◌,
}
use mathlib.Core.List.{append-nil, append_assoc}
use kontroller.Config.{OperatorConfig, skip_namespace}
use kontroller.Watcher.Event.{Event, EventType, error, Object, pod}

-- One receive from the watch's channel: the event, or that the channel is closed; the version that
-- the object has, if it has one; and whether the event queue was found closed.
pub record Received : Type 0 where
  pub event : Option Event
  pub resource_version : Option String
  pub queue_closed : Bool

-- Why a watch ended. `permanent` stops the retries. `panic` is the failed cast to a pod.
-- `waiting` means that nothing more was received.
pub data WatchEnd : Type 0 where
  permanent watch_closed watch_error panic waiting : WatchEnd

pub record Watch : Type 0 where
  pub resource_version : String
  pub enqueued : List Event
  pub ended : WatchEnd

abbrev is_error : EventType → Bool
is_error error = true
is_error _ = false

-- The namespace of a pod; the cast panics on anything else.
abbrev pub pod_namespace : Object → Option String
pod_namespace (pod p) = some p.namespace
pod_namespace _ = none

abbrev version_after : Received → String → String
version_after r version = elim r.resource_version [ none ↦ version | some v ↦ v ]

-- What is done with one receive: the watch ends, or goes on with an event for the queue or without.
pub data Next : Type 0 where
  ends : WatchEnd → Next
  goes_on : Option Event → Next

-- `filter` is what the two watches differ in: what becomes of an event of no error type.
next_of_event : (Event → Next) → Option Event → Next
next_of_event filter none = ends watch_closed
next_of_event filter (some e) = if is_error e.type then ends watch_error else filter e

unfoldable pub next : (Event → Next) → Received → Next
unfolding next_of_event
next filter r = if r.queue_closed then ends permanent else next_of_event filter r.event

filter_namespace : OperatorConfig → Event → Option String → Next
filter_namespace cfg e none = ends panic
filter_namespace cfg e (some ns) = if skip_namespace cfg ns then goes_on none else goes_on (some e)

-- pods: those of skipped namespaces are passed over
unfoldable pub pod_filter : OperatorConfig → Event → Next
unfolding filter_namespace
pod_filter cfg e = filter_namespace cfg e (pod_namespace e.object)

-- operator commands: all are put
abbrev pub command_filter : Event → Next
command_filter e = goes_on (some e)

abbrev put : Option Event → List Event → List Event
put none es = es
put (some e) es = es ++ e ∷ []

module _ (filter : Event → Next) where
  -- the loop: the version to resume from, and the events put so far
  unfoldable pub watch : List Received → String → List Event → Watch
  watch [] version es = record { resource_version = version; enqueued = es; ended = waiting }
  watch (r ∷ rest) version es =
      let v = version_after r version in
      elim (next filter r) [
        | ends why ↦ record { resource_version = v; enqueued = es; ended = why }
        | goes_on e ↦ watch rest v (put e es)
      ]

-- Whether a receive is a pod event that the loop goes on from.
abbrev pub is_live : Received → Bool
is_live r = if r.queue_closed then false else elim r.event [
  | none ↦ false
  | some e ↦ not (is_error e.type) && is_some (pod_namespace e.object)
]

-- The receives before the first that ends the watch.
pub live : List Received → List Received
live [] = []
live (r ∷ rest) = if is_live r then r ∷ live rest else []

-- Why the first receive that is not live ends the watch.
pub end_of : Received → WatchEnd
end_of r = if r.queue_closed then permanent else elim r.event [
  | none ↦ watch_closed
  | some e ↦ if is_error e.type then watch_error else panic
]

pub first_end : List Received → WatchEnd
first_end [] = waiting
first_end (r ∷ rest) = if is_live r then first_end rest else end_of r

-- The event of a receive, unless its pod's namespace is skipped.
pub wanted : OperatorConfig → List Received → List Event
wanted cfg [] = []
wanted cfg (r ∷ rest) = elim r.event [
  | none ↦ wanted cfg rest
  | some e ↦ elim (pod_namespace e.object) [
    | none ↦ wanted cfg rest
    | some ns ↦ if skip_namespace cfg ns then wanted cfg rest else e ∷ wanted cfg rest
  ]
]

module _ (cfg : OperatorConfig) where
  next_live :
      (r : Received)
      → is_live r ≡ true
      → (e : Event) × (ns : String) × (r.event ≡ some e)
        × (pod_namespace e.object ≡ some ns)
        × (next (pod_filter cfg) r
            ≡ (if skip_namespace cfg ns then goes_on none else goes_on (some e)))
  unfolding next pod_filter
  next_live r h = elim (Option-cases r.event) [
    | inl n ↦ absurd (ground arith)
    | inr (e, f) ↦ elim (Option-cases (pod_namespace e.object)) [
      | inl n ↦ absurd (ground arith)
      | inr (ns, g) ↦ (e, ns, f, g, ground arith)
    ]
  ]

  next_ends : (r : Received) → is_live r ≡ false → next (pod_filter cfg) r ≡ ends (end_of r)
  unfolding next pod_filter end_of
  next_ends r h = ground arith

  -- A watch on pods puts, after what was put before, exactly the pod events of watched namespaces
  -- that it receives before the first receive that it does not go on from, in their order; and it
  -- ends the way that this receive ends it, or waits if there is none.
  pub watch-pods :
      (rs : List Received) (version : String) (es : List Event)
      → let w = watch (pod_filter cfg) rs version es in
        (w.enqueued ≡ es ++ wanted cfg (live rs)) × (w.ended ≡ first_end rs)
  unfolding watch live wanted first_end
  watch-pods [] version es = (rw append-nil, refl)
  watch-pods (r ∷ rest) version es = elim (Bool-cases (is_live r)) [
    | inr n ↦ ground (arith, n, next_ends r n, append-nil es)
    | inl y ↦
        let (e, ns, f, g, go) = next_live r y in
        let v = version_after r version in
        elim (Bool-cases (skip_namespace cfg ns)) [
          | inl skipped ↦ ground (arith, y, f, g, go, watch-pods rest v es)
          | inr kept ↦ ground (
            arith,
            y,
            f,
            g,
            go,
            watch-pods rest v (es ++ e ∷ []),
            append_assoc es (e ∷ []) (wanted cfg (live rest)),
          )
        ]
  ]
