-- ===== src/Watcher/Cooldown.antt =====
-- watcher/cooldownqueue.go: a queue that holds each event back for a while, and only the last event
-- of each object. The expiring cache (istio.io/pkg/cache) is an interface with the behaviour that
-- its documentation states; its evicter is the `tick` of a schedule.
pub mod Stopped
pub mod Delivery
use kontroller.Base.{
  ℕ, ◌+◌, ◌≤◌, String, ◌≡◌, ◌↔◌, Bool, true, false, Option, none, some, List, [], ◌∷◌, ◌++◌, Memᴰ,
  map, ◌==◌, if◌then◌else◌, Result, ok, err, refl, ◌⊎◌, inl, inr,
}
use kontroller.Watcher.Event.{Event, meta_of, join}

abbrev key_of : Event → Option (String × String) → Result String
key_of e none = err "object does not implement metav1.Object"
key_of e (some (namespace, name)) =
    ok (join "/" (e.gvk.group ∷ e.gvk.version ∷ e.gvk.kind ∷ namespace ∷ name ∷ []))

unfoldable pub make_event_key : Event → Result String
make_event_key e = key_of e (meta_of e.object)

-- `held s k` is the value under the key and the time from which it may be evicted.
pub record ExpiringCache : Type 1 where
  pub State : Type 0
  pub empty : State
  pub set : ℕ → String → Event → State → State
  pub evict_expired : ℕ → State → State × List (String × Event)
  pub held : State → String → Option (Event × ℕ)
  pub expiration : ℕ
  pub is_expired : ℕ → ℕ → Bool
  pub is_expired-le : (deadline now : ℕ) → is_expired deadline now ≡ true → deadline ≤ now
  pub held-empty : (k : String) → held empty k ≡ none
  pub held-set :
      (now : ℕ) (k j : String) (e : Event) (s : State)
      → held (set now k e s) j ≡ (if k == j then some (e, now + expiration) else held s j)
  pub held-evict :
      (now : ℕ) (s : State) (k : String) (e : Event) (d : ℕ)
      → held (evict_expired now s).0 k ≡ some (e, d)
      → held s k ≡ some (e, d)
  pub evicted_iff :
      (now : ℕ) (s : State) (k : String) (e : Event)
      → Memᴰ (k, e) (evict_expired now s).1
        ↔ ((d : ℕ) × (held s k ≡ some (e, d)) × (is_expired d now ≡ true))

-- Go panics on a send on a closed channel and on a second `close`.
pub data Outcome {ℓ} (A : Type ℓ) : Type ℓ where
  runs : A → Outcome A
  panics : Outcome A

infixl 5 ◌>>=◌
abbrev pub ◌>>=◌ {ℓ κ} : {A : Type ℓ} {B : Type κ} → Outcome A → (A → Outcome B) → Outcome B
runs a >>= f = f a
panics >>= f = panics

pub Outcome-cases {ℓ} : {A : Type ℓ} (o : Outcome A) → ((a : A) × (o ≡ runs a)) ⊎ (o ≡ panics)
Outcome-cases (runs a) = inl (a, refl)
Outcome-cases panics = inr refl

-- What clients, the clock and the evicter do, one at a time: the mutexes allow no finer overlap.
pub data Call : Type 0 where
  -- `Enqueue`, at a time
  enqueue : ℕ → Event → Call
  -- a round of the evicter, at a time: the callbacks of what it evicts are due
  tick : ℕ → Call
  -- the callback that is due first sends its event, and the consumer takes it
  send : Call
  -- `Stop`
  stop : Call

module _ (cache : ExpiringCache) where
  open cache use {State}

  -- `due` are the evicted events whose callback has not run; `delivered` is what came out of
  -- `ResultChan`.
  pub record CooldownQueue : Type 0 where
    pub closed : Bool
    pub seen_events : State
    pub due : List Event
    pub chan_closed : Bool
    pub delivered : List Event

  unfoldable pub new_cooldown_queue : CooldownQueue
  new_cooldown_queue = record {
    closed = false;
    seen_events = cache.empty;
    due = [];
    chan_closed = false;
    delivered = [];
  }

  set_seen : ℕ → Event → CooldownQueue → Result String → CooldownQueue
  set_seen now e q (err _) = q
  set_seen now e q (ok key) = record q { seen_events = cache.set now key e q.seen_events }

  unfoldable pub enqueue_event : ℕ → Event → CooldownQueue → CooldownQueue
  unfolding set_seen
  enqueue_event now e q = if q.closed then q else set_seen now e q (make_event_key e)

  unfoldable pub evict : ℕ → CooldownQueue → CooldownQueue
  evict now q =
      let (s, evicted) = cache.evict_expired now q.seen_events in
      record q { seen_events = s; due = q.due ++ map (λ r. r.1) evicted }

  -- the callback of `NewCooldownQueueWithParams`
  send_first : CooldownQueue → List Event → Outcome CooldownQueue
  send_first q [] = runs q
  send_first q (e ∷ rest) =
      if q.chan_closed
      then panics
      else runs (record q { due = rest; delivered = q.delivered ++ e ∷ [] })

  unfoldable pub send_due : CooldownQueue → Outcome CooldownQueue
  unfolding send_first
  send_due q = send_first q q.due

  -- `Stop`
  unfoldable pub stop_queue : CooldownQueue → Outcome CooldownQueue
  stop_queue q =
      if q.chan_closed then panics else runs (record q { closed = true; chan_closed = true })

  unfoldable pub step : Call → CooldownQueue → Outcome CooldownQueue
  unfolding enqueue_event evict send_due stop_queue
  step (enqueue now e) q = runs (enqueue_event now e q)
  step (tick now) q = runs (evict now q)
  step send q = send_due q
  step stop q = stop_queue q

  unfoldable pub run : List Call → CooldownQueue → Outcome CooldownQueue
  run [] q = runs q
  run (c ∷ cs) q = step c q >>= run cs
