-- ===== src/Watcher/Cooldown/Stopped.antt =====
-- A stopped cooldown queue (watcher/cooldownqueue.go): what it ignores, and what makes it panic.
use kontroller.Base.{ℕ, String, ◌≡◌, true, some, List, [], ◌∷◌, ◌++◌, Memᴰ, map, arith, ◌≢◌}
use kontroller.Watcher.Event.{Event}
use kontroller.Watcher.Cooldown.{
  ExpiringCache, CooldownQueue, runs, panics, tick, send, stop, enqueue_event, send_due, stop_queue,
  step, run,
}

mapped-nonempty :
    (xs : List (String × Event)) (due : List Event) {x : String × Event}
    → Memᴰ x xs
    → due ++ map (λ r. r.1) xs ≢ []
mapped-nonempty xs (d ∷ due) m = λ e. cc
mapped-nonempty [] [] m = elim m [ ]
mapped-nonempty (x ∷ xs) [] m = λ e. cc

module _ (cache : ExpiringCache) where
  send-panics :
      (q : CooldownQueue cache) → q.chan_closed ≡ true → q.due ≢ [] → send_due cache q ≡ panics
  unfolding send_due
  send-panics q c n = ground arith

  -- Once stopped, a queue takes no event: it stays as it is.
  pub enqueue-stopped :
      (q q' : CooldownQueue cache) (now : ℕ) (e : Event)
      → stop_queue cache q ≡ runs q'
      → enqueue_event cache now e q' ≡ q'
  unfolding stop_queue enqueue_event
  enqueue-stopped q q' now e h = ground arith

  -- `Stop` leaves the cache alone: an event that is still held when the queue is stopped is evicted
  -- later, and its callback then sends on the closed channel, which panics.
  pub held_at_stop_panics :
      (q : CooldownQueue cache) (k : String) (e : Event) (deadline now : ℕ)
      → cache.held q.seen_events k ≡ some (e, deadline)
      → cache.is_expired deadline now ≡ true
      → run cache (stop ∷ tick now ∷ send ∷ []) q ≡ panics
  unfolding run step
  held_at_stop_panics q k e deadline now h x =
      let m = (cache.evicted_iff now q.seen_events k e).1 (deadline, h, x) in
      let n = mapped-nonempty (cache.evict_expired now q.seen_events).1 q.due m in ground (arith, n)

  -- So does a second `Stop`.
  stop_twice : (q : CooldownQueue cache) → run cache (stop ∷ stop ∷ []) q ≡ panics
  unfolding run step
  stop_twice q = ground arith
