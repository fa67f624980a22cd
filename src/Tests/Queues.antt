-- ===== src/Tests/Queues.antt =====
-- The cooldown queue and the watch, at concrete inputs.
use kontroller.Base.{◌≡◌, refl, true, false, none, some, List, [], ◌∷◌, All}
use kontroller.Base.Dict.{lookup, insert}
use kontroller.Watcher.Event.{Event, join, added, pod}
use kontroller.Watcher.Cooldown.{
  CooldownQueue, runs, panics, Call, enqueue, tick, send, stop, run, new_cooldown_queue,
  enqueue_event, step, evict, send_due, make_event_key,
}
use kontroller.Watcher.Cooldown.Delivery.{Cooled, run-Cooled}
use kontroller.Watcher.Cooldown.Stopped.{held_at_stop_panics}
use kontroller.Watcher.Retry.{Received, watch, pod_filter, wanted, live, first_end, watch-pods}
use kontroller.Tests.Fixtures.{sample_pod, sample_config}
use kontroller.Tests.Cache.{sample_cache, kept, evicted}

abbrev sample_event : Event
sample_event = record {
  type = added;
  gvk = record { group = ""; version = "v1"; kind = "Pod" };
  object = pod sample_pod;
}

abbrev sample_calls : List Call
sample_calls = enqueue 1 sample_event ∷ tick 9 ∷ send ∷ []

abbrev held_queue : CooldownQueue sample_cache
held_queue = record {
  closed = false;
  seen_events = ("k", (sample_event, 6)) ∷ [];
  due = [];
  chan_closed = false;
  delivered = [];
}

sample_run :
    run sample_cache sample_calls (new_cooldown_queue sample_cache)
    ≡ runs (record {
      closed = false;
      seen_events = [];
      due = [];
      chan_closed = false;
      delivered = sample_event ∷ [];
    })
unfolding run step new_cooldown_queue enqueue_event evict send_due make_event_key join kept evicted
    insert
sample_run = refl

run-Cooled_example : All (Cooled sample_cache sample_calls) (sample_event ∷ [])
run-Cooled_example =
    run-Cooled sample_cache sample_calls
      (record {
        closed = false;
        seen_events = [];
        due = [];
        chan_closed = false;
        delivered = sample_event ∷ [];
      })
      sample_run

held_sample : lookup "k" held_queue.seen_events ≡ some (sample_event, 6)
unfolding lookup
held_sample = refl

held_at_stop_panics_example : run sample_cache (stop ∷ tick 9 ∷ send ∷ []) held_queue ≡ panics
held_at_stop_panics_example =
    held_at_stop_panics sample_cache held_queue "k" sample_event 6 9 held_sample refl

abbrev sample_received : Received
sample_received = record {
  event = some sample_event;
  resource_version = some "12";
  queue_closed = false;
}

abbrev closing : Received
closing = record { event = none; resource_version = none; queue_closed = true }

watch-pods_example :
    let rs = sample_received ∷ closing ∷ [] in
    let w = watch (pod_filter sample_config) rs "" [] in
    (w.enqueued ≡ wanted sample_config (live rs)) × (w.ended ≡ first_end rs)
watch-pods_example = watch-pods sample_config (sample_received ∷ closing ∷ []) "" []
