-- ===== src/ContinuousScanning/Watches.antt =====
-- continuousscanning/watchbuilder.go: watches that are made again when they close, and the pool that
-- waits until each was made once.
pub mod Forwarded
use kontroller.Base.{ℕ, zero, suc, ◌+◌, ◌-◌, String, Bool, true, false, List, [], ◌∷◌, ◌++◌, length}

-- Why reading a watch ends: its channel is closed, or the context is done.
pub data Close : Type 0 where
  watch_closed context_done : Close

-- What making a watch gives: an error, or a watch with the events that are received from it before its
-- end.
pub data Attempt (E : Type 0) : Type 0 where
  not_made : String → Attempt E
  made : List E → Close → Attempt E

-- What was put on the output channel, and how often `readyWg.Done` was called.
pub record Progress (E : Type 0) : Type 0 where
  pub out : List E
  pub done_calls : ℕ

module _ {E : Type 0} where
  -- Whether the context ended the loop.
  unfoldable pub run_until_watch_closes : List E → Close → Progress E → Progress E × Close
  run_until_watch_closes [] c p = (p, c)
  run_until_watch_closes (e ∷ rest) c p =
      run_until_watch_closes rest c (record p { out = p.out ++ e ∷ [] })

  -- `watchInitializedAtLeastOnce` is the flag.
  unfoldable pub signal_ready : (initialized : Bool) → Progress E → Progress E
  signal_ready true p = p
  signal_ready false p = record p { done_calls = suc p.done_calls }

  -- The attempts until the context is done, which ends the loop at its head.
  unfoldable pub run : (initialized : Bool) → List (Attempt E) → Progress E → Progress E
  run initialized [] p = p
  run initialized (not_made e ∷ rest) p = run initialized rest p
  run initialized (made events context_done ∷ rest) p =
      (run_until_watch_closes events context_done (signal_ready initialized p)).0
  run initialized (made events watch_closed ∷ rest) p =
      run true rest (run_until_watch_closes events watch_closed (signal_ready initialized p)).0

  abbrev pub start : Progress E
  start = record { out = []; done_calls = 0 }

  -- The calls of `wg.Done` by all watches of the pool.
  unfoldable pub all_done_calls : List (List (Attempt E)) → ℕ
  all_done_calls [] = 0
  all_done_calls (attempts ∷ rest) = (run false attempts start).done_calls + all_done_calls rest

  -- `wg.Wait` of the pool waits for as many calls as there are watches: those that are missing.
  unfoldable pub missing_calls : List (List (Attempt E)) → ℕ
  missing_calls pool = length pool - all_done_calls pool
