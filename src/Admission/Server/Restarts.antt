-- ===== src/Admission/Server/Restarts.antt =====
-- admission/webhook/server.go: `Run`, as steps of its loop and of the goroutines that it launches, in
-- any order.
pub mod Returns
use kontroller.Base.{ℕ, zero, suc, Bool, true, false, List, [], ◌∷◌}

-- The goroutine of a server: it serves; `ListenAndServeTLS` has returned, and it sends the error on its
-- channel, which has no buffer; or the error was received, and it is done.
pub data ServerGoroutine : Type 0 where
  serving sending finished : ServerGoroutine

pub data EndReason : Type 0 where
  cancelled server_failed unwatched : EndReason

pub data Loop : Type 0 where
  looping : Loop
  ended : EndReason → Loop

-- The goroutine of the current server, those of the servers that were replaced, the loop, and whether
-- `wg.Wait` is over and `Run` has returned. The goroutines that shut a server down end by their timeout
-- at the latest.
pub record RunState : Type 0 where
  pub current : ServerGoroutine
  pub replaced : List ServerGoroutine
  pub loop : Loop
  pub returned : Bool

-- What may happen: the listening of a server ends, because it is closed, shut down or fails (0 is the
-- current one); one of the cases of the `select`; `wg.Wait` finds no goroutine left.
pub data RunEvent : Type 0 where
  listening_ended : ℕ → RunEvent
  context_done error_received files_changed watch_closed wait_over : RunEvent

unfoldable pub listen_ended : ServerGoroutine → ServerGoroutine
listen_ended serving = sending
listen_ended sending = sending
listen_ended finished = finished

unfoldable pub listen_ended_at : ℕ → List ServerGoroutine → List ServerGoroutine
listen_ended_at i [] = []
listen_ended_at zero (g ∷ rest) = listen_ended g ∷ rest
listen_ended_at (suc i) (g ∷ rest) = g ∷ listen_ended_at i rest

-- The case of the error is ready once the current goroutine sends.
unfoldable pub receive : ServerGoroutine → RunState → RunState
receive serving s = s
receive sending s = record s { current = finished; loop = ended server_failed }
receive finished s = s

unfoldable pub all_finished : List ServerGoroutine → Bool
all_finished [] = true
all_finished (serving ∷ rest) = false
all_finished (sending ∷ rest) = false
all_finished (finished ∷ rest) = all_finished rest

-- A case of the `select`, which is chosen in the loop only.
unfoldable pub select_case : Loop → RunEvent → RunState → RunState
select_case looping context_done s = record s { loop = ended cancelled }
select_case looping error_received s = receive s.current s
select_case looping files_changed s = record s {
  current = serving;
  replaced = s.current ∷ s.replaced;
}
select_case looping watch_closed s = record s { loop = ended unwatched }
select_case looping (listening_ended i) s = s
select_case looping wait_over s = s
select_case (ended reason) e s = s

-- After the loop `Run` waits for all goroutines.
unfoldable pub wait : Loop → RunState → RunState
wait looping s = s
wait (ended reason) s = record s { returned = all_finished (s.current ∷ s.replaced) }

-- A step that is not possible changes nothing.
unfoldable pub run_event : RunEvent → RunState → RunState
run_event (listening_ended zero) s = record s { current = listen_ended s.current }
run_event (listening_ended (suc i)) s = record s { replaced = listen_ended_at i s.replaced }
run_event context_done s = select_case s.loop context_done s
run_event error_received s = select_case s.loop error_received s
run_event files_changed s = select_case s.loop files_changed s
run_event watch_closed s = select_case s.loop watch_closed s
run_event wait_over s = wait s.loop s

unfoldable pub run_events : List RunEvent → RunState → RunState
run_events [] s = s
run_events (e ∷ rest) s = run_events rest (run_event e s)

abbrev pub launched : RunState
launched = record { current = serving; replaced = []; loop = looping; returned = false }
