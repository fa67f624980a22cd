-- ===== src/Admission/Server/Restarts/Returns.antt =====
-- admission/webhook/server.go: when `Run` returns.
use kontroller.Base.{All, ℕ, zero, suc, ◌≢◌, ◌≡◌, refl, true, List, [], ◌∷◌, ◌⊎◌, inl, inr}
use kontroller.Admission.Server.Restarts.{
  ServerGoroutine, serving, sending, finished, EndReason, server_failed, cancelled, unwatched, Loop,
  looping, ended, RunState, RunEvent, listening_ended, context_done, error_received, files_changed,
  watch_closed, wait_over, listen_ended, listen_ended_at, receive, all_finished, select_case, wait,
  run_event, run_events, launched,
}

-- The goroutine is not done.
abbrev IsRunning : ServerGoroutine → Type 0
IsRunning serving = Unit
IsRunning sending = Unit
IsRunning finished = ⊥

-- The loop ended by the error of a server, and no server was ever replaced.
abbrev pub HasFailed : RunState → Type 0
HasFailed s = (s.loop ≡ ended server_failed) × (s.replaced ≡ [])

-- A replaced goroutine is never done; the current one is done only if its error ended the loop.
abbrev IsSound : RunState → Type 0
IsSound s =
    All IsRunning s.replaced
    × (IsRunning s.current ⊎ (s.loop ≡ ended server_failed))
    × (s.returned ≡ true → HasFailed s)

listen_ended-IsRunning : (g : ServerGoroutine) → IsRunning g → IsRunning (listen_ended g)
unfolding listen_ended
listen_ended-IsRunning serving r = tt
listen_ended-IsRunning sending r = tt
listen_ended-IsRunning finished r = r

listen_ended_at-IsRunning :
    (i : ℕ) (gs : List ServerGoroutine) → All IsRunning gs → All IsRunning (listen_ended_at i gs)
unfolding listen_ended_at
listen_ended_at-IsRunning i [] r = tt
listen_ended_at-IsRunning zero (g ∷ rest) (r, rs) = (listen_ended-IsRunning g r, rs)
listen_ended_at-IsRunning (suc i) (g ∷ rest) (r, rs) = (r, listen_ended_at-IsRunning i rest rs)

listen_ended_at-nil : (i : ℕ) (gs : List ServerGoroutine) → gs ≡ [] → listen_ended_at i gs ≡ []
unfolding listen_ended_at
listen_ended_at-nil i [] h = refl
listen_ended_at-nil i (g ∷ rest) h = absurd cc

listen_ended_current :
    (g : ServerGoroutine) {A : Type 0} → IsRunning g ⊎ A → IsRunning (listen_ended g) ⊎ A
listen_ended_current g (inl r) = inl (listen_ended-IsRunning g r)
listen_ended_current g (inr a) = inr a

-- Where the loop goes on, nothing has failed.
still-IsRunning : (s : RunState) → s.loop ≡ looping → IsSound s → IsRunning s.current
still-IsRunning s l (rs, inl r, f) = r
still-IsRunning s l (rs, inr e, f) = absurd cc

receive-IsSound :
    (g : ServerGoroutine) (s : RunState) → s.loop ≡ looping → IsSound s → IsSound (receive g s)
unfolding receive
receive-IsSound serving s l h = h
receive-IsSound finished s l h = h
receive-IsSound sending s l (rs, c, f) = (rs, inr refl, λ t. absurd (cc ((f t).0, l)))

-- The loop ends for another reason.
stop-IsSound :
    (s : RunState) (reason : EndReason)
    → s.loop ≡ looping
    → IsSound s
    → IsSound (record s { loop = ended reason })
stop-IsSound s reason l h = (h.0, inl (still-IsRunning s l h), λ t. absurd (cc ((h.2 t).0, l)))

select_case-IsSound :
    (l : Loop) (e : RunEvent) (s : RunState) → s.loop ≡ l → IsSound s → IsSound (select_case l e s)
unfolding select_case
select_case-IsSound looping context_done s l h = stop-IsSound s cancelled l h
select_case-IsSound looping error_received s l h = receive-IsSound s.current s l h
select_case-IsSound looping files_changed s l h =
    ((still-IsRunning s l h, h.0), inl tt, λ t. absurd (cc ((h.2 t).0, l)))
select_case-IsSound looping watch_closed s l h = stop-IsSound s unwatched l h
select_case-IsSound looping (listening_ended i) s l h = h
select_case-IsSound looping wait_over s l h = h
select_case-IsSound (ended reason) e s l h = h

all_finished_none :
    (g : ServerGoroutine) (gs : List ServerGoroutine) → IsRunning g → all_finished (g ∷ gs) ≢ true
unfolding all_finished
all_finished_none serving gs r h = cc
all_finished_none sending gs r h = cc
all_finished_none finished gs r h = r

all_finished_tail :
    (g : ServerGoroutine) (gs : List ServerGoroutine)
    → all_finished (g ∷ gs) ≡ true
    → all_finished gs ≡ true
unfolding all_finished
all_finished_tail serving gs h = absurd cc
all_finished_tail sending gs h = absurd cc
all_finished_tail finished gs h = h

all_finished-nil : (gs : List ServerGoroutine) → All IsRunning gs → all_finished gs ≡ true → gs ≡ []
all_finished-nil [] rs h = refl
all_finished-nil (g ∷ gs) (r, rs) h = absurd (all_finished_none g gs r h)

-- If all goroutines are done, there is the current one only.
all_finished_lem {ℓ} :
    (g : ServerGoroutine) (gs : List ServerGoroutine) {A : Type ℓ}
    → All IsRunning gs
    → IsRunning g ⊎ A
    → all_finished (g ∷ gs) ≡ true
    → A × (gs ≡ [])
all_finished_lem g gs rs (inl r) h = absurd (all_finished_none g gs r h)
all_finished_lem g gs rs (inr a) h = (a, all_finished-nil gs rs (all_finished_tail g gs h))

wait-IsSound : (l : Loop) (s : RunState) → s.loop ≡ l → IsSound s → IsSound (wait l s)
unfolding wait
wait-IsSound looping s l h = h
wait-IsSound (ended reason) s l (rs, c, f) =
    (rs, c, λ t. all_finished_lem s.current s.replaced rs c t)

run_event-IsSound : (e : RunEvent) (s : RunState) → IsSound s → IsSound (run_event e s)
unfolding run_event
run_event-IsSound (listening_ended zero) s (rs, c, f) = (rs, listen_ended_current s.current c, f)
run_event-IsSound (listening_ended (suc i)) s (rs, c, f) = (
  listen_ended_at-IsRunning i s.replaced rs,
  c,
  λ t. ((f t).0, listen_ended_at-nil i s.replaced (f t).1),
)
run_event-IsSound context_done s h = select_case-IsSound s.loop context_done s refl h
run_event-IsSound error_received s h = select_case-IsSound s.loop error_received s refl h
run_event-IsSound files_changed s h = select_case-IsSound s.loop files_changed s refl h
run_event-IsSound watch_closed s h = select_case-IsSound s.loop watch_closed s refl h
run_event-IsSound wait_over s h = wait-IsSound s.loop s refl h

run_events-IsSound : (es : List RunEvent) (s : RunState) → IsSound s → IsSound (run_events es s)
unfolding run_events
run_events-IsSound [] s h = h
run_events-IsSound (e ∷ es) s h = run_events-IsSound es (run_event e s) (run_event-IsSound e s h)

-- Whatever happens in whichever order, the server's run has returned only if the error of its first
-- server ended the loop and no server was ever replaced. So it does not return once its context is
-- done, nor after a change of the files.
pub run_events-HasFailed :
    (es : List RunEvent)
    → (run_events es launched).returned ≡ true
    → HasFailed (run_events es launched)
run_events-HasFailed es = (run_events-IsSound es launched (tt, inl tt, λ t. absurd cc)).2
