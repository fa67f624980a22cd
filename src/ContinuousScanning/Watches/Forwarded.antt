-- ===== src/ContinuousScanning/Watches/Forwarded.antt =====
-- continuousscanning/watchbuilder.go: what a watch forwards, and when the pool has started.
use mathlib.Core.List.{append_assoc, append-nil}
use kontroller.Base.{
  suc, ◌≤◌, ◌≡◌, ◌↔◌, refl, sym, ap, ◌∙◌, Bool, true, false, List, [], ◌∷◌, ◌++◌, length, map,
  arith, All, ◌⊎◌, inl, inr,
}
use kontroller.ContinuousScanning.Watches.{
  Close, watch_closed, context_done, Attempt, not_made, made, Progress, run_until_watch_closes,
  signal_ready, run, start, all_done_calls, missing_calls,
}

module _ {E : Type 0} where
  -- The events of the watches that are made until the context is done, in order.
  abbrev pub events_of : List (Attempt E) → List E
  events_of [] = []
  events_of (not_made e ∷ rest) = events_of rest
  events_of (made events context_done ∷ rest) = events
  events_of (made events watch_closed ∷ rest) = events ++ events_of rest

  -- Some attempt makes a watch.
  abbrev pub IsMade : List (Attempt E) → Type 0
  IsMade [] = ⊥
  IsMade (not_made e ∷ rest) = IsMade rest
  IsMade (made events c ∷ rest) = Unit

  reads_out :
      (events : List E) (c : Close) (p : Progress E)
      → (run_until_watch_closes events c p).0 ≡ record p { out = p.out ++ events }
  unfolding run_until_watch_closes
  reads_out [] c p = λ i. record p { out = sym (append-nil p.out) i }
  reads_out (e ∷ rest) c p =
      reads_out rest c (record p { out = p.out ++ e ∷ [] })
      ∙ (λ i. record p { out = append_assoc p.out (e ∷ []) rest i })

  signal_ready-out : (b : Bool) (p : Progress E) → (signal_ready b p).out ≡ p.out
  unfolding signal_ready
  signal_ready-out true p = refl
  signal_ready-out false p = refl

  run-events :
      (b : Bool) (tries : List (Attempt E)) (p : Progress E)
      → (run b tries p).out ≡ p.out ++ events_of tries
  unfolding run
  run-events b [] p = sym (append-nil p.out)
  run-events b (not_made e ∷ rest) p = run-events b rest p
  run-events b (made events context_done ∷ rest) p =
      rw (reads_out events context_done (signal_ready b p), signal_ready-out b p) refl
  run-events b (made events watch_closed ∷ rest) p =
      rw (run, reads_out events watch_closed (signal_ready b p))
        (run-events true rest (record (signal_ready b p) { out = (signal_ready b p).out ++ events })
          ∙ ap (λ (o : List E). (o ++ events) ++ events_of rest) (signal_ready-out b p)
          ∙ append_assoc p.out events (events_of rest))

  -- Once the flag is set nothing is signalled.
  run_silent :
      (tries : List (Attempt E)) (p : Progress E) → (run true tries p).done_calls ≡ p.done_calls
  unfolding run signal_ready
  run_silent [] p = refl
  run_silent (not_made e ∷ rest) p = run_silent rest p
  run_silent (made events context_done ∷ rest) p = rw (reads_out events context_done p) refl
  run_silent (made events watch_closed ∷ rest) p =
      rw (run, reads_out events watch_closed p)
        (run_silent rest (record p { out = p.out ++ events }))

  -- The one call comes with the first watch.
  run_signals :
      (tries : List (Attempt E)) (p : Progress E)
      → (IsMade tries × ((run false tries p).done_calls ≡ suc p.done_calls))
        ⊎ ((IsMade tries → ⊥) × ((run false tries p).done_calls ≡ p.done_calls))
  unfolding run signal_ready
  run_signals [] p = inr (λ m. m, refl)
  run_signals (not_made e ∷ rest) p = run_signals rest p
  run_signals (made events context_done ∷ rest) p =
      inl (tt, rw (reads_out events context_done (signal_ready false p)) refl)
  run_signals (made events watch_closed ∷ rest) p = inl (
    tt,
    rw (run, reads_out events watch_closed (signal_ready false p))
        (run_silent rest (record p { out = p.out ++ events; done_calls = suc p.done_calls })),
  )

  all_done_calls_le : (pool : List (List (Attempt E))) → all_done_calls pool ≤ length pool
  unfolding all_done_calls
  all_done_calls_le [] = omega arith
  all_done_calls_le (tries ∷ rest) = elim (run_signals tries start) [
    | inl (m, h) ↦ omega (arith, h, all_done_calls_le rest)
    | inr (n, h) ↦ omega (arith, h, all_done_calls_le rest)
  ]

  missing_iff :
      (pool : List (List (Attempt E))) → (length pool ≤ all_done_calls pool) ↔ All IsMade pool
  unfolding all_done_calls
  missing_iff [] = (λ h. tt, λ a. omega arith)
  missing_iff (tries ∷ rest) =
      let (there, back) = missing_iff rest in
      let le = all_done_calls_le rest in
      elim (run_signals tries start) [
        | inl (m, h) ↦ (
          λ l. (m, there (omega (arith, h, l))),
          λ (made_it, all). (let more = back all in omega (arith, h, more)),
        )
        | inr (n, h) ↦ (λ l. absurd (omega (arith, h, l, le)), λ (made_it, all). absurd (n made_it))
      ]

  forwarded :
      (pool : List (List (Attempt E)))
      → map (λ tries. (run false tries start).out) pool ≡ map events_of pool
  forwarded [] = refl
  forwarded (tries ∷ rest) = rw (run-events false tries start, forwarded rest) refl

  -- Each watch of a pool forwards exactly the events of the watches that are made until the context is
  -- done, in order and without a gap. The pool has started exactly if each of its watches was made at
  -- least once, however many attempts failed and however often a watch was made again.
  pub pool_lem :
      (pool : List (List (Attempt E)))
      → (map (λ tries. (run false tries start).out) pool ≡ map events_of pool)
        × ((missing_calls pool ≡ 0) ↔ All IsMade pool)
  unfolding missing_calls
  pool_lem pool = (
    forwarded pool,
    (
      λ h. (missing_iff pool).0 (omega (arith, h)),
      λ all. (let le = (missing_iff pool).1 all in omega (arith, le)),
    ),
  )
