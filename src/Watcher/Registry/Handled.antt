-- ===== src/Watcher/Registry/Handled.antt =====
-- watcher/registryhandler.go: what is reported of a command (`Start`, `patchCommandStatus`).
use kontroller.Base.{
  ℕ, String, ◌≡◌, ◌≢◌, refl, Bool, true, false, none, some, List, arith, ◌==◌, Result, ok, err,
  Result-cases, Option-cases, Bool-cases, inl, inr, ◌⊎◌, eq_iff,
}
use kontroller.Cluster.{Api, Kind}
use kontroller.Cluster.Steps.{
  Prog, Ended, returned, failed, panicked, ended, after, Ends, call-Ends, >>=-Ends, given, call,
  pure, ◌>>=◌, ◌>>◌,
}
use kontroller.Cluster.Goroutines.{Turn, Group}
use kontroller.Utils.Status.{CommandStatus, Marshal}
use kontroller.Watcher.Commands.{OperatorCommand}
use kontroller.Watcher.Registry.{
  upsert_registry, delete_registry, check_registry, run_registry_command, registry_status,
  patch_command_status, handle_registry_command, upserting, waited, caught,
}
use kontroller.Watcher.Registry.Objects.{RegistryEnv, is_registry_command}

module _ {S : Type 0} (api : Api S) (env : RegistryEnv) where
  waited-Ends : (g : Group S) → (r : Result (Unit {0})) × ((waited api env g).0 ≡ ended r)
  waited-Ends g = elim (Option-cases g.error) [
    | inl e ↦ (ok tt, ground (arith, e))
    | inr (m, e) ↦ (err m, ground (arith, e))
  ]

  upsert_registry-Ends :
      (ts : List Turn) (body : String) (b : Bool) → Ends (upsert_registry api env ts body b)
  unfolding upsert_registry ◌>>=◌ given
  upsert_registry-Ends ts body b s = elim (Result-cases (env.unmarshal_registry body)) [
    | inr (e, p) ↦ rw p (err e, refl)
    | inl (r, p) ↦ rw p (waited-Ends (upserting api env b r ts s))
  ]

  abbrev last_calls : String → Unit {0} → Prog S (Unit {0})
  last_calls n _ = call (api.delete Kind.secrets n) >> call (api.delete Kind.config_maps n)

  delete_registry-Ends : (body : String) → Ends (delete_registry api env body)
  unfolding delete_registry ◌>>=◌ given
  delete_registry-Ends body s = elim (Result-cases (env.unmarshal_registry body)) [
    | inr (e, p) ↦ rw p (err e, refl)
    | inl (r, p) ↦
        let n = r.resource_name in
        rw p (
          >>=-Ends (last_calls n)
            (λ _.
              >>=-Ends (λ _. call (api.delete Kind.config_maps n))
                (λ _. call-Ends (api.delete Kind.config_maps n)) (call (api.delete Kind.secrets n))
                (call-Ends (api.delete Kind.secrets n)))
            (call (api.delete Kind.cron_jobs n)) (call-Ends (api.delete Kind.cron_jobs n)) s)
  ]

  check_registry-Ends : (body : String) → Ends (check_registry api env body)
  unfolding check_registry ◌>>=◌ given
  check_registry-Ends body s = elim (Result-cases (env.unmarshal_registry body)) [
    | inr (e, p) ↦ rw p (err e, refl)
    | inl (r, p) ↦ elim (Result-cases (env.list_repositories r)) [
      | inr (e, q) ↦ rw (p, q) (err e, refl)
      | inl (names, q) ↦ rw (p, q) (env.marshal_repositories names, refl)
    ]
  ]

  -- A failure, or nothing.
  abbrev pub IsSilent : Result String → Type 0
  IsSilent r = (r ≡ ok "") ⊎ ((e : String) × (r ≡ err e))

  silenced :
      (x : Ended (Unit {0}) × S) (r : Result (Unit {0}))
      → x.0 ≡ ended r
      → (q : Result String) × ((after x (λ _. pure "")).0 ≡ ended q) × IsSilent q
  silenced (returned a, s) r h = (ok "", refl, inl refl)
  silenced (failed e, s) r h = (err e, refl, inr (e, refl))
  silenced (panicked, s) (ok a) h = absurd cc
  silenced (panicked, s) (err e) h = absurd cc

  silent :
      (m : Prog S (Unit {0})) (s : S)
      → (r : Result (Unit {0})) × ((m s).0 ≡ ended r)
      → (q : Result String) × (((m >> pure "") s).0 ≡ ended q) × IsSilent q
  unfolding ◌>>=◌
  silent m s (r, h) = silenced (m s) r h

  -- Only a check returns a payload.
  run_registry_command-Ends :
      (ts : List Turn) (c : OperatorCommand) (s : S)
      → (r : Result String) × ((run_registry_command api env ts c s).0 ≡ ended r)
        × (c.command_type ≢ env.check_registry → IsSilent r)
  unfolding run_registry_command
  run_registry_command-Ends ts c s = elim (Bool-cases (c.command_type == env.create_registry)) [
    | inl y ↦
        let (q, h, w) =
          silent (upsert_registry api env ts c.body true) s
            (upsert_registry-Ends ts c.body true s) in
        rw y (q, h, λ n. w)
    | inr n ↦ elim (Bool-cases (c.command_type == env.update_registry)) [
      | inl y ↦
          let (q, h, w) =
            silent (upsert_registry api env ts c.body false) s
              (upsert_registry-Ends ts c.body false s) in
          rw (n, y) (q, h, λ n. w)
      | inr m ↦ elim (Bool-cases (c.command_type == env.delete_registry)) [
        | inl y ↦
            let (q, h, w) =
              silent (delete_registry api env c.body) s (delete_registry-Ends c.body s) in
            rw (n, m, y) (q, h, λ n. w)
        | inr l ↦ elim (Bool-cases (c.command_type == env.check_registry)) [
          | inl y ↦
              let (q, h) = check_registry-Ends c.body s in
              rw (n, m, l, y)
                (q, h, λ k. absurd (k ((eq_iff c.command_type env.check_registry).0 y)))
          | inr k ↦ rw (n, m, l, k) (ok "", refl, λ _. inl refl)
        ]
      ]
    ]
  ]

  -- What `caught` makes of a run that does not panic.
  caught_lem :
      (x : Ended String × S) (r : Result String)
      → x.0 ≡ ended r
      → caught api env x ≡ (returned r, x.1)
  caught_lem (returned a, s) (ok b) h = ground arith
  caught_lem (returned a, s) (err e) h = absurd cc
  caught_lem (failed e, s) (ok b) h = absurd cc
  caught_lem (failed e, s) (err f) h = ground arith
  caught_lem (panicked, s) (ok b) h = absurd cc
  caught_lem (panicked, s) (err f) h = absurd cc

  -- A command that is not one on registries changes nothing and has nothing patched. One that is
  -- always ends, and then a completed status is patched on it: with the error's message if it failed,
  -- else without an error and with what it returned, which is nothing unless it was a check.
  pub handle_registry_command_lem :
      (json : Marshal) (started completed : ℕ) (ts : List Turn) (c : OperatorCommand) (s : S)
      → (is_registry_command env c.command_type ≡ false
          → handle_registry_command api env json started completed ts c s ≡ (returned none, s))
        × (is_registry_command env c.command_type ≡ true
            → (r : Result String) × (st : CommandStatus) × ((run_registry_command api env ts c s).0
                ≡ ended r)
              × (handle_registry_command api env json started completed ts c s ≡ (
                returned (patch_command_status api env json c st),
                (run_registry_command api env ts c s).1,
              ))
              × (st.completed ≡ true)
              × ((e : String) → r ≡ err e → (st.error ≡ some e) × (st.payload ≡ ""))
              × ((p : String) → r ≡ ok p → (st.error ≡ none) × (st.payload ≡ p))
              × (c.command_type ≢ env.check_registry → IsSilent r))
  unfolding handle_registry_command registry_status ◌>>=◌
  handle_registry_command_lem json t0 t1 ts c s = (
    λ n. rw n refl,
    λ y.
        let (r, h, w) = run_registry_command-Ends ts c s in
        (
          r,
          registry_status api env t0 t1 r,
          h,
          rw (y, caught_lem (run_registry_command api env ts c s) r h) refl,
          refl,
          λ e p. rw p (refl, refl),
          λ v p. rw p (refl, refl),
          w,
        ),
  )
