-- ===== src/RestApi/Triggered.antt =====
-- restapihandler/triggeraction.go: what a request triggers.
use mathlib.Core.List.{append_assoc, append-nil, map-append}
use kontroller.Base.{
  ℕ, suc, String, ◌≡◌, ◌≢◌, refl, sym, ap, ◌∙◌, Bool, not, none, List, [], ◌∷◌, ◌++◌, ◌==◌, Result,
  ok, err, map, keep, All, All-append, Bool-cases, inl, inr, eq_iff, eq-false, Result-cases,
  String-cases,
}
use kontroller.Utils.Types.{Command, SessionObj, new_session_obj}
use kontroller.Utils.Status.{set_operator_command_status}
use kontroller.RestApi.{
  RestEnv, Triggers, Response, no_triggers, status_ok, internal_server_error, handle_command,
  handle_commands, handle_action_request, by_method, answer, action_request,
}

-- The command has a name.
abbrev pub is_named : Command → Bool
is_named c = not (c.command_name == "")

abbrev command_of : SessionObj → Command
command_of s = s.command

module _ (env : RestEnv) (now : ℕ) where
  -- What the commands of a request trigger: a job for each that has a name, in order. The reports
  -- on the others go nowhere.
  pub record IsTriggered (commands : List Command) (t : Triggers) : Type 0 where
    pub jobs : map (λ s. s.command) t.invoked ≡ keep is_named commands
    pub nothing_sent : All (λ r. r ≡ none) t.reported

  -- How a request is answered.
  pub data IsAnswered (method : String) (read : Result String) : Response → Triggers → Type 0 where
    triggered :
        method ≡ "POST"
        → (received : String) → read ≡ ok received
        → (commands : List Command) → env.unmarshal received ≡ ok commands
        → (t : Triggers) → IsTriggered commands t
        → IsAnswered method read (record { status = status_ok; body = "ok" }) t
    not_read :
        (e : String)
        → read ≡ err e
        → IsAnswered method read (record { status = internal_server_error; body = e }) no_triggers
    not_allowed :
        method ≢ "POST"
        → (message : String)
        → IsAnswered method read
            (record { status = internal_server_error; body = message })
            no_triggers
    not_parsed :
        (received : String)
        → read ≡ ok received
        → (e : String) → env.unmarshal received ≡ err e
        → IsAnswered method read (record { status = internal_server_error; body = e }) no_triggers

  abbrev commands_of : Triggers → List Command
  commands_of t = map command_of t.invoked

  AllNone : Triggers → Type 0
  AllNone t = All (λ r. r ≡ none) t.reported

  handle_command_jobs :
      (i : ℕ) (c : Command) (t : Triggers)
      → commands_of (handle_command env now i c t) ≡ commands_of t ++ keep is_named (c ∷ [])
  unfolding handle_command new_session_obj
  handle_command_jobs i c t = elim (Bool-cases (c.command_name == "")) [
    | inl e ↦ rw (handle_command, e) (sym (append-nil (commands_of t)))
    | inr n ↦ rw (handle_command, n) (map-append command_of t.invoked _)
  ]

  handle_command_reports :
      (i : ℕ) (c : Command) (t : Triggers) → AllNone t → AllNone (handle_command env now i c t)
  unfolding handle_command new_session_obj set_operator_command_status AllNone
  handle_command_reports i c t all = elim (Bool-cases (c.command_name == "")) [
    | inl e ↦ rw (handle_command, e) (All-append _ t.reported _ all (refl, tt))
    | inr n ↦ rw (handle_command, n) all
  ]

  keep-cons :
      (c : Command) (cs : List Command)
      → keep is_named (c ∷ []) ++ keep is_named cs ≡ keep is_named (c ∷ cs)
  keep-cons c cs = elim (Bool-cases (c.command_name == "")) [
    | inl e ↦ rw e refl
    | inr n ↦ rw n refl
  ]

  handle_commands_jobs :
      (i : ℕ) (cs : List Command) (t : Triggers)
      → commands_of (handle_commands env now i cs t) ≡ commands_of t ++ keep is_named cs
  unfolding handle_commands
  handle_commands_jobs i [] t = sym (append-nil (commands_of t))
  handle_commands_jobs i (c ∷ rest) t =
      handle_commands_jobs (suc i) rest (handle_command env now i c t)
      ∙ ap (λ (done : List Command). done ++ keep is_named rest) (handle_command_jobs i c t)
      ∙ append_assoc (commands_of t) (keep is_named (c ∷ [])) (keep is_named rest)
      ∙ ap (λ (more : List Command). commands_of t ++ more) (keep-cons c rest)

  handle_commands_reports :
      (i : ℕ) (cs : List Command) (t : Triggers)
      → AllNone t
      → AllNone (handle_commands env now i cs t)
  unfolding handle_commands
  handle_commands_reports i [] t all = all
  handle_commands_reports i (c ∷ rest) t all =
      handle_commands_reports (suc i) rest (handle_command env now i c t)
        (handle_command_reports i c t all)

  handle_commands-IsTriggered :
      (cs : List Command) → IsTriggered cs (handle_commands env now 0 cs no_triggers)
  unfolding AllNone
  handle_commands-IsTriggered cs = record {
    jobs = handle_commands_jobs 0 cs no_triggers;
    nothing_sent = handle_commands_reports 0 cs no_triggers tt;
  }

  module _ (method : String) where
    abbrev Answered : Result String → Response × Triggers → Type 0
    Answered read x = IsAnswered method read x.0 x.1

    by_method-Answered :
        (received : String)
        → Answered (ok received) (answer env now (by_method env now method received))
    unfolding by_method handle_action_request
    by_method-Answered received = elim (String-cases method "POST") [
      | inr n ↦ rw (by_method, eq-false method "POST" n) (not_allowed n _)
      | inl m ↦ elim (Result-cases (env.unmarshal received)) [
        | inl (cs, u) ↦
            rw (by_method, (eq_iff method "POST").1 m, handle_action_request, u)
              (triggered m received refl cs u _ (handle_commands-IsTriggered cs))
        | inr (e, u) ↦
            rw (by_method, (eq_iff method "POST").1 m, handle_action_request, u)
              (not_parsed received refl e u)
      ]
    ]

    -- A request is answered with status 200 only if it is a POST request whose body can be read and
    -- parsed; then the pool is given a job for each of its commands that has a name, in order, and of
    -- the others nothing is reported. Else it is answered with status 500, for another method too, and
    -- nothing is triggered.
    pub action_request-IsAnswered :
        (read : Result String)
        → let (response, t) = action_request env now method read in
          IsAnswered method read response t
    unfolding action_request
    action_request-IsAnswered (ok received) = by_method-Answered received
    action_request-IsAnswered (err e) = not_read e refl
