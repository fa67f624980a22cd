-- ===== src/Watcher/Commands/Run.antt =====
-- watcher/commandshandler.go: what becomes of the commands that a receiver takes from its channel.
use kontroller.Base.{
  ℕ, String, ◌≡◌, ◌≢◌, refl, not, Option, none, some, Option-cases, List, [], ◌∷◌, arith,
  if◌then◌else◌, ◌==◌, eq_iff, Result, ok, err, Memᴰ, keep, Bool-cases, inl, inr, mem-cons-cases,
}
use kontroller.Config.{OperatorConfig}
use kontroller.Utils.Types.{Command, SessionObj, new_session_obj, set_operator_command_details}
use kontroller.Utils.Status.{
  Marshal, StatusPatch, set_operator_command_status, with_error, set_operator_command_status_error,
  error_status, CommandStatus,
}
use kontroller.Watcher.Commands.{OperatorCommand}

-- A job for the pool, or the status that is reported at once, if any is.
pub data Invoked : Type 0 where
  submitted : SessionObj → Invoked
  reported : Option StatusPatch → Invoked

-- `operator_api` is the command type that the handler is for; `unmarshal` is `json.Unmarshal` into
-- a command; `uuid` and `empty` are a fresh identifier and the zero command.
pub record CommandEnv : Type 0 where
  pub config : OperatorConfig
  pub operator_api : String
  pub unmarshal : String → Result Command
  pub json : Marshal
  pub uuid : String
  pub empty : Command

module _ (env : CommandEnv) (now : ℕ) where
  -- The session of a command: the pointer to the API command is read after it is filled.
  unfoldable pub session_of : OperatorCommand → Command → SessionObj
  session_of c cmd =
      set_operator_command_details (new_session_obj env.config cmd "" c.guid now env.uuid)
        (record { namespace = c.namespace; name = c.name; started_at = now })

  invoke_unmarshalled : OperatorCommand → Result Command → Invoked
  invoke_unmarshalled c (err e) =
      reported
        (set_operator_command_status env.json (session_of c env.empty) now (with_error e ∷ []))
  invoke_unmarshalled c (ok cmd) = submitted (session_of c cmd)

  unfoldable pub invoke_command : OperatorCommand → Invoked
  unfolding invoke_unmarshalled
  invoke_command c = invoke_unmarshalled c (env.unmarshal c.body)

  -- `Start`, over the commands that it receives
  unfoldable pub start : List OperatorCommand → List Invoked
  start [] = []
  start (c ∷ rest) =
      let others = start rest in
      if not (c.command_type == env.operator_api) then others else invoke_command c ∷ others

  -- The status that is reported to a command whose body is no API command: it began and ended now,
  -- with the error.
  abbrev pub failed_status : OperatorCommand → String → CommandStatus
  failed_status c e =
      error_status env.json (record { namespace = c.namespace; name = c.name; started_at = now })
        now e

  -- The result of one command.
  pub data IsOutcome (c : OperatorCommand) : Invoked → Type 0 where
    runs :
        (cmd : Command)
        → env.unmarshal c.body ≡ ok cmd
        → (s : SessionObj) → s.command ≡ cmd
        → (c.guid ≢ "" → s.job_id ≡ c.guid)
        → (c.guid ≡ "" → s.job_id ≡ env.uuid)
        → s.customer_guid ≡ env.config.account_id
        → s.timestamp ≡ now
        → s.parent_job_id ≡ ""
        → s.parent_command_details
          ≡ some (record { namespace = c.namespace; name = c.name; started_at = now })
        → IsOutcome c (submitted s)
    fails :
        (e : String)
        → env.unmarshal c.body ≡ err e
        → (body : String) → env.json.status (failed_status c e) ≡ some body
        → IsOutcome c
            (reported (some (record { namespace = c.namespace; name = c.name; body = body })))
    unmarshallable :
        (e : String)
        → env.unmarshal c.body ≡ err e
        → env.json.status (failed_status c e) ≡ none
        → IsOutcome c (reported none)

  unmarshalled-IsOutcome :
      (c : OperatorCommand) (r : Result Command)
      → env.unmarshal c.body ≡ r
      → IsOutcome c (invoke_unmarshalled c r)
  unfolding invoke_unmarshalled session_of new_session_obj set_operator_command_details
  unmarshalled-IsOutcome c (ok cmd) e =
      runs cmd e (session_of c cmd) refl (λ n. ground (arith, n, eq_iff c.guid ""))
        (λ y. ground (arith, y, eq_iff c.guid "")) refl refl refl refl
  unmarshalled-IsOutcome c (err m) e =
      let same =
        set_operator_command_status_error env.json (session_of c env.empty) now m
          (record { namespace = c.namespace; name = c.name; started_at = now }) refl in
      elim (Option-cases (env.json.status (failed_status c m))) [
        | inl n ↦ rw (same, n) (unmarshallable m e n)
        | inr (body, f) ↦ rw (same, f) (fails m e body f)
      ]

  invoke_command-IsOutcome : (c : OperatorCommand) → IsOutcome c (invoke_command c)
  unfolding invoke_command
  invoke_command-IsOutcome c = unmarshalled-IsOutcome c (env.unmarshal c.body) refl

  -- The commands of the handler's type.
  abbrev pub handled : List OperatorCommand → List OperatorCommand
  handled cs = keep (λ c. c.command_type == env.operator_api) cs

  -- One outcome for each command, in their order.
  abbrev pub AreOutcomes : List OperatorCommand → List Invoked → Type 0
  AreOutcomes [] [] = Unit
  AreOutcomes [] (i ∷ is) = ⊥
  AreOutcomes (c ∷ cs) [] = ⊥
  AreOutcomes (c ∷ cs) (i ∷ is) = IsOutcome c i × AreOutcomes cs is

  -- The received commands of the handler's type have one outcome each, in order, and no other command
  -- has any. If its body is an API command, the outcome is a job that carries it, whose session has the
  -- account, the time and no parent job, whose identifier is the command's or else a fresh one, and
  -- which reports to the command. Else a completed status with the error is reported to the command,
  -- unless JSON cannot write that status, and then nothing is.
  pub start-AreOutcomes : (cs : List OperatorCommand) → AreOutcomes (handled cs) (start cs)
  unfolding start
  start-AreOutcomes [] = tt
  start-AreOutcomes (d ∷ rest) = elim (Bool-cases (d.command_type == env.operator_api)) [
    | inl y ↦ rw y (invoke_command-IsOutcome d, start-AreOutcomes rest)
    | inr n ↦ rw n (start-AreOutcomes rest)
  ]

  -- Every job or report is the outcome of a received command of the handler's type.
  pub start_sound :
      (cs : List OperatorCommand) (i : Invoked)
      → Memᴰ i (start cs)
      → (c : OperatorCommand) × Memᴰ c cs × (c.command_type ≡ env.operator_api) × IsOutcome c i
  unfolding start
  start_sound [] i m = elim m [ ]
  start_sound (d ∷ rest) i m = elim (Bool-cases (d.command_type == env.operator_api)) [
    | inr n ↦ let (c, k, t, o) = start_sound rest i (rw n at m) in (c, Memᴰ.tail k, t, o)
    | inl y ↦ elim (mem-cons-cases (rw y at m)) [
      | inl same ↦ (d, Memᴰ.head refl, (eq_iff _ _).0 y, rw same (invoke_command-IsOutcome d))
      | inr n ↦ let (c, k, t, o) = start_sound rest i n in (c, Memᴰ.tail k, t, o)
    ]
  ]
