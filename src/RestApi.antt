-- ===== src/RestApi.antt =====
-- restapihandler/triggeraction.go: the answer to a request that triggers actions, and which jobs the
-- pool is given.
pub mod Triggered
use Prim.Native.String.{◌++◌ as ◌<>◌}
use kontroller.Base.{
  ℕ, suc, String, Option, List, [], ◌∷◌, ◌++◌, ◌==◌, if◌then◌else◌, Result, ok, err,
}
use kontroller.Config.{OperatorConfig}
use kontroller.Utils.Types.{Command, SessionObj, new_session_obj}
use kontroller.Utils.Status.{Marshal, StatusPatch, set_operator_command_status, with_error}

-- `json.Unmarshal` into commands, their identifiers in messages, and fresh identifiers.
pub record RestEnv : Type 0 where
  pub config : OperatorConfig
  pub unmarshal : String → Result (List Command)
  pub get_id : Command → String
  pub json : Marshal
  pub uuid : ℕ → String

-- The jobs that the pool is given, whatever it says of them, and the reports on commands.
pub record Triggers : Type 0 where
  pub invoked : List SessionObj
  pub reported : List (Option StatusPatch)

pub record Response : Type 0 where
  pub status : ℕ
  pub body : String

abbrev pub no_triggers : Triggers
no_triggers = record { invoked = []; reported = [] }

abbrev pub status_ok : ℕ
status_ok = 200

abbrev pub method_not_allowed : ℕ
method_not_allowed = 405

abbrev pub internal_server_error : ℕ
internal_server_error = 500

module _ (env : RestEnv) (now : ℕ) where
  -- The body of the loop; `i` counts the commands.
  unfoldable pub handle_command : (i : ℕ) → Command → Triggers → Triggers
  handle_command i c t =
      let s =
        new_session_obj env.config c c.job_tracking.parent_id c.job_tracking.job_id now
          (env.uuid i) in
      if c.command_name == ""
      then record t {
        reported =
            t.reported
            ++ set_operator_command_status env.json s now
                (with_error ("command not found. id: " <> env.get_id c) ∷ [])
              ∷ [];
      }
      else record t { invoked = t.invoked ++ s ∷ [] }

  unfoldable pub handle_commands : (i : ℕ) → List Command → Triggers → Triggers
  handle_commands i [] t = t
  handle_commands i (c ∷ rest) t = handle_commands (suc i) rest (handle_command i c t)

  unfoldable pub handle_action_request : (received : String) → Result Triggers
  handle_action_request received = elim (env.unmarshal received) [
    | err e ↦ err e
    | ok commands ↦ ok (handle_commands 0 commands no_triggers)
  ]

  -- The status before the error is looked at, and the result of the request, by its method.
  unfoldable pub by_method : (method received : String) → ℕ × Result Triggers
  by_method method received =
      if method == "POST"
      then (status_ok, handle_action_request received)
      else (method_not_allowed, err ("method '" <> (method <> "' not allowed")))

  abbrev pub answer : ℕ × Result Triggers → Response × Triggers
  answer (status, ok t) = (record { status = status; body = "ok" }, t)
  answer (status, err e) = (record { status = internal_server_error; body = e }, no_triggers)

  abbrev pub with_body : (method : String) → Result String → ℕ × Result Triggers
  with_body method (err e) = (status_ok, err e)
  with_body method (ok received) = by_method method received

  -- `read` is what reading the body of the request gives.
  unfoldable pub action_request : (method : String) (read : Result String) → Response × Triggers
  action_request method read = answer (with_body method read)
