-- ===== src/Utils/Status.antt =====
-- utils/types.go: the status that a session reports to the operator command that started it.
use kontroller.Base.{
  ℕ, String, Bool, true, false, Option, none, some, List, [], ◌∷◌, ◌≡◌, arith, Option-cases, inl,
  inr, refl,
}
use kontroller.Utils.Types.{SessionObj, OperatorCommandDetails}

pub record PatchStatus : Type 0 where
  pub errors : List String
  pub success : Bool
  pub payload : String

abbrev pub no_patch : PatchStatus
no_patch = record { errors = []; success = false; payload = "" }

abbrev pub StatusOption : Type 0
StatusOption = PatchStatus → PatchStatus

abbrev pub with_payload : String → StatusOption
with_payload payload s = record s { payload = payload }

abbrev pub with_multiple_errors : List String → StatusOption
with_multiple_errors errors s = record s { errors = errors }

abbrev pub with_error : String → StatusOption
with_error e s = record s { errors = e ∷ [] }

abbrev pub with_success : StatusOption
with_success s = record s { success = true }

abbrev pub apply_options : List StatusOption → PatchStatus → PatchStatus
apply_options [] ps = ps
apply_options (o ∷ os) ps = apply_options os (o ps)

-- `OperatorCommandStatus`
pub record CommandStatus : Type 0 where
  pub executer : String
  pub started : Bool
  pub started_at : ℕ
  pub completed : Bool
  pub completed_at : ℕ
  pub payload : String
  pub error : Option String

-- One call of the Kubernetes API, on the status of one operator command.
pub record StatusPatch : Type 0 where
  pub namespace : String
  pub name : String
  pub body : String

-- `json.Marshal`, which may fail, of the messages and of the status
pub record Marshal : Type 0 where
  pub messages : List String → Option String
  pub status : CommandStatus → Option String

module _ (json : Marshal) where
  with_errors : List String → CommandStatus → Option CommandStatus
  with_errors [] st = some st
  with_errors (e ∷ []) st = some (record st { error = some e })
  with_errors (e ∷ f ∷ rest) st = elim (json.messages (e ∷ f ∷ rest)) [
    | none ↦ none
    | some payload ↦
        some (record st { error = some "Failed with multiple errors"; payload = payload })
  ]

  -- The status, unless the messages cannot be marshalled.
  unfoldable pub status_of : OperatorCommandDetails → ℕ → PatchStatus → Option CommandStatus
  unfolding with_errors
  status_of parent now ps = with_errors ps.errors (record {
    executer = "operator";
    started = true;
    started_at = parent.started_at;
    completed = true;
    completed_at = now;
    payload = ps.payload;
    error = none;
  })

  patch_of : OperatorCommandDetails → Option CommandStatus → Option StatusPatch
  patch_of parent none = none
  patch_of parent (some st) = elim (json.status st) [
    | none ↦ none
    | some body ↦ some (record { namespace = parent.namespace; name = parent.name; body = body })
  ]

  -- The patch that is sent, if any.
  unfoldable pub set_operator_command_status :
      SessionObj → ℕ → List StatusOption → Option StatusPatch
  unfolding patch_of
  set_operator_command_status s now options = elim s.parent_command_details [
    | none ↦ none
    | some parent ↦ patch_of parent (status_of parent now (apply_options options no_patch))
  ]

  -- A reported status is a completed one. It carries an error exactly if the session had one: the
  -- message where it is one error, else a fixed text, and all the messages as the payload.
  pub status_of_errors :
      (parent : OperatorCommandDetails) (now : ℕ) (ps : PatchStatus) (st : CommandStatus)
      → status_of parent now ps ≡ some st
      → (st.completed ≡ true)
        × (st.started_at ≡ parent.started_at)
        × (ps.errors ≡ [] → (st.error ≡ none) × (st.payload ≡ ps.payload))
        × ((e : String) → ps.errors ≡ e ∷ [] → (st.error ≡ some e) × (st.payload ≡ ps.payload))
        × ((e f : String) (rest : List String)
            → ps.errors ≡ e ∷ f ∷ rest
            → (st.error ≡ some "Failed with multiple errors")
              × (json.messages ps.errors ≡ some st.payload))
  unfolding status_of
  status_of_errors parent now ps st h = (
    ground arith,
    ground arith,
    λ e. ground arith,
    λ m e. ground arith,
    λ m n rest e. ground arith,
  )

  -- A session that no operator command started reports nothing, whatever happened; and what is
  -- reported goes to the command that started the session.
  pub set_operator_command_status_target :
      (s : SessionObj) (now : ℕ) (options : List StatusOption) (p : StatusPatch)
      → set_operator_command_status s now options ≡ some p
      → (parent : OperatorCommandDetails) × (s.parent_command_details ≡ some parent)
        × (p.namespace ≡ parent.namespace)
        × (p.name ≡ parent.name)
  unfolding set_operator_command_status
  set_operator_command_status_target s now options p h =
      elim (Option-cases s.parent_command_details) [
        | inl e ↦ absurd (ground arith)
        | inr (parent, e) ↦ (parent, e, ground arith, ground arith)
      ]

  -- The status of a session that reports one error.
  abbrev pub error_status : OperatorCommandDetails → ℕ → String → CommandStatus
  error_status parent now e = record {
    executer = "operator";
    started = true;
    started_at = parent.started_at;
    completed = true;
    completed_at = now;
    payload = "";
    error = some e;
  }

  -- One error is reported to the session's command, unless its status cannot be marshalled.
  pub set_operator_command_status_error :
      (s : SessionObj) (now : ℕ) (e : String) (parent : OperatorCommandDetails)
      → s.parent_command_details ≡ some parent
      → set_operator_command_status s now (with_error e ∷ [])
        ≡ (elim (json.status (error_status parent now e)) [
          | none ↦ none
          | some body ↦
              some (record { namespace = parent.namespace; name = parent.name; body = body })
        ])
  unfolding set_operator_command_status patch_of status_of with_errors
  set_operator_command_status_error s now e parent h = rw h refl
