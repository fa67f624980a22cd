-- ===== src/Watcher/Commands.antt =====
-- watcher/commandswatcher.go and watcher/commandshandler.go: from the events of the operator's own
-- commands (a custom resource) to the jobs that the pool is given.
pub mod Run
use kontroller.Base.{
  ℕ, ◌+◌, ◌≤◌, ◌*◌, String, ◌≡◌, ◌↔◌, refl, Bool, true, false, not, ◌&&◌, Option, none, some, List,
  [], ◌∷◌, ◌++◌, arith, if◌then◌else◌, Bool-cases, inl, inr, ◌⊎◌, ltb, ◌==◌, eq_iff, Result, ok,
  err, keep,
}
use kontroller.Config.{OperatorConfig}
use kontroller.Utils.Types.{
  Command, SessionObj, new_session_obj, set_operator_command_details, OperatorCommandDetails,
}
use kontroller.Utils.Status.{Marshal, StatusPatch, set_operator_command_status, with_error}
use kontroller.Watcher.Event.{
  Event, EventType, added, modified, deleted, bookmark, error, Object, pod, sbom_syft,
  application_profile, unstructured, other,
}

-- 30 minutes, in nanoseconds
abbrev pub min_operator_command_age : ℕ
min_operator_command_age = 1800000000000

-- `v1alpha1.OperatorCommand`, with the fields that are read.
pub record OperatorCommand : Type 0 where
  pub namespace : String
  pub name : String
  pub creation_timestamp : ℕ
  pub completed : Bool
  pub guid : String
  pub command_type : String
  pub body : String

-- `convert namespace name` is what `ConvertUnstructuredToOperatorCommand` makes of the object of
-- that name: the converter of the Kubernetes library, which may fail.
abbrev pub Convert : Type 0
Convert = String → String → Result OperatorCommand

-- The channels of the receivers, each with what was sent on it: the first is the oldest. A channel
-- buffers a hundred commands; a send to one that is full waits until its receiver has taken one, and
-- for ever if it takes none. That wait is left out: what stands here is what is sent once it is over.
abbrev pub Receivers : Type 0
Receivers = List (List OperatorCommand)

-- `RegisterForCommands`, of a new channel
abbrev pub register_for_commands : Receivers → Receivers
register_for_commands rs = rs ++ [] ∷ []

-- The loop that sends to every receiver.
unfoldable pub send_all : OperatorCommand → Receivers → Receivers
send_all c [] = []
send_all c (r ∷ rest) = (r ++ c ∷ []) ∷ send_all c rest

module _ (convert : Convert) (now : ℕ) where
  add_converted : Result OperatorCommand → Receivers → Receivers
  add_converted (err _) rs = rs
  add_converted (ok c) rs =
      if ltb (c.creation_timestamp + min_operator_command_age) now
      then rs
      else if c.completed
      then rs
      else send_all c rs

  unfoldable pub add_handler : Object → Receivers → Receivers
  unfolding add_converted
  add_handler (unstructured ns name) rs = add_converted (convert ns name) rs
  add_handler (pod _) rs = rs
  add_handler (sbom_syft _) rs = rs
  add_handler (application_profile _) rs = rs
  add_handler other rs = rs

  handle_type : EventType → Object → Receivers → Receivers
  handle_type added o rs = add_handler o rs
  handle_type modified o rs = rs
  handle_type deleted o rs = rs
  handle_type bookmark o rs = rs
  handle_type error o rs = rs

  -- One turn of the loop of `CommandWatch`.
  unfoldable pub command_watch : Event → Receivers → Receivers
  unfolding handle_type
  command_watch e rs = handle_type e.type e.object rs

  -- The command that an event carries to the receivers.
  pub record IsPending (e : Event) (c : OperatorCommand) : Type 0 where
    pub type : e.type ≡ added
    pub object :
        (ns : String) × (name : String) × (e.object ≡ unstructured ns name)
        × (convert ns name ≡ ok c)
    pub young : now ≤ c.creation_timestamp + min_operator_command_age
    pub pending : c.completed ≡ false

  converted-sends :
      (r : Result OperatorCommand) (rs : Receivers)
      → (add_converted r rs ≡ rs)
        ⊎ ((c : OperatorCommand) × (r ≡ ok c)
            × (now ≤ c.creation_timestamp + min_operator_command_age)
            × (c.completed ≡ false)
            × (add_converted r rs ≡ send_all c rs))
  unfolding add_converted
  converted-sends (err _) rs = inl refl
  converted-sends (ok c) rs =
      elim (Bool-cases (ltb (c.creation_timestamp + min_operator_command_age) now)) [
        | inl y ↦ inl (ground arith)
        | inr n ↦ elim (Bool-cases c.completed) [
          | inl y ↦ inl (ground arith)
          | inr m ↦ inr (c, refl, ground arith, m, ground arith)
        ]
      ]

  object-sends :
      (o : Object) (rs : Receivers)
      → (add_handler o rs ≡ rs)
        ⊎ ((c : OperatorCommand) × ((ns : String) × (name : String) × (o ≡ unstructured ns name)
              × (convert ns name ≡ ok c))
            × (now ≤ c.creation_timestamp + min_operator_command_age)
            × (c.completed ≡ false)
            × (add_handler o rs ≡ send_all c rs))
  unfolding add_handler
  object-sends (unstructured ns name) rs = elim (converted-sends (convert ns name) rs) [
    | inl e ↦ inl e
    | inr (c, r, y, p, e) ↦ inr (c, (ns, name, refl, r), y, p, e)
  ]
  object-sends (pod _) rs = inl refl
  object-sends (sbom_syft _) rs = inl refl
  object-sends (application_profile _) rs = inl refl
  object-sends other rs = inl refl

  type-sends :
      (t : EventType) (o : Object) (rs : Receivers)
      → (handle_type t o rs ≡ rs) ⊎ ((t ≡ added) × (handle_type t o rs ≡ add_handler o rs))
  unfolding handle_type
  type-sends added o rs = inr (refl, refl)
  type-sends modified o rs = inl refl
  type-sends deleted o rs = inl refl
  type-sends bookmark o rs = inl refl
  type-sends error o rs = inl refl

  -- An event changes nothing, or it adds one pending command to every receiver: the one that an
  -- addition's object holds, created at most 30 minutes ago and not completed.
  pub command_watch-sends :
      (e : Event) (rs : Receivers)
      → (command_watch e rs ≡ rs)
        ⊎ ((c : OperatorCommand) × IsPending e c × (command_watch e rs ≡ send_all c rs))
  unfolding command_watch
  command_watch-sends e rs = elim (type-sends e.type e.object rs) [
    | inl same ↦ inl same
    | inr (t, f) ↦ elim (object-sends e.object rs) [
      | inl same ↦ inl (cc (f, same))
      | inr (c, o, y, p, g) ↦
          inr (c, record { type = t; object = o; young = y; pending = p }, cc (f, g))
    ]
  ]

  -- A pending command is sent: the event adds it to every receiver.
  pub pending-sent :
      (e : Event) (c : OperatorCommand) (rs : Receivers)
      → IsPending e c
      → command_watch e rs ≡ send_all c rs
  unfolding command_watch handle_type add_handler add_converted
  pending-sent e c rs v =
      let (ns, name, o, r) = v.object in
      let y = v.young in let p = v.pending in rw (v.type, o, r) (ground (arith, y, p))
