-- ===== src/Admission/Server.antt =====
-- admission/webhook/server.go: the answer to a review request, and the watch of the certificate files.
pub mod Answers
pub mod Rotation
pub mod Restarts
use Prim.Native.String.{◌++◌ as ◌<>◌}
use kontroller.Base.{
  ℕ, String, Bool, true, false, not, Option, none, some, List, [], ◌∷◌, ◌==◌, if◌then◌else◌, Result,
  ok, err, with_prefix, ◌>>=◌,
}
use kontroller.Base.Dict.{Dict, insert}

-- `schema.GroupVersionKind`, and in the same form `schema.GroupVersionResource`.
pub record GroupVersion : Type 0 where
  pub group : String
  pub version : String
  pub name : String

-- The user of a request. Copying the extra values as texts changes none.
pub record UserInfo : Type 0 where
  pub username : String
  pub uid : String
  pub groups : List String
  pub extra : Dict (List String)

-- The request of an `AdmissionReview`.
pub record AdmissionRequest : Type 0 where
  pub uid : String
  pub kind : GroupVersion
  pub resource : GroupVersion
  pub subresource : String
  pub namespace : String
  pub name : String
  pub operation : String
  pub user_info : UserInfo
  pub object : String
  pub old_object : String

-- What is read of an HTTP request.
pub record HttpRequest : Type 0 where
  pub content_type : String
  pub body : String

-- The arguments of `admission.NewAttributesRecord` that are not constant.
pub record Attributes (O : Type 0) : Type 0 where
  pub object : Option O
  pub old_object : Option O
  pub kind : GroupVersion
  pub namespace : String
  pub name : String
  pub resource : GroupVersion
  pub subresource : String
  pub operation : String
  pub user_info : UserInfo

-- An error of the validator: a `StatusError`, or any other.
pub data ReviewError : Type 0 where
  plain : String → ReviewError
  status_error : (reason message : String) (code : ℕ) → ReviewError

pub data DecodeError : Type 0 where
  not_registered : String → DecodeError
  other_error : String → DecodeError

-- The results of `Decode`: the kind is missing where it could not be read.
pub record Decoded (O : Type 0) : Type 0 where
  pub object : O
  pub gvk : Option GroupVersion
  pub error : Option DecodeError

pub record AdmissionReview : Type 0 where
  pub kind : String
  pub api_version : String
  pub uid : String
  pub allowed : Bool
  pub code : ℕ
  pub message : String
  pub reason : String

pub data Reply : Type 0 where
  http_error : (message : String) (status : ℕ) → Reply
  written : String → Reply

-- The decoder of the scheme, JSON, the text of a kind, and the validator with its state.
pub record ServerEnv (O S : Type 0) : Type 0 where
  pub parse_review : String → Result (Option AdmissionRequest)
  pub decode : String → Decoded O
  pub unstructured : String → Result O
  pub show_gvk : Option GroupVersion → String
  pub handles : String → Bool
  pub validate : Attributes O → S → Option ReviewError × S
  pub marshal : AdmissionReview → Result String

abbrev pub status_accepted : ℕ
status_accepted = 202

abbrev pub bad_request : ℕ
bad_request = 400

abbrev pub internal_server_error : ℕ
internal_server_error = 500

unfoldable pub same_gvk : GroupVersion → GroupVersion → Bool
same_gvk a b =
    if a.group == b.group
    then (if a.version == b.version then a.name == b.name else false)
    else false

-- The reason and the message; an unknown reason is the empty text.
abbrev pub reason_of : Option ReviewError → String
reason_of none = ""
reason_of (some (plain _)) = ""
reason_of (some (status_error reason _ _)) = reason

abbrev pub message_of : Option ReviewError → String
message_of none = "valid"
message_of (some (plain message)) = message
message_of (some (status_error _ message _)) = message

unfoldable pub review_response : (uid : String) → Option ReviewError → AdmissionReview
review_response uid e = record {
  kind = "AdmissionReview";
  api_version = "admission.k8s.io/v1";
  uid = uid;
  allowed = true;
  code = status_accepted;
  message = message_of e;
  reason = reason_of e;
}

module _ {O S : Type 0} (env : ServerEnv O S) where
  abbrev present : Option AdmissionRequest → Result AdmissionRequest
  present none = err "admission review can't be used: Request field is nil"
  present (some r) = ok r

  unfoldable pub parse_request : HttpRequest → Result AdmissionRequest
  parse_request r =
      if not (r.content_type == "application/json")
      then err ("Content-Type: \"" <> (r.content_type <> "\" should be \"application/json\""))
      else if r.body == ""
      then err "admission request body is empty"
      else (with_prefix "could not parse admission review request: " (env.parse_review r.body)
          >>= present)

  -- `gvk == nil || *gvk != expected`
  abbrev pub differs : Option GroupVersion → (expected : GroupVersion) → Bool
  differs none expected = true
  differs (some gvk) expected = not (same_gvk gvk expected)

  -- What becomes of a raw object: it is kept, if there is one, or the request is refused with a
  -- message and a status.
  pub data Read : Type 0 where
    kept : Option O → Read
    refused : (message : String) (status : ℕ) → Read

  abbrev kept_or_failed : Result O → Read
  kept_or_failed (ok o) = kept (some o)
  kept_or_failed (err e) = refused e internal_server_error

  -- The cases that follow the one about the kind.
  abbrev read_decoded : Decoded O → Option DecodeError → (raw : String) → Read
  read_decoded d none raw = kept (some d.object)
  read_decoded d (some (not_registered e)) raw = kept_or_failed (env.unstructured raw)
  read_decoded d (some (other_error e)) raw = refused e bad_request

  abbrev unexpected : Option GroupVersion → (expected : GroupVersion) → String
  unexpected gvk expected =
      "unexpected GVK " <> (env.show_gvk gvk <> (". Expected " <> env.show_gvk (some expected)))

  unfoldable pub read_object : (expected : GroupVersion) (raw : String) → Read
  read_object expected raw =
      let d = env.decode raw in
      if raw == ""
      then kept none
      else if differs d.gvk expected
      then refused (unexpected d.gvk expected) bad_request
      else read_decoded d d.error raw

  unfoldable pub attributes_of : AdmissionRequest → (object old_object : Option O) → Attributes O
  attributes_of r object old_object = record {
    object = object;
    old_object = old_object;
    kind = r.kind;
    namespace = r.namespace;
    name = r.name;
    resource = r.resource;
    subresource = r.subresource;
    operation = r.operation;
    user_info = r.user_info;
  }

  abbrev respond : (uid : String) → Option ReviewError → Reply
  respond uid e = elim (env.marshal (review_response uid e)) [
    | ok out ↦ written out
    | err message ↦ http_error message internal_server_error
  ]

  abbrev judged : (uid : String) → Option ReviewError × S → Reply × S
  judged uid (e, s) = (respond uid e, s)

  abbrev with_object : AdmissionRequest → Option O → Read → S → Reply × S
  with_object r old_object (refused message status) s = (http_error message status, s)
  with_object r old_object (kept object) s =
      judged r.uid (env.validate (attributes_of r object old_object) s)

  abbrev with_old_object : AdmissionRequest → Read → S → Reply × S
  with_old_object r (refused message status) s = (http_error message status, s)
  with_old_object r (kept old_object) s = with_object r old_object (read_object r.kind r.object) s

  abbrev handle_parsed : Result AdmissionRequest → S → Reply × S
  handle_parsed (err message) s = (http_error message bad_request, s)
  handle_parsed (ok r) s =
      if env.handles r.operation
      then with_old_object r (read_object r.kind r.old_object) s
      else (respond r.uid none, s)

  unfoldable pub handle_webhook_validate : HttpRequest → S → Reply × S
  handle_webhook_validate request s = handle_parsed (parse_request request) s

-- The watch of files. What is known of a file: when it was modified, or why it cannot be read.
pub data FileInfo : Type 0 where
  modified : (at : ℕ) → FileInfo
  unreadable : String → FileInfo

-- `infos`, which the closure keeps, and the map that it returns.
pub record Infos : Type 0 where
  pub infos : Dict FileInfo
  pub res : Dict FileInfo

-- One tick of the two seconds: what `os.Stat` gives of a path, and whether the client has read the
-- last change.
pub record Tick : Type 0 where
  pub stat : String → FileInfo
  pub has_read : Bool

unfoldable pub get_infos : (stat : String → FileInfo) (paths : List String) → Infos → Infos
get_infos stat [] i = i
get_infos stat (path ∷ rest) i =
    get_infos stat rest (record i { infos = insert path (stat path) i.infos })

-- A call of the closure: the map that it returns is new.
abbrev call_get_infos : (String → FileInfo) → List String → Dict FileInfo → Infos
call_get_infos stat paths before = get_infos stat paths (record { infos = before; res = [] })

-- `reflect.DeepEqual` of maps is an argument. The signals that are sent, in order, over the ticks.
module _ (deep_equal : Dict FileInfo → Dict FileInfo → Bool) (paths : List String) where
  unfoldable pub watch_files : (infos last_infos : Dict FileInfo) → List Tick → List (Unit {0})
  watch_files infos last_infos [] = []
  watch_files infos last_infos (t ∷ rest) =
      let new = call_get_infos t.stat paths infos in
      let unchanged = watch_files new.infos last_infos rest in
      let later = watch_files new.infos new.res rest in
      if deep_equal last_infos new.res then unchanged else if t.has_read then tt ∷ later else later

  unfoldable pub notify_changes : (stat : String → FileInfo) → List Tick → List (Unit {0})
  notify_changes stat ticks =
      let first = call_get_infos stat paths [] in watch_files first.infos first.res ticks
