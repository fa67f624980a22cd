-- ===== src/MainHandler/Responses.antt =====
-- mainhandler/kubescapehandler.go, kubescapehandlerhelper.go and handlecommandresponse.go: a
-- configuration scan is started at the scanner, and its answer is asked for until it is there.
pub mod Followed
use Prim.Native.String.{◌++◌ as ◌<>◌}
use kontroller.Base.{
  ℕ, ◌+◌, String, ◌≡◌, Bool, true, false, not, Option, none, some, List, [], ◌∷◌, ◌==◌,
  if◌then◌else◌, Result, ok, err, ◌>>=◌, is_some,
}
use kontroller.Base.Dict.{Dict}
use kontroller.Config.{OperatorConfig}
use kontroller.Utils.Types.{ScanRequest, Arg, SessionObj}
use kontroller.Utils.Status.{
  Marshal, StatusPatch, set_operator_command_status, with_error, with_success, with_payload,
}
use kontroller.MainHandler.ScanRequests.{get_kubescape_v1_scan_request, append_security_framework}

-- `url.URL`, with the parameters of its query
pub record Url : Type 0 where
  pub scheme : String
  pub host : String
  pub path : String
  pub query : Dict String

-- `http.Response`: what reading its body gives, and whether its status is 200.
pub record HttpResponse : Type 0 where
  pub is_ok : Bool
  pub body : Result String

-- `utilsmetav1.Response`
pub record ScanResponse : Type 0 where
  pub id : String
  pub type : String
  pub response : String

-- JSON, the HTTP client, the names of the types of an answer, and the text of the error where the
-- status is another one.
pub record ScannerEnv : Type 0 where
  pub config : OperatorConfig
  pub kind_framework : String
  pub convert : Arg → Result ScanRequest
  pub marshal : ScanRequest → Result String
  pub unmarshal : String → Result ScanResponse
  pub post : Url → String → Result (Option HttpResponse)
  pub json : Marshal
  pub error_type : String
  pub busy_type : String
  pub bad_status : String

abbrev pub kubescape_request_path_v1 : String
kubescape_request_path_v1 = "v1/scan"

abbrev pub kubescape_request_status_v1 : String
kubescape_request_status_v1 = "v1/status"

-- 40 seconds, in nanoseconds
abbrev pub wait_time : ℕ
wait_time = 40000000000

-- `kubescapeResponseData`
pub record ResponseData : Type 0 where
  pub scan_id : String
  pub session_obj : SessionObj

-- What the callback says: to be asked again after a time, or what it has reported.
pub data Handled : Type 0 where
  again : ℕ → Handled
  settled : Option StatusPatch → Handled

-- What a scan does: its result, the statuses it reports and the responses it enters.
pub record Scan : Type 0 where
  pub result : Result (Unit {0})
  pub reported : List (Option StatusPatch)
  pub entered : List ResponseData

-- What has become of an entered response: it waits until a time, or it was reported at one.
pub data Fate : Type 0 where
  waiting : ℕ → Fate
  reported_at : ℕ → Option StatusPatch → Fate

abbrev pub failure : (verb scan_id error : String) → String
failure verb scan_id error =
    verb <> (" scanID job status with scanID '" <> (scan_id <> ("' returned an error: " <> error)))

module _ (env : ScannerEnv) where
  unfoldable pub get_kubescape_v1_scan_url : Url
  get_kubescape_v1_scan_url = record {
    scheme = "http";
    host = env.config.cluster_config.kubescape_url;
    path = kubescape_request_path_v1;
    query = ("keep", "false") ∷ [];
  }

  unfoldable pub get_kubescape_v1_scan_status_url : (scan_id : String) → Url
  get_kubescape_v1_scan_status_url scan_id = record {
    scheme = "http";
    host = env.config.cluster_config.kubescape_url;
    path = kubescape_request_status_v1;
    query = ("ID", scan_id) ∷ [];
  }

  unfoldable pub read_kubescape_v1_scan_response : Option HttpResponse → Result ScanResponse
  read_kubescape_v1_scan_response none = ok (record { id = ""; type = ""; response = "" })
  read_kubescape_v1_scan_response (some r) =
      if r.is_ok then r.body >>= env.unmarshal else err env.bad_status

  -- The request, encoded, posted and answered.
  unfoldable pub trigger : Dict Arg → Result ScanResponse
  trigger args = do
    r ← get_kubescape_v1_scan_request env.kind_framework env.convert args
    body ← env.marshal (
        if env.config.service_config.trigger_security_framework
        then append_security_framework env.kind_framework r
        else r)
    answer ← env.post get_kubescape_v1_scan_url body
    read_kubescape_v1_scan_response answer

  -- `insertNewCommandResponseData` is called with this, if at all.
  abbrev pub entered_of : SessionObj → String → List ResponseData
  entered_of s id =
      if is_some s.parent_command_details then record { scan_id = id; session_obj = s } ∷ [] else []

  abbrev pub scanned : ℕ → SessionObj → Result ScanResponse → Scan
  scanned now s (err e) = record { result = err e; reported = []; entered = [] }
  scanned now s (ok r) = record {
    result = ok tt;
    reported =
        if r.type == env.error_type
        then set_operator_command_status env.json s now
            (with_error r.response ∷ with_payload r.id ∷ [])
          ∷ []
        else [];
    entered = entered_of s r.id;
  }

  unfoldable pub kubescape_scan : (now : ℕ) → SessionObj → Scan
  kubescape_scan now s =
      if env.config.components.components.kubescape.enabled
      then scanned now s (trigger s.command.args)
      else record { result = err "kubescape is not enabled"; reported = []; entered = [] }

  abbrev pub answered : ℕ → ResponseData → Result ScanResponse → Handled
  answered now d (err e) = settled (
      set_operator_command_status env.json d.session_obj now
        (with_error (failure "parse" d.scan_id e) ∷ with_payload d.scan_id ∷ []))
  answered now d (ok r) =
      if r.type == env.busy_type
      then again wait_time
      else settled (
          set_operator_command_status env.json d.session_obj now
            (with_success ∷ with_payload d.scan_id ∷ []))

  -- `reply` is what the request for the status gives.
  unfoldable pub handle_kubescape_response :
      (now : ℕ) → ResponseData → Result (Option HttpResponse) → Handled
  handle_kubescape_response now d (err e) = settled (
      set_operator_command_status env.json d.session_obj now
        (with_error (failure "get" d.scan_id e) ∷ with_payload d.scan_id ∷ []))
  handle_kubescape_response now d (ok reply) =
      answered now d (read_kubescape_v1_scan_response reply)

  -- The loop of `HandleCommandResponse` on one response that waits until `due`: its timer fires, the
  -- callback is called, and the response is entered again where the callback says so. The replies are
  -- those that the scanner gives, the first one first; what else waits does not delay it here.
  unfoldable pub handle_command_response :
      (due : ℕ) → ResponseData → List (Result (Option HttpResponse)) → Fate
  handle_command_response due d [] = waiting due
  handle_command_response due d (reply ∷ rest) = elim (handle_kubescape_response due d reply) [
    | again wait ↦ handle_command_response (due + wait) d rest
    | settled p ↦ reported_at due p
  ]
