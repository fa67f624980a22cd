-- ===== src/Tests/Servers.antt =====
-- A review request, a watched file and a server that fails.
use kontroller.Base.{
  ℕ, suc, String, ◌≡◌, refl, Bool, true, false, none, some, List, [], ◌∷◌, ok, is_empty,
}
use kontroller.Base.Dict.{Dict}
use kontroller.Admission.Server.{
  GroupVersion, AdmissionRequest, HttpRequest, plain, ServerEnv, written, handle_webhook_validate,
  parse_request, read_object, same_gvk, review_response, FileInfo, modified, Tick, notify_changes,
}
use kontroller.Admission.Server.Answers.{IsAnswer, handle_webhook_validate-IsAnswer}
use kontroller.Admission.Server.Rotation.{notify_changes_never}
use kontroller.Admission.Server.Restarts.{
  listening_ended, error_received, wait_over, context_done, run_events, launched, run_event, wait,
  select_case, receive, listen_ended, all_finished,
}
use kontroller.Admission.Server.Restarts.Returns.{HasFailed, run_events-HasFailed}

abbrev exec_options : GroupVersion
exec_options = record { group = ""; version = "v1"; name = "PodExecOptions" }

abbrev review_request : AdmissionRequest
review_request = record {
  uid = "uid";
  kind = exec_options;
  resource = record { group = ""; version = "v1"; name = "pods" };
  subresource = "exec";
  namespace = "shop";
  name = "web-1";
  operation = "CONNECT";
  user_info = record { username = "dev"; uid = "1"; groups = []; extra = [] };
  object = "{}";
  old_object = "";
}

-- Its validator counts what it is asked, and forbids everything.
abbrev server_env : ServerEnv String ℕ
server_env = record {
  parse_review = λ body. ok (some review_request);
  decode = λ raw. (record { object = raw; gvk = some exec_options; error = none });
  unstructured = λ raw. ok raw;
  show_gvk = λ g. "";
  handles = λ operation. true;
  validate = λ a n. (some (plain "forbidden"), suc n);
  marshal = λ review. ok review.message;
}

abbrev http_request : HttpRequest
http_request = record { content_type = "application/json"; body = "{}" }

forbidden_and_allowed : handle_webhook_validate server_env http_request 0 ≡ (written "forbidden", 1)
unfolding handle_webhook_validate parse_request read_object same_gvk review_response
forbidden_and_allowed = refl

handle_webhook_validate-IsAnswer_example :
    let (reply, after) = handle_webhook_validate server_env http_request 0 in
    IsAnswer server_env http_request 0 reply after
handle_webhook_validate-IsAnswer_example =
    handle_webhook_validate-IsAnswer server_env http_request 0

-- Equal where both maps are empty, which is all that matters here.
abbrev both_empty : Dict FileInfo → Dict FileInfo → Bool
both_empty a b = elim (is_empty a) [ true ↦ is_empty b | false ↦ false ]

abbrev rotated : List Tick
rotated = record { stat = λ path. modified 2; has_read = true } ∷ []

notify_changes_never_example :
    notify_changes both_empty ("tls.crt" ∷ []) (λ path. modified 1) rotated ≡ []
notify_changes_never_example =
    notify_changes_never both_empty ("tls.crt" ∷ []) refl (λ path. modified 1) rotated

failed_run :
    (run_events (listening_ended 0 ∷ error_received ∷ wait_over ∷ []) launched).returned ≡ true
unfolding run_events run_event wait select_case receive listen_ended all_finished
failed_run = refl

run_events-HasFailed_example :
    HasFailed (run_events (listening_ended 0 ∷ error_received ∷ wait_over ∷ []) launched)
run_events-HasFailed_example =
    run_events-HasFailed (listening_ended 0 ∷ error_received ∷ wait_over ∷ []) failed_run

-- After the end of its context the run waits for a goroutine that nobody listens to.
waits_for_ever :
    (run_events (context_done ∷ listening_ended 0 ∷ wait_over ∷ []) launched).returned ≡ false
unfolding run_events run_event wait select_case receive listen_ended all_finished
waits_for_ever = refl
