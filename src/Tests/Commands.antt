-- ===== src/Tests/Commands.antt =====
-- The operator's commands and the requests, at concrete inputs.
use kontroller.Base.{◌≡◌, ◌⊎◌, refl, false, none, [], ◌∷◌, ok, Result, arith}
use kontroller.Base.Dict.{lookup}
use kontroller.Utils.Types.{ScanRequest, Arg, scan_v1, kubescape_scan_v1}
use kontroller.Watcher.Event.{Event, added, unstructured}
use kontroller.Watcher.Commands.{
  OperatorCommand, IsPending, command_watch, command_watch-sends, send_all,
}
use kontroller.Watcher.Commands.Run.{CommandEnv, AreOutcomes, handled, start, start-AreOutcomes}
use kontroller.MainHandler.ScanRequests.{get_kubescape_v1_scan_request, name_all, set_defaults}
use kontroller.Tests.Fixtures.{sample_config, sample_command, sample_json}

abbrev operator_command : OperatorCommand
operator_command = record {
  namespace = "kubescape";
  name = "scan-now";
  creation_timestamp = 100;
  completed = false;
  guid = "guid";
  command_type = "OperatorAPI";
  body = "{}";
}

abbrev command_event : Event
command_event = record {
  type = added;
  gvk = record { group = ""; version = ""; kind = "" };
  object = unstructured "kubescape" "scan-now";
}

command_watch-sends_example :
    (command_watch (λ ns name. ok operator_command) 200 command_event ([] ∷ []) ≡ [] ∷ [])
    ⊎ ((c : OperatorCommand) × IsPending (λ ns name. ok operator_command) 200 command_event c
        × (command_watch (λ ns name. ok operator_command) 200 command_event ([] ∷ [])
            ≡ send_all c ([] ∷ [])))
command_watch-sends_example =
    command_watch-sends (λ ns name. ok operator_command) 200 command_event ([] ∷ [])

sample-IsPending : IsPending (λ ns name. ok operator_command) 200 command_event operator_command
sample-IsPending = record {
  type = refl;
  object = ("kubescape", "scan-now", refl, refl);
  young = ground arith;
  pending = refl;
}

abbrev command_env : CommandEnv
command_env = record {
  config = sample_config;
  operator_api = "OperatorAPI";
  unmarshal = λ body. ok sample_command;
  json = sample_json;
  uuid = "uuid";
  empty = sample_command;
}

start-AreOutcomes_example :
    AreOutcomes command_env 200
      (handled command_env 200 (operator_command ∷ []))
      (start command_env 200 (operator_command ∷ []))
start-AreOutcomes_example = start-AreOutcomes command_env 200 (operator_command ∷ [])

abbrev given_request : ScanRequest
given_request = record {
  target_type = "";
  target_names = [];
  is_deleted = none;
  host_scanner = none;
}

abbrev whole_request : ScanRequest
whole_request = record {
  target_type = "framework";
  target_names = "all" ∷ [];
  is_deleted = none;
  host_scanner = none;
}

abbrev convert : Arg → Result ScanRequest
convert a = ok given_request

requested :
    get_kubescape_v1_scan_request "framework" convert
      ((kubescape_scan_v1, scan_v1 given_request) ∷ [])
    ≡ ok whole_request
unfolding get_kubescape_v1_scan_request lookup name_all set_defaults
requested = refl
