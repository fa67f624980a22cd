-- ===== src/Tests/Requests.antt =====
-- A request that triggers one action, and names no command for another.
use kontroller.Base.{[], ◌∷◌, ok}
use kontroller.Utils.Types.{Command, new_command}
use kontroller.RestApi.{RestEnv, action_request}
use kontroller.RestApi.Triggered.{IsAnswered, action_request-IsAnswered}
use kontroller.Tests.Fixtures.{sample_config, sample_command, sample_json}

abbrev unnamed : Command
unnamed = new_command "" "" []

abbrev rest_env : RestEnv
rest_env = record {
  config = sample_config;
  unmarshal = λ received. ok (unnamed ∷ sample_command ∷ []);
  get_id = λ c. "id";
  json = sample_json;
  uuid = λ i. "uuid";
}

action_request-IsAnswered_example :
    let (response, t) = action_request rest_env 100 "POST" (ok "{}") in
    IsAnswered rest_env 100 "POST" (ok "{}") response t
action_request-IsAnswered_example = action_request-IsAnswered rest_env 100 "POST" (ok "{}")
