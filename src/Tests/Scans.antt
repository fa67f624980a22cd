-- ===== src/Tests/Scans.antt =====
-- The requests to the vulnerability scanner and the names of jobs, at concrete inputs.
use kontroller.Base.{
  ℕ, suc, zero, ◌≤◌, ◌<◌, ◌≡◌, ◌↔◌, ◌⊎◌, refl, true, false, none, some, [], ◌∷◌, All, ok, arith,
  length,
}
use kontroller.MainHandler.Names.{
  fix_k8s_name_limit, fix_k8s_name_limit_lem, is_label_char, truncate, trim_dashes, replace_runs,
  to_lower,
}
use kontroller.MainHandler.Scanner.{
  Posted, failed, response, last_post, is_refused, done, send_workload_with_credentials,
  send_workload_with_credentials_lem,
}
use kontroller.MainHandler.ScanCommands.{ScanEnv}
use kontroller.Tests.Fixtures.{sample_config}

-- The scanner refuses once and then answers.
abbrev post : ℕ → Posted
post zero = failed "connection refused"
post (suc n) = response 200

send_workload_with_credentials_lem_example :
    (last_post post ≤ 5)
    × ((i : ℕ) → i < last_post post → is_refused (post i) ≡ true)
    × ((is_refused (post (last_post post)) ≡ false) ⊎ (last_post post ≡ 5))
    × ((send_workload_with_credentials post "nginx:1" (ok "{}") ≡ done)
        ↔ ((s : ℕ) × (post (last_post post) ≡ response s) × (200 ≤ s) × (s ≤ 203)))
send_workload_with_credentials_lem_example = send_workload_with_credentials_lem post "nginx:1" "{}"

abbrev scan_env : ScanEnv
scan_env = record {
  names = record {
    attribute_skip_tls_verify = "skipTLSVerify";
    attribute_use_http = "useHTTP";
    scan_application_profile = "scanApplicationProfile";
    scan_images = "scan";
  };
  config = sample_config;
  image_scan_config =
      λ p tag. ok (record { auth_configs = []; skip_tls_verify = some true; insecure = none });
  uuid = "uuid";
}

-- "Web_"
fix_k8s_name_limit_lem_example :
    (1 ≤ length (fix_k8s_name_limit (87 ∷ 101 ∷ 98 ∷ 95 ∷ []) 52))
    × (length (fix_k8s_name_limit (87 ∷ 101 ∷ 98 ∷ 95 ∷ []) 52) ≤ 52)
    × All (λ c. is_label_char c ≡ true) (fix_k8s_name_limit (87 ∷ 101 ∷ 98 ∷ 95 ∷ []) 52)
fix_k8s_name_limit_lem_example = fix_k8s_name_limit_lem (87 ∷ 101 ∷ 98 ∷ 95 ∷ []) 52 (ground arith)

-- "Web_" becomes "web-", which ends in a dash.
ends_in_dash : fix_k8s_name_limit (87 ∷ 101 ∷ 98 ∷ 95 ∷ []) 52 ≡ 119 ∷ 101 ∷ 98 ∷ 45 ∷ []
unfolding fix_k8s_name_limit truncate trim_dashes replace_runs to_lower
ends_in_dash = refl
