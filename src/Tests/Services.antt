-- ===== src/Tests/Services.antt =====
-- A cycle of service discovery, at a concrete input.
use kontroller.Base.{◌≡◌, ◌↔◌, refl, false, none, some, [], ◌∷◌, ok, Memᴰ}
use kontroller.ServiceHandler.{
  Service, ServiceScanResult, DiscoveryEnv, key_of_service, discovery_service,
}
use kontroller.ServiceHandler.Cycle.{Answers, Holds, discovery_service-Holds}

abbrev discovery_env : DiscoveryEnv
discovery_env = record {
  scan_targets = λ dns port. ok (record {
    session_layer = "tcp";
    presentation_layer = "http";
    application_layer = "elasticsearch";
    is_authenticated = false;
  });
  apply_answer = λ ns name. ok tt;
  delete_answer = λ ns name. ok tt;
  list_error = none;
}

abbrev search_service : Service
search_service = record {
  name = "search";
  namespace = "shop";
  cluster_ip = "10.0.0.1";
  ports = record { port = 9200; protocol = "TCP" } ∷ record { port = 53; protocol = "UDP" } ∷ [];
}

abbrev gone : ServiceScanResult
gone = record { name = "gone"; namespace = "shop"; cluster_ip = "10.0.0.2"; ports = [] }

always : Answers discovery_env
always = record { applies = λ ns name. refl; deletes = λ ns name. refl; lists = refl }

discovery_service-Holds_example :
    Holds discovery_env "shop/search"
      (discovery_service discovery_env (search_service ∷ [], some "timeout") (gone ∷ []))
    ↔ ((s : Service) × Memᴰ s (search_service ∷ []) × (key_of_service s ≡ "shop/search"))
discovery_service-Holds_example =
    discovery_service-Holds discovery_env always (search_service ∷ []) (some "timeout") (gone ∷ [])
      "shop/search"
