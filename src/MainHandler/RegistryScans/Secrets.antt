-- ===== src/MainHandler/RegistryScans/Secrets.antt =====
-- mainhandler/vulnscan.go: how reading the secret of a registry ends.
use Prim.Native.String.{◌++◌ as ◌<>◌}
use kontroller.Base.{
  String, ◌≡◌, ◌≢◌, refl, ap, Option, none, some, [], ok, err, Result-cases, inl, inr,
}
use kontroller.Base.Dict.{Dict, lookup}
use kontroller.Utils.Types.{SessionObj, Arg, text, container_data, pod, scan_v1}
use kontroller.Cluster.Steps.{Ended, returned, failed, panicked, ◌>>=◌, given}
use kontroller.MainHandler.RegistryScans.{
  ImageRegistry, RegistryScanEnv, ScanLog, load_registry_secret, secret_name_of,
}

abbrev pub empty_log : ScanLog
empty_log = record { posted = []; statuses = [] }

module _ (env : RegistryScanEnv) (s : SessionObj) (registry : ImageRegistry) where
  -- The argument of the command that names the secret.
  abbrev secret_arg : Option Arg
  secret_arg = lookup env.registry_secret_name_arg s.command.args

  abbrev auth_of : Dict String → String
  auth_of fields = elim (lookup env.registry_auth_field_in_secret fields) [ none ↦ "" | some a ↦ a ]

  -- How reading the secret of the registry ends, and why.
  pub data IsRead : Ended ImageRegistry → Type 0 where
    unnamed : ((name : String) → secret_arg ≢ some (text name)) → IsRead panicked
    no_secret :
        (name : String)
        → secret_arg ≡ some (text name)
        → (m : String) → env.get_secret name ≡ err m
        → IsRead (failed ("loadRegistrySecret failed to get secret with err " <> m))
    bad_secret :
        (name : String)
        → secret_arg ≡ some (text name)
        → (fields : Dict String) → env.get_secret name ≡ ok fields
        → (m : String) → env.unmarshal_secret (auth_of fields) ≡ err m
        → IsRead (failed ("loadRegistrySecret failed to unmarshal registry secret with err " <> m))
    unfit :
        (name : String)
        → secret_arg ≡ some (text name)
        → (fields : Dict String) → env.get_secret name ≡ ok fields
        → (auth : String) → env.unmarshal_secret (auth_of fields) ≡ ok auth
        → (m : String) → env.fill_secret auth registry ≡ err m
        → IsRead (failed ("loadRegistrySecret failed to fill registry secret with err " <> m))
    filled :
        (name : String)
        → secret_arg ≡ some (text name)
        → (fields : Dict String) → env.get_secret name ≡ ok fields
        → (auth : String) → env.unmarshal_secret (auth_of fields) ≡ ok auth
        → (r : ImageRegistry) → env.fill_secret auth registry ≡ ok r
        → IsRead (returned r)

  named-IsRead :
      (name : String)
      → secret_arg ≡ some (text name)
      → IsRead (load_registry_secret env s registry empty_log).0
  unfolding load_registry_secret ◌>>=◌ given
  named-IsRead name a = elim (Result-cases (env.get_secret name)) [
    | inr (m, e) ↦ rw (load_registry_secret, a, e) (no_secret name a m e)
    | inl (fields, e) ↦ elim (Result-cases (env.unmarshal_secret (auth_of fields))) [
      | inr (m, f) ↦ rw (load_registry_secret, a, e, f) (bad_secret name a fields e m f)
      | inl (auth, f) ↦ elim (Result-cases (env.fill_secret auth registry)) [
        | inr (m, g) ↦ rw (load_registry_secret, a, e, f, g) (unfit name a fields e auth f m g)
        | inl (r, g) ↦ rw (load_registry_secret, a, e, f, g) (filled name a fields e auth f r g)
      ]
    ]
  ]

  unnamed-IsRead :
      (o : Option Arg)
      → secret_arg ≡ o
      → secret_name_of o ≡ panicked
      → IsRead (load_registry_secret env s registry empty_log).0
  unfolding load_registry_secret ◌>>=◌ given
  unnamed-IsRead o a p =
      rw (load_registry_secret, a, p) (unnamed (λ name e. absurd (cc (ap secret_name_of e, a, p))))

  arg-IsRead :
      (o : Option Arg) → secret_arg ≡ o → IsRead (load_registry_secret env s registry empty_log).0
  arg-IsRead (some (text name)) a = named-IsRead name a
  arg-IsRead (some (container_data d)) a = unnamed-IsRead (some (container_data d)) a refl
  arg-IsRead (some (pod p)) a = unnamed-IsRead (some (pod p)) a refl
  arg-IsRead (some (scan_v1 r)) a = unnamed-IsRead (some (scan_v1 r)) a refl
  arg-IsRead none a = unnamed-IsRead none a refl

  -- The registry with the credentials of its secret.
  abbrev pub IsFilled : ImageRegistry → Type 0
  IsFilled r = IsRead (returned r)

  pub load_registry_secret-IsRead : IsRead (load_registry_secret env s registry empty_log).0
  load_registry_secret-IsRead = arg-IsRead secret_arg refl
