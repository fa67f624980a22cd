-- ===== src/MainHandler/RegistryScans/Reported.antt =====
-- mainhandler/vulnscan.go: which status of a registry scan is reported.
use Prim.Native.String.{◌++◌ as ◌<>◌}
use package.text.Mathlib.Text.{starts_with}
use package.text.Mathlib.TextPositions.{starts_with-append}
use kontroller.Base.{
  All, Memᴰ, none, some, String, ◌≡◌, ◌≢◌, refl, ap, Bool, true, false, List, [], ◌∷◌,
  if◌then◌else◌, Result, ok, err, eq-false, with_prefix, length,
}
use kontroller.Utils.Types.{SessionObj, text}
use kontroller.Cluster.Steps.{
  Prog, Ended, returned, failed, panicked, ◌>>=◌, ◌>>◌, given, after, Holds-still, Holds-given,
}
use kontroller.MainHandler.RegistryScans.Secrets.{
  empty_log, IsRead, IsFilled, load_registry_secret-IsRead,
}
use kontroller.MainHandler.RegistryScans.Prepared.{
  AreCommands, send_errors-nil, send_errors-cons, get_registry_image_scan_commands-AreCommands,
}
use kontroller.MainHandler.RegistryScans.{
  RegistryScanCommand, ImageRegistry, ScanStatus, completed_status, failed_status,
  in_progress_status, RegistryStatus, ScanLog, RegistryScanEnv, no_images_to_scan_error,
  get_registry_image_scan_commands, send_errors, send_all_images_to_registry_scan,
  load_registry_secret, scan_registries_v2, settle, images_or, sent_end,
  scan_registries_v2_and_update_status, scan_session, load_registry_from_session_obj, prefixed,
  joined,
}

-- An error that has another beginning is not the one about images.
prefixed_other :
    (prefix e : String)
    → starts_with no_images_to_scan_error prefix ≡ false
    → (prefix <> e) ≢ no_images_to_scan_error
prefixed_other prefix e n h =
    let yes_it_does = starts_with-append prefix e in
    absurd (cc (ap (λ (t : String). starts_with t prefix) h, yes_it_does, n))

module _ (env : RegistryScanEnv) (s : SessionObj) (registry : ImageRegistry) where
  abbrev one_status : ScanStatus → String → List RegistryStatus
  one_status status message =
      record { guid = registry.guid; status = status; message = message } ∷ []

  -- The images of a registry, and the commands for them, one each, in their order.
  pub record IsPrepared (r : ImageRegistry) (cs : List RegistryScanCommand) : Type 0 where
    pub filled : IsFilled env s registry r
    pub client : env.get_registry_client r ≡ ok tt
    pub images : List (String × String)
    pub found : env.get_images_to_scan r ≡ ok images
    pub some_image : images ≢ []
    pub commands : get_registry_image_scan_commands env s r images ≡ ok cs
    pub are : AreCommands env s r (length images) 0 images cs

  -- What goes wrong, with the error and what is posted by then.
  pub data IsFault : (e : String) → (posted : List RegistryScanCommand) → Type 0 where
    not_filled :
        (m : String)
        → IsRead env s registry (failed m)
        → IsFault ("failed to load secret with err " <> m) []
    no_client :
        (r : ImageRegistry)
        → IsFilled env s registry r
        → (m : String) → env.get_registry_client r ≡ err m
        → IsFault ("failed to get registry client with err " <> m) []
    no_listing :
        (r : ImageRegistry)
        → IsFilled env s registry r
        → env.get_registry_client r ≡ ok tt
        → (m : String) → env.get_images_to_scan r ≡ err m
        → IsFault ("failed to get registry images to scan with err " <> m) []
    no_commands :
        (r : ImageRegistry)
        → IsFilled env s registry r
        → env.get_registry_client r ≡ ok tt
        → (images : List (String × String)) → env.get_images_to_scan r ≡ ok images
        → images ≢ []
        → (m : String) → get_registry_image_scan_commands env s r images ≡ err m
        → IsFault ("failed to get registry images scan commands with err " <> m) []
    not_sent :
        (r : ImageRegistry) (cs : List RegistryScanCommand)
        → IsPrepared r cs
        → (x : String) (xs : List String) → send_errors env s cs ≡ x ∷ xs
        → (c : RegistryScanCommand) × Memᴰ c cs × (env.send c ≡ some x)
        → IsFault
            ("failed to send scan commands with err "
              <> joined env s "sendAllImagesToRegistryScan errors: " (x ∷ xs))
            cs

  -- How the scan of a loaded registry ends, with what is posted and reported by then.
  pub data IsReport : Ended (Unit {0}) → ScanLog → Type 0 where
    begun :
        (r : ImageRegistry) (cs : List RegistryScanCommand)
        → IsPrepared r cs
        → All (λ c. env.send c ≡ none) cs
        → IsReport
            (returned tt)
            (record { posted = cs; statuses = one_status in_progress_status "" })
    nothing_to_scan :
        (r : ImageRegistry)
        → IsFilled env s registry r
        → env.get_registry_client r ≡ ok tt
        → env.get_images_to_scan r ≡ ok []
        → IsReport (returned tt) (record { posted = []; statuses = one_status completed_status "" })
    went_wrong :
        (e : String) (cs : List RegistryScanCommand)
        → IsFault e cs
        → IsReport (failed e) (record { posted = cs; statuses = one_status failed_status e })
    crashed : IsRead env s registry panicked → IsReport panicked empty_log

  -- What is to be shown of an end of `scanRegistriesV2`.
  abbrev Settled : Ended (Unit {0}) × ScanLog → Type 0
  Settled x = IsReport (settle env s registry x).0 (settle env s registry x).1

  wrong-Settled :
      (e : String) (cs : List RegistryScanCommand)
      → e ≢ no_images_to_scan_error
      → IsFault e cs
      → Settled (failed e, record { posted = cs; statuses = [] })
  wrong-Settled e cs n f = rw (eq-false e no_images_to_scan_error n) (went_wrong e cs f)

  sent-Settled :
      (r : ImageRegistry) (cs : List RegistryScanCommand) (errors : List String)
      → IsPrepared r cs
      → send_errors env s cs ≡ errors
      → Settled (
          prefixed env s "failed to send scan commands with err "
            (sent_end env s errors, record { posted = cs; statuses = [] }))
  sent-Settled r cs [] ready e = begun r cs ready (send_errors-nil env s cs e)
  sent-Settled r cs (x ∷ xs) ready e =
      wrong-Settled _ cs
        (prefixed_other "failed to send scan commands with err "
          (joined env s "sendAllImagesToRegistryScan errors: " (x ∷ xs)) refl)
        (not_sent r cs ready x xs e (send_errors-cons env s cs x xs e))

  given-Settled {ℓ} :
      {A : Type ℓ} (prefix : String) (x : Result A) (next : A → Prog ScanLog (Unit {0}))
      → starts_with no_images_to_scan_error prefix ≡ false
      → ((m : String) → x ≡ err m → IsFault (prefix <> m) [])
      → ((a : A) → x ≡ ok a → Settled (next a empty_log))
      → Settled ((given (with_prefix prefix x) >>= next) empty_log)
  unfolding ◌>>=◌ given
  given-Settled prefix (ok a) next n fault rest = rest a refl
  given-Settled prefix (err e) next n fault rest =
      wrong-Settled _ [] (prefixed_other prefix e n) (fault e refl)

  -- What follows once the images are known, once the client is there, and once the secret is.
  abbrev from_images : ImageRegistry → List (String × String) → Prog ScanLog (Unit {0})
  from_images r images =
      given (
        with_prefix "failed to get registry images scan commands with err "
          (get_registry_image_scan_commands env s r images))
      >>= λ cs log.
          prefixed env s "failed to send scan commands with err "
            (send_all_images_to_registry_scan env s cs log)

  abbrev from_listing : ImageRegistry → List (String × String) → Prog ScanLog (Unit {0})
  from_listing r images = given (images_or env s images) >> from_images r images

  abbrev from_secret : ImageRegistry → Prog ScanLog (Unit {0})
  from_secret r =
      given (with_prefix "failed to get registry client with err " (env.get_registry_client r))
      >> (given (
            with_prefix "failed to get registry images to scan with err "
              (env.get_images_to_scan r))
          >>= from_listing r)

  from_images-Settled :
      (r : ImageRegistry) (images : List (String × String))
      → IsFilled env s registry r
      → env.get_registry_client r ≡ ok tt
      → env.get_images_to_scan r ≡ ok images
      → images ≢ []
      → Settled (from_images r images empty_log)
  unfolding send_all_images_to_registry_scan
  from_images-Settled r images f k g n =
      given-Settled "failed to get registry images scan commands with err " _ _ refl
        (λ m c. no_commands r f k images g n m c)
        (λ cs c.
          sent-Settled r cs (send_errors env s cs)
            (record {
              filled = f;
              client = k;
              images = images;
              found = g;
              some_image = n;
              commands = c;
              are = get_registry_image_scan_commands-AreCommands env s r images cs c;
            })
            refl)

  from_listing-Settled :
      (r : ImageRegistry) (images : List (String × String))
      → IsFilled env s registry r
      → env.get_registry_client r ≡ ok tt
      → env.get_images_to_scan r ≡ ok images
      → Settled (from_listing r images empty_log)
  unfolding ◌>>=◌ given
  from_listing-Settled r [] f k g = nothing_to_scan r f k g
  from_listing-Settled r (image ∷ rest) f k g = from_images-Settled r (image ∷ rest) f k g (λ e. cc)

  from_secret-Settled :
      (r : ImageRegistry) → IsFilled env s registry r → Settled (from_secret r empty_log)
  from_secret-Settled r f =
      given-Settled "failed to get registry client with err " _ _ refl (λ m c. no_client r f m c)
        (λ _ c.
          given-Settled "failed to get registry images to scan with err " _ _ refl
            (λ m g. no_listing r f c m g) (λ images g. from_listing-Settled r images f c g))

  load_registry_secret-Settled :
      (x : Ended ImageRegistry × ScanLog)
      → IsRead env s registry x.0
      → x.1 ≡ empty_log
      → Settled (after (prefixed env s "failed to load secret with err " x) from_secret)
  load_registry_secret-Settled (returned r, log) f e = rw e (from_secret-Settled r f)
  load_registry_secret-Settled (failed m, log) f e = rw e (
      wrong-Settled _ [] (prefixed_other "failed to load secret with err " m refl) (not_filled m f))
  load_registry_secret-Settled (panicked, log) f e = rw e (crashed f)

  abbrev Any : ScanLog → Type 0
  Any log = Unit

  abbrev Done {ℓ} : {A : Type ℓ} → A → ScanLog → Type 0
  Done a log = Unit

  load_registry_secret_log :
      (r : ImageRegistry) (log : ScanLog) → (load_registry_secret env s r log).1 ≡ log
  unfolding load_registry_secret given
  load_registry_secret_log r log =
      (Holds-still (λ v. v ≡ log) Any Done _ _
        (λ name e.
          Holds-given (λ v. v ≡ log) Any Done _ _
            (λ fields f. Holds-given (λ v. v ≡ log) Any Done _ _ (λ auth g u i p. (i, λ a h. tt))))
        log refl tt).0

  scan_registries_v2-Settled : Settled (scan_registries_v2 env s registry empty_log)
  unfolding scan_registries_v2 ◌>>=◌
  scan_registries_v2-Settled =
      load_registry_secret-Settled (load_registry_secret env s registry empty_log)
        (load_registry_secret-IsRead env s registry) (load_registry_secret_log registry empty_log)

  scan_session_lem :
      load_registry_from_session_obj env s empty_log ≡ (returned registry, empty_log)
      → scan_session env s empty_log
        ≡ settle env s registry (scan_registries_v2 env s registry empty_log)
  unfolding scan_session ◌>>=◌
  scan_session_lem loaded = rw loaded refl

  -- Where the vulnerability scanner is enabled and the registry of the command can be read, the scan
  -- of a registry ends in one of four ways. The secret and the client are there, the list of images is
  -- not empty, and every image has its command, all posted without an error: the scan is reported as
  -- in progress. The list of images is empty: the scan is reported as completed, and nothing is
  -- posted. The secret, the client, the images or their commands cannot be had, and nothing is posted,
  -- or a post fails, and all commands are posted nevertheless: the scan is reported as failed with the
  -- error, which is returned and says what failed. Or reading the secret panics, and nothing is
  -- reported.
  pub scan_registries_v2_and_update_status-IsReport :
      env.config.components.components.kubevuln.enabled ≡ true
      → load_registry_from_session_obj env s empty_log ≡ (returned registry, empty_log)
      → let (end, log) = scan_registries_v2_and_update_status env s empty_log in IsReport end log
  unfolding scan_registries_v2_and_update_status
  scan_registries_v2_and_update_status-IsReport on loaded =
      let same : scan_registries_v2_and_update_status env s ≡ scan_session env s =
        ap
          (λ (b : Bool).
            if b
            then scan_session env s
            else (λ (log : ScanLog). (Ended.failed "kubevuln is not enabled", log)))
          on in
      rw (same, scan_session_lem loaded) scan_registries_v2-Settled
