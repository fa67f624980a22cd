-- ===== src/Admission/Exporter.antt =====
-- admission/exporter/http_exporter.go: the configuration of the exporter, and the limit on the
-- alerts that it sends. Times are nanoseconds since the epoch; the numbers of the configuration are
-- not negative.
use kontroller.Base.{
  ℕ, ◌+◌, ◌≤◌, suc, zero, String, ◌≡◌, ◌≢◌, ◌↔◌, refl, Bool, true, false, not, ◌&&◌, Option, none,
  some, List, [], ◌∷◌, ◌==◌, arith, if◌then◌else◌, Result, ok, err, inl, inr, ◌⊎◌, eq_iff, ltb, All,
  Result-cases,
}
use kontroller.Base.Dict.{Dict}

pub record HttpExporterConfig : Type 0 where
  pub url : String
  -- a nil map or a map
  pub headers : Option (Dict String)
  pub timeout_seconds : ℕ
  pub method : String
  pub max_alerts_per_minute : ℕ

abbrev is_zero : ℕ → Bool
is_zero zero = true
is_zero (suc n) = false

abbrev or_default : ℕ → ℕ → ℕ
or_default d n = if is_zero n then d else n

abbrev or_empty : Option (Dict String) → Option (Dict String)
or_empty none = some []
or_empty (some h) = some h

with_method : String → HttpExporterConfig → Result HttpExporterConfig
with_method method c =
    if c.url == ""
    then err "URL is required"
    else ok (record {
      url = c.url;
      headers = or_empty c.headers;
      timeout_seconds = or_default 5 c.timeout_seconds;
      method = method;
      max_alerts_per_minute = or_default 100 c.max_alerts_per_minute;
    })

-- The configuration with the defaults filled in.
unfoldable pub validate : HttpExporterConfig → Result HttpExporterConfig
unfolding with_method
validate c =
    if c.method == ""
    then with_method "POST" c
    else if not (c.method == "POST") && not (c.method == "PUT")
    then err "method must be POST or PUT"
    else with_method c.method c

pub record HttpExporter : Type 0 where
  pub config : HttpExporterConfig
  pub cluster_name : String
  pub alert_count : ℕ
  -- `none` is the zero time
  pub alert_count_start : Option ℕ
  pub alert_limit_notified : Bool

unfoldable pub init_http_exporter : HttpExporterConfig → String → Result HttpExporter
init_http_exporter config cluster = elim (validate config) [
  | err e ↦ err e
  | ok c ↦ ok (record {
    config = c;
    cluster_name = cluster;
    alert_count = 0;
    alert_count_start = none;
    alert_limit_notified = false;
  })
]

abbrev pub minute : ℕ
minute = 60000000000

abbrev start_count : ℕ → HttpExporter → HttpExporter
start_count now e = elim e.alert_count_start [
  | none ↦ record e { alert_count_start = some now }
  | some _ ↦ e
]

abbrev restart_count : ℕ → HttpExporter → HttpExporter
restart_count now e = elim e.alert_count_start [
  | none ↦ e
  | some start ↦
      if ltb (start + minute) now
      then record e { alert_count_start = some now; alert_count = 0; alert_limit_notified = false }
      else e
]

unfoldable pub count_alert : ℕ → HttpExporter → HttpExporter
count_alert now e =
    let r = restart_count now (start_count now e) in record r { alert_count = suc r.alert_count }

-- Whether the limit is reached, and the exporter after the count.
abbrev pub check_alert_limit : ℕ → HttpExporter → Bool × HttpExporter
check_alert_limit now e =
    let counted = count_alert now e in
    (ltb counted.config.max_alerts_per_minute counted.alert_count, counted)

abbrev is_equal : ℕ → ℕ → Bool
is_equal m n = not (ltb m n) && not (ltb n m)

-- What is given to `sendInAlertList`: the notice, or the alert of a rule's failure.
pub data Sent {ℓ} (F : Type ℓ) : Type ℓ where
  limit_reached : Sent F
  alert : F → Sent F

-- `F` is the type of what the rules report.
module _ {ℓ} {F : Type ℓ} where
  unfoldable pub send_admission_alert : ℕ → F → HttpExporter → HttpExporter × Sent F
  send_admission_alert now failure e =
      let (reached, counted) = check_alert_limit now e in
      if reached && not counted.alert_limit_notified
      then (record counted { alert_limit_notified = true }, limit_reached)
      else (counted, alert failure)

  -- The failures in the order in which they come, each at its time.
  unfoldable pub send_admission_alerts : List (ℕ × F) → HttpExporter → HttpExporter × List (Sent F)
  send_admission_alerts [] e = (e, [])
  send_admission_alerts ((now, failure) ∷ rest) e =
      let (counted, sent) = send_admission_alert now failure e in
      let (last, others) = send_admission_alerts rest counted in (last, sent ∷ others)

  -- `n` alerts were counted before: the alert after the `limit`-th is replaced.
  abbrev pub limited_once : ℕ → ℕ → List (ℕ × F) → List (Sent F)
  limited_once limit n [] = []
  limited_once limit n ((_, failure) ∷ rest) =
      (if is_equal n limit then limit_reached else alert failure) ∷ limited_once limit (suc n) rest

  send-step :
      (start now : ℕ) (failure : F) (e : HttpExporter)
      → e.alert_count_start ≡ some start
      → e.alert_limit_notified ≡ ltb e.config.max_alerts_per_minute e.alert_count
      → now ≤ start + minute
      → let (t, sent) = send_admission_alert now failure e in
        (t.alert_count_start ≡ some start)
        × (t.alert_count ≡ suc e.alert_count)
        × (t.config ≡ e.config)
        × (t.alert_limit_notified ≡ ltb t.config.max_alerts_per_minute t.alert_count)
        × (sent ≡ (
            if is_equal e.alert_count e.config.max_alerts_per_minute
            then limit_reached
            else alert failure))
  unfolding send_admission_alert count_alert
  send-step start now failure e s w h = (
    ground (arith, s),
    ground (arith, s),
    ground (arith, s),
    ground (arith, s, w),
    ground (arith, s, w),
  )

  -- Within one minute of the count's start, of an exporter that gave the notice exactly if the
  -- count is over the limit, the alerts up to the limit are sent, the next one is replaced by the
  -- notice, and those after it are sent again: the limit drops one alert.
  pub send_admission_alerts-one_minute :
      (start : ℕ) (alerts : List (ℕ × F)) (e : HttpExporter)
      → e.alert_count_start ≡ some start
      → e.alert_limit_notified ≡ ltb e.config.max_alerts_per_minute e.alert_count
      → All (λ a. a.0 ≤ start + minute) alerts
      → (send_admission_alerts alerts e).1
        ≡ limited_once e.config.max_alerts_per_minute e.alert_count alerts
  unfolding send_admission_alerts
  send_admission_alerts-one_minute start [] e s w h = refl
  send_admission_alerts-one_minute start ((now, failure) ∷ rest) e s w h =
      let (s1, c1, g1, w1, sent1) = send-step start now failure e s w h.0 in
      let ih =
        send_admission_alerts-one_minute start rest (send_admission_alert now failure e).0 s1 w1
          h.1 in
      rw (sent1, ih, g1, c1) refl

-- A configuration is accepted exactly if it has a URL and its method is POST, PUT or missing.
pub validate_iff :
    (c : HttpExporterConfig)
    → ((d : HttpExporterConfig) × (validate c ≡ ok d))
      ↔ ((c.url ≢ "") × ((c.method ≡ "") ⊎ ((c.method ≡ "POST") ⊎ (c.method ≡ "PUT"))))
unfolding validate
validate_iff c = (
  λ (d, h). (
    λ e. ground (arith, eq_iff c.url ""),
    ground (arith, eq_iff c.method "", eq_iff c.method "POST", eq_iff c.method "PUT"),
  ),
  λ (n, m). elim (Result-cases (validate c)) [
    | inl (d, e) ↦ (d, e)
    | inr (t, e) ↦ absurd (
        ground (
          arith,
          eq_iff c.url "",
          eq_iff c.method "",
          eq_iff c.method "POST",
          eq_iff c.method "PUT",
        ))
  ],
)

-- An accepted configuration keeps its URL, which is not empty, has the method POST or PUT and a
-- timeout and a limit of at least 1; and validating it again changes nothing.
pub validate_settles :
    (c d : HttpExporterConfig)
    → validate c ≡ ok d
    → (d.url ≡ c.url)
      × (d.url ≢ "")
      × ((d.method ≡ "POST") ⊎ (d.method ≡ "PUT"))
      × (1 ≤ d.timeout_seconds)
      × (1 ≤ d.max_alerts_per_minute)
      × (validate d ≡ ok d)
unfolding validate
validate_settles c d h =
    let u = eq_iff c.url "" in
    let post = eq_iff c.method "POST" in
    let put = eq_iff c.method "PUT" in
    (
      ground arith,
      λ e. ground (arith, u),
      ground (arith, post, put),
      ground arith,
      ground arith,
      ground (
        arith,
        u,
        post,
        put,
        eq_iff d.url "",
        eq_iff d.method "",
        eq_iff d.method "POST",
        eq_iff d.method "PUT",
      ),
    )
