-- ===== src/MainHandler/Responses/Followed.antt =====
-- mainhandler/kubescapehandler.go and handlecommandresponse.go: what is reported of a configuration
-- scan, and when.
use kontroller.Base.{
  ℕ, suc, ◌+◌, ◌*◌, String, ◌≡◌, ◌≢◌, refl, sym, ap, ◌∙◌, Bool, true, Option, List, [], ◌∷◌, ◌++◌,
  arith, ◌==◌, if◌then◌else◌, Result, ok, err, Bool-cases, inl, inr, ◌⊎◌, eq_iff, length, All,
}
use mathlib.Core.List.{append-nil}
use kontroller.Utils.Types.{SessionObj, CommandNames}
use kontroller.Utils.Status.{
  StatusPatch, set_operator_command_status, with_error, with_success, with_payload,
}
use kontroller.MainHandler.Requests.{
  handle_request, route, single, Action, action_of, handle_single_request,
}
use kontroller.MainHandler.Responses.{
  HttpResponse, ScanResponse, ScannerEnv, ResponseData, again, settled, failure, wait_time,
  read_kubescape_v1_scan_response, trigger, kubescape_scan, answered, scanned,
  handle_kubescape_response, waiting, reported_at, handle_command_response,
}

module _ (env : ScannerEnv) where
  abbrev Reply : Type 0
  Reply = Result (Option HttpResponse)

  -- The scanner answers that it is still at work.
  abbrev pub IsBusy : Reply → Type 0
  IsBusy reply =
      (h : Option HttpResponse) × (r : ScanResponse) × (reply ≡ ok h)
      × (read_kubescape_v1_scan_response env h ≡ ok r)
      × (r.type ≡ env.busy_type)

  -- What is reported on any other reply: the scan's identifier, and success if the reply could be
  -- read, else the error.
  pub data IsReport (now : ℕ) (d : ResponseData) : Reply → Option StatusPatch → Type 0 where
    unreachable :
        (e : String)
        → IsReport now d (err e) (
            set_operator_command_status env.json d.session_obj now
              (with_error (failure "get" d.scan_id e) ∷ with_payload d.scan_id ∷ []))
    unreadable :
        (h : Option HttpResponse) (e : String)
        → read_kubescape_v1_scan_response env h ≡ err e
        → IsReport now d (ok h) (
            set_operator_command_status env.json d.session_obj now
              (with_error (failure "parse" d.scan_id e) ∷ with_payload d.scan_id ∷ []))
    finished :
        (h : Option HttpResponse) (r : ScanResponse)
        → read_kubescape_v1_scan_response env h ≡ ok r
        → r.type ≢ env.busy_type
        → IsReport now d (ok h) (
            set_operator_command_status env.json d.session_obj now
              (with_success ∷ with_payload d.scan_id ∷ []))

  busy-again :
      (now : ℕ) (d : ResponseData) (reply : Reply)
      → IsBusy reply
      → handle_kubescape_response env now d reply ≡ again wait_time
  unfolding handle_kubescape_response
  busy-again now d reply (h, r, e, f, g) = rw (e, f, (eq_iff r.type env.busy_type).1 g) refl

  answered-IsReport :
      (now : ℕ) (d : ResponseData) (h : Option HttpResponse) (x : Result ScanResponse)
      → read_kubescape_v1_scan_response env h ≡ x
      → IsBusy (ok h)
        ⊎ ((p : Option StatusPatch) × (answered env now d x ≡ settled p) × IsReport now d (ok h) p)
  answered-IsReport now d h (err e) f = inr (_, refl, unreadable h e f)
  answered-IsReport now d h (ok r) f = elim (Bool-cases (r.type == env.busy_type)) [
    | inl y ↦ inl (h, r, refl, f, (eq_iff r.type env.busy_type).0 y)
    | inr n ↦
        inr (_, rw n refl, finished h r f (λ e. absurd (cc ((eq_iff r.type env.busy_type).1 e, n))))
  ]

  -- The callback asks to be called again, or it reports.
  handle_kubescape_response-IsReport :
      (now : ℕ) (d : ResponseData) (reply : Reply)
      → IsBusy reply
        ⊎ ((p : Option StatusPatch) × (handle_kubescape_response env now d reply ≡ settled p)
            × IsReport now d reply p)
  unfolding handle_kubescape_response
  handle_kubescape_response-IsReport now d (err e) = inr (_, refl, unreachable e)
  handle_kubescape_response-IsReport now d (ok h) =
      answered-IsReport now d h (read_kubescape_v1_scan_response env h) refl

  waited-out :
      (busy rest : List Reply) (due : ℕ) (d : ResponseData)
      → All IsBusy busy
      → handle_command_response env due d (busy ++ rest)
        ≡ handle_command_response env (due + wait_time * length busy) d rest
  unfolding handle_command_response
  waited-out [] rest due d h =
      let e : due ≡ due + wait_time * 0 = omega arith in
      ap (λ (n : ℕ). handle_command_response env n d rest) e
  waited-out (b ∷ busy) rest due d h =
      let e : due + wait_time + wait_time * length busy ≡ due + wait_time * suc (length busy) =
        omega arith in
      rw (handle_command_response, busy-again due d b h.0)
        (waited-out busy rest (due + wait_time) d h.1
          ∙ ap (λ (n : ℕ). handle_command_response env n d rest) e)

  abbrev IsSettled : ℕ → ResponseData → Reply → List Reply → Type 0
  IsSettled at d last rest =
      (p : Option StatusPatch) × (handle_command_response env at d (last ∷ rest) ≡ reported_at at p)
      × IsReport at d last p

  settles :
      (at : ℕ) (d : ResponseData) (last : Reply) (rest : List Reply)
      → (¬ IsBusy last)
      → IsSettled at d last rest
  unfolding handle_command_response
  settles at d last rest n = elim (handle_kubescape_response-IsReport at d last) [
    | inl b ↦ absurd (n b)
    | inr (p, e, r) ↦ (p, rw (handle_command_response, e) refl, r)
  ]

  -- While the scanner says that it is busy, its answer is awaited for another 40 seconds each time,
  -- and nothing is reported. The first other reply settles the scan: a status is reported once, 40
  -- seconds for each busy reply after the scan was first asked for, and no reply after it is read.
  -- That is a success with the scan's identifier if the reply can be read, else the error.
  pub handle_command_response_lem :
      (busy : List Reply) (due : ℕ) (d : ResponseData)
      → All IsBusy busy
      → let at = due + wait_time * length busy in
        (handle_command_response env due d busy ≡ waiting at)
        × ((last : Reply) (rest : List Reply)
            → (¬ IsBusy last)
            → (p : Option StatusPatch) × (handle_command_response env due d (busy ++ last ∷ rest)
                ≡ reported_at at p)
              × IsReport at d last p)
  unfolding handle_command_response
  handle_command_response_lem busy due d h = (
    ap (λ (bs : List Reply). handle_command_response env due d bs) (sym (append-nil busy))
        ∙ waited-out busy [] due d h,
    λ last rest n.
        let (p, e, r) = settles (due + wait_time * length busy) d last rest n in
        (p, waited-out busy (last ∷ rest) due d h ∙ e, r),
  )

  started :
      (now : ℕ) (s : SessionObj) (r : ScanResponse)
      → env.config.components.components.kubescape.enabled ≡ true
      → trigger env s.command.args ≡ ok r
      → kubescape_scan env now s ≡ scanned env now s (ok r)
  unfolding kubescape_scan
  started now s r on t =
      ap
        (λ (b : Bool).
          if b
          then scanned env now s (trigger env s.command.args)
          else record { result = err "kubescape is not enabled"; reported = []; entered = [] })
        on
      ∙ ap (scanned env now s) t

  -- A scan that the scanner refuses with an error is reported twice: `kubescapeScan` reports the
  -- error and returns none, and `handleRequest` then reports a success.
  pub refusal_reported_as_success :
      (apis : CommandNames) (now later : ℕ) (images others : SessionObj → Option StatusPatch)
      (run : Action → SessionObj → Result (Unit {0})) (s : SessionObj) (r : ScanResponse)
      → env.config.components.components.kubescape.enabled ≡ true
      → trigger env s.command.args ≡ ok r
      → r.type ≡ env.error_type
      → route apis s.command ≡ single
      → action_of apis s.command.command_name ≡ Action.kubescape_scan
      → run Action.kubescape_scan s ≡ (kubescape_scan env now s).result
      → ((kubescape_scan env now s).reported
          ≡ set_operator_command_status env.json s now
              (with_error r.response ∷ with_payload r.id ∷ [])
            ∷ [])
        × (handle_request apis env.json later run images others s
            ≡ set_operator_command_status env.json s later (with_success ∷ []))
  unfolding handle_request handle_single_request
  refusal_reported_as_success apis now later images others run s r on t e one a is =
      let x = started now s r on t in
      (
        rw x (rw ((eq_iff r.type env.error_type).1 e) refl),
        rw (handle_request, one, handle_single_request, a, is, x) refl,
      )
