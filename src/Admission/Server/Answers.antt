-- ===== src/Admission/Server/Answers.antt =====
-- admission/webhook/server.go: how a review request is answered.
use kontroller.Base.{
  ℕ, String, ◌≡◌, ◌≢◌, refl, ap, true, false, Option, none, some, ◌==◌, Result, ok, err,
  Result-cases, String-cases, Bool-cases, inl, inr, eq_iff, eq_refl, eq-false,
}
use kontroller.Admission.Server.{
  GroupVersion, AdmissionRequest, HttpRequest, ReviewError, DecodeError, not_registered,
  other_error, AdmissionReview, Reply, http_error, written, ServerEnv, bad_request,
  internal_server_error, same_gvk, message_of, review_response, parse_request, differs, Read, kept,
  refused, kept_or_failed, read_decoded, read_object, attributes_of, respond, with_object,
  with_old_object, handle_parsed, handle_webhook_validate,
}

same_gvk_sound : (a b : GroupVersion) → same_gvk a b ≡ true → a ≡ b
unfolding same_gvk
same_gvk_sound a b h = elim (Bool-cases (a.group == b.group)) [
  | inr n ↦ absurd (cc (rw (same_gvk, n) at h))
  | inl g ↦ elim (Bool-cases (a.version == b.version)) [
    | inr n ↦ absurd (cc (rw (same_gvk, g, n) at h))
    | inl v ↦
        let eg = (eq_iff a.group b.group).0 g in
        let ev = (eq_iff a.version b.version).0 v in
        let en = (eq_iff a.name b.name).0 (rw (same_gvk, g, v) at h) in
        λ i. record { group = eg i; version = ev i; name = en i }
  ]
]

same_gvk_refl : (a : GroupVersion) → same_gvk a a ≡ true
unfolding same_gvk
same_gvk_refl a = rw (eq_refl a.group, eq_refl a.version) (eq_refl a.name)

module _ {O S : Type 0} (env : ServerEnv O S) where
  differs_sound :
      (g : Option GroupVersion) (k : GroupVersion) → differs env g k ≡ false → g ≡ some k
  differs_sound none k h = absurd cc
  differs_sound (some g) k h = elim (Bool-cases (same_gvk g k)) [
    | inl y ↦ ap some (same_gvk_sound g k y)
    | inr n ↦ absurd (cc (rw n at h))
  ]

  differs_other : (g : Option GroupVersion) (k : GroupVersion) → differs env g k ≡ true → g ≢ some k
  differs_other g k h e =
      absurd (cc (ap (λ (x : Option GroupVersion). differs env x k) e, same_gvk_refl k, h))

  -- What becomes of the raw object of a request for a kind.
  pub data IsRead (kind : GroupVersion) (raw : String) : Read env → Type 0 where
    missing : raw ≡ "" → IsRead kind raw (kept none)
    of_another_kind :
        raw ≢ ""
        → (env.decode raw).gvk ≢ some kind
        → (message : String) → IsRead kind raw (refused message bad_request)
    known :
        raw ≢ ""
        → (env.decode raw).gvk ≡ some kind
        → (env.decode raw).error ≡ none
        → IsRead kind raw (kept (some (env.decode raw).object))
    unknown :
        raw ≢ ""
        → (env.decode raw).gvk ≡ some kind
        → (e : String) (o : O) → (env.decode raw).error ≡ some (not_registered e)
        → env.unstructured raw ≡ ok o
        → IsRead kind raw (kept (some o))
    unparsable :
        raw ≢ ""
        → (env.decode raw).gvk ≡ some kind
        → (e message : String) → (env.decode raw).error ≡ some (not_registered e)
        → env.unstructured raw ≡ err message
        → IsRead kind raw (refused message internal_server_error)
    undecodable :
        raw ≢ ""
        → (env.decode raw).gvk ≡ some kind
        → (e : String) → (env.decode raw).error ≡ some (other_error e)
        → IsRead kind raw (refused e bad_request)

  read_unregistered-IsRead :
      (kind : GroupVersion) (raw e : String) (r : Result O)
      → raw ≢ ""
      → (env.decode raw).gvk ≡ some kind
      → (env.decode raw).error ≡ some (not_registered e)
      → env.unstructured raw ≡ r
      → IsRead kind raw (kept_or_failed env r)
  read_unregistered-IsRead kind raw e (ok o) n g x u = unknown n g e o x u
  read_unregistered-IsRead kind raw e (err m) n g x u = unparsable n g e m x u

  read_decoded-IsRead :
      (kind : GroupVersion) (raw : String) (e : Option DecodeError)
      → raw ≢ ""
      → (env.decode raw).gvk ≡ some kind
      → (env.decode raw).error ≡ e
      → IsRead kind raw (read_decoded env (env.decode raw) e raw)
  read_decoded-IsRead kind raw none n g x = known n g x
  read_decoded-IsRead kind raw (some (not_registered e)) n g x =
      read_unregistered-IsRead kind raw e (env.unstructured raw) n g x refl
  read_decoded-IsRead kind raw (some (other_error e)) n g x = undecodable n g e x

  read_object-IsRead :
      (kind : GroupVersion) (raw : String) → IsRead kind raw (read_object env kind raw)
  unfolding read_object
  read_object-IsRead kind raw = elim (String-cases raw "") [
    | inl e ↦ rw (read_object, (eq_iff raw "").1 e) (missing e)
    | inr n ↦ elim (Bool-cases (differs env (env.decode raw).gvk kind)) [
      | inl d ↦
          rw (read_object, eq-false raw "" n, d)
            (of_another_kind n (differs_other (env.decode raw).gvk kind d) _)
      | inr s ↦
          rw (read_object, eq-false raw "" n, s)
            (read_decoded-IsRead kind raw (env.decode raw).error n
              (differs_sound (env.decode raw).gvk kind s) refl)
    ]
  ]

  -- What the validator is asked, and how its state ends.
  pub data IsVerdict (r : AdmissionRequest) (s : S) : Option ReviewError → S → Type 0 where
    not_handled : env.handles r.operation ≡ false → IsVerdict r s none s
    validated :
        env.handles r.operation ≡ true
        → (object old_object : Option O) → IsRead r.kind r.old_object (kept old_object)
        → IsRead r.kind r.object (kept object)
        → (e : Option ReviewError) (after : S)
        → env.validate (attributes_of env r object old_object) s ≡ (e, after)
        → IsVerdict r s e after

  pub data IsAnswer (request : HttpRequest) (s : S) : Reply → S → Type 0 where
    malformed :
        (message : String)
        → parse_request env request ≡ err message
        → IsAnswer request s (http_error message bad_request) s
    old_object_refused :
        (r : AdmissionRequest)
        → parse_request env request ≡ ok r
        → env.handles r.operation ≡ true
        → (message : String) (status : ℕ) → IsRead r.kind r.old_object (refused message status)
        → IsAnswer request s (http_error message status) s
    object_refused :
        (r : AdmissionRequest)
        → parse_request env request ≡ ok r
        → env.handles r.operation ≡ true
        → (old_object : Option O) → IsRead r.kind r.old_object (kept old_object)
        → (message : String) (status : ℕ) → IsRead r.kind r.object (refused message status)
        → IsAnswer request s (http_error message status) s
    reviewed :
        (r : AdmissionRequest)
        → parse_request env request ≡ ok r
        → (e : Option ReviewError) (after : S) → IsVerdict r s e after
        → (review : AdmissionReview) → review.uid ≡ r.uid
        → review.allowed ≡ true
        → review.message ≡ message_of e
        → (out : String) → env.marshal review ≡ ok out
        → IsAnswer request s (written out) after
    unwritten :
        (r : AdmissionRequest)
        → parse_request env request ≡ ok r
        → (e : Option ReviewError) (after : S) → IsVerdict r s e after
        → (review : AdmissionReview) (message : String) → env.marshal review ≡ err message
        → IsAnswer request s (http_error message internal_server_error) after

  module _ (request : HttpRequest) (s : S) where
    abbrev Answered : Reply × S → Type 0
    Answered x = IsAnswer request s x.0 x.1

    respond-Answered :
        (r : AdmissionRequest)
        → parse_request env request ≡ ok r
        → (e : Option ReviewError) (after : S) → IsVerdict r s e after
        → Answered (respond env r.uid e, after)
    unfolding review_response
    respond-Answered r p e after v = elim (Result-cases (env.marshal (review_response r.uid e))) [
      | inl (out, m) ↦
          rw (respond, m) (reviewed r p e after v (review_response r.uid e) refl refl refl out m)
      | inr (message, m) ↦
          rw (respond, m) (unwritten r p e after v (review_response r.uid e) message m)
    ]

    with_object-Answered :
        (r : AdmissionRequest) (old_object : Option O) (x : Read env)
        → parse_request env request ≡ ok r
        → env.handles r.operation ≡ true
        → IsRead r.kind r.old_object (kept old_object)
        → IsRead r.kind r.object x
        → Answered (with_object env r old_object x s)
    with_object-Answered r old_object (refused message status) p h o i =
        object_refused r p h old_object o message status i
    with_object-Answered r old_object (kept object) p h o i =
        let x = env.validate (attributes_of env r object old_object) s in
        respond-Answered r p x.0 x.1 (validated h object old_object o i x.0 x.1 refl)

    with_old_object-Answered :
        (r : AdmissionRequest) (x : Read env)
        → parse_request env request ≡ ok r
        → env.handles r.operation ≡ true
        → IsRead r.kind r.old_object x
        → Answered (with_old_object env r x s)
    with_old_object-Answered r (refused message status) p h i =
        old_object_refused r p h message status i
    with_old_object-Answered r (kept old_object) p h i =
        with_object-Answered r old_object (read_object env r.kind r.object) p h i
          (read_object-IsRead r.kind r.object)

    handle_parsed-Answered :
        (x : Result AdmissionRequest)
        → parse_request env request ≡ x
        → Answered (handle_parsed env x s)
    handle_parsed-Answered (err message) p = malformed message p
    handle_parsed-Answered (ok r) p = elim (Bool-cases (env.handles r.operation)) [
      | inr n ↦ rw n (respond-Answered r p none s (not_handled n))
      | inl h ↦ rw h (
          with_old_object-Answered r (read_object env r.kind r.old_object) p h
            (read_object-IsRead r.kind r.old_object))
    ]

    -- A request that cannot be parsed is answered with status 400. If the validator handles its
    -- operation, the old object and then the object are read; the first that cannot be read is the
    -- answer, with status 400 or 500, and the validator is not asked. Else the answer is a review of the
    -- request that allows it, whatever the validator says of its two objects, and says why in its
    -- message; or status 500, if the review cannot be written.
    pub handle_webhook_validate-IsAnswer :
        let (reply, after) = handle_webhook_validate env request s in IsAnswer request s reply after
    unfolding handle_webhook_validate
    handle_webhook_validate-IsAnswer = handle_parsed-Answered (parse_request env request) refl
