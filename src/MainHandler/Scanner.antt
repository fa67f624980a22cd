-- ===== src/MainHandler/Scanner.antt =====
-- mainhandler/vulnscan.go: posting a scan command to the vulnerability scanner. The HTTP client is the environment: `post i` is what the i-th post
-- of a call gives.

use kontroller.Base.{
  ℕ, ◌+◌, ◌≤◌, ◌<◌, suc, zero, String, ◌≡◌, ◌↔◌, refl, Bool, true, false, ◌||◌, arith, ltb,
  if◌then◌else◌, Result, ok, err, Bool-cases, inl, inr, ◌⊎◌,
}
use kontroller.Admission.Binding.{strings_contains}

-- An error of the client, no response, or a response with its status code.
pub data Posted : Type 0 where
  failed : String → Posted
  no_response : Posted
  response : ℕ → Posted

-- The condition under which the loop posts again.
unfoldable pub is_refused : Posted → Bool
is_refused (failed e) = strings_contains e "connection refused"
is_refused no_response = false
is_refused (response _) = false

abbrev pub max_refused : ℕ
max_refused = 5

-- No error, or which error it is with what its text shows.
pub data SendResult : Type 0 where
  done : SendResult
  marshal_failed : String → SendResult
  posting_failed : String → String → SendResult
  empty_response : String → SendResult
  bad_status_code : String → ℕ → SendResult

module _ (post : ℕ → Posted) where
  -- The loop: `left` more refusals are retried, and `n` is the post to be made.
  unfoldable pub post_until : ℕ → ℕ → ℕ
  post_until zero n = n
  post_until (suc left) n =
      let later = post_until left (suc n) in if is_refused (post n) then later else n

  -- The post whose outcome counts; the posts are numbered from 0.
  abbrev pub last_post : ℕ
  last_post = post_until max_refused 0

  outcome : String → Posted → SendResult
  outcome tag (failed e) = posting_failed tag e
  outcome tag no_response = empty_response tag
  outcome tag (response status) =
      if ltb status 200 || ltb 203 status then bad_status_code tag status else done

  -- `marshalled` is the result of encoding the command; `tag` is its image.
  unfoldable pub send_workload_with_credentials : String → Result String → SendResult
  unfolding outcome
  send_workload_with_credentials tag (err e) = marshal_failed e
  send_workload_with_credentials tag (ok body) = outcome tag (post last_post)

  post_until_lem :
      (left n : ℕ)
      → (n ≤ post_until left n)
        × (post_until left n ≤ n + left)
        × ((i : ℕ) → n ≤ i → i < post_until left n → is_refused (post i) ≡ true)
        × ((is_refused (post (post_until left n)) ≡ false) ⊎ (post_until left n ≡ n + left))
  unfolding post_until
  post_until_lem zero n =
      (ground arith, ground arith, λ i l h. absurd (omega (arith, l, h)), inr (omega arith))
  post_until_lem (suc left) n =
      let (lo, hi, all, why) = post_until_lem left (suc n) in
      elim (Bool-cases (is_refused (post n))) [
        | inr stop ↦
            rw (post_until, stop)
              (omega arith, omega arith, λ i l h. absurd (omega (arith, l, h)), inl stop)
        | inl again ↦
            rw (post_until, again)
              (
                omega (arith, lo),
                omega (arith, hi),
                λ i l h. elim (Bool-cases (ltb n i)) [
                  | inl y ↦ all i (ground arith) h
                  | inr m ↦ let same : i ≡ n = ground (arith, l, m) in rw same again
                ],
                elim why [ inl s ↦ inl s | inr e ↦ inr (omega (arith, e)) ],
              )
      ]

  outcome_iff :
      (tag : String) (p : Posted)
      → (outcome tag p ≡ done) ↔ ((s : ℕ) × (p ≡ response s) × (200 ≤ s) × (s ≤ 203))
  unfolding outcome
  outcome_iff tag (failed e) = (λ h. absurd cc, λ (s, h, _, _). absurd cc)
  outcome_iff tag no_response = (λ h. absurd cc, λ (s, h, _, _). absurd cc)
  outcome_iff tag (response s) =
      (λ h. (s, refl, ground arith, ground arith), λ (t, h, lo, hi). ground (arith, h, lo, hi))

  -- At most six posts are made. Every post but the last was refused, and the last one was not, or it is
  -- the sixth. The call succeeds exactly if the last post has a status from 200 to 203.
  pub send_workload_with_credentials_lem :
      (tag body : String)
      → (last_post ≤ 5)
        × ((i : ℕ) → i < last_post → is_refused (post i) ≡ true)
        × ((is_refused (post last_post) ≡ false) ⊎ (last_post ≡ 5))
        × ((send_workload_with_credentials tag (ok body) ≡ done)
            ↔ ((s : ℕ) × (post last_post ≡ response s) × (200 ≤ s) × (s ≤ 203)))
  unfolding send_workload_with_credentials
  send_workload_with_credentials_lem tag body =
      let (lo, hi, all, why) = post_until_lem max_refused 0 in
      (hi, λ i h. all i (omega arith) h, why, outcome_iff tag (post last_post))
