-- ===== src/Cluster/Effects.antt =====
-- What single calls of the API do to what is held, as rules for `Holds`.
use kontroller.Base.{
  String, ◌≡◌, refl, true, Option, none, some, arith, inl, inr, is_some, eq-false, String-cases,
}
use kontroller.Cluster.{Api, Kind, Verb, CronJob, ConfigMap}
use kontroller.Cluster.Steps.{returned, failed, call, answer, Holds}

module _ {S : Type 0} where
  answer_state : (r : Option String × S) → (answer r).1 ≡ r.1
  answer_state (none, s) = refl
  answer_state (some e, s) = refl

  answer-returned : (r : Option String × S) → (answer r).0 ≡ returned tt → r.0 ≡ none
  answer-returned (none, s) h = refl
  answer-returned (some e, s) h = absurd cc

  pub answer_ok : (r : Option String × S) → r.0 ≡ none → answer r ≡ (returned tt, r.1)
  answer_ok (none, s) h = refl
  answer_ok (some f, s) h = absurd cc

  pub answer-failed :
      (r : Option String × S) (e : String) → r.0 ≡ some e → answer r ≡ (failed e, r.1)
  answer-failed (none, s) e h = absurd cc
  answer-failed (some f, s) e h = ground arith

  -- A rule for a call from what it does in every case and what it does without an error.
  pub Holds-call :
      (Inv Pre : S → Type 0) (Post : S → Type 0) (f : S → Option String × S)
      → ((s : S) → Inv s → Pre s → Inv (f s).1)
      → ((s : S) → Inv s → Pre s → (f s).0 ≡ none → Post (f s).1)
      → Holds Inv Pre (call f) (λ _. Post)
  unfolding call
  Holds-call Inv Pre Post f keep ensure s i p = (
    rw (answer_state (f s)) (keep s i p),
    λ u h. rw (answer_state (f s)) (ensure s i p (answer-returned (f s) h)),
  )

module _ {S : Type 0} (api : Api S) where
  -- Every cron job has a config map of its name: the request that it mounts.
  abbrev pub IsBacked : S → Type 0
  IsBacked s =
      (n : String)
      → is_some (api.held Kind.cron_jobs n s) ≡ true
      → is_some (api.held Kind.config_maps n s) ≡ true

  pub write-cron_job-IsBacked :
      (v : Verb) (n : String) (a : CronJob) (s : S)
      → IsBacked s
      → is_some (api.held Kind.config_maps n s) ≡ true
      → IsBacked (api.write v Kind.cron_jobs n a s).1
  write-cron_job-IsBacked v n a s b here m =
      rw (api.write_others v Kind.cron_jobs n a s Kind.config_maps m refl)
        (elim (String-cases n m) [
          | inl e ↦ λ h. rw (← e) here
          | inr apart ↦
              rw (api.write_others v Kind.cron_jobs n a s Kind.cron_jobs m (eq-false n m apart))
                (b m)
        ])

  pub write-config_map-IsBacked :
      (v : Verb) (n : String) (a : ConfigMap) (s : S)
      → IsBacked s
      → IsBacked (api.write v Kind.config_maps n a s).1
  write-config_map-IsBacked v n a s b m =
      rw (api.write_others v Kind.config_maps n a s Kind.cron_jobs m refl) (λ h.
        elim (String-cases n m) [
          | inl e ↦ elim (api.write_or_not v Kind.config_maps n a s) [
            | inl p ↦ ground (arith, e, p)
            | inr p ↦ ground (arith, e, p, b m h)
          ]
          | inr apart ↦
              rw (api.write_others v Kind.config_maps n a s Kind.config_maps m (eq-false n m apart))
                (b m h)
        ])

  pub delete-cron_job-IsBacked :
      (n : String) (s : S) → IsBacked s → IsBacked (api.delete Kind.cron_jobs n s).1
  delete-cron_job-IsBacked n s b m =
      rw (api.delete_others Kind.cron_jobs n s Kind.config_maps m refl) (elim (String-cases n m) [
        | inl e ↦ elim (api.delete_or_not Kind.cron_jobs n s) [
          | inl p ↦ rw (← e, p) (λ h. absurd cc)
          | inr p ↦ rw (← e, p) (b n)
        ]
        | inr apart ↦
            rw (api.delete_others Kind.cron_jobs n s Kind.cron_jobs m (eq-false n m apart)) (b m)
      ])

  pub delete-config_map-IsBacked :
      (n : String) (s : S)
      → IsBacked s
      → api.held Kind.cron_jobs n s ≡ none
      → IsBacked (api.delete Kind.config_maps n s).1
  delete-config_map-IsBacked n s b none_left m =
      rw (api.delete_others Kind.config_maps n s Kind.cron_jobs m refl) (elim (String-cases n m) [
        | inl e ↦ rw (← e, none_left) (λ h. absurd cc)
        | inr apart ↦
            rw (api.delete_others Kind.config_maps n s Kind.config_maps m (eq-false n m apart))
              (b m)
      ])

  pub delete-secret-IsBacked :
      (n : String) (s : S) → IsBacked s → IsBacked (api.delete Kind.secrets n s).1
  delete-secret-IsBacked n s b m =
      rw
        (
          api.delete_others Kind.secrets n s Kind.cron_jobs m refl,
          api.delete_others Kind.secrets n s Kind.config_maps m refl,
        )
        (b m)

  -- Every cron job has its config map, and is held under its own name.
  pub record IsInOrder (s : S) : Type 0 where
    pub backed : IsBacked s
    pub named : (n : String) (j : CronJob) → api.held Kind.cron_jobs n s ≡ some j → j.name ≡ n

  write_own_name :
      (v : Verb) (a : CronJob) (s : S)
      → IsInOrder s
      → is_some (api.held Kind.config_maps a.name s) ≡ true
      → IsInOrder (api.write v Kind.cron_jobs a.name a s).1
  write_own_name v a s h b = record {
    backed = write-cron_job-IsBacked v a.name a s h.backed b;
    named = λ n j. elim (String-cases a.name n) [
      | inr apart ↦
          rw
            (api.write_others v Kind.cron_jobs a.name a s Kind.cron_jobs n
              (eq-false a.name n apart))
            (h.named n j)
      | inl e ↦ elim (api.write_or_not v Kind.cron_jobs a.name a s) [
        | inl p ↦ rw (← e, p) (λ q. ground (arith, q))
        | inr p ↦ rw (← e, p) (h.named a.name j)
      ]
    ];
  }

  pub write-cron_job-IsInOrder :
      (v : Verb) (n : String) (a : CronJob) (s : S)
      → a.name ≡ n
      → IsInOrder s
      → is_some (api.held Kind.config_maps n s) ≡ true
      → IsInOrder (api.write v Kind.cron_jobs n a s).1
  write-cron_job-IsInOrder v n a s e = rw (← e) (write_own_name v a s)

  pub write-config_map-IsInOrder :
      (v : Verb) (n : String) (a : ConfigMap) (s : S)
      → IsInOrder s
      → IsInOrder (api.write v Kind.config_maps n a s).1
  write-config_map-IsInOrder v n a s h = record {
    backed = write-config_map-IsBacked v n a s h.backed;
    named =
        λ m j. rw (api.write_others v Kind.config_maps n a s Kind.cron_jobs m refl) (h.named m j);
  }

  pub delete-cron_job-IsInOrder :
      (n : String) (s : S) → IsInOrder s → IsInOrder (api.delete Kind.cron_jobs n s).1
  delete-cron_job-IsInOrder n s h = record {
    backed = delete-cron_job-IsBacked n s h.backed;
    named = λ m j. elim (String-cases n m) [
      | inr apart ↦
          rw (api.delete_others Kind.cron_jobs n s Kind.cron_jobs m (eq-false n m apart))
            (h.named m j)
      | inl e ↦ elim (api.delete_or_not Kind.cron_jobs n s) [
        | inl p ↦ rw (← e, p) (λ q. absurd cc)
        | inr p ↦ rw (← e, p) (h.named n j)
      ]
    ];
  }

  pub delete-config_map-IsInOrder :
      (n : String) (s : S)
      → IsInOrder s
      → api.held Kind.cron_jobs n s ≡ none
      → IsInOrder (api.delete Kind.config_maps n s).1
  delete-config_map-IsInOrder n s h g = record {
    backed = delete-config_map-IsBacked n s h.backed g;
    named = λ m j. rw (api.delete_others Kind.config_maps n s Kind.cron_jobs m refl) (h.named m j);
  }

  pub delete-secret-IsInOrder :
      (n : String) (s : S) → IsInOrder s → IsInOrder (api.delete Kind.secrets n s).1
  delete-secret-IsInOrder n s h = record {
    backed = delete-secret-IsBacked n s h.backed;
    named = λ m j. rw (api.delete_others Kind.secrets n s Kind.cron_jobs m refl) (h.named m j);
  }
