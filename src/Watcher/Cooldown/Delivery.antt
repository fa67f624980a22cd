-- ===== src/Watcher/Cooldown/Delivery.antt =====
-- What comes out of the cooldown queue (watcher/cooldownqueue.go), and when.
use kontroller.Base.{
  ℕ, ◌+◌, ◌≤◌, ◌<◌, String, ◌≡◌, ◌↔◌, refl, true, false, some, List, [], ◌∷◌, ◌++◌, Memᴰ, map,
  arith, ok, All, All-append, Bool-cases, inl, inr, eq_refl, ◌==◌, Result-cases,
}
use kontroller.Watcher.Event.{Event}
use kontroller.Watcher.Cooldown.{
  ExpiringCache, CooldownQueue, Outcome-cases, runs, Call, enqueue, tick, send, stop, enqueue_event,
  evict, send_first, step, run, make_event_key, new_cooldown_queue,
}

All-map {ℓ κ μ} :
    {A : Type ℓ} {B : Type κ} (P : B → Type μ) (f : A → B) (xs : List A)
    → ((x : A) → Memᴰ x xs → P (f x))
    → All P (map f xs)
All-map P f [] h = tt
All-map P f (x ∷ xs) h = (h x (Memᴰ.head refl), All-map P f xs (λ y m. h y (Memᴰ.tail m)))

module _ (cache : ExpiringCache) where
  held_after_enqueue :
      (t : ℕ) (e : Event) (k : String) (s : cache.State)
      → cache.held (cache.set t k e s) k ≡ some (e, t + cache.expiration)
  held_after_enqueue t e k s = simp (cache.held-set, eq_refl)

  evicted_after_enqueue :
      (t now : ℕ) (e x : Event) (k : String) (s : cache.State)
      → let evicted = (cache.evict_expired now (cache.set t k e s)).1 in
        (now < t + cache.expiration → ¬ Memᴰ (k, x) evicted)
        × (cache.is_expired (t + cache.expiration) now ≡ true → Memᴰ (k, x) evicted ↔ (x ≡ e))
  evicted_after_enqueue t now e x k s =
      let here = held_after_enqueue t e k s in
      let law = cache.evicted_iff now (cache.set t k e s) k x in
      (
        λ early m.
            let (d, h, p) = law.0 m in ground (arith, here, h, early, cache.is_expired-le d now p),
        λ late. (
          λ m. let (d, h, p) = law.0 m in ground (arith, here, h),
          λ same. law.1 (t + cache.expiration, rw same here, late),
        ),
      )

  -- An event that is put again under its key takes the place of the old one and starts a new
  -- cooldown: before the cooldown is over nothing is evicted under the key, and from then on the
  -- last event and no other.
  pub enqueue_resets :
      (q : CooldownQueue cache) (t now : ℕ) (e x : Event) (k : String)
      → q.closed ≡ false
      → make_event_key e ≡ ok k
      → let evicted = (cache.evict_expired now (enqueue_event cache t e q).seen_events).1 in
        (now < t + cache.expiration → ¬ Memᴰ (k, x) evicted)
        × (cache.is_expired (t + cache.expiration) now ≡ true → Memᴰ (k, x) evicted ↔ (x ≡ e))
  unfolding enqueue_event
  enqueue_resets q t now e x k c h = rw (c, h) (evicted_after_enqueue t now e x k q.seen_events)

  -- The event was put at some time, and evicted when its cooldown was over.
  module _ (calls : List Call) where
    abbrev pub Cooled : Event → Type 0
    Cooled e =
        (t : ℕ) × (now : ℕ) × Memᴰ (enqueue t e) calls
        × Memᴰ (tick now) calls
        × (t + cache.expiration ≤ now)

    record Inv (q : CooldownQueue cache) : Type 0 where
      held :
          (k : String) (e : Event) (d : ℕ)
          → cache.held q.seen_events k ≡ some (e, d)
          → (t : ℕ) × Memᴰ (enqueue t e) calls × (d ≡ t + cache.expiration)
      due : All Cooled q.due
      delivered : All Cooled q.delivered

    enqueue-Inv :
        (t : ℕ) (e : Event) (q : CooldownQueue cache)
        → Memᴰ (enqueue t e) calls
        → Inv q
        → Inv (enqueue_event cache t e q)
    unfolding enqueue_event
    enqueue-Inv t e q m v = elim (Bool-cases q.closed) [
      | inl c ↦ simp c v
      | inr c ↦ elim (Result-cases (make_event_key e)) [
        | inr (_, n) ↦ simp (c, n) v
        | inl (key, k) ↦
            simp (c, k)
              (record {
                held = λ j f d h. elim (Bool-cases (key == j)) [
                  | inl y ↦
                      let p : f ≡ e = ground (arith, cache.held-set t key j e q.seen_events) in
                      (t, rw p m, ground (arith, cache.held-set t key j e q.seen_events))
                  | inr n ↦ v.held j f d (ground (arith, cache.held-set t key j e q.seen_events))
                ];
                due = v.due;
                delivered = v.delivered;
              })
      ]
    ]

    evict-Inv :
        (now : ℕ) (q : CooldownQueue cache)
        → Memᴰ (tick now) calls
        → Inv q
        → Inv (evict cache now q)
    unfolding evict
    evict-Inv now q m v = record {
      held = λ k e d h. v.held k e d (cache.held-evict now q.seen_events k e d h);
      due = All-append Cooled q.due _ v.due (
          All-map Cooled _ _ λ (k, e) r.
            let (d, h, x) = (cache.evicted_iff now q.seen_events k e).0 r in
            let (t, p, g) = v.held k e d h in
            (t, now, p, m, omega (arith, cache.is_expired-le d now x)));
      delivered = v.delivered;
    }

    send_first-Inv :
        (q q' : CooldownQueue cache) (xs : List Event)
        → send_first cache q xs ≡ runs q'
        → All Cooled xs
        → Inv q
        → Inv q'
    unfolding send_first
    send_first-Inv q q' [] h a v = let p : q' ≡ q = cc in rw p v
    send_first-Inv q q' (x ∷ xs) h a v =
        let p : q' ≡ record q { due = xs; delivered = q.delivered ++ x ∷ [] } = ground arith in
        rw p (record {
          held = v.held;
          due = a.1;
          delivered = All-append Cooled q.delivered (x ∷ []) v.delivered (a.0, tt);
        })

    step-Inv :
        (c : Call) (q q' : CooldownQueue cache)
        → Memᴰ c calls
        → step cache c q ≡ runs q'
        → Inv q
        → Inv q'
    unfolding step
    step-Inv (enqueue t e) q q' m h v =
        let p : q' ≡ enqueue_event cache t e q = cc in rw p (enqueue-Inv t e q m v)
    step-Inv (tick now) q q' m h v =
        let p : q' ≡ evict cache now q = cc in rw p (evict-Inv now q m v)
    step-Inv send q q' m h v = send_first-Inv q q' q.due h v.due v
    step-Inv stop q q' m h v =
        let p : q' ≡ record q { closed = true; chan_closed = true } = ground arith in
        rw p (record { held = v.held; due = v.due; delivered = v.delivered })

    run-Inv :
        (cs : List Call) (q q' : CooldownQueue cache)
        → ((c : Call) → Memᴰ c cs → Memᴰ c calls)
        → run cache cs q ≡ runs q'
        → Inv q
        → Inv q'
    unfolding run
    run-Inv [] q q' sub h v = let p : q' ≡ q = cc in rw p v
    run-Inv (c ∷ cs) q q' sub h v = elim (Outcome-cases (step cache c q)) [
      | inl (r, e) ↦
          run-Inv cs r q' (λ d m. sub d (Memᴰ.tail m)) (ground arith)
            (step-Inv c q r (sub c (Memᴰ.head refl)) e v)
      | inr e ↦ absurd (ground arith)
    ]

  -- Nothing is made up and nothing comes early: whatever the calls and their order, if none of
  -- them panics, each event that the queue delivered was put by one of them and had cooled down
  -- when one of the rounds of the evicter came.
  pub run-Cooled :
      (calls : List Call) (q : CooldownQueue cache)
      → run cache calls (new_cooldown_queue cache) ≡ runs q
      → All (Cooled calls) q.delivered
  unfolding new_cooldown_queue
  run-Cooled calls q h =
      (run-Inv calls calls (new_cooldown_queue cache) q (λ c m. m) h
        (record {
          held = λ k e d g. absurd (ground (arith, cache.held-empty k));
          due = tt;
          delivered = tt;
        })).delivered
