-- ===== src/ServiceHandler/Cycle.antt =====
-- The custom resources after a cycle of service discovery.
use kontroller.Base.{
  ◌||◌, String, ◌≡◌, ◌↔◌, refl, sym, ap, ◌∙◌, true, false, Option, none, List, [], ◌∷◌, ◌==◌,
  contains, ok, arith, Memᴰ, mem-cons-cases, inl, inr, Bool-cases, eq_iff,
}
use kontroller.Watcher.Pod.{add}
use kontroller.ServiceHandler.{
  Service, ServiceScanResult, DiscoveryEnv, key_of_service, key_of_result, service_scan,
  remove_result, scan_services, current_services, delete_services, delete_listed, visit,
  discovery_service,
}

module _ (env : DiscoveryEnv) where
  -- The API accepts every apply and every deletion, and lists the custom resources.
  pub record Answers : Type 0 where
    pub applies : (ns name : String) → env.apply_answer ns name ≡ ok tt
    pub deletes : (ns name : String) → env.delete_answer ns name ≡ ok tt
    pub lists : env.list_error ≡ none

  contains-add :
      (s x : String) (set : List String) → contains (add s set) x ≡ ((s == x) || contains set x)
  unfolding add
  contains-add s x set = ground (arith, eq_iff s x)

  mem-delete_listed :
      Answers
      → (current : List String) (store : List ServiceScanResult) (r : ServiceScanResult)
      → Memᴰ r (delete_listed env current store)
        ↔ (Memᴰ r store × (contains current (key_of_result r) ≡ true))
  unfolding delete_listed visit
  mem-delete_listed a current [] r = (λ m. elim m [ ], λ (m, _). elim m [ ])
  mem-delete_listed a current (x ∷ rest) r =
      let ih = mem-delete_listed a current rest r in
      elim (Bool-cases (contains current (key_of_result x))) [
        | inl y ↦
            rw (delete_listed, visit, y)
              (
                λ m. elim (mem-cons-cases m) [
                  | inl e ↦ (Memᴰ.head e, ground (arith, e, y))
                  | inr n ↦ let (b, c) = ih.0 n in (Memᴰ.tail b, c)
                ],
                λ (m, c). elim (mem-cons-cases m) [
                  | inl e ↦ Memᴰ.head e
                  | inr n ↦ Memᴰ.tail (ih.1 (n, c))
                ],
              )
        | inr no_match ↦
            rw (delete_listed, visit, no_match, a.deletes x.namespace x.name)
              (
                λ m. let (b, c) = ih.0 m in (Memᴰ.tail b, c),
                λ (m, c). elim (mem-cons-cases m) [
                  | inl e ↦ absurd (ground (arith, e, c, no_match))
                  | inr n ↦ ih.1 (n, c)
                ],
              )
      ]

  delete_services-listed :
      Answers
      → (current : List String) (store : List ServiceScanResult)
      → delete_services env current store ≡ delete_listed env current store
  unfolding delete_services delete_listed visit
  delete_services-listed a current store = rw (delete_services, a.lists) refl

  kept-remove_result :
      (k : String) (store : List ServiceScanResult) (r : ServiceScanResult)
      → Memᴰ r store
      → (key_of_result r == k) ≡ false
      → Memᴰ r (remove_result env k store)
  unfolding remove_result
  kept-remove_result k [] r m h = elim m [ ]
  kept-remove_result k (x ∷ rest) r m h = elim (Bool-cases (key_of_result x == k)) [
    | inr n ↦
        rw (remove_result, n)
          (elim (mem-cons-cases m) [
            | inl e ↦ Memᴰ.head e
            | inr t ↦ Memᴰ.tail (kept-remove_result k rest r t h)
          ])
    | inl y ↦
        rw (remove_result, y)
          (elim (mem-cons-cases m) [
            | inl e ↦ absurd (ground (arith, e, h, y))
            | inr t ↦ kept-remove_result k rest r t h
          ])
  ]

  -- The store has a resource under the key.
  abbrev pub Holds : String → List ServiceScanResult → Type 0
  Holds k store = (r : ServiceScanResult) × Memᴰ r store × (key_of_result r ≡ k)

  service_scan-key : (s : Service) → key_of_result (service_scan env s) ≡ key_of_service s
  unfolding service_scan
  service_scan-key s = refl

  apply-Holds :
      (new : ServiceScanResult) (k : String) (store : List ServiceScanResult)
      → Holds k store
      → Holds k (new ∷ remove_result env (key_of_result new) store)
  apply-Holds new k store (r, m, e) = elim (Bool-cases (key_of_result new == k)) [
    | inl y ↦ (new, Memᴰ.head refl, (eq_iff _ _).0 y)
    | inr n ↦
        let other : (key_of_result r == key_of_result new) ≡ false = ground (
          arith,
          e,
          n,
          eq_iff (key_of_result r) (key_of_result new),
          eq_iff (key_of_result new) k,
        ) in
        (r, Memᴰ.tail (kept-remove_result (key_of_result new) store r m other), e)
  ]

  scan_services-Holds :
      Answers
      → (services : List Service) (k : String) (store : List ServiceScanResult) → Holds k store
      → Holds k (scan_services env services store)
  unfolding scan_services
  scan_services-Holds a [] k store h = h
  scan_services-Holds a (s ∷ rest) k store h =
      rw (scan_services, a.applies s.namespace s.name)
        (scan_services-Holds a rest k _ (apply-Holds (service_scan env s) k store h))

  scanned-Holds :
      Answers
      → (services : List Service) (s : Service) (store : List ServiceScanResult) → Memᴰ s services
      → Holds (key_of_service s) (scan_services env services store)
  unfolding scan_services
  scanned-Holds a [] s store m = elim m [ ]
  scanned-Holds a (x ∷ rest) s store m = elim (mem-cons-cases m) [
    | inr n ↦ scanned-Holds a rest s _ n
    | inl e ↦
        rw (scan_services, a.applies x.namespace x.name)
          (scan_services-Holds a rest (key_of_service s) _
            (service_scan env x, Memᴰ.head refl, service_scan-key x ∙ ap key_of_service (sym e)))
  ]

  contains-current_services :
      (services : List Service) (k : String)
      → (contains (current_services env services) k ≡ true)
        ↔ ((s : Service) × Memᴰ s services × (key_of_service s ≡ k))
  contains-current_services [] k = (λ h. absurd cc, λ (_, m, _). elim m [ ])
  contains-current_services (x ∷ rest) k =
      let ih = contains-current_services rest k in
      let added = contains-add (key_of_service x) k (current_services env rest) in
      (
        λ h. elim (Bool-cases (key_of_service x == k)) [
          | inl y ↦ (x, Memᴰ.head refl, (eq_iff _ _).0 y)
          | inr n ↦ let (s, m, e) = ih.0 (ground (arith, h, n, added)) in (s, Memᴰ.tail m, e)
        ],
        λ (s, m, e). elim (mem-cons-cases m) [
          | inl same ↦
              let y = (eq_iff (key_of_service x) k).1 (ap key_of_service (sym same) ∙ e) in
              ground (arith, added, y)
          | inr n ↦ let y = ih.1 (s, n, e) in ground (arith, added, y)
        ],
      )

  -- If the API accepts the calls of a cycle and lists the custom resources, the keys that have a
  -- resource after it are exactly those of the services that the listing of the services yields: each
  -- of them has one, and none is left of any other service, even if that listing ended with an error.
  pub discovery_service-Holds :
      Answers
      → (services : List Service) (error : Option String) (store : List ServiceScanResult)
        (k : String)
      → Holds k (discovery_service env (services, error) store)
        ↔ ((s : Service) × Memᴰ s services × (key_of_service s ≡ k))
  unfolding discovery_service
  discovery_service-Holds a services error store k =
      let current = current_services env services in
      let scanned = scan_services env services store in
      let listed = contains-current_services services in
      let mem = mem-delete_listed a current scanned in
      rw (delete_services-listed a current scanned) (
        λ (r, m, e).
            let (_, c) = (mem r).0 m in
            let (s, n, f) = (listed (key_of_result r)).0 c in (s, n, f ∙ e),
        λ (s, n, e).
            let (r, m, f) = scanned-Holds a services s store n in
            let c = (listed (key_of_result r)).1 (s, n, sym f) in (r, (mem r).1 (m, c), f ∙ e),
      )
