-- ===== src/Tests/Cache.antt =====
-- An expiring cache, as an association list: the first entry of a key counts.
use kontroller.Base.{
  ℕ, ◌+◌, ◌≤◌, String, ◌≡◌, ◌↔◌, refl, true, false, some, List, [], ◌∷◌, ◌==◌, arith, ltb,
  if◌then◌else◌, contains, Memᴰ, mem-cons-cases, inl, inr, Bool-cases, eq_iff,
}
use kontroller.Base.Dict.{Dict, lookup, insert, lookup-insert, lookup-nil}
use kontroller.Watcher.Event.{Event}
use kontroller.Watcher.Cooldown.{ExpiringCache}

abbrev pub Entries : Type 0
Entries = Dict (Event × ℕ)

-- `seen`: the keys of the entries before.
unfoldable pub kept : ℕ → List String → Entries → Entries
kept now seen [] = []
kept now seen ((k, (e, d)) ∷ m) =
    let rest = kept now (k ∷ seen) m in
    if contains seen k then rest else if ltb d now then rest else (k, (e, d)) ∷ rest

unfoldable pub evicted : ℕ → List String → Entries → List (String × Event)
evicted now seen [] = []
evicted now seen ((k, (e, d)) ∷ m) =
    let rest = evicted now (k ∷ seen) m in
    if contains seen k then rest else if ltb d now then (k, e) ∷ rest else rest

pub lookup-kept :
    (now : ℕ) (seen : List String) (m : Entries) (k : String) (e : Event) (d : ℕ)
    → lookup k (kept now seen m) ≡ some (e, d)
    → (contains seen k ≡ false) × (lookup k m ≡ some (e, d))
unfolding kept lookup
lookup-kept now seen [] k e d h = absurd cc
lookup-kept now seen ((j, (f, g)) ∷ m) k e d h = elim (Bool-cases (contains seen j)) [
  | inl y ↦
      let (c, l) = lookup-kept now (j ∷ seen) m k e d (ground (arith, h, y)) in ground (arith, c, l)
  | inr n ↦ elim (Bool-cases (ltb g now)) [
    | inl x ↦
        let (c, l) = lookup-kept now (j ∷ seen) m k e d (ground (arith, h, n, x)) in
        ground (arith, c, l)
    | inr x ↦ elim (Bool-cases (j == k)) [
      | inl same ↦ ground (arith, h, n, x, same, eq_iff j k)
      | inr other ↦
          let (c, l) = lookup-kept now (j ∷ seen) m k e d (ground (arith, h, n, x, other)) in
          ground (arith, c, l, other)
    ]
  ]
]

pub evicted_iff :
    (now : ℕ) (seen : List String) (m : Entries) (k : String) (e : Event)
    → Memᴰ (k, e) (evicted now seen m)
      ↔ ((contains seen k ≡ false) × (d : ℕ) × (lookup k m ≡ some (e, d)) × (ltb d now ≡ true))
unfolding evicted lookup
evicted_iff now seen [] k e = (λ m. elim m [ ], λ (_, _, h, _). absurd cc)
evicted_iff now seen ((j, (f, g)) ∷ m) k e =
    let ih = evicted_iff now (j ∷ seen) m k e in
    elim (Bool-cases (contains seen j)) [
      | inl y ↦
          rw (evicted, y)
            (
              λ r. let (c, d, l, x) = ih.0 r in (ground (arith, c), d, ground (arith, c, l), x),
              λ (c, d, l, x).
                  ih.1
                    (ground (arith, c, y, eq_iff j k), d, ground (arith, c, y, l, eq_iff j k), x),
            )
      | inr n ↦ elim (Bool-cases (ltb g now)) [
        | inr fresh ↦
            rw (evicted, n, fresh)
              (
                λ r. let (c, d, l, x) = ih.0 r in (ground (arith, c), d, ground (arith, c, l), x),
                λ (c, d, l, x).
                    ih.1 (ground (arith, c, l, x, fresh), d, ground (arith, l, x, fresh), x),
              )
        | inl old ↦
            rw (evicted, n, old)
              (
                λ r. elim (mem-cons-cases r) [
                  | inl same ↦ (ground (arith, same, n), g, ground (arith, same, eq_iff j k), old)
                  | inr t ↦
                      let (c, d, l, x) = ih.0 t in (ground (arith, c), d, ground (arith, c, l), x)
                ],
                λ (c, d, l, x). elim (Bool-cases (j == k)) [
                  | inl same ↦ Memᴰ.head (ground (arith, l, same, eq_iff j k))
                  | inr other ↦
                      Memᴰ.tail (ih.1 (ground (arith, c, other), d, ground (arith, l, other), x))
                ],
              )
      ]
    ]

pub expired-le : (d now : ℕ) → ltb d now ≡ true → d ≤ now
expired-le d now h = ground arith

abbrev pub sample_cache : ExpiringCache
sample_cache = record {
  State = Entries;
  empty = [];
  set = λ now k e s. insert k (e, now + 5) s;
  evict_expired = λ now s. (kept now [] s, evicted now [] s);
  held = λ s k. lookup k s;
  expiration = 5;
  is_expired = λ d now. ltb d now;
  is_expired-le = expired-le;
  held-empty = λ k. lookup-nil k;
  held-set = λ now k j e s. lookup-insert k j (e, now + 5) s;
  held-evict = λ now s k e d h. (lookup-kept now [] s k e d h).1;
  evicted_iff = λ now s k e. (
    λ m. let (_, d, l, x) = (evicted_iff now [] s k e).0 m in (d, l, x),
    λ (d, l, x). (evicted_iff now [] s k e).1 (refl, d, l, x),
  );
}
