-- ===== src/Cluster/Goroutines/Ends.antt =====
-- A group ends: enough turns let every goroutine return, and without an error if each returns none.
use kontroller.Base.{ℕ, suc, ◌≤◌, String, ◌≡◌, refl, Option, none, some, List, [], ◌∷◌, arith}
use kontroller.Cluster.Goroutines.{
  Goroutine, returns, calls, Turn, first, second, third, Group, advance, turn, run, begin,
  HasReturned, Within, Succeeds,
}
use kontroller.Cluster.Goroutines.Contracts.{turns_of_first, turns_of_second, turns_of_third}

module _ {S : Type 0} where
  abbrev Left : ℕ → Option (Goroutine S) → Type 0
  Left n none = Unit
  Left n (some t) = Within n t

  pub Within-more : (m n : ℕ) (t : Goroutine S) → m ≤ n → Within m t → Within n t
  Within-more m n (returns e) l h = omega (arith, l, h)
  Within-more m n (calls effect next) l (k, p, q) = (k, omega (arith, l, p), q)

  advance-Left :
      (n : ℕ) (t : Option (Goroutine S)) (e : Option String) (s : S)
      → Left (suc n) t
      → Left n (advance t e s).0
  unfolding advance
  advance-Left n none e s h = tt
  advance-Left n (some (returns f)) e s h = tt
  advance-Left n (some (calls effect next)) e s (m, p, q) =
      Within-more m n (next s) (omega (arith, p)) (q s)

  Left-none : (t : Option (Goroutine S)) → Left 0 t → t ≡ none
  Left-none none h = refl
  Left-none (some (returns e)) h = absurd (omega (arith, h))
  Left-none (some (calls effect next)) (m, p, q) = absurd (omega (arith, p))

  Left-more : (m n : ℕ) (t : Option (Goroutine S)) → m ≤ n → Left m t → Left n t
  Left-more m n none l h = tt
  Left-more m n (some t) l h = Within-more m n t l h

  run-HasReturned :
      (ts : List Turn) (g : Group S)
      → Left (turns_of_first ts) g.one
      → Left (turns_of_second ts) g.two
      → Left (turns_of_third ts) g.three
      → HasReturned (run ts g)
  unfolding run turn
  run-HasReturned [] g h k l = record {
    one = Left-none g.one h;
    two = Left-none g.two k;
    three = Left-none g.three l;
  }
  run-HasReturned (first ∷ rest) g h k l =
      run-HasReturned rest (turn first g) (advance-Left _ g.one g.error g.store h) k l
  run-HasReturned (second ∷ rest) g h k l =
      run-HasReturned rest (turn second g) h (advance-Left _ g.two g.error g.store k) l
  run-HasReturned (third ∷ rest) g h k l =
      run-HasReturned rest (turn third g) h k (advance-Left _ g.three g.error g.store l)

  -- The goroutines have all returned once each has had as many turns as it may take.
  pub all_return :
      (l m n : ℕ) (one two three : Goroutine S) (s : S)
      → Within l one
      → Within m two
      → Within n three
      → (ts : List Turn) → l ≤ turns_of_first ts
      → m ≤ turns_of_second ts
      → n ≤ turns_of_third ts
      → HasReturned (run ts (begin one two three s))
  all_return l m n one two three s h k q ts a b c =
      run-HasReturned ts (begin one two three s) (Within-more l _ one a h) (Within-more m _ two b k)
        (Within-more n _ three c q)

  module _ (Inv : S → Type 0) where
    abbrev Clean : Option (Goroutine S) → Type 0
    Clean none = Unit
    Clean (some t) = Succeeds Inv t

    advance-Clean :
        (t : Option (Goroutine S)) (s : S)
        → Inv s
        → Clean t
        → Clean (advance t none s).0 × ((advance t none s).1 ≡ none) × Inv (advance t none s).2
    unfolding advance
    advance-Clean none s i h = (tt, refl, i)
    advance-Clean (some (returns e)) s i h = (tt, h, i)
    advance-Clean (some (calls effect next)) s i h = ((h s i).1, refl, (h s i).0)

    record AllClean (g : Group S) : Type 0 where
      one : Clean g.one
      two : Clean g.two
      three : Clean g.three
      error : g.error ≡ none
      inv : Inv g.store

    turn-AllClean : (t : Turn) (g : Group S) → AllClean g → AllClean (turn t g)
    unfolding turn
    turn-AllClean first g h =
        let (k, e, i) = advance-Clean g.one g.store h.inv h.one in
        rw h.error (record { one = k; two = h.two; three = h.three; error = e; inv = i })
    turn-AllClean second g h =
        let (k, e, i) = advance-Clean g.two g.store h.inv h.two in
        rw h.error (record { one = h.one; two = k; three = h.three; error = e; inv = i })
    turn-AllClean third g h =
        let (k, e, i) = advance-Clean g.three g.store h.inv h.three in
        rw h.error (record { one = h.one; two = h.two; three = k; error = e; inv = i })

    run-AllClean : (ts : List Turn) (g : Group S) → AllClean g → AllClean (run ts g)
    unfolding run
    run-AllClean [] g h = h
    run-AllClean (t ∷ rest) g h = run-AllClean rest (turn t g) (turn-AllClean t g h)

    -- A group of goroutines that return no error has none, whatever the order.
    pub no_error :
        (one two three : Goroutine S) (s : S)
        → Inv s
        → Succeeds Inv one
        → Succeeds Inv two
        → Succeeds Inv three
        → (ts : List Turn) → (run ts (begin one two three s)).error ≡ none
    no_error one two three s i h k l ts =
        (run-AllClean ts (begin one two three s)
          (record { one = h; two = k; three = l; error = refl; inv = i })).error
