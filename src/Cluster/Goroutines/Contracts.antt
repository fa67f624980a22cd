-- ===== src/Cluster/Goroutines/Contracts.antt =====
-- Goroutines that do not disturb one another: what each ensures holds after any interleaving.
use kontroller.Base.{ℕ, suc, String, ◌≡◌, refl, Option, none, some, List, [], ◌∷◌}
use kontroller.Cluster.Goroutines.{
  Goroutine, returns, calls, Turn, first, second, third, Group, advance, turn, run, begin,
  HasReturned, Ensures, Confined,
}

-- What a goroutine relies on between its calls, how its own calls change the state, and its goal.
pub record Contract (S : Type 0) : Type 1 where
  pub Rely : S → S → Type 0
  pub Change : S → S → Type 0
  pub Goal : S → Type 0
  pub rely_refl : (s : S) → Rely s s
  pub rely_trans : (s t u : S) → Rely s t → Rely t u → Rely s u
  pub change_refl : (s : S) → Change s s

module _ {S : Type 0} where
  -- The goroutine keeps its contract.
  abbrev pub Keeps : Contract S → Goroutine S → S → Type 0
  Keeps c t s = Ensures c.Rely c.Goal t s × Confined c.Change t

  abbrev Stands : Contract S → Option (Goroutine S) → Option String → S → Type 0
  Stands c none error s = error ≡ none → (u : S) → c.Rely s u → c.Goal u
  Stands c (some t) error s = Keeps c t s

  Ensures-later :
      (c : Contract S) (t : Goroutine S) (s u : S)
      → c.Rely s u
      → Ensures c.Rely c.Goal t s
      → Ensures c.Rely c.Goal t u
  Ensures-later c (returns e) s u r h = λ v q e0. h v (c.rely_trans s u v r q) e0
  Ensures-later c (calls effect next) s u r h = λ v q. h v (c.rely_trans s u v r q)

  Stands-later :
      (c : Contract S) (t : Option (Goroutine S)) (d e : Option String) (s u : S)
      → (e ≡ none → d ≡ none)
      → c.Rely s u
      → Stands c t d s
      → Stands c t e u
  Stands-later c none d e s u q r h = λ e0 v w. h (q e0) v (c.rely_trans s u v r w)
  Stands-later c (some t) d e s u q r h = (Ensures-later c t s u r h.0, h.1)

  advance-Stands :
      (c : Contract S) (t : Option (Goroutine S)) (e : Option String) (s : S)
      → Stands c t e s
      → let (t', e', s') = advance t e s in
        Stands c t' e' s' × (e' ≡ none → e ≡ none) × c.Change s s'
  unfolding advance
  advance-Stands c none e s h = (h, λ e0. e0, c.change_refl s)
  advance-Stands c (some (returns f)) none s h = (λ e0 u r. h.0 u r e0, λ _. refl, c.change_refl s)
  advance-Stands c (some (returns f)) (some e) s h = (λ e0. absurd cc, λ e0. cc, c.change_refl s)
  advance-Stands c (some (calls effect next)) e s h =
      ((h.0 s (c.rely_refl s), (h.1 s).1), λ e0. e0, (h.1 s).0)

  reached :
      (c : Contract S) (t : Option (Goroutine S)) (e : Option String) (s : S)
      → t ≡ none
      → e ≡ none
      → Stands c t e s
      → c.Goal s
  reached c none e s q r h = h r s (c.rely_refl s)
  reached c (some t) e s q r h = absurd cc

  -- What one goroutine does is within what the other relies on.
  abbrev pub Spares : Contract S → Contract S → Type 0
  Spares c d = (s u : S) → c.Change s u → d.Rely s u

  pub record AreApart (a b c : Contract S) : Type 0 where
    pub ab : Spares a b
    pub ac : Spares a c
    pub ba : Spares b a
    pub bc : Spares b c
    pub ca : Spares c a
    pub cb : Spares c b

  module _ (a b c : Contract S) where
    record AllStand (g : Group S) : Type 0 where
      one : Stands a g.one g.error g.store
      two : Stands b g.two g.error g.store
      three : Stands c g.three g.error g.store

    turn-AllStand : AreApart a b c → (t : Turn) (g : Group S) → AllStand g → AllStand (turn t g)
    unfolding turn
    turn-AllStand p first g h =
        let (k, q, w) = advance-Stands a g.one g.error g.store h.one in
        record {
          one = k;
          two = Stands-later b g.two g.error _ g.store _ q (p.ab _ _ w) h.two;
          three = Stands-later c g.three g.error _ g.store _ q (p.ac _ _ w) h.three;
        }
    turn-AllStand p second g h =
        let (k, q, w) = advance-Stands b g.two g.error g.store h.two in
        record {
          one = Stands-later a g.one g.error _ g.store _ q (p.ba _ _ w) h.one;
          two = k;
          three = Stands-later c g.three g.error _ g.store _ q (p.bc _ _ w) h.three;
        }
    turn-AllStand p third g h =
        let (k, q, w) = advance-Stands c g.three g.error g.store h.three in
        record {
          one = Stands-later a g.one g.error _ g.store _ q (p.ca _ _ w) h.one;
          two = Stands-later b g.two g.error _ g.store _ q (p.cb _ _ w) h.two;
          three = k;
        }

    run-AllStand :
        AreApart a b c → (ts : List Turn) (g : Group S) → AllStand g → AllStand (run ts g)
    unfolding run
    run-AllStand p [] g h = h
    run-AllStand p (t ∷ rest) g h = run-AllStand p rest (turn t g) (turn-AllStand p t g h)

    turn-changes :
        (R : S → S → Type 0)
        → ((s u : S) → a.Change s u → R s u)
        → ((s u : S) → b.Change s u → R s u)
        → ((s u : S) → c.Change s u → R s u)
        → (t : Turn) (g : Group S) → AllStand g
        → R g.store (turn t g).store
    unfolding turn
    turn-changes R p q r first g h = p _ _ (advance-Stands a g.one g.error g.store h.one).2
    turn-changes R p q r second g h = q _ _ (advance-Stands b g.two g.error g.store h.two).2
    turn-changes R p q r third g h = r _ _ (advance-Stands c g.three g.error g.store h.three).2

    run-changes :
        (R : S → S → Type 0)
        → ((s : S) → R s s)
        → ((s t u : S) → R s t → R t u → R s u)
        → ((s u : S) → a.Change s u → R s u)
        → ((s u : S) → b.Change s u → R s u)
        → ((s u : S) → c.Change s u → R s u)
        → AreApart a b c
        → (ts : List Turn) (g : Group S) → AllStand g
        → R g.store (run ts g).store
    unfolding run
    run-changes R z w p q r n [] g h = z g.store
    run-changes R z w p q r n (t ∷ rest) g h =
        w _ _ _ (turn-changes R p q r t g h)
          (run-changes R z w p q r n rest (turn t g) (turn-AllStand n t g h))

    -- Whatever the order, the group changes the state as its goroutines do.
    pub group-changes :
        (R : S → S → Type 0)
        → ((s : S) → R s s)
        → ((s t u : S) → R s t → R t u → R s u)
        → ((s u : S) → a.Change s u → R s u)
        → ((s u : S) → b.Change s u → R s u)
        → ((s u : S) → c.Change s u → R s u)
        → AreApart a b c
        → (one two three : Goroutine S) (s : S) → Keeps a one s
        → Keeps b two s
        → Keeps c three s
        → (ts : List Turn) → R s (run ts (begin one two three s)).store
    group-changes R z w p q r n one two three s k l m ts =
        run-changes R z w p q r n ts (begin one two three s)
          (record { one = k; two = l; three = m })

    -- Once all have returned, without an error, every goal is reached.
    pub goals_reached :
        AreApart a b c
        → (one two three : Goroutine S) (s : S) → Keeps a one s
        → Keeps b two s
        → Keeps c three s
        → (ts : List Turn) → HasReturned (run ts (begin one two three s))
        → (run ts (begin one two three s)).error ≡ none
        → let u = (run ts (begin one two three s)).store in a.Goal u × b.Goal u × c.Goal u
    goals_reached p one two three s k l m ts r e =
        let g = run ts (begin one two three s) in
        let h =
          run-AllStand p ts (begin one two three s) (record { one = k; two = l; three = m }) in
        (
          reached a g.one g.error g.store r.one e h.one,
          reached b g.two g.error g.store r.two e h.two,
          reached c g.three g.error g.store r.three e h.three,
        )

-- How often a goroutine's turn comes.
abbrev pub turns_of_first : List Turn → ℕ
turns_of_first [] = 0
turns_of_first (first ∷ rest) = suc (turns_of_first rest)
turns_of_first (second ∷ rest) = turns_of_first rest
turns_of_first (third ∷ rest) = turns_of_first rest

abbrev pub turns_of_second : List Turn → ℕ
turns_of_second [] = 0
turns_of_second (first ∷ rest) = turns_of_second rest
turns_of_second (second ∷ rest) = suc (turns_of_second rest)
turns_of_second (third ∷ rest) = turns_of_second rest

abbrev pub turns_of_third : List Turn → ℕ
turns_of_third [] = 0
turns_of_third (first ∷ rest) = turns_of_third rest
turns_of_third (second ∷ rest) = turns_of_third rest
turns_of_third (third ∷ rest) = suc (turns_of_third rest)
