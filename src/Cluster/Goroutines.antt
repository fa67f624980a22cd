-- ===== src/Cluster/Goroutines.antt =====
-- The three goroutines of an `errgroup.Group`, interleaved in any order at their API calls. `Wait`
-- returns when all have returned, with the error of the first one that returned an error.
pub mod Contracts
pub mod Ends
use kontroller.Base.{
  ℕ, zero, suc, ◌+◌, ◌≤◌, String, ◌≡◌, refl, Bool, true, false, Option, none, some, List, [], ◌∷◌,
  arith, ◌⊎◌, inl, inr,
}

-- What is left of a goroutine: it returns an error or nil, or it makes a call, which changes the
-- state, and goes on by the answer, which the state before the call determines.
pub data Goroutine (S : Type 0) : Type 0 where
  returns : Option String → Goroutine S
  calls : (S → S) → (S → Goroutine S) → Goroutine S

pub data Turn : Type 0 where
  first second third : Turn

-- `none` stands for a goroutine that has returned.
pub record Group (S : Type 0) : Type 0 where
  pub one : Option (Goroutine S)
  pub two : Option (Goroutine S)
  pub three : Option (Goroutine S)
  pub error : Option String
  pub store : S

abbrev first_error : Option String → Option String → Option String
first_error (some e) later = some e
first_error none later = later

module _ {S : Type 0} where
  -- what a turn makes of a goroutine, of the group's error and of the state
  unfoldable pub advance :
      Option (Goroutine S) → Option String → S → Option (Goroutine S) × Option String × S
  advance none error s = (none, error, s)
  advance (some (returns e)) error s = (none, first_error error e, s)
  advance (some (calls effect next)) error s = (some (next s), error, effect s)

  unfoldable pub turn : Turn → Group S → Group S
  turn first g =
      let (t, e, s) = advance g.one g.error g.store in record g { one = t; error = e; store = s }
  turn second g =
      let (t, e, s) = advance g.two g.error g.store in record g { two = t; error = e; store = s }
  turn third g =
      let (t, e, s) = advance g.three g.error g.store in
      record g { three = t; error = e; store = s }

  unfoldable pub run : List Turn → Group S → Group S
  run [] g = g
  run (t ∷ rest) g = run rest (turn t g)

  abbrev pub begin : (one two three : Goroutine S) → S → Group S
  begin one two three s = record {
    one = some one;
    two = some two;
    three = some three;
    error = none;
    store = s;
  }

  pub record HasReturned (g : Group S) : Type 0 where
    pub one : g.one ≡ none
    pub two : g.two ≡ none
    pub three : g.three ≡ none

  -- `Ensures Rely Goal t s`: if between its calls the state changes within `Rely` only, `t`
  -- returns an error or leaves a state that satisfies `Goal`.
  abbrev pub Ensures : (S → S → Type 0) → (S → Type 0) → Goroutine S → S → Type 0
  Ensures Rely Goal (returns e) s = (u : S) → Rely s u → e ≡ none → Goal u
  Ensures Rely Goal (calls effect next) s =
      (u : S) → Rely s u → Ensures Rely Goal (next u) (effect u)

  -- Every call of `t` changes the state within `Change`.
  abbrev pub Confined : (S → S → Type 0) → Goroutine S → Type 0
  Confined Change (returns e) = Unit
  Confined Change (calls effect next) = (u : S) → Change u (effect u) × Confined Change (next u)

  -- `t` returns after at most so many turns.
  abbrev pub Within : ℕ → Goroutine S → Type 0
  Within n (returns e) = 1 ≤ n
  Within n (calls effect next) = (m : ℕ) × (suc m ≤ n) × ((u : S) → Within m (next u))

  -- While `Inv` holds, which its calls keep, `t` returns no error.
  abbrev pub Succeeds : (S → Type 0) → Goroutine S → Type 0
  Succeeds Inv (returns e) = e ≡ none
  Succeeds Inv (calls effect next) = (u : S) → Inv u → Inv (effect u) × Succeeds Inv (next u)
