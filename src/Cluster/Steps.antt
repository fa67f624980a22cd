-- ===== src/Cluster/Steps.antt =====
-- A function of the operator that calls the API: it returns, fails or panics, and leaves a state.
-- The rules for what such functions keep and ensure.
use kontroller.Base.{String, ◌≡◌, refl, Option, none, some, Result, ok, err}

pub data Ended {ℓ} (A : Type ℓ) : Type ℓ where
  returned : A → Ended A
  failed : String → Ended A
  panicked : Ended A

abbrev pub Prog {ℓ} : Type 0 → Type ℓ → Type ℓ
Prog S A = S → Ended A × S

abbrev pub ended {ℓ} : {A : Type ℓ} → Result A → Ended A
ended (ok a) = returned a
ended (err e) = failed e

module _ {S : Type 0} where
  abbrev pub after {ℓ κ} : {A : Type ℓ} {B : Type κ} → Ended A × S → (A → Prog S B) → Ended B × S
  after (returned a, s) next = next a s
  after (failed e, s) next = (failed e, s)
  after (panicked, s) next = (panicked, s)

  infixl 5 ◌>>=◌ ◌>>◌
  unfoldable pub ◌>>=◌ {ℓ κ} : {A : Type ℓ} {B : Type κ} → Prog S A → (A → Prog S B) → Prog S B
  ◌>>=◌ m next s = after (m s) next

  abbrev pub ◌>>◌ {ℓ κ} : {A : Type ℓ} {B : Type κ} → Prog S A → Prog S B → Prog S B
  m >> next = m >>= λ _. next

  abbrev pub pure {ℓ} : {A : Type ℓ} → A → Prog S A
  pure a s = (returned a, s)

  abbrev pub fail {ℓ} : {A : Type ℓ} → String → Prog S A
  fail e s = (failed e, s)

  -- a value and an error, computed without a call
  unfoldable pub given {ℓ} : {A : Type ℓ} → Result A → Prog S A
  given r s = (ended r, s)

  -- a call that reads
  unfoldable pub read {ℓ} : {A : Type ℓ} → (S → Result A) → Prog S A
  read f s = (ended (f s), s)

  abbrev pub answer : Option String × S → Ended (Unit {0}) × S
  answer (none, s) = (returned tt, s)
  answer (some e, s) = (failed e, s)

  -- a call that writes
  unfoldable pub call : (S → Option String × S) → Prog S (Unit {0})
  call f s = answer (f s)

  -- `m`, begun in a state that satisfies `Inv` and `Pre`, leaves one that satisfies `Inv` however it
  -- ends, and where it returns a value one that satisfies `Post` of it.
  abbrev pub Holds {ℓ} : {A : Type ℓ} (Inv Pre : S → Type 0) → Prog S A → (A → S → Type 0) → Type ℓ
  Holds {A} Inv Pre m Post =
      (s : S) → Inv s → Pre s → Inv (m s).1 × ((a : A) → (m s).0 ≡ returned a → Post a (m s).1)

  module _ {ℓ κ} {A : Type ℓ} {B : Type κ} (Inv : S → Type 0) where
    Holds-after :
        (Mid : A → S → Type 0) (Post : B → S → Type 0) (next : A → Prog S B)
        → ((a : A) → Holds Inv (Mid a) (next a) Post)
        → (r : Ended A × S) → Inv r.1 × ((a : A) → r.0 ≡ returned a → Mid a r.1)
        → Inv (after r next).1 × ((b : B) → (after r next).0 ≡ returned b → Post b (after r next).1)
    Holds-after Mid Post next rest (returned a, s) h = rest a s h.0 (h.1 a refl)
    Holds-after Mid Post next rest (failed e, s) h = (h.0, λ b p. absurd cc)
    Holds-after Mid Post next rest (panicked, s) h = (h.0, λ b p. absurd cc)

    pub Holds-bind :
        (Pre : S → Type 0) (Mid : A → S → Type 0) (Post : B → S → Type 0) (m : Prog S A)
        (next : A → Prog S B)
        → Holds Inv Pre m Mid
        → ((a : A) → Holds Inv (Mid a) (next a) Post)
        → Holds Inv Pre (m >>= next) Post
    unfolding ◌>>=◌
    Holds-bind Pre Mid Post m next first rest s i p =
        Holds-after Mid Post next rest (m s) (first s i p)

  module _ {κ} {A : Type 0} {B : Type κ} (Inv Pre : S → Type 0) (Post : B → S → Type 0)
      (next : A → Prog S B) where
    -- What computes without a call leaves the state alone.
    pub Holds-still :
        (x : Ended A)
        → ((a : A) → x ≡ returned a → Holds Inv Pre (next a) Post)
        → Holds Inv Pre ((λ s. (x, s)) >>= next) Post
    unfolding ◌>>=◌
    Holds-still (returned a) rest = rest a refl
    Holds-still (failed e) rest = λ s i p. (i, λ b h. absurd cc)
    Holds-still panicked rest = λ s i p. (i, λ b h. absurd cc)

    pub Holds-given :
        (r : Result A)
        → ((a : A) → r ≡ ok a → Holds Inv Pre (next a) Post)
        → Holds Inv Pre (given r >>= next) Post
    unfolding ◌>>=◌ given
    Holds-given (ok a) rest = rest a refl
    Holds-given (err e) rest = λ s i p. (i, λ b h. absurd cc)

    read-after :
        (r : Result A) (s : S)
        → Inv s
        → ((a : A)
            → r ≡ ok a
            → Inv (next a s).1 × ((b : B) → (next a s).0 ≡ returned b → Post b (next a s).1))
        → let x = after (ended r, s) next in Inv x.1 × ((b : B) → x.0 ≡ returned b → Post b x.1)
    read-after (ok a) s i rest = rest a refl
    read-after (err e) s i rest = (i, λ b h. absurd cc)

    pub Holds-read :
        (f : S → Result A)
        → ((a : A) → Holds Inv (λ s. (f s ≡ ok a) × Pre s) (next a) Post)
        → Holds Inv Pre (read f >>= next) Post
    unfolding ◌>>=◌ read
    Holds-read f rest s i p = read-after (f s) s i (λ a e. rest a s i (e, p))

  pub given_ok {ℓ κ} :
      {A : Type ℓ} {B : Type κ} (r : Result A) (a : A) (next : A → Prog S B) (s : S)
      → r ≡ ok a
      → (given r >>= next) s ≡ next a s
  unfolding ◌>>=◌ given
  given_ok r a next s h = rw h refl

  pub >>=_returned {ℓ κ} :
      {A : Type ℓ} {B : Type κ} (m : Prog S A) (a : A) (u : S) (next : A → Prog S B) (s : S)
      → m s ≡ (returned a, u)
      → (m >>= next) s ≡ next a u
  unfolding ◌>>=◌
  >>=_returned m a u next s h = rw h refl

  -- `m` does not panic.
  abbrev pub Ends {ℓ} : {A : Type ℓ} → Prog S A → Type ℓ
  Ends {A} m = (s : S) → (r : Result A) × ((m s).0 ≡ ended r)

  pub call-Ends : (f : S → Option String × S) → Ends (call f)
  unfolding call
  call-Ends f s = answered (f s)
    where
      answered : (r : Option String × S) → (q : Result (Unit {0})) × ((answer r).0 ≡ ended q)
      answered (none, u) = (ok tt, refl)
      answered (some e, u) = (err e, refl)

  module _ {ℓ κ} {A : Type ℓ} {B : Type κ} (next : A → Prog S B)
      (rest : (a : A) → Ends (next a)) where
    after-Ends :
        (x : Ended A × S) (r : Result A)
        → x.0 ≡ ended r
        → (q : Result B) × ((after x next).0 ≡ ended q)
    after-Ends (returned a, s) r h = rest a s
    after-Ends (failed e, s) r h = (err e, refl)
    after-Ends (panicked, s) (ok a) h = absurd cc
    after-Ends (panicked, s) (err e) h = absurd cc

    pub >>=-Ends : (m : Prog S A) → Ends m → Ends (m >>= next)
    unfolding ◌>>=◌
    >>=-Ends m first s = after-Ends (m s) (first s).0 (first s).1
