-- ===== src/Base/Dict.antt =====
-- Go maps with string keys, as association lists.
use kontroller.Base.Tests.{if◌then◌else◌, is_some}
use kontroller.Base.Lists.{contains}
use Prim.Native.String.{String}
use mathlib.Core.Path.{◌≡◌, refl}
use mathlib.Core.Option.{Option, none, some}
use mathlib.Core.List.{List, [], ◌∷◌}
use native.Mathlib.Omega.{arith}
use text.Mathlib.Text.{◌==◌}
use text.Mathlib.TextEquality.{eq_iff}

abbrev pub Dict {ℓ} : Type ℓ → Type ℓ
Dict V = List (String × V)

module _ {ℓ} {V : Type ℓ} where
  unfoldable pub lookup : (key : String) (dict : Dict V) → Option V
  lookup key [] = none
  lookup key ((at, value) ∷ rest) = if at == key then some value else lookup key rest

  -- An entry of the key is replaced where it stands; a new one comes last.
  unfoldable pub insert : (key : String) (value : V) (dict : Dict V) → Dict V
  insert key value [] = (key, value) ∷ []
  insert key value ((at, old) ∷ rest) =
      if at == key then (key, value) ∷ rest else (at, old) ∷ insert key value rest

  unfoldable pub remove : (key : String) (dict : Dict V) → Dict V
  remove key [] = []
  remove key ((at, value) ∷ rest) =
      let others = remove key rest in if at == key then others else (at, value) ∷ others

  abbrev pub keys : Dict V → List String
  keys [] = []
  keys ((at, value) ∷ rest) = at ∷ keys rest

  abbrev pub values : Dict V → List V
  values [] = []
  values ((at, value) ∷ rest) = value ∷ values rest

  pub lookup-insert :
      (key other : String) (value : V) (dict : Dict V)
      → lookup other (insert key value dict)
        ≡ (if key == other then some value else lookup other dict)
  unfolding lookup insert
  lookup-insert key other value [] = refl
  lookup-insert key other value ((at, old) ∷ rest) =
      let below = lookup-insert key other value rest in
      ground (arith, below, eq_iff at key, eq_iff at other, eq_iff key other)

  pub lookup-remove :
      (key other : String) (dict : Dict V)
      → lookup other (remove key dict) ≡ (if key == other then none else lookup other dict)
  unfolding lookup remove
  lookup-remove key other [] = ground arith
  lookup-remove key other ((at, value) ∷ rest) =
      let below = lookup-remove key other rest in
      ground (arith, below, eq_iff at key, eq_iff at other, eq_iff key other)

  pub lookup-nil : (key : String) → lookup key [] ≡ none
  unfolding lookup
  lookup-nil key = refl

  pub is_some-lookup : (k : String) (m : Dict V) → is_some (lookup k m) ≡ contains (keys m) k
  unfolding lookup
  is_some-lookup k [] = refl
  is_some-lookup k ((j, v) ∷ m) = ground (arith, is_some-lookup k m)

pub ruleset dict_laws = (lookup-insert, lookup-remove, lookup-nil)
