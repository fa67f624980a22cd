-- ===== src/Base/Lists.antt =====
-- Lists measured by native numbers, and membership of strings as the program tests it.
use Prim.Native.Nat.{ℕ, suc, ◌+◌}
use Prim.Native.String.{String}
use mathlib.Core.Path.{◌≡◌, refl, sym}
use mathlib.Core.Bool.{Bool, false, true, false, ◌||◌}
use mathlib.Core.List.{List, [], ◌∷◌, ◌++◌, Memᴰ}
use mathlib.Core.Logic.{◌↔◌, inl, inr, ◌⊎◌, ◌≢◌}
use native.Mathlib.Omega.{arith}
use text.Mathlib.Text.{◌==◌}
use text.Mathlib.TextEquality.{eq_iff}
use kontroller.Base.Tests.{if◌then◌else◌, String-cases, Bool-cases}

module _ {ℓ} {A : Type ℓ} where
  abbrev pub length : List A → ℕ
  length [] = 0
  length (x ∷ xs) = suc (length xs)

  abbrev pub is_empty : List A → Bool
  is_empty [] = true
  is_empty (x ∷ xs) = false

  -- the elements that pass a Boolean test, in order
  abbrev pub keep : (A → Bool) → List A → List A
  keep p [] = []
  keep p (x ∷ xs) = if p x then x ∷ keep p xs else keep p xs

  abbrev pub All {κ} : (A → Type κ) → List A → Type κ
  All P [] = Unit
  All P (x ∷ xs) = P x × All P xs

  pub length-append : (xs ys : List A) → length (xs ++ ys) ≡ length xs + length ys
  length-append [] ys = omega arith
  length-append (x ∷ xs) ys = omega (arith, length-append xs ys)

  pub All-append {κ} : (P : A → Type κ) (xs ys : List A) → All P xs → All P ys → All P (xs ++ ys)
  All-append P [] ys hx hy = hy
  All-append P (x ∷ xs) ys hx hy = (hx.0, All-append P xs ys hx.1 hy)

-- `slices.Contains`
abbrev pub contains : List String → String → Bool
contains [] s = false
contains (x ∷ xs) s = x == s || contains xs s

pub contains-append :
    (xs ys : List String) (s : String) → contains (xs ++ ys) s ≡ (contains xs s || contains ys s)
contains-append [] ys s = refl
contains-append (x ∷ xs) ys s = ground (arith, contains-append xs ys s)

contains→Mem : (xs : List String) (s : String) → contains xs s ≡ true → Memᴰ s xs
contains→Mem [] s h = cc
contains→Mem (x ∷ xs) s h = elim (String-cases x s) [
  | inl e ↦ Memᴰ.head (sym e)
  | inr n ↦ Memᴰ.tail (contains→Mem xs s (ground (arith, eq_iff x s)))
]

Mem→contains : {s : String} {xs : List String} → Memᴰ s xs → contains xs s ≡ true
Mem→contains {s} (Memᴰ.head {x} {xs} e) = ground (arith, eq_iff x s)
Mem→contains {s} (Memᴰ.tail {x} {xs} m) = ground (arith, Mem→contains m)

pub contains_iff : (xs : List String) (s : String) → (contains xs s ≡ true) ↔ Memᴰ s xs
contains_iff xs s = (contains→Mem xs s, Mem→contains)

pub not-contains_iff : (xs : List String) (s : String) → (contains xs s ≡ false) ↔ (¬ Memᴰ s xs)
not-contains_iff xs s = (
  λ h m. cc (h, Mem→contains m),
  λ n. elim (Bool-cases (contains xs s)) [ inl y ↦ absurd (n (contains→Mem xs s y)) | inr e ↦ e ],
)

pub nil-or-not {ℓ} : {A : Type ℓ} (xs : List A) → (xs ≡ []) ⊎ (xs ≢ [])
nil-or-not [] = inl refl
nil-or-not (x ∷ xs) = inr (λ e. cc)

pub mem-cons-cases {ℓ} :
    {A : Type ℓ} {x y : A} {xs : List A} → Memᴰ x (y ∷ xs) → (x ≡ y) ⊎ Memᴰ x xs
mem-cons-cases (Memᴰ.head e) = inl e
mem-cons-cases (Memᴰ.tail m) = inr m
