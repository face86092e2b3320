-- ===== src/Base/Lists.antt =====
-- Lists measured by native numbers, and lists of names as the sets that the program keeps in
-- maps of type map[string]bool.
use Prim.Native.Nat.{ℕ, suc, ◌+◌}
use Prim.Native.String.{String}
use mathlib.Core.Path.{◌≡◌, refl, ap}
use mathlib.Core.Logic.{◌⊎◌, inl, inr}
use mathlib.Core.Bool.{Bool, true, false, ◌||◌}
use mathlib.Core.List.{List, [], ◌∷◌, ◌++◌}
use native.Mathlib.Omega.{arith}
use text.Mathlib.Text.{◌==◌}
use text.Mathlib.TextEquality.{eq_iff}
use text.Mathlib.TextPositions.{eq_refl}
use mathlib.Core.Option.{Option, none, some}
use apigear_cli.Base.Tests.{Bool-cases, if◌then◌else◌}

module _ {ℓ} {A : Type ℓ} where
  abbrev pub length : List A → ℕ
  length [] = 0
  length (x ∷ xs) = suc (length xs)

  pub length-append : (xs ys : List A) → length (xs ++ ys) ≡ length xs + length ys
  length-append [] ys = omega arith
  length-append (x ∷ xs) ys = omega (arith, length-append xs ys)

pub append-cons {ℓ} :
    {A : Type ℓ} (xs : List A) (y : A) (zs : List A) → (xs ++ (y ∷ [])) ++ zs ≡ xs ++ (y ∷ zs)
append-cons [] y zs = refl
append-cons (x ∷ xs) y zs = ap (◌∷◌ x) (append-cons xs y zs)

pub append_assoc {ℓ} : {A : Type ℓ} (xs ys zs : List A) → (xs ++ ys) ++ zs ≡ xs ++ (ys ++ zs)
append_assoc [] ys zs = refl
append_assoc (x ∷ xs) ys zs = ap (◌∷◌ x) (append_assoc xs ys zs)

pub append-nil {ℓ} : {A : Type ℓ} (xs : List A) → xs ++ [] ≡ xs
append-nil [] = refl
append-nil (x ∷ xs) = ap (◌∷◌ x) (append-nil xs)

-- The sum of the sizes of the elements.
unfoldable pub sum {ℓ} : {A : Type ℓ} → (A → ℕ) → List A → ℕ
sum size [] = 0
sum size (x ∷ xs) = size x + sum size xs

-- Membership of a name.
unfoldable pub contains : List String → String → Bool
contains [] value = false
contains (v ∷ list) value = v == value || contains list value

pub contains-append :
    (xs ys : List String) (v : String) → contains (xs ++ ys) v ≡ (contains xs v || contains ys v)
unfolding contains
contains-append [] ys v = refl
contains-append (x ∷ xs) ys v = ground (arith, contains-append xs ys v)

pub contains-cons :
    (x : String) (xs : List String) (v : String) → contains (x ∷ xs) v ≡ (x == v || contains xs v)
unfolding contains
contains-cons x xs v = refl

-- Every name of the second list is in the first.
abbrev pub Includes : List String → List String → Type 0
Includes xs ys = (v : String) → contains ys v ≡ true → contains xs v ≡ true

-- No name of the list is among those already seen, nor occurs twice in the list.
abbrev pub Fresh : List String → List String → Type 0
Fresh seen [] = Unit {0}
Fresh seen (x ∷ xs) = (contains seen x ≡ false) × Fresh (x ∷ seen) xs

pub Includes-trans : (xs ys zs : List String) → Includes xs ys → Includes ys zs → Includes xs zs
Includes-trans xs ys zs p q v h = p v (q v h)

pub contains-head : (x : String) (xs : List String) → contains (x ∷ xs) x ≡ true
unfolding contains
contains-head x xs = ground (arith, eq_refl x)

pub contains-tail :
    (x : String) (xs : List String) (v : String) → contains xs v ≡ true → contains (x ∷ xs) v ≡ true
unfolding contains
contains-tail x xs v h = ground arith

-- A member of a list is its head or a member of its tail.
pub contains-cases :
    (x : String) (xs : List String) (v : String)
    → contains (x ∷ xs) v ≡ true
    → (x ≡ v) ⊎ (contains xs v ≡ true)
unfolding contains
contains-cases x xs v h = elim (Bool-cases (x == v)) [
  | inl e ↦ inl ((eq_iff x v).0 e)
  | inr e ↦ inr (rw e at h)
]

-- Being an element, as a proof that can be taken apart.
abbrev pub Elem : {A : Type 0} → A → List A → Type 0
Elem a [] = ⊥
Elem a (x ∷ xs) = (x ≡ a) ⊎ Elem a xs

-- The first element that passes a test, as a loop with an early return finds it.
module _ {A : Type 0} where
  unfoldable pub find_by : (A → Bool) → List A → Option A
  find_by test [] = none
  find_by test (x ∷ xs) = let rest = find_by test xs in if test x then some x else rest

  pub find_by-some :
      (test : A → Bool) (xs : List A) {x : A}
      → find_by test xs ≡ some x
      → Elem x xs × (test x ≡ true)
  unfolding find_by
  find_by-some test [] found = absurd (ground arith)
  find_by-some test (y ∷ xs) {x} found = elim (Bool-cases (test y)) [
    | inl e ↦ let same : y ≡ x = ground arith in (inl same, rw (← same) e)
    | inr e ↦ let (at, h) = find_by-some test xs (rw e at found) in (inr at, h)
  ]

  -- Where no element is found, none passes the test.
  pub find_by-none :
      (test : A → Bool) (xs : List A)
      → find_by test xs ≡ none
      → (x : A) → Elem x xs
      → test x ≡ false
  unfolding find_by
  find_by-none test [] nothing x at = absurd at
  find_by-none test (y ∷ xs) nothing x at = elim (Bool-cases (test y)) [
    | inl e ↦ absurd (cc (rw e at nothing))
    | inr e ↦ elim at [
      | inl same ↦ rw (← same) e
      | inr later ↦ find_by-none test xs (rw e at nothing) x later
    ]
  ]
