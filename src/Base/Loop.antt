-- ===== src/Base/Loop.antt =====
-- The shape of the program's loops over a slice of pointers: the body may change the element, may
-- change a shared state, and may stop the loop with an error; what was changed before it stays.
use mathlib.Core.Path.{◌≡◌, refl, sym, ap, ◌∙◌}
use mathlib.Core.Logic.{◌↔◌, inl, inr}
use mathlib.Core.Option.{Option, none, some}
use mathlib.Core.List.{List, [], ◌∷◌, ◌++◌}
use Prim.Native.Nat.{ℕ, ◌+◌}
use native.Mathlib.Omega.{arith}
use apigear_cli.Base.Lists.{sum, Elem}
use apigear_cli.Base.Tests.{Option-cases}

module _ {ℓ κ μ} {E : Type ℓ} {A : Type κ} {S : Type μ} where
  abbrev pub went_on : A → Option E × List A × S → Option E × List A × S
  went_on x (e, xs, s) = (e, x ∷ xs, s)

  abbrev pub go_on : (S → Option E × List A × S) → List A → Option E × A × S → Option E × List A × S
  go_on rest xs (some err, x', s') = (some err, x' ∷ xs, s')
  go_on rest xs (none, x', s') = went_on x' (rest s')

  unfoldable pub each : (A → S → Option E × A × S) → List A → S → Option E × List A × S
  each f [] s = (none, [], s)
  each f (x ∷ xs) s = go_on (each f xs) xs (f x s)

  -- After a body without an error the loop goes on.
  pub each-cons :
      (f : A → S → Option E × A × S) (x : A) (xs : List A) (s : S) {x' : A} {s' : S}
      → f x s ≡ (none, x', s')
      → each f (x ∷ xs) s ≡ ((each f xs s').0, x' ∷ (each f xs s').1, (each f xs s').2)
  unfolding each
  each-cons f x xs s h = ap (go_on (each f xs) xs) h

-- A loop that stops at the first error and changes nothing.
module _ {E A : Type 0} where
  unfoldable pub first_error : (A → Option E) → List A → Option E
  first_error f [] = none
  first_error f (x ∷ xs) =
      let rest = first_error f xs in elim (f x) [ some err ↦ some err | none ↦ rest ]

module _ {A : Type 0} where
  abbrev pub All : (A → Type 0) → List A → Type 0
  All P [] = Unit {0}
  All P (x ∷ xs) = P x × All P xs

module _ {E A : Type 0} (f : A → Option E) (P : A → Type 0)
    (each_iff : (x : A) → (f x ≡ none) ↔ P x) where
  -- Such a loop finds no error exactly if no element has one.
  pub first_error-none_iff : (xs : List A) → (first_error f xs ≡ none) ↔ All P xs
  unfolding first_error
  first_error-none_iff [] = (λ _. tt, λ _. refl)
  first_error-none_iff (x ∷ xs) = elim (Option-cases (f x)) [
    | inl e ↦ (
      λ h. ((each_iff x).0 e, (first_error-none_iff xs).0 (ground arith)),
      λ h. ground (arith, (first_error-none_iff xs).1 h.1),
    )
    | inr (err, e) ↦ (λ h. absurd (ground arith), λ h. cc ((each_iff x).1 h.0, e))
  ]

module _ {E S : Type 0} where
  -- `if err != nil { return err }`, and the rest.
  abbrev pub then_do : (S → Option E × S) → Option E × S → Option E × S
  then_do rest (some e, s) = (some e, s)
  then_do rest (none, s) = rest s

  -- A loop whose body may stop it with an error.
  unfoldable pub do_all : {A : Type 0} → (A → S → Option E × S) → List A → S → Option E × S
  do_all body [] s = (none, s)
  do_all body (x ∷ xs) s = then_do (do_all body xs) (body x s)

abbrev pub concat_map : {A B : Type 0} → (A → List B) → List A → List B
concat_map f [] = []
concat_map f (x ∷ xs) = f x ++ concat_map f xs

module _ {E S C : Type 0} (call : C → S → Option E × S) where
  then_do-then_do :
      (f g : S → Option E × S) (r : Option E × S)
      → then_do g (then_do f r) ≡ then_do (λ s. then_do g (f s)) r
  then_do-then_do f g (none, s) = refl
  then_do-then_do f g (some e, s) = refl

  -- The calls of two lists, one after the other.
  pub calls-append :
      (xs ys : List C) (s : S)
      → do_all call (xs ++ ys) s ≡ then_do (do_all call ys) (do_all call xs s)
  unfolding do_all
  calls-append [] ys s = refl
  calls-append (x ∷ xs) ys s =
      ap (λ f. then_do f (call x s)) (λ i s. calls-append xs ys s i)
      ∙ sym (then_do-then_do (do_all call xs) (do_all call ys) (call x s))

  -- `body` makes the calls of `calls`.
  abbrev pub Makes : {A : Type 0} → (A → S → Option E × S) → (A → List C) → Type 0
  Makes {A} body calls = (x : A) → body x ≡ do_all call (calls x)

  pub do_all-Makes :
      {A : Type 0} (body : A → S → Option E × S) (calls : A → List C)
      → Makes body calls
      → Makes (do_all body) (concat_map calls)
  unfolding do_all
  do_all-Makes body calls makes [] = λ i s. (none, s)
  do_all-Makes body calls makes (x ∷ xs) =
      let rest = do_all-Makes body calls makes xs in
      (λ i s. then_do (rest i) (makes x i s))
      ∙ sym (λ i s. calls-append (calls x) (concat_map calls xs) s i)

  pub then-Makes :
      {f g : S → Option E × S} (xs ys : List C)
      → f ≡ do_all call xs
      → g ≡ do_all call ys
      → (λ s. then_do g (f s)) ≡ do_all call (xs ++ ys)
  then-Makes xs ys p q = (λ i s. then_do (q i) (p i s)) ∙ sym (λ i s. calls-append xs ys s i)

  then_none : (r : Option E × S) → then_do (λ s. (none, s)) r ≡ r
  then_none (none, s) = refl
  then_none (some e, s) = refl

  pub one-Makes : (x : C) → call x ≡ do_all call (x ∷ [])
  unfolding do_all
  one-Makes x = sym (λ i s. then_none (call x s) i)

  -- A node, then what comes below it.
  pub node-Makes :
      (x : C) {f : S → Option E × S} (ys : List C)
      → f ≡ do_all call ys
      → (λ s. then_do f (call x s)) ≡ do_all call (x ∷ ys)
  unfolding do_all
  node-Makes x ys p i s = then_do (p i) (call x s)

-- What every body keeps, the loop keeps: a reflexive and transitive relation between the state
-- before and the state after.
module _ {E S : Type 0} (R : S → S → Type 0) (same : (s : S) → R s s)
    (chain : (a b c : S) → R a b → R b c → R a c) where
  pub then_do-keeps :
      (a : S) (rest : S → Option E × S) (r : Option E × S)
      → R a r.1
      → ((s : S) → R s (rest s).1)
      → R a (then_do rest r).1
  then_do-keeps a rest (some e, s) first next = first
  then_do-keeps a rest (none, s) first next = chain a s (rest s).1 first (next s)

  pub do_all-keeps :
      {A : Type 0} (body : A → S → Option E × S) (P : A → Type 0)
      → ((x : A) (s : S) → P x → R s (body x s).1)
      → (xs : List A) → All P xs
      → (s : S) → R s (do_all body xs s).1
  unfolding do_all
  do_all-keeps body P keeps [] all s = same s
  do_all-keeps body P keeps (x ∷ xs) (p, all) s =
      then_do-keeps s (do_all body xs) (body x s) (keeps x s p) (do_all-keeps body P keeps xs all)

pub All-always : {A : Type 0} (P : A → Type 0) → ((x : A) → P x) → (xs : List A) → All P xs
All-always P always [] = tt
All-always P always (x ∷ xs) = (always x, All-always P always xs)

-- On success, the bodies add to a measure of the state what each is worth.
module _ {E S : Type 0} (measure : S → ℕ) where
  abbrev pub Adds : ℕ → S → Option E × S → Type 0
  Adds n s r = r.0 ≡ none → measure r.1 ≡ measure s + n

  pub then_do-Adds :
      (s : S) (m n : ℕ) (rest : S → Option E × S) (r : Option E × S)
      → Adds m s r
      → ((s : S) → Adds n s (rest s))
      → Adds (m + n) s (then_do rest r)
  then_do-Adds s m n rest (some e, s') first next ok = absurd (cc ok)
  then_do-Adds s m n rest (none, s') first next ok = omega (arith, first refl, next s' ok)

  pub do_all-Adds :
      {A : Type 0} (body : A → S → Option E × S) (size : A → ℕ)
      → ((x : A) (s : S) → Adds (size x) s (body x s))
      → (xs : List A) (s : S) → Adds (sum size xs) s (do_all body xs s)
  unfolding do_all sum
  do_all-Adds body size adds [] s ok = omega arith
  do_all-Adds body size adds (x ∷ xs) s ok =
      then_do-Adds s (size x) (sum size xs) (do_all body xs) (body x s) (adds x s)
        (do_all-Adds body size adds xs) ok

pub All-Elem : {A : Type 0} (P : A → Type 0) (xs : List A) {a : A} → All P xs → Elem a xs → P a
All-Elem P [] all at = absurd at
All-Elem P (x ∷ xs) (p, all) (inl e) = rw (← e) p
All-Elem P (x ∷ xs) (p, all) (inr at) = All-Elem P xs all at

pub All-from : {A : Type 0} (P : A → Type 0) (xs : List A) → ((a : A) → Elem a xs → P a) → All P xs
All-from P [] each_has = tt
All-from P (x ∷ xs) each_has = (each_has x (inl refl), All-from P xs (λ a at. each_has a (inr at)))
