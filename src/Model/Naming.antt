-- ===== src/Model/Naming.antt =====
-- The loops of the Validate methods: each validates every element of a slice in turn, and stops at
-- the first error or the first name that the map `names` has already. The map is the list of its
-- names.
use apigear_cli.Base.{
  ◌≡◌, refl, ◌↔◌, inl, inr, String, false, Option, none, some, List, [], ◌∷◌, ◌++◌, ◌<>◌, map, ap,
  arith, if◌then◌else◌, Bool-cases, Option-cases,
}
use apigear_cli.Base.Lists.{contains, Fresh}
use apigear_cli.Base.Loop.{each, each-cons, All}

-- What a Validate method may end with: an error value, or a panic.
pub data Fault : Type 0 where
  error : String → Fault
  nil_dereference : Fault

-- The loop's body for one element: its validation, then the check and the record of its name.
unfoldable pub checked :
    {A : Type 0}
    → String
    → (A → String)
    → (A → Option Fault × A)
    → A
    → List String
    → Option Fault × A × List String
checked message name validate x names =
    let (e, x') = validate x in
    elim e [
      | some fault ↦ (some fault, x', names)
      | none ↦
          if contains names (name x')
          then (some (error (message <> name x')), x', names)
          else (none, x', name x' ∷ names)
    ]

-- The same loop over a slice that is a field of `m`, after a loop that may have failed.
unfoldable pub then_each :
    {M A : Type 0}
    → (M → List A)
    → (List A → M → M)
    → (A → List String → Option Fault × A × List String)
    → Option Fault × M × List String
    → Option Fault × M × List String
unfolding each
then_each get put body (some fault, m, names) = (some fault, m, names)
then_each get put body (none, m, names) =
    let (e, xs, names') = each body (get m) names in (e, put xs m, names')

-- What the loop's slice is not, the loop leaves as it is.
pub then_each-field :
    {M A B : Type 0} (get : M → List A) (put : List A → M → M)
    (body : A → List String → Option Fault × A × List String) (field : M → B)
    (put_keeps : (xs : List A) (m : M) → field (put xs m) ≡ field m)
    (r : Option Fault × M × List String)
    → field (then_each get put body r).1 ≡ field r.1
unfolding then_each
then_each-field get put body field put_keeps (some fault, m, names) = refl
then_each-field get put body field put_keeps (none, m, names) = put_keeps _ m

-- The names of a list, put before those already seen, the last one first.
abbrev pub onto : List String → List String → List String
onto [] names = names
onto (x ∷ xs) names = onto xs (x ∷ names)

pub Fresh-append :
    (names xs ys : List String)
    → Fresh names (xs ++ ys) ↔ (Fresh names xs × Fresh (onto xs names) ys)
Fresh-append names [] ys = (λ h. (tt, h), λ h. h.1)
Fresh-append names (x ∷ xs) ys =
    let ih = Fresh-append (x ∷ names) xs ys in
    (λ h. ((h.0, (ih.0 h.1).0), (ih.0 h.1).1), λ h. (h.0.0, ih.1 (h.0.1, h.1)))

-- A loop's answer: it succeeds exactly under `P`, and then with the value and the names given.
pub record Accepts {M : Type 0} (r : Option Fault × M × List String) (P : Type 0) (m : M)
    (names : List String) : Type 0 where
  pub sound : r.0 ≡ none → P × (r.1 ≡ m) × (r.2 ≡ names)
  pub complete : P → r.0 ≡ none

module _ {A : Type 0} (message : String) (name : A → String) (validate : A → Option Fault × A)
    (V : A → Type 0) (keeps : (x : A) → name (validate x).1 ≡ name x)
    (valid_iff : (x : A) → ((validate x).0 ≡ none) ↔ V x) where
  abbrev validated : List A → List A
  validated = map (λ x. (validate x).1)

  -- The body succeeds exactly if the element is valid and its name is new.
  checked-Accepts :
      (x : A) (names : List String)
      → Accepts
          (checked message name validate x names)
          (V x × (contains names (name x) ≡ false))
          (validate x).1
          (name x ∷ names)
  unfolding checked
  checked-Accepts x names = elim (Option-cases (validate x).0) [
    | inr (fault, e) ↦ record {
      sound = λ h. absurd (ground arith);
      complete = λ h. cc ((valid_iff x).1 h.0, e);
    }
    | inl e ↦ elim (Bool-cases (contains names (name (validate x).1))) [
      | inl old ↦ record {
        sound = λ h. absurd (ground arith);
        complete = λ h. cc (h.1, rw (keeps x) at old);
      }
      | inr new ↦ record {
        sound =
            λ h. (((valid_iff x).0 e, rw (keeps x) at new), ground arith, ground (arith, keeps x));
        complete = λ h. ground arith;
      }
    ]
  ]

  -- So does the loop for all of its elements, and it leaves each validated, in order.
  pub each-Accepts :
      (xs : List A) (names : List String)
      → Accepts
          (each (checked message name validate) xs names)
          (All V xs × Fresh names (map name xs))
          (validated xs)
          (onto (map name xs) names)
  each-Accepts [] names =
      unfold each in record { sound = λ _. ((tt, tt), refl, refl); complete = λ _. refl }
  each-Accepts (x ∷ xs) names =
      let one = checked-Accepts x names in
      elim (Option-cases (checked message name validate x names).0) [
        | inr (fault, e) ↦
            unfold each in
            record {
              sound = λ h. absurd (ground arith);
              complete = λ h. cc (one.complete (h.0.0, h.1.0), e);
            }
        | inl e ↦
            let (p, same, seen) = one.sound e in
            let rest = each-Accepts xs (name x ∷ names) in
            rw (each-cons (checked message name validate) x xs names (λ i. (e i, same i, seen i)))
              (record {
                sound = λ h.
                    let (q, ys, ns) = rest.sound h in
                    (((p.0, q.0), (p.1, q.1)), ap (λ zs. (validate x).1 ∷ zs) ys, ns);
                complete = λ h. rest.complete (h.0.1, h.1.1);
              })
      ]

  -- A further loop, after loops that succeed exactly under `P`.
  pub then_each-Accepts :
      {M : Type 0} (get : M → List A) (put : List A → M → M) (r : Option Fault × M × List String)
      {P : Type 0} {m : M} {names : List String}
      → Accepts r P m names
      → Accepts
          (then_each get put (checked message name validate) r)
          (P × (All V (get m) × Fresh names (map name (get m))))
          (put (validated (get m)) m)
          (onto (map name (get m)) names)
  unfolding then_each
  then_each-Accepts get put (some fault, m', names') a = record {
    sound = λ h. cc h;
    complete = λ h. cc (a.complete h.0);
  }
  then_each-Accepts get put (none, m', names') {m} {names} a = record {
    sound = λ h.
        let (p, same, seen) = a.sound refl in
        let loop = each-Accepts (get m) names in
        let (q, xs, ns) = loop.sound (rw (← same, ← seen) h) in
        ((p, q), rw (same, seen) (rw xs), rw (same, seen) ns);
    complete = λ h.
        let (p, same, seen) = a.sound refl in
        let loop = each-Accepts (get m) names in rw (same, seen) (loop.complete h.1);
  }
