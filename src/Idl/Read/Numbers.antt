-- ===== src/Idl/Read/Numbers.antt =====
-- The values that listener.go gives to the members of an enum that have none in the text.
use apigear_cli.Base.{
  ℕ, suc, String, Option, none, some, List, [], ◌∷◌, ◌++◌, ◌≡◌, refl, sym, ap, ◌∙◌,
}
use apigear_cli.Base.Int.{ℤ, pos}
use apigear_cli.Model.Data.{Enum, EnumMember, Module, System}
use apigear_cli.Idl.Tree.{EnumMemberTree, EnumTree}
use apigear_cli.Idl.Listener.{Listener, run}
use apigear_cli.Idl.Walk.{enum_events}
use apigear_cli.Idl.Build.{
  cons_option, valued_member, implicit_after, members_of, optional_enum, enum_with,
}
use apigear_cli.Idl.Read.States.{in_module}
use apigear_cli.Idl.Read.Enums.{run-enum, enum_added}

abbrev picked : Option String → ℤ → List ℤ → List ℤ
picked none value values = value ∷ values
picked (some text) value values = values

-- The values of the members that have none in the text.
abbrev pub implicit : List EnumMemberTree → List EnumMember → List ℤ
implicit [] xs = []
implicit (t ∷ ts) [] = []
implicit (t ∷ ts) (x ∷ xs) = picked t.value x.value (implicit ts xs)

-- The numbers from one on, each the number before and one more.
abbrev pub IsCounted : ℕ → List ℤ → Type 0
IsCounted n [] = Unit {0}
IsCounted n (v ∷ vs) = (v ≡ pos n) × IsCounted (suc n) vs

cons_option-some :
    {A : Type 0} (x : Option A) (xs : Option (List A)) {ys : List A}
    → cons_option x xs ≡ some ys
    → (z : A) × (zs : List A) × (x ≡ some z) × (xs ≡ some zs) × (z ∷ zs ≡ ys)
cons_option-some none xs made = absurd (cc made)
cons_option-some (some z) none made = absurd (cc made)
cons_option-some (some z) (some zs) made = (z, zs, refl, refl, cc made)

picked-IsCounted :
    (t : EnumMemberTree) (n : ℕ) (v : Option String) (x : EnumMember) (values : List ℤ)
    → valued_member t n v ≡ some x
    → IsCounted (implicit_after n v) values
    → IsCounted n (picked v x.value values)
picked-IsCounted t n none x values made counted =
    (ap (λ m. elim m [ none ↦ pos n | some y ↦ y.value ]) (sym made), counted)
picked-IsCounted t n (some text) x values made counted = counted

members_of-IsCounted :
    (ts : List EnumMemberTree) (n : ℕ) {xs : List EnumMember}
    → members_of ts n ≡ some xs
    → IsCounted n (implicit ts xs)
members_of-IsCounted [] n made = tt
members_of-IsCounted (t ∷ ts) n made =
    let (z, zs, first, rest, same) =
      cons_option-some (valued_member t n t.value) (members_of ts (implicit_after n t.value))
        made in
    rw (← same) (
      picked-IsCounted t n t.value z (implicit ts zs) first
        (members_of-IsCounted ts (implicit_after n t.value) rest))

module _ (system : System) (next : ℕ) (m : Module) (t : EnumTree) where
  -- The listener after an enum whose members without a value in the text are counted from 0.
  abbrev pub HasCounted : Listener → Type 0
  HasCounted s =
      (e : Enum) × (s ≡ in_module system (suc next) (record m { enums = m.enums ++ (e ∷ []) }))
      × IsCounted 0 (implicit t.members e.members)

  added-HasCounted :
      (members : Option (List EnumMember)) {s : Listener}
      → members_of t.members 0 ≡ members
      → enum_added system (suc next) m (optional_enum next t members) ≡ some s
      → HasCounted s
  added-HasCounted none same made = absurd (cc made)
  added-HasCounted (some xs) same made =
      (enum_with next t xs, cc made, members_of-IsCounted t.members 0 same)

  -- After a walk over an enum that does not panic, the module has one more enum, and those of its members
  -- that have no value in the text have the values 0, 1, 2 and so on, whatever values the others have.
  pub run-enum-HasCounted :
      {s : Listener} → run (enum_events t) (in_module system next m) ≡ some s → HasCounted s
  run-enum-HasCounted made =
      added-HasCounted (members_of t.members 0) refl (sym (run-enum system next m t) ∙ made)
