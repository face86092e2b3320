-- ===== src/Model/Validate/Whole/Values.antt =====
-- The values that Enum.Validate gives to the members of an enum.
use apigear_cli.Base.{
  ◌≡◌, refl, ◌∙◌, ap, ℕ, zero, suc, Bool, true, false, Option, none, some, List, [], ◌∷◌, map,
  if◌then◌else◌,
}
use apigear_cli.Base.Lists.{length}
use apigear_cli.Base.Loop.{each}
use apigear_cli.Base.Int.{ℤ, pos}
use apigear_cli.Model.Data.{EnumMember, Enum}
use apigear_cli.Model.Naming.{Fault, checked, each-Accepts}
use apigear_cli.Model.Validate.{
  sound_always, member_message, all_zero, auto_values, numbered, enum_validate,
}
use apigear_cli.Model.Validate.Whole.WellNamed.{Always, sound_always_iff}

-- i, i + 1, ..., n of them.
pub values_from : ℕ → ℕ → List ℤ
values_from i zero = []
values_from i (suc n) = pos i ∷ values_from (suc i) n

map-same : {A : Type 0} (xs : List A) → map (λ x. x) xs ≡ xs
map-same [] = refl
map-same (x ∷ xs) = ap (λ ys. x ∷ ys) (map-same xs)

auto_values-values_from :
    (members : List EnumMember) (i : ℕ)
    → (map (λ m. m.value) (auto_values i members) ≡ values_from i (length members))
      × (map (λ m. m.name) (auto_values i members) ≡ map (λ m. m.name) members)
unfolding auto_values values_from
auto_values-values_from [] i = (refl, refl)
auto_values-values_from (m ∷ members) i =
    let (values, names) = auto_values-values_from members (suc i) in
    (ap (λ vs. pos i ∷ vs) values, ap (λ ns. m.name ∷ ns) names)

-- The names of the first list, and its values, unless all of them are 0: then 0, 1, 2 and so on.
abbrev pub HasValues : List EnumMember → List EnumMember → Type 0
HasValues before after =
    (map (λ m. m.value) after
      ≡ (if all_zero before then values_from 0 (length before) else map (λ m. m.value) before))
    × (map (λ m. m.name) after ≡ map (λ m. m.name) before)

HasValues-same :
    (before before' after : List EnumMember)
    → before ≡ before'
    → HasValues before after
    → HasValues before' after
HasValues-same before before' after same h = rw same at h

numbered-HasValues :
    (f : Option Fault) (e : Enum)
    → (numbered f e).0 ≡ none
    → HasValues e.members (numbered f e).1.members
numbered-HasValues (some fault) e ok = absurd (cc ok)
numbered-HasValues none e ok = chosen (all_zero e.members)
  where
    chosen :
        (b : Bool)
        → (map
              (λ m. m.value)
              (if b then record e { members = auto_values 0 e.members } else e).members
            ≡ (if b then values_from 0 (length e.members) else map (λ m. m.value) e.members))
          × (map
                (λ m. m.name)
                (if b then record e { members = auto_values 0 e.members } else e).members
              ≡ map (λ m. m.name) e.members)
    chosen true = auto_values-values_from e.members 0
    chosen false = (refl, refl)

numbered-fault : (f : Option Fault) (e : Enum) → (numbered f e).0 ≡ none → f ≡ none
numbered-fault none e ok = refl
numbered-fault (some fault) e ok = cc ok

-- If Enum.Validate succeeds, the members keep their names and their order, and their values are 0, 1,
-- 2 and so on if every value was 0, and else what they were.
pub enum_validate-HasValues :
    (e : Enum) → (enum_validate e).0 ≡ none → HasValues e.members (enum_validate e).1.members
unfolding enum_validate
enum_validate-HasValues e ok =
    let a =
      each-Accepts (member_message e.name) (λ m. m.name) (sound_always (λ m. m)) Always (λ m. refl)
        (sound_always_iff (λ m. m)) e.members [] in
    let (fault, members, names) =
      each (checked (member_message e.name) (λ m. m.name) (sound_always (λ m. m))) e.members [] in
    let same : members ≡ e.members =
      (a.sound (numbered-fault fault (record e { members = members }) ok)).1 ∙ map-same e.members in
    HasValues-same members e.members _ same
      (numbered-HasValues fault (record e { members = members }) ok)
