-- ===== src/Model/Words/Warned.antt =====
-- When CheckReservedWords of pkg/model/system.go logs nothing.
use apigear_cli.Base.{
  String, false, Option, none, some, List, [], ◌∷◌, ◌++◌, ◌≡◌, refl, ◌↔◌, Bool-cases, Option-cases,
  inl, inr,
}
use apigear_cli.Base.Loop.{concat_map, All}
use apigear_cli.Model.Data.{
  TypedNode, Signal, Operation, Interface, Struct, EnumMember, Enum, Module, System,
}
use apigear_cli.Spec.Words.{
  Warning, check_is_reserved, is_keyword_in_langs, is_keyword_reserved_in_lang,
}
use apigear_cli.Model.Words.{
  typed_check_reserved, signal_check_reserved, return_check_reserved, operation_check_reserved,
  interface_check_reserved, struct_check_reserved, member_check_reserved, enum_check_reserved,
  module_check_reserved, system_check_reserved,
}

-- A loop that logs nothing exactly if each of its elements has a property.
abbrev Quiet : {A : Type 0} → (A → List Warning) → (A → Type 0) → Type 0
Quiet {A} f P = (x : A) → (f x ≡ []) ↔ P x

append-nil_iff :
    {P Q : Type 0} (xs ys : List Warning)
    → (xs ≡ []) ↔ P
    → (ys ≡ []) ↔ Q
    → (xs ++ ys ≡ []) ↔ (P × Q)
append-nil_iff [] ys p q = (λ h. (p.0 refl, q.0 h), λ h. q.1 h.1)
append-nil_iff (x ∷ xs) ys p q = (λ h. absurd (cc h), λ h. absurd (cc (p.1 h.0)))

concat_map-Quiet :
    {A : Type 0} (f : A → List Warning) (P : A → Type 0) → Quiet f P → Quiet (concat_map f) (All P)
concat_map-Quiet f P quiet [] = (λ _. tt, λ _. refl)
concat_map-Quiet f P quiet (x ∷ xs) =
    append-nil_iff (f x) (concat_map f xs) (quiet x) (concat_map-Quiet f P quiet xs)

module _ (to_lower : String → String) (langs : List String) where
  -- The name is not a reserved word of any of the languages.
  abbrev pub IsFree : String → Type 0
  IsFree name =
      All (λ lang. is_keyword_reserved_in_lang to_lower lang (to_lower name) ≡ false) langs

  abbrev pub TypedIsFree : TypedNode → Type 0
  TypedIsFree t = IsFree t.name

  abbrev pub ReturnIsFree : Option TypedNode → Type 0
  ReturnIsFree none = Unit {0}
  ReturnIsFree (some t) = TypedIsFree t

  abbrev pub SignalIsFree : Signal → Type 0
  SignalIsFree s = IsFree s.name × All TypedIsFree s.params

  abbrev pub OperationIsFree : Operation → Type 0
  OperationIsFree m = IsFree m.name × (All TypedIsFree m.params × ReturnIsFree m.returns)

  abbrev pub InterfaceIsFree : Interface → Type 0
  InterfaceIsFree i =
      IsFree i.name
      × (All TypedIsFree i.properties
          × (All OperationIsFree i.operations × All SignalIsFree i.signals))

  abbrev pub StructIsFree : Struct → Type 0
  StructIsFree s = IsFree s.name × All TypedIsFree s.fields

  abbrev pub MemberIsFree : EnumMember → Type 0
  MemberIsFree e = IsFree e.name

  abbrev pub EnumIsFree : Enum → Type 0
  EnumIsFree e = IsFree e.name × All MemberIsFree e.members

  abbrev pub ModuleIsFree : Module → Type 0
  ModuleIsFree m =
      IsFree m.name
      × (All InterfaceIsFree m.interfaces × (All StructIsFree m.structs × All EnumIsFree m.enums))

  abbrev pub SystemIsFree : System → Type 0
  SystemIsFree s = IsFree s.name × All ModuleIsFree s.modules

is_keyword_in_langs-none_iff :
    (to_lower : String → String) (langs : List String) (name : String)
    → (is_keyword_in_langs to_lower langs name ≡ none) ↔ IsFree to_lower langs name
unfolding is_keyword_in_langs
is_keyword_in_langs-none_iff to_lower [] name = (λ _. tt, λ _. refl)
is_keyword_in_langs-none_iff to_lower (lang ∷ langs) name =
    let rest = is_keyword_in_langs-none_iff to_lower langs name in
    elim (Bool-cases (is_keyword_reserved_in_lang to_lower lang (to_lower name))) [
      | inl e ↦ (λ h. absurd (cc (rw e at h)), λ h. absurd (cc (h.0, e)))
      | inr e ↦ (λ h. (e, rest.0 (rw e at h)), λ h. rw e (rest.1 h.1))
    ]

module _ (to_lower : String → String) (langs : List String) where
  check-nil_iff :
      (name scope : String)
      → (check_is_reserved to_lower langs name scope ≡ []) ↔ IsFree to_lower langs name
  unfolding check_is_reserved
  check-nil_iff name scope =
      let found = is_keyword_in_langs-none_iff to_lower langs name in
      elim (Option-cases (is_keyword_in_langs to_lower langs name)) [
        | inl e ↦ (λ _. found.0 e, λ _. rw e refl)
        | inr (lang, e) ↦ (λ h. absurd (cc (rw e at h)), λ h. absurd (cc (found.1 h, e)))
      ]

  typed-Quiet : Quiet (typed_check_reserved to_lower langs) (TypedIsFree to_lower langs)
  unfolding typed_check_reserved
  typed-Quiet t = check-nil_iff t.name "type"

  all_typed-Quiet :
      Quiet (concat_map (typed_check_reserved to_lower langs)) (All (TypedIsFree to_lower langs))
  all_typed-Quiet =
      concat_map-Quiet (typed_check_reserved to_lower langs) (TypedIsFree to_lower langs)
        typed-Quiet

  return-Quiet : Quiet (return_check_reserved to_lower langs) (ReturnIsFree to_lower langs)
  return-Quiet none = (λ _. tt, λ _. refl)
  return-Quiet (some t) = typed-Quiet t

  signal-Quiet : Quiet (signal_check_reserved to_lower langs) (SignalIsFree to_lower langs)
  unfolding signal_check_reserved
  signal-Quiet s = append-nil_iff _ _ (check-nil_iff s.name "signal") (all_typed-Quiet s.params)

  operation-Quiet : Quiet (operation_check_reserved to_lower langs) (OperationIsFree to_lower langs)
  unfolding operation_check_reserved
  operation-Quiet m =
      append-nil_iff _ _ (check-nil_iff m.name "operation")
        (append-nil_iff _ _ (all_typed-Quiet m.params) (return-Quiet m.returns))

  interface-Quiet : Quiet (interface_check_reserved to_lower langs) (InterfaceIsFree to_lower langs)
  unfolding interface_check_reserved
  interface-Quiet i = append-nil_iff _ _ (check-nil_iff i.name "interface") (
      append-nil_iff _ _ (all_typed-Quiet i.properties) (
        append-nil_iff _ _ (concat_map-Quiet _ _ operation-Quiet i.operations)
          (concat_map-Quiet _ _ signal-Quiet i.signals)))

  struct-Quiet : Quiet (struct_check_reserved to_lower langs) (StructIsFree to_lower langs)
  unfolding struct_check_reserved
  struct-Quiet s = append-nil_iff _ _ (check-nil_iff s.name "struct") (all_typed-Quiet s.fields)

  member-Quiet : Quiet (member_check_reserved to_lower langs) (MemberIsFree to_lower langs)
  unfolding member_check_reserved
  member-Quiet e = check-nil_iff e.name "enum member"

  enum-Quiet : Quiet (enum_check_reserved to_lower langs) (EnumIsFree to_lower langs)
  unfolding enum_check_reserved
  enum-Quiet e =
      append-nil_iff _ _ (check-nil_iff e.name "enum") (concat_map-Quiet _ _ member-Quiet e.members)

  module-Quiet : Quiet (module_check_reserved to_lower langs) (ModuleIsFree to_lower langs)
  unfolding module_check_reserved
  module-Quiet m = append-nil_iff _ _ (check-nil_iff m.name "module") (
      append-nil_iff _ _ (concat_map-Quiet _ _ interface-Quiet m.interfaces) (
        append-nil_iff _ _ (concat_map-Quiet _ _ struct-Quiet m.structs)
          (concat_map-Quiet _ _ enum-Quiet m.enums)))

  -- CheckReservedWords of a system logs nothing exactly if the names of the system, its modules, their
  -- interfaces, structs and enums, and all parts of these with the parameters and results of operations
  -- and signals, are in none of the languages a reserved word.
  pub system_check_reserved-nil_iff :
      (s : System) → (system_check_reserved to_lower langs s ≡ []) ↔ SystemIsFree to_lower langs s
  unfolding system_check_reserved
  system_check_reserved-nil_iff s =
      append-nil_iff _ _ (check-nil_iff s.name "system")
        (concat_map-Quiet _ _ module-Quiet s.modules)
