-- ===== src/Model/Validate/Whole/Accepts.antt =====
-- When Module.Validate and System.Validate succeed.
use apigear_cli.Base.{
  ◌≡◌, refl, ◌∙◌, ◌↔◌, inl, inr, String, Option, none, some, List, [], ◌∷◌, ◌<>◌, ◌==◌, map,
  Bool-cases, Option-cases,
}
use apigear_cli.Base.Lists.{Fresh}
use apigear_cli.Base.Loop.{All}
use apigear_cli.Model.Data.{Operation, Interface, Extern, Module, System}
use apigear_cli.Model.Naming.{
  Fault, then_each-field, Fresh-append, onto, Accepts, then_each-Accepts,
}
use apigear_cli.Model.Checksum.{
  append_text, operation_text, interface_text, texts_or_panic, module_text,
}
use apigear_cli.Model.Validate.{
  sound_always, module_message, operation_validate, interface_validate, struct_validate,
  enum_validate,
}
use apigear_cli.Model.Validate.Whole.{summed, with_version, elements_validate, module_validate}
use apigear_cli.Model.Validate.Whole.WellNamed.{
  InterfaceIsNamed, StructIsNamed, EnumIsNamed, ModuleIsNamed, Always, All-Always, sound_always_iff,
  interface_validate-none_iff, interface_validate-done, interface_validate-name,
  struct_validate-none_iff, struct_validate-name, enum_validate-none_iff, enum_validate-name,
}

abbrev Text : Option String → Type 0
Text o = (t : String) × (o ≡ some t)

append_text-Text : (s t : Option String) → Text s → Text t → Text (append_text s t)
append_text-Text s t (a, p) (b, q) = rw (p, q) (a <> b, refl)

texts_or_panic-Text :
    {A : Type 0} (text : A → Option String) (P : A → Type 0)
    (defined : (x : A) → P x → Text (text x)) (xs : List A)
    → All P xs
    → Text (texts_or_panic text xs)
unfolding texts_or_panic
texts_or_panic-Text text P defined [] all = ("", refl)
texts_or_panic-Text text P defined (x ∷ xs) (p, all) =
    append_text-Text _ _ (defined x p) (texts_or_panic-Text text P defined xs all)

All-map :
    {A B : Type 0} (f : A → B) (P : B → Type 0) (xs : List A)
    → All (λ x. P (f x)) xs
    → All P (map f xs)
All-map f P [] all = tt
All-map f P (x ∷ xs) (p, all) = (p, All-map f P xs all)

module _ (sys : Option System) (m : Module) where
  operation_validate-Text : (o : Operation) → Text (operation_text (operation_validate sys m o))
  unfolding operation_text operation_validate
  operation_validate-Text o = elim (Option-cases o.returns) [
    | inl e ↦ rw e (_, refl)
    | inr (r, e) ↦ rw e (_, refl)
  ]

  operations-Text :
      (os : List Operation)
      → Text (texts_or_panic operation_text (map (operation_validate sys m) os))
  unfolding texts_or_panic
  operations-Text [] = ("", refl)
  operations-Text (o ∷ os) = append_text-Text _ _ (operation_validate-Text o) (operations-Text os)

  interface_validate-Text :
      (i : Interface) → InterfaceIsNamed i → Text (interface_text (interface_validate sys m i).1)
  unfolding interface_text
  interface_validate-Text i named =
      rw (interface_validate-done sys m i ((interface_validate-none_iff sys m i).1 named)) (
        append_text-Text _ _ (i.name, refl)
          (append_text-Text _ _ (operations-Text i.operations) (_, refl)))

  interfaces-Text :
      (is : List Interface)
      → All InterfaceIsNamed is
      → Text (texts_or_panic interface_text (map (λ i. (interface_validate sys m i).1) is))
  unfolding texts_or_panic
  interfaces-Text [] all = ("", refl)
  interfaces-Text (i ∷ is) (p, all) =
      append_text-Text _ _ (interface_validate-Text i p) (interfaces-Text is all)

  -- What a success makes of the module, but for its checksum.
  abbrev elements_validated : Module
  elements_validated = record m {
    externs = map (λ x. x) m.externs;
    interfaces = map (λ i. (interface_validate sys m i).1) m.interfaces;
    structs = map (λ s. (struct_validate sys m s).1) m.structs;
    enums = map (λ e. (enum_validate e).1) m.enums;
  }

  abbrev seen1 : List String
  seen1 = onto (map (λ x. x.name) m.externs) []

  abbrev seen2 : List String
  seen2 = onto (map (λ i. i.name) m.interfaces) seen1

  abbrev seen3 : List String
  seen3 = onto (map (λ s. s.name) m.structs) seen2

  abbrev Loops : Type 0
  Loops =
      (((Unit {0} × (All Always m.externs × Fresh [] (map (λ x. x.name) m.externs)))
          × (All InterfaceIsNamed m.interfaces × Fresh seen1 (map (λ i. i.name) m.interfaces)))
        × (All StructIsNamed m.structs × Fresh seen2 (map (λ s. s.name) m.structs)))
      × (All EnumIsNamed m.enums × Fresh seen3 (map (λ e. e.name) m.enums))

  elements_validate-Accepts :
      Accepts
        (elements_validate sys m)
        Loops
        elements_validated
        (onto (map (λ e. e.name) m.enums) seen3)
  unfolding elements_validate
  elements_validate-Accepts =
      let message = module_message m.name in
      let start : Accepts (none, m, []) (Unit {0}) m [] = record {
        sound = λ _. (tt, refl, refl);
        complete = λ _. refl;
      } in
      let externs =
        then_each-Accepts message (λ (x : Extern). x.name) (sound_always (λ x. x)) Always
          (λ x. refl) (sound_always_iff (λ x. x)) (λ m. m.externs)
          (λ xs m. record m { externs = xs }) _ start in
      let interfaces =
        then_each-Accepts message (λ i. i.name) (interface_validate sys m) InterfaceIsNamed
          (interface_validate-name sys m) (interface_validate-none_iff sys m) (λ m. m.interfaces)
          (λ is m. record m { interfaces = is }) _ externs in
      let structs =
        then_each-Accepts message (λ s. s.name) (struct_validate sys m) StructIsNamed
          (struct_validate-name sys m) (struct_validate-none_iff sys m) (λ m. m.structs)
          (λ ss m. record m { structs = ss }) _ interfaces in
      then_each-Accepts message (λ e. e.name) enum_validate EnumIsNamed enum_validate-name
        enum_validate-none_iff (λ m. m.enums) (λ es m. record m { enums = es }) _ structs

  Loops-iff_named : Loops ↔ ModuleIsNamed m
  Loops-iff_named =
      let a = Fresh-append [] (map (λ x. x.name) m.externs) _ in
      let b = Fresh-append seen1 (map (λ i. i.name) m.interfaces) _ in
      let c = Fresh-append seen2 (map (λ s. s.name) m.structs) (map (λ e. e.name) m.enums) in
      (
        λ l. record {
          interfaces = l.0.0.1.0;
          structs = l.0.1.0;
          enums = l.1.0;
          elements = a.1 (l.0.0.0.1.1, b.1 (l.0.0.1.1, c.1 (l.0.1.1, l.1.1)));
        },
        λ n.
            let f = a.0 n.elements in
            let g = b.0 f.1 in
            let h = c.0 g.1 in
            ((((tt, (All-Always _, f.0)), (n.interfaces, g.0)), (n.structs, h.0)), (n.enums, h.1)),
      )

ModuleIsNamed-with_version : (m : Module) → ModuleIsNamed (with_version m) ↔ ModuleIsNamed m
ModuleIsNamed-with_version m = elim (Bool-cases (m.version == "")) [
  | inl e ↦ rw e (
    (λ n. record {
      interfaces = n.interfaces;
      structs = n.structs;
      enums = n.enums;
      elements = n.elements;
    }),
    (λ n. record {
      interfaces = n.interfaces;
      structs = n.structs;
      enums = n.enums;
      elements = n.elements;
    }),
  )
  | inr e ↦ rw e ((λ n. n), (λ n. n))
]

module _ (digest : String → String) where
  summed-none_iff :
      (f : Option Fault) (t : Option String) (m : Module)
      → (f ≡ none → Text t)
      → ((summed digest f t m).0 ≡ none) ↔ (f ≡ none)
  summed-none_iff (some fault) t m defined = ((λ h. h), (λ h. h))
  summed-none_iff none none m defined = absurd (cc (defined refl).1)
  summed-none_iff none (some t) m defined = ((λ h. refl), (λ h. refl))

  -- Module.Validate returns no error and does not panic exactly if the names of the elements of all
  -- four kinds differ, and in each interface, struct and enum those of its parts.
  pub module_validate-none_iff :
      (sys : Option System) (m : Module)
      → ((module_validate digest sys m).0 ≡ none) ↔ ModuleIsNamed m
  unfolding module_validate module_text
  module_validate-none_iff sys m =
      let m' = with_version m in
      let a = elements_validate-Accepts sys m' in
      let text : (elements_validate sys m').0 ≡ none
          → Text (module_text (elements_validate sys m').1) =
        λ h.
          let (l, same, seen) = a.sound h in
          rw same (
            append_text-Text _ _ (m'.name, refl)
              (append_text-Text _ _ (interfaces-Text sys m' m'.interfaces l.0.0.1.0) (_, refl))) in
      let iff = summed-none_iff (elements_validate sys m').0 _ (elements_validate sys m').1 text in
      let v = ModuleIsNamed-with_version m in
      (
        λ h. v.0 ((Loops-iff_named sys m').0 (a.sound (iff.0 h)).0),
        λ n. iff.1 (a.complete ((Loops-iff_named sys m').1 (v.1 n))),
      )

  summed-name :
      (f : Option Fault) (t : Option String) (m : Module) → (summed digest f t m).1.name ≡ m.name
  summed-name (some fault) t m = refl
  summed-name none none m = refl
  summed-name none (some t) m = refl

  with_version-name : (m : Module) → (with_version m).name ≡ m.name
  with_version-name m = elim (Bool-cases (m.version == "")) [ inl e ↦ rw e | inr e ↦ rw e ]

  pub module_validate-name :
      (sys : Option System) (m : Module) → (module_validate digest sys m).1.name ≡ m.name
  unfolding module_validate elements_validate
  module_validate-name sys m =
      summed-name _ _ _
      ∙ then_each-field {M = Module} (λ m. m.enums) (λ es m. record m { enums = es }) _
          (λ m. m.name) (λ es m. refl) _
      ∙ then_each-field {M = Module} (λ m. m.structs) (λ ss m. record m { structs = ss }) _
          (λ m. m.name) (λ ss m. refl) _
      ∙ then_each-field {M = Module} (λ m. m.interfaces) (λ is m. record m { interfaces = is }) _
          (λ m. m.name) (λ is m. refl) _
      ∙ then_each-field {M = Module} (λ m. m.externs) (λ xs m. record m { externs = xs }) _
          (λ m. m.name) (λ xs m. refl) _
      ∙ with_version-name m

  summed-checksum :
      (f : Option Fault) (t : Option String) (m : Module)
      → (summed digest f t m).0 ≡ none
      → (u : String) × ((summed digest f t m).1.checksum ≡ digest u)
  summed-checksum (some fault) t m ok = absurd (cc ok)
  summed-checksum none none m ok = absurd (cc ok)
  summed-checksum none (some t) m ok = (t, refl)

  -- A success sets a digest as the checksum.
  pub module_validate-checksum :
      (sys : Option System) (m : Module)
      → (module_validate digest sys m).0 ≡ none
      → (u : String) × ((module_validate digest sys m).1.checksum ≡ digest u)
  unfolding module_validate
  module_validate-checksum sys m ok = summed-checksum _ _ _ ok
