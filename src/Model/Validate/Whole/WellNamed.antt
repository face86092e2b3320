-- ===== src/Model/Validate/Whole/WellNamed.antt =====
-- What Validate checks of the names: where a name may not occur twice. And what it makes of the
-- members, the structs and the enums.
use apigear_cli.Base.{
  ◌≡◌, refl, sym, ◌∙◌, ◌↔◌, inl, inr, String, Option, none, some, List, [], ◌∷◌, ◌++◌, map,
  Bool-cases,
}
use apigear_cli.Base.Lists.{Fresh}
use apigear_cli.Base.Loop.{All, each}
use apigear_cli.Model.Data.{TypedNode, Signal, Operation, Interface, Struct, Enum, Module, System}
use apigear_cli.Model.Naming.{
  Fault, checked, then_each-field, Fresh-append, onto, Accepts, each-Accepts, then_each-Accepts,
}
use apigear_cli.Model.Resolve.{typed_validate}
use apigear_cli.Model.Validate.{
  sound_always, member_message, extends_validate, operation_validate, signal_validate,
  interface_loops, interface_validate, struct_validate, enum_validate, numbered, all_zero,
}

abbrev pub interface_names : Interface → List String
interface_names i =
    map (λ p. p.name) i.properties
    ++ (map (λ o. o.name) i.operations ++ map (λ s. s.name) i.signals)

abbrev pub module_names : Module → List String
module_names m =
    map (λ x. x.name) m.externs
    ++ (map (λ i. i.name) m.interfaces
        ++ (map (λ s. s.name) m.structs ++ map (λ e. e.name) m.enums))

-- The names of an interface's members, of a struct's fields and of an enum's members differ.
abbrev pub InterfaceIsNamed : Interface → Type 0
InterfaceIsNamed i = Fresh [] (interface_names i)

abbrev pub StructIsNamed : Struct → Type 0
StructIsNamed s = Fresh [] (map (λ f. f.name) s.fields)

abbrev pub EnumIsNamed : Enum → Type 0
EnumIsNamed e = Fresh [] (map (λ m. m.name) e.members)

-- So do those of a module's elements of all four kinds together.
pub record ModuleIsNamed (m : Module) : Type 0 where
  pub interfaces : All InterfaceIsNamed m.interfaces
  pub structs : All StructIsNamed m.structs
  pub enums : All EnumIsNamed m.enums
  pub elements : Fresh [] (module_names m)

-- And those of a system's modules.
pub record SystemIsNamed (s : System) : Type 0 where
  pub modules : All ModuleIsNamed s.modules
  pub distinct : Fresh [] (map (λ m. m.name) s.modules)

Fresh-append3 :
    (xs ys zs : List String)
    → Fresh [] (xs ++ (ys ++ zs))
      ↔ (Fresh [] xs × Fresh (onto xs []) ys × Fresh (onto ys (onto xs [])) zs)
Fresh-append3 xs ys zs =
    let a = Fresh-append [] xs (ys ++ zs) in
    let b = Fresh-append (onto xs []) ys zs in
    (λ h. ((a.0 h).0, (b.0 (a.0 h).1).0, (b.0 (a.0 h).1).1), λ h. a.1 (h.0, b.1 (h.1, h.2)))

abbrev pub Always : {A : Type 0} → A → Type 0
Always x = Unit {0}

pub All-Always : {A : Type 0} (xs : List A) → All Always xs
All-Always [] = tt
All-Always (x ∷ xs) = (tt, All-Always xs)

pub sound_always_iff : {A : Type 0} (f : A → A) (x : A) → ((sound_always f x).0 ≡ none) ↔ Always x
sound_always_iff f x = (λ _. tt, λ _. refl)

module _ (sys : Option System) (mod_ : Module) where
  -- What a success makes of an interface.
  abbrev pub interface_validated : Interface → Interface
  interface_validated i = record i {
    extends = extends_validate sys mod_ i.extends;
    properties = map (typed_validate sys mod_) i.properties;
    operations = map (operation_validate sys mod_) i.operations;
    signals = map (signal_validate sys mod_) i.signals;
  }

  typed_validate-name : (t : TypedNode) → (typed_validate sys mod_ t).name ≡ t.name
  unfolding typed_validate
  typed_validate-name t = refl

  operation_validate-name : (o : Operation) → (operation_validate sys mod_ o).name ≡ o.name
  unfolding operation_validate
  operation_validate-name o = refl

  signal_validate-name : (s : Signal) → (signal_validate sys mod_ s).name ≡ s.name
  unfolding signal_validate
  signal_validate-name s = refl

  interface_loops-Accepts :
      (i : Interface)
      → Accepts
          (interface_loops sys mod_ i)
          (((Unit {0} × (All Always i.properties × Fresh [] (map (λ p. p.name) i.properties)))
              × (All Always i.operations
                  × Fresh
                      (onto (map (λ p. p.name) i.properties) [])
                      (map (λ o. o.name) i.operations)))
            × (All Always i.signals
                × Fresh
                    (onto
                      (map (λ o. o.name) i.operations)
                      (onto (map (λ p. p.name) i.properties) []))
                    (map (λ s. s.name) i.signals)))
          (interface_validated i)
          (onto
            (map (λ s. s.name) i.signals)
            (onto (map (λ o. o.name) i.operations) (onto (map (λ p. p.name) i.properties) [])))
  unfolding interface_loops
  interface_loops-Accepts i =
      let message = member_message i.name in
      let start : Accepts (none, record i { extends = extends_validate sys mod_ i.extends }, [])
          (Unit {0}) (record i { extends = extends_validate sys mod_ i.extends }) [] =
        record { sound = λ _. (tt, refl, refl); complete = λ _. refl } in
      let properties =
        then_each-Accepts message (λ p. p.name) (sound_always (typed_validate sys mod_)) Always
          typed_validate-name (sound_always_iff (typed_validate sys mod_)) (λ i. i.properties)
          (λ ps i. record i { properties = ps }) _ start in
      let operations =
        then_each-Accepts message (λ o. o.name) (sound_always (operation_validate sys mod_)) Always
          operation_validate-name (sound_always_iff (operation_validate sys mod_))
          (λ i. i.operations) (λ os i. record i { operations = os }) _ properties in
      then_each-Accepts message (λ s. s.name) (sound_always (signal_validate sys mod_)) Always
        signal_validate-name (sound_always_iff (signal_validate sys mod_)) (λ i. i.signals)
        (λ ss i. record i { signals = ss }) _ operations

  -- Interface.Validate succeeds exactly if the names of the interface's properties, operations and
  -- signals differ.
  pub interface_validate-none_iff :
      (i : Interface) → ((interface_validate sys mod_ i).0 ≡ none) ↔ InterfaceIsNamed i
  unfolding interface_validate
  interface_validate-none_iff i =
      let a = interface_loops-Accepts i in
      let split =
        Fresh-append3 (map (λ p. p.name) i.properties) (map (λ o. o.name) i.operations)
          (map (λ s. s.name) i.signals) in
      (
        λ h. let p = (a.sound h).0 in split.1 (p.0.0.1.1, p.0.1.1, p.1.1),
        λ h.
            let f = split.0 h in
            a.complete (((tt, (All-Always _, f.0)), (All-Always _, f.1)), (All-Always _, f.2)),
      )

  -- If Interface.Validate succeeds, it has looked up the interface that is extended, and validated every
  -- property, operation and signal, in order.
  pub interface_validate-done :
      (i : Interface)
      → (interface_validate sys mod_ i).0 ≡ none
      → (interface_validate sys mod_ i).1 ≡ interface_validated i
  unfolding interface_validate
  interface_validate-done i h = ((interface_loops-Accepts i).sound h).1

  pub interface_validate-name : (i : Interface) → (interface_validate sys mod_ i).1.name ≡ i.name
  unfolding interface_validate interface_loops
  interface_validate-name i =
      then_each-field {M = Interface} (λ i. i.signals) (λ ss i. record i { signals = ss }) _
        (λ i. i.name) (λ ss i. refl) _
      ∙ then_each-field {M = Interface} (λ i. i.operations) (λ os i. record i { operations = os }) _
          (λ i. i.name) (λ os i. refl) _
      ∙ then_each-field {M = Interface} (λ i. i.properties) (λ ps i. record i { properties = ps }) _
          (λ i. i.name) (λ ps i. refl) _

  -- Struct.Validate succeeds exactly if the names of the struct's fields differ.
  pub struct_validate-none_iff :
      (s : Struct) → ((struct_validate sys mod_ s).0 ≡ none) ↔ StructIsNamed s
  unfolding struct_validate
  struct_validate-none_iff s =
      let a =
        each-Accepts (member_message s.name) (λ f. f.name) (sound_always (typed_validate sys mod_))
          Always typed_validate-name (sound_always_iff (typed_validate sys mod_)) s.fields [] in
      (λ h. (a.sound h).0.1, λ h. a.complete (All-Always _, h))

  pub struct_validate-name : (s : Struct) → (struct_validate sys mod_ s).1.name ≡ s.name
  unfolding struct_validate
  struct_validate-name s = refl

numbered-fault : (f : Option Fault) (e : Enum) → (numbered f e).0 ≡ f
numbered-fault none e = refl
numbered-fault (some fault) e = refl

-- Enum.Validate succeeds exactly if the names of the enum's members differ.
pub enum_validate-none_iff : (e : Enum) → ((enum_validate e).0 ≡ none) ↔ EnumIsNamed e
unfolding enum_validate
enum_validate-none_iff e =
    let a =
      each-Accepts (member_message e.name) (λ m. m.name) (sound_always (λ m. m)) Always (λ m. refl)
        (sound_always_iff (λ m. m)) e.members [] in
    (
      λ h. (a.sound (sym (numbered-fault _ _) ∙ h)).0.1,
      λ h. numbered-fault _ _ ∙ a.complete (All-Always _, h),
    )

numbered-name : (f : Option Fault) (e : Enum) → (numbered f e).1.name ≡ e.name
numbered-name none e = elim (Bool-cases (all_zero e.members)) [ inl h ↦ rw h | inr h ↦ rw h ]
numbered-name (some fault) e = refl

pub enum_validate-name : (e : Enum) → (enum_validate e).1.name ≡ e.name
unfolding enum_validate
enum_validate-name e =
    let (fault, members, names) =
      each (checked (member_message e.name) (λ m. m.name) (sound_always (λ m. m))) e.members [] in
    numbered-name fault (record e { members = members })
