-- ===== src/Model/Validate.antt =====
-- The Validate methods of iface.go, struct.go and enum.go; those of module.go and system.go are in
-- Whole. Each returns the
-- fault that it ends with, and the object as it leaves it. Lookups read only names and addresses,
-- which no Validate changes, so `mod` and `sys` may be the module and the system as they were when
-- the loops began.
pub mod Whole
use apigear_cli.Base.{
  ◌≡◌, refl, ℕ, suc, String, Bool, true, false, Option, none, some, List, [], ◌∷◌, ◌==◌, ◌<>◌, ◌&&◌,
  map, if◌then◌else◌,
}
use apigear_cli.Base.Lists.{contains, length}
use apigear_cli.Base.Loop.{each}
use apigear_cli.Base.Int.{ℤ, pos, is_zero}
use apigear_cli.Model.Data.{
  TypedNode, Signal, Operation, Extends, Interface, Struct, EnumMember, Enum, Extern, Module,
  System, new_typed_node, return_,
}
use apigear_cli.Model.Lookup.{lookup_interface}
use apigear_cli.Model.Resolve.{typed_validate}
use apigear_cli.Model.Naming.{Fault, error, nil_dereference, checked, then_each}

abbrev pub sound_always : {A : Type 0} → (A → A) → A → Option Fault × A
sound_always validate x = (none, validate x)

-- The messages that begin with the owner's name.
abbrev pub member_message : String → String
member_message owner = owner <> ": duplicate name: "

abbrev pub module_message : String → String
module_message owner = owner <> ": duplicate name "

module _ (sys : Option System) (mod_ : Module) where
  -- Signal.Validate. The error that it returns is always nil.
  unfoldable pub signal_validate : Signal → Signal
  signal_validate s = record s { params = map (typed_validate sys mod_) s.params }

  -- Operation.Validate. The error that it returns is always nil.
  unfoldable pub operation_validate : Operation → Operation
  operation_validate o = record o {
    params = map (typed_validate sys mod_) o.params;
    returns = elim o.returns [
      | none ↦ some (typed_validate sys mod_ (new_typed_node "" return_))
      | some r ↦ some (typed_validate sys mod_ r)
    ];
  }

  abbrev pub refer : Option Interface → Extends → Extends
  refer none e = e
  refer (some i) e = record e { reference = some i.addr }

  -- The first part of Interface.Validate. An interface that is not found is only logged.
  abbrev pub extends_validate : Extends → Extends
  extends_validate e =
      if e.name == ""
      then e
      else let import_ = if e.import_ == "" then mod_.name else e.import_ in
        refer (lookup_interface sys mod_ import_ e.name) (record e { import_ = import_ })

  -- The three loops of Interface.Validate, which share the map of names.
  unfoldable pub interface_loops : Interface → Option Fault × Interface × List String
  interface_loops i =
      let start : Option Fault × Interface × List String =
        (none, record i { extends = extends_validate i.extends }, []) in
      let message = member_message i.name in
      let properties =
        then_each (λ i. i.properties) (λ ps i. record i { properties = ps })
          (checked message (λ p. p.name) (sound_always (typed_validate sys mod_))) start in
      let operations =
        then_each (λ i. i.operations) (λ os i. record i { operations = os })
          (checked message (λ o. o.name) (sound_always operation_validate)) properties in
      then_each (λ i. i.signals) (λ ss i. record i { signals = ss })
        (checked message (λ s. s.name) (sound_always signal_validate)) operations

  -- Interface.Validate
  unfoldable pub interface_validate : Interface → Option Fault × Interface
  unfolding interface_loops
  interface_validate i = let (e, i', names) = interface_loops i in (e, i')

  -- Struct.Validate
  unfoldable pub struct_validate : Struct → Option Fault × Struct
  struct_validate s =
      let (e, fields, names) =
        each
          (checked (member_message s.name) (λ f. f.name) (sound_always (typed_validate sys mod_)))
          s.fields [] in
      (e, record s { fields = fields })

-- autoValue at the end of the loop: whether every value is 0.
abbrev pub all_zero : List EnumMember → Bool
all_zero [] = true
all_zero (m ∷ members) = is_zero m.value && all_zero members

-- The loop that numbers the members.
unfoldable pub auto_values : ℕ → List EnumMember → List EnumMember
auto_values i [] = []
auto_values i (m ∷ members) = record m { value = pos i } ∷ auto_values (suc i) members

abbrev numbered : Option Fault → Enum → Option Fault × Enum
numbered (some fault) e = (some fault, e)
numbered none e =
    (none, if all_zero e.members then record e { members = auto_values 0 e.members } else e)

-- Enum.Validate
unfoldable pub enum_validate : Enum → Option Fault × Enum
enum_validate e =
    let (fault, members, names) =
      each (checked (member_message e.name) (λ m. m.name) (sound_always (λ m. m))) e.members [] in
    numbered fault (record e { members = members })
