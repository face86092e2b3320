-- ===== src/Model/Lookup.antt =====
-- The lookups of module.go, system.go, iface.go, struct.go and enum.go. `sys` is what m.System points
-- to, `none` for nil. The warnings that CheckImport logs are not seen, and its answer is not used.
use mathlib.Core.Option
use apigear_cli.Base.{
  String, Bool, true, false, Option, none, some, [], ◌∷◌, ◌==◌, ◌||◌, if◌then◌else◌,
}
use apigear_cli.Base.Lists.{find_by}
use apigear_cli.Base.Int.{pos}
use apigear_cli.Model.Data.{
  NamedNode, TypedNode, Signal, Operation, Interface, Struct, EnumMember, Enum, Extern, Module,
  System, named, unset,
}

-- Module.CheckImport
unfoldable pub check_import : Module → String → Bool
check_import m name = elim (find_by (λ i. i.name == name) m.imports) [
  | none ↦ false
  | some i ↦ true
]

-- Module.LookupLocalExtern
unfoldable pub lookup_local_extern : Module → String → Option Extern
lookup_local_extern m name = find_by (λ e. e.name == name) m.externs

-- Module.LookupLocalInterface
unfoldable pub lookup_local_interface : Module → String → Option Interface
lookup_local_interface m name = find_by (λ i. i.name == name) m.interfaces

-- Module.LookupLocalStruct
unfoldable pub lookup_local_struct : Module → String → Option Struct
lookup_local_struct m name = find_by (λ s. s.name == name) m.structs

-- Module.LookupLocalEnum
unfoldable pub lookup_local_enum : Module → String → Option Enum
lookup_local_enum m name = find_by (λ e. e.name == name) m.enums

-- System.LookupModule
unfoldable pub lookup_module : System → String → Option Module
lookup_module s name = find_by (λ m. m.name == name) s.modules

-- The body that LookupExtern, LookupInterface, LookupStruct and LookupEnum share, of a System and
-- of a Module. A module that the system finds has the name asked for, so its own lookup is local,
-- and does not call the system again (lookup_module-name).
module _ {A : Type 0} (local : Module → String → Option A) where
  unfoldable pub system_lookup : System → String → String → Option A
  unfolding lookup_module
  system_lookup s module_name name = elim (lookup_module s module_name) [
    | none ↦ none
    | some m ↦ if module_name == "" || module_name == m.name then local m name else none
  ]

  unfoldable pub module_lookup : Option System → Module → String → String → Option A
  unfolding system_lookup
  module_lookup sys m module_name name =
      if module_name == "" || module_name == m.name
      then local m name
      else elim sys [ none ↦ none | some s ↦ system_lookup s module_name name ]

-- Module.LookupExtern
unfoldable pub lookup_extern : Option System → Module → String → String → Option Extern
unfolding module_lookup lookup_local_extern
lookup_extern = module_lookup lookup_local_extern

-- Module.LookupInterface
unfoldable pub lookup_interface : Option System → Module → String → String → Option Interface
unfolding module_lookup lookup_local_interface
lookup_interface = module_lookup lookup_local_interface

-- Module.LookupStruct
unfoldable pub lookup_struct : Option System → Module → String → String → Option Struct
unfolding module_lookup lookup_local_struct
lookup_struct = module_lookup lookup_local_struct

-- Module.LookupEnum
unfoldable pub lookup_enum : Option System → Module → String → String → Option Enum
unfolding module_lookup lookup_local_enum
lookup_enum = module_lookup lookup_local_enum

-- Module.LookupNode
unfoldable pub lookup_node : Option System → Module → String → String → Option NamedNode
unfolding lookup_interface lookup_struct lookup_enum
lookup_node sys m module_name name = elim (lookup_interface sys m module_name name) [
  | some i ↦ some i.node
  | none ↦ elim (lookup_struct sys m module_name name) [
    | some s ↦ some s.node
    | none ↦ elim (lookup_enum sys m module_name name) [ some e ↦ some e.node | none ↦ none ]
  ]
]

-- Interface.LookupProperty
unfoldable pub lookup_property : Interface → String → Option TypedNode
lookup_property i name = find_by (λ p. p.name == name) i.properties

-- Interface.LookupOperation
unfoldable pub lookup_operation : Interface → String → Option Operation
lookup_operation i name = find_by (λ m. m.name == name) i.operations

-- Interface.LookupSignal
unfoldable pub lookup_signal : Interface → String → Option Signal
lookup_signal i name = find_by (λ s. s.name == name) i.signals

-- Interface.LookupMember
unfoldable pub lookup_member : Interface → String → Option NamedNode
unfolding lookup_property lookup_operation lookup_signal
lookup_member i name = elim (lookup_property i name) [
  | some p ↦ some p.node
  | none ↦ elim (lookup_operation i name) [
    | some m ↦ some m.node
    | none ↦ elim (lookup_signal i name) [ some s ↦ some s.node | none ↦ none ]
  ]
]

-- Struct.LookupField
unfoldable pub lookup_field : Struct → String → Option TypedNode
lookup_field s name = find_by (λ f. f.name == name) s.fields

-- Enum.LookupMember
unfoldable pub lookup_enum_member : Enum → String → Option EnumMember
lookup_enum_member e name = find_by (λ m. m.name == name) e.members

-- Enum.Default: the first member, or an empty one.
unfoldable pub default_member : Enum → EnumMember
default_member e = elim e.members [
  | [] ↦ record { node = named "" unset; value = pos 0 }
  | m ∷ ms ↦ m
]

-- Module.LookupDefaultEnumMember, and with its local lookup Module.LookupLocalDefaultEnumMember
unfoldable pub lookup_default_enum_member :
    Option System → Module → String → String → Option EnumMember
unfolding lookup_enum default_member
lookup_default_enum_member sys m module_name name =
    Option.map default_member (lookup_enum sys m module_name name)

unfoldable pub lookup_local_default_enum_member : Module → String → Option EnumMember
unfolding lookup_local_enum default_member
lookup_local_default_enum_member m name = Option.map default_member (lookup_local_enum m name)

-- System.LookupField
unfoldable pub system_lookup_field : System → String → String → String → Option TypedNode
unfolding system_lookup lookup_local_struct lookup_field
system_lookup_field sys module_name struct_name name =
    elim (system_lookup lookup_local_struct sys module_name struct_name) [
      | none ↦ none
      | some s ↦ lookup_field s name
    ]

-- System.LookupProperty
unfoldable pub system_lookup_property : System → String → String → String → Option TypedNode
unfolding system_lookup lookup_local_interface lookup_property
system_lookup_property sys module_name interface_name name =
    elim (system_lookup lookup_local_interface sys module_name interface_name) [
      | none ↦ none
      | some i ↦ lookup_property i name
    ]

-- System.LookupOperation
unfoldable pub system_lookup_operation : System → String → String → String → Option Operation
unfolding system_lookup lookup_local_interface lookup_operation
system_lookup_operation sys module_name interface_name name =
    elim (system_lookup lookup_local_interface sys module_name interface_name) [
      | none ↦ none
      | some i ↦ lookup_operation i name
    ]

-- System.LookupSignal
unfoldable pub system_lookup_signal : System → String → String → String → Option Signal
unfolding system_lookup lookup_local_interface lookup_signal
system_lookup_signal sys module_name interface_name name =
    elim (system_lookup lookup_local_interface sys module_name interface_name) [
      | none ↦ none
      | some i ↦ lookup_signal i name
    ]
