-- ===== src/Model/Words.antt =====
-- The CheckReservedWords methods of pkg/model (base.go, iface.go, struct.go, enum.go, module.go and
-- system.go). What they log is the list of warnings.
pub mod Warned
use apigear_cli.Base.{String, Option, none, some, List, [], ◌∷◌, ◌++◌}
use apigear_cli.Base.Loop.{concat_map}
use apigear_cli.Model.Data.{
  TypedNode, Signal, Operation, Interface, Struct, EnumMember, Enum, Module, System,
}
use apigear_cli.Spec.Words.{Warning, check_is_reserved}

module _ (to_lower : String → String) (langs : List String) where
  -- rkw.CheckIsReserved
  abbrev pub check : String → String → List Warning
  check name scope = check_is_reserved to_lower langs name scope

  -- TypedNode.CheckReservedWords
  unfoldable pub typed_check_reserved : TypedNode → List Warning
  typed_check_reserved t = check t.name "type"

  -- Signal.CheckReservedWords
  unfoldable pub signal_check_reserved : Signal → List Warning
  signal_check_reserved s = check s.name "signal" ++ concat_map typed_check_reserved s.params

  abbrev pub return_check_reserved : Option TypedNode → List Warning
  return_check_reserved none = []
  return_check_reserved (some t) = typed_check_reserved t

  -- Operation.CheckReservedWords
  unfoldable pub operation_check_reserved : Operation → List Warning
  operation_check_reserved m =
      check m.name "operation"
      ++ (concat_map typed_check_reserved m.params ++ return_check_reserved m.returns)

  -- Interface.CheckReservedWords
  unfoldable pub interface_check_reserved : Interface → List Warning
  interface_check_reserved i =
      check i.name "interface"
      ++ (concat_map typed_check_reserved i.properties
          ++ (concat_map operation_check_reserved i.operations
              ++ concat_map signal_check_reserved i.signals))

  -- Struct.CheckReservedWords
  unfoldable pub struct_check_reserved : Struct → List Warning
  struct_check_reserved s = check s.name "struct" ++ concat_map typed_check_reserved s.fields

  -- EnumMember.CheckReservedWords
  unfoldable pub member_check_reserved : EnumMember → List Warning
  member_check_reserved e = check e.name "enum member"

  -- Enum.CheckReservedWords
  unfoldable pub enum_check_reserved : Enum → List Warning
  enum_check_reserved e = check e.name "enum" ++ concat_map member_check_reserved e.members

  -- Module.CheckReservedWords
  unfoldable pub module_check_reserved : Module → List Warning
  module_check_reserved m =
      check m.name "module"
      ++ (concat_map interface_check_reserved m.interfaces
          ++ (concat_map struct_check_reserved m.structs ++ concat_map enum_check_reserved m.enums))

  -- System.CheckReservedWords
  unfoldable pub system_check_reserved : System → List Warning
  system_check_reserved s = check s.name "system" ++ concat_map module_check_reserved s.modules
