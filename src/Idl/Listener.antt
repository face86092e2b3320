-- ===== src/Idl/Listener.antt =====
-- ObjectApiListener of pkg/idl/listener.go: what the listener does at each rule that a walk over the tree
-- enters or exits. The methods that do nothing are left out.
mod State
mod Members
mod Types
pub use State.*
pub use Members.*
pub use Types.*
use apigear_cli.Base.{ℕ, suc, String, Bool, true, false, Option, none, some, List, [], ◌∷◌, ◌++◌}
use apigear_cli.Base.Int.{ℤ, pos}
use apigear_cli.Model.Data.{
  NamedNode, Schema, TypedNode, Signal, Operation, Extends, Interface, Struct, EnumMember, Enum,
  Extern, Module, System, new_typed_node, new_signal, new_operation, new_interface, new_struct,
  new_enum_member, new_enum, new_extern, new_import, new_module, property, return_, param, field,
}
use apigear_cli.Idl.Tree.{
  MetaTree, TypeTree, primitive, symbol, SchemaTree, PropertyTree, ParamTree, OperationTree,
  SignalTree, InterfaceTree, StructTree, EnumMemberTree, EnumTree, ExternTree, ImportTree,
  ModuleTree, DocumentTree,
}
use apigear_cli.Idl.Text.{parse_meta, split_symbol, atoi}

-- The rules whose Enter or Exit method does something.
pub data Event : Type 0 where
  enter_module exit_module : ModuleTree → Event
  enter_import : ImportTree → Event
  enter_extern exit_extern : ExternTree → Event
  enter_interface exit_interface : InterfaceTree → Event
  enter_property exit_property : PropertyTree → Event
  enter_operation exit_operation : OperationTree → Event
  enter_return exit_return : Event
  enter_param exit_param : ParamTree → Event
  enter_signal exit_signal : SignalTree → Event
  enter_struct exit_struct : StructTree → Event
  enter_field exit_field : PropertyTree → Event
  enter_enum exit_enum : EnumTree → Event
  enter_enum_member exit_enum_member : EnumMemberTree → Event
  enter_schema exit_schema : Event
  enter_primitive enter_symbol : String → Event
  enter_array : Event
  exit_document : Event

-- The method of the listener for an event.
unfoldable pub handle : Event → Listener → Option Listener
handle (enter_module c) s = enter_module_rule c s
handle (exit_module c) s = exit_module_rule c s
handle (enter_import c) s = enter_import_rule c s
handle (enter_extern c) s = enter_extern_rule c s
handle (exit_extern c) s = exit_extern_rule c s
handle (enter_interface c) s = enter_interface_rule c s
handle (exit_interface c) s = exit_interface_rule c s
handle (enter_property c) s = enter_property_rule c s
handle (exit_property c) s = exit_property_rule c s
handle (enter_operation c) s = enter_operation_rule c s
handle (exit_operation c) s = exit_operation_rule c s
handle enter_return s = enter_operation_return_rule s
handle exit_return s = exit_operation_return_rule s
handle (enter_param c) s = enter_operation_param_rule c s
handle (exit_param c) s = exit_operation_param_rule c s
handle (enter_signal c) s = enter_signal_rule c s
handle (exit_signal c) s = exit_signal_rule c s
handle (enter_struct c) s = enter_struct_rule c s
handle (exit_struct c) s = exit_struct_rule c s
handle (enter_field c) s = enter_struct_field_rule c s
handle (exit_field c) s = exit_struct_field_rule c s
handle (enter_enum c) s = enter_enum_rule c s
handle (exit_enum c) s = exit_enum_rule c s
handle (enter_enum_member c) s = enter_enum_member_rule c s
handle (exit_enum_member c) s = exit_enum_member_rule c s
handle enter_schema s = enter_schema_rule s
handle exit_schema s = exit_schema_rule s
handle (enter_primitive name) s = enter_primitive_schema name s
handle (enter_symbol name) s = enter_symbol_schema name s
handle enter_array s = enter_array_rule s
handle exit_document s = exit_document_rule s

-- The events of a walk, one after the other, up to a panic.
unfoldable pub run : List Event → Listener → Option Listener
unfolding handle
run [] s = some s
run (e ∷ events) s = use_ (handle e s) (run events)
