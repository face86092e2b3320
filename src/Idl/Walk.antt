-- ===== src/Idl/Walk.antt =====
-- The order in which antlr.ParseTreeWalker, called in parseStream of pkg/idl/parser.go, enters and
-- exits the rules of a tree: a rule is entered, then its parts are walked in the order in which
-- pkg/idl/parser/ObjectApi.g4 has them, and then it is exited. Rules whose handlers do nothing are
-- left out.
use apigear_cli.Base.{Bool, true, false, Option, none, some, List, [], ◌∷◌, ◌++◌}
use apigear_cli.Base.Loop.{concat_map}
use apigear_cli.Idl.Tree.{
  TypeTree, primitive, symbol, SchemaTree, PropertyTree, ParamTree, OperationTree, SignalTree,
  MemberTree, a_property, an_operation, a_signal, InterfaceTree, StructTree, EnumMemberTree,
  EnumTree, ExternTree, DeclarationTree, an_extern, an_interface, a_struct, an_enum, DocumentTree,
}
use apigear_cli.Idl.Listener.{
  Event, enter_module, exit_module, enter_import, enter_extern, exit_extern, enter_interface,
  exit_interface, enter_property, exit_property, enter_operation, exit_operation, enter_return,
  exit_return, enter_param, exit_param, enter_signal, exit_signal, enter_struct, exit_struct,
  enter_field, exit_field, enter_enum, exit_enum, enter_enum_member, exit_enum_member, enter_schema,
  exit_schema, enter_primitive, enter_symbol, enter_array, exit_document,
}

abbrev type_event : TypeTree → Event
type_event (primitive name) = enter_primitive name
type_event (symbol name) = enter_symbol name

abbrev array_events : Bool → List Event
array_events true = enter_array ∷ []
array_events false = []

abbrev pub typed_events : TypeTree → Bool → List Event
typed_events type is_array =
    enter_schema ∷ type_event type ∷ array_events is_array ++ (exit_schema ∷ [])

abbrev pub schema_events : SchemaTree → List Event
schema_events t = typed_events t.type t.is_array

abbrev pub property_events : PropertyTree → List Event
property_events t = enter_property t ∷ schema_events t.schema ++ (exit_property t ∷ [])

abbrev pub field_events : PropertyTree → List Event
field_events t = enter_field t ∷ schema_events t.schema ++ (exit_field t ∷ [])

abbrev pub param_events : ParamTree → List Event
param_events t = enter_param t ∷ schema_events t.schema ++ (exit_param t ∷ [])

abbrev pub return_events : Option SchemaTree → List Event
return_events none = []
return_events (some t) = enter_return ∷ schema_events t ++ (exit_return ∷ [])

abbrev pub operation_events : OperationTree → List Event
operation_events t =
    enter_operation t ∷ concat_map param_events t.params
    ++ (return_events t.returns ++ (exit_operation t ∷ []))

abbrev pub signal_events : SignalTree → List Event
signal_events t = enter_signal t ∷ concat_map param_events t.params ++ (exit_signal t ∷ [])

abbrev pub member_events : MemberTree → List Event
member_events (a_property t) = property_events t
member_events (an_operation t) = operation_events t
member_events (a_signal t) = signal_events t

abbrev pub interface_events : InterfaceTree → List Event
interface_events t =
    enter_interface t ∷ concat_map member_events t.members ++ (exit_interface t ∷ [])

abbrev pub struct_events : StructTree → List Event
struct_events t = enter_struct t ∷ concat_map field_events t.fields ++ (exit_struct t ∷ [])

abbrev pub enum_member_events : EnumMemberTree → List Event
enum_member_events t = enter_enum_member t ∷ exit_enum_member t ∷ []

abbrev pub enum_events : EnumTree → List Event
enum_events t = enter_enum t ∷ concat_map enum_member_events t.members ++ (exit_enum t ∷ [])

abbrev pub extern_events : ExternTree → List Event
extern_events t = enter_extern t ∷ exit_extern t ∷ []

abbrev pub declaration_events : DeclarationTree → List Event
declaration_events (an_extern t) = extern_events t
declaration_events (an_interface t) = interface_events t
declaration_events (a_struct t) = struct_events t
declaration_events (an_enum t) = enum_events t

abbrev pub document_events : DocumentTree → List Event
document_events t =
    enter_module t.module_ ∷ exit_module t.module_ ∷ concat_map (λ i. enter_import i ∷ []) t.imports
    ++ (concat_map declaration_events t.declarations ++ (exit_document ∷ []))
