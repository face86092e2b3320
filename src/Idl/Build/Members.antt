-- ===== src/Idl/Build/Members.antt =====
-- The schemas, typed nodes, operations and signals that a tree says, without the listener's state.
use apigear_cli.Base.{String, Bool, false, true, Option, none, some, List, [], ◌∷◌, map}
use apigear_cli.Model.Data.{
  Kind, named, Schema, TypedNode, Signal, Operation, Extends, property, operation, return_, param,
  signal, field,
}
use apigear_cli.Idl.Tree.{
  TypeTree, primitive, symbol, SchemaTree, PropertyTree, ParamTree, OperationTree, SignalTree,
  MemberTree, a_property, an_operation, a_signal,
}
use apigear_cli.Idl.Text.{parse_meta, split_symbol}

-- A schema with its type as it was read, and nothing resolved.
abbrev raw : String → String → Bool → Bool → Bool → Schema
raw import_ type is_array is_primitive is_symbol = record {
  type = type;
  import_ = import_;
  is_array = is_array;
  kind_type = "";
  is_primitive = is_primitive;
  is_symbol = is_symbol;
  struct_ = none;
  enum_ = none;
  interface_ = none;
  is_resolved = false;
  is_computed = false;
  is_valid = false;
}

abbrev pub typed_schema : TypeTree → Bool → Schema
typed_schema (primitive name) is_array = raw "" name is_array true false
typed_schema (symbol name) is_array =
    let (import_, type) = split_symbol name in raw import_ type is_array false true

abbrev pub schema_of : SchemaTree → Schema
schema_of t = typed_schema t.type t.is_array

abbrev pub typed_of : Kind → PropertyTree → TypedNode
typed_of kind t = record {
  node = parse_meta t.metas (named t.name kind);
  schema = schema_of t.schema;
  is_read_only = t.readonly;
}

abbrev pub property_of : PropertyTree → TypedNode
property_of t = typed_of property t

abbrev pub field_of : PropertyTree → TypedNode
field_of t = typed_of field t

abbrev pub param_of : ParamTree → TypedNode
param_of t = record { node = named t.name param; schema = schema_of t.schema; is_read_only = false }

abbrev pub return_of : SchemaTree → TypedNode
return_of t = record { node = named "" return_; schema = schema_of t; is_read_only = false }

abbrev pub optional_return : Option SchemaTree → Option TypedNode
optional_return none = none
optional_return (some t) = some (return_of t)

abbrev pub operation_of : OperationTree → Operation
operation_of t = record {
  node = parse_meta t.metas (named t.name operation);
  params = map param_of t.params;
  returns = optional_return t.returns;
}

abbrev pub signal_of : SignalTree → Signal
signal_of t = record {
  node = parse_meta t.metas (named t.name signal);
  params = map param_of t.params;
}

-- The properties, operations and signals among the members, each in the order of the text.
abbrev pub properties_of : List MemberTree → List TypedNode
properties_of [] = []
properties_of (a_property t ∷ ts) = property_of t ∷ properties_of ts
properties_of (an_operation t ∷ ts) = properties_of ts
properties_of (a_signal t ∷ ts) = properties_of ts

abbrev pub operations_of : List MemberTree → List Operation
operations_of [] = []
operations_of (a_property t ∷ ts) = operations_of ts
operations_of (an_operation t ∷ ts) = operation_of t ∷ operations_of ts
operations_of (a_signal t ∷ ts) = operations_of ts

abbrev pub signals_of : List MemberTree → List Signal
signals_of [] = []
signals_of (a_property t ∷ ts) = signals_of ts
signals_of (an_operation t ∷ ts) = signals_of ts
signals_of (a_signal t ∷ ts) = signal_of t ∷ signals_of ts

abbrev pub extends_of : Option String → Extends
extends_of none = record { name = ""; import_ = ""; reference = none }
extends_of (some extends) =
    let (import_, name) = split_symbol extends in
    record { name = name; import_ = import_; reference = none }
