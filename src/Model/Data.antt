-- ===== src/Model/Data.antt =====
-- The data of pkg/model (base.go, schema.go, iface.go, struct.go, enum.go, extern.go, module.go,
-- system.go) and its constructor functions. A nil slice and an empty one are both the empty list.
-- The pointers down the tree are the values that they point to. Those that a lookup stores
-- (Schema.enum_, Extends.Reference and the like) are the addresses of the objects found, so an
-- Enum, a Struct and an Interface carry their address. The pointers up the tree (Module.System,
-- Interface.Module, Schema.Module) are arguments of the functions that follow them.
-- Meta and the JSON and YAML tags are left out.
use apigear_cli.Base.{ℕ, String, Bool, false, Option, none, some, List, [], ◌==◌, ◌||◌}
use apigear_cli.Base.Int.{ℤ}

-- Kind: the kinds of nodes. The value of each in Go is the text of its name;
-- `unset` is the empty text.
pub data Kind : Type 0 where
  system module_ import extern interface property operation param return_ signal struct field enum :
      Kind
  member : Kind
  unset : Kind

-- KindType: in Go a string type, to which a Schema's type text is converted.
abbrev pub KindType : Type 0
KindType = String

abbrev pub type_void : KindType
type_void = "void"

abbrev pub type_extern : KindType
type_extern = "extern"

abbrev pub type_enum : KindType
type_enum = "enum"

abbrev pub type_struct : KindType
type_struct = "struct"

abbrev pub type_interface : KindType
type_interface = "interface"

pub record NamedNode : Type 0 where
  pub id : ℕ
  pub name : String
  pub kind : Kind
  pub description : String

abbrev pub named : String → Kind → NamedNode
named name kind = record { id = 0; name = name; kind = kind; description = "" }

-- `interface_`, `struct_` and `enum_` are the addresses of what a symbol resolves to.
pub record Schema : Type 0 where
  pub type : String
  pub import_ : String
  pub is_array : Bool
  pub kind_type : KindType
  pub is_primitive : Bool
  pub is_symbol : Bool
  pub struct_ : Option ℕ
  pub enum_ : Option ℕ
  pub interface_ : Option ℕ
  pub is_resolved : Bool
  pub is_computed : Bool
  pub is_valid : Bool

pub record TypedNode : Type 0 where
  pub node : NamedNode
  pub open node use *
  pub schema : Schema
  pub is_read_only : Bool

-- NewTypedNode
unfoldable pub new_typed_node : String → Kind → TypedNode
new_typed_node n k = record {
  node = named n k;
  schema = record {
    type = "void";
    import_ = "";
    is_array = false;
    kind_type = type_void;
    is_primitive = false;
    is_symbol = false;
    struct_ = none;
    enum_ = none;
    interface_ = none;
    is_resolved = false;
    is_computed = false;
    is_valid = false;
  };
  is_read_only = false;
}

-- TypedNode.IsVoid
unfoldable pub is_void : TypedNode → Bool
is_void t = t.schema.type == "void"

-- TypedNode.IsAny
unfoldable pub is_any : TypedNode → Bool
is_any t = t.schema.type == "any"

-- TypedNode.IsInt
unfoldable pub is_int : TypedNode → Bool
is_int t = t.schema.type == "int" || t.schema.type == "int32" || t.schema.type == "int64"

-- TypedNode.IsFloat
unfoldable pub is_float : TypedNode → Bool
is_float t = t.schema.type == "float" || t.schema.type == "float32" || t.schema.type == "float64"

pub record Signal : Type 0 where
  pub node : NamedNode
  pub open node use *
  pub params : List TypedNode

-- NewSignal
unfoldable pub new_signal : String → Signal
new_signal name = record { node = named name signal; params = [] }

-- A Return that is nil is `none`.
pub record Operation : Type 0 where
  pub node : NamedNode
  pub open node use *
  pub params : List TypedNode
  pub returns : Option TypedNode

-- NewOperation
unfoldable pub new_operation : String → Operation
unfolding new_typed_node
new_operation name = record {
  node = named name operation;
  params = [];
  returns = some (new_typed_node "" return_);
}

-- `reference` is the address of the extended interface.
pub record Extends : Type 0 where
  pub name : String
  pub import_ : String
  pub reference : Option ℕ

pub record Interface : Type 0 where
  pub addr : ℕ
  pub node : NamedNode
  pub open node use *
  pub extends : Extends
  pub properties : List TypedNode
  pub operations : List Operation
  pub signals : List Signal

-- NewInterface, at the address of the new object.
unfoldable pub new_interface : ℕ → String → Interface
new_interface addr name = record {
  addr = addr;
  node = named name interface;
  extends = record { name = ""; import_ = ""; reference = none };
  properties = [];
  operations = [];
  signals = [];
}

pub record Struct : Type 0 where
  pub addr : ℕ
  pub node : NamedNode
  pub open node use *
  pub fields : List TypedNode

-- NewStruct, at the address of the new object.
unfoldable pub new_struct : ℕ → String → Struct
new_struct addr name = record { addr = addr; node = named name struct; fields = [] }

pub record EnumMember : Type 0 where
  pub node : NamedNode
  pub open node use *
  pub value : ℤ

-- NewEnumMember
unfoldable pub new_enum_member : String → ℤ → EnumMember
new_enum_member name value = record { node = named name member; value = value }

pub record Enum : Type 0 where
  pub addr : ℕ
  pub node : NamedNode
  pub open node use *
  pub members : List EnumMember

-- NewEnum, at the address of the new object.
unfoldable pub new_enum : ℕ → String → Enum
new_enum addr name = record { addr = addr; node = named name enum; members = [] }

pub record Extern : Type 0 where
  pub node : NamedNode
  pub open node use *

-- NewExtern
unfoldable pub new_extern : String → Extern
new_extern name = record { node = named name extern }

pub record Import : Type 0 where
  pub node : NamedNode
  pub open node use *

-- NewImport. The version is not kept.
unfoldable pub new_import : String → String → Import
new_import name version = record { node = named name import }

pub record Module : Type 0 where
  pub node : NamedNode
  pub open node use *
  pub version : String
  pub imports : List Import
  pub externs : List Extern
  pub interfaces : List Interface
  pub structs : List Struct
  pub enums : List Enum
  pub checksum : String

-- NewModule
unfoldable pub new_module : String → String → Module
new_module n v = record {
  node = named n module_;
  version = v;
  imports = [];
  externs = [];
  interfaces = [];
  structs = [];
  enums = [];
  checksum = "";
}

pub record System : Type 0 where
  pub node : NamedNode
  pub open node use *
  pub modules : List Module
  pub checksum : String

-- NewSystem
unfoldable pub new_system : String → System
new_system name = record { node = named name system; modules = []; checksum = "" }
