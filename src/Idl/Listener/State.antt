-- ===== src/Idl/Listener/State.antt =====
-- The state of the ObjectApiListener of pkg/idl/listener.go, and the steps that its methods share. The
-- field `kind`, which is written and never read, is left out. The objects are made at the addresses
-- `next`, `next` + 1 and so on.
use apigear_cli.Base.{ℕ, suc, String, true, false, Option, none, some, List, [], ◌∷◌, ◌++◌}
use apigear_cli.Base.Int.{ℤ, pos}
use apigear_cli.Model.Data.{
  Schema, TypedNode, Signal, Operation, Interface, Struct, EnumMember, Enum, Extern, Module, System,
  new_enum_member,
}
use apigear_cli.Idl.Tree.{MetaTree}
use apigear_cli.Idl.Text.{parse_meta, split_symbol, atoi}

-- ObjectApiListener. A pointer that is nil is `none`.
pub record Listener : Type 0 where
  pub system : System
  pub next : ℕ
  pub module_ : Option Module
  pub iface : Option Interface
  pub extern_ : Option Extern
  pub struct_ : Option Struct
  pub enum_ : Option Enum
  pub enum_member : Option EnumMember
  pub operation_ : Option Operation
  pub param_ : Option TypedNode
  pub return_node : Option TypedNode
  pub signal_ : Option Signal
  pub property_ : Option TypedNode
  pub field_ : Option TypedNode
  pub schema : Option Schema
  pub running_value : ℕ

-- NewObjectApiListener, where the next object is made at an address.
abbrev pub new_listener : System → ℕ → Listener
new_listener system next = record {
  system = system;
  next = next;
  module_ = none;
  iface = none;
  extern_ = none;
  struct_ = none;
  enum_ = none;
  enum_member = none;
  operation_ = none;
  param_ = none;
  return_node = none;
  signal_ = none;
  property_ = none;
  field_ = none;
  schema = none;
  running_value = 0;
}

-- `version`, where none is 1.0.
abbrev pub version_or_1 : Option String → String
version_or_1 none = "1.0"
version_or_1 (some version) = version

-- &model.Schema{}
abbrev pub empty_schema : Schema
empty_schema = record {
  type = "";
  import_ = "";
  is_array = false;
  kind_type = "";
  is_primitive = false;
  is_symbol = false;
  struct_ = none;
  enum_ = none;
  interface_ = none;
  is_resolved = false;
  is_computed = false;
  is_valid = false;
}

abbrev pub extending : Option String → Interface → Interface
extending none i = i
extending (some extends) i =
    let (import_, name) = split_symbol extends in
    let e = i.extends in record i { extends = record e { import_ = import_; name = name } }

abbrev pub with_symbol : String → Schema → Schema
with_symbol text s =
    let (import_, name) = split_symbol text in
    record s { import_ = import_; type = name; is_symbol = true }

-- A pointer that is used, or a panic if it is nil.
abbrev pub use_ : {A : Type 0} → Option A → (A → Option Listener) → Option Listener
use_ none k = none
use_ (some a) k = k a

-- The node with what its comments and tags say.
abbrev pub meta_module : List MetaTree → Module → Module
meta_module metas m = record m { node = parse_meta metas m.node }

abbrev pub meta_extern : List MetaTree → Extern → Extern
meta_extern metas x = record x { node = parse_meta metas x.node }

abbrev pub meta_interface : List MetaTree → Interface → Interface
meta_interface metas i = record i { node = parse_meta metas i.node }

abbrev pub meta_typed : List MetaTree → TypedNode → TypedNode
meta_typed metas t = record t { node = parse_meta metas t.node }

abbrev pub meta_operation : List MetaTree → Operation → Operation
meta_operation metas o = record o { node = parse_meta metas o.node }

abbrev pub meta_signal : List MetaTree → Signal → Signal
meta_signal metas s = record s { node = parse_meta metas s.node }

abbrev pub meta_struct : List MetaTree → Struct → Struct
meta_struct metas s = record s { node = parse_meta metas s.node }

abbrev pub meta_enum : List MetaTree → Enum → Enum
meta_enum metas e = record e { node = parse_meta metas e.node }

abbrev pub meta_member : List MetaTree → EnumMember → EnumMember
meta_member metas m = record m { node = parse_meta metas m.node }

-- The end of ExitOperationParamRule.
abbrev pub add_param : Option Operation → Option Signal → TypedNode → Listener → Listener
add_param (some op) sig p s = record s {
  operation_ = some (record op { params = op.params ++ (p ∷ []) });
}
add_param none (some sig) p s = record s {
  signal_ = some (record sig { params = sig.params ++ (p ∷ []) });
}
add_param none none p s = s

abbrev pub explicit_value : ℕ → Option ℤ → Option (ℤ × ℕ)
explicit_value running none = none
explicit_value running (some value) = some (value, running)

-- The value of a member of an enum, and the running value after it; `none` is the panic.
abbrev pub member_value : Option String → ℕ → Option (ℤ × ℕ)
member_value none running = some (pos running, suc running)
member_value (some text) running = explicit_value running (atoi text)

abbrev pub enter_member : String → Listener → Option (ℤ × ℕ) → Option Listener
enter_member name s none = none
enter_member name s (some (value, running)) =
    some (record s { running_value = running; enum_member = some (new_enum_member name value) })
