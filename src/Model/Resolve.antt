-- ===== src/Model/Resolve.antt =====
-- schema.go: how a type text becomes a kind, and a symbol the object that it names.
pub mod Sound
pub mod Meant
pub mod Linked
use apigear_cli.Base.{
  String, Bool, true, false, Option, none, some, List, [], ◌∷◌, ◌==◌, map, if◌then◌else◌,
}
use apigear_cli.Base.Lists.{contains}
use apigear_cli.Model.Data.{
  Schema, TypedNode, Interface, Struct, Enum, Extern, Module, System, type_void, type_extern,
  type_enum, type_struct, type_interface,
}
use apigear_cli.Model.Lookup.{lookup_extern, lookup_enum, lookup_struct, lookup_interface}

abbrev pub primitives : List String
primitives =
    "bool" ∷ "int" ∷ "float" ∷ "string" ∷ "int32" ∷ "int64" ∷ "float32" ∷ "float64" ∷ "bytes"
    ∷ "any" ∷ []

abbrev pub default_type : String → String
default_type type = if type == "" then "void" else type

abbrev classify : Schema → Schema
classify s =
    if s.type == "void"
    then record s { is_primitive = false; is_symbol = false }
    else if contains primitives s.type
    then record s { is_primitive = true; is_symbol = false }
    else record s { is_primitive = false; is_symbol = true }

-- Schema.compute
unfoldable pub compute : Schema → Schema
compute s =
    if s.is_computed
    then s
    else classify (record s { is_computed = true; type = default_type s.type })

-- The cases of the symbol in Schema.resolve, in their order; what is found nowhere is left as it is.
abbrev pub link : Option Extern → Option Enum → Option Struct → Option Interface → Schema → Schema
link (some x) e s i t = record t { kind_type = type_extern }
link none (some e) s i t = record t { enum_ = some e.addr; kind_type = type_enum }
link none none (some s) i t = record t { struct_ = some s.addr; kind_type = type_struct }
link none none none (some i) t = record t { interface_ = some i.addr; kind_type = type_interface }
link none none none none t = t

abbrev pub resolve_symbol : Option System → Module → Schema → Schema
resolve_symbol sys m s =
    link (lookup_extern sys m s.import_ s.type) (lookup_enum sys m s.import_ s.type)
      (lookup_struct sys m s.import_ s.type) (lookup_interface sys m s.import_ s.type) s

-- Schema.resolve, where s.Module is `m` and s.Module.System is `sys`.
unfoldable pub resolve : Option System → Module → Schema → Schema
resolve sys m s =
    if s.is_resolved
    then s
    else if s.is_primitive
    then record s { is_resolved = true; kind_type = s.type }
    else if s.is_symbol
    then resolve_symbol sys m (record s { is_resolved = true })
    else record s { is_resolved = true; kind_type = type_void }

-- Schema.Validate. The error that it returns is always nil.
unfoldable pub schema_validate : Option System → Module → Schema → Schema
unfolding compute resolve
schema_validate sys m s =
    if s.is_valid then s else resolve sys m (compute (record s { is_valid = true }))

-- TypedNode.Validate. The error that it returns is always nil.
unfoldable pub typed_validate : Option System → Module → TypedNode → TypedNode
unfolding schema_validate
typed_validate sys m t = record t { schema = schema_validate sys m t.schema }
