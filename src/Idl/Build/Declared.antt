-- ===== src/Idl/Build/Declared.antt =====
-- The interfaces, structs, enums and externs that a document declares, without the listener's state.
use apigear_cli.Base.{ℕ, suc, String, Option, none, some, List, [], ◌∷◌, map}
use apigear_cli.Base.Int.{ℤ, pos}
use apigear_cli.Model.Data.{
  named, Interface, Struct, EnumMember, Enum, Extern, Import, Module, module_, import, extern,
  interface, struct, enum, member,
}
use apigear_cli.Idl.Tree.{
  InterfaceTree, StructTree, EnumMemberTree, EnumTree, ExternTree, DeclarationTree, an_extern,
  an_interface, a_struct, an_enum, ImportTree, DocumentTree,
}
use apigear_cli.Idl.Text.{parse_meta, atoi}
use apigear_cli.Idl.Listener.{version_or_1}
use apigear_cli.Idl.Build.Members.{field_of, properties_of, operations_of, signals_of, extends_of}

abbrev pub extern_of : ExternTree → Extern
extern_of t = record { node = parse_meta t.metas (named t.name extern) }

abbrev pub interface_of : ℕ → InterfaceTree → Interface
interface_of addr t = record {
  addr = addr;
  node = parse_meta t.metas (named t.name interface);
  extends = extends_of t.extends;
  properties = properties_of t.members;
  operations = operations_of t.members;
  signals = signals_of t.members;
}

abbrev pub struct_of : ℕ → StructTree → Struct
struct_of addr t = record {
  addr = addr;
  node = parse_meta t.metas (named t.name struct);
  fields = map field_of t.fields;
}

abbrev pub member_of : EnumMemberTree → ℤ → EnumMember
member_of t value = record { node = parse_meta t.metas (named t.name member); value = value }

abbrev pub cons_option : {A : Type 0} → Option A → Option (List A) → Option (List A)
cons_option (some x) (some xs) = some (x ∷ xs)
cons_option (some x) none = none
cons_option none xs = none

abbrev pub read_member : EnumMemberTree → Option ℤ → Option EnumMember
read_member t none = none
read_member t (some value) = some (member_of t value)

-- A member with a value of its own, or with the number given.
abbrev pub valued_member : EnumMemberTree → ℕ → Option String → Option EnumMember
valued_member t n none = some (member_of t (pos n))
valued_member t n (some text) = read_member t (atoi text)

abbrev pub implicit_after : ℕ → Option String → ℕ
implicit_after n none = suc n
implicit_after n (some text) = n

-- The members, where a number is the count of the members before that have no value of their own.
abbrev pub members_of : List EnumMemberTree → ℕ → Option (List EnumMember)
members_of [] n = some []
members_of (t ∷ ts) n =
    cons_option (valued_member t n t.value) (members_of ts (implicit_after n t.value))

abbrev pub enum_with : ℕ → EnumTree → List EnumMember → Enum
enum_with addr t members = record {
  addr = addr;
  node = parse_meta t.metas (named t.name enum);
  members = members;
}

abbrev pub optional_enum : ℕ → EnumTree → Option (List EnumMember) → Option Enum
optional_enum addr t none = none
optional_enum addr t (some members) = some (enum_with addr t members)

-- An enum, or `none` where the value of a member is no number that an int holds.
abbrev pub enum_of : ℕ → EnumTree → Option Enum
enum_of addr t = optional_enum addr t (members_of t.members 0)

abbrev pub externs_of : List DeclarationTree → List Extern
externs_of [] = []
externs_of (an_extern t ∷ ts) = extern_of t ∷ externs_of ts
externs_of (an_interface t ∷ ts) = externs_of ts
externs_of (a_struct t ∷ ts) = externs_of ts
externs_of (an_enum t ∷ ts) = externs_of ts

abbrev pub interfaces_of : List DeclarationTree → ℕ → List Interface
interfaces_of [] addr = []
interfaces_of (an_extern t ∷ ts) addr = interfaces_of ts addr
interfaces_of (an_interface t ∷ ts) addr = interface_of addr t ∷ interfaces_of ts (suc addr)
interfaces_of (a_struct t ∷ ts) addr = interfaces_of ts (suc addr)
interfaces_of (an_enum t ∷ ts) addr = interfaces_of ts (suc addr)

abbrev pub structs_of : List DeclarationTree → ℕ → List Struct
structs_of [] addr = []
structs_of (an_extern t ∷ ts) addr = structs_of ts addr
structs_of (an_interface t ∷ ts) addr = structs_of ts (suc addr)
structs_of (a_struct t ∷ ts) addr = struct_of addr t ∷ structs_of ts (suc addr)
structs_of (an_enum t ∷ ts) addr = structs_of ts (suc addr)

abbrev pub enums_of : List DeclarationTree → ℕ → Option (List Enum)
enums_of [] addr = some []
enums_of (an_extern t ∷ ts) addr = enums_of ts addr
enums_of (an_interface t ∷ ts) addr = enums_of ts (suc addr)
enums_of (a_struct t ∷ ts) addr = enums_of ts (suc addr)
enums_of (an_enum t ∷ ts) addr = cons_option (enum_of addr t) (enums_of ts (suc addr))

-- The first address that is free after the objects of the declarations.
abbrev pub next_after : List DeclarationTree → ℕ → ℕ
next_after [] addr = addr
next_after (an_extern t ∷ ts) addr = next_after ts addr
next_after (an_interface t ∷ ts) addr = next_after ts (suc addr)
next_after (a_struct t ∷ ts) addr = next_after ts (suc addr)
next_after (an_enum t ∷ ts) addr = next_after ts (suc addr)

abbrev pub import_of : ImportTree → Import
import_of t = record { node = named t.name import }

-- A module, of the enums given.
abbrev pub module_of : DocumentTree → ℕ → List Enum → Module
module_of t addr enums = record {
  node = parse_meta t.module_.metas (named t.module_.name module_);
  version = version_or_1 t.module_.version;
  imports = map import_of t.imports;
  externs = externs_of t.declarations;
  interfaces = interfaces_of t.declarations addr;
  structs = structs_of t.declarations addr;
  enums = enums;
  checksum = "";
}

abbrev pub optional_module : DocumentTree → ℕ → Option (List Enum) → Option Module
optional_module t addr none = none
optional_module t addr (some enums) = some (module_of t addr enums)

-- The module that a document says, made at the addresses from `addr` on; `none` where the value of a
-- member of an enum is no number that an int holds.
abbrev pub document_of : DocumentTree → ℕ → Option Module
document_of t addr = optional_module t addr (enums_of t.declarations addr)
