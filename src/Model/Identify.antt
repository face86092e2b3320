-- ===== src/Model/Identify.antt =====
-- System.computeIdentifier: a running number for each node. Modules, interfaces with their operations,
-- properties and signals, structs with their fields, and enums with their members are numbered, in
-- this order; externs, imports and parameters are not.
pub mod Numbering
use apigear_cli.Base.{ℕ, ◌+◌, ◌%◌, ◌^◌, List, [], ◌∷◌}
use apigear_cli.Model.Data.{
  NamedNode, TypedNode, Signal, Operation, Interface, Struct, EnumMember, Enum, Module, System,
}

-- idx++ on a uint of 64 bits.
abbrev pub next : ℕ → ℕ
next idx = (idx + 1) % 2 ^ 64

-- A loop that numbers the elements of a slice, from a running number to the next free one.
unfoldable pub number_all : {A : Type 0} → (A → ℕ → A × ℕ) → List A → ℕ → List A × ℕ
number_all number [] idx = ([], idx)
number_all number (x ∷ xs) idx =
    let (x', idx') = number x idx in
    let (xs', idx'') = number_all number xs idx' in (x' ∷ xs', idx'')

abbrev pub with_id : ℕ → NamedNode → NamedNode
with_id idx n = record n { id = idx }

abbrev pub number_operation : Operation → ℕ → Operation × ℕ
number_operation o idx = (record o { node = with_id idx o.node }, next idx)

abbrev pub number_typed : TypedNode → ℕ → TypedNode × ℕ
number_typed t idx = (record t { node = with_id idx t.node }, next idx)

abbrev pub number_signal : Signal → ℕ → Signal × ℕ
number_signal s idx = (record s { node = with_id idx s.node }, next idx)

abbrev pub number_member : EnumMember → ℕ → EnumMember × ℕ
number_member m idx = (record m { node = with_id idx m.node }, next idx)

unfoldable pub number_interface : Interface → ℕ → Interface × ℕ
unfolding number_all
number_interface i idx =
    let (operations, idx1) = number_all number_operation i.operations (next idx) in
    let (properties, idx2) = number_all number_typed i.properties idx1 in
    let (signals, idx3) = number_all number_signal i.signals idx2 in
    (
      record i {
        node = with_id idx i.node;
        operations = operations;
        properties = properties;
        signals = signals;
      },
      idx3,
    )

unfoldable pub number_struct : Struct → ℕ → Struct × ℕ
unfolding number_all
number_struct s idx =
    let (fields, idx1) = number_all number_typed s.fields (next idx) in
    (record s { node = with_id idx s.node; fields = fields }, idx1)

unfoldable pub number_enum : Enum → ℕ → Enum × ℕ
unfolding number_all
number_enum e idx =
    let (members, idx1) = number_all number_member e.members (next idx) in
    (record e { node = with_id idx e.node; members = members }, idx1)

unfoldable pub number_module : Module → ℕ → Module × ℕ
unfolding number_interface number_struct number_enum
number_module m idx =
    let (interfaces, idx1) = number_all number_interface m.interfaces (next idx) in
    let (structs, idx2) = number_all number_struct m.structs idx1 in
    let (enums, idx3) = number_all number_enum m.enums idx2 in
    (
      record m {
        node = with_id idx m.node;
        interfaces = interfaces;
        structs = structs;
        enums = enums;
      },
      idx3,
    )

-- System.computeIdentifier
unfoldable pub compute_identifier : System → System
unfolding number_module
compute_identifier s = record s { modules = (number_all number_module s.modules 1).0 }
