-- ===== src/Model/Checksum.antt =====
-- computeChecksum of module.go and system.go: the text that is digested. `none` is the panic on an
-- operation whose Return is nil.
use apigear_cli.Base.{String, Option, none, some, List, [], ◌∷◌, ◌<>◌}
use apigear_cli.Base.Int.{itoa}
use apigear_cli.Model.Data.{
  TypedNode, Signal, Operation, Interface, Struct, EnumMember, Enum, Module,
}

-- The texts of the elements, one after the other.
unfoldable pub texts : {A : Type 0} → (A → String) → List A → String
texts text [] = ""
texts text (x ∷ xs) = text x <> texts text xs

abbrev pub append_text : Option String → Option String → Option String
append_text none t = none
append_text (some s) none = none
append_text (some s) (some t) = some (s <> t)

unfoldable pub texts_or_panic : {A : Type 0} → (A → Option String) → List A → Option String
texts_or_panic text [] = some ""
texts_or_panic text (x ∷ xs) = append_text (text x) (texts_or_panic text xs)

abbrev pub typed_text : TypedNode → String
typed_text p = p.name <> p.schema.type

unfoldable pub operation_text : Operation → Option String
unfolding texts
operation_text o = elim o.returns [
  | none ↦ none
  | some r ↦ some (o.name <> (texts typed_text o.params <> r.schema.type))
]

abbrev pub signal_text : Signal → String
signal_text s = s.name <> texts typed_text s.params

unfoldable pub interface_text : Interface → Option String
unfolding operation_text texts_or_panic
interface_text i = append_text (some i.name) (
    append_text (texts_or_panic operation_text i.operations)
      (some (texts typed_text i.properties <> texts signal_text i.signals)))

abbrev pub struct_text : Struct → String
struct_text s = s.name <> texts typed_text s.fields

abbrev pub enum_text : Enum → String
enum_text e = e.name <> texts (λ (m : EnumMember). m.name <> itoa m.value) e.members

-- Module.computeChecksum: the buffer that is digested.
unfoldable pub module_text : Module → Option String
unfolding interface_text texts_or_panic
module_text m = append_text (some m.name) (
    append_text (texts_or_panic interface_text m.interfaces)
      (some (texts struct_text m.structs <> texts enum_text m.enums)))
