-- ===== src/Idl/Read/Raw.antt =====
-- The schemas of the modules that pkg/idl makes are not yet resolved, so that Schema.Validate of
-- pkg/model/schema.go links them to the right objects.
use apigear_cli.Base.{ℕ, suc, Bool, Option, none, some, List, [], ◌∷◌, ◌++◌, map, refl}
use apigear_cli.Base.Loop.{concat_map, All}
use apigear_cli.Model.Data.{TypedNode, Operation, Signal, Interface, Struct, Enum, Module}
use apigear_cli.Model.Resolve.Sound.{IsRaw}
use apigear_cli.Idl.Tree.{
  TypeTree, primitive, symbol, SchemaTree, OperationTree, MemberTree, a_property, an_operation,
  a_signal, DeclarationTree, an_extern, an_interface, a_struct, an_enum, DocumentTree,
}
use apigear_cli.Idl.Build.{
  typed_schema, schema_of, properties_of, operations_of, signals_of, optional_return, operation_of,
  interfaces_of, structs_of, module_of, field_of, param_of,
}

-- The typed nodes of a module: those of its interfaces, then those of its structs.
abbrev pub returned_nodes : Option TypedNode → List TypedNode
returned_nodes none = []
returned_nodes (some t) = t ∷ []

abbrev pub operation_nodes : Operation → List TypedNode
operation_nodes o = o.params ++ returned_nodes o.returns

abbrev pub signal_nodes : Signal → List TypedNode
signal_nodes s = s.params

abbrev pub interface_nodes : Interface → List TypedNode
interface_nodes i =
    i.properties ++ (concat_map operation_nodes i.operations ++ concat_map signal_nodes i.signals)

abbrev pub struct_nodes : Struct → List TypedNode
struct_nodes x = x.fields

abbrev pub module_nodes : Module → List TypedNode
module_nodes m = concat_map interface_nodes m.interfaces ++ concat_map struct_nodes m.structs

module _ {A : Type 0} (P : A → Type 0) where
  All-append : (xs ys : List A) → All P xs → All P ys → All P (xs ++ ys)
  All-append [] ys p q = q
  All-append (x ∷ xs) ys (p, ps) q = (p, All-append xs ys ps q)

  All-concat_map :
      {B : Type 0} (f : B → List A) (ys : List B)
      → All (λ y. All P (f y)) ys
      → All P (concat_map f ys)
  All-concat_map f [] p = tt
  All-concat_map f (y ∷ ys) (p, ps) = All-append (f y) (concat_map f ys) p (All-concat_map f ys ps)

  All-map : {B : Type 0} (f : B → A) → ((y : B) → P (f y)) → (ys : List B) → All P (map f ys)
  All-map f p [] = tt
  All-map f p (y ∷ ys) = (p y, All-map f p ys)

abbrev pub HasRaw : TypedNode → Type 0
HasRaw t = IsRaw t.schema

typed_schema-IsRaw : (t : TypeTree) (a : Bool) → IsRaw (typed_schema t a)
typed_schema-IsRaw (primitive name) a = record {
  valid = refl;
  computed = refl;
  resolved = refl;
  enum_ = refl;
  struct_ = refl;
  interface_ = refl;
}
typed_schema-IsRaw (symbol name) a = record {
  valid = refl;
  computed = refl;
  resolved = refl;
  enum_ = refl;
  struct_ = refl;
  interface_ = refl;
}

schema_of-IsRaw : (t : SchemaTree) → IsRaw (schema_of t)
schema_of-IsRaw t = typed_schema-IsRaw t.type t.is_array

properties_of-HasRaw : (ts : List MemberTree) → All HasRaw (properties_of ts)
properties_of-HasRaw [] = tt
properties_of-HasRaw (a_property t ∷ ts) = (schema_of-IsRaw t.schema, properties_of-HasRaw ts)
properties_of-HasRaw (an_operation t ∷ ts) = properties_of-HasRaw ts
properties_of-HasRaw (a_signal t ∷ ts) = properties_of-HasRaw ts

returned_nodes-HasRaw : (t : Option SchemaTree) → All HasRaw (returned_nodes (optional_return t))
returned_nodes-HasRaw none = tt
returned_nodes-HasRaw (some t) = (schema_of-IsRaw t, tt)

operation_nodes-HasRaw : (t : OperationTree) → All HasRaw (operation_nodes (operation_of t))
operation_nodes-HasRaw t =
    All-append HasRaw (map param_of t.params) _
      (All-map HasRaw param_of (λ p. schema_of-IsRaw p.schema) t.params)
      (returned_nodes-HasRaw t.returns)

operations_of-HasRaw :
    (ts : List MemberTree) → All HasRaw (concat_map operation_nodes (operations_of ts))
operations_of-HasRaw [] = tt
operations_of-HasRaw (a_property t ∷ ts) = operations_of-HasRaw ts
operations_of-HasRaw (an_operation t ∷ ts) =
    All-append HasRaw (operation_nodes (operation_of t)) _ (operation_nodes-HasRaw t)
      (operations_of-HasRaw ts)
operations_of-HasRaw (a_signal t ∷ ts) = operations_of-HasRaw ts

signals_of-HasRaw : (ts : List MemberTree) → All HasRaw (concat_map signal_nodes (signals_of ts))
signals_of-HasRaw [] = tt
signals_of-HasRaw (a_property t ∷ ts) = signals_of-HasRaw ts
signals_of-HasRaw (an_operation t ∷ ts) = signals_of-HasRaw ts
signals_of-HasRaw (a_signal t ∷ ts) =
    All-append HasRaw (map param_of t.params) _
      (All-map HasRaw param_of (λ p. schema_of-IsRaw p.schema) t.params) (signals_of-HasRaw ts)

interfaces_of-HasRaw :
    (ts : List DeclarationTree) (next : ℕ)
    → All HasRaw (concat_map interface_nodes (interfaces_of ts next))
interfaces_of-HasRaw [] next = tt
interfaces_of-HasRaw (an_extern t ∷ ts) next = interfaces_of-HasRaw ts next
interfaces_of-HasRaw (an_interface t ∷ ts) next =
    All-append HasRaw
      (properties_of t.members
        ++ (concat_map operation_nodes (operations_of t.members)
            ++ concat_map signal_nodes (signals_of t.members)))
      _
      (All-append HasRaw (properties_of t.members) _ (properties_of-HasRaw t.members) (
        All-append HasRaw (concat_map operation_nodes (operations_of t.members)) _
          (operations_of-HasRaw t.members) (signals_of-HasRaw t.members)))
      (interfaces_of-HasRaw ts (suc next))
interfaces_of-HasRaw (a_struct t ∷ ts) next = interfaces_of-HasRaw ts (suc next)
interfaces_of-HasRaw (an_enum t ∷ ts) next = interfaces_of-HasRaw ts (suc next)

structs_of-HasRaw :
    (ts : List DeclarationTree) (next : ℕ)
    → All HasRaw (concat_map struct_nodes (structs_of ts next))
structs_of-HasRaw [] next = tt
structs_of-HasRaw (an_extern t ∷ ts) next = structs_of-HasRaw ts next
structs_of-HasRaw (an_interface t ∷ ts) next = structs_of-HasRaw ts (suc next)
structs_of-HasRaw (a_struct t ∷ ts) next =
    All-append HasRaw (map field_of t.fields) _
      (All-map HasRaw field_of (λ f. schema_of-IsRaw f.schema) t.fields)
      (structs_of-HasRaw ts (suc next))
structs_of-HasRaw (an_enum t ∷ ts) next = structs_of-HasRaw ts (suc next)

-- Every node of the module that a document says has a schema that is not yet resolved.
pub module_of-HasRaw :
    (t : DocumentTree) (next : ℕ) (es : List Enum) → All HasRaw (module_nodes (module_of t next es))
module_of-HasRaw t next es =
    All-append HasRaw (concat_map interface_nodes (interfaces_of t.declarations next)) _
      (interfaces_of-HasRaw t.declarations next) (structs_of-HasRaw t.declarations next)
