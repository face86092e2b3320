-- ===== src/Model/Visit.antt =====
-- visitor.go and the AcceptModelVisitor methods of the model's types. A visitor's methods read the
-- node, change a state of the visitor's own, and may return an error, which ends the traversal.
pub mod Order
use apigear_cli.Base.{Option, none, some, List}
use apigear_cli.Base.Loop.{then_do, do_all}
use apigear_cli.Model.Data.{
  TypedNode, Signal, Operation, Interface, Struct, EnumMember, Enum, Extern, Module, System,
}

-- ModelVisitor
pub record ModelVisitor (E S : Type 0) : Type 0 where
  pub visit_system : System → S → Option E × S
  pub visit_module : Module → S → Option E × S
  pub visit_extern : Extern → S → Option E × S
  pub visit_interface : Interface → S → Option E × S
  pub visit_operation : Operation → S → Option E × S
  pub visit_parameter : TypedNode → S → Option E × S
  pub visit_signal : Signal → S → Option E × S
  pub visit_struct : Struct → S → Option E × S
  pub visit_enum : Enum → S → Option E × S
  pub visit_enum_member : EnumMember → S → Option E × S
  pub visit_typed_node : TypedNode → S → Option E × S

module _ {E S : Type 0} where
  module _ (v : ModelVisitor E S) where
    abbrev pub accept_typed_node : TypedNode → S → Option E × S
    accept_typed_node t s = v.visit_typed_node t s

    abbrev pub accept_enum_member : EnumMember → S → Option E × S
    accept_enum_member m s = v.visit_enum_member m s

    unfoldable pub accept_signal : Signal → S → Option E × S
    accept_signal x s = then_do (do_all accept_typed_node x.params) (v.visit_signal x s)

    abbrev pub accept_return : Option TypedNode → S → Option E × S
    accept_return none s = (none, s)
    accept_return (some r) s = accept_typed_node r s

    unfoldable pub accept_operation : Operation → S → Option E × S
    accept_operation o s =
        then_do (λ s. then_do (accept_return o.returns) (do_all accept_typed_node o.params s))
          (v.visit_operation o s)

    unfoldable pub accept_interface : Interface → S → Option E × S
    accept_interface i s =
        then_do
          (λ s.
            then_do
              (λ s.
                then_do (do_all accept_signal i.signals) (do_all accept_operation i.operations s))
              (do_all accept_typed_node i.properties s))
          (v.visit_interface i s)

    unfoldable pub accept_struct : Struct → S → Option E × S
    accept_struct x s = then_do (do_all accept_typed_node x.fields) (v.visit_struct x s)

    unfoldable pub accept_enum : Enum → S → Option E × S
    accept_enum e s = then_do (do_all accept_enum_member e.members) (v.visit_enum e s)

    unfoldable pub accept_module : Module → S → Option E × S
    accept_module m s =
        then_do
          (λ s.
            then_do (λ s. then_do (do_all accept_enum m.enums) (do_all accept_struct m.structs s))
              (do_all accept_interface m.interfaces s))
          (v.visit_module m s)

    unfoldable pub accept_system : System → S → Option E × S
    accept_system x s = then_do (do_all accept_module x.modules) (v.visit_system x s)
