-- ===== src/Model/Visit/Order.antt =====
-- The order in which a traversal visits the nodes.
use apigear_cli.Base.{◌≡◌, refl, Option, none, some, List, [], ◌∷◌, ◌++◌}
use apigear_cli.Base.Loop.{
  do_all, concat_map, Makes, do_all-Makes, then-Makes, one-Makes, node-Makes,
}
use apigear_cli.Model.Data.{
  TypedNode, Signal, Operation, Interface, Struct, EnumMember, Enum, Module, System,
}
use apigear_cli.Model.Visit.{
  ModelVisitor, accept_typed_node, accept_enum_member, accept_signal, accept_return,
  accept_operation, accept_interface, accept_struct, accept_enum, accept_module, accept_system,
}

-- A call of a visitor's method.
pub data Visit : Type 0 where
  a_system : System → Visit
  a_module : Module → Visit
  an_interface : Interface → Visit
  an_operation : Operation → Visit
  a_signal : Signal → Visit
  a_struct : Struct → Visit
  an_enum : Enum → Visit
  an_enum_member : EnumMember → Visit
  a_typed_node : TypedNode → Visit

-- The calls that a traversal makes, where none fails.
abbrev pub return_visits : Option TypedNode → List Visit
return_visits none = []
return_visits (some r) = a_typed_node r ∷ []

abbrev pub typed_visits : List TypedNode → List Visit
typed_visits = concat_map (λ t. a_typed_node t ∷ [])

abbrev pub interface_visits : Interface → List Visit
interface_visits i =
    an_interface i
    ∷ (typed_visits i.properties
        ++ (concat_map (λ o. an_operation o ∷ (typed_visits o.params ++ return_visits o.returns))
              i.operations
            ++ concat_map (λ s. a_signal s ∷ typed_visits s.params) i.signals))

abbrev pub module_visits : Module → List Visit
module_visits m =
    a_module m
    ∷ (concat_map interface_visits m.interfaces
        ++ (concat_map (λ s. a_struct s ∷ typed_visits s.fields) m.structs
            ++ concat_map (λ e. an_enum e ∷ concat_map (λ m. an_enum_member m ∷ []) e.members)
                m.enums))

abbrev pub system_visits : System → List Visit
system_visits s = a_system s ∷ concat_map module_visits s.modules

module _ {E S : Type 0} (v : ModelVisitor E S) where
  abbrev pub call : Visit → S → Option E × S
  call (a_system x) = v.visit_system x
  call (a_module x) = v.visit_module x
  call (an_interface x) = v.visit_interface x
  call (an_operation x) = v.visit_operation x
  call (a_signal x) = v.visit_signal x
  call (a_struct x) = v.visit_struct x
  call (an_enum x) = v.visit_enum x
  call (an_enum_member x) = v.visit_enum_member x
  call (a_typed_node x) = v.visit_typed_node x

  typed-Makes : Makes call (do_all (accept_typed_node v)) typed_visits
  typed-Makes = do_all-Makes call (accept_typed_node v) _ (λ t. one-Makes call (a_typed_node t))

  return-Makes : Makes call (accept_return v) return_visits
  unfolding do_all
  return-Makes none = refl
  return-Makes (some r) = one-Makes call (a_typed_node r)

  signal-Makes : Makes call (accept_signal v) (λ s. a_signal s ∷ typed_visits s.params)
  unfolding accept_signal
  signal-Makes s = node-Makes call (a_signal s) _ (typed-Makes s.params)

  operation-Makes :
      Makes call
        (accept_operation v)
        (λ o. an_operation o ∷ (typed_visits o.params ++ return_visits o.returns))
  unfolding accept_operation
  operation-Makes o =
      node-Makes call (an_operation o) _
        (then-Makes call _ _ (typed-Makes o.params) (return-Makes o.returns))

  interface-Makes : Makes call (accept_interface v) interface_visits
  unfolding accept_interface
  interface-Makes i = node-Makes call (an_interface i) _ (
      then-Makes call _ _ (typed-Makes i.properties) (
        then-Makes call _ _ (do_all-Makes call (accept_operation v) _ operation-Makes i.operations)
          (do_all-Makes call (accept_signal v) _ signal-Makes i.signals)))

  struct-Makes : Makes call (accept_struct v) (λ s. a_struct s ∷ typed_visits s.fields)
  unfolding accept_struct
  struct-Makes s = node-Makes call (a_struct s) _ (typed-Makes s.fields)

  enum-Makes :
      Makes call
        (accept_enum v)
        (λ e. an_enum e ∷ concat_map (λ m. an_enum_member m ∷ []) e.members)
  unfolding accept_enum
  enum-Makes e = node-Makes call (an_enum e) _ (
      do_all-Makes call (accept_enum_member v) _ (λ m. one-Makes call (an_enum_member m)) e.members)

  module-Makes : Makes call (accept_module v) module_visits
  unfolding accept_module
  module-Makes m = node-Makes call (a_module m) _ (
      then-Makes call _ _ (do_all-Makes call (accept_interface v) _ interface-Makes m.interfaces) (
        then-Makes call _ _ (do_all-Makes call (accept_struct v) _ struct-Makes m.structs)
          (do_all-Makes call (accept_enum v) _ enum-Makes m.enums)))

  -- A system's AcceptModelVisitor calls the visitor for the system, and then for each module and what
  -- it holds in the order of `module_visits`, up to the first error. No list of calls has an extern,
  -- an import or a VisitParameter.
  pub accept_system-do_all : (s : System) → accept_system v s ≡ do_all call (system_visits s)
  unfolding accept_system
  accept_system-do_all s =
      node-Makes call (a_system s) _
        (do_all-Makes call (accept_module v) module_visits module-Makes s.modules)
