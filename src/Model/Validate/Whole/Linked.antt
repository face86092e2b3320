-- ===== src/Model/Validate/Whole/Linked.antt =====
-- What Interface.Validate of pkg/model/iface.go leaves of an interface that it accepts: what each of
-- its parts is and points to.
use apigear_cli.Base.{
  ◌≡◌, ◌≢◌, refl, inl, inr, String, ◌==◌, if◌then◌else◌, Option, none, some, List, [], ◌∷◌, map,
  arith, eq_iff, eq_refl, Bool-cases,
}
use apigear_cli.Base.Loop.{All}
use apigear_cli.Model.Data.{
  TypedNode, Signal, Operation, Extends, Interface, Module, System, type_void, new_typed_node,
  return_,
}
use apigear_cli.Model.Lookup.{lookup_interface, lookup_local_interface}
use apigear_cli.Model.Resolve.{schema_validate, typed_validate}
use apigear_cli.Model.Resolve.Sound.{IsRaw}
use apigear_cli.Model.Resolve.Linked.{schema_validate-IsLinked}
use apigear_cli.Model.Resolve.Meant.{
  Points, IsLinked, meant, Named, Absent, in_meant, found-Named, missed-Absent, module_lookup-meant,
}
use apigear_cli.Model.Validate.{
  refer, extends_validate, operation_validate, signal_validate, interface_validate,
}
use apigear_cli.Model.Validate.Whole.WellNamed.{interface_validate-done}

-- Two lists of one length, each element of the first with that of the second.
abbrev Pairwise : {A : Type 0} → (A → A → Type 0) → List A → List A → Type 0
Pairwise R [] [] = Unit {0}
Pairwise R [] (y ∷ ys) = ⊥
Pairwise R (x ∷ xs) [] = ⊥
Pairwise R (x ∷ xs) (y ∷ ys) = R x y × Pairwise R xs ys

Pairwise-map :
    {A : Type 0} {P : A → Type 0} (R : A → A → Type 0) (f : A → A)
    → ((x : A) → P x → R x (f x))
    → (xs : List A) → All P xs
    → Pairwise R xs (map f xs)
Pairwise-map R f each [] all = tt
Pairwise-map R f each (x ∷ xs) (p, all) = (each x p, Pairwise-map R f each xs all)

-- The schemas of a part are as the parser leaves them.
abbrev pub NodeIsRaw : TypedNode → Type 0
NodeIsRaw t = IsRaw t.schema

abbrev pub ReturnIsRaw : Option TypedNode → Type 0
ReturnIsRaw none = Unit {0}
ReturnIsRaw (some t) = NodeIsRaw t

abbrev pub OperationIsRaw : Operation → Type 0
OperationIsRaw o = All NodeIsRaw o.params × ReturnIsRaw o.returns

abbrev pub SignalIsRaw : Signal → Type 0
SignalIsRaw s = All NodeIsRaw s.params

pub record InterfaceIsRaw (i : Interface) : Type 0 where
  pub properties : All NodeIsRaw i.properties
  pub operations : All OperationIsRaw i.operations
  pub signals : All SignalIsRaw i.signals

module _ (sys : Option System) (m : Module) where
  -- What becomes of a property, a parameter or a result: its schema is linked.
  abbrev pub NodeIsLinked : TypedNode → TypedNode → Type 0
  NodeIsLinked t t' = (t'.node ≡ t.node) × IsLinked sys m t.schema t'.schema

  -- An operation without a result gets one of void.
  abbrev pub ReturnIsLinked : Option TypedNode → Option TypedNode → Type 0
  ReturnIsLinked none none = ⊥
  ReturnIsLinked none (some t') = Points t'.schema type_void none none none
  ReturnIsLinked (some t) none = ⊥
  ReturnIsLinked (some t) (some t') = NodeIsLinked t t'

  abbrev pub OperationIsLinked : Operation → Operation → Type 0
  OperationIsLinked o o' =
      (o'.node ≡ o.node)
      × Pairwise NodeIsLinked o.params o'.params
      × ReturnIsLinked o.returns o'.returns

  abbrev pub SignalIsLinked : Signal → Signal → Type 0
  SignalIsLinked s s' = (s'.node ≡ s.node) × Pairwise NodeIsLinked s.params s'.params

  -- What becomes of the reference to the interface that is extended: the import is given, and the
  -- reference is the address of an interface of that name in the module that the import means. Where
  -- there is none, it stays.
  pub data ExtendsIsLinked (e e' : Extends) : Type 0 where
    is_absent : e.name ≡ "" → e' ≡ e → ExtendsIsLinked e e'
    is_found :
        e.name ≢ ""
        → (owner : Module) → meant sys m e.import_ ≡ some owner
        → (x : Interface) → Named (λ (x : Interface). x.name) e.name owner.interfaces x
        → e' ≡ record {
          name = e.name;
          import_ = if e.import_ == "" then m.name else e.import_;
          reference = some x.addr;
        }
        → ExtendsIsLinked e e'
    is_missed :
        e.name ≢ ""
        → ((owner : Module)
            → meant sys m e.import_ ≡ some owner
            → Absent (λ (x : Interface). x.name) e.name owner.interfaces)
        → e' ≡ record e { import_ = if e.import_ == "" then m.name else e.import_ }
        → ExtendsIsLinked e e'

  -- All parts of an interface.
  pub record InterfaceIsLinked (i i' : Interface) : Type 0 where
    pub node : i'.node ≡ i.node
    pub extends : ExtendsIsLinked i.extends i'.extends
    pub properties : Pairwise NodeIsLinked i.properties i'.properties
    pub operations : Pairwise OperationIsLinked i.operations i'.operations
    pub signals : Pairwise SignalIsLinked i.signals i'.signals

  typed_validate-IsLinked : (t : TypedNode) → NodeIsRaw t → NodeIsLinked t (typed_validate sys m t)
  unfolding typed_validate
  typed_validate-IsLinked t raw = (refl, schema_validate-IsLinked sys m t.schema raw)

  no_result :
      Points (typed_validate sys m (new_typed_node "" return_)).schema type_void none none none
  unfolding typed_validate schema_validate new_typed_node
  no_result = record { kind_type = refl; enum_ = refl; struct_ = refl; interface_ = refl }

  operation_validate-IsLinked :
      (o : Operation) → OperationIsRaw o → OperationIsLinked o (operation_validate sys m o)
  unfolding operation_validate
  operation_validate-IsLinked o (params, returns) = (
    refl,
    Pairwise-map NodeIsLinked (typed_validate sys m) typed_validate-IsLinked o.params params,
    result o.returns returns,
  )
    where
      result :
          (r : Option TypedNode)
          → ReturnIsRaw r
          → ReturnIsLinked r (elim r [
            | none ↦ some (typed_validate sys m (new_typed_node "" return_))
            | some t ↦ some (typed_validate sys m t)
          ])
      result none raw = no_result
      result (some t) raw = typed_validate-IsLinked t raw

  signal_validate-IsLinked :
      (s : Signal) → SignalIsRaw s → SignalIsLinked s (signal_validate sys m s)
  unfolding signal_validate
  signal_validate-IsLinked s params = (
    refl,
    Pairwise-map NodeIsLinked (typed_validate sys m) typed_validate-IsLinked s.params params,
  )

  -- The default of the import means the same module.
  meant-default :
      (import_ : String)
      → meant sys m (if import_ == "" then m.name else import_) ≡ meant sys m import_
  meant-default import_ = elim (Bool-cases (import_ == "")) [
    | inl empty ↦ rw (empty, eq_refl m.name) (ground arith)
    | inr given ↦ λ i. meant sys m (if given i then m.name else import_)
  ]

  looked_up :
      (e : Extends)
      → e.name ≢ ""
      → (owner : Option Module) → meant sys m e.import_ ≡ owner
      → (x : Option Interface) → in_meant lookup_local_interface e.name owner ≡ x
      → ExtendsIsLinked e
          (refer sys m x (record e { import_ = if e.import_ == "" then m.name else e.import_ }))
  unfolding lookup_local_interface
  looked_up e given none nowhere none found =
      is_missed given (λ owner here. absurd (cc (nowhere, here))) refl
  looked_up e given none nowhere (some x) found = absurd (cc found)
  looked_up e given (some owner) here none found =
      is_missed given
        (λ other there.
          let same : owner ≡ other = cc (here, there) in
          rw (← same) (missed-Absent _ e.name owner.interfaces found))
        refl
  looked_up e given (some owner) here (some x) found =
      is_found given owner here x (found-Named _ e.name owner.interfaces found) refl

  extends_validate-IsLinked : (e : Extends) → ExtendsIsLinked e (extends_validate sys m e)
  unfolding lookup_interface
  extends_validate-IsLinked e = elim (Bool-cases (e.name == "")) [
    | inl empty ↦ rw empty (is_absent ((eq_iff e.name "").0 empty) refl)
    | inr given ↦
        rw
          (
            given,
            module_lookup-meant lookup_local_interface sys m
                (if e.import_ == "" then m.name else e.import_) e.name,
            meant-default e.import_,
          )
          (looked_up e (λ same. cc ((eq_iff e.name "").1 same, given)) _ refl _ refl)
  ]

  -- If Interface.Validate succeeds, and the schemas were as the parser leaves them, then the reference
  -- to the interface that is extended is the address of one of its name in the module that the import
  -- means, by default the interface's own, or stays where there is none; and each property, parameter
  -- and result keeps its place and its name, and its schema is linked by its type text. An operation
  -- without a result gets one of void.
  pub interface_validate-InterfaceIsLinked :
      (i : Interface)
      → InterfaceIsRaw i
      → (interface_validate sys m i).0 ≡ none
      → InterfaceIsLinked i (interface_validate sys m i).1
  interface_validate-InterfaceIsLinked i raw ok = rw (interface_validate-done sys m i ok) (record {
    node = refl;
    extends = extends_validate-IsLinked i.extends;
    properties =
        Pairwise-map NodeIsLinked (typed_validate sys m) typed_validate-IsLinked i.properties
          raw.properties;
    operations =
        Pairwise-map OperationIsLinked (operation_validate sys m) operation_validate-IsLinked
          i.operations raw.operations;
    signals =
        Pairwise-map SignalIsLinked (signal_validate sys m) signal_validate-IsLinked i.signals
          raw.signals;
  })
