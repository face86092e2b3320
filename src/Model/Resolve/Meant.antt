-- ===== src/Model/Resolve/Meant.antt =====
-- What a type text means in a module, as an independent description of what the Validate method of
-- schema.go leaves: the kind and the pointers of a schema.
use apigear_cli.Base.{
  ◌≡◌, ◌≢◌, refl, sym, inl, inr, String, true, ◌||◌, if◌then◌else◌, Option-cases, false, Option,
  none, some, List, ◌==◌, arith, eq_iff, Bool-cases, ℕ,
}
use apigear_cli.Base.Lists.{contains, Elem, find_by, find_by-some, find_by-none}
use apigear_cli.Model.Data.{
  Schema, Interface, Struct, Enum, Extern, Module, System, type_void, type_extern, type_enum,
  type_struct, type_interface,
}
use apigear_cli.Model.Resolve.Sound.{lookup_module-name}
use apigear_cli.Model.Lookup.{lookup_module, system_lookup, module_lookup}
use apigear_cli.Model.Resolve.{default_type, primitives}

-- The module that an import means: the module itself if the import is empty or its own name, and else
-- the one of that name in the system, if there is one.
abbrev pub meant : Option System → Module → String → Option Module
meant sys m import_ =
    if import_ == "" || import_ == m.name
    then some m
    else elim sys [ none ↦ none | some s ↦ lookup_module s import_ ]

-- An element of the list of that name, and that there is none.
abbrev pub Named : {A : Type 0} → (A → String) → String → List A → A → Type 0
Named name type xs x = Elem x xs × (name x ≡ type)

abbrev pub Absent : {A : Type 0} → (A → String) → String → List A → Type 0
Absent {A} name type xs = (x : A) → Elem x xs → name x ≢ type

-- The kind of a schema, and its pointers to an enum, a struct and an interface.
pub record Points (t : Schema) (kind : String) (enum struct interface : Option ℕ) : Type 0 where
  pub kind_type : t.kind_type ≡ kind
  pub enum_ : t.enum_ ≡ enum
  pub struct_ : t.struct_ ≡ struct
  pub interface_ : t.interface_ ≡ interface

-- A type text that is neither void nor a primitive type.
abbrev pub IsSymbol : Schema → Type 0
IsSymbol s = ((default_type s.type == "void") ≡ false) × (contains primitives s.type ≡ false)

-- What a module has of the name that a schema asks for.
module _ (s : Schema) (owner : Module) where
  abbrev pub NoExtern : Type 0
  NoExtern = Absent (λ (x : Extern). x.name) s.type owner.externs

  abbrev pub NoEnum : Type 0
  NoEnum = Absent (λ (x : Enum). x.name) s.type owner.enums

  abbrev pub NoStruct : Type 0
  NoStruct = Absent (λ (x : Struct). x.name) s.type owner.structs

  abbrev pub NoInterface : Type 0
  NoInterface = Absent (λ (x : Interface). x.name) s.type owner.interfaces

-- What the type text of `s` comes to in `t`: void, a primitive type, or the object of that name in the
-- module that the import means, an extern before an enum, an enum before a struct, and a struct before
-- an interface. A name of no object keeps the kind, and has no pointer.
pub data IsLinked (sys : Option System) (m : Module) (s t : Schema) : Type 0 where
  is_void : default_type s.type ≡ "void" → Points t type_void none none none → IsLinked sys m s t
  is_primitive :
      contains primitives s.type ≡ true → Points t s.type none none none → IsLinked sys m s t
  is_extern :
      IsSymbol s
      → (owner : Module) → meant sys m s.import_ ≡ some owner
      → (x : Extern) → Named (λ (x : Extern). x.name) s.type owner.externs x
      → Points t type_extern none none none
      → IsLinked sys m s t
  is_enum :
      IsSymbol s
      → (owner : Module) → meant sys m s.import_ ≡ some owner
      → NoExtern s owner
      → (x : Enum) → Named (λ (x : Enum). x.name) s.type owner.enums x
      → Points t type_enum (some x.addr) none none
      → IsLinked sys m s t
  is_struct :
      IsSymbol s
      → (owner : Module) → meant sys m s.import_ ≡ some owner
      → NoExtern s owner × NoEnum s owner
      → (x : Struct) → Named (λ (x : Struct). x.name) s.type owner.structs x
      → Points t type_struct none (some x.addr) none
      → IsLinked sys m s t
  is_interface :
      IsSymbol s
      → (owner : Module) → meant sys m s.import_ ≡ some owner
      → NoExtern s owner × NoEnum s owner × NoStruct s owner
      → (x : Interface) → Named (λ (x : Interface). x.name) s.type owner.interfaces x
      → Points t type_interface none none (some x.addr)
      → IsLinked sys m s t
  is_unknown :
      IsSymbol s
      → ((owner : Module)
          → meant sys m s.import_ ≡ some owner
          → NoExtern s owner × NoEnum s owner × NoStruct s owner × NoInterface s owner)
      → Points t s.kind_type none none none
      → IsLinked sys m s t

abbrev pub in_meant :
    {A : Type 0} → (Module → String → Option A) → String → Option Module → Option A
in_meant local name none = none
in_meant local name (some owner) = local owner name

system_lookup-meant :
    {A : Type 0} (local : Module → String → Option A) (s : System) (import_ name : String)
    → system_lookup local s import_ name ≡ in_meant local name (lookup_module s import_)
unfolding system_lookup
system_lookup-meant local s import_ name = elim (Option-cases (lookup_module s import_)) [
  | inl e ↦ rw (e, system_lookup)
  | inr (owner, e) ↦
      let (at, same) = lookup_module-name s import_ e in
      rw (e, system_lookup) (ground (arith, (eq_iff import_ owner.name).1 (sym same)))
]

-- Each lookup is the local one of the module that is meant.
pub module_lookup-meant :
    {A : Type 0} (local : Module → String → Option A) (sys : Option System) (m : Module)
    (import_ name : String)
    → module_lookup local sys m import_ name ≡ in_meant local name (meant sys m import_)
unfolding module_lookup
module_lookup-meant local sys m import_ name =
    elim (Bool-cases (import_ == "" || import_ == m.name)) [
      | inl here ↦ rw here
      | inr there ↦ rw there (elsewhere sys)
    ]
  where
    elsewhere :
        (sys : Option System)
        → elim sys [ none ↦ none | some s ↦ system_lookup local s import_ name ]
          ≡ in_meant local name (elim sys [ none ↦ none | some s ↦ lookup_module s import_ ])
    elsewhere none = refl
    elsewhere (some s) = system_lookup-meant local s import_ name

pub found-Named :
    {A : Type 0} (name : A → String) (type : String) (xs : List A) {x : A}
    → find_by (λ x. name x == type) xs ≡ some x
    → Named name type xs x
found-Named name type xs {x} found =
    let (at, same) = find_by-some (λ x. name x == type) xs found in
    (at, (eq_iff (name x) type).0 same)

pub missed-Absent :
    {A : Type 0} (name : A → String) (type : String) (xs : List A)
    → find_by (λ x. name x == type) xs ≡ none
    → Absent name type xs
missed-Absent name type xs missed x at same =
    let other = find_by-none (λ x. name x == type) xs missed x at in
    cc ((eq_iff (name x) type).1 same, other)
