-- ===== src/Model/Resolve/Linked.antt =====
-- The schema that Validate leaves: its kind, and what its pointers point to.
use apigear_cli.Base.{
  ◌≡◌, refl, inl, inr, String, true, false, Option, none, some, ◌==◌, arith, eq_iff, Bool-cases,
}
use apigear_cli.Base.Lists.{contains}
use apigear_cli.Model.Data.{Schema, Interface, Struct, Enum, Extern, Module, System, type_void}
use apigear_cli.Model.Resolve.Sound.{IsRaw}
use apigear_cli.Model.Lookup.{
  lookup_local_extern, lookup_local_enum, lookup_local_struct, lookup_local_interface,
  lookup_extern, lookup_enum, lookup_struct, lookup_interface,
}
use apigear_cli.Model.Resolve.{default_type, primitives, link, resolve_symbol, schema_validate}
use apigear_cli.Model.Resolve.Meant.{
  meant, IsSymbol, IsLinked, is_void, is_primitive, is_extern, is_enum, is_struct, is_interface,
  is_unknown, in_meant, module_lookup-meant, found-Named, missed-Absent,
}

abbrev validated : Schema → Schema
validated s = record s { is_valid = true; is_computed = true; is_resolved = true }

-- The three ways that Validate takes with a schema that a parser made.
module _ (sys : Option System) (m : Module) (s : Schema) (raw : IsRaw s) where
  schema_validate-void :
      (default_type s.type == "void") ≡ true
      → schema_validate sys m s ≡ record (validated s) {
        type = default_type s.type;
        is_primitive = false;
        is_symbol = false;
        kind_type = type_void;
      }
  unfolding schema_validate
  schema_validate-void e = ground arith

  schema_validate-primitive :
      (default_type s.type == "void") ≡ false
      → contains primitives (default_type s.type) ≡ true
      → schema_validate sys m s ≡ record (validated s) {
        type = default_type s.type;
        is_primitive = true;
        is_symbol = false;
        kind_type = default_type s.type;
      }
  unfolding schema_validate
  schema_validate-primitive e p = ground arith

  schema_validate-symbol :
      (default_type s.type == "void") ≡ false
      → contains primitives (default_type s.type) ≡ false
      → schema_validate sys m s
        ≡ resolve_symbol sys m (record (validated s) {
          type = default_type s.type;
          is_primitive = false;
          is_symbol = true;
        })
  unfolding schema_validate
  schema_validate-symbol e p = ground arith

-- The type text of what is not void is given.
default_type-symbol :
    (type : String) → (default_type type == "void") ≡ false → default_type type ≡ type
default_type-symbol type e = elim (Bool-cases (type == "")) [
  | inl empty ↦ cc (rw empty at e)
  | inr given ↦ rw given
]

-- A type that stands for void is no primitive type.
not_primitive :
    (type : String) → (default_type type == "void") ≡ true → contains primitives type ≡ false
unfolding contains
not_primitive type e = elim (Bool-cases (type == "")) [
  | inl empty ↦ rw ((eq_iff type "").0 empty)
  | inr given ↦ rw ((eq_iff type "void").0 (rw given at e))
]

module _ (sys : Option System) (m : Module) (s : Schema) (raw : IsRaw s) where
  abbrev symbol : Schema
  symbol = record (validated s) { type = s.type; is_primitive = false; is_symbol = true }

  -- The cases of `link`, for what the local lookups of the module that is meant find.
  linked :
      IsSymbol s
      → (owner : Module) → meant sys m s.import_ ≡ some owner
      → (x : Option Extern) → lookup_local_extern owner s.type ≡ x
      → (e : Option Enum) → lookup_local_enum owner s.type ≡ e
      → (c : Option Struct) → lookup_local_struct owner s.type ≡ c
      → (i : Option Interface) → lookup_local_interface owner s.type ≡ i
      → IsLinked sys m s (link x e c i symbol)
  unfolding lookup_local_extern lookup_local_enum lookup_local_struct lookup_local_interface
  linked is owner here (some x) fx e fe c fc i fi =
      is_extern is owner here x (found-Named _ s.type owner.externs fx) (record {
        kind_type = refl;
        enum_ = raw.enum_;
        struct_ = raw.struct_;
        interface_ = raw.interface_;
      })
  linked is owner here none fx (some e) fe c fc i fi =
      is_enum is owner here (missed-Absent _ s.type owner.externs fx) e
        (found-Named _ s.type owner.enums fe)
        (record {
          kind_type = refl;
          enum_ = refl;
          struct_ = raw.struct_;
          interface_ = raw.interface_;
        })
  linked is owner here none fx none fe (some c) fc i fi =
      is_struct is owner here
        (missed-Absent _ s.type owner.externs fx, missed-Absent _ s.type owner.enums fe) c
        (found-Named _ s.type owner.structs fc)
        (record {
          kind_type = refl;
          enum_ = raw.enum_;
          struct_ = refl;
          interface_ = raw.interface_;
        })
  linked is owner here none fx none fe none fc (some i) fi =
      is_interface is owner here
        (
          missed-Absent _ s.type owner.externs fx,
          missed-Absent _ s.type owner.enums fe,
          missed-Absent _ s.type owner.structs fc,
        )
        i (found-Named _ s.type owner.interfaces fi)
        (record { kind_type = refl; enum_ = raw.enum_; struct_ = raw.struct_; interface_ = refl })
  linked is owner here none fx none fe none fc none fi =
      is_unknown is
        (λ other there.
          let same : owner ≡ other = cc (here, there) in
          rw (← same) (
            missed-Absent _ s.type owner.externs fx,
            missed-Absent _ s.type owner.enums fe,
            missed-Absent _ s.type owner.structs fc,
            missed-Absent _ s.type owner.interfaces fi,
          ))
        (record {
          kind_type = refl;
          enum_ = raw.enum_;
          struct_ = raw.struct_;
          interface_ = raw.interface_;
        })

  linked_in :
      IsSymbol s
      → (owner : Option Module) → meant sys m s.import_ ≡ owner
      → IsLinked sys m s (
          link
            (in_meant lookup_local_extern s.type owner)
            (in_meant lookup_local_enum s.type owner)
            (in_meant lookup_local_struct s.type owner)
            (in_meant lookup_local_interface s.type owner)
            symbol)
  linked_in is none nowhere =
      is_unknown is (λ other there. absurd (cc (nowhere, there)))
        (record {
          kind_type = refl;
          enum_ = raw.enum_;
          struct_ = raw.struct_;
          interface_ = raw.interface_;
        })
  linked_in is (some owner) here = linked is owner here _ refl _ refl _ refl _ refl

  IsLinked-symbol : IsSymbol s → IsLinked sys m s (resolve_symbol sys m symbol)
  unfolding lookup_extern lookup_enum lookup_struct lookup_interface
  IsLinked-symbol is =
      rw
        (
          module_lookup-meant lookup_local_extern sys m s.import_ s.type,
          module_lookup-meant lookup_local_enum sys m s.import_ s.type,
          module_lookup-meant lookup_local_struct sys m s.import_ s.type,
          module_lookup-meant lookup_local_interface sys m s.import_ s.type,
        )
        (linked_in is (meant sys m s.import_) refl)

  -- Validating a schema that is not yet validated and points nowhere gives it a kind and pointers by its
  -- type text: void, a primitive type, or the first of an extern, an enum, a struct and an interface of
  -- that name, to whose object it points (for an extern, to none), in the module that its import means.
  -- Where there is none of these, the kind stays and nothing is pointed to.
  pub schema_validate-IsLinked : IsLinked sys m s (schema_validate sys m s)
  schema_validate-IsLinked = elim (Bool-cases (default_type s.type == "void")) [
    | inl e ↦ rw (schema_validate-void sys m s raw e) (
        is_void ((eq_iff (default_type s.type) "void").0 e) (record {
          kind_type = refl;
          enum_ = raw.enum_;
          struct_ = raw.struct_;
          interface_ = raw.interface_;
        }))
    | inr e ↦
        let same = default_type-symbol s.type e in
        elim (Bool-cases (contains primitives (default_type s.type))) [
          | inl p ↦ rw (schema_validate-primitive sys m s raw e p) (
              is_primitive (rw same at p) (record {
                kind_type = same;
                enum_ = raw.enum_;
                struct_ = raw.struct_;
                interface_ = raw.interface_;
              }))
          | inr p ↦
              rw (schema_validate-symbol sys m s raw e p, same) (IsLinked-symbol (e, rw same at p))
        ]
  ]
