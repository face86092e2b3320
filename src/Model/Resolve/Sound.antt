-- ===== src/Model/Resolve/Sound.antt =====
-- What a found module is called, and the schemas that a parser leaves, for pkg/model/module.go and
-- schema.go.
use apigear_cli.Base.{◌≡◌, String, false, none, some, eq_iff}
use apigear_cli.Base.Lists.{Elem, find_by-some}
use apigear_cli.Model.Data.{Schema, Module, System}
use apigear_cli.Model.Lookup.{lookup_module}

-- The module that the system finds has the name asked for.
pub lookup_module-name :
    (s : System) (name : String) {m : Module}
    → lookup_module s name ≡ some m
    → Elem m s.modules × (m.name ≡ name)
unfolding lookup_module
lookup_module-name s name {m} found =
    let (at, e) = find_by-some _ s.modules found in (at, (eq_iff m.name name).0 e)

-- A schema as a parser leaves it.
pub record IsRaw (s : Schema) : Type 0 where
  pub valid : s.is_valid ≡ false
  pub computed : s.is_computed ≡ false
  pub resolved : s.is_resolved ≡ false
  pub enum_ : s.enum_ ≡ none
  pub struct_ : s.struct_ ≡ none
  pub interface_ : s.interface_ ≡ none
