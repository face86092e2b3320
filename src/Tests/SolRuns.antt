-- ===== src/Tests/SolRuns.antt =====
-- The theorem on pkg/sol/parse.go at two files.
use apigear_cli.Base.{
  ◌≡◌, refl, ℕ, String, Bool, true, false, Option, some, List, [], ◌∷◌, ◌⊎◌, inl, ◌↔◌,
}
use apigear_cli.Base.Text.{has_char}
use apigear_cli.Model.Data.{Module, new_system}
use apigear_cli.Model.Validate.Whole.WellNamed.{SystemIsNamed}
use apigear_cli.Idl.Tree.{DocumentTree, an_extern, a_struct, symbol}
use apigear_cli.Idl.Build.{module_of}
use apigear_cli.Sol.{ext, parse_inputs}
use apigear_cli.Sol.Accepts.{accepts, parse_inputs-accepts_iff}

abbrev document : String → DocumentTree
document name = record {
  module_ = record { metas = []; name = name; version = some "1.0" };
  imports = [];
  declarations =
      an_extern (record { metas = []; name = "Ext" })
      ∷ a_struct (record {
        metas = [];
        name = "Point";
        fields =
            record {
              metas = [];
              readonly = false;
              name = "x";
              schema = record { type = symbol "Ext"; is_array = false };
            }
            ∷ [];
      })
      ∷ [];
}

abbrev trees : String → Option DocumentTree
trees file = some (document file)

abbrev no_data : String → ℕ → String ⊎ (Module × ℕ)
no_data file next = inl "no data"

abbrev always : String → Bool
always file = true

abbrev digest : String → String
digest text = "d"

abbrev modules : List Module
modules = module_of (document "a.idl") 0 [] ∷ module_of (document "b.idl") 1 [] ∷ []

ext_runs : (ext "/a.b/c.d.idl" ≡ ".idl") × (ext "/a.b/c" ≡ "")
unfolding ext has_char
ext_runs = (refl, refl)

parse_inputs-accepts_iff_example :
    (accepts (parse_inputs digest always trees no_data ("a.idl" ∷ "b.idl" ∷ []) (new_system "s", 0))
      ≡ true)
    ↔ SystemIsNamed (let s = new_system "s" in record s { modules = modules })
unfolding ext has_char
parse_inputs-accepts_iff_example =
    parse_inputs-accepts_iff digest always trees no_data (λ t. refl) "s" ("a.idl" ∷ "b.idl" ∷ [])
      (document "a.idl" ∷ document "b.idl" ∷ []) modules (refl, (refl, tt))
      (refl, refl, (refl, refl, tt)) refl
