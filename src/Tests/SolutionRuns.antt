-- ===== src/Tests/SolutionRuns.antt =====
-- The theorem on pkg/sol/read.go and runner.go at a solution of a target and a layer.
use apigear_cli.Base.{
  ◌≡◌, refl, ◌⊎◌, String, true, false, not, ◌<>◌, none, some, [], ◌∷◌, inr, ◌==◌, map,
}
use apigear_cli.Base.Loop.{each}
use apigear_cli.Spec.Solution.{
  World, SolutionTarget, SolutionDoc, solution_validate, validate_targets, target_validate, expand,
  record_dependencies,
}
use apigear_cli.Sol.Read.{read_solution_doc, force_targets, read_solution_doc-solution_validate}

abbrev world : World
world = record {
  join = λ a b. a <> ("/" <> b);
  is_dir = λ path. not (path == "/sol/qt");
  is_file = λ path. true;
  expand_inputs = λ root inputs. inr (map (λ i. root <> ("/" <> i)) inputs);
  check_file = λ path. inr true;
  install_template = λ template. inr "qt@latest";
  template_dir_of = λ id. inr ("/cache/" <> id);
}

abbrev target : String → String → SolutionTarget
target name template = record {
  name = name;
  description = "";
  inputs = "demo.idl" ∷ [];
  output = "out";
  template = template;
  features = none;
  force = false;
  computed = false;
  expanded_inputs = [];
  dependencies = [];
  template_dir = "";
  templates_dir = "";
  rules_file = "";
}

abbrev solution : SolutionDoc
solution = record {
  version = "1.0";
  name = "s";
  description = "";
  root_dir = "/sol";
  layers = target "b" "qt" ∷ [];
  targets = target "a" "tpl" ∷ [];
  computed = false;
}

abbrev validated : SolutionDoc
validated = record solution {
  layers = [];
  targets =
      record (target "a" "tpl") {
        features = some ("all" ∷ []);
        computed = true;
        expanded_inputs = "/sol/demo.idl" ∷ [];
        dependencies = "/sol/tpl/templates" ∷ "/sol/tpl/rules.yaml" ∷ "/sol/demo.idl" ∷ [];
        template_dir = "/sol/tpl";
        templates_dir = "/sol/tpl/templates";
        rules_file = "/sol/tpl/rules.yaml";
      }
      ∷ record (target "b" "qt@latest") {
        features = some ("all" ∷ []);
        computed = true;
        expanded_inputs = "/sol/demo.idl" ∷ [];
        dependencies =
            "/cache/qt@latest/templates" ∷ "/cache/qt@latest/rules.yaml" ∷ "/sol/demo.idl" ∷ [];
        template_dir = "/cache/qt@latest";
        templates_dir = "/cache/qt@latest/templates";
        rules_file = "/cache/qt@latest/rules.yaml";
      }
      ∷ [];
  computed = true;
}

solution_validate_runs : solution_validate world solution ≡ (none, validated)
unfolding solution_validate validate_targets each target_validate expand record_dependencies
solution_validate_runs = refl

named : (template id : String) → world.install_template template ≡ inr id → (id == "") ≡ false
named template id e = let same : "qt@latest" ≡ id = cc e in rw (← same) refl

abbrev load : String → String ⊎ SolutionDoc
load file = inr solution

abbrev dir : String → String
dir file = "/"

abbrev abs : String → String ⊎ String
abs path = inr path

solution_read : read_solution_doc world load dir abs "/sol/s.yaml" ≡ inr validated
unfolding read_solution_doc solution_validate validate_targets each target_validate expand
    record_dependencies
solution_read = refl

read_solution_doc-solution_validate_example :
    solution_validate world (force_targets true validated) ≡ (none, force_targets true validated)
read_solution_doc-solution_validate_example =
    read_solution_doc-solution_validate world named load dir abs "/sol/s.yaml" true solution_read
