-- ===== src/Tests/GeneratorRuns.antt =====
-- The theorems on pkg/gen/generator.go at a small rules document, with a disk in memory.
use apigear_cli.Base.{
  ◌≡◌, refl, ◌⊎◌, inl, Bool-cases, Option-cases, inr, ◌+◌, String, Bool, true, false, Option, none,
  some, [], ◌∷◌, ◌==◌, ◌<>◌, eq_iff, eq_refl, if◌then◌else◌,
}
use apigear_cli.Base.Lists.{length, contains}
use apigear_cli.Base.Loop.{first_error, do_all}
use apigear_cli.Base.Dict.{Dict, lookup, insert, lookup-insert}
use apigear_cli.Model.Data.{System, new_module, new_system}
use apigear_cli.Spec.Rules.{
  DocumentRule, FeatureRule, scope_module, skip_all, compute_features, find_scopes_by_match,
}
use apigear_cli.Spec.Rules.Checks.{
  rules_validate, feature_validate, scope_validate, document_validate,
}
use apigear_cli.Gen.State.{Options, World, Generator, no_stats, total_files, skip_file}
use apigear_cli.Gen.Generator.{write_file, write_to_output, process_features, process_rules}
use apigear_cli.Gen.Generator.Disk.{process_rules-dry_run, process_rules-Touched}
use apigear_cli.Gen.Generator.Counts.{enabled_documents, process_rules-total_files}
use apigear_cli.Gen.Writer.{Os, KeepsFiles, ReadsBack, on_os, is_file, fs_write, fs_writer}
use apigear_cli.Gen.Generator.Twice.{process_features-Keeps, write_file-write_file}

-- A disk of files, where the path out/b.h is a link to another.
abbrev real : String → String
real path = if path == "out/b.h" then "out/c.h" else path

abbrev stat_of : Option String → String ⊎ Bool
stat_of none = inl "file does not exist"
stat_of (some content) = inr false

abbrev content_of : Option String → String ⊎ String
content_of none = inl "file does not exist"
content_of (some content) = inr content

-- A file that is read is its content, and one that is written is its path.
abbrev memory : Os String String (Dict String)
memory = record {
  dir = λ path. "out";
  mkdir_all = λ dir d. (none, d);
  write_bytes = λ target input d. (none, insert (real target) input d);
  stat = λ path d. stat_of (lookup (real path) d);
  is_not_exist = λ e. e == "file does not exist";
  read_bytes = λ path d. content_of (lookup (real path) d);
  open_file = λ path d. content_of (lookup (real path) d);
  create = λ path d. (inr (real path), insert (real path) "" d);
  io_copy = λ target content d. (none, insert target content d);
  md5 = λ content. content;
}

-- The templates and the paths. The functions on the disk are those of the writer.
abbrev templates : World (Unit {0}) String (Dict String)
templates = record {
  render_string = λ text ctx. inr text;
  execute = λ source ctx. inr ("rendered " <> source);
  clean = λ path. path;
  is_abs = λ path. false;
  join_paths = λ dir path. dir <> "/" <> path;
  is_file = is_file memory;
  output = fs_writer memory;
}

abbrev world : World (Unit {0}) String (Dict String)
world = on_os memory templates

abbrev demo : System
demo =
    let s = new_system "demo" in
    record s { modules = new_module "a" "1.0" ∷ new_module "b" "1.0" ∷ [] }

abbrev options : Bool → Options (Unit {0})
options dry_run = record {
  output_dir = "out";
  templates_dir = "tpl";
  system = some demo;
  features = "all" ∷ [];
  force = false;
  dry_run = dry_run;
  meta = tt;
}

abbrev header : DocumentRule
header = record { source = "a.tpl"; target = ""; raw = false; force = false; preserve = true }

abbrev core : FeatureRule
core = record {
  name = "core";
  requires = [];
  scopes = record { match = scope_module; prefix = "src/"; documents = header ∷ [] } ∷ [];
  skip = false;
}

abbrev start : Generator (Dict String)
start = record {
  computed_features = [];
  stats = no_stats;
  disk = record { key = "out/src/a.tpl"; value = "mine" } ∷ [];
}

process_rules-dry_run_example :
    (process_rules world (options true) (core ∷ []) start).2.disk ≡ start.disk
process_rules-dry_run_example = process_rules-dry_run world (options true) refl (core ∷ []) start

core_valid : rules_validate (core ∷ []) ≡ none
unfolding rules_validate first_error feature_validate scope_validate document_validate
core_valid = refl

process_rules-Touched_example :
    length (process_rules world (options false) (core ∷ []) start).2.stats.files_touched ≡ (
      if false
      then (process_rules world (options false) (core ∷ []) start).2.stats.files_written
        + (process_rules world (options false) (core ∷ []) start).2.stats.files_copied
      else (process_rules world (options false) (core ∷ []) start).2.stats.files_written)
process_rules-Touched_example =
    process_rules-Touched world (options false) (core ∷ []) start core_valid

core_done : (process_rules world (options false) (core ∷ []) start).0 ≡ none
unfolding process_rules rules_validate first_error feature_validate scope_validate document_validate
    compute_features skip_all contains do_all find_scopes_by_match new_module new_system lookup
    is_file
core_done = refl

process_rules-total_files_example :
    total_files (process_rules world (options false) (core ∷ []) start).2.stats
    ≡ enabled_documents demo (process_rules world (options false) (core ∷ []) start).1
process_rules-total_files_example =
    process_rules-total_files world (options false) demo refl (core ∷ []) start core_done

-- A path that is no file is not one that can be read.
nothing_read :
    (target path x : String) (d : Dict String)
    → is_file memory target d ≡ false
    → content_of (lookup (real path) d) ≡ inr x
    → (real path == real target) ≡ false
unfolding is_file
nothing_read target path x d new there = elim (Bool-cases (real path == real target)) [
  | inr other ↦ other
  | inl same ↦
      let e : real path ≡ real target = (eq_iff (real path) (real target)).0 same in
      elim (Option-cases (lookup (real target) d)) [
        | inl gone ↦ absurd (cc (rw (e, gone) at there))
        | inr (y, found) ↦ absurd (cc (rw found at new))
      ]
]

memory-KeepsFiles : KeepsFiles memory
memory-KeepsFiles = record {
  mkdir_reads = λ dir path x d there. there;
  mkdir_files = λ target d new. new;
  write_reads = λ target path input x d new there.
      rw (lookup-insert (real target) (real path) input d, nothing_read target path x d new there)
        there;
}

memory-ReadsBack : (target input : String) (d : Dict String) → ReadsBack memory target input d
memory-ReadsBack target input d ok =
    let back = lookup-insert (real target) (real target) input d in
    (rw (back, eq_refl (real target)) refl, rw (back, eq_refl (real target)) refl)

mine_there : memory.read_bytes "out/src/a.tpl" start.disk ≡ inr "mine"
unfolding lookup
mine_there = refl

process_features-Keeps_example :
    memory.read_bytes "out/src/a.tpl"
      (process_features world (options false) demo (core ∷ []) start).1.disk
    ≡ inr "mine"
process_features-Keeps_example =
    process_features-Keeps memory templates (options false) refl memory-KeepsFiles demo (core ∷ [])
      ((((refl, refl), tt), tt), tt) start "out/src/a.tpl" "mine" mine_there

first_write : (write_file world (options false) "new" "b.h" false start).0 ≡ none
unfolding write_file write_to_output lookup is_file fs_write
first_write = refl

write_file-write_file_example :
    write_file world
      (options false)
      "new"
      "b.h"
      false
      (write_file world (options false) "new" "b.h" false start).1
    ≡ (none, skip_file (write_file world (options false) "new" "b.h" false start).1)
write_file-write_file_example =
    write_file-write_file memory templates (options false) refl "b.h" "new" start
      (memory-ReadsBack "out/b.h" "new" start.disk) refl false first_write
