-- ===== src/Gen/State.antt =====
-- The state of pkg/gen/generator.go and its parts: GeneratorStats, Options and generator, the
-- interface of pkg/gen/out.go, and the scopes of pkg/model/scopes.go. Times are not modelled.
use apigear_cli.Base.{ℕ, ◌+◌, String, Bool, Option, none, some, List, [], ◌∷◌, ◌++◌, ◌⊎◌, inl, inr}
use apigear_cli.Base.Dict.{Dict}
use apigear_cli.Model.Data.{Interface, Struct, Enum, Module, System}
use apigear_cli.Spec.Rules.{FeatureError}

-- GeneratorStats, without its times.
pub record GeneratorStats : Type 0 where
  pub files_written : ℕ
  pub files_skipped : ℕ
  pub files_copied : ℕ
  pub files_touched : List String

abbrev pub no_stats : GeneratorStats
no_stats = record { files_written = 0; files_skipped = 0; files_copied = 0; files_touched = [] }

-- GeneratorStats.TotalFiles
abbrev pub total_files : GeneratorStats → ℕ
total_files s = s.files_written + s.files_skipped + s.files_copied

-- What a template is executed with: SystemScope, ModuleScope, InterfaceScope, StructScope and
-- EnumScope. `Meta` is the map of metadata.
pub data Subject : Type 0 where
  the_system : Subject
  the_module : Module → Subject
  the_interface : Module → Interface → Subject
  the_struct : Module → Struct → Subject
  the_enum : Module → Enum → Subject

pub record Scope (Meta : Type 0) : Type 0 where
  pub system : System
  pub subject : Subject
  pub features : Dict Bool
  pub meta : Meta

pub record Options (Meta : Type 0) : Type 0 where
  pub output_dir : String
  pub templates_dir : String
  pub system : Option System
  pub features : List String
  pub force : Bool
  pub dry_run : Bool
  pub meta : Meta

-- OutputWriter, over a disk.
pub record OutputWriter (Bytes Disk : Type 0) : Type 0 where
  pub write : Bytes → String → Disk → Option String × Disk
  pub copy : String → String → Disk → Option String × Disk
  pub compare : Bytes → String → Disk → String ⊎ Bool

-- What the generator calls: RenderString and Template.ExecuteTemplate for a context, filepath.Clean,
-- filepath.IsAbs and filepath.Join, helper.IsFile, and the output writer.
pub record World (Meta Bytes Disk : Type 0) : Type 0 where
  pub render_string : String → Scope Meta → String ⊎ String
  pub execute : String → Scope Meta → String ⊎ Bytes
  pub clean : String → String
  pub is_abs : String → Bool
  pub join_paths : String → String → String
  pub is_file : String → Disk → Bool
  pub output : OutputWriter Bytes Disk

pub data GenError : Type 0 where
  message : String → GenError
  features_failed : FeatureError → GenError

-- The default of New for the features.
abbrev pub with_features : {Meta : Type 0} → Options Meta → Options Meta
with_features opts = elim opts.features [
  | [] ↦ record opts { features = "all" ∷ [] }
  | f ∷ fs ↦ opts
]

-- The checks and the defaults of New, before it parses the templates.
unfoldable pub new : {Meta : Type 0} → Options Meta → String ⊎ Options Meta
new opts = elim opts.system [ none ↦ inl "system is required" | some s ↦ inr (with_features opts) ]

-- generator, without its options.
pub record Generator (Disk : Type 0) : Type 0 where
  pub computed_features : Dict Bool
  pub stats : GeneratorStats
  pub disk : Disk

module _ {Disk : Type 0} where
  abbrev pub count_copied : Generator Disk → Generator Disk
  count_copied g =
      let stats = g.stats in
      record g { stats = record stats { files_copied = stats.files_copied + 1 } }

  abbrev pub count_written : Generator Disk → Generator Disk
  count_written g =
      let stats = g.stats in
      record g { stats = record stats { files_written = stats.files_written + 1 } }

  abbrev pub touch : String → Generator Disk → Generator Disk
  touch target g =
      let stats = g.stats in
      record g { stats = record stats { files_touched = stats.files_touched ++ (target ∷ []) } }

  -- generator.SkipFile
  abbrev pub skip_file : Generator Disk → Generator Disk
  skip_file g =
      let stats = g.stats in
      record g { stats = record stats { files_skipped = stats.files_skipped + 1 } }

  -- The call of an output writer's method that changes the disk.
  abbrev pub on_disk :
      (Disk → Option String × Disk) → Generator Disk → Option String × Generator Disk
  on_disk change g = let (e, d) = change g.disk in (e, record g { disk = d })
