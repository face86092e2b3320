-- ===== src/Idl/Read/Files.antt =====
-- LoadIdlFromFiles of pkg/idl/helper.go, for files that hold documents.
use apigear_cli.Base.{
  ℕ, String, Bool, true, Option, none, some, List, [], ◌∷◌, ◌++◌, ◌≡◌, refl, sym, ap, ◌∙◌,
  if◌then◌else◌, Bool-cases, inl, inr,
}
use apigear_cli.Base.Lists.{append-cons, append-nil}
use apigear_cli.Model.Data.{Module, System, new_system}
use apigear_cli.Idl.Tree.{DocumentTree}
use apigear_cli.Idl.Build.{cons_option, document_of, next_after}
use apigear_cli.Idl.Parser.{
  ParseError, Outcome, panics, fails, gives, no_such_file, not_readable, Heap, walked, parse_stream,
  and_then, parse_file, parse_files, load_idl_from_files,
}
use apigear_cli.Idl.Read.Whole.{finished, run-document}

-- The modules that documents say, at addresses that go on from one to the next.
abbrev pub modules_of : List DocumentTree → ℕ → Option (List Module)
modules_of [] next = some []
modules_of (t ∷ ts) next =
    cons_option (document_of t next) (modules_of ts (next_after t.declarations next))

abbrev pub next_of : List DocumentTree → ℕ → ℕ
next_of [] next = next
next_of (t ∷ ts) next = next_of ts (next_after t.declarations next)

abbrev pub appended : System → ℕ → Option (List Module) → Outcome Heap
appended system next none = panics
appended system next (some ms) = gives (record system { modules = system.modules ++ ms }, next)

-- A system of the modules, or the panic.
abbrev pub loaded : String → Option (List Module) → Outcome System
loaded name none = panics
loaded name (some ms) = gives (record (new_system name) { modules = ms })

module _ (is_file : String → Bool) (file_tree : String → Option DocumentTree) where
  -- Each of the files holds the document at its place.
  abbrev pub Holds : List String → List DocumentTree → Type 0
  Holds [] [] = Unit {0}
  Holds [] (t ∷ ts) = ⊥
  Holds (file ∷ files) [] = ⊥
  Holds (file ∷ files) (t ∷ ts) = (is_file file ≡ true) × (file_tree file ≡ some t) × Holds files ts

  parse_file-Holds :
      (file : String) (t : DocumentTree)
      → is_file file ≡ true
      → file_tree file ≡ some t
      → (heap : Heap) → parse_file is_file file_tree file heap ≡ parse_stream t heap
  unfolding parse_file
  parse_file-Holds file t h e heap = rw (h, e)

  appended-first :
      (system : System) (m : Module) (next : ℕ) (ms : Option (List Module))
      → appended (record system { modules = system.modules ++ (m ∷ []) }) next ms
        ≡ appended system next (cons_option (some m) ms)
  appended-first system m next none = refl
  appended-first system m next (some ms) =
      λ i. gives (record system { modules = append-cons system.modules m ms i }, next)

  parse_files-after :
      (ts : List DocumentTree) (next next' : ℕ) (system : System) (rest : Heap → Outcome Heap)
      → ((system : System)
          → rest (system, next') ≡ appended system (next_of ts next') (modules_of ts next'))
      → (m : Option Module)
      → and_then (walked (finished system next' m)) rest
        ≡ appended system (next_of ts next') (cons_option m (modules_of ts next'))
  parse_files-after ts next next' system rest after none = refl
  parse_files-after ts next next' system rest after (some m) =
      after (record system { modules = system.modules ++ (m ∷ []) })
      ∙ appended-first system m (next_of ts next') (modules_of ts next')

  pub parse_files-Holds :
      (files : List String) (ts : List DocumentTree)
      → Holds files ts
      → (next : ℕ) (system : System)
      → parse_files is_file file_tree files (system, next)
        ≡ appended system (next_of ts next) (modules_of ts next)
  unfolding parse_files parse_stream
  parse_files-Holds [] [] holds next system =
      λ i. gives (record system { modules = sym (append-nil system.modules) i }, next)
  parse_files-Holds [] (t ∷ ts) holds next system = absurd holds
  parse_files-Holds (file ∷ files) [] holds next system = absurd holds
  parse_files-Holds (file ∷ files) (t ∷ ts) (h, e, holds) next system =
      let next' = next_after t.declarations next in
      ap (λ r. and_then r (parse_files is_file file_tree files))
        (parse_file-Holds file t h e (system, next) ∙ ap walked (run-document t system next))
      ∙ parse_files-after ts next next' system (parse_files is_file file_tree files)
          (parse_files-Holds files ts holds next') (document_of t next)

  loaded-appended :
      (name : String) (next : ℕ) (ms : Option (List Module))
      → and_then (appended (new_system name) next ms) (λ heap. gives heap.0) ≡ loaded name ms
  unfolding new_system
  loaded-appended name next none = refl
  loaded-appended name next (some ms) = refl

  -- Files that hold documents are loaded as the system of that name with the modules that the documents
  -- say, in the order of the files; the load panics exactly if one of the modules cannot be made.
  pub load_idl_from_files-Holds :
      (name : String) (files : List String) (ts : List DocumentTree)
      → Holds files ts
      → load_idl_from_files is_file file_tree name files ≡ loaded name (modules_of ts 0)
  unfolding load_idl_from_files
  load_idl_from_files-Holds name files ts holds =
      ap (λ r. and_then r (λ heap. gives heap.0))
        (parse_files-Holds files ts holds 0 (new_system name))
      ∙ loaded-appended name (next_of ts 0) (modules_of ts 0)

  and_then-and_then :
      {A B C : Type 0} (f : A → Outcome B) (g : B → Outcome C) (r : Outcome A)
      → and_then (and_then r f) g ≡ and_then r (λ a. and_then (f a) g)
  and_then-and_then f g panics = refl
  and_then-and_then f g (fails e) = refl
  and_then-and_then f g (gives a) = refl

  parse_files-append :
      (xs ys : List String) (heap : Heap)
      → parse_files is_file file_tree (xs ++ ys) heap
        ≡ and_then (parse_files is_file file_tree xs heap) (parse_files is_file file_tree ys)
  unfolding parse_files
  parse_files-append [] ys heap = refl
  parse_files-append (x ∷ xs) ys heap =
      (λ i. and_then (parse_file is_file file_tree x heap) (λ h. parse_files-append xs ys h i))
      ∙ sym (
          and_then-and_then (parse_files is_file file_tree xs) (parse_files is_file file_tree ys)
            (parse_file is_file file_tree x heap))

  -- The error of a file that is none, or that cannot be read.
  abbrev pub refusal : String → ParseError
  refusal file = if is_file file then not_readable file else no_such_file file

  parse_file-refusal :
      (file : String)
      → (is_file file ≡ true → file_tree file ≡ none)
      → (heap : Heap) → parse_file is_file file_tree file heap ≡ fails (refusal file)
  unfolding parse_file
  parse_file-refusal file unreadable heap = elim (Bool-cases (is_file file)) [
    | inl h ↦ rw (h, unreadable h)
    | inr h ↦ rw h
  ]

  -- Where files that hold documents whose modules can be made are followed by one that is no file or
  -- that cannot be read, the load ends with that file's error, no such file or not readable, and no
  -- system is returned, whatever files follow.
  pub load_idl_from_files-refusal :
      (name : String) (files : List String) (ts : List DocumentTree) (bad : String)
      (others : List String) {ms : List Module}
      → Holds files ts
      → modules_of ts 0 ≡ some ms
      → (is_file bad ≡ true → file_tree bad ≡ none)
      → load_idl_from_files is_file file_tree name (files ++ (bad ∷ others)) ≡ fails (refusal bad)
  unfolding load_idl_from_files parse_files
  load_idl_from_files-refusal name files ts bad others holds made unreadable = rw (
    parse_files-append files (bad ∷ others) (new_system name, 0),
    parse_files-Holds files ts holds 0 (new_system name),
    made,
    parse_file-refusal bad unreadable _,
  )
