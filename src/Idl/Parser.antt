-- ===== src/Idl/Parser.antt =====
-- pkg/idl/parser.go and helper.go: from files or a text to a system. What the operating system and
-- the lexer and parser that ANTLR generates do are parameters: `is_file` is helper.IsFile,
-- `file_tree` is the tree of what a file holds, or none if it cannot be read, and `text_tree` the
-- tree of a text. The files and the texts have no syntax errors.
use apigear_cli.Base.{ℕ, String, Bool, not, Option, none, some, List, [], ◌∷◌, if◌then◌else◌}
use apigear_cli.Model.Data.{System, new_system}
use apigear_cli.Idl.Tree.{DocumentTree}
use apigear_cli.Idl.Listener.{Listener, new_listener, run}
use apigear_cli.Idl.Walk.{document_events}

pub data ParseError : Type 0 where
  no_such_file not_readable : String → ParseError

-- What a call comes to: a panic, an error, or a value.
pub data Outcome (A : Type 0) : Type 0 where
  panics : Outcome A
  fails : ParseError → Outcome A
  gives : A → Outcome A

-- The system and the address of the next object.
abbrev pub Heap : Type 0
Heap = System × ℕ

abbrev pub walked : Option Listener → Outcome Heap
walked none = panics
walked (some s) = gives (s.system, s.next)

-- Parser.parseStream, once the text is parsed.
unfoldable pub parse_stream : DocumentTree → Heap → Outcome Heap
parse_stream t (system, next) = walked (run (document_events t) (new_listener system next))

abbrev pub and_then : {A B : Type 0} → Outcome A → (A → Outcome B) → Outcome B
and_then panics f = panics
and_then (fails e) f = fails e
and_then (gives a) f = f a

abbrev returned : Heap → Outcome System
returned (system, next) = gives system

module _ (text_tree : String → DocumentTree) where
  -- Parser.ParseString
  unfoldable pub parse_string : String → Heap → Outcome Heap
  parse_string str heap = parse_stream (text_tree str) heap

  -- LoadIdlFromString
  unfoldable pub load_idl_from_string : String → String → Outcome System
  load_idl_from_string name content = and_then (parse_string content (new_system name, 0)) returned

module _ (is_file : String → Bool) (file_tree : String → Option DocumentTree) where
  abbrev read_stream : String → Option DocumentTree → Heap → Outcome Heap
  read_stream file none heap = fails (not_readable file)
  read_stream file (some t) heap = parse_stream t heap

  -- Parser.ParseFile
  unfoldable pub parse_file : String → Heap → Outcome Heap
  parse_file file heap =
      if not (is_file file)
      then fails (no_such_file file)
      else read_stream file (file_tree file) heap

  -- The loop of LoadIdlFromFiles.
  unfoldable pub parse_files : List String → Heap → Outcome Heap
  parse_files [] heap = gives heap
  parse_files (file ∷ files) heap = and_then (parse_file file heap) (parse_files files)

  -- LoadIdlFromFiles
  unfoldable pub load_idl_from_files : String → List String → Outcome System
  load_idl_from_files name files = and_then (parse_files files (new_system name, 0)) returned
