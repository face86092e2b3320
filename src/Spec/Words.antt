-- ===== src/Spec/Words.antt =====
-- pkg/spec/rkw/reserved.go: the words that are reserved in the languages of the generated code. A Lang is
-- the text of its name. strings.ToLower is the parameter `to_lower`. Warnings are values.
pub mod Lists
pub mod Escaped
use apigear_cli.Base.{
  String, ◌<>◌, Bool, true, false, not, Option, none, some, List, [], ◌∷◌, ◌++◌, ◌==◌,
  if◌then◌else◌,
}
use apigear_cli.Base.Lists.{contains}
use apigear_cli.Base.Loop.{concat_map}
use apigear_cli.Base.Dict.{Dict, Entry, lookup}
use apigear_cli.Spec.Words.Lists.{
  cpp_words, py_words, ts_words, js_words, go_words, unreal_words, qt_words,
}

-- makeReservedKeywordsPerLang
abbrev pub reserved_keywords_per_lang : Dict (List String)
reserved_keywords_per_lang =
    record { key = "cpp"; value = cpp_words }
    ∷ record { key = "py"; value = py_words }
    ∷ record { key = "ts"; value = ts_words }
    ∷ record { key = "js"; value = js_words }
    ∷ record { key = "go"; value = go_words }
    ∷ record { key = "ue"; value = cpp_words ++ unreal_words }
    ∷ record { key = "qt"; value = cpp_words ++ qt_words }
    ∷ []

-- The language, once for each place where the word stands in its list.
unfoldable pub langs_onto : String → String → List String → List String
langs_onto lang word [] = []
langs_onto lang word (keyword ∷ keywords) =
    let rest = langs_onto lang word keywords in if keyword == word then lang ∷ rest else rest

-- What makeReservedKeywords keeps for a word. The order of the languages, in which Go ranges over a map,
-- is that of the table.
unfoldable pub reserved_langs : Dict (List String) → String → List String
reserved_langs table word = concat_map (λ entry. langs_onto entry.key word entry.value) table

abbrev is_in : Option (List String) → String → Bool
is_in none word = false
is_in (some keywords) word = contains keywords word

abbrev pub if_any : List String → Option (List String)
if_any [] = none
if_any (lang ∷ langs) = some (lang ∷ langs)

-- EscapeKeyword
abbrev pub escape_keyword : String → String
escape_keyword word = word <> "_"

-- A warning that is logged, by its scope, name and languages.
pub record Warning : Type 0 where
  pub scope : String
  pub name : String
  pub langs : List String

module _ (to_lower : String → String) where
  -- IsKeywordReservedInLang
  unfoldable pub is_keyword_reserved_in_lang : String → String → Bool
  is_keyword_reserved_in_lang lang word =
      is_in (lookup lang reserved_keywords_per_lang) (to_lower word)

  -- IsKeywordInLangs
  unfoldable pub is_keyword_in_langs : List String → String → Option String
  is_keyword_in_langs [] word = none
  is_keyword_in_langs (lang ∷ langs) word =
      let rest = is_keyword_in_langs langs word in
      if is_keyword_reserved_in_lang lang (to_lower word) then some lang else rest

  -- IsKeywordReserved
  unfoldable pub is_keyword_reserved : String → Option (List String)
  is_keyword_reserved word = if_any (reserved_langs reserved_keywords_per_lang (to_lower word))

  abbrev warned : String → String → Option String → List Warning
  warned scope name none = []
  warned scope name (some lang) = record { scope = scope; name = name; langs = lang ∷ [] } ∷ []

  -- CheckIsReserved
  unfoldable pub check_is_reserved : List String → String → String → List Warning
  check_is_reserved langs name scope = warned scope name (is_keyword_in_langs langs name)

  abbrev pub escaped : String → String → Option (List String) → List Warning × String
  escaped scope name none = ([], name)
  escaped scope name (some langs) =
      (record { scope = scope; name = name; langs = langs } ∷ [], escape_keyword name)

  -- CheckAndEscapeName
  unfoldable pub check_and_escape_name : String → String → List Warning × String
  check_and_escape_name name scope = escaped scope name (is_keyword_reserved name)
