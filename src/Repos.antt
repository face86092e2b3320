-- ===== src/Repos.antt =====
-- The names of templates with their versions: pkg/repos/repoid.go. The end of the program by log.Fatal is
-- `none`.
pub mod Ids
use apigear_cli.Base.{
  ℕ, String, ◌<>◌, Bool, true, false, not, Option, none, some, List, [], ◌∷◌, ◌++◌, ◌==◌,
  if◌then◌else◌, ◌≡◌, refl, ap, ◌∙◌, Bool-cases, inl, inr, arith,
}
use apigear_cli.Base.Text.{split, has_char, split-append, split_plain}

-- A version, where none is the latest.
abbrev pub version_or_latest : String → String
version_or_latest version = if version == "" then "latest" else version

abbrev pub ensured : String → List String → String
ensured name [] = name <> "@latest"
ensured name (part ∷ []) = name <> "@latest"
ensured name (part ∷ version ∷ []) = part <> ("@" <> version_or_latest version)
ensured name (part ∷ version ∷ other ∷ parts) = name <> "@latest"

-- EnsureRepoID
unfoldable pub ensure_repo_id : String → String
ensure_repo_id name = ensured name (split "@" name)

-- IsRepoID
unfoldable pub is_repo_id : String → Bool
is_repo_id name = has_char "@" name

abbrev pub two_parts : List String → Option (String × String)
two_parts [] = none
two_parts (name ∷ []) = none
two_parts (name ∷ version ∷ []) = some (name, version)
two_parts (name ∷ version ∷ other ∷ parts) = none

-- SplitRepoID
unfoldable pub split_repo_id : String → Option (String × String)
split_repo_id name = two_parts (split "@" (ensure_repo_id name))

abbrev pub name_part : Option (String × String) → Option String
name_part none = none
name_part (some (name, version)) = some name

abbrev pub version_part : Option (String × String) → Option String
version_part none = none
version_part (some (name, version)) = some version

-- NameFromRepoID
unfoldable pub name_from_repo_id : String → Option String
name_from_repo_id name = if not (is_repo_id name) then some name else name_part (split_repo_id name)

-- VersionFromRepoID
unfoldable pub version_from_repo_id : String → Option String
version_from_repo_id name = version_part (split_repo_id (ensure_repo_id name))

abbrev joined : String → Option String → Option String
joined version none = none
joined version (some name) = some (name <> ("@" <> version))

-- MakeRepoID
unfoldable pub make_repo_id : String → String → Option String
make_repo_id name version = joined (version_or_latest version) (name_from_repo_id name)
