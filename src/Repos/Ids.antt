-- ===== src/Repos/Ids.antt =====
-- What goes in and out of the ids of pkg/repos/repoid.go.
use apigear_cli.Base.{
  String, ◌<>◌, false, none, some, List, [], ◌∷◌, ◌++◌, ◌==◌, ◌≡◌, refl, sym, ap, ◌∙◌, Bool-cases,
  inl, inr,
}
use apigear_cli.Base.Text.{split, has_char, split-append, split_plain, has_char-append}
use apigear_cli.Repos.{
  version_or_latest, ensure_repo_id, is_repo_id, two_parts, split_repo_id, name_from_repo_id,
  version_from_repo_id, make_repo_id, ensured, name_part, version_part,
}

-- A name and a version without an @.
split-joined :
    (name version : String)
    → has_char "@" name ≡ false
    → has_char "@" version ≡ false
    → split "@" (name <> ("@" <> version)) ≡ name ∷ version ∷ []
split-joined name version plain plain_version =
    split-append "@" name version
    ∙ rw (split_plain "@" name plain, split_plain "@" version plain_version)

latest_plain :
    (version : String)
    → has_char "@" version ≡ false
    → has_char "@" (version_or_latest version) ≡ false
latest_plain version plain = elim (Bool-cases (version == "")) [
  | inl e ↦ rw e (unfold has_char in refl)
  | inr e ↦ rw e plain
]

ensure_repo_id-joined :
    (name version : String)
    → has_char "@" name ≡ false
    → has_char "@" version ≡ false
    → ensure_repo_id (name <> ("@" <> version)) ≡ name <> ("@" <> version_or_latest version)
unfolding ensure_repo_id
ensure_repo_id-joined name version plain plain_version =
    ap (ensured (name <> ("@" <> version))) (split-joined name version plain plain_version)

split_repo_id-joined :
    (name version : String)
    → has_char "@" name ≡ false
    → has_char "@" version ≡ false
    → split_repo_id (name <> ("@" <> version)) ≡ some (name, version_or_latest version)
unfolding split_repo_id
split_repo_id-joined name version plain plain_version =
    ap (λ s. two_parts (split "@" s)) (ensure_repo_id-joined name version plain plain_version)
    ∙ ap two_parts
        (split-joined name (version_or_latest version) plain (latest_plain version plain_version))

latest-latest :
    (version : String) → version_or_latest (version_or_latest version) ≡ version_or_latest version
latest-latest version = elim (Bool-cases (version == "")) [ inl e ↦ rw e | inr e ↦ rw (e, e) ]

-- Where there is no @ in the name and the version, MakeRepoID joins them by an @, with latest for an
-- empty version, and from that id SplitRepoID, NameFromRepoID and VersionFromRepoID give them back.
pub make_repo_id-split_repo_id :
    (name version : String)
    → has_char "@" name ≡ false
    → has_char "@" version ≡ false
    → let id = name <> ("@" <> version_or_latest version) in
      (make_repo_id name version ≡ some id)
      × (split_repo_id id ≡ some (name, version_or_latest version))
      × (name_from_repo_id id ≡ some name)
      × (version_from_repo_id id ≡ some (version_or_latest version))
unfolding make_repo_id name_from_repo_id version_from_repo_id is_repo_id
make_repo_id-split_repo_id name version plain plain_version =
    let v = version_or_latest version in
    let plain_v = latest_plain version plain_version in
    let split_id =
      split_repo_id-joined name v plain plain_v
      ∙ ap (λ w. some (name, w)) (latest-latest version) in
    (
      rw plain,
      split_id,
      rw (has_char-append "@" name v) (ap name_part split_id),
      rw (ensure_repo_id-joined name v plain plain_v, latest-latest version)
          (ap version_part split_id),
    )

-- Where a name has two or more @, SplitRepoID and NameFromRepoID end the program.
pub split_repo_id-none :
    (name a b c : String) (parts : List String)
    → split "@" name ≡ a ∷ b ∷ c ∷ parts
    → (split_repo_id name ≡ none) × (name_from_repo_id name ≡ none)
unfolding split_repo_id ensure_repo_id name_from_repo_id is_repo_id
split_repo_id-none name a b c parts e =
    let more : split_repo_id name ≡ none =
      ap (λ ps. two_parts (split "@" (ensured name ps))) e
      ∙ ap two_parts (split-append "@" name "latest" ∙ ap (λ ps. ps ++ split "@" "latest") e) in
    (
      more,
      elim (Bool-cases (has_char "@" name)) [
        | inl is ↦ rw is (ap name_part more)
        | inr is_not ↦ absurd (cc (sym (split_plain "@" name is_not) ∙ e))
      ],
    )
