-- ===== src/Tests/RepoRuns.antt =====
-- The theorems on pkg/repos/repoid.go at names of templates.
use apigear_cli.Base.{◌≡◌, refl, some, none, []}
use apigear_cli.Base.Text.{split, has_char}
use apigear_cli.Repos.{split_repo_id, name_from_repo_id, version_from_repo_id, make_repo_id}
use apigear_cli.Repos.Ids.{make_repo_id-split_repo_id, split_repo_id-none}

make_repo_id-split_repo_id_example :
    (make_repo_id "qt" "" ≡ some "qt@latest")
    × (split_repo_id "qt@latest" ≡ some ("qt", "latest"))
    × (name_from_repo_id "qt@latest" ≡ some "qt")
    × (version_from_repo_id "qt@latest" ≡ some "latest")
unfolding has_char
make_repo_id-split_repo_id_example = make_repo_id-split_repo_id "qt" "" refl refl

split_repo_id-none_example : (split_repo_id "a@b@c" ≡ none) × (name_from_repo_id "a@b@c" ≡ none)
unfolding split
split_repo_id-none_example = split_repo_id-none "a@b@c" "a" "b" "c" [] refl
