-- ===== src/Spec/Words/Escaped.antt =====
-- What CheckAndEscapeName of pkg/spec/rkw/reserved.go makes of a name.
use Prim.Native.Char.{code}
use apigear_cli.Base.{
  String, ◌<>◌, Bool, true, false, not, none, List, [], ◌∷◌, ◌==◌, ◌≡◌, refl, ap, ◌∙◌, nat_eq,
  arith, eq_iff, Bool-cases, Option-cases, inl, inr, ◌&&◌,
}
use apigear_cli.Base.Dict.{Dict}
use text.Mathlib.TextLemmas.{cons-append}
use apigear_cli.Spec.Words.{
  reserved_keywords_per_lang, langs_onto, reserved_langs, escape_keyword, is_keyword_reserved,
  if_any, check_and_escape_name,
}

-- Whether the last character is an underscore, where a test of the one before is given.
ends_after : Bool → String → Bool
ends_after last String.[] = last
ends_after last (String.◌∷◌ c s) = ends_after (nat_eq (code c) 95) s

ends_after-escaped : (last : Bool) (s : String) → ends_after last (s <> "_") ≡ true
unfolding ends_after
ends_after-escaped last String.[] = refl
ends_after-escaped last (String.◌∷◌ c s) =
    rw (cons-append, ends_after) (ends_after-escaped (nat_eq (code c) 95) s)

no_underscores : List String → Bool
unfolding ends_after
no_underscores [] = true
no_underscores (w ∷ ws) = not (ends_after false w) && no_underscores ws

no_underscores_at_all : Dict (List String) → Bool
unfolding no_underscores
no_underscores_at_all [] = true
no_underscores_at_all (entry ∷ entries) =
    no_underscores entry.value && no_underscores_at_all entries

-- No reserved word ends with an underscore.
table_plain : no_underscores_at_all reserved_keywords_per_lang ≡ true
unfolding no_underscores_at_all
table_plain = refl

langs_onto-nil :
    (lang word : String) (keywords : List String)
    → ends_after false word ≡ true
    → no_underscores keywords ≡ true
    → langs_onto lang word keywords ≡ []
unfolding langs_onto no_underscores
langs_onto-nil lang word [] ends plain = refl
langs_onto-nil lang word (k ∷ ks) ends plain = elim (Bool-cases (k == word)) [
  | inl same ↦ let e = (eq_iff k word).0 same in absurd (ground (arith, ap (ends_after false) e))
  | inr apart ↦ rw apart (langs_onto-nil lang word ks ends (ground arith))
]

reserved_langs-nil :
    (table : Dict (List String)) (word : String)
    → ends_after false word ≡ true
    → no_underscores_at_all table ≡ true
    → reserved_langs table word ≡ []
unfolding reserved_langs no_underscores_at_all
reserved_langs-nil [] word ends plain = refl
reserved_langs-nil (entry ∷ table) word ends plain =
    rw (langs_onto-nil entry.key word entry.value ends (ground arith))
      (reserved_langs-nil table word ends (ground arith))

module _ (to_lower : String → String)
    (keeps : (s : String) → to_lower (s <> "_") ≡ to_lower s <> "_") where
  escape_keyword-none : (word : String) → is_keyword_reserved to_lower (escape_keyword word) ≡ none
  unfolding is_keyword_reserved
  escape_keyword-none word =
      ap (λ w. if_any (reserved_langs reserved_keywords_per_lang w)) (keeps word)
      ∙ ap if_any (
          reserved_langs-nil reserved_keywords_per_lang (to_lower word <> "_")
            (ends_after-escaped false (to_lower word)) table_plain)

  -- Where lower case leaves an underscore at the end, the name that CheckAndEscapeName returns is not
  -- reserved in any language, whether the name was or not.
  pub check_and_escape_name-none :
      (name scope : String)
      → is_keyword_reserved to_lower (check_and_escape_name to_lower name scope).1 ≡ none
  unfolding check_and_escape_name
  check_and_escape_name-none name scope = elim (Option-cases (is_keyword_reserved to_lower name)) [
    | inl free ↦ rw free free
    | inr (langs, reserved) ↦ rw reserved (escape_keyword-none name)
  ]
