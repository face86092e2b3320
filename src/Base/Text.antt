-- ===== src/Base/Text.antt =====
-- strings.Split by a separator of one character, strings.Join, and taking a list apart at its end.
use Prim.Native.Char.{Char, code}
use Prim.Native.String.{String, ◌++◌ as ◌<>◌}
use mathlib.Core.Path.{◌≡◌, refl, ◌∙◌, ap}
use mathlib.Core.Bool.{Bool, true, false, ◌||◌}
use mathlib.Core.Option.{Option, none, some}
use mathlib.Core.List.{List, [], ◌∷◌, ◌++◌}
use mathlib.Core.Logic.{inl, inr}
use native.Mathlib.Omega.{arith}
use text.Mathlib.TextEquality.{Char-path}
use text.Mathlib.TextLemmas.{nil-append, cons-append}
use apigear_cli.Base.Tests.{nat_eq, if◌then◌else◌, Bool-cases}

-- A character as a text.
abbrev pub char : Char → String
char c = String.◌∷◌ c String.[]

abbrev cons_head : Char → List String → List String
cons_head c [] = char c ∷ []
cons_head c (w ∷ ws) = String.◌∷◌ c w ∷ ws

-- strings.Split(s, sep)
unfoldable pub split : Char → String → List String
split sep String.[] = "" ∷ []
split sep (String.◌∷◌ c s) =
    let rest = split sep s in if nat_eq (code c) (code sep) then "" ∷ rest else cons_head c rest

-- strings.Join(parts, sep)
unfoldable pub join : String → List String → String
join sep [] = ""
join sep (w ∷ []) = w
join sep (w ∷ v ∷ ws) = w <> (sep <> join sep (v ∷ ws))

-- strings.Contains(s, sep), for a text of one character
unfoldable pub has_char : Char → String → Bool
has_char sep String.[] = false
has_char sep (String.◌∷◌ c s) = nat_eq (code c) (code sep) || has_char sep s

-- parts[:len(parts)-1] and parts[len(parts)-1]
unfoldable pub unsnoc {ℓ} : {A : Type ℓ} → List A → Option (List A × A)
unsnoc [] = none
unsnoc (x ∷ xs) = elim (unsnoc xs) [ none ↦ some ([], x) | some (ys, y) ↦ some (x ∷ ys, y) ]

pub unsnoc-append {ℓ} : {A : Type ℓ} (xs : List A) (x : A) → unsnoc (xs ++ (x ∷ [])) ≡ some (xs, x)
unfolding unsnoc
unsnoc-append [] x = refl
unsnoc-append (y ∷ xs) x = rw (unsnoc-append xs x)

pub split-ne-nil :
    (sep : Char) (s : String) → (w : String) × (ws : List String) × (split sep s ≡ w ∷ ws)
unfolding split
split-ne-nil sep String.[] = ("", [], refl)
split-ne-nil sep (String.◌∷◌ c s) = elim (Bool-cases (nat_eq (code c) (code sep))) [
  | inl e ↦ ("", split sep s, rw e)
  | inr e ↦ let (w, ws, h) = split-ne-nil sep s in (String.◌∷◌ c w, ws, rw e (rw h))
]

char_eq : (c d : Char) → nat_eq (code c) (code d) ≡ true → c ≡ d
char_eq c d e = Char-path c d (ground arith)

code_refl : (c : Char) → nat_eq (code c) (code c) ≡ true
code_refl c = ground arith

join-cons :
    (sep w : String) (ws : List String) (v : String) (vs : List String)
    → ws ≡ v ∷ vs
    → join sep (w ∷ ws) ≡ w <> (sep <> join sep ws)
unfolding join
join-cons sep w ws v vs e = rw e

join-cons_head :
    (sep : String) (c : Char) (w : String) (ws : List String)
    → join sep (String.◌∷◌ c w ∷ ws) ≡ String.◌∷◌ c (join sep (w ∷ ws))
unfolding join
join-cons_head sep c w [] = refl
join-cons_head sep c w (v ∷ vs) = cons-append c w _

-- Joining the parts with the separator gives the text back.
pub join-split : (sep : Char) (s : String) → join (char sep) (split sep s) ≡ s
unfolding split
join-split sep String.[] = unfold join in refl
join-split sep (String.◌∷◌ c s) =
    let (w, ws, h) = split-ne-nil sep s in
    elim (Bool-cases (nat_eq (code c) (code sep))) [
      | inl e ↦ rw e (
          join-cons (char sep) "" _ w ws h
          ∙ rw (join-split sep s, char_eq c sep e, nil-append, cons-append, nil-append))
      | inr e ↦
          rw (e, h)
            (join-cons_head (char sep) c w ws ∙ ap (String.◌∷◌ c) (rw (← h) (join-split sep s)))
    ]

-- The parts of two texts with the separator between them.
pub split-append :
    (sep : Char) (s t : String) → split sep (s <> (char sep <> t)) ≡ split sep s ++ split sep t
unfolding split
split-append sep String.[] t = rw (nil-append, cons-append, nil-append, split) (rw (code_refl sep))
split-append sep (String.◌∷◌ c s) t =
    let (w, ws, h) = split-ne-nil sep s in
    elim (Bool-cases (nat_eq (code c) (code sep))) [
      | inl e ↦ rw (cons-append, split, e) (rw (split-append sep s t))
      | inr e ↦ rw (cons-append, split, e) (rw (split-append sep s t, h))
    ]

-- A text without the separator is its only part.
pub split_plain : (sep : Char) (s : String) → has_char sep s ≡ false → split sep s ≡ s ∷ []
unfolding split has_char
split_plain sep String.[] plain = refl
split_plain sep (String.◌∷◌ c s) plain = elim (Bool-cases (nat_eq (code c) (code sep))) [
  | inl e ↦ absurd (ground arith)
  | inr e ↦ rw (e, split_plain sep s (rw e at plain))
]

pub has_char-append : (sep : Char) (s t : String) → has_char sep (s <> (char sep <> t)) ≡ true
unfolding has_char
has_char-append sep String.[] t = rw (nil-append, cons-append, has_char) (rw (code_refl sep))
has_char-append sep (String.◌∷◌ c s) t =
    rw (cons-append, has_char, has_char-append sep s t) (ground arith)
