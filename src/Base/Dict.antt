-- ===== src/Base/Dict.antt =====
-- Go maps with string keys, as association lists. The program's maps are read by key; where the
-- source ranges over one, the comment there says what is done with the order.
use mathlib.Core.Path.{◌≡◌, refl}
use mathlib.Core.Option.{Option, none, some}
use mathlib.Core.List.{List, [], ◌∷◌}
use Prim.Native.String.{String}
use native.Mathlib.Omega.{arith}
use text.Mathlib.Text.{◌==◌}
use text.Mathlib.TextEquality.{eq_iff}
use apigear_cli.Base.Tests.{if◌then◌else◌}

pub record Entry {ℓ} (V : Type ℓ) : Type ℓ where
  pub key : String
  pub value : V

abbrev pub Dict {ℓ} : Type ℓ → Type ℓ
Dict V = List (Entry V)

module _ {ℓ} {V : Type ℓ} where
  -- `v, ok := m[key]`
  unfoldable pub lookup : String → Dict V → Option V
  lookup key [] = none
  lookup key (entry ∷ entries) =
      let later = lookup key entries in if key == entry.key then some entry.value else later

  -- `m[key] = value`: an entry for the key is replaced where it stands.
  unfoldable pub insert : String → V → Dict V → Dict V
  insert key value [] = record { key = key; value = value } ∷ []
  insert key value (entry ∷ later) =
      let kept = entry ∷ insert key value later in
      if key == entry.key then record { key = key; value = value } ∷ later else kept

  -- `delete(m, key)`
  unfoldable pub remove : String → Dict V → Dict V
  remove key [] = []
  remove key (entry ∷ entries) =
      let later = remove key entries in if key == entry.key then later else entry ∷ later

  -- After an assignment, the key has the value, and all other keys what they had.
  pub lookup-insert :
      (key other : String) (value : V) (entries : Dict V)
      → lookup other (insert key value entries)
        ≡ (if other == key then some value else lookup other entries)
  unfolding insert lookup
  lookup-insert key other value [] = refl
  lookup-insert key other value (entry ∷ later) = ground (
    arith,
    lookup-insert key other value later,
    eq_iff key entry.key,
    eq_iff other entry.key,
    eq_iff other key,
  )

  pub lookup-remove :
      (key other : String) (entries : Dict V)
      → lookup other (remove key entries) ≡ (if other == key then none else lookup other entries)
  unfolding remove lookup
  lookup-remove key other [] = ground arith
  lookup-remove key other (entry ∷ later) = ground (
    arith,
    lookup-remove key other later,
    eq_iff key entry.key,
    eq_iff other entry.key,
    eq_iff other key,
  )
