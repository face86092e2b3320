-- ===== src/Spec/Rules/Walking.antt =====
-- What walkRequired returns: it ends on the fuel given, and the set that it builds grows from the
-- one given, has all that is required, and is closed under the requirements of what was added.
use apigear_cli.Base.{
  ◌≡◌, refl, ◌⊎◌, inl, inr, String, true, false, none, some, List, [], ◌∷◌, ℕ, zero, suc, ◌+◌, ◌<◌,
  ◌≤◌, arith, if◌then◌else◌, Bool-cases, Option-cases, eq_iff,
}
use apigear_cli.Base.Lists.{
  length, contains, Includes, Includes-trans, contains-head, contains-tail, contains-cases,
}
use apigear_cli.Spec.Rules.{
  FeatureRule, feature_by_name, unknown_wanted, not_found, out_of_fuel, Walk, walked, failed,
  and_then, walk_required,
}

-- The number of features that the set does not have yet: it bounds the depth of the walk.
pub open_count : List FeatureRule → List String → ℕ
open_count [] names = 0
open_count (f ∷ features) names =
    (if contains names f.name then 0 else 1) + open_count features names

pub open_count-le-length :
    (features : List FeatureRule) (names : List String)
    → open_count features names ≤ length features
unfolding open_count
open_count-le-length [] names = omega arith
open_count-le-length (f ∷ features) names = ground (arith, open_count-le-length features names)

pub open_count_mono :
    (features : List FeatureRule) (names out : List String)
    → Includes out names
    → open_count features out ≤ open_count features names
unfolding open_count
open_count_mono [] names out grows = omega arith
open_count_mono (f ∷ features) names out grows =
    ground (arith, open_count_mono features names out grows, grows f.name)

open_count-cons :
    (features : List FeatureRule) (name : String) (names : List String) {f : FeatureRule}
    → feature_by_name features name ≡ some f
    → contains names name ≡ false
    → open_count features (name ∷ names) < open_count features names
unfolding open_count feature_by_name contains
open_count-cons [] name names found fresh = ground arith
open_count-cons (g ∷ features) name names {f} found fresh = ground (
  arith,
  eq_iff g.name name,
  eq_iff name g.name,
  open_count_mono features names (name ∷ names) (contains-tail name names),
  λ (e : feature_by_name features name ≡ some f). open_count-cons features name names e fresh,
)

-- A name that was added, with its feature, whose requirements all are in the set.
abbrev pub Closed : List FeatureRule → (String → Type 0) → List String → String → Type 0
Closed features P out v =
    P v × (f : FeatureRule) × (feature_by_name features v ≡ some f) × Includes out f.requires

-- The set `out` that a walk returns which began with the set `names`.
pub record Walked (features : List FeatureRule) (P : String → Type 0)
    (names required out : List String) : Type 0 where
  pub grows : Includes out names
  pub has : Includes out required
  pub closed :
      (v : String) → contains out v ≡ true → (contains names v ≡ true) ⊎ Closed features P out v

-- What a walk may answer. A missing feature is one that was needed.
abbrev pub Outcome :
    List FeatureRule → (String → Type 0) → List String → List String → Walk → Type 0
Outcome features P names required (walked out) = Walked features P names required out
Outcome features P names required (failed (not_found m)) = P m × (feature_by_name features m ≡ none)
Outcome features P names required (failed (unknown_wanted m)) = ⊥
Outcome features P names required (failed out_of_fuel) = ⊥

-- The branches of the loop's body.
module _ (fuel : ℕ) (features : List FeatureRule) where
  walk_required-nil :
      {names : List String} → walk_required (suc fuel) features [] names ≡ walked names
  unfolding walk_required
  walk_required-nil = refl

  walk_required-known :
      (name : String) (required names : List String)
      → contains names name ≡ true
      → walk_required (suc fuel) features (name ∷ required) names
        ≡ walk_required (suc fuel) features required names
  unfolding walk_required
  walk_required-known name required names known = ground arith

  walk_required-missing :
      (name : String) (required names : List String)
      → contains names name ≡ false
      → feature_by_name features name ≡ none
      → walk_required (suc fuel) features (name ∷ required) names ≡ failed (not_found name)
  unfolding walk_required
  walk_required-missing name required names new missing = ground arith

  walk_required-found :
      (name : String) (f : FeatureRule) (required names : List String)
      → contains names name ≡ false
      → feature_by_name features name ≡ some f
      → walk_required (suc fuel) features (name ∷ required) names
        ≡ and_then
            (walk_required fuel features f.requires (name ∷ names))
            (λ names'. walk_required (suc fuel) features required names')
  unfolding walk_required
  walk_required-found name f required names new found = ground arith

-- `P` is a property of names that requirements inherit.
module _ (features : List FeatureRule) (P : String → Type 0)
    (step : (n m : String) (f : FeatureRule)
      → P n
      → feature_by_name features n ≡ some f
      → contains f.requires m ≡ true
      → P m) where
  Outcome-known :
      (name : String) (names required : List String) (w : Walk)
      → contains names name ≡ true
      → Outcome features P names required w
      → Outcome features P names (name ∷ required) w
  Outcome-known name names required (walked out) known o = record {
    grows = o.grows;
    has = λ v h. elim (contains-cases name required v h) [
      | inl e ↦ o.grows v (rw (← e) known)
      | inr r ↦ o.has v r
    ];
    closed = o.closed;
  }
  Outcome-known name names required (failed (not_found m)) known o = o
  Outcome-known name names required (failed (unknown_wanted m)) known o = o
  Outcome-known name names required (failed out_of_fuel) known o = o

  -- After the walk below one name, the walk of the names that are left.
  Outcome-and_then :
      (name : String) (f : FeatureRule) (names required : List String) (w : Walk)
      (next : List String → Walk)
      → P name
      → feature_by_name features name ≡ some f
      → Outcome features P (name ∷ names) f.requires w
      → ((out : List String)
          → Includes out (name ∷ names)
          → Outcome features P out required (next out))
      → Outcome features P names (name ∷ required) (and_then w next)
  Outcome-and_then name f names required (walked out) next p found o then_next =
      later (next out) (then_next out o.grows)
    where
      settle :
          (out' : List String)
          → Includes out' out
          → (v : String) → contains out v ≡ true
          → (contains names v ≡ true) ⊎ Closed features P out' v
      settle out' grew v h = elim (o.closed v h) [
        | inl old ↦ elim (contains-cases name names v old) [
          | inl e ↦ inr (rw (← e) (p, f, found, Includes-trans _ _ _ grew o.has))
          | inr r ↦ inl r
        ]
        | inr (pv, g, e, inc) ↦ inr (pv, g, e, Includes-trans _ _ _ grew inc)
      ]

      later :
          (w' : Walk)
          → Outcome features P out required w'
          → Outcome features P names (name ∷ required) w'
      later (walked out') o' = record {
        grows = λ v h. o'.grows v (o.grows v (contains-tail name names v h));
        has = λ v h. elim (contains-cases name required v h) [
          | inl e ↦ o'.grows v (o.grows v (rw (← e) (contains-head name names)))
          | inr r ↦ o'.has v r
        ];
        closed =
            λ v h. elim (o'.closed v h) [ inl old ↦ settle out' o'.grows v old | inr c ↦ inr c ];
      }
      later (failed (not_found m)) o' = o'
      later (failed (unknown_wanted m)) o' = o'
      later (failed out_of_fuel) o' = o'
  Outcome-and_then name f names required (failed (not_found m)) next p found o then_next = o
  Outcome-and_then name f names required (failed (unknown_wanted m)) next p found o then_next = o
  Outcome-and_then name f names required (failed out_of_fuel) next p found o then_next = o

  -- With fuel above the number of open features the walk ends, in one of the two ways.
  pub walk_required-Outcome :
      (fuel : ℕ) (required names : List String)
      → open_count features names < fuel
      → ((v : String) → contains required v ≡ true → P v)
      → Outcome features P names required (walk_required fuel features required names)
  walk_required-Outcome zero required names enough all = absurd (omega arith)
  walk_required-Outcome (suc fuel) [] names enough all =
      rw walk_required-nil
        (record { grows = λ v h. h; has = λ v h. unfold contains in cc; closed = λ v h. inl h })
  walk_required-Outcome (suc fuel) (name ∷ required) names enough all =
      let below =
        λ (v : String) (h : contains required v ≡ true). all v (contains-tail name required v h) in
      elim (Bool-cases (contains names name)) [
        | inl known ↦ rw (walk_required-known fuel features name required names known) (
            Outcome-known name names required _ known
              (walk_required-Outcome (suc fuel) required names enough below))
        | inr new ↦ elim (Option-cases (feature_by_name features name)) [
          | inl missing ↦
              rw (walk_required-missing fuel features name required names new missing)
                (all name (contains-head name required), missing)
          | inr (f, found) ↦
              let p = all name (contains-head name required) in
              let fewer = open_count-cons features name names found new in
              rw (walk_required-found fuel features name f required names new found) (
                Outcome-and_then name f names required _ _ p found
                  (walk_required-Outcome fuel f.requires (name ∷ names) (omega arith)
                    (λ m h. step name m f p found h))
                  (λ out grew.
                    walk_required-Outcome (suc fuel) required out
                      (omega (arith, open_count_mono features (name ∷ names) out grew)) below))
        ]
      ]
