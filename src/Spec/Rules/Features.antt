-- ===== src/Spec/Rules/Features.antt =====
-- ComputeFeatures against an independent description of the features that are needed.
use mathlib.Core.Path.{subst}
use apigear_cli.Base.{
  ◌≡◌, refl, ◌∙◌, ◌⊎◌, inl, inr, String, true, false, none, some, List, [], ◌∷◌, ℕ, ◌<◌, arith,
  Bool-cases, ap, sym,
}
use apigear_cli.Base.Lists.{
  contains, Includes, Elem, Includes-trans, contains-head, contains-tail, contains-cases,
}
use apigear_cli.Spec.Rules.{
  FeatureRule, feature_by_name, unknown_wanted, not_found, out_of_fuel, Walk, walked, failed,
  and_then, walk_wanted,
}
use apigear_cli.Spec.Rules.Walking.{
  open_count, open_count_mono, Closed, Outcome, walk_required-Outcome,
}
use apigear_cli.Spec.Rules.Enabling.{feature_by_name-name, feature_by_name-Elem}

-- The names that a wish for the names `wanted` needs: those of the wanted features, what the
-- wanted features require, and what a needed feature requires in turn.
pub data Needed (features : List FeatureRule) (wanted : List String) : String → Type 0 where
  root :
      {n : String} (f : FeatureRule)
      → Elem f features
      → contains wanted f.name ≡ true
      → f.name ≡ n
      → Needed features wanted n
  root_requires :
      {n : String} (f : FeatureRule)
      → Elem f features
      → contains wanted f.name ≡ true
      → contains f.requires n ≡ true
      → Needed features wanted n
  requires :
      {n m : String} (f : FeatureRule)
      → Needed features wanted n
      → feature_by_name features n ≡ some f
      → contains f.requires m ≡ true
      → Needed features wanted m

-- The set that the loop over the features returns, after the features `rest`.
pub record Collected (features : List FeatureRule) (wanted : List String) (rest : List FeatureRule)
    (names out : List String) : Type 0 where
  pub grows : Includes out names
  pub covers :
      (f : FeatureRule)
      → Elem f rest
      → contains wanted f.name ≡ true
      → (contains out f.name ≡ true) × Includes out f.requires
  pub closed :
      (v : String)
      → contains out v ≡ true
      → (contains names v ≡ true)
        ⊎ (Closed features (Needed features wanted) out v
            ⊎ (f : FeatureRule) × Elem f features × (contains wanted f.name ≡ true) × (f.name ≡ v))

-- What that loop may answer.
abbrev pub Gathered :
    List FeatureRule → List String → List FeatureRule → List String → Walk → Type 0
Gathered features wanted rest names (walked out) = Collected features wanted rest names out
Gathered features wanted rest names (failed (not_found m)) =
    Needed features wanted m × (feature_by_name features m ≡ none)
Gathered features wanted rest names (failed (unknown_wanted m)) = ⊥
Gathered features wanted rest names (failed out_of_fuel) = ⊥

module _ (features : List FeatureRule) (wanted : List String) where
  Gathered-unwanted :
      (f : FeatureRule) (rest : List FeatureRule) (names : List String) (w : Walk)
      → contains wanted f.name ≡ false
      → Gathered features wanted rest names w
      → Gathered features wanted (f ∷ rest) names w
  Gathered-unwanted f rest names (walked out) unwanted o = record {
    grows = o.grows;
    covers = λ g inside asked. elim inside [
      | inl e ↦ cc (ap (λ (h : FeatureRule). contains wanted h.name) e)
      | inr r ↦ o.covers g r asked
    ];
    closed = o.closed;
  }
  Gathered-unwanted f rest names (failed (not_found m)) unwanted o = o
  Gathered-unwanted f rest names (failed (unknown_wanted m)) unwanted o = o
  Gathered-unwanted f rest names (failed out_of_fuel) unwanted o = o

  -- After the walk below one wanted feature, the features that are left.
  Gathered-and_then :
      (f : FeatureRule) (rest : List FeatureRule) (names : List String) (w : Walk)
      (next : List String → Walk)
      → Elem f features
      → contains wanted f.name ≡ true
      → Outcome features (Needed features wanted) (f.name ∷ names) f.requires w
      → ((out : List String)
          → Includes out (f.name ∷ names)
          → Gathered features wanted rest out (next out))
      → Gathered features wanted (f ∷ rest) names (and_then w next)
  Gathered-and_then f rest names (walked out) next inside asked o then_next =
      later (next out) (then_next out o.grows)
    where
      later :
          (w' : Walk)
          → Gathered features wanted rest out w'
          → Gathered features wanted (f ∷ rest) names w'
      later (walked out') o' = record {
        grows = λ v h. o'.grows v (o.grows v (contains-tail f.name names v h));
        covers = λ g within asked'. elim within [
          | inl e ↦ rw (← e) (
            o'.grows _ (o.grows _ (contains-head f.name names)),
            Includes-trans _ _ _ o'.grows o.has,
          )
          | inr r ↦ o'.covers g r asked'
        ];
        closed = λ v h. elim (o'.closed v h) [
          | inl old ↦ elim (o.closed v old) [
            | inl older ↦ elim (contains-cases f.name names v older) [
              | inl e ↦ inr (inr (f, inside, asked, e))
              | inr r ↦ inl r
            ]
            | inr (pv, g, e, inc) ↦ inr (inl (pv, g, e, Includes-trans _ _ _ o'.grows inc))
          ]
          | inr c ↦ inr c
        ];
      }
      later (failed (not_found m)) o' = o'
      later (failed (unknown_wanted m)) o' = o'
      later (failed out_of_fuel) o' = o'
  Gathered-and_then f rest names (failed (not_found m)) next inside asked o then_next = o
  Gathered-and_then f rest names (failed (unknown_wanted m)) next inside asked o then_next = o
  Gathered-and_then f rest names (failed out_of_fuel) next inside asked o then_next = o

  pub walk_wanted-Gathered :
      (fuel : ℕ) (rest : List FeatureRule) (names : List String)
      → open_count features names < fuel
      → ((f : FeatureRule) → Elem f rest → Elem f features)
      → Gathered features wanted rest names (walk_wanted fuel features wanted rest names)
  unfolding walk_wanted
  walk_wanted-Gathered fuel [] names enough part = record {
    grows = λ v h. h;
    covers = λ f inside asked. absurd inside;
    closed = λ v h. inl h;
  }
  walk_wanted-Gathered fuel (f ∷ rest) names enough part =
      elim (Bool-cases (contains wanted f.name)) [
        | inl asked ↦
            rw (asked, walk_wanted)
              (Gathered-and_then f rest names _ _ (part f (inl refl)) asked
                (walk_required-Outcome features (Needed features wanted)
                  (λ n m g p found h. requires g p found h) fuel f.requires (f.name ∷ names)
                  (omega (
                    arith,
                    open_count_mono features names (f.name ∷ names) (contains-tail f.name names),
                  ))
                  (λ v h. root_requires f (part f (inl refl)) asked h))
                (λ out grew.
                  walk_wanted-Gathered fuel rest out
                    (omega (
                      arith,
                      open_count_mono features names out
                          (λ v h. grew v (contains-tail f.name names v h)),
                    ))
                    (λ g h. part g (inr h))))
        | inr unwanted ↦
            rw (unwanted, walk_wanted)
              (Gathered-unwanted f rest names _ unwanted
                (walk_wanted-Gathered fuel rest names enough (λ g h. part g (inr h))))
      ]

-- A set gathered from the whole document and the empty set, where every wanted name has a feature.
module _ (features : List FeatureRule) (wanted out : List String)
    (o : Collected features wanted features [] out)
    (known : (v : String)
      → contains wanted v ≡ true
      → (f : FeatureRule) × (feature_by_name features v ≡ some f)) where
  pub collected-Closed :
      (v : String) → contains out v ≡ true → Closed features (Needed features wanted) out v
  collected-Closed v h = elim (o.closed v h) [
    | inl old ↦ unfold contains in cc
    | inr (inl c) ↦ c
    | inr (inr (f, inside, wish, e)) ↦
        let (g, found) = known v (rw e at wish) in
        let wish' : contains wanted g.name ≡ true =
          rw (feature_by_name-name features v found ∙ sym e) wish in
        (
          root f inside wish e,
          g,
          found,
          (o.covers g (feature_by_name-Elem features v found) wish').1,
        )
  ]

  pub collected-Needed : (v : String) → Needed features wanted v → contains out v ≡ true
  collected-Needed v (root f inside wish e) = rw e at (o.covers f inside wish).0
  collected-Needed v (root_requires f inside wish h) = (o.covers f inside wish).1 v h
  collected-Needed v (requires {n} f p found h) =
      let (_, g, e, inc) = collected-Closed n (collected-Needed n p) in
      let same : f ≡ g = cc (found, e) in
      inc v (subst (λ (k : FeatureRule). contains k.requires v ≡ true) same h)
