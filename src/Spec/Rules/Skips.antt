-- ===== src/Spec/Rules/Skips.antt =====
-- Clearing or setting every Skip flag changes neither what FeatureByName finds nor what is needed.
use mathlib.Core.Option
use apigear_cli.Base.{
  ◌≡◌, refl, ◌∙◌, inl, inr, String, Bool, some, List, [], ◌∷◌, Option-cases, ap, suc,
}
use apigear_cli.Base.Lists.{length, Elem}
use apigear_cli.Spec.Rules.{FeatureRule, feature_by_name, with_skip, skip_all}
use apigear_cli.Spec.Rules.Enabling.{feature_by_name-skip_all}
use apigear_cli.Spec.Rules.Features.{Needed, root, root_requires, requires}

Elem-skip_all :
    (b : Bool) (features : List FeatureRule) (f : FeatureRule)
    → Elem f features
    → Elem (with_skip b f) (skip_all b features)
unfolding skip_all
Elem-skip_all b [] f inside = inside
Elem-skip_all b (g ∷ features) f (inl e) = inl (ap (with_skip b) e)
Elem-skip_all b (g ∷ features) f (inr r) = inr (Elem-skip_all b features f r)

skip_all-Elem :
    (b : Bool) (features : List FeatureRule) (g : FeatureRule)
    → Elem g (skip_all b features)
    → (f : FeatureRule) × Elem f features × (with_skip b f ≡ g)
unfolding skip_all
skip_all-Elem b [] g inside = absurd inside
skip_all-Elem b (f ∷ features) g (inl e) = (f, inl refl, e)
skip_all-Elem b (f ∷ features) g (inr r) =
    let (h, inside, e) = skip_all-Elem b features g r in (h, inr inside, e)

module _ (b : Bool) (features : List FeatureRule) (wanted : List String) where
  pub feature_by_name-skip_all_back :
      (n : String) {g : FeatureRule}
      → feature_by_name (skip_all b features) n ≡ some g
      → (f : FeatureRule) × (feature_by_name features n ≡ some f) × (with_skip b f ≡ g)
  feature_by_name-skip_all_back n {g} found = elim (Option-cases (feature_by_name features n)) [
    | inl e ↦ cc (found, feature_by_name-skip_all b features n, ap (Option.map (with_skip b)) e)
    | inr (f, e) ↦
        (f, e, cc (found, feature_by_name-skip_all b features n, ap (Option.map (with_skip b)) e))
  ]

  pub Needed-skip_all :
      (n : String) → Needed features wanted n → Needed (skip_all b features) wanted n
  Needed-skip_all n (root f inside wish e) =
      root (with_skip b f) (Elem-skip_all b features f inside) wish e
  Needed-skip_all n (root_requires f inside wish h) =
      root_requires (with_skip b f) (Elem-skip_all b features f inside) wish h
  Needed-skip_all n (requires {n = k} f p found h) =
      requires (with_skip b f) (Needed-skip_all k p)
        (rw (feature_by_name-skip_all b features k, found)) h

  pub skip_all-Needed :
      (n : String) → Needed (skip_all b features) wanted n → Needed features wanted n
  skip_all-Needed n (root g inside wish e) =
      let (f, at, same) = skip_all-Elem b features g inside in
      root f at (rw (ap (λ (h : FeatureRule). h.name) same) wish)
        (ap (λ (h : FeatureRule). h.name) same ∙ e)
  skip_all-Needed n (root_requires g inside wish h) =
      let (f, at, same) = skip_all-Elem b features g inside in
      root_requires f at (rw (ap (λ (h : FeatureRule). h.name) same) wish)
        (rw (ap (λ (h : FeatureRule). h.requires) same) h)
  skip_all-Needed n (requires {n = k} g p found h) =
      let (f, e, same) = feature_by_name-skip_all_back k found in
      requires f (skip_all-Needed k p) e (rw (ap (λ (h : FeatureRule). h.requires) same) h)

pub length-skip_all : (b : Bool) (fs : List FeatureRule) → length (skip_all b fs) ≡ length fs
unfolding skip_all
length-skip_all b [] = refl
length-skip_all b (f ∷ fs) = ap suc (length-skip_all b fs)
