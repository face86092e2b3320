-- ===== src/Gen/Generator/Work.antt =====
-- What processDocument keeps, the loops of ProcessRules above it keep.
use apigear_cli.Base.{
  inl, inr, String, Bool, true, false, Option, none, List, [], ◌∷◌, ◌==◌, if◌then◌else◌, Bool-cases,
}
use apigear_cli.Base.Loop.{All, then_do, do_all, then_do-keeps, do_all-keeps, All-always}
use apigear_cli.Model.Data.{Module, System}
use apigear_cli.Spec.Rules.{
  DocumentRule, ScopeRule, FeatureRule, scope_system, scope_module, scope_interface, scope_struct,
  scope_enum, find_scopes_by_match,
}
use apigear_cli.Gen.State.{
  Options, World, Scope, Generator, Subject, the_system, the_module, the_interface, the_struct,
  the_enum,
}
use apigear_cli.Gen.Generator.{
  with_target, process_document, process_scope, process_subject, process_module, process_feature,
  process_features,
}

-- Every document rule of a feature.
abbrev pub AllDocuments : (DocumentRule → Type 0) → FeatureRule → Type 0
AllDocuments P f = All (λ (s : ScopeRule). All P s.documents) f.scopes

find_scopes_by_match-All :
    (P : ScopeRule → Type 0) (match : String) (scopes : List ScopeRule)
    → All P scopes
    → All P (find_scopes_by_match match scopes)
unfolding find_scopes_by_match
find_scopes_by_match-All P match [] all = tt
find_scopes_by_match-All P match (s ∷ scopes) (p, all) =
    let rest = find_scopes_by_match-All P match scopes all in
    elim (Bool-cases (s.match == match)) [ inl e ↦ rw e (p, rest) | inr e ↦ rw e rest ]

module _ {Meta Bytes Disk : Type 0} (w : World Meta Bytes Disk) (opts : Options Meta) (sys : System)
    (R : Generator Disk → Generator Disk → Type 0) (same : (g : Generator Disk) → R g g)
    (chain : (a b c : Generator Disk) → R a b → R b c → R a c) (P : DocumentRule → Type 0)
    (keeps : (prefix : String) (doc : DocumentRule) (ctx : Scope Meta) (g : Generator Disk)
      → P doc
      → R g (process_document w opts (with_target w opts prefix doc) ctx g).1) where
  process_subject-keeps :
      (match : String) (f : FeatureRule) (subject : Subject)
      → AllDocuments P f
      → (g : Generator Disk) → R g (process_subject w opts sys match f subject g).1
  unfolding process_subject process_scope
  process_subject-keeps match f subject all g =
      do_all-keeps R same chain _ _
        (λ s g documents.
          do_all-keeps R same chain _ P (λ doc g p. keeps s.prefix doc _ g p) s.documents documents
            g)
        (find_scopes_by_match match f.scopes) (find_scopes_by_match-All _ match f.scopes all) g

  loop-keeps :
      {A : Type 0} (match : String) (f : FeatureRule) (subject : A → Subject)
      → AllDocuments P f
      → (xs : List A) (g : Generator Disk)
      → R g (do_all (λ x. process_subject w opts sys match f (subject x)) xs g).1
  loop-keeps match f subject all xs g =
      do_all-keeps R same chain (λ x. process_subject w opts sys match f (subject x))
        (λ _. Unit {0}) (λ x g _. process_subject-keeps match f (subject x) all g) xs
        (All-always _ (λ _. tt) xs) g

  process_module-keeps :
      (f : FeatureRule) (m : Module)
      → AllDocuments P f
      → (g : Generator Disk) → R g (process_module w opts sys f m g).1
  unfolding process_module
  process_module-keeps f m all g =
      let at = process_subject w opts sys in
      let enums = do_all (λ e. at scope_enum f (the_enum m e)) m.enums in
      let structs = do_all (λ s. at scope_struct f (the_struct m s)) m.structs in
      let interfaces = do_all (λ i. at scope_interface f (the_interface m i)) m.interfaces in
      then_do-keeps R same chain g (λ g. then_do (λ g. then_do enums (structs g)) (interfaces g))
        (at scope_module f (the_module m) g)
        (process_subject-keeps scope_module f (the_module m) all g)
        (λ g.
          then_do-keeps R same chain g (λ g. then_do enums (structs g)) (interfaces g)
            (loop-keeps scope_interface f (λ i. the_interface m i) all m.interfaces g)
            (λ g.
              then_do-keeps R same chain g enums (structs g)
                (loop-keeps scope_struct f (λ s. the_struct m s) all m.structs g)
                (loop-keeps scope_enum f (λ e. the_enum m e) all m.enums)))

  pub process_feature-keeps :
      (f : FeatureRule)
      → AllDocuments P f
      → (g : Generator Disk) → R g (process_feature w opts sys f g).1
  unfolding process_feature
  process_feature-keeps f all g =
      then_do-keeps R same chain g (do_all (process_module w opts sys f) sys.modules)
        (process_subject w opts sys scope_system f the_system g)
        (process_subject-keeps scope_system f the_system all g)
        (do_all-keeps R same chain _ (λ _. Unit {0}) (λ m g _. process_module-keeps f m all g)
          sys.modules (All-always _ (λ _. tt) sys.modules))

  unless_keeps :
      (skip : Bool) (r : Option String × Generator Disk) (g : Generator Disk)
      → R g r.1
      → R g (if skip then (none, g) else r).1
  unless_keeps true r g kept = same g
  unless_keeps false r g kept = kept

  pub process_features-keeps :
      (fs : List FeatureRule)
      → All (AllDocuments P) fs
      → (g : Generator Disk) → R g (process_features w opts sys fs g).1
  unfolding process_features
  process_features-keeps fs all g =
      do_all-keeps R same chain _ (AllDocuments P)
        (λ f g documents.
          unless_keeps f.skip (process_feature w opts sys f g) g
            (process_feature-keeps f documents g))
        fs all g
