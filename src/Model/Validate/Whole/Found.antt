-- ===== src/Model/Validate/Whole/Found.antt =====
-- System.LookupNode finds what a valid system has, by its full name.
use apigear_cli.Base.{
  ◌≡◌, ◌∙◌, ap, inl, inr, String, false, Option, some, List, [], ◌∷◌, ◌==◌, ◌<>◌, map, arith,
  eq_refl,
}
use apigear_cli.Base.Lists.{contains, Fresh, Elem, find_by}
use apigear_cli.Base.Loop.{All}
use apigear_cli.Base.Text.{has_char}
use apigear_cli.Model.Data.{Interface, Module, System}
use apigear_cli.Model.Lookup.{
  lookup_module, module_lookup, lookup_local_interface, lookup_interface, lookup_node,
}
use apigear_cli.Model.Fqn.{
  dot, hash, split_last-append, system_lookup_node, system_lookup_node-lookup_node,
}
use apigear_cli.Model.Naming.{onto, Fresh-append}
use apigear_cli.Model.Validate.Whole.WellNamed.{ModuleIsNamed, SystemIsNamed}

All-Elem : {A : Type 0} (P : A → Type 0) (xs : List A) (x : A) → All P xs → Elem x xs → P x
All-Elem P [] x all at = elim at [ ]
All-Elem P (y ∷ xs) x (p, all) (inl same) = rw (← same) p
All-Elem P (y ∷ xs) x (p, all) (inr at) = All-Elem P xs x all at

module _ {A : Type 0} (name : A → String) where
  -- A name of the list is not among those seen before it.
  Fresh-Elem :
      (seen : List String) (xs : List A) (x : A)
      → Fresh seen (map name xs)
      → Elem x xs
      → contains seen (name x) ≡ false
  unfolding contains
  Fresh-Elem seen [] x fresh at = elim at [ ]
  Fresh-Elem seen (y ∷ xs) x (new, fresh) (inl same) = rw (← same) new
  Fresh-Elem seen (y ∷ xs) x (new, fresh) (inr at) =
      let h = Fresh-Elem (name y ∷ seen) xs x fresh at in ground (arith, h)

  Fresh-ne :
      (seen : List String) (y : A) (xs : List A) (x : A)
      → Fresh (name y ∷ seen) (map name xs)
      → Elem x xs
      → (name y == name x) ≡ false
  unfolding contains
  Fresh-ne seen y xs x fresh at =
      let h = Fresh-Elem (name y ∷ seen) xs x fresh at in ground (arith, h)

  -- So a search by a name of the list finds the element itself.
  find_by-Fresh :
      (seen : List String) (xs : List A) (x : A)
      → Fresh seen (map name xs)
      → Elem x xs
      → find_by (λ y. name y == name x) xs ≡ some x
  unfolding find_by
  find_by-Fresh seen [] x fresh at = elim at [ ]
  find_by-Fresh seen (y ∷ xs) x (new, fresh) (inl same) =
      rw (ap name same) (rw (eq_refl (name x)) (ap some same))
  find_by-Fresh seen (y ∷ xs) x (new, fresh) (inr at) =
      rw (Fresh-ne seen y xs x fresh at) (find_by-Fresh (name y ∷ seen) xs x fresh at)

lookup_node-interface :
    (sys : Option System) (m : Module) (i : Interface)
    → ModuleIsNamed m
    → Elem i m.interfaces
    → lookup_node sys m m.name i.name ≡ some i.node
unfolding lookup_node lookup_interface module_lookup lookup_local_interface
lookup_node-interface sys m i named at =
    let a = Fresh-append [] (map (λ x. x.name) m.externs) _ in
    let b =
      Fresh-append (onto (map (λ x. x.name) m.externs) []) (map (λ i. i.name) m.interfaces) _ in
    let fresh = (b.0 (a.0 named.elements).1).0 in
    let found = find_by-Fresh (λ (i : Interface). i.name) _ m.interfaces i fresh at in
    ground (arith, eq_refl m.name, found)

-- In a system with distinct names, LookupNode finds each interface by the name of its module, a dot and
-- its own name, if there is no dot in its own name and no # in either.
pub system_lookup_node-interface :
    (s : System) (m : Module) (i : Interface)
    → SystemIsNamed s
    → Elem m s.modules
    → Elem i m.interfaces
    → has_char dot i.name ≡ false
    → has_char hash (m.name <> ("." <> i.name)) ≡ false
    → system_lookup_node s (m.name <> ("." <> i.name)) ≡ some i.node
unfolding lookup_module
system_lookup_node-interface s m i named here at plain no_hash =
    let there = find_by-Fresh (λ (m : Module). m.name) [] s.modules m named.distinct here in
    let inside =
      lookup_node-interface (some s) m i (All-Elem ModuleIsNamed s.modules m named.modules here)
        at in
    system_lookup_node-lookup_node s (m.name <> ("." <> i.name)) m.name i.name no_hash
      (split_last-append m.name i.name plain) there
    ∙ inside
