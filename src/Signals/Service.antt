-- ===== src/Signals/Service.antt =====
-- ObjectService of pkg/sim/service.go: its properties and the handlers that hear of them. A property's
-- value is of a type V, `nil` is what a missing one reads as, `deep_equal` is reflect.DeepEqual, and
-- `call` is what a call of a handler does to the service and to the rest of the program: a handler may
-- set properties of the service that calls it. The methods and signals that go to the JavaScript engine
-- and to the OLink source are not modelled, but for NotifyPropertyChanged, whose calls are kept in
-- `notified`.
use apigear_cli.Base.{
  String, Bool, true, false, Option, none, some, List, [], ◌∷◌, ◌++◌, ◌==◌, if◌then◌else◌, ◌≡◌,
  refl, ◌∙◌, eq_refl, Bool-cases, inl, inr,
}
use apigear_cli.Base.Dict.{Dict, Entry, lookup, insert, lookup-insert}
use apigear_cli.Base.Lists.{Elem}
use apigear_cli.Base.Loop.{All, All-Elem, All-from}
use apigear_cli.Signals.Hook.{HookEntry}
use apigear_cli.Signals.Emitter.{Emitter, handlers_of, call_handlers, call_hooks, emitter_emit}

-- The state of a service with a source, and the rest of the program.
pub record Service (V H K S : Type 0) : Type 0 where
  pub properties : Dict V
  pub property_emitter : Emitter H K
  pub notified : List (String × V)
  pub outside : S

module _ {V H K S : Type 0} (nil : V) (deep_equal : V → V → Bool)
    (call : H → V → Service V H K S → Service V H K S)
    (call_any : K → String → V → Service V H K S → Service V H K S) where
  abbrev value_or_nil : Option V → V
  value_or_nil none = nil
  value_or_nil (some value) = value

  -- ObjectService.GetProperty
  unfoldable pub get_property : String → Service V H K S → V
  get_property name o = value_or_nil (lookup name o.properties)

  -- The call of NotifyPropertyChanged.
  abbrev notify : String → V → Service V H K S → Service V H K S
  notify name value o = record o { notified = o.notified ++ ((name, value) ∷ []) }

  abbrev changed : String → V → Service V H K S → Service V H K S
  changed name value o =
      let o' = record o { properties = insert name value o.properties } in
      notify name value
        (emitter_emit call call_any (λ (o : Service V H K S). o.property_emitter) name value o')

  -- ObjectService.setProperty
  unfoldable pub set_property : String → V → Service V H K S → Service V H K S
  unfolding get_property
  set_property name value o =
      if deep_equal (get_property name o) value then o else changed name value o

  -- ObjectService.SetProperties, for the order in which Go ranges over the map.
  unfoldable pub set_properties : List (Entry V) → Service V H K S → Service V H K S
  set_properties [] o = o
  set_properties (entry ∷ entries) o = set_properties entries (set_property entry.key entry.value o)

  -- No handler changes what the property reads as. It may change other properties, and all else.
  pub record IsLeft (name : String) : Type 0 where
    pub by_handlers :
        (h : H) (value : V) (o : Service V H K S)
        → get_property name (call h value o) ≡ get_property name o
    pub by_hooks :
        (k : K) (event : String) (value : V) (o : Service V H K S)
        → get_property name (call_any k event value o) ≡ get_property name o

  call_handlers-IsLeft :
      (name : String)
      → IsLeft name
      → (value : V) (entries : List (HookEntry H)) (o : Service V H K S)
      → get_property name (call_handlers call call_any value entries o) ≡ get_property name o
  call_handlers-IsLeft name left value [] o = refl
  call_handlers-IsLeft name left value (entry ∷ entries) o =
      call_handlers-IsLeft name left value entries (call entry.h value o)
      ∙ left.by_handlers entry.h value o

  call_hooks-IsLeft :
      (name : String)
      → IsLeft name
      → (event : String) (value : V) (entries : List (HookEntry K)) (o : Service V H K S)
      → get_property name (call_hooks call call_any event value entries o) ≡ get_property name o
  call_hooks-IsLeft name left event value [] o = refl
  call_hooks-IsLeft name left event value (entry ∷ entries) o =
      call_hooks-IsLeft name left event value entries (call_any entry.h event value o)
      ∙ left.by_hooks entry.h event value o

  -- What a property reads as after another value was stored for a name, and the handlers were called.
  changed-IsLeft :
      (name other : String) (value : V) (o : Service V H K S)
      → IsLeft other
      → get_property other (changed name value o)
        ≡ value_or_nil (if other == name then some value else lookup other o.properties)
  unfolding get_property emitter_emit
  changed-IsLeft name other value o left =
      let o' = record o { properties = insert name value o.properties } in
      let o'' = call_handlers call call_any value (handlers_of name o.property_emitter) o' in
      call_hooks-IsLeft other left name value o''.property_emitter.hook o''
      ∙ call_handlers-IsLeft other left value (handlers_of name o.property_emitter) o'
      ∙ (λ i. value_or_nil (lookup-insert name other value o.properties i))

  get_property-other :
      (name other : String) (value : V) (o : Service V H K S)
      → IsLeft other
      → (other == name) ≡ false
      → get_property other (set_property name value o) ≡ get_property other o
  unfolding set_property
  get_property-other name other value o left apart =
      elim (Bool-cases (deep_equal (get_property name o) value)) [
        | inl e ↦ rw e
        | inr e ↦ rw e (changed-IsLeft name other value o left ∙ unfold get_property in rw apart)
      ]

  -- What a property that the handlers leave reads as after it is set is equal to the value.
  get_property-set_property :
      (name : String) (value : V) (o : Service V H K S)
      → IsLeft name
      → deep_equal value value ≡ true
      → deep_equal (get_property name (set_property name value o)) value ≡ true
  unfolding set_property
  get_property-set_property name value o left same =
      elim (Bool-cases (deep_equal (get_property name o) value)) [
        | inl e ↦ rw e e
        | inr e ↦ rw (e, changed-IsLeft name name value o left, eq_refl name) same
      ]

  -- A property reads as what an entry says.
  abbrev Shows : Service V H K S → Entry V → Type 0
  Shows o entry = deep_equal (get_property entry.key o) entry.value ≡ true

  set_properties-Shows :
      (entries : List (Entry V)) (o : Service V H K S)
      → All (Shows o) entries
      → set_properties entries o ≡ o
  unfolding set_properties set_property
  set_properties-Shows [] o shows = refl
  set_properties-Shows (entry ∷ entries) o (same, shows) =
      rw same (set_properties-Shows entries o shows)

  abbrev pub Apart : String → List (Entry V) → Type 0
  Apart name entries = All (λ entry. (name == entry.key) ≡ false) entries

  -- The keys differ, as in a map, each value is equal to itself, and the handlers leave the properties.
  abbrev pub IsSettable : List (Entry V) → Type 0
  IsSettable [] = Unit {0}
  IsSettable (entry ∷ entries) =
      ((deep_equal entry.value entry.value ≡ true) × Apart entry.key entries × IsLeft entry.key)
      × IsSettable entries

  set_properties-Apart :
      (name : String) (entries : List (Entry V)) (o : Service V H K S)
      → IsLeft name
      → Apart name entries
      → get_property name (set_properties entries o) ≡ get_property name o
  unfolding set_properties
  set_properties-Apart name [] o left apart = refl
  set_properties-Apart name (entry ∷ entries) o left (first, apart) =
      set_properties-Apart name entries (set_property entry.key entry.value o) left apart
      ∙ get_property-other entry.key name entry.value o left first

  set_properties-shown :
      (entries : List (Entry V)) (o : Service V H K S)
      → IsSettable entries
      → All (Shows (set_properties entries o)) entries
  unfolding set_properties
  set_properties-shown [] o settable = tt
  set_properties-shown (entry ∷ entries) o ((same, apart, left), settable) =
      let o' = set_property entry.key entry.value o in
      (
        rw (set_properties-Apart entry.key entries o' left apart)
            (get_property-set_property entry.key entry.value o left same),
        set_properties-shown entries o' settable,
      )

  -- After SetProperties with a map of values that are equal to themselves, a call with the same map, or
  -- with a part of it, in any order, changes nothing: no handler is called, and the source is not
  -- notified again. The handlers may do anything, set other properties of the service too, but none of
  -- them changes what a property of the map reads as.
  pub set_properties-set_properties :
      (entries again : List (Entry V)) (o : Service V H K S)
      → IsSettable entries
      → ((entry : Entry V) → Elem entry again → Elem entry entries)
      → set_properties again (set_properties entries o) ≡ set_properties entries o
  set_properties-set_properties entries again o settable part =
      let done = set_properties entries o in
      let shown = set_properties-shown entries o settable in
      set_properties-Shows again done (
        All-from (Shows done) again
          (λ entry at. All-Elem (Shows done) entries shown (part entry at)))
