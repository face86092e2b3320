-- ===== src/Model/Identify/Numbering.antt =====
-- The numbers that System.computeIdentifier gives.
use apigear_cli.Base.{◌≡◌, refl, ap, ℕ, zero, suc, ◌+◌, ◌^◌, ◌<◌, List, [], ◌∷◌, ◌++◌, arith}
use apigear_cli.Base.Lists.{sum}
use native.Mathlib.Nat.{zero-add, add-zero}
use apigear_cli.Model.Data.{NamedNode, Interface, Struct, Enum, Module, System}
use apigear_cli.Model.Identify.{
  next, number_all, number_operation, number_typed, number_signal, number_member, number_interface,
  number_struct, number_enum, number_module, compute_identifier,
}

-- idx, idx + 1, ..., n of them.
unfoldable pub count_from : ℕ → ℕ → List ℕ
count_from idx zero = []
count_from idx (suc n) = idx ∷ count_from (idx + 1) n

-- The ids of the elements.
unfoldable pub all_ids : {A : Type 0} → (A → List ℕ) → List A → List ℕ
all_ids ids [] = []
all_ids ids (x ∷ xs) = ids x ++ all_ids ids xs

-- `ids` counts from `idx` up to before `end`, n numbers.
record Counted (ids : List ℕ) (idx end n : ℕ) : Type 0 where
  values : ids ≡ count_from idx n
  last : end ≡ idx + n

count_from-append :
    (m : ℕ) (idx n : ℕ) → count_from idx m ++ count_from (idx + m) n ≡ count_from idx (m + n)
unfolding count_from
count_from-append zero idx n = rw (add-zero, zero-add) refl
count_from-append (suc m) idx n =
    let same : idx + suc m ≡ idx + 1 + m = omega arith in
    let size : suc m + n ≡ suc (m + n) = omega arith in
    rw (same, size) (ap (λ xs. idx ∷ xs) (count_from-append m (idx + 1) n))

both :
    {xs ys : List ℕ} {idx mid end m n : ℕ}
    → Counted xs idx mid m
    → Counted ys mid end n
    → Counted (xs ++ ys) idx end (m + n)
both {xs} {ys} {idx} {mid} {end} {m} {n} a b = record {
  values = rw (a.values, b.values, a.last) (count_from-append m idx n);
  last = omega (arith, a.last, b.last);
}

-- A numbering that gives `size x` numbers in a row, the first one `idx`, while they fit.
abbrev Counts : {A : Type 0} → (A → ℕ → A × ℕ) → (A → List ℕ) → (A → ℕ) → Type 0
Counts {A} number ids size =
    (x : A) (idx : ℕ)
    → idx + size x < 2 ^ 64
    → Counted (ids (number x idx).0) idx (number x idx).1 (size x)

number_all-Counts :
    {A : Type 0} (number : A → ℕ → A × ℕ) (ids : A → List ℕ) (size : A → ℕ)
    → Counts number ids size
    → Counts (number_all number) (all_ids ids) (sum size)
unfolding number_all all_ids sum
number_all-Counts number ids size counts [] idx fits = record {
  values = unfold count_from in refl;
  last = omega arith;
}
number_all-Counts number ids size counts (x ∷ xs) idx fits =
    let here = counts x idx (omega arith) in
    both here
      (number_all-Counts number ids size counts xs (number x idx).1 (omega (arith, here.last)))

abbrev one : {A : Type 0} → A → ℕ
one x = 1

first : (idx : ℕ) → idx + 1 < 2 ^ 64 → Counted (idx ∷ []) idx (next idx) 1
first idx fits = record { values = unfold count_from in refl; last = omega arith }

abbrev pub id_of : NamedNode → List ℕ
id_of n = n.id ∷ []

next_small : (idx : ℕ) → idx + 1 < 2 ^ 64 → next idx ≡ idx + 1
next_small idx fits = omega arith

number_operation-Counts : Counts number_operation (λ o. id_of o.node) one
number_operation-Counts o idx fits = first idx fits

number_typed-Counts : Counts number_typed (λ o. id_of o.node) one
number_typed-Counts o idx fits = first idx fits

number_signal-Counts : Counts number_signal (λ o. id_of o.node) one
number_signal-Counts o idx fits = first idx fits

number_member-Counts : Counts number_member (λ o. id_of o.node) one
number_member-Counts o idx fits = first idx fits

abbrev pub interface_ids : Interface → List ℕ
interface_ids i =
    i.id
    ∷ (all_ids (λ o. id_of o.node) i.operations
        ++ (all_ids (λ p. id_of p.node) i.properties ++ all_ids (λ s. id_of s.node) i.signals))

abbrev pub interface_size : Interface → ℕ
interface_size i = 1 + (sum one i.operations + (sum one i.properties + sum one i.signals))

abbrev pub struct_ids : Struct → List ℕ
struct_ids s = s.id ∷ all_ids (λ f. id_of f.node) s.fields

abbrev pub struct_size : Struct → ℕ
struct_size s = 1 + sum one s.fields

abbrev pub enum_ids : Enum → List ℕ
enum_ids e = e.id ∷ all_ids (λ m. id_of m.node) e.members

abbrev pub enum_size : Enum → ℕ
enum_size e = 1 + sum one e.members

abbrev pub module_ids : Module → List ℕ
module_ids m =
    m.id
    ∷ (all_ids interface_ids m.interfaces
        ++ (all_ids struct_ids m.structs ++ all_ids enum_ids m.enums))

abbrev pub module_size : Module → ℕ
module_size m =
    1 + (sum interface_size m.interfaces + (sum struct_size m.structs + sum enum_size m.enums))

number_interface-Counts : Counts number_interface interface_ids interface_size
unfolding number_interface
number_interface-Counts i idx fits =
    let head = first idx (omega arith) in
    let operations =
      number_all-Counts number_operation (λ o. id_of o.node) one number_operation-Counts
        i.operations (next idx) (omega (arith, head.last)) in
    let properties =
      number_all-Counts number_typed (λ p. id_of p.node) one number_typed-Counts i.properties
        (number_all number_operation i.operations (next idx)).1
        (omega (arith, head.last, operations.last)) in
    let signals =
      number_all-Counts number_signal (λ s. id_of s.node) one number_signal-Counts i.signals
        (number_all number_typed i.properties
          (number_all number_operation i.operations (next idx)).1).1
        (omega (arith, head.last, operations.last, properties.last)) in
    both head (both operations (both properties signals))

number_struct-Counts : Counts number_struct struct_ids struct_size
unfolding number_struct
number_struct-Counts s idx fits =
    let head = first idx (omega arith) in
    both head (
      number_all-Counts number_typed (λ f. id_of f.node) one number_typed-Counts s.fields (next idx)
        (omega (arith, head.last)))

number_enum-Counts : Counts number_enum enum_ids enum_size
unfolding number_enum
number_enum-Counts e idx fits =
    let head = first idx (omega arith) in
    both head (
      number_all-Counts number_member (λ m. id_of m.node) one number_member-Counts e.members
        (next idx) (omega (arith, head.last)))

number_module-Counts : Counts number_module module_ids module_size
unfolding number_module
number_module-Counts m idx fits =
    let head = first idx (omega arith) in
    let interfaces =
      number_all-Counts number_interface interface_ids interface_size number_interface-Counts
        m.interfaces (next idx) (omega (arith, head.last)) in
    let structs =
      number_all-Counts number_struct struct_ids struct_size number_struct-Counts m.structs
        (number_all number_interface m.interfaces (next idx)).1
        (omega (arith, head.last, interfaces.last)) in
    let enums =
      number_all-Counts number_enum enum_ids enum_size number_enum-Counts m.enums
        (number_all number_struct m.structs
          (number_all number_interface m.interfaces (next idx)).1).1
        (omega (arith, head.last, interfaces.last, structs.last)) in
    both head (both interfaces (both structs enums))

-- In a system of fewer than 2^64 - 1 numbered nodes, computeIdentifier numbers them 1, 2, 3 and so on,
-- each module before its interfaces, structs and enums, each of these before its parts, and an
-- interface's operations before its properties and its signals.
pub compute_identifier-count_from :
    (s : System)
    → 1 + sum module_size s.modules < 2 ^ 64
    → all_ids module_ids (compute_identifier s).modules ≡ count_from 1 (sum module_size s.modules)
unfolding compute_identifier
compute_identifier-count_from s fits =
    (number_all-Counts number_module module_ids module_size number_module-Counts s.modules 1
      fits).values
