-- ===== src/Idl/Read/States.antt =====
-- The states of the listener of pkg/idl/listener.go between two parts of a tree, and runs of it
-- over two lists of events, one after the other.
use apigear_cli.Base.{ℕ, Option, none, some, List, [], ◌∷◌, ◌++◌, map, ◌≡◌, refl, sym, ap, ◌∙◌}
use apigear_cli.Base.Loop.{concat_map}
use apigear_cli.Base.Lists.{append-nil, append-cons}
use apigear_cli.Model.Data.{Module, Interface, Struct, Enum, Operation, Signal, System}
use apigear_cli.Idl.Listener.{Listener, new_listener, Event, handle, run, use_}

-- Between two declarations.
abbrev pub in_module : System → ℕ → Module → Listener
in_module system next m = let s = new_listener system next in record s { module_ = some m }

-- Between two members of an interface.
abbrev pub in_interface : Listener → Interface → Listener
in_interface s i = record s { iface = some i }

-- Between two parameters of an operation or of a signal.
abbrev pub in_operation : Listener → Operation → Listener
in_operation s o = record s { operation_ = some o }

abbrev pub in_signal : Listener → Signal → Listener
in_signal s sig = record s { signal_ = some sig }

abbrev pub in_struct : Listener → Struct → Listener
in_struct s x = record s { struct_ = some x }

abbrev pub in_enum : Listener → Enum → ℕ → Listener
in_enum s e running = record s { enum_ = some e; running_value = running }

use_-use_ :
    (f g : Listener → Option Listener) (r : Option Listener)
    → use_ (use_ r f) g ≡ use_ r (λ s. use_ (f s) g)
use_-use_ f g none = refl
use_-use_ f g (some s) = refl

pub run-append : (xs ys : List Event) (s : Listener) → run (xs ++ ys) s ≡ use_ (run xs s) (run ys)
unfolding run
run-append [] ys s = refl
run-append (x ∷ xs) ys s =
    (λ i. use_ (handle x s) (λ s'. run-append xs ys s' i))
    ∙ sym (use_-use_ (run xs) (run ys) (handle x s))

-- A run that does not panic, and the rest after it.
pub run-then :
    (xs ys : List Event) (s : Listener) {s' : Listener}
    → run xs s ≡ some s'
    → run (xs ++ ys) s ≡ run ys s'
run-then xs ys s h = run-append xs ys s ∙ ap (λ r. use_ r (run ys)) h

-- A list of trees, each of which adds one element to a list of the state.
module _ {A B : Type 0} (events : A → List Event) (built : A → B) (state : List B → Listener)
    (one : (t : A) (xs : List B)
      → run (events t) (state xs) ≡ some (state (xs ++ (built t ∷ [])))) where
  pub run-each :
      (ts : List A) (xs : List B)
      → run (concat_map events ts) (state xs) ≡ some (state (xs ++ map built ts))
  unfolding run
  run-each [] xs = ap (λ ys. some (state ys)) (sym (append-nil xs))
  run-each (t ∷ ts) xs =
      run-then (events t) (concat_map events ts) (state xs) (one t xs)
      ∙ run-each ts (xs ++ (built t ∷ []))
      ∙ ap (λ ys. some (state ys)) (append-cons xs (built t) (map built ts))
