-- ===== src/Prelude/Texts.antt =====
-- Python sets of strings, as lists in the order of insertion without repetition, and dictionaries
-- keyed by strings, as association lists in the order of insertion.
use Prim.Native.String.{String}
use mathlib.Core.Path.{◌≡◌, refl}
use mathlib.Core.Bool.{Bool, false, ◌||◌}
use mathlib.Core.Option.{Option, none, some}
use mathlib.Core.List.{List, [], ◌∷◌, ◌++◌}
use native.Mathlib.Omega.{arith}
use text.Mathlib.Text.{◌==◌ as str_eq}
use text.Mathlib.TextEquality.{eq_iff}
use counter_cruiser.Prelude.Tests.{if◌then◌else◌}

-- `x in xs`
abbrev pub contains : String → List String → Bool
contains x [] = false
contains x (y ∷ ys) = str_eq y x || contains x ys

-- `s.add(x)`
abbrev pub add : String → List String → List String
add x s = if contains x s then s else s ++ x ∷ []

-- `s.update(xs)`
abbrev pub update : List String → List String → List String
update s [] = s
update s (x ∷ xs) = update (add x s) xs

pub contains-append :
    (k : String) (xs ys : List String) → contains k (xs ++ ys) ≡ (contains k xs || contains k ys)
contains-append k [] ys = refl
contains-append k (x ∷ xs) ys = ground (arith, contains-append k xs ys)

contains-add :
    (k x : String) (s : List String) → contains k (add x s) ≡ (contains k s || str_eq x k)
contains-add k x s = ground (arith, contains-append k s (x ∷ []), eq_iff x k)

-- An update adds what it is given and loses nothing.
pub contains-update :
    (k : String) (s xs : List String) → contains k (update s xs) ≡ (contains k s || contains k xs)
contains-update k s [] = ground arith
contains-update k s (x ∷ xs) = ground (arith, contains-update k (add x s) xs, contains-add k x s)

module _ {ℓ} {V : Type ℓ} where
  -- `d.get(k)`
  abbrev pub lookup : String → List (String × V) → Option V
  lookup k [] = none
  lookup k ((j, v) ∷ d) = if str_eq j k then some v else lookup k d

  -- `d[k] = v`
  abbrev pub insert : String → V → List (String × V) → List (String × V)
  insert k v [] = (k, v) ∷ []
  insert k v ((j, w) ∷ d) = if str_eq j k then (j, v) ∷ d else (j, w) ∷ insert k v d

  pub lookup-insert :
      (k j : String) (v : V) (d : List (String × V))
      → lookup j (insert k v d) ≡ (if str_eq k j then some v else lookup j d)
  lookup-insert k j v [] = refl
  lookup-insert k j v ((i, w) ∷ d) =
      ground (arith, eq_iff k j, eq_iff i k, eq_iff i j, lookup-insert k j v d)
