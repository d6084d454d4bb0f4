-- ===== src/Experiments/Dict.antt =====
-- Python's dicts as lists of entries, in the order in which the keys were first set.
use Prim.Native.Nat.{Ordering}
use Prim.Native.String.{String, compare}
use text.Mathlib.Text.{◌==◌ as str_eq}
use baseplate_py.Prelude.{Bool, false, ◌||◌, Option, none, some, List, [], ◌∷◌, if◌then◌else◌}

abbrev pub Dict {ℓ} : Type ℓ → Type ℓ
Dict A = List (String × A)

-- `d.get(k)`
unfoldable pub find {ℓ} : {A : Type ℓ} → String → Dict A → Option A
find k [] = none
find k ((j, a) ∷ d) = if str_eq j k then some a else find k d

-- `d[k] = a`
unfoldable pub put {ℓ} : {A : Type ℓ} → String → A → Dict A → Dict A
put k a [] = (k, a) ∷ []
put k a ((j, b) ∷ d) = if str_eq j k then (j, a) ∷ d else (j, b) ∷ put k a d

unfoldable pub keys {ℓ} : {A : Type ℓ} → Dict A → List String
keys [] = []
keys ((k, a) ∷ d) = k ∷ keys d

-- `s in names`
unfoldable pub is_member : String → List String → Bool
is_member s [] = false
is_member s (t ∷ ts) = str_eq t s || is_member s ts

unfoldable insert : String → List String → List String
insert s [] = s ∷ []
insert s (t ∷ ts) = elim (compare t s) [ Ordering.lt ↦ t ∷ insert s ts | _ ↦ s ∷ t ∷ ts ]

-- `sorted(names)`
unfoldable pub sorted : List String → List String
unfolding insert
sorted [] = []
sorted (s ∷ ts) = insert s (sorted ts)
