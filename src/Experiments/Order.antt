-- ===== src/Experiments/Order.antt =====
-- Python's ordering of values, and `x in container`.
use Prim.Native.Nat.{Ordering}
use Prim.Native.String.{compare}
use text.Mathlib.Text.{find?}
use baseplate_py.Prelude.{Bool, true, false, not, ◌||◌, Option, none, some, Result, ok, err}
use baseplate_py.Prelude.Int.{ℤ, pos}
use baseplate_py.Experiments.Value.{
  Value, bool, num, str, list, dict, Values, nil, cons, TypeError, type_error, as_number, compare_ℤ,
  equals, has,
}

abbrev order_number : ℤ → Option ℤ → Result TypeError Ordering
order_number a none = err type_error
order_number a (some b) = ok (compare_ℤ a b)

-- Lists are compared at the first items that differ.
unfoldable mutual
  unfolding as_number equals

  pub order : Value → Value → Result TypeError Ordering
  order (bool true) b = order_number (pos 1) (as_number b)
  order (bool false) b = order_number (pos 0) (as_number b)
  order (num n) b = order_number n (as_number b)
  order (str s) (str t) = ok (compare s t)
  order (list xs) (list ys) = order_items xs ys
  order _ _ = err type_error

  pub order_items : Values → Values → Result TypeError Ordering
  order_items nil nil = ok Ordering.eq
  order_items nil (cons _ _) = ok Ordering.lt
  order_items (cons _ _) nil = ok Ordering.gt
  order_items (cons x xs) (cons y ys) = elim (equals x y) [
    | true ↦ order_items xs ys
    | false ↦ order x y
  ]

-- The functions of the `operator` module that `ComparisonNode` is given.
pub data Comparator : Type 0 where
  gt ge lt le ne : Comparator

abbrev pub holds : Comparator → Ordering → Bool
holds gt Ordering.gt = true
holds gt _ = false
holds ge Ordering.lt = false
holds ge _ = true
holds lt Ordering.lt = true
holds lt _ = false
holds le Ordering.gt = false
holds le _ = true
holds ne Ordering.eq = false
holds ne _ = true

abbrev ordered : Comparator → Result TypeError Ordering → Result TypeError Bool
ordered c (ok o) = ok (holds c o)
ordered c (err e) = err e

-- `operator.ne` never raises
unfoldable pub compare_by : Comparator → Value → Value → Result TypeError Bool
compare_by ne a b = ok (not (equals a b))
compare_by gt a b = ordered gt (order a b)
compare_by ge a b = ordered ge (order a b)
compare_by lt a b = ordered lt (order a b)
compare_by le a b = ordered le (order a b)

unfoldable pub has_item : Value → Values → Bool
has_item x nil = false
has_item x (cons y ys) = equals x y || has_item x ys

abbrev is_found {ℓ} : {A : Type ℓ} → Option A → Bool
is_found none = false
is_found (some _) = true

-- `x in container`: a text is searched for a text, and a dict for one of its keys
unfoldable pub contains : Value → Value → Result TypeError Bool
unfolding has_item has
contains x (list ys) = ok (has_item x ys)
contains (str s) (str t) = ok (is_found (find? t s))
contains (str s) (dict fs) = ok (has s fs)
contains (list _) (dict _) = err type_error
contains (dict _) (dict _) = err type_error
contains x (dict _) = ok false
contains x _ = err type_error
