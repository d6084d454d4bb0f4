-- ===== src/Experiments/Value.antt =====
-- The values of the JSON configuration and of the keyword arguments, with the Python operations
-- that targeting uses on them. Numbers are integers.
use Prim.Native.Nat.{Ordering, compare as compare_ℕ}
use Prim.Native.String.{String}
use text.Mathlib.Text.{◌==◌ as str_eq}
use baseplate_py.Prelude.{
  ℕ, zero, suc, ◌+◌, Bool, true, false, not, ◌&&◌, ◌||◌, Option, none, some, ◌==◌, if◌then◌else◌,
}
use baseplate_py.Prelude.Int.{ℤ, pos, negsuc, pos_part, neg_part}

mutual
  pub data Value : Type 0 where
    null : Value
    bool : Bool → Value
    num : ℤ → Value
    str : String → Value
    list : Values → Value
    dict : Fields → Value

  pub data Values : Type 0 where
    nil : Values
    cons : Value → Values → Values

  pub data Fields : Type 0 where
    end : Fields
    field : String → Value → Fields → Fields

pub data TypeError : Type 0 where
  type_error : TypeError

-- `len` of a dict
unfoldable pub size : Fields → ℕ
size end = 0
size (field k v fs) = suc (size fs)

unfoldable pub get : String → Fields → Option Value
get k end = none
get k (field j v fs) = if str_eq j k then some v else get k fs

-- `k in d`
unfoldable pub has : String → Fields → Bool
has k end = false
has k (field j v fs) = str_eq j k || has k fs

-- `bool(v)`
unfoldable pub truthy : Value → Bool
truthy null = false
truthy (bool b) = b
truthy (num (pos zero)) = false
truthy (num (pos (suc _))) = true
truthy (num (negsuc _)) = true
truthy (str s) = not (str_eq s "")
truthy (list nil) = false
truthy (list (cons _ _)) = true
truthy (dict end) = false
truthy (dict (field _ _ _)) = true

-- A bool is an int in Python: True == 1.
unfoldable pub as_number : Value → Option ℤ
as_number (bool true) = some (pos 1)
as_number (bool false) = some (pos 0)
as_number (num n) = some n
as_number _ = none

-- integers in order
abbrev pub compare_ℤ : ℤ → ℤ → Ordering
compare_ℤ a b = compare_ℕ (pos_part a + neg_part b) (pos_part b + neg_part a)

abbrev pub is_eq : Ordering → Bool
is_eq Ordering.eq = true
is_eq _ = false

abbrev same_number : ℤ → Option ℤ → Bool
same_number a none = false
same_number a (some b) = is_eq (compare_ℤ a b)

-- `a == b`
unfoldable mutual
  unfolding as_number get size

  pub equals : Value → Value → Bool
  equals null null = true
  equals (bool true) b = same_number (pos 1) (as_number b)
  equals (bool false) b = same_number (pos 0) (as_number b)
  equals (num n) b = same_number n (as_number b)
  equals (str s) (str t) = str_eq s t
  equals (list xs) (list ys) = equal_items xs ys
  equals (dict fs) (dict gs) = size fs == size gs && equal_fields fs gs
  equals _ _ = false

  pub equal_items : Values → Values → Bool
  equal_items nil nil = true
  equal_items (cons x xs) (cons y ys) = equals x y && equal_items xs ys
  equal_items _ _ = false

  pub equal_fields : Fields → Fields → Bool
  equal_fields end gs = true
  equal_fields (field k v fs) gs = elim (get k gs) [
    | none ↦ false
    | some w ↦ equals v w && equal_fields fs gs
  ]
