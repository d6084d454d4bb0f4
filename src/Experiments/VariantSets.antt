-- ===== src/Experiments/VariantSets.antt =====
-- baseplate/lib/experiments/variant_sets: single, multi, rollout and range variant sets.
-- Python's floating-point numbers are a parameter, with the operations on them that the code uses.
pub mod Membership
pub mod Buckets
pub mod Resizing
pub mod Validation
use Prim.Native.String.{String}
use text.Mathlib.Text.{◌==◌ as str_eq}
use baseplate_py.Prelude.{
  ℕ, Bool, true, false, ◌&&◌, ◌||◌, Option, none, some, List, [], ◌∷◌, Result, ok, err, ◌>>=◌, ltb,
  ◌==◌, length, if◌then◌else◌,
}
use baseplate_py.Prelude.Int.{ℤ, pos, ◌+ℤ◌, sub_ℕ, pos_part, neg_part, ltb_ℤ, leb_ℤ}

pub record Floats (F : Type 0) : Type 0 where
  -- `int(x * n)`, which truncates
  pub scaled : F → ℕ → ℤ
  pub add : F → F → F
  pub sub : F → F → F
  -- `x < 0.0`
  pub is_negative : F → Bool
  -- `x > 1.0`
  pub exceeds_one : F → Bool

-- the dict of a variant: the keys that the sets read, each of which can be missing
pub record Variant (F : Type 0) : Type 0 where
  pub name : Option String
  pub size : Option F
  pub range_start : Option F
  pub range_end : Option F

pub data VariantError : Type 0 where
  value_error : VariantError
  key_error : VariantError

pub data VariantSet (F : Type 0) : Type 0 where
  single_set : (control treatment : Variant F) (num_buckets : ℕ) → VariantSet F
  multi_set : (variants : List (Variant F)) (num_buckets : ℕ) → VariantSet F
  rollout_set : (variant : Variant F) (num_buckets : ℕ) → VariantSet F
  range_set : (variants : List (Variant F)) (num_buckets : ℕ) → VariantSet F

-- `variant["size"]`
abbrev pub key {ℓ} : {A : Type ℓ} → Option A → Result VariantError A
key none = err key_error
key (some a) = ok a

module _ {F : Type 0} (floats : Floats F) where
  -- SingleVariantSet: its constructor, given `variants`, which may be None
  unfoldable single_size : Option F → Option F → Result VariantError F
  single_size (some a) (some b) = ok (floats.add a b)
  single_size _ _ = err value_error

  unfoldable pub make_single : Option (List (Variant F)) → ℕ → Result VariantError (VariantSet F)
  unfolding single_size
  make_single (some (v ∷ w ∷ [])) n = single_size v.size w.size >>= λ total.
      if floats.is_negative total || floats.exceeds_one total
      then err value_error
      else ok (single_set v w n)
  make_single _ n = err value_error

  unfoldable pub choose_single : Variant F → Variant F → ℕ → ℕ → Result VariantError (Option String)
  choose_single v w n bucket = key v.size >>= λ a.
      if ltb_ℤ (pos bucket) (floats.scaled a n)
      then (key v.name >>= λ s. ok (some s))
      else (key w.size >>= λ b.
          if leb_ℤ (pos n) (pos bucket +ℤ floats.scaled b n)
          then (key w.name >>= λ s. ok (some s))
          else ok none)

  -- the sum of the sizes, a missing size being a ValueError
  unfoldable pub sum_sizes : List (Variant F) → ℕ → ℤ → Result VariantError ℤ
  sum_sizes [] n total = ok total
  sum_sizes (v ∷ vs) n total = elim v.size [
    | none ↦ err value_error
    | some a ↦ sum_sizes vs n (total +ℤ floats.scaled a n)
  ]

  -- MultiVariantSet
  unfoldable pub make_multi : Option (List (Variant F)) → ℕ → Result VariantError (VariantSet F)
  unfolding sum_sizes
  make_multi none n = err value_error
  make_multi (some vs) n =
      if ltb (length vs) 3
      then err value_error
      else (sum_sizes vs n (pos 0) >>= λ total.
          if ltb_ℤ (pos n) total then err value_error else ok (multi_set vs n))

  unfoldable pub choose_multi : List (Variant F) → ℕ → ℕ → ℤ → Result VariantError (Option String)
  choose_multi [] n bucket current_offset = ok none
  choose_multi (v ∷ vs) n bucket current_offset = elim v.size [
    | none ↦ err key_error
    | some a ↦
        let offset = current_offset +ℤ floats.scaled a n in
        let rest = choose_multi vs n bucket offset in
        if ltb_ℤ (pos bucket) offset then (key v.name >>= λ s. ok (some s)) else rest
  ]

  -- RolloutVariantSet
  unfoldable pub make_rollout : Option (List (Variant F)) → ℕ → Result VariantError (VariantSet F)
  make_rollout (some (v ∷ [])) n = elim v.size [
    | none ↦ err value_error
    | some a ↦
        if floats.is_negative a || floats.exceeds_one a
        then err value_error
        else ok (rollout_set v n)
  ]
  make_rollout _ n = err value_error

  unfoldable pub choose_rollout : Variant F → ℕ → ℕ → Result VariantError (Option String)
  choose_rollout v n bucket =
      key v.size >>= λ a. if ltb_ℤ (pos bucket) (floats.scaled a n) then ok v.name else ok none

  -- RangeVariantSet: the sum of the ranges, a missing end of a range being a ValueError
  unfoldable pub sum_ranges : List (Variant F) → ℕ → ℤ → Result VariantError ℤ
  sum_ranges [] n total = ok total
  sum_ranges (v ∷ vs) n total = elim v.range_end [
    | none ↦ err value_error
    | some b ↦ elim v.range_start [
      | none ↦ err value_error
      | some a ↦ sum_ranges vs n (total +ℤ floats.scaled (floats.sub b a) n)
    ]
  ]

  unfoldable pub make_range : Option (List (Variant F)) → ℕ → Result VariantError (VariantSet F)
  unfolding sum_ranges
  make_range none n = err value_error
  make_range (some []) n = err value_error
  make_range (some (v ∷ vs)) n = sum_ranges (v ∷ vs) n (pos 0) >>= λ total.
      if ltb_ℤ (pos n) total then err value_error else ok (range_set (v ∷ vs) n)

  abbrev pub in_range : ℕ → ℕ → F → F → Bool
  in_range n bucket a b =
      leb_ℤ (floats.scaled a n) (pos bucket) && ltb_ℤ (pos bucket) (floats.scaled b n)

  unfoldable pub choose_range : List (Variant F) → ℕ → ℕ → Result VariantError (Option String)
  choose_range [] n bucket = ok none
  choose_range (v ∷ vs) n bucket =
      let rest = choose_range vs n bucket in
      key v.range_start >>= λ a. key v.range_end >>= λ b.
      if in_range n bucket a b then (key v.name >>= λ s. ok (some s)) else rest

  -- `choose_variant` of the four classes
  unfoldable pub choose_variant : VariantSet F → ℕ → Result VariantError (Option String)
  unfolding choose_single choose_multi choose_rollout choose_range
  choose_variant (single_set v w n) bucket = choose_single v w n bucket
  choose_variant (multi_set vs n) bucket = choose_multi vs n bucket (pos 0)
  choose_variant (rollout_set v n) bucket = choose_rollout v n bucket
  choose_variant (range_set vs n) bucket = choose_range vs n bucket

-- `variant.get("name") == item`
abbrev pub is_named : {F : Type 0} → Variant F → String → Bool
is_named v s = elim v.name [ none ↦ false | some t ↦ str_eq t s ]

unfoldable pub any_named : {F : Type 0} → List (Variant F) → String → Bool
any_named [] s = false
any_named (v ∷ vs) s = is_named v s || any_named vs s

-- `item in variant_set`
unfoldable pub contains_variant : {F : Type 0} → VariantSet F → String → Bool
unfolding any_named
contains_variant (single_set v w n) s = is_named v s || is_named w s
contains_variant (multi_set vs n) s = any_named vs s
contains_variant (rollout_set v n) s = is_named v s
contains_variant (range_set vs n) s = any_named vs s
