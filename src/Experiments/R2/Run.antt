-- ===== src/Experiments/R2/Run.antt =====
-- baseplate/lib/experiments/providers/r2.py: overrides, targeting and bucketing of an R2Experiment.
use Prim.Native.String.{String, ◌++◌ as append}
use text.Mathlib.Text.{◌==◌ as str_eq}
use baseplate_py.Prelude.{
  ℕ, zero, suc, ◌%◌, Bool, true, false, ◌&&◌, Option, none, some, List, [], ◌∷◌, Result, ok, err,
  ◌>>=◌, length, if◌then◌else◌,
}
use baseplate_py.Prelude.Int.{ℤ, pos, ltb_ℤ}
use baseplate_py.Experiments.Value.{
  Value, null, str, list, dict, Values, nil, cons, Fields, TypeError, type_error, get, truthy,
}
use baseplate_py.Experiments.Order.{gt, compare_by, has_item}
use baseplate_py.Experiments.Targeting.{Kwargs, get_kwarg}
use baseplate_py.Experiments.Dict.{Dict, find, keys, is_member, sorted}
use baseplate_py.Experiments.SimpleExperiment.{lower_kwargs}
use baseplate_py.Experiments.R2.{R2Experiment, R2Error, raised, zero_division, lower_value}

-- `values if isinstance(values, (list, tuple)) else [values]`
abbrev pub as_list : Value → Values
as_list (list vs) = vs
as_list v = cons v nil

-- `self.overrides[override_arg].get(final_value)`: only a list and a dict have no hash
unfoldable pub look_up : Value → Fields → Result TypeError (Option Value)
look_up (str s) fs = ok (get s fs)
look_up (list _) fs = err type_error
look_up (dict _) fs = err type_error
look_up v fs = ok none

-- an override that is not None, or else the rest of the search
abbrev pub override_or :
    Result TypeError (Option Value)
    → Result TypeError (Option Value)
    → Result TypeError (Option Value)
override_or (err e) rest = err e
override_or (ok none) rest = rest
override_or (ok (some null)) rest = rest
override_or (ok (some v)) rest = ok (some v)

-- the search among the values of one argument
unfoldable pub override_of_values : Bool → Values → Fields → Result TypeError (Option Value)
unfolding look_up lower_value
override_of_values sensitive nil fs = ok none
override_of_values sensitive (cons v vs) fs =
    override_or (look_up (lower_value sensitive v) fs) (override_of_values sensitive vs fs)

-- `_check_overrides`
unfoldable pub check_overrides :
    List String → Dict Fields → Kwargs → Result TypeError (Option Value)
unfolding override_of_values
check_overrides sensitive [] kwargs = ok none
check_overrides sensitive ((param, fs) ∷ overrides) kwargs =
    let rest = check_overrides sensitive overrides kwargs in
    elim (find param kwargs) [
      | none ↦ rest
      | some v ↦ override_or (override_of_values (is_member param sensitive) (as_list v) fs) rest
    ]

-- `user_created and user_created > self.newer_than`
unfoldable pub is_newer : Value → Value → Result TypeError Bool
is_newer user_created newer_than =
    if truthy user_created then compare_by gt user_created newer_than else ok false

-- the loop over the values of one targeting parameter
unfoldable pub any_allowed : String → Bool → Values → Values → Value → Value → Result TypeError Bool
unfolding lower_value is_newer has_item
any_allowed param sensitive nil allowed user_created newer_than = ok false
any_allowed param sensitive (cons v vs) allowed user_created newer_than =
    let rest = any_allowed param sensitive vs allowed user_created newer_than in
    if has_item (lower_value sensitive v) allowed
    then (if str_eq param "logged_in" && truthy newer_than
        then (is_newer user_created newer_than >>= λ b. if b then ok true else rest)
        else ok true)
    else rest

-- `_is_enabled`: one matching parameter is enough
unfoldable pub matches : List String → Value → Dict Values → Kwargs → Result TypeError Bool
unfolding any_allowed
matches sensitive newer_than [] kwargs = ok false
matches sensitive newer_than ((param, allowed) ∷ targeting) kwargs =
    let rest = matches sensitive newer_than targeting kwargs in
    elim (find param kwargs) [
      | none ↦ rest
      | some v ↦
          any_allowed param (is_member param sensitive) (as_list v) allowed
            (get_kwarg "user_created" kwargs) newer_than
          >>= λ b. if b then ok true else rest
    ]

-- `variant_names[i]`
unfoldable pub item_at : List String → ℕ → Option String
item_at [] i = none
item_at (s ∷ names) zero = some s
item_at (s ∷ names) (suc i) = item_at names i

abbrev pub raised_result {ℓ} : {A : Type ℓ} → Result TypeError A → Result R2Error A
raised_result (ok a) = ok a
raised_result (err e) = err (raised e)

module _ {F : Type 0} (limit : F → ℕ → ℤ) where
  -- whether the bucket is far enough left for the candidate's percentage
  unfoldable pub kept : Option F → ℕ → ℕ → Bool
  kept none n bucket = false
  kept (some percentage) n bucket = ltb_ℤ (pos bucket) (limit percentage n)

  abbrev pub kept_candidate : Dict F → ℕ → ℕ → Option String → Option String
  kept_candidate variants n bucket none = none
  kept_candidate variants n bucket (some s) =
      if kept (find s variants) n bucket then some s else none

  -- the candidate of `_choose_variant` among n names, and whether it keeps the bucket
  unfoldable pub choose_among : Dict F → ℕ → ℕ → Result R2Error (Option String)
  unfolding kept
  choose_among variants zero bucket = err zero_division
  choose_among variants (suc n) bucket =
      ok
        (kept_candidate variants (suc n) bucket (item_at (sorted (keys variants)) (bucket % suc n)))

  -- `_choose_variant`
  unfoldable pub choose_variant : Dict F → ℕ → Result R2Error (Option String)
  unfolding choose_among
  choose_variant variants bucket = choose_among variants (length (keys variants)) bucket

module _ {F : Type 0} (limit : F → ℕ → ℤ) (hash : String → ℕ) (show : Value → String) where
  -- `_calculate_bucket`, with the 1000 buckets of the constructor
  unfoldable pub calculate_bucket : String → Value → ℕ
  calculate_bucket seed v = hash (append seed (show v)) % 1000

  -- `variant` after the overrides; a bucketing value that is missing is treated as None is
  unfoldable pub bucketed_variant : R2Experiment F → Kwargs → Value → Result R2Error (Option String)
  unfolding choose_variant matches calculate_bucket
  bucketed_variant x kwargs null = ok none
  bucketed_variant x kwargs v =
      raised_result (matches x.case_sensitive_targeting x.newer_than x.targeting kwargs)
      >>= λ is_enabled.
          if is_enabled
          then choose_variant limit x.variants (calculate_bucket x.seed v)
          else ok none

  -- `variant is not None and variant in self.variants`
  unfoldable pub forced_name : Option Value → Dict F → Result TypeError (Option String)
  forced_name none variants = ok none
  forced_name (some (str s)) variants = ok (if is_member s (keys variants) then some s else none)
  forced_name (some (list _)) variants = err type_error
  forced_name (some (dict _)) variants = err type_error
  forced_name (some _) variants = ok none

  unfoldable pub variant_of_lowered : R2Experiment F → Kwargs → Result R2Error (Option String)
  unfolding bucketed_variant forced_name check_overrides
  variant_of_lowered x kwargs =
      raised_result (
        check_overrides x.case_sensitive_overrides x.overrides kwargs >>= λ v.
        forced_name v x.variants)
      >>= λ override. elim override [
        | some s ↦ ok (some s)
        | none ↦ bucketed_variant x kwargs (get_kwarg x.bucket_val kwargs)
      ]

  -- `variant`
  unfoldable pub variant : R2Experiment F → Kwargs → Result R2Error (Option String)
  unfolding variant_of_lowered lower_kwargs
  variant x kwargs = variant_of_lowered x (lower_kwargs [] kwargs)

-- `get_unique_id`
unfoldable pub get_unique_id :
    {F : Type 0} → (Value → String) → R2Experiment F → Kwargs → Option String
get_unique_id show x kwargs =
    let v = get_kwarg x.bucket_val kwargs in
    if truthy v
    then some (append x.name (append ":" (append x.bucket_val (append ":" (show v)))))
    else none
