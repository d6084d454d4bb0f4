-- ===== src/Experiments/SimpleExperiment.antt =====
-- baseplate/lib/experiments/providers/simple_experiment.py: the experiment with targeting,
-- overrides and a variant set. SHA-1 of the seed and the bucketing value, read as a number, is a
-- parameter `hash`, and `str` of a value a parameter `show`. Time is in seconds, and `now` is what
-- the clock says.
pub mod Assignment
pub mod Building
use Prim.Native.String.{String, ◌++◌ as append}
use text.Mathlib.Text.{◌==◌ as str_eq}
use baseplate_py.Prelude.{
  ℕ, zero, suc, ◌%◌, Bool, true, false, not, ◌&&◌, Option, none, some, List, [], ◌∷◌, Result, ok,
  err, ◌>>=◌, ltb, leb, if◌then◌else◌,
}
use baseplate_py.Prelude.Int.{ℤ, pos}
use baseplate_py.Experiments.Lower.{lower}
use baseplate_py.Experiments.Value.{
  Value, null, num, str, list, dict, Values, nil, cons, end, field, TypeError, truthy,
}
use baseplate_py.Experiments.Targeting.{
  Targeting, TreeError, override_node, create, evaluate, Kwargs, get_kwarg,
}
use baseplate_py.Experiments.VariantSets.{
  Floats, Variant, VariantSet, VariantError, value_error, key_error, key, choose_variant,
  make_single, make_multi, make_rollout, make_range,
}

abbrev tree_or_nobody : Result TreeError Targeting → Targeting
tree_or_nobody (ok t) = t
tree_or_nobody (err _) = override_node false

-- `_generate_targeting`, given None if there is no configuration
unfoldable pub generate_targeting : Value → Targeting
generate_targeting null = override_node true
generate_targeting config = tree_or_nobody (create config)

abbrev pub Overrides : Type 0
Overrides = List (String × Targeting)

unfoldable pub generate_entries : Values → Overrides
unfolding generate_targeting
generate_entries nil = []
generate_entries (cons (dict (field treatment config end)) entries) =
    (treatment, generate_targeting config) ∷ generate_entries entries
generate_entries (cons _ entries) = generate_entries entries

-- `_generate_overrides`; a dict without an entry is one that adds nothing
unfoldable pub generate_overrides : Value → Option Overrides
unfolding generate_entries
generate_overrides (list (cons v vs)) = some (generate_entries (cons v vs))
generate_overrides _ = none

pub record SimpleExperiment (F : Type 0) : Type 0 where
  pub name : String
  pub num_buckets : ℕ
  pub start_ts : ℕ
  pub stop_ts : ℕ
  pub enabled : Bool
  pub bucket_val : String
  pub version : Value
  pub log_bucketing : Bool
  pub targeting : Targeting
  pub overrides : Option Overrides
  pub variant_set : VariantSet F
  pub seed : String

-- the experiment's configuration dict, where a key can be missing; `config.get` gives null for it
pub record SimpleConfig (F : Type 0) : Type 0 where
  pub bucket_val : Option String
  pub experiment_version : Option Value
  pub shuffle_version : Value
  pub num_buckets : Option ℕ
  pub variants : Option (Option (List (Variant F)))
  pub log_bucketing : Option Bool
  pub bucket_seed : Option String
  pub targeting : Value
  pub overrides : Value

abbrev pub get_or {ℓ} : {A : Type ℓ} → Option A → A → A
get_or none d = d
get_or (some a) d = a

-- What a call of `variant` can raise.
pub data RunError : Type 0 where
  targeting_raised : TypeError → RunError
  choosing_raised : VariantError → RunError
  zero_division : RunError

abbrev pub targeting_result : Result TypeError Bool → Result RunError Bool
targeting_result (ok b) = ok b
targeting_result (err e) = err (targeting_raised e)

abbrev pub choosing_result : Result VariantError (Option String) → Result RunError (Option String)
choosing_result (ok v) = ok v
choosing_result (err e) = err (choosing_raised e)

-- `get_override`
unfoldable pub first_override : Overrides → Kwargs → Result RunError (Option String)
first_override [] kwargs = ok none
first_override ((variant, t) ∷ overrides) kwargs = elim (evaluate t kwargs) [
  | ok b ↦ elim b [ true ↦ ok (some variant) | false ↦ first_override overrides kwargs ]
  | err e ↦ err (targeting_raised e)
]

unfoldable pub get_override : Option Overrides → Kwargs → Result RunError (Option String)
unfolding first_override
get_override none kwargs = ok none
get_override (some overrides) kwargs = first_override overrides kwargs

-- `{k.lower(): v for k, v in kwargs.items()}`, where a later key replaces an earlier one
unfoldable pub lower_kwargs : Kwargs → Kwargs → Kwargs
lower_kwargs lowered [] = lowered
lower_kwargs lowered ((k, v) ∷ kwargs) = lower_kwargs ((lower k, v) ∷ lowered) kwargs

-- `if override:`
abbrev pub truthy_text : Option String → Bool
truthy_text none = false
truthy_text (some s) = not (str_eq s "")

-- `_is_enabled`
unfoldable pub is_enabled : {F : Type 0} → SimpleExperiment F → ℕ → Bool
is_enabled x now = x.enabled && (leb x.start_ts now && ltb now x.stop_ts)

module _ (show : Value → String) where
  -- the constructor's seed
  unfoldable pub seed_of : Option String → ℤ → String → Value → String
  seed_of bucket_seed id name shuffle_version =
      let default =
        append (show (num id)) (append "." (append name (append "." (show shuffle_version)))) in
      elim bucket_seed [ none ↦ default | some s ↦ if str_eq s "" then default else s ]

  -- `_calculate_bucket`
  unfoldable pub calculate_bucket : (hash : String → ℕ) → String → ℕ → Value → Result RunError ℕ
  calculate_bucket hash seed zero v = err zero_division
  calculate_bucket hash seed (suc n) v = ok (hash (append seed (show v)) % suc n)

  -- `get_unique_id`
  unfoldable pub get_unique_id : {F : Type 0} → SimpleExperiment F → Kwargs → Option String
  get_unique_id x kwargs =
      let v = get_kwarg x.bucket_val kwargs in
      if truthy v
      then some (append x.name (append ":" (append x.bucket_val (append ":" (show v)))))
      else none

module _ {F : Type 0} (floats : Floats F) where
  -- `variant_type_map`, and the constructor that it names
  unfoldable pub make_variant_set :
      String → Option (List (Variant F)) → ℕ → Result VariantError (VariantSet F)
  make_variant_set variant_type variants n =
      if str_eq variant_type "single_variant"
      then make_single floats variants n
      else if str_eq variant_type "multi_variant"
      then make_multi floats variants n
      else if str_eq variant_type "feature_rollout"
      then make_rollout floats variants n
      else if str_eq variant_type "range_variant"
      then make_range floats variants n
      else err value_error

module _ {F : Type 0} (floats : Floats F) (show : Value → String) where
  -- `SimpleExperiment.from_dict`
  unfoldable pub from_dict :
      ℤ → String → ℕ → ℕ → SimpleConfig F → String → Bool → Result VariantError (SimpleExperiment F)
  unfolding seed_of make_variant_set generate_targeting generate_overrides
  from_dict id name start_ts stop_ts config variant_type enabled =
      key config.experiment_version >>= λ version.
      make_variant_set floats variant_type (get_or config.variants (some []))
        (get_or config.num_buckets 1000)
      >>= λ variant_set.
          if truthy version
          then ok (record {
            name = name;
            num_buckets = get_or config.num_buckets 1000;
            start_ts = start_ts;
            stop_ts = stop_ts;
            enabled = enabled;
            bucket_val = get_or config.bucket_val "user_id";
            version = version;
            log_bucketing = get_or config.log_bucketing true;
            targeting = generate_targeting config.targeting;
            overrides = generate_overrides config.overrides;
            variant_set = variant_set;
            seed = seed_of show config.bucket_seed id name config.shuffle_version;
          })
          else err value_error

module _ {F : Type 0} (floats : Floats F) (hash : String → ℕ) (show : Value → String) where
  -- the part of `variant` after the overrides
  unfoldable pub targeted_variant :
      SimpleExperiment F → Kwargs → Value → Result RunError (Option String)
  unfolding calculate_bucket
  targeted_variant x kwargs v = targeting_result (evaluate x.targeting kwargs) >>= λ is_targeted.
      if is_targeted
      then (calculate_bucket show hash x.seed x.num_buckets v >>= λ bucket.
          choosing_result (choose_variant floats x.variant_set bucket))
      else ok none

  unfoldable pub variant_for : SimpleExperiment F → Kwargs → Value → Result RunError (Option String)
  unfolding targeted_variant get_override
  variant_for x kwargs null = ok none
  variant_for x kwargs v = get_override x.overrides kwargs >>= λ override.
      if truthy_text override then ok override else targeted_variant x kwargs v

  -- `variant`; a bucketing value that is missing is treated as None is
  unfoldable pub variant : SimpleExperiment F → Kwargs → ℕ → Result RunError (Option String)
  unfolding is_enabled variant_for lower_kwargs
  variant x kwargs now =
      if is_enabled x now
      then variant_for x kwargs (get_kwarg x.bucket_val (lower_kwargs [] kwargs))
      else ok none
