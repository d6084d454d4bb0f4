-- ===== src/Experiments/Providers.antt =====
-- baseplate/lib/experiments/providers: the experiment classes and `parse_experiment`.
-- `parse_date` is `datetime.strptime` with ISO_DATE_FMT, in seconds since the epoch.
pub mod Disabled
use Prim.Native.String.{String, ◌++◌ as append}
use text.Mathlib.Text.{◌==◌ as str_eq}
use baseplate_py.Prelude.{
  ℕ, Bool, true, false, not, ◌&&◌, ◌||◌, Option, none, some, Result, ok, err, ◌>>=◌, ltb,
  if◌then◌else◌,
}
use baseplate_py.Prelude.Int.{ℤ}
use baseplate_py.Experiments.Lower.{lower}
use baseplate_py.Experiments.Value.{Value, null, truthy}
use baseplate_py.Experiments.Targeting.{Kwargs, get_kwarg}
use baseplate_py.Experiments.VariantSets.{Floats, VariantError}
use baseplate_py.Experiments.SimpleExperiment
use baseplate_py.Experiments.SimpleExperiment.{SimpleExperiment, SimpleConfig, RunError, get_or}
use baseplate_py.Experiments.R2
use baseplate_py.Experiments.R2.{R2Experiment, R2Config, R2Error, InitError}
use baseplate_py.Experiments.R2.Run

pub data Experiment (F : Type 0) : Type 0 where
  forced_variant : Option String → Experiment F
  r2 : R2Experiment F → Experiment F
  feature_flag : R2Experiment F → Experiment F
  simple : SimpleExperiment F → Experiment F

-- What `parse_experiment` can raise.
pub data ParseError : Type 0 where
  type_error : ParseError
  value_error : ParseError
  key_error : ParseError
  simple_error : VariantError → ParseError
  r2_error : InitError → ParseError

-- What a call of `variant` can raise.
pub data VariantCallError : Type 0 where
  simple_raised : RunError → VariantCallError
  r2_raised : R2Error → VariantCallError

-- The configuration dict, where a key can be missing. An `id` that is not an integer is as one that
-- is missing. The "experiment" dict is read by one class or the other.
pub record ExperimentConfig (F : Type 0) : Type 0 where
  pub type : Option String
  pub id : Option ℤ
  pub name : String
  pub start_ts : Option ℕ
  pub stop_ts : Option ℕ
  pub expires : Option String
  pub enabled : Option Bool
  pub experiment : Option (SimpleConfig F × R2Config F)
  pub global_override : Option (Option String)

pub data ExperimentType : Type 0 where
  r2_type flag_type simple_type unknown_type : ExperimentType

unfoldable pub type_of : String → ExperimentType
type_of s =
    if str_eq s "r2"
    then r2_type
    else if str_eq s "feature_flag"
    then flag_type
    else if str_eq s "single_variant" || str_eq s "multi_variant"
    then simple_type
    else if str_eq s "feature_rollout" || str_eq s "range_variant"
    then simple_type
    else unknown_type

-- `experiment_type in legacy_type_class_map`
abbrev pub is_legacy : ExperimentType → Bool
is_legacy r2_type = true
is_legacy flag_type = true
is_legacy _ = false

-- `experiment_type.lower()`, and None or "" as the text that no class has
abbrev pub lower_type : Option String → String
lower_type none = ""
lower_type (some s) = lower s

abbrev r2_result :
    {F : Type 0}
    → (R2Experiment F → Experiment F)
    → Result InitError (R2Experiment F)
    → Result ParseError (Experiment F)
r2_result class (ok x) = ok (class x)
r2_result class (err e) = err (r2_error e)

abbrev simple_result :
    {F : Type 0} → Result VariantError (SimpleExperiment F) → Result ParseError (Experiment F)
simple_result (ok x) = ok (simple x)
simple_result (err e) = err (simple_error e)

abbrev pub Period : Type 0
Period = ℕ × ℕ

-- outside of the period, the experiment is not enabled
unfoldable pub enabled_at : Option Bool → Period → ℕ → Bool
enabled_at enabled ts now = if ltb now ts.0 || ltb ts.1 now then false else get_or enabled true

-- `start_ts` and `stop_ts`, or the time until the deprecated `expires`
unfoldable pub period :
    (String → Option ℕ) → Option ℕ → Option ℕ → Option String → ℕ → Result ParseError Period
period parse_date (some start) (some stop) expires now = ok (start, stop)
period parse_date _ _ none now = err value_error
period parse_date _ _ (some date) now = elim (parse_date date) [
  | none ↦ err value_error
  | some stop ↦ ok (now, stop)
]

module _ {F : Type 0} (floats : Floats F) (show : Value → String) where
  -- the class that the type names
  unfoldable pub build :
      ExperimentType
      → ℤ
      → String
      → Period
      → Bool
      → String
      → SimpleConfig F × R2Config F
      → Result ParseError (Experiment F)
  build r2_type id name ts enabled variant_type body = r2_result r2 (R2.from_dict name body.1)
  build flag_type id name ts enabled variant_type body =
      r2_result feature_flag (R2.flag_from_dict name body.1)
  build simple_type id name ts enabled variant_type body =
      simple_result
        (SimpleExperiment.from_dict floats show id name ts.0 ts.1 body.0 variant_type enabled)
  build unknown_type id name ts enabled variant_type body = ok (forced_variant none)

  -- from `if not enabled` on
  unfoldable pub class_for :
      ExperimentConfig F → ℤ → Period → Bool → String → Result ParseError (Experiment F)
  unfolding build
  class_for config id ts enabled variant_type =
      if not enabled && is_legacy (type_of variant_type)
      then ok (forced_variant none)
      else elim config.experiment [
        | none ↦ err key_error
        | some body ↦ elim config.global_override [
          | some override ↦ ok (forced_variant override)
          | none ↦ build (type_of variant_type) id config.name ts enabled variant_type body
        ]
      ]

module _ {F : Type 0} (floats : Floats F) (show : Value → String)
    (parse_date : String → Option ℕ) where
  -- `parse_experiment`; the clock says `now` at its first reading, if there is one, and `later` at
  -- the second
  unfoldable pub parse_experiment : ExperimentConfig F → ℕ → ℕ → Result ParseError (Experiment F)
  unfolding class_for period enabled_at
  parse_experiment config now later = elim config.id [
    | none ↦ err type_error
    | some id ↦ period parse_date config.start_ts config.stop_ts config.expires now >>= λ ts.
        class_for floats show config id ts (enabled_at config.enabled ts later)
          (lower_type config.type)
  ]

-- `should_log_bucketing`
unfoldable pub should_log_bucketing : {F : Type 0} → Experiment F → Bool
should_log_bucketing (forced_variant v) = false
should_log_bucketing (r2 x) = true
should_log_bucketing (feature_flag x) = false
should_log_bucketing (simple x) = x.log_bucketing

-- `get_unique_id`
unfoldable pub get_unique_id :
    {F : Type 0} → (Value → String) → Experiment F → Kwargs → Option String
unfolding SimpleExperiment.get_unique_id
get_unique_id show (forced_variant v) kwargs = none
get_unique_id show (r2 x) kwargs = Run.get_unique_id show x kwargs
get_unique_id show (feature_flag x) kwargs = Run.get_unique_id show x kwargs
get_unique_id show (simple x) kwargs = SimpleExperiment.get_unique_id show x kwargs

abbrev pub simple_call : Result RunError (Option String) → Result VariantCallError (Option String)
simple_call (ok v) = ok v
simple_call (err e) = err (simple_raised e)

abbrev pub r2_call : Result R2Error (Option String) → Result VariantCallError (Option String)
r2_call (ok v) = ok v
r2_call (err e) = err (r2_raised e)

module _ {F : Type 0} (floats : Floats F) (limit : F → ℕ → ℤ) (hash : String → ℕ)
    (show : Value → String) where
  -- `variant`
  unfoldable pub variant : Experiment F → Kwargs → ℕ → Result VariantCallError (Option String)
  variant (forced_variant v) kwargs now = ok v
  variant (r2 x) kwargs now = r2_call (Run.variant limit hash show x kwargs)
  variant (feature_flag x) kwargs now = r2_call (Run.variant limit hash show x kwargs)
  variant (simple x) kwargs now =
      simple_call (SimpleExperiment.variant floats hash show x kwargs now)
