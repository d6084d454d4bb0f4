-- ===== src/Experiments/Client.antt =====
-- baseplate/lib/experiments/__init__.py: `Experiments`, which caches the experiments of a request
-- and logs bucketing and exposure events. What the file watcher holds and what the clock says can
-- be different at each call: a `Moment` is what one call meets.
pub mod Steps
use Prim.Native.String.{String}
use text.Mathlib.Text.{◌==◌ as str_eq}
use baseplate_py.Prelude.{
  ℕ, Bool, true, false, not, ◌&&◌, Option, none, some, List, [], ◌∷◌, ◌++◌, Result, ok, err,
  if◌then◌else◌,
}
use baseplate_py.Prelude.Int.{ℤ}
use baseplate_py.Experiments.Value.{Value}
use baseplate_py.Experiments.Targeting.{Kwargs}
use baseplate_py.Experiments.VariantSets.{Floats}
use baseplate_py.Experiments.SimpleExperiment.{truthy_text}
use baseplate_py.Experiments.Dict.{Dict, find, put, is_member}
use baseplate_py.Experiments.Providers
use baseplate_py.Experiments.Providers.{
  Experiment, ExperimentConfig, parse_experiment, VariantCallError, get_unique_id,
  should_log_bucketing,
}

-- What `get_data` gives, or raises: the configurations by name, of which one that is empty is
-- `none`.
pub data Watched (F : Type 0) : Type 0 where
  not_available : Watched F
  no_dict : Watched F
  loaded : Dict (Option (ExperimentConfig F)) → Watched F

-- what one call meets: the file, the clock at its readings in `parse_experiment`, and later in
-- `variant`
pub record Moment (F : Type 0) : Type 0 where
  pub watched : Watched F
  pub now : ℕ
  pub later : ℕ
  pub time : ℕ

-- `_get_config`, with the test on its result; the exceptions are caught
unfoldable pub get_config : {F : Type 0} → Watched F → String → Option (ExperimentConfig F)
get_config not_available name = none
get_config no_dict name = none
get_config (loaded configs) name = elim (find name configs) [ none ↦ none | some config ↦ config ]

-- EventType, with what `_already_bucketed` is told of a BUCKET event
pub data Event (F : Type 0) : Type 0 where
  bucket : Experiment F → Option String → (inputs : Kwargs) → (bucketing_id : String) → Event F
  expose : Experiment F → String → (inputs : Kwargs) → Event F

-- the object's state, and the events that its logger was given, the first one first
pub record Client (F : Type 0) : Type 0 where
  pub already_bucketed : List String
  pub experiment_cache : Dict (Option (Experiment F))
  pub events : List (Event F)

-- `dict.update`
unfoldable pub update : Kwargs → Kwargs → Kwargs
update inputs [] = inputs
update inputs ((k, v) ∷ fields) = update (put k v inputs) fields

-- `inputs`, where `user` is the event fields of the user, if there is one
unfoldable pub inputs_of : Kwargs → Option Kwargs → Kwargs
unfolding update
inputs_of kwargs none = kwargs
inputs_of kwargs (some fields) = update kwargs fields

abbrev pub cached :
    {F : Type 0} → String → Option (Experiment F) → Client F → Option (Experiment F) × Client F
cached name x c = (
  x,
  record {
    already_bucketed = c.already_bucketed;
    experiment_cache = put name x c.experiment_cache;
    events = c.events;
  },
)

module _ {F : Type 0} (floats : Floats F) (show : Value → String)
    (parse_date : String → Option ℕ) where
  -- `_get_experiment`; an invalid configuration is not cached
  unfoldable pub get_experiment : Moment F → String → Client F → Option (Experiment F) × Client F
  unfolding get_config parse_experiment
  get_experiment m name c = elim (find name c.experiment_cache) [
    | some x ↦ (x, c)
    | none ↦ elim (get_config m.watched name) [
      | none ↦ cached name none c
      | some config ↦ elim (parse_experiment floats show parse_date config m.now m.later) [
        | ok x ↦ cached name (some x) c
        | err e ↦ (none, c)
      ]
    ]
  ]

  -- `is_valid_experiment`
  unfoldable pub is_valid_experiment : Moment F → String → Client F → Bool × Client F
  unfolding get_experiment
  is_valid_experiment m name c =
      let found = get_experiment m name c in
      (elim found.0 [ none ↦ false | some _ ↦ true ], found.1)

-- `log`, and `_already_bucketed.add`
abbrev pub log_bucket :
    {F : Type 0} → Experiment F → Option String → Kwargs → String → Client F → Client F
log_bucket x v inputs id c = record {
  already_bucketed = c.already_bucketed ++ id ∷ [];
  experiment_cache = c.experiment_cache;
  events = c.events ++ bucket x v inputs id ∷ [];
}

abbrev is_some : Option String → Bool
is_some none = false
is_some (some _) = true

-- `bucketing_event_override is False`
abbrev pub is_false : Option Bool → Bool
is_false (some false) = true
is_false _ = false

-- whether `variant` logs a bucketing event
unfoldable pub do_log :
    {F : Type 0} → Experiment F → Option String → Option Bool → String → List String → Bool
do_log x v override id already =
    not (str_eq id "")
    && (is_some v
        && (not (is_false override) && (not (is_member id already) && should_log_bucketing x)))

-- the end of `variant`, given `get_unique_id`
unfoldable pub log_variant :
    {F : Type 0}
    → Experiment F
    → Option String
    → Option Bool
    → Kwargs
    → Option String
    → Client F
    → Client F
unfolding do_log
log_variant x v override inputs none c = c
log_variant x v override inputs (some id) c =
    if do_log x v override id c.already_bucketed then log_bucket x v inputs id c else c

module _ {F : Type 0} (floats : Floats F) (limit : F → ℕ → ℤ) (hash : String → ℕ)
    (show : Value → String) (parse_date : String → Option ℕ) where
  unfoldable pub variant_of :
      Kwargs
      → Option Bool
      → ℕ
      → Option (Experiment F) × Client F
      → Result VariantCallError (Option String) × Client F
  unfolding log_variant Providers.variant get_unique_id
  variant_of inputs override time (none, c) = (ok none, c)
  variant_of inputs override time (some x, c) =
      elim (Providers.variant floats limit hash show x inputs time) [
        | err e ↦ (err e, c)
        | ok v ↦ (ok v, log_variant x v override inputs (get_unique_id show x inputs) c)
      ]

  -- `variant`
  unfoldable pub variant :
      Moment F
      → String
      → Option Kwargs
      → Option Bool
      → Kwargs
      → Client F
      → Result VariantCallError (Option String) × Client F
  unfolding variant_of inputs_of get_experiment
  variant m name user override kwargs c =
      variant_of (inputs_of kwargs user) override m.time
        (get_experiment floats show parse_date m name c)

unfoldable pub exposed :
    {F : Type 0} → String → Kwargs → Option (Experiment F) × Client F → Client F
exposed variant_name inputs (none, c) = c
exposed variant_name inputs (some x, c) = record {
  already_bucketed = c.already_bucketed;
  experiment_cache = c.experiment_cache;
  events = c.events ++ expose x variant_name inputs ∷ [];
}

module _ {F : Type 0} (floats : Floats F) (show : Value → String)
    (parse_date : String → Option ℕ) where
  -- `expose`
  unfoldable pub expose_variant :
      Moment F → String → String → Option Kwargs → Kwargs → Client F → Client F
  unfolding exposed inputs_of get_experiment
  expose_variant m name variant_name user kwargs c =
      exposed variant_name (inputs_of kwargs user) (get_experiment floats show parse_date m name c)
