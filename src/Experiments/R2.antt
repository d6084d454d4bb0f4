-- ===== src/Experiments/R2.antt =====
-- baseplate/lib/experiments/providers/r2.py and feature_flag.py: the legacy experiments.
-- `hash` is SHA-1 as a number, `show` is `str`, and `limit p n` is the floating-point
-- `int(p * n * (1000 / 100))` of a percentage p and n variants.
pub mod Run
pub mod Increase
use Prim.Native.String.{String, ◌++◌ as append}
use text.Mathlib.Text.{◌==◌ as str_eq}
use baseplate_py.Prelude.{
  ℕ, zero, suc, ◌%◌, Bool, true, false, not, ◌&&◌, ◌||◌, Option, none, some, List, [], ◌∷◌, Result,
  ok, err, ◌>>=◌, length, if◌then◌else◌, map,
}
use baseplate_py.Prelude.Int.{ℤ, pos, ltb_ℤ}
use baseplate_py.Experiments.Lower.{lower}
use baseplate_py.Experiments.Value.{
  Value, null, bool, num, str, list, dict, Values, nil, cons, Fields, end, field, TypeError,
  type_error, get, truthy,
}
use baseplate_py.Experiments.Order.{Comparator, gt, compare_by, has_item}
use baseplate_py.Experiments.Targeting.{Kwargs, get_kwarg}
use baseplate_py.Experiments.Dict.{Dict, find, put, keys, is_member, sorted}
use baseplate_py.Experiments.SimpleExperiment.{lower_kwargs, get_or}

-- What making an experiment from its configuration can raise.
pub data InitError : Type 0 where
  assertion_error : InitError
  attribute_error : InitError
  not_iterable : InitError
  missing_variants : InitError

-- What a call of `variant` can raise.
pub data R2Error : Type 0 where
  raised : TypeError → R2Error
  zero_division : R2Error

pub record R2Experiment (F : Type 0) : Type 0 where
  pub case_sensitive_overrides : List String
  pub case_sensitive_targeting : List String
  pub targeting : Dict Values
  pub overrides : Dict Fields
  pub name : String
  pub seed : String
  pub variants : Dict F
  pub bucket_val : String
  pub newer_than : Value

-- `d.pop(k, [])`: the value, and what is left
unfoldable pub popped : String → Fields → Value
popped k end = list nil
popped k (field j v fs) = if str_eq j k then v else popped k fs

unfoldable pub without : String → Fields → Fields
without k end = end
without k (field j v fs) = if str_eq j k then fs else field j v (without k fs)

unfoldable letters : String → Values
letters String.[] = nil
letters (String.◌∷◌ c s) = cons (str (String.◌∷◌ c String.[])) (letters s)

unfoldable field_names : Fields → Values
field_names end = nil
field_names (field k v fs) = cons (str k) (field_names fs)

unfoldable lower_all : Values → Result InitError (List String)
lower_all nil = ok []
lower_all (cons (str s) vs) = lower_all vs >>= λ names. ok (lower s ∷ names)
lower_all (cons _ vs) = err attribute_error

-- `[param_name.lower() for param_name in v]`
unfoldable pub param_names : Value → Result InitError (List String)
unfolding letters field_names lower_all
param_names (list vs) = lower_all vs
param_names (str s) = lower_all (letters s)
param_names (dict fs) = lower_all (field_names fs)
param_names _ = err not_iterable

unfoldable pub lower_value : Bool → Value → Value
lower_value is_case_sensitive (str s) = if is_case_sensitive then str s else str (lower s)
lower_value is_case_sensitive v = v

unfoldable pub lower_values : Bool → Values → Values
unfolding lower_value
lower_values is_case_sensitive nil = nil
lower_values is_case_sensitive (cons v vs) =
    cons (lower_value is_case_sensitive v) (lower_values is_case_sensitive vs)

-- the loop over `targeting.items()`
unfoldable pub make_targeting : List String → Fields → Dict Values → Result InitError (Dict Values)
unfolding lower_values
make_targeting sensitive end made = ok made
make_targeting sensitive (field param (list vs) fs) made =
    make_targeting sensitive fs
      (put (lower param) (lower_values (is_member (lower param) sensitive) vs) made)
make_targeting sensitive (field param _ fs) made = err assertion_error

-- `d[k] = v` on a dict of values
unfoldable set_field : String → Value → Fields → Fields
set_field k v end = field k v end
set_field k v (field j w fs) = if str_eq j k then field j v fs else field j w (set_field k v fs)

unfoldable pub lower_keys : Bool → Fields → Fields → Fields
unfolding set_field
lower_keys is_case_sensitive end made = made
lower_keys is_case_sensitive (field k v fs) made =
    lower_keys is_case_sensitive fs (set_field (if is_case_sensitive then k else lower k) v made)

-- the loop over `overrides.items()`
unfoldable pub make_overrides : List String → Fields → Dict Fields → Result InitError (Dict Fields)
unfolding lower_keys
make_overrides sensitive end made = ok made
make_overrides sensitive (field param (dict vs) fs) made =
    make_overrides sensitive fs
      (put (lower param) (lower_keys (is_member (lower param) sensitive) vs end) made)
make_overrides sensitive (field param _ fs) made = err assertion_error

-- the "experiment" dict: `targeting` and `overrides` are dicts, and missing or None as `end`
pub record R2Config (F : Type 0) : Type 0 where
  pub variants : Option (Dict F)
  pub targeting : Fields
  pub overrides : Fields
  pub seed : Option String
  pub bucket_val : Option String
  pub newer_than : Value

abbrev seed_or_name : Option String → String → String
seed_or_name none name = name
seed_or_name (some s) name = if str_eq s "" then name else s

-- `R2Experiment.from_dict` and the constructor
unfoldable pub from_dict : {F : Type 0} → String → R2Config F → Result InitError (R2Experiment F)
unfolding popped without param_names make_targeting make_overrides
from_dict name config = elim config.variants [
  | none ↦ err missing_variants
  | some variants ↦
      param_names (popped "__case_sensitive__" config.overrides) >>= λ sensitive_overrides.
      param_names (popped "__case_sensitive__" config.targeting) >>= λ sensitive_targeting.
      make_targeting sensitive_targeting (without "__case_sensitive__" config.targeting) []
      >>= λ targeting.
          make_overrides sensitive_overrides (without "__case_sensitive__" config.overrides) []
          >>= λ overrides. ok (record {
            case_sensitive_overrides = sensitive_overrides;
            case_sensitive_targeting = sensitive_targeting;
            targeting = targeting;
            overrides = overrides;
            name = name;
            seed = seed_or_name config.seed name;
            variants = variants;
            bucket_val = get_or config.bucket_val "user_id";
            newer_than = config.newer_than;
          })
]

-- `FeatureFlag.from_dict`: no variant but "active"
unfoldable pub only_active : List String → Bool
only_active [] = true
only_active (s ∷ names) = str_eq s "active" && only_active names

unfoldable pub flag_from_dict :
    {F : Type 0} → String → R2Config F → Result InitError (R2Experiment F)
unfolding only_active
flag_from_dict name config =
    if only_active (keys (get_or config.variants []))
    then from_dict name config
    else err assertion_error
