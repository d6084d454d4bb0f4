-- ===== src/Experiments/Providers/Disabled.antt =====
-- The variant of a disabled experiment.
use Prim.Native.String.{String}
use baseplate_py.Prelude.{
  ◌≡◌, refl, subst, ℕ, Bool, false, Option, none, Result, ok, err, ◌>>=◌, arith, inl, inr,
  Bool-cases, Option-cases,
}
use baseplate_py.Prelude.Int.{ℤ}
use baseplate_py.Experiments.Value.{Value}
use baseplate_py.Experiments.Targeting.{Kwargs}
use baseplate_py.Experiments.VariantSets.{Floats, VariantError}
use baseplate_py.Experiments.SimpleExperiment
use baseplate_py.Experiments.SimpleExperiment.{
  SimpleExperiment, SimpleConfig, RunError, is_enabled, make_variant_set,
}
use baseplate_py.Experiments.R2.{R2Config}
use baseplate_py.Experiments.Providers.{
  Experiment, forced_variant, r2, feature_flag, simple, ParseError, ExperimentConfig,
  ExperimentType, r2_type, flag_type, simple_type, unknown_type, type_of, is_legacy, lower_type,
  Period, build, class_for, enabled_at, period, parse_experiment, variant, simple_result,
}

module _ {F : Type 0} (floats : Floats F) (show : Value → String) where
  from_dict-enabled :
      (id : ℤ) (name : String) (start stop : ℕ) (config : SimpleConfig F) (variant_type : String)
      (enabled : Bool) (x : SimpleExperiment F)
      → SimpleExperiment.from_dict floats show id name start stop config variant_type enabled ≡ ok x
      → x.enabled ≡ enabled
  unfolding SimpleExperiment.from_dict
  from_dict-enabled id name start stop config variant_type enabled x h = ground arith

  -- what an experiment that is disabled is
  abbrev pub IsOff : Experiment F → Type 0
  IsOff (forced_variant v) = v ≡ none
  IsOff (r2 x) = ⊥
  IsOff (feature_flag x) = ⊥
  IsOff (simple x) = x.enabled ≡ false

  build-IsOff :
      (t : ExperimentType) (id : ℤ) (name : String) (ts : Period) (variant_type : String)
      (body : SimpleConfig F × R2Config F) (x : Experiment F)
      → is_legacy t ≡ false
      → build floats show t id name ts false variant_type body ≡ ok x
      → IsOff x
  unfolding build
  build-IsOff r2_type id name ts variant_type body x l h = ground arith
  build-IsOff flag_type id name ts variant_type body x l h = ground arith
  build-IsOff simple_type id name ts variant_type body x l h =
      simple-IsOff
        (SimpleExperiment.from_dict floats show id name ts.0 ts.1 body.0 variant_type false) x
        (from_dict-enabled id name ts.0 ts.1 body.0 variant_type false) h
    where
      simple-IsOff :
          (r : Result VariantError (SimpleExperiment F)) (x : Experiment F)
          → ((y : SimpleExperiment F) → r ≡ ok y → y.enabled ≡ false)
          → simple_result r ≡ ok x
          → IsOff x
      simple-IsOff (ok y) x f h = let e : simple y ≡ x = cc in subst IsOff e (f y refl)
      simple-IsOff (err e) x f h = ground arith
  build-IsOff unknown_type id name ts variant_type body x l h = ground arith

  class_for-IsOff :
      (config : ExperimentConfig F) (id : ℤ) (ts : Period) (variant_type : String)
      (x : Experiment F)
      → config.global_override ≡ none
      → class_for floats show config id ts false variant_type ≡ ok x
      → IsOff x
  unfolding class_for
  class_for-IsOff config id ts variant_type x g h =
      elim (Bool-cases (is_legacy (type_of variant_type))) [
        | inl e ↦
            let h' = rw e at h in let off : forced_variant none ≡ x = cc in subst IsOff off refl
        | inr e ↦
            let h' = rw e at h in
            elim (Option-cases config.experiment) [
              | inl f ↦ let h'' = rw f at h' in ground arith
              | inr (body, f) ↦
                  let h'' = rw (f, g) at h' in
                  build-IsOff (type_of variant_type) id config.name ts variant_type body x e h''
            ]
      ]

  variant-IsOff :
      (limit : F → ℕ → ℤ) (hash : String → ℕ) (x : Experiment F) (kwargs : Kwargs) (now : ℕ)
      → IsOff x
      → variant floats limit hash show x kwargs now ≡ ok none
  unfolding variant SimpleExperiment.variant is_enabled
  variant-IsOff limit hash (forced_variant v) kwargs now h = rw h
  variant-IsOff limit hash (simple x) kwargs now h = rw h
  variant-IsOff limit hash (r2 _) kwargs now h = elim h [ ]
  variant-IsOff limit hash (feature_flag _) kwargs now h = elim h [ ]

  period-ok :
      (r : Result ParseError Period) (f : Period → Result ParseError (Experiment F))
      (x : Experiment F)
      → (r >>= f) ≡ ok x
      → (ts : Period) × ((r ≡ ok ts) × (f ts ≡ ok x))
  period-ok (ok ts) f x h = (ts, (refl, h))
  period-ok (err e) f x h = ground arith

  -- A configuration that parse_experiment accepts without a global override, and which is disabled
  -- or read outside of its start and stop time, gives an experiment of any of the types whose
  -- variant is None for all arguments and at all times, and which raises nothing.
  pub parse_experiment-disabled :
      (parse_date : String → Option ℕ) (limit : F → ℕ → ℤ) (hash : String → ℕ)
      (config : ExperimentConfig F) (now later : ℕ) (x : Experiment F) (kwargs : Kwargs) (time : ℕ)
      → config.global_override ≡ none
      → ((ts : Period)
          → period parse_date config.start_ts config.stop_ts config.expires now ≡ ok ts
          → enabled_at config.enabled ts later ≡ false)
      → parse_experiment floats show parse_date config now later ≡ ok x
      → variant floats limit hash show x kwargs time ≡ ok none
  unfolding parse_experiment
  parse_experiment-disabled parse_date limit hash config now later x kwargs time g disabled h =
      elim (Option-cases config.id) [
        | inl f ↦ let h' = rw f at h in ground arith
        | inr (id, f) ↦
            let h' = rw f at h in
            let (ts, rest) = period-ok _ _ x h' in
            let (e, k) = rest in
            variant-IsOff limit hash x kwargs time (
              class_for-IsOff config id ts (lower_type config.type) x g (
                subst (λ b. class_for floats show config id ts b (lower_type config.type) ≡ ok x)
                  (disabled ts e) k))
      ]
