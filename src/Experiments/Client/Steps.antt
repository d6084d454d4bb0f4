-- ===== src/Experiments/Client/Steps.antt =====
-- The calls that a request makes of its `Experiments` object, in any order, and the events that
-- they log.
use Prim.Native.String.{String}
use text.Mathlib.Text.{◌==◌ as str_eq}
use text.Mathlib.TextEquality.{eq_iff}
use baseplate_py.Prelude.{
  ◌≡◌, refl, sym, ◌∙◌, ap, ℕ, Bool, true, false, Option, none, some, List, [], ◌∷◌, ◌++◌, arith,
  inl, inr, Bool-cases, Option-cases, Result-cases,
}
use baseplate_py.Prelude.Int.{ℤ}
use baseplate_py.Experiments.Value.{Value}
use baseplate_py.Experiments.Targeting.{Kwargs}
use baseplate_py.Experiments.VariantSets.{Floats}
use baseplate_py.Experiments.Dict.{find, is_member}
use baseplate_py.Experiments.Providers
use baseplate_py.Experiments.Providers.{Experiment, parse_experiment, get_unique_id}
use baseplate_py.Experiments.Client.{
  Moment, get_config, Event, bucket, expose, Client, get_experiment, is_valid_experiment, do_log,
  log_variant, variant_of, variant, exposed, expose_variant, inputs_of, log_bucket, cached,
}

-- the bucketing ids of the events, the first one first
unfoldable pub bucketed : {F : Type 0} → List (Event F) → List String
bucketed [] = []
bucketed (bucket x v inputs id ∷ events) = id ∷ bucketed events
bucketed (expose x v inputs ∷ events) = bucketed events

unfoldable pub IsDistinct : List String → Type 0
IsDistinct [] = Unit
IsDistinct (s ∷ ts) = (is_member s ts ≡ false) × IsDistinct ts

str_eq-sym : (s t : String) → str_eq s t ≡ false → str_eq t s ≡ false
str_eq-sym s t h = elim (Bool-cases (str_eq t s)) [
  | inr e ↦ e
  | inl e ↦ let e' = (eq_iff s t).1 (sym ((eq_iff t s).0 e)) in ground arith
]

is_member-snoc :
    (s id : String) (ts : List String)
    → is_member s ts ≡ false
    → str_eq id s ≡ false
    → is_member s (ts ++ id ∷ []) ≡ false
unfolding is_member
is_member-snoc s id [] h e = ground arith
is_member-snoc s id (t ∷ ts) h e = ground (arith, is_member-snoc s id ts)

snoc-IsDistinct :
    (id : String) (ts : List String)
    → IsDistinct ts
    → is_member id ts ≡ false
    → IsDistinct (ts ++ id ∷ [])
unfolding IsDistinct is_member
snoc-IsDistinct id [] d h = (refl, d)
snoc-IsDistinct id (t ∷ ts) (f, d) h =
    ground (arith, is_member-snoc t id ts, str_eq-sym t id, snoc-IsDistinct id ts d)

bucketed-append-bucket :
    {F : Type 0} (x : Experiment F) (v : Option String) (inputs : Kwargs) (id : String)
    (events : List (Event F))
    → bucketed (events ++ bucket x v inputs id ∷ []) ≡ bucketed events ++ id ∷ []
unfolding bucketed
bucketed-append-bucket x v inputs id [] = refl
bucketed-append-bucket x v inputs id (bucket y w k j ∷ events) =
    rw (bucketed-append-bucket x v inputs id events)
bucketed-append-bucket x v inputs id (expose y w k ∷ events) =
    bucketed-append-bucket x v inputs id events

bucketed-append-expose :
    {F : Type 0} (x : Experiment F) (v : String) (inputs : Kwargs) (events : List (Event F))
    → bucketed (events ++ expose x v inputs ∷ []) ≡ bucketed events
unfolding bucketed
bucketed-append-expose x v inputs [] = refl
bucketed-append-expose x v inputs (bucket y w k j ∷ events) =
    rw (bucketed-append-expose x v inputs events)
bucketed-append-expose x v inputs (expose y w k ∷ events) = bucketed-append-expose x v inputs events

-- what was logged is what is remembered, and nothing twice
unfoldable pub IsConsistent : {F : Type 0} → Client F → Type 0
IsConsistent c = (bucketed c.events ≡ c.already_bucketed) × IsDistinct c.already_bucketed

do_log-fresh :
    {F : Type 0} (x : Experiment F) (v : Option String) (override : Option Bool) (id : String)
    (already : List String)
    → do_log x v override id already ≡ true
    → is_member id already ≡ false
unfolding do_log
do_log-fresh x v override id already h = ground arith

log_bucket-IsConsistent :
    {F : Type 0} (x : Experiment F) (v : Option String) (inputs : Kwargs) (id : String)
    (c : Client F)
    → IsConsistent c
    → is_member id c.already_bucketed ≡ false
    → IsConsistent (log_bucket x v inputs id c)
unfolding IsConsistent
log_bucket-IsConsistent x v inputs id c (e, d) h = (
  bucketed-append-bucket x v inputs id c.events ∙ ap (λ ids. ids ++ id ∷ []) e,
  snoc-IsDistinct id c.already_bucketed d h,
)

log_variant-IsConsistent :
    {F : Type 0} (x : Experiment F) (v : Option String) (override : Option Bool) (inputs : Kwargs)
    (id : Option String) (c : Client F)
    → IsConsistent c
    → IsConsistent (log_variant x v override inputs id c)
unfolding log_variant
log_variant-IsConsistent x v override inputs none c h = h
log_variant-IsConsistent x v override inputs (some id) c h =
    elim (Bool-cases (do_log x v override id c.already_bucketed)) [
      | inr e ↦ rw e h
      | inl e ↦ rw e (
          log_bucket-IsConsistent x v inputs id c h
            (do_log-fresh x v override id c.already_bucketed e))
    ]

cached-IsConsistent :
    {F : Type 0} (name : String) (x : Option (Experiment F)) (c : Client F)
    → IsConsistent c
    → IsConsistent (cached name x c).1
unfolding IsConsistent
cached-IsConsistent name x c h = h

module _ {F : Type 0} (floats : Floats F) (show : Value → String)
    (parse_date : String → Option ℕ) where
  get_experiment-IsConsistent :
      (m : Moment F) (name : String) (c : Client F)
      → IsConsistent c
      → IsConsistent (get_experiment floats show parse_date m name c).1
  unfolding get_experiment
  get_experiment-IsConsistent m name c h = elim (Option-cases (find name c.experiment_cache)) [
    | inr (x, e) ↦ rw (e, get_experiment) h
    | inl e ↦ elim (Option-cases (get_config m.watched name)) [
      | inl f ↦ rw (e, f, get_experiment) (cached-IsConsistent name none c h)
      | inr (config, f) ↦
          elim (Result-cases (parse_experiment floats show parse_date config m.now m.later)) [
            | inl (x, g) ↦ rw (e, f, g, get_experiment) (cached-IsConsistent name (some x) c h)
            | inr (er, g) ↦ rw (e, f, g, get_experiment) h
          ]
    ]
  ]

module _ {F : Type 0} (floats : Floats F) (limit : F → ℕ → ℤ) (hash : String → ℕ)
    (show : Value → String) (parse_date : String → Option ℕ) where
  variant_of-IsConsistent :
      (inputs : Kwargs) (override : Option Bool) (now : ℕ)
      (found : Option (Experiment F) × Client F)
      → IsConsistent found.1
      → IsConsistent (variant_of floats limit hash show parse_date inputs override now found).1
  unfolding variant_of
  variant_of-IsConsistent inputs override now (none, c) h = h
  variant_of-IsConsistent inputs override now (some x, c) h =
      elim (Result-cases (Providers.variant floats limit hash show x inputs now)) [
        | inr (e, f) ↦ rw (f, variant_of) h
        | inl (v, f) ↦
            rw (f, variant_of)
              (log_variant-IsConsistent x v override inputs (get_unique_id show x inputs) c h)
      ]

  exposed-IsConsistent :
      (variant_name : String) (inputs : Kwargs) (found : Option (Experiment F) × Client F)
      → IsConsistent found.1
      → IsConsistent (exposed variant_name inputs found)
  unfolding exposed IsConsistent
  exposed-IsConsistent variant_name inputs (none, c) h = h
  exposed-IsConsistent variant_name inputs (some x, c) (e, d) =
      (bucketed-append-expose x variant_name inputs c.events ∙ e, d)

  -- One call of a method, whatever the watched file holds and the clock says at the time.
  pub data Step : Client F → Client F → Type 0 where
    checked :
        (m : Moment F) (name : String) (user : Option Kwargs) (override : Option Bool)
        (kwargs : Kwargs) (c : Client F)
        → Step c (variant floats limit hash show parse_date m name user override kwargs c).1
    exposing :
        (m : Moment F) (name variant_name : String) (user : Option Kwargs) (kwargs : Kwargs)
        (c : Client F)
        → Step c (expose_variant floats show parse_date m name variant_name user kwargs c)
    validated :
        (m : Moment F) (name : String) (c : Client F)
        → Step c (is_valid_experiment floats show parse_date m name c).1

  pub data Steps : Client F → Client F → Type 0 where
    done : (c : Client F) → Steps c c
    step : {c d e : Client F} → Step c d → Steps d e → Steps c e

  Step-IsConsistent : {c d : Client F} → Step c d → IsConsistent c → IsConsistent d
  unfolding variant expose_variant is_valid_experiment
  Step-IsConsistent (checked m name user override kwargs c) h =
      variant_of-IsConsistent (inputs_of kwargs user) override m.time
        (get_experiment floats show parse_date m name c)
        (get_experiment-IsConsistent floats show parse_date m name c h)
  Step-IsConsistent (exposing m name variant_name user kwargs c) h =
      exposed-IsConsistent variant_name (inputs_of kwargs user)
        (get_experiment floats show parse_date m name c)
        (get_experiment-IsConsistent floats show parse_date m name c h)
  Step-IsConsistent (validated m name c) h =
      get_experiment-IsConsistent floats show parse_date m name c h

  -- After any calls of `variant`, `expose` and `is_valid_experiment` on an object that starts out
  -- consistent, as a new one does, the bucketing ids of the logged events are those that are
  -- remembered, and no id was logged twice, also when the experiments file changes between the
  -- calls or an experiment raises.
  pub Steps-IsConsistent : {c d : Client F} → Steps c d → IsConsistent c → IsConsistent d
  Steps-IsConsistent (done c) h = h
  Steps-IsConsistent (step s t) h = Steps-IsConsistent t (Step-IsConsistent s h)
