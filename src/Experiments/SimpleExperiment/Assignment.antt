-- ===== src/Experiments/SimpleExperiment/Assignment.antt =====
-- Whom a simple experiment gives a variant, and which.
use Prim.Native.String.{String}
use baseplate_py.Prelude.{
  ◌≡◌, ◌≢◌, ◌∙◌, refl, ℕ, ◌≤◌, ◌<◌, Bool, true, false, Option, none, some, [], ◌∷◌, Result, ok, err,
  ◌>>=◌, arith, ◌⊎◌, inl, inr, Bool-cases, if◌then◌else◌,
}
use baseplate_py.Experiments.Value.{Value, null, TypeError}
use baseplate_py.Experiments.Targeting.{
  TreeError, override_node, create, evaluate, Kwargs, get_kwarg,
}
use baseplate_py.Experiments.VariantSets.{Floats, VariantError, contains_variant}
use baseplate_py.Experiments.VariantSets.Membership.{choose_variant-contains}
use baseplate_py.Experiments.SimpleExperiment.{
  SimpleExperiment, RunError, Overrides, first_override, get_override, lower_kwargs, truthy_text,
  is_enabled, calculate_bucket, targeted_variant, variant_for, variant, targeting_result,
  choosing_result, generate_targeting,
}

-- an override that names the variant, and whose targeting the arguments match
unfoldable pub IsOverride : Option Overrides → Kwargs → String → Type 0
IsOverride none kwargs s = ⊥
IsOverride (some []) kwargs s = ⊥
IsOverride (some ((t, tree) ∷ overrides)) kwargs s =
    ((t ≡ s) × (evaluate tree kwargs ≡ ok true)) ⊎ IsOverride (some overrides) kwargs s

first_override-IsOverride :
    (overrides : Overrides) (kwargs : Kwargs) (s : String)
    → first_override overrides kwargs ≡ ok (some s)
    → IsOverride (some overrides) kwargs s
unfolding first_override IsOverride
first_override-IsOverride [] kwargs s h = ground arith
first_override-IsOverride ((t, tree) ∷ overrides) kwargs s h =
    ground (arith, first_override-IsOverride overrides kwargs s)

get_override-IsOverride :
    (overrides : Option Overrides) (kwargs : Kwargs) (s : String)
    → get_override overrides kwargs ≡ ok (some s)
    → IsOverride overrides kwargs s
unfolding get_override
get_override-IsOverride none kwargs s h = ground arith
get_override-IsOverride (some overrides) kwargs s h = first_override-IsOverride overrides kwargs s h

if_targeted :
    (r : Result TypeError Bool) (k : Result RunError (Option String)) (s : String)
    → (targeting_result r >>= λ b. if b then k else ok none) ≡ ok (some s)
    → (r ≡ ok true) × (k ≡ ok (some s))
if_targeted (ok true) k s h = (refl, h)
if_targeted (ok false) k s h = ground arith
if_targeted (err e) k s h = ground arith

overridden :
    (r k : Result RunError (Option String)) (s : String)
    → (r >>= λ o. if truthy_text o then ok o else k) ≡ ok (some s)
    → (r ≡ ok (some s)) ⊎ (k ≡ ok (some s))
overridden (ok none) k s h = inr h
overridden (ok (some t)) k s h = ground arith
overridden (err e) k s h = ground arith

chosen_bucket :
    (r : Result RunError ℕ) (f : ℕ → Result VariantError (Option String)) (s : String)
    → (r >>= λ b. choosing_result (f b)) ≡ ok (some s)
    → (b : ℕ) × (f b ≡ ok (some s))
chosen_bucket (err e) f s h = ground arith
chosen_bucket (ok b) f s h = (b, chosen (f b) s h)
  where
    chosen :
        (c : Result VariantError (Option String)) (s : String)
        → choosing_result c ≡ ok (some s)
        → c ≡ ok (some s)
    chosen (ok v) s h = ground arith
    chosen (err e) s h = ground arith

generate_targeting-invalid :
    (config : Value) (e : TreeError)
    → config ≢ null
    → create config ≡ err e
    → generate_targeting config ≡ override_node false
unfolding generate_targeting
generate_targeting-invalid null e h k = absurd (h refl)
generate_targeting-invalid config e h k = rw k

module _ {F : Type 0} (floats : Floats F) (hash : String → ℕ) (show : Value → String) where
  targeted_variant-contains :
      (x : SimpleExperiment F) (kwargs : Kwargs) (v : Value) (s : String)
      → targeted_variant floats hash show x kwargs v ≡ ok (some s)
      → (evaluate x.targeting kwargs ≡ ok true) × (contains_variant x.variant_set s ≡ true)
  unfolding targeted_variant
  targeted_variant-contains x kwargs v s h =
      let (e, k) = if_targeted (evaluate x.targeting kwargs) _ s h in
      let (b, f) = chosen_bucket (calculate_bucket show hash x.seed x.num_buckets v) _ s k in
      (e, choose_variant-contains floats x.variant_set b s f)

  -- what entitles the arguments to the variant s
  abbrev pub IsEntitled : SimpleExperiment F → Kwargs → String → Type 0
  IsEntitled x kwargs s =
      IsOverride x.overrides kwargs s
      ⊎ ((evaluate x.targeting kwargs ≡ ok true) × (contains_variant x.variant_set s ≡ true))

  after_override :
      (x : SimpleExperiment F) (kwargs : Kwargs) (v : Value) (s : String)
      → (get_override x.overrides kwargs >>= λ o.
          if truthy_text o then ok o else targeted_variant floats hash show x kwargs v)
        ≡ ok (some s)
      → IsEntitled x kwargs s
  after_override x kwargs v s h = elim (overridden (get_override x.overrides kwargs) _ s h) [
    | inl e ↦ inl (get_override-IsOverride x.overrides kwargs s e)
    | inr e ↦ inr (targeted_variant-contains x kwargs v s e)
  ]

  variant_for-IsEntitled :
      (x : SimpleExperiment F) (kwargs : Kwargs) (v : Value) (s : String)
      → variant_for floats hash show x kwargs v ≡ ok (some s)
      → (v ≢ null) × IsEntitled x kwargs s
  unfolding variant_for
  variant_for-IsEntitled x kwargs null s h = ground arith
  variant_for-IsEntitled x kwargs v s h = (ground arith, after_override x kwargs v s h)

  -- A variant that a simple experiment gives was deserved: the experiment is enabled, the clock is
  -- from start_ts up to before stop_ts, the lower-cased arguments hold a bucketing value other than
  -- None, and the variant is either that of an override whose targeting matches, or one of the
  -- variant set, given to arguments that match the experiment's targeting.
  pub variant-IsEntitled :
      (x : SimpleExperiment F) (kwargs : Kwargs) (now : ℕ) (s : String)
      → variant floats hash show x kwargs now ≡ ok (some s)
      → ((x.enabled ≡ true) × ((x.start_ts ≤ now) × (now < x.stop_ts)))
        × ((get_kwarg x.bucket_val (lower_kwargs [] kwargs) ≢ null) × IsEntitled x kwargs s)
  unfolding variant is_enabled
  variant-IsEntitled x kwargs now s h = elim (Bool-cases (is_enabled x now)) [
    | inl e ↦ (
      ground arith,
      variant_for-IsEntitled x kwargs (get_kwarg x.bucket_val (lower_kwargs [] kwargs)) s
          (ground arith),
    )
    | inr e ↦ ground arith
  ]

  variant_for-nobody :
      (x : SimpleExperiment F) (kwargs : Kwargs) (v : Value)
      → x.targeting ≡ override_node false
      → x.overrides ≡ none
      → variant_for floats hash show x kwargs v ≡ ok none
  unfolding variant_for targeted_variant get_override evaluate
  variant_for-nobody x kwargs null t o = refl
  variant_for-nobody x kwargs v t o = rw (o, t)

  -- A targeting configuration that create_targeting_tree refuses with any of its errors targets
  -- nobody: without overrides, the experiment gives no variant and raises nothing, whatever the
  -- arguments and the time are.
  pub variant-invalid_targeting :
      (x : SimpleExperiment F) (config : Value) (e : TreeError) (kwargs : Kwargs) (now : ℕ)
      → config ≢ null
      → create config ≡ err e
      → x.targeting ≡ generate_targeting config
      → x.overrides ≡ none
      → variant floats hash show x kwargs now ≡ ok none
  unfolding variant
  variant-invalid_targeting x config e kwargs now h k t o =
      let nobody =
        variant_for-nobody x kwargs (get_kwarg x.bucket_val (lower_kwargs [] kwargs))
          (t ∙ generate_targeting-invalid config e h k) o in
      elim (Bool-cases (is_enabled x now)) [ inl f ↦ rw f nobody | inr f ↦ rw f ]
