-- ===== src/Experiments/Tests.antt =====
-- Runs of the experiments on concrete configurations.
use Prim.Native.String.{String, len}
use baseplate_py.Prelude.{
  ◌≡◌, refl, ℕ, ◌*◌, ◌+◌, ◌-◌, true, false, Option, none, some, List, [], ◌∷◌, ok, arith, ltb, All,
  ◌≢◌, ◌≤◌, ◌<◌,
}
use baseplate_py.Prelude.Int.{ℤ, pos, ◌+ℤ◌}
use baseplate_py.Experiments.Value.{Value, null, num, str, list, nil, cons, end, truthy, equals}
use baseplate_py.Experiments.Lower.{lower}
use baseplate_py.Experiments.Order.{ne, contains, compare_by}
use baseplate_py.Experiments.Targeting.{
  Targeting, equal_node, all_node, not_node, override_node, comparison_node, leaf, node, Kwargs,
  create, evaluate, get_kwarg,
}
use baseplate_py.Experiments.Targeting.Config.{create-config, config, IsCanonical}
use baseplate_py.Experiments.Targeting.Evaluation.{evaluate-Answers, Answers, IsUnordered}
use baseplate_py.Experiments.VariantSets.{
  Floats, Variant, multi_set, single_set, choose_variant, choose_multi, sum_sizes,
}
use baseplate_py.Experiments.VariantSets.Buckets.{HasSize, choose_multi-interval}
use baseplate_py.Experiments.SimpleExperiment
use baseplate_py.Experiments.SimpleExperiment.{SimpleExperiment, generate_targeting, lower_kwargs}
use baseplate_py.Experiments.SimpleExperiment.Assignment.{variant-IsEntitled, IsEntitled}
use baseplate_py.Experiments.R2.Run as Legacy
use baseplate_py.Experiments.Providers.{ExperimentConfig}
use baseplate_py.Experiments.Client
use baseplate_py.Experiments.Client.{Client, Moment, loaded}
use baseplate_py.Experiments.Client.Steps.{
  IsConsistent, IsDistinct, bucketed, checked, done, step, Steps-IsConsistent,
}

-- sizes in permille, of 1000 buckets
abbrev permille : Floats ℕ
permille = record {
  scaled = λ x n. pos x;
  add = λ x y. x + y;
  sub = λ x y. x - y;
  is_negative = λ x. false;
  exceeds_one = λ x. ltb 1000 x;
}

abbrev variant_of : String → ℕ → Variant ℕ
variant_of s x = record { name = some s; size = some x; range_start = none; range_end = none }

abbrev tree : Targeting
tree = all_node (
    node (equal_node "user_id" (list (cons (str "t2_1") nil)))
      (node (not_node (comparison_node "age" (num (pos 3)) ne)) leaf))

abbrev arguments : Kwargs
arguments = ("user_id", str "t2_1") ∷ ("age", num (pos 3)) ∷ []

create-config_example : create (config tree) ≡ ok tree
unfolding IsCanonical lower truthy
create-config_example = create-config tree ((refl, refl), (refl, tt))

evaluate-Answers_example : Answers (evaluate tree arguments)
unfolding IsUnordered
evaluate-Answers_example = evaluate-Answers tree arguments (tt, (refl, tt))

abbrev variants : List (Variant ℕ)
variants = variant_of "a" 100 ∷ variant_of "b" 200 ∷ variant_of "c" 300 ∷ []

first_sizes : All (HasSize permille 1000) (variant_of "a" 100 ∷ [])
first_sizes = ((λ a e. omega arith), tt)

choose_multi-interval_example : choose_multi permille variants 1000 150 (pos 0) ≡ ok (some "b")
unfolding sum_sizes ◌+ℤ◌
choose_multi-interval_example =
    choose_multi-interval permille 1000 (variant_of "a" 100 ∷ []) (variant_of "c" 300 ∷ [])
      (variant_of "b" 200) 200 "b" 150 (pos 0) (pos 100) first_sizes refl refl refl (omega arith)
      refl

-- a hash by length, and a constant `str`
abbrev hash : String → ℕ
hash s = len s

abbrev show : Value → String
show v = "x"

abbrev experiment : SimpleExperiment ℕ
experiment = record {
  name = "colours";
  num_buckets = 1000;
  start_ts = 10;
  stop_ts = 20;
  enabled = true;
  bucket_val = "user_id";
  version = num (pos 1);
  log_bucketing = true;
  targeting = tree;
  overrides = none;
  variant_set = multi_set variants 1000;
  seed = "s";
}

variant-IsEntitled_example :
    ((experiment.enabled ≡ true) × ((10 ≤ 15) × (15 < 20)))
    × ((get_kwarg "user_id" (lower_kwargs [] arguments) ≢ null)
        × IsEntitled permille hash show experiment arguments "a")
unfolding SimpleExperiment.variant choose_variant ◌+ℤ◌ evaluate get_kwarg lower contains equals
    compare_by
variant-IsEntitled_example = variant-IsEntitled permille hash show experiment arguments 15 "a" refl

abbrev invalid : SimpleExperiment ℕ
invalid = record {
  name = "colours";
  num_buckets = 1000;
  start_ts = 10;
  stop_ts = 20;
  enabled = true;
  bucket_val = "user_id";
  version = num (pos 1);
  log_bucketing = true;
  targeting = generate_targeting (list nil);
  overrides = none;
  variant_set = multi_set variants 1000;
  seed = "s";
}

-- 10 buckets for each percent and variant
abbrev limit : ℕ → ℕ → ℤ
limit p n = pos (p * n * 10)

abbrev stopped : ExperimentConfig ℕ
stopped = record {
  type = some "single_variant";
  id = some (pos 1);
  name = "colours";
  start_ts = some 10;
  stop_ts = some 20;
  expires = none;
  enabled = none;
  experiment = some (
    record {
      bucket_val = none;
      experiment_version = some (num (pos 1));
      shuffle_version = null;
      num_buckets = none;
      variants = some (some (variant_of "a" 100 ∷ variant_of "b" 200 ∷ []));
      log_bucketing = none;
      bucket_seed = none;
      targeting = null;
      overrides = null;
    },
    record {
      variants = none;
      targeting = end;
      overrides = end;
      seed = none;
      bucket_val = none;
      newer_than = null;
    },
  );
  global_override = none;
}

abbrev no_date : String → Option ℕ
no_date s = none

abbrev off : SimpleExperiment ℕ
off = record {
  name = "colours";
  num_buckets = 1000;
  start_ts = 10;
  stop_ts = 20;
  enabled = false;
  bucket_val = "user_id";
  version = num (pos 1);
  log_bucketing = true;
  targeting = override_node true;
  overrides = none;
  variant_set = single_set (variant_of "a" 100) (variant_of "b" 200) 1000;
  seed = "x.colours.x";
}

abbrev fresh : Client ℕ
fresh = record { already_bucketed = []; experiment_cache = []; events = [] }

abbrev running : ExperimentConfig ℕ
running = record {
  type = some "single_variant";
  id = some (pos 1);
  name = "colours";
  start_ts = some 10;
  stop_ts = some 20;
  expires = none;
  enabled = none;
  experiment = stopped.experiment;
  global_override = none;
}

abbrev moment : Moment ℕ
moment = record {
  watched = loaded (("colours", some running) ∷ []);
  now = 15;
  later = 15;
  time = 15;
}

abbrev checked_once : Client ℕ
checked_once =
    (Client.variant permille limit hash show no_date moment "colours" none none arguments fresh).1

Steps-IsConsistent_example :
    IsConsistent
      (Client.variant permille limit hash show no_date moment "colours" none none arguments
        checked_once).1
unfolding IsConsistent bucketed IsDistinct
Steps-IsConsistent_example =
    Steps-IsConsistent permille limit hash show no_date
      (step (checked moment "colours" none none arguments fresh)
        (step (checked moment "colours" none none arguments checked_once) (done _)))
      (refl, tt)
