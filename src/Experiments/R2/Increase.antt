-- ===== src/Experiments/R2/Increase.antt =====
-- What an increase of the variants' percentages does to the buckets of an R2Experiment.
use Prim.Native.String.{String}
use baseplate_py.Prelude.{ℕ, [], ◌∷◌}
use baseplate_py.Prelude.Int.{ℤ, ◌≤ℤ◌}
use baseplate_py.Experiments.Dict.{Dict}

module _ {F : Type 0} (limit : F → ℕ → ℤ) (n : ℕ) where
  -- the same variants, none of whose limits is lower
  pub data Grown : Dict F → Dict F → Type 0 where
    same : Grown [] []
    grown :
        (s : String) (p q : F) (d e : Dict F)
        → limit p n ≤ℤ limit q n
        → Grown d e
        → Grown ((s, p) ∷ d) ((s, q) ∷ e)
