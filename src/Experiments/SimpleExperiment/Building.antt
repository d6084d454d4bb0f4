-- ===== src/Experiments/SimpleExperiment/Building.antt =====
-- The variant set of a configuration.
use Prim.Native.String.{String}
use text.Mathlib.Text.{◌==◌ as str_eq}
