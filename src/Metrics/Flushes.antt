-- ===== src/Metrics/Flushes.antt =====
-- The datagrams of a batch.
use baseplate_py.Prelude.{◌≡◌, List, ◌∷◌, ◌++◌, Bytes}
use baseplate_py.Metrics.{Floats, Batch, Socket, counter_lines}

-- The line is one of the lines.
abbrev pub Contains : Bytes → List Bytes → Type 0
Contains s lines = (before : List Bytes) × (after : List Bytes) × (lines ≡ before ++ (s ∷ after))

module _ {F W : Type 0} (floats : Floats F) (socket : Socket W) where
  -- the lines that a flush of the batch sends
  abbrev pub lines_of : Batch floats → List Bytes
  lines_of b = b.buffer ++ counter_lines floats b.counters
