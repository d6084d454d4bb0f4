-- ===== src/Config/Timespans.antt =====
-- baseplate/lib/config.py: Timespan.
use baseplate_py.Prelude.{ℕ, Bool, true, not, ◌&&◌, [], ◌∷◌, Bytes, codes}
use baseplate_py.Config.{is_space}

abbrev pub all_spaces : Bytes → Bool
all_spaces [] = true
all_spaces (c ∷ cs) = is_space c && all_spaces cs

abbrev pub no_spaces : Bytes → Bool
no_spaces [] = true
no_spaces (c ∷ cs) = not (is_space c) && no_spaces cs

-- the units, their names and their lengths in milliseconds
pub data TimeUnit : Type 0 where
  millisecond second minute hour day : TimeUnit

abbrev pub unit_name : TimeUnit → Bytes
unit_name millisecond = codes "millisecond"
unit_name second = codes "second"
unit_name minute = codes "minute"
unit_name hour = codes "hour"
unit_name day = codes "day"

abbrev pub milliseconds : TimeUnit → ℕ
milliseconds millisecond = 1
milliseconds second = 1000
milliseconds minute = 60000
milliseconds hour = 3600000
milliseconds day = 86400000
