-- ===== src/Sidecars/TimeLimited.antt =====
-- baseplate/sidecars/__init__.py: `TimeLimitedBatch`, a batch over another one.
-- `now` and `later` are the two readings of the clock that `add` makes.
use baseplate_py.Prelude.{
  ℕ, zero, suc, Option, none, some, Result, ok, err, ◌>>=◌, Bytes, if◌then◌else◌,
}
use baseplate_py.Prelude.Int.{ℤ, pos, sub_ℕ, leb_ℤ}
use baseplate_py.Sidecars.Batch.{SerializedBatch, BatchFull, batch_full, Batch}

pub record TimeLimitedBatch (B : Type 0) : Type 0 where
  pub batch : B
  pub batch_start : Option ℕ
  pub max_age : ℕ

-- `age`; a start at the time 0 is falsy, as no start is
unfoldable pub age : Option ℕ → ℕ → ℤ
age none now = pos 0
age (some zero) now = pos 0
age (some (suc start)) now = sub_ℕ now (suc start)

-- `if not self.batch_start: self.batch_start = time.time()`
unfoldable pub started : Option ℕ → ℕ → Option ℕ
started none later = some later
started (some zero) later = some later
started (some (suc start)) later = some (suc start)

module _ {B : Type 0} (inner : Batch B) where
  -- `__init__`
  unfoldable pub new : B → ℕ → TimeLimitedBatch B
  new batch max_age = record { batch = batch; batch_start = none; max_age = max_age }

  unfoldable pub add :
      ℕ → ℕ → Option Bytes → TimeLimitedBatch B → Result BatchFull (TimeLimitedBatch B)
  unfolding age started
  add now later item b =
      if leb_ℤ (pos b.max_age) (age b.batch_start now) then err batch_full else (do
        batch ← inner.add item b.batch
        ok (record b { batch = batch; batch_start = started b.batch_start later }))

  unfoldable pub serialize : TimeLimitedBatch B → SerializedBatch
  serialize b = inner.serialize b.batch

  unfoldable pub reset : TimeLimitedBatch B → TimeLimitedBatch B
  reset b = record b { batch = inner.reset b.batch; batch_start = none }
