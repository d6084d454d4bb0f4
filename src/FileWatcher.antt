-- ===== src/FileWatcher.antt =====
-- baseplate/lib/file_watcher.py: a file that is loaded again when its time of modification grows.
-- The file system and the parser are a parameter, with a state `W` for what they know of the
-- outside; each call takes the time at which it begins and gives the one at which it ends. Times
-- are counted in hundredths of a second.
pub mod Reading
pub mod Waiting
mod Tests
use baseplate_py.Prelude.{
  ℕ, zero, suc, Bool, true, false, Option, none, some, List, [], ◌∷◌, ltb, if◌then◌else◌, Result,
  ok, err,
}
use baseplate_py.Prelude.Int.{ℤ, pos}
use baseplate_py.Retry
use baseplate_py.Retry.{Attempts, iterate}
use baseplate_py.Retry.Loop.{
  Flow, proceed, leave, LoopEnd, exhausted, left, unfinished, for_attempts,
}

pub record Files (D W : Type 0) : Type 0 where
  -- `os.path.getmtime`; none is an OSError
  pub getmtime : W → ℕ → Option ℕ × W × ℕ
  -- `open` and the parser; none is an exception of either
  pub load : W → ℕ → Option D × W × ℕ

-- WatchedFileNotAvailableError, by what was inside: the OSError, the exception of the load, or the
-- timeout of the constructor. The rest are the constructor's TypeErrors, and a run out of fuel.
pub data WatcherError : Type 0 where
  no_file not_loaded timed_out : WatcherError
  encoding_type_error newline_type_error : WatcherError
  out_of_fuel : WatcherError

-- `_mtime`, and `_data`, which none stands for _NOT_LOADED; and a record, newest first, of the
-- loads, each with the time of modification that it was made for
pub record FileWatcher (D : Type 0) : Type 0 where
  pub mtime : ℕ
  pub content : Option D
  pub loads : List (ℕ × Option D)

unfoldable pub new_watcher : {D : Type 0} → FileWatcher D
new_watcher = record { mtime = 0; content = none; loads = [] }

module _ {D W : Type 0} (files : Files D W) where
  abbrev pub Outcome : Type 0
  Outcome = Result WatcherError (Option D) × FileWatcher D × W × ℕ

  -- after the load of a file whose time of modification is `current`
  unfoldable pub loaded : ℕ → FileWatcher D → Option D × W × ℕ → Outcome
  loaded current f (some d, w, t) = (
    ok (some d),
    record { mtime = current; content = some d; loads = (current, some d) ∷ f.loads },
    w,
    t,
  )
  loaded current f (none, w, t) =
      let loads = (current, none) ∷ f.loads in
      elim f.content [
        | none ↦ (err not_loaded, record f { loads = loads }, w, t)
        | some d ↦ (ok (some d), record f { mtime = current; loads = loads }, w, t)
      ]

  -- an OSError, by what was loaded before
  abbrev pub unreadable : Option D → FileWatcher D → W → ℕ → Outcome
  unreadable none f w t = (err no_file, f, w, t)
  unreadable (some d) f w t = (ok (some d), f, w, t)

  abbrev pub stat : FileWatcher D → Option ℕ × W × ℕ → Outcome
  stat f (none, w, t) = unreadable f.content f w t
  stat f (some current, w, t) =
      if ltb f.mtime current then loaded current f (files.load w t) else (ok f.content, f, w, t)

  -- `get_data`; `ok none` is the class _NOT_LOADED itself
  unfoldable pub get_data : FileWatcher D → W → ℕ → Outcome
  unfolding loaded
  get_data f w now = stat f (files.getmtime w now)

  -- a turn of the constructor's loop
  abbrev pub turned : Outcome → Flow (Unit {0}) × (FileWatcher D × W) × ℕ
  turned (ok d, f, w, t) = (leave tt, (f, w), t)
  turned (err e, f, w, t) = (proceed, (f, w), t)

  unfoldable pub try_load :
      Option ℕ → FileWatcher D × W → ℕ → Flow (Unit {0}) × (FileWatcher D × W) × ℕ
  try_load _ (f, w) now = elim f.content [
    | some d ↦ (leave tt, (f, w), now)
    | none ↦ turned (get_data f w now)
  ]

  abbrev pub ended :
      LoopEnd (Unit {0}) × (FileWatcher D × W) × ℕ → Result WatcherError (FileWatcher D) × W × ℕ
  ended (exhausted, (f, w), t) = (err timed_out, w, t)
  ended (left _, (f, w), t) = (ok f, w, t)
  ended (unfinished, (f, w), t) = (err out_of_fuel, w, t)

  -- `backoff or DEFAULT_FILEWATCHER_BACKOFF`
  abbrev pub backoff_or_default : Option ℕ → ℕ
  backoff_or_default none = 1
  backoff_or_default (some zero) = 1
  backoff_or_default (some (suc n)) = suc n

  -- `RetryPolicy.new(budget=timeout, backoff=backoff)`
  unfoldable pub policy : ℕ → Option ℕ → Attempts
  policy timeout backoff =
      iterate (Retry.new none (some (pos timeout)) (some (backoff_or_default backoff)))

  -- the loop of `__init__`
  unfoldable pub wait_for_file :
      ℕ → ℕ → Option ℕ → W → ℕ → Result WatcherError (FileWatcher D) × W × ℕ
  unfolding policy try_load
  wait_for_file fuel timeout backoff w now =
      ended (for_attempts try_load fuel (policy timeout backoff) (new_watcher, w) now)

  -- `__init__`, of whether it is in binary mode and whether an encoding or a newline is given
  unfoldable pub init :
      ℕ
      → Option ℕ
      → Bool
      → Bool
      → Bool
      → Option ℕ
      → W
      → ℕ
      → Result WatcherError (FileWatcher D) × W × ℕ
  unfolding wait_for_file
  init fuel timeout true true newline backoff w now = (err encoding_type_error, w, now)
  init fuel timeout true false true backoff w now = (err newline_type_error, w, now)
  init fuel none binary encoding newline backoff w now = (ok new_watcher, w, now)
  init fuel (some timeout) binary encoding newline backoff w now =
      wait_for_file fuel timeout backoff w now
