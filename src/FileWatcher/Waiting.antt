-- ===== src/FileWatcher/Waiting.antt =====
-- The constructor's wait for the file.
use baseplate_py.Prelude.{
  ℕ, zero, suc, ◌≤◌, ◌<◌, ◌≡◌, ◌≢◌, refl, inl, inr, true, Option, none, some, ltb, arith,
  Bool-cases, Option-cases, Result-cases, lt→ltb, Result, ok, err,
}
use baseplate_py.Retry
use baseplate_py.Retry.{budgeted, backed_off, forever}
use baseplate_py.Retry.Loop.{LoopEnd, exhausted, left, unfinished, for_attempts}
use baseplate_py.Retry.Clock.{for_attempts_ends_from, AtMostFrom-budget_backoff}
use baseplate_py.Retry.Rule.{After, Ends, for_attempts_rule}
use baseplate_py.FileWatcher.{
  Files, FileWatcher, WatcherError, timed_out, new_watcher, get_data, stat, unreadable, loaded,
  Outcome, turned, try_load, ended, policy, backoff_or_default, wait_for_file,
}

module _ {D W : Type 0} (files : Files D W)
    (stat_clock : (w : W) (t : ℕ) → t ≤ (files.getmtime w t).2)
    (load_clock : (w : W) (t : ℕ) → t ≤ (files.load w t).2) where
  loaded_clock :
      (current : ℕ) (f : FileWatcher D) (l : Option D × W × ℕ) (t : ℕ)
      → t ≤ l.2
      → t ≤ (loaded files current f l).3
  unfolding loaded
  loaded_clock current f (some d, w, u) t h = h
  loaded_clock current f (none, w, u) t h = elim (Option-cases f.content) [
    | inl e ↦ rw (e, loaded) h
    | inr (d, e) ↦ rw (e, loaded) h
  ]

  stat-clock : (f : FileWatcher D) (s : Option ℕ × W × ℕ) (t : ℕ) → t ≤ s.2 → t ≤ (stat files f s).3
  stat-clock f (none, w, u) t h = elim (Option-cases f.content) [
    | inl e ↦ ground arith
    | inr (d, e) ↦ ground arith
  ]
  stat-clock f (some current, w, u) t h = elim (Bool-cases (ltb f.mtime current)) [
    | inl e ↦
        let later = load_clock w u in rw e (loaded_clock current f (files.load w u) t (omega arith))
    | inr e ↦ rw e h
  ]

  get_data_clock : (f : FileWatcher D) (w : W) (t : ℕ) → t ≤ (get_data files f w t).3
  unfolding get_data
  get_data_clock f w t = stat-clock f (files.getmtime w t) t (stat_clock w t)

  try_load_clock : (r : Option ℕ) (s : FileWatcher D × W) (t : ℕ) → t ≤ (try_load files r s t).2
  unfolding try_load
  try_load_clock r (f, w) t = elim (Option-cases f.content) [
    | inr (d, e) ↦ rw (e, try_load) (omega arith)
    | inl e ↦ elim (Result-cases (get_data files f w t).0) [
      | inl (c, g) ↦ rw (e, try_load) (rw g (get_data_clock f w t))
      | inr (x, g) ↦ rw (e, try_load) (rw g (get_data_clock f w t))
    ]
  ]

  base_pos : (backoff : Option ℕ) → 0 < backoff_or_default files backoff
  base_pos none = omega arith
  base_pos (some zero) = omega arith
  base_pos (some (suc n)) = omega arith

  -- Nothing has been loaded.
  abbrev IsFresh : FileWatcher D → Type 0
  IsFresh f = (f.content ≡ none) × (f.mtime ≡ 0)

  abbrev pub HasContent : FileWatcher D → Type 0
  HasContent f = (d : D) × (f.content ≡ some d)

  module _ (dated : (w : W) (t m : ℕ) → (files.getmtime w t).0 ≡ some m → 0 < m) where
    -- a turn of the loop, from a watcher that has nothing
    abbrev Turned : Outcome files → Type 0
    Turned (ok d, f, w, t) = HasContent f
    Turned (err e, f, w, t) = IsFresh f

    loaded-Turned :
        (current : ℕ) (f : FileWatcher D) (l : Option D × W × ℕ)
        → IsFresh f
        → Turned (loaded files current f l)
    unfolding loaded
    loaded-Turned current f (some d, w, t) fresh = (d, refl)
    loaded-Turned current f (none, w, t) fresh = rw (fresh.0, loaded) fresh

    unreadable-Turned :
        (c : Option D) (f : FileWatcher D) (w : W) (t : ℕ)
        → f.content ≡ c
        → IsFresh f
        → Turned (unreadable files c f w t)
    unreadable-Turned none f w t e fresh = fresh
    unreadable-Turned (some d) f w t e fresh = (d, e)

    stat-Turned :
        (f : FileWatcher D) (s : Option ℕ × W × ℕ)
        → IsFresh f
        → ((m : ℕ) → s.0 ≡ some m → 0 < m)
        → Turned (stat files f s)
    stat-Turned f (none, w, t) fresh d = unreadable-Turned f.content f w t refl fresh
    stat-Turned f (some current, w, t) fresh d =
        let later : ltb f.mtime current ≡ true =
          lt→ltb f.mtime current (omega (arith, d current refl)) in
        rw later (loaded-Turned current f (files.load w t) fresh)

    turned-After :
        (o : Outcome files)
        → Turned o
        → After (λ (s : FileWatcher D × W). IsFresh s.0) (λ _ s. HasContent s.0) (turned files o)
    turned-After (ok d, f, w, t) h = h
    turned-After (err e, f, w, t) h = h

    try_load-After :
        (r : Option ℕ) (s : FileWatcher D × W) (t : ℕ)
        → IsFresh s.0
        → After
            (λ (s : FileWatcher D × W). IsFresh s.0)
            (λ _ s. HasContent s.0)
            (try_load files r s t)
    unfolding try_load get_data
    try_load-After r (f, w) t fresh =
        rw (fresh.0, try_load)
          (turned-After (get_data files f w t)
            (stat-Turned f (files.getmtime w t) fresh (λ m e. dated w t m e)))

    -- what the constructor's wait ends with
    abbrev pub Waited : Result WatcherError (FileWatcher D) × W × ℕ → Type 0
    Waited (ok f, w, t) = HasContent f
    Waited (err e, w, t) = e ≡ timed_out

    ended-Waited :
        (x : LoopEnd (Unit {0}) × (FileWatcher D × W) × ℕ)
        → x.0 ≢ unfinished
        → Ends (λ (s : FileWatcher D × W). IsFresh s.0) (λ _ s. HasContent s.0) x
        → Waited (ended files x)
    ended-Waited (exhausted, s, t) h e = refl
    ended-Waited (left _, s, t) h e = e
    ended-Waited (unfinished, s, t) h e = absurd (h refl)

    -- Where clocks do not go back and files are not dated 0, a constructor that waits for the file
    -- ends within `timeout` + 2 turns of its loop, whatever the back-off: it has content, or it
    -- raises WatchedFileNotAvailableError with the timeout.
    pub wait_for_file-Waited :
        (timeout : ℕ) (backoff : Option ℕ) (w : W) (now : ℕ)
        → Waited (wait_for_file files (suc (suc timeout)) timeout backoff w now)
    unfolding wait_for_file policy Retry.new Retry.yield_attempts new_watcher
    wait_for_file-Waited timeout backoff w now =
        let base = backoff_or_default files backoff in
        let generator = backed_off base 0 (budgeted timeout none forever) in
        ended-Waited
          (for_attempts (try_load files) (suc (suc timeout)) generator (new_watcher, w) now)
          (for_attempts_ends_from (try_load files) (λ r s t. try_load_clock r s t) (suc timeout)
            (suc (suc timeout)) generator (new_watcher, w) now now (omega arith) (omega arith)
            (AtMostFrom-budget_backoff base timeout now (base_pos backoff)))
          (for_attempts_rule (λ (s : FileWatcher D × W). IsFresh s.0) (λ _ s. HasContent s.0)
            (try_load files) (λ r s t h. try_load-After r s t h) (suc (suc timeout)) generator
            (new_watcher, w) now (refl, refl))
