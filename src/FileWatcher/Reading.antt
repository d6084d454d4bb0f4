-- ===== src/FileWatcher/Reading.antt =====
-- `get_data`, over any number of calls while the file changes.
use baseplate_py.Prelude.{
  ℕ, ◌<◌, ◌≡◌, refl, ◌∙◌, sym, ltb→lt, inl, inr, Option, none, some, List, [], ◌∷◌, ltb, arith,
  Bool-cases, Option-cases, Result, ok, err,
}
use baseplate_py.FileWatcher.{
  Files, FileWatcher, WatcherError, new_watcher, get_data, stat, unreadable, loaded, Outcome,
}

-- What the newest load that succeeded gave.
abbrev pub newest : {D : Type 0} → List (ℕ × Option D) → Option D
newest [] = none
newest ((t, some d) ∷ loads) = some d
newest ((t, none) ∷ loads) = newest loads

abbrev pub top : {D : Type 0} → List (ℕ × Option D) → ℕ
top [] = 0
top ((t, r) ∷ loads) = t

-- Once a load has succeeded, the file is loaded only for a time of modification later than that of
-- the load before.
abbrev pub Grows : {D : Type 0} → List (ℕ × Option D) → Type 0
Grows [] = Unit
Grows {D} ((t, r) ∷ loads) = ((d : D) → newest loads ≡ some d → top loads < t) × Grows loads

pub record IsWatching {D : Type 0} (f : FileWatcher D) : Type 0 where
  pub current : f.content ≡ newest f.loads
  pub stamped : (d : D) → f.content ≡ some d → f.mtime ≡ top f.loads
  pub grows : Grows f.loads

-- The answer is what the newest load that succeeded gave, and it is an error only if none did.
abbrev pub Answers : {D : Type 0} → Result WatcherError (Option D) → FileWatcher D → Type 0
Answers (ok d) f = d ≡ newest f.loads
Answers (err e) f = newest f.loads ≡ none

module _ {D W : Type 0} (files : Files D W) where
  abbrev pub Answered : Outcome files → Type 0
  Answered (r, f, w, t) = IsWatching f × Answers r f

  loaded-Answered :
      (current : ℕ) (f : FileWatcher D) (l : Option D × W × ℕ)
      → IsWatching f
      → f.mtime < current
      → Answered (loaded files current f l)
  unfolding loaded
  loaded-Answered current f (some d, w, t) watching later = (
    record {
      current = refl;
      stamped = λ d' e. refl;
      grows = (λ d' e. omega (arith, watching.stamped d' (watching.current ∙ e)), watching.grows);
    },
    refl,
  )
  loaded-Answered current f (none, w, t) watching later = elim (Option-cases f.content) [
    | inl e ↦
        let never : newest f.loads ≡ none = sym watching.current ∙ e in
        rw (e, loaded)
          (
            record {
              current = watching.current;
              stamped = λ d' g. cc;
              grows = (λ d' g. cc, watching.grows);
            },
            never,
          )
    | inr (d, e) ↦
        let some_time : newest f.loads ≡ some d = sym watching.current ∙ e in
        rw (e, loaded)
          (
            record {
              current = watching.current;
              stamped = λ d' g. refl;
              grows = (λ d' g. omega (arith, watching.stamped d e), watching.grows);
            },
            sym some_time,
          )
  ]

  unreadable-Answered :
      (c : Option D) (f : FileWatcher D) (w : W) (t : ℕ)
      → f.content ≡ c
      → IsWatching f
      → Answered (unreadable files c f w t)
  unreadable-Answered none f w t e watching = (watching, sym watching.current ∙ e)
  unreadable-Answered (some d) f w t e watching = (watching, sym e ∙ watching.current)

  -- Once there is content, no call raises.
  get_data-total :
      (f : FileWatcher D) (w : W) (now : ℕ) (d : D)
      → f.content ≡ some d
      → (d' : D) × ((get_data files f w now).0 ≡ ok (some d'))
  unfolding get_data loaded
  get_data-total f w now d e = elim (Option-cases (files.getmtime w now).0) [
    | inl gone ↦ (d, ground arith)
    | inr (current, here) ↦ elim (Bool-cases (ltb f.mtime current)) [
      | inr old ↦ (d, ground arith)
      | inl later ↦
          elim (Option-cases (files.load (files.getmtime w now).1 (files.getmtime w now).2).0) [
            | inl failed ↦ (d, ground arith)
            | inr (d', read) ↦ (d', ground arith)
          ]
    ]
  ]

  stat-Answered :
      (f : FileWatcher D) (s : Option ℕ × W × ℕ) → IsWatching f → Answered (stat files f s)
  stat-Answered f (none, w, t) watching = unreadable-Answered f.content f w t refl watching
  stat-Answered f (some current, w, t) watching = elim (Bool-cases (ltb f.mtime current)) [
    | inl e ↦ rw e (loaded-Answered current f (files.load w t) watching (ltb→lt f.mtime current e))
    | inr e ↦ rw e (watching, watching.current)
  ]

  get_data-Answered :
      (f : FileWatcher D) (w : W) (now : ℕ) → IsWatching f → Answered (get_data files f w now)
  unfolding get_data
  get_data-Answered f w now watching = stat-Answered f (files.getmtime w now) watching

  -- A watcher after calls of `get_data`, each at any state of the outside.
  pub data Polled : FileWatcher D → Type 0 where
    unread : Polled new_watcher
    polled : {f : FileWatcher D} (w : W) (now : ℕ) → Polled f → Polled (get_data files f w now).1

  pub Polled-IsWatching : {f : FileWatcher D} → Polled f → IsWatching f
  unfolding new_watcher
  Polled-IsWatching unread = record { current = refl; stamped = λ d e. cc; grows = tt }
  Polled-IsWatching (polled {f} w now p) = (get_data-Answered f w now (Polled-IsWatching p)).0

  pub get_data-Current :
      {f : FileWatcher D} (w : W) (now : ℕ)
      → Polled f
      → let (r, f', _, _) = get_data files f w now in
        Answers r f'
        × Grows f'.loads
        × ((d : D) → newest f.loads ≡ some d → (d' : D) × (r ≡ ok (some d')))
  get_data-Current {f} w now p =
      let (watching, answers) = get_data-Answered f w now (Polled-IsWatching p) in
      (answers, watching.grows, λ d e. get_data-total f w now d ((Polled-IsWatching p).current ∙ e))

  -- What every load that succeeds gives has each property that is there for all that is parsed.
  pub get_data-All :
      {f : FileWatcher D} (P : D → Type 0)
      → ((w : W) (t : ℕ) (d : D) → (files.load w t).0 ≡ some d → P d)
      → Polled f
      → (d : D) → f.content ≡ some d
      → P d
  unfolding new_watcher get_data loaded
  get_data-All P good unread d e = cc
  get_data-All P good (polled {f} w now p) d e = elim (Option-cases (files.getmtime w now).0) [
    | inl gone ↦
        get_data-All P good p d
          (elim (Option-cases f.content) [ inl x ↦ ground arith | inr (y, x) ↦ ground arith ])
    | inr (current, here) ↦ elim (Bool-cases (ltb f.mtime current)) [
      | inr old ↦ get_data-All P good p d (ground arith)
      | inl later ↦
          let w' = (files.getmtime w now).1 in
          let t' = (files.getmtime w now).2 in
          elim (Option-cases (files.load w' t').0) [
            | inl failed ↦
                get_data-All P good p d (elim (Option-cases f.content) [
                  | inl x ↦ ground arith
                  | inr (y, x) ↦ ground arith
                ])
            | inr (d', read) ↦ good w' t' d (ground arith)
          ]
    ]
  ]
