-- ===== src/Secrets/Caching.antt =====
-- baseplate/lib/secrets.py: the store of a request, over any calls of its getters.
use baseplate_py.Prelude.{
  ℕ, ◌+◌, ◌≡◌, refl, Option, none, some, List, [], ◌∷◌, Result, ok, err, ◌>>=◌, inl, inr, ◌⊎◌,
}
use baseplate_py.FileWatcher.{Files, FileWatcher, WatcherError, Outcome, get_data as get_file}
use baseplate_py.Secrets.{Store, SecretsError, not_available, get_data, get_cached, fetched, kept}

abbrev pub Getter : Type 0 → Type 0
Getter A = Option Store → Result SecretsError A

-- every answer is that of the getter for this content
abbrev pub AllFrom : {A : Type 0} → Option Store → List (Getter A × Result SecretsError A) → Type 0
AllFrom content [] = Unit
AllFrom content ((getter, answer) ∷ answers) = (answer ≡ getter content) × AllFrom content answers

-- The secrets are not available at first, and from some call on, every answer is from the one
-- content that this call has read.
abbrev pub FromOneReading : {A : Type 0} → List (Getter A × Result SecretsError A) → Type 0
FromOneReading [] = Unit
FromOneReading ((getter, answer) ∷ answers) =
    ((e : WatcherError) × (answer ≡ err (not_available e)) × FromOneReading answers)
    ⊎ ((content : Option Store) × (answer ≡ getter content) × AllFrom content answers)

fetched_outcome :
    {W : Type 0} (files : Files Store W) (got : Outcome files)
    → ((e : WatcherError) × ((kept files (fetched files got)).0 ≡ err (not_available e))
        × ((kept files (fetched files got)).1 ≡ none))
      ⊎ ((content : Option Store) × ((kept files (fetched files got)).0 ≡ ok content)
          × ((kept files (fetched files got)).1 ≡ some content))
fetched_outcome files (ok content, f, w, t) = inr (content, refl, refl)
fetched_outcome files (err e, f, w, t) = inl (e, refl, refl)

module _ {W A : Type 0} (files : Files Store W) where
  -- The answers of a request's store to calls of getters, each some time after the last one.
  unfoldable pub run :
      Option (Option Store)
      → FileWatcher Store
      → W
      → ℕ
      → List (ℕ × Getter A)
      → List (Getter A × Result SecretsError A)
  run cached f w now [] = []
  run cached f w now ((wait, getter) ∷ calls) =
      let (content, cached', f', w', now') = get_cached files cached f w (now + wait) in
      (getter, content >>= getter) ∷ run cached' f' w' now' calls

  run-AllFrom :
      (content : Option Store) (f : FileWatcher Store) (w : W) (now : ℕ)
      (calls : List (ℕ × Getter A))
      → AllFrom content (run (some content) f w now calls)
  unfolding run get_cached
  run-AllFrom content f w now [] = tt
  run-AllFrom content f w now ((wait, getter) ∷ calls) =
      (refl, run-AllFrom content f w (now + wait) calls)

  -- However the file changes during a request: until the secrets are available, every getter of
  -- the request's store raises SecretsNotAvailableError; from then on, all getters answer for one
  -- and the same content of the file.
  pub run-FromOneReading :
      (f : FileWatcher Store) (w : W) (now : ℕ) (calls : List (ℕ × Getter A))
      → FromOneReading (run none f w now calls)
  unfolding run get_cached get_data
  run-FromOneReading f w now [] = tt
  run-FromOneReading f w now ((wait, getter) ∷ calls) =
      let now' = now + wait in
      let got = get_cached files none f w now' in
      let rest = run-FromOneReading got.2 got.3 got.4 calls in
      elim (fetched_outcome files (get_file files f w now')) [
        | inl (e, failed, nothing) ↦ inl (e, rw failed refl, rw nothing rest)
        | inr (content, there, known) ↦
            inr (content, rw there refl, rw known (run-AllFrom content got.2 got.3 got.4 calls))
      ]
