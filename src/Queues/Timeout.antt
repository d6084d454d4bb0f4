-- ===== src/Queues/Timeout.antt =====
-- The loops of `put` and `get` with a timeout.
use baseplate_py.Prelude.{
  ◌≡◌, ◌≢◌, refl, ℕ, zero, suc, ◌+◌, ◌-◌, ◌≤◌, ◌<◌, Option, none, some, Result, ok, err, arith, inl,
  inr, leb, le→leb, lt→leb, leb→le, Bool-cases,
}
use baseplate_py.Retry
use baseplate_py.Retry.{Attempts, Yield, budgeted, forever, finished, stop, attempt, advance}
use baseplate_py.Retry.Loop.{
  Flow, proceed, leave, LoopEnd, exhausted, left, unfinished, for_attempts, Flow-cases, Yield-cases,
}
use baseplate_py.Retry.Rule.{After, Ends, for_attempts_rule}
use baseplate_py.Queues.Message.{
  Reply, replied, interrupted, busy, Posix, QueueError, out_of_fuel, policy, answer, ended,
  attempt_receive, get,
}

advance-over :
    (b start now : ℕ)
    → start + b ≤ now
    → advance (budgeted b (some start) forever) now ≡ (stop, finished, now)
unfolding advance
advance-over b start now h = rw (le→leb (start + b) now h)

advance-left :
    (b start now : ℕ)
    → now < start + b
    → advance (budgeted b (some start) forever) now
      ≡ (attempt (some (start + b - now)), budgeted b (some start) forever, now)
unfolding advance
advance-left b start now h = rw (lt→leb (start + b) now h)

module _ {S R : Type 0} (body : Option ℕ → S → ℕ → Flow R × S × ℕ) where
  -- the loop after the body, and after `next`
  abbrev after_body : ℕ → Attempts → Flow R × S × ℕ → LoopEnd R × S × ℕ
  after_body fuel generator (leave r, s, t) = (left r, s, t)
  after_body fuel generator (proceed, s, t) = for_attempts body fuel generator s t

  abbrev after_next : ℕ → S → Yield × Attempts × ℕ → LoopEnd R × S × ℕ
  after_next fuel s (stop, generator, t) = (exhausted, s, t)
  after_next fuel s (attempt r, generator, t) = after_body fuel generator (body r s t)

  for_attempts-turn :
      (fuel : ℕ) (generator : Attempts) (s : S) (now : ℕ)
      → for_attempts body (suc fuel) generator s now ≡ after_next fuel s (advance generator now)
  unfolding for_attempts
  for_attempts-turn fuel generator s now = elim (Yield-cases (advance generator now).0) [
    | inl e ↦ rw (e, for_attempts)
    | inr (r, e) ↦
        rw (e, for_attempts)
          (elim (Flow-cases (body r s (advance generator now).2).0) [
            | inl f ↦ rw f
            | inr (v, f) ↦ rw f
          ])
  ]

  after_body-ends :
      (fuel : ℕ) (generator : Attempts) (x : Flow R × S × ℕ)
      → (for_attempts body fuel generator x.1 x.2).0 ≢ unfinished
      → (after_body fuel generator x).0 ≢ unfinished
  after_body-ends fuel generator (leave r, s, t) h = λ e. cc
  after_body-ends fuel generator (proceed, s, t) h = h

  module _ (ticks : (r : Option ℕ) (s : S) (t : ℕ) → t < (body r s t).2) where
    budget_over :
        (fuel b start : ℕ) (s : S) (now : ℕ)
        → start + b ≤ now
        → (for_attempts body (suc fuel) (budgeted b (some start) forever) s now).0 ≢ unfinished
    budget_over fuel b start s now h =
        rw
          (
            for_attempts-turn fuel (budgeted b (some start) forever) s now,
            advance-over b start now h,
          )
          (λ e. cc)

    budget_ends :
        (fuel b start : ℕ) (s : S) (now : ℕ)
        → start + b ≤ now + fuel
        → (for_attempts body (suc fuel) (budgeted b (some start) forever) s now).0 ≢ unfinished
    budget_ends zero b start s now h = budget_over 0 b start s now (omega arith)
    budget_ends (suc fuel) b start s now h = elim (Bool-cases (leb (start + b) now)) [
      | inl e ↦ budget_over (suc fuel) b start s now (leb→le (start + b) now e)
      | inr e ↦
          let early : now < start + b = ground arith in
          let later = ticks (some (start + b - now)) s now in
          rw
            (
              for_attempts-turn (suc fuel) (budgeted b (some start) forever) s now,
              advance-left b start now early,
            )
            (after_body-ends (suc fuel) (budgeted b (some start) forever)
              (body (some (start + b - now)) s now) (budget_ends fuel b start _ _ (omega arith)))
    ]

    timeout_ends :
        (b : ℕ) (s : S) (now : ℕ)
        → (for_attempts body (suc (suc b)) (budgeted b none forever) s now).0 ≢ unfinished
    unfolding advance
    timeout_ends b s now =
        let later = ticks (some b) s now in
        rw (for_attempts-turn (suc b) (budgeted b none forever) s now) (
          after_body-ends (suc b) (budgeted b (some now) forever) (body (some b) s now)
            (budget_ends b b now _ _ (omega arith)))

module _ {S : Type 0} (posix : Posix S)
    (select_clock : (r : Option ℕ) (s : S) (t : ℕ) → t ≤ (posix.select r s t).1) where
  answer_ticks :
      {A : Type 0} (r : Option ℕ) (x : Reply A × S × ℕ) (now : ℕ)
      → now < x.2
      → now < (answer posix r x).2
  unfolding answer
  answer_ticks r (replied a, s, t) now h = h
  answer_ticks r (interrupted, s, t) now h = h
  answer_ticks r (busy, s, t) now h = let later = select_clock r s t in omega arith

  -- the loop is never left with an error
  abbrev IsOk : {A : Type 0} → Result QueueError A → S → Type 0
  IsOk (ok a) s = Unit
  IsOk (err e) s = ⊥

  answer-IsOk :
      {A : Type 0} (r : Option ℕ) (x : Reply A × S × ℕ)
      → After (λ s. Unit {0}) IsOk (answer posix r x)
  unfolding answer
  answer-IsOk r (replied a, s, t) = tt
  answer-IsOk r (interrupted, s, t) = tt
  answer-IsOk r (busy, s, t) = tt

  ended-ne-out_of_fuel :
      {A : Type 0} (x : LoopEnd (Result QueueError A) × S × ℕ)
      → x.0 ≢ unfinished
      → Ends (λ s. Unit {0}) IsOk x
      → (ended posix x).0 ≢ err out_of_fuel
  ended-ne-out_of_fuel (exhausted, s, t) h k = λ e. cc
  ended-ne-out_of_fuel (left (ok a), s, t) h k = λ e. cc
  ended-ne-out_of_fuel (left (err x), s, t) h k = elim k [ ]
  ended-ne-out_of_fuel (unfinished, s, t) h k = λ e. h refl

  -- Where every attempt to receive takes at least a tick, and the clock does not go back, `get`
  -- with a timeout of b ticks ends within b + 2 turns of its loop: it returns a message or raises
  -- TimedOutError.
  pub get-ends :
      ((s : S) (t : ℕ) → t < (posix.receive s t).2)
      → (b : ℕ) (s : S) (now : ℕ) → (get posix (suc (suc b)) (some b) s now).0 ≢ err out_of_fuel
  unfolding get policy Retry.new Retry.yield_attempts attempt_receive
  get-ends receive_ticks b s now =
      ended-ne-out_of_fuel _
        (timeout_ends (attempt_receive posix)
          (λ r s t. answer_ticks r (posix.receive s t) t (receive_ticks s t)) b s now)
        (for_attempts_rule (λ s. Unit) IsOk (attempt_receive posix)
          (λ r s t u. answer-IsOk r (posix.receive s t)) (suc (suc b)) (budgeted b none forever) s
          now tt)
