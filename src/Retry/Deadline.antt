-- ===== src/Retry/Deadline.antt =====
-- A time budget: the limits that the attempts are told, and the number of attempts.
use baseplate_py.Prelude.{
  ℕ, zero, suc, ◌+◌, ◌-◌, ◌≡◌, ◌≤◌, ◌<◌, Option, none, some, List, [], ◌∷◌, length, All, arith, ok,
}
use baseplate_py.Prelude.Int.{ℤ, pos}
use baseplate_py.Retry.{
  RetryPolicy, Attempts, indefinite, forever, counted, budgeted, backed_off, finished, advance,
  trace, new, yield_attempts, time_budget, with_attempts, with_backoff,
}

-- An attempt that began at `t` was given a limit, and stays within the deadline if it keeps to it.
abbrev pub EndsBy : ℕ → ℕ × Option ℕ → Type 0
EndsBy deadline (t, none) = ⊥
EndsBy deadline (t, some remaining) = t + remaining ≤ deadline

EndsBy-budgeted :
    (ds : List ℕ) (b s now : ℕ) (g : Attempts)
    → All (EndsBy (s + b)) (trace ds (budgeted b (some s) g) now)
unfolding trace advance
EndsBy-budgeted [] b s now g = tt
EndsBy-budgeted (d ∷ ds) b s now g =
    ground (arith, EndsBy-budgeted ds b s ((advance g now).2 + d) (advance g now).1)

EndsBy-backed_off :
    (ds : List ℕ) (base i b s now : ℕ) (g : Attempts)
    → All (EndsBy (s + b)) (trace ds (backed_off base (suc i) (budgeted b (some s) g)) now)
unfolding trace advance
EndsBy-backed_off [] base i b s now g = tt
EndsBy-backed_off (d ∷ ds) base i b s now g =
    let t = advance (backed_off base (suc i) (budgeted b (some s) g)) now in
    ground (arith, EndsBy-backed_off ds base (suc i) b s (t.2 + d) (advance g now).1)

EndsBy-with_backoff :
    (backoff : Option ℕ) (ds : List ℕ) (b now : ℕ) (policy : RetryPolicy)
    → All
        (EndsBy (now + b))
        (trace ds (yield_attempts (with_backoff backoff (time_budget policy b))) now)
unfolding trace advance yield_attempts
EndsBy-with_backoff none [] b now policy = tt
EndsBy-with_backoff (some base) [] b now policy = tt
EndsBy-with_backoff none (d ∷ ds) b now policy =
    (omega arith, EndsBy-budgeted ds b now (now + d) (yield_attempts policy))
EndsBy-with_backoff (some base) (d ∷ ds) b now policy =
    (omega arith, EndsBy-backed_off ds base 0 b now (now + d) (yield_attempts policy))

-- With a budget, every attempt is given a limit, and a caller that keeps to it never runs past the
-- budget, counted from the first attempt; the sleeps of the back-off are inside the budget too.
pub attempts_end_by_deadline :
    (attempts : Option ℤ) (b : ℕ) (backoff : Option ℕ) (p : RetryPolicy) (ds : List ℕ) (now : ℕ)
    → new attempts (some (pos b)) backoff ≡ ok p
    → All (EndsBy (now + b)) (trace ds (yield_attempts p) now)
unfolding new
attempts_end_by_deadline attempts b backoff p ds now e =
    let same : with_backoff backoff (time_budget (with_attempts attempts indefinite) b) ≡ p = cc in
    rw (← same) (EndsBy-with_backoff backoff ds b now (with_attempts attempts indefinite))

-- The clock does not go back while a generator runs.
now-le-advance : (g : Attempts) (now : ℕ) → now ≤ (advance g now).2
unfolding advance
now-le-advance forever now = omega arith
now-le-advance (counted n i g) now = ground (arith, now-le-advance g now)
now-le-advance (budgeted b none g) now = omega arith
now-le-advance (budgeted b (some s) g) now = ground (arith, now-le-advance g now)
now-le-advance (backed_off base zero g) now = ground (arith, now-le-advance g now)
now-le-advance (backed_off base (suc i) g) now = ground (arith, now-le-advance g now)
now-le-advance finished now = omega arith

length-trace-budgeted_le :
    (ds : List ℕ) (b s now : ℕ) (g : Attempts)
    → All (λ d. 0 < d) ds
    → length (trace ds (budgeted b (some s) g) now) ≤ s + b - now
unfolding trace advance
length-trace-budgeted_le [] b s now g h = omega arith
length-trace-budgeted_le (d ∷ ds) b s now g h = ground (
  arith,
  now-le-advance g now,
  length-trace-budgeted_le ds b s ((advance g now).2 + d) (advance g now).1 h.1,
)

length-trace-backed_off_le :
    (ds : List ℕ) (base i b s now : ℕ) (g : Attempts)
    → All (λ d. 0 < d) ds
    → length (trace ds (backed_off base (suc i) (budgeted b (some s) g)) now) ≤ s + b - now
unfolding trace advance
length-trace-backed_off_le [] base i b s now g h = omega arith
length-trace-backed_off_le (d ∷ ds) base i b s now g h =
    let t = advance (backed_off base (suc i) (budgeted b (some s) g)) now in
    ground (
      arith,
      now-le-advance g now,
      length-trace-backed_off_le ds base (suc i) b s (t.2 + d) (advance g now).1 h.1,
    )

length-trace-with_backoff_le :
    (backoff : Option ℕ) (ds : List ℕ) (b now : ℕ) (policy : RetryPolicy)
    → All (λ d. 0 < d) ds
    → length (trace ds (yield_attempts (with_backoff backoff (time_budget policy b))) now) ≤ suc b
unfolding trace advance yield_attempts
length-trace-with_backoff_le none [] b now policy h = omega arith
length-trace-with_backoff_le (some base) [] b now policy h = omega arith
length-trace-with_backoff_le none (d ∷ ds) b now policy h =
    omega (arith, length-trace-budgeted_le ds b now (now + d) (yield_attempts policy) h.1)
length-trace-with_backoff_le (some base) (d ∷ ds) b now policy h =
    omega (arith, length-trace-backed_off_le ds base 0 b now (now + d) (yield_attempts policy) h.1)

-- With a budget of b ticks, a caller whose attempts take a tick or more makes at most b + 1 of
-- them, even if the number of attempts is not limited.
pub budget_ends_attempts :
    (attempts : Option ℤ) (b : ℕ) (backoff : Option ℕ) (p : RetryPolicy) (ds : List ℕ) (now : ℕ)
    → new attempts (some (pos b)) backoff ≡ ok p
    → All (λ d. 0 < d) ds
    → length (trace ds (yield_attempts p) now) ≤ suc b
unfolding new
budget_ends_attempts attempts b backoff p ds now e h =
    let same : with_backoff backoff (time_budget (with_attempts attempts indefinite) b) ≡ p = cc in
    rw (← same)
      (length-trace-with_backoff_le backoff ds b now (with_attempts attempts indefinite) h)
