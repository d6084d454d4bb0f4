-- ===== src/Retry.antt =====
-- baseplate/lib/retry.py: the policies, and the generators that `yield_attempts` makes.
-- Times are counted in ticks. `time.sleep(d)` moves the clock by d; that a sleep may overshoot is
-- part of the time that the caller's attempt takes.
pub mod Loop
pub mod Clock
pub mod Rule
pub mod Count
pub mod Deadline
pub mod Backoff
mod Tests
use baseplate_py.Prelude.{
  ℕ, zero, suc, ◌+◌, ◌-◌, ◌*◌, ◌^◌, min, Bool, false, Option, none, some, List, [], ◌∷◌, leb, ◌==◌,
  if◌then◌else◌, Result, ok, err,
}
use baseplate_py.Prelude.Int.{ℤ, pos, negsuc}

pub data RetryPolicy : Type 0 where
  indefinite : RetryPolicy
  maximum_attempts : RetryPolicy → ℤ → RetryPolicy
  time_budget : RetryPolicy → ℕ → RetryPolicy
  exponential_backoff : RetryPolicy → ℕ → RetryPolicy

pub data AssertionError : Type 0 where
  negative_budget : AssertionError

abbrev with_attempts : Option ℤ → RetryPolicy → RetryPolicy
with_attempts none policy = policy
with_attempts (some attempts) policy = maximum_attempts policy attempts

-- the constructor asserts that the budget is not negative
abbrev with_budget : Option ℤ → RetryPolicy → Result AssertionError RetryPolicy
with_budget none policy = ok policy
with_budget (some (pos budget)) policy = ok (time_budget policy budget)
with_budget (some (negsuc _)) policy = err negative_budget

abbrev with_backoff : Option ℕ → RetryPolicy → RetryPolicy
with_backoff none policy = policy
with_backoff (some base) policy = exponential_backoff policy base

-- `RetryPolicy.new`
unfoldable pub new : Option ℤ → Option ℤ → Option ℕ → Result AssertionError RetryPolicy
new attempts budget backoff = elim (with_budget budget (with_attempts attempts indefinite)) [
  | ok policy ↦ ok (with_backoff backoff policy)
  | err e ↦ err e
]

-- A suspended generator, with its local variables.
pub data Attempts : Type 0 where
  forever : Attempts
  counted : ℤ → ℕ → Attempts → Attempts
  budgeted : ℕ → Option ℕ → Attempts → Attempts
  backed_off : ℕ → ℕ → Attempts → Attempts
  finished : Attempts

-- What `next` on a generator gives: the time remaining, if there is a limit, or `StopIteration`.
pub data Yield : Type 0 where
  stop : Yield
  attempt : Option ℕ → Yield

-- `__iter__`
unfoldable pub yield_attempts : RetryPolicy → Attempts
yield_attempts indefinite = forever
yield_attempts (maximum_attempts policy attempts) = counted attempts 0 (yield_attempts policy)
yield_attempts (time_budget policy budget) = budgeted budget none (yield_attempts policy)
yield_attempts (exponential_backoff policy base) = backed_off base 0 (yield_attempts policy)

-- `for ... in RetryPolicy.new(...)`; an AssertionError stands for no attempt, and cannot happen
-- where the budget is a constant that is not negative
abbrev pub iterate : Result AssertionError RetryPolicy → Attempts
iterate (ok policy) = yield_attempts policy
iterate (err _) = finished

-- `i == self.attempts`
abbrev pub is_reached : ℤ → ℕ → Bool
is_reached (pos attempts) i = i == attempts
is_reached (negsuc _) i = false

abbrev pub count_attempt : ℤ → ℕ → Yield × Attempts × ℕ → Yield × Attempts × ℕ
count_attempt attempts i (stop, policy, now) = (stop, finished, now)
count_attempt attempts i (attempt remaining, policy, now) =
    if is_reached attempts i
    then (stop, finished, now)
    else (attempt remaining, counted attempts (i + 1) policy, now)

-- time_remaining = budget - (now - start)
abbrev pub check_budget : ℕ → ℕ → Yield × Attempts × ℕ → Yield × Attempts × ℕ
check_budget budget start (stop, policy, now) = (stop, finished, now)
check_budget budget start (attempt _, policy, now) =
    if leb (start + budget) now
    then (stop, finished, now)
    else (attempt (some (start + budget - now)), budgeted budget (some start) policy, now)

-- The delay and the time that remains after it; no time remaining and none left are both falsy.
abbrev pub delay_of : ℕ → ℕ → Option ℕ → ℕ
delay_of base i none = base * 2 ^ i
delay_of base i (some zero) = base * 2 ^ i
delay_of base i (some (suc t)) = min (base * 2 ^ i) (suc t)

abbrev pub remaining_after : ℕ → Option ℕ → Option ℕ
remaining_after delay none = none
remaining_after delay (some zero) = some zero
remaining_after delay (some (suc t)) = some (suc t - delay)

abbrev pub back_off : ℕ → ℕ → Yield × Attempts × ℕ → Yield × Attempts × ℕ
back_off base i (stop, policy, now) = (stop, finished, now)
back_off base zero (attempt remaining, policy, now) =
    (attempt remaining, backed_off base 1 policy, now)
back_off base (suc i) (attempt remaining, policy, now) =
    let delay = delay_of base i remaining in
    (attempt (remaining_after delay remaining), backed_off base (suc (suc i)) policy, now + delay)

-- `next(generator)` at the time `now`: what it yields, the generator, and the time when it yields.
unfoldable pub advance : Attempts → ℕ → Yield × Attempts × ℕ
advance forever now = (attempt none, forever, now)
advance (counted attempts i policy) now = count_attempt attempts i (advance policy now)
advance (budgeted budget none policy) now =
    (attempt (some budget), budgeted budget (some now) policy, now)
advance (budgeted budget (some start) policy) now = check_budget budget start (advance policy now)
advance (backed_off base i policy) now = back_off base i (advance policy now)
advance finished now = (stop, finished, now)

-- The attempts of a caller whose attempts last `ds` and all fail: when each began and what it was
-- told remains.
unfoldable pub trace : List ℕ → Attempts → ℕ → List (ℕ × Option ℕ)
trace [] policy now = []
trace (d ∷ ds) policy now =
    let (y, policy', now') = advance policy now in
    elim y [ stop ↦ [] | attempt remaining ↦ (now', remaining) ∷ trace ds policy' (now' + d) ]
