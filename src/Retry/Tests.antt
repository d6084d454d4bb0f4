-- ===== src/Retry/Tests.antt =====
-- Runs of the retry policies, and the theorems at concrete policies.
use baseplate_py.Prelude.{
  ℕ, ◌+◌, ◌*◌, ◌^◌, ◌≡◌, refl, ◌≤◌, none, some, [], ◌∷◌, length, All, take, arith, err,
}
use baseplate_py.Prelude.Int.{pos, negsuc}
use baseplate_py.Retry.{
  RetryPolicy, indefinite, maximum_attempts, time_budget, exponential_backoff, negative_budget, new,
  yield_attempts, trace, advance,
}
use baseplate_py.Retry.Count.{attempts_bounded, attempts_exceeded}
use baseplate_py.Retry.Deadline.{EndsBy, attempts_end_by_deadline, budget_ends_attempts}
use baseplate_py.Retry.Backoff.{sum, get_elem?, backoff_schedule}

-- `RetryPolicy.new(attempts=1, budget=9, backoff=2)`
abbrev guarded : RetryPolicy
guarded = exponential_backoff (time_budget (maximum_attempts indefinite (pos 1)) 9) 2

abbrev fast : RetryPolicy
fast = time_budget (maximum_attempts indefinite (pos 2)) 9

abbrev patient : RetryPolicy
patient = exponential_backoff indefinite 3

-- test_budget_overrides_backoff: the second attempt sleeps 1, the third only what is left.
trace-guarded :
    trace
      (5 ∷ 3 ∷ 1 ∷ 0 ∷ [])
      (yield_attempts (exponential_backoff (time_budget indefinite 10) 1))
      0
    ≡ (0, some 10) ∷ (6, some 4) ∷ (10, some 0) ∷ []
unfolding trace advance yield_attempts
trace-guarded = refl

new_negative : new none (some (negsuc 0)) none ≡ err negative_budget
unfolding new
new_negative = refl

attempts_bounded_example : length (trace (0 ∷ 4 ∷ 1 ∷ []) (yield_attempts guarded) 7) ≤ 2
unfolding new
attempts_bounded_example =
    attempts_bounded 1 (some (pos 9)) (some 2) guarded (0 ∷ 4 ∷ 1 ∷ []) 7 refl

attempts_exceeded_example : length (trace (0 ∷ 0 ∷ 0 ∷ 0 ∷ []) (yield_attempts fast) 7) ≡ 3
unfolding new
attempts_exceeded_example = attempts_exceeded 2 9 fast 4 7 refl (omega arith)

attempts_end_by_deadline_example : All (EndsBy 16) (trace (0 ∷ 4 ∷ []) (yield_attempts guarded) 7)
unfolding new
attempts_end_by_deadline_example =
    attempts_end_by_deadline (some (pos 1)) 9 (some 2) guarded (0 ∷ 4 ∷ []) 7 refl

budget_ends_attempts_example : length (trace (1 ∷ 4 ∷ []) (yield_attempts guarded) 7) ≤ 10
unfolding new
budget_ends_attempts_example =
    budget_ends_attempts (some (pos 1)) 9 (some 2) guarded (1 ∷ 4 ∷ []) 7 refl (omega arith)

backoff_schedule_example :
    (t : ℕ) × (get_elem? (trace (1 ∷ 1 ∷ 5 ∷ []) (yield_attempts patient) 0) 2 ≡ some (t, none))
    × (t + 3 ≡ 0 + 3 * 2 ^ 2 + sum (take 2 (1 ∷ 1 ∷ 5 ∷ [])))
unfolding new
backoff_schedule_example = backoff_schedule 3 patient 2 0 (1 ∷ 1 ∷ 5 ∷ []) refl (omega arith)
