-- ===== src/Retry/Count.antt =====
-- How many attempts a policy of `RetryPolicy.new` makes.
use baseplate_py.Prelude.{
  ℕ, zero, suc, ◌+◌, ◌-◌, ◌≡◌, refl, ◌≤◌, ◌<◌, Option, none, some, List, [], ◌∷◌, length, replicate,
  min, arith, ok, ◌*◌, ◌^◌, subst,
}
use baseplate_py.Prelude.Int.{ℤ, pos, negsuc}
use native.Mathlib.Nat.{add-zero}
use baseplate_py.Retry.{
  RetryPolicy, Attempts, Yield, stop, attempt, forever, counted, budgeted, backed_off, advance,
  trace, new, yield_attempts, indefinite, maximum_attempts, time_budget, exponential_backoff,
  with_backoff, count_attempt, check_budget, back_off,
}
use baseplate_py.Retry.Loop.{AtMost, length-trace-AtMost}

-- When a wrapper yields, the policy inside did.
count_attempt-eq-attempt :
    (n i : ℕ) (t : Yield × Attempts × ℕ) (r : Option ℕ)
    → (count_attempt (pos n) i t).0 ≡ attempt r
    → (count_attempt (pos n) i t).1 ≡ counted (pos n) (i + 1) t.1
count_attempt-eq-attempt n i (stop, g, now) r h = cc
count_attempt-eq-attempt n i (attempt _, g, now) r h = ground arith

check_budget-eq-attempt :
    (b s : ℕ) (t : Yield × Attempts × ℕ) (r : Option ℕ)
    → (check_budget b s t).0 ≡ attempt r
    → (r' : Option ℕ) × (t.0 ≡ attempt r') × ((check_budget b s t).1 ≡ budgeted b (some s) t.1)
check_budget-eq-attempt b s (stop, g, now) r h = cc
check_budget-eq-attempt b s (attempt r', g, now) r h = (r', refl, ground arith)

back_off-eq-attempt :
    (base i : ℕ) (t : Yield × Attempts × ℕ) (r : Option ℕ)
    → (back_off base i t).0 ≡ attempt r
    → (r' : Option ℕ) × (t.0 ≡ attempt r') × ((back_off base i t).1 ≡ backed_off base (suc i) t.1)
back_off-eq-attempt base i (stop, g, now) r h = cc
back_off-eq-attempt base zero (attempt r', g, now) r h = (r', refl, refl)
back_off-eq-attempt base (suc i) (attempt r', g, now) r h = (r', refl, refl)

AtMost-counted : (n k i : ℕ) (g : Attempts) → i + k ≡ n → AtMost k (counted (pos n) i g)
unfolding advance
AtMost-counted n zero i g e = λ now. ground arith
AtMost-counted n (suc k) i g e = λ now r h.
    rw (count_attempt-eq-attempt n i (advance g now) r h)
      (AtMost-counted n k (i + 1) (advance g now).1 (omega arith))

AtMost-budgeted : (k b s : ℕ) (g : Attempts) → AtMost k g → AtMost k (budgeted b (some s) g)
unfolding advance
AtMost-budgeted zero b s g h = λ now. rw (h now, check_budget)
AtMost-budgeted (suc k) b s g h = λ now r e.
    let (r', y, next) = check_budget-eq-attempt b s (advance g now) r e in
    rw next (AtMost-budgeted k b s (advance g now).1 (h now r' y))

AtMost-backed_off : (k base i : ℕ) (g : Attempts) → AtMost k g → AtMost k (backed_off base i g)
unfolding advance
AtMost-backed_off zero base i g h = λ now. rw (h now, back_off)
AtMost-backed_off (suc k) base i g h = λ now r e.
    let (r', y, next) = back_off-eq-attempt base i (advance g now) r e in
    rw next (AtMost-backed_off k base (suc i) (advance g now).1 (h now r' y))

-- A budget makes its first attempt without asking the policy inside.
AtMost-budgeted_none : (k b : ℕ) (g : Attempts) → AtMost k g → AtMost (suc k) (budgeted b none g)
unfolding advance
AtMost-budgeted_none k b g h now r e = AtMost-budgeted k b now g h

-- The attempts that `attempts=n` allows, with or without a budget.
abbrev pub most_attempts : ℕ → Option ℤ → ℕ
most_attempts n none = n
most_attempts n (some _) = suc n

AtMost-with_backoff :
    (backoff : Option ℕ) (k : ℕ) (q : RetryPolicy)
    → AtMost k (yield_attempts q)
    → AtMost k (yield_attempts (with_backoff backoff q))
unfolding yield_attempts
AtMost-with_backoff none k q h = h
AtMost-with_backoff (some base) k q h = AtMost-backed_off k base 0 (yield_attempts q) h

AtMost-attempts : (n : ℕ) → AtMost n (counted (pos n) 0 forever)
AtMost-attempts n = AtMost-counted n n 0 forever (omega arith)

pub AtMost-new :
    (n : ℕ) (budget : Option ℤ) (backoff : Option ℕ) (p : RetryPolicy)
    → new (some (pos n)) budget backoff ≡ ok p
    → AtMost (most_attempts n budget) (yield_attempts p)
unfolding new yield_attempts
AtMost-new n none backoff p e =
    subst (λ q. AtMost n (yield_attempts q)) (cc)
      (AtMost-with_backoff backoff n (maximum_attempts indefinite (pos n)) (AtMost-attempts n))
AtMost-new n (some (pos b)) backoff p e =
    subst (λ q. AtMost (suc n) (yield_attempts q)) (cc)
      (AtMost-with_backoff backoff (suc n) (time_budget (maximum_attempts indefinite (pos n)) b)
        (AtMost-budgeted_none n b (counted (pos n) 0 forever) (AtMost-attempts n)))
AtMost-new n (some (negsuc _)) backoff p e = cc

-- With `attempts=n` a caller makes at most n attempts, and at most n + 1 if there is a budget,
-- whatever time passes and whatever the back-off.
pub attempts_bounded :
    (n : ℕ) (budget : Option ℤ) (backoff : Option ℕ) (p : RetryPolicy) (ds : List ℕ) (now : ℕ)
    → new (some (pos n)) budget backoff ≡ ok p
    → length (trace ds (yield_attempts p) now) ≤ most_attempts n budget
attempts_bounded n budget backoff p ds now e =
    length-trace-AtMost (most_attempts n budget) ds (yield_attempts p) now
      (AtMost-new n budget backoff p e)

length-trace-counted :
    (n i now : ℕ) (ds : List ℕ)
    → i ≤ n
    → length (trace ds (counted (pos n) i forever) now) ≡ min (n - i) (length ds)
unfolding trace advance
length-trace-counted n i now [] l = omega arith
length-trace-counted n i now (d ∷ ds) l =
    ground (arith, length-trace-counted n (i + 1) (now + d) ds)

length-trace-backed_off :
    (base j n i now : ℕ) (ds : List ℕ)
    → i ≤ n
    → length (trace ds (backed_off base j (counted (pos n) i forever)) now)
      ≡ min (n - i) (length ds)
unfolding trace advance
length-trace-backed_off base j n i now [] l = omega arith
length-trace-backed_off base zero n i now (d ∷ ds) l =
    ground (arith, length-trace-backed_off base 1 n (i + 1) (now + d) ds)
length-trace-backed_off base (suc j) n i now (d ∷ ds) l =
    ground (arith, length-trace-backed_off base (suc (suc j)) n (i + 1) (now + base * 2 ^ j + d) ds)

-- Without a budget, a caller that keeps failing makes exactly n attempts.
pub attempts_exact :
    (n : ℕ) (backoff : Option ℕ) (p : RetryPolicy) (ds : List ℕ) (now : ℕ)
    → new (some (pos n)) none backoff ≡ ok p
    → length (trace ds (yield_attempts p) now) ≡ min n (length ds)
unfolding new yield_attempts
attempts_exact n none p ds now e =
    let same : maximum_attempts indefinite (pos n) ≡ p = cc in
    rw (← same) (omega (arith, length-trace-counted n 0 now ds))
attempts_exact n (some base) p ds now e =
    let same : exponential_backoff (maximum_attempts indefinite (pos n)) base ≡ p = cc in
    rw (← same) (omega (arith, length-trace-backed_off base 0 n 0 now ds))

length-trace-budgeted :
    (b n i now k : ℕ)
    → 0 < b
    → i ≤ n
    → length (trace (replicate k 0) (budgeted b (some now) (counted (pos n) i forever)) now)
      ≡ min (n - i) k
unfolding trace advance
length-trace-budgeted b n i now zero h l = omega arith
length-trace-budgeted b n i now (suc k) h l =
    let e : now + 0 ≡ now = omega arith in ground (arith, length-trace-budgeted b n (i + 1) now k)

-- With a budget too, a caller whose attempts fail at once makes n + 1 attempts, one more than
-- `attempts=n`.
pub attempts_exceeded :
    (n b : ℕ) (p : RetryPolicy) (k now : ℕ)
    → new (some (pos n)) (some (pos b)) none ≡ ok p
    → 0 < b
    → length (trace (replicate k 0) (yield_attempts p) now) ≡ min (suc n) k
unfolding new yield_attempts trace advance
attempts_exceeded n b p zero now e h = omega arith
attempts_exceeded n b p (suc k) now e h =
    let same : time_budget (maximum_attempts indefinite (pos n)) b ≡ p = cc in
    rw (← same) (rw add-zero (omega (arith, length-trace-budgeted b n 0 now k)))
