-- ===== src/Retry/Clock.antt =====
-- Loops whose body never turns the clock back, under a budget with a back-off.
use native.Mathlib.Nat.{pow-suc}
use baseplate_py.Prelude.{
  ℕ, zero, suc, ◌+◌, ◌*◌, ◌^◌, ◌≡◌, ◌≢◌, ◌≤◌, ◌<◌, Option, none, some, inl, inr, arith,
}
use baseplate_py.Retry.{Attempts, stop, attempt, forever, budgeted, backed_off, advance}
use baseplate_py.Retry.Loop.{Flow, unfinished, for_attempts, Yield-cases, Flow-cases}

-- No more than n further attempts, if the clock starts at `now` and does not go back.
abbrev pub AtMostFrom : ℕ → Attempts → ℕ → Type 0
AtMostFrom zero policy now = (t : ℕ) → now ≤ t → (advance policy t).0 ≡ stop
AtMostFrom (suc n) policy now =
    (t : ℕ)
    → now ≤ t
    → (remaining : Option ℕ) → (advance policy t).0 ≡ attempt remaining
    → AtMostFrom n (advance policy t).1 (advance policy t).2

module _ {S R : Type 0} (body : Option ℕ → S → ℕ → Flow R × S × ℕ)
    (forward : (r : Option ℕ) (s : S) (t : ℕ) → t ≤ (body r s t).2) where
  pub for_attempts_ends_from :
      (n fuel : ℕ) (policy : Attempts) (s : S) (since now : ℕ)
      → n < fuel
      → since ≤ now
      → AtMostFrom n policy since
      → (for_attempts body fuel policy s now).0 ≢ unfinished
  unfolding for_attempts
  for_attempts_ends_from n zero policy s since now l m h = absurd (omega arith)
  for_attempts_ends_from zero (suc fuel) policy s since now l m h =
      rw (h now m, for_attempts) (λ p. cc)
  for_attempts_ends_from (suc n) (suc fuel) policy s since now l m h =
      elim (Yield-cases (advance policy now).0) [
        | inl e ↦ rw (e, for_attempts) (λ p. cc)
        | inr (r, e) ↦
            rw (e, for_attempts)
              (elim (Flow-cases (body r s (advance policy now).2).0) [
                | inl f ↦
                    rw (f, for_attempts)
                      (for_attempts_ends_from n fuel _ _ (advance policy now).2 _ (omega arith)
                        (forward r s (advance policy now).2) (h now m r e))
                | inr (v, f) ↦ rw (f, for_attempts) (λ p. cc)
              ])
      ]

pow_pos : (i : ℕ) → 0 < 2 ^ i
pow_pos zero = omega arith
pow_pos (suc i) = rw pow-suc (omega (arith, pow_pos i))

delay_pos : (base i : ℕ) → 0 < base → 0 < base * 2 ^ i
delay_pos base i h = grind (arith, pow_pos i)

-- An attempt after a sleep began at least a tick later.
advance-backed_off :
    (base i b s t : ℕ) (r : Option ℕ)
    → 0 < base
    → (advance (backed_off base (suc i) (budgeted b (some s) forever)) t).0 ≡ attempt r
    → ((advance (backed_off base (suc i) (budgeted b (some s) forever)) t).1
        ≡ backed_off base (suc (suc i)) (budgeted b (some s) forever))
      × (t < (advance (backed_off base (suc i) (budgeted b (some s) forever)) t).2)
unfolding advance
advance-backed_off base i b s t r h e = ground (arith, delay_pos base i h)

AtMostFrom-backed_off :
    (n base i b s now : ℕ)
    → 0 < base
    → s + b ≤ now + n
    → AtMostFrom n (backed_off base (suc i) (budgeted b (some s) forever)) now
unfolding advance
AtMostFrom-backed_off zero base i b s now h l = λ t m. ground arith
AtMostFrom-backed_off (suc n) base i b s now h l = λ t m r e.
    let (same, later) = advance-backed_off base i b s t r h e in
    rw same (
      AtMostFrom-backed_off n base (suc i) b s
        (advance (backed_off base (suc i) (budgeted b (some s) forever)) t).2 h (omega arith))

-- A budget of b ticks with a back-off allows at most b + 1 attempts, even if they take no time.
pub AtMostFrom-budget_backoff :
    (base b now : ℕ)
    → 0 < base
    → AtMostFrom (suc b) (backed_off base 0 (budgeted b none forever)) now
unfolding advance
AtMostFrom-budget_backoff base b now h =
    λ t m r e. AtMostFrom-backed_off b base 0 b t t h (omega arith)
