-- ===== src/Retry/Loop.antt =====
-- `for time_remaining in policy:` with a body that may leave the loop, and the loop's `else`.
-- The loop takes fuel; a policy that makes at most n attempts needs n + 1.
use baseplate_py.Prelude.{
  ℕ, zero, suc, ◌≡◌, refl, ◌≢◌, ◌⊎◌, inl, inr, ◌<◌, ◌≤◌, Option, List, [], ◌∷◌, length, arith,
}
use baseplate_py.Retry.{Attempts, Yield, stop, attempt, advance, trace}

-- How the body ends: it falls through to the next attempt, or leaves the loop with a value.
pub data Flow {ℓ} (R : Type ℓ) : Type ℓ where
  proceed : Flow R
  leave : R → Flow R

pub data LoopEnd {ℓ} (R : Type ℓ) : Type ℓ where
  exhausted : LoopEnd R
  left : R → LoopEnd R
  unfinished : LoopEnd R

pub Yield-cases : (y : Yield) → (y ≡ stop) ⊎ ((r : Option ℕ) × (y ≡ attempt r))
Yield-cases stop = inl refl
Yield-cases (attempt r) = inr (r, refl)

pub Flow-cases : {R : Type 0} (f : Flow R) → (f ≡ proceed) ⊎ ((r : R) × (f ≡ leave r))
Flow-cases proceed = inl refl
Flow-cases (leave r) = inr (r, refl)

-- No more than n further attempts, whatever time passes.
abbrev pub AtMost : ℕ → Attempts → Type 0
AtMost zero policy = (now : ℕ) → (advance policy now).0 ≡ stop
AtMost (suc n) policy =
    (now : ℕ) (remaining : Option ℕ)
    → (advance policy now).0 ≡ attempt remaining
    → AtMost n (advance policy now).1

module _ {S R : Type 0} (body : Option ℕ → S → ℕ → Flow R × S × ℕ) where
  unfoldable pub for_attempts : ℕ → Attempts → S → ℕ → LoopEnd R × S × ℕ
  for_attempts zero policy s now = (unfinished, s, now)
  for_attempts (suc fuel) policy s now =
      let (y, policy', now') = advance policy now in
      elim y [
        | stop ↦ (exhausted, s, now')
        | attempt remaining ↦
            let (flow, s', later) = body remaining s now' in
            elim flow [
              | leave r ↦ (left r, s', later)
              | proceed ↦ for_attempts fuel policy' s' later
            ]
      ]

  pub for_attempts_ends :
      (n fuel : ℕ) (policy : Attempts) (s : S) (now : ℕ)
      → n < fuel
      → AtMost n policy
      → (for_attempts fuel policy s now).0 ≢ unfinished
  unfolding for_attempts
  for_attempts_ends n zero policy s now l h = absurd (omega arith)
  for_attempts_ends zero (suc fuel) policy s now l h = rw (h now, for_attempts) (λ p. cc)
  for_attempts_ends (suc n) (suc fuel) policy s now l h =
      elim (Yield-cases (advance policy now).0) [
        | inl e ↦ rw (e, for_attempts) (λ p. cc)
        | inr (r, e) ↦
            rw (e, for_attempts)
              (elim (Flow-cases (body r s (advance policy now).2).0) [
                | inl f ↦
                    rw (f, for_attempts) (for_attempts_ends n fuel _ _ _ (omega arith) (h now r e))
                | inr (v, f) ↦ rw (f, for_attempts) (λ p. cc)
              ])
      ]

-- A failing caller makes no more attempts than the policy allows.
pub length-trace-AtMost :
    (n : ℕ) (ds : List ℕ) (policy : Attempts) (now : ℕ)
    → AtMost n policy
    → length (trace ds policy now) ≤ n
unfolding trace
length-trace-AtMost n [] policy now h = omega arith
length-trace-AtMost zero (d ∷ ds) policy now h = rw (h now, length, trace) (omega arith)
length-trace-AtMost (suc n) (d ∷ ds) policy now h = elim (Yield-cases (advance policy now).0) [
  | inl e ↦ rw (e, length, trace) (omega arith)
  | inr (r, e) ↦ rw (e, length, trace) (omega (arith, length-trace-AtMost n ds _ _ (h now r e)))
]
