-- ===== src/Ratelimit/Allowance.antt =====
-- The promise of a rate limit backend, and what a limiter accepts in one interval.
use baseplate_py.Prelude.{
  ◌≡◌, subst, ◌∙◌, ℕ, ◌+◌, ◌-◌, ◌/◌, ◌≤◌, Bool, List, [], ◌∷◌, Result, ok, err, arith, leb, All,
  Bytes, inl, inr, Bool-cases, leb→le,
}
use baseplate_py.Ratelimit.{Backend, RateLimiter, LimitError, consume, accepted_or_raised}

-- What a backend promises: `used` is how much of a key was asked for in a bucket of time, and a
-- request is accepted if the whole is within the allowance.
pub record BackendLaws {S : Type 0} (backend : Backend S) : Type 0 where
  pub used : (interval : ℕ) → Bytes → (bucket : ℕ) → S → ℕ
  pub used-consume :
      (key : Bytes) (amount allowance interval now : ℕ) (s : S)
      → used interval key (now / interval) (backend.consume key amount allowance interval now s).1
        ≡ used interval key (now / interval) s + amount
  pub accepted-consume :
      (key : Bytes) (amount allowance interval now : ℕ) (s : S)
      → (backend.consume key amount allowance interval now s).0
        ≡ leb (used interval key (now / interval) s + amount) allowance

module _ {S : Type 0} (backend : Backend S) (limiter : RateLimiter) (key : Bytes) where
  abbrev accepted_amount : Result LimitError (Unit {0}) → ℕ → ℕ
  accepted_amount (ok u) amount = amount
  accepted_amount (err e) amount = 0

  -- the sum of the amounts that `consume` accepts, of requests at the given times
  unfoldable pub accepted_total : List (ℕ × ℕ) → S → ℕ
  accepted_total [] s = 0
  accepted_total ((amount, now) ∷ requests) s =
      let (r, s') = consume backend limiter key amount now s in
      accepted_amount r amount + accepted_total requests s'

  module _ (laws : BackendLaws backend) where
    abbrev used_in : ℕ → S → ℕ
    used_in bucket s = laws.used limiter.interval key bucket s

    abbrev after_request : ℕ → ℕ → S → Bool × S
    after_request amount now s = backend.consume key amount limiter.allowance limiter.interval now s

    accepted_total-step :
        (amount now bucket rest : ℕ) (s : S)
        → now / limiter.interval ≡ bucket
        → rest ≤ limiter.allowance - used_in bucket (after_request amount now s).1
        → accepted_amount (accepted_or_raised (after_request amount now s).0) amount + rest
          ≤ limiter.allowance - used_in bucket s
    accepted_total-step amount now bucket rest s e h =
        let u : used_in bucket (after_request amount now s).1 ≡ used_in bucket s + amount =
          subst (λ b. used_in b (after_request amount now s).1 ≡ used_in b s + amount) e
            (laws.used-consume key amount limiter.allowance limiter.interval now s) in
        let c : (after_request amount now s).0 ≡ leb (used_in bucket s + amount) limiter.allowance =
          subst (λ b. (after_request amount now s).0 ≡ leb (used_in b s + amount) limiter.allowance)
            e (laws.accepted-consume key amount limiter.allowance limiter.interval now s) in
        elim (Bool-cases (leb (used_in bucket s + amount) limiter.allowance)) [
          | inl f ↦
              let within = leb→le (used_in bucket s + amount) limiter.allowance f in
              rw (c ∙ f) (omega arith)
          | inr f ↦ rw (c ∙ f) (omega arith)
        ]

    -- Of the requests for one key at times in one interval, a rate limiter over any backend that
    -- keeps its promise accepts at most what is left of the allowance, however many requests there
    -- are and whatever their amounts.
    pub accepted_total-le :
        (requests : List (ℕ × ℕ)) (bucket : ℕ) (s : S)
        → All (λ r. r.1 / limiter.interval ≡ bucket) requests
        → accepted_total requests s ≤ limiter.allowance - laws.used limiter.interval key bucket s
    unfolding accepted_total consume
    accepted_total-le [] bucket s h = omega arith
    accepted_total-le ((amount, now) ∷ requests) bucket s (e, h) =
        accepted_total-step amount now bucket
          (accepted_total requests (after_request amount now s).1) s e
          (accepted_total-le requests bucket (after_request amount now s).1 h)
