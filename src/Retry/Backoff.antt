-- ===== src/Retry/Backoff.antt =====
-- Exponential back-off: when each attempt begins.
use native.Mathlib.Nat.{pow-suc}
use baseplate_py.Prelude.{
  ℕ, zero, suc, ◌+◌, ◌*◌, ◌^◌, ◌≡◌, refl, ◌<◌, Option, none, some, List, [], ◌∷◌, length, take,
  arith, ok,
}
use baseplate_py.Retry.{
  RetryPolicy, indefinite, exponential_backoff, forever, backed_off, advance, trace, new,
  yield_attempts,
}

abbrev pub sum : List ℕ → ℕ
sum [] = 0
sum (d ∷ ds) = d + sum ds

abbrev pub get_elem? {ℓ} : {A : Type ℓ} → List A → ℕ → Option A
get_elem? [] i = none
get_elem? (x ∷ xs) zero = some x
get_elem? (x ∷ xs) (suc i) = get_elem? xs i

double_delay : (base i : ℕ) → base * 2 ^ suc i ≡ base * 2 ^ i + base * 2 ^ i
double_delay base i = rw pow-suc (omega arith)

start-backed_off :
    (base i now k : ℕ) (ds : List ℕ)
    → k < length ds
    → (t : ℕ) × (get_elem? (trace ds (backed_off base (suc i) forever) now) k ≡ some (t, none))
      × (t + base * 2 ^ i ≡ now + base * 2 ^ (i + suc k) + sum (take k ds))
unfolding trace advance
start-backed_off base i now k [] h = elim h [ ]
start-backed_off base i now zero (d ∷ ds) h =
    let e : i + 1 ≡ suc i = omega arith in
    (now + base * 2 ^ i, refl, rw e (omega (arith, double_delay base i)))
start-backed_off base i now (suc k) (d ∷ ds) h =
    let (t, at, e) = start-backed_off base (suc i) (now + base * 2 ^ i + d) k ds (omega arith) in
    let same : suc i + suc k ≡ i + suc (suc k) = omega arith in
    (t, at, omega (arith, rw same at e, double_delay base i))

-- With only a back-off of `base`, the k-th attempt, counted from 0, begins base * (2 ^ k - 1) ticks
-- of sleep after the start, on top of the time that the attempts before it took.
pub backoff_schedule :
    (base : ℕ) (p : RetryPolicy) (k now : ℕ) (ds : List ℕ)
    → new none none (some base) ≡ ok p
    → k < length ds
    → (t : ℕ) × (get_elem? (trace ds (yield_attempts p) now) k ≡ some (t, none))
      × (t + base ≡ now + base * 2 ^ k + sum (take k ds))
unfolding new yield_attempts trace advance
backoff_schedule base p k now [] e h = elim h [ ]
backoff_schedule base p zero now (d ∷ ds) e h =
    let same : exponential_backoff indefinite base ≡ p = cc in rw (← same) (now, refl, omega arith)
backoff_schedule base p (suc k) now (d ∷ ds) e h =
    let same : exponential_backoff indefinite base ≡ p = cc in
    let (t, at, f) = start-backed_off base 0 (now + d) k ds (omega arith) in
    let shift : 0 + suc k ≡ suc k = omega arith in rw (← same) (t, at, omega (arith, rw shift at f))
