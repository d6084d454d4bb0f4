-- ===== src/Ratelimit.antt =====
-- baseplate/lib/ratelimit: the rate limiter and its Redis and memcached backends. The two stores
-- are parameters. Keys are bytes, and `now` is the time in whole seconds.
pub mod Allowance
pub mod Backends
mod Tests
use baseplate_py.Prelude.{
  ℕ, zero, suc, ◌+◌, ◌*◌, ◌/◌, Bool, true, false, Option, none, some, ◌++◌, Result, ok, err, leb,
  ltb, if◌then◌else◌, Bytes, decimal,
}

-- `RateLimitBackend.consume`
pub record Backend (S : Type 0) : Type 0 where
  pub consume : (key : Bytes) (amount allowance interval now : ℕ) → S → Bool × S

-- `_get_current_bucket`
unfoldable pub get_current_bucket : ℕ → ℕ → Bytes
get_current_bucket bucket_size now = decimal (now / bucket_size)

pub record Redis (S : Type 0) : Type 0 where
  pub incr : Bytes → ℕ → S → ℕ × S
  pub expire : Bytes → ℕ → S → S

pub record Memcache (S : Type 0) : Type 0 where
  pub add : Bytes → ℕ → ℕ → S → S
  pub incr : Bytes → ℕ → S → Option ℕ × S

-- `RedisRateLimitBackend.consume`; the pipeline runs both commands in order
unfoldable pub consume_redis : {S : Type 0} → Redis S → Bytes → Bytes → ℕ → ℕ → ℕ → ℕ → S → Bool × S
unfolding get_current_bucket
consume_redis redis prefix key amount allowance interval now s =
    let k = prefix ++ (key ++ get_current_bucket interval now) in
    let (count, s') = redis.incr k amount s in
    (leb count allowance, redis.expire k (interval * 2) s')

-- `incr(key, amount) or amount`
abbrev pub or_amount : Option ℕ → ℕ → ℕ
or_amount none amount = amount
or_amount (some zero) amount = amount
or_amount (some (suc n)) amount = suc n

-- `MemcacheRateLimitBackend.consume`
unfoldable pub consume_memcache :
    {S : Type 0} → Memcache S → Bytes → Bytes → ℕ → ℕ → ℕ → ℕ → S → Bool × S
unfolding get_current_bucket
consume_memcache memcache prefix key amount allowance interval now s =
    let k = prefix ++ (key ++ get_current_bucket interval now) in
    let (count, s') = memcache.incr k amount (memcache.add k 0 (interval * 2) s) in
    (leb (or_amount count amount) allowance, s')

pub record RateLimiter : Type 0 where
  pub allowance : ℕ
  pub interval : ℕ

pub data LimitError : Type 0 where
  value_error : LimitError
  rate_limit_exceeded : LimitError

-- the constructor
unfoldable pub new : ℕ → ℕ → Result LimitError RateLimiter
new allowance interval =
    if ltb allowance 1
    then err value_error
    else if ltb interval 1
    then err value_error
    else ok (record { allowance = allowance; interval = interval })

abbrev pub accepted_or_raised : Bool → Result LimitError (Unit {0})
accepted_or_raised true = ok tt
accepted_or_raised false = err rate_limit_exceeded

-- `RateLimiter.consume`
unfoldable pub consume :
    {S : Type 0} → Backend S → RateLimiter → Bytes → ℕ → ℕ → S → Result LimitError (Unit {0}) × S
consume backend limiter key amount now s =
    let (accepted, s') = backend.consume key amount limiter.allowance limiter.interval now s in
    (accepted_or_raised accepted, s')
