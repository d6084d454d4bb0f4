-- ===== src/Ratelimit/Backends.antt =====
-- The Redis and memcached backends, over stores that count.
use baseplate_py.Prelude.{
  ◌≡◌, ap, ◌∙◌, ℕ, ◌+◌, ◌*◌, ◌/◌, some, ◌++◌, leb, Bytes, decimal, arith, ◌-◌, ◌≤◌, List, All,
}
use baseplate_py.Ratelimit.{
  Backend, Redis, Memcache, get_current_bucket, consume_redis, consume_memcache, or_amount,
  RateLimiter,
}
use baseplate_py.Ratelimit.Allowance.{BackendLaws, accepted_total, accepted_total-le}

-- What is relied on of Redis: INCRBY counts from zero, and a later expiry does not change the
-- count.
pub record RedisLaws {S : Type 0} (redis : Redis S) : Type 0 where
  pub value : Bytes → S → ℕ
  pub incr-count : (k : Bytes) (n : ℕ) (s : S) → (redis.incr k n s).0 ≡ value k s + n
  pub value-incr : (k : Bytes) (n : ℕ) (s : S) → value k (redis.incr k n s).1 ≡ value k s + n
  pub value-expire : (k : Bytes) (ttl : ℕ) (s : S) → value k (redis.expire k ttl s) ≡ value k s

-- What is relied on of memcached: `add` of 0 changes no count, and `incr` finds the key just added.
pub record MemcacheLaws {S : Type 0} (memcache : Memcache S) : Type 0 where
  pub value : Bytes → S → ℕ
  pub value-add : (k : Bytes) (ttl : ℕ) (s : S) → value k (memcache.add k 0 ttl s) ≡ value k s
  pub incr-count :
      (k : Bytes) (n ttl : ℕ) (s : S)
      → (memcache.incr k n (memcache.add k 0 ttl s)).0 ≡ some (value k (memcache.add k 0 ttl s) + n)
  pub value-incr : (k : Bytes) (n : ℕ) (s : S) → value k (memcache.incr k n s).1 ≡ value k s + n

abbrev bucket_key : Bytes → Bytes → ℕ → Bytes
bucket_key prefix key bucket = prefix ++ (key ++ decimal bucket)

pub or_amount_lem : (n amount : ℕ) → or_amount (some (n + amount)) amount ≡ n + amount
or_amount_lem n amount = ground arith

module _ {S : Type 0} (prefix : Bytes) where
  abbrev pub redis_backend : Redis S → Backend S
  redis_backend redis = record { consume = consume_redis redis prefix }

  abbrev pub memcache_backend : Memcache S → Backend S
  memcache_backend memcache = record { consume = consume_memcache memcache prefix }

  unfoldable pub redis_laws :
      (redis : Redis S) → RedisLaws redis → BackendLaws (redis_backend redis)
  unfolding consume_redis get_current_bucket
  redis_laws redis laws = record {
    used = λ interval key bucket s. laws.value (bucket_key prefix key bucket) s;
    used-consume = λ key amount allowance interval now s.
        laws.value-expire (bucket_key prefix key (now / interval)) (interval * 2) _
        ∙ laws.value-incr (bucket_key prefix key (now / interval)) amount s;
    accepted-consume = λ key amount allowance interval now s.
        ap (λ count. leb count allowance)
          (laws.incr-count (bucket_key prefix key (now / interval)) amount s);
  }

  unfoldable pub memcache_laws :
      (memcache : Memcache S) → MemcacheLaws memcache → BackendLaws (memcache_backend memcache)
  unfolding consume_memcache get_current_bucket
  memcache_laws memcache laws = record {
    used = λ interval key bucket s. laws.value (bucket_key prefix key bucket) s;
    used-consume = λ key amount allowance interval now s.
        laws.value-incr (bucket_key prefix key (now / interval)) amount _
        ∙ ap (λ n. n + amount)
            (laws.value-add (bucket_key prefix key (now / interval)) (interval * 2) s);
    accepted-consume = λ key amount allowance interval now s.
        ap (λ count. leb (or_amount count amount) allowance)
          (laws.incr-count (bucket_key prefix key (now / interval)) amount (interval * 2) s)
        ∙ ap (λ n. leb n allowance) (or_amount_lem _ amount)
        ∙ ap (λ n. leb (n + amount) allowance)
            (laws.value-add (bucket_key prefix key (now / interval)) (interval * 2) s);
  }

  -- With Redis, the requests for a key in one interval are accepted up to what the allowance leaves
  -- beside the count that is stored under the prefix, the key and the number of the interval.
  pub consume_redis-le :
      (redis : Redis S) (laws : RedisLaws redis) (limiter : RateLimiter) (key : Bytes)
      (requests : List (ℕ × ℕ)) (bucket : ℕ) (s : S)
      → All (λ r. r.1 / limiter.interval ≡ bucket) requests
      → accepted_total (redis_backend redis) limiter key requests s
        ≤ limiter.allowance - laws.value (prefix ++ (key ++ decimal bucket)) s
  unfolding redis_laws
  consume_redis-le redis laws limiter key requests bucket s h =
      accepted_total-le (redis_backend redis) limiter key (redis_laws redis laws) requests bucket s
        h

  -- With memcached, as long as `incr` finds the count that `add` has just made sure of, the
  -- requests for a key in one interval are accepted up to what the allowance leaves beside the
  -- count that is stored.
  pub consume_memcache-le :
      (memcache : Memcache S) (laws : MemcacheLaws memcache) (limiter : RateLimiter) (key : Bytes)
      (requests : List (ℕ × ℕ)) (bucket : ℕ) (s : S)
      → All (λ r. r.1 / limiter.interval ≡ bucket) requests
      → accepted_total (memcache_backend memcache) limiter key requests s
        ≤ limiter.allowance - laws.value (prefix ++ (key ++ decimal bucket)) s
  unfolding memcache_laws
  consume_memcache-le memcache laws limiter key requests bucket s h =
      accepted_total-le (memcache_backend memcache) limiter key (memcache_laws memcache laws)
        requests bucket s h
