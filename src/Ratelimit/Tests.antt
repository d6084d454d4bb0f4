-- ===== src/Ratelimit/Tests.antt =====
-- Limiters over stores that hold a single count.
use baseplate_py.Prelude.{refl, ℕ, ◌+◌, ◌-◌, ◌≤◌, some, List, [], ◌∷◌}
use baseplate_py.Ratelimit.{Redis, Memcache, RateLimiter}
use baseplate_py.Ratelimit.Allowance.{accepted_total, accepted_total-le}
use baseplate_py.Ratelimit.Backends.{RedisLaws, MemcacheLaws, redis_backend, redis_laws}

abbrev redis : Redis ℕ
redis = record { incr = λ k n s. (s + n, s + n); expire = λ k ttl s. s }

abbrev redis_counts : RedisLaws redis
redis_counts = record {
  value = λ k s. s;
  incr-count = λ k n s. refl;
  value-incr = λ k n s. refl;
  value-expire = λ k ttl s. refl;
}

abbrev memcache : Memcache ℕ
memcache = record { add = λ k n ttl s. s; incr = λ k n s. (some (s + n), s + n) }

abbrev memcache_counts : MemcacheLaws memcache
memcache_counts = record {
  value = λ k s. s;
  value-add = λ k ttl s. refl;
  incr-count = λ k n ttl s. refl;
  value-incr = λ k n s. refl;
}

abbrev limiter : RateLimiter
limiter = record { allowance = 10; interval = 60 }

abbrev requests : List (ℕ × ℕ)
requests = (4, 120) ∷ (7, 130) ∷ (3, 179) ∷ []

accepted_total-le_example :
    accepted_total (redis_backend [] redis) limiter (1 ∷ []) requests 2 ≤ 10 - 2
unfolding redis_laws
accepted_total-le_example =
    accepted_total-le (redis_backend [] redis) limiter (1 ∷ []) (redis_laws [] redis redis_counts)
      requests 2 2 (refl, (refl, (refl, tt)))
