-- ===== src/Sidecars/TracePublisher.antt =====
-- baseplate/sidecars/trace_publisher.py: `ZipkinPublisher.publish`. `retry_limit` is not negative.
pub mod Outcome
use baseplate_py.Prelude.{
  ℕ, suc, ◌+◌, Option, none, some, Result, ok, err, ltb, ◌==◌, if◌then◌else◌,
}
use baseplate_py.Prelude.Int.{pos}
use baseplate_py.Retry
use baseplate_py.Retry.{Attempts, iterate}
use baseplate_py.Retry.Loop.{
  Flow, proceed, leave, LoopEnd, exhausted, left, unfinished, for_attempts,
}
use baseplate_py.Sidecars.Batch.{SerializedBatch}
use baseplate_py.Sidecars.Post.{
  PostResult, success, http_error, io_error, unexpected, Session, Counters, PublishError,
  http_error_raised, unexpected_raised, max_retries, out_of_fuel,
}

-- `RetryPolicy.new(attempts=self.retry_limit)`
abbrev pub policy : ℕ → Attempts
policy retry_limit = iterate (Retry.new (some (pos retry_limit)) none none)

-- The `except` and `else` branches of an attempt.
unfoldable pub handle : ℕ → PostResult → Counters → Flow (Result PublishError (Unit {0})) × Counters
handle item_count success c = (leave (ok tt), record c { sent = c.sent + item_count })
handle item_count (http_error (some status)) c = (
  if ltb status 500 then leave (err (http_error_raised (some status))) else proceed,
  record c { error_http = c.error_http + 1 },
)
handle item_count (http_error none) c = (proceed, record c { error_http = c.error_http + 1 })
handle item_count io_error c = (proceed, record c { error_io = c.error_io + 1 })
handle item_count unexpected c = (leave (err unexpected_raised), c)

module _ (session : Session) where
  unfoldable pub attempt_post :
      ℕ → Option ℕ → Counters → ℕ → Flow (Result PublishError (Unit {0})) × Counters × ℕ
  unfolding handle
  attempt_post item_count remaining c now =
      let (response, duration) = session c.posts in
      let (flow, c') = handle item_count response (record c { posts = c.posts + 1 }) in
      (flow, c', now + duration)

  abbrev pub ended :
      LoopEnd (Result PublishError (Unit {0})) × Counters × ℕ
      → Result PublishError (Unit {0}) × (Counters × ℕ)
  ended (exhausted, c, now) = (err max_retries, (c, now))
  ended (left r, c, now) = (r, (c, now))
  ended (unfinished, c, now) = (err out_of_fuel, (c, now))

  unfoldable pub publish :
      ℕ → SerializedBatch → Counters × ℕ → Result PublishError (Unit {0}) × (Counters × ℕ)
  publish retry_limit payload (c, now) =
      if payload.item_count == 0
      then (ok tt, (c, now))
      else ended (
          for_attempts (attempt_post payload.item_count) (suc retry_limit) (policy retry_limit) c
            now)
