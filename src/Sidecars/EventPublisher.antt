-- ===== src/Sidecars/EventPublisher.antt =====
-- baseplate/sidecars/event_publisher.py: `BatchPublisher.publish`.
-- `second` is the number of ticks in a second.
pub mod Outcome
use baseplate_py.Prelude.{
  ℕ, suc, ◌+◌, ◌*◌, Option, none, some, Result, ok, err, ltb, ◌==◌, not, if◌then◌else◌,
}
use baseplate_py.Prelude.Int.{pos}
use baseplate_py.Retry
use baseplate_py.Retry.{Attempts, iterate}
use baseplate_py.Retry.Loop.{
  Flow, proceed, leave, LoopEnd, exhausted, left, unfinished, for_attempts,
}
use baseplate_py.Sidecars.Batch.{SerializedBatch}
use baseplate_py.Sidecars.Post.{
  PostResult, success, http_error, io_error, unexpected, Session, Counters, PublishError,
  http_error_raised, unexpected_raised, max_retries, out_of_fuel,
}

module _ (second : ℕ) where
  abbrev pub retry_backoff : ℕ
  retry_backoff = 2 * second

  abbrev pub max_retry_time : ℕ
  max_retry_time = 5 * 60 * second

  abbrev pub policy : Attempts
  policy = iterate (Retry.new none (some (pos max_retry_time)) (some retry_backoff))

-- The `except` and `else` branches of an attempt.
unfoldable pub handle : ℕ → PostResult → Counters → Flow (Result PublishError (Unit {0})) × Counters
handle item_count success c = (leave (ok tt), record c { sent = c.sent + item_count })
handle item_count (http_error (some status)) c = (
  if ltb status 500
      then (if not (status == 422) then leave (err (http_error_raised (some status))) else proceed)
      else proceed,
  record c { error_http = c.error_http + 1 },
)
handle item_count (http_error none) c = (proceed, record c { error_http = c.error_http + 1 })
handle item_count io_error c = (proceed, record c { error_io = c.error_io + 1 })
handle item_count unexpected c = (leave (err unexpected_raised), c)

module _ (session : Session) where
  unfoldable pub attempt_post :
      ℕ → Option ℕ → Counters → ℕ → Flow (Result PublishError (Unit {0})) × Counters × ℕ
  unfolding handle
  attempt_post item_count remaining c now =
      let (response, duration) = session c.posts in
      let (flow, c') = handle item_count response (record c { posts = c.posts + 1 }) in
      (flow, c', now + duration)

  abbrev pub ended :
      LoopEnd (Result PublishError (Unit {0})) × Counters × ℕ
      → Result PublishError (Unit {0}) × (Counters × ℕ)
  ended (exhausted, c, now) = (err max_retries, (c, now))
  ended (left r, c, now) = (r, (c, now))
  ended (unfinished, c, now) = (err out_of_fuel, (c, now))

  module _ (second : ℕ) where
    unfoldable pub publish :
        SerializedBatch → Counters × ℕ → Result PublishError (Unit {0}) × (Counters × ℕ)
    publish payload (c, now) =
        if payload.item_count == 0
        then (ok tt, (c, now))
        else ended (
            for_attempts (attempt_post payload.item_count) (suc (suc (max_retry_time second)))
              (policy second) c now)
