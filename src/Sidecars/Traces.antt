-- ===== src/Sidecars/Traces.antt =====
-- baseplate/sidecars/trace_publisher.py: `publish_traces`, from the empty batcher on, over what the
-- trace queue gives. `max_size` is the configured `max_batch_size`.
use baseplate_py.Prelude.{ℕ, ◌≡◌, ◌≤◌, List, length, All, max, ok, err, arith, ◌≢◌, ◌<◌}
use baseplate_py.Sidecars.RawJson
use baseplate_py.Sidecars.RawJson.{RawJsonBatch, raw_json}
use baseplate_py.Sidecars.RawJson.Laws.{raw_json_laws, raw_json_size_bound, Fits}
use baseplate_py.Sidecars.TimeLimited
use baseplate_py.Sidecars.TimeLimited.{TimeLimitedBatch}
use baseplate_py.Sidecars.Worker.{Turn, Outcome, still_full, run}
use baseplate_py.Sidecars.Worker.Delivery.{Delivers, received, run-Delivers}
use baseplate_py.Sidecars.Worker.Failure.{run-ne-still_full}
use baseplate_py.Sidecars.Worker.Payloads.{run-All}
use baseplate_py.Sidecars.Post.{Session, Counters, PublishError}
use baseplate_py.Sidecars.TracePublisher.{publish}

-- MAX_BATCH_AGE is one second, of `second` ticks.
unfoldable pub publish_traces :
    Session
    → ℕ
    → ℕ
    → ℕ
    → List Turn
    → Counters × ℕ
    → Outcome RawJsonBatch (Counters × ℕ) PublishError
publish_traces session retry_limit max_size second ts p =
    run raw_json (publish session retry_limit) ts
      (TimeLimited.new raw_json (RawJson.new max_size) second) p

module _ (session : Session) (retry_limit max_size second : ℕ) (ts : List Turn)
    (p : Counters × ℕ) where
  -- No payload is longer than the configured size, or it is the empty list.
  pub publish_traces_payload_sizes :
      All
        (λ s. length s.serialized ≤ max max_size 2)
        (publish_traces session retry_limit max_size second ts p).2
  unfolding publish_traces TimeLimited.new RawJson.new raw_json_laws
  publish_traces_payload_sizes =
      run-All raw_json (raw_json_laws max_size) (publish session retry_limit)
        (λ s. length s.serialized ≤ max max_size 2) (raw_json_size_bound max_size) ts
        (TimeLimited.new raw_json (RawJson.new max_size) second) p (omega arith)

  -- While the publisher runs, every span that is not empty was handed to `publish` exactly once, in
  -- the order of arrival and in payloads that count and encode it, or is still in the batch.
  pub publish_traces-Delivers :
      (b : TimeLimitedBatch RawJsonBatch)
      → (publish_traces session retry_limit max_size second ts p).0 ≡ ok b
      → Delivers raw_json
          (raw_json_laws max_size)
          (received ts)
          (publish_traces session retry_limit max_size second ts p).2
          b.batch
  unfolding publish_traces TimeLimited.new RawJson.new raw_json_laws
  publish_traces-Delivers b e =
      run-Delivers raw_json (raw_json_laws max_size) (publish session retry_limit) ts
        (TimeLimited.new raw_json (RawJson.new max_size) second) b p e

  -- The second `batcher.add` never raises BatchFull, if each span fits an empty batch.
  pub publish_traces-ne-still_full :
      0 < second
      → All (λ t. Fits (RawJson.new max_size) t.message) ts
      → (publish_traces session retry_limit max_size second ts p).0 ≢ err still_full
  unfolding publish_traces TimeLimited.new RawJson.new raw_json_laws
  publish_traces-ne-still_full s h =
      run-ne-still_full raw_json (raw_json_laws max_size) (publish session retry_limit) ts
        (TimeLimited.new raw_json (RawJson.new max_size) second) p s h
