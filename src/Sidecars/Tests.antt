-- ===== src/Sidecars/Tests.antt =====
-- Runs of the batches and publishers, and the theorems at concrete inputs.
use baseplate_py.Prelude.{
  ℕ, zero, suc, ◌≡◌, refl, ◌≢◌, ◌≤◌, ◌<◌, some, List, [], ◌∷◌, length, All, arith, err, codes,
  decimal, Bytes,
}
use baseplate_py.Retry
use baseplate_py.Retry.Loop.{for_attempts}
use baseplate_py.Sidecars.Batch.{SerializedBatch, batch_full}
use baseplate_py.Sidecars.V2
use baseplate_py.Sidecars.V2.{V2Batch, v2}
use baseplate_py.Sidecars.V2.Laws.{v2_laws}
use baseplate_py.Sidecars.RawJson
use baseplate_py.Sidecars.RawJson.{RawJsonBatch, raw_json}
use baseplate_py.Sidecars.RawJson.Laws.{raw_json_laws}
use baseplate_py.Sidecars.TimeLimited
use baseplate_py.Sidecars.TimeLimited.{TimeLimitedBatch}
use baseplate_py.Sidecars.Worker.{Turn, still_full, turn, run}
use baseplate_py.Sidecars.Worker.Delivery.{Delivers, received}
use baseplate_py.Sidecars.Post.{Session, Counters, success, http_error, io_error}
use baseplate_py.Sidecars.EventPublisher
use baseplate_py.Sidecars.EventPublisher.Outcome
use baseplate_py.Sidecars.EventPublisher.Outcome.{publish-Published, publish_all_invalid}
use baseplate_py.Sidecars.TracePublisher
use baseplate_py.Sidecars.TracePublisher.Outcome as TraceOutcome
use baseplate_py.Sidecars.TracePublisher.Outcome.{publish_traces_outcome}
use baseplate_py.Sidecars.Events.{
  publish_events, max_batch_size, publish_events-Delivers, publish_events-ne-still_full,
  publish_events_payload_sizes,
}
use baseplate_py.Sidecars.Traces.{
  publish_traces, publish_traces-Delivers, publish_traces-ne-still_full,
}

abbrev idle : Counters
idle = record { posts = 0; error_http = 0; error_io = 0; sent = 0 }

-- the first post fails, the others succeed
abbrev flaky : Session
flaky zero = (io_error, 3)
flaky (suc _) = (success, 1)

abbrev invalid : Session
invalid _ = (http_error (some 422), 1)

abbrev turn_of : Bytes → ℕ → Turn
turn_of m now = record { message = some m; now = now; later = now; retried = now; restarted = now }

-- The second message arrives when the batch is two seconds old.
abbrev turns : List Turn
turns = turn_of (codes "a") 5 ∷ turn_of (codes "bc") 7 ∷ []

abbrev events_left : TimeLimitedBatch V2Batch
events_left = record {
  batch = record { max_size = max_batch_size; items = codes "bc" ∷ []; size = 30 };
  batch_start = some 7;
  max_age = 1;
}

abbrev traces_left : TimeLimitedBatch RawJsonBatch
traces_left = record {
  batch = record { max_size = 8; items = codes "bc" ∷ []; size = 5 };
  batch_start = some 7;
  max_age = 1;
}

abbrev pair : SerializedBatch
pair = record { item_count = 2; serialized = codes "[1,2]" }

serialize-events :
    (V2.serialize
      (record { max_size = 99; items = codes "a" ∷ codes "bc" ∷ []; size = 32 })).serialized
    ≡ codes "{\"1\":{\"lst\":[\"rec\",2,a,bc]}}"
unfolding V2.serialize decimal
serialize-events = refl

add_too_large : RawJson.add (some (codes "abcdef")) (RawJson.new 8) ≡ err batch_full
unfolding RawJson.add RawJson.new
add_too_large = refl

publish_events-Delivers_example :
    Delivers v2
      (v2_laws max_batch_size)
      (received turns)
      (publish_events flaky 1 turns (idle, 0)).2
      events_left.batch
unfolding publish_events TimeLimited.new TimeLimited.add TimeLimited.reset TimeLimited.serialize
    V2.new V2.add V2.reset run turn EventPublisher.publish EventPublisher.attempt_post for_attempts
    Retry.new Retry.yield_attempts Retry.advance V2.serialize
publish_events-Delivers_example = publish_events-Delivers flaky 1 turns (idle, 0) events_left refl

publish_events-ne-still_full_example : (publish_events flaky 1 turns (idle, 0)).0 ≢ err still_full
publish_events-ne-still_full_example =
    publish_events-ne-still_full flaky 1 turns (idle, 0) (omega arith) (omega arith)

publish_events_payload_sizes_example :
    All
      (λ (s : SerializedBatch). s.item_count < 100_000 → length s.serialized ≤ max_batch_size)
      (publish_events flaky 1 turns (idle, 0)).2
publish_events_payload_sizes_example = publish_events_payload_sizes flaky 1 turns (idle, 0)

publish_traces-Delivers_example :
    Delivers raw_json
      (raw_json_laws 8)
      (received turns)
      (publish_traces flaky 4 8 1 turns (idle, 0)).2
      traces_left.batch
unfolding publish_traces TimeLimited.new TimeLimited.add TimeLimited.reset TimeLimited.serialize
    RawJson.new RawJson.add RawJson.reset run turn TracePublisher.publish
    TracePublisher.attempt_post for_attempts Retry.new Retry.yield_attempts Retry.advance
    RawJson.serialize
publish_traces-Delivers_example =
    publish_traces-Delivers flaky 4 8 1 turns (idle, 0) traces_left refl

publish_traces-ne-still_full_example :
    (publish_traces flaky 4 8 1 turns (idle, 0)).0 ≢ err still_full
unfolding RawJson.new
publish_traces-ne-still_full_example =
    publish_traces-ne-still_full flaky 4 8 1 turns (idle, 0) (omega arith) (omega arith)

publish-Published_example :
    let (r, p) = EventPublisher.publish flaky 10 pair (idle, 0) in
    Outcome.Published flaky 2 idle r p.0
publish-Published_example = publish-Published flaky 10 pair idle 0 (omega arith) (omega arith)

publish_traces_outcome_example :
    let (r, p) = TracePublisher.publish flaky 3 pair (idle, 0) in
    TraceOutcome.Published flaky 2 idle r p.0 × (p.0.posts ≤ 3)
publish_traces_outcome_example = publish_traces_outcome flaky 3 pair idle 0 (omega arith)
