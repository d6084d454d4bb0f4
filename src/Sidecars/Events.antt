-- ===== src/Sidecars/Events.antt =====
-- baseplate/sidecars/event_publisher.py: `publish_events`, from the empty batcher on, over what the
-- event queue gives. The queue holds messages of at most `max_event_size` bytes.
use baseplate_py.Prelude.{
  ℕ, ◌*◌, ◌≡◌, refl, ◌≢◌, ◌≤◌, ◌<◌, Option, none, some, List, [], ◌∷◌, ok, err, arith, length,
  Bytes, All,
}
use baseplate_py.Sidecars.V2
use baseplate_py.Sidecars.V2.{V2Batch, v2}
use baseplate_py.Sidecars.V2.Laws.{v2_laws, Fits, IsValid, v2_size_bound}
use baseplate_py.Sidecars.TimeLimited
use baseplate_py.Sidecars.TimeLimited.{TimeLimitedBatch}
use baseplate_py.Sidecars.Worker.{Turn, still_full, Outcome, run}
use baseplate_py.Sidecars.Worker.Delivery.{Delivers, received, run-Delivers}
use baseplate_py.Sidecars.Worker.Failure.{run-ne-still_full}
use baseplate_py.Sidecars.Worker.Payloads.{run-All}
use baseplate_py.Sidecars.Post.{Session, Counters, PublishError}
use baseplate_py.Sidecars.EventPublisher.{publish}

-- MAX_EVENT_SIZE of baseplate/lib/events.py
abbrev pub max_event_size : ℕ
max_event_size = 102400

abbrev pub max_batch_size : ℕ
max_batch_size = 500 * 1024

-- MAX_BATCH_AGE is one second, of `second` ticks. The publisher starts with the counters `c`.
unfoldable pub publish_events :
    Session → ℕ → List Turn → Counters × ℕ → Outcome V2Batch (Counters × ℕ) PublishError
publish_events session second ts p =
    run v2 (publish session second) ts (TimeLimited.new v2 (V2.new max_batch_size) second) p

abbrev pub FromQueue : Option Bytes → Type 0
FromQueue none = Unit
FromQueue (some m) = length m ≤ max_event_size

FromQueue-Fits :
    (m : Option Bytes) (b : V2Batch) → b.max_size ≡ max_batch_size → FromQueue m → Fits b m
FromQueue-Fits none b e h = tt
FromQueue-Fits (some []) b e h = tt
FromQueue-Fits (some (c ∷ cs)) b e h = omega arith

All-FromQueue :
    (ts : List Turn) (b : V2Batch)
    → b.max_size ≡ max_batch_size
    → All (λ t. FromQueue t.message) ts
    → All (λ t. Fits b t.message) ts
All-FromQueue [] b e h = tt
All-FromQueue (t ∷ ts) b e h = (FromQueue-Fits t.message b e h.0, All-FromQueue ts b e h.1)

item_count-serialize : (b : V2Batch) → (V2.serialize b).item_count ≡ length b.items
unfolding V2.serialize
item_count-serialize b = refl

serialize_size :
    (b : V2Batch)
    → IsValid max_batch_size b
    → (V2.serialize b).item_count < 100_000
    → length (V2.serialize b).serialized ≤ max_batch_size
serialize_size b v h =
    omega (arith, v2_size_bound max_batch_size b v (rw item_count-serialize at h))

module _ (session : Session) (second : ℕ) (ts : List Turn) (p : Counters × ℕ) where
  -- As long as the publisher runs, every event that is not empty was handed to `publish` exactly
  -- once, in the order of arrival and in payloads that count and encode it, or is still in the
  -- batch.
  pub publish_events-Delivers :
      (b : TimeLimitedBatch V2Batch)
      → (publish_events session second ts p).0 ≡ ok b
      → Delivers v2
          (v2_laws max_batch_size)
          (received ts)
          (publish_events session second ts p).2
          b.batch
  unfolding publish_events TimeLimited.new V2.new v2_laws
  publish_events-Delivers b e =
      run-Delivers v2 (v2_laws max_batch_size) (publish session second) ts
        (TimeLimited.new v2 (V2.new max_batch_size) second) b p e

  -- The second `batcher.add` never raises BatchFull: each event of the queue fits an empty batch.
  pub publish_events-ne-still_full :
      0 < second
      → All (λ t. FromQueue t.message) ts
      → (publish_events session second ts p).0 ≢ err still_full
  unfolding publish_events TimeLimited.new V2.new v2_laws
  publish_events-ne-still_full s h =
      run-ne-still_full v2 (v2_laws max_batch_size) (publish session second) ts
        (TimeLimited.new v2 (V2.new max_batch_size) second) p s
        (All-FromQueue ts (V2.new max_batch_size) refl h)

  -- A payload of fewer than 100,000 events has at most MAX_BATCH_SIZE bytes.
  pub publish_events_payload_sizes :
      All
        (λ s. s.item_count < 100_000 → length s.serialized ≤ max_batch_size)
        (publish_events session second ts p).2
  unfolding publish_events TimeLimited.new V2.new v2_laws
  publish_events_payload_sizes =
      run-All v2 (v2_laws max_batch_size) (publish session second)
        (λ s. s.item_count < 100_000 → length s.serialized ≤ max_batch_size) serialize_size ts
        (TimeLimited.new v2 (V2.new max_batch_size) second) p (omega arith)
