-- ===== src/Sidecars/Worker.antt =====
-- The `while True` loop of `publish_events` (event_publisher.py) and `publish_traces`
-- (trace_publisher.py), over any batch and any publisher.
pub mod OneTurn
pub mod Delivery
pub mod Payloads
pub mod Failure
use baseplate_py.Prelude.{ℕ, Option, List, [], ◌∷◌, ◌++◌, Result, ok, err, Bytes}
use baseplate_py.Sidecars.Batch.{SerializedBatch, BatchFull, Batch}
use baseplate_py.Sidecars.TimeLimited
use baseplate_py.Sidecars.TimeLimited.{TimeLimitedBatch}

-- One turn: what the queue gave, `none` if it timed out, and the clock when `add` reads it: twice
-- in the first call, and twice in the call after a flush.
pub record Turn : Type 0 where
  pub message : Option Bytes
  pub now : ℕ
  pub later : ℕ
  pub retried : ℕ
  pub restarted : ℕ

-- How the loop ends: `publish` raised, or the batch was full just after its reset.
pub data Crash (E : Type 0) : Type 0 where
  publish_failed : E → Crash E
  still_full : Crash E

-- What a turn leaves: the batch, the publisher, and the payloads handed to `publish`.
abbrev pub Outcome : Type 0 → Type 0 → Type 0 → Type 0
Outcome B P E = Result (Crash E) (TimeLimitedBatch B) × P × List SerializedBatch

module _ {B P E : Type 0} (batch : Batch B)
    (publish : SerializedBatch → P → Result E (Unit {0}) × P) where
  -- the second `batcher.add(message)`
  abbrev restarted : P → SerializedBatch → Result BatchFull (TimeLimitedBatch B) → Outcome B P E
  restarted p payload (ok b) = (ok b, p, payload ∷ [])
  restarted p payload (err _) = (err still_full, p, payload ∷ [])

  -- `batcher.reset()` after the payload was published
  abbrev published :
      Turn → TimeLimitedBatch B → SerializedBatch → Result E (Unit {0}) × P → Outcome B P E
  published t b payload (ok _, p) =
      restarted p payload
        (TimeLimited.add batch t.retried t.restarted t.message (TimeLimited.reset batch b))
  published t b payload (err e, p) = (err (publish_failed e), p, payload ∷ [])

  abbrev added :
      Turn → TimeLimitedBatch B → P → Result BatchFull (TimeLimitedBatch B) → Outcome B P E
  added t b p (ok b') = (ok b', p, [])
  added t b p (err _) =
      let payload = TimeLimited.serialize batch b in published t b payload (publish payload p)

  unfoldable pub turn : Turn → TimeLimitedBatch B → P → Outcome B P E
  turn t b p = added t b p (TimeLimited.add batch t.now t.later t.message b)

  -- the first turns of the loop
  unfoldable pub run : List Turn → TimeLimitedBatch B → P → Outcome B P E
  run [] b p = (ok b, p, [])
  run (t ∷ ts) b p =
      let (r, p', payloads) = turn t b p in
      elim r [
        | err e ↦ (err e, p', payloads)
        | ok b' ↦ let (r', p'', payloads') = run ts b' p' in (r', p'', payloads ++ payloads')
      ]
