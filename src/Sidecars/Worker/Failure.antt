-- ===== src/Sidecars/Worker/Failure.antt =====
-- The second `batcher.add` of the publishing loop, into the batch that was just reset.
use baseplate_py.Prelude.{
  Result-cases, ◌<◌, ◌≢◌, inl, inr, Option, List, [], ◌∷◌, Result, ok, err, Bytes, ◌∙◌, All,
}
use baseplate_py.Sidecars.Batch.{SerializedBatch, BatchFull, Batch, BatchLaws}
use baseplate_py.Sidecars.TimeLimited.{TimeLimitedBatch}
use baseplate_py.Sidecars.Worker.{Turn, still_full, turn, run, published, added}
use baseplate_py.Sidecars.Worker.OneTurn.{Added, turn-Added, add-reset_ok}

module _ {B : Type 0} (batch : Batch B) (laws : BatchLaws batch) where
  open laws use {Fits}

  module _ {P E : Type 0} (publish : SerializedBatch → P → Result E (Unit {0}) × P) where
    published-ne-still_full :
        (t : Turn) (b : TimeLimitedBatch B) (payload : SerializedBatch)
        (r : Result E (Unit {0}) × P)
        → 0 < b.max_age
        → Fits b.batch t.message
        → (published batch publish t b payload r).0 ≢ err still_full
    published-ne-still_full t b payload (err e, p) h fits = λ f. cc
    published-ne-still_full t b payload (ok _, p) h fits =
        let (b', e) = laws.add-reset t.message b.batch fits in
        rw (add-reset_ok batch t.retried t.restarted t.message b b' h e) (λ f. cc)

    added-ne-still_full :
        (t : Turn) (b : TimeLimitedBatch B) (p : P) (r : Result BatchFull (TimeLimitedBatch B))
        → 0 < b.max_age
        → Fits b.batch t.message
        → (added batch publish t b p r).0 ≢ err still_full
    added-ne-still_full t b p (ok b') h fits = λ f. cc
    added-ne-still_full t b p (err _) h fits = published-ne-still_full t b _ _ h fits

    turn-ne-still_full :
        (t : Turn) (b : TimeLimitedBatch B) (p : P)
        → 0 < b.max_age
        → Fits b.batch t.message
        → (turn batch publish t b p).0 ≢ err still_full
    unfolding turn
    turn-ne-still_full t b p h fits = added-ne-still_full t b p _ h fits

    Added-Fits :
        (t : Turn) (b b' : TimeLimitedBatch B) (payloads : List SerializedBatch) (m : Option Bytes)
        → Added batch publish t b b' payloads
        → Fits b.batch m
        → Fits b'.batch m
    Added-Fits t b b' payloads m (inl (e, _)) fits =
        laws.add-Fits t.message m b.batch b'.batch fits e
    Added-Fits t b b' payloads m (inr (e, _)) fits =
        laws.add-Fits t.message m (batch.reset b.batch) b'.batch (laws.reset-Fits m b.batch fits) e

    All-Fits :
        (ts : List Turn) (b b' : B)
        → ((m : Option Bytes) → Fits b m → Fits b' m)
        → All (λ t. Fits b t.message) ts
        → All (λ t. Fits b' t.message) ts
    All-Fits [] b b' keep h = tt
    All-Fits (t ∷ ts) b b' keep h = (keep t.message h.0, All-Fits ts b b' keep h.1)

    -- If an empty batch has room for each message and batches may age at all, the loop never ends
    -- because a message does not fit into the batch that was just emptied.
    pub run-ne-still_full :
        (ts : List Turn) (b : TimeLimitedBatch B) (p : P)
        → 0 < b.max_age
        → All (λ t. Fits b.batch t.message) ts
        → (run batch publish ts b p).0 ≢ err still_full
    unfolding run
    run-ne-still_full [] b p h fits = λ f. cc
    run-ne-still_full (t ∷ ts) b p h fits = elim (Result-cases (turn batch publish t b p).0) [
      | inl (b₁, f) ↦
          let (step, age) = turn-Added batch publish t b b₁ p f in
          rw (f, run)
            (run-ne-still_full ts b₁ (turn batch publish t b p).1 (rw age h)
              (All-Fits ts b.batch b₁.batch (λ m. Added-Fits t b b₁ _ m step) fits.1))
      | inr (x, f) ↦ rw (f, run) (λ g. turn-ne-still_full t b p h fits.0 (f ∙ g))
    ]
