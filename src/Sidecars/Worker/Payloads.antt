-- ===== src/Sidecars/Worker/Payloads.antt =====
-- The payloads that the publishing loop hands to `publish`.
use baseplate_py.Prelude.{Result-cases, inl, inr, List, [], ◌∷◌, ◌++◌, Result, ok, err, All}
use baseplate_py.Sidecars.Batch.{SerializedBatch, BatchFull, Batch, BatchLaws}
use baseplate_py.Sidecars.TimeLimited
use baseplate_py.Sidecars.TimeLimited.{TimeLimitedBatch}
use baseplate_py.Sidecars.Worker.{Turn, turn, run, restarted, published, added}
use baseplate_py.Sidecars.Worker.OneTurn.{Added, turn-Added}

All-append {ℓ κ} :
    {A : Type ℓ} (P : A → Type κ) (xs ys : List A) → All P xs → All P ys → All P (xs ++ ys)
All-append P [] ys hx hy = hy
All-append P (x ∷ xs) ys hx hy = (hx.0, All-append P xs ys hx.1 hy)

module _ {B : Type 0} (batch : Batch B) (laws : BatchLaws batch) where
  open laws use {IsValid}

  module _ {P E : Type 0} (publish : SerializedBatch → P → Result E (Unit {0}) × P)
      (Q : SerializedBatch → Type 0) (sound : (b : B) → IsValid b → Q (batch.serialize b)) where
    restarted-All :
        (p : P) (payload : SerializedBatch) (r : Result BatchFull (TimeLimitedBatch B))
        → Q payload
        → All Q (restarted batch publish p payload r).2
    restarted-All p payload (ok _) q = (q, tt)
    restarted-All p payload (err _) q = (q, tt)

    published-All :
        (t : Turn) (b : TimeLimitedBatch B) (payload : SerializedBatch)
        (r : Result E (Unit {0}) × P)
        → Q payload
        → All Q (published batch publish t b payload r).2
    published-All t b payload (ok _, p) q = restarted-All p payload _ q
    published-All t b payload (err _, p) q = (q, tt)

    added-All :
        (t : Turn) (b : TimeLimitedBatch B) (p : P) (r : Result BatchFull (TimeLimitedBatch B))
        → IsValid b.batch
        → All Q (added batch publish t b p r).2
    unfolding TimeLimited.serialize
    added-All t b p (ok _) v = tt
    added-All t b p (err _) v = published-All t b _ _ (sound b.batch v)

    turn-All :
        (t : Turn) (b : TimeLimitedBatch B) (p : P)
        → IsValid b.batch
        → All Q (turn batch publish t b p).2
    unfolding turn
    turn-All t b p v = added-All t b p _ v

    Added-IsValid :
        (t : Turn) (b b' : TimeLimitedBatch B) (payloads : List SerializedBatch)
        → IsValid b.batch
        → Added batch publish t b b' payloads
        → IsValid b'.batch
    Added-IsValid t b b' payloads v (inl (e, _)) = laws.add-IsValid t.message b.batch b'.batch v e
    Added-IsValid t b b' payloads v (inr (e, _)) =
        laws.add-IsValid t.message (batch.reset b.batch) b'.batch (laws.reset-IsValid b.batch v) e

    pub run-All :
        (ts : List Turn) (b : TimeLimitedBatch B) (p : P)
        → IsValid b.batch
        → All Q (run batch publish ts b p).2
    unfolding run
    run-All [] b p v = tt
    run-All (t ∷ ts) b p v = elim (Result-cases (turn batch publish t b p).0) [
      | inl (b₁, f) ↦
          let step = turn-Added batch publish t b b₁ p f in
          rw (f, run)
            (All-append Q _ _ (turn-All t b p v)
              (run-All ts b₁ (turn batch publish t b p).1 (Added-IsValid t b b₁ _ v step.0)))
      | inr (x, f) ↦ rw (f, run) (turn-All t b p v)
    ]
