-- ===== src/Sidecars/Worker/OneTurn.antt =====
-- One turn of the publishing loop: what it did to the batch, and what it published.
use baseplate_py.Prelude.{
  ℕ, ◌<◌, ◌≡◌, refl, ◌⊎◌, inl, inr, Option, some, List, [], ◌∷◌, Result, ok, err, Bytes, arith,
}
use baseplate_py.Sidecars.Batch.{SerializedBatch, BatchFull, Batch}
use baseplate_py.Sidecars.TimeLimited
use baseplate_py.Sidecars.TimeLimited.{TimeLimitedBatch, age}
use baseplate_py.Sidecars.Worker.{Turn, turn, restarted, published, added}

module _ {B : Type 0} (batch : Batch B) where
  -- Where the time limit lets a message in, so did the batch inside.
  pub add-eq-ok :
      (now later : ℕ) (m : Option Bytes) (b b' : TimeLimitedBatch B)
      → TimeLimited.add batch now later m b ≡ ok b'
      → (batch.add m b.batch ≡ ok b'.batch) × (b'.max_age ≡ b.max_age)
  unfolding TimeLimited.add
  add-eq-ok now later m b b' e = ground arith

  -- A batch that was just reset takes whatever the batch inside takes.
  pub add-reset_ok :
      (now later : ℕ) (m : Option Bytes) (b : TimeLimitedBatch B) (b' : B)
      → 0 < b.max_age
      → batch.add m (batch.reset b.batch) ≡ ok b'
      → TimeLimited.add batch now later m (TimeLimited.reset batch b)
        ≡ ok (record { batch = b'; batch_start = some later; max_age = b.max_age })
  unfolding TimeLimited.add TimeLimited.reset
  add-reset_ok now later m b b' h e = ground arith

  module _ {P E : Type 0} (publish : SerializedBatch → P → Result E (Unit {0}) × P) where
    abbrev pub Added :
        Turn → TimeLimitedBatch B → TimeLimitedBatch B → List SerializedBatch → Type 0
    Added t b b' payloads =
        ((batch.add t.message b.batch ≡ ok b'.batch) × (payloads ≡ []))
        ⊎ ((batch.add t.message (batch.reset b.batch) ≡ ok b'.batch)
            × (payloads ≡ batch.serialize b.batch ∷ []))

    restarted-Added :
        (t : Turn) (b b' : TimeLimitedBatch B) (p : P) (r : Result BatchFull (TimeLimitedBatch B))
        → TimeLimited.add batch t.retried t.restarted t.message (TimeLimited.reset batch b) ≡ r
        → (restarted batch publish p (batch.serialize b.batch) r).0 ≡ ok b'
        → Added t b b' (restarted batch publish p (batch.serialize b.batch) r).2
          × (b'.max_age ≡ b.max_age)
    unfolding TimeLimited.reset
    restarted-Added t b b' p (err _) f e = cc
    restarted-Added t b b' p (ok b'') f e =
        let (g, m) =
          add-eq-ok t.retried t.restarted t.message (TimeLimited.reset batch b) b' (cc) in
        (inr (g, refl), m)

    published-Added :
        (t : Turn) (b b' : TimeLimitedBatch B) (r : Result E (Unit {0}) × P)
        → (published batch publish t b (batch.serialize b.batch) r).0 ≡ ok b'
        → Added t b b' (published batch publish t b (batch.serialize b.batch) r).2
          × (b'.max_age ≡ b.max_age)
    published-Added t b b' (err _, p) e = cc
    published-Added t b b' (ok _, p) e = restarted-Added t b b' p _ refl e

    added-Added :
        (t : Turn) (b b' : TimeLimitedBatch B) (p : P) (r : Result BatchFull (TimeLimitedBatch B))
        → TimeLimited.add batch t.now t.later t.message b ≡ r
        → (added batch publish t b p r).0 ≡ ok b'
        → Added t b b' (added batch publish t b p r).2 × (b'.max_age ≡ b.max_age)
    unfolding TimeLimited.serialize
    added-Added t b b' p (ok b'') f e =
        let (g, m) = add-eq-ok t.now t.later t.message b b' (cc) in (inl (g, refl), m)
    added-Added t b b' p (err _) f e = published-Added t b b' _ e

    -- A turn that ends well added its message, either to the batch or after a flush.
    pub turn-Added :
        (t : Turn) (b b' : TimeLimitedBatch B) (p : P)
        → (turn batch publish t b p).0 ≡ ok b'
        → Added t b b' (turn batch publish t b p).2 × (b'.max_age ≡ b.max_age)
    unfolding turn
    turn-Added t b b' p e = added-Added t b b' p _ refl e
