-- ===== src/Sidecars/Worker/Delivery.antt =====
-- What the publishing loop does with the messages that it takes from the queue.
use baseplate_py.Prelude.{
  Result-cases, ◌≡◌, refl, inl, inr, List, [], ◌∷◌, ◌++◌, map, Result, ok, Bytes, length,
  append-nil, append_assoc, map-append, sym,
}
use baseplate_py.Sidecars.Batch.{SerializedBatch, Batch, BatchLaws, contribution}
use baseplate_py.Sidecars.TimeLimited.{TimeLimitedBatch}
use baseplate_py.Sidecars.Worker.{Turn, turn, run}
use baseplate_py.Sidecars.Worker.OneTurn.{Added, turn-Added}

abbrev pub concat : List (List Bytes) → List Bytes
concat [] = []
concat (g ∷ gs) = g ++ concat gs

concat-append : (gs hs : List (List Bytes)) → concat (gs ++ hs) ≡ concat gs ++ concat hs
concat-append [] hs = refl
concat-append (g ∷ gs) hs = rw (concat-append gs hs, append_assoc)

-- The messages of the turns that are not empty.
abbrev pub received : List Turn → List Bytes
received [] = []
received (t ∷ ts) = contribution t.message ++ received ts

module _ {B : Type 0} (batch : Batch B) (laws : BatchLaws batch) where
  open laws use {items, encode}

  -- The payload that carries these items.
  abbrev pub payload_of : List Bytes → SerializedBatch
  payload_of xs = record { item_count = length xs; serialized = encode xs }

  serialize-payload_of : (b : B) → batch.serialize b ≡ payload_of (items b)
  serialize-payload_of b = λ i. record {
    item_count = (laws.serialize_lem b).0 i;
    serialized = (laws.serialize_lem b).1 i;
  }

  -- The groups of items that were published, and what is left in the batch.
  abbrev pub Delivers : List Bytes → List SerializedBatch → B → Type 0
  Delivers messages payloads b =
      (groups : List (List Bytes)) × (payloads ≡ map payload_of groups)
      × (concat groups ++ items b ≡ messages)

  module _ {P E : Type 0} (publish : SerializedBatch → P → Result E (Unit {0}) × P) where
    turn-Delivers :
        (t : Turn) (b b' : TimeLimitedBatch B) (payloads : List SerializedBatch)
        → Added batch publish t b b' payloads
        → Delivers (items b.batch ++ contribution t.message) payloads b'.batch
    turn-Delivers t b b' payloads (inl (e, f)) =
        ([], f, laws.items-add t.message b.batch b'.batch e)
    turn-Delivers t b b' payloads (inr (e, f)) = (
      items b.batch ∷ [],
      cc (serialize-payload_of b.batch),
      rw append-nil (
          rw (laws.items-add t.message (batch.reset b.batch) b'.batch e, laws.items-reset b.batch)),
    )

    Delivers-trans :
        (m r : List Bytes) (b₁ b₂ : B) (ps qs : List SerializedBatch)
        → Delivers m ps b₁
        → Delivers (items b₁ ++ r) qs b₂
        → Delivers (m ++ r) (ps ++ qs) b₂
    Delivers-trans m r b₁ b₂ ps qs (gs, e, f) (hs, e', f') = (
      gs ++ hs,
      rw (e, e') (sym (map-append payload_of gs hs)),
      rw (concat-append gs hs, append_assoc, f', ← append_assoc, f),
    )

    -- While the loop runs, each message that is not empty was handed to `publish` exactly once, in
    -- the order of arrival and in payloads that count and encode it, or is still in the batch.
    pub run-Delivers :
        (ts : List Turn) (b b' : TimeLimitedBatch B) (p : P)
        → (run batch publish ts b p).0 ≡ ok b'
        → Delivers (items b.batch ++ received ts) (run batch publish ts b p).2 b'.batch
    unfolding run
    run-Delivers [] b b' p e = let same : b ≡ b' = cc in ([], refl, rw (append-nil, same))
    run-Delivers (t ∷ ts) b b' p e = elim (Result-cases (turn batch publish t b p).0) [
      | inl (b₁, f) ↦
          let step = turn-Added batch publish t b b₁ p f in
          let later = run-Delivers ts b₁ b' (turn batch publish t b p).1 (rw (f, run) at e) in
          rw (f, run, ← append_assoc)
            (Delivers-trans (items b.batch ++ contribution t.message) (received ts) b₁.batch
              b'.batch _ _ (turn-Delivers t b b₁ _ step.0) later)
      | inr (x, f) ↦ let clash = rw (f, run) at e in cc
    ]
