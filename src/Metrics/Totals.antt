-- ===== src/Metrics/Totals.antt =====
-- What a batch counts, against the increments themselves.
use baseplate_py.Prelude.{
  ◌≡◌, refl, ◌∙◌, ◌++◌, true, ◌&&◌, Option, none, some, List, [], ◌∷◌, if◌then◌else◌, Result, ok,
  err, Bytes, arith, inl, inr, Result-cases, ◌>>=◌,
}
use baseplate_py.Metrics.{
  Floats, Tags, MetricError, BatchCounter, Batch, Op, increment, decrement, time, replace,
  add_sample, apply, count_in, bump, add_packet, metric_name, bytes_eq, bytes_eq→eq, bytes_eq_refl,
  gauge_line, timer_line, histogram_line,
}

-- `==` tells the sample rates apart.
pub record IsEquality {F : Type 0} (floats : Floats F) : Type 0 where
  pub same_refl : (a : F) → floats.same a a ≡ true
  pub same→eq : (a b : F) → floats.same a b ≡ true → a ≡ b

module _ {F : Type 0} (floats : Floats F) where
  -- an operation that raises leaves the batch as it was
  abbrev pub after : Batch floats → Result MetricError (Batch floats) → Batch floats
  after b (ok b') = b'
  after b (err e) = b

  unfoldable pub run : List (Op floats) → Batch floats → Batch floats
  run [] b = b
  run (op ∷ ops) b = run ops (after b (apply floats op b))

  abbrev pub find_packet : F → List (F × F) → Option F
  find_packet r [] = none
  find_packet r ((s, total) ∷ packets) =
      if floats.same s r then some total else find_packet r packets

  -- the total under a metric's full name and a sample rate
  abbrev pub total_at : Bytes → F → List (BatchCounter floats) → Option F
  total_at n r [] = none
  total_at n r (c ∷ counters) =
      if bytes_eq c.name n then find_packet r c.packets else total_at n r counters

  abbrev pub plus : Option F → F → F
  plus none delta = floats.add floats.float_zero delta
  plus (some total) delta = floats.add total delta

  -- what one increment does to the total under n and r
  abbrev pub counted_in : Bytes → F → Result MetricError Bytes → F → F → Option F → Option F
  counted_in n r (ok full) delta rate total =
      if bytes_eq full n && floats.same rate r then some (plus total delta) else total
  counted_in n r (err e) delta rate total = total

  -- The sum, in their order, of the increments under the name n with the rate r.
  abbrev pub counted : Bytes → Bytes → F → List (Op floats) → Option F → Option F
  counted ns n r [] total = total
  counted ns n r (increment name tags delta rate ∷ ops) total =
      counted ns n r ops (counted_in n r (metric_name floats ns name) delta rate total)
  counted ns n r (decrement name tags delta rate ∷ ops) total =
      counted ns n r ops
        (counted_in n r (metric_name floats ns name) (floats.negate delta) rate total)
  counted ns n r (time name tags elapsed rate ∷ ops) total = counted ns n r ops total
  counted ns n r (replace name tags value ∷ ops) total = counted ns n r ops total
  counted ns n r (add_sample name tags value ∷ ops) total = counted ns n r ops total

  module _ (laws : IsEquality floats) (n : Bytes) (r : F) where
    find_packet-add_packet :
        (delta rate : F) (packets : List (F × F))
        → find_packet r (add_packet floats delta rate packets) ≡ (
            if floats.same rate r
            then some (plus (find_packet r packets) delta)
            else find_packet r packets)
    unfolding add_packet
    find_packet-add_packet delta rate [] = ground arith
    find_packet-add_packet delta rate ((s, total) ∷ packets) = ground (
      arith,
      find_packet-add_packet delta rate packets,
      laws.same→eq s rate,
      laws.same→eq s r,
      laws.same→eq rate r,
      laws.same_refl r,
      laws.same_refl rate,
    )

    total_at-bump :
        (full : Bytes) (tags : Tags) (delta rate : F) (counters : List (BatchCounter floats))
        → total_at n r (bump floats full tags delta rate counters)
          ≡ counted_in n r (ok full) delta rate (total_at n r counters)
    unfolding bump
    total_at-bump full tags delta rate [] = ground (arith, find_packet-add_packet delta rate [])
    total_at-bump full tags delta rate (c ∷ counters) = ground (
      arith,
      find_packet-add_packet delta rate c.packets,
      total_at-bump full tags delta rate counters,
      bytes_eq→eq c.name full,
      bytes_eq→eq c.name n,
      bytes_eq→eq full n,
      bytes_eq_refl n,
      bytes_eq_refl full,
    )

    total_at-count_in :
        (b : Batch floats) (name : Bytes) (tags : Tags) (delta rate : F)
        → let b' = after b (count_in floats b name tags delta rate) in
          (b'.namespace ≡ b.namespace)
          × (total_at n r b'.counters
              ≡ counted_in n r
                  (metric_name floats b.namespace name)
                  delta
                  rate
                  (total_at n r b.counters))
    unfolding count_in
    total_at-count_in b name tags delta rate =
        elim (Result-cases (metric_name floats b.namespace name)) [
          | inl (full, e) ↦ rw (e, count_in) (refl, total_at-bump full tags delta rate b.counters)
          | inr (x, e) ↦ rw (e, count_in) (refl, refl)
        ]

    -- a metric that is sent as a line
    appends :
        (b : Batch floats) (name : Bytes) (s : Bytes → Result MetricError Bytes)
        → let b' = after b (
            metric_name floats b.namespace name >>= λ full.
            s full >>= λ l. ok (record b { buffer = b.buffer ++ (l ∷ []) })) in
          (b'.namespace ≡ b.namespace) × (b'.counters ≡ b.counters)
    appends b name s = elim (Result-cases (metric_name floats b.namespace name)) [
      | inl (full, e) ↦ elim (Result-cases (s full)) [
        | inl (l, f) ↦ rw e (rw f (refl, refl))
        | inr (x, f) ↦ rw e (rw f (refl, refl))
      ]
      | inr (x, e) ↦ rw e (refl, refl)
    ]

    -- The total that a batch holds under a name and a sample rate is the sum of the increments
    -- under both, whatever else was sent through the batch between them, and whatever raised.
    pub run-counted :
        (ops : List (Op floats)) (b : Batch floats)
        → total_at n r (run ops b).counters ≡ counted b.namespace n r ops (total_at n r b.counters)
    unfolding run apply
    run-counted [] b = refl
    run-counted (increment name tags delta rate ∷ ops) b =
        let (ns, total) = total_at-count_in b name tags delta rate in
        run-counted ops (after b (count_in floats b name tags delta rate)) ∙ rw ns (rw total refl)
    run-counted (decrement name tags delta rate ∷ ops) b =
        let (ns, total) = total_at-count_in b name tags (floats.negate delta) rate in
        run-counted ops (after b (count_in floats b name tags (floats.negate delta) rate))
        ∙ rw ns (rw total refl)
    run-counted (time name tags elapsed rate ∷ ops) b =
        let (ns, same) = appends b name (λ full. ok (timer_line floats full tags elapsed rate)) in
        run-counted ops (after b (apply floats (time name tags elapsed rate) b))
        ∙ rw ns (rw same refl)
    run-counted (replace name tags value ∷ ops) b =
        let (ns, same) = appends b name (λ full. gauge_line floats full tags value) in
        run-counted ops (after b (apply floats (replace name tags value) b)) ∙ rw ns (rw same refl)
    run-counted (add_sample name tags value ∷ ops) b =
        let (ns, same) = appends b name (λ full. ok (histogram_line floats full tags value)) in
        run-counted ops (after b (apply floats (add_sample name tags value) b))
        ∙ rw ns (rw same refl)
