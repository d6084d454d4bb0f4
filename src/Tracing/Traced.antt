-- ===== src/Tracing/Traced.antt =====
-- A traced span, from `with` to its recorder.
use baseplate_py.Prelude.{
  ℕ, ◌≡◌, refl, ◌∙◌, false, Option, none, some, List, [], ◌∷◌, ◌++◌, append-nil, append_assoc,
  Bytes, arith,
}
use baseplate_py.Prelude.Int.{sub_ℕ}
use baseplate_py.Spans.{Span, Exn, SpanObserver, emit, notify, with_span, finish}
use baseplate_py.Tracing.{
  Counting, Annotation, ObserverClass, TraceObserver, Backend, span_methods, on_event, on_set_tag,
  add_to, observer_of, serialize, core_annotations, or_zero, component, counter_annotations,
}
use baseplate_py.Tracing.Recording.{
  Call, set_tag, incr_tag, log, event_of, tags_of, summed, total_for, counters_after,
  total_for-counters_after, after_calls, on_finish-started, end_tags, timeout_tags, error_tags,
  debug_tags,
}

-- The block of a `with`: its calls on the span, and how it ends.
unfoldable pub block :
    {F O W : Type 0}
    → SpanObserver F O W
    → List (Call F)
    → Option Exn
    → Span O
    → W
    → Option Exn × Span O × W
block methods [] exc span w = (exc, span, w)
block methods (c ∷ calls) exc span w =
    let (raised, span', w') = emit methods (event_of c) span w in
    elim raised [ some e ↦ (some e, span', w') | none ↦ block methods calls exc span' w' ]

module _ {F W : Type 0} (counting : Counting F) (backend : Backend F W) where
  abbrev observed : Span (TraceObserver F) → TraceObserver F → Span (TraceObserver F)
  observed span o = record span { observers = o ∷ [] }

  block-observed :
      (calls : List (Call F)) (exc : Option Exn) (span : Span (TraceObserver F))
      (o : TraceObserver F) (w : W)
      → block (span_methods counting backend) calls exc (observed span o) w
        ≡ (exc, observed span (after_calls counting calls o), w)
  unfolding block emit notify on_event on_set_tag
  block-observed [] exc span o w = rw append-nil refl
  block-observed (set_tag k v ∷ calls) exc span o w =
      block-observed calls exc span (on_set_tag counting k v o) w ∙ simp append_assoc
  block-observed (incr_tag k delta ∷ calls) exc span o w =
      block-observed calls exc span (record o { counters = add_to counting k delta o.counters }) w
  block-observed (log n ∷ calls) exc span o w = block-observed calls exc span o w

  -- the observer that is handed to the recorder
  abbrev ended : Option Exn → ℕ → ℕ → TraceObserver F → TraceObserver F
  ended exc now since o = record o {
    end = some now;
    elapsed = some (sub_ℕ now since);
    binary_annotations = o.binary_annotations ++ end_tags counting o exc;
  }

  finish-observed :
      (exc : Option Exn) (since : ℕ) (span : Span (TraceObserver F)) (o : TraceObserver F) (w : W)
      → o.start ≡ some since
      → let (now, w') = backend.current_epoch_microseconds w in
        finish (span_methods counting backend) exc (observed span o) w ≡ (
          none,
          record span { has_context = false; observers = [] },
          backend.send (ended exc now since o) w',
        )
  unfolding finish notify on_event
  finish-observed exc since span o w s =
      let (now, w') = backend.current_epoch_microseconds w in
      ground (arith, on_finish-started counting exc now since o s)

  module _ (class : ObserverClass) (more : List Annotation) (span : Span (TraceObserver F)) where
    -- A traced span that is entered and left sends one record, when it ends, and whatever ends it
    -- is raised on. The record has the span's identity, the time of the start, the duration, the
    -- tags in the order in which they were set, then those for a timeout, an error and the debug
    -- flag, then the counters; a counter is the sum of the increments of its key.
    pub with_span-Recorded :
        (calls : List (Call F)) (exc : Option Exn) (w : W)
        → let (t₀, w₀) = backend.current_epoch_microseconds w in
          let (t₁, w₁) = backend.current_epoch_microseconds w₀ in
          let counters = counters_after counting calls [] in
          (o : TraceObserver F) × (with_span
              (span_methods counting backend)
              (block (span_methods counting backend) calls exc)
              (observed span (observer_of counting class more span))
              w
            ≡ (exc, record span { has_context = false; observers = [] }, backend.send o w₁))
          × (serialize counting o ≡ record {
            trace_id = span.trace_id;
            name = span.name;
            id = span.id;
            parent_id = or_zero counting span.parent_id;
            timestamp = some t₀;
            duration = some (sub_ℕ t₁ t₀);
            annotations = core_annotations counting class (some t₀) (some t₁);
            binary_annotations =
                component
                ∷ ((more ++ tags_of calls)
                    ++ (timeout_tags class exc
                        ++ (error_tags exc
                            ++ (debug_tags span.flags ++ counter_annotations counting counters))));
          })
          × ((k : Bytes) → total_for k counters ≡ summed counting k calls none)
    unfolding with_span emit notify on_event observer_of serialize
    with_span-Recorded calls exc w =
        let (t₀, w₀) = backend.current_epoch_microseconds w in
        let (t₁, w₁) = backend.current_epoch_microseconds w₀ in
        let started : TraceObserver F = record (observer_of counting class more span) {
          start = some t₀;
        } in
        let used : TraceObserver F = after_calls counting calls started in
        (
          ended exc t₁ t₀ used,
          rw (block-observed calls exc span started w₀)
              (rw (finish-observed exc t₀ span used w₀ refl) refl),
          refl,
          λ k. total_for-counters_after counting k calls [],
        )
