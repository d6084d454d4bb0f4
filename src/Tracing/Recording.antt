-- ===== src/Tracing/Recording.antt =====
-- What is recorded of a span, against the calls that were made on it.
use baseplate_py.Prelude.{
  ℕ, ◌≡◌, refl, Option, none, some, List, [], ◌∷◌, ◌++◌, append-nil, append_assoc, if◌then◌else◌,
  Bytes, codes, arith, Bool-cases, inl, inr,
}
use baseplate_py.Prelude.Int.{sub_ℕ}
use baseplate_py.Metrics.{bytes_eq, bytes_eq→eq, bytes_eq_refl}
use baseplate_py.Spans.{
  Exn, server_timeout, base_exception, TagValue, Event, sets_tag, incrs_tag, logs,
}
use baseplate_py.Tracing.{
  Counting, Annotation, ObserverClass, server_observer, TraceObserver, annotation, is_debug,
  on_set_tag, add_to, counter_annotations, tag_timeout, tag_error, tag_debug, end_at, on_finish,
}

-- A call on a span that has started and not finished.
pub data Call (F : Type 0) : Type 0 where
  set_tag : Bytes → TagValue → Call F
  incr_tag : Bytes → F → Call F
  log : Bytes → Call F

abbrev pub event_of : {F : Type 0} → Call F → Event F
event_of (set_tag k v) = sets_tag k v
event_of (incr_tag k delta) = incrs_tag k delta
event_of (log n) = logs n

-- The annotations of the tags, in the order of the calls.
abbrev pub tags_of : {F : Type 0} → List (Call F) → List Annotation
tags_of [] = []
tags_of (set_tag k v ∷ calls) = annotation k v ∷ tags_of calls
tags_of (incr_tag _ _ ∷ calls) = tags_of calls
tags_of (log _ ∷ calls) = tags_of calls

abbrev true_tag : Bytes → Annotation
true_tag k = record { key = k; value = codes "true" }

-- The annotations that `on_finish` adds for how the span ended, and for the debug flag.
abbrev pub timeout_tags : ObserverClass → Option Exn → List Annotation
timeout_tags server_observer (some server_timeout) = true_tag (codes "timed_out") ∷ []
timeout_tags server_observer (some base_exception) = true_tag (codes "timed_out") ∷ []
timeout_tags _ _ = []

abbrev pub error_tags : Option Exn → List Annotation
error_tags none = []
error_tags (some _) = true_tag (codes "error") ∷ []

abbrev pub debug_tags : Option ℕ → List Annotation
debug_tags flags = if is_debug flags then true_tag (codes "debug") ∷ [] else []

abbrev pub total_for : {F : Type 0} → Bytes → List (Bytes × F) → Option F
total_for k [] = none
total_for k ((j, total) ∷ counters) = if bytes_eq j k then some total else total_for k counters

module _ {F : Type 0} (counting : Counting F) where
  abbrev plus : Option F → F → F
  plus none delta = counting.add counting.float_zero delta
  plus (some total) delta = counting.add total delta

  -- The sum of the increments of the tag k, in their order.
  abbrev pub summed : Bytes → List (Call F) → Option F → Option F
  summed k [] total = total
  summed k (set_tag _ _ ∷ calls) total = summed k calls total
  summed k (incr_tag j delta ∷ calls) total =
      summed k calls (if bytes_eq j k then some (plus total delta) else total)
  summed k (log _ ∷ calls) total = summed k calls total

  abbrev pub counters_after : List (Call F) → List (Bytes × F) → List (Bytes × F)
  counters_after [] counters = counters
  counters_after (set_tag _ _ ∷ calls) counters = counters_after calls counters
  counters_after (incr_tag k delta ∷ calls) counters =
      counters_after calls (add_to counting k delta counters)
  counters_after (log _ ∷ calls) counters = counters_after calls counters

  total_for-add_to :
      (k j : Bytes) (delta : F) (counters : List (Bytes × F))
      → total_for k (add_to counting j delta counters)
        ≡ (if bytes_eq j k then some (plus (total_for k counters) delta) else total_for k counters)
  unfolding add_to
  total_for-add_to k j delta [] = ground arith
  total_for-add_to k j delta ((i, total) ∷ counters) = ground (
    arith,
    total_for-add_to k j delta counters,
    bytes_eq→eq i j,
    bytes_eq→eq i k,
    bytes_eq→eq j k,
    bytes_eq_refl k,
    bytes_eq_refl j,
  )

  pub total_for-counters_after :
      (k : Bytes) (calls : List (Call F)) (counters : List (Bytes × F))
      → total_for k (counters_after calls counters) ≡ summed k calls (total_for k counters)
  total_for-counters_after k [] counters = refl
  total_for-counters_after k (set_tag _ _ ∷ calls) counters =
      total_for-counters_after k calls counters
  total_for-counters_after k (incr_tag j delta ∷ calls) counters =
      rw (← total_for-add_to k j delta counters)
        (total_for-counters_after k calls (add_to counting j delta counters))
  total_for-counters_after k (log _ ∷ calls) counters = total_for-counters_after k calls counters

  -- An observer after the calls.
  abbrev pub after_calls : List (Call F) → TraceObserver F → TraceObserver F
  after_calls calls o = record o {
    binary_annotations = o.binary_annotations ++ tags_of calls;
    counters = counters_after calls o.counters;
  }

  abbrev tagged : List Annotation → TraceObserver F → TraceObserver F
  tagged more o = record o { binary_annotations = o.binary_annotations ++ more }

  tag_timeout-tagged :
      (class : ObserverClass) (exc : Option Exn) (o : TraceObserver F)
      → tag_timeout counting class exc o ≡ tagged (timeout_tags class exc) o
  unfolding tag_timeout on_set_tag annotation
  tag_timeout-tagged server_observer (some server_timeout) o = refl
  tag_timeout-tagged server_observer (some base_exception) o = refl
  tag_timeout-tagged _ _ o = rw append-nil refl

  tag_error-tagged :
      (exc : Option Exn) (o : TraceObserver F)
      → tag_error counting exc o ≡ tagged (error_tags exc) o
  unfolding tag_error on_set_tag annotation
  tag_error-tagged none o = rw append-nil refl
  tag_error-tagged (some e) o = refl

  tag_debug-tagged : (o : TraceObserver F) → tag_debug counting o ≡ tagged (debug_tags o.flags) o
  unfolding tag_debug on_set_tag annotation
  tag_debug-tagged o = elim (Bool-cases (is_debug o.flags)) [
    | inl e ↦ rw e refl
    | inr e ↦ rw e (rw append-nil refl)
  ]

  -- The annotations that are added when the span finishes.
  abbrev pub end_tags : TraceObserver F → Option Exn → List Annotation
  end_tags o exc =
      timeout_tags o.class exc
      ++ (error_tags exc ++ (debug_tags o.flags ++ counter_annotations counting o.counters))

  end_at-started :
      (now since : ℕ) (o : TraceObserver F)
      → o.start ≡ some since
      → end_at counting now o ≡ (
        none,
        record o {
          end = some now;
          elapsed = some (sub_ℕ now since);
          binary_annotations = o.binary_annotations ++ counter_annotations counting o.counters;
        },
      )
  unfolding end_at
  end_at-started now since o s = rw s refl

  pub on_finish-started :
      (exc : Option Exn) (now since : ℕ) (o : TraceObserver F)
      → o.start ≡ some since
      → on_finish counting exc now o ≡ (
        none,
        record o {
          end = some now;
          elapsed = some (sub_ℕ now since);
          binary_annotations = o.binary_annotations ++ end_tags o exc;
        },
      )
  unfolding on_finish
  on_finish-started exc now since o s =
      let first : TraceObserver F = tagged (timeout_tags o.class exc) o in
      let second : TraceObserver F = tagged (error_tags exc) first in
      let third : TraceObserver F = tagged (debug_tags o.flags) second in
      rw (tag_timeout-tagged o.class exc o) (
        rw (tag_error-tagged exc first) (
          rw (tag_debug-tagged second) (rw (end_at-started now since third s) (simp append_assoc))))
