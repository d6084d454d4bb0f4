-- ===== src/Tracing/Tests.antt =====
-- Runs of the tracing observers, and the theorems at concrete inputs. Floats are whole numbers, and
-- the recorder is a list.
use baseplate_py.Prelude.{
  ℕ, ◌+◌, ◌≡◌, refl, true, false, none, some, List, [], ◌∷◌, ◌++◌, codes, decimal, arith,
}
use baseplate_py.Spans.{
  TraceInfo, Span, plain_span, exception, text, with_span, make_server_span, notify_server,
  make_child, notify_child, server_span_of,
}
use baseplate_py.Spans.Lineage.{rooted, makes}
use baseplate_py.Tracing.{
  Counting, Backend, TraceObserver, server_observer, span_methods, observer_for, observer_of,
  on_server_span_created, should_sample, on_child_span_created,
}
use baseplate_py.Tracing.Recording.{set_tag, incr_tag}
use baseplate_py.Tracing.Traced.{block, with_span-Recorded}
use baseplate_py.Tracing.Sampling.{Covered, traced_whole}
use baseplate_py.Tracing.Recorder.{Recorder, IsSound, here, sends, works, send, work, Steps-IsSound}

abbrev counting : Counting ℕ
counting = record { float_zero = 0; add = ◌+◌; str_of = decimal }

-- a clock that moves by 10, and the records
abbrev Log : Type 0
Log = ℕ × List (TraceObserver ℕ)

abbrev backend : Backend ℕ Log
backend = record {
  current_epoch_microseconds = λ w. (w.0, (w.0 + 10, w.1));
  send = λ o w. (w.0, w.1 ++ (o ∷ []));
}

abbrev upstream : TraceInfo
upstream = record { trace_id = 1; parent_id = none; span_id = 1; sampled = some true; flags = none }

abbrev span : Span (TraceObserver ℕ)
span = server_span_of upstream (codes "get")

with_span-Recorded_example :
    (o : TraceObserver ℕ) × (with_span
        (span_methods counting backend)
        (block
          (span_methods counting backend)
          (set_tag (codes "k") (text (codes "v")) ∷ incr_tag (codes "n") 2 ∷ [])
          (some (exception (codes "KeyError"))))
        (record span { observers = observer_of counting server_observer [] span ∷ [] })
        (5, [])
      ≡ (
        some (exception (codes "KeyError")),
        record span { has_context = false; observers = [] },
        (25, o ∷ []),
      ))
with_span-Recorded_example =
    let recorded =
      with_span-Recorded counting backend server_observer [] span
        (set_tag (codes "k") (text (codes "v")) ∷ incr_tag (codes "n") 2 ∷ [])
        (some (exception (codes "KeyError"))) (5, []) in
    (recorded.0, recorded.1)

abbrev untold : Span (TraceObserver ℕ)
untold = record {
  class = plain_span;
  trace_id = 1;
  parent_id = some 1;
  id = 9;
  sampled = some true;
  flags = none;
  name = codes "redis";
  component_name = none;
  has_context = true;
  observers = [];
}

abbrev child : Span (TraceObserver ℕ)
child = record untold { observers = observer_for counting backend untold ∷ [] }

traced_whole_example : Covered true upstream child
unfolding make_server_span notify_server on_server_span_created should_sample observer_of make_child
    notify_child on_child_span_created
traced_whole_example =
    traced_whole counting backend false (codes "get") (some upstream) 7 (0, []) {s = child}
      (makes (codes "redis") false none 9 (0, []) (0, []) rooted refl)

abbrev start_recorder : Recorder ℕ
start_recorder = record {
  max_queue_size = 2;
  max_span_batch = 1;
  span_queue = [];
  batches = [] ∷ [];
  accepted = [];
  flushed = [];
}

start_recorder-IsSound : IsSound start_recorder
start_recorder-IsSound = record {
  conserved = λ p. refl;
  bounded = λ h. omega arith;
  batched = (omega arith, tt);
  posted = tt;
}

Steps-IsSound_example : IsSound (work [] [] [] (send 5 start_recorder))
unfolding send
Steps-IsSound_example = Steps-IsSound start_recorder-IsSound (works [] [] [] (sends 5 here) refl)
