-- ===== src/Tracing.antt =====
-- baseplate/observers/tracing.py: the observers that record spans in Zipkin's form. Floats, and the
-- bits of a number, are a parameter; a time is a number of microseconds.
pub mod Recording
pub mod Traced
pub mod Sampling
pub mod Recorder
mod Tests
use baseplate_py.Prelude.{
  ℕ, zero, suc, ◌%◌, Bool, true, false, not, ◌||◌, ◌&&◌, Option, none, some, List, [], ◌∷◌, ◌++◌,
  ltb, ◌==◌, if◌then◌else◌, Result, ok, err, Bytes, codes, length,
}
use baseplate_py.Prelude.Int.{ℤ, sub_ℕ}
use baseplate_py.Metrics.{bytes_eq}
use baseplate_py.Spans.{
  Span, SpanClass, plain_span, local_span, server_span, Exn, server_timeout, base_exception,
  type_error, TagValue, bool, text, other, Event, starts, sets_tag, incrs_tag, logs, finishes,
  SpanObserver, BaseplateObserver, register,
}

-- the sums of `on_incr_tag`, and their `str`
pub record Counting (F : Type 0) : Type 0 where
  pub float_zero : F
  pub add : F → F → F
  pub str_of : F → Bytes

-- a binary annotation, less the endpoint, which is the same in all
pub record Annotation : Type 0 where
  pub key : Bytes
  pub value : Bytes

-- TraceSpanObserver, TraceLocalSpanObserver and TraceServerSpanObserver
pub data ObserverClass : Type 0 where
  client_observer server_observer : ObserverClass
  local_observer : ObserverClass

-- What an observer keeps of its span, and what it records of it.
pub record TraceObserver (F : Type 0) : Type 0 where
  pub class : ObserverClass
  pub trace_id : ℕ
  pub parent_id : Option ℕ
  pub id : ℕ
  pub flags : Option ℕ
  pub name : Bytes
  pub start : Option ℕ
  pub end : Option ℕ
  pub elapsed : Option ℤ
  pub binary_annotations : List Annotation
  pub counters : List (Bytes × F)

-- `_create_binary_annotation`: the value as a text
unfoldable pub annotation : Bytes → TagValue → Annotation
annotation k (bool true) = record { key = k; value = codes "true" }
annotation k (bool false) = record { key = k; value = codes "false" }
annotation k (text s) = record { key = k; value = s }
annotation k (other s) = record { key = k; value = s }

-- `flags & FLAGS["DEBUG"]`, which is bit 0
abbrev pub is_debug : Option ℕ → Bool
is_debug none = false
is_debug (some f) = f % 2 == 1

abbrev pub component : Annotation
component = record { key = codes "component"; value = codes "baseplate" }

module _ {F : Type 0} (counting : Counting F) where
  -- the constructor of TraceSpanObserver
  unfoldable pub observer_of :
      {O : Type 0} → ObserverClass → List Annotation → Span O → TraceObserver F
  observer_of class more span = record {
    class = class;
    trace_id = span.trace_id;
    parent_id = span.parent_id;
    id = span.id;
    flags = span.flags;
    name = span.name;
    start = none;
    end = none;
    elapsed = none;
    binary_annotations = component ∷ more;
    counters = [];
  }

  -- `on_set_tag`
  unfoldable pub on_set_tag : Bytes → TagValue → TraceObserver F → TraceObserver F
  unfolding annotation
  on_set_tag k v o = record o { binary_annotations = o.binary_annotations ++ (annotation k v ∷ []) }

  -- `self.counters[key] += delta`
  unfoldable pub add_to : Bytes → F → List (Bytes × F) → List (Bytes × F)
  add_to k delta [] = (k, counting.add counting.float_zero delta) ∷ []
  add_to k delta ((j, total) ∷ counters) =
      if bytes_eq j k
      then (j, counting.add total delta) ∷ counters
      else (j, total) ∷ add_to k delta counters

  -- the annotations of the counters
  unfoldable pub counter_annotations : List (Bytes × F) → List Annotation
  counter_annotations [] = []
  counter_annotations ((k, total) ∷ counters) =
      record { key = codes "counter." ++ k; value = counting.str_of total }
      ∷ counter_annotations counters

  -- `issubclass(ServerTimeout, exc_info[0])`, of the server span's observer
  unfoldable pub tag_timeout : ObserverClass → Option Exn → TraceObserver F → TraceObserver F
  unfolding on_set_tag
  tag_timeout server_observer (some server_timeout) o = on_set_tag (codes "timed_out") (bool true) o
  tag_timeout server_observer (some base_exception) o = on_set_tag (codes "timed_out") (bool true) o
  tag_timeout _ _ o = o

  unfoldable pub tag_error : Option Exn → TraceObserver F → TraceObserver F
  unfolding on_set_tag
  tag_error none o = o
  tag_error (some e) o = on_set_tag (codes "error") (bool true) o

  unfoldable pub tag_debug : TraceObserver F → TraceObserver F
  unfolding on_set_tag
  tag_debug o = if is_debug o.flags then on_set_tag (codes "debug") (bool true) o else o

  abbrev pub finished_at : ℕ → ℕ → TraceObserver F → TraceObserver F
  finished_at now since o = record o {
    end = some now;
    elapsed = some (sub_ℕ now since);
    binary_annotations = o.binary_annotations ++ counter_annotations o.counters;
  }

  -- the rest of `on_finish`, up to the call of the recorder; without a start it raises
  unfoldable pub end_at : ℕ → TraceObserver F → Option Exn × TraceObserver F
  unfolding counter_annotations
  end_at now o = elim o.start [
    | none ↦ (some type_error, record o { end = some now })
    | some since ↦ (none, finished_at now since o)
  ]

  unfoldable pub on_finish : Option Exn → ℕ → TraceObserver F → Option Exn × TraceObserver F
  on_finish exc now o = end_at now (tag_debug (tag_error exc (tag_timeout o.class exc o)))

  -- a JSON object of Zipkin's: its core annotations are pairs of a name and a time
  pub record ZipkinSpan : Type 0 where
    pub trace_id : ℕ
    pub name : Bytes
    pub id : ℕ
    pub parent_id : ℕ
    pub timestamp : Option ℕ
    pub duration : Option ℤ
    pub annotations : List (Bytes × Option ℕ)
    pub binary_annotations : List Annotation

  abbrev pub or_zero : Option ℕ → ℕ
  or_zero none = 0
  or_zero (some n) = n

  abbrev pub core_annotations : ObserverClass → Option ℕ → Option ℕ → List (Bytes × Option ℕ)
  core_annotations client_observer start end = (codes "cs", start) ∷ (codes "cr", end) ∷ []
  core_annotations server_observer start end = (codes "sr", start) ∷ (codes "ss", end) ∷ []
  core_annotations local_observer start end = []

  -- `_serialize`
  unfoldable pub serialize : TraceObserver F → ZipkinSpan
  serialize o = record {
    trace_id = o.trace_id;
    name = o.name;
    id = o.id;
    parent_id = or_zero o.parent_id;
    timestamp = o.start;
    duration = o.elapsed;
    annotations = core_annotations o.class o.start o.end;
    binary_annotations = o.binary_annotations;
  }

-- the clock, and the recorder's `send`
pub record Backend (F W : Type 0) : Type 0 where
  pub current_epoch_microseconds : W → ℕ × W
  pub send : TraceObserver F → W → W

module _ {F W : Type 0} (counting : Counting F) (backend : Backend F W) where
  abbrev pub sent : Option Exn × TraceObserver F → W → Option Exn × TraceObserver F × W
  sent (some e, o) w = (some e, o, w)
  sent (none, o) w = (none, o, backend.send o w)

  unfoldable pub on_event : Event F → TraceObserver F → W → Option Exn × TraceObserver F × W
  unfolding on_set_tag
  on_event starts o w =
      let (now, w') = backend.current_epoch_microseconds w in
      (none, record o { start = some now }, w')
  on_event (sets_tag k v) o w = (none, on_set_tag counting k v o, w)
  on_event (incrs_tag k delta) o w =
      (none, record o { counters = add_to counting k delta o.counters }, w)
  on_event (logs _) o w = (none, o, w)
  on_event (finishes exc) o w =
      let (now, w') = backend.current_epoch_microseconds w in sent (on_finish counting exc now o) w'

  -- the text of a local span's component, which may be None
  abbrev pub component_text : Option Bytes → Bytes
  component_text none = codes "None"
  component_text (some name) = name

  -- the observer that a server or local observer makes for a child, by the child's class
  unfoldable pub observer_for : Span (TraceObserver F) → TraceObserver F
  unfolding observer_of
  observer_for child = elim child.class [
    | plain_span ↦ observer_of counting client_observer [] child
    | _ ↦
        observer_of counting local_observer
          (record { key = codes "lc"; value = component_text child.component_name } ∷ []) child
  ]

  -- `on_child_span_created`; the one of SpanObserver does nothing
  unfoldable pub on_child_span_created :
      Span (TraceObserver F) → TraceObserver F → W → Option Exn × Span (TraceObserver F) × W
  unfolding observer_for
  on_child_span_created child o w = elim o.class [
    | client_observer ↦ (none, child, w)
    | _ ↦ (none, register child (observer_for child), w)
  ]

  abbrev pub span_methods : SpanObserver F (TraceObserver F) W
  span_methods = record { on_event = on_event; on_child_span_created = on_child_span_created }

  -- `should_sample`, of the draw `random.random() < self.sample_rate`
  unfoldable pub should_sample : Bool → Span (TraceObserver F) → Bool
  should_sample drawn span =
      (elim span.sampled [ none ↦ drawn | some sampled ↦ sampled ]) || is_debug span.flags

  -- `on_server_span_created` of TraceBaseplateObserver, which is its draw
  unfoldable pub on_server_span_created :
      Bool → Span (TraceObserver F) → W → Option Exn × Span (TraceObserver F) × W
  on_server_span_created drawn span w =
      if should_sample drawn span
      then (
        none,
        register (record span { sampled = some true })
            (observer_of counting server_observer [] span),
        w,
      )
      else (none, record span { sampled = some false }, w)

  abbrev pub baseplate_methods : BaseplateObserver Bool (TraceObserver F) W
  baseplate_methods = record { on_server_span_created = on_server_span_created }
