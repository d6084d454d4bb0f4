-- ===== src/Spans.antt =====
-- baseplate/__init__.py: trace information, spans, and the observers that follow them. An observer
-- is a value of a type `O`, which its span holds, and has effects on a state `W` that observers
-- share; the classes of observers are a parameter here.
pub mod Lineage
mod Tests
use baseplate_py.Prelude.{
  ℕ, ◌^◌, ◌<◌, Bool, true, false, Option, none, some, List, [], ◌∷◌, ◌++◌, ltb, if◌then◌else◌,
  Result, ok, err, ◌>>=◌, Bytes,
}
use baseplate_py.Prelude.Int.{ℤ, pos, negsuc}

pub record TraceInfo : Type 0 where
  pub trace_id : ℕ
  pub parent_id : Option ℕ
  pub span_id : ℕ
  pub sampled : Option Bool
  pub flags : Option ℕ

pub data ValueError : Type 0 where
  invalid_trace_id invalid_span_id invalid_parent_id invalid_sampled invalid_flags : ValueError

-- `not 0 <= n < 2 ** 64`, or the number
abbrev pub in_64_bits : ValueError → ℤ → Result ValueError ℕ
in_64_bits e (pos n) = if ltb n (2 ^ 64) then ok n else err e
in_64_bits e (negsuc _) = err e

abbrev pub required : ValueError → Option ℤ → Result ValueError ℕ
required e none = err e
required e (some n) = in_64_bits e n

-- what a caller may pass for `sampled`
pub data SampledArgument : Type 0 where
  absent : SampledArgument
  flag : Bool → SampledArgument
  not_bool : SampledArgument

abbrev pub check_sampled : SampledArgument → Result ValueError (Option Bool)
check_sampled absent = ok none
check_sampled (flag b) = ok (some b)
check_sampled not_bool = err invalid_sampled

abbrev pub check_flags : Option ℤ → Result ValueError (Option ℕ)
check_flags none = ok none
check_flags (some n) = in_64_bits invalid_flags n >>= λ f. ok (some f)

-- `TraceInfo.new`, of the random number
unfoldable pub new_trace : ℕ → TraceInfo
new_trace random_id = record {
  trace_id = random_id;
  parent_id = none;
  span_id = random_id;
  sampled = none;
  flags = none;
}

-- `TraceInfo.from_upstream`
unfoldable pub from_upstream :
    Option ℤ → Option ℤ → Option ℤ → SampledArgument → Option ℤ → Result ValueError TraceInfo
from_upstream trace_id parent_id span_id sampled flags = do
  t ← required invalid_trace_id trace_id
  s ← required invalid_span_id span_id
  p ← required invalid_parent_id parent_id
  b ← check_sampled sampled
  f ← check_flags flags
  ok (record { trace_id = t; parent_id = some p; span_id = s; sampled = b; flags = f })

-- Span, LocalSpan and ServerSpan
pub data SpanClass : Type 0 where
  plain_span local_span server_span : SpanClass

pub record Span (O : Type 0) : Type 0 where
  pub class : SpanClass
  pub trace_id : ℕ
  pub parent_id : Option ℕ
  pub id : ℕ
  pub sampled : Option Bool
  pub flags : Option ℕ
  pub name : Bytes
  pub component_name : Option Bytes
  -- whether `context` is not None
  pub has_context : Bool
  pub observers : List O

-- What ends a block: a ServerTimeout, a bare BaseException, or another class, by its name.
pub data Exn : Type 0 where
  server_timeout base_exception : Exn
  attribute_error not_implemented type_error : Exn
  exception : Bytes → Exn

-- the value of a tag: a Boolean, a text, or another by its `str`
pub data TagValue : Type 0 where
  bool : Bool → TagValue
  text : Bytes → TagValue
  other : Bytes → TagValue

-- the calls of a span that its observers are told of
pub data Event (F : Type 0) : Type 0 where
  starts : Event F
  sets_tag : Bytes → TagValue → Event F
  incrs_tag : Bytes → F → Event F
  logs : Bytes → Event F
  finishes : Option Exn → Event F

-- a class of observers; a method may raise
pub record SpanObserver (F O W : Type 0) : Type 0 where
  pub on_event : Event F → O → W → Option Exn × O × W
  pub on_child_span_created : Span O → O → W → Option Exn × Span O × W

abbrev pub register : {O : Type 0} → Span O → O → Span O
register span observer = record span { observers = span.observers ++ (observer ∷ []) }

module _ {F O W : Type 0} (methods : SpanObserver F O W) where
  -- `for observer in self.observers:`, up to one that raises
  unfoldable pub notify : Event F → List O → W → Option Exn × List O × W
  notify event [] w = (none, [], w)
  notify event (o ∷ observers) w =
      let (raised, o', w') = methods.on_event event o w in
      elim raised [
        | some e ↦ (some e, o' ∷ observers, w')
        | none ↦ let (raised', rest, w'') = notify event observers w' in (raised', o' ∷ rest, w'')
      ]

  -- `start`, `set_tag`, `incr_tag` and `log`
  unfoldable pub emit : Event F → Span O → W → Option Exn × Span O × W
  emit event span w =
      let (raised, observers, w') = notify event span.observers w in
      (raised, record span { observers = observers }, w')

  -- `finish`: where an observer raises, the span is not cleaned up
  unfoldable pub finish : Option Exn → Span O → W → Option Exn × Span O × W
  finish exc span w =
      let (raised, observers, w') = notify (finishes exc) span.observers w in
      elim raised [
        | some e ↦ (some e, record span { observers = observers }, w')
        | none ↦ (none, record span { has_context = false; observers = [] }, w')
      ]

  -- what `__exit__` leaves to be raised
  abbrev pub leave : Option Exn → Option Exn × Span O × W → Option Exn × Span O × W
  leave exc (some e, span, w) = (some e, span, w)
  leave exc (none, span, w) = (exc, span, w)

  -- `with span:` around a body
  unfoldable pub with_span :
      (Span O → W → Option Exn × Span O × W) → Span O → W → Option Exn × Span O × W
  unfolding emit
  with_span body span w =
      let (raised, span', w') = emit starts span w in
      elim raised [
        | some e ↦ (some e, span', w')
        | none ↦ let (exc, span'', w'') = body span' w' in leave exc (finish exc span'' w'')
      ]

  abbrev pub created : Span O → Option Exn × Span O × W → Result Exn (Span O) × W
  created parent (some e, child, w) = (err e, w)
  created parent (none, child, w) = (ok child, w)

  -- the observers are told of a child, in their order
  unfoldable pub notify_child : List O → Span O → W → Option Exn × Span O × W
  notify_child [] child w = (none, child, w)
  notify_child (o ∷ observers) child w =
      let (raised, child', w') = methods.on_child_span_created child o w in
      elim raised [ some e ↦ (some e, child', w') | none ↦ notify_child observers child' w' ]

  -- the child of `make_child`, before the observers are told
  abbrev pub child_of : Span O → Bytes → Bool → Option Bytes → ℕ → Span O
  child_of span name local component_name span_id = record {
    class = if local then local_span else plain_span;
    trace_id = span.trace_id;
    parent_id = some span.id;
    id = span_id;
    sampled = span.sampled;
    flags = span.flags;
    name = name;
    component_name = if local then component_name else none;
    has_context = true;
    observers = [];
  }

  -- `make_child`, with the random number for the child's id
  unfoldable pub make_child : Span O → Bytes → Bool → Option Bytes → ℕ → W → Result Exn (Span O) × W
  make_child span name local component_name span_id w = elim span.class [
    | plain_span ↦ (err not_implemented, w)
    | _ ↦
        if span.has_context
        then created span
            (notify_child span.observers (child_of span name local component_name span_id) w)
        else (err attribute_error, w)
  ]

-- a class of the observers that are registered on Baseplate
pub record BaseplateObserver (B O W : Type 0) : Type 0 where
  pub on_server_span_created : B → Span O → W → Option Exn × Span O × W

-- the server span before the observers are told
abbrev pub server_span_of : {O : Type 0} → TraceInfo → Bytes → Span O
server_span_of info name = record {
  class = server_span;
  trace_id = info.trace_id;
  parent_id = info.parent_id;
  id = info.span_id;
  sampled = info.sampled;
  flags = info.flags;
  name = name;
  component_name = none;
  has_context = true;
  observers = [];
}

module _ {B O W : Type 0} (methods : BaseplateObserver B O W) where
  unfoldable pub notify_server : List B → Span O → W → Option Exn × Span O × W
  notify_server [] span w = (none, span, w)
  notify_server (b ∷ observers) span w =
      let (raised, span', w') = methods.on_server_span_created b span w in
      elim raised [ some e ↦ (some e, span', w') | none ↦ notify_server observers span' w' ]

  -- `Baseplate.make_server_span`, with the random number for a new trace
  unfoldable pub make_server_span :
      List B → Bytes → Option TraceInfo → ℕ → W → Option Exn × Span O × W
  unfolding new_trace
  make_server_span observers name trace_info random_id w = elim trace_info [
    | none ↦ notify_server observers (server_span_of (new_trace random_id) name) w
    | some info ↦ notify_server observers (server_span_of info name) w
  ]
