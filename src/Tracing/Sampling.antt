-- ===== src/Tracing/Sampling.antt =====
-- Which spans of a trace are recorded.
use baseplate_py.Prelude.{
  ℕ, ◌≡◌, ◌≢◌, refl, ◌∙◌, Bool, true, false, Option, none, some, List, [], ◌∷◌, map, ◌||◌, ◌++◌,
  if◌then◌else◌, Bytes, arith, inl, inr, Bool-cases, Option-cases, ok,
}
use baseplate_py.Spans.{
  TraceInfo, Span, SpanClass, plain_span, local_span, server_span, Exn, server_timeout,
  base_exception, Event, starts, sets_tag, incrs_tag, logs, finishes, emit, notify, finish,
  make_child, notify_child, child_of, created, make_server_span, notify_server, server_span_of,
  new_trace,
}
use baseplate_py.Spans.Lineage.{Tree, rooted, emits, ends, makes}
use baseplate_py.Tracing.{
  Counting, Backend, ObserverClass, client_observer, server_observer, local_observer, TraceObserver,
  is_debug, on_event, on_finish, on_set_tag, tag_timeout, tag_error, tag_debug, end_at,
  span_methods, baseplate_methods, on_server_span_created, should_sample, on_child_span_created,
  observer_for, observer_of, sent,
}

-- The class of the observer that records a span.
abbrev pub class_for : SpanClass → ObserverClass
class_for plain_span = client_observer
class_for local_span = local_observer
class_for server_span = server_observer

abbrev class_of : {F : Type 0} → TraceObserver F → ObserverClass
class_of o = o.class

-- A span of the trace that is recorded by one observer of its class, or by none.
abbrev pub Covered : {F : Type 0} → Bool → TraceInfo → Span (TraceObserver F) → Type 0
Covered sampled info s =
    (s.trace_id ≡ info.trace_id)
    × (s.flags ≡ info.flags)
    × (s.sampled ≡ some sampled)
    × (s.has_context ≡ true
        → map class_of s.observers ≡ (if sampled then class_for s.class ∷ [] else []))

module _ {F W : Type 0} (counting : Counting F) (backend : Backend F W) where
  tag_timeout-class :
      (c : ObserverClass) (exc : Option Exn) (o : TraceObserver F)
      → (tag_timeout counting c exc o).class ≡ o.class
  unfolding tag_timeout on_set_tag
  tag_timeout-class server_observer (some server_timeout) o = refl
  tag_timeout-class server_observer (some base_exception) o = refl
  tag_timeout-class _ _ o = refl

  tag_error-class :
      (exc : Option Exn) (o : TraceObserver F) → (tag_error counting exc o).class ≡ o.class
  unfolding tag_error on_set_tag
  tag_error-class none o = refl
  tag_error-class (some e) o = refl

  tag_debug-class : (o : TraceObserver F) → (tag_debug counting o).class ≡ o.class
  unfolding tag_debug on_set_tag
  tag_debug-class o = ground arith

  end_at-class : (now : ℕ) (o : TraceObserver F) → (end_at counting now o).1.class ≡ o.class
  unfolding end_at
  end_at-class now o = elim (Option-cases o.start) [
    | inl e ↦ rw (e, end_at) refl
    | inr (t, e) ↦ rw (e, end_at) refl
  ]

  on_finish-class :
      (exc : Option Exn) (now : ℕ) (o : TraceObserver F)
      → (on_finish counting exc now o).1.class ≡ o.class
  unfolding on_finish
  on_finish-class exc now o =
      let first = tag_timeout counting o.class exc o in
      end_at-class now (tag_debug counting (tag_error counting exc first))
      ∙ (tag_debug-class (tag_error counting exc first)
          ∙ (tag_error-class exc first ∙ tag_timeout-class o.class exc o))

  sent-class :
      (r : Option Exn × TraceObserver F) (w : W) → (sent counting backend r w).1.class ≡ r.1.class
  sent-class (some e, o) w = refl
  sent-class (none, o) w = refl

  on_event-class :
      (e : Event F) (o : TraceObserver F) (w : W)
      → (on_event counting backend e o w).1.class ≡ o.class
  unfolding on_event on_set_tag
  on_event-class starts o w = refl
  on_event-class (sets_tag k v) o w = refl
  on_event-class (incrs_tag k delta) o w = refl
  on_event-class (logs n) o w = refl
  on_event-class (finishes exc) o w =
      let (now, w') = backend.current_epoch_microseconds w in
      sent-class (on_finish counting exc now o) w' ∙ on_finish-class exc now o

  notify-classes :
      (e : Event F) (observers : List (TraceObserver F)) (w : W)
      → map class_of (notify (span_methods counting backend) e observers w).1
        ≡ map class_of observers
  unfolding notify
  notify-classes e [] w = refl
  notify-classes e (o ∷ observers) w =
      let (raised, o', w') = on_event counting backend e o w in
      ground (arith, on_event-class e o w, notify-classes e observers w')

  class-observer_for :
      (child : Span (TraceObserver F))
      → child.class ≢ server_span
      → (observer_for counting backend child).class ≡ class_for child.class
  unfolding observer_for observer_of
  class-observer_for child n = ground arith

  notify_child-one :
      (o : TraceObserver F) (child : Span (TraceObserver F)) (w : W)
      → o.class ≢ client_observer
      → notify_child (span_methods counting backend) (o ∷ []) child w ≡ (
        none,
        record child { observers = child.observers ++ (observer_for counting backend child ∷ []) },
        w,
      )
  unfolding notify_child on_child_span_created
  notify_child-one o child w n = ground arith

  parent_class :
      (sampled : Bool) (class : SpanClass) (o : TraceObserver F)
      → class ≢ plain_span
      → map class_of (o ∷ []) ≡ (if sampled then class_for class ∷ [] else [])
      → (sampled ≡ true) × (o.class ≢ client_observer)
  parent_class true class o p h = (refl, ground arith)
  parent_class false class o p h = absurd (ground arith)

  module _ (sampled : Bool) (info : TraceInfo) where
    emit-Covered :
        (e : Event F) (s : Span (TraceObserver F)) (w : W)
        → Covered sampled info s
        → Covered sampled info (emit (span_methods counting backend) e s w).1
    unfolding emit
    emit-Covered e s w (t, f, b, c) = (t, f, b, λ live. notify-classes e s.observers w ∙ c live)

    finish-Covered :
        (exc : Option Exn) (s : Span (TraceObserver F)) (w : W)
        → Covered sampled info s
        → Covered sampled info (finish (span_methods counting backend) exc s w).1
    unfolding finish
    finish-Covered exc s w (t, f, b, c) =
        let (raised, observers, w') =
          notify (span_methods counting backend) (finishes exc) s.observers w in
        elim (Option-cases raised) [
          | inl e ↦ rw (e, finish) (t, f, b, λ live. cc)
          | inr (x, e) ↦
              rw (e, finish) (t, f, b, λ live. notify-classes (finishes exc) s.observers w ∙ c live)
        ]

    -- A parent's observers give a child its one observer, or none.
    notify_child-Covered :
        (observers : List (TraceObserver F)) (class : SpanClass) (child : Span (TraceObserver F))
        (w : W)
        → class ≢ plain_span
        → child.class ≢ server_span
        → child.observers ≡ []
        → map class_of observers ≡ (if sampled then class_for class ∷ [] else [])
        → child.trace_id ≡ info.trace_id
        → child.flags ≡ info.flags
        → child.sampled ≡ some sampled
        → Covered sampled info (notify_child (span_methods counting backend) observers child w).1
    unfolding notify_child
    notify_child-Covered [] class child w p n empty h t f b = (t, f, b, λ live. ground arith)
    notify_child-Covered (o ∷ []) class child w p n empty h t f b =
        let (yes_sampled, not_client) = parent_class sampled class o p h in
        rw (notify_child-one o child w not_client)
          (t, f, b, λ live. ground (arith, class-observer_for child n))
    notify_child-Covered (o ∷ o' ∷ observers) class child w p n empty h t f b =
        absurd (ground arith)

    created-Covered :
        (parent child : Span (TraceObserver F)) (w w' : W)
        (r : Option Exn × Span (TraceObserver F) × W)
        → Covered sampled info r.1
        → created (span_methods counting backend) parent r ≡ (ok child, w')
        → Covered sampled info child
    created-Covered parent child w w' (none, made, w'') c e =
        let same : made ≡ child = cc in rw (← same) c
    created-Covered parent child w w' (some x, made, w'') c e = cc

    child_of_class :
        (s : Span (TraceObserver F)) (name : Bytes) (local : Bool) (component : Option Bytes)
        (id : ℕ)
        → (child_of (span_methods counting backend) s name local component id).class ≢ server_span
    child_of_class s name true component id = λ e. cc
    child_of_class s name false component id = λ e. cc

    make_child-Covered :
        (s child : Span (TraceObserver F)) (name : Bytes) (local : Bool) (component : Option Bytes)
        (id : ℕ) (w w' : W)
        → Covered sampled info s
        → make_child (span_methods counting backend) s name local component id w ≡ (ok child, w')
        → Covered sampled info child
    unfolding make_child
    make_child-Covered s child name local component id w w' (t, f, b, c) e =
        let new = child_of (span_methods counting backend) s name local component id in
        let live : s.has_context ≡ true = ground arith in
        let not_plain : s.class ≢ plain_span = λ plain. ground arith in
        let told : created (span_methods counting backend) s
              (notify_child (span_methods counting backend) s.observers new w)
            ≡ (ok child, w') =
          ground arith in
        created-Covered s child w w'
          (notify_child (span_methods counting backend) s.observers new w)
          (notify_child-Covered s.observers s.class new w not_plain
            (child_of_class s name local component id) refl (c live) t f b)
          told

    Tree-Covered :
        {root s : Span (TraceObserver F)}
        → Covered sampled info root
        → Tree (span_methods counting backend) root s
        → Covered sampled info s
    Tree-Covered c rooted = c
    Tree-Covered c (emits {s} e w w' raised tree eq) =
        rw eq at (emit-Covered e s w (Tree-Covered c tree))
    Tree-Covered c (ends {s} exc w w' raised tree eq) =
        rw eq at (finish-Covered exc s w (Tree-Covered c tree))
    Tree-Covered c (makes {s} {child} name local component id w w' tree eq) =
        make_child-Covered s child name local component id w w' (Tree-Covered c tree) eq

  -- The trace that a server span is made for.
  abbrev pub trace_of : Option TraceInfo → ℕ → TraceInfo
  trace_of none random_id = new_trace random_id
  trace_of (some info) random_id = info

  -- The decision of the upstream service, or the draw where there is none; or the debug flag.
  abbrev pub is_sampled : Bool → TraceInfo → Bool
  is_sampled drawn info =
      (elim info.sampled [ none ↦ drawn | some sampled ↦ sampled ]) || is_debug info.flags

  server_span-Covered :
      (drawn : Bool) (name : Bytes) (info : TraceInfo) (w : W)
      → Covered
          (is_sampled drawn info)
          info
          (notify_server
            (baseplate_methods counting backend)
            (drawn ∷ [])
            (server_span_of info name)
            w).1
  unfolding notify_server on_server_span_created should_sample observer_of
  server_span-Covered drawn name info w = elim (Bool-cases (is_sampled drawn info)) [
    | inl e ↦ ground arith
    | inr e ↦ ground arith
  ]

  -- A trace is recorded whole or not at all. Where the upstream service decided on sampling, it is
  -- as it decided, else as drawn, and the debug flag forces it; and then every span that comes from
  -- the server span, however deep and whatever happened between, has the trace's id and flags and
  -- the decision, and while it is live one observer that records it, of its class, or none.
  pub traced_whole :
      (drawn : Bool) (name : Bytes) (trace_info : Option TraceInfo) (random_id : ℕ) (w : W)
      {s : Span (TraceObserver F)}
      → Tree
          (span_methods counting backend)
          (make_server_span
            (baseplate_methods counting backend)
            (drawn ∷ [])
            name
            trace_info
            random_id
            w).1
          s
      → let info = trace_of trace_info random_id in Covered (is_sampled drawn info) info s
  unfolding make_server_span
  traced_whole drawn name none random_id w tree =
      Tree-Covered (is_sampled drawn (new_trace random_id)) (new_trace random_id)
        (server_span-Covered drawn name (new_trace random_id) w) tree
  traced_whole drawn name (some info) random_id w tree =
      Tree-Covered (is_sampled drawn info) info (server_span-Covered drawn name info w) tree
