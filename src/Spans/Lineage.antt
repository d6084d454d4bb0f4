-- ===== src/Spans/Lineage.antt =====
-- Trace information from upstream, and the tree of spans that grows from a server span.
use baseplate_py.Prelude.{
  ℕ, ◌^◌, ◌<◌, ◌≡◌, ◌↔◌, refl, Bool, Option, none, some, ltb, ok, Bytes, arith, inl, inr,
  Bool-cases, first_ok,
}
use baseplate_py.Prelude.Int.{ℤ, pos, negsuc}
use baseplate_py.Spans.{
  TraceInfo, ValueError, invalid_trace_id, invalid_span_id, invalid_parent_id, SampledArgument,
  absent, flag, not_bool, from_upstream, Span, Exn, Event, SpanObserver, emit, finish, make_child,
  in_64_bits, required, check_sampled, check_flags,
}

abbrev pub sampled_argument : Option Bool → SampledArgument
sampled_argument none = absent
sampled_argument (some b) = flag b

abbrev pub signed : Option ℕ → Option ℤ
signed none = none
signed (some n) = some (pos n)

abbrev pub Fits : Option ℕ → Type 0
Fits none = Unit
Fits (some n) = n < 2 ^ 64

-- Headers that are in range: each of the three ids is there, and no number is 2 ^ 64 or more.
pub record IsUpstream (info : TraceInfo) : Type 0 where
  pub trace : info.trace_id < 2 ^ 64
  pub span : info.span_id < 2 ^ 64
  pub parent : (p : ℕ) × (info.parent_id ≡ some p) × (p < 2 ^ 64)
  pub flags : Fits info.flags

in_64_bits-ok :
    (e : ValueError) (z : ℤ) (n : ℕ) → in_64_bits e z ≡ ok n → (z ≡ pos n) × (n < 2 ^ 64)
in_64_bits-ok e (pos m) n h = (ground arith, ground arith)
in_64_bits-ok e (negsuc m) n h = cc

required-ok :
    (e : ValueError) (o : Option ℤ) (n : ℕ)
    → required e o ≡ ok n
    → (o ≡ some (pos n)) × (n < 2 ^ 64)
required-ok e none n h = cc
required-ok e (some z) n h = let (same, small) = in_64_bits-ok e z n h in (rw same refl, small)

check_sampled-ok :
    (a : SampledArgument) (b : Option Bool) → check_sampled a ≡ ok b → a ≡ sampled_argument b
check_sampled-ok absent b h = let same : none ≡ b = cc in rw (← same) refl
check_sampled-ok (flag c) b h = let same : some c ≡ b = cc in rw (← same) refl
check_sampled-ok not_bool b h = cc

check_flags-ok : (o : Option ℤ) (f : Option ℕ) → check_flags o ≡ ok f → (o ≡ signed f) × Fits f
check_flags-ok none f h = let same : none ≡ f = cc in (rw (← same) refl, rw (← same) tt)
check_flags-ok (some (pos n)) f h = elim (Bool-cases (ltb n (2 ^ 64))) [
  | inl small ↦
      let same : some n ≡ f = ground arith in (rw (← same) refl, rw (← same) (ground arith))
  | inr large ↦ absurd (ground arith)
]
check_flags-ok (some (negsuc n)) f h = cc

-- What `from_upstream` accepts, it takes as it is, and all of it is in range.
from_upstream-IsUpstream :
    (t p s : Option ℤ) (b : SampledArgument) (f : Option ℤ) (info : TraceInfo)
    → from_upstream t p s b f ≡ ok info
    → IsUpstream info
      × (t ≡ some (pos info.trace_id))
      × (p ≡ signed info.parent_id)
      × (s ≡ some (pos info.span_id))
      × (b ≡ sampled_argument info.sampled)
      × (f ≡ signed info.flags)
unfolding from_upstream
from_upstream-IsUpstream t p s b f info h =
    let (t', et, ht) = first_ok (required invalid_trace_id t) _ h in
    let (s', es, hs) = first_ok (required invalid_span_id s) _ ht in
    let (p', ep, hp) = first_ok (required invalid_parent_id p) _ hs in
    let (b', eb, hb) = first_ok (check_sampled b) _ hp in
    let (f', ef, hf) = first_ok (check_flags f) _ hb in
    let made : TraceInfo = record {
      trace_id = t';
      parent_id = some p';
      span_id = s';
      sampled = b';
      flags = f';
    } in
    let same : made ≡ info = cc in
    let (rt, bt) = required-ok invalid_trace_id t t' et in
    let (rs, bs) = required-ok invalid_span_id s s' es in
    let (rp, bp) = required-ok invalid_parent_id p p' ep in
    let (rf, bf) = check_flags-ok f f' ef in
    rw (← same) (
      record { trace = bt; span = bs; parent = (p', refl, bp); flags = bf },
      rt,
      rp,
      rs,
      check_sampled-ok b b' eb,
      rf,
    )

required-pos : (e : ValueError) (n : ℕ) → n < 2 ^ 64 → required e (some (pos n)) ≡ ok n
required-pos e n h = ground arith

check_flags-signed : (f : Option ℕ) → Fits f → check_flags (signed f) ≡ ok f
check_flags-signed none h = refl
check_flags-signed (some n) h = ground arith

check_sampled-argument : (b : Option Bool) → check_sampled (sampled_argument b) ≡ ok b
check_sampled-argument none = refl
check_sampled-argument (some b) = refl

-- The headers of a trace that is in range, with a parent, give that trace back; and no others are
-- accepted: what `from_upstream` gives is in range, and the arguments are its headers.
pub from_upstream_exact :
    (t p s : Option ℤ) (b : SampledArgument) (f : Option ℤ) (info : TraceInfo)
    → (from_upstream t p s b f ≡ ok info) ↔ (
        IsUpstream info
        × (t ≡ some (pos info.trace_id))
        × (p ≡ signed info.parent_id)
        × (s ≡ some (pos info.span_id))
        × (b ≡ sampled_argument info.sampled)
        × (f ≡ signed info.flags))
unfolding from_upstream
from_upstream_exact t p s b f info = (
  from_upstream-IsUpstream t p s b f info,
  λ (up, et, ep, es, eb, ef).
      let (parent, at, small) = up.parent in
      rw et (
        rw es (
          rw ep (
            rw eb (
              rw ef (
                rw at (
                  rw (required-pos invalid_trace_id info.trace_id up.trace) (
                    rw (required-pos invalid_span_id info.span_id up.span) (
                      rw (required-pos invalid_parent_id parent small) (
                        rw (check_sampled-argument info.sampled)
                          (rw (check_flags-signed info.flags up.flags) refl)))))))))),
)

-- The two spans belong to one trace, and agree on what is passed downstream.
abbrev pub SameTrace : {O : Type 0} → Span O → Span O → Type 0
SameTrace s t = (s.trace_id ≡ t.trace_id) × (s.sampled ≡ t.sampled) × (s.flags ≡ t.flags)

module _ {F O W : Type 0} (methods : SpanObserver F O W) where
  -- The spans that come from a root by calls on spans, and by children of children.
  pub data Tree (root : Span O) : Span O → Type 0 where
    rooted : Tree root root
    emits :
        {s s' : Span O} (e : Event F) (w w' : W) (raised : Option Exn)
        → Tree root s
        → emit methods e s w ≡ (raised, s', w')
        → Tree root s'
    ends :
        {s s' : Span O} (exc : Option Exn) (w w' : W) (raised : Option Exn)
        → Tree root s
        → finish methods exc s w ≡ (raised, s', w')
        → Tree root s'
    makes :
        {s child : Span O} (name : Bytes) (local : Bool) (component : Option Bytes) (id : ℕ)
        (w w' : W)
        → Tree root s
        → make_child methods s name local component id w ≡ (ok child, w')
        → Tree root child
