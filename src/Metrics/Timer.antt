-- ===== src/Metrics/Timer.antt =====
-- A timer's life: `start`, `update_tags` and `stop`, with the assertions between them.
use baseplate_py.Prelude.{
  ℕ, ◌+◌, ◌≤◌, ◌≡◌, Bool, true, false, not, Option, none, some, List, [], ◌∷◌, ◌++◌, if◌then◌else◌,
  Result, ok, err, Bytes, arith, inl, inr, length, length-append, Option-cases, Result-cases,
}
use baseplate_py.Metrics.{Floats, Tags, MetricError, assertion_error, bytes_eq, timer_line}

module _ {F : Type 0} (floats : Floats F) where
  pub record Timer : Type 0 where
    pub name : Bytes
    pub tags : Tags
    pub start_time : Option F
    pub stopped : Bool
    pub sample_rate : F

  unfoldable pub new_timer : Bytes → Tags → Timer
  new_timer name tags = record {
    name = name;
    tags = tags;
    start_time = none;
    stopped = false;
    sample_rate = floats.float_one;
  }

  -- the truth value of `start_time`
  abbrev pub is_started : Option F → Bool
  is_started none = false
  is_started (some t) = not (floats.same t floats.float_zero)

  -- `d[k] = v`, and `d.update(e)`
  unfoldable pub set_tag : Bytes → Bytes → Tags → Tags
  set_tag k v [] = (k, v) ∷ []
  set_tag k v ((j, w) ∷ tags) = if bytes_eq j k then (j, v) ∷ tags else (j, w) ∷ set_tag k v tags

  unfoldable pub update_tags_of : Tags → Tags → Tags
  update_tags_of tags [] = tags
  update_tags_of tags ((k, v) ∷ more) = update_tags_of (set_tag k v tags) more

  -- A call with the clock's reading, and what it does: the timer, and the lines that it sends.
  pub data Call : Type 0 where
    start : F → F → Call
    stop : F → Call
    update_tags : Tags → Call
    send : F → F → Call

  unfoldable pub call : Call → Timer → Result MetricError (Timer × List Bytes)
  call (start rate now) t =
      if is_started t.start_time
      then err assertion_error
      else if t.stopped
      then err assertion_error
      else ok (record t { sample_rate = rate; start_time = some now }, [])
  call (stop now) t = elim t.start_time [
    | none ↦ err assertion_error
    | some since ↦
        if floats.same since floats.float_zero
        then err assertion_error
        else if t.stopped
        then err assertion_error
        else ok (
          record t { stopped = true },
          timer_line floats t.name t.tags (floats.minus now since) t.sample_rate ∷ [],
        )
  ]
  call (update_tags tags) t =
      if t.stopped
      then err assertion_error
      else ok (record t { tags = update_tags_of t.tags tags }, [])
  call (send elapsed rate) t = ok (t, timer_line floats t.name t.tags elapsed rate ∷ [])

  -- Calls one after another, where one that raises is given up, and the lines that they sent.
  unfoldable pub run_calls : List Call → Timer → Timer × List Bytes
  run_calls [] t = (t, [])
  run_calls (c ∷ calls) t = elim (call c t) [
    | ok (t', lines) ↦ let (t'', more) = run_calls calls t' in (t'', lines ++ more)
    | err e ↦ run_calls calls t
  ]

  abbrev pub NoSends : List Call → Type 0
  NoSends [] = Unit
  NoSends (send elapsed rate ∷ calls) = ⊥
  NoSends (c ∷ calls) = NoSends calls

  abbrev pub one_if : Bool → ℕ
  one_if true = 1
  one_if false = 0

  call-lines :
      (c : Call) (t t' : Timer) (lines : List Bytes)
      → NoSends (c ∷ [])
      → call c t ≡ ok (t', lines)
      → length lines + one_if t.stopped ≡ one_if t'.stopped
  unfolding call
  call-lines (start rate now) t t' lines h e = ground arith
  call-lines (stop now) t t' lines h e = elim (Option-cases t.start_time) [
    | inl never ↦ absurd (ground arith)
    | inr (since, s) ↦ ground arith
  ]
  call-lines (update_tags tags) t t' lines h e = ground arith
  call-lines (send elapsed rate) t t' lines h e = absurd h

  NoSends-head :
      (c : Call) (calls : List Call) → NoSends (c ∷ calls) → NoSends (c ∷ []) × NoSends calls
  NoSends-head (start rate now) calls h = (tt, h)
  NoSends-head (stop now) calls h = (tt, h)
  NoSends-head (update_tags tags) calls h = (tt, h)
  NoSends-head (send elapsed rate) calls h = absurd h

  run_calls-lines :
      (calls : List Call) (t : Timer)
      → NoSends calls
      → length (run_calls calls t).1 + one_if t.stopped ≡ one_if (run_calls calls t).0.stopped
  unfolding run_calls
  run_calls-lines [] t h = omega arith
  run_calls-lines (c ∷ calls) t h =
      let (first, rest) = NoSends-head c calls h in
      elim (Result-cases (call c t)) [
        | inl ((t', lines), e) ↦
            rw (e, run_calls)
              (ground (
                arith,
                call-lines c t t' lines first e,
                run_calls-lines calls t' rest,
                length-append {0} lines (run_calls calls t').1,
              ))
        | inr (x, e) ↦ rw (e, run_calls) (run_calls-lines calls t rest)
      ]

  -- However a timer is used, but for `send`, it reports at most once, and it has reported exactly
  -- when it is stopped.
  pub reported_once :
      (name : Bytes) (tags : Tags) (calls : List Call)
      → NoSends calls
      → let (t, lines) = run_calls calls (new_timer name tags) in
        (length lines ≡ one_if t.stopped) × (length lines ≤ 1)
  unfolding new_timer
  reported_once name tags calls h =
      let counted = run_calls-lines calls (new_timer name tags) h in
      (omega (arith, counted), ground (arith, counted))
