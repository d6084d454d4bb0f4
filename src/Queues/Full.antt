-- ===== src/Queues/Full.antt =====
-- How often `EventQueue.put` tries.
use baseplate_py.Prelude.{
  ◌≡◌, refl, ap, ◌∙◌, ℕ, ◌+◌, ◌≤◌, Option, none, some, Result, ok, err, Bytes, arith, length, inl,
  inr, le→leb, le→ltb,
}
use baseplate_py.Retry
use baseplate_py.Retry.{Attempts, budgeted, forever, finished, stop, advance}
use baseplate_py.Retry.Loop.{
  Flow, proceed, leave, LoopEnd, exhausted, left, for_attempts, Flow-cases,
}
use baseplate_py.Sidecars.Events.{max_event_size}
use baseplate_py.Queues.Message.{
  Reply, replied, interrupted, busy, Posix, policy, answer, attempt_send, put,
}
use baseplate_py.Queues.Events.{EventError, event_queue_full, event_result, put_event}

is_over :
    (start now : ℕ)
    → start ≤ now
    → advance (budgeted 0 (some start) forever) now ≡ (stop, finished, now)
unfolding advance
is_over start now h = rw (le→leb (start + 0) now (omega arith))

module _ {S R : Type 0} (body : Option ℕ → S → ℕ → Flow R × S × ℕ) where
  no_time_left :
      (s : S) (start now : ℕ)
      → start ≤ now
      → for_attempts body 1 (budgeted 0 (some start) forever) s now ≡ (exhausted, s, now)
  unfolding for_attempts
  no_time_left s start now h =
      rw (is_over start now h, for_attempts) (ap (λ y. (exhausted, s, y.2)) (is_over start now h))

  -- what is left of the loop after its first turn
  abbrev rest_of_loop : ℕ → Flow R × S × ℕ → LoopEnd R × S × ℕ
  rest_of_loop now (leave r, s, t) = (left r, s, t)
  rest_of_loop now (proceed, s, t) = for_attempts body 1 (budgeted 0 (some now) forever) s t

  first_turn :
      (s : S) (now : ℕ)
      → for_attempts body 2 (budgeted 0 none forever) s now ≡ rest_of_loop now (body (some 0) s now)
  unfolding for_attempts advance
  first_turn s now = elim (Flow-cases (body (some 0) s now).0) [ inl f ↦ rw f | inr (r, f) ↦ rw f ]

  falls_through :
      (s s' : S) (now t : ℕ)
      → body (some 0) s now ≡ (proceed, s', t)
      → now ≤ t
      → for_attempts body 2 (budgeted 0 none forever) s now ≡ (exhausted, s', t)
  falls_through s s' now t e h =
      first_turn s now ∙ ap (rest_of_loop now) e ∙ no_time_left s' now t h

  leaves :
      (s s' : S) (now t : ℕ) (r : R)
      → body (some 0) s now ≡ (leave r, s', t)
      → for_attempts body 2 (budgeted 0 none forever) s now ≡ (left r, s', t)
  leaves s s' now t r e = first_turn s now ∙ ap (rest_of_loop now) e

module _ {S : Type 0} (posix : Posix S) where
  -- one `send`, and one look at the queue if it was busy
  unfoldable pub one_try : Reply (Unit {0}) × S × ℕ → Result EventError (Unit {0}) × (S × ℕ)
  one_try (replied u, s, t) = (ok u, (s, t))
  one_try (interrupted, s, t) = (err event_queue_full, (s, t))
  one_try (busy, s, t) = (err event_queue_full, posix.select (some 0) s t)

  put-one_try :
      (message : Bytes) (s : S) (now : ℕ) (x : Reply (Unit {0}) × S × ℕ)
      → posix.send message s now ≡ x
      → now ≤ x.2
      → x.2 ≤ (posix.select (some 0) x.1 x.2).1
      → let (r, p) = put posix 2 message (some 0) s now in (event_result r, p) ≡ one_try x
  unfolding put policy Retry.new Retry.yield_attempts attempt_send answer one_try
  put-one_try message s now (replied u, s', t) e h k =
      rw (leaves (attempt_send posix message) s s' now t (ok u) (ap (answer posix (some 0)) e))
  put-one_try message s now (interrupted, s', t) e h k =
      rw (falls_through (attempt_send posix message) s s' now t (ap (answer posix (some 0)) e) h)
  put-one_try message s now (busy, s', t) e h k = rw (
      falls_through (attempt_send posix message) s (posix.select (some 0) s' t).0 now
        (posix.select (some 0) s' t).1 (ap (answer posix (some 0)) e) (omega arith))

  -- On a clock that does not go back, `EventQueue.put` of an event that is not too large makes
  -- exactly one attempt to send it, for which it does not wait: it returns if the queue took the
  -- event, and raises EventQueueFullError if the queue was full, but also if the attempt was
  -- interrupted by a signal.
  pub put_event-one_try :
      (message : Bytes) (s : S) (now : ℕ)
      → ((m : Bytes) (s : S) (t : ℕ) → t ≤ (posix.send m s t).2)
      → ((r : Option ℕ) (s : S) (t : ℕ) → t ≤ (posix.select r s t).1)
      → length message ≤ max_event_size
      → put_event posix message s now ≡ one_try (posix.send message s now)
  unfolding put_event
  put_event-one_try message s now send_clock select_clock h =
      rw (le→ltb max_event_size (length message) h) (
        put-one_try message s now (posix.send message s now) refl (send_clock message s now)
          (select_clock (some 0) (posix.send message s now).1 (posix.send message s now).2))
