-- ===== src/Queues/Events.antt =====
-- baseplate/lib/events.py: `EventQueue.put`, of an event that was serialized.
use baseplate_py.Prelude.{ℕ, some, Result, ok, err, Bytes, length, ltb, if◌then◌else◌}
use baseplate_py.Queues.Message.{Posix, QueueError, timed_out, out_of_fuel, put}
use baseplate_py.Sidecars.Events.{max_event_size}

pub data EventError : Type 0 where
  event_too_large : (size : ℕ) → EventError
  event_queue_full : EventError
  out_of_fuel_error : EventError

-- TimedOutError becomes EventQueueFullError
abbrev pub event_result : Result QueueError (Unit {0}) → Result EventError (Unit {0})
event_result (ok u) = ok u
event_result (err timed_out) = err event_queue_full
event_result (err out_of_fuel) = err out_of_fuel_error

module _ {S : Type 0} (posix : Posix S) where
  -- `put`: with no time to wait, two turns of the loop are enough
  unfoldable pub put_event : Bytes → S → ℕ → Result EventError (Unit {0}) × (S × ℕ)
  unfolding put
  put_event serialized s now =
      let (r, rest) = put posix 2 serialized (some 0) s now in
      if ltb max_event_size (length serialized)
      then (err (event_too_large (length serialized)), (s, now))
      else (event_result r, rest)
