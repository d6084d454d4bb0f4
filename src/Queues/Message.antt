-- ===== src/Queues/Message.antt =====
-- baseplate/lib/message_queue.py: `put` and `get` over a POSIX message queue. The queue, of the
-- package posix_ipc, and `select` are a parameter, with a state `S` that holds what they know of
-- the outside.
use baseplate_py.Prelude.{ℕ, Option, none, some, Result, ok, err, Bytes}
use baseplate_py.Prelude.Int.{pos}
use baseplate_py.Retry
use baseplate_py.Retry.{Attempts, iterate}
use baseplate_py.Retry.Loop.{
  Flow, proceed, leave, LoopEnd, exhausted, left, unfinished, for_attempts,
}

-- how `send` or `receive` ends: SignalError is `interrupted`, BusyError is `busy`
pub data Reply {ℓ} (A : Type ℓ) : Type ℓ where
  replied : A → Reply A
  interrupted : Reply A
  busy : Reply A

-- Each operation takes the time at which it begins and gives the one at which it ends.
pub record Posix (S : Type 0) : Type 0 where
  pub send : Bytes → S → ℕ → Reply (Unit {0}) × S × ℕ
  pub receive : S → ℕ → Reply Bytes × S × ℕ
  -- `select.select`, until the queue is ready or the time remaining has passed
  pub select : Option ℕ → S → ℕ → S × ℕ

pub data QueueError : Type 0 where
  timed_out : QueueError
  out_of_fuel : QueueError

-- `RetryPolicy.new(budget=timeout)`
unfoldable pub policy : Option ℕ → Attempts
policy none = Retry.yield_attempts Retry.indefinite
policy (some timeout) = iterate (Retry.new none (some (pos timeout)) none)

module _ {S : Type 0} (posix : Posix S) where
  -- what one turn of the loop does after `send` or `receive`
  unfoldable pub answer :
      {A : Type 0} → Option ℕ → Reply A × S × ℕ → Flow (Result QueueError A) × S × ℕ
  answer remaining (replied a, s, t) = (leave (ok a), s, t)
  answer remaining (interrupted, s, t) = (proceed, s, t)
  answer remaining (busy, s, t) = let (s', t') = posix.select remaining s t in (proceed, s', t')

  abbrev pub ended :
      {A : Type 0} → LoopEnd (Result QueueError A) × S × ℕ → Result QueueError A × (S × ℕ)
  ended (exhausted, s, t) = (err timed_out, (s, t))
  ended (left r, s, t) = (r, (s, t))
  ended (unfinished, s, t) = (err out_of_fuel, (s, t))

  unfoldable pub attempt_send :
      Bytes → Option ℕ → S → ℕ → Flow (Result QueueError (Unit {0})) × S × ℕ
  unfolding answer
  attempt_send message remaining s now = answer remaining (posix.send message s now)

  unfoldable pub attempt_receive : Option ℕ → S → ℕ → Flow (Result QueueError Bytes) × S × ℕ
  unfolding answer
  attempt_receive remaining s now = answer remaining (posix.receive s now)

  -- `put`, with fuel for the loop: without a timeout it can go on forever
  unfoldable pub put : ℕ → Bytes → Option ℕ → S → ℕ → Result QueueError (Unit {0}) × (S × ℕ)
  unfolding policy
  put fuel message timeout s now =
      ended (for_attempts (attempt_send message) fuel (policy timeout) s now)

  -- `get`
  unfoldable pub get : ℕ → Option ℕ → S → ℕ → Result QueueError Bytes × (S × ℕ)
  unfolding policy
  get fuel timeout s now = ended (for_attempts attempt_receive fuel (policy timeout) s now)
