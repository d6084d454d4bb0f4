-- ===== src/ThriftPool.antt =====
-- baseplate/lib/thrift_pool.py: the pool of Thrift connections. The transports, of the package
-- thrift, are a parameter, with a state `W` that holds what they know of the outside and the clock.
-- A transport is named by a number, the identity of its object.
pub mod Create
pub mod Connect
pub mod Exit
pub mod Ownership
mod Tests
use baseplate_py.Prelude.{
  ℕ, suc, ◌+◌, ◌-◌, Bool, true, false, not, ◌||◌, Option, none, some, List, [], ◌∷◌, ltb, length,
  replicate, if◌then◌else◌, Result, ok, err, ◌>>=◌, zero,
}
use baseplate_py.Prelude.Int.{ℤ, pos, negsuc}
use baseplate_py.Retry
use baseplate_py.Retry.{Attempts, iterate}
use baseplate_py.Retry.Loop.{
  Flow, proceed, leave, LoopEnd, exhausted, left, unfinished, for_attempts,
}

-- TTransportException's types
pub data TransportType : Type 0 where
  unknown not_open timed_out : TransportType

-- What the pool and the client's code raise. `thrift_exception` is a TException that is none of
-- the three above it, `other_exception` is anything that is not a TException, and a run out of
-- fuel is shown as one more.
pub data Error : Type 0 where
  transport_exception : TransportType → Error
  application_exception protocol_exception : ℕ → Error
  thrift_exception : ℕ → Error
  socket_timeout : Error
  socket_error : ℕ → Error
  other_exception : ℕ → Error
  out_of_fuel : Error

-- how `open` ends: `refused` is a TTransportException, `failed` is no TException
pub data OpenReply : Type 0 where
  opened refused : OpenReply
  failed : ℕ → OpenReply

pub record Thrift (W : Type 0) : Type 0 where
  pub open_transport : ℕ → W → OpenReply × W
  pub is_open : ℕ → W → Bool
  pub close : ℕ → W → W
  pub time : W → ℕ

-- The outside, and the identity that the next new transport gets.
pub record Heap (W : Type 0) : Type 0 where
  pub next : ℕ
  pub outside : W

-- a TProtocolBase: its transport and its `baseplate_birthdate`
pub record Prot : Type 0 where
  pub trans : ℕ
  pub birthdate : ℕ

pub record Pool : Type 0 where
  pub max_age : ℕ
  pub retry_policy : Attempts
  pub size : ℕ
  -- `pool`, the LIFO queue, its top first
  pub slots : List (Option Prot)

pub data PoolError : Type 0 where
  mixed_arguments : PoolError

-- `max_connection_attempts` after the renaming of `max_retries`; 0 is falsy
unfoldable pub attempts_of : Option ℤ → Option ℤ → Result PoolError ℤ
attempts_of none none = ok (pos 3)
attempts_of none (some (pos zero)) = ok (pos 3)
attempts_of (some (pos zero)) none = ok (pos 3)
attempts_of (some (pos zero)) (some (pos zero)) = ok (pos 3)
attempts_of none (some r) = ok r
attempts_of (some (pos zero)) (some r) = ok r
attempts_of (some a) none = ok a
attempts_of (some a) (some (pos zero)) = ok a
attempts_of (some a) (some r) = err mixed_arguments

-- `__init__`
unfoldable pub new : ℕ → ℕ → Option ℤ → Option ℤ → Result PoolError Pool
unfolding attempts_of
new size max_age max_connection_attempts max_retries =
    attempts_of max_connection_attempts max_retries >>= λ attempts. ok (record {
      max_age = max_age;
      retry_policy = iterate (Retry.new (some attempts) none none);
      size = size;
      slots = replicate size none;
    })

-- `checkedout`
unfoldable pub checkedout : Pool → ℕ
checkedout p = p.size - length p.slots

-- `_get_from_pool`. A queue that is empty is one that stayed empty until the timeout.
take_top : Pool → List (Option Prot) → Result Error (Option Prot × Pool)
take_top p [] = err (transport_exception not_open)
take_top p (prot ∷ slots) = ok (prot, record p { slots = slots })

unfoldable pub get_from_pool : Pool → Result Error (Option Prot × Pool)
unfolding take_top
get_from_pool p = take_top p p.slots

-- the client's exception as the inner `try` re-raises it
unfoldable pub rewrap : Error → Error
rewrap socket_timeout = transport_exception timed_out
rewrap (socket_error _) = transport_exception unknown
rewrap e = e

-- whether the `except` clauses close the connection
unfoldable pub closes : Error → Bool
closes (thrift_exception _) = false
closes _ = true

module _ {W : Type 0} (thrift : Thrift W) where
  -- one attempt to connect
  unfoldable pub connect : Option ℕ → Heap W → ℕ → Flow (Result Error Prot) × (Heap W) × ℕ
  connect _ h _ =
      let (reply, w) = thrift.open_transport h.next h.outside in
      let h' : Heap W = record { next = suc h.next; outside = w } in
      elim reply [
        | opened ↦
            let prot : Prot = record { trans = h.next; birthdate = thrift.time w } in
            (leave (ok prot), h', thrift.time w)
        | refused ↦ (proceed, h', thrift.time w)
        | failed e ↦ (leave (err (other_exception e)), h', thrift.time w)
      ]

  abbrev pub ended : LoopEnd (Result Error Prot) × (Heap W) × ℕ → Result Error Prot × Heap W
  ended (exhausted, h, _) = (err (transport_exception not_open), h)
  ended (left r, h, _) = (r, h)
  ended (unfinished, h, _) = (err out_of_fuel, h)

  -- `_create_connection`, with fuel for the loop
  unfoldable pub create_connection : ℕ → Pool → Heap W → Result Error Prot × Heap W
  create_connection fuel p h =
      ended (for_attempts connect fuel p.retry_policy h (thrift.time h.outside))

  -- the test of `_is_stale`
  unfoldable pub is_stale : Pool → Prot → W → Bool
  is_stale p prot w =
      not (thrift.is_open prot.trans w) || ltb (prot.birthdate + p.max_age) (thrift.time w)

  abbrev pub close_at : ℕ → Heap W → Heap W
  close_at trans h = record h { outside = thrift.close trans h.outside }

  -- the value that `_release` puts
  unfoldable pub released : Option Prot → Heap W → Option Prot
  released none h = none
  released (some prot) h = if thrift.is_open prot.trans h.outside then some prot else none

  -- `_release`
  abbrev pub release : Pool → Option Prot → Heap W → Pool
  release p prot h = record p { slots = released prot h ∷ p.slots }

  -- the `except` clauses of `connection`
  unfoldable pub close_on : Error → Option Prot → Heap W → Heap W
  close_on e none h = h
  close_on e (some prot) h = if closes e then close_at prot.trans h else h

  -- an exception, and the `finally` clause
  unfoldable pub fail : Pool → Option Prot → Error → Heap W → Error × Pool × Heap W
  fail p prot e h = let h' = close_on e prot h in (e, release p prot h', h')

  abbrev pub entered :
      Pool → Option Prot → Result Error Prot × Heap W → Result Error Prot × Pool × Heap W
  entered p old (ok prot, h) = (ok prot, p, h)
  entered p old (err e, h) = let (e', p', h') = fail p old e h in (err e', p', h')

  unfoldable pub renew : ℕ → Pool → Option Prot → Heap W → Result Error Prot × Pool × Heap W
  renew fuel p none h = entered p none (create_connection fuel p h)
  renew fuel p (some prot) h =
      if is_stale p prot h.outside
      then entered p (some prot) (create_connection fuel p (close_at prot.trans h))
      else (ok prot, p, h)

  -- `connection` up to its `yield`
  unfoldable pub enter : ℕ → Pool → Heap W → Result Error Prot × Pool × Heap W
  unfolding get_from_pool
  enter fuel p h = elim (get_from_pool p) [
    | ok (prot, p') ↦ renew fuel p' prot h
    | err e ↦ (err e, p, h)
  ]

  -- `connection` after its `yield`: the client's code ended, or raised
  unfoldable pub exit : Pool → Prot → Option Error → Heap W → Option Error × Pool × Heap W
  exit p prot none h = (none, release p (some prot) h, h)
  exit p prot (some e) h = let (e', p', h') = fail p (some prot) (rewrap e) h in (some e', p', h')
