-- ===== src/Queues/Tests.antt =====
-- A POSIX queue with room for two messages, used by one process.
use baseplate_py.Prelude.{
  ◌<◌, ◌≡◌, refl, ℕ, ◌+◌, some, List, [], ◌∷◌, ◌++◌, length, Bytes, arith, ◌≢◌, inl, inr,
  Bool-cases, ltb, if◌then◌else◌,
}
use baseplate_py.Queues.Message.{Reply, replied, busy, Posix, put}
use baseplate_py.Queues.Events.{put_event}
use baseplate_py.Queues.Delivery.{PosixLaws, Logged, put-Logged}
use baseplate_py.Queues.Full.{one_try, put_event-one_try}

-- the messages that are waiting, with all that were sent and received
record State : Type 0 where
  waiting : List Bytes
  sent : List Bytes
  received : List Bytes

abbrev send_to : Bytes → State → ℕ → Reply (Unit {0}) × State × ℕ
send_to m s t =
    if ltb (length s.waiting) 2
    then (
      replied tt,
      record { waiting = s.waiting ++ m ∷ []; sent = s.sent ++ m ∷ []; received = s.received },
      t + 1,
    )
    else (busy, s, t + 1)

abbrev receive_waiting : List Bytes → State → ℕ → Reply Bytes × State × ℕ
receive_waiting [] s t = (busy, s, t + 1)
receive_waiting (m ∷ ms) s t =
    (replied m, record { waiting = ms; sent = s.sent; received = s.received ++ m ∷ [] }, t + 1)

abbrev fifo : Posix State
fifo = record {
  send = send_to;
  receive = λ s t. receive_waiting s.waiting s t;
  select = λ r s t. (s, t + 1);
}

sent-send_to :
    (m : Bytes) (s : State) (t : ℕ)
    → (send_to m s t).0 ≢ replied tt
    → (send_to m s t).1.sent ≡ s.sent
sent-send_to m s t h = elim (Bool-cases (ltb (length s.waiting) 2)) [
  | inl e ↦ absurd (h (rw e))
  | inr e ↦ rw e
]

received-receive_waiting :
    (ms : List Bytes) (m : Bytes) (s : State) (t : ℕ)
    → (receive_waiting ms s t).0 ≡ replied m
    → (receive_waiting ms s t).1.received ≡ s.received ++ m ∷ []
received-receive_waiting [] m s t e = cc
received-receive_waiting (n ∷ ms) m s t e = let same : n ≡ m = cc in rw same

refused-receive_waiting :
    (ms : List Bytes) (s : State) (t : ℕ)
    → ((m : Bytes) → (receive_waiting ms s t).0 ≢ replied m)
    → (receive_waiting ms s t).1.received ≡ s.received
refused-receive_waiting [] s t h = refl
refused-receive_waiting (m ∷ ms) s t h = absurd (h m refl)

fifo_laws : PosixLaws fifo
fifo_laws = record {
  sent = λ s. s.sent;
  received = λ s. s.received;
  sent-send = λ m s t e. ground arith;
  sent-send_refused = sent-send_to;
  sent-select = λ r s t. refl;
  received-receive = λ m s t e. received-receive_waiting s.waiting m s t e;
  received-receive_refused = λ s t e. refused-receive_waiting s.waiting s t e;
  received-select = λ r s t. refl;
}

abbrev one_waiting : State
one_waiting = record { waiting = (1 ∷ []) ∷ []; sent = []; received = [] }

put-Logged_example :
    Logged fifo_laws.sent
      (λ u. 2 ∷ [])
      []
      (put fifo 5 (2 ∷ []) (some 3) one_waiting 0).0
      (put fifo 5 (2 ∷ []) (some 3) one_waiting 0).1.0
unfolding fifo_laws
put-Logged_example = put-Logged fifo fifo_laws 5 (2 ∷ []) (some 3) one_waiting 0

put_event-one_try_example :
    put_event fifo (2 ∷ []) one_waiting 0 ≡ one_try fifo (fifo.send (2 ∷ []) one_waiting 0)
put_event-one_try_example =
    put_event-one_try fifo (2 ∷ []) one_waiting 0 (λ m s t. ground arith) (λ r s t. omega arith)
      (omega arith)

receive_ticks : (ms : List Bytes) (s : State) (t : ℕ) → t < (receive_waiting ms s t).2
receive_ticks [] s t = omega arith
receive_ticks (m ∷ ms) s t = omega arith
