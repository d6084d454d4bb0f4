-- ===== src/ThriftPool/Connect.antt =====
-- `_create_connection`: which of its attempts gives the connection, and when it gives up.
use baseplate_py.Prelude.{ℕ, zero, suc, ◌+◌, ◌≡◌, ◌<◌, List, ◌∷◌, Option, none, some, ok, arith}
use baseplate_py.Prelude.Int.{pos}
use baseplate_py.Retry.{Attempts, counted, forever, advance, iterate, yield_attempts}
use baseplate_py.Retry
use baseplate_py.Retry.Loop.{left, for_attempts}
use baseplate_py.ThriftPool.{
  Thrift, Heap, Prot, Pool, opened, refused, connect, create_connection, enter, get_from_pool,
  renew,
}

module _ {W : Type 0} (thrift : Thrift W) where
  -- the outside after one attempt, and the transport's number used up
  abbrev pub tried : Heap W → Heap W
  tried h = record { next = suc h.next; outside = (thrift.open_transport h.next h.outside).1 }

  -- The next k transports are refused, and leave the heap `h'`.
  abbrev pub Refuses : ℕ → Heap W → Heap W → Type 0
  Refuses zero h h' = h ≡ h'
  Refuses (suc k) h h' =
      ((thrift.open_transport h.next h.outside).0 ≡ refused) × Refuses k (tried h) h'

  for_attempts_opened :
      (k n i fuel : ℕ) (h h' : Heap W) (t : ℕ)
      → Refuses k h h'
      → (thrift.open_transport h'.next h'.outside).0 ≡ opened
      → i + k < n
      → k < fuel
      → let last = tried h' in
        let prot : Prot = record { trans = h'.next; birthdate = thrift.time last.outside } in
        ((for_attempts (connect thrift) fuel (counted (pos n) i forever) h t).0 ≡ left (ok prot))
        × ((for_attempts (connect thrift) fuel (counted (pos n) i forever) h t).1 ≡ last)
  unfolding for_attempts advance connect
  for_attempts_opened k n i zero h h' t r o e l = absurd (omega arith)
  for_attempts_opened zero n i (suc fuel) h h' t r o e l = ground arith
  for_attempts_opened (suc k) n i (suc fuel) h h' t r o e l =
      ground
        (arith, for_attempts_opened k n (i + 1) fuel (tried h) h' (thrift.time (tried h).outside))

  module _ (n fuel : ℕ) (p : Pool) (rest : List (Option Prot)) (h h' : Heap W)
      (made : p.retry_policy ≡ iterate (Retry.new (some (pos n)) none none))
      (free : p.slots ≡ none ∷ rest) where
    pub enter-opened :
        (k : ℕ)
        → Refuses k h h'
        → (thrift.open_transport h'.next h'.outside).0 ≡ opened
        → k < n
        → k < fuel
        → enter thrift fuel p h ≡ (
          ok (record { trans = h'.next; birthdate = thrift.time (tried h').outside }),
          record p { slots = rest },
          tried h',
        )
    unfolding enter get_from_pool renew create_connection Retry.new yield_attempts
    enter-opened k r o l m =
        let policy : p.retry_policy ≡ counted (pos n) 0 forever = made in
        ground (arith, for_attempts_opened k n 0 fuel h h' (thrift.time h.outside))
