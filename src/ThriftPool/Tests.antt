-- ===== src/ThriftPool/Tests.antt =====
-- Runs of the pool, and the theorems at concrete inputs.
use baseplate_py.Prelude.{
  ℕ, zero, suc, ◌+◌, ◌≡◌, refl, Bool, true, false, Option, none, some, List, [], ◌∷◌, arith, ok,
  ◌==◌, if◌then◌else◌,
}
use baseplate_py.Prelude.Int.{pos}
use baseplate_py.Retry
use baseplate_py.Retry.{iterate}
use baseplate_py.ThriftPool.{
  Thrift, Heap, Prot, Pool, OpenReply, opened, refused, new, attempts_of, enter, exit,
  get_from_pool, transport_exception, timed_out, socket_timeout, checkedout, rewrap,
}
use baseplate_py.ThriftPool.Create.{IsThrift, IsUsable, enter-IsUsable}
use baseplate_py.ThriftPool.Connect.{tried, enter-opened}
use baseplate_py.ThriftPool.Exit.{exit-Leaves}
use baseplate_py.ThriftPool.Ownership.{System, takes, here, step, checkedout_shared}

-- A server that refuses so many connections before it takes one, and a clock.
record Net : Type 0 where
  is_up : ℕ → Bool
  refusals : ℕ
  clock : ℕ

abbrev dial : ℕ → ℕ → Net → OpenReply × Net
dial zero c w =
    (opened, record w { is_up = λ d. if d == c then true else w.is_up d; clock = w.clock + 1 })
dial (suc k) c w = (refused, record w { refusals = k; clock = w.clock + 1 })

abbrev thrift : Thrift Net
thrift = record {
  open_transport = λ c w. dial w.refusals c w;
  is_open = λ c w. w.is_up c;
  close = λ c w. record w { is_up = λ d. if d == c then false else w.is_up d };
  time = λ w. w.clock;
}

dial-opened : (k c : ℕ) (w : Net) → (dial k c w).0 ≡ opened → (dial k c w).1.is_up c ≡ true
dial-opened zero c w e = ground arith
dial-opened (suc k) c w e = cc

thrift-IsThrift : IsThrift thrift
thrift-IsThrift = record {
  open-opened = λ c w e. dial-opened w.refusals c w e;
  close-closed = λ c w. ground arith;
}

abbrev down : ℕ → Heap Net
down k = record { next = 0; outside = record { is_up = λ _. false; refusals = k; clock = 0 } }

abbrev pool : Pool
pool = record {
  max_age = 120;
  retry_policy = iterate (Retry.new (some (pos 3)) none none);
  size = 2;
  slots = none ∷ none ∷ [];
}

abbrev first : Prot
first = record { trans = 2; birthdate = 3 }

enter-opened_example : enter thrift 9 pool (down 2) ≡ (
  ok first,
  record pool { slots = none ∷ [] },
  tried thrift (tried thrift (tried thrift (down 2))),
)
enter-opened_example =
    enter-opened thrift 3 9 pool (none ∷ []) (down 2) (tried thrift (tried thrift (down 2))) refl
      refl 2 (refl, (refl, refl)) refl (omega arith) (omega arith)

abbrev connected : Heap Net
connected = tried thrift (tried thrift (tried thrift (down 2)))

enter-IsUsable_example :
    IsUsable thrift pool first connected
    × ((top : Option Prot) × (◌≡◌ {A = List (Option Prot)} (none ∷ none ∷ []) (top ∷ none ∷ [])))
enter-IsUsable_example =
    enter-IsUsable thrift thrift-IsThrift 9 pool (record pool { slots = none ∷ [] }) (down 2)
      connected first enter-opened_example

exit-Leaves_example :
    (exit thrift pool first (some socket_timeout) connected).0
    ≡ some (transport_exception timed_out)
unfolding rewrap
exit-Leaves_example =
    (exit-Leaves thrift thrift-IsThrift pool first (some socket_timeout) connected).0

abbrev taken : System Net
taken = record { pool = record pool { slots = none ∷ [] }; held = none ∷ []; heap = down 2 }

-- One client has taken a slot of a new pool.
checkedout_shared_example : checkedout taken.pool ≡ 1
unfolding new attempts_of get_from_pool
checkedout_shared_example =
    (checkedout_shared thrift thrift-IsThrift 2 120 (some (pos 3)) none pool (down 2) taken refl
      (step here (takes none refl refl refl))).0
