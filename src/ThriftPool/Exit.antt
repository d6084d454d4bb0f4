-- ===== src/ThriftPool/Exit.antt =====
-- `connection` after its `yield`: which connections go back to the pool, and what is raised.
use mathlib.Core.Option
use baseplate_py.Prelude.{
  ◌≡◌, refl, Bool, true, false, ◌&&◌, Option, none, some, ◌∷◌, arith, if◌then◌else◌,
}
use baseplate_py.ThriftPool.{
  Thrift, Heap, Prot, Pool, Error, thrift_exception, exit, fail, close_on, released, closes, rewrap,
}
use baseplate_py.ThriftPool.Create.{IsThrift}

-- The client's code ended well, or with an error that the service declares.
abbrev pub is_expected : Option Error → Bool
is_expected none = true
is_expected (some (thrift_exception _)) = true
is_expected (some _) = false

module _ {W : Type 0} (thrift : Thrift W) (laws : IsThrift thrift) (p : Pool) (prot : Prot) where
  -- What the client's code raised comes out rewrapped, and one slot goes back on top of the pool. It
  -- holds the connection if the outcome was expected and the connection is open, and the outside
  -- is as it was then; after any other error it is empty, and the connection is closed.
  pub exit-Leaves :
      (outcome : Option Error) (h : Heap W)
      → let (raised, p', h') = exit thrift p prot outcome h in
        (raised ≡ Option.map rewrap outcome)
        × (p' ≡ record p {
          slots =
              (if is_expected outcome && thrift.is_open prot.trans h.outside
                then some prot
                else none)
              ∷ p.slots;
        })
        × (if is_expected outcome then h' ≡ h else thrift.is_open prot.trans h'.outside ≡ false)
  unfolding exit fail close_on released closes rewrap
  exit-Leaves none h = (refl, ground arith, refl)
  exit-Leaves (some (thrift_exception x)) h = (refl, ground arith, refl)
  exit-Leaves (some e) h =
      let closed = laws.close-closed prot.trans h.outside in (refl, ground arith, closed)
