-- ===== src/ThriftPool/Ownership.antt =====
-- Clients that share the pool, as a relation on the pool and the slots in clients' hands. A step is
-- one that no other client's can divide: `_get_from_pool`, the look at the connection, the exit.
use baseplate_py.Prelude.{
  ℕ, zero, suc, ◌+◌, ◌≡◌, ◌≢◌, ◌⊎◌, refl, inl, inr, ◌<◌, ◌≤◌, Option, none, some, List, [], ◌∷◌,
  ◌++◌, arith, ok, err, ◌==◌, if◌then◌else◌, length, length-append, length-replicate, List-cases,
  Result-cases, replicate,
}
use baseplate_py.Prelude.Int.{ℤ}
use baseplate_py.ThriftPool.{
  new, attempts_of, Thrift, Heap, Prot, Pool, Error, get_from_pool, renew, exit, fail, close_on,
  released, checkedout, rewrap,
}
use baseplate_py.ThriftPool.Create.{IsThrift, Renewed, renew-Renewed, released_cases, next-close_on}

-- The pool, and for each client inside `connection` what it holds for its slot.
pub record System (W : Type 0) : Type 0 where
  pub pool : Pool
  pub held : List (Option Prot)
  pub heap : Heap W

pub data Step {W : Type 0} (thrift : Thrift W) (s t : System W) : Type 0 where
  takes :
      (prot : Option Prot)
      → get_from_pool s.pool ≡ ok (prot, t.pool)
      → t.held ≡ prot ∷ s.held
      → t.heap ≡ s.heap
      → Step thrift s t
  enters :
      (fuel : ℕ) (before after : List (Option Prot)) (old : Option Prot) (prot : Prot)
      → s.held ≡ before ++ old ∷ after
      → renew thrift fuel s.pool old s.heap ≡ (ok prot, t.pool, t.heap)
      → t.held ≡ before ++ some prot ∷ after
      → Step thrift s t
  fails :
      (fuel : ℕ) (before after : List (Option Prot)) (old : Option Prot) (e : Error)
      → s.held ≡ before ++ old ∷ after
      → renew thrift fuel s.pool old s.heap ≡ (err e, t.pool, t.heap)
      → t.held ≡ before ++ after
      → Step thrift s t
  exits :
      (before after : List (Option Prot)) (prot : Prot) (outcome : Option Error)
      → s.held ≡ before ++ some prot ∷ after
      → (exit thrift s.pool prot outcome s.heap).1 ≡ t.pool
      → (exit thrift s.pool prot outcome s.heap).2 ≡ t.heap
      → t.held ≡ before ++ after
      → Step thrift s t
  -- the clients' code and the outside
  elsewhere : t.pool ≡ s.pool → t.held ≡ s.held → t.heap.next ≡ s.heap.next → Step thrift s t

pub data Steps {W : Type 0} (thrift : Thrift W) (s : System W) : System W → Type 0 where
  here : Steps thrift s s
  step : {t u : System W} → Steps thrift s t → Step thrift t u → Steps thrift s u

abbrev pub here_count : ℕ → Option Prot → ℕ
here_count c none = 0
here_count c (some prot) = if prot.trans == c then 1 else 0

-- how many of the slots hold the transport c
abbrev pub count : ℕ → List (Option Prot) → ℕ
count c [] = 0
count c (prot ∷ slots) = here_count c prot + count c slots

count-append : (c : ℕ) (xs ys : List (Option Prot)) → count c (xs ++ ys) ≡ count c xs + count c ys
count-append c [] ys = omega arith
count-append c (x ∷ xs) ys = omega (arith, count-append c xs ys)

-- No slot is lost or made, no transport is in two slots, and new ones are new.
pub record IsSound {W : Type 0} (s : System W) : Type 0 where
  pub conserved : length s.pool.slots + length s.held ≡ s.pool.size
  pub unique : (c : ℕ) → count c s.pool.slots + count c s.held ≤ 1
  pub fresh : (c : ℕ) → s.heap.next ≤ c → count c s.pool.slots + count c s.held ≡ 0

-- The counts of a list that is put together from parts.
count_parts :
    (c : ℕ) (l before after : List (Option Prot)) (x : Option Prot)
    → l ≡ before ++ x ∷ after
    → count c l ≡ count c before + here_count c x + count c after
count_parts c l before after x e = rw e (omega (arith, count-append c before (x ∷ after)))

length_parts :
    (l before after : List (Option Prot)) (x : Option Prot)
    → l ≡ before ++ x ∷ after
    → length l ≡ length before + 1 + length after
length_parts l before after x e = rw e (omega (arith, length-append before (x ∷ after)))

count_rest :
    (c : ℕ) (l before after : List (Option Prot))
    → l ≡ before ++ after
    → count c l ≡ count c before + count c after
count_rest c l before after e = rw e (count-append c before after)

length_rest :
    (l before after : List (Option Prot))
    → l ≡ before ++ after
    → length l ≡ length before + length after
length_rest l before after e = rw e (length-append before after)

here_count-le :
    (c : ℕ) (kept old : Option Prot)
    → (kept ≡ none) ⊎ (kept ≡ old)
    → here_count c kept ≤ here_count c old
here_count-le c kept old (inl e) = rw e (omega arith)
here_count-le c kept old (inr e) = rw e (omega arith)

here_count-new :
    (c : ℕ) (prot : Prot)
    → (here_count c (some prot) ≤ 1) × ((prot.trans ≢ c) → here_count c (some prot) ≡ 0)
here_count-new c prot = (ground arith, λ n. ground arith)

module _ {W : Type 0} (thrift : Thrift W) where
  exit_keeps :
      (p : Pool) (prot : Prot) (outcome : Option Error) (h : Heap W)
      → ((exit thrift p prot outcome h).2.next ≡ h.next)
        × ((kept : Option Prot) × ((exit thrift p prot outcome h).1
              ≡ record p { slots = kept ∷ p.slots })
            × ((kept ≡ none) ⊎ (kept ≡ some prot)))
  unfolding exit fail
  exit_keeps p prot none h =
      (refl, (released thrift (some prot) h, refl, released_cases thrift (some prot) h))
  exit_keeps p prot (some e) h =
      let h' = close_on thrift (rewrap e) (some prot) h in
      (
        next-close_on thrift (rewrap e) (some prot) h,
        (released thrift (some prot) h', refl, released_cases thrift (some prot) h'),
      )

  -- A client that gives its slot back, whatever is kept in it.
  given_back :
      (s t : System W) (before after : List (Option Prot)) (old kept : Option Prot)
      → IsSound s
      → s.held ≡ before ++ old ∷ after
      → t.held ≡ before ++ after
      → t.pool ≡ record (s.pool) { slots = kept ∷ s.pool.slots }
      → (kept ≡ none) ⊎ (kept ≡ old)
      → s.heap.next ≤ t.heap.next
      → IsSound t
  given_back s t before after old kept sound held rest pool k l = record {
    conserved = ground (
      arith,
      sound.conserved,
      length_parts s.held before after old held,
      length_rest t.held before after rest,
    );
    unique = λ c. ground (
      arith,
      sound.unique c,
      count_parts c s.held before after old held,
      count_rest c t.held before after rest,
      here_count-le c kept old k,
    );
    fresh = λ c. λ n. ground (
      arith,
      sound.fresh c,
      count_parts c s.held before after old held,
      count_rest c t.held before after rest,
      here_count-le c kept old k,
    );
  }

  taken :
      (s t : System W) (prot : Option Prot)
      → IsSound s
      → s.pool.slots ≡ prot ∷ t.pool.slots
      → t.pool.size ≡ s.pool.size
      → t.held ≡ prot ∷ s.held
      → t.heap ≡ s.heap
      → IsSound t
  taken s t prot sound slots size held heap = record {
    conserved = ground (arith, sound.conserved);
    unique = λ c. ground (arith, sound.unique c);
    fresh = λ c n. ground (arith, sound.fresh c);
  }

  get_from_pool-slots :
      (p p' : Pool) (prot : Option Prot)
      → get_from_pool p ≡ ok (prot, p')
      → (p.slots ≡ prot ∷ p'.slots) × (p'.size ≡ p.size)
  unfolding get_from_pool
  get_from_pool-slots p p' prot e = elim (List-cases p.slots) [
    | inl empty ↦ absurd (ground arith)
    | inr (x, rest, slots) ↦ (ground arith, ground arith)
  ]

  -- A client whose slot now holds the transport that it held, or one that is new.
  replaced :
      (s t : System W) (before after : List (Option Prot)) (old : Option Prot) (prot : Prot)
      → IsSound s
      → s.held ≡ before ++ old ∷ after
      → t.held ≡ before ++ some prot ∷ after
      → t.pool ≡ s.pool
      → s.heap.next ≤ t.heap.next
      → (old ≡ some prot) ⊎ ((s.heap.next ≤ prot.trans) × (prot.trans < t.heap.next))
      → IsSound t
  replaced s t before after old prot sound held rest pool l new = record {
    conserved = ground (
      arith,
      sound.conserved,
      length_parts s.held before after old held,
      length_parts t.held before after (some prot) rest,
    );
    unique = λ c. ground (
      arith,
      sound.unique c,
      sound.fresh c,
      new,
      count_parts c s.held before after old held,
      count_parts c t.held before after (some prot) rest,
    );
    fresh = λ c n. ground (
      arith,
      sound.fresh c,
      new,
      count_parts c s.held before after old held,
      count_parts c t.held before after (some prot) rest,
    );
  }

  Step-IsSound : (laws : IsThrift thrift) (s t : System W) → Step thrift s t → IsSound s → IsSound t
  Step-IsSound laws s t (takes prot e held heap) sound =
      let slots = get_from_pool-slots s.pool t.pool prot e in
      taken s t prot sound slots.0 slots.1 held heap
  Step-IsSound laws s t (enters fuel before after old prot held e rest) sound =
      let renewed : Renewed thrift s.pool old s.heap.next (ok prot, t.pool, t.heap) =
        rw e at (renew-Renewed thrift laws fuel s.pool old s.heap) in
      replaced s t before after old prot sound held rest renewed.0 renewed.2 renewed.3
  Step-IsSound laws s t (fails fuel before after old e held eq rest) sound =
      let renewed : Renewed thrift s.pool old s.heap.next (err e, t.pool, t.heap) =
        rw eq at (renew-Renewed thrift laws fuel s.pool old s.heap) in
      given_back s t before after old renewed.1.0 sound held rest renewed.1.1 renewed.1.2 renewed.0
  Step-IsSound laws s t (exits before after prot outcome held pool heap rest) sound =
      let keeps = exit_keeps s.pool prot outcome s.heap in
      given_back s t before after (some prot) keeps.1.0 sound held rest (cc) keeps.1.2
        (ground (arith, keeps))
  Step-IsSound laws s t (elsewhere pool held same) sound = record {
    conserved = ground (arith, sound.conserved);
    unique = λ c. ground (arith, sound.unique c);
    fresh = λ c n. ground (arith, sound.fresh c);
  }

  -- However many clients share the pool, and in whatever order they take slots, connect, fail and
  -- exit: every slot is in the pool or with one client, and no connection is in two of them.
  pub Steps-IsSound :
      (laws : IsThrift thrift) {s t : System W} → IsSound s → Steps thrift s t → IsSound t
  Steps-IsSound laws sound here = sound
  Steps-IsSound laws sound (step steps last) =
      Step-IsSound laws _ _ last (Steps-IsSound laws sound steps)

count-replicate : (c n : ℕ) → count c (replicate n none) ≡ 0
count-replicate c zero = refl
count-replicate c (suc n) = omega (arith, count-replicate c n)

new-slots :
    (size max_age : ℕ) (attempts retries : Option ℤ) (p : Pool)
    → new size max_age attempts retries ≡ ok p
    → (p.slots ≡ replicate size none) × (p.size ≡ size)
unfolding new
new-slots size max_age attempts retries p e = elim (Result-cases (attempts_of attempts retries)) [
  | inl (n, a) ↦ ground arith
  | inr (x, a) ↦ absurd (ground arith)
]

abbrev pub at_start : {W : Type 0} → Pool → Heap W → System W
at_start p h = record { pool = p; held = []; heap = h }

-- After any number of clients have shared a new pool, taking slots, connecting, failing and exiting
-- in any order: `checkedout` is the number of clients inside, no more than the pool's size, and no
-- transport is in two slots, be they in the pool or with clients.
pub checkedout_shared :
    {W : Type 0} (thrift : Thrift W) (laws : IsThrift thrift) (size max_age : ℕ)
    (attempts retries : Option ℤ) (p : Pool) (h : Heap W) (t : System W)
    → new size max_age attempts retries ≡ ok p
    → Steps thrift (at_start p h) t
    → (checkedout t.pool ≡ length t.held)
      × (length t.held ≤ t.pool.size)
      × ((c : ℕ) → count c t.pool.slots + count c t.held ≤ 1)
unfolding checkedout
checkedout_shared thrift laws size max_age attempts retries p h t e steps =
    let (slots, full) = new-slots size max_age attempts retries p e in
    let start : IsSound (at_start p h) = record {
      conserved = rw slots (rw full (rw length-replicate (omega arith)));
      unique = λ c. rw slots (omega (arith, count-replicate c size));
      fresh = λ c n. rw slots (omega (arith, count-replicate c size));
    } in
    let sound = Steps-IsSound thrift laws start steps in
    (omega (arith, sound.conserved), omega (arith, sound.conserved), sound.unique)
