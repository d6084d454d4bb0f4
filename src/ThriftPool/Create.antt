-- ===== src/ThriftPool/Create.antt =====
-- `_create_connection` and `connection` up to its `yield`: the attempts, and what a client is given.
use baseplate_py.Prelude.{
  ℕ, ◌+◌, ◌≡◌, refl, ◌⊎◌, inl, inr, ◌<◌, ◌≤◌, true, false, Option, none, some, ◌∷◌, arith, Result,
  ok, err, Bool-cases, List-cases,
}
use baseplate_py.Retry.Loop.{LoopEnd, exhausted, left, unfinished, for_attempts}
use baseplate_py.Retry.Rule.{for_attempts_rule, After, Ends}
use baseplate_py.ThriftPool.{
  Thrift, Heap, Prot, Pool, Error, OpenReply, opened, refused, failed, connect, create_connection,
  ended, is_stale, renew, entered, enter, get_from_pool, fail, close_at, close_on, released,
}

-- What the transports do: a transport that opened is open, and one that was closed is not.
pub record IsThrift {W : Type 0} (thrift : Thrift W) : Type 0 where
  pub open-opened :
      (c : ℕ) (w : W)
      → (thrift.open_transport c w).0 ≡ opened
      → thrift.is_open c (thrift.open_transport c w).1 ≡ true
  pub close-closed : (c : ℕ) (w : W) → thrift.is_open c (thrift.close c w) ≡ false

pub OpenReply-cases : (r : OpenReply) → (r ≡ opened) ⊎ (r ≡ refused) ⊎ ((e : ℕ) × (r ≡ failed e))
OpenReply-cases opened = inl refl
OpenReply-cases refused = inr (inl refl)
OpenReply-cases (failed e) = inr (inr (e, refl))

module _ {W : Type 0} (thrift : Thrift W) where
  -- The connection is open and no older than `max_age`.
  abbrev pub IsUsable : Pool → Prot → Heap W → Type 0
  IsUsable p prot h =
      (thrift.is_open prot.trans h.outside ≡ true)
      × (thrift.time h.outside ≤ prot.birthdate + p.max_age)

  abbrev Created : ℕ → Result Error Prot → Heap W → Type 0
  Created n (ok prot) h =
      (thrift.is_open prot.trans h.outside ≡ true)
      × (thrift.time h.outside ≡ prot.birthdate)
      × (n ≤ prot.trans)
      × (prot.trans < h.next)
  Created n (err e) h = n ≤ h.next

  connect-Created :
      (laws : IsThrift thrift) (n : ℕ) (r : Option ℕ) (h : Heap W) (t : ℕ)
      → n ≤ h.next
      → After (λ k. n ≤ k.next) (Created n) (connect thrift r h t)
  unfolding connect
  connect-Created laws n r h t l =
      elim (OpenReply-cases (thrift.open_transport h.next h.outside).0) [
        | inl e ↦ rw (e, connect) (laws.open-opened _ _ e, refl, l, omega arith)
        | inr (inl e) ↦ rw (e, connect) (omega arith)
        | inr (inr (x, e)) ↦ rw (e, connect) (omega arith)
      ]

  ended-Created :
      (n : ℕ) (t : LoopEnd (Result Error Prot) × (Heap W) × ℕ)
      → Ends (λ k. n ≤ k.next) (Created n) t
      → Created n (ended thrift t).0 (ended thrift t).1
  ended-Created n (exhausted, h, t) e = e
  ended-Created n (left r, h, t) e = e
  ended-Created n (unfinished, h, t) e = e

  pub create_connection-Created :
      (laws : IsThrift thrift) (fuel : ℕ) (p : Pool) (h : Heap W)
      → Created h.next (create_connection thrift fuel p h).0 (create_connection thrift fuel p h).1
  unfolding create_connection
  create_connection-Created laws fuel p h =
      ended-Created h.next (for_attempts (connect thrift) fuel p.retry_policy h _) (
        for_attempts_rule (λ k. h.next ≤ k.next) (Created h.next) (connect thrift)
          (λ r k t l. connect-Created laws h.next r k t l) fuel p.retry_policy h _ (omega arith))

  -- What a client gets or leaves behind when the connection in its slot is seen to.
  abbrev pub Renewed : Pool → Option Prot → ℕ → Result Error Prot × Pool × Heap W → Type 0
  Renewed p old n (ok prot, p', h) =
      (p' ≡ p)
      × (IsUsable p prot h)
      × (n ≤ h.next)
      × ((old ≡ some prot) ⊎ ((n ≤ prot.trans) × (prot.trans < h.next)))
  Renewed p old n (err e, p', h) =
      (n ≤ h.next)
      × ((kept : Option Prot) × (p' ≡ record p { slots = kept ∷ p.slots })
          × ((kept ≡ none) ⊎ (kept ≡ old)))

  -- `_release` puts the connection, or nothing.
  pub released_cases :
      (old : Option Prot) (h : Heap W)
      → (released thrift old h ≡ none) ⊎ (released thrift old h ≡ old)
  unfolding released
  released_cases none h = inl refl
  released_cases (some prot) h = elim (Bool-cases (thrift.is_open prot.trans h.outside)) [
    | inl e ↦ rw e (inr refl)
    | inr e ↦ rw e (inl refl)
  ]

  pub next-close_on :
      (e : Error) (old : Option Prot) (h : Heap W) → (close_on thrift e old h).next ≡ h.next
  unfolding close_on
  next-close_on e none h = refl
  next-close_on e (some prot) h = ground arith

  released-Renewed :
      (p : Pool) (old : Option Prot) (n : ℕ) (e : Error) (h : Heap W)
      → n ≤ h.next
      → Renewed p old n (entered thrift p old (err e, h))
  unfolding fail
  released-Renewed p old n e h l =
      let h' = close_on thrift e old h in
      (rw (next-close_on e old h) l, (released thrift old h', refl, released_cases old h'))

  entered-Renewed :
      (p : Pool) (old : Option Prot) (n : ℕ) (t : Result Error Prot × Heap W)
      → Created n t.0 t.1
      → Renewed p old n (entered thrift p old t)
  entered-Renewed p old n (ok prot, h) c = (refl, (c.0, omega arith), omega arith, inr (c.2, c.3))
  entered-Renewed p old n (err e, h) l = released-Renewed p old n e h l

  pub renew-Renewed :
      (laws : IsThrift thrift) (fuel : ℕ) (p : Pool) (old : Option Prot) (h : Heap W)
      → Renewed p old h.next (renew thrift fuel p old h)
  unfolding renew is_stale
  renew-Renewed laws fuel p none h =
      entered-Renewed p none h.next (create_connection thrift fuel p h)
        (create_connection-Created laws fuel p h)
  renew-Renewed laws fuel p (some prot) h = elim (Bool-cases (is_stale thrift p prot h.outside)) [
    | inl e ↦
        rw (e, renew)
          (entered-Renewed p (some prot) h.next
            (create_connection thrift fuel p (close_at thrift prot.trans h))
            (create_connection-Created laws fuel p (close_at thrift prot.trans h)))
    | inr e ↦ rw (e, renew) (refl, fresh e, omega arith, inl refl)
  ]
    where
      fresh : is_stale thrift p prot h.outside ≡ false → IsUsable p prot h
      fresh e = ground arith

  -- The connection that a client is given is open and no older than `max_age`, and the client has
  -- taken the top slot of the pool, and only that.
  pub enter-IsUsable :
      (laws : IsThrift thrift) (fuel : ℕ) (p p' : Pool) (h h' : Heap W) (prot : Prot)
      → enter thrift fuel p h ≡ (ok prot, p', h')
      → IsUsable p prot h' × ((top : Option Prot) × (p.slots ≡ top ∷ p'.slots))
  unfolding enter get_from_pool
  enter-IsUsable laws fuel p p' h h' prot e = elim (List-cases p.slots) [
    | inl none_left ↦ absurd (ground arith)
    | inr (top, rest, slots) ↦
        let below : Pool = record p { slots = rest } in
        let renewed : renew thrift fuel below top h ≡ (ok prot, p', h') = ground arith in
        let r : Renewed below top h.next (ok prot, p', h') =
          rw renewed at (renew-Renewed laws fuel below top h) in
        let same : p'.slots ≡ rest = ground arith in (r.1, (top, rw same slots))
  ]
