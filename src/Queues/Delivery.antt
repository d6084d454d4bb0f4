-- ===== src/Queues/Delivery.antt =====
-- What `put` and `get` do to the messages in a POSIX queue.
use baseplate_py.Prelude.{
  ◌≡◌, ◌≢◌, refl, ap, ◌∙◌, ℕ, Option, List, [], ◌∷◌, ◌++◌, Result, ok, err, Bytes,
}
use baseplate_py.Retry.Loop.{LoopEnd, exhausted, left, unfinished}
use baseplate_py.Retry.Rule.{After, Ends, for_attempts_rule}
use baseplate_py.Queues.Message.{
  Reply, replied, interrupted, busy, Posix, QueueError, policy, answer, ended, attempt_send,
  attempt_receive, put, get,
}

-- What a POSIX queue does: `sent` and `received` are the messages that this object put in and took
-- out. An operation that raises did nothing, and waiting does nothing.
pub record PosixLaws {S : Type 0} (posix : Posix S) : Type 0 where
  pub sent : S → List Bytes
  pub received : S → List Bytes
  pub sent-send :
      (m : Bytes) (s : S) (t : ℕ)
      → (posix.send m s t).0 ≡ replied tt
      → sent (posix.send m s t).1 ≡ sent s ++ m ∷ []
  pub sent-send_refused :
      (m : Bytes) (s : S) (t : ℕ)
      → (posix.send m s t).0 ≢ replied tt
      → sent (posix.send m s t).1 ≡ sent s
  pub sent-select : (r : Option ℕ) (s : S) (t : ℕ) → sent (posix.select r s t).0 ≡ sent s
  pub received-receive :
      (m : Bytes) (s : S) (t : ℕ)
      → (posix.receive s t).0 ≡ replied m
      → received (posix.receive s t).1 ≡ received s ++ m ∷ []
  pub received-receive_refused :
      (s : S) (t : ℕ)
      → ((m : Bytes) → (posix.receive s t).0 ≢ replied m)
      → received (posix.receive s t).1 ≡ received s
  pub received-select :
      (r : Option ℕ) (s : S) (t : ℕ) → received (posix.select r s t).0 ≡ received s

-- the rule for the loops of both operations: `log` grows by what the result says, and only then
abbrev pub Logged :
    {S A : Type 0} → (S → List Bytes) → (A → Bytes) → List Bytes → Result QueueError A → S → Type 0
Logged log item before (ok a) s = log s ≡ before ++ item a ∷ []
Logged log item before (err _) s = log s ≡ before

module _ {S A : Type 0} (posix : Posix S) (log : S → List Bytes) (item : A → Bytes)
    (log-select : (r : Option ℕ) (s : S) (t : ℕ) → log (posix.select r s t).0 ≡ log s)
    (before : List Bytes) where
  answer-After :
      (remaining : Option ℕ) (x : Reply A × S × ℕ)
      → ((a : A) → x.0 ≡ replied a → log x.1 ≡ before ++ item a ∷ [])
      → (((a : A) → x.0 ≢ replied a) → log x.1 ≡ before)
      → After (λ s. log s ≡ before) (Logged log item before) (answer posix remaining x)
  unfolding answer
  answer-After remaining (replied a, s, t) h k = h a refl
  answer-After remaining (interrupted, s, t) h k = k (λ a e. cc)
  answer-After remaining (busy, s, t) h k = log-select remaining s t ∙ k (λ a e. cc)

  ended-Logged :
      (x : LoopEnd (Result QueueError A) × S × ℕ)
      → Ends (λ s. log s ≡ before) (Logged log item before) x
      → Logged log item before (ended posix x).0 (ended posix x).1.0
  ended-Logged (exhausted, s, t) h = h
  ended-Logged (left (ok a), s, t) h = h
  ended-Logged (left (err e), s, t) h = h
  ended-Logged (unfinished, s, t) h = h

module _ {S : Type 0} (posix : Posix S) (laws : PosixLaws posix) where
  attempt_send-After :
      (message : Bytes) (before : List Bytes) (remaining : Option ℕ) (s : S) (now : ℕ)
      → laws.sent s ≡ before
      → After
          (λ s. laws.sent s ≡ before)
          (Logged laws.sent (λ u. message) before)
          (attempt_send posix message remaining s now)
  unfolding attempt_send
  attempt_send-After message before remaining s now h =
      answer-After posix laws.sent (λ u. message) laws.sent-select before remaining
        (posix.send message s now)
        (λ u e. laws.sent-send message s now e ∙ ap (λ ms. ms ++ message ∷ []) h)
        (λ refused. laws.sent-send_refused message s now (refused tt) ∙ h)

  attempt_receive-After :
      (before : List Bytes) (remaining : Option ℕ) (s : S) (now : ℕ)
      → laws.received s ≡ before
      → After
          (λ s. laws.received s ≡ before)
          (Logged laws.received (λ m. m) before)
          (attempt_receive posix remaining s now)
  unfolding attempt_receive
  attempt_receive-After before remaining s now h =
      answer-After posix laws.received (λ m. m) laws.received-select before remaining
        (posix.receive s now) (λ m e. laws.received-receive m s now e ∙ ap (λ ms. ms ++ m ∷ []) h)
        (λ refused. laws.received-receive_refused s now refused ∙ h)

  -- Whatever the timeout, `put` that returns has put the message in the queue exactly once, and
  -- `put` that raises has not.
  pub put-Logged :
      (fuel : ℕ) (message : Bytes) (timeout : Option ℕ) (s : S) (now : ℕ)
      → let (r, p) = put posix fuel message timeout s now in
        Logged laws.sent (λ u. message) (laws.sent s) r p.0
  unfolding put
  put-Logged fuel message timeout s now =
      ended-Logged posix laws.sent (λ u. message) laws.sent-select (laws.sent s) _
        (for_attempts_rule _ _ (attempt_send posix message)
          (attempt_send-After message (laws.sent s)) fuel (policy timeout) s now refl)

  -- Whatever the timeout, `get` returns the one message that it took out of the queue, and took
  -- none where it raises: no message is lost.
  pub get-Logged :
      (fuel : ℕ) (timeout : Option ℕ) (s : S) (now : ℕ)
      → let (r, p) = get posix fuel timeout s now in
        Logged laws.received (λ m. m) (laws.received s) r p.0
  unfolding get
  get-Logged fuel timeout s now =
      ended-Logged posix laws.received (λ m. m) laws.received-select (laws.received s) _
        (for_attempts_rule _ _ (attempt_receive posix) (attempt_receive-After (laws.received s))
          fuel (policy timeout) s now refl)
