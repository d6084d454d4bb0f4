-- ===== src/Tracing/Recorder.antt =====
-- baseplate/observers/tracing.py: the queue of BaseBatchRecorder, shared by the senders and the
-- worker threads, and the message queue of SidecarRecorder. A step is one that no other thread's
-- can divide.
use baseplate_py.Prelude.{
  ℕ, ◌+◌, ◌≤◌, ◌<◌, ◌≡◌, refl, ◌⊎◌, inl, inr, Bool, true, false, ◌&&◌, List, [], ◌∷◌, ◌++◌, length,
  length-append, ltb, leb, if◌then◌else◌, arith, Bool-cases, All,
}

pub record Recorder (S : Type 0) : Type 0 where
  pub max_queue_size : ℕ
  pub max_span_batch : ℕ
  pub span_queue : List S
  -- what each worker has taken and not flushed
  pub batches : List (List S)
  -- what was accepted, and what was flushed
  pub accepted : List S
  pub flushed : List (List S)

-- One turn of a worker in `_flush_spans`: it takes a span, or flushes its batch, or sleeps.
pub data Turn (S : Type 0) : Type 0 where
  takes : S → List S → Turn S
  flushes sleeps : Turn S

abbrev pub one_if : Bool → ℕ
one_if true = 1
one_if false = 0

module _ {S : Type 0} where
  -- `put_nowait` on a queue whose size, if it is not 0, is a limit
  abbrev pub is_full : ℕ → List S → Bool
  is_full max queue = ltb 0 max && leb max (length queue)

  -- `send`: a span that finds the queue full is dropped
  unfoldable pub send : S → Recorder S → Recorder S
  send s r =
      if is_full r.max_queue_size r.span_queue
      then r
      else record r { span_queue = r.span_queue ++ (s ∷ []); accepted = r.accepted ++ (s ∷ []) }

  unfoldable pub turn_of : ℕ → List S → List S → Turn S
  turn_of max_batch [] [] = sleeps
  turn_of max_batch (b ∷ batch) [] = flushes
  turn_of max_batch [] (s ∷ queue) = if ltb 0 max_batch then takes s queue else sleeps
  turn_of max_batch (b ∷ batch) (s ∷ queue) =
      if ltb (length (b ∷ batch)) max_batch then takes s queue else flushes

  -- the worker whose batch stands between `before` and `after`
  unfoldable pub work : List (List S) → List S → List (List S) → Recorder S → Recorder S
  unfolding turn_of
  work before batch after r = elim (turn_of r.max_span_batch batch r.span_queue) [
    | takes s queue ↦ record r {
      span_queue = queue;
      batches = before ++ ((batch ++ (s ∷ [])) ∷ after);
    }
    | flushes ↦ record r { batches = before ++ ([] ∷ after); flushed = r.flushed ++ (batch ∷ []) }
    | sleeps ↦ r
  ]

pub data Steps {S : Type 0} (r : Recorder S) : Recorder S → Type 0 where
  here : Steps r r
  sends : {t : Recorder S} (s : S) → Steps r t → Steps r (send s t)
  works :
      {t : Recorder S} (before after : List (List S)) (batch : List S)
      → Steps r t
      → t.batches ≡ before ++ (batch ∷ after)
      → Steps r (work before batch after t)

module _ {S : Type 0} where
  -- how often a span that the test picks stands in a list, and in a list of lists
  abbrev pub count : (S → Bool) → List S → ℕ
  count p [] = 0
  count p (s ∷ l) = one_if (p s) + count p l

  abbrev pub count_all : (S → Bool) → List (List S) → ℕ
  count_all p [] = 0
  count_all p (l ∷ ls) = count p l + count_all p ls

  count-append : (p : S → Bool) (xs ys : List S) → count p (xs ++ ys) ≡ count p xs + count p ys
  count-append p [] ys = omega arith
  count-append p (x ∷ xs) ys = omega (arith, count-append p xs ys)

  count_all-append :
      (p : S → Bool) (xs ys : List (List S))
      → count_all p (xs ++ ys) ≡ count_all p xs + count_all p ys
  count_all-append p [] ys = omega arith
  count_all-append p (x ∷ xs) ys = omega (arith, count_all-append p xs ys)

  abbrev pub Short : ℕ → List (List S) → Type 0
  Short n = All (λ l. length l ≤ n)

  Short-append : (n : ℕ) (xs ys : List (List S)) → Short n xs → Short n ys → Short n (xs ++ ys)
  Short-append n [] ys h k = k
  Short-append n (x ∷ xs) ys h k = (h.0, Short-append n xs ys h.1 k)

  Short-parts : (n : ℕ) (xs ys : List (List S)) → Short n (xs ++ ys) → Short n xs × Short n ys
  Short-parts n [] ys h = (tt, h)
  Short-parts n (x ∷ xs) ys h = let (a, b) = Short-parts n xs ys h.1 in ((h.0, a), b)

-- Every accepted span is in the queue, in a batch, or flushed, once; and the limits hold.
pub record IsSound {S : Type 0} (r : Recorder S) : Type 0 where
  pub conserved :
      (p : S → Bool)
      → count p r.accepted ≡ count_all p r.flushed + count_all p r.batches + count p r.span_queue
  pub bounded : 0 < r.max_queue_size → length r.span_queue ≤ r.max_queue_size
  pub batched : Short r.max_span_batch r.batches
  pub posted : Short r.max_span_batch r.flushed

module _ {S : Type 0} where
  send-IsSound : (s : S) (r : Recorder S) → IsSound r → IsSound (send s r)
  unfolding send
  send-IsSound s r sound = elim (Bool-cases (is_full r.max_queue_size r.span_queue)) [
    | inl e ↦ rw (e, send) sound
    | inr e ↦
        rw (e, send)
          (record {
            conserved = λ p. ground (
              arith,
              sound.conserved p,
              count-append p r.accepted (s ∷ []),
              count-append p r.span_queue (s ∷ []),
            );
            bounded = λ h. ground (arith, e, length-append {0} r.span_queue (s ∷ []));
            batched = sound.batched;
            posted = sound.posted;
          })
  ]

  Turn-cases :
      (t : Turn S)
      → ((s : S) × (queue : List S) × (t ≡ takes s queue)) ⊎ (t ≡ flushes) ⊎ (t ≡ sleeps)
  Turn-cases (takes s queue) = inl (s, queue, refl)
  Turn-cases flushes = inr (inl refl)
  Turn-cases sleeps = inr (inr refl)

  turn_of-takes :
      (n : ℕ) (batch queue : List S) (s : S) (rest : List S)
      → turn_of n batch queue ≡ takes s rest
      → (queue ≡ s ∷ rest) × (length batch < n)
  unfolding turn_of
  turn_of-takes n [] [] s rest e = cc
  turn_of-takes n (b ∷ batch) [] s rest e = cc
  turn_of-takes n [] (x ∷ queue) s rest e = (ground arith, ground arith)
  turn_of-takes n (b ∷ batch) (x ∷ queue) s rest e = (ground arith, ground arith)

  -- the batches, where one of them is replaced
  Short-replace :
      (n : ℕ) (before after : List (List S)) (batch new : List S)
      → Short n (before ++ (batch ∷ after))
      → length new ≤ n
      → Short n (before ++ (new ∷ after))
  Short-replace n before after batch new h l =
      let (a, b) = Short-parts n before (batch ∷ after) h in
      Short-append n before (new ∷ after) a (l, b.1)

  work-IsSound :
      (before after : List (List S)) (batch : List S) (r : Recorder S)
      → IsSound r
      → r.batches ≡ before ++ (batch ∷ after)
      → IsSound (work before batch after r)
  unfolding work
  work-IsSound before after batch r sound e =
      let batched : Short r.max_span_batch (before ++ (batch ∷ after)) = rw e at sound.batched in
      let conserved : (p : S → Bool)
          → count p r.accepted
            ≡ count_all p r.flushed
              + count_all p (before ++ (batch ∷ after))
              + count p r.span_queue =
        λ p. rw (← e) (sound.conserved p) in
      elim (Turn-cases (turn_of r.max_span_batch batch r.span_queue)) [
        | inl (s, queue, t) ↦
            let (queued, room) = turn_of-takes r.max_span_batch batch r.span_queue s queue t in
            let longer : length (batch ++ (s ∷ [])) ≤ r.max_span_batch =
              omega (arith, room, length-append {0} batch (s ∷ [])) in
            rw (t, work)
              (record {
                conserved = λ p. ground (
                  arith,
                  conserved p,
                  count-append p batch (s ∷ []),
                  count_all-append p before (batch ∷ after),
                  count_all-append p before ((batch ++ (s ∷ [])) ∷ after),
                );
                bounded = λ h. ground (arith, sound.bounded h);
                batched = Short-replace r.max_span_batch before after batch _ batched longer;
                posted = sound.posted;
              })
        | inr (inl t) ↦
            let short = (Short-parts r.max_span_batch before (batch ∷ after) batched).1.0 in
            rw (t, work)
              (record {
                conserved = λ p. ground (
                  arith,
                  conserved p,
                  count_all-append p before (batch ∷ after),
                  count_all-append p before ([] ∷ after),
                  count_all-append p r.flushed (batch ∷ []),
                );
                bounded = sound.bounded;
                batched =
                    Short-replace r.max_span_batch before after batch [] batched (omega arith);
                posted =
                    Short-append r.max_span_batch r.flushed (batch ∷ []) sound.posted (short, tt);
              })
        | inr (inr t) ↦ rw (t, work) sound
      ]

  -- Whatever the senders and the workers do, in any order: each span that was accepted is in the
  -- queue, in one worker's batch, or flushed, and is there once; the queue keeps its limit, and no
  -- flush has more spans than `max_span_batch`.
  pub Steps-IsSound : {r t : Recorder S} → IsSound r → Steps r t → IsSound t
  Steps-IsSound sound here = sound
  Steps-IsSound sound (sends {t} s steps) = send-IsSound s t (Steps-IsSound sound steps)
  Steps-IsSound sound (works {t} before after batch steps e) =
      work-IsSound before after batch t (Steps-IsSound sound steps) e
