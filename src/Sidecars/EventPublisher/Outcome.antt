-- ===== src/Sidecars/EventPublisher/Outcome.antt =====
-- How `BatchPublisher.publish` ends, and what its counters say then.
use baseplate_py.Prelude.{
  ℕ, false, ◌⊎◌, suc, ◌+◌, ◌≡◌, refl, ◌≢◌, ◌≤◌, ◌<◌, Option, none, some, Result, ok, err, arith,
  inl, inr, ◌==◌,
}
use baseplate_py.Retry
use baseplate_py.Retry.{yield_attempts}
use baseplate_py.Retry.Loop.{proceed, leave, LoopEnd, exhausted, left, unfinished, for_attempts}
use baseplate_py.Retry.Clock.{AtMostFrom-budget_backoff, for_attempts_ends_from}
use baseplate_py.Retry.Rule.{After, Ends, for_attempts_rule}
use baseplate_py.Sidecars.Batch.{SerializedBatch}
use baseplate_py.Sidecars.Post.{
  PostResult, success, http_error, io_error, unexpected, Session, Counters, PublishError,
  http_error_raised, unexpected_raised, max_retries, out_of_fuel,
}
use baseplate_py.Sidecars.EventPublisher.{
  max_retry_time, retry_backoff, policy, handle, attempt_post, ended, publish,
}

-- Since `c₀` each post failed and was counted as one error, and nothing was counted as sent.
abbrev pub Failed : Counters → Counters → Type 0
Failed c₀ c =
    (c.sent ≡ c₀.sent)
    × (c.error_http + c.error_io + c₀.posts ≡ c₀.error_http + c₀.error_io + c.posts)

handle-http :
    (item_count status : ℕ) (c : Counters)
    → ((handle item_count (http_error (some status)) c).0 ≡ proceed)
      ⊎ ((handle item_count (http_error (some status)) c).0
          ≡ leave (err (http_error_raised (some status))))
        × (status < 500)
        × (status ≢ 422)
unfolding handle
handle-http item_count status c = ground arith

handle-http_counters :
    (item_count status : ℕ) (c : Counters)
    → (handle item_count (http_error (some status)) c).1
      ≡ record c { error_http = c.error_http + 1 }
unfolding handle
handle-http_counters item_count status c = refl

module _ (session : Session) (item_count : ℕ) (c₀ : Counters) where
  -- The last post was answered by `answer`; `counted` of the posts since `c₀` are no errors.
  abbrev pub LastAnswer : PostResult → ℕ → Counters → Type 0
  LastAnswer answer counted c =
      (k : ℕ) × (c.posts ≡ suc k)
      × ((session k).0 ≡ answer)
      × (c.error_http + c.error_io + c₀.posts + counted ≡ c₀.error_http + c₀.error_io + c.posts)

  abbrev pub Published : Result PublishError (Unit {0}) → Counters → Type 0
  Published (ok _) c = (c.sent ≡ c₀.sent + item_count) × LastAnswer success 1 c
  Published (err (http_error_raised (some status))) c =
      (c.sent ≡ c₀.sent)
      × LastAnswer (http_error (some status)) 0 c
      × (status < 500)
      × (status ≢ 422)
  Published (err (http_error_raised none)) c = ⊥
  Published (err unexpected_raised) c = (c.sent ≡ c₀.sent) × LastAnswer unexpected 1 c
  Published (err max_retries) c = Failed c₀ c
  Published (err out_of_fuel) c = ⊥

  http-After :
      (c : Counters) (status t : ℕ)
      → (session c.posts).0 ≡ http_error (some status)
      → Failed c₀ c
      → After (Failed c₀) Published (
        (handle item_count (http_error (some status)) (record c { posts = c.posts + 1 })).0,
        (handle item_count (http_error (some status)) (record c { posts = c.posts + 1 })).1,
        t,
      )
  http-After c status t e h =
      elim (handle-http item_count status (record c { posts = c.posts + 1 })) [
        | inl f ↦ rw (f, handle-http_counters) (ground arith)
        | inr (f, below, other) ↦
            rw (f, handle-http_counters)
              (ground arith, (c.posts, omega arith, e, ground arith), below, other)
      ]

  answer-After :
      (c : Counters) (answer : PostResult) (t : ℕ)
      → (session c.posts).0 ≡ answer
      → Failed c₀ c
      → After (Failed c₀) Published (
        (handle item_count answer (record c { posts = c.posts + 1 })).0,
        (handle item_count answer (record c { posts = c.posts + 1 })).1,
        t,
      )
  unfolding handle
  answer-After c success t e h = (ground arith, (c.posts, omega arith, e, ground arith))
  answer-After c (http_error (some status)) t e h = http-After c status t e h
  answer-After c (http_error none) t e h = ground arith
  answer-After c io_error t e h = ground arith
  answer-After c unexpected t e h = (ground arith, (c.posts, omega arith, e, ground arith))

  attempt_post-After :
      (r : Option ℕ) (c : Counters) (t : ℕ)
      → Failed c₀ c
      → After (Failed c₀) Published (attempt_post session item_count r c t)
  unfolding attempt_post
  attempt_post-After r c t h = answer-After c (session c.posts).0 (t + (session c.posts).1) refl h

  ended-Published :
      (t : LoopEnd (Result PublishError (Unit {0})) × Counters × ℕ)
      → t.0 ≢ unfinished
      → Ends (Failed c₀) Published t
      → Published (ended session t).0 (ended session t).1.0
  ended-Published (exhausted, c, t) ne h = h
  ended-Published (left r, c, t) ne h = h
  ended-Published (unfinished, c, t) ne h = absurd (ne refl)

policy_lem :
    (second : ℕ)
    → policy second
      ≡ Retry.backed_off
          (retry_backoff second)
          0
          (Retry.budgeted (max_retry_time second) none Retry.forever)
unfolding Retry.new yield_attempts
policy_lem second = refl

later-le-attempt_post :
    (session : Session) (item_count : ℕ) (r : Option ℕ) (c : Counters) (t : ℕ)
    → t ≤ (attempt_post session item_count r c t).2
unfolding attempt_post
later-le-attempt_post session item_count r c t = omega arith

publish-eq-ended :
    (session : Session) (second : ℕ) (payload : SerializedBatch) (c₀ : Counters) (now : ℕ)
    → 0 < payload.item_count
    → publish session second payload (c₀, now)
      ≡ ended session (
          for_attempts
            (attempt_post session payload.item_count)
            (suc (suc (max_retry_time second)))
            (policy second)
            c₀
            now)
unfolding publish
publish-eq-ended session second payload c₀ now h =
    let e : (payload.item_count == 0) ≡ false = ground arith in rw e

-- The fuel of `publish` is enough: the back-off sleeps at least a tick, within the budget.
for_attempts_total :
    (session : Session) (second item_count : ℕ) (c₀ : Counters) (now : ℕ)
    → 0 < second
    → (for_attempts
        (attempt_post session item_count)
        (suc (suc (max_retry_time second)))
        (policy second)
        c₀
        now).0
      ≢ unfinished
for_attempts_total session second item_count c₀ now h =
    for_attempts_ends_from (attempt_post session item_count)
      (later-le-attempt_post session item_count) (suc (max_retry_time second)) _ (policy second) c₀
      now now (omega arith) (omega arith)
      (rw policy_lem (
        AtMostFrom-budget_backoff (retry_backoff second) (max_retry_time second) now (omega arith)))

-- `publish` of a batch with items always ends, and in one of four ways: it returns, the last post
-- succeeded and the items are counted as sent once; it raises the HTTPError of the last post, whose
-- status is below 500 and not 422; it lets another exception of the last post through; or it raises
-- MaxRetriesError and every post failed. Every failed post is counted as one error.
pub publish-Published :
    (session : Session) (second : ℕ) (payload : SerializedBatch) (c₀ : Counters) (now : ℕ)
    → 0 < second
    → 0 < payload.item_count
    → let (r, p) = publish session second payload (c₀, now) in
      Published session payload.item_count c₀ r p.0
unfolding publish
publish-Published session second payload c₀ now s h =
    rw (publish-eq-ended session second payload c₀ now h) (
      ended-Published session payload.item_count c₀ _
        (for_attempts_total session second payload.item_count c₀ now s)
        (for_attempts_rule (Failed c₀) (Published session payload.item_count c₀)
          (attempt_post session payload.item_count)
          (attempt_post-After session payload.item_count c₀) (suc (suc (max_retry_time second)))
          (policy second) c₀ now (refl, omega arith)))

invalid-After :
    (session : Session) (item_count : ℕ) (r : Option ℕ) (c : Counters) (t : ℕ)
    → (session c.posts).0 ≡ http_error (some 422)
    → After {S = Counters} {R = Result PublishError (Unit {0})}
        (λ _. Unit {0})
        (λ _ _. ⊥)
        (attempt_post session item_count r c t)
unfolding attempt_post
invalid-After session item_count r c t e = rw (e, handle) tt

-- If every post is answered by the status 422, `publish` raises MaxRetriesError.
pub publish_all_invalid :
    (session : Session) (second : ℕ) (payload : SerializedBatch) (c₀ : Counters) (now : ℕ)
    → 0 < second
    → 0 < payload.item_count
    → ((k : ℕ) → (session k).0 ≡ http_error (some 422))
    → (publish session second payload (c₀, now)).0 ≡ err max_retries
publish_all_invalid session second payload c₀ now s h invalid =
    rw (publish-eq-ended session second payload c₀ now h) (
      only_max_retries _ (for_attempts_total session second payload.item_count c₀ now s) (
        for_attempts_rule (λ _. Unit) (λ _ _. ⊥) (attempt_post session payload.item_count)
          (λ r c t _. invalid-After session payload.item_count r c t (invalid c.posts))
          (suc (suc (max_retry_time second))) (policy second) c₀ now tt))
  where
    only_max_retries :
        (t : LoopEnd (Result PublishError (Unit {0})) × Counters × ℕ)
        → t.0 ≢ unfinished
        → Ends (λ _. Unit) (λ _ _. ⊥) t
        → (ended session t).0 ≡ err max_retries
    only_max_retries (exhausted, c, t) ne e = refl
    only_max_retries (left r, c, t) ne e = absurd e
    only_max_retries (unfinished, c, t) ne e = absurd (ne refl)
