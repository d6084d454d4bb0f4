-- ===== src/Sidecars/TracePublisher/Outcome.antt =====
-- How `ZipkinPublisher.publish` ends, and what its counters say then.
use baseplate_py.Prelude.{
  ℕ, false, ◌⊎◌, suc, ◌+◌, ◌≡◌, refl, ◌≢◌, ◌≤◌, ◌<◌, Option, none, some, Result, ok, err, arith,
  inl, inr, ◌==◌,
}
use baseplate_py.Retry
use baseplate_py.Retry.{yield_attempts}
use baseplate_py.Retry.Loop.{
  proceed, leave, LoopEnd, exhausted, left, unfinished, for_attempts, for_attempts_ends, AtMost,
}
use baseplate_py.Retry.Count.{AtMost-new}
use baseplate_py.Retry.Rule.{After, Ends, for_attempts_rule, for_attempts_limit}
use baseplate_py.Sidecars.Batch.{SerializedBatch}
use baseplate_py.Sidecars.Post.{
  PostResult, success, http_error, io_error, unexpected, Session, Counters, PublishError,
  http_error_raised, unexpected_raised, max_retries, out_of_fuel,
}
use baseplate_py.Sidecars.TracePublisher.{policy, handle, attempt_post, ended, publish}

-- Since `c₀` each post failed and was counted as one error, and nothing was counted as sent.
abbrev pub Failed : Counters → Counters → Type 0
Failed c₀ c =
    (c.sent ≡ c₀.sent)
    × (c.error_http + c.error_io + c₀.posts ≡ c₀.error_http + c₀.error_io + c.posts)

handle-http :
    (item_count status : ℕ) (c : Counters)
    → ((handle item_count (http_error (some status)) c).0 ≡ proceed)
      ⊎ ((handle item_count (http_error (some status)) c).0
          ≡ leave (err (http_error_raised (some status))))
        × (status < 500)
unfolding handle
handle-http item_count status c = ground arith

handle-http_counters :
    (item_count status : ℕ) (c : Counters)
    → (handle item_count (http_error (some status)) c).1
      ≡ record c { error_http = c.error_http + 1 }
unfolding handle
handle-http_counters item_count status c = refl

module _ (session : Session) (item_count : ℕ) (c₀ : Counters) where
  -- The last post was answered by `answer`; `counted` of the posts since `c₀` are no errors.
  abbrev pub LastAnswer : PostResult → ℕ → Counters → Type 0
  LastAnswer answer counted c =
      (k : ℕ) × (c.posts ≡ suc k)
      × ((session k).0 ≡ answer)
      × (c.error_http + c.error_io + c₀.posts + counted ≡ c₀.error_http + c₀.error_io + c.posts)

  abbrev pub Published : Result PublishError (Unit {0}) → Counters → Type 0
  Published (ok _) c = (c.sent ≡ c₀.sent + item_count) × LastAnswer success 1 c
  Published (err (http_error_raised (some status))) c =
      (c.sent ≡ c₀.sent) × LastAnswer (http_error (some status)) 0 c × (status < 500)
  Published (err (http_error_raised none)) c = ⊥
  Published (err unexpected_raised) c = (c.sent ≡ c₀.sent) × LastAnswer unexpected 1 c
  Published (err max_retries) c = Failed c₀ c
  Published (err out_of_fuel) c = ⊥

  http-After :
      (c : Counters) (status t : ℕ)
      → (session c.posts).0 ≡ http_error (some status)
      → Failed c₀ c
      → After (Failed c₀) Published (
        (handle item_count (http_error (some status)) (record c { posts = c.posts + 1 })).0,
        (handle item_count (http_error (some status)) (record c { posts = c.posts + 1 })).1,
        t,
      )
  http-After c status t e h =
      elim (handle-http item_count status (record c { posts = c.posts + 1 })) [
        | inl f ↦ rw (f, handle-http_counters) (ground arith)
        | inr (f, below) ↦
            rw (f, handle-http_counters)
              (ground arith, (c.posts, omega arith, e, ground arith), below)
      ]

  answer-After :
      (c : Counters) (answer : PostResult) (t : ℕ)
      → (session c.posts).0 ≡ answer
      → Failed c₀ c
      → After (Failed c₀) Published (
        (handle item_count answer (record c { posts = c.posts + 1 })).0,
        (handle item_count answer (record c { posts = c.posts + 1 })).1,
        t,
      )
  unfolding handle
  answer-After c success t e h = (ground arith, (c.posts, omega arith, e, ground arith))
  answer-After c (http_error (some status)) t e h = http-After c status t e h
  answer-After c (http_error none) t e h = ground arith
  answer-After c io_error t e h = ground arith
  answer-After c unexpected t e h = (ground arith, (c.posts, omega arith, e, ground arith))

  attempt_post-After :
      (r : Option ℕ) (c : Counters) (t : ℕ)
      → Failed c₀ c
      → After (Failed c₀) Published (attempt_post session item_count r c t)
  unfolding attempt_post
  attempt_post-After r c t h = answer-After c (session c.posts).0 (t + (session c.posts).1) refl h

  ended-Published :
      (t : LoopEnd (Result PublishError (Unit {0})) × Counters × ℕ)
      → t.0 ≢ unfinished
      → Ends (Failed c₀) Published t
      → Published (ended session t).0 (ended session t).1.0
  ended-Published (exhausted, c, t) ne h = h
  ended-Published (left r, c, t) ne h = h
  ended-Published (unfinished, c, t) ne h = absurd (ne refl)

posts-attempt_post :
    (session : Session) (item_count : ℕ) (r : Option ℕ) (c : Counters) (t : ℕ)
    → (attempt_post session item_count r c t).1.posts ≡ c.posts + 1
unfolding attempt_post
posts-attempt_post session item_count r c t = ground arith

posts-ended :
    (session : Session) (t : LoopEnd (Result PublishError (Unit {0})) × Counters × ℕ)
    → (ended session t).1.0.posts ≡ t.1.posts
posts-ended session (exhausted, c, t) = refl
posts-ended session (left r, c, t) = refl
posts-ended session (unfinished, c, t) = refl

module _ (session : Session) (retry_limit : ℕ) where
  publish-eq-ended :
      (payload : SerializedBatch) (c₀ : Counters) (now : ℕ)
      → 0 < payload.item_count
      → publish session retry_limit payload (c₀, now)
        ≡ ended session (
            for_attempts
              (attempt_post session payload.item_count)
              (suc retry_limit)
              (policy retry_limit)
              c₀
              now)
  unfolding publish
  publish-eq-ended payload c₀ now h =
      let e : (payload.item_count == 0) ≡ false = ground arith in rw e

  AtMost-policy : AtMost retry_limit (policy retry_limit)
  unfolding Retry.new
  AtMost-policy = AtMost-new retry_limit none none _ refl

  -- `publish` of a batch with items ends after at most `retry_limit` posts, and in one of four
  -- ways: it returns, the last post succeeded and the items are counted as sent once; it raises the
  -- HTTPError of the last post, whose status is below 500; it lets another exception of the last
  -- post through; or it raises MaxRetriesError and every post failed. Every failed post is counted
  -- as one error.
  pub publish_traces_outcome :
      (payload : SerializedBatch) (c₀ : Counters) (now : ℕ)
      → 0 < payload.item_count
      → let (r, p) = publish session retry_limit payload (c₀, now) in
        Published session payload.item_count c₀ r p.0 × (p.0.posts ≤ c₀.posts + retry_limit)
  publish_traces_outcome payload c₀ now h = rw (publish-eq-ended payload c₀ now h) (
    ended-Published session payload.item_count c₀ _
        (for_attempts_ends (attempt_post session payload.item_count) retry_limit _
          (policy retry_limit) c₀ now (omega arith) AtMost-policy)
        (for_attempts_rule (Failed c₀) (Published session payload.item_count c₀)
          (attempt_post session payload.item_count)
          (attempt_post-After session payload.item_count c₀) (suc retry_limit) (policy retry_limit)
          c₀ now (refl, omega arith)),
    rw posts-ended (
        for_attempts_limit (λ c. c.posts) (attempt_post session payload.item_count)
          (posts-attempt_post session payload.item_count) retry_limit (suc retry_limit)
          (policy retry_limit) c₀ now AtMost-policy),
  )
