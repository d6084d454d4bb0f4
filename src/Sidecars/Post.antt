-- ===== src/Sidecars/Post.antt =====
-- What the publishers need of their surroundings: the HTTP session, which answers each post after
-- some time, and the counters of the metrics client.
use baseplate_py.Prelude.{ℕ, Option}

-- How `session.post` and `raise_for_status` end. A `requests.HTTPError` may come without a
-- response; `io_error` is any other `OSError`, and `unexpected` any other exception.
pub data PostResult : Type 0 where
  success : PostResult
  http_error : Option ℕ → PostResult
  io_error : PostResult
  unexpected : PostResult

-- The k-th post gives a result and takes some ticks.
abbrev pub Session : Type 0
Session = ℕ → PostResult × ℕ

pub record Counters : Type 0 where
  pub posts : ℕ
  pub error_http : ℕ
  pub error_io : ℕ
  pub sent : ℕ

pub data PublishError : Type 0 where
  http_error_raised : Option ℕ → PublishError
  unexpected_raised : PublishError
  max_retries : PublishError
  out_of_fuel : PublishError
