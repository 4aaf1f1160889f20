-- ===== src/Responses/Headers.antt =====
-- The headers of the responses that tell a client to wait.
use mcp_authflow.Prelude.{ℕ, ◌<◌, ◌≡◌, refl, String, some, arith}
use mcp_authflow.Text.{Text, codes}
use mcp_authflow.Dict
use mcp_authflow.Dict.{Dict, get-put, get-empty}
use mcp_authflow.Responses.{
  JsonResponse, oauth_no_cache_headers, update, oauth_error, decimal, retry_after_header,
  rate_limit_exceeded, slow_down,
}
use mcp_authflow.Responses.Decimal.{read_from, read_from-decimal}

-- The response may not be stored, and its `Retry-After` reads as `n`.
pub record TellsToWait (n : ℕ) (response : JsonResponse) : Type 0 where
  pub not_stored : Dict.get response.headers "Cache-Control" ≡ some (codes "no-store")
  pub value : Text
  pub present : Dict.get response.headers "Retry-After" ≡ some value
  pub reads : read_from 0 value ≡ n

oauth_error-TellsToWait :
    (error description : String) (status n : ℕ)
    → TellsToWait n (oauth_error error description status (some ("Retry-After", decimal n)))
unfolding oauth_error update oauth_no_cache_headers
oauth_error-TellsToWait error description status n = record {
  not_stored = rw (get-put, get-put) refl;
  value = decimal n;
  present = rw get-put refl;
  reads = read_from-decimal n;
}

positive_header : (n : ℕ) → 0 < n → retry_after_header (some n) ≡ some ("Retry-After", decimal n)
unfolding retry_after_header
positive_header n h = ground arith

-- Both responses that carry a positive number of seconds to wait tell it to the client, in decimal,
-- and may not be stored.
pub retry_after-TellsToWait :
    (description : String) (n : ℕ)
    → 0 < n
    → TellsToWait n (slow_down description (some n))
      × TellsToWait n (rate_limit_exceeded description (some n))
unfolding slow_down rate_limit_exceeded
retry_after-TellsToWait description n positive = (
  rw (positive_header n positive) (oauth_error-TellsToWait "slow_down" description 400 n),
  rw (positive_header n positive) (oauth_error-TellsToWait "too_many_requests" description 429 n),
)
