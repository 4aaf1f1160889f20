-- ===== src/Responses.antt =====
-- mcp_authflow/responses.py. A `JSONResponse` of Starlette is kept as what it is made of: the
-- content, the status and the headers. Its rendering as UTF-8, which raises UnicodeEncodeError where
-- a text holds a lone surrogate, is left to `handle` of Registration/Handler.
pub mod Decimal
pub mod Headers
use mcp_authflow.Prelude.{
  ℕ, zero, suc, ◌+◌, ◌/◌, ◌%◌, String, Option, none, some, [], ◌∷◌, eqb, ltb, if◌then◌else◌,
}
use mcp_authflow.Text.{Text, codes}
use mcp_authflow.Dict
use mcp_authflow.Dict.{Dict}
use mcp_authflow.Json.{Json, str, object, end, member}

pub record JsonResponse : Type 0 where
  pub content : Json
  pub status_code : ℕ
  pub headers : Dict Text

-- The decimal digits of a number, before the text `after`. Each digit uses one of `fuel`, and a
-- number has fewer digits than it has units, but for zero.
unfoldable pub digits : ℕ → ℕ → Text → Text
digits zero n after = after
digits (suc fuel) n after =
    let shown = (b'0' + n % 10) ∷ after in
    let longer = digits fuel (n / 10) shown in if ltb n 10 then shown else longer

-- str(n)
unfoldable pub decimal : ℕ → Text
unfolding digits
decimal n = digits (suc n) n []

unfoldable pub oauth_no_cache_headers : Dict Text
oauth_no_cache_headers = Dict.put Dict.empty "Cache-Control" (codes "no-store")

-- `headers.update(extra_headers)`; the program adds one header at most
unfoldable pub update : Dict Text → Option (String × Text) → Dict Text
update headers none = headers
update headers (some (name, value)) = Dict.put headers name value

unfoldable pub oauth_error : String → String → ℕ → Option (String × Text) → JsonResponse
unfolding oauth_no_cache_headers update
oauth_error error description status_code extra_headers = record {
  content = object (member "error" (str error) (member "error_description" (str description) end));
  status_code = status_code;
  headers = update oauth_no_cache_headers extra_headers;
}

-- {"Retry-After": str(retry_after)} if retry_after else None
unfoldable pub retry_after_header : Option ℕ → Option (String × Text)
unfolding decimal
retry_after_header none = none
retry_after_header (some retry_after) =
    if eqb retry_after 0 then none else some ("Retry-After", decimal retry_after)

unfoldable pub invalid_request : String → JsonResponse
unfolding oauth_error
invalid_request description = oauth_error "invalid_request" description 400 none

unfoldable pub invalid_client : String → JsonResponse
unfolding oauth_error
invalid_client description = oauth_error "invalid_client" description 401 none

unfoldable pub slow_down : String → Option ℕ → JsonResponse
unfolding oauth_error retry_after_header
slow_down description retry_after =
    oauth_error "slow_down" description 400 (retry_after_header retry_after)

unfoldable pub rate_limit_exceeded : String → Option ℕ → JsonResponse
unfolding oauth_error retry_after_header
rate_limit_exceeded description retry_after =
    oauth_error "too_many_requests" description 429 (retry_after_header retry_after)

unfoldable pub server_error : String → ℕ → JsonResponse
unfolding oauth_error
server_error description status_code = oauth_error "server_error" description status_code none

unfoldable pub backend_timeout : JsonResponse
unfolding server_error
backend_timeout = server_error "Backend timeout" 504

unfoldable pub backend_connection_error : JsonResponse
unfolding server_error
backend_connection_error = server_error "Backend connection error" 502

unfoldable pub backend_invalid_response : JsonResponse
unfolding server_error
backend_invalid_response = server_error "Invalid response from backend" 502

unfoldable pub invalid_grant : String → JsonResponse
unfolding oauth_error
invalid_grant description = oauth_error "invalid_grant" description 400 none

unfoldable pub invalid_scope : String → JsonResponse
unfolding oauth_error
invalid_scope description = oauth_error "invalid_scope" description 400 none

unfoldable pub unsupported_grant_type : String → JsonResponse
unfolding oauth_error
unsupported_grant_type description = oauth_error "unsupported_grant_type" description 400 none

unfoldable pub access_denied : String → JsonResponse
unfolding oauth_error
access_denied description = oauth_error "access_denied" description 400 none

unfoldable pub invalid_redirect_uri : String → JsonResponse
unfolding oauth_error
invalid_redirect_uri description = oauth_error "invalid_redirect_uri" description 400 none

unfoldable pub authorization_pending : String → JsonResponse
unfolding oauth_error
authorization_pending description = oauth_error "authorization_pending" description 400 none

unfoldable pub expired_token : String → JsonResponse
unfolding oauth_error
expired_token description = oauth_error "expired_token" description 400 none

unfoldable pub pkce_required : String → JsonResponse
unfolding oauth_error
pkce_required description = oauth_error "invalid_request" description 400 none

-- `error_dict` as the JSON object that it is sent as
unfoldable pub backend_oauth_error : Json → ℕ → JsonResponse
unfolding oauth_no_cache_headers
backend_oauth_error error_dict status_code = record {
  content = error_dict;
  status_code = status_code;
  headers = oauth_no_cache_headers;
}
