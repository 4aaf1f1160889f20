-- ===== src/Device/Response.antt =====
-- mcp_authflow/device.py: `generate_device_code` and the device authorization response. `urllib.parse` and
-- `secrets.token_hex` are parameters.
use mathlib.Core.Option
use mcp_authflow.Prelude.{ℕ, String, Option, none, some, List, [], ◌∷◌, ◌++◌}

-- what `urlsplit` gives
pub record SplitResult : Type 0 where
  pub scheme : String
  pub netloc : String
  pub path : String
  pub query : String
  pub fragment : String

-- `urlsplit` raises ValueError where it is `none`; `parse_qsl` keeps blank values.
pub record Urllib : Type 0 where
  pub urlsplit : String → Option SplitResult
  pub urlunsplit : SplitResult → String
  pub parse_qsl : String → List (String × String)
  pub urlencode : List (String × String) → String

pub record DeviceAuthorizationResponse : Type 0 where
  pub device_code : String
  pub user_code : String
  pub verification_uri : String
  pub verification_uri_complete : String
  pub expires_in : ℕ
  pub interval : ℕ

-- secrets.token_hex(length)
unfoldable pub generate_device_code :
    {Draws : Type 0} → (ℕ → Draws → String × Draws) → ℕ → Draws → String × Draws
generate_device_code token_hex length draws = token_hex length draws

module _ (urllib : Urllib) where
  open urllib use {urlsplit, urlunsplit, parse_qsl, urlencode}

  -- the query with the code behind it
  abbrev pub with_code : SplitResult → String → SplitResult
  with_code parts user_code = record parts {
    query = urlencode (parse_qsl parts.query ++ ("code", user_code) ∷ []);
  }

  -- `none` where it raises ValueError
  unfoldable pub append_user_code : String → String → Option String
  append_user_code verification_uri user_code =
      Option.map (λ parts. urlunsplit (with_code parts user_code)) (urlsplit verification_uri)

  unfoldable pub complete_uri : String → String → Option String → Option String
  unfolding append_user_code
  complete_uri verification_uri user_code none = append_user_code verification_uri user_code
  complete_uri verification_uri user_code (some uri) = some uri

  unfoldable pub build_device_authorization_response :
      String → String → String → ℕ → ℕ → Option String → Option DeviceAuthorizationResponse
  unfolding complete_uri
  build_device_authorization_response device_code user_code verification_uri expires_in interval
        uri =
      Option.map
        (λ complete. record {
          device_code = device_code;
          user_code = user_code;
          verification_uri = verification_uri;
          verification_uri_complete = complete;
          expires_in = expires_in;
          interval = interval;
        })
        (complete_uri verification_uri user_code uri)
