-- ===== src/Registration/Redirect.antt =====
-- mcp_authflow/registration/handler.py: `_default_redirect_uri_valid`. `urllib.parse.urlparse` is
-- the parameter `urlparse`, `none` where it raises ValueError.
use mcp_authflow.Prelude.{
  ℕ, ◌+◌, ◌≡◌, ◌≢◌, String, Bool, true, false, not, ◌&&◌, Option, none, some, List, [], ◌∷◌, map,
  leb, if◌then◌else◌, ◌==◌, contains, arith, eq_iff, ◌↔◌, ◌⊎◌, inl, inr, Option-cases,
}
use mcp_authflow.Text.{Text, codes, same_text, same_text_iff}

-- The parts of a URI that the policy reads. A scheme is a text of ASCII.
pub record ParseResult : Type 0 where
  pub scheme : Text
  pub fragment : String
  pub hostname : Option String

-- `lower()` of ASCII
abbrev pub ascii_lower : ℕ → ℕ
ascii_lower c = if leb b'A' c && leb c b'Z' then c + 32 else c

abbrev pub loopback_hosts : List String
loopback_hosts = "localhost" ∷ "127.0.0.1" ∷ "::1" ∷ []

-- bool(parsed.hostname)
abbrev pub has_host : Option String → Bool
has_host none = false
has_host (some host) = not (host == "")

-- parsed.hostname in _LOOPBACK_HOSTS
abbrev pub is_loopback : Option String → Bool
is_loopback none = false
is_loopback (some host) = contains loopback_hosts host

unfoldable pub parsed_valid : ParseResult → Bool
parsed_valid parsed =
    if not (parsed.fragment == "")
    then false
    else if same_text (map ascii_lower parsed.scheme) (codes "https")
    then has_host parsed.hostname
    else if same_text (map ascii_lower parsed.scheme) (codes "http")
    then is_loopback parsed.hostname
    else false

unfoldable pub default_redirect_uri_valid : (String → Option ParseResult) → String → Bool
unfolding parsed_valid
default_redirect_uri_valid urlparse uri = elim (urlparse uri) [
  | none ↦ false
  | some parsed ↦ parsed_valid parsed
]

-- What the default policy asks of a parsed URI.
pub record Permits (parsed : ParseResult) : Type 0 where
  pub host : String
  pub no_fragment : parsed.fragment ≡ ""
  pub hosted : parsed.hostname ≡ some host
  pub secure :
      ((map ascii_lower parsed.scheme ≡ codes "https") × (host ≢ ""))
      ⊎ ((map ascii_lower parsed.scheme ≡ codes "http")
          × ((host ≡ "localhost") ⊎ ((host ≡ "127.0.0.1") ⊎ (host ≡ "::1"))))

parsed_valid-Permits : (parsed : ParseResult) → parsed_valid parsed ≡ true → Permits parsed
unfolding parsed_valid
parsed_valid-Permits parsed h = elim (Option-cases parsed.hostname) [
  | inl e ↦ absurd (ground arith)
  | inr (host, e) ↦ record {
    host = host;
    no_fragment = ground (arith, eq_iff parsed.fragment "");
    hosted = e;
    secure = ground (
      arith,
      same_text_iff (map ascii_lower parsed.scheme) (codes "https"),
      same_text_iff (map ascii_lower parsed.scheme) (codes "http"),
      eq_iff host "",
      eq_iff "localhost" host,
      eq_iff "127.0.0.1" host,
      eq_iff "::1" host,
    );
  }
]

-- The default policy accepts a URI exactly when it parses, has no fragment, and is an `https` URI
-- with a host or an `http` URI of a loopback host.
pub default_redirect_uri_valid_iff :
    (urlparse : String → Option ParseResult) (uri : String)
    → (default_redirect_uri_valid urlparse uri ≡ true)
      ↔ ((parsed : ParseResult) × (urlparse uri ≡ some parsed) × Permits parsed)
unfolding default_redirect_uri_valid
default_redirect_uri_valid_iff urlparse uri = (
  λ h. elim (Option-cases (urlparse uri)) [
    | inl e ↦ absurd (ground arith)
    | inr (parsed, e) ↦ (parsed, e, parsed_valid-Permits parsed (ground arith))
  ],
  λ (parsed, e, p).
      unfold parsed_valid in
      ground (
        arith,
        e,
        p.no_fragment,
        p.hosted,
        p.secure,
        same_text_iff (map ascii_lower parsed.scheme) (codes "https"),
        same_text_iff (map ascii_lower parsed.scheme) (codes "http"),
        eq_iff parsed.fragment "",
        eq_iff p.host "",
        eq_iff "localhost" p.host,
        eq_iff "127.0.0.1" p.host,
        eq_iff "::1" p.host,
      ),
)
