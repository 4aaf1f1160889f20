-- ===== src/Cors.antt =====
-- mcp_authflow/cors.py. `os.getenv(env_var, "")` and the request's `origin` header, "" where there is
-- none, are arguments; `is_space` is the table of what `str.strip` takes away.
pub mod Listing
pub mod Written
pub mod Origins
use mcp_authflow.Prelude.{
  ℕ, String, Bool, true, false, not, ◌||◌, Option, none, some, List, [], ◌∷◌, ◌++◌, select, map,
  eqb, if◌then◌else◌,
}
use mcp_authflow.Text.{Text, codes, same_text}
use mcp_authflow.Dict
use mcp_authflow.Dict.{Dict}

abbrev pub comma : ℕ
comma = b','

-- the first piece of `split(",")` gets `c` in front of it
abbrev pub push_front : ℕ → List Text → List Text
push_front c [] = (c ∷ []) ∷ []
push_front c (piece ∷ pieces) = (c ∷ piece) ∷ pieces

-- raw.split(",")
unfoldable pub split_commas : Text → List Text
split_commas [] = [] ∷ []
split_commas (c ∷ cs) =
    let pieces = split_commas cs in if eqb c comma then [] ∷ pieces else push_front c pieces

abbrev pub is_empty : Text → Bool
is_empty [] = true
is_empty (c ∷ cs) = false

module _ (is_space : ℕ → Bool) where
  unfoldable pub lstrip : Text → Text
  lstrip [] = []
  lstrip (c ∷ cs) = let rest = lstrip cs in if is_space c then rest else c ∷ cs

  -- a character goes if it is a space and all behind it are
  unfoldable pub rstrip : Text → Text
  rstrip [] = []
  rstrip (c ∷ cs) =
      let rest = rstrip cs in
      if is_empty rest then (if is_space c then [] else c ∷ []) else c ∷ rest

  unfoldable pub strip : Text → Text
  unfolding lstrip rstrip
  strip s = rstrip (lstrip s)

  -- [origin.strip() for origin in pieces if origin.strip()]
  unfoldable pub stripped : List Text → List Text
  unfolding strip
  stripped [] = []
  stripped (piece ∷ pieces) =
      let rest = stripped pieces in
      let origin = strip piece in if is_empty origin then rest else origin ∷ rest

  unfoldable pub parse_allowed_origins : Text → List Text
  unfolding split_commas stripped
  parse_allowed_origins raw = if is_empty raw then [] else stripped (split_commas raw)

-- request_origin in allowed_origins
unfoldable pub is_allowed_origin : List Text → Text → Bool
is_allowed_origin [] origin = false
is_allowed_origin (allowed ∷ rest) origin =
    same_text allowed origin || is_allowed_origin rest origin

unfoldable pub get_cors_origin : Text → List Text → Text
unfolding is_allowed_origin
get_cors_origin request_origin allowed_origins =
    if is_allowed_origin allowed_origins request_origin then request_origin else []

unfoldable pub fixed_headers : Dict Text
fixed_headers =
    Dict.put
      (Dict.put (Dict.put Dict.empty "Access-Control-Allow-Methods" (codes "GET, OPTIONS"))
        "Access-Control-Allow-Headers" (codes "Authorization, Content-Type, Accept"))
      "Vary" (codes "Origin")

unfoldable pub build_cors_headers : Text → List Text → Dict Text
unfolding fixed_headers get_cors_origin
build_cors_headers request_origin allowed_origins =
    let origin = get_cors_origin request_origin allowed_origins in
    if is_empty origin
    then fixed_headers
    else Dict.put fixed_headers "Access-Control-Allow-Origin" origin
