-- ===== src/Validation.antt =====
-- mcp_authflow/validation.py. `json.loads` is the parameter `loads`. Of what it raises the
-- parsers catch JSONDecodeError alone.
pub mod Client
pub mod Fields
use text.Mathlib.Text.{starts_with}
use Prim.Native.String.{◌++◌ as concat}
use mcp_authflow.Prelude.{
  ℕ, String, Bool, true, false, ◌&&◌, ◌||◌, Option, none, some, List, [], ◌∷◌, map, leb, eqb, ◌==◌,
  if◌then◌else◌,
}
use mcp_authflow.Prelude.Method.{Result, ok, raise}
use mcp_authflow.Text.{Text, match_repeat}
use mcp_authflow.Json.{
  Json, str, array, Items, nil, cons, LoadFault, Loads, loaded, json_decode_error, load_fault,
}

-- [a-zA-Z0-9_-]
unfoldable pub is_id_char : ℕ → Bool
is_id_char c =
    (leb b'a' c && leb c b'z')
    || ((leb b'A' c && leb c b'Z') || ((leb b'0' c && leb c b'9') || (eqb c b'_' || eqb c b'-')))

-- bool(VALID_ID_PATTERN.match(client_id))
unfoldable pub validate_client_id : Text → Bool
validate_client_id client_id = match_repeat is_id_char 1 256 client_id

-- `str | list[str] | None`
pub data Field : Type 0 where
  missing : Field
  raw : String → Field
  listed : List String → Field

abbrev pub items : Items → List Json
items nil = []
items (cons x xs) = x ∷ items xs

-- what `parse_json_field` makes of what `json.loads` does
unfoldable pub list_of_json : List String → Loads → Result LoadFault (List Json)
list_of_json default (loaded (array xs)) = ok (items xs)
list_of_json default (load_fault fault) = raise fault
list_of_json default _ = ok (map str default)

-- The result is a list of JSON values: what is listed in a JSON array is not looked at.
unfoldable pub parse_json_field :
    (String → Loads) → Field → List String → Result LoadFault (List Json)
unfolding list_of_json
parse_json_field loads missing default = ok (map str default)
parse_json_field loads (listed []) default = ok (map str default)
parse_json_field loads (listed (x ∷ xs)) default = ok (map str (x ∷ xs))
parse_json_field loads (raw value) default =
    if value == "" then ok (map str default) else list_of_json default (loads value)

-- what leaves `parse_scope_field` as an exception
pub data ScopeError : Type 0 where
  type_error : ScopeError
  uncaught : LoadFault → ScopeError

-- " ".join(scopes)
unfoldable pub join_spaces : List String → String
join_spaces [] = ""
join_spaces (x ∷ []) = x
join_spaces (x ∷ y ∷ ys) = concat x (concat " " (join_spaces (y ∷ ys)))

-- " ".join(parsed), which raises TypeError at an item that is no text
abbrev pub texts : Items → Option (List String)
texts nil = some []
texts (cons (str s) xs) = elim (texts xs) [ none ↦ none | some ss ↦ some (s ∷ ss) ]
texts (cons _ xs) = none

abbrev pub join_items : Items → Result ScopeError String
join_items xs = elim (texts xs) [ none ↦ raise type_error | some ss ↦ ok (join_spaces ss) ]

-- the `try` block, with what `json.loads` does
unfoldable pub scope_of_json : String → Loads → Result ScopeError String
scope_of_json scopes (loaded (array xs)) = join_items xs
scope_of_json scopes (load_fault fault) = raise (uncaught fault)
scope_of_json scopes _ = ok scopes

unfoldable pub parse_scope_field : (String → Loads) → Field → Result ScopeError String
parse_scope_field loads missing = ok "read"
parse_scope_field loads (listed []) = ok "read"
parse_scope_field loads (listed (x ∷ xs)) = ok (join_spaces (x ∷ xs))
parse_scope_field loads (raw scopes) =
    if scopes == ""
    then ok "read"
    else if starts_with scopes "["
    then scope_of_json scopes (loads scopes)
    else ok scopes
