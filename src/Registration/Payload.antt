-- ===== src/Registration/Payload.antt =====
-- mcp_authflow/registration/handler.py: what `register_handler` reads in the payload, and the body of
-- its answer.
use Prim.Native.String.{◌++◌ as concat}
use mcp_authflow.Prelude.{
  String, Bool, true, false, Option, none, some, List, [], ◌∷◌, if◌then◌else◌, ◌==◌, contains,
}
use mcp_authflow.Json.{Json, null, str, int, array, object, Items, nil, cons, Members, end, member}
use mcp_authflow.Registration.{ClientRegistrationRequest, RegisteredClient}

abbrev pub auth_method_public : String
auth_method_public = "none"

abbrev pub auth_method_confidential : String
auth_method_confidential = "client_secret_post"

-- payload.get(field)
unfoldable pub get_field : String → Members → Option Json
get_field field end = none
get_field field (member name value rest) =
    if name == field then some value else get_field field rest

-- all(isinstance(item, str) for item in value)
abbrev pub all_strings : Items → Bool
all_strings nil = true
all_strings (cons (str s) rest) = all_strings rest
all_strings (cons _ rest) = false

-- null counts as omitted
abbrev pub is_string_array : Option Json → Bool
is_string_array none = true
is_string_array (some null) = true
is_string_array (some (array xs)) = all_strings xs
is_string_array (some _) = false

abbrev pub is_string : Option Json → Bool
is_string none = true
is_string (some null) = true
is_string (some (str s)) = true
is_string (some _) = false

-- the first of the fields whose value fails the test
abbrev pub first_bad : (Option Json → Bool) → Members → List String → Option String
first_bad test payload [] = none
first_bad test payload (field ∷ fields) =
    if test (get_field field payload) then first_bad test payload fields else some field

abbrev pub array_fields : List String
array_fields = "redirect_uris" ∷ "grant_types" ∷ "response_types" ∷ []

abbrev pub string_fields : List String
string_fields = "client_name" ∷ "scope" ∷ "token_endpoint_auth_method" ∷ []

-- the two loops of checks; the answer is the description of the error
unfoldable pub payload_error : Members → Option String
unfolding get_field
payload_error payload = elim (first_bad is_string_array payload array_fields) [
  | some field ↦ some (concat field " must be an array of strings")
  | none ↦ elim (first_bad is_string payload string_fields) [
    | some field ↦ some (concat field " must be a string")
    | none ↦ none
  ]
]

abbrev pub strings : Items → List String
strings nil = []
strings (cons (str s) rest) = s ∷ strings rest
strings (cons _ rest) = strings rest

-- payload.get(field) or [], where the checks have passed
abbrev pub list_field : Option Json → List String
list_field (some (array xs)) = strings xs
list_field _ = []

-- payload.get(field), where the checks have passed
abbrev pub text_field : Option Json → Option String
text_field (some (str s)) = some s
text_field _ = none

abbrev pub or_code : List String → List String
or_code [] = "code" ∷ []
or_code (x ∷ xs) = x ∷ xs

-- payload.get("scope") or default_scope
abbrev pub or_default : Option String → String → String
or_default none default = default
or_default (some scope) default = if scope == "" then default else scope

abbrev pub known_fields : List String
known_fields =
    "client_name" ∷ "redirect_uris" ∷ "grant_types" ∷ "response_types"
    ∷ "token_endpoint_auth_method" ∷ "scope" ∷ []

unfoldable pub extra_members : Members → Members
extra_members end = end
extra_members (member name value rest) =
    let others = extra_members rest in
    if contains known_fields name then others else member name value others

unfoldable pub derive_grant_types_and_auth_method : List String → List String × String
derive_grant_types_and_auth_method requested =
    if contains requested "client_credentials"
    then ("client_credentials" ∷ [], auth_method_confidential)
    else ("authorization_code" ∷ "refresh_token" ∷ "device_code" ∷ [], auth_method_public)

-- the request for the registry, with the redirect URIs that were settled on
unfoldable pub parsed_request : String → List String → Members → ClientRegistrationRequest
unfolding get_field extra_members derive_grant_types_and_auth_method
parsed_request default_scope redirect_uris payload =
    let (grant_types, auth_method) =
      derive_grant_types_and_auth_method (list_field (get_field "grant_types" payload)) in
    record {
      client_name = text_field (get_field "client_name" payload);
      redirect_uris = redirect_uris;
      grant_types = grant_types;
      response_types = or_code (list_field (get_field "response_types" payload));
      token_endpoint_auth_method = auth_method;
      scope = some (or_default (text_field (get_field "scope" payload)) default_scope);
      extra = extra_members payload;
    }

abbrev pub json_strings : List String → Items
json_strings [] = nil
json_strings (x ∷ xs) = cons (str x) (json_strings xs)

abbrev pub optional_member : String → Option String → Members → Members
optional_member name none rest = rest
optional_member name (some value) rest = member name (str value) rest

abbrev pub secret_members : RegisteredClient → Members
secret_members client = elim client.client_secret [
  | none ↦ end
  | some secret ↦
      member "client_secret" (str secret)
        (member "client_secret_expires_at" (int client.client_secret_expires_at) end)
]

unfoldable pub build_response_body : RegisteredClient → Json
build_response_body client = object (
    member "client_id" (str client.client_id) (
      member "client_id_issued_at" (int client.client_id_issued_at) (
        member "redirect_uris" (array (json_strings client.redirect_uris)) (
          member "response_types" (array (json_strings client.response_types)) (
            member "grant_types" (array (json_strings client.grant_types)) (
              member "token_endpoint_auth_method" (str client.token_endpoint_auth_method) (
                optional_member "client_name" client.client_name
                  (optional_member "scope" client.scope (secret_members client)))))))))
